-- ===== src/Parsing/Tests.antt =====
-- Concrete frames, and the theorems on them.
use Prim.Native.String.{String}
use dpdk_folder.Prelude.{
  ℕ, zero, suc, Option, none, some, true, false, List, [], ◌∷◌, ◌++◌, ◌≡◌, refl, arith, pos,
}
use dpdk_folder.Dpdk.{Mbuf, Driver, trace_of}
use dpdk_folder.Dpdk.Ownership.{received, released, IsBalanced}
use dpdk_folder.Parsing.Reader.{banner, number, mac, ip, is_some}
use dpdk_folder.Parsing.Frames.{
  Mac, Octets, AreBytes, Ipv4Header, Segment, tcp, udp, ipv4_frame, mac_bytes,
}
use dpdk_folder.Parsing.PacketProcess.{print_mbuf_data}
use dpdk_folder.Parsing.PacketProcess.Decode.{print_mbuf_data-ipv4_frame}
use dpdk_folder.Parsing.PacketProcess.Bounds.{print_mbuf_data_in_bounds}
use dpdk_folder.Parsing.ProcessPacket.{process_packet}
use dpdk_folder.Parsing.ProcessPacket.Owners.{process_packet_releases_twice}
use dpdk_folder.Parsing.MbufInfo.{Metadata}
use dpdk_folder.Parsing.Parse.{parsing_logic}
use dpdk_folder.Parsing.Parse.Decode.{parsing_logic-ipv4_frame}
use dpdk_folder.Parsing.RxLoop.{PacketType}
use dpdk_folder.Parsing.Mains.{parsing_main, receiving_main}
use dpdk_folder.Parsing.Mains.Serving.{IsThere, receivers-Serve}
use dpdk_folder.Dpdk.Rules.{Ends, Serves, nothing}

abbrev broadcast : Mac
broadcast = record { b0 = 255; b1 = 255; b2 = 255; b3 = 255; b4 = 255; b5 = 255 }

abbrev host : Mac
host = record { b0 = 2; b1 = 17; b2 = 34; b3 = 51; b4 = 68; b5 = 85 }

abbrev from : Octets
from = record { o0 = 192; o1 = 168; o2 = 0; o3 = 1 }

abbrev to : Octets
to = record { o0 = 10; o1 = 1; o2 = 2; o3 = 3 }

from-AreBytes : AreBytes from
from-AreBytes = record {
  lt0 = omega arith;
  lt1 = omega arith;
  lt2 = omega arith;
  lt3 = omega arith;
}

to-AreBytes : AreBytes to
to-AreBytes = record { lt0 = omega arith; lt1 = omega arith; lt2 = omega arith; lt3 = omega arith }

abbrev header : Ipv4Header
header = record {
  tos = 0;
  len0 = 0;
  len1 = 48;
  id0 = 0;
  id1 = 1;
  off0 = 0;
  off1 = 0;
  ttl = 64;
  sum0 = 1;
  sum1 = 2;
  src = from;
  dst = to;
}

abbrev http : Segment
http =
    tcp (record { hi = 31; lo = 144 }) (record { hi = 0; lo = 80 })
      (record { o0 = 0; o1 = 0; o2 = 1; o3 = 0 })
      (0 ∷ 0 ∷ 0 ∷ 0 ∷ 80 ∷ 2 ∷ 0 ∷ 0 ∷ 0 ∷ 0 ∷ 0 ∷ 0 ∷ [])

abbrev dns : Segment
dns = udp (record { hi = 4; lo = 0 }) (record { hi = 0; lo = 53 }) (0 ∷ 8 ∷ 0 ∷ 0 ∷ [])

print_mbuf_data-ipv4_frame_example :
    print_mbuf_data (ipv4_frame broadcast host 0 header [] http)
    ≡ some (
        banner "L2:"
        ∷ mac "SRC MAC" (2 ∷ 17 ∷ 34 ∷ 51 ∷ 68 ∷ 85 ∷ [])
        ∷ mac "DST MAC" (255 ∷ 255 ∷ 255 ∷ 255 ∷ 255 ∷ 255 ∷ [])
        ∷ banner "L3: IPv4"
        ∷ ip "SRC IP" (1 ∷ 0 ∷ 168 ∷ 192 ∷ [])
        ∷ ip "DST IP" (3 ∷ 2 ∷ 1 ∷ 10 ∷ [])
        ∷ banner "L4: TCP"
        ∷ number "SRC PORT" 8080
        ∷ number "DST PORT" 80
        ∷ number "SEQ NO" 256
        ∷ [])
print_mbuf_data-ipv4_frame_example =
    print_mbuf_data-ipv4_frame broadcast host 0 header [] http (omega arith) refl (omega arith)
      from-AreBytes to-AreBytes

print_mbuf_data_in_bounds_example : is_some (print_mbuf_data (mac_bytes host)) ≡ true
print_mbuf_data_in_bounds_example = print_mbuf_data_in_bounds (mac_bytes host) (λ e. cc)

abbrev zeros : ℕ → List ℕ
zeros zero = []
zeros (suc n) = 0 ∷ zeros n

-- An Ethernet and an IPv6 header that announces TCP.
abbrev ipv6_head : List ℕ
ipv6_head =
    mac_bytes broadcast
    ++ mac_bytes host
    ++ 0x86 ∷ 0xdd ∷ 96 ∷ 0 ∷ 0 ∷ 0 ∷ 0 ∷ 20 ∷ 6 ∷ 64 ∷ zeros 16

abbrev one_packet : Mbuf
one_packet = record { addr = 9; bytes = ipv4_frame broadcast host 0 header [] dns }

-- A driver whose bursts bring one packet, and which sends nothing.
abbrev quiet : Driver
quiet = record { int = λ n r. pos 0; word = λ n r. 0; burst = λ n r. one_packet ∷ [] }

process_packet_releases_twice_example :
    (received 9 (trace_of (process_packet 0 quiet [])) ≡ 1)
    × (released 9 (trace_of (process_packet 0 quiet [])) ≡ 2)
process_packet_releases_twice_example = process_packet_releases_twice quiet [] 0 9 refl

abbrev metadata : Metadata
metadata = record {
  port = 0;
  pkt_len = 46;
  data_off = 128;
  packet_type = 0;
  buf_len = 2176;
  nb_segs = 1;
  ol_flags = 0;
  inner_l2_type = 0;
  inner_l3_type = 0;
  inner_l4_type = 0;
}

abbrev no_text : List ℕ → ℕ → Option String
no_text _ _ = none

-- The version in the first four bits behind `offset`.
abbrev high_nibble : List ℕ → ℕ → Option ℕ
high_nibble pkt offset = some 6

parsing_logic-ipv4_frame_example :
    parsing_logic no_text high_nibble (ipv4_frame broadcast host 0 header [] dns) false
    ≡ some (
      mac "Source MAC address" (2 ∷ 17 ∷ 34 ∷ 51 ∷ 68 ∷ 85 ∷ [])
          ∷ mac "Destination MAC address" (255 ∷ 255 ∷ 255 ∷ 255 ∷ 255 ∷ 255 ∷ [])
          ∷ banner "IP : IPV4"
          ∷ ip "source address" (192 ∷ 168 ∷ 0 ∷ 1 ∷ [])
          ∷ ip "destination address" (10 ∷ 1 ∷ 2 ∷ 3 ∷ [])
          ∷ banner "UDP"
          ∷ number "the source port is" 1024
          ∷ number "the destination port is" 53
          ∷ [],
      4,
    )
parsing_logic-ipv4_frame_example =
    parsing_logic-ipv4_frame no_text high_nibble broadcast host 0 header [] dns (omega arith) refl
      from-AreBytes to-AreBytes

abbrev any_type : Mbuf → PacketType
any_type m = record { l2_type = 1; l3_type = 1; l4_type = 2; pkt_len = 42 }

receivers-Serve_example :
    Ends nothing (Serves IsThere) (parsing_main 2 quiet [])
    × Ends nothing (Serves IsThere) (receiving_main any_type 2 quiet [])
    × IsBalanced [] (trace_of (receiving_main any_type 2 quiet []))
receivers-Serve_example = receivers-Serve any_type quiet 2
