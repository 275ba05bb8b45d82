-- ===== src/Parsing/PacketProcess/Decode.antt =====
-- What `print_mbuf_data` prints of an IPv4 packet, and that it stays inside the packet.
use dpdk_folder.Prelude.{
  ℕ, ◌+◌, ◌*◌, ◌%◌, ◌≤◌, some, List, [], ◌∷◌, ◌++◌, length, length-append, ◌≡◌, arith, ltb, false,
}
use mathlib.Core.List.{append_assoc, append-nil}
use dpdk_folder.Parsing.Reader.{
  Line, banner, number, mac, ip, join_be32, quad, quad-join_be32, byte_behind,
}
use dpdk_folder.Parsing.Frames.{
  Mac, mac_bytes, Octets, AreBytes, Ipv4Header, Segment, tcp, udp, segment_bytes, segment_proto,
  IsComplete, ipv4_frame, pair_value, octets_value, head_bytes,
}
use dpdk_folder.Parsing.PacketProcess.{
  print_mbuf_data, print_l3, print_arp, print_ipv4, print_ipv4_l4,
}

-- The lines for the segment.
abbrev pub segment_lines : Segment → List Line
segment_lines (tcp s d q _) =
    banner "L4: TCP"
    ∷ number "SRC PORT" (pair_value s)
    ∷ number "DST PORT" (pair_value d)
    ∷ number "SEQ NO" (octets_value q)
    ∷ []
segment_lines (udp s d _) =
    banner "L4: UDP" ∷ number "SRC PORT" (pair_value s) ∷ number "DST PORT" (pair_value d) ∷ []

-- The layer 4 behind any prefix that ends where the IPv4 header says.
print_ipv4_l4-segment :
    (pre : List ℕ) (seg : Segment) (hdr : ℕ)
    → length pre ≡ 14 + hdr
    → IsComplete seg
    → print_ipv4_l4 (pre ++ segment_bytes seg) (segment_proto seg) hdr ≡ some (segment_lines seg)
unfolding print_ipv4_l4
print_ipv4_l4-segment pre (tcp s d q rest) hdr e full = ground (
  arith,
  length-append pre (segment_bytes (tcp s d q rest)),
  byte_behind pre (segment_bytes (tcp s d q rest)) (14 + hdr) 0,
  byte_behind pre (segment_bytes (tcp s d q rest)) (14 + hdr + 1) 1,
  byte_behind pre (segment_bytes (tcp s d q rest)) (14 + hdr + 2) 2,
  byte_behind pre (segment_bytes (tcp s d q rest)) (14 + hdr + 2 + 1) 3,
  byte_behind pre (segment_bytes (tcp s d q rest)) (14 + hdr + 4) 4,
  byte_behind pre (segment_bytes (tcp s d q rest)) (14 + hdr + 4 + 1) 5,
  byte_behind pre (segment_bytes (tcp s d q rest)) (14 + hdr + 4 + 2) 6,
  byte_behind pre (segment_bytes (tcp s d q rest)) (14 + hdr + 4 + 3) 7,
)
print_ipv4_l4-segment pre (udp s d rest) hdr e full = ground (
  arith,
  length-append pre (segment_bytes (udp s d rest)),
  byte_behind pre (segment_bytes (udp s d rest)) (14 + hdr) 0,
  byte_behind pre (segment_bytes (udp s d rest)) (14 + hdr + 1) 1,
  byte_behind pre (segment_bytes (udp s d rest)) (14 + hdr + 2) 2,
  byte_behind pre (segment_bytes (udp s d rest)) (14 + hdr + 2 + 1) 3,
)

-- An address as `print_mbuf_data` shows it: `src_addr` is not converted from network order.
abbrev pub swapped : Octets → List ℕ
swapped a = a.o3 ∷ a.o2 ∷ a.o1 ∷ a.o0 ∷ []

quad-swapped : (a : Octets) → AreBytes a → quad (join_be32 a.o3 a.o2 a.o1 a.o0) ≡ swapped a
quad-swapped a b = quad-join_be32 a.o3 a.o2 a.o1 a.o0 b.lt3 b.lt2 b.lt1 b.lt0

module _ (dst src : Mac) (words : ℕ) (h : Ipv4Header) (options : List ℕ) (seg : Segment)
    (few : words ≤ 10) (sized : length options ≡ 4 * words) (full : IsComplete seg) where
  l4-frame :
      print_ipv4_l4
        (ipv4_frame dst src words h options seg)
        (segment_proto seg)
        ((69 + words) % 16 * 4)
      ≡ some (segment_lines seg)
  l4-frame =
      rw
        (← append_assoc (head_bytes dst src words (segment_proto seg) h) options
          (segment_bytes seg))
        (print_ipv4_l4-segment (head_bytes dst src words (segment_proto seg) h ++ options) seg
          ((69 + words) % 16 * 4) (omega arith) full)

  print_ipv4-frame :
      AreBytes h.src
      → AreBytes h.dst
      → print_ipv4 (ipv4_frame dst src words h options seg)
        ≡ some (
            banner "L3: IPv4"
            ∷ ip "SRC IP" (swapped h.src)
            ∷ ip "DST IP" (swapped h.dst)
            ∷ segment_lines seg)
  unfolding print_ipv4
  print_ipv4-frame bs bd =
      let long : ltb (length (ipv4_frame dst src words h options seg)) 34 ≡ false = ground arith in
      rw (long, l4-frame, quad-swapped h.src bs, quad-swapped h.dst bd)

-- An IPv4 packet with up to ten words of options and a complete TCP or UDP header is printed whole: both
-- MAC addresses, the ports and the sequence number as they are on the wire, and the four octets of
-- each IPv4 address in the reverse of their order on the wire. Only bytes of the packet are read.
pub print_mbuf_data-ipv4_frame :
    (dst src : Mac) (words : ℕ) (h : Ipv4Header) (options : List ℕ) (seg : Segment)
    → words ≤ 10
    → length options ≡ 4 * words
    → IsComplete seg
    → AreBytes h.src
    → AreBytes h.dst
    → print_mbuf_data (ipv4_frame dst src words h options seg)
      ≡ some (
          banner "L2:"
          ∷ mac "SRC MAC" (mac_bytes src)
          ∷ mac "DST MAC" (mac_bytes dst)
          ∷ banner "L3: IPv4"
          ∷ ip "SRC IP" (swapped h.src)
          ∷ ip "DST IP" (swapped h.dst)
          ∷ segment_lines seg)
unfolding print_mbuf_data print_l3 print_arp
print_mbuf_data-ipv4_frame dst src words h options seg few sized full bs bd =
    let long : ltb (length (ipv4_frame dst src words h options seg)) 14 ≡ false = ground arith in
    rw (long, print_ipv4-frame dst src words h options seg few sized full bs bd, append-nil)
