-- ===== src/Parsing/PacketInfo.antt =====
-- packet_parseer_ring/parser.c: `packet_info`, which shows a burst of packets. `inet_ntop` belongs to the
-- C library and is a parameter, as in Parsing/Parse.antt; its buffers have 16 and 46 bytes here. No
-- length is checked.
use Prim.Native.String.{String}
use dpdk_folder.Prelude.{
  ℕ, ◌+◌, ◌==◌, if◌then◌else◌, Option, none, some, List, [], ◌∷◌, ◌++◌, length, ◌≡◌, ◌≤◌, true,
  refl, arith,
}
use dpdk_folder.Dpdk.{Mbuf}
use dpdk_folder.Parsing.Reader.{
  Line, banner, number, mac, text, ◌>>=◌, slice, be16, is_some, value_of_is_some, slice_in, be16_in,
}
use dpdk_folder.Parsing.Headers.{type_ipv4, type_ipv6}

module _ (inet_ntop : List ℕ → ℕ → Option String) where
  -- The body of the loop for the packet of index `i`.
  unfoldable pub packet_lines : ℕ → List ℕ → Option (List Line)
  packet_lines i pkt = do
    src ← slice pkt 6 6
    dst ← slice pkt 0 6
    ether_type ← be16 pkt 12
    rest ←
        (if ether_type == type_ipv4
          then (do
            src_addr ← slice pkt 26 4
            dst_addr ← slice pkt 30 4
            some (
                banner "Protocol : IPv4"
                ∷ text "SRC IP" (inet_ntop src_addr 16)
                ∷ text "DST IP" (inet_ntop dst_addr 16)
                ∷ []))
          else if ether_type == type_ipv6
          then some (banner "Protocol : IPv6" ∷ text "SRC IP" none ∷ text "DST IP" none ∷ [])
          else some (number "Protocol : Unknown" ether_type ∷ []))
    some (number "Packet" (i + 1) ∷ mac "SRC MAC" src ∷ mac "DST MAC" dst ∷ rest)

  -- `for (uint16_t i = 0; i < nb_pkts; i++)`
  unfoldable pub packets_from : ℕ → List Mbuf → Option (List Line)
  packets_from i [] = some []
  packets_from i (m ∷ ms) = do
    lines ← packet_lines i m.bytes
    rest ← packets_from (i + 1) ms
    some (lines ++ rest)

  unfoldable pub packet_info : List Mbuf → Option (List Line)
  packet_info packets = packets_from 0 packets

abbrev pub AllLong : List Mbuf → Type 0
AllLong [] = Unit {0}
AllLong (m ∷ ms) = (34 ≤ length m.bytes) × AllLong ms

module _ (inet_ntop : List ℕ → ℕ → Option String) where
  packet_lines_in :
      (i : ℕ) (pkt : List ℕ) → 34 ≤ length pkt → is_some (packet_lines inet_ntop i pkt) ≡ true
  unfolding packet_lines
  packet_lines_in i pkt le =
      let (s, es) = slice_in pkt 6 6 (omega arith) in
      let (t, et) = slice_in pkt 0 6 (omega arith) in
      let (ty, ety) = be16_in pkt 12 (omega arith) in
      let (a, ea) = slice_in pkt 26 4 (omega arith) in
      let (b, eb) = slice_in pkt 30 4 (omega arith) in rw (es, et, ety, ea, eb) (ground arith)

  packets_from_in :
      (i : ℕ) (ms : List Mbuf) → AllLong ms → is_some (packets_from inet_ntop i ms) ≡ true
  unfolding packets_from
  packets_from_in i [] h = refl
  packets_from_in i (m ∷ ms) h =
      let (l, el) = value_of_is_some _ (packet_lines_in i m.bytes h.0) in
      let (r, er) = value_of_is_some _ (packets_from_in (i + 1) ms h.1) in rw (el, er)

  -- On a burst whose packets have at least the 34 bytes of an Ethernet and an IPv4 header,
  -- `packet_info` reads only bytes of the packets.
  pub packet_info_in_bounds :
      (packets : List Mbuf) → AllLong packets → is_some (packet_info inet_ntop packets) ≡ true
  unfolding packet_info
  packet_info_in_bounds packets h = packets_from_in 0 packets h
