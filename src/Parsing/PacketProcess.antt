-- ===== src/Parsing/PacketProcess.antt =====
-- packet_parsing/packet_process.c: `print_mbuf_data`, cut where the source names its layers.
pub mod Decode
pub mod Bounds
use dpdk_folder.Prelude.{
  ℕ, ◌+◌, ◌*◌, ◌%◌, ltb, ◌==◌, if◌then◌else◌, Option, none, some, List, [], ◌∷◌, ◌++◌, length,
}
use dpdk_folder.Parsing.Reader.{
  Line, banner, number, mac, ip, ◌>>=◌, byte, slice, be16, be32, le32, quad,
}
use dpdk_folder.Parsing.Headers.{
  ether_hdr_len, ipv4_hdr_len, ipv6_hdr_len, tcp_hdr_len, udp_hdr_len, type_ipv4, type_ipv6,
  type_arp, proto_tcp, proto_udp,
}

-- The TCP and UDP headers at offset `l4`.
unfoldable pub print_tcp : List ℕ → ℕ → Option (List Line)
print_tcp pkt l4 = do
  src_port ← be16 pkt l4
  dst_port ← be16 pkt (l4 + 2)
  sent_seq ← be32 pkt (l4 + 4)
  some (
      banner "L4: TCP"
      ∷ number "SRC PORT" src_port
      ∷ number "DST PORT" dst_port
      ∷ number "SEQ NO" sent_seq
      ∷ [])

unfoldable pub print_udp : List ℕ → ℕ → Option (List Line)
print_udp pkt l4 = do
  src_port ← be16 pkt l4
  dst_port ← be16 pkt (l4 + 2)
  some (banner "L4: UDP" ∷ number "SRC PORT" src_port ∷ number "DST PORT" dst_port ∷ [])

-- `proto` and the header length decide on the layer 4 of an IPv4 packet. A `return` ends the function.
unfoldable pub print_ipv4_l4 : List ℕ → (proto ip_hdr_len : ℕ) → Option (List Line)
unfolding print_tcp print_udp
print_ipv4_l4 pkt proto ip_hdr_len =
    if proto == proto_tcp
    then (if ltb (length pkt) (ether_hdr_len + ip_hdr_len + tcp_hdr_len)
        then some []
        else print_tcp pkt (ether_hdr_len + ip_hdr_len))
    else if proto == proto_udp
    then (if ltb (length pkt) (ether_hdr_len + ip_hdr_len + udp_hdr_len)
        then some []
        else print_udp pkt (ether_hdr_len + ip_hdr_len))
    else some (number "L4: Unknown" proto ∷ [])

-- The addresses are shown as loaded, with no `rte_be_to_cpu_32`. `version_ihl & 0x0F` is `% 16`.
unfoldable pub print_ipv4 : List ℕ → Option (List Line)
print_ipv4 pkt = if ltb (length pkt) (ether_hdr_len + ipv4_hdr_len) then some [] else do
  version_ihl ← byte pkt 14
  src_addr ← le32 pkt 26
  dst_addr ← le32 pkt 30
  proto ← byte pkt 23
  l4 ← print_ipv4_l4 pkt proto (version_ihl % 16 * 4)
  some (banner "L3: IPv4" ∷ ip "SRC IP" (quad src_addr) ∷ ip "DST IP" (quad dst_addr) ∷ l4)

-- Behind an IPv6 header the code reads a TCP or UDP header with no check of the length.
unfoldable pub print_ipv6 : List ℕ → Option (List Line)
unfolding print_tcp print_udp
print_ipv6 pkt = if ltb (length pkt) (ether_hdr_len + ipv6_hdr_len) then some [] else do
  proto ← byte pkt 20
  if proto == proto_tcp
      then print_tcp pkt (ether_hdr_len + ipv6_hdr_len)
      else (if proto == proto_udp
          then print_udp pkt (ether_hdr_len + ipv6_hdr_len)
          else some (number "L4: Unknown" proto ∷ []))

-- What follows the MAC addresses.
unfoldable pub print_l3 : List ℕ → ℕ → Option (List Line)
print_l3 pkt ether_type =
    if ether_type == type_ipv4
    then print_ipv4 pkt
    else if ether_type == type_ipv6
    then print_ipv6 pkt
    else some (number "L3: Unknown EtherType" ether_type ∷ [])

-- The test for ARP stands behind the chain above. The `return`s inside the chain pass it by, for
-- EtherTypes other than ARP only.
unfoldable pub print_arp : ℕ → List Line
print_arp ether_type = if ether_type == type_arp then banner "L3: ARP" ∷ [] else []

unfoldable pub print_mbuf_data : List ℕ → Option (List Line)
print_mbuf_data pkt = if ltb (length pkt) ether_hdr_len then some [] else do
  src ← slice pkt 6 6
  dst ← slice pkt 0 6
  ether_type ← be16 pkt 12
  l3 ← print_l3 pkt ether_type
  some (banner "L2:" ∷ mac "SRC MAC" src ∷ mac "DST MAC" dst ∷ l3 ++ print_arp ether_type)
