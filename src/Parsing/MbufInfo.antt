-- ===== src/Parsing/MbufInfo.antt =====
-- packet_parsing/mbuf_info.c: the names of the types, and `print_mbuff_info`.
pub mod Laws
use Prim.Native.String.{String}
use dpdk_folder.Prelude.{
  ℕ, ◌+◌, ltb, ◌==◌, if◌then◌else◌, Option, none, some, List, [], ◌∷◌, ◌++◌, length,
}
use dpdk_folder.Parsing.Reader.{Line, banner, number, ip, text, ◌>>=◌, byte, be16, le32, quad}
use dpdk_folder.Parsing.Headers.{
  ether_hdr_len, ipv4_hdr_len, type_ipv4, type_ipv6, type_arp, proto_tcp, proto_udp,
}

unfoldable pub l2_to_str : ℕ → String
l2_to_str ether_type =
    if ether_type == 1
    then "Ethernet"
    else if ether_type == 2
    then "VLAN (802.1Q)"
    else if ether_type == 3
    then "QinQ (802.1ad)"
    else if ether_type == 4
    then "ARP"
    else "Unknown"

unfoldable pub l3_to_str : ℕ → String
l3_to_str proto =
    if proto == 1
    then "IPV4"
    else if proto == 2
    then "IPV4-EXTENDED"
    else if proto == 3
    then "IPV6"
    else if proto == 4
    then "IPV6-EXTENDED"
    else "Other-L3"

unfoldable pub l4_to_str : ℕ → String
l4_to_str proto =
    if proto == 1
    then "TCP"
    else if proto == 2
    then "UDP"
    else if proto == 3
    then "SCTP"
    else if proto == 4
    then "ICMP"
    else "L4/Unknown"

-- The fields of `struct rte_mbuf` that are shown beside the data.
pub record Metadata : Type 0 where
  pub port : ℕ
  pub pkt_len : ℕ
  pub data_off : ℕ
  pub packet_type : ℕ
  pub buf_len : ℕ
  pub nb_segs : ℕ
  pub ol_flags : ℕ
  pub inner_l2_type : ℕ
  pub inner_l3_type : ℕ
  pub inner_l4_type : ℕ

-- The lines before layer 3, and those at the end.
unfoldable pub print_head : Metadata → (socket_id data_len l2_type : ℕ) → List Line
print_head m socket_id data_len l2_type =
    banner "*****MBUF METADATA INFO*****"
    ∷ number "Ports" m.port
    ∷ number "Socket ID" socket_id
    ∷ number "Packet Length" m.pkt_len
    ∷ number "Data Length" data_len
    ∷ number "Data Offset" m.data_off
    ∷ text "L2 type" (some (l2_to_str l2_type))
    ∷ number "L2 type" l2_type
    ∷ []

unfoldable pub print_tail : Metadata → List Line
print_tail m =
    number "Raw Packet Type" m.packet_type
    ∷ number "Buffer Length" m.buf_len
    ∷ number "No of Segments" m.nb_segs
    ∷ number "Offload flg" m.ol_flags
    ∷ banner "Inner Types"
    ∷ number "Inner L2" m.inner_l2_type
    ∷ number "Inner L3" m.inner_l3_type
    ∷ number "Inner L4" m.inner_l4_type
    ∷ []

unfoldable pub print_proto : ℕ → Line
print_proto proto =
    if proto == proto_tcp
    then banner "L4: TCP"
    else if proto == proto_udp
    then banner "L4: UDP"
    else banner "L4: Unknown"

-- Layer 3 and the lines at the end; the `return` for a short IPv4 packet drops them.
unfoldable pub print_rest : Metadata → List ℕ → (l2_type : ℕ) → Option (List Line)
print_rest m pkt l2_type =
    if l2_type == type_ipv4
    then (if ltb (length pkt) (ether_hdr_len + ipv4_hdr_len) then some [] else do
      src_addr ← le32 pkt 26
      dst_addr ← le32 pkt 30
      proto ← byte pkt 23
      some (
          banner "L3: IPV4"
          ∷ ip "SRC IP" (quad src_addr)
          ∷ ip "DST IP" (quad dst_addr)
          ∷ print_proto proto
          ∷ print_tail m))
    else if l2_type == type_ipv6
    then some (banner "L3: IPV6" ∷ print_tail m)
    else if l2_type == type_arp
    then some (banner "L3: ARP" ∷ print_tail m)
    else some (number "L3: Unknown EtherType" l2_type ∷ print_tail m)

unfoldable pub print_mbuff_info : Metadata → (socket_id : ℕ) → List ℕ → Option (List Line)
print_mbuff_info m socket_id pkt = if ltb (length pkt) ether_hdr_len then some [] else do
  l2_type ← be16 pkt 12
  rest ← print_rest m pkt l2_type
  some (print_head m socket_id (length pkt) l2_type ++ rest)
