-- ===== src/Parsing/Parse.antt =====
-- eventdev_packet_parsing/parse.c. `inet_ntop` belongs to the C library: a parameter that gives the text
-- of an address, or `none` where the buffer is too small. So does the position of the `version` field
-- in DPDK's bit-field struct: `ipv6_version` reads it from a frame. No length is checked anywhere.
pub mod Decode
use Prim.Native.String.{String}
use dpdk_folder.Prelude.{
  ℕ, ◌+◌, ◌*◌, ◌%◌, ltb, ◌==◌, if◌then◌else◌, Option, none, some, Bool, true, false, List, [], ◌∷◌,
  ◌++◌,
}
use dpdk_folder.Parsing.Reader.{
  Line, banner, number, mac, ip, text, ◌>>=◌, byte, slice, be16, be32, quad,
}
use dpdk_folder.Parsing.Headers.{ether_hdr_len, type_ipv4, type_ipv6, proto_tcp, proto_udp}

unfoldable pub print_ipv4_address : ℕ → List ℕ
print_ipv4_address addr = quad addr

unfoldable pub parse_tcp : List ℕ → ℕ → Option (List Line)
parse_tcp pkt offset = do
  src_port ← be16 pkt offset
  dst_port ← be16 pkt (offset + 2)
  sent_seq ← be32 pkt (offset + 4)
  some (
      number "the source port is" src_port
      ∷ number "the destination port is" dst_port
      ∷ number "TCP sequence number" sent_seq
      ∷ [])

unfoldable pub parse_udp : List ℕ → ℕ → Option (List Line)
parse_udp pkt offset = do
  src_port ← be16 pkt offset
  dst_port ← be16 pkt (offset + 2)
  some (number "the source port is" src_port ∷ number "the destination port is" dst_port ∷ [])

-- The end of `ipv4_parsing` and of `ipv6_parsing`, which read alike.
unfoldable pub parse_l4 : List ℕ → (proto offset : ℕ) → Option (List Line)
unfolding parse_tcp parse_udp
parse_l4 pkt proto offset =
    if proto == proto_tcp
    then (do rest ← parse_tcp pkt offset; some (banner "TCP" ∷ rest))
    else if proto == proto_udp
    then (do rest ← parse_udp pkt offset; some (banner "UDP" ∷ rest))
    else some (banner "unknown" ∷ [])

-- `uint8_t ihl`; `& 0x0F` is `% 16`.
unfoldable pub ipv4_parsing : List ℕ → (offset : ℕ) → Option (List Line)
unfolding print_ipv4_address
ipv4_parsing pkt offset = do
  src_addr ← be32 pkt (offset + 12)
  dst_addr ← be32 pkt (offset + 16)
  version_ihl ← byte pkt offset
  next_proto_id ← byte pkt (offset + 9)
  let ihl = version_ihl % 16 * 4 % 256
  l4 ← parse_l4 pkt next_proto_id (offset + ihl)
  some (
      ip "source address" (print_ipv4_address src_addr)
      ∷ ip "destination address" (print_ipv4_address dst_addr)
      ∷ l4)

module _ (inet_ntop : List ℕ → ℕ → Option String) (ipv6_version : List ℕ → ℕ → Option ℕ) where
  -- The buffers have RTE_IPV6_ADDR_SIZE = 16 bytes.
  unfoldable pub ipv6_parsing : List ℕ → (offset : ℕ) → Option (List Line)
  ipv6_parsing pkt offset = do
    src ← slice pkt (offset + 8) 16
    dst ← slice pkt (offset + 24) 16
    version ← ipv6_version pkt offset
    proto ← byte pkt (offset + 6)
    let ihl = version % 16 * 4 % 256
    l4 ← parse_l4 pkt proto (offset + ihl)
    some (
        text "source IP address is" (inet_ntop src 16)
        ∷ text "Destination IP address is" (inet_ntop dst 16)
        ∷ l4)

  -- The lines that it prints, and the type that it returns.
  unfoldable pub parsing_logic : List ℕ → (type_finder : Bool) → Option (List Line × ℕ)
  parsing_logic pkt type_finder = do
    ether_type ← be16 pkt 12
    let ip_type : ℕ =
        if ether_type == type_ipv4 then 4 else if ether_type == type_ipv6 then 6 else 0
    if type_finder then some ([], ip_type) else (do
      src ← slice pkt 6 6
      dst ← slice pkt 0 6
      let offset : ℕ = ether_hdr_len
      rest ←
          (if ip_type == 4
            then ipv4_parsing pkt offset
            else if ip_type == 6
            then ipv6_parsing pkt offset
            else some (banner "Unknown EtherType" ∷ []))
      some (
        mac "Source MAC address" src
            ∷ mac "Destination MAC address" dst
            ∷ banner (if ip_type == 4 then "IP : IPV4" else "IP: IPV6")
            ∷ rest,
        ip_type,
      ))
