-- ===== src/Parsing/RxLoop.antt =====
-- port_init2/rx_loop.c: what the loop shows of a packet, and how it rewrites its destination address.
pub mod Loop
use dpdk_folder.Prelude.{
  ℕ, ◌+◌, ◌==◌, if◌then◌else◌, Option, some, List, [], ◌∷◌, ◌++◌, length, take, drop, ◌≡◌, ◌≤◌,
  refl, arith, take-all, length-drop,
}
use dpdk_folder.Dpdk.{Mbuf}
use dpdk_folder.Parsing.Reader.{Line, number, ip, ◌>>=◌, be16, be32, quad}
use dpdk_folder.Parsing.Headers.{type_ipv4}

-- The bit fields that the driver sets in the mbuf, and its `pkt_len`.
pub record PacketType : Type 0 where
  pub l2_type : ℕ
  pub l3_type : ℕ
  pub l4_type : ℕ
  pub pkt_len : ℕ

unfoldable pub show_packet : PacketType → List ℕ → Option (List Line)
show_packet t pkt = do
  ether_type ← be16 pkt 12
  src_ip ←
      (if ether_type == type_ipv4
        then (do src ← be32 pkt 26; some (ip "IPv4 Src IP" (quad src) ∷ []))
        else some [])
  some (
      number "L2 Type" t.l2_type
      ∷ number "L3 Type" t.l3_type
      ∷ number "L4 Type" t.l4_type
      ∷ number "Packet length" t.pkt_len
      ∷ number "EtherType" ether_type
      ∷ src_ip)

abbrev pub new_mac : List ℕ
new_mac = 0x02 ∷ 0x11 ∷ 0x22 ∷ 0x33 ∷ 0x44 ∷ 0x55 ∷ []

-- `rte_ether_addr_copy(&new_mac, &eth->dst_addr)`, as far as the write falls on data.
unfoldable pub rewrite_mac : Mbuf → Mbuf
rewrite_mac m = record m { bytes = take (length m.bytes) (new_mac ++ drop 6 m.bytes) }
