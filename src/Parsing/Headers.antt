-- ===== src/Parsing/Headers.antt =====
-- The layout of the protocol headers that DPDK declares as packed structs: offsets and sizes in bytes.
use dpdk_folder.Prelude.{ℕ}

abbrev pub ether_hdr_len : ℕ
ether_hdr_len = 14

abbrev pub ipv4_hdr_len : ℕ
ipv4_hdr_len = 20

abbrev pub ipv6_hdr_len : ℕ
ipv6_hdr_len = 40

abbrev pub tcp_hdr_len : ℕ
tcp_hdr_len = 20

abbrev pub udp_hdr_len : ℕ
udp_hdr_len = 8

-- RTE_ETHER_TYPE_IPV4, RTE_ETHER_TYPE_IPV6, RTE_ETHER_TYPE_ARP
abbrev pub type_ipv4 : ℕ
type_ipv4 = 0x0800

abbrev pub type_ipv6 : ℕ
type_ipv6 = 0x86dd

abbrev pub type_arp : ℕ
type_arp = 0x0806

-- IPPROTO_TCP, IPPROTO_UDP
abbrev pub proto_tcp : ℕ
proto_tcp = 6

abbrev pub proto_udp : ℕ
proto_udp = 17
