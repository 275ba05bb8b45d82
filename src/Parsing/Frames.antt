-- ===== src/Parsing/Frames.antt =====
-- Frames by their meaning: an Ethernet header, an IPv4 header with its options, and a TCP or UDP
-- segment, laid out in network order.
use dpdk_folder.Prelude.{ℕ, ◌+◌, ◌≤◌, ◌<◌, List, [], ◌∷◌, ◌++◌, length}
use dpdk_folder.Parsing.Reader.{join_be16, join_be32}
use dpdk_folder.Parsing.Headers.{proto_tcp, proto_udp}

pub record Mac : Type 0 where
  pub b0 : ℕ
  pub b1 : ℕ
  pub b2 : ℕ
  pub b3 : ℕ
  pub b4 : ℕ
  pub b5 : ℕ

abbrev pub mac_bytes : Mac → List ℕ
mac_bytes m = m.b0 ∷ m.b1 ∷ m.b2 ∷ m.b3 ∷ m.b4 ∷ m.b5 ∷ []

-- Four octets in the order of the wire.
pub record Octets : Type 0 where
  pub o0 : ℕ
  pub o1 : ℕ
  pub o2 : ℕ
  pub o3 : ℕ

pub record AreBytes (a : Octets) : Type 0 where
  pub lt0 : a.o0 < 256
  pub lt1 : a.o1 < 256
  pub lt2 : a.o2 < 256
  pub lt3 : a.o3 < 256

-- The fields that no program looks at, and the two addresses.
pub record Ipv4Header : Type 0 where
  pub tos : ℕ
  pub len0 : ℕ
  pub len1 : ℕ
  pub id0 : ℕ
  pub id1 : ℕ
  pub off0 : ℕ
  pub off1 : ℕ
  pub ttl : ℕ
  pub sum0 : ℕ
  pub sum1 : ℕ
  pub src : Octets
  pub dst : Octets

-- Version 4, `5 + words` words of header, of which `words` are options.
abbrev pub ipv4_bytes : (words proto : ℕ) → Ipv4Header → List ℕ
ipv4_bytes words proto h =
    (69 + words)
    ∷ h.tos
    ∷ h.len0
    ∷ h.len1
    ∷ h.id0
    ∷ h.id1
    ∷ h.off0
    ∷ h.off1
    ∷ h.ttl
    ∷ proto
    ∷ h.sum0
    ∷ h.sum1
    ∷ h.src.o0
    ∷ h.src.o1
    ∷ h.src.o2
    ∷ h.src.o3
    ∷ h.dst.o0
    ∷ h.dst.o1
    ∷ h.dst.o2
    ∷ h.dst.o3
    ∷ []

-- A port or another 16-bit field, high byte first.
pub record Pair : Type 0 where
  pub hi : ℕ
  pub lo : ℕ

abbrev pub pair_value : Pair → ℕ
pair_value p = join_be16 p.hi p.lo

abbrev pub octets_value : Octets → ℕ
octets_value a = join_be32 a.o0 a.o1 a.o2 a.o3

-- A TCP or UDP segment: its ports, for TCP the sequence number, and the rest of it.
pub data Segment : Type 0 where
  tcp : (src_port dst_port : Pair) (seq : Octets) (rest : List ℕ) → Segment
  udp : (src_port dst_port : Pair) (rest : List ℕ) → Segment

abbrev pub segment_bytes : Segment → List ℕ
segment_bytes (tcp s d q rest) = s.hi ∷ s.lo ∷ d.hi ∷ d.lo ∷ q.o0 ∷ q.o1 ∷ q.o2 ∷ q.o3 ∷ rest
segment_bytes (udp s d rest) = s.hi ∷ s.lo ∷ d.hi ∷ d.lo ∷ rest

abbrev pub segment_proto : Segment → ℕ
segment_proto (tcp _ _ _ _) = proto_tcp
segment_proto (udp _ _ _) = proto_udp

-- The header is complete.
abbrev pub IsComplete : Segment → Type 0
IsComplete (tcp _ _ _ rest) = 12 ≤ length rest
IsComplete (udp _ _ rest) = 4 ≤ length rest

abbrev pub ether_bytes : (dst src : Mac) → List ℕ
ether_bytes dst src = mac_bytes dst ++ mac_bytes src ++ 8 ∷ 0 ∷ []

-- The headers up to the options, and the whole frame.
abbrev pub head_bytes : (dst src : Mac) (words proto : ℕ) → Ipv4Header → List ℕ
head_bytes dst src words proto h = ether_bytes dst src ++ ipv4_bytes words proto h

abbrev pub ipv4_frame :
    (dst src : Mac) (words : ℕ) → Ipv4Header → (options : List ℕ) → Segment → List ℕ
ipv4_frame dst src words h options seg =
    head_bytes dst src words (segment_proto seg) h ++ options ++ segment_bytes seg
