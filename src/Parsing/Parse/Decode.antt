-- ===== src/Parsing/Parse/Decode.antt =====
-- What parse.c prints.
use Prim.Native.String.{String}
use mathlib.Core.List.{append_assoc}
use dpdk_folder.Prelude.{
  ℕ, ◌+◌, ◌*◌, ◌%◌, ◌≤◌, some, Option, List, [], ◌∷◌, ◌++◌, length, length-append, ◌≡◌, arith,
  false,
}
use dpdk_folder.Parsing.Reader.{
  Line, banner, number, mac, ip, byte, slice_in, join_be16, text, quad-join_be32, byte_behind,
}
use dpdk_folder.Parsing.Frames.{
  Mac, mac_bytes, Octets, AreBytes, Ipv4Header, Segment, tcp, udp, segment_bytes, segment_proto,
  ipv4_frame, pair_value, octets_value, head_bytes,
}
use dpdk_folder.Parsing.Parse.{parse_l4, ipv4_parsing, ipv6_parsing, parsing_logic}

abbrev pub segment_lines : Segment → List Line
segment_lines (tcp s d q _) =
    banner "TCP"
    ∷ number "the source port is" (pair_value s)
    ∷ number "the destination port is" (pair_value d)
    ∷ number "TCP sequence number" (octets_value q)
    ∷ []
segment_lines (udp s d _) =
    banner "UDP"
    ∷ number "the source port is" (pair_value s)
    ∷ number "the destination port is" (pair_value d)
    ∷ []

parse_l4-segment :
    (pre : List ℕ) (seg : Segment) (offset : ℕ)
    → length pre ≡ offset
    → parse_l4 (pre ++ segment_bytes seg) (segment_proto seg) offset ≡ some (segment_lines seg)
unfolding parse_l4
parse_l4-segment pre (tcp s d q rest) o e = ground (
  arith,
  byte_behind pre (segment_bytes (tcp s d q rest)) o 0,
  byte_behind pre (segment_bytes (tcp s d q rest)) (o + 1) 1,
  byte_behind pre (segment_bytes (tcp s d q rest)) (o + 2) 2,
  byte_behind pre (segment_bytes (tcp s d q rest)) (o + 2 + 1) 3,
  byte_behind pre (segment_bytes (tcp s d q rest)) (o + 4) 4,
  byte_behind pre (segment_bytes (tcp s d q rest)) (o + 4 + 1) 5,
  byte_behind pre (segment_bytes (tcp s d q rest)) (o + 4 + 2) 6,
  byte_behind pre (segment_bytes (tcp s d q rest)) (o + 4 + 3) 7,
)
parse_l4-segment pre (udp s d rest) o e = ground (
  arith,
  byte_behind pre (segment_bytes (udp s d rest)) o 0,
  byte_behind pre (segment_bytes (udp s d rest)) (o + 1) 1,
  byte_behind pre (segment_bytes (udp s d rest)) (o + 2) 2,
  byte_behind pre (segment_bytes (udp s d rest)) (o + 2 + 1) 3,
)

-- An address in the order of the wire.
abbrev pub wire : Octets → List ℕ
wire a = a.o0 ∷ a.o1 ∷ a.o2 ∷ a.o3 ∷ []

module _ (dst src : Mac) (words : ℕ) (h : Ipv4Header) (options : List ℕ) (seg : Segment)
    (few : words ≤ 10) (sized : length options ≡ 4 * words) (bs : AreBytes h.src)
    (bd : AreBytes h.dst) where
  l4-frame :
      parse_l4
        (ipv4_frame dst src words h options seg)
        (segment_proto seg)
        (14 + (69 + words) % 16 * 4 % 256)
      ≡ some (segment_lines seg)
  l4-frame =
      rw
        (← append_assoc (head_bytes dst src words (segment_proto seg) h) options
          (segment_bytes seg))
        (parse_l4-segment (head_bytes dst src words (segment_proto seg) h ++ options) seg
          (14 + (69 + words) % 16 * 4 % 256) (omega arith))

  ipv4_parsing-frame :
      ipv4_parsing (ipv4_frame dst src words h options seg) 14
      ≡ some (
          ip "source address" (wire h.src)
          ∷ ip "destination address" (wire h.dst)
          ∷ segment_lines seg)
  unfolding ipv4_parsing
  ipv4_parsing-frame = rw (
    l4-frame,
    quad-join_be32 h.src.o0 h.src.o1 h.src.o2 h.src.o3 bs.lt0 bs.lt1 bs.lt2 bs.lt3,
    quad-join_be32 h.dst.o0 h.dst.o1 h.dst.o2 h.dst.o3 bd.lt0 bd.lt1 bd.lt2 bd.lt3,
  )

module _ (inet_ntop : List ℕ → ℕ → Option String) (ipv6_version : List ℕ → ℕ → Option ℕ) where
  -- An IPv4 packet with up to ten words of options and a TCP or UDP segment is printed whole, and as it
  -- is on the wire: MAC addresses, IPv4 addresses, ports and sequence number. The result is 4.
  pub parsing_logic-ipv4_frame :
      (dst src : Mac) (words : ℕ) (h : Ipv4Header) (options : List ℕ) (seg : Segment)
      → words ≤ 10
      → length options ≡ 4 * words
      → AreBytes h.src
      → AreBytes h.dst
      → parsing_logic inet_ntop ipv6_version (ipv4_frame dst src words h options seg) false
        ≡ some (
          mac "Source MAC address" (mac_bytes src)
              ∷ mac "Destination MAC address" (mac_bytes dst)
              ∷ banner "IP : IPV4"
              ∷ ip "source address" (wire h.src)
              ∷ ip "destination address" (wire h.dst)
              ∷ segment_lines seg,
          4,
        )
  unfolding parsing_logic
  parsing_logic-ipv4_frame dst src words h options seg few sized bs bd =
      rw (ipv4_parsing-frame dst src words h options seg few sized bs bd)

  -- Behind an IPv6 header whose version field is 6, the code looks for the TCP header 24 bytes after the
  -- header's start. There the destination address begins: its first two bytes are shown as the
  -- source port, the next two as the destination port, and the next four as the sequence number.
  pub ipv6_parsing-version_six :
      (pre : List ℕ) (d e : Octets) (rest : List ℕ)
      → length pre ≡ 38
      → 8 ≤ length rest
      → ipv6_version (pre ++ (wire d ++ (wire e ++ rest))) 14 ≡ some 6
      → byte (pre ++ (wire d ++ (wire e ++ rest))) 20 ≡ some 6
      → (from to : Line) × (ipv6_parsing inet_ntop ipv6_version
            (pre ++ (wire d ++ (wire e ++ rest)))
            14
          ≡ some (
              from
              ∷ to
              ∷ banner "TCP"
              ∷ number "the source port is" (join_be16 d.o0 d.o1)
              ∷ number "the destination port is" (join_be16 d.o2 d.o3)
              ∷ number "TCP sequence number" (octets_value e)
              ∷ []))
  unfolding ipv6_parsing
  ipv6_parsing-version_six pre d e rest len long v p =
      let size : length (pre ++ (wire d ++ (wire e ++ rest))) ≡ 46 + length rest =
        omega (arith, length-append pre (wire d ++ (wire e ++ rest))) in
      let (s, es) = slice_in (pre ++ (wire d ++ (wire e ++ rest))) 22 16 (omega arith) in
      let (t, et) = slice_in (pre ++ (wire d ++ (wire e ++ rest))) 38 16 (omega arith) in
      (
        text "source IP address is" (inet_ntop s 16),
        text "Destination IP address is" (inet_ntop t 16),
        rw (
          es,
          et,
          v,
          p,
          parse_l4-segment pre
              (tcp (record { hi = d.o0; lo = d.o1 }) (record { hi = d.o2; lo = d.o3 }) e rest) 38
              len,
        ),
      )
