-- ===== src/Parsing/PacketProcess/Bounds.antt =====
-- `print_mbuf_data` and the end of the packet.
use dpdk_folder.Prelude.{
  ℕ, ◌+◌, ◌*◌, ◌%◌, ◌≤◌, ◌<◌, some, none, List, length, ◌≡◌, ◌≢◌, arith, ltb, ltb→le, ◌==◌, true,
  false, Bool-cases, inl, inr, ap, ◌∙◌,
}
use dpdk_folder.Parsing.Reader.{
  is_some, value_of_is_some, byte, be16, byte_in, be16_in, be32_in, le32_in, slice_in, byte_out,
}
use dpdk_folder.Parsing.PacketProcess.{
  print_mbuf_data, print_l3, print_ipv4, print_ipv6, print_ipv4_l4, print_tcp, print_udp,
}

print_tcp_in : (pkt : List ℕ) (l4 : ℕ) → l4 + 20 ≤ length pkt → is_some (print_tcp pkt l4) ≡ true
unfolding print_tcp
print_tcp_in pkt l4 h =
    let (s, es) = be16_in pkt l4 (omega arith) in
    let (t, et) = be16_in pkt (l4 + 2) (omega arith) in
    let (q, eq) = be32_in pkt (l4 + 4) (omega arith) in rw (es, et, eq)

print_udp_in : (pkt : List ℕ) (l4 : ℕ) → l4 + 8 ≤ length pkt → is_some (print_udp pkt l4) ≡ true
unfolding print_udp
print_udp_in pkt l4 h =
    let (s, es) = be16_in pkt l4 (omega arith) in
    let (t, et) = be16_in pkt (l4 + 2) (omega arith) in rw (es, et)

print_ipv4_l4_in : (pkt : List ℕ) (proto hdr : ℕ) → is_some (print_ipv4_l4 pkt proto hdr) ≡ true
unfolding print_ipv4_l4
print_ipv4_l4_in pkt proto hdr = elim (Bool-cases (proto == 6)) [
  | inl e ↦ elim (Bool-cases (ltb (length pkt) (14 + hdr + 20))) [
    | inl short ↦ rw (e, short)
    | inr long ↦ rw (e, long) (print_tcp_in pkt (14 + hdr) (omega (arith, ltb→le _ _ long)))
  ]
  | inr e ↦ elim (Bool-cases (proto == 17)) [
    | inl e' ↦ elim (Bool-cases (ltb (length pkt) (14 + hdr + 8))) [
      | inl short ↦ rw (e, e', short)
      | inr long ↦ rw (e, e', long) (print_udp_in pkt (14 + hdr) (omega (arith, ltb→le _ _ long)))
    ]
    | inr e' ↦ rw (e, e')
  ]
]

print_ipv4_in : (pkt : List ℕ) → is_some (print_ipv4 pkt) ≡ true
unfolding print_ipv4
print_ipv4_in pkt = elim (Bool-cases (ltb (length pkt) 34)) [
  | inl short ↦ rw short
  | inr long ↦
      let le : 34 ≤ length pkt = ltb→le _ _ long in
      let (v, ev) = byte_in pkt 14 (omega arith) in
      let (s, es) = le32_in pkt 26 (omega arith) in
      let (t, et) = le32_in pkt 30 (omega arith) in
      let (p, ep) = byte_in pkt 23 (omega arith) in
      let (l, el) = value_of_is_some _ (print_ipv4_l4_in pkt p (v % 16 * 4)) in
      rw (long, ev, es, et, ep, el)
]

print_l3_in :
    (pkt : List ℕ) (ether_type : ℕ) → ether_type ≢ 0x86dd → is_some (print_l3 pkt ether_type) ≡ true
unfolding print_l3
print_l3_in pkt ether_type ne = ground (arith, print_ipv4_in pkt)

-- Unless a frame says that it holds IPv6, `print_mbuf_data` reads no byte outside of it, whatever its
-- length and its content.
pub print_mbuf_data_in_bounds :
    (pkt : List ℕ) → be16 pkt 12 ≢ some 0x86dd → is_some (print_mbuf_data pkt) ≡ true
unfolding print_mbuf_data
print_mbuf_data_in_bounds pkt ne = elim (Bool-cases (ltb (length pkt) 14)) [
  | inl short ↦ rw short
  | inr long ↦
      let le : 14 ≤ length pkt = ltb→le _ _ long in
      let (s, es) = slice_in pkt 6 6 (omega arith) in
      let (t, et) = slice_in pkt 0 6 (omega arith) in
      let (ty, ety) = be16_in pkt 12 (omega arith) in
      let (l, el) = value_of_is_some _ (print_l3_in pkt ty (λ e. ne (ety ∙ ap some e))) in
      rw (long, es, et, ety, el)
]

print_ipv6_short :
    (pkt : List ℕ)
    → 54 ≤ length pkt
    → length pkt < 62
    → byte pkt 20 ≡ some 6
    → print_ipv6 pkt ≡ none
unfolding print_ipv6 print_tcp
print_ipv6_short pkt ge lt e =
    let long : ltb (length pkt) 54 ≡ false = ground arith in
    let cut : byte pkt 61 ≡ none = byte_out pkt 61 (omega arith) in
    rw (long, e) (ground (arith, cut))

-- A frame with a whole IPv6 header that announces TCP, and fewer than the eight bytes of it that the
-- program shows, makes `print_mbuf_data` read outside of the frame.
pub print_mbuf_data_out_of_bounds :
    (pkt : List ℕ)
    → 54 ≤ length pkt
    → length pkt < 62
    → be16 pkt 12 ≡ some 0x86dd
    → byte pkt 20 ≡ some 6
    → print_mbuf_data pkt ≡ none
unfolding print_mbuf_data print_l3
print_mbuf_data_out_of_bounds pkt ge lt ty proto =
    let long : ltb (length pkt) 14 ≡ false = ground arith in
    let (s, es) = slice_in pkt 6 6 (omega arith) in
    let (t, et) = slice_in pkt 0 6 (omega arith) in
    rw (long, es, et, ty, print_ipv6_short pkt ge lt proto)
