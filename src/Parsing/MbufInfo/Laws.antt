-- ===== src/Parsing/MbufInfo/Laws.antt =====
-- `print_mbuff_info` stays inside the packet, and what it calls a layer 2 type.
use dpdk_folder.Prelude.{
  ℕ, ◌≤◌, ◌<◌, ltb, ltb→le, some, List, ◌∷◌, length, ◌≡◌, arith, true, false, ◌==◌, Bool-cases, inl,
  inr,
}
use dpdk_folder.Parsing.Reader.{
  Line, is_some, value_of_is_some, text, number, banner, byte_in, be16, be16_in, le32_in,
}
use dpdk_folder.Parsing.MbufInfo.{l2_to_str, Metadata, print_head, print_rest, print_mbuff_info}

print_rest_in :
    (m : Metadata) (pkt : List ℕ) (l2_type : ℕ) → is_some (print_rest m pkt l2_type) ≡ true
unfolding print_rest
print_rest_in m pkt l2_type = elim (Bool-cases (l2_type == 0x0800)) [
  | inl e ↦ elim (Bool-cases (ltb (length pkt) 34)) [
    | inl short ↦ rw (e, short)
    | inr long ↦
        let le : 34 ≤ length pkt = ltb→le _ _ long in
        let (s, es) = le32_in pkt 26 (omega arith) in
        let (t, et) = le32_in pkt 30 (omega arith) in
        let (p, ep) = byte_in pkt 23 (omega arith) in rw (e, long, es, et, ep)
  ]
  | inr e ↦ ground arith
]

l2_to_str-unknown : (t : ℕ) → 4 < t → l2_to_str t ≡ "Unknown"
unfolding l2_to_str
l2_to_str-unknown t h = ground arith

-- For every frame, `print_mbuff_info` reads only bytes of the frame.
pub print_mbuff_info_in_bounds :
    (m : Metadata) (socket_id : ℕ) (pkt : List ℕ)
    → is_some (print_mbuff_info m socket_id pkt) ≡ true
unfolding print_mbuff_info
print_mbuff_info_in_bounds m socket_id pkt = elim (Bool-cases (ltb (length pkt) 14)) [
  | inl short ↦ rw short
  | inr long ↦
      let le : 14 ≤ length pkt = ltb→le _ _ long in
      let (t, et) = be16_in pkt 12 (omega arith) in
      let (r, er) = value_of_is_some _ (print_rest_in m pkt t) in rw (long, et, er)
]

-- Of a frame with a whole Ethernet header and an EtherType above 4,
-- `print_mbuff_info` prints the layer 2 type as "Unknown", beside the EtherType in decimal.
pub print_mbuff_info-unknown :
    (m : Metadata) (socket_id : ℕ) (pkt : List ℕ) (t : ℕ)
    → 14 ≤ length pkt
    → be16 pkt 12 ≡ some t
    → 4 < t
    → (rest : List Line) × (print_mbuff_info m socket_id pkt
        ≡ some (
            banner "*****MBUF METADATA INFO*****"
            ∷ number "Ports" m.port
            ∷ number "Socket ID" socket_id
            ∷ number "Packet Length" m.pkt_len
            ∷ number "Data Length" (length pkt)
            ∷ number "Data Offset" m.data_off
            ∷ text "L2 type" (some "Unknown")
            ∷ number "L2 type" t
            ∷ rest))
unfolding print_mbuff_info print_head
print_mbuff_info-unknown m socket_id pkt t ge et gt =
    let long : ltb (length pkt) 14 ≡ false = ground arith in
    let (r, er) = value_of_is_some _ (print_rest_in m pkt t) in
    (r, rw (long, et, er, l2_to_str-unknown t gt))
