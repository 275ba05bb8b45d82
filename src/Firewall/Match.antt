-- ===== src/Firewall/Match.antt =====
-- What the documentation of rte_acl says of matching, and what follows for the rules of ACL_DPDK_2/main.c.
use dpdk_folder.Prelude.{
  ℕ, ◌-◌, ◌*◌, ◌%◌, ◌<◌, ◌==◌, leb, shr, if◌then◌else◌, Bool, true, false, ◌&&◌, Option, none, some,
  List, [], ◌∷◌, ◌≡◌, ◌≢◌, arith, inl, inr, ◌⊎◌,
}
use dpdk_folder.Parsing.Reader.{byte, be16, be32, join_be32}
use dpdk_folder.Firewall.Rules.{
  FieldType, bitmask, mask, range, FieldDef, Field, AclRule, field_defs, firewall_rules,
  action_allow, rte_ipv4,
}

-- A field of the data, in network order.
abbrev pub load : (size : ℕ) → List ℕ → (offset : ℕ) → Option ℕ
load size input offset =
    if size == 1
    then byte input offset
    else if size == 2
    then be16 input offset
    else if size == 4
    then be32 input offset
    else none

-- `v & m` for the masks that occur, none of the bits or all eight.
abbrev pub masked : ℕ → ℕ → ℕ
masked v m = if m == 0 then 0 else v % 256

-- BITMASK compares under a mask, MASK compares a prefix of that length, RANGE is from value to
-- mask_range.
abbrev pub value_matches : FieldType → (size : ℕ) → Field → ℕ → Bool
value_matches bitmask size f v = masked v f.mask_range == f.value
value_matches mask size f v =
    shr v (8 * size - f.mask_range) == shr f.value (8 * size - f.mask_range)
value_matches range size f v = leb f.value v && leb v f.mask_range

abbrev pub loaded_matches : FieldDef → Field → Option ℕ → Bool
loaded_matches d f none = false
loaded_matches d f (some v) = value_matches d.type d.size f v

abbrev pub field_matches : FieldDef → Field → List ℕ → Bool
field_matches d f input = loaded_matches d f (load d.size input d.offset)

abbrev pub fields_match : List FieldDef → List Field → List ℕ → Bool
fields_match [] fs input = true
fields_match (d ∷ ds) [] input = false
fields_match (d ∷ ds) (f ∷ fs) input = field_matches d f input && fields_match ds fs input

-- Some rule that matches the input has this `userdata`.
abbrev pub IsChosen : List AclRule → List ℕ → ℕ → Type 0
IsChosen [] input u = ⊥
IsChosen (r ∷ rs) input u =
    ((fields_match field_defs r.field input ≡ true) × (r.userdata ≡ u)) ⊎ IsChosen rs input u

-- `rte_acl_classify` of one input in one category: 0 stands for no match, and any other result is the
-- `userdata` of a rule that matches.
pub record IsClassifier (classify : List AclRule → List ℕ → ℕ) : Type 0 where
  pub chosen :
      (rules : List AclRule) (input : List ℕ)
      → classify rules input ≢ 0
      → IsChosen rules input (classify rules input)

never : {b : Bool} (a c : Bool) → b ≡ false → (a && (b && c)) ≡ true → ⊥
never true c e h = cc
never false c e h = cc

module _ (frame : List ℕ) (c e : ℕ) (b12 : byte frame 12 ≡ some 8) (b13 : byte frame 13 ≡ some 0)
    (b14 : byte frame 14 ≡ some c) (b15 : byte frame 15 ≡ some e) (lc : c < 256)
    (le : e < 256) where
  -- Where the rule looks for a source address there is the EtherType.
  no_match :
      field_matches
        (record { type = mask; size = 4; field_index = 1; input_index = 1; offset = 12 })
        (record { value = rte_ipv4 192 168 1 0; mask_range = 24 })
        frame
      ≡ false
  no_match =
      let word : be32 frame 12 ≡ some (join_be32 8 0 c e) = rw (b12, b13, b14, b15) in
      rw word (ground arith)

  -- Whatever documented classifier it is given, ACL_DPDK_2/main.c does not allow a frame whose EtherType is
  -- IPv4: the rules describe an IPv4 header, and are applied to the Ethernet header in front of it.
  -- The two bytes behind the EtherType are any bytes.
  pub classify-ipv4_frame :
      (classify : List AclRule → List ℕ → ℕ)
      → IsClassifier classify
      → classify firewall_rules frame ≢ action_allow
  classify-ipv4_frame classify ok allowed = refute (ok.chosen firewall_rules frame (omega arith))
    where
      refute : IsChosen firewall_rules frame (classify firewall_rules frame) → ⊥
      refute (inl (m, u)) = absurd (
          never
            (field_matches
              (record { type = bitmask; size = 1; field_index = 0; input_index = 0; offset = 9 })
              (record { value = 6; mask_range = 0xFF }) frame)
            _ no_match m)
      refute (inr (inl (m, u))) = omega arith
      refute (inr (inr l)) = absurd l
