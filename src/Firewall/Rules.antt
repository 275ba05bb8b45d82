-- ===== src/Firewall/Rules.antt =====
-- The fields and the rules that the two programs hand to rte_acl.
use dpdk_folder.Prelude.{ℕ, ◌+◌, ◌*◌, List, [], ◌∷◌}

-- RTE_ACL_FIELD_TYPE_BITMASK, _MASK and _RANGE
pub data FieldType : Type 0 where
  bitmask : FieldType
  mask : FieldType
  range : FieldType

-- `struct rte_acl_field_def`: the size and the offset in bytes.
pub record FieldDef : Type 0 where
  pub type : FieldType
  pub size : ℕ
  pub field_index : ℕ
  pub input_index : ℕ
  pub offset : ℕ

-- `struct rte_acl_field`
pub record Field : Type 0 where
  pub value : ℕ
  pub mask_range : ℕ

-- `struct acl_rule`
pub record AclRule : Type 0 where
  pub priority : ℕ
  pub category_mask : ℕ
  pub userdata : ℕ
  pub field : List Field

-- Offsets in `struct pkt`, an IPv4 header of 20 bytes and a TCP header.
abbrev pub field_defs : List FieldDef
field_defs =
    record { type = bitmask; size = 1; field_index = 0; input_index = 0; offset = 9 }
    ∷ record { type = mask; size = 4; field_index = 1; input_index = 1; offset = 12 }
    ∷ record { type = mask; size = 4; field_index = 2; input_index = 2; offset = 16 }
    ∷ record { type = range; size = 2; field_index = 3; input_index = 3; offset = 20 }
    ∷ record { type = range; size = 2; field_index = 4; input_index = 4; offset = 22 }
    ∷ []

abbrev pub action_allow : ℕ
action_allow = 1

abbrev pub action_drop : ℕ
action_drop = 0

abbrev pub rte_ipv4 : ℕ → ℕ → ℕ → ℕ → ℕ
rte_ipv4 a b c e = ((a * 256 + b) * 256 + c) * 256 + e

-- `rules` of `build_acl`. What is not assigned is 0 by memset.
abbrev pub firewall_rules : List AclRule
firewall_rules =
    record {
      priority = 10;
      category_mask = 1;
      userdata = action_allow;
      field =
          record { value = 6; mask_range = 0xFF }
          ∷ record { value = rte_ipv4 192 168 1 0; mask_range = 24 }
          ∷ record { value = 0; mask_range = 0 }
          ∷ record { value = 0; mask_range = 65535 }
          ∷ record { value = 80; mask_range = 80 }
          ∷ [];
    }
    ∷ record {
      priority = 1;
      category_mask = 1;
      userdata = action_drop;
      field =
          record { value = 0; mask_range = 0 }
          ∷ record { value = 0; mask_range = 0 }
          ∷ record { value = 0; mask_range = 0 }
          ∷ record { value = 0; mask_range = 0 }
          ∷ record { value = 0; mask_range = 0 }
          ∷ [];
    }
    ∷ []

-- The one rule of ACL_DPDK/main.c.
abbrev pub single_rule : AclRule
single_rule = record {
  priority = 1;
  category_mask = 1;
  userdata = action_allow;
  field =
      record { value = 6; mask_range = 0xFF }
      ∷ record { value = rte_ipv4 192 168 1 0; mask_range = 24 }
      ∷ record { value = 0; mask_range = 0 }
      ∷ record { value = 0; mask_range = 65535 }
      ∷ record { value = 0; mask_range = 65535 }
      ∷ [];
}
