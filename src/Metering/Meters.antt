-- ===== src/Metering/Meters.antt =====
-- What rte_mtr and rte_flow ask of the user of a port: a meter of a profile and a policy that exist, action
-- lists that end, and a flow whose meter exists. No packet may be received before one flow, and no other,
-- sends a class of packets through a meter, and the class is to be IPv4.
use dpdk_folder.Prelude.{if◌then◌else◌, ℕ, Bool, true, false, ◌&&◌, not, List, [], ◌∷◌, ◌≡◌, ◌==◌}
use dpdk_folder.Dpdk.{
  Request, FlowAction, action_end, action_drop, action_meter, FlowItem, item_end, item_eth,
  item_ipv4, mtr_meter_profile_add, mtr_meter_policy_add, mtr_create, flow_create, rx_burst,
}
use dpdk_folder.Dpdk.Lifecycle.{contains}
use dpdk_folder.Dpdk.Protocol.{Protocol}

pub record MeterState : Type 0 where
  pub profiles : List ℕ
  pub policies : List ℕ
  pub meters : List ℕ
  -- the packets that a flow sends through a meter, by their layers
  pub metered : List (List FlowItem)

-- The list has an END, and every meter before it is one of `meters`.
abbrev pub well_formed : (meters : List ℕ) → List FlowAction → Bool
well_formed meters [] = false
well_formed meters (action_end ∷ _) = true
well_formed meters (action_drop ∷ acts) = well_formed meters acts
well_formed meters (action_meter m ∷ acts) = contains m meters && well_formed meters acts

-- A packet that meets the list goes on to a queue.
abbrev pub passes : List FlowAction → Bool
passes [] = true
passes (action_end ∷ _) = true
passes (action_drop ∷ _) = false
passes (action_meter _ ∷ acts) = passes acts

abbrev pub has_meter : List FlowAction → Bool
has_meter [] = false
has_meter (action_end ∷ _) = false
has_meter (action_drop ∷ acts) = has_meter acts
has_meter (action_meter _ ∷ _) = true

abbrev pub ends : List FlowItem → Bool
ends [] = false
ends (item_end ∷ _) = true
ends (item_eth ∷ items) = ends items
ends (item_ipv4 ∷ items) = ends items

-- The layers that the packets of a flow have: its pattern up to the END.
abbrev pub layers : List FlowItem → List FlowItem
layers [] = []
layers (item_end ∷ _) = []
layers (item_eth ∷ items) = item_eth ∷ layers items
layers (item_ipv4 ∷ items) = item_ipv4 ∷ layers items

-- IPv4 in Ethernet.
abbrev pub ipv4_layers : List FlowItem
ipv4_layers = item_eth ∷ item_ipv4 ∷ []

abbrev pub about_meters : ℕ → Request → Bool
about_meters p (mtr_meter_profile_add q _ _) = q == p
about_meters p (mtr_meter_policy_add q _ _ _ _) = q == p
about_meters p (mtr_create q _ _ _ _) = q == p
about_meters p (flow_create q _ _) = q == p
about_meters p (rx_burst q _ _) = q == p
about_meters p _ = false

-- A policy is to pass green and yellow packets and to drop red ones.
abbrev pub AllowedMeters : Request → MeterState → Type 0
AllowedMeters (mtr_meter_profile_add _ i prof) s =
    (contains i s.profiles ≡ false) × (not (prof.cir == 0) ≡ true) × (not (prof.cbs == 0) ≡ true)
AllowedMeters (mtr_meter_policy_add _ i green yellow red) s =
    (contains i s.policies ≡ false)
    × (well_formed s.meters green && well_formed s.meters yellow && well_formed s.meters red ≡ true)
    × (passes green && passes yellow && not (passes red) ≡ true)
AllowedMeters (mtr_create _ i prof pol _) s =
    (contains i s.meters ≡ false)
    × (contains prof s.profiles ≡ true)
    × (contains pol s.policies ≡ true)
AllowedMeters (flow_create _ pattern actions) s =
    (ends pattern ≡ true) × (well_formed s.meters actions ≡ true)
AllowedMeters (rx_burst _ _ _) s = s.metered ≡ ipv4_layers ∷ []
AllowedMeters _ s = Unit {0}

abbrev pub add_meters : Request → MeterState → MeterState
add_meters (mtr_meter_profile_add _ i _) s = record s { profiles = i ∷ s.profiles }
add_meters (mtr_meter_policy_add _ i _ _ _) s = record s { policies = i ∷ s.policies }
add_meters (mtr_create _ i _ _ _) s = record s { meters = i ∷ s.meters }
add_meters (flow_create _ pattern actions) s = record s {
  metered = if has_meter actions then layers pattern ∷ s.metered else s.metered;
}
add_meters _ s = s

abbrev pub metering : (port : ℕ) → Protocol
metering p = record {
  State = MeterState;
  fresh = record { profiles = []; policies = []; meters = []; metered = [] };
  concerns = about_meters p;
  Allowed = AllowedMeters;
  succeed = add_meters;
}
