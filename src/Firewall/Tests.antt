-- ===== src/Firewall/Tests.antt =====
-- A classifier that takes the first rule that matches, frames, and drivers.
use dpdk_folder.Prelude.{
  ℕ, if◌then◌else◌, List, [], ◌∷◌, ◌≡◌, ◌≢◌, refl, arith, pos, negsuc, Bool-cases, inl, inr,
}
use dpdk_folder.Dpdk.Lifecycle.{ethdev}
use dpdk_folder.Dpdk.{Driver, done, trace_of, value_of, burst_of, rx_burst, acl_build, machine}
use dpdk_folder.Dpdk.Bursts.{frees}
use dpdk_folder.Dpdk.Rules.{Ends}
use dpdk_folder.Firewall.Rules.{AclRule, field_defs, firewall_rules, single_rule}
use dpdk_folder.Firewall.Match.{fields_match, IsChosen, IsClassifier, classify-ipv4_frame}
use dpdk_folder.Firewall.Loop.{
  AllIpv4, firewall_round, firewall_loop, filter_burst, firewall_round_blocks_ipv4,
}
use dpdk_folder.Firewall.Program as Program
use dpdk_folder.Firewall.Program.{Returns, firewall_main-Returns}
use dpdk_folder.Firewall.Classifier
use dpdk_folder.Firewall.Classifier.{IsClean, classifier_main-IsClean, pkt1}

abbrev first_match : List AclRule → List ℕ → ℕ
first_match [] input = 0
first_match (r ∷ rs) input =
    if fields_match field_defs r.field input then r.userdata else first_match rs input

first_match-IsChosen :
    (rules : List AclRule) (input : List ℕ)
    → first_match rules input ≢ 0
    → IsChosen rules input (first_match rules input)
first_match-IsChosen [] input ne = ne refl
first_match-IsChosen (r ∷ rs) input ne = elim (Bool-cases (fields_match field_defs r.field input)) [
  | inl e ↦ rw e (inl (refl, refl))
  | inr e ↦ rw e (inr (first_match-IsChosen rs input (λ z. ne (rw e z))))
]

first_match-IsClassifier : IsClassifier first_match
first_match-IsClassifier = record { chosen = first_match-IsChosen }

-- The packet of ACL_DPDK/main.c is allowed by its rule.
pkt1_allowed : first_match (single_rule ∷ []) pkt1 ≡ 1
pkt1_allowed = refl

-- The same packet to port 80 behind an Ethernet header, as the firewall gets it.
abbrev on_the_wire : List ℕ
on_the_wire = 1 ∷ 2 ∷ 3 ∷ 4 ∷ 5 ∷ 6 ∷ 7 ∷ 8 ∷ 9 ∷ 10 ∷ 11 ∷ 12 ∷ 8 ∷ 0 ∷ 69 ∷ 0 ∷ pkt1

-- Without that header it would be allowed.
bare_allowed : first_match firewall_rules pkt1 ≡ 1
bare_allowed = refl

classify-ipv4_frame_example : first_match firewall_rules on_the_wire ≢ 1
classify-ipv4_frame_example =
    classify-ipv4_frame on_the_wire 69 0 refl refl refl refl (omega arith) (omega arith) first_match
      first_match-IsClassifier

-- A burst of one such packet; the pool, the context and the port count are 3.
abbrev wired : Driver
wired = record {
  int = λ n r. pos 0;
  word = λ n r. 3;
  burst = λ n r. record { addr = 5; bytes = on_the_wire } ∷ [];
}

wired-AllIpv4 : AllIpv4 (wired.burst 0 (rx_burst 0 0 32))
wired-AllIpv4 = (
  record {
    third = 69;
    fourth = 0;
    b12 = refl;
    b13 = refl;
    b14 = refl;
    b15 = refl;
    lt14 = omega arith;
    lt15 = omega arith;
  },
  tt,
)

firewall_round_blocks_ipv4_example :
    trace_of (firewall_round (first_match firewall_rules) 0 wired [])
    ≡ frees
        (wired.burst 0 (rx_burst 0 0 32))
        (burst_of (rx_burst 0 0 32) (wired.burst 0 (rx_burst 0 0 32)) ∷ [])
firewall_round_blocks_ipv4_example =
    firewall_round_blocks_ipv4 first_match first_match-IsClassifier 0 wired [] wired-AllIpv4

-- A port that delivers a packet without Ethernet header, and sends nothing.
abbrev jammed : Driver
jammed = record {
  int = λ n r. pos 0;
  word = λ n r. 0;
  burst = λ n r. record { addr = 5; bytes = pkt1 } ∷ [];
}

main_ends : value_of (Program.main (first_match firewall_rules) 2 wired []) ≡ done (pos 0)
unfolding Program.main Program.port_init Program.build_acl firewall_loop firewall_round filter_burst
    machine
main_ends = refl

firewall_main-Returns_example :
    Ends (ethdev 0) Returns (Program.main (first_match firewall_rules) 2 wired [])
firewall_main-Returns_example = firewall_main-Returns (first_match firewall_rules) wired 2

-- Building fails: the result is 4.
abbrev unbuilt : Driver
unbuilt = record wired { int = λ n r. elim r [ acl_build _ ↦ negsuc 21 | _ ↦ pos 0 ] }

build_fails : value_of (Classifier.main unbuilt []) ≡ done (pos 4)
unfolding Classifier.main machine
build_fails = refl

classifier_main-IsClean_example : IsClean (Classifier.main unbuilt [])
classifier_main-IsClean_example = classifier_main-IsClean unbuilt
