-- ===== src/EventSetup/Workers/Production.antt =====
-- main of eventdev/main.c is the producer of Events/Workers.antt: it sends the events of `event_at`, one after
-- the other, `num_events` and one for each worker that it launches.
use dpdk_folder.Prelude.{
  ℕ, zero, suc, ◌+◌, ◌<◌, ◌≤◌, ◌==◌, ◌≡◌, refl, true, false, arith, ltb, [], length, Bool,
  Bool-cases, inl, inr, is_neg, ap, ◌∙◌,
}
use dpdk_folder.Dpdk.{Driver, Request, event_enqueue, op_new, remote_launch}
use dpdk_folder.Dpdk.Protocol.{Protocol}
use dpdk_folder.Dpdk.Rules
use dpdk_folder.Dpdk.Rules.{Triple, Ends, Reaches}
use dpdk_folder.Events.Workers.{num_events, exit_event, event_at}
use dpdk_folder.EventSetup.Sends.{send, u64_event, setup_ports, link_ports}
use dpdk_folder.EventSetup.Device.{eventdev}
use dpdk_folder.EventSetup.Sends.{Closes}
use dpdk_folder.EventSetup.Workers.{
  main, set_up, launch_workers, max_lcore, send_events, send_exits,
}
use dpdk_folder.EventSetup.Workers.Order.{print_stats-Triple, main-Triple}

-- How many workers were launched, and how many events were accepted.
pub record Produced : Type 0 where
  pub launched : ℕ
  pub sent : ℕ

abbrev pub about_production : Request → Bool
about_production (event_enqueue _ _ _ _) = true
about_production (remote_launch _ _) = true
about_production _ = false

-- No worker is launched once an event was sent, and the events are those of the producer, to queue 0.
abbrev pub AllowedProduction : Request → Produced → Type 0
AllowedProduction (event_enqueue _ q _ m) s =
    (q ≡ 0) × (m.addr ≡ event_at s.sent) × (s.sent < num_events + s.launched)
AllowedProduction (remote_launch _ _) s = s.sent ≡ 0
AllowedProduction _ s = Unit {0}

abbrev pub count_production : Request → Produced → Produced
count_production (event_enqueue _ _ _ _) s = record s { sent = s.sent + 1 }
count_production (remote_launch _ _) s = record s { launched = s.launched + 1 }
count_production _ s = s

abbrev pub production : Protocol
production = record {
  State = Produced;
  fresh = record { launched = 0; sent = 0 };
  concerns = about_production;
  Allowed = AllowedProduction;
  succeed = count_production;
}

-- What the library's documentation says of the results: an enqueue of one event accepts one at most, and
-- a launch on a waiting worker succeeds.
pub record AsDocumented (d : Driver) : Type 0 where
  pub enqueues : (n : ℕ) (value : ℕ) → d.word n (event_enqueue 0 0 op_new (u64_event value)) ≤ 1
  pub launches : (n lcore : ℕ) → is_neg (d.int n (remote_launch "worker" lcore)) ≡ false

module _ (d : Driver) (ok : AsDocumented d) where
  send-production :
      (rounds value : ℕ) (s : Produced)
      → value ≡ event_at s.sent
      → s.sent < num_events + s.launched
      → Triple d production s
          (send rounds value)
          (Reaches (λ _ s'. s' ≡ record s { sent = s.sent + 1 }))
  unfolding send
  send-production zero value s e lt = Rules.still_running-Triple tt
  send-production (suc rounds) value s e lt =
      Rules.ask_word_about-Triple _ _ refl (refl, e, lt)
        λ n.
          let r = event_enqueue 0 0 op_new (u64_event value) in
          elim (Bool-cases (d.word n r == 0)) [
            | inl z ↦
                let again : (d.word n r == 1) ≡ false = ground arith in
                rw (z, again) (send-production rounds value s e lt)
            | inr z ↦
                let sent : (d.word n r == 1) ≡ true = ground (arith, ok.enqueues n value) in
                rw (z, sent) (Rules.pure-Triple _ refl)
          ]

  launch-production :
      (rounds port lcore_id : ℕ) (s : Produced)
      → s.sent ≡ 0
      → Triple d production s
          (launch_workers rounds port lcore_id)
          (Reaches (λ ports s'. s' ≡ record s { launched = s.launched + length ports }))
  unfolding launch_workers
  launch-production zero port lcore_id s e = Rules.still_running-Triple tt
  launch-production (suc rounds) port lcore_id s e = elim (Bool-cases (ltb lcore_id max_lcore)) [
    | inl e' ↦ rw e' (
        Rules.then_obliged-Triple _ _ refl e (λ n. ok.launches n lcore_id)
          (Rules.ask_word-Triple _ _ refl λ n.
            Rules.bind_reach-Triple _ _
              (launch-production rounds (port + 1) _ (record s { launched = s.launched + 1 }) e)
              λ ports s' e''.
                Rules.pure-Triple _ (rw e'' (ap (λ k. record s { launched = k }) (omega arith)))))
    | inr e' ↦ rw e' (Rules.pure-Triple _ (ap (λ k. record s { launched = k }) (omega arith)))
  ]

  events-production :
      (rounds left i : ℕ) (s : Produced)
      → s.sent ≡ i
      → i + left ≤ num_events
      → Triple d production s
          (send_events rounds left i)
          (Reaches (λ _ s'. s' ≡ record s { sent = s.sent + left }))
  unfolding send_events event_at
  events-production rounds zero i s e le =
      Rules.pure-Triple _ (ap (λ k. record s { sent = k }) (omega arith))
  events-production rounds (suc left) i s e le =
      Rules.then_reach-Triple _ _ (send-production rounds i s (ground arith) (omega arith))
        λ a s' e'. rw e' (
          Rules.weaken_reach-Triple
            (events-production rounds left (i + 1) (record s { sent = s.sent + 1 }) (omega arith)
              (omega arith))
            λ a s'' e''. e'' ∙ ap (λ k. record s { sent = k }) (omega arith))

  exits-production :
      (rounds left : ℕ) (s : Produced)
      → num_events ≤ s.sent
      → s.sent + left ≤ num_events + s.launched
      → Triple d production s
          (send_exits rounds left)
          (Reaches (λ _ s'. s' ≡ record s { sent = s.sent + left }))
  unfolding send_exits event_at
  exits-production rounds zero s late le =
      Rules.pure-Triple _ (ap (λ k. record s { sent = k }) (omega arith))
  exits-production rounds (suc left) s late le =
      Rules.then_reach-Triple _ _ (send-production rounds exit_event s (ground arith) (omega arith))
        λ a s' e'. rw e' (
          Rules.weaken_reach-Triple
            (exits-production rounds left (record s { sent = s.sent + 1 }) (omega arith)
              (omega arith))
            λ a s'' e''. e'' ∙ ap (λ k. record s { sent = k }) (omega arith))

module _ (d : Driver) (s : Produced) where
  ports-production :
      (left i : ℕ) → Triple d production s (setup_ports left i) (Reaches (λ _ s'. s' ≡ s))
  unfolding setup_ports
  ports-production zero i = Rules.pure-Triple _ refl
  ports-production (suc left) i =
      Rules.ask_or_exit_other-Triple _ _ refl tt (ports-production left (i + 1))

  links-production :
      (left i : ℕ) → Triple d production s (link_ports left i) (Reaches (λ _ s'. s' ≡ s))
  unfolding link_ports
  links-production zero i = Rules.pure-Triple _ refl
  links-production (suc left) i =
      Rules.ask_int_other-Triple _ _ refl
        λ n. Rules.exit_if-Triple _ _ (λ e. tt) (λ e. links-production left (i + 1))

  set_up-production : Triple d production s set_up (Reaches (λ _ s'. s' ≡ s))
  unfolding set_up
  set_up-production = Rules.ask_or_exit_other-Triple _ _ refl tt (
      Rules.then_int_other-Triple _ _ refl (
        Rules.ask_or_exit_other-Triple _ _ refl tt (
          Rules.ask_or_exit_other-Triple _ _ refl tt (
            Rules.then_reach-Triple _ _ (ports-production 8 0) λ a s' e. rw e (
              Rules.then_reach-Triple _ _ (links-production 8 0) λ a s' e.
                rw e (Rules.ask_or_exit_other-Triple _ _ refl tt (Rules.pure-Triple _ refl)))))))

-- All that is to be sent was sent.
abbrev pub IsComplete : {A : Type 0} → A → Produced → Type 0
IsComplete _ s = s.sent ≡ num_events + s.launched

main-production :
    (d : Driver)
    → AsDocumented d
    → (rounds : ℕ) → Triple d production production.fresh (main rounds) (Reaches IsComplete)
unfolding main
main-production d ok rounds = Rules.reaching-Triple _ (
    Rules.ask_or_exit_other-Triple {Post = Reaches IsComplete} _ _ refl tt (
      Rules.then_reach-Triple _ _ (set_up-production d _) λ a s e. rw e (
        Rules.ask_word-Triple _ _ refl λ n.
          Rules.bind_reach-Triple _ _ (launch-production d ok rounds 0 _ _ refl) λ ports s e. rw e (
            Rules.then_reach-Triple _ _
              (events-production d ok rounds num_events 0 _ refl (omega arith))
              λ a s e. rw e (
                Rules.then_reach-Triple _ _
                  (exits-production d ok rounds (length ports) _ (omega arith) (omega arith))
                  λ a s e. rw e (
                    Rules.then_run-Triple _ _ refl (
                      Rules.then_completes-Triple _ _
                        (print_stats-Triple d production _ 128 0 (λ i. refl) (λ t l. refl))
                        (Rules.then_run-Triple _ _ refl (
                          Rules.then_run-Triple _ _ refl
                            (Rules.pure-Triple _ (omega arith)))))))))))

-- Where an enqueue of one event accepts one at most and every launch succeeds, main of eventdev/main.c sets
-- the event device up and uses it in the documented order; where it returns, it returns 0 with the
-- device closed. It launches its workers first and then sends to queue 0, one by one, the events of the
-- producer in Events/Workers.antt: 20 numbered ones and an exit event for each worker; where it returns,
-- all of them were accepted.
pub eventdev-main-Produces :
    (d : Driver) (rounds : ℕ)
    → AsDocumented d
    → Ends eventdev Closes (main rounds d [])
      × Ends production (Reaches IsComplete) (main rounds d [])
eventdev-main-Produces d rounds ok =
    (Rules.Triple-Ends (main-Triple d rounds), Rules.Triple-Ends (main-production d ok rounds))
