-- ===== src/Cores/Timer/Ticks.antt =====
-- The timer is set up in the documented order, and its function counts its calls.
use dpdk_folder.Prelude.{
  ◌≤◌, ◌⊎◌, sym, ℕ, ℤ, zero, suc, negsuc, ◌+◌, ◌*◌, ◌%◌, ◌^◌, ◌≡◌, refl, arith, is_neg, u64, Bool,
  true, false, Bool-cases, inl, inr, List, [], ◌∷◌, length, ap, ◌∙◌,
}
use dpdk_folder.Dpdk.{
  caught, Driver, Trace, Request, Outcome, done, returned, exited, running, int_of, word_of, did,
  eal_init, lcore_id, timer_subsystem_init, timer_init, timer_hz, timer_reset, timer_manage, print,
  value_of, trace_of, machine,
}
use dpdk_folder.Dpdk.Loops.{still_runs}
use dpdk_folder.Dpdk.Protocol.{Protocol}
use dpdk_folder.Dpdk.Rules
use dpdk_folder.Dpdk.Rules.{Triple, Ends, At, Completes, Stays}
use dpdk_folder.Cores.Timer.{timer_callback, fire, manage_rounds, main}

-- rte_timer's documentation: a timer is initialised once, and before it is set. The state says whether it is
-- initialised.
abbrev pub about_timers : Request → Bool
about_timers timer_init = true
about_timers (timer_reset _ _) = true
about_timers _ = false

abbrev pub AllowedTimers : Request → Bool → Type 0
AllowedTimers timer_init initialised = initialised ≡ false
AllowedTimers (timer_reset _ _) initialised = initialised ≡ true
AllowedTimers _ initialised = Unit {0}

abbrev pub initialise : Request → Bool → Bool
initialise timer_init initialised = true
initialise _ initialised = initialised

abbrev pub timers : Protocol
timers = record {
  State = Bool;
  fresh = false;
  concerns = about_timers;
  Allowed = AllowedTimers;
  succeed = initialise;
}

-- The counts that were printed, the newest first.
abbrev pub printed : Trace → List ℕ
printed [] = []
printed (did (print _ (count ∷ id ∷ [])) ∷ h) = count ∷ printed h
printed (_ ∷ h) = printed h

-- How often the library says that it called the function.
abbrev pub fired : Trace → ℕ
fired [] = 0
fired (word_of timer_manage times ∷ h) = times + fired h
fired (_ ∷ h) = fired h

-- How often the timers were managed, and each setting of a timer: its period, its core, and how often they had
-- been managed before.
abbrev pub managed : Trace → ℕ
managed [] = 0
managed (word_of timer_manage times ∷ h) = 1 + managed h
managed (_ ∷ h) = managed h

abbrev pub settings : Trace → List (ℕ × ℕ × ℕ)
settings [] = []
settings (int_of (timer_reset period lcore) x ∷ h) = (period, lcore, managed h) ∷ settings h
settings (_ ∷ h) = settings h

-- The numbers below `n`, the greatest first.
abbrev pub below : ℕ → List ℕ
below zero = []
below (suc n) = n ∷ below n

fire_lem :
    (d : Driver) (times count : ℕ) (h : Trace)
    → times + count ≤ 2 ^ 31
    → printed h ≡ below count
    → (h' : Trace) × (fire times count d h ≡ (done (times + count), h'))
      × (printed h' ≡ below (times + count))
      × (fired h' ≡ fired h)
      × (settings h' ≡ settings h)
unfolding fire timer_callback machine
fire_lem d zero count h int p =
    let same : zero + count ≡ count = omega arith in (h, rw same refl, rw same p, refl, refl)
fire_lem d (suc times) count h int p =
    let id : ℕ = d.word (length h) lcore_id in
    let next : (count + 1) % 2 ^ 32 ≡ suc count = omega arith in
    let same : suc times + count ≡ times + suc count = omega arith in
    let (h', e, p', f, s) =
      fire_lem d times (suc count)
        (did (print "Timer triggered! Count = %d on lcore %u\n" (count ∷ id ∷ []))
          ∷ word_of lcore_id id
          ∷ h)
        (omega arith) (ap (λ l. count ∷ l) p) in
    rw (next, same) (h', e, p', f, s)

fire_ends :
    (d : Driver) (times count : ℕ) (h : Trace)
    → (c : ℕ) × (h' : Trace) × (fire times count d h ≡ (done c, h'))
      × (fired h' ≡ fired h)
      × (settings h' ≡ settings h)
unfolding fire timer_callback machine
fire_ends d zero count h = (count, h, refl, refl, refl)
fire_ends d (suc times) count h = fire_ends d times _ _

-- The rounds, from any count: they call the function at least as often as the first says.
rounds_lem :
    (d : Driver) (rounds count : ℕ) (h : Trace)
    → let r = manage_rounds rounds count d h in
      (value_of r ≡ running) × (fired h ≤ fired (trace_of r)) × (settings (trace_of r) ≡ settings h)
unfolding manage_rounds machine
rounds_lem d zero count h = (refl, omega arith, refl)
rounds_lem d (suc rounds) count h =
    let h₁ : Trace = did (print "Processing packets...\n" []) ∷ h in
    let times : ℕ = d.word (length h₁) timer_manage in
    let (c, h₂, e, f, s) = fire_ends d times count (word_of timer_manage times ∷ h₁) in
    let (still, le, s') = rounds_lem d rounds c h₂ in rw e (still, omega (arith, f, le), s' ∙ s)

first_round :
    (d : Driver) (rounds count : ℕ) (h : Trace)
    → d.word (suc (length h)) timer_manage + fired h
      ≤ fired (trace_of (manage_rounds (suc rounds) count d h))
unfolding manage_rounds machine
first_round d rounds count h =
    let h₁ : Trace = did (print "Processing packets...\n" []) ∷ h in
    let times : ℕ = d.word (length h₁) timer_manage in
    let (c, h₂, e, f, s) = fire_ends d times count (word_of timer_manage times ∷ h₁) in
    let (still, le, s') = rounds_lem d rounds c h₂ in rw e (omega (arith, f, le))

-- As long as the count is in the range of an int, the counts printed are those of the calls.
abbrev pub Counts : Trace → Type 0
Counts h = fired h ≤ 2 ^ 31 → printed h ≡ below (fired h)

rounds-Counts :
    (d : Driver) (rounds count : ℕ) (h : Trace)
    → count ≡ fired h
    → printed h ≡ below count
    → Counts (trace_of (manage_rounds rounds count d h))
unfolding manage_rounds machine
rounds-Counts d zero count h e p = λ int. rw (sym e) p
rounds-Counts d (suc rounds) count h e p = λ int.
    let h₁ : Trace = did (print "Processing packets...\n" []) ∷ h in
    let times : ℕ = d.word (length h₁) timer_manage in
    let (h₂, ran, p', f, s) =
      fire_lem d times count (word_of timer_manage times ∷ h₁)
        (omega (arith, int, e, first_round d rounds count h)) p in
    let rest : Counts (trace_of (manage_rounds (suc rounds) count d h)) =
      rw ran (rounds-Counts d rounds (times + count) h₂ (omega (arith, e, f)) p') in
    rest int

module _ (d : Driver) (s : Bool) where
  fire-Triple : (times count : ℕ) → Triple d timers s (fire times count) (Completes s)
  unfolding fire timer_callback
  fire-Triple zero count = Rules.pure-Triple _ refl
  fire-Triple (suc times) count =
      Rules.bind_completes-Triple _ _
        (Rules.ask_word-Triple _ _ refl
          λ n. Rules.then_run-Triple _ _ refl (Rules.pure-Triple _ refl))
        λ count'. fire-Triple times count'

  manage_rounds-Triple :
      (rounds count : ℕ) → Triple d timers s (manage_rounds rounds count) (Stays s)
  unfolding manage_rounds
  manage_rounds-Triple zero count = Rules.still_running-Triple refl
  manage_rounds-Triple (suc rounds) count = Rules.then_run-Triple _ _ refl (
      Rules.ask_word-Triple _ _ refl λ n.
        Rules.bind_completes-Triple _ _ (fire-Triple _ count)
          λ count'. manage_rounds-Triple rounds count')

-- Main has returned -1 before it used a timer, or is in its loop with an initialised one.
abbrev pub TicksOrNot : Outcome ℤ → Bool → Type 0
TicksOrNot (done x) s = (x ≡ negsuc 0) × (s ≡ false)
TicksOrNot (returned x) s = ⊥
TicksOrNot exited s = ⊥
TicksOrNot running s = s ≡ true

abbrev pub TicksOrReturns : Outcome ℤ → Bool → Type 0
TicksOrReturns (done x) s = ⊥
TicksOrReturns (returned x) s = (x ≡ negsuc 0) × (s ≡ false)
TicksOrReturns exited s = ⊥
TicksOrReturns running s = s ≡ true

caught_ticks : (o : Outcome ℤ) (s : Bool) → TicksOrReturns o s → TicksOrNot (caught o) s
caught_ticks (done x) s l = absurd l
caught_ticks (returned x) s l = l
caught_ticks exited s l = l
caught_ticks running s l = l

main-Triple : (d : Driver) (rounds : ℕ) → Triple d timers false (main rounds) TicksOrNot
unfolding main
main-Triple d rounds = Rules.function-Triple _ (
    Rules.weaken-Triple {Mid = TicksOrReturns}
      (Rules.ask_int_other-Triple _ _ refl λ n.
        Rules.return_if-Triple _ _ _ (λ e. (refl, refl))
          λ e. Rules.then_int_other-Triple _ _ refl (
            Rules.then_run_about-Triple _ _ refl refl (
              Rules.ask_word-Triple _ _ refl λ hz. Rules.then_run-Triple _ _ refl (
                Rules.ask_word-Triple _ _ refl λ id. Rules.then_int_same-Triple _ _ refl refl refl (
                  Rules.then-Triple _ _ (manage_rounds-Triple d true rounds 0) (λ x s l. absurd l)
                    (λ s l. absurd l) (λ s e. e) (λ x s l. absurd l))))))
      caught_ticks)

-- Main has ended without setting a timer, or is in its loop and has set its timer once, before the loop: to
-- every two seconds, by the frequency that it asked for, on its own core.
abbrev pub SetsOrNot : Driver → Outcome ℤ × Trace → Type 0
SetsOrNot d r =
    ((value_of r ≡ done (negsuc 0)) × (settings (trace_of r) ≡ []))
    ⊎ ((value_of r ≡ running)
        × (settings (trace_of r) ≡ (u64 (2 * d.word 3 timer_hz), d.word 5 lcore_id, 0) ∷ []))

main_lem :
    (d : Driver) (rounds : ℕ)
    → SetsOrNot d (main rounds d []) × Counts (trace_of (main rounds d []))
unfolding main machine
main_lem d rounds =
    let ret = d.int 0 eal_init in
    let hz : ℕ = d.word 3 timer_hz in
    let id : ℕ = d.word 5 lcore_id in
    let set = timer_reset (u64 (2 * hz)) id in
    let h : Trace =
      int_of set (d.int 6 set)
      ∷ word_of lcore_id id
      ∷ did (print "Timer frequency = %lu cycles per second\n" (hz ∷ []))
      ∷ word_of timer_hz hz
      ∷ did timer_init
      ∷ int_of timer_subsystem_init (d.int 1 timer_subsystem_init)
      ∷ int_of eal_init ret
      ∷ [] in
    let (still, le, s) = rounds_lem d rounds 0 h in
    elim (Bool-cases (is_neg ret)) [
      | inl e ↦ rw e (inl (refl, refl), λ int. refl)
      | inr e ↦
          rw (e, still_runs (manage_rounds rounds 0) d h still)
            (inr (refl, s), rounds-Counts d rounds 0 h refl refl)
    ]

-- For every driver, main of timer_dpdk returns -1 before it touches a timer, where the EAL does not start, or
-- is in its loop. It initialises its timer before it sets it, and sets it once, before the loop, to a period of
-- two seconds by the frequency that it was told, on its own core. As long as the library has called the
-- timer's function at most 2^31 times, in each round any number of times, the counts printed are 0, 1, 2
-- and so on, one for each call.
pub timer_main-Counts :
    (d : Driver) (rounds : ℕ)
    → fired (trace_of (main rounds d [])) ≤ 2 ^ 31
    → Ends timers TicksOrNot (main rounds d [])
      × SetsOrNot d (main rounds d [])
      × (printed (trace_of (main rounds d [])) ≡ below (fired (trace_of (main rounds d []))))
timer_main-Counts d rounds int =
    let (sets, counts) = main_lem d rounds in
    (Rules.Triple-Ends (main-Triple d rounds), sets, counts int)
