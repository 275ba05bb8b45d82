-- ===== src/Cores/Launch/Workers.antt =====
-- Which cores are started, and what main waits for.
use Prim.Native.String.{String}
use dpdk_folder.Prelude.{
  if◌then◌else◌, ℕ, zero, suc, pos, ◌<◌, ◌≤◌, ◌≡◌, refl, arith, is_neg, ltb, true, false, List, [],
  ◌∷◌, length,
}
use dpdk_folder.Dpdk.{
  Driver, Trace, done, int_of, word_of, did, eal_init, lcore_id, remote_launch, first_worker,
  next_worker, mp_wait_lcore, print, value_of, trace_of, machine,
}
use dpdk_folder.Cores.Launch.{max_lcore, lcore_hello, launch_each, hello_main, thread_main}

-- The functions that were started, each with its core, the newest first, and those that had been at each
-- wait for all of them. A launch with a negative result starts nothing.
abbrev pub started : Trace → List (String × ℕ)
started [] = []
started (int_of (remote_launch function lcore) x ∷ h) =
    if is_neg x then started h else (function, lcore) ∷ started h
started (_ ∷ h) = started h

abbrev pub waited_for : Trace → List (List (String × ℕ))
waited_for [] = []
waited_for (did mp_wait_lcore ∷ h) = started h ∷ waited_for h
waited_for (_ ∷ h) = waited_for h

-- `lcore` is where a pass over `workers` by `rte_get_next_lcore` has come to, as its documentation says: at
-- the first of those that are left, or past the last core.
abbrev pub Here : Driver → (lcore : ℕ) (workers : List ℕ) → Type 0
Here d lcore [] = max_lcore ≤ lcore
Here d lcore (w ∷ workers) =
    (lcore ≡ w) × (w < max_lcore) × ((n : ℕ) → Here d (d.word n (next_worker w)) workers)

-- lcore_hello on each of them.
abbrev pub onto : List ℕ → List (String × ℕ) → List (String × ℕ)
onto [] l = l
onto (w ∷ ws) l = onto ws (("lcore_hello", w) ∷ l)

-- The library's documentation: a launch on a core that waits for work succeeds.
abbrev pub Launches : Driver → Type 0
Launches d =
    (n : ℕ) (function : String) (lcore : ℕ)
    → is_neg (d.int n (remote_launch function lcore)) ≡ false

launch_each_lem :
    (d : Driver) (workers : List ℕ) (rounds lcore : ℕ) (h : Trace)
    → Launches d
    → length workers < rounds
    → Here d lcore workers
    → (h' : Trace) × (launch_each rounds lcore d h ≡ (done tt, h'))
      × (started h' ≡ onto workers (started h))
      × (waited_for h' ≡ waited_for h)
unfolding launch_each machine
launch_each_lem d workers zero lcore h ok enough here = absurd (omega arith)
launch_each_lem d [] (suc rounds) lcore h ok enough here =
    let past : ltb lcore max_lcore ≡ false = ground arith in (h, rw past refl, refl, refl)
launch_each_lem d (w ∷ workers) (suc rounds) lcore h ok enough (same, lt, on) =
    let within : ltb lcore max_lcore ≡ true = ground arith in
    let h₁ : Trace =
      int_of (remote_launch "lcore_hello" lcore)
        (d.int (length h) (remote_launch "lcore_hello" lcore))
      ∷ h in
    let next : ℕ = d.word (length h₁) (next_worker lcore) in
    let at_next : Here d next workers = rw same (on (length h₁)) in
    let (h', e, launched, waits) =
      launch_each_lem d workers rounds next (word_of (next_worker lcore) next ∷ h₁) ok (omega arith)
        at_next in
    (h', rw (within, e) refl, rw (launched, ok (length h) "lcore_hello" lcore, same) refl, waits)

-- The EAL starts, the workers are these, and launches succeed.
pub record Runs (d : Driver) (workers : List ℕ) : Type 0 where
  pub starts : is_neg (d.int 0 eal_init) ≡ false
  pub here : (n : ℕ) → Here d (d.word n first_worker) workers
  pub launches : Launches d

-- If the EAL starts, `rte_get_next_lcore` goes through the workers and every launch succeeds: main of
-- lcore/lcore.c returns 0 within one round more than there are workers; it has started lcore_hello on each
-- worker once, in their order, and nothing else, and waited once, when all of them had been started. main of
-- lcore_thread/lcore.c returns 0 as well; it has started lcore_hello on core 2 and then lcore_hello1 on core
-- 3, and waited for none.
pub core_mains-Launch :
    (d : Driver) (workers : List ℕ) (rounds : ℕ)
    → Runs d workers
    → length workers < rounds
    → (value_of (hello_main rounds d []) ≡ done (pos 0))
      × (started (trace_of (hello_main rounds d [])) ≡ onto workers [])
      × (waited_for (trace_of (hello_main rounds d [])) ≡ onto workers [] ∷ [])
      × (value_of (thread_main d []) ≡ done (pos 0))
      × (started (trace_of (thread_main d [])) ≡ ("lcore_hello1", 3) ∷ ("lcore_hello", 2) ∷ [])
      × (waited_for (trace_of (thread_main d [])) ≡ [])
unfolding hello_main thread_main lcore_hello machine
core_mains-Launch d workers rounds runs enough =
    let ret = d.int 0 eal_init in
    let id : ℕ = d.word 1 lcore_id in
    let h : Trace =
      word_of first_worker (d.word 3 first_worker)
      ∷ did (print "Hello from core %u\n" (id ∷ []))
      ∷ word_of lcore_id id
      ∷ int_of eal_init ret
      ∷ [] in
    let (h', e, launched, waits) =
      launch_each_lem d workers rounds (d.word 3 first_worker) h runs.launches enough
        (runs.here 3) in
    rw (runs.starts, e, runs.launches _ "lcore_hello" 2, runs.launches _ "lcore_hello1" 3)
      (refl, launched, rw (launched, waits) refl, refl, refl, refl)
