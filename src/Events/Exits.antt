-- ===== src/Events/Exits.antt =====
-- Every worker gets its exit event.
use dpdk_folder.Prelude.{
  ℕ, zero, suc, ◌+◌, ◌-◌, ◌*◌, ◌≤◌, ◌==◌, if◌then◌else◌, List, [], ◌∷◌, ◌++◌, length, length-append,
  ◌≡◌, refl, ap, arith, Bool-cases, inl, inr,
}
use dpdk_folder.Events.Workers.{
  Worker, running, finished, handle, event_at, Device, produce, Step, produces, dispatches, Run,
  stays, steps, launch, launched,
}

-- How many exit events are pending, how many workers are in their loop, and how many events the workers
-- counted.
abbrev pub exits : List ℕ → ℕ
exits [] = 0
exits (e ∷ es) = (if e == 9999 then 1 else 0) + exits es

abbrev pub active : List Worker → ℕ
active [] = 0
active (running n ∷ ws) = 1 + active ws
active (finished n ∷ ws) = active ws

abbrev pub counted : List Worker → ℕ
counted [] = 0
counted (running n ∷ ws) = n + counted ws
counted (finished n ∷ ws) = n + counted ws

exits-append : (xs ys : List ℕ) → exits (xs ++ ys) ≡ exits xs + exits ys
exits-append [] ys = omega arith
exits-append (x ∷ xs) ys = omega (arith, exits-append xs ys)

active-append : (us vs : List Worker) → active (us ++ vs) ≡ active us + active vs
active-append [] vs = omega arith
active-append (running n ∷ us) vs = omega (arith, active-append us vs)
active-append (finished n ∷ us) vs = active-append us vs

counted-append : (us vs : List Worker) → counted (us ++ vs) ≡ counted us + counted vs
counted-append [] vs = omega arith
counted-append (running n ∷ us) vs = omega (arith, counted-append us vs)
counted-append (finished n ∷ us) vs = omega (arith, counted-append us vs)

-- An exit event ends a worker, and every event is counted.
handle_lem :
    (n e : ℕ) (ws : List Worker)
    → (active (handle n e ∷ ws) + (if e == 9999 then 1 else 0) ≡ 1 + active ws)
      × (counted (handle n e ∷ ws) ≡ 1 + n + counted ws)
unfolding handle
handle_lem n e ws = elim (Bool-cases (e == 9999)) [
  | inl z ↦ rw z (omega arith, omega arith)
  | inr z ↦ rw z (omega arith, omega arith)
]

event_at-exits : (i : ℕ) → (if event_at i == 9999 then 1 else 0) ≡ suc i - 20 - (i - 20)
unfolding event_at
event_at-exits i = ground arith

-- The state after `n` steps.
pub record Served (worker_count n : ℕ) (s : Device) : Type 0 where
  pub within : s.sent ≤ 20 + worker_count
  -- as many workers run as exit events are pending or still to be sent
  pub balance : active s.workers + (s.sent - 20) ≡ worker_count + exits s.pending
  -- every event sent was counted by a worker or is pending
  pub no_loss : counted s.workers + length s.pending ≡ s.sent
  -- each step uses up one of two for every event
  pub budget : n + 2 * (20 + worker_count - s.sent) + length s.pending ≡ 2 * (20 + worker_count)

Step-Served : {w n : ℕ} {s t : Device} → Step w s t → Served w n s → Served w (suc n) t
unfolding produce
Step-Served {s = s} (produces lt) v =
    let e = event_at-exits s.sent in
    let p = exits-append s.pending (event_at s.sent ∷ []) in
    let l = length-append s.pending (event_at s.sent ∷ []) in
    record {
      within = omega arith;
      balance = omega (arith, v.balance, e, p);
      no_loss = omega (arith, v.no_loss, l);
      budget = omega (arith, v.budget, l);
    }
Step-Served {s = s} (dispatches before after event left right n ep ew) v =
    let (a, c) = handle_lem n event right in
    let ps = exits-append before (event ∷ after) in
    let qs = exits-append before after in
    let pl = length-append before (event ∷ after) in
    let ql = length-append before after in
    record {
      within = v.within;
      balance = omega (
        arith,
        v.balance,
        a,
        ps,
        qs,
        ap exits ep,
        ap active ew,
        active-append left (running n ∷ right),
        active-append left (handle n event ∷ right),
      );
      no_loss = omega (
        arith,
        v.no_loss,
        c,
        pl,
        ql,
        ap length ep,
        ap counted ew,
        counted-append left (running n ∷ right),
        counted-append left (handle n event ∷ right),
      );
      budget = omega (arith, v.budget, pl, ql, ap length ep);
    }

active-launch : (w : ℕ) → active (launch w) ≡ w
active-launch zero = refl
active-launch (suc w) = omega (arith, active-launch w)

counted-launch : (w : ℕ) → counted (launch w) ≡ 0
counted-launch zero = refl
counted-launch (suc w) = omega (arith, counted-launch w)

Run-Served : {w n : ℕ} {s t : Device} → Run w n s t → Served w 0 s → Served w n t
Run-Served stays v = v
Run-Served (steps r x) v = Step-Served x (Run-Served r v)

-- After `n` steps from the launch, on every order of the device's deliveries: as many workers are in their
-- loop as exit events are pending or still to be sent; every event sent is pending or was counted by
-- a worker; and each event takes two steps, so that no run has more than 2 * (20 + workers).
pub launched-Served : (w n : ℕ) (t : Device) → Run w n (launched w) t → Served w n t
launched-Served w n t r = Run-Served r (record {
  within = omega arith;
  balance = omega (arith, active-launch w);
  no_loss = omega (arith, counted-launch w);
  budget = omega arith;
})
