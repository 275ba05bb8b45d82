-- ===== src/Messages/Retries/OneRequest.antt =====
-- The attempts that Multiple_Sender_MP/sec.c makes at one request.
use dpdk_folder.Prelude.{
  ℕ, zero, suc, ◌+◌, ◌≤◌, is_neg, not, ◌==◌, ◌&&◌, ltb, Bool, true, false, if◌then◌else◌, [], ◌∷◌,
  length, ◌≡◌, refl, arith, Bool-cases, inl, inr,
}
use dpdk_folder.Dpdk.{
  Driver, Trace, Outcome, done, int_of, word_of, force_quit, mp_request_sync, mp_nb_received,
  mp_msgs, value_of, trace_of, machine,
}
use dpdk_folder.Messages.Sender.{try_request, free_reply}

-- The requests of number `i` that were answered, and those that failed.
abbrev pub answered : ℕ → Trace → ℕ
answered i [] = 0
answered i (int_of (mp_request_sync j) x ∷ h) =
    (if j == i then (if is_neg x then 0 else 1) else 0) + answered i h
answered i (_ ∷ h) = answered i h

abbrev pub failed : ℕ → Trace → ℕ
failed i [] = 0
failed i (int_of (mp_request_sync j) x ∷ h) =
    (if j == i then (if is_neg x then 1 else 0) else 0) + failed i h
failed i (_ ∷ h) = failed i h

-- What `left` attempts at request `j` do to the counts of request `i`.
pub record Attempts (left i j : ℕ) (h : Trace) (r : Outcome Bool × Trace) : Type 0 where
  pub success : Bool
  pub ends : r.0 ≡ done success
  pub answers : answered i r.1 ≡ answered i h + (if j == i then (if success then 1 else 0) else 0)
  pub fails :
      failed i r.1 + (if j == i then (if success then 1 else 0) else 0)
      ≤ failed i h + (if j == i then left else 0)

pub try_request-Attempts :
    (left i j : ℕ) (d : Driver) (h : Trace) → Attempts left i j h (try_request left j d h)
unfolding try_request machine
try_request-Attempts zero i j d h = record {
  success = false;
  ends = refl;
  answers = ground arith;
  fails = ground arith;
}
try_request-Attempts (suc left) i j d h =
    let quit = d.word (length h) force_quit in
    let h₁ = word_of force_quit quit ∷ h in
    let ret = d.int (length h₁) (mp_request_sync j) in
    let h₂ = int_of (mp_request_sync j) ret ∷ h₁ in
    let more = try_request-Attempts left i j d h₂ in
    elim (Bool-cases (not (quit == 0))) [
      | inl e ↦
          rw e
            (record { success = false; ends = refl; answers = ground arith; fails = ground arith })
      | inr e ↦ elim (Bool-cases (is_neg ret)) [
        | inl n ↦
            rw (e, n)
              (record {
                success = more.success;
                ends = more.ends;
                answers = ground (arith, more.answers, n);
                fails = ground (arith, more.fails, n);
              })
        | inr n ↦
            rw (e, n)
              (record {
                success = true;
                ends = refl;
                answers = ground (arith, n);
                fails = ground (arith, n);
              })
      ]
    ]

pub free_reply_lem :
    (i j : ℕ) (d : Driver) (h : Trace)
    → (value_of (free_reply j d h) ≡ done tt)
      × (answered i (trace_of (free_reply j d h)) ≡ answered i h)
      × (failed i (trace_of (free_reply j d h)) ≡ failed i h)
unfolding free_reply machine
free_reply_lem i j d h =
    let n = d.word (length h) (mp_nb_received j) in
    let msgs = d.word (suc (length h)) (mp_msgs j) in
    elim (Bool-cases (not (msgs == 0) && ltb 0 n)) [
      | inl e ↦ rw e (refl, refl, refl)
      | inr e ↦ rw e (refl, refl, refl)
    ]
