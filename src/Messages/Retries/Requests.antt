-- ===== src/Messages/Retries/Requests.antt =====
-- The requests that Multiple_Sender_MP/sec.c sends, one after the other.
use dpdk_folder.Prelude.{
  ℕ, zero, suc, ◌+◌, ◌*◌, ◌≤◌, ◌<◌, not, ◌==◌, Bool, true, false, if◌then◌else◌, ◌∷◌, length, ◌≡◌,
  refl, arith, Bool-cases, inl, inr, ==_iff,
}
use dpdk_folder.Dpdk.{
  Driver, Trace, Outcome, done, returned, exited, running, resume, pure, ◌>>◌, word_of, force_quit,
  machine,
}
use dpdk_folder.Messages.Sender.{try_request, free_reply, send_requests}
use dpdk_folder.Messages.Retries.OneRequest.{answered, failed}
use dpdk_folder.Messages.Retries.OneRequest.{Attempts, try_request-Attempts, free_reply_lem}

-- Whether request `i` is among the `left` requests from `j` on: 1 or 0.
abbrev pub due : (left j i : ℕ) → ℕ
due zero j i = 0
due (suc left) j i = (if j == i then 1 else 0) + due left (j + 1) i

pub due_before : (left j i : ℕ) → i < j → due left j i ≡ 0
due_before zero j i lt = refl
due_before (suc left) j i lt = ground (arith, due_before left (j + 1) i (omega arith))

pub due_le : (left j i : ℕ) → due left j i ≤ 1
due_le zero j i = omega arith
due_le (suc left) j i = elim (Bool-cases (j == i)) [
  | inl e ↦
      let here : j ≡ i = (==_iff j i).0 e in
      rw e (omega (arith, due_before left (j + 1) i (omega arith)))
  | inr e ↦ rw e (omega (arith, due_le left (j + 1) i))
]

-- The loop ends; request `i` is answered at most once and sent at most three times.
pub record Sent (left i j : ℕ) (h : Trace) (r : Outcome (Unit {0}) × Trace) : Type 0 where
  pub ends : r.0 ≡ done tt
  pub once : answered i r.1 ≤ answered i h + due left j i
  pub thrice : answered i r.1 + failed i r.1 ≤ answered i h + failed i h + 3 * due left j i

-- What follows the attempts at request `j`, where the requests behind it are known to keep `Sent`.
module _ (left i j : ℕ) (d : Driver) (h : Trace)
    (next : (h₃ : Trace) → Sent left i (j + 1) h₃ (send_requests left (j + 1) d h₃)) where
  abbrev h₁ : Trace
  h₁ = word_of force_quit (d.word (length h) force_quit) ∷ h

  -- What follows the attempts at request `j`.
  abbrev rest : Bool → Driver → Trace → Outcome (Unit {0}) × Trace
  rest success = (if success then free_reply j else pure tt) >> send_requests left (j + 1)

  bound :
      {r : Outcome Bool × Trace}
      → Attempts 3 i j h₁ r
      → answered i r.1 ≤ answered i h₁ + (if j == i then 1 else 0)
  bound t = ground (arith, t.answers)

  bound_all :
      {r : Outcome Bool × Trace}
      → Attempts 3 i j h₁ r
      → answered i r.1 + failed i r.1 ≤ answered i h₁ + failed i h₁ + 3 * (if j == i then 1 else 0)
  bound_all t = ground (arith, t.answers, t.fails)

  continued :
      (r : Outcome (Unit {0}) × Trace)
      → r.0 ≡ done tt
      → answered i r.1 ≤ answered i h₁ + (if j == i then 1 else 0)
      → answered i r.1 + failed i r.1 ≤ answered i h₁ + failed i h₁ + 3 * (if j == i then 1 else 0)
      → Sent (suc left) i j h (resume r (λ _. send_requests left (j + 1)) d)
  unfolding machine
  continued (done _, h₃) e o t =
      let k = next h₃ in
      record { ends = k.ends; once = omega (arith, k.once, o); thrice = omega (arith, k.thrice, t) }
  continued (returned x, h₃) e o t = cc
  continued (exited, h₃) e o t = cc
  continued (running, h₃) e o t = cc

  tried : (r : Outcome Bool × Trace) → Attempts 3 i j h₁ r → Sent (suc left) i j h (resume r rest d)
  unfolding machine
  tried (done true, h₂) t =
      let (v, a, f) = free_reply_lem i j d h₂ in
      continued (free_reply j d h₂) v (omega (arith, a, bound t)) (omega (arith, a, f, bound_all t))
  tried (done false, h₂) t = continued (done tt, h₂) refl (bound t) (bound_all t)
  tried (returned x, h₂) t = cc
  tried (exited, h₂) t = cc
  tried (running, h₂) t = cc

pub send_requests-Sent :
    (left i j : ℕ) (d : Driver) (h : Trace) → Sent left i j h (send_requests left j d h)
unfolding send_requests machine
send_requests-Sent zero i j d h = record { ends = refl; once = omega arith; thrice = omega arith }
send_requests-Sent (suc left) i j d h =
    let quit = d.word (length h) force_quit in
    let h₁ = word_of force_quit quit ∷ h in
    elim (Bool-cases (not (quit == 0))) [
      | inl e ↦ rw e (record { ends = refl; once = omega arith; thrice = omega arith })
      | inr e ↦ rw e (
          tried left i j d h (λ h₃. send_requests-Sent left i (j + 1) d h₃) (try_request 3 j d h₁)
            (try_request-Attempts 3 i j d h₁))
    ]
