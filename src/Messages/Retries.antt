-- ===== src/Messages/Retries.antt =====
-- How often a request is sent.
mod Requests
mod OneRequest
use dpdk_folder.Prelude.{
  ℕ, zero, suc, ◌+◌, ◌*◌, ◌≤◌, ◌<◌, ℤ, pos, is_neg, not, ◌==◌, ◌&&◌, ltb, Bool, true, false,
  if◌then◌else◌, [], ◌∷◌, length, ◌≡◌, refl, arith, Bool-cases, inl, inr, ==_iff,
}
use dpdk_folder.Dpdk.{
  Driver, Trace, Outcome, done, returned, exited, running, resume, caught, pure, ◌>>◌, int_of,
  word_of, did, eal_init, force_quit, mp_request_sync, mp_nb_received, mp_msgs,
  mp_action_unregister, value_of, trace_of, machine,
}
use dpdk_folder.Messages.Sender.{try_request, free_reply, send_requests, main}
pub use OneRequest.{answered, failed}
use OneRequest.{Attempts, try_request-Attempts, free_reply_lem}
use Requests.{due, due_before, due_le, Sent, send_requests-Sent}

-- A `main` that ends: its result, and the counts of request `i`.
pub record Sends (i : ℕ) (r : Outcome ℤ × Trace) : Type 0 where
  pub code : ℤ
  pub ends : r.0 ≡ done code
  pub once : answered i r.1 ≤ 1
  pub thrice : answered i r.1 + failed i r.1 ≤ 3
  pub others : (1 ≤ i → 3 < i) → answered i r.1 + failed i r.1 ≡ 0

due_outside : (i : ℕ) → (1 ≤ i → 3 < i) → due 3 1 i ≡ 0
due_outside zero out = refl
due_outside (suc i) out = ground (arith, out (omega arith))

-- The end of `main`.
abbrev ending : Unit {0} → Driver → Trace → Outcome ℤ × Trace
ending _ d h = (done (pos 0), did (mp_action_unregister "get_stats") ∷ h)

ending-Sends :
    (i : ℕ) (d : Driver) (h : Trace) (r : Outcome (Unit {0}) × Trace)
    → answered i h ≡ 0
    → failed i h ≡ 0
    → Sent 3 i 1 h r
    → Sends i (caught (resume r ending d).0, (resume r ending d).1)
ending-Sends i d h (done _, h₂) za zf s = record {
  code = pos 0;
  ends = refl;
  once = omega (arith, s.once, za, due_le 3 1 i);
  thrice = omega (arith, s.thrice, za, zf, due_le 3 1 i);
  others = λ out. omega (arith, s.thrice, za, zf, due_outside i out);
}
ending-Sends i d h (returned x, h₂) za zf s = cc
ending-Sends i d h (exited, h₂) za zf s = cc
ending-Sends i d h (running, h₂) za zf s = cc

-- Whatever comes back and whenever a signal arrives, main of Multiple_Sender_MP/sec.c ends, is answered at
-- most once for each of its requests 1, 2 and 3, sends each at most three times, and sends no other.
pub sender_main-Sends : (i : ℕ) (d : Driver) → Sends i (main d [])
unfolding main machine
sender_main-Sends i d =
    let ret = d.int 0 eal_init in
    elim (Bool-cases (is_neg ret)) [
      | inl e ↦ rw e (record {
        code = pos 1;
        ends = refl;
        once = omega arith;
        thrice = omega arith;
        others = λ out. refl;
      })
      | inr e ↦ rw e (
          ending-Sends i d (int_of eal_init ret ∷ [])
            (send_requests 3 1 d (int_of eal_init ret ∷ [])) refl refl
            (send_requests-Sent 3 i 1 d (int_of eal_init ret ∷ [])))
    ]
