-- ===== src/Messages/Replies.antt =====
-- What the primaries reply.
use Prim.Native.String.{String}
use dpdk_folder.Prelude.{
  ℕ, zero, suc, ◌+◌, ◌%◌, ◌^◌, arith, ◌≡◌, refl, ap, ◌∙◌, ℤ, pos, negsuc, is_neg, List, [], ◌∷◌,
  length, Bool-cases, ◌⊎◌, inl, inr,
}
use dpdk_folder.Dpdk.{
  Driver, Trace, done, running, int_of, did, sleep, value_of, trace_of, M, eal_init,
  mp_action_register, mp_reply, machine,
}
use dpdk_folder.Dpdk.Loops.{still_runs}
use dpdk_folder.Messages.Receiver.{
  stats, tarun, next_number, mp_callback, mp_callback_tarun, mp_callback_slow, multiple_sender_main,
  multiple_msg_main, message_passing_main, answer_requests, main,
}

-- What was replied, the newest first.
abbrev pub replies : Trace → List (List ℕ)
replies [] = []
replies (int_of (mp_reply name param) x ∷ h) = param ∷ replies h
replies (_ ∷ h) = replies h

-- The texts of the numbers from 1 to `requests`, as 32 bits hold them, the newest first.
abbrev pub numbered : (text : ℕ → List ℕ) (requests : ℕ) → List (List ℕ)
numbered text zero = []
numbered text (suc requests) = text (suc requests % 2 ^ 32) ∷ numbered text requests

-- Whether the reply can be sent or not, the callback returns to the library, having replied once.
abbrev RepliesOnce : (callback : ℕ → M ℤ) (text : ℕ → List ℕ) → Type 0
RepliesOnce callback text =
    (n : ℕ) (d : Driver) (h : Trace)
    → (x : ℤ) × (h' : Trace) × (callback n d h ≡ (done x, h')) × (replies h' ≡ text n ∷ replies h)

mp_callback-RepliesOnce : RepliesOnce mp_callback stats
unfolding mp_callback machine
mp_callback-RepliesOnce n d h =
    let r = mp_reply "get_stats" (stats n) in
    let ret = d.int (length h) r in
    elim (Bool-cases (is_neg ret)) [
      | inl e ↦ (negsuc 0, int_of r ret ∷ h, rw e refl, refl)
      | inr e ↦ (pos 0, int_of r ret ∷ h, rw e refl, refl)
    ]

mp_callback_slow-RepliesOnce : RepliesOnce mp_callback_slow stats
unfolding mp_callback_slow machine
mp_callback_slow-RepliesOnce n d h =
    let r = mp_reply "get_stats" (stats n) in
    let ret = d.int (length h) r in
    elim (Bool-cases (is_neg ret)) [
      | inl e ↦ (negsuc 0, int_of r ret ∷ h, rw e refl, refl)
      | inr e ↦ (pos 0, did (sleep 5) ∷ int_of r ret ∷ h, rw e refl, refl)
    ]

mp_callback_tarun-RepliesOnce : RepliesOnce mp_callback_tarun (λ n. tarun)
unfolding mp_callback_tarun machine
mp_callback_tarun-RepliesOnce n d h =
    let r = mp_reply "tarun" tarun in (pos 0, int_of r (d.int (length h) r) ∷ h, refl, refl)

-- The program has returned 1 without a reply, or is in its loop and has sent the texts of 1, 2 and so on, in
-- this order.
abbrev pub Answers : (text : ℕ → List ℕ) (requests : ℕ) (program : M ℤ) (d : Driver) → Type 0
Answers text requests program d =
    ((value_of (program d []) ≡ done (pos 1)) × (replies (trace_of (program d [])) ≡ []))
    ⊎ ((value_of (program d []) ≡ running)
        × (replies (trace_of (program d [])) ≡ numbered text requests))

module _ (callback : ℕ → M ℤ) (text : ℕ → List ℕ) (once : RepliesOnce callback text) where
  -- Behind `before` requests.
  answer_requests_lem :
      (requests before : ℕ) (d : Driver) (h : Trace)
      → replies h ≡ numbered text before
      → let r = answer_requests callback requests (before % 2 ^ 32) d h in
        (value_of r ≡ running) × (replies (trace_of r) ≡ numbered text (requests + before))
  unfolding answer_requests machine
  answer_requests_lem zero before d h e =
      let same : zero + before ≡ before = omega arith in (refl, rw same e)
  answer_requests_lem (suc requests) before d h e =
      let one_more : next_number (before % 2 ^ 32) ≡ suc before % 2 ^ 32 = omega arith in
      let same : suc requests + before ≡ requests + suc before = omega arith in
      let (x, h', ran, r) = once (suc before % 2 ^ 32) d h in
      rw (one_more, ran, same)
        (answer_requests_lem requests (suc before) d h'
          (rw r (ap (λ l. text (suc before % 2 ^ 32) ∷ l) e)))

  main-Answers :
      (name : String) (requests : ℕ) (d : Driver)
      → Answers text requests (main name callback requests) d
  unfolding main machine
  main-Answers name requests d =
      let ret = d.int 0 eal_init in
      let registered = d.int 1 (mp_action_register name) in
      let h : Trace = int_of (mp_action_register name) registered ∷ int_of eal_init ret ∷ [] in
      let all : requests + 0 ≡ requests = omega arith in
      let (still, sent) = answer_requests_lem requests 0 d h refl in
      elim (Bool-cases (is_neg ret)) [
        | inl e ↦ inl (rw e (refl, refl))
        | inr e ↦ elim (Bool-cases (is_neg registered)) [
          | inl f ↦ inl (rw (e, f) (refl, refl))
          | inr f ↦ inr (
              rw (e, f, still_runs (answer_requests callback requests 0) d h still)
                (refl, sent ∙ ap (numbered text) all))
        ]
      ]

-- For every driver, the mains of the primaries return 1 without a reply, where the EAL or the callback
-- cannot be set up; otherwise they do not return, and they have replied to the requests, however many,
-- once each, whether the replies could be sent or not: Multiple_Sender_MP and Multiple_Msg_Passing with
-- the texts of the numbers 1, 2 and so on (modulo 2^32) in this order, Message_Passing_DPDK with
-- "tarun".
pub receiver_mains-Answer :
    (requests : ℕ) (d : Driver)
    → Answers stats requests (multiple_sender_main requests) d
      × Answers stats requests (multiple_msg_main requests) d
      × Answers (λ n. tarun) requests (message_passing_main requests) d
unfolding multiple_sender_main multiple_msg_main message_passing_main
receiver_mains-Answer requests d = (
  main-Answers mp_callback stats mp_callback-RepliesOnce "get_stats" requests d,
  main-Answers mp_callback_slow stats mp_callback_slow-RepliesOnce "get_stats" requests d,
  main-Answers mp_callback_tarun (λ n. tarun) mp_callback_tarun-RepliesOnce "tarun" requests d,
)
