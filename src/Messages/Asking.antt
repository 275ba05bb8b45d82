-- ===== src/Messages/Asking.antt =====
-- The secondaries that ask without retries: Multiple_Msg_Passing/sec.c, three times, and
-- Message_Passing_DPDK/sec.c, once. The text of the request, what is printed of the replies and the
-- pauses are left out.
use dpdk_folder.Prelude.{
  ℕ, zero, suc, ◌+◌, ◌==◌, ◌≡◌, refl, arith, ℤ, pos, is_neg, if◌then◌else◌, [], ◌∷◌, length,
  Bool-cases, inl, inr, ◌⊎◌,
}
use dpdk_folder.Dpdk.{
  Driver, Trace, done, int_of, word_of, did, value_of, trace_of, M, ◌>>=◌, ◌>>◌, pure, return_if,
  function, ask_int, ask_word, run, eal_init, mp_request_sync, mp_nb_received, mp_msgs, free_msgs,
  machine,
}

-- The body of the loop; where the request fails, `continue`.
unfoldable pub ask_once : (i : ℕ) → M (Unit {0})
ask_once i = do
  ret ← ask_int (mp_request_sync i)
  if is_neg ret then pure tt else (do
    nb_received ← ask_word (mp_nb_received i)
    msgs ← ask_word (mp_msgs i)
    run (free_msgs msgs))

-- `for (int i = …; i <= 3; i++)`, with `left` for the rounds that are left.
unfoldable pub ask_each : (left i : ℕ) → M (Unit {0})
ask_each zero i = pure tt
ask_each (suc left) i = do ask_once i; ask_each left (i + 1)

-- main of Multiple_Msg_Passing/sec.c
unfoldable pub main_three : M ℤ
main_three =
    function do ret ← ask_int eal_init; return_if (is_neg ret) (pos 1); ask_each 3 1; pure (pos 0)

-- main of Message_Passing_DPDK/sec.c, which keeps the array of replies.
unfoldable pub main_one : M ℤ
main_one = function do
  ret ← ask_int eal_init
  return_if (is_neg ret) (pos 1)
  asked ← ask_int (mp_request_sync 1)
  return_if (is_neg asked) (pos 1)
  nb_received ← ask_word (mp_nb_received 1)
  msgs ← ask_word (mp_msgs 1)
  pure (pos 0)

-- How often an array of replies came to address `a`, and how often it was freed.
abbrev pub arrays : ℕ → Trace → ℕ
arrays a [] = 0
arrays a (word_of (mp_msgs _) p ∷ h) = (if p == a then 1 else 0) + arrays a h
arrays a (_ ∷ h) = arrays a h

abbrev pub freed_arrays : ℕ → Trace → ℕ
freed_arrays a [] = 0
freed_arrays a (did (free_msgs p) ∷ h) = (if p == a then 1 else 0) + freed_arrays a h
freed_arrays a (_ ∷ h) = freed_arrays a h

ask_once_lem :
    (i a : ℕ) (d : Driver) (h : Trace)
    → (h' : Trace) × (ask_once i d h ≡ (done tt, h'))
      × (arrays a h' + freed_arrays a h ≡ arrays a h + freed_arrays a h')
unfolding ask_once machine
ask_once_lem i a d h =
    let ret = d.int (length h) (mp_request_sync i) in
    elim (Bool-cases (is_neg ret)) [
      | inl e ↦ (int_of (mp_request_sync i) ret ∷ h, rw e refl, refl)
      | inr e ↦
          let h₁ : Trace = int_of (mp_request_sync i) ret ∷ h in
          let h₂ : Trace =
            word_of (mp_nb_received i) (d.word (length h₁) (mp_nb_received i)) ∷ h₁ in
          let p : ℕ = d.word (length h₂) (mp_msgs i) in
          (did (free_msgs p) ∷ word_of (mp_msgs i) p ∷ h₂, rw e refl, omega arith)
    ]

ask_each_lem :
    (left i a : ℕ) (d : Driver) (h : Trace)
    → (h' : Trace) × (ask_each left i d h ≡ (done tt, h'))
      × (arrays a h' + freed_arrays a h ≡ arrays a h + freed_arrays a h')
unfolding ask_each machine
ask_each_lem zero i a d h = (h, refl, refl)
ask_each_lem (suc left) i a d h =
    let (h₁, e, b) = ask_once_lem i a d h in
    let (h₂, e', b') = ask_each_lem left (i + 1) a d h₁ in (h₂, rw e e', omega arith)

-- For every driver, the two secondaries return: 0, or 1 where the EAL cannot be set up or, in
-- Message_Passing_DPDK, where the request fails. The first frees each array of replies as often as it
-- gets one; the second frees none.
pub askers-Free :
    (a : ℕ) (d : Driver)
    → ((value_of (main_three d []) ≡ done (pos 0)) ⊎ (value_of (main_three d []) ≡ done (pos 1)))
      × (arrays a (trace_of (main_three d [])) ≡ freed_arrays a (trace_of (main_three d [])))
      × ((value_of (main_one d []) ≡ done (pos 0)) ⊎ (value_of (main_one d []) ≡ done (pos 1)))
      × (freed_arrays a (trace_of (main_one d [])) ≡ 0)
unfolding main_three main_one machine
askers-Free a d =
    let ret = d.int 0 eal_init in
    let asked = d.int 1 (mp_request_sync 1) in
    let (h', e, b) = ask_each_lem 3 1 a d (int_of eal_init ret ∷ []) in
    elim (Bool-cases (is_neg ret)) [
      | inl n ↦ rw n (inr refl, refl, inr refl, refl)
      | inr n ↦ elim (Bool-cases (is_neg asked)) [
        | inl f ↦ rw (n, f, e) (inl refl, omega arith, inr refl, refl)
        | inr f ↦ rw (n, f, e) (inl refl, omega arith, inl refl, refl)
      ]
    ]
