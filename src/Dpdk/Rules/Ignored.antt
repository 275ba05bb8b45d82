-- ===== src/Dpdk/Rules/Ignored.antt =====
-- Rules for a call whose result the program does not look at.
use mathlib.Core.Path.{subst}
use dpdk_folder.Prelude.{ℕ, is_neg, true, false, ◌∷◌, ◌≡◌, refl, length, if◌then◌else◌, Bool}
use dpdk_folder.Dpdk.Calls.{Request, int_of, word_of, did, Driver}
use dpdk_folder.Dpdk.Program.{Outcome, M, ◌>>◌, ask_int, ask_word, run}
use dpdk_folder.Dpdk.Protocol.{Protocol}
use dpdk_folder.Dpdk.Rules.State.{At, At-int, At-word, At-did, At-other, Triple}

if_same : {S : Type 0} {s s' : S} (b : Bool) → s' ≡ s → (if b then s else s') ≡ s
if_same true e = refl
if_same false e = e

module _ {A : Type 0} {d : Driver} {P : Protocol} {s : P.State}
    {Post : Outcome A → P.State → Type 0} where
  -- The same with the result ignored.
  pub then_int_other-Triple :
      (r : Request) (m : M A)
      → P.concerns r ≡ false
      → Triple d P s m Post
      → Triple d P s (ask_int r >> m) Post
  unfolding ◌>>◌ ask_int
  then_int_other-Triple r m other next = record {
    run = λ h at. let x = d.int (length h) r in next.run (int_of r x ∷ h) (At-other _ other at);
  }

  pub then_word-Triple :
      (r : Request) (m : M A)
      → P.concerns r ≡ false
      → Triple d P s m Post
      → Triple d P s (ask_word r >> m) Post
  unfolding ◌>>◌ ask_word
  then_word-Triple r m other next = record {
    run = λ h at. let x = d.word (length h) r in next.run (word_of r x ∷ h) (At-other _ other at);
  }

  -- A call about the port that does not fail, with its result ignored.
  pub then_obliged-Triple :
      (r : Request) (m : M A)
      → P.concerns r ≡ true
      → P.Allowed r s
      → ((n : ℕ) → is_neg (d.int n r) ≡ false)
      → Triple d P (P.succeed r s) m Post
      → Triple d P s (ask_int r >> m) Post
  unfolding ◌>>◌ ask_int
  then_obliged-Triple r m mine may ok next = record {
    run = λ h at.
        let x = d.int (length h) r in
        let at' : At P (P.succeed r s) (int_of r x ∷ h) =
          subst (λ b. At P (if b then s else P.succeed r s) (int_of r x ∷ h)) (ok (length h))
            (At-int r x mine may at) in
        next.run (int_of r x ∷ h) at';
  }

  -- A call that returns nothing, about something else.
  pub then_run-Triple :
      (r : Request) (m : M A)
      → P.concerns r ≡ false
      → Triple d P s m Post
      → Triple d P s (run r >> m) Post
  unfolding ◌>>◌ run
  then_run-Triple r m other next = record {
    run = λ h at. next.run (did r ∷ h) (At-other _ other at);
  }

  pub then_run_about-Triple :
      (r : Request) (m : M A)
      → P.concerns r ≡ true
      → P.Allowed r s
      → Triple d P (P.succeed r s) m Post
      → Triple d P s (run r >> m) Post
  unfolding ◌>>◌ run
  then_run_about-Triple r m mine may next = record {
    run = λ h at. next.run (did r ∷ h) (At-did r mine may at);
  }

  -- A burst to the port, which leaves the state as it is.
  pub then_word_about-Triple :
      (r : Request) (m : M A)
      → P.concerns r ≡ true
      → P.succeed r s ≡ s
      → P.Allowed r s
      → Triple d P s m Post
      → Triple d P s (ask_word r >> m) Post
  unfolding ◌>>◌ ask_word
  then_word_about-Triple r m mine same may next = record {
    run = λ h at.
        let x = d.word (length h) r in
        next.run (word_of r x ∷ h)
          (subst (λ s'. At P s' (word_of r x ∷ h)) (if_same _ same) (At-word r x mine may at));
  }

  -- A call that changes nothing, with its result ignored.
  pub then_int_same-Triple :
      (r : Request) (m : M A)
      → P.concerns r ≡ true
      → P.succeed r s ≡ s
      → P.Allowed r s
      → Triple d P s m Post
      → Triple d P s (ask_int r >> m) Post
  unfolding ◌>>◌ ask_int
  then_int_same-Triple r m mine same may next = record {
    run = λ h at.
        let x = d.int (length h) r in
        next.run (int_of r x ∷ h)
          (subst (λ s'. At P s' (int_of r x ∷ h)) (if_same _ same) (At-int r x mine may at));
  }

  -- A call about the port, with its result ignored.
  pub then_int-Triple :
      (r : Request) (m : M A)
      → P.concerns r ≡ true
      → P.Allowed r s
      → ((s' : P.State) → Triple d P s' m Post)
      → Triple d P s (ask_int r >> m) Post
  unfolding ◌>>◌ ask_int
  then_int-Triple r m mine may next = record {
    run = λ h at.
        let x = d.int (length h) r in (next _).run (int_of r x ∷ h) (At-int r x mine may at);
  }
