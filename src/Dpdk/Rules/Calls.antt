-- ===== src/Dpdk/Rules/Calls.antt =====
-- One rule for each way in which a program makes a call, and for its ends.
use dpdk_folder.Prelude.{
  List, ℕ, ℤ, is_neg, true, false, ◌∷◌, ◌≡◌, refl, length, if◌then◌else◌, Bool, ◌==◌,
}
use dpdk_folder.Dpdk.Calls.{Mbuf, burst_of, Request, int_of, word_of, Driver}
use dpdk_folder.Dpdk.Program.{
  Outcome, done, returned, M, ◌>>=◌, ◌>>◌, pure, return_if, exited, running, exit_if, ask_int,
  ask_word, ask_burst, run, still_running,
}
use dpdk_folder.Dpdk.Protocol.{Protocol}
use dpdk_folder.Dpdk.Rules.State.{At-int, At-burst, At-word, At-other, Triple}

module _ {A : Type 0} {d : Driver} {P : Protocol} {s : P.State}
    {Post : Outcome A → P.State → Type 0} where
  pub pure-Triple : (a : A) → Post (done a) s → Triple d P s (pure a) Post
  unfolding pure
  pure-Triple a post = record { run = λ h at. record { after = s; at = at; post = post } }

  pub still_running-Triple : Post running s → Triple d P s still_running Post
  unfolding still_running
  still_running-Triple post = record { run = λ h at. record { after = s; at = at; post = post } }

  -- A call about the port, and one about something else.
  pub ask_int-Triple :
      (r : Request) (k : ℤ → M A)
      → P.concerns r ≡ true
      → P.Allowed r s
      → ((n : ℕ)
          → Triple d P (if is_neg (d.int n r) then s else P.succeed r s) (k (d.int n r)) Post)
      → Triple d P s (ask_int r >>= k) Post
  unfolding ◌>>=◌ ask_int
  ask_int-Triple r k mine may next = record {
    run = λ h at.
        let x = d.int (length h) r in
        (next (length h)).run (int_of r x ∷ h) (At-int r x mine may at);
  }

  pub ask_int_other-Triple :
      (r : Request) (k : ℤ → M A)
      → P.concerns r ≡ false
      → ((n : ℕ) → Triple d P s (k (d.int n r)) Post)
      → Triple d P s (ask_int r >>= k) Post
  unfolding ◌>>=◌ ask_int
  ask_int_other-Triple r k other next = record {
    run = λ h at.
        let x = d.int (length h) r in (next (length h)).run (int_of r x ∷ h) (At-other _ other at);
  }

  pub ask_word-Triple :
      (r : Request) (k : ℕ → M A)
      → P.concerns r ≡ false
      → ((n : ℕ) → Triple d P s (k (d.word n r)) Post)
      → Triple d P s (ask_word r >>= k) Post
  unfolding ◌>>=◌ ask_word
  ask_word-Triple r k other next = record {
    run = λ h at.
        let x = d.word (length h) r in
        (next (length h)).run (word_of r x ∷ h) (At-other _ other at);
  }

  pub return_if-Triple :
      (b : Bool) (x : ℤ) (m : M A)
      → (b ≡ true → Post (returned x) s)
      → (b ≡ false → Triple d P s m Post)
      → Triple d P s (return_if b x >> m) Post
  unfolding ◌>>◌ return_if
  return_if-Triple true x m now next = record {
    run = λ h at. record { after = s; at = at; post = now refl };
  }
  return_if-Triple false x m now next = record { run = λ h at. (next refl).run h at }

  pub exit_if-Triple :
      (b : Bool) (m : M A)
      → (b ≡ true → Post exited s)
      → (b ≡ false → Triple d P s m Post)
      → Triple d P s (exit_if b >> m) Post
  unfolding ◌>>◌ exit_if
  exit_if-Triple true m now next = record {
    run = λ h at. record { after = s; at = at; post = now refl };
  }
  exit_if-Triple false m now next = record { run = λ h at. (next refl).run h at }

  -- A burst of the port.
  pub ask_burst-Triple :
      (r : Request) (k : List Mbuf → M A)
      → P.Allowed r s
      → ((n : ℕ) → Triple d P s (k (d.burst n r)) Post)
      → Triple d P s (ask_burst r >>= k) Post
  unfolding ◌>>=◌ ask_burst
  ask_burst-Triple r k may next = record {
    run = λ h at.
        let x = d.burst (length h) r in
        (next (length h)).run (burst_of r x ∷ h) (At-burst r x may at);
  }

  -- A call that fails by NULL.
  pub ask_word_about-Triple :
      (r : Request) (k : ℕ → M A)
      → P.concerns r ≡ true
      → P.Allowed r s
      → ((n : ℕ) → Triple d P (if d.word n r == 0 then s else P.succeed r s) (k (d.word n r)) Post)
      → Triple d P s (ask_word r >>= k) Post
  unfolding ◌>>=◌ ask_word
  ask_word_about-Triple r k mine may next = record {
    run = λ h at.
        let x = d.word (length h) r in
        (next (length h)).run (word_of r x ∷ h) (At-word r x mine may at);
  }

-- A call that returns nothing, about something else, as the last one.
pub run_other-Triple :
    {d : Driver} {P : Protocol} {s : P.State} {Post : Outcome (Unit {0}) → P.State → Type 0}
    (r : Request)
    → P.concerns r ≡ false
    → Post (done tt) s
    → Triple d P s (run r) Post
unfolding run
run_other-Triple r other post = record {
  run = λ h at. record { after = _; at = At-other _ other at; post = post };
}
