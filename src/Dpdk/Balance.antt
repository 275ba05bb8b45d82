-- ===== src/Dpdk/Balance.antt =====
-- Programs that conserve one count of the trace against another, however they end.
use dpdk_folder.Prelude.{ℕ, ℤ, Bool, true, false, refl, arith, ◌∷◌, length}
use dpdk_folder.Dpdk.Calls.{Request, Driver, Trace, int_of, word_of, did}
use dpdk_folder.Dpdk.Program.{
  Outcome, done, returned, exited, running, M, ◌>>=◌, ◌>>◌, pure, exit_if, return_if, function,
  still_running, ask_int, ask_word, run, resume, trace_of,
}
use dpdk_folder.Dpdk.Loops.{Conserves}

pub record Balances {A : Type 0} (f g : Trace → ℕ) (m : M A) : Type 0 where
  pub balance : (d : Driver) (h : Trace) → Conserves f g h (trace_of (m d h))

module _ {A : Type 0} (f g : Trace → ℕ) where
  pub pure-Balances : (a : A) → Balances f g (pure a)
  unfolding pure
  pure-Balances a = record { balance = λ d h. refl }

  pub still_running-Balances : Balances f g (still_running {A = A})
  unfolding still_running
  still_running-Balances = record { balance = λ d h. refl }

module _ (f g : Trace → ℕ) where
  pub exit_if-Balances : (b : Bool) → Balances f g (exit_if b)
  unfolding exit_if
  exit_if-Balances true = record { balance = λ d h. refl }
  exit_if-Balances false = record { balance = λ d h. refl }

  pub return_if-Balances : (b : Bool) (x : ℤ) → Balances f g (return_if b x)
  unfolding return_if
  return_if-Balances true x = record { balance = λ d h. refl }
  return_if-Balances false x = record { balance = λ d h. refl }

  pub function-Balances : (m : M ℤ) → Balances f g m → Balances f g (function m)
  unfolding function
  function-Balances m b = record { balance = λ d h. b.balance d h }

  pub ask_int-Balances :
      (r : Request)
      → ((x : ℤ) (h : Trace) → Conserves f g h (int_of r x ∷ h))
      → Balances f g (ask_int r)
  unfolding ask_int
  ask_int-Balances r c = record { balance = λ d h. c (d.int (length h) r) h }

  pub ask_word-Balances :
      (r : Request)
      → ((x : ℕ) (h : Trace) → Conserves f g h (word_of r x ∷ h))
      → Balances f g (ask_word r)
  unfolding ask_word
  ask_word-Balances r c = record { balance = λ d h. c (d.word (length h) r) h }

  pub run-Balances :
      (r : Request) → ((h : Trace) → Conserves f g h (did r ∷ h)) → Balances f g (run r)
  unfolding run
  run-Balances r c = record { balance = λ d h. c h }

module _ {A B : Type 0} (f g : Trace → ℕ) where
  pub bind-Balances :
      (m : M A) (k : A → M B)
      → Balances f g m
      → ((a : A) → Balances f g (k a))
      → Balances f g (m >>= k)
  unfolding ◌>>=◌
  bind-Balances m k b next = record { balance = λ d h. go d h (m d h) (b.balance d h) }
    where
      go :
          (d : Driver) (h : Trace) (r : Outcome A × Trace)
          → Conserves f g h (trace_of r)
          → Conserves f g h (trace_of (resume r k d))
      go d h (done a, h') c = omega (arith, c, (next a).balance d h')
      go d h (returned x, h') c = c
      go d h (exited, h') c = c
      go d h (running, h') c = c

  pub then-Balances : (m : M A) (k : M B) → Balances f g m → Balances f g k → Balances f g (m >> k)
  unfolding ◌>>◌ ◌>>=◌
  then-Balances m k b next = record { balance = (bind-Balances m (λ _. k) b (λ a. next)).balance }

module _ {B : Type 0} (f g : Trace → ℕ) where
  -- `x = r; if (test(x)) return c(x);`
  pub or_return-Balances :
      (r : Request) (test : ℤ → Bool) (c : ℤ → ℤ) {k : ℤ → M B}
      → ((x : ℤ) (h : Trace) → Conserves f g h (int_of r x ∷ h))
      → ((x : ℤ) → Balances f g (k x))
      → Balances f g (ask_int r >>= λ x. return_if (test x) (c x) >> k x)
  or_return-Balances r test c {k} calls next =
      bind-Balances f g _ _ (ask_int-Balances f g r calls)
        λ x. then-Balances f g _ _ (return_if-Balances f g (test x) (c x)) (next x)

pub ruleset balance_rules = (
  function-Balances, bind-Balances, then-Balances, or_return-Balances, pure-Balances,
  exit_if-Balances, return_if-Balances, ask_int-Balances, ask_word-Balances, run-Balances,
  still_running-Balances, refl,
)
