-- ===== src/Dpdk/Rules/Guards.antt =====
-- Rules for a call and the test of its result that ends the function or the process.
use dpdk_folder.Prelude.{
  not, is_zero, eq_of_not-is_zero, ℕ, ℤ, is_neg, true, false, ◌≡◌, if◌then◌else◌, ◌==◌,
}
use dpdk_folder.Dpdk.Calls.{Request, Driver}
use dpdk_folder.Dpdk.Program.{
  Outcome, returned, M, ◌>>=◌, ◌>>◌, return_if, exited, exit_if, ask_int, ask_word,
}
use dpdk_folder.Dpdk.Protocol.{Protocol}
use dpdk_folder.Dpdk.Rules.State.{Triple}
use dpdk_folder.Dpdk.Rules.Calls.{
  ask_int-Triple, ask_int_other-Triple, ask_word_about-Triple, return_if-Triple, exit_if-Triple,
}

module _ {A : Type 0} {d : Driver} {P : Protocol} {s : P.State}
    {Post : Outcome A → P.State → Type 0} where
  -- `x = r; if (x < 0) return f(x);`
  pub ask_or_return-Triple :
      (r : Request) (f : ℤ → ℤ) (k : ℤ → M A)
      → P.concerns r ≡ true
      → P.Allowed r s
      → ((n : ℕ) → is_neg (d.int n r) ≡ true → Post (returned (f (d.int n r))) s)
      → ((n : ℕ) → Triple d P (P.succeed r s) (k (d.int n r)) Post)
      → Triple d P s (ask_int r >>= λ x. return_if (is_neg x) (f x) >> k x) Post
  ask_or_return-Triple r f k mine may fails next =
      ask_int-Triple r _ mine may
        λ n. return_if-Triple _ _ _ (λ e. rw e (fails n e)) (λ e. rw e (next n))

  -- `if (r != 0) return c;`
  pub ask_zero_or_return-Triple :
      (r : Request) (c : ℤ) (k : M A)
      → P.concerns r ≡ true
      → P.Allowed r s
      → ((n : ℕ) → Post (returned c) (if is_neg (d.int n r) then s else P.succeed r s))
      → Triple d P (P.succeed r s) k Post
      → Triple d P s (ask_int r >>= λ x. return_if (not (is_zero x)) c >> k) Post
  ask_zero_or_return-Triple r c k mine may fails next =
      ask_int-Triple r _ mine may
        λ n. return_if-Triple _ _ _ (λ e. fails n) λ e. rw (eq_of_not-is_zero (d.int n r) e) next

  -- `if (r < 0) rte_exit(…);` for a call that the protocol is concerned with, and for another.
  pub ask_or_exit-Triple :
      (r : Request) (m : M A)
      → P.concerns r ≡ true
      → P.Allowed r s
      → Post exited s
      → Triple d P (P.succeed r s) m Post
      → Triple d P s (ask_int r >>= λ x. exit_if (is_neg x) >> m) Post
  ask_or_exit-Triple r m mine may fails next =
      ask_int-Triple r _ mine may λ n. exit_if-Triple _ _ (λ e. rw e fails) (λ e. rw e next)

  pub ask_or_exit_other-Triple :
      (r : Request) (m : M A)
      → P.concerns r ≡ false
      → Post exited s
      → Triple d P s m Post
      → Triple d P s (ask_int r >>= λ x. exit_if (is_neg x) >> m) Post
  ask_or_exit_other-Triple r m other fails next =
      ask_int_other-Triple r _ other λ n. exit_if-Triple _ _ (λ e. fails) (λ e. next)

  -- `if (r < 0) return c;` for a call that the protocol is not concerned with
  pub ask_or_return_other-Triple :
      (r : Request) (c : ℤ) (m : M A)
      → P.concerns r ≡ false
      → Post (returned c) s
      → Triple d P s m Post
      → Triple d P s (ask_int r >>= λ x. return_if (is_neg x) c >> m) Post
  ask_or_return_other-Triple r c m other fails next =
      ask_int_other-Triple r _ other λ n. return_if-Triple _ _ _ (λ e. fails) (λ e. next)

  -- `if (r == NULL) rte_exit(…);`
  pub pointer_or_exit-Triple :
      (r : Request) (m : M A)
      → P.concerns r ≡ true
      → P.Allowed r s
      → Post exited s
      → Triple d P (P.succeed r s) m Post
      → Triple d P s (ask_word r >>= λ x. exit_if (x == 0) >> m) Post
  pointer_or_exit-Triple r m mine may fails next =
      ask_word_about-Triple r _ mine may λ n. exit_if-Triple _ _ (λ e. rw e fails) (λ e. rw e next)
