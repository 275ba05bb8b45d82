-- ===== src/Dpdk/Rules/Forever.antt =====
-- Rules for a program that sets up what it needs, or exits, and then loops.
use dpdk_folder.Prelude.{false, ℕ, ℤ, zero, suc, ◌≡◌, refl}
use dpdk_folder.Dpdk.Calls.{Driver}
use dpdk_folder.Dpdk.Program.{
  Outcome, done, returned, exited, running, M, ◌>>=◌, ◌>>◌, function, caught,
}
use dpdk_folder.Dpdk.Loops.{forever}
use dpdk_folder.Dpdk.Protocol.{Protocol}
use dpdk_folder.Dpdk.Rules.State.{Triple}
use dpdk_folder.Dpdk.Rules.Calls.{still_running-Triple}
use dpdk_folder.Dpdk.Rules.Compose.{
  Completes, function-Triple, weaken-Triple, bind-Triple, then-Triple, then_completes-Triple,
}

-- The process has left by `rte_exit`, or is still in its loop, with `Up` of the state.
abbrev pub Serves : {A S : Type 0} → (S → Type 0) → Outcome A → S → Type 0
Serves Up (done _) s = ⊥
Serves Up (returned _) s = ⊥
Serves Up exited s = Unit {0}
Serves Up running s = Up s

-- A part of the set-up: it exits, or has brought about `Up`.
abbrev pub Achieves : {A S : Type 0} → (S → Type 0) → Outcome A → S → Type 0
Achieves Up (done _) s = Up s
Achieves Up (returned _) s = ⊥
Achieves Up exited s = Unit {0}
Achieves Up running s = ⊥

-- It is still in its loop, with the state as it was.
abbrev pub Stays : {A S : Type 0} → S → Outcome A → S → Type 0
Stays s (done _) s' = ⊥
Stays s (returned _) s' = ⊥
Stays s exited s' = ⊥
Stays s running s' = s' ≡ s

module _ {d : Driver} {P : Protocol} {s : P.State} where
  pub forever-Triple :
      (rounds : ℕ) (body : M (Unit {0}))
      → Triple d P s body (Completes s)
      → Triple d P s (forever rounds body) (Stays s)
  unfolding forever
  forever-Triple zero body round = still_running-Triple refl
  forever-Triple (suc rounds) body round =
      then_completes-Triple _ _ round (forever-Triple rounds body round)

module _ {A B : Type 0} {d : Driver} {P : Protocol} {s : P.State} {Up : P.State → Type 0} where
  pub then_achieves-Triple :
      {Post : Outcome B → P.State → Type 0} (m : M A) (k : M B)
      → Triple d P s m (Achieves Up)
      → ((s' : P.State) → Post exited s')
      → ((s' : P.State) → Up s' → Triple d P s' k Post)
      → Triple d P s (m >> k) Post
  then_achieves-Triple m k t ex next =
      then-Triple m k t (λ x s' l. absurd l) (λ s' l. ex s') (λ s' l. absurd l)
        (λ a s' up. next s' up)

  pub bind_achieves-Triple :
      {Post : Outcome B → P.State → Type 0} (m : M A) (k : A → M B)
      → Triple d P s m (Achieves Up)
      → ((s' : P.State) → Post exited s')
      → ((a : A) (s' : P.State) → Up s' → Triple d P s' (k a) Post)
      → Triple d P s (m >>= k) Post
  bind_achieves-Triple m k t ex next =
      bind-Triple m k t (λ x s' l. absurd l) (λ s' l. ex s') (λ s' l. absurd l) next

  -- A loop without an end: what stands behind it does not run.
  pub then_stay-Triple :
      (m : M A) (k : M B) → Up s → Triple d P s m (Stays s) → Triple d P s (m >> k) (Serves Up)
  then_stay-Triple m k up t =
      then-Triple m k t (λ x s' l. absurd l) (λ s' l. absurd l) (λ s' e. rw e up)
        (λ a s' l. absurd l)

Serves-caught :
    {S : Type 0} (Up : S → Type 0) (o : Outcome ℤ) (s : S) → Serves Up o s → Serves Up (caught o) s
Serves-caught Up (done x) s l = l
Serves-caught Up (returned x) s l = absurd l
Serves-caught Up exited s l = l
Serves-caught Up running s l = l

-- The body of a function that does not return.
pub serving-Triple :
    {d : Driver} {P : Protocol} {s : P.State} {Up : P.State → Type 0} (body : M ℤ)
    → Triple d P s body (Serves Up)
    → Triple d P s (function body) (Serves Up)
serving-Triple body t = function-Triple body (weaken-Triple t (Serves-caught _))

-- A protocol that is concerned with nothing: what is left of a triple is how the program ends.
abbrev pub nothing : Protocol
nothing = record {
  State = Unit {0};
  fresh = tt;
  concerns = λ r. false;
  Allowed = λ r s. Unit {0};
  succeed = λ r s. s;
}
