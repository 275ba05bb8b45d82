-- ===== src/Dpdk/Rules/Waiting.antt =====
-- Rules for a program that comes to a result, exits, or waits still.
use dpdk_folder.Prelude.{ℤ}
use dpdk_folder.Dpdk.Calls.{Driver}
use dpdk_folder.Dpdk.Program.{
  Outcome, done, returned, exited, running, M, ◌>>=◌, ◌>>◌, function, caught,
}
use dpdk_folder.Dpdk.Protocol.{Protocol}
use dpdk_folder.Dpdk.Rules.State.{Triple}
use dpdk_folder.Dpdk.Rules.Compose.{bind-Triple, then-Triple, weaken-Triple, function-Triple}

-- It ends with `Up` of its result and the state, or by `rte_exit`, or not yet.
abbrev pub Reaches : {A S : Type 0} → (A → S → Type 0) → Outcome A → S → Type 0
Reaches Up (done a) s = Up a s
Reaches Up (returned _) s = ⊥
Reaches Up exited s = Unit {0}
Reaches Up running s = Unit {0}

module _ {A B : Type 0} {d : Driver} {P : Protocol} {s : P.State} {Up : A → P.State → Type 0}
    {Up' : B → P.State → Type 0} where
  pub bind_reach-Triple :
      (m : M A) (k : A → M B)
      → Triple d P s m (Reaches Up)
      → ((a : A) (s' : P.State) → Up a s' → Triple d P s' (k a) (Reaches Up'))
      → Triple d P s (m >>= k) (Reaches Up')
  bind_reach-Triple m k t next =
      bind-Triple m k t (λ x s' l. absurd l) (λ s' l. tt) (λ s' l. tt) next

module _ {A B : Type 0} {d : Driver} {P : Protocol} {s : P.State} {Up : A → P.State → Type 0}
    {Up' : B → P.State → Type 0} where
  pub then_reach-Triple :
      (m : M A) (k : M B)
      → Triple d P s m (Reaches Up)
      → ((a : A) (s' : P.State) → Up a s' → Triple d P s' k (Reaches Up'))
      → Triple d P s (m >> k) (Reaches Up')
  then_reach-Triple m k t next =
      then-Triple m k t (λ x s' l. absurd l) (λ s' l. tt) (λ s' l. tt) next

pub weaken_reach-Triple :
    {A : Type 0} {d : Driver} {P : Protocol} {s : P.State} {Up Up' : A → P.State → Type 0} {m : M A}
    → Triple d P s m (Reaches Up)
    → ((a : A) (s' : P.State) → Up a s' → Up' a s')
    → Triple d P s m (Reaches Up')
weaken_reach-Triple {Up} {Up'} t f = weaken-Triple t (λ o s'. by_outcome o s')
  where
    by_outcome : (o : Outcome _) (s' : _) → Reaches Up o s' → Reaches Up' o s'
    by_outcome (done a) s' up = f a s' up
    by_outcome (returned x) s' l = l
    by_outcome exited s' l = l
    by_outcome running s' l = l

Reaches-caught :
    {S : Type 0} (Up : ℤ → S → Type 0) (o : Outcome ℤ) (s : S)
    → Reaches Up o s
    → Reaches Up (caught o) s
Reaches-caught Up (done x) s l = l
Reaches-caught Up (returned x) s l = absurd l
Reaches-caught Up exited s l = l
Reaches-caught Up running s l = l

-- A function without a `return` before its end.
pub reaching-Triple :
    {d : Driver} {P : Protocol} {s : P.State} {Up : ℤ → P.State → Type 0} (body : M ℤ)
    → Triple d P s body (Reaches Up)
    → Triple d P s (function body) (Reaches Up)
reaching-Triple body t = function-Triple body (weaken-Triple t (Reaches-caught _))
