-- ===== src/Dpdk/Rules/Compose.antt =====
-- Rules for a function, and for a program in front of another.
use dpdk_folder.Prelude.{ℤ, ◌≡◌}
use dpdk_folder.Dpdk.Calls.{Trace, Driver}
use dpdk_folder.Dpdk.Program.{
  Outcome, done, returned, M, ◌>>=◌, ◌>>◌, caught, exited, running, resume, function,
}
use dpdk_folder.Dpdk.Protocol.{Protocol}
use dpdk_folder.Dpdk.Rules.State.{At, Ends, Triple}

module _ {d : Driver} {P : Protocol} {s : P.State} {Post : Outcome ℤ → P.State → Type 0} where
  pub function-Triple :
      (body : M ℤ)
      → Triple d P s body (λ o s'. Post (caught o) s')
      → Triple d P s (function body) Post
  unfolding function
  function-Triple body t = record {
    run = λ h at. let e = t.run h at in record { after = e.after; at = e.at; post = e.post };
  }

module _ {A B : Type 0} {d : Driver} {P : Protocol} {s : P.State}
    {Mid : Outcome A → P.State → Type 0} {Post : Outcome B → P.State → Type 0} where
  -- A part of its own, which may also end the function or the process.
  pub bind-Triple :
      (m : M A) (k : A → M B)
      → Triple d P s m Mid
      → ((x : ℤ) (s' : P.State) → Mid (returned x) s' → Post (returned x) s')
      → ((s' : P.State) → Mid exited s' → Post exited s')
      → ((s' : P.State) → Mid running s' → Post running s')
      → ((a : A) (s' : P.State) → Mid (done a) s' → Triple d P s' (k a) Post)
      → Triple d P s (m >>= k) Post
  unfolding ◌>>=◌
  bind-Triple m k t ret ex going next = record {
    run = λ h at. let e = t.run h at in continue (m d h) e.after e.at e.post;
  }
    where
      continue :
          (r : Outcome A × Trace) (s' : P.State)
          → At P s' r.1
          → Mid r.0 s'
          → Ends P Post (resume r k d)
      continue (done a, h) s' at post = (next a s' post).run h at
      continue (returned x, h) s' at post = record { after = s'; at = at; post = ret x s' post }
      continue (exited, h) s' at post = record { after = s'; at = at; post = ex s' post }
      continue (running, h) s' at post = record { after = s'; at = at; post = going s' post }

  pub then-Triple :
      (m : M A) (k : M B)
      → Triple d P s m Mid
      → ((x : ℤ) (s' : P.State) → Mid (returned x) s' → Post (returned x) s')
      → ((s' : P.State) → Mid exited s' → Post exited s')
      → ((s' : P.State) → Mid running s' → Post running s')
      → ((a : A) (s' : P.State) → Mid (done a) s' → Triple d P s' k Post)
      → Triple d P s (m >> k) Post
  unfolding ◌>>◌ ◌>>=◌
  then-Triple m k t ret ex going next = record {
    run = λ h at. (bind-Triple m (λ _. k) t ret ex going next).run h at;
  }

pub weaken-Triple :
    {A : Type 0} {d : Driver} {P : Protocol} {s : P.State} {Mid Post : Outcome A → P.State → Type 0}
    {m : M A}
    → Triple d P s m Mid
    → ((o : Outcome A) (s' : P.State) → Mid o s' → Post o s')
    → Triple d P s m Post
weaken-Triple t f = record {
  run = λ h at.
      let e = t.run h at in record { after = e.after; at = e.at; post = f _ e.after e.post };
}

-- The code ends, perhaps by `return`, and the state is as it was.
abbrev pub Keeps : {A S : Type 0} → S → Outcome A → S → Type 0
Keeps s (done _) s' = s' ≡ s
Keeps s (returned _) s' = s' ≡ s
Keeps s exited s' = ⊥
Keeps s running s' = ⊥

pub then_keeps-Triple :
    {A B : Type 0} {d : Driver} {P : Protocol} {s : P.State} {Post : Outcome B → P.State → Type 0}
    (m : M A) (k : M B)
    → Triple d P s m (Keeps s)
    → ((x : ℤ) → Post (returned x) s)
    → Triple d P s k Post
    → Triple d P s (m >> k) Post
then_keeps-Triple m k t ret next =
    then-Triple m k t (λ x s' e. rw e (ret x)) (λ s' l. absurd l) (λ s' l. absurd l)
      (λ a s' e. rw e next)

-- The code runs to its end, and the state is as it was.
abbrev pub Completes : {A S : Type 0} → S → Outcome A → S → Type 0
Completes s (done _) s' = s' ≡ s
Completes s (returned _) s' = ⊥
Completes s exited s' = ⊥
Completes s running s' = ⊥

module _ {A B : Type 0} {d : Driver} {P : Protocol} {s : P.State}
    {Post : Outcome B → P.State → Type 0} where
  pub bind_completes-Triple :
      (m : M A) (k : A → M B)
      → Triple d P s m (Completes s)
      → ((a : A) → Triple d P s (k a) Post)
      → Triple d P s (m >>= k) Post
  bind_completes-Triple m k t next =
      bind-Triple m k t (λ x s' l. absurd l) (λ s' l. absurd l) (λ s' l. absurd l)
        (λ a s' e. rw e (next a))

  pub then_completes-Triple :
      (m : M A) (k : M B)
      → Triple d P s m (Completes s)
      → Triple d P s k Post
      → Triple d P s (m >> k) Post
  then_completes-Triple m k t next =
      then-Triple m k t (λ x s' l. absurd l) (λ s' l. absurd l) (λ s' l. absurd l)
        (λ a s' e. rw e next)
