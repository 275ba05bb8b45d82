-- ===== src/Ports/Each/Rounds.antt =====
-- What a pass over the ports does to one of them, wherever its initialiser keeps its promise.
use dpdk_folder.Prelude.{
  ℕ, ℤ, ◌≤◌, ◌<◌, pos, false, ◌==◌, ◌≡◌, ◌⊎◌, inl, inr, ap, ◌∙◌, arith, Bool-cases, ==_iff,
}
use dpdk_folder.Dpdk.{M, Driver, Outcome, done, returned, exited, running}
use dpdk_folder.Dpdk.Lifecycle.{ethdev, PortState, fresh_port}
use dpdk_folder.Dpdk.Rules
use dpdk_folder.Dpdk.Rules.{Triple}
use dpdk_folder.Ports.Contract.{BringsUp, IsReady}

-- It returns, with the port as it was.
abbrev pub Leaves : PortState → Outcome ℤ → PortState → Type 0
Leaves s (done _) s' = s' ≡ s
Leaves s _ s' = ⊥

-- A port is untouched, or it is ready.
abbrev pub IsUpIfTouched : PortState → Type 0
IsUpIfTouched s = (s ≡ fresh_port) ⊎ IsReady s

-- An initialiser that brings its port up, and leaves the others alone.
module _ (port_init : ℕ → ℕ → M ℤ) (d : Driver) (m q : ℕ)
    (brings : Triple d (ethdev q) fresh_port (port_init q m) BringsUp)
    (other : (p : ℕ) (s : PortState)
      → (p == q) ≡ false
      → Triple d (ethdev q) s (port_init p m) (Leaves s)) where
  -- After a round for `port_id`.
  abbrev pub AfterRound : ℕ → Outcome ℤ → PortState → Type 0
  AfterRound port_id (done x) s' = x ≡ pos 0 → IsUpIfTouched s' × (port_id < q → s' ≡ fresh_port)
  AfterRound port_id _ s' = ⊥

  here-AfterRound : (o : Outcome ℤ) (s' : PortState) → BringsUp o s' → AfterRound q o s'
  here-AfterRound (done x) s' b = λ z. (inr (b.ready (ap done z)), λ lt. absurd (omega arith))
  here-AfterRound (returned x) s' b = cc b.ends
  here-AfterRound exited s' b = cc b.ends
  here-AfterRound running s' b = cc b.ends

  there-AfterRound :
      (s : PortState) (port_id : ℕ) (o : Outcome ℤ) (s' : PortState)
      → IsUpIfTouched s
      → (port_id ≤ q → s ≡ fresh_port)
      → Leaves s o s'
      → AfterRound port_id o s'
  there-AfterRound s port_id (done x) s' up untouched k =
      λ z. (rw k up, λ lt. k ∙ untouched (omega arith))
  there-AfterRound s port_id (returned x) s' up untouched k = k
  there-AfterRound s port_id exited s' up untouched k = k
  there-AfterRound s port_id running s' up untouched k = k

  pub round-Triple :
      (port_id : ℕ) (s : PortState)
      → (port_id ≤ q → s ≡ fresh_port)
      → IsUpIfTouched s
      → Triple d (ethdev q) s (port_init port_id m) (AfterRound port_id)
  round-Triple port_id s untouched up = elim (Bool-cases (port_id == q)) [
    | inl e ↦
        let eq : port_id ≡ q = (==_iff port_id q).0 e in
        rw (eq, untouched (omega arith)) (Rules.weaken-Triple brings here-AfterRound)
    | inr e ↦
        Rules.weaken-Triple (other port_id s e)
          (λ o s'. there-AfterRound s port_id o s' up untouched)
  ]
