-- ===== src/Dpdk/Loops.antt =====
-- `while (1) body`, run for a number of rounds. A `continue` or the end of the body ends a round.
use dpdk_folder.Prelude.{pos, ◌+◌, ℕ, zero, suc, ◌≡◌, refl, arith}
use dpdk_folder.Dpdk.Calls.{Driver, Trace}
use dpdk_folder.Dpdk.Program.{
  M, pure, Outcome, done, returned, exited, running, ◌>>◌, still_running, value_of, trace_of,
  resume,
}
use dpdk_folder.Dpdk.Ownership.{received, released, IsBalanced}

unfoldable pub forever : (rounds : ℕ) → M (Unit {0}) → M (Unit {0})
forever zero body = still_running
forever (suc rounds) body = body >> forever rounds body

-- `return 0;` behind a loop that has not ended is not reached.
pub still_runs :
    (m : M (Unit {0})) (d : Driver) (h : Trace)
    → value_of (m d h) ≡ running
    → (m >> pure (pos 0)) d h ≡ (running, trace_of (m d h))
unfolding ◌>>◌
still_runs m d h e = go (m d h) e
  where
    go :
        (r : Outcome (Unit {0}) × Trace)
        → value_of r ≡ running
        → resume r (λ _. pure (pos 0)) d ≡ (running, trace_of r)
    go (running, h') e = refl
    go (done x, h') e = cc
    go (returned x, h') e = cc
    go (exited, h') e = cc

-- What `f` counts grows as much as what `g` counts.
abbrev pub Conserves : (f g : Trace → ℕ) → Trace → Trace → Type 0
Conserves f g h h' = f h' + g h ≡ f h + g h'

-- The round ends by itself, and conserves the one against the other.
abbrev pub RoundConserves : (f g : Trace → ℕ) → M (Unit {0}) → Type 0
RoundConserves f g body =
    (d : Driver) (h : Trace)
    → (value_of (body d h) ≡ done tt) × Conserves f g h (trace_of (body d h))

module _ (f g : Trace → ℕ) where
  after_round :
      (k : M (Unit {0})) (d : Driver) (h : Trace) (r : Outcome (Unit {0}) × Trace)
      → value_of r ≡ done tt
      → Conserves f g h (trace_of r)
      → ((h' : Trace) → (value_of (k d h') ≡ running) × Conserves f g h' (trace_of (k d h')))
      → (value_of (resume r (λ _. k) d) ≡ running)
        × Conserves f g h (trace_of (resume r (λ _. k) d))
  after_round k d h (done tt, h') e b rest = ((rest h').0, omega (arith, b, (rest h').1))
  after_round k d h (returned x, h') e b rest = cc
  after_round k d h (exited, h') e b rest = cc
  after_round k d h (running, h') e b rest = cc

  -- for one driver
  pub forever_at-Conserves :
      (rounds : ℕ) (body : M (Unit {0})) (d : Driver)
      → ((h : Trace) → (value_of (body d h) ≡ done tt) × Conserves f g h (trace_of (body d h)))
      → (h : Trace)
      → (value_of (forever rounds body d h) ≡ running)
        × Conserves f g h (trace_of (forever rounds body d h))
  unfolding forever still_running ◌>>◌
  forever_at-Conserves zero body d ok h = (refl, refl)
  forever_at-Conserves (suc rounds) body d ok h =
      after_round (forever rounds body) d h (body d h) (ok h).0 (ok h).1
        (λ h'. forever_at-Conserves rounds body d ok h')

  pub forever-Conserves :
      (rounds : ℕ) (body : M (Unit {0}))
      → RoundConserves f g body
      → (d : Driver) (h : Trace)
      → (value_of (forever rounds body d h) ≡ running)
        × Conserves f g h (trace_of (forever rounds body d h))
  forever-Conserves rounds body ok d h = forever_at-Conserves rounds body d (ok d) h

-- The round ends by itself, and gives back what it gets.
abbrev pub RoundIsBalanced : M (Unit {0}) → Type 0
RoundIsBalanced body =
    (d : Driver) (h : Trace) → (value_of (body d h) ≡ done tt) × IsBalanced h (trace_of (body d h))

pub forever-IsBalanced :
    (rounds : ℕ) (body : M (Unit {0}))
    → RoundIsBalanced body
    → (d : Driver) (h : Trace)
    → (value_of (forever rounds body d h) ≡ running)
      × IsBalanced h (trace_of (forever rounds body d h))
forever-IsBalanced rounds body ok d h =
    let each : (a : ℕ)
        → (value_of (forever rounds body d h) ≡ running)
          × Conserves (received a) (released a) h (trace_of (forever rounds body d h)) =
      λ a.
        forever-Conserves (received a) (released a) rounds body (λ d h. ((ok d h).0, (ok d h).1 a))
          d h in
    ((each 0).0, λ a. (each a).1)
