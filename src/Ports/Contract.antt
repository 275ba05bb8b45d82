-- ===== src/Ports/Contract.antt =====
-- What a function that brings a port up promises, whatever the driver answers: `o` is how
-- it ended, and `s` the state of its port.
use dpdk_folder.Prelude.{pos, ℤ, Bool, true, false, ◌∷◌, [], ◌≡◌, ◌≢◌}
use dpdk_folder.Dpdk.{Outcome, done}
use dpdk_folder.Dpdk.Lifecycle.{PortState}

abbrev pub is_done : Outcome ℤ → Bool
is_done (done x) = true
is_done _ = false

-- Queue 0 in both directions is set up, and the port runs.
pub record IsReady (s : PortState) : Type 0 where
  pub configured : s.configured ≡ true
  pub one_rx : s.nb_rx ≡ 1
  pub one_tx : s.nb_tx ≡ 1
  pub rx_queue : s.rx_ready ≡ 0 ∷ []
  pub tx_queue : s.tx_ready ≡ 0 ∷ []
  pub started : s.started ≡ true

-- The function returns, and 0 means a port that is ready.
pub record BringsUp (o : Outcome ℤ) (s : PortState) : Type 0 where
  pub ends : is_done o ≡ true
  pub ready : o ≡ done (pos 0) → IsReady s

-- In addition, any other result means a port that does not run.
pub record BringsUpOrNot (o : Outcome ℤ) (s : PortState) : Type 0 where
  pub ends : is_done o ≡ true
  pub ready : o ≡ done (pos 0) → IsReady s
  pub down : o ≢ done (pos 0) → s.started ≡ false
