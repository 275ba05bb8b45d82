-- ===== src/Dpdk/Lifecycle.antt =====
-- What the documentation of ethdev asks of a port's user, as a state machine over the trace: configure
-- it, set up each queue, start it, and only then send and receive.
use dpdk_folder.Dpdk.Protocol.{Protocol}
use dpdk_folder.Dpdk.Calls.{
  Request, dev_configure, rx_queue_setup, tx_queue_setup, dev_start, dev_stop, dev_close, rx_burst,
  tx_burst,
}
use dpdk_folder.Prelude.{
  ℕ, zero, suc, Bool, true, false, ◌&&◌, ◌||◌, List, [], ◌∷◌, ◌≡◌, ◌≢◌, ◌<◌, ◌==◌,
}

pub record PortState : Type 0 where
  pub configured : Bool
  pub nb_rx : ℕ
  pub nb_tx : ℕ
  pub rx_ready : List ℕ
  pub tx_ready : List ℕ
  pub started : Bool

abbrev pub fresh_port : PortState
fresh_port = record {
  configured = false;
  nb_rx = 0;
  nb_tx = 0;
  rx_ready = [];
  tx_ready = [];
  started = false;
}

abbrev pub contains : ℕ → List ℕ → Bool
contains i [] = false
contains i (j ∷ js) = j == i || contains i js

-- Queues 0 .. n - 1 are all set up.
abbrev pub all_ready : ℕ → List ℕ → Bool
all_ready zero js = true
all_ready (suc n) js = contains n js && all_ready n js

-- What a call that succeeded does to its port.
abbrev pub succeed : Request → PortState → PortState
succeed (dev_configure _ r t) s = record fresh_port { configured = true; nb_rx = r; nb_tx = t }
succeed (rx_queue_setup _ q _ _) s = record s { rx_ready = q ∷ s.rx_ready }
succeed (tx_queue_setup _ q _) s = record s { tx_ready = q ∷ s.tx_ready }
succeed (dev_start _) s = record s { started = true }
succeed (dev_stop _) s = record s { started = false }
succeed (dev_close _) s = fresh_port
succeed _ s = s

-- The port that a request is about.
abbrev pub about : ℕ → Request → Bool
about p (dev_configure q _ _) = q == p
about p (rx_queue_setup q _ _ _) = q == p
about p (tx_queue_setup q _ _) = q == p
about p (dev_start q) = q == p
about p (dev_stop q) = q == p
about p (dev_close q) = q == p
about p (rx_burst q _ _) = q == p
about p (tx_burst q _ _) = q == p
about p _ = false

-- What must hold of a port when a call about it is made.
abbrev pub Allowed : Request → PortState → Type 0
Allowed (dev_configure _ _ _) s = s.started ≡ false
Allowed (rx_queue_setup _ q _ pool) s =
    (s.configured ≡ true) × (s.started ≡ false) × (q < s.nb_rx) × (pool ≢ 0)
Allowed (tx_queue_setup _ q _) s = (s.configured ≡ true) × (s.started ≡ false) × (q < s.nb_tx)
Allowed (dev_start _) s =
    (s.configured ≡ true)
    × (all_ready s.nb_rx s.rx_ready ≡ true)
    × (all_ready s.nb_tx s.tx_ready ≡ true)
Allowed (rx_burst _ q _) s = (s.started ≡ true) × (q < s.nb_rx)
Allowed (tx_burst _ q _) s = (s.started ≡ true) × (q < s.nb_tx)
Allowed _ s = Unit {0}

abbrev pub ethdev : (port : ℕ) → Protocol
ethdev p = record {
  State = PortState;
  fresh = fresh_port;
  concerns = about p;
  Allowed = Allowed;
  succeed = succeed;
}
