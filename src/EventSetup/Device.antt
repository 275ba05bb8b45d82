-- ===== src/EventSetup/Device.antt =====
-- What the documentation of eventdev asks of the user of an event device: configure it, set up its queues
-- and ports, link every queue to a port, start it, and only then enqueue and dequeue; close it once it is
-- stopped. The programs use device 0 only. rte_event_port_link returns how many links it made: a driver that
-- makes fewer than it was asked for is excluded by a hypothesis where a program does not look.
use dpdk_folder.Prelude.{pos, ℕ, Bool, true, false, ◌&&◌, List, [], ◌∷◌, ◌++◌, ◌≡◌, ◌<◌}
use dpdk_folder.Dpdk.{
  Driver, Request, event_dev_configure, event_queue_setup, event_port_setup, event_port_link,
  event_dev_start, event_dev_stop, event_dev_close, event_enqueue, event_dequeue,
}
use dpdk_folder.Dpdk.Lifecycle.{contains, all_ready}
use dpdk_folder.Dpdk.Protocol.{Protocol}

pub record EventState : Type 0 where
  pub configured : Bool
  pub nb_queues : ℕ
  pub nb_ports : ℕ
  pub queues : List ℕ
  pub ports : List ℕ
  -- the queues that a port is linked to
  pub linked : List ℕ
  pub started : Bool

abbrev pub fresh_device : EventState
fresh_device = record {
  configured = false;
  nb_queues = 0;
  nb_ports = 0;
  queues = [];
  ports = [];
  linked = [];
  started = false;
}

abbrev pub about_events : Request → Bool
about_events (event_dev_configure _ _) = true
about_events (event_queue_setup _ _) = true
about_events (event_port_setup _) = true
about_events (event_port_link _ _) = true
about_events event_dev_start = true
about_events event_dev_stop = true
about_events event_dev_close = true
about_events (event_enqueue _ _ _ _) = true
about_events (event_dequeue _) = true
about_events _ = false

abbrev pub all_in : List ℕ → List ℕ → Bool
all_in [] js = true
all_in (i ∷ is) js = contains i js && all_in is js

abbrev pub AllowedEvents : Request → EventState → Type 0
AllowedEvents (event_dev_configure _ _) s = s.started ≡ false
AllowedEvents (event_queue_setup q _) s =
    (s.configured ≡ true) × (s.started ≡ false) × (q < s.nb_queues)
AllowedEvents (event_port_setup p) s =
    (s.configured ≡ true) × (s.started ≡ false) × (p < s.nb_ports)
AllowedEvents (event_port_link p qs) s = (contains p s.ports ≡ true) × (all_in qs s.queues ≡ true)
AllowedEvents event_dev_start s =
    (s.configured ≡ true)
    × (all_ready s.nb_queues s.queues ≡ true)
    × (all_ready s.nb_ports s.ports ≡ true)
    × (all_ready s.nb_queues s.linked ≡ true)
AllowedEvents event_dev_close s = s.started ≡ false
AllowedEvents (event_enqueue p q _ _) s =
    (s.started ≡ true) × (contains p s.ports ≡ true) × (contains q s.queues ≡ true)
AllowedEvents (event_dequeue p) s = (s.started ≡ true) × (contains p s.ports ≡ true)
AllowedEvents _ s = Unit {0}

-- A port is linked to the queues that are named, or, where none is, to all.
abbrev pub add_links : (named queues linked : List ℕ) → List ℕ
add_links [] queues linked = queues ++ linked
add_links (q ∷ qs) queues linked = (q ∷ qs) ++ linked

abbrev pub succeed_events : Request → EventState → EventState
succeed_events (event_dev_configure q p) s = record fresh_device {
  configured = true;
  nb_queues = q;
  nb_ports = p;
}
succeed_events (event_queue_setup q _) s = record s { queues = q ∷ s.queues }
succeed_events (event_port_setup p) s = record s { ports = p ∷ s.ports }
succeed_events (event_port_link p qs) s = record s { linked = add_links qs s.queues s.linked }
succeed_events event_dev_start s = record s { started = true }
succeed_events event_dev_stop s = record s { started = false }
succeed_events event_dev_close s = fresh_device
succeed_events _ s = s

abbrev pub eventdev : Protocol
eventdev = record {
  State = EventState;
  fresh = fresh_device;
  concerns = about_events;
  Allowed = AllowedEvents;
  succeed = succeed_events;
}

-- Every link is made: to the queue that is named, or to the one that there is.
abbrev pub Links : Driver → Type 0
Links d =
    ((n p q : ℕ) → d.int n (event_port_link p (q ∷ [])) ≡ pos 1)
    × ((n p : ℕ) → d.int n (event_port_link p []) ≡ pos 1)
