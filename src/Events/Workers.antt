-- ===== src/Events/Workers.antt =====
-- The producer in main and the workers, as a step relation. The event device is not modelled: it holds what
-- was enqueued, and hands any of it, in any order, to any worker that asks. The device itself hands out
-- less: it keeps an atomic flow with one worker at a time, and nothing comes to a port that was not set up,
-- from the ninth worker on. So what holds for every run here holds for its runs, and that a worker gets an
-- event is no promise.
use dpdk_folder.Prelude.{ℕ, zero, suc, ◌+◌, ◌<◌, ltb, ◌==◌, if◌then◌else◌, List, [], ◌∷◌, ◌++◌, ◌≡◌}

-- NUM_EVENTS and EXIT_EVENT
abbrev pub num_events : ℕ
num_events = 20

abbrev pub exit_event : ℕ
exit_event = 9999

-- A worker in its loop or behind it, with its entry of `core_stats`.
pub data Worker : Type 0 where
  running : ℕ → Worker
  finished : ℕ → Worker

-- What a running worker does with an event.
unfoldable pub handle : (core_stats event : ℕ) → Worker
handle core_stats event =
    if event == exit_event then finished (core_stats + 1) else running (core_stats + 1)

-- The event that main enqueues after `i` others: its first loop numbers them, its second loop sends
-- exit events.
unfoldable pub event_at : (i : ℕ) → ℕ
event_at i = if ltb i num_events then i else exit_event

pub record Device : Type 0 where
  -- how many enqueues of main succeeded
  pub sent : ℕ
  pub pending : List ℕ
  pub workers : List Worker

unfoldable pub produce : Device → Device
produce s = record s { sent = suc s.sent; pending = s.pending ++ event_at s.sent ∷ [] }

-- main enqueues its next event, of `num_events` and one for each of the `worker_count` workers, or a
-- worker gets an event. An enqueue that fails and a dequeue that gets nothing are tried again.
pub data Step (worker_count : ℕ) : Device → Device → Type 0 where
  produces : {s : Device} → s.sent < num_events + worker_count → Step worker_count s (produce s)
  dispatches :
      {s : Device} (before after : List ℕ) (event : ℕ) (left right : List Worker) (core_stats : ℕ)
      → s.pending ≡ before ++ event ∷ after
      → s.workers ≡ left ++ running core_stats ∷ right
      → Step worker_count s (record s {
        pending = before ++ after;
        workers = left ++ handle core_stats event ∷ right;
      })

-- A run of so many steps.
pub data Run (worker_count : ℕ) : ℕ → Device → Device → Type 0 where
  stays : {s : Device} → Run worker_count 0 s s
  steps :
      {n : ℕ} {s t u : Device}
      → Run worker_count n s t
      → Step worker_count t u
      → Run worker_count (suc n) s u

-- As many workers as are launched, all waiting.
abbrev pub launch : ℕ → List Worker
launch zero = []
launch (suc n) = running 0 ∷ launch n

abbrev pub launched : ℕ → Device
launched worker_count = record { sent = 0; pending = []; workers = launch worker_count }
