-- ===== src/Events/Tests.antt =====
-- Runs of the event programs. With two workers, main sends two events, and the first worker gets the second
-- of them.
use dpdk_folder.Prelude.{[], ◌∷◌, ◌≡◌, refl, arith, pos}
use dpdk_folder.Dpdk.{Driver, trace_of, machine}
use dpdk_folder.Dpdk.Loops.{forever}
use dpdk_folder.Events.Handlers.{receive_handler, receive_round, enqueue_each, refused}
use dpdk_folder.Events.Workers.{
  running, finished, handle, event_at, produce, Device, produces, dispatches, Run, stays, steps,
  launched,
}
use dpdk_folder.Events.Exits.{Served, launched-Served}

abbrev after_two : Device
after_two = record { sent = 2; pending = 0 ∷ []; workers = running 1 ∷ running 0 ∷ [] }

three_steps : Run 2 3 (launched 2) after_two
unfolding produce handle event_at
three_steps =
    steps (steps (steps stays (produces (omega arith))) (produces (omega arith)))
      (dispatches (0 ∷ []) [] 1 [] (running 0 ∷ []) 0 refl refl)

last_event : handle 4 9999 ≡ finished 5
unfolding handle
last_event = refl

launched-Served_example : Served 2 3 after_two
launched-Served_example = launched-Served 2 3 after_two three_steps

-- Every burst brings the same packet, and the event device is full.
abbrev full : Driver
full = record {
  int = λ n r. pos 0;
  word = λ n r. 0;
  burst = λ n r. record { addr = 6; bytes = [] } ∷ [];
}

two_lost : refused 6 (trace_of (receive_handler 2 full [])) ≡ 2
unfolding receive_handler receive_round enqueue_each forever machine
two_lost = refl
