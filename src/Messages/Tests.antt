-- ===== src/Messages/Tests.antt =====
-- A primary that answers the second attempt only, and one that never answers.
use dpdk_folder.Prelude.{◌*◌, ◌≡◌, ◌⊎◌, refl, arith, pos, negsuc, if◌then◌else◌, [], ◌∷◌, ltb}
use dpdk_folder.Dpdk.{Driver, mp_request_sync, force_quit, value_of, trace_of, done, machine}
use dpdk_folder.Messages.Sender.{try_request, free_reply, send_requests, main}
use dpdk_folder.Messages.Decimal.{int32, decimal}
use dpdk_folder.Messages.Receiver.{
  stats, tarun, multiple_sender_main, multiple_msg_main, message_passing_main,
}
use dpdk_folder.Messages.ReplyText.{read_stats, read_stats-stats}
use dpdk_folder.Messages.Replies.{Answers, receiver_mains-Answer}
use dpdk_folder.Messages.Asking.{main_three, main_one, arrays, freed_arrays, askers-Free}
use dpdk_folder.Messages.Retries.{answered, failed, Sends, sender_main-Sends}

-- Its request 1 is the calls 3 and 5.
abbrev slow_primary : Driver
slow_primary = record {
  int = λ n r. elim r [ mp_request_sync _ ↦ if ltb n 5 then negsuc 0 else pos 0 | _ ↦ pos 0 ];
  word = λ n r. elim r [ force_quit ↦ 0 | _ ↦ 1 ];
  burst = λ n r. [];
}

one_retry :
    (value_of (main slow_primary []) ≡ done (pos 0))
    × (failed 1 (trace_of (main slow_primary [])) ≡ 1)
    × (answered 1 (trace_of (main slow_primary [])) ≡ 1)
unfolding main send_requests try_request free_reply machine
one_retry = (refl, refl, refl)

abbrev silent_primary : Driver
silent_primary = record {
  int = λ n r. elim r [ mp_request_sync _ ↦ negsuc 0 | _ ↦ pos 0 ];
  word = λ n r. 0;
  burst = λ n r. [];
}

three_attempts : failed 2 (trace_of (main silent_primary [])) ≡ 3
unfolding main send_requests try_request free_reply machine
three_attempts = refl

sender_main-Sends_example : Sends 1 (main slow_primary [])
sender_main-Sends_example = sender_main-Sends 1 slow_primary

-- From request 32768 on the number of bytes leaves an int and is shown as negative.
bytes_wrap :
    decimal (int32 (32768 * 65536)) ≡ 45 ∷ 50 ∷ 49 ∷ 52 ∷ 55 ∷ 52 ∷ 56 ∷ 51 ∷ 54 ∷ 52 ∷ 56 ∷ []
bytes_wrap = refl

receiver_mains-Answer_example :
    Answers stats 2 (multiple_sender_main 2) silent_primary
    × Answers stats 2 (multiple_msg_main 2) silent_primary
    × Answers (λ n. tarun) 2 (message_passing_main 2) silent_primary
receiver_mains-Answer_example = receiver_mains-Answer 2 silent_primary

read_stats-stats_example : read_stats (stats 31) ≡ (31, 31744, 2031616, 0 ∷ [])
read_stats-stats_example = read_stats-stats 31 (omega arith)

askers-Free_example :
    ((value_of (main_three slow_primary []) ≡ done (pos 0))
      ⊎ (value_of (main_three slow_primary []) ≡ done (pos 1)))
    × (arrays 1 (trace_of (main_three slow_primary []))
        ≡ freed_arrays 1 (trace_of (main_three slow_primary [])))
    × ((value_of (main_one slow_primary []) ≡ done (pos 0))
        ⊎ (value_of (main_one slow_primary []) ≡ done (pos 1)))
    × (freed_arrays 1 (trace_of (main_one slow_primary [])) ≡ 0)
askers-Free_example = askers-Free 1 slow_primary
