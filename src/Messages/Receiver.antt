-- ===== src/Messages/Receiver.antt =====
-- The primaries that answer: Multiple_Sender_MP/prim.c and Multiple_Msg_Passing/prim.c, which differ in a
-- pause, and Message_Passing_DPDK/prim.c. Texts are lists of bytes. What a callback prints of the
-- request is left out.
use Prim.Native.String.{String}
use dpdk_folder.Prelude.{
  ℕ, zero, suc, ◌+◌, ◌*◌, ◌%◌, ◌^◌, ℤ, pos, negsuc, is_neg, List, [], ◌∷◌, ◌++◌,
}
use dpdk_folder.Dpdk.{
  M, ◌>>=◌, ◌>>◌, pure, return_if, function, ask_int, still_running, eal_init, mp_action_register,
  mp_reply, run, sleep,
}
use dpdk_folder.Messages.Decimal.{int32, decimal}

-- "Response#"
abbrev pub response : List ℕ
response = 82 ∷ 101 ∷ 115 ∷ 112 ∷ 111 ∷ 110 ∷ 115 ∷ 101 ∷ 35 ∷ []

-- ": packets="
abbrev pub packets : List ℕ
packets = 58 ∷ 32 ∷ 112 ∷ 97 ∷ 99 ∷ 107 ∷ 101 ∷ 116 ∷ 115 ∷ 61 ∷ []

-- ", bytes="
abbrev pub bytes : List ℕ
bytes = 44 ∷ 32 ∷ 98 ∷ 121 ∷ 116 ∷ 101 ∷ 115 ∷ 61 ∷ []

-- What snprintf writes to `stats`, with the zero at its end; `int` products wrap.
unfoldable pub stats : (req_num : ℕ) → List ℕ
stats req_num =
    response
    ++ (decimal (int32 req_num)
        ++ (packets
            ++ (decimal (int32 (req_num * 1024))
                ++ (bytes ++ (decimal (int32 (req_num * 65536)) ++ 0 ∷ [])))))

-- `atomic_fetch_add(&request_count, 1) + 1`
abbrev pub next_number : (request_count : ℕ) → ℕ
next_number request_count = (request_count + 1) % 2 ^ 32

-- The callback, once it has its number.
unfoldable pub mp_callback : (req_num : ℕ) → M ℤ
mp_callback req_num = function do
  ret ← ask_int (mp_reply "get_stats" (stats req_num))
  return_if (is_neg ret) (negsuc 0)
  pure (pos 0)

-- That of Multiple_Msg_Passing sleeps when it has replied.
unfoldable pub mp_callback_slow : (req_num : ℕ) → M ℤ
mp_callback_slow req_num = function do
  ret ← ask_int (mp_reply "get_stats" (stats req_num))
  return_if (is_neg ret) (negsuc 0)
  run (sleep 5)
  pure (pos 0)

-- "tarun", with its zero
abbrev pub tarun : List ℕ
tarun = 116 ∷ 97 ∷ 114 ∷ 117 ∷ 110 ∷ 0 ∷ []

-- The callback of Message_Passing_DPDK ignores a failure.
unfoldable pub mp_callback_tarun : (req_num : ℕ) → M ℤ
mp_callback_tarun req_num = function do ret ← ask_int (mp_reply "tarun" tarun); pure (pos 0)

-- The requests that arrive while main sleeps in its loop, one after the other.
unfoldable pub answer_requests : (callback : ℕ → M ℤ) (requests request_count : ℕ) → M (Unit {0})
answer_requests callback zero request_count = still_running
answer_requests callback (suc requests) request_count = do
  callback (next_number request_count)
  answer_requests callback requests (next_number request_count)

unfoldable pub main : (name : String) (callback : ℕ → M ℤ) (requests : ℕ) → M ℤ
main name callback requests = function do
  ret ← ask_int eal_init
  return_if (is_neg ret) (pos 1)
  registered ← ask_int (mp_action_register name)
  return_if (is_neg registered) (pos 1)
  answer_requests callback requests 0
  pure (pos 0)

-- The mains of the three programs.
unfoldable pub multiple_sender_main : (requests : ℕ) → M ℤ
multiple_sender_main requests = main "get_stats" mp_callback requests

unfoldable pub multiple_msg_main : (requests : ℕ) → M ℤ
multiple_msg_main requests = main "get_stats" mp_callback_slow requests

unfoldable pub message_passing_main : (requests : ℕ) → M ℤ
message_passing_main requests = main "tarun" mp_callback_tarun requests
