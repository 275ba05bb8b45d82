-- ===== src/Messages/Sender.antt =====
-- The program. Its pauses, its messages and the text of the request, which nothing reads, are left out.
use dpdk_folder.Prelude.{
  ℕ, zero, suc, ◌+◌, ℤ, pos, is_neg, ltb, ◌==◌, not, ◌&&◌, Bool, true, false, if◌then◌else◌,
}
use dpdk_folder.Dpdk.{
  M, ◌>>=◌, ◌>>◌, pure, return_if, function, ask_int, ask_word, run, eal_init, force_quit,
  mp_request_sync, mp_nb_received, mp_msgs, free_msgs, mp_action_unregister,
}

-- MAX_RETRIES
abbrev pub max_retries : ℕ
max_retries = 3

-- `while (retry < MAX_RETRIES && !success && !force_quit)`, with `left` for MAX_RETRIES - retry. The result
-- is `success`.
unfoldable pub try_request : (left i : ℕ) → M Bool
try_request zero i = pure false
try_request (suc left) i = do
  quit ← ask_word force_quit
  if not (quit == 0) then pure false else (do
    ret ← ask_int (mp_request_sync i)
    if is_neg ret then try_request left i else pure true)

-- `if (reply.msgs != NULL && reply.nb_received > 0) free(reply.msgs);`
unfoldable pub free_reply : (i : ℕ) → M (Unit {0})
free_reply i = do
  nb_received ← ask_word (mp_nb_received i)
  msgs ← ask_word (mp_msgs i)
  if not (msgs == 0) && ltb 0 nb_received then run (free_msgs msgs) else pure tt

-- `for (i = …; i <= 3 && !force_quit; i++)`, with `left` for the rounds that the first condition allows.
unfoldable pub send_requests : (left i : ℕ) → M (Unit {0})
send_requests zero i = pure tt
send_requests (suc left) i = do
  quit ← ask_word force_quit
  if not (quit == 0) then pure tt else (do
    success ← try_request max_retries i
    if success then free_reply i else pure tt
    send_requests left (i + 1))

unfoldable pub main : M ℤ
main = function do
  ret ← ask_int eal_init
  return_if (is_neg ret) (pos 1)
  send_requests 3 1
  run (mp_action_unregister "get_stats")
  pure (pos 0)
