-- ===== src/Dpdk/Rules/Automation.antt =====
-- The rules that `search` applies to a program, call by call.
use dpdk_folder.Dpdk.Rules.Calls.{
  pure-Triple, still_running-Triple, ask_int-Triple, ask_int_other-Triple, ask_word-Triple,
  return_if-Triple, exit_if-Triple, ask_burst-Triple, ask_word_about-Triple, run_other-Triple,
}
use dpdk_folder.Dpdk.Rules.Ignored.{
  then_int_other-Triple, then_word-Triple, then_obliged-Triple, then_run-Triple,
  then_run_about-Triple, then_word_about-Triple, then_int_same-Triple,
}
use dpdk_folder.Dpdk.Rules.Guards.{
  ask_or_return-Triple, ask_zero_or_return-Triple, ask_or_exit-Triple, ask_or_exit_other-Triple,
  ask_or_return_other-Triple, pointer_or_exit-Triple,
}

-- For code about other things than the protocol.
pub ruleset other_rules = (
  ask_or_exit_other-Triple, ask_or_return_other-Triple, ask_int_other-Triple, ask_word-Triple,
  then_int_other-Triple, then_word-Triple, then_run-Triple, run_other-Triple, return_if-Triple,
  exit_if-Triple, pure-Triple, still_running-Triple, tt,
)

-- For code that the protocol is about.
pub ruleset call_rules = (
  other_rules, ask_or_exit-Triple, pointer_or_exit-Triple, ask_zero_or_return-Triple,
  ask_or_return-Triple, ask_burst-Triple, then_obliged-Triple, then_int_same-Triple,
  then_word_about-Triple, then_run_about-Triple,
)
