-- ===== src/Metering/Program.antt =====
-- main of meter_dpdk/main.c, in the parts that its numbered comments name. The text of its messages
-- is left out.
use dpdk_folder.Prelude.{ℕ, ℤ, pos, ◌*◌, ◌==◌, is_neg, if◌then◌else◌, List, [], ◌∷◌, length}
use dpdk_folder.Dpdk.{
  M, ◌>>=◌, ◌>>◌, pure, function, exit_if, ask_int, ask_word, ask_burst, eal_init, pool_create,
  dev_configure, rx_queue_setup, tx_queue_setup, dev_start, mtr_meter_profile_add,
  mtr_meter_policy_add, mtr_create, flow_create, rx_burst, FlowAction, action_end, action_drop,
  action_meter, FlowItem, item_end, item_eth, item_ipv4, MeterProfile,
}
use dpdk_folder.Dpdk.Bursts.{free_all}
use dpdk_folder.Dpdk.Loops.{forever}

abbrev pub rx_ring_size : ℕ
rx_ring_size = 1024

abbrev pub burst_size : ℕ
burst_size = 32

unfoldable pub start_port : (port_id mbuf_pool : ℕ) → M (Unit {0})
start_port port_id mbuf_pool = do
  configured ← ask_int (dev_configure port_id 1 1)
  exit_if (is_neg configured)
  rx ← ask_int (rx_queue_setup port_id 0 rx_ring_size mbuf_pool)
  exit_if (is_neg rx)
  tx ← ask_int (tx_queue_setup port_id 0 rx_ring_size)
  exit_if (is_neg tx)
  started ← ask_int (dev_start port_id)
  exit_if (is_neg started)
  pure tt

abbrev pub profile : MeterProfile
profile = record {
  cir = 10 * 1000 * 1000;
  pir = 20 * 1000 * 1000;
  cbs = 64 * 1024;
  pbs = 128 * 1024;
}

abbrev pub green_actions : List FlowAction
green_actions = action_end ∷ []

abbrev pub yellow_actions : List FlowAction
yellow_actions = action_end ∷ []

abbrev pub red_actions : List FlowAction
red_actions = action_drop ∷ action_end ∷ []

unfoldable pub create_meter : (port_id : ℕ) → M (Unit {0})
create_meter port_id = do
  let profile_id : ℕ = 1
  added ← ask_int (mtr_meter_profile_add port_id profile_id profile)
  exit_if (is_neg added)
  let policy_id : ℕ = 1
  policy ← ask_int (mtr_meter_policy_add port_id policy_id green_actions yellow_actions red_actions)
  exit_if (is_neg policy)
  let mtr_id : ℕ = 1
  created ← ask_int (mtr_create port_id mtr_id profile_id policy_id 1)
  exit_if (is_neg created)
  pure tt

unfoldable pub attach_meter : (port_id mtr_id : ℕ) → M (Unit {0})
attach_meter port_id mtr_id = do
  let pattern' : List FlowItem = item_eth ∷ item_ipv4 ∷ item_end ∷ []
  let actions : List FlowAction = action_meter mtr_id ∷ action_end ∷ []
  flow ← ask_word (flow_create port_id pattern' actions)
  exit_if (flow == 0)
  pure tt

unfoldable pub rx_round : (port_id : ℕ) → M (Unit {0})
rx_round port_id = do
  bufs ← ask_burst (rx_burst port_id 0 burst_size)
  if length bufs == 0 then pure tt else free_all bufs

unfoldable pub main : (rounds : ℕ) → M ℤ
main rounds = function do
  let port_id : ℕ = 0
  ret ← ask_int eal_init
  exit_if (is_neg ret)
  mbuf_pool ← ask_word (pool_create "MBUF_POOL" 8192 250)
  exit_if (mbuf_pool == 0)
  start_port port_id mbuf_pool
  create_meter port_id
  attach_meter port_id 1
  forever rounds (rx_round port_id)
  pure (pos 0)
