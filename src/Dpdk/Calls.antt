-- ===== src/Dpdk/Calls.antt =====
-- The calls of DPDK that the programs make, with the arguments that matter. The NUMA socket is left
-- out everywhere, and so are the private size (0) and the buffer size (the default) of a pool.
-- A pointer is a number, and 0 is NULL.
use Prim.Native.String.{String}
use dpdk_folder.Prelude.{ℕ, ℤ, List}

-- `struct rte_mbuf *`: its address, and the `data_len` bytes at its data offset.
pub record Mbuf : Type 0 where
  pub addr : ℕ
  pub bytes : List ℕ

-- RTE_EVENT_OP_NEW, RTE_EVENT_OP_FORWARD and RTE_EVENT_OP_RELEASE
pub data EventOp : Type 0 where
  op_new : EventOp
  op_forward : EventOp
  op_release : EventOp

-- `struct rte_flow_action` and `struct rte_flow_item`
pub data FlowAction : Type 0 where
  action_end : FlowAction
  action_drop : FlowAction
  action_meter : (mtr_id : ℕ) → FlowAction

pub data FlowItem : Type 0 where
  item_end : FlowItem
  item_eth : FlowItem
  item_ipv4 : FlowItem

-- `struct rte_mtr_meter_profile` of the algorithm RTE_MTR_TRTCM_RFC2698
pub record MeterProfile : Type 0 where
  pub cir : ℕ
  pub pir : ℕ
  pub cbs : ℕ
  pub pbs : ℕ

-- RTE_SCHED_TYPE_ATOMIC and RTE_SCHED_TYPE_PARALLEL
pub data Schedule : Type 0 where
  sched_atomic : Schedule
  sched_parallel : Schedule

pub data Request : Type 0 where
  eal_init : Request
  eal_cleanup : Request
  -- `rte_pktmbuf_pool_create(name, n, cache, 0, RTE_MBUF_DEFAULT_BUF_SIZE, …)`
  pool_create : (name : String) (n cache : ℕ) → Request
  -- `rte_mempool_create(name, n, …)` of packet buffers
  mempool_create : (name : String) (n elt_size cache : ℕ) → Request
  pktmbuf_alloc : (pool : ℕ) → Request
  pktmbuf_free : Mbuf → Request
  dev_count_avail : Request
  is_valid_port : (port : ℕ) → Request
  dev_configure : (port nb_rx nb_tx : ℕ) → Request
  rx_queue_setup : (port queue nb_desc pool : ℕ) → Request
  tx_queue_setup : (port queue nb_desc : ℕ) → Request
  -- `rte_eth_find_next_owned_by(port, RTE_ETH_DEV_NO_OWNER)`, the step of RTE_ETH_FOREACH_DEV
  find_next_port : (port : ℕ) → Request
  dev_info_get : (port : ℕ) → Request
  dev_start : (port : ℕ) → Request
  dev_stop : (port : ℕ) → Request
  dev_close : (port : ℕ) → Request
  macaddr_get : (port : ℕ) → Request
  promiscuous_enable : (port : ℕ) → Request
  rx_burst : (port queue max : ℕ) → Request
  tx_burst : (port queue : ℕ) (pkts : List Mbuf) → Request
  -- `rte_ring_create` for one producer and one consumer
  ring_create : (name : String) (size : ℕ) → Request
  ring_lookup : (name : String) → Request
  -- `rte_eal_remote_launch` of a function, by its name, and `rte_eal_mp_wait_lcore`
  remote_launch : (function : String) (lcore : ℕ) → Request
  mp_wait_lcore : Request
  -- `rte_lcore_id`
  lcore_id : Request
  delay_ms : (ms : ℕ) → Request
  sleep : (seconds : ℕ) → Request
  -- rte_timer; `rte_timer_reset` of a periodic timer, for a core, and `rte_timer_manage`, whose answer is the
  -- number of times that it calls the timer's function
  timer_subsystem_init : Request
  timer_init : Request
  timer_reset : (ticks lcore : ℕ) → Request
  timer_manage : Request
  -- `rte_ip_frag_table_create(buckets, entries, max, …)`
  frag_table_create : (buckets entries max cycles : ℕ) → Request
  -- `rte_event_enqueue_burst(0, port, &event, 1)` and `rte_event_dequeue_burst(0, port, &event, 1, 0)`, for
  -- events that carry a packet
  event_enqueue : (port queue : ℕ) (op : EventOp) (packet : Mbuf) → Request
  event_dequeue : (port : ℕ) → Request
  -- The set-up of event device 0. Of the configurations, the number of queues and ports and the schedule
  -- type stay; `event_port_link` has the queues, and none for NULL.
  event_dev_configure : (nb_queues nb_ports : ℕ) → Request
  event_queue_setup : (queue : ℕ) (schedule : Schedule) → Request
  event_port_default_conf_get : (port : ℕ) → Request
  event_port_setup : (port : ℕ) → Request
  event_port_link : (port : ℕ) (queues : List ℕ) → Request
  event_dev_start : Request
  event_dev_stop : Request
  event_dev_close : Request
  event_dev_count : Request
  service_get_by_name : (name : String) → Request
  -- of the service that was looked up
  service_runstate_set : Request
  mempool_lookup : (name : String) → Request
  -- `rte_get_next_lcore(i, 1, 0)`, the step of RTE_LCORE_FOREACH_WORKER; it starts from -1
  first_worker : Request
  next_worker : (i : ℕ) → Request
  wait_lcore : (i : ℕ) → Request
  -- a read of `core_stats[i]`, which worker i writes
  core_stat : (i : ℕ) → Request
  -- a read of the flag that the program's signal handler sets; 0 is unset
  force_quit : Request
  -- `rte_mp_request_sync` of request number `i`, and of its reply the number of messages and the array
  mp_request_sync : (i : ℕ) → Request
  mp_nb_received : (i : ℕ) → Request
  mp_msgs : (i : ℕ) → Request
  -- `free(reply.msgs)`
  free_msgs : (msgs : ℕ) → Request
  mp_action_unregister : (name : String) → Request
  mp_action_register : (name : String) → Request
  -- `rte_mp_reply` of a message with the first `len_param` bytes of its `param`
  mp_reply : (name : String) (param : List ℕ) → Request
  timer_cycles : Request
  timer_hz : Request
  -- `rte_graph_create(name, …)` with the patterns of its parameter
  graph_create : (name : String) (patterns : List String) → Request
  graph_lookup : (name : String) → Request
  graph_walk : (graph : ℕ) → Request
  graph_destroy : (id : ℕ) → Request
  acl_create : (name : String) (max_rules : ℕ) → Request
  acl_add_rules : (ctx n : ℕ) → Request
  acl_build : (ctx : ℕ) → Request
  acl_free : (ctx : ℕ) → Request
  mbuf_dynfield_register : (name : String) → Request
  reorder_create : (name : String) (size : ℕ) → Request
  -- `rte_reorder_insert` of a packet whose sequence number field holds `seqn`
  reorder_insert : (buf seqn : ℕ) (packet : Mbuf) → Request
  reorder_drain : (buf max : ℕ) → Request
  reorder_free : (buf : ℕ) → Request
  -- a `printf` of a text with numbers
  print : (text : String) (values : List ℕ) → Request
  mtr_meter_profile_add : (port id : ℕ) (profile : MeterProfile) → Request
  mtr_meter_policy_add : (port id : ℕ) (green yellow red : List FlowAction) → Request
  mtr_create : (port id profile policy shared : ℕ) → Request
  flow_create : (port : ℕ) (pattern : List FlowItem) (actions : List FlowAction) → Request
  acl_classify : (ctx : ℕ) (input : List ℕ) → Request

-- A call with what came back: an `int`, an unsigned number or pointer, an array of packets, nothing.
pub data Event : Type 0 where
  int_of : Request → ℤ → Event
  word_of : Request → ℕ → Event
  burst_of : Request → List Mbuf → Event
  did : Request → Event

-- Every call so far, the newest first.
abbrev pub Trace : Type 0
Trace = List Event

-- The library below the program: what it answers to a request that is the n-th call. As the answers
-- to earlier calls are part of one run, every behaviour of a real library, however it depends on the
-- past, is that of some such driver.
pub record Driver : Type 0 where
  pub int : ℕ → Request → ℤ
  pub word : ℕ → Request → ℕ
  pub burst : ℕ → Request → List Mbuf
