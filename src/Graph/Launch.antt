-- ===== src/Graph/Launch.antt =====
-- What main does in the three programs.
use Prim.Native.String.{String}
use dpdk_folder.Prelude.{ℕ, zero, suc, ◌==◌, is_neg, ℤ, pos, List}
use dpdk_folder.Dpdk.{
  M, ◌>>=◌, ◌>>◌, pure, function, exit_if, ask_int, ask_word, run, eal_init, pool_create,
  dev_configure, rx_queue_setup, tx_queue_setup, dev_start, dev_stop, dev_close, graph_create,
  graph_lookup, graph_walk, graph_destroy,
}

-- `while (!force_quit) rte_graph_walk(graph);`
unfoldable pub walk_times : (walks graph : ℕ) → M (Unit {0})
walk_times zero graph = pure tt
walk_times (suc walks) graph = do run (graph_walk graph); walk_times walks graph

-- main, which reads the same in the three programs up to the patterns. A signal sets `force_quit` after so
-- many walks.
unfoldable pub graph_main : (patterns : List String) (walks : ℕ) → M ℤ
graph_main patterns walks = function do
  ret ← ask_int eal_init
  exit_if (is_neg ret)
  mbuf_pool ← ask_word (pool_create "MBUF_POOL" 8192 256)
  exit_if (mbuf_pool == 0)
  ask_int (dev_configure 0 1 1)
  ask_int (rx_queue_setup 0 0 1024 mbuf_pool)
  ask_int (tx_queue_setup 0 0 1024)
  ask_int (dev_start 0)
  graph_id ← ask_word (graph_create "ipv4_graph" patterns)
  exit_if (graph_id == 65535)
  graph ← ask_word (graph_lookup "ipv4_graph")
  exit_if (graph == 0)
  walk_times walks graph
  ask_int (graph_destroy graph_id)
  ask_int (dev_stop 0)
  ask_int (dev_close 0)
  pure (pos 0)
