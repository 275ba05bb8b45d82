-- ===== src/Parsing/Mains.antt =====
-- The mains of packet_parsing/main.c and port_init2/main.c, which bring ports up and receive for ever.
use dpdk_folder.Prelude.{
  ℕ, ℤ, zero, suc, pos, ◌+◌, ◌==◌, ltb, is_neg, is_zero, not, if◌then◌else◌, List, ◌≡◌, refl, arith,
  Bool-cases, inl, inr,
}
use dpdk_folder.Dpdk.{
  M, Driver, ◌>>=◌, ◌>>◌, pure, function, exit_if, ask_int, ask_word, still_running, eal_init,
  pool_create, dev_count_avail, find_next_port,
}
use dpdk_folder.Dpdk.Loops.{forever}
use dpdk_folder.Ports.Each.{init_or_exit}
use dpdk_folder.Ports.PortInit2.{port_init}
use dpdk_folder.Ports.Initialize.{create_pool, initialize_port}
use dpdk_folder.Parsing.RxLoop.{PacketType}
use dpdk_folder.Parsing.RxLoop.Loop.{rx_loop}
use dpdk_folder.Parsing.ProcessPacket.{process_packet}
use dpdk_folder.Dpdk.{Mbuf}
pub mod Serving

-- main of packet_parsing/main.c ignores what `initialize_port` returns.
unfoldable pub parsing_main : (rounds : ℕ) → M ℤ
parsing_main rounds = function do
  ret ← ask_int eal_init
  exit_if (is_neg ret)
  mbuf_pool ← create_pool
  ask_word dev_count_avail
  initialize_port 0 mbuf_pool
  forever rounds (do process_packet 0; pure tt)
  pure (pos 0)

-- main of port_init2/main.c receives on port 0 also when there is no port. The messages, one with the
-- number of buffers in the pool, are left out.
unfoldable pub receiving_main : (types : Mbuf → PacketType) (rounds : ℕ) → M ℤ
receiving_main types rounds = function do
  ret ← ask_int eal_init
  exit_if (is_neg ret)
  mbuf_pool ← ask_word (pool_create "MBUF_POOL" 8192 250)
  exit_if (mbuf_pool == 0)
  port_id ← ask_word (find_next_port 0)
  init_or_exit port_init rounds mbuf_pool port_id
  rx_loop types 0 rounds
  pure (pos 0)
