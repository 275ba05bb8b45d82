-- ===== src/Parsing/Mains/Serving.antt =====
-- The mains of packet_parsing and port_init2 do not return, and the second one keeps no buffer.
use dpdk_folder.Prelude.{
  ℕ, zero, suc, ◌+◌, ltb, refl, List, [], ◌∷◌, Bool-cases, inl, inr, length, ◌==◌, drop,
}
use dpdk_folder.Dpdk.{Mbuf, Driver, Request, rx_burst, tx_burst, trace_of}
use dpdk_folder.Dpdk.Balance
use dpdk_folder.Dpdk.Balance.{Balances, balance_rules}
use dpdk_folder.Dpdk.Ownership.{received, released, IsBalanced}
use dpdk_folder.Dpdk.Bursts.{free_all-Triple}
use dpdk_folder.Dpdk.Rules
use dpdk_folder.Dpdk.Rules.{other_rules}
use dpdk_folder.Dpdk.Rules.{Triple, Ends, At, Completes, Serves, Achieves, nothing}
use dpdk_folder.Ports.Queues.{for_queues}
use dpdk_folder.Ports.Each.{init_or_exit, max_ethports}
use dpdk_folder.Ports.PortInit2.{port_init}
use dpdk_folder.Ports.Initialize.{create_pool, initialize_port}
use dpdk_folder.Parsing.RxLoop.{PacketType}
use dpdk_folder.Parsing.RxLoop.Loop.{rx_loop, rx_round, show_and_free, rx_loop-IsBalanced}
use dpdk_folder.Parsing.ProcessPacket.{process_packet, print_and_free}
use dpdk_folder.Parsing.Mains.{parsing_main, receiving_main}

abbrev pub IsThere : Unit {0} → Type 0
IsThere s = Unit {0}

module _ (d : Driver) where
  for_queues-Ends :
      (setup : ℕ → Request) (left q : ℕ)
      → Triple d nothing tt (for_queues setup left q) (Rules.Keeps tt)
  unfolding for_queues
  for_queues-Ends setup zero q = Rules.pure-Triple _ refl
  for_queues-Ends setup (suc left) q =
      Rules.ask_int_other-Triple _ _ refl
        λ n. Rules.return_if-Triple _ _ _ (λ e. refl) (λ e. for_queues-Ends setup left (q + 1))

  initialize_port-Ends :
      (port pool : ℕ) → Triple d nothing tt (initialize_port port pool) (Completes tt)
  unfolding initialize_port
  initialize_port-Ends port pool =
      Rules.function-Triple _
        (search (other_rules, Rules.then_keeps-Triple, for_queues-Ends) depth 24)

  port_init-Ends : (port pool : ℕ) → Triple d nothing tt (port_init port pool) (Completes tt)
  unfolding port_init
  port_init-Ends port pool = Rules.function-Triple _ (search other_rules depth 20)

  print_and_free-Ends : (ms : List Mbuf) → Triple d nothing tt (print_and_free ms) (Completes tt)
  unfolding print_and_free
  print_and_free-Ends [] = Rules.pure-Triple _ refl
  print_and_free-Ends (m ∷ ms) =
      Rules.then_run-Triple _ _ refl
        (Rules.bind_completes-Triple _ _ (print_and_free-Ends ms) λ rest. Rules.pure-Triple _ refl)

  process_packet-Ends : (port : ℕ) → Triple d nothing tt (process_packet port) (Completes tt)
  unfolding process_packet
  process_packet-Ends port = Rules.ask_burst-Triple _ _ tt λ n.
      let ms = d.burst n (rx_burst port 0 32) in
      elim (Bool-cases (length ms == 0)) [
        | inl e ↦ rw e (Rules.pure-Triple _ refl)
        | inr e ↦ rw e (
            Rules.bind_completes-Triple _ _ (print_and_free-Ends ms) λ printed.
              Rules.ask_word-Triple _ _ refl λ k.
                let sent = d.word k (tx_burst port 0 ms) in
                elim (Bool-cases (ltb sent (length ms))) [
                  | inl z ↦ rw z (
                      Rules.then_completes-Triple _ _
                        (free_all-Triple d nothing tt (drop sent ms) (λ m. refl))
                        (Rules.pure-Triple _ refl))
                  | inr z ↦ rw z (
                      Rules.then_completes-Triple _ _ (Rules.pure-Triple _ refl)
                        (Rules.pure-Triple _ refl))
                ])
      ]

  create_pool-Ends : Triple d nothing tt create_pool (Achieves IsThere)
  unfolding create_pool
  create_pool-Ends =
      Rules.ask_word-Triple _ _ refl
        λ n. Rules.exit_if-Triple _ _ (λ e. tt) (λ e. Rules.pure-Triple _ tt)

  parsing_main-Ends : (rounds : ℕ) → Triple d nothing tt (parsing_main rounds) (Serves IsThere)
  unfolding parsing_main
  parsing_main-Ends rounds = Rules.serving-Triple _ (
      Rules.ask_or_exit_other-Triple _ _ refl tt (
        Rules.bind_achieves-Triple _ _ create_pool-Ends (λ s. tt)
          λ pool s there. Rules.then_word-Triple _ _ refl (
            Rules.then_completes-Triple _ _ (initialize_port-Ends 0 pool) (
              Rules.then_stay-Triple _ _ tt (
                Rules.forever-Triple rounds _ (
                  Rules.then_completes-Triple _ _ (process_packet-Ends 0)
                    (Rules.pure-Triple _ refl)))))))

  init_or_exit-Ends :
      (rounds pool port : ℕ)
      → Triple d nothing tt
          (init_or_exit port_init rounds pool port)
          (Rules.Reaches (λ _ s. Unit {0}))
  unfolding init_or_exit
  init_or_exit-Ends zero pool port = Rules.still_running-Triple tt
  init_or_exit-Ends (suc rounds) pool port = elim (Bool-cases (ltb port max_ethports)) [
    | inl e ↦ rw e (
        Rules.bind_completes-Triple _ _ (port_init-Ends port pool) λ ret.
          Rules.exit_if-Triple _ _ (λ e. tt)
            λ e. Rules.ask_word-Triple _ _ refl λ n. init_or_exit-Ends rounds pool _)
    | inr e ↦ rw e (Rules.pure-Triple _ tt)
  ]

module _ (types : Mbuf → PacketType) (d : Driver) where
  show_and_free-Ends :
      (ms : List Mbuf) → Triple d nothing tt (show_and_free types ms) (Completes tt)
  unfolding show_and_free
  show_and_free-Ends [] = Rules.pure-Triple _ refl
  show_and_free-Ends (m ∷ ms) =
      Rules.then_run-Triple _ _ refl
        (Rules.bind_completes-Triple _ _ (show_and_free-Ends ms) λ rest. Rules.pure-Triple _ refl)

  rx_loop-Ends : (rounds : ℕ) → Triple d nothing tt (rx_loop types 0 rounds) (Rules.Stays tt)
  unfolding rx_loop rx_round
  rx_loop-Ends rounds = Rules.forever-Triple rounds _ (
      Rules.ask_burst-Triple _ _ tt λ n.
        let ms = d.burst n (rx_burst 0 0 32) in
        elim (Bool-cases (length ms == 0)) [
          | inl e ↦ rw e (Rules.pure-Triple _ refl)
          | inr e ↦
              rw e
                (Rules.then_completes-Triple _ _ (show_and_free-Ends ms) (Rules.pure-Triple _ refl))
        ])

  receiving_main-Ends :
      (rounds : ℕ) → Triple d nothing tt (receiving_main types rounds) (Serves IsThere)
  unfolding receiving_main
  receiving_main-Ends rounds = Rules.serving-Triple _ (
      Rules.ask_or_exit_other-Triple _ _ refl tt (
        Rules.ask_word-Triple _ _ refl λ n.
          Rules.exit_if-Triple _ _ (λ e. tt)
            λ e. Rules.ask_word-Triple _ _ refl λ k.
              Rules.then-Triple _ _ (init_or_exit-Ends d rounds _ _) (λ x s l. absurd l) (λ s l. tt)
                (λ s l. tt) λ a s l. Rules.then_stay-Triple _ _ tt (rx_loop-Ends rounds)))

-- The set-up conserves the owners, since it receives and frees nothing.
module _ (types : Mbuf → PacketType) (a : ℕ) where
  port_init-Balances : (port pool : ℕ) → Balances (received a) (released a) (port_init port pool)
  unfolding port_init
  port_init-Balances port pool = search balance_rules depth 20

  init_or_exit-Balances :
      (rounds pool port : ℕ)
      → Balances (received a) (released a) (init_or_exit port_init rounds pool port)
  unfolding init_or_exit
  init_or_exit-Balances zero pool port = Balance.still_running-Balances _ _
  init_or_exit-Balances (suc rounds) pool port = elim (Bool-cases (ltb port max_ethports)) [
    | inl e ↦
        rw e (search (balance_rules, port_init-Balances, init_or_exit-Balances rounds) depth 20)
    | inr e ↦ rw e (Balance.pure-Balances _ _ _)
  ]

  rx_loop-Balances : (rounds : ℕ) → Balances (received a) (released a) (rx_loop types 0 rounds)
  rx_loop-Balances rounds = record { balance = λ d h. (rx_loop-IsBalanced types 0 rounds d h).1 a }

  receiving_main-Balances :
      (rounds : ℕ) → Balances (received a) (released a) (receiving_main types rounds)
  unfolding receiving_main
  receiving_main-Balances rounds =
      search (balance_rules, init_or_exit-Balances, rx_loop-Balances) depth 20

-- For every driver, the mains of packet_parsing and port_init2 do not return: they exit or are still in
-- their loops. However far it has got, main of port_init2 has given back each buffer as often as it
-- received it.
pub receivers-Serve :
    (types : Mbuf → PacketType) (d : Driver) (rounds : ℕ)
    → Ends nothing (Serves IsThere) (parsing_main rounds d [])
      × Ends nothing (Serves IsThere) (receiving_main types rounds d [])
      × IsBalanced [] (trace_of (receiving_main types rounds d []))
receivers-Serve types d rounds = (
  Rules.Triple-Ends (parsing_main-Ends d rounds),
  Rules.Triple-Ends (receiving_main-Ends types d rounds),
  λ a. (receiving_main-Balances types a rounds).balance d [],
)
