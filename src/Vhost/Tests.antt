-- ===== src/Vhost/Tests.antt =====
-- A port that sends nothing, and gives one packet in each round.
use dpdk_folder.Prelude.{pos, ◌≡◌, refl, arith, [], ◌∷◌, ◌⊎◌}
use dpdk_folder.Dpdk.{Driver, exited, running, done, value_of, trace_of, tx_burst, machine}
use dpdk_folder.Dpdk.Ownership.{IsBalanced, released}
use dpdk_folder.Dpdk.Loops.{forever}
use dpdk_folder.Vhost.Programs.{tx_main, store_eth, vhost_round, vhost_main}
use dpdk_folder.Vhost.Owners.{vhost_mains-Balance}

abbrev stuck_port : Driver
stuck_port = record {
  int = λ n r. pos 0;
  word = λ n r. elim r [ tx_burst _ _ _ ↦ 0 | _ ↦ 7 ];
  burst = λ n r. record { addr = 7; bytes = [] } ∷ [];
}

tx_frees : released 7 (trace_of (tx_main stuck_port [])) ≡ 1
unfolding tx_main store_eth machine
tx_frees = refl

vhost_frees : released 7 (trace_of (vhost_main 2 stuck_port [])) ≡ 2
unfolding vhost_main vhost_round forever machine
vhost_frees = refl

vhost_mains-Balance_example :
    ((value_of (tx_main stuck_port []) ≡ exited)
      ⊎ (value_of (tx_main stuck_port []) ≡ done (pos 0)))
    × IsBalanced [] (trace_of (tx_main stuck_port []))
    × ((value_of (vhost_main 2 stuck_port []) ≡ exited)
        ⊎ (value_of (vhost_main 2 stuck_port []) ≡ running))
    × IsBalanced [] (trace_of (vhost_main 2 stuck_port []))
vhost_mains-Balance_example =
    vhost_mains-Balance 2 stuck_port ((λ n. omega arith), (λ n m. omega arith))
      (λ n pool. ground arith)
