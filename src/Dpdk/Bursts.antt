-- ===== src/Dpdk/Bursts.antt =====
-- The loop `for (i = k; i < n; i++) rte_pktmbuf_free(pkts[i]);` of many programs, over the packets
-- `pkts[k] … pkts[n - 1]`, and what it does to the owners of the buffers.
use dpdk_folder.Prelude.{false, ℕ, ◌+◌, List, [], ◌∷◌, ◌≡◌, refl, arith}
use dpdk_folder.Dpdk.Calls.{Mbuf, did, pktmbuf_free, Trace, Driver}
use dpdk_folder.Dpdk.Program.{M, done, ◌>>◌, pure, run}
use dpdk_folder.Dpdk.Protocol.{Protocol}
use dpdk_folder.Dpdk.Rules.{Triple, Completes, pure-Triple, then_run-Triple}
use dpdk_folder.Dpdk.Ownership.{count, received, released}

unfoldable pub free_all : List Mbuf → M (Unit {0})
free_all [] = pure tt
free_all (m ∷ ms) = do run (pktmbuf_free m); free_all ms

-- The trace that the loop leaves.
abbrev pub frees : List Mbuf → Trace → Trace
frees [] h = h
frees (m ∷ ms) h = frees ms (did (pktmbuf_free m) ∷ h)

pub free_all-eq-frees :
    (ms : List Mbuf) (d : Driver) (h : Trace) → free_all ms d h ≡ (done tt, frees ms h)
unfolding free_all ◌>>◌ pure run
free_all-eq-frees [] d h = refl
free_all-eq-frees (m ∷ ms) d h = free_all-eq-frees ms d (did (pktmbuf_free m) ∷ h)

pub released-frees :
    (a : ℕ) (ms : List Mbuf) (h : Trace) → released a (frees ms h) ≡ count a ms + released a h
released-frees a [] h = omega arith
released-frees a (m ∷ ms) h = omega (arith, released-frees a ms (did (pktmbuf_free m) ∷ h))

pub received-frees : (a : ℕ) (ms : List Mbuf) (h : Trace) → received a (frees ms h) ≡ received a h
received-frees a [] h = refl
received-frees a (m ∷ ms) h = received-frees a ms (did (pktmbuf_free m) ∷ h)

-- It runs to its end, and changes nothing for a protocol that is not concerned with packets.
pub free_all-Triple :
    (d : Driver) (P : Protocol) (s : P.State) (ms : List Mbuf)
    → ((m : Mbuf) → P.concerns (pktmbuf_free m) ≡ false)
    → Triple d P s (free_all ms) (Completes s)
unfolding free_all
free_all-Triple d P s [] free = pure-Triple tt refl
free_all-Triple d P s (m ∷ ms) free = then_run-Triple _ _ (free m) (free_all-Triple d P s ms free)
