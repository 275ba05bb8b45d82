-- ===== src/Reordering/Buffers/Drains.antt =====
-- The packets that the reordering programs drain and free.
use dpdk_folder.Prelude.{
  pos, ℕ, zero, suc, ◌+◌, ◌==◌, ◌≡◌, refl, arith, List, [], ◌∷◌, length, Bool-cases, inl, inr,
  ==_iff,
}
use dpdk_folder.Dpdk.{
  run, pktmbuf_free, ask_burst, reorder_free, Mbuf, Driver, Trace, done, burst_of, did, ◌>>=◌, ◌>>◌,
  pure, machine, reorder_drain, print,
}
use dpdk_folder.Dpdk.Ownership.{count, count_of_length, received, released}
use dpdk_folder.Dpdk.Balance.{Balances}
use dpdk_folder.Reordering.Program.{output_each, drain_all}
use dpdk_folder.Reordering.Buffers.Counts.{inserted, refused, drained, got, gave, gave_or_lost}

-- The trace that the loop over drained packets leaves.
abbrev outputs : (number_of : Mbuf → ℕ) → List Mbuf → Trace → Trace
outputs number_of [] h = h
outputs number_of (m ∷ ms) h =
    outputs number_of ms
      (did (pktmbuf_free m) ∷ did (print "Output seq=%u\n" (number_of m ∷ [])) ∷ h)

output_each-eq-outputs :
    (number_of : Mbuf → ℕ) (ms : List Mbuf) (d : Driver) (h : Trace)
    → output_each number_of ms d h ≡ (done tt, outputs number_of ms h)
unfolding output_each machine
output_each-eq-outputs number_of [] d h = refl
output_each-eq-outputs number_of (m ∷ ms) d h = output_each-eq-outputs number_of ms d _

outputs_lem :
    (number_of : Mbuf → ℕ) (ms : List Mbuf) (a : ℕ) (h : Trace)
    → let h' = outputs number_of ms h in
      (released a h' ≡ count a ms + released a h)
      × (received a h' ≡ received a h)
      × (inserted a h' ≡ inserted a h)
      × (refused a h' ≡ refused a h)
      × (drained a h' ≡ drained a h)
outputs_lem number_of [] a h = (omega arith, refl, refl, refl, refl)
outputs_lem number_of (m ∷ ms) a h =
    let (rel, rec, ins, ref, dra) =
      outputs_lem number_of ms a
        (did (pktmbuf_free m) ∷ did (print "Output seq=%u\n" (number_of m ∷ [])) ∷ h) in
    (omega (arith, rel), rec, ins, ref, dra)

-- What is drained is freed.
pub drain_all-Balances :
    (number_of : Mbuf → ℕ) (a rounds buf total : ℕ)
    → Balances (got a) (gave a) (drain_all number_of rounds buf total)
unfolding drain_all machine
drain_all-Balances number_of a zero buf total = record { balance = λ d h. refl }
drain_all-Balances number_of a (suc rounds) buf total = record {
  balance = λ d h.
      let ms = d.burst (length h) (reorder_drain buf 32) in
      let h' : Trace = burst_of (reorder_drain buf 32) ms ∷ h in
      let (rel, rec, ins, ref, dra) = outputs_lem number_of ms a h' in
      elim (Bool-cases (length ms == 0)) [
        | inl e ↦ rw e (omega (arith, count_of_length a ms ((==_iff (length ms) 0).0 e)))
        | inr e ↦
            rw (e, output_each-eq-outputs number_of ms d h')
              (omega (
                arith,
                rel,
                rec,
                ins,
                dra,
                (drain_all-Balances number_of a rounds buf (total + length ms)).balance d
                    (outputs number_of ms h'),
              ))
      ];
}

-- The single drain of reorder_2, and the loop behind it.
pub drain_once-Balances :
    (number_of : Mbuf → ℕ) (buf max a : ℕ)
    → Balances (got a) (gave_or_lost a) (
        ask_burst (reorder_drain buf max) >>= λ out.
        output_each number_of out >> (run (reorder_free buf) >> pure (pos 0)))
unfolding machine
drain_once-Balances number_of buf max a = record {
  balance = λ d h.
      let ms = d.burst (length h) (reorder_drain buf max) in
      let h' : Trace = burst_of (reorder_drain buf max) ms ∷ h in
      let (rel, rec, ins, ref, dra) = outputs_lem number_of ms a h' in
      rw (output_each-eq-outputs number_of ms d h') (omega (arith, rel, rec, ins, ref, dra));
}
