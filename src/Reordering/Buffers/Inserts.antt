-- ===== src/Reordering/Buffers/Inserts.antt =====
-- The packets that the reordering programs allocate and insert.
use dpdk_folder.Prelude.{
  split_if, pos, negsuc, ℕ, ℤ, zero, suc, ◌+◌, ◌==◌, ◌≡◌, ◌≢◌, refl, arith, is_neg, false,
  if◌then◌else◌, List, [], ◌∷◌, length, Bool-cases, inl, inr,
}
use dpdk_folder.Dpdk.{
  run, pktmbuf_free, ask_word, Mbuf, Driver, Trace, done, int_of, word_of, did, M, ◌>>=◌, pure,
  trace_of, machine, reorder_insert, pktmbuf_alloc, print,
}
use dpdk_folder.Dpdk.Loops.{Conserves}
use dpdk_folder.Dpdk.Balance
use dpdk_folder.Dpdk.Balance.{Balances, balance_rules}
use dpdk_folder.Reordering.Program.{
  create_packet, create_unset, insert_each, insert_one, insert_new, insert_unchecked, u32_bytes,
}
use dpdk_folder.Reordering.Buffers.Counts.{got, gave, gave_or_lost}

-- `create` allocates the packet that it returns, and nothing else.
pub record Creates (a : ℕ) (create : M Mbuf) : Type 0 where
  pub creates :
      (d : Driver) (h : Trace)
      → (m : Mbuf) × (h' : Trace) × (create d h ≡ (done m, h'))
        × (got a h' ≡ (if m.addr == a then 1 else 0) + got a h)
        × (gave a h' ≡ gave a h)

-- Both `create_packet`s allocate, and differ in the data.
allocates-Creates :
    (mp a : ℕ) (bytes_of : ℕ → List ℕ)
    → a ≢ 0
    → Creates a (
        ask_word (pktmbuf_alloc mp) >>= λ m.
        if m == 0
        then pure (record { addr = 0; bytes = [] })
        else pure (record { addr = m; bytes = bytes_of m }))
unfolding machine
allocates-Creates mp a bytes_of ne = record {
  creates = λ d h.
      let p = d.word (length h) (pktmbuf_alloc mp) in
      let h' : Trace = word_of (pktmbuf_alloc mp) p ∷ h in
      elim (Bool-cases (p == 0)) [
        | inl e ↦
            let other : (p == a) ≡ false = ground arith in
            let null : (zero == a) ≡ false = ground arith in
            (record { addr = 0; bytes = [] }, h', rw e refl, rw (other, null) (omega arith), refl)
        | inr e ↦ (record { addr = p; bytes = bytes_of p }, h', rw e refl, omega arith, refl)
      ];
}

pub create_packet-Creates : (mp seq a : ℕ) → a ≢ 0 → Creates a (create_packet mp seq)
unfolding create_packet
create_packet-Creates mp seq a ne = allocates-Creates mp a (λ _. u32_bytes seq) ne

pub create_unset-Creates :
    (data_at : ℕ → List ℕ) (mp seq a : ℕ) → a ≢ 0 → Creates a (create_unset data_at mp seq)
unfolding create_unset
create_unset-Creates data_at mp seq a ne = allocates-Creates mp a data_at ne

-- Behind the insertion.
tested :
    (buf seq a : ℕ) (m : Mbuf) (d : Driver) (h h' : Trace) (x : ℤ)
    → got a h' ≡ (if m.addr == a then 1 else 0) + got a h
    → gave a h' ≡ gave a h
    → Conserves (got a) (gave a) h (
        trace_of (
          (if is_neg x then run (pktmbuf_free m) else pure tt) d
            (int_of (reorder_insert buf seq m) x ∷ did (print "Insert seq=%u\n" (seq ∷ [])) ∷ h')))
unfolding machine
tested buf seq a m d h h' (pos n) g v = omega (arith, g, v)
tested buf seq a m d h h' (negsuc n) g v = omega (arith, g, v)

insert_one-Balances :
    (create : ℕ → M Mbuf) (buf seq a : ℕ)
    → Creates a (create seq)
    → Balances (got a) (gave a) (insert_one create buf seq)
unfolding insert_one machine
insert_one-Balances create buf seq a c = record { balance = λ d h. go d h (c.creates d h) }
  where
    go :
        (d : Driver) (h : Trace)
        → ((m : Mbuf) × (h' : Trace) × (create seq d h ≡ (done m, h'))
            × (got a h' ≡ (if m.addr == a then 1 else 0) + got a h)
            × (gave a h' ≡ gave a h))
        → Conserves (got a) (gave a) h (trace_of (insert_one create buf seq d h))
    go d h (m, h', e, g, v) = rw e (tested buf seq a m d h h' _ g v)

pub insert_each-Balances :
    (create : ℕ → M Mbuf) (buf a : ℕ)
    → ((seq : ℕ) → Creates a (create seq))
    → (arrival_seq : List ℕ) → Balances (got a) (gave a) (insert_each create buf arrival_seq)
unfolding insert_each
insert_each-Balances create buf a c [] = Balance.pure-Balances _ _ tt
insert_each-Balances create buf a c (seq ∷ arrival_seq) =
    Balance.then-Balances _ _ _ _ (insert_one-Balances create buf seq a (c seq))
      (insert_each-Balances create buf a c arrival_seq)

insert_new-Balances :
    (mp buf seq a : ℕ) → a ≢ 0 → Balances (got a) (gave_or_lost a) (insert_new mp buf seq)
unfolding insert_new machine
insert_new-Balances mp buf seq a ne = record {
  balance = λ d h.
      let p = d.word (length h) (pktmbuf_alloc mp) in
      elim (Bool-cases (p == 0)) [
        | inl e ↦ let other : (p == a) ≡ false = ground arith in rw e (rw other (omega arith))
        | inr e ↦
            let m : Mbuf = record { addr = p; bytes = u32_bytes seq } in
            let x = d.int (suc (suc (length h))) (reorder_insert buf seq m) in
            rw e (omega (arith, split_if (is_neg x) (if p == a then 1 else 0)))
      ];
}

pub insert_unchecked-Balances :
    (mp buf a : ℕ)
    → a ≢ 0
    → (seq_list : List ℕ) → Balances (got a) (gave_or_lost a) (insert_unchecked mp buf seq_list)
unfolding insert_unchecked
insert_unchecked-Balances mp buf a ne [] = Balance.pure-Balances _ _ tt
insert_unchecked-Balances mp buf a ne (seq ∷ seq_list) =
    Balance.then-Balances _ _ _ _ (insert_new-Balances mp buf seq a ne)
      (insert_unchecked-Balances mp buf a ne seq_list)
