-- ===== src/Prefetch/Rate.antt =====
-- The packet counter of `lcore_main`, in the 64-bit arithmetic of the source.
use dpdk_folder.Prelude.{
  ℕ, ◌+◌, ◌-◌, ◌%◌, ◌^◌, ◌≤◌, ◌<◌, ltb, if◌then◌else◌, List, [], ◌∷◌, ◌++◌, ◌≡◌, arith, Bool-cases,
  inl, inr,
}

pub record Counter : Type 0 where
  pub total : ℕ
  pub last : ℕ
  pub start : ℕ

-- Sum and difference of two `uint64_t`
abbrev pub add64 : ℕ → ℕ → ℕ
add64 a b = (a + b) % 2 ^ 64

abbrev pub sub64 : ℕ → ℕ → ℕ
sub64 a b = (a + 2 ^ 64 - b) % 2 ^ 64

-- `total += nb_rx;`
unfoldable pub count_burst : ℕ → Counter → Counter
count_burst nb_rx c = record c { total = add64 c.total nb_rx }

-- The end of a round: what is printed, and the new counter.
unfoldable pub print_rate : (now hz : ℕ) → Counter → List ℕ × Counter
print_rate now hz c =
    if ltb hz (sub64 now c.start)
    then (sub64 c.total c.last ∷ [], record c { last = c.total; start = now })
    else ([], c)

-- The rounds that got packets: their number, and the time at the end of the round.
unfoldable pub rates : (hz : ℕ) → List (ℕ × ℕ) → Counter → List ℕ × Counter
rates hz [] c = ([], c)
rates hz ((nb_rx, now) ∷ rounds) c =
    let (printed, c') = print_rate now hz (count_burst nb_rx c) in
    let (rest, c'') = rates hz rounds c' in (printed ++ rest, c'')

abbrev pub sum : List ℕ → ℕ
sum [] = 0
sum (x ∷ xs) = x + sum xs

abbrev pub packets : List (ℕ × ℕ) → ℕ
packets [] = 0
packets ((nb_rx, now) ∷ rounds) = nb_rx + packets rounds

sum-append : (xs ys : List ℕ) → sum (xs ++ ys) ≡ sum xs + sum ys
sum-append [] ys = omega arith
sum-append (x ∷ xs) ys = omega (arith, sum-append xs ys)

-- One round: nothing is lost between what was printed and what is not printed yet.
print_rate_lem :
    (now hz nb_rx : ℕ) (c : Counter)
    → c.last ≤ c.total
    → c.total + nb_rx < 2 ^ 64
    → (sum (print_rate now hz (count_burst nb_rx c)).0 + c.last
        ≡ (print_rate now hz (count_burst nb_rx c)).1.last)
      × ((print_rate now hz (count_burst nb_rx c)).1.last ≤ c.total + nb_rx)
      × ((print_rate now hz (count_burst nb_rx c)).1.total ≡ c.total + nb_rx)
unfolding print_rate count_burst
print_rate_lem now hz nb_rx c le lt = elim (Bool-cases (ltb hz (sub64 now c.start))) [
  | inl e ↦ rw e (omega arith, omega arith, omega arith)
  | inr e ↦ rw e (omega arith, omega arith, omega arith)
]

-- As long as fewer than 2 ^ 64 packets come, the printed numbers add up to the packets that came since
-- the last print before, and what was counted is what came: no packet is printed twice or left out,
-- only those behind the last print are still to be printed.
pub rates-sum :
    (hz : ℕ) (rounds : List (ℕ × ℕ)) (c : Counter)
    → c.last ≤ c.total
    → c.total + packets rounds < 2 ^ 64
    → (sum (rates hz rounds c).0 + c.last ≡ (rates hz rounds c).1.last)
      × ((rates hz rounds c).1.last ≤ (rates hz rounds c).1.total)
      × ((rates hz rounds c).1.total ≡ c.total + packets rounds)
unfolding rates
rates-sum hz [] c le lt = (omega arith, le, omega arith)
rates-sum hz ((nb_rx, now) ∷ rounds) c le lt =
    let r = print_rate now hz (count_burst nb_rx c) in
    let (a, b, t) = print_rate_lem now hz nb_rx c le (omega arith) in
    let (a', b', t') = rates-sum hz rounds r.1 (omega arith) (omega arith) in
    (omega (arith, sum-append r.0 (rates hz rounds r.1).0, a, a'), b', omega arith)
