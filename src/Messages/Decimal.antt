-- ===== src/Messages/Decimal.antt =====
-- `%d` of printf as the C standard describes it, for an `int` of 32 bits, and a reader of numbers.
use native.Mathlib.Nat.{pow-suc}
use mathlib.Core.List.{append_assoc}
use dpdk_folder.Prelude.{
  ℕ, zero, suc, ◌+◌, ◌-◌, ◌*◌, ◌/◌, ◌%◌, ◌^◌, ◌<◌, ◌≤◌, ◌≡◌, refl, ap, ◌∙◌, arith, ltb, leb, Bool,
  ◌&&◌, ℤ, pos, negsuc, true, if◌then◌else◌, List, [], ◌∷◌, ◌++◌, length, length-append, Bool-cases,
  inl, inr, ltb→lt,
}

-- An `int` from its 32 bits, as arithmetic that wraps leaves it.
abbrev pub int32 : ℕ → ℤ
int32 n = let m = n % 2 ^ 32 in if ltb m 2147483648 then pos m else negsuc (4294967295 - m)

abbrev pub digits : (more n : ℕ) → List ℕ
digits zero n = (48 + n % 10) ∷ []
digits (suc more) n =
    let before = digits more (n / 10) in
    if ltb n 10 then (48 + n) ∷ [] else before ++ (48 + n % 10) ∷ []

abbrev pub decimal : ℤ → List ℕ
decimal (pos n) = digits 9 n
decimal (negsuc n) = 45 ∷ digits 9 (n + 1)

abbrev pub is_digit : ℕ → Bool
is_digit c = leb 48 c && leb c 57

-- The number that the text starts with, behind `acc`, and what follows it.
abbrev pub read_number : (acc : ℕ) → List ℕ → ℕ × List ℕ
read_number acc [] = (acc, [])
read_number acc (c ∷ text) =
    let more = read_number (acc * 10 + (c - 48)) text in
    if is_digit c then more else (acc, c ∷ text)

is_digit-digit : (k : ℕ) → k < 10 → is_digit (48 + k) ≡ true
is_digit-digit k lt = ground arith

read_digit :
    (acc k : ℕ) (rest : List ℕ)
    → k < 10
    → read_number acc ((48 + k) ∷ rest) ≡ read_number (acc * 10 + k) rest
read_digit acc k rest lt =
    let same : acc * 10 + (48 + k - 48) ≡ acc * 10 + k = omega arith in
    rw (is_digit-digit k lt, same) refl

read_first : (k : ℕ) (rest : List ℕ) → k < 10 → read_number 0 ((48 + k) ∷ rest) ≡ read_number k rest
read_first k rest lt = read_digit 0 k rest lt ∙ ap (λ x. read_number x rest) (omega arith)

read_number-digits :
    (more n : ℕ) (rest : List ℕ)
    → n < 10 ^ suc more
    → read_number 0 (digits more n ++ rest) ≡ read_number n rest
read_number-digits zero n rest lt =
    let same : n % 10 ≡ n = omega arith in rw same (read_first n rest (omega arith))
read_number-digits (suc more) n rest lt = elim (Bool-cases (ltb n 10)) [
  | inl e ↦ rw e (read_first n rest (ltb→lt n 10 e))
  | inr e ↦
      let whole : n / 10 * 10 + n % 10 ≡ n = omega arith in
      let fits : n / 10 < 10 ^ suc more = omega (arith, lt, pow-suc 10 (suc more)) in
      rw
        (
          e,
          append_assoc (digits more (n / 10)) ((48 + n % 10) ∷ []) rest,
          read_number-digits more (n / 10) ((48 + n % 10) ∷ rest) fits,
          read_digit (n / 10) (n % 10) rest (omega arith),
          whole,
        )
        refl
]

length-digits : (more n : ℕ) → length (digits more n) ≤ more + 1
length-digits zero n = omega arith
length-digits (suc more) n = elim (Bool-cases (ltb n 10)) [
  | inl e ↦ rw e (omega arith)
  | inr e ↦ rw e (
      omega (
        arith,
        length-append (digits more (n / 10)) ((48 + n % 10) ∷ []),
        length-digits more (n / 10),
      ))
]

-- Reading a printed number back.
pub read_number-decimal :
    (n : ℕ) (rest : List ℕ)
    → n < 2 ^ 31
    → read_number 0 (decimal (int32 n) ++ rest) ≡ read_number n rest
read_number-decimal n rest lt =
    let same : n % 2 ^ 32 ≡ n = omega arith in
    let low : ltb n 2147483648 ≡ true = ground arith in
    rw (same, low) (read_number-digits 9 n rest (omega arith))

pub length-decimal : (n : ℕ) → length (decimal (int32 n)) ≤ 11
length-decimal n = elim (Bool-cases (ltb (n % 2 ^ 32) 2147483648)) [
  | inl e ↦ rw e (omega (arith, length-digits 9 (n % 2 ^ 32)))
  | inr e ↦ rw e (omega (arith, length-digits 9 (4294967295 - n % 2 ^ 32 + 1)))
]
