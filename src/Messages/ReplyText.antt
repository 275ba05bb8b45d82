-- ===== src/Messages/ReplyText.antt =====
-- The text of a reply: it fits, and it can be read.
use dpdk_folder.Prelude.{
  ℕ, ◌+◌, ◌*◌, ◌<◌, ◌≤◌, ◌≡◌, refl, arith, List, [], ◌∷◌, ◌++◌, length, length-append, drop,
}
use dpdk_folder.Messages.Decimal.{int32, decimal, read_number, read_number-decimal, length-decimal}
use dpdk_folder.Messages.Receiver.{response, packets, bytes, stats}

-- RTE_MP_MAX_PARAM_LEN and `sizeof(stats)`
abbrev pub max_param_len : ℕ
max_param_len = 256

module _ (x y z : List ℕ) where
  length_of_parts :
      length (response ++ (x ++ (packets ++ (y ++ (bytes ++ (z ++ 0 ∷ []))))))
      ≡ 28 + length x + length y + length z
  length_of_parts = omega (
    arith,
    length-append x (packets ++ (y ++ (bytes ++ (z ++ 0 ∷ [])))),
    length-append y (bytes ++ (z ++ 0 ∷ [])),
    length-append z (0 ∷ []),
  )

-- Whatever the counter, the text of a reply of mp_callback fits, with the zero at its end, in the 256
-- bytes of `stats` and of `reply.param`: it is neither cut by snprintf nor written past the end.
pub length-stats : (n : ℕ) → length (stats n) ≤ max_param_len
unfolding stats
length-stats n =
    let x = decimal (int32 n) in
    let y = decimal (int32 (n * 1024)) in
    let z = decimal (int32 (n * 65536)) in
    rw (length_of_parts x y z)
      (omega (arith, length-decimal n, length-decimal (n * 1024), length-decimal (n * 65536)))

-- A reader of the text of a reply: the three numbers, and what follows the last.
abbrev pub read_stats : List ℕ → ℕ × ℕ × ℕ × List ℕ
read_stats text =
    let (n, after_n) = read_number 0 (drop 9 text) in
    let (p, after_p) = read_number 0 (drop 10 after_n) in
    let (b, after_b) = read_number 0 (drop 8 after_p) in (n, p, b, after_b)

-- `x` is the text of the number `n`.
abbrev IsText : List ℕ → ℕ → Type 0
IsText x n = (rest : List ℕ) → read_number 0 (x ++ rest) ≡ read_number n rest

read_parts :
    (x y z : List ℕ) (n p b : ℕ)
    → IsText x n
    → IsText y p
    → IsText z b
    → read_stats (response ++ (x ++ (packets ++ (y ++ (bytes ++ (z ++ 0 ∷ []))))))
      ≡ (n, p, b, 0 ∷ [])
read_parts x y z n p b h k l =
    rw (h (packets ++ (y ++ (bytes ++ (z ++ 0 ∷ [])))), k (bytes ++ (z ++ 0 ∷ [])), l (0 ∷ [])) refl

-- For a number below 32768, whose products fit in an int, a reader of the text of the reply gets back the
-- number, 1024 times it and 65536 times it, and then the zero at the end.
pub read_stats-stats : (n : ℕ) → n < 32768 → read_stats (stats n) ≡ (n, n * 1024, n * 65536, 0 ∷ [])
unfolding stats
read_stats-stats n lt =
    read_parts (decimal (int32 n)) (decimal (int32 (n * 1024))) (decimal (int32 (n * 65536))) n _ _
      (λ rest. read_number-decimal n rest (omega arith))
      (λ rest. read_number-decimal (n * 1024) rest (omega arith))
      (λ rest. read_number-decimal (n * 65536) rest (omega arith))
