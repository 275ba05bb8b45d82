-- ===== src/Dpdk/Malloc.antt =====
-- The blocks that `rte_malloc` has given out and that are in use, each with what it holds.
use dpdk_folder.Prelude.{
  ℕ, ◌==◌, ==_refl, ◌≡◌, refl, arith, false, Bool-cases, inl, inr, if◌then◌else◌, List, [], ◌∷◌,
  Option, some, none,
}

module _ {V : Type 0} where
  -- Reading a block that is not in use gives nothing.
  abbrev pub value_at : ℕ → List (ℕ × V) → Option V
  value_at b [] = none
  value_at b ((c, v) ∷ heap) = if c == b then some v else value_at b heap

  -- `rte_free`
  abbrev pub free : ℕ → List (ℕ × V) → List (ℕ × V)
  free b [] = []
  free b ((c, v) ∷ heap) = if c == b then heap else (c, v) ∷ free b heap

module _ {V : Type 0} where
  pub value_at-first : (b : ℕ) (v : V) (l : List (ℕ × V)) → value_at b ((b, v) ∷ l) ≡ some v
  value_at-first b v l = rw (==_refl b) refl

  pub value_at-second :
      (c b : ℕ) (w v : V) (l : List (ℕ × V))
      → (c == b) ≡ false
      → value_at b ((c, w) ∷ (b, v) ∷ l) ≡ some v
  value_at-second c b w v l ne = rw (ne, ==_refl b) refl

  pub free-first : (b : ℕ) (v : V) (l : List (ℕ × V)) → free b ((b, v) ∷ l) ≡ l
  free-first b v l = rw (==_refl b) refl

  pub free-second :
      (c b : ℕ) (w v : V) (l : List (ℕ × V))
      → (c == b) ≡ false
      → free b ((c, w) ∷ (b, v) ∷ l) ≡ (c, w) ∷ l
  free-second c b w v l ne = rw (ne, ==_refl b) refl

  -- A block that is not in use differs from one that is.
  pub not_first :
      (b c : ℕ) (v : V) (l : List (ℕ × V))
      → value_at b ((c, v) ∷ l) ≡ none
      → ((c == b) ≡ false) × ((b == c) ≡ false)
  not_first b c v l e = ground arith

  pub value_at-free :
      (q b : ℕ) (l : List (ℕ × V)) → (b == q) ≡ false → value_at q (free b l) ≡ value_at q l
  value_at-free q b [] ne = refl
  value_at-free q b ((c, v) ∷ l) ne = elim (Bool-cases (c == b)) [
    | inl e ↦ let other : (c == q) ≡ false = ground arith in rw (e, other) refl
    | inr e ↦ rw (e, value_at-free q b l ne) refl
  ]
