-- ===== src/Memory/Stores.antt =====
-- Stores into memory: `p[i] = v`, the loop over them, and `memcpy`.
use dpdk_folder.Prelude.{
  ℕ, zero, suc, ◌+◌, ◌≤◌, ◌<◌, List, [], ◌∷◌, ◌≡◌, ◌≢◌, refl, ap, arith, some, length, take, drop,
  get_elem?, ◌⊎◌, ◌∙◌, Bool-cases, inl, inr, ◌==◌,
}

-- A store behind the end would write elsewhere; here it does nothing.
abbrev pub store : (i value : ℕ) → List ℕ → List ℕ
store i value [] = []
store zero value (x ∷ xs) = value ∷ xs
store (suc i) value (x ∷ xs) = x ∷ store i value xs

-- `for (int i = …; i < n; i++) p[i] = value(i);` with `left` rounds to go, where `p` points to index `at`.
unfoldable pub store_each : (left i at : ℕ) → (ℕ → ℕ) → List ℕ → List ℕ
store_each zero i at value mem = mem
store_each (suc left) i at value mem =
    store_each left (suc i) at value (store (at + i) (value i) mem)

pub length-store : (i v : ℕ) (xs : List ℕ) → length (store i v xs) ≡ length xs
length-store i v [] = refl
length-store zero v (x ∷ xs) = refl
length-store (suc i) v (x ∷ xs) = ap suc (length-store i v xs)

pub length-store_each :
    (left i at : ℕ) (v : ℕ → ℕ) (mem : List ℕ) → length (store_each left i at v mem) ≡ length mem
unfolding store_each
length-store_each zero i at v mem = refl
length-store_each (suc left) i at v mem =
    length-store_each left (suc i) at v _ ∙ length-store (at + i) (v i) mem

pub get-store : (i v : ℕ) (xs : List ℕ) → i < length xs → get_elem? (store i v xs) i ≡ some v
get-store i v [] lt = absurd (omega arith)
get-store zero v (x ∷ xs) lt = refl
get-store (suc i) v (x ∷ xs) lt = get-store i v xs (omega arith)

pub get-store_other :
    (i j v : ℕ) (xs : List ℕ) → i ≢ j → get_elem? (store i v xs) j ≡ get_elem? xs j
get-store_other i j v [] ne = refl
get-store_other zero zero v (x ∷ xs) ne = absurd (ne refl)
get-store_other zero (suc j) v (x ∷ xs) ne = refl
get-store_other (suc i) zero v (x ∷ xs) ne = refl
get-store_other (suc i) (suc j) v (x ∷ xs) ne = get-store_other i j v xs (λ e. ne (ap suc e))

-- Outside of what the loop writes the memory is as it was.
pub get-store_each_outside :
    (left i at j : ℕ) (v : ℕ → ℕ) (mem : List ℕ)
    → (j < at + i) ⊎ (at + i + left ≤ j)
    → get_elem? (store_each left i at v mem) j ≡ get_elem? mem j
unfolding store_each
get-store_each_outside zero i at j v mem out = refl
get-store_each_outside (suc left) i at j v mem out =
    get-store_each_outside left (suc i) at j v _ (ground (arith, out))
    ∙ get-store_other (at + i) j (v i) mem (λ e. ground (arith, out, e))

pub get-store_each :
    (left i at k : ℕ) (v : ℕ → ℕ) (mem : List ℕ)
    → i ≤ k
    → k < i + left
    → at + i + left ≤ length mem
    → get_elem? (store_each left i at v mem) (at + k) ≡ some (v k)
unfolding store_each
get-store_each zero i at k v mem le lt fits = absurd (omega arith)
get-store_each (suc left) i at k v mem le lt fits = elim (Bool-cases (i == k)) [
  | inl e ↦
      let same : k ≡ i = ground arith in
      rw same (
        get-store_each_outside left (suc i) at (at + i) v _ (inl (omega arith))
        ∙ get-store (at + i) (v i) mem (omega arith))
  | inr e ↦
      get-store_each left (suc i) at k v _ (ground arith) (omega arith)
        (omega (arith, length-store (at + i) (v i) mem))
]

pub get-take : (n k : ℕ) (xs : List ℕ) → k < n → get_elem? (take n xs) k ≡ get_elem? xs k
get-take zero k xs lt = absurd (omega arith)
get-take (suc n) k [] lt = refl
get-take (suc n) zero (x ∷ xs) lt = refl
get-take (suc n) (suc k) (x ∷ xs) lt = get-take n k xs (omega arith)

pub get-drop : (n k : ℕ) (xs : List ℕ) → get_elem? (drop n xs) k ≡ get_elem? xs (n + k)
get-drop zero k xs = ap (get_elem? xs) (omega arith)
get-drop (suc n) k [] = refl
get-drop (suc n) k (x ∷ xs) =
    let moved : suc (n + k) ≡ suc n + k = omega arith in
    get-drop n k xs ∙ ap (get_elem? (x ∷ xs)) moved
