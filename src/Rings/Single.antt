-- ===== src/Rings/Single.antt =====
-- rte_ring_single/rte_ring.c: one pointer through a ring. The ring is a parameter with its documentation; a
-- call with a NULL ring, or a read of memory that holds nothing, is `none`.
use dpdk_folder.Prelude.{
  ℕ, ℤ, pos, negsuc, ◌<◌, ◌≡◌, refl, arith, is_neg, true, false, if◌then◌else◌, List, [], ◌∷◌, ◌++◌,
  length, Option, some, none, ltb,
}
use dpdk_folder.Dpdk.Malloc.{value_at, value_at-first}

-- `rte_ring_enqueue` and `rte_ring_dequeue` of one pointer: a first-in first-out queue with room for
-- `room` pointers, and a negative result where it is full or empty.
pub record SingleRing : Type 1 where
  pub Ring : Type 0
  pub contents : Ring → List ℕ
  pub room : ℕ
  pub enqueue : Ring → ℕ → Ring × ℤ
  -- the ring, the result, and what stands in the place for the pointer
  pub dequeue : Ring → Ring × ℤ × ℕ
  pub enqueue_ok :
      (r : Ring) (p : ℕ)
      → length (contents r) < room
      → (is_neg (enqueue r p).1 ≡ false) × (contents (enqueue r p).0 ≡ contents r ++ p ∷ [])
  pub dequeue_ok :
      (r : Ring) (p : ℕ) (ps : List ℕ)
      → contents r ≡ p ∷ ps
      → (is_neg (dequeue r).1 ≡ false) × ((dequeue r).2 ≡ p) × (contents (dequeue r).0 ≡ ps)
  pub dequeue_empty : (r : Ring) → contents r ≡ [] → is_neg (dequeue r).1 ≡ true

module _ (room : ℕ) where
  abbrev pub put : List ℕ → ℕ → List ℕ × ℤ
  put r p = if ltb (length r) room then (r ++ p ∷ [], pos 0) else (r, negsuc 104)

  abbrev pub get : List ℕ → List ℕ × ℤ × ℕ
  get [] = ([], negsuc 1, 0)
  get (p ∷ ps) = (ps, pos 0, p)

  pub put_ok :
      (r : List ℕ) (p : ℕ)
      → length r < room
      → (is_neg (put r p).1 ≡ false) × ((put r p).0 ≡ r ++ p ∷ [])
  put_ok r p lt = let fits : ltb (length r) room ≡ true = ground arith in rw fits (refl, refl)

  pub get_ok :
      (r : List ℕ) (p : ℕ) (ps : List ℕ)
      → r ≡ p ∷ ps
      → (is_neg (get r).1 ≡ false) × ((get r).2 ≡ p) × ((get r).0 ≡ ps)
  get_ok r p ps e = rw e (refl, refl, refl)

  pub get_empty : (r : List ℕ) → r ≡ [] → is_neg (get r).1 ≡ true
  get_empty r e = rw e refl

  -- Such a ring as a list.
  abbrev pub list_ring : SingleRing
  list_ring = record {
    Ring = List ℕ;
    contents = λ r. r;
    room = room;
    enqueue = put;
    dequeue = get;
    enqueue_ok = put_ok;
    dequeue_ok = get_ok;
    dequeue_empty = get_empty;
  }

module _ (api : SingleRing) where
  -- main behind `create_ring`, which leaves `rte_ring1` NULL where the ring cannot be made, and goes on. `data`
  -- is at address `data_at`, and what is printed comes with the result.
  unfoldable pub transfer : (data_at : ℕ) (rte_ring1 : Option api.Ring) → Option (ℤ × List ℕ)
  transfer data_at none = none
  transfer data_at (some r) =
      let (r', ret) = api.enqueue r data_at in
      if is_neg ret
      then some (pos 1, [])
      else (let (r'', ret', out_data) = api.dequeue r' in
          if is_neg ret'
          then some (pos 1, 2 ∷ [])
          else elim (value_at out_data ((data_at, 2) ∷ [])) [
            | none ↦ none
            | some v ↦ some (pos 0, 2 ∷ v ∷ [])
          ])

  -- `ret` is the result of rte_eal_init, and `created` what rte_ring_create returns.
  unfoldable pub main : (data_at : ℕ) (ret : ℤ) (created : Option api.Ring) → Option (ℤ × List ℕ)
  main data_at ret created = if is_neg ret then some (pos 1, []) else transfer data_at created

  -- On any ring of the documented kind that was created empty and has room for a pointer, main of
  -- rte_ring_single gets back what it has put in: it returns 0, and prints 2, the value, before and behind
  -- the ring. Where rte_ring_create fails, it uses a NULL ring.
  pub single_ring_round_trip :
      (data_at : ℕ) (ret : ℤ) (r : api.Ring)
      → is_neg ret ≡ false
      → api.contents r ≡ []
      → 0 < api.room
      → (main data_at ret (some r) ≡ some (pos 0, 2 ∷ 2 ∷ [])) × (main data_at ret none ≡ none)
  unfolding main transfer
  single_ring_round_trip data_at ret r e empty room =
      let fits : length (api.contents r) < api.room = rw empty room in
      let (ok, holds) = api.enqueue_ok r data_at fits in
      let one : api.contents (api.enqueue r data_at).0 ≡ data_at ∷ [] = rw empty at holds in
      let (ok', same, rest) = api.dequeue_ok (api.enqueue r data_at).0 data_at [] one in
      (rw (e, ok, ok', same, value_at-first {V = ℕ} data_at 2 []) refl, rw e refl)
