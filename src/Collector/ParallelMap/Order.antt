-- ===== src/Collector/ParallelMap/Order.antt =====
-- `parallel_map` (services/collector/exchange-core/src/lib.rs) and the sequential map.
use linvesther.Prelude.{
  ℕ, zero, suc, ◌+◌, ◌-◌, ◌≤◌, ◌<◌, ◌≡◌, ◌∙◌, refl, sym, ap, min, leb, List, [], ◌∷◌, ◌++◌, map,
  length, arith, Bool-cases, inl, inr,
}
use linvesther.Collector.ParallelMap.{
  take, drop, chunks, flatten, div_ceil, parallel_map, max_parallel_requests,
}
use native.Mathlib.Nat.{le-div_iff_mul-le}

take-append-drop {ℓ} : {A : Type ℓ} (n : ℕ) (xs : List A) → take n xs ++ drop n xs ≡ xs
take-append-drop zero xs = refl
take-append-drop (suc n) [] = refl
take-append-drop (suc n) (x ∷ xs) = ap (λ t. x ∷ t) (take-append-drop n xs)

length-drop {ℓ} : {A : Type ℓ} (n : ℕ) (xs : List A) → length (drop n xs) ≡ length xs - n
length-drop zero xs = omega arith
length-drop (suc n) [] = omega arith
length-drop (suc n) (x ∷ xs) = omega (arith, length-drop n xs)

map-append {ℓ κ} :
    {A : Type ℓ} {B : Type κ} (f : A → B) (xs ys : List A) → map f (xs ++ ys) ≡ map f xs ++ map f ys
map-append f [] ys = refl
map-append f (x ∷ xs) ys = ap (λ t. f x ∷ t) (map-append f xs ys)

-- With chunks that are not empty and as much fuel as items, every item is worked on once, in order.
chunks-eq-map {ℓ κ} :
    {A : Type ℓ} {B : Type κ} (fuel size : ℕ) (items : List A) (work : A → B)
    → 0 < size
    → length items ≤ fuel
    → flatten (map (map work) (chunks fuel size items)) ≡ map work items
unfolding chunks flatten
chunks-eq-map zero size [] work h enough = refl
chunks-eq-map zero size (x ∷ items) work h enough = absurd (omega arith)
chunks-eq-map (suc fuel) size [] work h enough = refl
chunks-eq-map (suc fuel) size (x ∷ items) work h enough =
    let rest = drop size (x ∷ items) in
    let shorter = length-drop size (x ∷ items) in
    ap (λ t. map work (take size (x ∷ items)) ++ t)
      (chunks-eq-map fuel size rest work h (omega arith))
    ∙ sym (map-append work (take size (x ∷ items)) rest)
    ∙ ap (map work) (take-append-drop size (x ∷ items))

chunk_size-positive : (n : ℕ) → 0 < n → 0 < div_ceil n (min max_parallel_requests n)
chunk_size-positive n h =
    let t = min 8 n in
    let some_threads : 0 < t = omega arith in
    (le-div_iff_mul-le {k = t} {x = 1} {y = n + (t - 1)} some_threads).1 (omega arith)

-- For any items and any work, `parallel_map` returns what the sequential map does: one result for
-- each item, in the items' order, however many threads and chunks there are.
parallel_map-eq-map {ℓ κ} :
    {T : Type ℓ} {R : Type κ} (items : List T) (work : T → R)
    → parallel_map items work ≡ map work items
unfolding parallel_map
parallel_map-eq-map items work = elim (Bool-cases (leb (length items) 1)) [
  | inl few ↦ rw few refl
  | inr many ↦
      let some_items : 0 < length items = ground arith in
      rw many (
        chunks-eq-map (length items)
          (div_ceil (length items) (min max_parallel_requests (length items))) items work
          (chunk_size-positive (length items) some_items) (omega arith))
]
