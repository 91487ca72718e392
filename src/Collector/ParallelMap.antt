-- ===== src/Collector/ParallelMap.antt =====
-- services/collector/exchange-core/src/lib.rs: `parallel_map`. A scoped thread is the work on its
-- chunk; the threads share nothing that they write, and are joined in the order of the chunks, so
-- the results do not depend on the order in which they finish.
pub mod Order
use linvesther.Prelude.{
  ℕ, zero, suc, ◌+◌, ◌-◌, ◌/◌, min, leb, List, [], ◌∷◌, ◌++◌, map, length, if◌then◌else◌,
}

abbrev pub max_parallel_requests : ℕ
max_parallel_requests = 8

module _ {ℓ} {A : Type ℓ} where
  -- `take` and `drop` on native numbers.
  abbrev pub take : ℕ → List A → List A
  take zero items = []
  take (suc n) [] = []
  take (suc n) (x ∷ items) = x ∷ take n items

  abbrev pub drop : ℕ → List A → List A
  drop zero items = items
  drop (suc n) [] = []
  drop (suc n) (x ∷ items) = drop n items

  -- `chunks`, on fuel: the next `size` items, then the rest.
  unfoldable pub chunks : ℕ → ℕ → List A → List (List A)
  chunks zero size items = []
  chunks (suc fuel) size [] = []
  chunks (suc fuel) size (x ∷ items) =
      take size (x ∷ items) ∷ chunks fuel size (drop size (x ∷ items))

-- `flat_map` over the joined handles.
unfoldable pub flatten {ℓ} : {A : Type ℓ} → List (List A) → List A
flatten [] = []
flatten (xs ∷ xss) = xs ++ flatten xss

-- `div_ceil`, for a divisor that is not zero.
abbrev pub div_ceil : ℕ → ℕ → ℕ
div_ceil a b = (a + (b - 1)) / b

unfoldable pub parallel_map {ℓ κ} : {T : Type ℓ} {R : Type κ} → List T → (T → R) → List R
unfolding chunks flatten
parallel_map items work =
    let threads = min max_parallel_requests (length items) in
    let chunk_size = div_ceil (length items) threads in
    let spawned = flatten (map (map work) (chunks (length items) chunk_size items)) in
    if leb (length items) 1 then map work items else spawned
