-- ===== src/KeyMap.antt =====
-- `std::map` with slices for keys (`index_` of lib/kvengine/worker.h): a list in the order of `less`.
use ktable_fs.Base.{◌≡◌, refl, Option, none, some, List, [], ◌∷◌, arith, if◌then◌else◌}
use ktable_fs.Slice.{Slice, less, equal}
use ktable_fs.Slice.Order.{equal_iff}

module _ {ℓ} {V : Type ℓ} where
  unfoldable pub find : Slice → List (Slice × V) → Option V
  find k [] = none
  find k ((j, v) ∷ m) = if equal j k then some v else find k m

  unfoldable pub emplace : Slice → V → List (Slice × V) → List (Slice × V)
  emplace k v [] = (k, v) ∷ []
  emplace k v ((j, w) ∷ m) =
      let rest = emplace k v m in
      if less k j then (k, v) ∷ (j, w) ∷ m else if equal j k then (j, w) ∷ m else (j, w) ∷ rest

  unfoldable pub erase : Slice → List (Slice × V) → List (Slice × V)
  erase k [] = []
  erase k ((j, v) ∷ m) = let rest = erase k m in if equal j k then rest else (j, v) ∷ rest

  -- The iterators from `lower_bound(k)` on.
  unfoldable pub lower_bound : Slice → List (Slice × V) → List (Slice × V)
  lower_bound k [] = []
  lower_bound k ((j, v) ∷ m) = let rest = lower_bound k m in if less j k then rest else (j, v) ∷ m

  pub find-emplace :
      (k j : Slice) (v : V) (m : List (Slice × V))
      → find k m ≡ none
      → find j (emplace k v m) ≡ (if equal k j then some v else find j m)
  unfolding find emplace
  find-emplace k j v [] h = refl
  find-emplace k j v ((i, w) ∷ m) h =
      ground (arith, find-emplace k j v m, equal_iff i k, equal_iff k j, equal_iff i j)

  pub find-erase :
      (k j : Slice) (m : List (Slice × V))
      → find j (erase k m) ≡ (if equal k j then none else find j m)
  unfolding find erase
  find-erase k j [] = ground arith
  find-erase k j ((i, w) ∷ m) =
      ground (arith, find-erase k j m, equal_iff i k, equal_iff k j, equal_iff i j)
