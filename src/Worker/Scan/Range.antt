-- ===== src/Worker/Scan/Range.antt =====
-- The part of the index from which a scan starts (lib/kvengine/worker.cc).
use mathlib.Core.Path.{subst}
use mathlib.Core.Option.{some-injective}
use ktable_fs.Base.{
  ◌≡◌, refl, ap, inl, inr, true, false, none, some, List, [], ◌∷◌, All, Bool-cases, arith,
}
use ktable_fs.Slice.{Slice, less, equal}
use ktable_fs.Slice.Order.{equal_iff, less-IsOrder}
use ktable_fs.KeyMap.{find, lower_bound}

pub All-zip {ℓ κ μ ν} :
    {A : Type ℓ} (P : A → Type κ) (Q : A → Type μ) (R : A → Type ν)
    → ((a : A) → P a → Q a → R a)
    → (xs : List A) → All P xs
    → All Q xs
    → All R xs
All-zip P Q R f [] h k = tt
All-zip P Q R f (x ∷ xs) h k = (f x h.0 k.0, All-zip P Q R f xs h.1 k.1)

not_equal : (k j : Slice) → less k j ≡ true → equal k j ≡ false
not_equal k j h = elim (Bool-cases (equal k j)) [
  | inr n ↦ n
  | inl e ↦
      let k≡j = (equal_iff k j).0 e in
      let irrefl = (less-IsOrder k k k).0 in ground (arith, ap (less k) k≡j, h, irrefl)
]

module _ {V : Type 0} where
  -- Keys in the order of `operator<`, as in a `std::map`.
  abbrev pub IsSorted : List (Slice × V) → Type 0
  IsSorted [] = Unit
  IsSorted ((k, v) ∷ es) = All (λ e. less k e.0 ≡ true) es × IsSorted es

  pub find-member : (es : List (Slice × V)) → IsSorted es → All (λ e. find e.0 es ≡ some e.1) es
  unfolding find
  find-member [] h = tt
  find-member ((k, v) ∷ es) h = (
    rw ((equal_iff k k).1 refl) refl,
    All-zip {A = Slice × V} (λ e. less k e.0 ≡ true) (λ e. find e.0 es ≡ some e.1)
        (λ e. find e.0 ((k, v) ∷ es) ≡ some e.1)
        (λ e before found. rw (find, not_equal k e.0 before) found) es h.0 (find-member es h.1),
  )

  pub none_found {κ} : {P : Type κ} {v : V} → none ≡ some v → P
  none_found e = cc

  pub find-All {κ} :
      (P : Slice × V → Type κ) (k : Slice) (v : V) (es : List (Slice × V))
      → All P es
      → find k es ≡ some v
      → P (k, v)
  unfolding find
  find-All P k v [] h e = none_found e
  find-All P k v ((j, w) ∷ es) h e = elim (Bool-cases (equal j k)) [
    | inl t ↦
        let w≡v : w ≡ v = some-injective _ _ (rw (find, t) at e) in
        subst P (λ i. ((equal_iff j k).0 t i, w≡v i)) h.0
    | inr t ↦ find-All P k v es h.1 (rw (find, t) at e)
  ]

  pub lower-All {κ} :
      (P : Slice × V → Type κ) (k : Slice) (es : List (Slice × V))
      → All P es
      → All P (lower_bound k es)
  unfolding lower_bound
  lower-All P k [] h = tt
  lower-All P k ((j, v) ∷ es) h = elim (Bool-cases (less j k)) [
    | inl t ↦ rw (lower_bound, t) (lower-All P k es h.1)
    | inr t ↦ rw (lower_bound, t) h
  ]

  pub lower-IsSorted :
      (k : Slice) (es : List (Slice × V)) → IsSorted es → IsSorted (lower_bound k es)
  unfolding lower_bound
  lower-IsSorted k [] h = tt
  lower-IsSorted k ((j, v) ∷ es) h = elim (Bool-cases (less j k)) [
    | inl t ↦ rw (lower_bound, t) (lower-IsSorted k es h.1)
    | inr t ↦ rw (lower_bound, t) h
  ]

  pub lower-not_less :
      (k : Slice) (es : List (Slice × V))
      → IsSorted es
      → All (λ e. less e.0 k ≡ false) (lower_bound k es)
  unfolding lower_bound
  lower-not_less k [] h = tt
  lower-not_less k ((j, v) ∷ es) h = elim (Bool-cases (less j k)) [
    | inl t ↦ rw (lower_bound, t) (lower-not_less k es h.1)
    | inr t ↦
        rw (lower_bound, t)
          (
            t,
            All-zip {A = Slice × V} (λ e. less j e.0 ≡ true) (λ e. less j e.0 ≡ true)
                (λ e. less e.0 k ≡ false) (λ e before u. above t e.0 before) es h.0 h.0,
          )
  ]
    where
      above : less j k ≡ false → (i : Slice) → less j i ≡ true → less i k ≡ false
      above t i before = elim (Bool-cases (less i k)) [
        | inr n ↦ n
        | inl y ↦ absurd (ground (arith, (less-IsOrder j i k), before, y, t))
      ]

  pub find-lower :
      (k j : Slice) (es : List (Slice × V))
      → less j k ≡ false
      → find j (lower_bound k es) ≡ find j es
  unfolding find lower_bound
  find-lower k j [] h = refl
  find-lower k j ((i, v) ∷ es) h = elim (Bool-cases (less i k)) [
    | inr t ↦ rw (lower_bound, t) refl
    | inl t ↦ elim (Bool-cases (equal i j)) [
      | inl same ↦ absurd (ground (arith, ap (λ x. less x k) ((equal_iff i j).0 same), t, h))
      | inr other ↦ rw (lower_bound, t, other) (find-lower k j es h)
    ]
  ]
