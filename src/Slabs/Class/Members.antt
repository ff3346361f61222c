-- ===== src/Slabs/Class/Members.antt =====
-- The members of a list of slabs (lib/kvengine/fileslab.cc).
use ktable_fs.Base.{◌≡◌, ◌≢◌, ◌⊎◌, ap, inl, inr, List, [], ◌∷◌, ◌++◌, ◌==◌, All, Bool-cases, arith}
use ktable_fs.FileSlab.{Slab}

abbrev pub In : Slab → List Slab → Type 0
In t [] = ⊥
In t (x ∷ xs) = (x ≡ t) ⊎ In t xs

pub In-left : (t : Slab) (xs ys : List Slab) → In t xs → In t (xs ++ ys)
In-left t [] ys h = absurd h
In-left t (x ∷ xs) ys (inl e) = inl e
In-left t (x ∷ xs) ys (inr h) = inr (In-left t xs ys h)

pub In-right : (t : Slab) (xs ys : List Slab) → In t ys → In t (xs ++ ys)
In-right t [] ys h = h
In-right t (x ∷ xs) ys h = inr (In-right t xs ys h)

pub In-All {κ} :
    (P : Slab → Type κ) (t : Slab) (xs : List Slab)
    → All P xs
    → In t xs
    → (a : Slab) × (a ≡ t) × P a
In-All P t [] h i = absurd i
In-All P t (x ∷ xs) h (inl e) = (x, e, h.0)
In-All P t (x ∷ xs) h (inr i) = In-All P t xs h.1 i

-- A member other than the one in the middle.
pub In-other : (t s : Slab) (xs ys : List Slab) → s ≢ t → In t (xs ++ (s ∷ ys)) → In t (xs ++ ys)
In-other t s [] ys ne (inl e) = absurd (ne e)
In-other t s [] ys ne (inr h) = h
In-other t s (x ∷ xs) ys ne (inl e) = inl e
In-other t s (x ∷ xs) ys ne (inr h) = inr (In-other t s xs ys ne h)

same_or : (s t : Slab) → (s ≡ t) ⊎ (s ≢ t)
same_or s t = elim (Bool-cases (s.size == t.size)) [
  | inr u ↦ inr (λ e. ground (arith, e, u))
  | inl u ↦ elim (Bool-cases (s.file == t.file)) [
    | inr v ↦ inr (λ e. ground (arith, e, v))
    | inl v ↦ elim (Bool-cases (s.index == t.index)) [
      | inr w ↦ inr (λ e. ground (arith, e, w))
      | inl w ↦ inl (ground (arith, u, v, w))
    ]
  ]
]

-- Where a slab stands in a list, if it does.
abbrev pub Place : Slab → List Slab → Type 0
Place s xs =
    ((before : List Slab) × (behind : List Slab) × (xs ≡ before ++ (s ∷ behind))) ⊎ (¬ In s xs)

pub place : (s : Slab) (xs : List Slab) → Place s xs
place s [] = inr (λ h. h)
place s (x ∷ xs) = elim (same_or x s) [
  | inl e ↦ inl ([], xs, (λ i. e i ∷ xs))
  | inr ne ↦ elim (place s xs) [
    | inl (before, behind, e) ↦ inl (x ∷ before, behind, ap (◌∷◌ x) e)
    | inr out ↦ inr (λ h. elim h [ inl e ↦ ne e | inr i ↦ out i ])
  ]
]
