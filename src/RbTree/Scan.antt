-- ===== src/RbTree/Scan.antt =====
-- `rbtree_scan` (util/index/rbtree/rbtree.c) against the entries whose keys lie in the range.
use mathlib.Core.List.{append-nil, Perm, perm_middle}
use mathlib.Core.List.Perm
use ktable_fs.Base.{
  ◌≡◌, refl, inl, inr, Bool, false, Bool-cases, List, [], ◌∷◌, ◌++◌, All, if◌then◌else◌,
}
use ktable_fs.RbTree.{Keys, Tree, nil, node, key_less, scan}
use ktable_fs.RbTree.Entries.{entries}
use ktable_fs.RbTree.Order.{KeyLaws, key_less_trans, greater_or_equal}
use ktable_fs.RbTree.Sorted.{
  Above, Below, IsSorted, IsSorted-left, IsSorted-right, IsSorted-Below, Below-trans, All-map_to,
}

module _ (ks : Keys) where
  -- Not below the least key, and below the greatest.
  abbrev pub in_range : ks.Key → ks.Key → ks.Key → Bool
  in_range min_key max_key k = if key_less ks k min_key then false else key_less ks k max_key

module _ (ks : Keys) {V : Type 0} where
  open ks use {Key}

  abbrev pub range : Key → Key → List (Key × V) → List (Key × V)
  range min_key max_key [] = []
  range min_key max_key (e ∷ es) =
      if in_range ks min_key max_key e.0
      then e ∷ range min_key max_key es
      else range min_key max_key es

  range-append :
      (a b : Key) (xs ys : List (Key × V)) → range a b (xs ++ ys) ≡ range a b xs ++ range a b ys
  range-append a b [] ys = refl
  range-append a b (x ∷ xs) ys = elim (Bool-cases (in_range ks a b x.0)) [
    | inl t ↦ rw (t, range-append a b xs ys) refl
    | inr f ↦ rw (f, range-append a b xs ys) refl
  ]

  -- Keys below the least one, and keys that are not below the greatest.
  range-low : (a b : Key) (xs : List (Key × V)) → All (Below ks a) xs → range a b xs ≡ []
  range-low a b [] h = refl
  range-low a b (x ∷ xs) h = rw h.0 (range-low a b xs h.1)

  abbrev NotBelow : Key → Key × V → Type 0
  NotBelow b e = key_less ks e.0 b ≡ false

  range-high : (a b : Key) (xs : List (Key × V)) → All (NotBelow b) xs → range a b xs ≡ []
  range-high a b [] h = refl
  range-high a b (x ∷ xs) h = elim (Bool-cases (key_less ks x.0 a)) [
    | inl t ↦ rw t (range-high a b xs h.1)
    | inr f ↦ rw (f, h.0) (range-high a b xs h.1)
  ]

  module _ (laws : KeyLaws ks) where
    Above-NotBelow :
        (k b : Key) → key_less ks k b ≡ false → (e : Key × V) → Above ks k e → NotBelow b e
    Above-NotBelow k b h e above = elim (Bool-cases (key_less ks e.0 b)) [
      | inl t ↦ let less = key_less_trans ks laws k e.0 b above t in cc
      | inr f ↦ f
    ]

    -- `rbtree_scan` calls `scan` once for each entry of a sorted tree whose key is in the range, the
    -- least key included and the greatest one not, in some order.
    pub scan-Perm :
        (t : Tree Key V) (a b : Key)
        → IsSorted ks (entries t)
        → Perm (scan ks t a b) (range a b (entries t))
    unfolding scan
    scan-Perm nil a b h = Perm.refl []
    scan-Perm (node c l k v r) a b h =
        let below = IsSorted-Below ks (entries l) (k, v) (entries r) h in
        let (above, sorted_r) = IsSorted-right ks (entries l) ((k, v) ∷ entries r) h in
        let sorted_l = IsSorted-left ks (entries l) ((k, v) ∷ entries r) h in
        elim (Bool-cases (key_less ks k a)) [
          | inl low ↦
              rw
                (
                  scan,
                  low,
                  range-append a b (entries l) ((k, v) ∷ entries r),
                  low,
                  range-low a b (entries l) (Below-trans ks laws k a (entries l) low below),
                )
                (scan-Perm r a b sorted_r)
          | inr not_low ↦ elim (Bool-cases (key_less ks k b)) [
            | inl inside ↦
                rw
                  (
                    scan,
                    not_low,
                    greater_or_equal ks laws k b,
                    inside,
                    range-append a b (entries l) ((k, v) ∷ entries r),
                    not_low,
                    inside,
                  )
                  (Perm.symm (
                    Perm.trans (perm_middle (range a b (entries l)) (range a b (entries r))) (
                      Perm.cons (k, v)
                        (Perm.symm
                          (Perm.append (scan-Perm l a b sorted_l) (scan-Perm r a b sorted_r))))))
            | inr high ↦
                rw
                  (
                    scan,
                    not_low,
                    greater_or_equal ks laws k b,
                    high,
                    range-append a b (entries l) ((k, v) ∷ entries r),
                    not_low,
                    high,
                    range-high a b (entries r) (
                        All-map_to (Above ks k) (NotBelow b) (Above-NotBelow k b high) (entries r)
                          above),
                    append-nil (range a b (entries l)),
                  )
                  (scan-Perm l a b sorted_l)
          ]
        ]
