-- ===== src/RbTree/Sorted.antt =====
-- `rbtree_lookup` (util/index/rbtree/rbtree.c) against a search of the sorted list of its entries.
use ktable_fs.Base.{
  ◌≡◌, refl, sym, ap, ◌∙◌, inl, inr, true, Bool-cases, Option, none, some, List, [], ◌∷◌, ◌++◌, All,
  All-append, All-append_left, All-append_right, if◌then◌else◌,
}
use ktable_fs.RbTree.{Keys, Tree, nil, node, key_less, key_equal, lookup}
use ktable_fs.RbTree.Entries.{entries}
use ktable_fs.RbTree.Order.{
  KeyLaws, key_less_trans, key_less-total, key_less-not_equal, key_less-not_equal_swap,
  key_less-equal,
}

pub All-map_to {ℓ κ μ} :
    {A : Type ℓ} (P : A → Type κ) (Q : A → Type μ)
    → ((a : A) → P a → Q a)
    → (xs : List A) → All P xs
    → All Q xs
All-map_to P Q f [] h = tt
All-map_to P Q f (x ∷ xs) h = (f x h.0, All-map_to P Q f xs h.1)

module _ (ks : Keys) {V : Type 0} where
  open ks use {Key}

  abbrev pub Below : Key → Key × V → Type 0
  Below key e = key_less ks e.0 key ≡ true

  abbrev pub Above : Key → Key × V → Type 0
  Above key e = key_less ks key e.0 ≡ true

  -- Strictly increasing keys.
  abbrev pub IsSorted : List (Key × V) → Type 0
  IsSorted [] = Unit
  IsSorted (e ∷ es) = All (Above e.0) es × IsSorted es

  -- The value of the first entry with an equal key.
  abbrev pub search : Key → List (Key × V) → Option V
  search key [] = none
  search key (e ∷ es) = if key_equal ks key e.0 then some e.1 else search key es

  pub IsSorted-left : (xs ys : List (Key × V)) → IsSorted (xs ++ ys) → IsSorted xs
  IsSorted-left [] ys h = tt
  IsSorted-left (x ∷ xs) ys h = (All-append_left (Above x.0) xs ys h.0, IsSorted-left xs ys h.1)

  pub IsSorted-right : (xs ys : List (Key × V)) → IsSorted (xs ++ ys) → IsSorted ys
  IsSorted-right [] ys h = h
  IsSorted-right (x ∷ xs) ys h = IsSorted-right xs ys h.1

  pub IsSorted-Below :
      (xs : List (Key × V)) (e : Key × V) (ys : List (Key × V))
      → IsSorted (xs ++ (e ∷ ys))
      → All (Below e.0) xs
  IsSorted-Below [] e ys h = tt
  IsSorted-Below (x ∷ xs) e ys h =
      ((All-append_right (Above x.0) xs (e ∷ ys) h.0).0, IsSorted-Below xs e ys h.1)

  pub IsSorted-insert :
      (xs : List (Key × V)) (e : Key × V) (ys : List (Key × V))
      → IsSorted (xs ++ ys)
      → All (Below e.0) xs
      → All (Above e.0) ys
      → IsSorted (xs ++ (e ∷ ys))
  IsSorted-insert [] e ys h b a = (a, h)
  IsSorted-insert (x ∷ xs) e ys h b a = (
    All-append (Above x.0) xs (e ∷ ys) (All-append_left (Above x.0) xs ys h.0)
        (b.0, All-append_right (Above x.0) xs ys h.0),
    IsSorted-insert xs e ys h.1 b.1 a,
  )

  module _ (laws : KeyLaws ks) where
    pub Above-trans :
        (a b : Key) (es : List (Key × V))
        → key_less ks a b ≡ true
        → All (Above b) es
        → All (Above a) es
    Above-trans a b es less =
        All-map_to (Above b) (Above a) (λ e h. key_less_trans ks laws a b e.0 less h) es

    pub Below-trans :
        (a b : Key) (es : List (Key × V))
        → key_less ks a b ≡ true
        → All (Below a) es
        → All (Below b) es
    Below-trans a b es less =
        All-map_to (Below a) (Below b) (λ e h. key_less_trans ks laws e.0 a b h less) es

    pub search-Below :
        (key : Key) (xs ys : List (Key × V))
        → All (Below key) xs
        → search key (xs ++ ys) ≡ search key ys
    search-Below key [] ys h = refl
    search-Below key (x ∷ xs) ys h =
        rw (key_less-not_equal_swap ks laws x.0 key h.0) (search-Below key xs ys h.1)

    pub search-Above :
        (key : Key) (xs ys : List (Key × V))
        → All (Above key) ys
        → search key (xs ++ ys) ≡ search key xs
    search-Above key [] [] h = refl
    search-Above key [] (y ∷ ys) h =
        rw (key_less-not_equal ks laws key y.0 h.0) (search-Above key [] ys h.1)
    search-Above key (x ∷ xs) ys h =
        ap (λ o. if key_equal ks key x.0 then some x.1 else o) (search-Above key xs ys h)

    -- `rbtree_lookup` finds what a search from the left to the right finds.
    pub lookup-search :
        (t : Tree Key V) (key : Key)
        → IsSorted (entries t)
        → lookup ks t key ≡ search key (entries t)
    unfolding lookup
    lookup-search nil key h = refl
    lookup-search (node c l k v r) key h =
        let below = IsSorted-Below (entries l) (k, v) (entries r) h in
        let (above, sorted_r) = IsSorted-right (entries l) ((k, v) ∷ entries r) h in
        let sorted_l = IsSorted-left (entries l) ((k, v) ∷ entries r) h in
        elim (Bool-cases (key_less ks key k)) [
          | inl less ↦
              rw (lookup, less)
                (lookup-search l key sorted_l
                  ∙ sym (
                      search-Above key (entries l) ((k, v) ∷ entries r)
                        (less, Above-trans key k (entries r) less above)))
          | inr not_less ↦ elim (Bool-cases (key_equal ks key k)) [
            | inl equal ↦
                rw
                  (
                    lookup,
                    not_less,
                    equal,
                    search-Below key (entries l) ((k, v) ∷ entries r) (
                        All-map_to (Below k) (Below key)
                          (λ e less. key_less-equal ks laws key k e.0 equal less) (entries l)
                          below),
                    equal,
                  )
                  refl
            | inr not_equal ↦
                let greater = key_less-total ks laws key k not_less not_equal in
                rw
                  (
                    lookup,
                    not_less,
                    not_equal,
                    search-Below key (entries l) ((k, v) ∷ entries r)
                        (Below-trans k key (entries l) greater below),
                    not_equal,
                  )
                  (lookup-search r key sorted_r)
          ]
        ]
