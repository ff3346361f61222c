-- ===== src/RbTree/Inserted.antt =====
-- `rbtree_insert` (util/index/rbtree/rbtree.c) and what `rbtree_lookup` finds after it.
use mathlib.Core.Path.{subst}
use ktable_fs.Base.{
  ℕ, ◌≡◌, refl, sym, ap, ◌∙◌, inl, inr, Bool, true, false, Bool-cases, Option, none, some,
  Option-cases, List, [], ◌∷◌, ◌++◌, ok, All, All-append, if◌then◌else◌, Ensures, Ensures-bind,
  Ensures-ok, u64, ◌+◌,
}
use ktable_fs.RbTree.{
  Keys, Tree, nil, node, Frame, left, right, plug, Rbtree, key_less, key_equal, find_place, insert,
  insert_fixup, lookup, red, valid,
}
use ktable_fs.RbTree.Placed.{insert-valid, Place, step-Place}
use ktable_fs.RbTree.Entries.{entries, before, after, plug-entries, insert_fixup-Same, Same}
use ktable_fs.RbTree.Order.{KeyLaws, key_less-total, key_less-not_equal_swap, key_less-equal}
use ktable_fs.RbTree.Sorted.{
  Below, Above, IsSorted, search, IsSorted-left, IsSorted-right, IsSorted-Below, IsSorted-insert,
  Above-trans, Below-trans, lookup-search,
}

abbrev pub is_none {ℓ} : {A : Type ℓ} → Option A → Bool
is_none none = true
is_none (some v) = false

module _ (ks : Keys) (laws : KeyLaws ks) {V : Type 0} where
  open ks use {Key}

  -- The entries on either side of the place for a key are smaller and greater.
  abbrev Around : Key → List (Frame Key V) → Type 0
  Around key path = All (Below ks key) (before path) × All (Above ks key) (after path)

  find_place-Around :
      (key : Key) (t : Tree Key V) (path : List (Frame Key V))
      → IsSorted ks (entries t)
      → Around key path
      → Place (Around key) (find_place ks key t path)
  unfolding find_place
  find_place-Around key nil path h p = p
  find_place-Around key (node c l k v r) path h p =
      let below = IsSorted-Below ks (entries l) (k, v) (entries r) h in
      let (above, sorted_r) = IsSorted-right ks (entries l) ((k, v) ∷ entries r) h in
      let sorted_l = IsSorted-left ks (entries l) ((k, v) ∷ entries r) h in
      step-Place (Around key) (key_less ks key k) (key_equal ks key k) _ _
        (λ less. find_place-Around key l (left c k v r ∷ path) sorted_l (
          p.0,
          All-append (Above ks key) ((k, v) ∷ entries r) (after path)
              (less, Above-trans ks laws key k (entries r) less above) p.1,
        ))
        (λ not_less not_equal.
          let greater = key_less-total ks laws key k not_less not_equal in
          find_place-Around key r (right c l k v ∷ path) sorted_r (
            All-append (Below ks key) (before path) (entries l ++ ((k, v) ∷ [])) p.0 (
                All-append (Below ks key) (entries l) ((k, v) ∷ [])
                  (Below-trans ks laws k key (entries l) greater below) (greater, tt)),
            p.1,
          ))

  -- The place is under the tree that was searched.
  find_place-same :
      (key : Key) (t : Tree Key V) (path : List (Frame Key V))
      → Place (λ path'. plug path' nil ≡ plug path t) (find_place ks key t path)
  unfolding find_place
  find_place-same key nil path = refl
  find_place-same key (node c l k v r) path =
      step-Place (λ path'. plug path' nil ≡ plug path (node c l k v r)) (key_less ks key k)
        (key_equal ks key k) _ _ (λ e. find_place-same key l (left c k v r ∷ path))
        (λ e e'. find_place-same key r (right c l k v ∷ path))

  -- There is a place where look-up finds nothing.
  find_place-lookup :
      (key : Key) (t : Tree Key V) (path : List (Frame Key V))
      → elim (find_place ks key t path) [ none ↦ false | some p ↦ true ] ≡ is_none (lookup ks t key)
  unfolding find_place lookup
  find_place-lookup key nil path = refl
  find_place-lookup key (node c l k v r) path = elim (Bool-cases (key_less ks key k)) [
    | inl less ↦ rw (find_place, lookup, less) (find_place-lookup key l (left c k v r ∷ path))
    | inr not_less ↦ elim (Bool-cases (key_equal ks key k)) [
      | inl equal ↦ rw (find_place, lookup, not_less, equal) refl
      | inr not_equal ↦
          rw (find_place, lookup, not_less, not_equal)
            (find_place-lookup key r (right c l k v ∷ path))
    ]
  ]

  pub search-new :
      (other : Key) (xs : List (Key × V)) (e : Key × V) (ys : List (Key × V))
      → All (Below ks e.0) xs
      → search ks other (xs ++ (e ∷ ys))
        ≡ (if key_equal ks other e.0 then some e.1 else search ks other (xs ++ ys))
  search-new other [] e ys b = refl
  search-new other (x ∷ xs) e ys b = elim (Bool-cases (key_equal ks other e.0)) [
    | inl equal ↦
        rw
          (
            key_less-not_equal_swap ks laws x.0 other
                (key_less-equal ks laws other e.0 x.0 equal b.0),
            search-new other xs e ys b.1,
            equal,
          )
          refl
    | inr not_equal ↦
        let same : search ks other (xs ++ (e ∷ ys)) ≡ search ks other (xs ++ ys) =
          search-new other xs e ys b.1 ∙ rw not_equal refl in
        rw (not_equal, same) refl
  ]

  -- The tree after an insertion: `is_new` says that look-up found nothing before, the entries are
  -- sorted, and look-up finds the new entry, if there is one, for an equal key and what it found
  -- before for every other key.
  pub record Inserted (t : Rbtree Key V) (key : Key) (value : V) (r : Bool × Rbtree Key V)
      : Type 0 where
    pub new : r.0 ≡ is_none (lookup ks t.root key)
    pub sorted : IsSorted ks (entries r.1.root)
    pub found :
        (other : Key)
        → lookup ks r.1.root other ≡ (
            if r.0
            then (if key_equal ks other key then some value else lookup ks t.root other)
            else lookup ks t.root other)

  -- The place `path` for a new key, and a tree that holds the new entry there.
  placed-Inserted :
      (t : Rbtree Key V) (key : Key) (value : V) (path : List (Frame Key V)) (root : Tree Key V)
      → IsSorted ks (entries t.root)
      → find_place ks key t.root [] ≡ some path
      → Same (plug path (node red nil key value nil)) root
      → Inserted t key value (true, record { root = root; size = u64 (t.size + 1) })
  placed-Inserted t key value path root h e same =
      let xs = before path in
      let ys = after path in
      let (below, above) =
        subst (Place (Around key)) e (find_place-Around key t.root [] h (tt, tt)) in
      let old : entries t.root ≡ xs ++ ys =
        ap entries
          (sym (subst (Place (λ p. plug p nil ≡ t.root)) e (find_place-same key t.root [])))
        ∙ plug-entries path nil in
      let now : entries root ≡ xs ++ ((key, value) ∷ ys) = same ∙ plug-entries path _ in
      let sorted : IsSorted ks (entries root) =
        rw now (IsSorted-insert ks xs (key, value) ys (subst (IsSorted ks) old h) below above) in
      record {
        new = sym (rw e refl) ∙ find_place-lookup key t.root [];
        sorted = sorted;
        found = λ other.
            lookup-search ks laws root other sorted
            ∙ (ap (search ks other) now
                ∙ (search-new other xs (key, value) ys below
                    ∙ ap (λ o. if key_equal ks other key then some value else o)
                        (sym (lookup-search ks laws t.root other h ∙ ap (search ks other) old))));
      }

  -- Whether the key is new or not.
  insert-Inserted :
      (t : Rbtree Key V) (key : Key) (value : V)
      → IsSorted ks (entries t.root)
      → Ensures (Inserted t key value) (insert ks t key value)
  unfolding insert
  insert-Inserted t key value h = elim (Option-cases (find_place ks key t.root [])) [
    | inl e ↦
        rw (insert, e)
          (record {
            new = sym (rw e refl) ∙ find_place-lookup key t.root [];
            sorted = h;
            found = λ other. refl;
          })
    | inr (path, e) ↦
        let z = node red nil key value nil in
        rw (insert, e)
          (Ensures-bind (Same (plug path z)) (Inserted t key value) (insert_fixup z path) _
            (insert_fixup-Same z path)
            (λ root same. placed-Inserted t key value path root h e same))
  ]

  -- `rbtree_insert` on a tree that passes the checks of a debug build and whose entries are sorted
  -- returns, through no null pointer, and the tree passes the checks again. The result says whether
  -- look-up found nothing for the key before; the entries are sorted; and look-up finds the new value
  -- for an equal key, if the key was new, and what it found before for every other key. The
  -- comparison of keys is a total order.
  pub insert-total :
      (t : Rbtree Key V) (key : Key) (value : V) (n : ℕ)
      → valid t.root ≡ ok n
      → IsSorted ks (entries t.root)
      → (r : Bool × Rbtree Key V) × (insert ks t key value ≡ ok r)
        × ((m : ℕ) × (valid r.1.root ≡ ok m))
        × Inserted t key value r
  insert-total t key value n h sorted =
      let (is_new, (t', (e, m))) = insert-valid ks t key value n h in
      (
        (is_new, t'),
        e,
        m,
        Ensures-ok (Inserted t key value) (insert ks t key value) e
            (insert-Inserted t key value sorted),
      )
