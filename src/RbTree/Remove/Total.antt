-- ===== src/RbTree/Remove/Total.antt =====
-- What `rbtree_remove` (util/index/rbtree/rbtree.c) leaves for `rbtree_lookup`.
use mathlib.Core.Path.{subst}
use mathlib.Core.List.{append_assoc, append-nil}
use ktable_fs.Base.{
  ℕ, ◌≡◌, refl, sym, ap, ◌∙◌, inl, inr, Bool, true, false, not, Bool-cases, Option, none, some,
  List, [], ◌∷◌, ◌++◌, ok, All-append, All-append_left, All-append_right, if◌then◌else◌, Ensures,
  Ensures-bind, Ensures-ok, Ensures-map, u64, ◌+◌,
}
use ktable_fs.RbTree.{
  Keys, Color, Tree, nil, node, Frame, left, right, Rbtree, key_less, key_equal, lookup, valid,
}
use ktable_fs.RbTree.Entries.{entries, before, after}
use ktable_fs.RbTree.Order.{KeyLaws, key_less-equal, key_less-equal_left, key_equal_cong}
use ktable_fs.RbTree.Sorted.{
  Below, Above, IsSorted, search, IsSorted-right, IsSorted-Below, lookup-search, search-Below,
  search-Above, All-map_to,
}
use ktable_fs.RbTree.Inserted.{search-new, is_none}
use ktable_fs.RbTree.Remove.{delete_node, remove_below, remove}
use ktable_fs.RbTree.Remove.Contents.{Without, delete_node-Without}
use ktable_fs.RbTree.Remove.Removed.{remove-valid}

module _ (ks : Keys) {V : Type 0} where
  open ks use {Key}

  -- The tree without one entry with an equal key, or none because there is no such entry.
  abbrev Taken : Key → Tree Key V → List (Frame Key V) → Option (Tree Key V) → Type 0
  Taken key t path none = lookup ks t key ≡ none
  Taken key t path (some root) =
      (xs : List (Key × V)) × (e : Key × V) × (ys : List (Key × V)) × (key_equal ks key e.0 ≡ true)
      × (entries t ≡ xs ++ (e ∷ ys))
      × (entries root ≡ before path ++ ((xs ++ ys) ++ after path))

  Taken-left :
      (key : Key) (c : Color) (l : Tree Key V) (k : Key) (v : V) (r : Tree Key V)
      (path : List (Frame Key V))
      → key_less ks key k ≡ true
      → (o : Option (Tree Key V)) → Taken key l (left c k v r ∷ path) o
      → Taken key (node c l k v r) path o
  unfolding lookup
  Taken-left key c l k v r path less none h = rw (lookup, less) h
  Taken-left key c l k v r path less (some root) (xs, e, ys, equal, split, now) = (
    xs,
    e,
    ys ++ ((k, v) ∷ entries r),
    equal,
    rw split (append_assoc xs (e ∷ ys) ((k, v) ∷ entries r)),
    now ∙ simp append_assoc,
  )

  Taken-right :
      (key : Key) (c : Color) (l : Tree Key V) (k : Key) (v : V) (r : Tree Key V)
      (path : List (Frame Key V))
      → key_less ks key k ≡ false
      → key_equal ks key k ≡ false
      → (o : Option (Tree Key V)) → Taken key r (right c l k v ∷ path) o
      → Taken key (node c l k v r) path o
  unfolding lookup
  Taken-right key c l k v r path not_less not_equal none h = rw (lookup, not_less, not_equal) h
  Taken-right key c l k v r path not_less not_equal (some root) (xs, e, ys, equal, split, now) = (
    entries l ++ ((k, v) ∷ xs),
    e,
    ys,
    equal,
    rw split (sym (append_assoc (entries l) ((k, v) ∷ xs) (e ∷ ys))),
    now ∙ simp append_assoc,
  )

  remove_below-Taken :
      (key : Key) (t : Tree Key V) (path : List (Frame Key V))
      → Ensures (Taken key t path) (remove_below ks key t path)
  unfolding remove_below lookup
  remove_below-Taken key nil path = refl
  remove_below-Taken key (node c l k v r) path = elim (Bool-cases (key_less ks key k)) [
    | inl less ↦
        rw (remove_below, less)
          (Ensures-map (Taken key l (left c k v r ∷ path)) (Taken key (node c l k v r) path)
            (remove_below ks key l (left c k v r ∷ path)) (Taken-left key c l k v r path less)
            (remove_below-Taken key l (left c k v r ∷ path)))
    | inr not_less ↦ elim (Bool-cases (key_equal ks key k)) [
      | inl equal ↦
          rw (remove_below, not_less, equal)
            (Ensures-bind (Without l r path) (Taken key (node c l k v r) path)
              (delete_node c l k v r path) _ (delete_node-Without c l k v r path)
              (λ root e. (entries l, (k, v), entries r, equal, refl, e)))
      | inr not_equal ↦
          rw (remove_below, not_less, not_equal)
            (Ensures-map (Taken key r (right c l k v ∷ path)) (Taken key (node c l k v r) path)
              (remove_below ks key r (right c l k v ∷ path))
              (Taken-right key c l k v r path not_less not_equal)
              (remove_below-Taken key r (right c l k v ∷ path)))
    ]
  ]

  IsSorted-without :
      (xs : List (Key × V)) (e : Key × V) (ys : List (Key × V))
      → IsSorted ks (xs ++ (e ∷ ys))
      → IsSorted ks (xs ++ ys)
  IsSorted-without [] e ys h = h.1
  IsSorted-without (x ∷ xs) e ys h = (
    All-append (Above ks x.0) xs ys (All-append_left (Above ks x.0) xs (e ∷ ys) h.0)
        (All-append_right (Above ks x.0) xs (e ∷ ys) h.0).1,
    IsSorted-without xs e ys h.1,
  )

  -- The tree after a removal.
  pub record Removed (t : Rbtree Key V) (key : Key) (r : Bool × Rbtree Key V) : Type 0 where
    pub found : r.0 ≡ not (is_none (lookup ks t.root key))
    pub sorted : IsSorted ks (entries r.1.root)
    pub others :
        (other : Key)
        → lookup ks r.1.root other ≡ (
            if r.0
            then (if key_equal ks other key then none else lookup ks t.root other)
            else lookup ks t.root other)

  module _ (laws : KeyLaws ks) where
    -- A key that is equal to that of the entry between smaller and greater ones is not among them.
    search-without :
        (other : Key) (xs : List (Key × V)) (e : Key × V) (ys : List (Key × V))
        → IsSorted ks (xs ++ (e ∷ ys))
        → search ks other (xs ++ ys)
          ≡ (if key_equal ks other e.0 then none else search ks other (xs ++ (e ∷ ys)))
    search-without other xs e ys h =
        let below = IsSorted-Below ks xs e ys h in
        let (above, sorted) = IsSorted-right ks xs (e ∷ ys) h in
        elim (Bool-cases (key_equal ks other e.0)) [
          | inl equal ↦ rw equal (
              search-Below ks laws other xs ys (
                All-map_to (Below ks e.0) (Below ks other)
                  (λ a less. key_less-equal ks laws other e.0 a.0 equal less) xs below)
              ∙ search-Above ks laws other [] ys (
                  All-map_to (Above ks e.0) (Above ks other)
                    (λ a less. key_less-equal_left ks laws other e.0 a.0 equal less) ys above))
          | inr not_equal ↦ rw (not_equal, search-new ks laws other xs e ys below, not_equal) refl
        ]

    Taken-Removed :
        (t : Rbtree Key V) (key : Key) (root : Tree Key V) (size : ℕ)
        → IsSorted ks (entries t.root)
        → Taken key t.root [] (some root)
        → Removed t key (true, record { root = root; size = size })
    Taken-Removed t key root size h (xs, e, ys, equal, split, now) =
        let all_sorted = subst (IsSorted ks) split h in
        let below = IsSorted-Below ks xs e ys all_sorted in
        let here : entries root ≡ xs ++ ys = now ∙ append-nil (xs ++ ys) in
        let sorted : IsSorted ks (entries root) = rw here (IsSorted-without xs e ys all_sorted) in
        let old : (other : Key) → lookup ks t.root other ≡ search ks other (xs ++ (e ∷ ys)) =
          λ other. lookup-search ks laws t.root other h ∙ ap (search ks other) split in
        record {
          found = rw (old key, search-new ks laws key xs e ys below, equal) refl;
          sorted = sorted;
          others = λ other.
              rw
                (
                  lookup-search ks laws root other sorted,
                  here,
                  search-without other xs e ys all_sorted,
                  old other,
                  key_equal_cong ks laws key e.0 other equal,
                )
                refl;
        }

    option-Removed :
        (t : Rbtree Key V) (key : Key) (o : Option (Tree Key V))
        → IsSorted ks (entries t.root)
        → Taken key t.root [] o
        → Ensures (Removed t key) (elim o [
          | none ↦ ok (false, t)
          | some root ↦
              ok (true, record { root = root; size = u64 (t.size + 18446744073709551615) })
        ])
    option-Removed t key none h e = record { found = rw e refl; sorted = h; others = λ other. refl }
    option-Removed t key (some root) h taken = Taken-Removed t key root _ h taken

    remove-Removed :
        (t : Rbtree Key V) (key : Key)
        → IsSorted ks (entries t.root)
        → Ensures (Removed t key) (remove ks t key)
    unfolding remove
    remove-Removed t key h =
        Ensures-bind (Taken key t.root []) (Removed t key) (remove_below ks key t.root []) _
          (remove_below-Taken key t.root []) (λ o taken. option-Removed t key o h taken)

    -- `rbtree_remove` on a tree that passes the checks of a debug build and whose entries are sorted
    -- returns, through no null pointer and with an end to the loop that mends the colors, and the tree
    -- passes the checks again. The result says whether look-up found something for the key before;
    -- the entries are sorted; and look-up finds nothing any more for an equal key, if there was one,
    -- and what it found before for every other key. The comparison of keys is a total order.
    pub remove-total :
        (t : Rbtree Key V) (key : Key) (n : ℕ)
        → valid t.root ≡ ok n
        → IsSorted ks (entries t.root)
        → (r : Bool × Rbtree Key V) × (remove ks t key ≡ ok r)
          × ((m : ℕ) × (valid r.1.root ≡ ok m))
          × Removed t key r
    remove-total t key n h sorted =
        let (found, (t', (e, m))) = remove-valid ks t key n h in
        (
          (found, t'),
          e,
          m,
          Ensures-ok (Removed t key) (remove ks t key) e (remove-Removed t key sorted),
        )
