-- ===== src/RbTree/Placed.antt =====
-- `rbtree_insert` (util/index/rbtree/rbtree.c) keeps the tree balanced: what `rb_valid` checks.
use mathlib.Core.Path.{subst}
use ktable_fs.Base.{
  ◌⊎◌, Option-cases, ℕ, ◌+◌, ◌≡◌, refl, Bool, true, false, Option, none, some, List, [], ◌∷◌, inl,
  inr, ok, u64,
}
use ktable_fs.RbTree.{
  Keys, find_place, insert, key_less, key_equal, Rbtree, black, red, Tree, nil, node, Frame, left,
  right, color_of, valid,
}
use ktable_fs.RbTree.Balance.{IsBalanced, HeadBlack, PathBalanced, red≢black, fixup-BlackRoot}
use ktable_fs.RbTree.Valid.{valid-BlackRoot, BlackRoot-valid}

-- What holds of the place for a key, if there is one.
abbrev pub Place {ℓ κ} : {A : Type ℓ} → (A → Type κ) → Option A → Type κ
Place P none = Unit
Place P (some a) = P a

-- One step of the descent, on either result of either test.
pub step-Place {ℓ κ} :
    {A : Type ℓ} (P : A → Type κ) (less equal : Bool) (x y : Option A)
    → (less ≡ true → Place P x)
    → (less ≡ false → equal ≡ false → Place P y)
    → Place P (elim less [ true ↦ x | false ↦ elim equal [ true ↦ none | false ↦ y ] ])
step-Place P true equal x y h k = h refl
step-Place P false true x y h k = tt
step-Place P false false x y h k = k refl refl

module _ (ks : Keys) {V : Type 0} where
  open ks use {Key, prefix, key_cmp}

  abbrev PlaceBalanced : List (Frame Key V) → Type 0
  PlaceBalanced path = PathBalanced path 1

  -- The place for a key is under balanced parents.
  find_place-PathBalanced :
      (key : Key) (t : Tree Key V) (path : List (Frame Key V)) (n : ℕ)
      → IsBalanced t n
      → PathBalanced path n
      → ((color_of t ≡ black) ⊎ HeadBlack path)
      → Place PlaceBalanced (find_place ks key t path)
  unfolding find_place
  find_place-PathBalanced key nil path n h p c = subst (PathBalanced path) h p
  find_place-PathBalanced key (node black l k v r) path n (m, n≡, hl, hr) p c =
      let p' = subst (PathBalanced path) n≡ p in
      step-Place PlaceBalanced (key_less ks key k) (key_equal ks key k) _ _
        (λ e. find_place-PathBalanced key l (left black k v r ∷ path) m hl (hr, p') (inr refl))
        (λ e e'. find_place-PathBalanced key r (right black l k v ∷ path) m hr (hl, p') (inr refl))
  find_place-PathBalanced key (node red l k v r) path n h p (inl c) = absurd (red≢black c)
  find_place-PathBalanced key (node red l k v r) path n (hl, hr, bl, br) p (inr c) =
      step-Place PlaceBalanced (key_less ks key k) (key_equal ks key k) _ _
        (λ e. find_place-PathBalanced key l (left red k v r ∷ path) n hl (hr, br, c, p) (inl bl))
        (λ e e'.
          find_place-PathBalanced key r (right red l k v ∷ path) n hr (hl, bl, c, p) (inl br))

  -- `rbtree_insert` on a tree that passes the checks of a debug build returns, through no null
  -- pointer, and the tree that it leaves passes them.
  pub insert-valid :
      (t : Rbtree Key V) (key : Key) (value : V) (n : ℕ)
      → valid t.root ≡ ok n
      → (is_new : Bool) × ((t' : Rbtree Key V) × ((insert ks t key value ≡ ok (is_new, t'))
            × ((m : ℕ) × (valid t'.root ≡ ok m))))
  unfolding insert
  insert-valid t key value n h =
      let (b, (m, balanced)) = valid-BlackRoot t.root n h in
      let place = find_place-PathBalanced key t.root [] m balanced tt (inl b) in
      elim (Option-cases (find_place ks key t.root [])) [
        | inl none_e ↦ (false, (t, (rw (insert, none_e) refl, (n, h))))
        | inr (path, e) ↦
            let (root, fixed, (b', (m', balanced'))) =
              fixup-BlackRoot nil key value nil path 1 (refl, refl, refl, refl)
                (subst (Place PlaceBalanced) e place) in
            (
              true,
              (
                record { root = root; size = u64 (t.size + 1) },
                (rw (insert, e, fixed) refl, (m', BlackRoot-valid root m' b' balanced')),
              ),
            )
      ]
