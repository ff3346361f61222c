-- ===== src/RbTree/Remove/Removed.antt =====
-- `rbtree_remove` (util/index/rbtree/rbtree.c) keeps the tree balanced: what `rb_valid` checks.
use mathlib.Core.Path.{subst}
use ktable_fs.Base.{
  ℕ, suc, ◌+◌, ◌≡◌, refl, sym, ◌⊎◌, inl, inr, Bool, true, false, Option, none, some, List, [], ◌∷◌,
  ◌++◌, length, Result, ok, arith, Bool-cases,
}
use ktable_fs.RbTree.{
  Keys, Color, black, red, Tree, nil, node, Frame, left, right, color_of, Rbtree, valid, key_less,
  key_equal,
}
use ktable_fs.RbTree.Placed.{Place}
use ktable_fs.RbTree.Valid.{valid-BlackRoot, BlackRoot-valid}
use ktable_fs.RbTree.Balance.{IsBalanced, HeadBlack, PathBalanced, BlackRoot, red≢black}
use ktable_fs.RbTree.Remove.{delete_fixup, mend_below, find_min, delete_node, remove_below, remove}
use ktable_fs.RbTree.Remove.Mended.{Mends, red-Mends, delete_fixup-Mends, plug-BlackRoot}

module _ {K V : Type 0} where
  -- The child of a node that was taken out, under the parents of that node.
  abbrev Hole : Color → Tree K V → List (Frame K V) → Type 0
  Hole black x path = (n : ℕ) × IsBalanced x n × PathBalanced path (suc n)
  Hole red x path = (n : ℕ) × IsBalanced x n × (color_of x ≡ black) × PathBalanced path n

  mend_below-Mends :
      (c : Color) (x : Tree K V) (path : List (Frame K V))
      → Hole c x path
      → Mends (mend_below c x path)
  unfolding mend_below
  mend_below-Mends red x path h = (_, refl, plug-BlackRoot path x h.0 h.3 h.1 h.2)
  mend_below-Mends black nil path h =
      delete_fixup-Mends (length path + 2) nil path h.0 (omega arith) refl h.1 h.2
  mend_below-Mends black (node black l k v r) path h =
      delete_fixup-Mends (length path + 2) (node black l k v r) path h.0 (omega arith) refl h.1 h.2
  mend_below-Mends black (node red l k v r) path (n, (hl, hr, bl, br), p) =
      let x = node red l k v r in
      let fuel : length path + 2 ≡ suc (length path + 1) = omega arith in
      subst (λ m. Mends (delete_fixup m x path)) (sym fuel)
        (red-Mends (length path + 1) x path (suc n) refl (n, refl, hl, hr) p)

  -- A node with a missing child is a hole for the other child.
  left_nil-Hole :
      (c : Color) (k : K) (v : V) (r : Tree K V) (path : List (Frame K V)) (n : ℕ)
      → IsBalanced (node c nil k v r) n
      → PathBalanced path n
      → Hole c r path
  left_nil-Hole black k v r path n (m, e, hl, hr) p = (m, hr, subst (PathBalanced path) e p)
  left_nil-Hole red k v r path n (hl, hr, bl, br) p = (n, hr, br, p)

  right_nil-Hole :
      (c : Color) (l : Tree K V) (k : K) (v : V) (path : List (Frame K V)) (n : ℕ)
      → IsBalanced (node c l k v nil) n
      → PathBalanced path n
      → Hole c l path
  right_nil-Hole black l k v path n (m, e, hl, hr) p = (m, hl, subst (PathBalanced path) e p)
  right_nil-Hole red l k v path n (hl, hr, bl, br) p = (n, hl, bl, p)

  -- The parents of a node: its own color is black or its parent is.
  abbrev Under : Tree K V → List (Frame K V) → Type 0
  Under t path =
      (n : ℕ) × IsBalanced t n × PathBalanced path n × ((color_of t ≡ black) ⊎ HeadBlack path)

  left-Under :
      (c : Color) (l : Tree K V) (k : K) (v : V) (r : Tree K V) (path : List (Frame K V))
      → Under (node c l k v r) path
      → Under l (left c k v r ∷ path)
  left-Under black l k v r path (n, (m, e, hl, hr), p, b) =
      (m, hl, (hr, subst (PathBalanced path) e p), inr refl)
  left-Under red l k v r path (n, (hl, hr, bl, br), p, inl b) = absurd (red≢black b)
  left-Under red l k v r path (n, (hl, hr, bl, br), p, inr b) = (n, hl, (hr, br, b, p), inl bl)

  -- Another key and value in the place of the node.
  right-Under :
      (c : Color) (l : Tree K V) (k k' : K) (v v' : V) (r : Tree K V) (path : List (Frame K V))
      → Under (node c l k v r) path
      → Under r (right c l k' v' ∷ path)
  right-Under black l k k' v v' r path (n, (m, e, hl, hr), p, b) =
      (m, hr, (hl, subst (PathBalanced path) e p), inr refl)
  right-Under red l k k' v v' r path (n, (hl, hr, bl, br), p, inl b) = absurd (red≢black b)
  right-Under red l k k' v v' r path (n, (hl, hr, bl, br), p, inr b) =
      (n, hr, (hl, bl, b, p), inl br)

  abbrev MinHole : List (Frame K V) → List (Frame K V) × Color × K × V × Tree K V → Type 0
  MinHole base (inner, c, k, v, x) = Hole c x (inner ++ base)

  -- Whatever the key and the value of the node are that the successor replaces.
  find_min-Hole :
      (c : Color) (l : Tree K V) (k : K) (v : V) (r : Tree K V) (inner base : List (Frame K V))
      → Under (node c l k v r) (inner ++ base)
      → MinHole base (find_min c l k v r inner)
  find_min-Hole c nil k v r inner base (n, h, p, b) = left_nil-Hole c k v r (inner ++ base) n h p
  find_min-Hole c (node d l' k' v' r') k v r inner base u =
      find_min-Hole d l' k' v' r' (left c k v r ∷ inner) base
        (left-Under c _ k v r (inner ++ base) u)

  delete_node-Mends :
      (c : Color) (l : Tree K V) (k : K) (v : V) (r : Tree K V) (path : List (Frame K V))
      → Under (node c l k v r) path
      → Mends (delete_node c l k v r path)
  unfolding delete_node
  delete_node-Mends c nil k v r path (n, h, p, b) =
      mend_below-Mends c r path (left_nil-Hole c k v r path n h p)
  delete_node-Mends c (node d l' k' v' r') k v nil path (n, h, p, b) =
      mend_below-Mends c (node d l' k' v' r') path (right_nil-Hole c _ k v path n h p)
  delete_node-Mends c (node d l' k' v' r') k v (node e m km vm n) path u =
      let q = find_min e m km vm n [] in
      let base = right c (node d l' k' v' r') q.2 q.3 ∷ path in
      mend_below-Mends q.1 q.4 (q.0 ++ base) (
        find_min-Hole e m km vm n [] base
          (right-Under c (node d l' k' v' r') k q.2 v q.3 (node e m km vm n) path u))

module _ (ks : Keys) {V : Type 0} where
  open ks use {Key}

  abbrev Cut : Result (Option (Tree Key V)) → Type 0
  Cut r = (o : Option (Tree Key V)) × (r ≡ ok o) × Place BlackRoot o

  remove_below-Cut :
      (key : Key) (t : Tree Key V) (path : List (Frame Key V))
      → Under t path
      → Cut (remove_below ks key t path)
  unfolding remove_below
  remove_below-Cut key nil path u = (none, refl, tt)
  remove_below-Cut key (node c l k v r) path u = elim (Bool-cases (key_less ks key k)) [
    | inl less ↦
        rw (remove_below, less)
          (remove_below-Cut key l (left c k v r ∷ path) (left-Under c l k v r path u))
    | inr not_less ↦ elim (Bool-cases (key_equal ks key k)) [
      | inl equal ↦
          let (t, e, b) = delete_node-Mends c l k v r path u in
          rw (remove_below, not_less, equal, e) (some t, refl, b)
      | inr not_equal ↦
          rw (remove_below, not_less, not_equal)
            (remove_below-Cut key r (right c l k v ∷ path) (right-Under c l k k v v r path u))
    ]
  ]

  abbrev Leaves : Result (Bool × Rbtree Key V) → Type 0
  Leaves r =
      (found : Bool) × ((t' : Rbtree Key V) × ((r ≡ ok (found, t'))
          × ((m : ℕ) × (valid t'.root ≡ ok m))))

  cut-Leaves :
      (t : Rbtree Key V) (key : Key) (o : Option (Tree Key V)) (n : ℕ)
      → valid t.root ≡ ok n
      → remove_below ks key t.root [] ≡ ok o
      → Place BlackRoot o
      → Leaves (remove ks t key)
  unfolding remove
  cut-Leaves t key none n h e b = rw (remove, e) (false, (t, (refl, (n, h))))
  cut-Leaves t key (some root) n h e (black_root, (m, balanced)) =
      rw (remove, e) (true, (_, (refl, (m, BlackRoot-valid root m black_root balanced))))

  -- `rbtree_remove` on a tree that passes the checks of a debug build returns, through no null pointer
  -- and with an end to the loop that mends the colors, and the tree that it leaves passes them.
  pub remove-valid :
      (t : Rbtree Key V) (key : Key) (n : ℕ)
      → valid t.root ≡ ok n
      → (found : Bool) × ((t' : Rbtree Key V) × ((remove ks t key ≡ ok (found, t'))
            × ((m : ℕ) × (valid t'.root ≡ ok m))))
  remove-valid t key n h =
      let (b, (m, balanced)) = valid-BlackRoot t.root n h in
      let (o, e, black_root) = remove_below-Cut key t.root [] (m, balanced, tt, inl b) in
      cut-Leaves t key o n h e black_root
