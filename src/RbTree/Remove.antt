-- ===== src/RbTree/Remove.antt =====
-- `rbtree_remove` (util/index/rbtree/rbtree.c): the node, its successor and the loop that mends the colors.
pub mod Steps
pub mod Mended
pub mod Removed
pub mod Contents
pub mod Total
use ktable_fs.Base.{
  ℕ, zero, suc, ◌+◌, ◌*◌, Bool, true, false, Option, none, some, List, [], ◌∷◌, ◌++◌, length, ◌&&◌,
  if◌then◌else◌, Result, ok, fault, null_pointer, hangs, ◌>>=◌, u64,
}
use ktable_fs.RbTree.{
  Keys, Color, black, red, is_black, Tree, nil, node, Frame, left, right, color_of, plug, paint,
  left_rotate, right_rotate, Rbtree, key_less, key_equal,
}

-- After one round `x` is the parent, or the root because nothing is left to mend.
pub data Step (K V : Type 0) : Type 0 where
  up : Tree K V → Step K V
  closed : Tree K V → Step K V

module _ {K V : Type 0} where
  -- `w->color = x->parent->color` and the far child of `w` black.
  abbrev pub take_left : Color → Tree K V → Tree K V
  take_left c nil = nil
  take_left c (node d l k v r) = node c l k v (paint black r)

  abbrev pub take_right : Color → Tree K V → Tree K V
  take_right c nil = nil
  take_right c (node d l k v r) = node c (paint black l) k v r

  -- The sibling `w` is black: `x` is the left, then the right child of a parent with color `c`. The
  -- children of `T->nil` are null pointers.
  unfoldable pub black_left : Color → Tree K V → K → V → Tree K V → Result (Step K V)
  unfolding left_rotate right_rotate
  black_left c x k v nil = fault null_pointer
  black_left c x k v (node d wl wk wv wr) =
      if is_black (color_of wl) && is_black (color_of wr)
      then ok (up (node c x k v (node red wl wk wv wr)))
      else (do
        w ←
            if is_black (color_of wr)
            then right_rotate (node red (paint black wl) wk wv wr)
            else ok (node d wl wk wv wr)
        t ← left_rotate (node black x k v (take_left c w))
        ok (closed t))

  unfoldable pub black_right : Color → Tree K V → K → V → Tree K V → Result (Step K V)
  unfolding left_rotate right_rotate
  black_right c nil k v x = fault null_pointer
  black_right c (node d wl wk wv wr) k v x =
      if is_black (color_of wl) && is_black (color_of wr)
      then ok (up (node c (node red wl wk wv wr) k v x))
      else (do
        w ←
            if is_black (color_of wl)
            then left_rotate (node red wl wk wv (paint black wr))
            else ok (node d wl wk wv wr)
        t ← right_rotate (node black (take_right c w) k v x)
        ok (closed t))

  -- One round for a black `x`: a red sibling becomes the grandparent first, by a rotation.
  unfoldable pub mend :
      Tree K V → Frame K V → List (Frame K V) → Result (Step K V × List (Frame K V))
  unfolding black_left black_right
  mend x (left c k v nil) fs = do s ← black_left c x k v nil; ok (s, fs)
  mend x (left c k v (node black wl wk wv wr)) fs = do
    s ← black_left c x k v (node black wl wk wv wr)
    ok (s, fs)
  mend x (left c k v (node red wl wk wv wr)) fs = do
    s ← black_left red x k v wl
    ok (s, left black wk wv wr ∷ fs)
  mend x (right c nil k v) fs = do s ← black_right c nil k v x; ok (s, fs)
  mend x (right c (node black wl wk wv wr) k v) fs = do
    s ← black_right c (node black wl wk wv wr) k v x
    ok (s, fs)
  mend x (right c (node red wl wk wv wr) k v) fs = do
    s ← black_right red wr k v x
    ok (s, right black wl wk wv ∷ fs)

  -- `rb_delete_fixup`, on fuel.
  unfoldable pub delete_fixup : ℕ → Tree K V → List (Frame K V) → Result (Tree K V)
  unfolding mend
  delete_fixup zero x path = fault hangs
  delete_fixup (suc fuel) x [] = ok (paint black x)
  delete_fixup (suc fuel) x (f ∷ fs) = elim (color_of x) [
    | red ↦ ok (plug (f ∷ fs) (paint black x))
    | black ↦ do
      (s, rest) ← mend x f fs
      elim s [ up t ↦ delete_fixup fuel t rest | closed t ↦ ok (paint black (plug rest t)) ]
  ]

  -- `if (y_original_color == BLACK) rb_delete_fixup(T, x);`
  unfoldable pub mend_below : Color → Tree K V → List (Frame K V) → Result (Tree K V)
  unfolding delete_fixup
  mend_below red x path = ok (plug path x)
  mend_below black x path = delete_fixup (length path + 2) x path

  -- `find_min_node` and the first `transplant`: the parents of the leftmost node from below a node,
  -- the color, key and value of that node, and its right child.
  abbrev pub find_min :
      Color
      → Tree K V
      → K
      → V
      → Tree K V
      → List (Frame K V)
      → List (Frame K V) × Color × K × V × Tree K V
  find_min c nil k v r path = (path, c, k, v, r)
  find_min c (node d l' k' v' r') k v r path = find_min d l' k' v' r' (left c k v r ∷ path)

  -- `delete_node`: the successor takes the place and the color of the node.
  unfoldable pub delete_node :
      Color → Tree K V → K → V → Tree K V → List (Frame K V) → Result (Tree K V)
  unfolding mend_below
  delete_node c nil k v r path = mend_below c r path
  delete_node c (node d l' k' v' r') k v nil path = mend_below c (node d l' k' v' r') path
  delete_node c (node d l' k' v' r') k v (node e m km vm n) path =
      let (inner, c', k'', v'', x) = find_min e m km vm n [] in
      mend_below c' x (inner ++ (right c (node d l' k' v' r') k'' v'' ∷ path))

module _ (ks : Keys) {V : Type 0} where
  open ks use {Key}

  -- The descent in `rbtree_remove`: none for -1.
  unfoldable pub remove_below : Key → Tree Key V → List (Frame Key V) → Result (Option (Tree Key V))
  unfolding delete_node
  remove_below key nil path = ok none
  remove_below key (node c l k v r) path = elim (key_less ks key k) [
    | true ↦ remove_below key l (left c k v r ∷ path)
    | false ↦ elim (key_equal ks key k) [
      | true ↦ do t ← delete_node c l k v r path; ok (some t)
      | false ↦ remove_below key r (right c l k v ∷ path)
    ]
  ]

  -- `rbtree_remove`: true for 0, false for -1. The size is a `size_t`, to which 2 ^ 64 - 1 is added.
  unfoldable pub remove : Rbtree Key V → Key → Result (Bool × Rbtree Key V)
  unfolding remove_below
  remove t key = do
    removed ← remove_below key t.root []
    elim removed [
      | none ↦ ok (false, t)
      | some root ↦ ok (true, record { root = root; size = u64 (t.size + 18446744073709551615) })
    ]
