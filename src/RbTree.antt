-- ===== src/RbTree.antt =====
-- util/index/rbtree/rbtree.c: a red-black tree, with insertion, look-up and scan. A node with its children is a tree, `T->nil` the empty
-- one; the chain of `parent` pointers from a node to the root is a list of frames.
pub mod Balance
pub mod Entries
pub mod Inserted
pub mod Order
pub mod Placed
pub mod Remove
pub mod Scan
pub mod Tests
pub mod Valid
pub mod Sorted
use Prim.Native.Nat.{Ordering}
use ktable_fs.Base.{
  ℕ, ◌+◌, Bool, true, false, Option, none, some, List, [], ◌∷◌, ◌++◌, ltb, ◌==◌, ◌||◌,
  if◌then◌else◌, Result, ok, fault, null_pointer, assert, ◌>>=◌, ◌>>◌, u64,
}

-- Keys: the first eight bytes, as the number that the macros compare, and `key_cmp` of the caller.
pub record Keys : Type 1 where
  pub Key : Type 0
  pub prefix : Key → ℕ
  pub key_cmp : Key → Key → Ordering

pub data Color : Type 0 where
  black : Color
  red : Color

abbrev pub is_black : Color → Bool
is_black black = true
is_black red = false

pub data Tree (K V : Type 0) : Type 0 where
  nil : Tree K V
  node : Color → Tree K V → K → V → Tree K V → Tree K V

-- A parent without the child from which it is seen: the left one or the right one.
pub data Frame (K V : Type 0) : Type 0 where
  left : Color → K → V → Tree K V → Frame K V
  right : Color → Tree K V → K → V → Frame K V

-- `struct rbtree`: its nodes stand in the tree itself, and `key_cmp` is a parameter.
pub record Rbtree (K V : Type 0) : Type 0 where
  pub root : Tree K V
  pub size : ℕ

module _ {K V : Type 0} where
  -- The tree of `rbtree_new`, less the slab of its nodes and its hash table.
  abbrev pub new_tree : Rbtree K V
  new_tree = record { root = nil; size = 0 }

  -- `T->nil` is black.
  abbrev pub color_of : Tree K V → Color
  color_of nil = black
  color_of (node c l k v r) = c

  abbrev pub frame_color : Frame K V → Color
  frame_color (left c k v r) = c
  frame_color (right c l k v) = c

  abbrev pub sibling : Frame K V → Tree K V
  sibling (left c k v r) = r
  sibling (right c l k v) = l

  abbrev pub plug_one : Frame K V → Tree K V → Tree K V
  plug_one (left c k v r) t = node c t k v r
  plug_one (right c l k v) t = node c l k v t

  -- The tree of the root, from a node and its parents.
  abbrev pub plug : List (Frame K V) → Tree K V → Tree K V
  plug [] t = t
  plug (f ∷ fs) t = plug fs (plug_one f t)

  -- `n->color = c`
  abbrev pub paint : Color → Tree K V → Tree K V
  paint c nil = nil
  paint c (node d l k v r) = node c l k v r

  -- `left_rotate` and `right_rotate`, which go through the child of a null pointer on `T->nil`.
  unfoldable pub left_rotate : Tree K V → Result (Tree K V)
  left_rotate nil = fault null_pointer
  left_rotate (node c a k v nil) = fault null_pointer
  left_rotate (node c a k v (node d b k' v' e)) = ok (node d (node c a k v b) k' v' e)

  unfoldable pub right_rotate : Tree K V → Result (Tree K V)
  right_rotate nil = fault null_pointer
  right_rotate (node c nil k v e) = fault null_pointer
  right_rotate (node c (node d a k' v' b) k v e) = ok (node d a k' v' (node c b k v e))

  -- The parent `f` and the uncle become black, the grandparent `g` red.
  unfoldable pub recolor : Frame K V → Frame K V → Tree K V → Tree K V
  recolor f (left c k v r) z = node red (paint black (plug_one f z)) k v (paint black r)
  recolor f (right c l k v) z = node red (paint black l) k v (paint black (plug_one f z))

  -- The parent `f` as the left or the right child of the grandparent, once `z` is on the same side.
  unfoldable pub align_left : Frame K V → Tree K V → Result (Tree K V)
  unfolding left_rotate
  align_left (left c k v r) z = ok (node c z k v r)
  align_left (right c l k v) z = left_rotate (node c l k v z)

  unfoldable pub align_right : Frame K V → Tree K V → Result (Tree K V)
  unfolding right_rotate
  align_right (left c k v r) z = right_rotate (node c z k v r)
  align_right (right c l k v) z = ok (node c l k v z)

  -- The case of a black uncle: the rotations, and the colors between them.
  unfoldable pub rotate_up : Frame K V → Frame K V → Tree K V → Result (Tree K V)
  unfolding left_rotate right_rotate align_left align_right
  rotate_up f (left c k v r) z = do
    p ← align_left f z
    right_rotate (node red (paint black p) k v r)
  rotate_up f (right c l k v) z = do
    p ← align_right f z
    left_rotate (node red l k v (paint black p))

  -- `rb_insert_fixup`: the loop ends at a black parent. The parent of the root is `T->nil`, whose
  -- children are null pointers. After the rotations the parent is black.
  unfoldable pub insert_fixup : Tree K V → List (Frame K V) → Result (Tree K V)
  unfolding recolor rotate_up
  insert_fixup z [] = ok (paint black z)
  insert_fixup z (f ∷ []) = elim (frame_color f) [
    | black ↦ ok (paint black (plug_one f z))
    | red ↦ fault null_pointer
  ]
  insert_fixup z (f ∷ g ∷ rest) = elim (frame_color f) [
    | black ↦ ok (paint black (plug (f ∷ g ∷ rest) z))
    | red ↦ elim (color_of (sibling g)) [
      | red ↦ insert_fixup (recolor f g z) rest
      | black ↦ do t ← rotate_up f g z; ok (paint black (plug rest t))
    ]
  ]

  -- `rb_valid_recurse` and `rb_valid`, the checks of a debug build.
  unfoldable pub valid_recurse : Tree K V → Result ℕ
  valid_recurse nil = ok 1
  valid_recurse (node c l k v r) = do
    left_depth ← valid_recurse l
    right_depth ← valid_recurse r
    assert (left_depth == right_depth)
    elim c [
      | red ↦ do assert (is_black (color_of l)); assert (is_black (color_of r)); ok left_depth
      | black ↦ ok (left_depth + 1)
    ]

  unfoldable pub valid : Tree K V → Result ℕ
  unfolding valid_recurse
  valid t = do assert (is_black (color_of t)); valid_recurse t

module _ (ks : Keys) where
  open ks use {Key, prefix, key_cmp}

  -- The macros `key_less`, `key_greater` and `key_equal`.
  unfoldable pub key_less : Key → Key → Bool
  key_less a b =
      if ltb (prefix a) (prefix b)
      then true
      else (if prefix a == prefix b
          then (elim (key_cmp a b) [ Ordering.lt ↦ true | _ ↦ false ])
          else false)

  unfoldable pub key_greater : Key → Key → Bool
  key_greater a b =
      if ltb (prefix b) (prefix a)
      then true
      else (if prefix a == prefix b
          then (elim (key_cmp a b) [ Ordering.gt ↦ true | _ ↦ false ])
          else false)

  unfoldable pub key_equal : Key → Key → Bool
  key_equal a b =
      if prefix a == prefix b
      then (elim (key_cmp a b) [ Ordering.eq ↦ true | _ ↦ false ])
      else false

  module _ {V : Type 0} where
    -- The descent in `rbtree_insert`: the parents of the place for the key, none if it is there.
    unfoldable pub find_place : Key → Tree Key V → List (Frame Key V) → Option (List (Frame Key V))
    find_place key nil path = some path
    find_place key (node c l k v r) path = elim (key_less key k) [
      | true ↦ find_place key l (left c k v r ∷ path)
      | false ↦ elim (key_equal key k) [
        | true ↦ none
        | false ↦ find_place key r (right c l k v ∷ path)
      ]
    ]

    -- `rbtree_insert`: true for 0, false for -1.
    unfoldable pub insert : Rbtree Key V → Key → V → Result (Bool × Rbtree Key V)
    unfolding find_place insert_fixup
    insert t key value = elim (find_place key t.root []) [
      | none ↦ ok (false, t)
      | some path ↦ do
        root ← insert_fixup (node red nil key value nil) path
        ok (true, record { root = root; size = u64 (t.size + 1) })
    ]

    -- `rbtree_lookup`
    unfoldable pub lookup : Tree Key V → Key → Option V
    lookup nil key = none
    lookup (node c l k v r) key = elim (key_less key k) [
      | true ↦ lookup l key
      | false ↦ elim (key_equal key k) [ true ↦ some v | false ↦ lookup r key ]
    ]

    -- `rbtree_scan_recurse`: the entries that `scan` is called for, in the order of the calls.
    unfoldable pub scan : Tree Key V → Key → Key → List (Key × V)
    scan nil min_key max_key = []
    scan (node c l k v r) min_key max_key = elim (key_less k min_key) [
      | true ↦ scan r min_key max_key
      | false ↦ elim (key_greater k max_key || key_equal k max_key) [
        | true ↦ scan l min_key max_key
        | false ↦ (k, v) ∷ (scan l min_key max_key ++ scan r min_key max_key)
      ]
    ]
