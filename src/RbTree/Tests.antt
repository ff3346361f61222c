-- ===== src/RbTree/Tests.antt =====
-- A small red-black tree (util/index/rbtree/rbtree.c).
use Prim.Native.Nat.{compare}
use mathlib.Core.List.{Perm}
use ktable_fs.Base.{ℕ, ◌≡◌, refl, Bool, true, [], ◌∷◌, arith, ok, ◌>>=◌}
use ktable_fs.RbTree.{
  new_tree, left, Keys, key_less, key_equal, Rbtree, nil, node, black, red, insert, scan, valid,
}
use ktable_fs.RbTree.Order.{KeyLaws}
use ktable_fs.RbTree.Entries.{entries}
use ktable_fs.RbTree.Sorted.{IsSorted}
use ktable_fs.RbTree.Inserted.{insert-total, Inserted}
use ktable_fs.RbTree.Remove.{delete_node, remove}
use ktable_fs.RbTree.Remove.Total.{remove-total, Removed}
use ktable_fs.RbTree.Scan.{scan-Perm}

-- Keys with a common first part, which are compared by a number.
abbrev numbers : Keys
numbers = record { Key = ℕ; prefix = λ k. 7; key_cmp = compare }

numbers-laws : KeyLaws numbers
numbers-laws = record {
  cmp_swap = λ a b. ground arith;
  cmp_trans = λ a b c e e'. ground arith;
  cmp_eq = λ a b c e. ground arith;
}

abbrev three : Rbtree ℕ ℕ
three = record { root = node black (node red nil 2 20 nil) 4 40 (node red nil 6 60 nil); size = 3 }

three_inserted :
    (do
      (b, t1) ← insert numbers new_tree 2 20
      (b', t2) ← insert numbers t1 4 40
      insert numbers t2 6 60)
    ≡ ok (true, three)
unfolding insert key_less key_equal
three_inserted = refl

three_valid : valid three.root ≡ ok 2
unfolding valid
three_valid = refl

three-IsSorted : IsSorted numbers (entries three.root)
unfolding key_less
three-IsSorted = ((refl, (refl, tt)), ((refl, tt), (tt, tt)))

-- A key that goes below a red node with a red brother.
insert-total_example :
    (r : Bool × Rbtree ℕ ℕ) × (insert numbers three 5 50 ≡ ok r)
    × ((m : ℕ) × (valid r.1.root ≡ ok m))
    × Inserted numbers numbers-laws three 5 50 r
insert-total_example = insert-total numbers numbers-laws three 5 50 2 three_valid three-IsSorted

scan-Perm_example : Perm (scan numbers three.root 2 6) ((2, 20) ∷ (4, 40) ∷ [])
unfolding key_less
scan-Perm_example = scan-Perm numbers numbers-laws three.root 2 6 three-IsSorted

-- The root has two children: its successor takes its place.
remove-total_example :
    (r : Bool × Rbtree ℕ ℕ) × (remove numbers three 4 ≡ ok r)
    × ((m : ℕ) × (valid r.1.root ≡ ok m))
    × Removed numbers three 4 r
remove-total_example = remove-total numbers numbers-laws three 4 2 three_valid three-IsSorted

three_removed :
    remove numbers three 4
    ≡ ok (true, record { root = node black (node red nil 2 20 nil) 6 60 nil; size = 2 })
unfolding remove key_less key_equal
three_removed = refl

-- A black node is missing on the left, and the sibling becomes red.
black_removed :
    delete_node {K = ℕ} {V = ℕ} black nil 2 20 nil (left black 4 40 (node black nil 6 60 nil) ∷ [])
    ≡ ok (node black nil 4 40 (node red nil 6 60 nil))
unfolding delete_node
black_removed = refl
