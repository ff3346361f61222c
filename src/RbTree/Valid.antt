-- ===== src/RbTree/Valid.antt =====
-- `rb_valid` and `rb_valid_recurse` (util/index/rbtree/rbtree.c) against balanced trees.
use ktable_fs.Base.{
  ℕ, ◌+◌, ◌≡◌, refl, sym, ap, arith, ◌==◌, ==_iff, Bool-cases, inl, inr, ==-refl, Result, ok,
  assert, ◌>>=◌, ◌>>◌, Ensures, Ensures-ok, Ensures-bind, Ensures-map,
}
use ktable_fs.RbTree.{Color, black, red, Tree, nil, node, color_of, valid_recurse, valid, is_black}
use ktable_fs.RbTree.Balance.{IsBalanced, BlackRoot}

assert-is_black : (c : Color) → Ensures (λ u. c ≡ black) (assert (is_black c))
assert-is_black black = refl
assert-is_black red = tt

assert-== : (a b : ℕ) → Ensures (λ u. a ≡ b) (assert (a == b))
assert-== a b = elim (Bool-cases (a == b)) [ inl t ↦ rw t ((==_iff a b).0 t) | inr f ↦ rw f tt ]

module _ {K V : Type 0} where
  -- The checks of a debug build pass, and count the black nodes.
  valid_recurse-ok : (t : Tree K V) (n : ℕ) → IsBalanced t n → valid_recurse t ≡ ok n
  unfolding valid_recurse
  valid_recurse-ok nil n h = ap ok (sym h)
  valid_recurse-ok (node black l k v r) n (m, e, hl, hr) =
      rw (valid_recurse-ok l m hl, valid_recurse-ok r m hr, ==-refl m) (ap ok (omega (arith, e)))
  valid_recurse-ok (node red l k v r) n (hl, hr, bl, br) =
      rw (valid_recurse-ok l n hl, valid_recurse-ok r n hr, ==-refl n, bl, br) refl

  -- What the two recursive calls and the first `assert` leave to show.
  depths-Ensures :
      (l r : Tree K V) (P : ℕ → Type 0) (f : ℕ → Result ℕ)
      → Ensures (IsBalanced l) (valid_recurse l)
      → Ensures (IsBalanced r) (valid_recurse r)
      → ((m : ℕ) → IsBalanced l m → IsBalanced r m → Ensures P (f m))
      → Ensures P (do
        left_depth ← valid_recurse l
        right_depth ← valid_recurse r
        assert (left_depth == right_depth)
        f left_depth)
  depths-Ensures l r P f hl hr next = Ensures-bind (IsBalanced l) P (valid_recurse l) _ hl (λ m bl.
      Ensures-bind (IsBalanced r) P (valid_recurse r) _ hr (λ m' br.
        Ensures-bind (λ u. m ≡ m') P (assert (m == m')) _ (assert-== m m')
          (λ u e. next m bl (rw e br))))

  valid_recurse-IsBalanced : (t : Tree K V) → Ensures (IsBalanced t) (valid_recurse t)
  unfolding valid_recurse
  valid_recurse-IsBalanced nil = refl
  valid_recurse-IsBalanced (node black l k v r) =
      depths-Ensures l r (IsBalanced (node black l k v r)) (λ m. ok (m + 1))
        (valid_recurse-IsBalanced l) (valid_recurse-IsBalanced r)
        (λ m hl hr. (m, omega arith, hl, hr))
  valid_recurse-IsBalanced (node red l k v r) =
      depths-Ensures l r (IsBalanced (node red l k v r)) _ (valid_recurse-IsBalanced l)
        (valid_recurse-IsBalanced r)
        (λ m hl hr.
          Ensures-bind (λ u. color_of l ≡ black) (IsBalanced (node red l k v r))
            (assert (is_black (color_of l))) _ (assert-is_black (color_of l))
            (λ u bl.
              Ensures-bind (λ u. color_of r ≡ black) (IsBalanced (node red l k v r))
                (assert (is_black (color_of r))) _ (assert-is_black (color_of r))
                (λ u br. (hl, hr, bl, br))))

  -- The checks of a debug build pass exactly on a balanced tree with a black root.
  pub valid-BlackRoot : (t : Tree K V) (n : ℕ) → valid t ≡ ok n → BlackRoot t
  unfolding valid
  valid-BlackRoot t n e =
      Ensures-ok (λ m. BlackRoot t) (valid t) e
        (Ensures-bind (λ u. color_of t ≡ black) (λ m. BlackRoot t) (assert (is_black (color_of t)))
          _ (assert-is_black (color_of t))
          (λ u b.
            Ensures-map (IsBalanced t) (λ m. BlackRoot t) (valid_recurse t) (λ m h. (b, (m, h)))
              (valid_recurse-IsBalanced t)))

  pub BlackRoot-valid :
      (t : Tree K V) (n : ℕ) → color_of t ≡ black → IsBalanced t n → valid t ≡ ok n
  unfolding valid
  BlackRoot-valid t n b h = rw b (valid_recurse-ok t n h)
