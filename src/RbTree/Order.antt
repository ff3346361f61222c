-- ===== src/RbTree/Order.antt =====
-- The order of the keys in the red-black tree (util/index/rbtree/rbtree.c): the macros over `key_cmp`.
use Prim.Native.Nat.{Ordering, lt, eq, gt}
use ktable_fs.Base.{
  ℕ, ◌≡◌, refl, sym, ◌<◌, ◌∙◌, ◌⊎◌, inl, inr, Bool, true, false, arith, ltb, ◌==◌, if◌then◌else◌,
  ◌||◌, not,
}
use ktable_fs.RbTree.{Keys, key_less, key_greater, key_equal}

abbrev swap : Ordering → Ordering
swap lt = gt
swap eq = eq
swap gt = lt

-- `key_cmp` is a total order, and its sign changes with the order of its arguments.
pub record KeyLaws (ks : Keys) : Type 0 where
  pub cmp_swap : (a b : ks.Key) → ks.key_cmp b a ≡ swap (ks.key_cmp a b)
  pub cmp_trans : (a b c : ks.Key) → ks.key_cmp a b ≡ lt → ks.key_cmp b c ≡ lt → ks.key_cmp a c ≡ lt
  pub cmp_eq : (a b c : ks.Key) → ks.key_cmp a b ≡ eq → ks.key_cmp c a ≡ ks.key_cmp c b

-- The macros on two prefixes and what `key_cmp` returns.
abbrev less : ℕ → ℕ → Ordering → Bool
less p q o =
    if ltb p q then true else (if p == q then (elim o [ lt ↦ true | _ ↦ false ]) else false)

abbrev equal : ℕ → ℕ → Ordering → Bool
equal p q o = if p == q then (elim o [ eq ↦ true | _ ↦ false ]) else false

abbrev Less : ℕ → ℕ → Ordering → Type 0
Less p q o = (p < q) ⊎ ((p ≡ q) × (o ≡ lt))

less→Less : (p q : ℕ) (o : Ordering) → less p q o ≡ true → Less p q o
less→Less p q lt e = ground arith
less→Less p q eq e = ground arith
less→Less p q gt e = ground arith

Less→less : (p q : ℕ) (o : Ordering) → Less p q o → less p q o ≡ true
Less→less p q o (inl h) = ground arith
Less→less p q o (inr (h, e)) = rw e (ground arith)

less-total : (p q : ℕ) (o : Ordering) → less p q o ≡ false → equal p q o ≡ false → Less q p (swap o)
less-total p q lt e e' = ground arith
less-total p q eq e e' = ground arith
less-total p q gt e e' = ground arith

Less-asym : (p q : ℕ) (o : Ordering) → Less p q o → less q p (swap o) ≡ false
Less-asym p q o (inl h) = ground arith
Less-asym p q o (inr (h, e)) = rw e (ground arith)

Less-not_equal : (p q : ℕ) (o : Ordering) → Less p q o → equal p q o ≡ false
Less-not_equal p q o (inl h) = ground arith
Less-not_equal p q o (inr (h, e)) = rw e (ground arith)

Less-not_equal_back : (p q : ℕ) (o : Ordering) → Less p q o → equal q p (swap o) ≡ false
Less-not_equal_back p q o (inl h) = ground arith
Less-not_equal_back p q o (inr (h, e)) = rw e (ground arith)

abbrev greater : ℕ → ℕ → Ordering → Bool
greater p q o =
    if ltb q p then true else (if p == q then (elim o [ gt ↦ true | _ ↦ false ]) else false)

greater-less : (p q : ℕ) (o : Ordering) → (greater p q o || equal p q o) ≡ not (less p q o)
greater-less p q lt = ground arith
greater-less p q eq = ground arith
greater-less p q gt = ground arith

equal→eq : (p q : ℕ) (o : Ordering) → equal p q o ≡ true → (p ≡ q) × (o ≡ eq)
equal→eq p q lt e = ground arith
equal→eq p q eq e = ground arith
equal→eq p q gt e = ground arith

module _ (ks : Keys) (laws : KeyLaws ks) where
  open ks use {Key, prefix, key_cmp}

  IsLess : (a b : Key) → key_less ks a b ≡ true → Less (prefix a) (prefix b) (key_cmp a b)
  unfolding key_less
  IsLess a b e = less→Less (prefix a) (prefix b) (key_cmp a b) e

  pub key_less_trans :
      (a b c : Key) → key_less ks a b ≡ true → key_less ks b c ≡ true → key_less ks a c ≡ true
  unfolding key_less
  key_less_trans a b c e e' = Less→less (prefix a) (prefix c) (key_cmp a c) (elim (IsLess a b e) [
    | inl p ↦ elim (IsLess b c e') [
      | inl q ↦ inl (omega (arith, p, q))
      | inr q ↦ inl (omega (arith, p, q.0))
    ]
    | inr p ↦ elim (IsLess b c e') [
      | inl q ↦ inl (omega (arith, p.0, q))
      | inr q ↦ inr (p.0 ∙ q.0, laws.cmp_trans a b c p.1 q.1)
    ]
  ])

  -- Neither less nor equal is greater.
  pub key_less-total :
      (a b : Key) → key_less ks a b ≡ false → key_equal ks a b ≡ false → key_less ks b a ≡ true
  unfolding key_less key_equal
  key_less-total a b e e' =
      Less→less (prefix b) (prefix a) (key_cmp b a)
        (rw (laws.cmp_swap a b) (less-total (prefix a) (prefix b) (key_cmp a b) e e'))

  pub key_less-asym : (a b : Key) → key_less ks a b ≡ true → key_less ks b a ≡ false
  unfolding key_less
  key_less-asym a b e =
      rw (laws.cmp_swap a b) (Less-asym (prefix a) (prefix b) (key_cmp a b) (IsLess a b e))

  pub key_less-not_equal : (a b : Key) → key_less ks a b ≡ true → key_equal ks a b ≡ false
  unfolding key_equal
  key_less-not_equal a b e = Less-not_equal (prefix a) (prefix b) (key_cmp a b) (IsLess a b e)

  pub key_less-not_equal_swap : (a b : Key) → key_less ks a b ≡ true → key_equal ks b a ≡ false
  unfolding key_equal
  key_less-not_equal_swap a b e =
      rw (laws.cmp_swap a b)
        (Less-not_equal_back (prefix a) (prefix b) (key_cmp a b) (IsLess a b e))

  -- Equal keys are greater than the same keys.
  pub key_less-equal :
      (a b c : Key) → key_equal ks a b ≡ true → key_less ks c b ≡ true → key_less ks c a ≡ true
  unfolding key_equal key_less
  key_less-equal a b c e e' =
      let (p, cmp) = equal→eq (prefix a) (prefix b) (key_cmp a b) e in
      rw (p, laws.cmp_eq a b c cmp) e'

  -- The test for the end of a scan.
  pub greater_or_equal :
      (a b : Key) → (key_greater ks a b || key_equal ks a b) ≡ not (key_less ks a b)
  unfolding key_greater key_equal key_less
  greater_or_equal a b = greater-less (prefix a) (prefix b) (key_cmp a b)

  -- A comparison with either of two equal keys.
  pub key_equal_cong : (a b c : Key) → key_equal ks a b ≡ true → key_equal ks c a ≡ key_equal ks c b
  unfolding key_equal
  key_equal_cong a b c e =
      let (p, cmp) = equal→eq (prefix a) (prefix b) (key_cmp a b) e in
      rw (p, laws.cmp_eq a b c cmp) refl

  pub key_less-equal_left :
      (a b c : Key) → key_equal ks a b ≡ true → key_less ks b c ≡ true → key_less ks a c ≡ true
  unfolding key_equal key_less
  key_less-equal_left a b c e e' =
      let (p, cmp) = equal→eq (prefix a) (prefix b) (key_cmp a b) e in
      rw (p, laws.cmp_swap c a, laws.cmp_eq a b c cmp, sym (laws.cmp_swap c b)) e'
