-- ===== src/Slice/Order.antt =====
-- The comparisons of slices (lib/kvengine/include/kvengine/slice.h) are those of one total order.
use Prim.Native.Nat.{compare, Ordering}
use ktable_fs.Base.{
  ◌≡◌, ◌↔◌, ◌⊎◌, inl, inr, refl, Bool, true, false, ◌&&◌, ◌||◌, [], ◌∷◌, ◌++◌, ltb, ◌==◌, arith,
}
use ktable_fs.Slice.{Slice, memcmp, is_lt, is_eq, less, equal, compare_slices, starts_with}

-- The order of a dictionary, by recursion.
unfoldable pub lex : Slice → Slice → Bool
lex a [] = false
lex [] (y ∷ b) = true
lex (x ∷ a) (y ∷ b) = ltb x y || ((x == y) && lex a b)

-- `operator<` compares as a dictionary does.
pub less-lex : (a b : Slice) → less a b ≡ lex a b
unfolding less lex memcmp
less-lex [] [] = refl
less-lex (x ∷ a) [] = ground arith
less-lex [] (y ∷ b) = ground arith
less-lex (x ∷ a) (y ∷ b) = ground (arith, less-lex a b)

pub lex_irrefl : (a : Slice) → lex a a ≡ false
unfolding lex
lex_irrefl [] = refl
lex_irrefl (x ∷ a) = ground (arith, lex_irrefl a)

pub lex_trans : (a b c : Slice) → lex a b ≡ true → lex b c ≡ true → lex a c ≡ true
unfolding lex
lex_trans a [] c h k = cc
lex_trans a (y ∷ b) [] h k = cc
lex_trans [] (y ∷ b) (z ∷ c) h k = refl
lex_trans (x ∷ a) (y ∷ b) (z ∷ c) h k = ground (arith, lex_trans a b c)

pub lex_total : (a b : Slice) → (lex a b ≡ true) ⊎ (a ≡ b) ⊎ (lex b a ≡ true)
unfolding lex
lex_total [] [] = inr (inl refl)
lex_total [] (y ∷ b) = inl refl
lex_total (x ∷ a) [] = inr (inr refl)
lex_total (x ∷ a) (y ∷ b) = ground (arith, lex_total a b)

equal_sound : (a b : Slice) → equal a b ≡ true → a ≡ b
unfolding equal memcmp
equal_sound [] [] h = refl
equal_sound [] (y ∷ b) h = absurd (ground arith)
equal_sound (x ∷ a) [] h = absurd (ground arith)
equal_sound (x ∷ a) (y ∷ b) h = ground (arith, equal_sound a b)

equal_refl : (a : Slice) → equal a a ≡ true
unfolding equal memcmp
equal_refl [] = refl
equal_refl (x ∷ a) = ground (arith, equal_refl a)

-- `operator==` is equality of the bytes.
pub equal_iff : (a b : Slice) → (equal a b ≡ true) ↔ (a ≡ b)
equal_iff a b = (equal_sound a b, λ e. rw (← e) (equal_refl a))

-- A dictionary's order with its three outcomes.
unfoldable pub order : Slice → Slice → Ordering
order [] [] = Ordering.eq
order [] (y ∷ b) = Ordering.lt
order (x ∷ a) [] = Ordering.gt
order (x ∷ a) (y ∷ b) =
    let rest = order a b in
    elim (compare x y) [
      | Ordering.lt ↦ Ordering.lt
      | Ordering.gt ↦ Ordering.gt
      | Ordering.eq ↦ rest
    ]

is_gt : Ordering → Bool
is_gt Ordering.lt = false
is_gt Ordering.eq = false
is_gt Ordering.gt = true

compare_slices-order : (a b : Slice) → compare_slices a b ≡ order a b
unfolding compare_slices order memcmp
compare_slices-order [] [] = refl
compare_slices-order (x ∷ a) [] = ground arith
compare_slices-order [] (y ∷ b) = ground arith
compare_slices-order (x ∷ a) (y ∷ b) = ground (arith, compare_slices-order a b)

lex-order : (a b : Slice) → lex a b ≡ is_lt (order a b)
unfolding lex order
lex-order [] [] = refl
lex-order (x ∷ a) [] = refl
lex-order [] (y ∷ b) = refl
lex-order (x ∷ a) (y ∷ b) = ground (arith, lex-order a b)

lex-order_swap : (a b : Slice) → lex b a ≡ is_gt (order a b)
unfolding lex order is_gt
lex-order_swap [] [] = refl
lex-order_swap (x ∷ a) [] = refl
lex-order_swap [] (y ∷ b) = refl
lex-order_swap (x ∷ a) (y ∷ b) = ground (arith, lex-order_swap a b)

equal-order : (a b : Slice) → equal a b ≡ is_eq (order a b)
unfolding equal order memcmp
equal-order [] [] = refl
equal-order (x ∷ a) [] = ground arith
equal-order [] (y ∷ b) = ground arith
equal-order (x ∷ a) (y ∷ b) = ground (arith, equal-order a b)

-- `operator<` is a strict total order whose equality is `operator==`, so that it serves as the order
-- of the keys of a `std::map`: it is irreflexive and transitive, and of two slices that are not equal
-- one is less.
pub less-IsOrder :
    (a b c : Slice)
    → (less a a ≡ false)
      × (less a b ≡ true → less b c ≡ true → less a c ≡ true)
      × ((less a b ≡ true) ⊎ (equal a b ≡ true) ⊎ (less b a ≡ true))
less-IsOrder a b c = (
  rw less-lex (lex_irrefl a),
  (λ h k. rw less-lex (lex_trans a b c (rw less-lex at h) (rw less-lex at k))),
  ground (arith, less-lex a b, less-lex b a, lex_total a b, (equal_iff a b).1),
)

-- `compare` agrees with `operator<` and `operator==`: its sign tells which of them holds.
pub compare_slices-less :
    (a b : Slice)
    → ((compare_slices a b ≡ Ordering.lt) ↔ (less a b ≡ true))
      × ((compare_slices a b ≡ Ordering.eq) ↔ (equal a b ≡ true))
      × ((compare_slices a b ≡ Ordering.gt) ↔ (less b a ≡ true))
unfolding is_gt
compare_slices-less a b =
    rw (compare_slices-order, less-lex, less-lex, equal-order, lex-order a b, lex-order_swap a b)
      (ground arith)

starts_sound : (a x : Slice) → starts_with a x ≡ true → (rest : Slice) × (a ≡ x ++ rest)
unfolding starts_with memcmp
starts_sound a [] h = (a, refl)
starts_sound [] (y ∷ x) h = absurd (ground arith)
starts_sound (b ∷ a) (y ∷ x) h =
    let (rest, e) = starts_sound a x (ground arith) in (rest, ground arith)

starts_complete : (x rest : Slice) → starts_with (x ++ rest) x ≡ true
unfolding starts_with memcmp
starts_complete [] rest = ground arith
starts_complete (y ∷ x) rest = ground (arith, starts_complete x rest)

-- `starts_with(x)` holds exactly of the slices that continue `x`.
pub starts_with_iff : (a x : Slice) → (starts_with a x ≡ true) ↔ ((rest : Slice) × (a ≡ x ++ rest))
starts_with_iff a x = (starts_sound a x, λ h. rw h.1 (starts_complete x h.0))
