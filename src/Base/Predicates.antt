-- ===== src/Base/Predicates.antt =====
-- Predicates on lists by recursion: every element has a property, no element occurs twice.
use mathlib.Core.Path.{sym}
use mathlib.Core.Logic.{◌≢◌}
use mathlib.Core.List.{List, [], ◌∷◌, ◌++◌}

abbrev pub All {ℓ κ} : {A : Type ℓ} → (A → Type κ) → List A → Type κ
All P [] = Unit
All P (x ∷ xs) = P x × All P xs

module _ {ℓ κ} {A : Type ℓ} (P : A → Type κ) where
  pub All-append : (xs ys : List A) → All P xs → All P ys → All P (xs ++ ys)
  All-append [] ys h k = k
  All-append (x ∷ xs) ys h k = (h.0, All-append xs ys h.1 k)

  pub All-append_left : (xs ys : List A) → All P (xs ++ ys) → All P xs
  All-append_left [] ys h = tt
  All-append_left (x ∷ xs) ys h = (h.0, All-append_left xs ys h.1)

  pub All-append_right : (xs ys : List A) → All P (xs ++ ys) → All P ys
  All-append_right [] ys h = h
  All-append_right (x ∷ xs) ys h = All-append_right xs ys h.1

  pub All-middle :
      (xs : List A) (a : A) (ys : List A) → All P (xs ++ (a ∷ ys)) → All P (a ∷ (xs ++ ys))
  All-middle xs a ys h =
      let right = All-append_right xs (a ∷ ys) h in
      (right.0, All-append xs ys (All-append_left xs (a ∷ ys) h) right.1)

  pub All-back :
      (xs : List A) (a : A) (ys : List A) → All P (a ∷ (xs ++ ys)) → All P (xs ++ (a ∷ ys))
  All-back xs a ys h =
      All-append xs (a ∷ ys) (All-append_left xs ys h.1) (h.0, All-append_right xs ys h.1)

  pub All-map {τ} : {Q : A → Type τ} → ((a : A) → P a → Q a) → (xs : List A) → All P xs → All Q xs
  All-map f [] h = tt
  All-map f (x ∷ xs) h = (f x h.0, All-map f xs h.1)

module _ {ℓ} {A : Type ℓ} where
  abbrev pub NotIn : A → List A → Type ℓ
  NotIn a = All (λ b. a ≢ b)

  abbrev pub Distinct : List A → Type ℓ
  Distinct [] = Unit
  Distinct (x ∷ xs) = NotIn x xs × Distinct xs

  -- An element in the middle may as well stand in front.
  pub Distinct-middle :
      (xs : List A) (a : A) (ys : List A) → Distinct (xs ++ (a ∷ ys)) → Distinct (a ∷ (xs ++ ys))
  Distinct-middle [] a ys h = h
  Distinct-middle (x ∷ xs) a ys h =
      let (out, rest) = Distinct-middle xs a ys h.1 in
      let x-out = All-append_right (λ b. x ≢ b) xs (a ∷ ys) h.0 in
      (
        ((λ e. x-out.0 (sym e)), out),
        (
          All-append (λ b. x ≢ b) xs ys (All-append_left (λ b. x ≢ b) xs (a ∷ ys) h.0) x-out.1,
          rest,
        ),
      )

  pub Distinct-back :
      (xs : List A) (a : A) (ys : List A) → Distinct (a ∷ (xs ++ ys)) → Distinct (xs ++ (a ∷ ys))
  Distinct-back [] a ys h = h
  Distinct-back (x ∷ xs) a ys h =
      let ((a≢x, out), (x-out, rest)) = h in
      (
        All-append (λ b. x ≢ b) xs (a ∷ ys) (All-append_left (λ b. x ≢ b) xs ys x-out)
            ((λ e. a≢x (sym e)), All-append_right (λ b. x ≢ b) xs ys x-out),
        Distinct-back xs a ys (out, rest),
      )
