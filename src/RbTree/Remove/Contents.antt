-- ===== src/RbTree/Remove/Contents.antt =====
-- The entries that `delete_node` (util/index/rbtree/rbtree.c) leaves in the tree.
use mathlib.Core.List.{append_assoc, append-nil}
use ktable_fs.Base.{
  ℕ, zero, suc, ◌≡◌, refl, sym, ap, ◌∙◌, List, [], ◌∷◌, ◌++◌, length, Result, ok, ◌>>=◌, Ensures,
  Ensures-bind, Ensures-map, Ensures-if, ◌&&◌, ◌+◌,
}
use ktable_fs.RbTree.{
  Color, black, red, Tree, nil, node, Frame, left, right, color_of, plug, paint, left_rotate,
  right_rotate, is_black,
}
use ktable_fs.RbTree.Entries.{
  entries, before, after, Same, plug-entries, plug-Same, paint-entries, left_rotate-Same,
  right_rotate-Same,
}
use ktable_fs.RbTree.Remove.{
  Step, up, closed, take_left, take_right, black_left, black_right, mend, delete_fixup, mend_below,
  find_min, delete_node,
}

module _ {K V : Type 0} where
  abbrev tree_of : Step K V → Tree K V
  tree_of (up t) = t
  tree_of (closed t) = t

  take_left-entries : (c : Color) (t : Tree K V) → entries (take_left c t) ≡ entries t
  take_left-entries c nil = refl
  take_left-entries c (node d l k v r) =
      ap (λ es. entries l ++ ((k, v) ∷ es)) (paint-entries black r)

  take_right-entries : (c : Color) (t : Tree K V) → entries (take_right c t) ≡ entries t
  take_right-entries c nil = refl
  take_right-entries c (node d l k v r) =
      ap (λ es. es ++ ((k, v) ∷ entries r)) (paint-entries black l)

  abbrev StepSame : Tree K V → Step K V → Type 0
  StepSame t s = Same t (tree_of s)

  black_left-Same :
      (c : Color) (x : Tree K V) (k : K) (v : V) (w : Tree K V)
      → Ensures (StepSame (node c x k v w)) (black_left c x k v w)
  unfolding black_left
  black_left-Same c x k v nil = tt
  black_left-Same c x k v (node d wl wk wv wr) =
      let same = StepSame (node c x k v (node d wl wk wv wr)) in
      Ensures-if same (is_black (color_of wl) && is_black (color_of wr)) _ _ refl (
        Ensures-bind (Same (node d wl wk wv wr)) same _ _
          (Ensures-if (Same (node d wl wk wv wr)) (is_black (color_of wr)) _ _
            (Ensures-map (Same (node red (paint black wl) wk wv wr)) (Same (node d wl wk wv wr))
              (right_rotate (node red (paint black wl) wk wv wr))
              (λ t e. e ∙ ap (λ es. es ++ ((wk, wv) ∷ entries wr)) (paint-entries black wl))
              (right_rotate-Same (node red (paint black wl) wk wv wr)))
            refl)
          (λ w w-same.
            Ensures-bind (Same (node black x k v (take_left c w))) same
              (left_rotate (node black x k v (take_left c w))) _
              (left_rotate-Same (node black x k v (take_left c w)))
              (λ t e. e ∙ ap (λ es. entries x ++ ((k, v) ∷ es)) (take_left-entries c w ∙ w-same))))

  black_right-Same :
      (c : Color) (w : Tree K V) (k : K) (v : V) (x : Tree K V)
      → Ensures (StepSame (node c w k v x)) (black_right c w k v x)
  unfolding black_right
  black_right-Same c nil k v x = tt
  black_right-Same c (node d wl wk wv wr) k v x =
      let same = StepSame (node c (node d wl wk wv wr) k v x) in
      Ensures-if same (is_black (color_of wl) && is_black (color_of wr)) _ _ refl (
        Ensures-bind (Same (node d wl wk wv wr)) same _ _
          (Ensures-if (Same (node d wl wk wv wr)) (is_black (color_of wl)) _ _
            (Ensures-map (Same (node red wl wk wv (paint black wr))) (Same (node d wl wk wv wr))
              (left_rotate (node red wl wk wv (paint black wr)))
              (λ t e. e ∙ ap (λ es. entries wl ++ ((wk, wv) ∷ es)) (paint-entries black wr))
              (left_rotate-Same (node red wl wk wv (paint black wr))))
            refl)
          (λ w w-same.
            Ensures-bind (Same (node black (take_right c w) k v x)) same
              (right_rotate (node black (take_right c w) k v x)) _
              (right_rotate-Same (node black (take_right c w) k v x))
              (λ t e. e ∙ ap (λ es. es ++ ((k, v) ∷ entries x)) (take_right-entries c w ∙ w-same))))

  abbrev RoundSame : Tree K V → Step K V × List (Frame K V) → Type 0
  RoundSame t r = Same t (plug r.1 (tree_of r.0))

  -- A round without a red sibling.
  round-Same :
      (t u : Tree K V) (fs : List (Frame K V)) (m : Result (Step K V))
      → Same t (plug fs u)
      → Ensures (StepSame u) m
      → Ensures (RoundSame t) (do s ← m; ok (s, fs))
  round-Same t u fs m same h =
      Ensures-bind (StepSame u) (RoundSame t) m _ h (λ s e. plug-Same fs u (tree_of s) e ∙ same)

  mend-Same :
      (x : Tree K V) (f : Frame K V) (fs : List (Frame K V))
      → Ensures (RoundSame (plug (f ∷ fs) x)) (mend x f fs)
  unfolding mend
  mend-Same x (left c k v nil) fs =
      round-Same (plug fs (node c x k v nil)) (node c x k v nil) fs (black_left c x k v nil) refl
        (black_left-Same c x k v nil)
  mend-Same x (left c k v (node black wl wk wv wr)) fs =
      round-Same (plug fs (node c x k v (node black wl wk wv wr)))
        (node c x k v (node black wl wk wv wr)) fs _ refl
        (black_left-Same c x k v (node black wl wk wv wr))
  mend-Same x (left c k v (node red wl wk wv wr)) fs =
      round-Same (plug fs (node c x k v (node red wl wk wv wr))) (node red x k v wl)
        (left black wk wv wr ∷ fs) (black_left red x k v wl)
        (plug-Same fs (node c x k v (node red wl wk wv wr))
          (node black (node red x k v wl) wk wv wr)
          (append_assoc (entries x) ((k, v) ∷ entries wl) _))
        (black_left-Same red x k v wl)
  mend-Same x (right c nil k v) fs =
      round-Same (plug fs (node c nil k v x)) (node c nil k v x) fs (black_right c nil k v x) refl
        (black_right-Same c nil k v x)
  mend-Same x (right c (node black wl wk wv wr) k v) fs =
      round-Same (plug fs (node c (node black wl wk wv wr) k v x))
        (node c (node black wl wk wv wr) k v x) fs _ refl
        (black_right-Same c (node black wl wk wv wr) k v x)
  mend-Same x (right c (node red wl wk wv wr) k v) fs =
      round-Same (plug fs (node c (node red wl wk wv wr) k v x)) (node red wr k v x)
        (right black wl wk wv ∷ fs) (black_right red wr k v x)
        (plug-Same fs (node c (node red wl wk wv wr) k v x)
          (node black wl wk wv (node red wr k v x))
          (sym (append_assoc (entries wl) ((wk, wv) ∷ entries wr) _)))
        (black_right-Same red wr k v x)

  color-Ensures :
      (P : Tree K V → Type 0) (c : Color) (r s : Result (Tree K V))
      → Ensures P r
      → Ensures P s
      → Ensures P (elim c [ red ↦ r | black ↦ s ])
  color-Ensures P black r s h k = k
  color-Ensures P red r s h k = h

  next-Same :
      (fuel : ℕ) (t : Tree K V) (s : Step K V) (rest : List (Frame K V))
      → RoundSame t (s, rest)
      → ((u : Tree K V) → Ensures (Same (plug rest u)) (delete_fixup fuel u rest))
      → Ensures
          (Same t)
          (elim s [ up u ↦ delete_fixup fuel u rest | closed u ↦ ok (paint black (plug rest u)) ])
  next-Same fuel t (up u) rest e ih =
      Ensures-map (Same (plug rest u)) (Same t) (delete_fixup fuel u rest) (λ a h. h ∙ e) (ih u)
  next-Same fuel t (closed u) rest e ih = paint-entries black (plug rest u) ∙ e

  delete_fixup-Same :
      (fuel : ℕ) (x : Tree K V) (path : List (Frame K V))
      → Ensures (Same (plug path x)) (delete_fixup fuel x path)
  unfolding delete_fixup
  delete_fixup-Same zero x path = tt
  delete_fixup-Same (suc fuel) x [] = paint-entries black x
  delete_fixup-Same (suc fuel) x (f ∷ fs) =
      let same = Same (plug (f ∷ fs) x) in
      color-Ensures same (color_of x) _ _
        (plug-Same (f ∷ fs) x (paint black x) (paint-entries black x))
        (Ensures-bind (RoundSame (plug (f ∷ fs) x)) same (mend x f fs) _ (mend-Same x f fs)
          (λ r e. next-Same fuel (plug (f ∷ fs) x) r.0 r.1 e (λ u. delete_fixup-Same fuel u r.1)))

  pub mend_below-Same :
      (c : Color) (x : Tree K V) (path : List (Frame K V))
      → Ensures (Same (plug path x)) (mend_below c x path)
  unfolding mend_below
  mend_below-Same red x path = refl
  mend_below-Same black x path = delete_fixup-Same (length path + 2) x path

  before-append : (xs ys : List (Frame K V)) → before (xs ++ ys) ≡ before ys ++ before xs
  before-append [] ys = sym (append-nil (before ys))
  before-append (left c k v r ∷ xs) ys = before-append xs ys
  before-append (right c l k v ∷ xs) ys =
      rw (before-append xs ys) (append_assoc (before ys) (before xs) _)

  after-append : (xs ys : List (Frame K V)) → after (xs ++ ys) ≡ after xs ++ after ys
  after-append [] ys = refl
  after-append (left c k v r ∷ xs) ys =
      rw (after-append xs ys) (sym (append_assoc ((k, v) ∷ entries r) (after xs) (after ys)))
  after-append (right c l k v ∷ xs) ys = after-append xs ys

  -- The leftmost node below the parents `inner`, of which it is the left child.
  abbrev IsFirst : List (K × V) → List (Frame K V) × Color × K × V × Tree K V → Type 0
  IsFirst es (inner, c, k, v, x) = (before inner ≡ []) × (es ≡ (k, v) ∷ (entries x ++ after inner))

  find_min-IsFirst :
      (c : Color) (l : Tree K V) (k : K) (v : V) (r : Tree K V) (inner : List (Frame K V))
      (es : List (K × V))
      → before inner ≡ []
      → es ≡ entries (node c l k v r) ++ after inner
      → IsFirst es (find_min c l k v r inner)
  find_min-IsFirst c nil k v r inner es b e = (b, e)
  find_min-IsFirst c (node d l' k' v' r') k v r inner es b e =
      find_min-IsFirst d l' k' v' r' (left c k v r ∷ inner) es b
        (e ∙ append_assoc (entries (node d l' k' v' r')) ((k, v) ∷ entries r) (after inner))

  -- `delete_node` leaves all entries but that of the node, in their order.
  abbrev pub Without : Tree K V → Tree K V → List (Frame K V) → Tree K V → Type 0
  Without l r path t = entries t ≡ before path ++ ((entries l ++ entries r) ++ after path)

  pub delete_node-Without :
      (c : Color) (l : Tree K V) (k : K) (v : V) (r : Tree K V) (path : List (Frame K V))
      → Ensures (Without l r path) (delete_node c l k v r path)
  unfolding delete_node
  delete_node-Without c nil k v r path =
      Ensures-map (Same (plug path r)) (Without nil r path) (mend_below c r path)
        (λ t e. e ∙ plug-entries path r) (mend_below-Same c r path)
  delete_node-Without c (node d l' k' v' r') k v nil path =
      let l = node d l' k' v' r' in
      Ensures-map (Same (plug path l)) (Without l nil path) (mend_below c l path)
        (λ t e.
          e
          ∙ (plug-entries path l
              ∙ ap (λ es. before path ++ (es ++ after path)) (sym (append-nil (entries l)))))
        (mend_below-Same c l path)
  delete_node-Without c (node d l' k' v' r') k v (node e m km vm n) path =
      let l = node d l' k' v' r' in
      let r = node e m km vm n in
      let q = find_min e m km vm n [] in
      let base = right c l q.2 q.3 ∷ path in
      let (first, split) =
        find_min-IsFirst e m km vm n [] (entries r) refl (sym (append-nil (entries r))) in
      Ensures-map (Same (plug (q.0 ++ base) q.4)) (Without l r path)
        (mend_below q.1 q.4 (q.0 ++ base))
        (λ t same.
          same
          ∙ (plug-entries (q.0 ++ base) q.4
              ∙ rw (before-append q.0 base, after-append q.0 base, first, split)
                  (simp append_assoc)))
        (mend_below-Same q.1 q.4 (q.0 ++ base))
