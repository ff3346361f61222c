-- ===== src/RbTree/Entries.antt =====
-- The entries that `rbtree_insert` (util/index/rbtree/rbtree.c) leaves in the tree.
use mathlib.Core.List.{append_assoc, append-nil}
use ktable_fs.Base.{
  ◌≡◌, refl, sym, ap, ◌∙◌, List, [], ◌∷◌, ◌++◌, Result, Ensures, Ensures-bind, Ensures-map,
}
use ktable_fs.RbTree.{
  Color, black, red, Tree, nil, node, Frame, left, right, color_of, frame_color, sibling, plug_one,
  plug, paint, left_rotate, right_rotate, recolor, rotate_up, align_left, align_right, insert_fixup,
}

module _ {K V : Type 0} where
  -- From the left to the right.
  abbrev pub entries : Tree K V → List (K × V)
  entries nil = []
  entries (node c l k v r) = entries l ++ ((k, v) ∷ entries r)

  -- The entries on the left and on the right of the place under the parents.
  abbrev pub before : List (Frame K V) → List (K × V)
  before [] = []
  before (left c k v r ∷ fs) = before fs
  before (right c l k v ∷ fs) = before fs ++ (entries l ++ ((k, v) ∷ []))

  abbrev pub after : List (Frame K V) → List (K × V)
  after [] = []
  after (left c k v r ∷ fs) = ((k, v) ∷ entries r) ++ after fs
  after (right c l k v ∷ fs) = after fs

  pub plug-entries :
      (fs : List (Frame K V)) (t : Tree K V)
      → entries (plug fs t) ≡ before fs ++ (entries t ++ after fs)
  plug-entries [] t = sym (append-nil (entries t))
  plug-entries (left c k v r ∷ fs) t = rw (plug-entries fs (node c t k v r)) (simp append_assoc)
  plug-entries (right c l k v ∷ fs) t = rw (plug-entries fs (node c l k v t)) (simp append_assoc)

  pub paint-entries : (c : Color) (t : Tree K V) → entries (paint c t) ≡ entries t
  paint-entries c nil = refl
  paint-entries c (node d l k v r) = refl

  -- Trees that hold the same entries in the same order.
  abbrev pub Same : Tree K V → Tree K V → Type 0
  Same t u = entries u ≡ entries t

  pub plug-Same : (fs : List (Frame K V)) (t u : Tree K V) → Same t u → Same (plug fs t) (plug fs u)
  plug-Same fs t u e = rw (plug-entries fs t, plug-entries fs u, e) refl

  recolor-Same : (f g : Frame K V) (z : Tree K V) → Same (plug (f ∷ g ∷ []) z) (recolor f g z)
  unfolding recolor
  recolor-Same f (left c k v r) z =
      rw (paint-entries black (plug_one f z), paint-entries black r) refl
  recolor-Same f (right c l k v) z =
      rw (paint-entries black (plug_one f z), paint-entries black l) refl

  pub left_rotate-Same : (t : Tree K V) → Ensures (Same t) (left_rotate t)
  unfolding left_rotate
  left_rotate-Same nil = tt
  left_rotate-Same (node c a k v nil) = tt
  left_rotate-Same (node c a k v (node d b k' v' e)) =
      append_assoc (entries a) ((k, v) ∷ entries b) _

  pub right_rotate-Same : (t : Tree K V) → Ensures (Same t) (right_rotate t)
  unfolding right_rotate
  right_rotate-Same nil = tt
  right_rotate-Same (node c nil k v e) = tt
  right_rotate-Same (node c (node d a k' v' b) k v e) =
      sym (append_assoc (entries a) ((k', v') ∷ entries b) _)

  align_left-Same : (f : Frame K V) (z : Tree K V) → Ensures (Same (plug_one f z)) (align_left f z)
  unfolding align_left
  align_left-Same (left c k v r) z = refl
  align_left-Same (right c l k v) z = left_rotate-Same (node c l k v z)

  align_right-Same :
      (f : Frame K V) (z : Tree K V) → Ensures (Same (plug_one f z)) (align_right f z)
  unfolding align_right
  align_right-Same (left c k v r) z = right_rotate-Same (node c z k v r)
  align_right-Same (right c l k v) z = refl

  rotate_up-Same :
      (f g : Frame K V) (z : Tree K V) → Ensures (Same (plug (f ∷ g ∷ []) z)) (rotate_up f g z)
  unfolding rotate_up
  rotate_up-Same f (left c k v r) z =
      Ensures-bind (Same (plug_one f z)) _ (align_left f z) _ (align_left-Same f z) (λ p same.
        Ensures-map _ _ (right_rotate (node red (paint black p) k v r))
          (λ t e. e ∙ ap (λ es. es ++ ((k, v) ∷ entries r)) (paint-entries black p ∙ same))
          (right_rotate-Same (node red (paint black p) k v r)))
  rotate_up-Same f (right c l k v) z =
      Ensures-bind (Same (plug_one f z)) _ (align_right f z) _ (align_right-Same f z) (λ p same.
        Ensures-map _ _ (left_rotate (node red l k v (paint black p)))
          (λ t e. e ∙ ap (λ es. entries l ++ ((k, v) ∷ es)) (paint-entries black p ∙ same))
          (left_rotate-Same (node red l k v (paint black p))))

  -- Either color of a node that is tested.
  color-Ensures :
      (P : Tree K V → Type 0) (c : Color) (r s : Result (Tree K V))
      → Ensures P r
      → Ensures P s
      → Ensures P (elim c [ black ↦ r | red ↦ s ])
  color-Ensures P black r s h k = h
  color-Ensures P red r s h k = k

  pub insert_fixup-Same :
      (z : Tree K V) (path : List (Frame K V)) → Ensures (Same (plug path z)) (insert_fixup z path)
  unfolding insert_fixup
  insert_fixup-Same z [] = paint-entries black z
  insert_fixup-Same z (f ∷ []) =
      color-Ensures (Same (plug_one f z)) (frame_color f) _ _ (paint-entries black (plug_one f z))
        tt
  insert_fixup-Same z (f ∷ g ∷ rest) =
      let same = Same (plug (f ∷ g ∷ rest) z) in
      color-Ensures same (frame_color f) _ _ (paint-entries black (plug (f ∷ g ∷ rest) z)) (
        color-Ensures same (color_of (sibling g)) _ _
          (Ensures-bind (Same (plug (f ∷ g ∷ []) z)) same (rotate_up f g z) _ (rotate_up-Same f g z)
            (λ t e. paint-entries black (plug rest t) ∙ plug-Same rest _ t e))
          (Ensures-map (Same (plug rest (recolor f g z))) same (insert_fixup (recolor f g z) rest)
            (λ t e. e ∙ plug-Same rest _ (recolor f g z) (recolor-Same f g z))
            (insert_fixup-Same (recolor f g z) rest)))
