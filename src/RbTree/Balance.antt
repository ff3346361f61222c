-- ===== src/RbTree/Balance.antt =====
-- Balanced trees, and what `rb_insert_fixup` (util/index/rbtree/rbtree.c) makes of one.
use ktable_fs.Base.{ℕ, suc, ◌≡◌, ◌≢◌, refl, List, [], ◌∷◌, ok}
use ktable_fs.RbTree.{
  black, red, Tree, nil, node, Frame, left, right, color_of, frame_color, plug, paint, insert_fixup,
}

pub red≢black : red ≢ black
red≢black e = cc

module _ {K V : Type 0} where
  -- Every path has `n` black nodes, the end included, and no red node has a red child.
  abbrev pub IsBalanced : Tree K V → ℕ → Type 0
  IsBalanced nil n = n ≡ 1
  IsBalanced (node black l k v r) n = (m : ℕ) × (n ≡ suc m) × IsBalanced l m × IsBalanced r m
  IsBalanced (node red l k v r) n =
      IsBalanced l n × IsBalanced r n × (color_of l ≡ black) × (color_of r ≡ black)

  abbrev pub HeadBlack : List (Frame K V) → Type 0
  HeadBlack [] = ⊥
  HeadBlack (f ∷ fs) = frame_color f ≡ black

  -- The parents of a tree with `n` black nodes on every path.
  abbrev pub PathBalanced : List (Frame K V) → ℕ → Type 0
  PathBalanced [] n = Unit
  PathBalanced (left black k v r ∷ fs) n = IsBalanced r n × PathBalanced fs (suc n)
  PathBalanced (right black l k v ∷ fs) n = IsBalanced l n × PathBalanced fs (suc n)
  PathBalanced (left red k v r ∷ fs) n =
      IsBalanced r n × (color_of r ≡ black) × HeadBlack fs × PathBalanced fs n
  PathBalanced (right red l k v ∷ fs) n =
      IsBalanced l n × (color_of l ≡ black) × HeadBlack fs × PathBalanced fs n

  -- A root that was painted black.
  abbrev pub BlackRoot : Tree K V → Type 0
  BlackRoot t = (color_of t ≡ black) × ((m : ℕ) × IsBalanced t m)

  pub paint-BlackRoot : (t : Tree K V) (n : ℕ) → IsBalanced t n → BlackRoot (paint black t)
  paint-BlackRoot nil n h = (refl, (n, h))
  paint-BlackRoot (node black l k v r) n h = (refl, (n, h))
  paint-BlackRoot (node red l k v r) n h = (refl, (suc n, (n, refl, h.0, h.1)))

  -- A balanced tree under balanced parents: with a black root, or under a black parent.
  mutual
    pub plug_black :
        (fs : List (Frame K V)) (t : Tree K V) (n : ℕ)
        → PathBalanced fs n
        → IsBalanced t n
        → color_of t ≡ black
        → BlackRoot (paint black (plug fs t))
    plug_black [] t n p h c = paint-BlackRoot t n h
    plug_black (left black k v r ∷ fs) t n p h c =
        plug_black fs (node black t k v r) (suc n) p.1 (n, refl, h, p.0) refl
    plug_black (right black l k v ∷ fs) t n p h c =
        plug_black fs (node black l k v t) (suc n) p.1 (n, refl, p.0, h) refl
    plug_black (left red k v r ∷ fs) t n p h c =
        plug_any fs (node red t k v r) n p.2 p.3 (h, p.0, c, p.1)
    plug_black (right red l k v ∷ fs) t n p h c =
        plug_any fs (node red l k v t) n p.2 p.3 (p.0, h, p.1, c)

    pub plug_any :
        (fs : List (Frame K V)) (t : Tree K V) (n : ℕ)
        → HeadBlack fs
        → PathBalanced fs n
        → IsBalanced t n
        → BlackRoot (paint black (plug fs t))
    plug_any [] t n b p h = absurd b
    plug_any (left black k v r ∷ fs) t n b p h =
        plug_black fs (node black t k v r) (suc n) p.1 (n, refl, h, p.0) refl
    plug_any (right black l k v ∷ fs) t n b p h =
        plug_black fs (node black l k v t) (suc n) p.1 (n, refl, p.0, h) refl
    plug_any (left red k v r ∷ fs) t n b p h = absurd (red≢black b)
    plug_any (right red l k v ∷ fs) t n b p h = absurd (red≢black b)

  -- A red node under a red parent and a black grandparent: what the loop does to the three.
  pub fixup-BlackRoot :
      (l : Tree K V) (k : K) (v : V) (r : Tree K V) (path : List (Frame K V)) (n : ℕ)
      → IsBalanced (node red l k v r) n
      → PathBalanced path n
      → (t : Tree K V) × (insert_fixup (node red l k v r) path ≡ ok t) × BlackRoot t
  unfolding insert_fixup
  fixup-BlackRoot l k v r [] n h p = (_, refl, paint-BlackRoot (node red l k v r) n h)
  fixup-BlackRoot l k v r (left black k' v' r' ∷ []) n h p =
      (_, refl, plug_any (left black k' v' r' ∷ []) (node red l k v r) n refl p h)
  fixup-BlackRoot l k v r (right black l' k' v' ∷ []) n h p =
      (_, refl, plug_any (right black l' k' v' ∷ []) (node red l k v r) n refl p h)
  fixup-BlackRoot l k v r (left red k' v' r' ∷ []) n h p = absurd p.2
  fixup-BlackRoot l k v r (right red l' k' v' ∷ []) n h p = absurd p.2
  fixup-BlackRoot l k v r (left black k' v' r' ∷ g ∷ fs) n h p =
      (_, refl, plug_any (left black k' v' r' ∷ g ∷ fs) (node red l k v r) n refl p h)
  fixup-BlackRoot l k v r (right black l' k' v' ∷ g ∷ fs) n h p =
      (_, refl, plug_any (right black l' k' v' ∷ g ∷ fs) (node red l k v r) n refl p h)
  fixup-BlackRoot l k v r (left red k' v' r' ∷ left red k'' v'' u ∷ fs) n h p =
      absurd (red≢black p.2)
  fixup-BlackRoot l k v r (left red k' v' r' ∷ right red u k'' v'' ∷ fs) n h p =
      absurd (red≢black p.2)
  fixup-BlackRoot l k v r (right red l' k' v' ∷ left red k'' v'' u ∷ fs) n h p =
      absurd (red≢black p.2)
  fixup-BlackRoot l k v r (right red l' k' v' ∷ right red u k'' v'' ∷ fs) n h p =
      absurd (red≢black p.2)
  fixup-BlackRoot l k v r (left red k' v' r' ∷ left black k'' v'' (node red ul uk uv ur) ∷ fs) n h
        p =
      let u = p.3.0 in
      fixup-BlackRoot (node black (node red l k v r) k' v' r') k'' v'' (node black ul uk uv ur) fs
        (suc n) ((n, refl, h, p.0), (n, refl, u.0, u.1), refl, refl) p.3.1
  fixup-BlackRoot l k v r (left red k' v' r' ∷ right black (node red ul uk uv ur) k'' v'' ∷ fs) n h
        p =
      let u = p.3.0 in
      fixup-BlackRoot (node black ul uk uv ur) k'' v'' (node black (node red l k v r) k' v' r') fs
        (suc n) ((n, refl, u.0, u.1), (n, refl, h, p.0), refl, refl) p.3.1
  fixup-BlackRoot l k v r (right red l' k' v' ∷ left black k'' v'' (node red ul uk uv ur) ∷ fs) n h
        p =
      let u = p.3.0 in
      fixup-BlackRoot (node black l' k' v' (node red l k v r)) k'' v'' (node black ul uk uv ur) fs
        (suc n) ((n, refl, p.0, h), (n, refl, u.0, u.1), refl, refl) p.3.1
  fixup-BlackRoot l k v r (right red l' k' v' ∷ right black (node red ul uk uv ur) k'' v'' ∷ fs) n h
        p =
      let u = p.3.0 in
      fixup-BlackRoot (node black ul uk uv ur) k'' v'' (node black l' k' v' (node red l k v r)) fs
        (suc n) ((n, refl, u.0, u.1), (n, refl, p.0, h), refl, refl) p.3.1
  fixup-BlackRoot l k v r (left red k' v' r' ∷ left black k'' v'' nil ∷ fs) n h p = (
    _,
    refl,
    plug_black fs (node black (node red l k v r) k' v' (node red r' k'' v'' nil)) (suc n) p.3.1
        (n, refl, h, (p.0, p.3.0, p.1, refl)) refl,
  )
  fixup-BlackRoot l k v r (right red l' k' v' ∷ left black k'' v'' nil ∷ fs) n h p = (
    _,
    refl,
    plug_black fs (node black (node red l' k' v' l) k v (node red r k'' v'' nil)) (suc n) p.3.1
        (n, refl, (p.0, h.0, p.1, h.2), (h.1, p.3.0, h.3, refl)) refl,
  )
  fixup-BlackRoot l k v r (left red k' v' r' ∷ right black nil k'' v'' ∷ fs) n h p = (
    _,
    refl,
    plug_black fs (node black (node red nil k'' v'' l) k v (node red r k' v' r')) (suc n) p.3.1
        (n, refl, (p.3.0, h.0, refl, h.2), (h.1, p.0, h.3, p.1)) refl,
  )
  fixup-BlackRoot l k v r (right red l' k' v' ∷ right black nil k'' v'' ∷ fs) n h p = (
    _,
    refl,
    plug_black fs (node black (node red nil k'' v'' l') k' v' (node red l k v r)) (suc n) p.3.1
        (n, refl, (p.3.0, p.0, refl, p.1), h) refl,
  )
  fixup-BlackRoot l k v r (left red k' v' r' ∷ left black k'' v'' (node black ul uk uv ur) ∷ fs) n h
        p =
      (
        _,
        refl,
        plug_black fs
            (node black (node red l k v r) k' v' (node red r' k'' v'' (node black ul uk uv ur)))
            (suc n) p.3.1 (n, refl, h, (p.0, p.3.0, p.1, refl)) refl,
      )
  fixup-BlackRoot l k v r (right red l' k' v' ∷ left black k'' v'' (node black ul uk uv ur) ∷ fs) n
        h p =
      (
        _,
        refl,
        plug_black fs
            (node black (node red l' k' v' l) k v (node red r k'' v'' (node black ul uk uv ur)))
            (suc n) p.3.1 (n, refl, (p.0, h.0, p.1, h.2), (h.1, p.3.0, h.3, refl)) refl,
      )
  fixup-BlackRoot l k v r (left red k' v' r' ∷ right black (node black ul uk uv ur) k'' v'' ∷ fs) n
        h p =
      (
        _,
        refl,
        plug_black fs
            (node black (node red (node black ul uk uv ur) k'' v'' l) k v (node red r k' v' r'))
            (suc n) p.3.1 (n, refl, (p.3.0, h.0, refl, h.2), (h.1, p.0, h.3, p.1)) refl,
      )
  fixup-BlackRoot l k v r (right red l' k' v' ∷ right black (node black ul uk uv ur) k'' v'' ∷ fs) n
        h p =
      (
        _,
        refl,
        plug_black fs
            (node black (node red (node black ul uk uv ur) k'' v'' l') k' v' (node red l k v r))
            (suc n) p.3.1 (n, refl, (p.3.0, p.0, refl, p.1), h) refl,
      )
