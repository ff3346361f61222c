-- ===== src/RbTree/Remove/Mended.antt =====
-- `rb_delete_fixup` and `delete_node` (util/index/rbtree/rbtree.c) leave a balanced tree.
use mathlib.Core.Path.{subst}
use native.Mathlib.Nat.{suc_inj}
use ktable_fs.Base.{
  ℕ, zero, suc, ◌+◌, ◌≤◌, ◌≡◌, ◌≢◌, refl, sym, ◌⊎◌, inl, inr, List, [], ◌∷◌, length, Result, ok,
  arith,
}
use ktable_fs.RbTree.{Color, black, red, Tree, nil, node, Frame, left, right, color_of, plug, paint}
use ktable_fs.RbTree.Balance.{
  IsBalanced, PathBalanced, BlackRoot, paint-BlackRoot, plug_black, red≢black,
}
use ktable_fs.RbTree.Remove.{Step, up, closed, mend, delete_fixup}
use ktable_fs.RbTree.Remove.Steps.{AboveBalanced, Fixed, black_left-Fixed, black_right-Fixed}

module _ {K V : Type 0} where
  -- A round of the loop: if the path grew, the next node is red.
  record Round (x : Tree K V) (f : Frame K V) (fs : List (Frame K V)) (n : ℕ) : Type 0 where
    pub step : Step K V
    pub rest : List (Frame K V)
    pub color : Color
    pub runs : mend x f fs ≡ ok (step, rest)
    pub fixed : Fixed color step rest n
    pub above : AboveBalanced color rest (suc n)
    pub shorter : (color ≡ red) ⊎ (length rest ≡ length fs)

  nil-not_deep : {n : ℕ} (x : Tree K V) → IsBalanced x n → suc n ≢ 1
  nil-not_deep nil h e = omega (arith, h, e)
  nil-not_deep (node black l k v r) h e = omega (arith, h.1, e)
  nil-not_deep (node red l k v r) h e = nil-not_deep l h.0 e

  mend-Round :
      (x : Tree K V) (f : Frame K V) (fs : List (Frame K V)) (n : ℕ)
      → IsBalanced x n
      → PathBalanced (f ∷ fs) (suc n)
      → Round x f fs n
  unfolding mend
  mend-Round x (left black k v nil) fs n hx p = absurd (nil-not_deep x hx p.0)
  mend-Round x (left red k v nil) fs n hx p = absurd (nil-not_deep x hx p.0)
  mend-Round x (right black nil k v) fs n hx p = absurd (nil-not_deep x hx p.0)
  mend-Round x (right red nil k v) fs n hx p = absurd (nil-not_deep x hx p.0)
  mend-Round x (left black k v (node black wl wk wv wr)) fs n hx ((m, e, hl, hr), p) =
      let m≡n = sym (suc_inj e) in
      let (s, runs, fixed) =
        black_left-Fixed black x k v wl wk wv wr n fs hx (subst (IsBalanced wl) m≡n hl)
          (subst (IsBalanced wr) m≡n hr) p in
      record {
        step = s;
        rest = fs;
        color = black;
        runs = rw (mend, runs) refl;
        fixed = fixed;
        above = p;
        shorter = inr refl;
      }
  mend-Round x (left red k v (node black wl wk wv wr)) fs n hx ((m, e, hl, hr), b, hd, p) =
      let m≡n = sym (suc_inj e) in
      let (s, runs, fixed) =
        black_left-Fixed red x k v wl wk wv wr n fs hx (subst (IsBalanced wl) m≡n hl)
          (subst (IsBalanced wr) m≡n hr) (hd, p) in
      record {
        step = s;
        rest = fs;
        color = red;
        runs = rw (mend, runs) refl;
        fixed = fixed;
        above = (hd, p);
        shorter = inr refl;
      }
  mend-Round x (left black k v (node red nil wk wv wr)) fs n hx ((hl, hr, bl, br), p) =
      absurd (nil-not_deep x hx hl)
  mend-Round x (left black k v (node red (node black nl nk nv nr) wk wv wr)) fs n hx
        ((hl, hr, bl, br), p) =
      let (m, e, h, h') = hl in
      let m≡n = sym (suc_inj e) in
      let (s, runs, fixed) =
        black_left-Fixed red x k v nl nk nv nr n (left black wk wv wr ∷ fs) hx
          (subst (IsBalanced nl) m≡n h) (subst (IsBalanced nr) m≡n h') (refl, (hr, p)) in
      record {
        step = s;
        rest = left black wk wv wr ∷ fs;
        color = red;
        runs = rw (mend, runs) refl;
        fixed = fixed;
        above = (refl, (hr, p));
        shorter = inl refl;
      }
  mend-Round x (left black k v (node red (node red nl nk nv nr) wk wv wr)) fs n hx
        ((hl, hr, bl, br), p) =
      absurd (red≢black bl)
  mend-Round x (left red k v (node red wl wk wv wr)) fs n hx p = absurd (red≢black p.1)
  mend-Round x (right black (node black wl wk wv wr) k v) fs n hx ((m, e, hl, hr), p) =
      let m≡n = sym (suc_inj e) in
      let (s, runs, fixed) =
        black_right-Fixed black x k v wl wk wv wr n fs hx (subst (IsBalanced wl) m≡n hl)
          (subst (IsBalanced wr) m≡n hr) p in
      record {
        step = s;
        rest = fs;
        color = black;
        runs = rw (mend, runs) refl;
        fixed = fixed;
        above = p;
        shorter = inr refl;
      }
  mend-Round x (right red (node black wl wk wv wr) k v) fs n hx ((m, e, hl, hr), b, hd, p) =
      let m≡n = sym (suc_inj e) in
      let (s, runs, fixed) =
        black_right-Fixed red x k v wl wk wv wr n fs hx (subst (IsBalanced wl) m≡n hl)
          (subst (IsBalanced wr) m≡n hr) (hd, p) in
      record {
        step = s;
        rest = fs;
        color = red;
        runs = rw (mend, runs) refl;
        fixed = fixed;
        above = (hd, p);
        shorter = inr refl;
      }
  mend-Round x (right black (node red wl wk wv nil) k v) fs n hx ((hl, hr, bl, br), p) =
      absurd (nil-not_deep x hx hr)
  mend-Round x (right black (node red wl wk wv (node black nl nk nv nr)) k v) fs n hx
        ((hl, hr, bl, br), p) =
      let (m, e, h, h') = hr in
      let m≡n = sym (suc_inj e) in
      let (s, runs, fixed) =
        black_right-Fixed red x k v nl nk nv nr n (right black wl wk wv ∷ fs) hx
          (subst (IsBalanced nl) m≡n h) (subst (IsBalanced nr) m≡n h') (refl, (hl, p)) in
      record {
        step = s;
        rest = right black wl wk wv ∷ fs;
        color = red;
        runs = rw (mend, runs) refl;
        fixed = fixed;
        above = (refl, (hl, p));
        shorter = inl refl;
      }
  mend-Round x (right black (node red wl wk wv (node red nl nk nv nr)) k v) fs n hx
        ((hl, hr, bl, br), p) =
      absurd (red≢black br)
  mend-Round x (right red (node red wl wk wv wr) k v) fs n hx p = absurd (red≢black p.1)

  -- The tree under its parents when its root is black.
  paint-same : (t : Tree K V) → color_of t ≡ black → paint black t ≡ t
  paint-same nil e = refl
  paint-same (node black l k v r) e = refl
  paint-same (node red l k v r) e = absurd (red≢black e)

  paint-is_black : (t : Tree K V) → color_of (paint black t) ≡ black
  paint-is_black nil = refl
  paint-is_black (node c l k v r) = refl

  plug-black :
      (path : List (Frame K V)) (t : Tree K V) (n : ℕ)
      → PathBalanced path n
      → color_of t ≡ black
      → color_of (plug path t) ≡ black
  plug-black [] t n p e = e
  plug-black (left black k v r ∷ fs) t n p e = plug-black fs _ (suc n) p.1 refl
  plug-black (right black l k v ∷ fs) t n p e = plug-black fs _ (suc n) p.1 refl
  plug-black (left red k v r ∷ []) t n p e = absurd p.2
  plug-black (right red l k v ∷ []) t n p e = absurd p.2
  plug-black (left red k v r ∷ left black k' v' r' ∷ fs) t n p e =
      plug-black fs _ (suc n) p.3.1 refl
  plug-black (left red k v r ∷ right black l' k' v' ∷ fs) t n p e =
      plug-black fs _ (suc n) p.3.1 refl
  plug-black (right red l k v ∷ left black k' v' r' ∷ fs) t n p e =
      plug-black fs _ (suc n) p.3.1 refl
  plug-black (right red l k v ∷ right black l' k' v' ∷ fs) t n p e =
      plug-black fs _ (suc n) p.3.1 refl
  plug-black (left red k v r ∷ left red k' v' r' ∷ fs) t n p e = absurd (red≢black p.2)
  plug-black (left red k v r ∷ right red l' k' v' ∷ fs) t n p e = absurd (red≢black p.2)
  plug-black (right red l k v ∷ left red k' v' r' ∷ fs) t n p e = absurd (red≢black p.2)
  plug-black (right red l k v ∷ right red l' k' v' ∷ fs) t n p e = absurd (red≢black p.2)

  pub plug-BlackRoot :
      (path : List (Frame K V)) (t : Tree K V) (n : ℕ)
      → PathBalanced path n
      → IsBalanced t n
      → color_of t ≡ black
      → BlackRoot (plug path t)
  plug-BlackRoot path t n p h e =
      subst BlackRoot (paint-same (plug path t) (plug-black path t n p e))
        (plug_black path t n p h e)

  abbrev pub Mends : Result (Tree K V) → Type 0
  Mends r = (t : Tree K V) × (r ≡ ok t) × BlackRoot t

  -- The loop on a red node, and on a black one with fuel for its parents.
  pub red-Mends :
      (fuel : ℕ) (x : Tree K V) (path : List (Frame K V)) (n : ℕ)
      → color_of x ≡ red
      → IsBalanced (paint black x) n
      → PathBalanced path n
      → Mends (delete_fixup (suc fuel) x path)
  unfolding delete_fixup
  red-Mends fuel x [] n e h p = (_, refl, (paint-is_black x, (n, h)))
  red-Mends fuel x (f ∷ fs) n e h p =
      rw (delete_fixup, e)
        (_, refl, plug-BlackRoot (f ∷ fs) (paint black x) n p h (paint-is_black x))

  -- What follows a round, once the loop is known to mend a black node above.
  next-Mends :
      (fuel len : ℕ) (s : Step K V) (rest : List (Frame K V)) (c : Color) (n : ℕ)
      → Fixed c s rest n
      → AboveBalanced c rest (suc n)
      → ((c ≡ red) ⊎ (length rest ≡ len))
      → ((t : Tree K V)
          → color_of t ≡ black
          → IsBalanced t (suc n)
          → PathBalanced rest (suc (suc n))
          → length rest ≡ len
          → Mends (delete_fixup (suc fuel) t rest))
      → Mends (elim s [
        | up t ↦ delete_fixup (suc fuel) t rest
        | closed t ↦ ok (paint black (plug rest t))
      ])
  next-Mends fuel len (closed t) rest c n fixed above shorter ih = (_, refl, fixed)
  next-Mends fuel len (up t) rest black n fixed above (inl e) ih = absurd (red≢black (sym e))
  next-Mends fuel len (up t) rest black n fixed above (inr e) ih = ih t fixed.0 fixed.1 above e
  next-Mends fuel len (up t) rest red n fixed above shorter ih =
      red-Mends fuel t rest (suc n) fixed.0 fixed.1 above.1

  pub delete_fixup-Mends :
      (fuel : ℕ) (x : Tree K V) (path : List (Frame K V)) (n : ℕ)
      → length path + 2 ≤ fuel
      → color_of x ≡ black
      → IsBalanced x n
      → PathBalanced path (suc n)
      → Mends (delete_fixup fuel x path)
  unfolding delete_fixup
  delete_fixup-Mends zero x path n f e h p = absurd (omega arith)
  delete_fixup-Mends (suc zero) x path n f e h p = absurd (omega arith)
  delete_fixup-Mends (suc (suc fuel)) x [] n f e h p = (_, refl, paint-BlackRoot x n h)
  delete_fixup-Mends (suc (suc fuel)) x (g ∷ fs) n f e h p =
      let r = mend-Round x g fs n h p in
      rw (delete_fixup, e, r.runs)
        (next-Mends fuel (length fs) r.step r.rest r.color n r.fixed r.above r.shorter
          (λ t e' h' p' len. delete_fixup-Mends (suc fuel) t r.rest (suc n) (omega arith) e' h' p'))
