-- ===== src/RbTree/Remove/Steps.antt =====
-- One round of `rb_delete_fixup` (util/index/rbtree/rbtree.c) with a black sibling.
use ktable_fs.Base.{ℕ, suc, ◌≡◌, refl, List, ok}
use ktable_fs.RbTree.{
  Color, black, red, Tree, nil, node, Frame, color_of, plug, paint, left_rotate, right_rotate,
}
use ktable_fs.RbTree.Balance.{IsBalanced, HeadBlack, PathBalanced, BlackRoot, plug_black, plug_any}
use ktable_fs.RbTree.Remove.{Step, up, closed, black_left, black_right}

module _ {K V : Type 0} where
  -- The parents of a tree that had `n` black nodes on every path below a node with color `c`.
  abbrev pub AboveBalanced : Color → List (Frame K V) → ℕ → Type 0
  AboveBalanced black fs n = PathBalanced fs (suc n)
  AboveBalanced red fs n = HeadBlack fs × PathBalanced fs n

  -- One black node is missing on every path, or the node is red and has only to become black.
  abbrev pub Lower : Color → Tree K V → ℕ → Type 0
  Lower black t n = IsBalanced t (suc n)
  Lower red t n = IsBalanced (paint black t) (suc n)

  -- A round ends with a tree that lacks one black node, or with nothing left to mend.
  abbrev pub Fixed : Color → Step K V → List (Frame K V) → ℕ → Type 0
  Fixed c (up t) fs n = (color_of t ≡ c) × Lower c t n
  Fixed c (closed t) fs n = BlackRoot (paint black (plug fs t))

  -- A node with two black children in place of a node that was in balance.
  closed-BlackRoot :
      (c : Color) (fs : List (Frame K V)) (n : ℕ) (p q r s : Tree K V) (k k' k'' : K) (v v' v'' : V)
      → AboveBalanced c fs (suc n)
      → IsBalanced p n
      → IsBalanced q n
      → IsBalanced r n
      → IsBalanced s n
      → BlackRoot
          (paint black (plug fs (node c (node black p k v q) k' v' (node black r k'' v'' s))))
  closed-BlackRoot black fs n p q r s k k' k'' v v' v'' a hp hq hr hs =
      plug_black fs _ (suc (suc n)) a (suc n, refl, (n, refl, hp, hq), (n, refl, hr, hs)) refl
  closed-BlackRoot red fs n p q r s k k' k'' v v' v'' a hp hq hr hs =
      plug_any fs _ (suc n) a.0 a.1 ((n, refl, hp, hq), (n, refl, hr, hs), refl, refl)

  up_left :
      (c : Color) (x : Tree K V) (k : K) (v : V) (wl : Tree K V) (wk : K) (wv : V) (wr : Tree K V)
      (n : ℕ)
      → IsBalanced x n
      → IsBalanced wl n
      → IsBalanced wr n
      → color_of wl ≡ black
      → color_of wr ≡ black
      → Lower c (node c x k v (node red wl wk wv wr)) n
  up_left black x k v wl wk wv wr n hx hl hr bl br = (n, refl, hx, (hl, hr, bl, br))
  up_left red x k v wl wk wv wr n hx hl hr bl br = (n, refl, hx, (hl, hr, bl, br))

  up_right :
      (c : Color) (wl : Tree K V) (wk : K) (wv : V) (wr : Tree K V) (k : K) (v : V) (x : Tree K V)
      (n : ℕ)
      → IsBalanced x n
      → IsBalanced wl n
      → IsBalanced wr n
      → color_of wl ≡ black
      → color_of wr ≡ black
      → Lower c (node c (node red wl wk wv wr) k v x) n
  up_right black wl wk wv wr k v x n hx hl hr bl br = (n, refl, (hl, hr, bl, br), hx)
  up_right red wl wk wv wr k v x n hx hl hr bl br = (n, refl, (hl, hr, bl, br), hx)

  -- The sibling of a black node that lacks one black node on every path.
  pub black_left-Fixed :
      (c : Color) (x : Tree K V) (k : K) (v : V) (wl : Tree K V) (wk : K) (wv : V) (wr : Tree K V)
      (n : ℕ) (fs : List (Frame K V))
      → IsBalanced x n
      → IsBalanced wl n
      → IsBalanced wr n
      → AboveBalanced c fs (suc n)
      → (s : Step K V) × (black_left c x k v (node black wl wk wv wr) ≡ ok s) × Fixed c s fs n
  unfolding black_left left_rotate right_rotate
  black_left-Fixed c x k v nil wk wv nil n fs hx hl hr a =
      (_, refl, (refl, up_left c x k v nil wk wv nil n hx hl hr refl refl))
  black_left-Fixed c x k v nil wk wv (node black r rk rv s) n fs hx hl hr a =
      (_, refl, (refl, up_left c x k v nil wk wv (node black r rk rv s) n hx hl hr refl refl))
  black_left-Fixed c x k v nil wk wv (node red r rk rv s) n fs hx hl hr a =
      (_, refl, closed-BlackRoot c fs n x nil r s k wk rk v wv rv a hx hl hr.0 hr.1)
  black_left-Fixed c x k v (node black p lk lv q) wk wv nil n fs hx hl hr a =
      (_, refl, (refl, up_left c x k v (node black p lk lv q) wk wv nil n hx hl hr refl refl))
  black_left-Fixed c x k v (node black p lk lv q) wk wv (node black r rk rv s) n fs hx hl hr a = (
    _,
    refl,
    (
      refl,
      up_left c x k v (node black p lk lv q) wk wv (node black r rk rv s) n hx hl hr refl refl,
    ),
  )
  black_left-Fixed c x k v (node black p lk lv q) wk wv (node red r rk rv s) n fs hx hl hr a = (
    _,
    refl,
    closed-BlackRoot c fs n x (node black p lk lv q) r s k wk rk v wv rv a hx hl hr.0 hr.1,
  )
  black_left-Fixed c x k v (node red p lk lv q) wk wv nil n fs hx hl hr a =
      (_, refl, closed-BlackRoot c fs n x p q nil k lk wk v lv wv a hx hl.0 hl.1 hr)
  black_left-Fixed c x k v (node red p lk lv q) wk wv (node black r rk rv s) n fs hx hl hr a = (
    _,
    refl,
    closed-BlackRoot c fs n x p q (node black r rk rv s) k lk wk v lv wv a hx hl.0 hl.1 hr,
  )
  black_left-Fixed c x k v (node red p lk lv q) wk wv (node red r rk rv s) n fs hx hl hr a = (
    _,
    refl,
    closed-BlackRoot c fs n x (node red p lk lv q) r s k wk rk v wv rv a hx hl hr.0 hr.1,
  )

  -- The sibling of a black node that lacks one black node on every path.
  pub black_right-Fixed :
      (c : Color) (x : Tree K V) (k : K) (v : V) (wl : Tree K V) (wk : K) (wv : V) (wr : Tree K V)
      (n : ℕ) (fs : List (Frame K V))
      → IsBalanced x n
      → IsBalanced wl n
      → IsBalanced wr n
      → AboveBalanced c fs (suc n)
      → (s : Step K V) × (black_right c (node black wl wk wv wr) k v x ≡ ok s) × Fixed c s fs n
  unfolding black_right left_rotate right_rotate
  black_right-Fixed c x k v nil wk wv nil n fs hx hl hr a =
      (_, refl, (refl, up_right c nil wk wv nil k v x n hx hl hr refl refl))
  black_right-Fixed c x k v nil wk wv (node black r rk rv s) n fs hx hl hr a =
      (_, refl, (refl, up_right c nil wk wv (node black r rk rv s) k v x n hx hl hr refl refl))
  black_right-Fixed c x k v nil wk wv (node red r rk rv s) n fs hx hl hr a =
      (_, refl, closed-BlackRoot c fs n nil r s x wk rk k wv rv v a hl hr.0 hr.1 hx)
  black_right-Fixed c x k v (node black p lk lv q) wk wv nil n fs hx hl hr a =
      (_, refl, (refl, up_right c (node black p lk lv q) wk wv nil k v x n hx hl hr refl refl))
  black_right-Fixed c x k v (node black p lk lv q) wk wv (node black r rk rv s) n fs hx hl hr a = (
    _,
    refl,
    (
      refl,
      up_right c (node black p lk lv q) wk wv (node black r rk rv s) k v x n hx hl hr refl refl,
    ),
  )
  black_right-Fixed c x k v (node black p lk lv q) wk wv (node red r rk rv s) n fs hx hl hr a = (
    _,
    refl,
    closed-BlackRoot c fs n (node black p lk lv q) r s x wk rk k wv rv v a hl hr.0 hr.1 hx,
  )
  black_right-Fixed c x k v (node red p lk lv q) wk wv nil n fs hx hl hr a =
      (_, refl, closed-BlackRoot c fs n p q nil x lk wk k lv wv v a hl.0 hl.1 hr hx)
  black_right-Fixed c x k v (node red p lk lv q) wk wv (node black r rk rv s) n fs hx hl hr a = (
    _,
    refl,
    closed-BlackRoot c fs n p q (node black r rk rv s) x lk wk k lv wv v a hl.0 hl.1 hr hx,
  )
  black_right-Fixed c x k v (node red p lk lv q) wk wv (node red r rk rv s) n fs hx hl hr a = (
    _,
    refl,
    closed-BlackRoot c fs n p q (node red r rk rv s) x lk wk k lv wv v a hl.0 hl.1 hr hx,
  )
