-- ===== src/PageCache/Middle.antt =====
-- `Update_` (lib/kvengine/pagecache.cc) of an entry that is neither the newest nor the oldest: it is not
-- taken out of its place.
use ktable_fs.Base.{
  ℕ, ◌≡◌, ◌≢◌, refl, sym, ap, ◌∙◌, false, none, some, List, [], ◌∷◌, arith, get_elem?, set,
  get_elem?-set_self, get_elem?-set_ne, lt_of_get_elem?, ◌==◌, ok, ok-injective,
}
use ktable_fs.PageCache.{Entry, PageCache, load, modify, update, set_prev}
use ktable_fs.PageCache.Lru.{IsLinked, is-last}

-- Two entries that follow one another are in no list.
two_cycle :
    (es : List Entry) (x y : ℕ) (ex ey : Entry) (ys : List ℕ) (c : PageCache)
    → c.entries ≡ es
    → c.newest ≡ some y
    → get_elem? es x ≡ some ex
    → get_elem? es y ≡ some ey
    → ey.next ≡ some x
    → ex.next ≡ some y
    → IsLinked c ys
    → ⊥
two_cycle es x y ex ey [] c same newest x-at y-at y-next x-next k = ground (arith, k.newest, newest)
two_cycle es x y ex ey (a ∷ []) c same newest x-at y-at y-next x-next k =
    let (fa, a-at, a-back, a-on, end) = k.links in
    let a≡y : a ≡ y = ground (arith, k.newest, newest) in
    let fa≡ : fa ≡ ey = ground (arith, same, a-at, y-at, a≡y) in ground (arith, fa≡, a-on, y-next)
two_cycle es x y ex ey (a ∷ b ∷ []) c same newest x-at y-at y-next x-next k =
    let (fa, a-at, a-back, a-on, (fb, b-at, b-back, b-on, end)) = k.links in
    let a≡y : a ≡ y = ground (arith, k.newest, newest) in
    let fa≡ : fa ≡ ey = ground (arith, same, a-at, y-at, a≡y) in
    let b≡x : b ≡ x = ground (arith, fa≡, a-on, y-next) in
    let fb≡ : fb ≡ ex = ground (arith, same, b-at, x-at, b≡x) in ground (arith, fb≡, b-on, x-next)
two_cycle es x y ex ey (a ∷ b ∷ e ∷ ys) c same newest x-at y-at y-next x-next k =
    let (fa, a-at, a-back, a-on, (fb, b-at, b-back, b-on, rest)) = k.links in
    let a≡y : a ≡ y = ground (arith, k.newest, newest) in
    let fa≡ : fa ≡ ey = ground (arith, same, a-at, y-at, a≡y) in
    let b≡x : b ≡ x = ground (arith, fa≡, a-on, y-next) in
    let fb≡ : fb ≡ ex = ground (arith, same, b-at, x-at, b≡x) in
    let e≡y : e ≡ y = ground (arith, fb≡, b-on, x-next) in k.distinct.0.1.0 (a≡y ∙ sym e≡y)

-- In a list of three or more, `Update_` of the second entry `y` leaves links that go round: `y` is the
-- newest entry, the one behind it is `x`, the old newest, and behind `x` is `y` again. The new state has
-- no list of entries without cycles.
pub update-middle :
    (c c' : PageCache) (x y z : ℕ) (rest ys : List ℕ)
    → IsLinked c (x ∷ y ∷ z ∷ rest)
    → update c y ≡ ok c'
    → (ey : Entry) × (ex : Entry) × (c'.newest ≡ some y)
      × (get_elem? c'.entries y ≡ some ey)
      × (ey.next ≡ some x)
      × (get_elem? c'.entries x ≡ some ex)
      × (ex.next ≡ some y)
      × (¬ IsLinked c' ys)
unfolding update load modify
update-middle c c' x y z rest ys k done =
    let (ex, x-at, x-back, x-on, (ey, y-at, y-back, y-on, behind)) = k.links in
    let front = record ey { next = some x; prev = none } in
    let es = set c.entries y front in
    let es' = set es x (set_prev (some y) ex) in
    let x≢y : x ≢ y = k.distinct.0.0 in
    let apart : (x == y) ≡ false = ground (arith, λ (e : x ≡ y). x≢y e) in
    let x-at' : get_elem? es x ≡ some ex =
      get_elem?-set_ne c.entries front (λ e. x≢y (sym e)) ∙ x-at in
    let run : update c y ≡ ok (record c { entries = es'; newest = some y }) =
      rw (k.newest, apart, y-at, load, k.oldest, is-last y z rest k.distinct.1.0, modify)
        (rw (y-at, modify, x-at')) in
    let end = ok-injective (sym done ∙ run) in
    let same = ap (λ (t : PageCache). t.entries) end in
    let newest = ap (λ (t : PageCache). t.newest) end in
    let x-new = get_elem?-set_self es x (set_prev (some y) ex) (lt_of_get_elem? es x x-at') in
    let y-new =
      get_elem?-set_ne es (set_prev (some y) ex) x≢y
      ∙ get_elem?-set_self c.entries y front (lt_of_get_elem? c.entries y y-at) in
    (
      front,
      set_prev (some y) ex,
      newest,
      ap (λ es. get_elem? es y) same ∙ y-new,
      refl,
      ap (λ es. get_elem? es x) same ∙ x-new,
      x-on,
      λ k'.
          two_cycle es' x y (set_prev (some y) ex) front ys c' same newest x-new y-new refl x-on k',
    )
