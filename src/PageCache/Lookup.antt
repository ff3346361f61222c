-- ===== src/PageCache/Lookup.antt =====
-- `PageCache::Lookup` (lib/kvengine/pagecache.cc) against the index, and what it leaves of the list.
use mathlib.Core.Path.{subst}
use ktable_fs.Base.{
  get_elem?_of_lt, lt_of_get_elem?, length-set, ℕ, zero, suc, ◌<◌, ◌≡◌, ◌≢◌, refl, sym, ap, ◌∙◌,
  ◌⊎◌, inl, inr, true, false, Option, none, some, List, [], ◌∷◌, arith, length, get_elem?, set,
  ◌>>=◌, ==_iff, ok, All, Bool-cases, Option-cases, ◌==◌, find,
}
use ktable_fs.PageCache.{
  Entry, PageCache, load, modify, is, update, lookup, Walk, hit, end, more, walk, set_prev,
  set_next, cut_oldest,
}
use ktable_fs.PageCache.Links.{first_or, Linked}
use ktable_fs.PageCache.Lru.{IsLinked, modify-ok}

abbrev pub In : ℕ → List ℕ → Type 0
In i [] = ⊥
In i (x ∷ xs) = (i ≡ x) ⊎ In i xs

-- The index has the entries of the list, each under its hash, and no other.
pub record IsIndexed (c : PageCache) (xs : List ℕ) : Type 0 where
  pub indexed :
      (i : ℕ) (e : Entry)
      → get_elem? c.entries i ≡ some e
      → (find e.hash c.index ≡ some i) × (e.valid ≡ true)
  pub listed :
      (hash i : ℕ)
      → find hash c.index ≡ some i
      → (e : Entry) × (get_elem? c.entries i ≡ some e) × (e.hash ≡ hash) × In i xs

abbrev NoHash : PageCache → ℕ → ℕ → Type 0
NoHash c hash i = (e : Entry) → get_elem? c.entries i ≡ some e → e.hash ≢ hash

-- What the loop finds on a part of the list.
data Found (c : PageCache) (hash : ℕ) (ys : List ℕ) : Walk → Type 0 where
  listed_at : (i : ℕ) → find hash c.index ≡ some i → In i ys → Found c hash ys (hit i)
  nowhere : All (NoHash c hash) ys → Found c hash ys end
  open_end : Found c hash ys more

behind :
    (c : PageCache) (hash y : ℕ) (e : Entry) (ys : List ℕ) {w : Walk}
    → get_elem? c.entries y ≡ some e
    → (e.hash == hash) ≡ false
    → Found c hash ys w
    → Found c hash (y ∷ ys) w
behind c hash y e ys y-at other (listed_at i there i-in) = listed_at i there (inr i-in)
behind c hash y e ys y-at other (nowhere out) =
    nowhere ((λ e' at' same. ground (arith, y-at, at', same)), out)
behind c hash y e ys y-at other open_end = open_end

walk_lem :
    (c : PageCache) (hash n : ℕ) (p : Option ℕ) (xs ys : List ℕ)
    → IsIndexed c xs
    → Linked c.entries p ys none
    → (w : Walk) × (walk n c (first_or ys none) hash ≡ ok w) × Found c hash ys w
unfolding walk
walk_lem c hash zero p xs ys k h = (more, refl, open_end)
walk_lem c hash (suc n) p xs [] k h = (end, refl, nowhere tt)
walk_lem c hash (suc n) p xs (y ∷ ys) k (e, y-at, back, on, rest) =
    let (indexed, valid) = k.indexed y e y-at in
    elim (Bool-cases (e.hash == hash)) [
      | inl same ↦
          let there : find hash c.index ≡ some y =
            ap (λ h. find h c.index) (sym ((==_iff e.hash hash).0 same)) ∙ indexed in
          (hit y, rw (y-at, walk, valid, same), listed_at y there (inl refl))
      | inr other ↦ next other indexed valid (walk_lem c hash n (some y) xs ys k rest)
    ]
  where
    next :
        (e.hash == hash) ≡ false
        → find e.hash c.index ≡ some y
        → e.valid ≡ true
        → (w : Walk) × (walk n c (first_or ys none) hash ≡ ok w) × Found c hash ys w
        → (w : Walk) × (walk (suc n) c (some y) hash ≡ ok w) × Found c hash (y ∷ ys) w
    next other indexed valid (w, run, f) =
        (w, rw (y-at, walk, valid, other, on) run, behind c hash y e ys y-at other f)

modify-total :
    (c : PageCache) (i : ℕ) (f : Entry → Entry)
    → i < length c.entries
    → (e : Entry) × (get_elem? c.entries i ≡ some e)
      × (modify c (some i) f ≡ ok (record c { entries = set c.entries i (f e) }))
modify-total c i f below =
    let (e, at) = get_elem?_of_lt c.entries i below in (e, at, modify-ok c i e f at)

-- The entries of a list are there, and all but the first have one before them.
In-at :
    (es : List Entry) (p : Option ℕ) (ys : List ℕ) (q : Option ℕ) (y : ℕ)
    → Linked es p ys q
    → In y ys
    → y < length es
In-at es p [] q y h i = elim i [ ]
In-at es p (x ∷ xs) q y (e, at, back, on, rest) (inl same) = rw same (lt_of_get_elem? es x at)
In-at es p (x ∷ xs) q y (e, at, back, on, rest) (inr i) = In-at es (some x) xs q y rest i

In-before :
    (es : List Entry) (p : ℕ) (ys : List ℕ) (q : Option ℕ) (y : ℕ)
    → Linked es (some p) ys q
    → p < length es
    → In y ys
    → (e : Entry) × (w : ℕ) × (get_elem? es y ≡ some e) × (e.prev ≡ some w) × (w < length es)
In-before es p [] q y h below i = elim i [ ]
In-before es p (x ∷ xs) q y (e, at, back, on, rest) below (inl same) =
    (e, p, ap (get_elem? es) same ∙ at, back, below)
In-before es p (x ∷ xs) q y (e, at, back, on, rest) below (inr i) =
    In-before es x xs q y rest (lt_of_get_elem? es x at) i

-- The end of `Update_`: `y` comes before `x`.
front-total :
    (c : PageCache) (x y : ℕ)
    → x < length c.entries
    → y < length c.entries
    → (c' : PageCache) × ((do
      c2 ← modify c (some y) (λ e. record e { next = some x; prev = none })
      c3 ← modify c2 (some x) (set_prev (some y))
      ok (record c3 { newest = some y }))
        ≡ ok c')
front-total c x y x-below y-below =
    let (e, at, done) = modify-total c y (λ e. record e { next = some x; prev = none }) y-below in
    let front = record e { next = some x; prev = none } in
    let c2 = record c { entries = set c.entries y front } in
    let (ex, x-at, done') =
      modify-total c2 x (set_prev (some y)) (omega (arith, length-set {0} c.entries y front)) in
    (
      record c2 { entries = set c2.entries x (set_prev (some y) ex); newest = some y },
      rw (done, done'),
    )

-- `Update_` of an entry of the list comes to an end.
update-total :
    (c : PageCache) (xs : List ℕ) (y : ℕ)
    → IsLinked c xs
    → In y xs
    → (c' : PageCache) × (update c y ≡ ok c')
unfolding update load
update-total c [] y k i = elim i [ ]
update-total c (x ∷ xs) y k i = elim (Bool-cases (x == y)) [
  | inl same ↦ (c, rw (k.newest, same))
  | inr other ↦ elim i [
    | inl y≡x ↦ absurd (ground (arith, y≡x))
    | inr later ↦ moved other later k.links
  ]
]
  where
    moved :
        (x == y) ≡ false
        → In y xs
        → Linked c.entries none (x ∷ xs) none
        → (c' : PageCache) × (update c y ≡ ok c')
    moved other later (ex, x-at, back, on, rest) =
        let x-below = lt_of_get_elem? c.entries x x-at in
        let (e, w, y-at, prev, w-below) = In-before c.entries x xs none y rest x-below later in
        let y-below = lt_of_get_elem? c.entries y y-at in
        elim (Bool-cases (is c.oldest y)) [
          | inl last ↦
              let (ew, w-at, cut) =
                modify-total (record c { newest = some x; oldest = some w }) w (set_next none)
                  w-below in
              let longer = length-set {0} c.entries w (set_next none ew) in
              let (c', done) =
                front-total
                  (record c {
                    newest = some x;
                    oldest = some w;
                    entries = set c.entries w (set_next none ew);
                  })
                  x y (omega (arith, longer)) (omega (arith, longer)) in
              (c', rw (k.newest, other, y-at, load, last, cut_oldest, prev, cut) done)
          | inr before ↦
              let (c', done) = front-total (record c { newest = some x }) x y x-below y-below in
              (c', rw (k.newest, other, y-at, load, before) done)
        ]

All-In :
    (c : PageCache) (hash i : ℕ) (xs : List ℕ) → All (NoHash c hash) xs → In i xs → NoHash c hash i
All-In c hash i [] h k = absurd k
All-In c hash i (x ∷ xs) h (inl same) = subst (NoHash c hash) (sym same) h.0
All-In c hash i (x ∷ xs) h (inr k) = All-In c hash i xs h.1 k

-- A look-up that finds nothing changes nothing.
pub lookup-none :
    (c : PageCache) (xs : List ℕ) (hash : ℕ)
    → IsLinked c xs
    → IsIndexed c xs
    → find hash c.index ≡ none
    → lookup c hash ≡ ok (none, c)
unfolding lookup load
lookup-none c xs hash k ix absent =
    let (w, run, f) = walk_lem c hash 20 none xs xs ix k.links in
    answer f (ap (λ p. walk 20 c p hash) k.newest ∙ run)
  where
    answer :
        {w : Walk}
        → Found c hash xs w
        → walk 20 c c.newest hash ≡ ok w
        → lookup c hash ≡ ok (none, c)
    answer (listed_at i there i-in) run = absurd (ground (arith, there, absent))
    answer (nowhere out) run = rw run refl
    answer open_end run = ground (arith, run, absent)

-- On a list without cycles, whose entries the index has, `Lookup` finds what the index has for the
-- hash, however long the list is, and ends without a fault.
pub lookup-find :
    (c : PageCache) (xs : List ℕ) (hash : ℕ)
    → IsLinked c xs
    → IsIndexed c xs
    → (c' : PageCache) × (lookup c hash ≡ ok (find hash c.index, c'))
unfolding lookup load
lookup-find c xs hash k ix =
    let (w, run, f) = walk_lem c hash 20 none xs xs ix k.links in
    answer f (ap (λ p. walk 20 c p hash) k.newest ∙ run) (Option-cases (find hash c.index))
  where
    answer :
        {w : Walk}
        → Found c hash xs w
        → walk 20 c c.newest hash ≡ ok w
        → (find hash c.index ≡ none) ⊎ ((i : ℕ) × (find hash c.index ≡ some i))
        → (c' : PageCache) × (lookup c hash ≡ ok (find hash c.index, c'))
    answer (listed_at i there i-in) run o =
        let (c', done) = update-total c xs i k i-in in (c', rw (run, done, there))
    answer (nowhere out) run (inl absent) = (c, rw (run, absent))
    answer (nowhere out) run (inr (i, there)) =
        let (e, i-at, same, i-in) = ix.listed hash i there in
        absurd (All-In c hash i xs out i-in e i-at same)
    answer open_end run (inl absent) = (c, ground (arith, run, absent))
    answer open_end run (inr (i, there)) =
        let (e, i-at, same, i-in) = ix.listed hash i there in
        let (c', done) = update-total c xs i k i-in in
        (c', ground (arith, run, there, i-at, (ix.indexed i e i-at).1, done))
