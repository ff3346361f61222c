-- ===== src/PageCache/Sound.antt =====
-- What holds of a page cache (lib/kvengine/pagecache.cc) whatever its links are: every entry has a page
-- of its own, no two entries have one hash, and the index leads to entries with the right hash.
use mathlib.Core.Option.{some-injective}
use ktable_fs.Base.{
  ℕ, zero, suc, ◌*◌, ◌≡◌, refl, sym, ap, ◌∙◌, inl, inr, Option, none, some, List, [], ◌∷◌, map,
  arith, length, get_elem?, ok, ◌>>=◌, ◌&&◌, ◌==◌, Ensures, Ensures-bind, Ensures-if, if◌then◌else◌,
  Option-cases, Bool-cases, find,
}
use ktable_fs.PageCache.{
  Entry, PageCache, load, update, lookup, walk, Walk, hit, end, more, page_size,
}
use ktable_fs.PageCache.Views.{View, view, SameViews, update-SameViews, load-SameViews}

abbrev pub views : PageCache → List View
views c = map view c.entries

pub record IsSound (c : PageCache) : Type 0 where
  pub pages : (i : ℕ) (v : View) → get_elem? (views c) i ≡ some v → v.page ≡ i * page_size
  pub used : c.used_page ≡ length (views c)
  pub unique :
      (i j : ℕ) (v w : View)
      → get_elem? (views c) i ≡ some v
      → get_elem? (views c) j ≡ some w
      → v.hash ≡ w.hash
      → i ≡ j
  pub indexed :
      (hash i : ℕ)
      → find hash c.index ≡ some i
      → (v : View) × (get_elem? (views c) i ≡ some v) × (v.hash ≡ hash)

pub get_elem?-map :
    (es : List Entry) (i : ℕ) (e : Entry)
    → get_elem? es i ≡ some e
    → get_elem? (map view es) i ≡ some (view e)
get_elem?-map [] i e at = cc
get_elem?-map (x ∷ xs) zero e at = ap some (ap view (some-injective x e at))
get_elem?-map (x ∷ xs) (suc i) e at = get_elem?-map xs i e at

pub get_elem?-unmap :
    (es : List Entry) (i : ℕ) (v : View)
    → get_elem? (map view es) i ≡ some v
    → (e : Entry) × (get_elem? es i ≡ some e) × (view e ≡ v)
get_elem?-unmap [] i v at = absurd (ne at)
  where
    ne : {v : View} → none ≡ some v → ⊥
    ne e = cc
get_elem?-unmap (x ∷ xs) zero v at = (x, refl, some-injective (view x) v at)
get_elem?-unmap (x ∷ xs) (suc i) v at = get_elem?-unmap xs i v at

pub SameViews-IsSound : (c c' : PageCache) → SameViews c c' → IsSound c → IsSound c'
SameViews-IsSound c c' s k = record {
  pages = λ i v at. k.pages i v (rw s.views at at);
  used = s.used ∙ k.used ∙ sym (ap length s.views);
  unique = λ i j v w at at' same. k.unique i j v w (rw s.views at at) (rw s.views at at') same;
  indexed = λ hash i there.
      let (v, at, same) = k.indexed hash i (rw s.index at there) in (v, rw s.views at, same);
}

-- The bytes of the pages do not matter.
pub IsSound-memory :
    (c : PageCache) (memory : ℕ → ℕ) → IsSound c → IsSound (record c { memory = memory })
IsSound-memory c memory k = record {
  pages = k.pages;
  used = k.used;
  unique = k.unique;
  indexed = k.indexed;
}

abbrev pub HasHash : PageCache → ℕ → ℕ → Type 0
HasHash c hash i = (v : View) × (get_elem? (views c) i ≡ some v) × (v.hash ≡ hash)

abbrev HitHas : PageCache → ℕ → Walk → Type 0
HitHas c hash (hit i) = HasHash c hash i
HitHas c hash end = Unit
HitHas c hash more = Unit

-- An entry that the loop of `Lookup` hits has the hash.
walk-hash : (c : PageCache) (hash n : ℕ) (p : Option ℕ) → Ensures (HitHas c hash) (walk n c p hash)
unfolding walk
walk-hash c hash zero p = tt
walk-hash c hash (suc n) none = tt
walk-hash c hash (suc n) (some i) = elim (Option-cases (get_elem? c.entries i)) [
  | inl gone ↦ rw (gone, walk) tt
  | inr (e, at) ↦ elim (Bool-cases (e.valid && (e.hash == hash))) [
    | inl same ↦ rw (at, walk, same) (view e, get_elem?-map c.entries i e at, ground arith)
    | inr other ↦ rw (at, walk, other) (walk-hash c hash n e.next)
  ]
]

-- What `Lookup` answers has the hash.
abbrev pub Answer : PageCache → ℕ → Option ℕ × PageCache → Type 0
Answer c hash (none, c') = SameViews c c'
Answer c hash (some i, c') = HasHash c hash i × SameViews c c'

found_entry :
    (c : PageCache) (hash i : ℕ)
    → HasHash c hash i
    → Ensures (Answer c hash) (do c' ← update c i; ok (some i, c'))
found_entry c hash i has =
    Ensures-bind (SameViews c) (Answer c hash) (update c i) _ (update-SameViews c i)
      (λ c' s. (has, s))

-- `Lookup` changes links alone, and what it answers has the hash.
pub lookup-Answer : (c : PageCache) (hash : ℕ) → IsSound c → Ensures (Answer c hash) (lookup c hash)
unfolding lookup load
lookup-Answer c hash k =
    Ensures-bind (HitHas c hash) (Answer c hash) (walk 20 c c.newest hash) _
      (walk-hash c hash 20 c.newest) after
  where
    same : SameViews c c
    same = record { views = refl; memory = refl; index = refl; used = refl }

    from_index :
        (o : Option ℕ)
        → find hash c.index ≡ o
        → Ensures (Answer c hash) (elim o [
          | none ↦ ok (none, c)
          | some i ↦ do
            e ← load c (some i)
            if e.valid then (do c' ← update c i; ok (some i, c')) else ok (none, c)
        ])
    from_index none there = same
    from_index (some i) there =
        Ensures-bind (λ e. Unit {0}) (Answer c hash) (load c (some i)) _
          (load-SameViews c c (some i))
          (λ e known.
            Ensures-if (Answer c hash) e.valid _ _ (found_entry c hash i (k.indexed hash i there))
              same)

    after :
        (w : Walk)
        → HitHas c hash w
        → Ensures (Answer c hash) (elim w [
          | hit i ↦ do c' ← update c i; ok (some i, c')
          | end ↦ ok (none, c)
          | more ↦ elim (find hash c.index) [
            | none ↦ ok (none, c)
            | some i ↦ do
              e ← load c (some i)
              if e.valid then (do c' ← update c i; ok (some i, c')) else ok (none, c)
          ]
        ])
    after (hit i) has = found_entry c hash i has
    after end tt = same
    after more tt = from_index (find hash c.index) refl
