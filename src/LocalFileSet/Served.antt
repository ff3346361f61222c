-- ===== src/LocalFileSet/Served.antt =====
-- What `PageCache` (lib/kvengine/pagecache.cc) answers to a request for a page, where its entries are in a
-- list without cycles and in the index.
use ktable_fs.Base.{
  ℕ, ◌≤◌, ◌≡◌, ◌≢◌, ◌⊎◌, ap, ◌∙◌, inl, inr, true, false, none, some, List, [], ◌∷◌, arith, length,
  get_elem?, ltb, ok, find, All, Option-cases,
}
use ktable_fs.PageCache.{PageCache, lookup, new_entry}
use ktable_fs.PageCache.Views.{View, view}
use ktable_fs.PageCache.Sound.{views, get_elem?-map, get_elem?-unmap}
use ktable_fs.PageCache.Lru.{IsLinked, Waits}
use ktable_fs.PageCache.Lookup.{IsIndexed, lookup-find, lookup-none}
use ktable_fs.PageCache.NewEntry.{Outcome, grown, evicted, all_wait, first_free, new_entry_cases}

abbrev pub IsAbsent : PageCache → ℕ → Type 0
IsAbsent c hash = (j : ℕ) (v : View) → get_elem? (views c) j ≡ some v → v.hash ≢ hash

-- What `Lookup` finds: an entry, or nothing because no entry has the hash.
pub data Looked (c : PageCache) (hash : ℕ) : Type 0 where
  there : (i : ℕ) (c' : PageCache) → lookup c hash ≡ ok (some i, c') → Looked c hash
  nowhere : (c' : PageCache) → lookup c hash ≡ ok (none, c') → IsAbsent c hash → Looked c hash

-- The same with a new entry for a page that no entry has.
pub data Serves (c : PageCache) (hash : ℕ) : Type 0 where
  hit : (i : ℕ) (c' : PageCache) → lookup c hash ≡ ok (some i, c') → Serves c hash
  miss :
      (c' : PageCache) (i : ℕ) (c2 : PageCache)
      → lookup c hash ≡ ok (none, c')
      → IsAbsent c hash
      → new_entry c' hash ≡ ok (i, c2)
      → Serves c hash

module _ (c : PageCache) (xs : List ℕ) (hash : ℕ) (linked : IsLinked c xs)
    (indexed : IsIndexed c xs) where
  absent_lem : find hash c.index ≡ none → IsAbsent c hash
  absent_lem absent j v at same =
      let (e, e-at, e-view) = get_elem?-unmap c.entries j v at in
      let e-hash : e.hash ≡ hash = ap (λ (u : View). u.hash) e-view ∙ same in
      let found = (indexed.indexed j e e-at).0 in ground (arith, found, e-hash, absent)

  pub looked : Looked c hash
  looked = elim (Option-cases (find hash c.index)) [
    | inl absent ↦ nowhere c (lookup-none c xs hash linked indexed absent) (absent_lem absent)
    | inr (i, found) ↦
        let (c', done) = lookup-find c xs hash linked indexed in
        there i c' (done ∙ ap (λ o. ok (o, c')) found)
  ]

  -- No entry waits, and there are pages left or at least two entries.
  module _ (ready : (i : ℕ) (v : View) → get_elem? (views c) i ≡ some v → v.wait ≡ false)
      (room : (ltb c.used_page c.max_page ≡ true) ⊎ (2 ≤ length xs)) where
    not_waiting : (i : ℕ) → Waits c i → ⊥
    not_waiting i (e, at, waits) =
        let free = ready i (view e) (get_elem?-map c.entries i e at) in cc

    new_entry-ok : Outcome c hash xs → (i : ℕ) × (c2 : PageCache) × (new_entry c hash ≡ ok (i, c2))
    new_entry-ok (grown c' less call k) = (length c.entries, c', call)
    new_entry-ok (evicted A w y B c' full parts free waits call k) = (y, c', call)
    new_entry-ok (all_wait full waits call) = absurd (none_left xs full room waits)
      where
        none_left :
            (ys : List ℕ)
            → ltb c.used_page c.max_page ≡ false
            → (ltb c.used_page c.max_page ≡ true) ⊎ (2 ≤ length ys)
            → All (Waits c) ys
            → ⊥
        none_left ys full (inl less) w = cc
        none_left [] full (inr two) w = omega arith
        none_left (y ∷ ys) full (inr two) w = not_waiting y w.0
    new_entry-ok (first_free y B full parts free waits call) =
        absurd (one_left xs B full room parts waits)
      where
        one_left :
            (ys B : List ℕ)
            → ltb c.used_page c.max_page ≡ false
            → (ltb c.used_page c.max_page ≡ true) ⊎ (2 ≤ length ys)
            → ys ≡ y ∷ B
            → All (Waits c) B
            → ⊥
        one_left ys B full (inl less) e w = cc
        one_left ys [] full (inr two) e w = let size = ap length e in omega arith
        one_left ys (b ∷ B) full (inr two) e w = not_waiting b w.0

    pub serves : Serves c hash
    serves = elim (Option-cases (find hash c.index)) [
      | inl absent ↦
          let (i, c2, call) = new_entry-ok (new_entry_cases c hash xs linked) in
          miss c i c2 (lookup-none c xs hash linked indexed absent) (absent_lem absent) call
      | inr (i, found) ↦
          let (c', done) = lookup-find c xs hash linked indexed in
          hit i c' (done ∙ ap (λ o. ok (o, c')) found)
    ]
