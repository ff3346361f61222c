-- ===== src/PageCache/Tests.antt =====
-- Small page caches (lib/kvengine/pagecache.cc).
use native.Mathlib.Decide.{ℕ_discrete}
use ktable_fs.Base.{
  ℕ, zero, suc, ◌≡◌, refl, Bool, true, false, Option, none, some, [], ◌∷◌, arith, get_elem?, Result,
  ok, fault, null_pointer, ◌>>=◌, find, emplace, erase,
}
use ktable_fs.PageCache.{Entry, PageCache, new_cache, new_entry, lookup, update, read_callback}
use ktable_fs.PageCache.Lru.{IsLinked}
use ktable_fs.PageCache.NewEntry.{Outcome, new_entry_cases}
use ktable_fs.PageCache.Lookup.{In, IsIndexed, lookup-find}
use ktable_fs.PageCache.Middle.{update-middle}

-- A page that is read into a new entry.
fill : PageCache → ℕ → Result PageCache
unfolding new_entry read_callback
fill c hash = do (i, c1) ← new_entry c hash; read_callback c1 i true

abbrev entry : ℕ → ℕ → Bool → Option ℕ → Option ℕ → Entry
entry page hash wait prev next = record {
  page = page;
  hash = hash;
  wait = wait;
  prev = prev;
  next = next;
  valid = true;
}

-- Three pages, the newest in front: 12, 11 and 10.
abbrev three : PageCache
three = record {
  newest = some 2;
  oldest = some 0;
  entries =
      entry 0 10 false (some 1) none
      ∷ entry 4096 11 false (some 2) (some 0)
      ∷ entry 8192 12 false none (some 1)
      ∷ [];
  memory = λ a. 0;
  index = (12, 2) ∷ (11, 1) ∷ (10, 0) ∷ [];
  used_page = 3;
  max_page = 3;
}

three_filled : (do c1 ← fill (new_cache (λ a. 0) 3) 10; c2 ← fill c1 11; fill c2 12) ≡ ok three
unfolding fill new_cache emplace find
three_filled = refl

three-IsLinked : IsLinked three (2 ∷ 1 ∷ 0 ∷ [])
three-IsLinked = record {
  newest = refl;
  oldest = refl;
  links = (_, refl, refl, refl, (_, refl, refl, refl, (_, refl, refl, refl, tt)));
  distinct = ground arith;
  count = omega arith;
}

new_entry_cases_example : Outcome three 13 (2 ∷ 1 ∷ 0 ∷ [])
new_entry_cases_example = new_entry_cases three 13 (2 ∷ 1 ∷ 0 ∷ []) three-IsLinked

three-indexed :
    (i : ℕ) (e : Entry)
    → get_elem? three.entries i ≡ some e
    → (find e.hash three.index ≡ some i) × (e.valid ≡ true)
unfolding find
three-indexed zero e at = ground arith
three-indexed (suc zero) e at = ground arith
three-indexed (suc (suc zero)) e at = ground arith
three-indexed (suc (suc (suc i))) e at = absurd (none≢some at)
  where
    none≢some : {e : Entry} → none ≡ some e → ⊥
    none≢some e = cc

three-listed :
    (hash i : ℕ)
    → find hash three.index ≡ some i
    → (e : Entry) × (get_elem? three.entries i ≡ some e) × (e.hash ≡ hash) × In i (2 ∷ 1 ∷ 0 ∷ [])
unfolding find
three-listed hash i there = elim (ℕ_discrete 12 hash) [
  | yes h ↦ (entry 8192 12 false none (some 1), ground arith, ground arith, ground arith)
  | no a ↦ elim (ℕ_discrete 11 hash) [
    | yes h ↦ (entry 4096 11 false (some 2) (some 0), ground arith, ground arith, ground arith)
    | no b ↦ elim (ℕ_discrete 10 hash) [
      | yes h ↦ (entry 0 10 false (some 1) none, ground arith, ground arith, ground arith)
      | no c ↦ absurd (ground arith)
    ]
  ]
]

three-IsIndexed : IsIndexed three (2 ∷ 1 ∷ 0 ∷ [])
three-IsIndexed = record { indexed = three-indexed; listed = three-listed }

lookup-find_example : (c' : PageCache) × (lookup three 10 ≡ ok (find 10 three.index, c'))
lookup-find_example = lookup-find three (2 ∷ 1 ∷ 0 ∷ []) 10 three-IsLinked three-IsIndexed

-- `three` after `Update_` of the page 11.
abbrev three_updated : PageCache
three_updated = record three {
  newest = some 1;
  entries =
      entry 0 10 false (some 1) none
      ∷ entry 4096 11 false none (some 2)
      ∷ entry 8192 12 false (some 1) (some 1)
      ∷ [];
}

three-update : update three 1 ≡ ok three_updated
unfolding update
three-update = refl

update-middle_example :
    (ey : Entry) × (ex : Entry) × (three_updated.newest ≡ some 1)
    × (get_elem? three_updated.entries 1 ≡ some ey)
    × (ey.next ≡ some 2)
    × (get_elem? three_updated.entries 2 ≡ some ex)
    × (ex.next ≡ some 1)
    × (¬ IsLinked three_updated (1 ∷ 2 ∷ 0 ∷ []))
update-middle_example =
    update-middle three three_updated 2 1 0 [] (1 ∷ 2 ∷ 0 ∷ []) three-IsLinked three-update

-- If only the newest page does not wait, a new entry is a null pointer away.
first_taken :
    new_entry
      (record three {
        entries =
            entry 0 10 true (some 1) none
            ∷ entry 4096 11 true (some 2) (some 0)
            ∷ entry 8192 12 false none (some 1)
            ∷ [];
      })
      13
    ≡ fault null_pointer
unfolding new_entry
first_taken = refl

-- After a look-up of the second of three pages, a new page takes the place of the oldest one; then the
-- page 12 is in the index, and `Lookup` does not find it.
lost : Result PageCache
lost = do (r, c) ← lookup three 11; fill c 13

page_lost :
    (c : PageCache) × (lost ≡ ok c) × (find 12 c.index ≡ some 2) × (lookup c 12 ≡ ok (none, c))
unfolding lost fill lookup find erase emplace
page_lost = (_, refl, refl, refl)
