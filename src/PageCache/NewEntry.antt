-- ===== src/PageCache/NewEntry.antt =====
-- `PageCache::NewEntry` (lib/kvengine/pagecache.cc) on a list of entries without cycles: it ends, with a
-- new list or with one of two faults.
use mathlib.Core.List.{append_assoc}
use mathlib.Core.Path.{subst}
use ktable_fs.Base.{
  ℕ, suc, ◌+◌, ◌-◌, ◌*◌, ◌<◌, ◌≡◌, refl, ap, ◌∙◌, ◌⊎◌, inl, inr, true, false, Option, none, some,
  List, [], ◌∷◌, ◌++◌, arith, length, get_elem?, set, get_elem?-set_self, lt_of_get_elem?,
  get_elem?_of_lt, get_elem?-append, length-set, length-append, ==-refl, ltb, ok, fault,
  assert_failed, null_pointer, All, NotIn, emplace, Bool-cases, erase,
}
use ktable_fs.PageCache.{
  Entry, PageCache, load, modify, is, update, skip_waiting, evict, cut_oldest, grow, new_entry,
  page_size,
}
use ktable_fs.PageCache.Links.{last_or, Linked, Linked-set}
use ktable_fs.PageCache.Lru.{
  IsLinked, Waits, is-last, skip_waiting-nothing, skip_waiting-back, update-IsLinked,
}
use ktable_fs.PageCache.Evict.{Taken, Distinct-drop, found, evict_last, evict_middle}

abbrev pub Free : PageCache → ℕ → Type 0
Free c i = (e : Entry) × (get_elem? c.entries i ≡ some e) × (e.wait ≡ false)

-- What a call of `NewEntry` comes to.
pub data Outcome (c : PageCache) (hash : ℕ) (xs : List ℕ) : Type 0 where
  -- There are pages left: a new entry comes to the front.
  grown :
      (c' : PageCache)
      → ltb c.used_page c.max_page ≡ true
      → new_entry c hash ≡ ok (length c.entries, c')
      → IsLinked c' (length c.entries ∷ xs)
      → Outcome c hash xs
  -- The last entry that does not wait, and is not the first of the list, comes to the front.
  evicted :
      (A : List ℕ) (w y : ℕ) (B : List ℕ) (c' : PageCache)
      → ltb c.used_page c.max_page ≡ false
      → xs ≡ A ++ (w ∷ y ∷ B)
      → Free c y
      → All (Waits c) B
      → new_entry c hash ≡ ok (y, c')
      → IsLinked c' (y ∷ (A ++ (w ∷ B)))
      → Outcome c hash xs
  -- All entries wait.
  all_wait :
      ltb c.used_page c.max_page ≡ false
      → All (Waits c) xs
      → new_entry c hash ≡ fault assert_failed
      → Outcome c hash xs
  -- All wait but the first.
  first_free :
      (y : ℕ) (B : List ℕ)
      → ltb c.used_page c.max_page ≡ false
      → xs ≡ y ∷ B
      → Free c y
      → All (Waits c) B
      → new_entry c hash ≡ fault null_pointer
      → Outcome c hash xs

Linked-more :
    (es fs : List Entry) (p : Option ℕ) (xs : List ℕ) (q : Option ℕ)
    → Linked es p xs q
    → Linked (es ++ fs) p xs q
Linked-more es fs p [] q h = tt
Linked-more es fs p (i ∷ is) q (e, at, back, on, rest) =
    (e, get_elem?-append es fs i at, back, on, Linked-more es fs (some i) is q rest)

Linked-new :
    (es : List Entry) (p : Option ℕ) (xs : List ℕ) (q : Option ℕ)
    → Linked es p xs q
    → NotIn (length es) xs
Linked-new es p [] q h = tt
Linked-new es p (i ∷ is) q (e, at, back, on, rest) =
    let below = lt_of_get_elem? es i at in
    ((λ same. absurd (omega arith)), Linked-new es (some i) is q rest)

-- An entry that is not in the list gets new contents and comes to the front.
renew :
    (c : PageCache) (i : ℕ) (v : Entry) (m : List (ℕ × ℕ)) (x : ℕ) (xs : List ℕ)
    → IsLinked c (x ∷ xs)
    → i < length c.entries
    → NotIn i (x ∷ xs)
    → length (x ∷ xs) < length c.entries
    → (c' : PageCache) × (update (record c { entries = set c.entries i v; index = m }) i ≡ ok c')
      × IsLinked c' (i ∷ x ∷ xs)
renew c i v m x xs k below out room =
    let size = length-set c.entries i v in
    update-IsLinked (record c { entries = set c.entries i v; index = m }) i v x xs
      (record {
        newest = k.newest;
        oldest = k.oldest;
        links = Linked-set c.entries i v none (x ∷ xs) none out k.links;
        distinct = k.distinct;
        count = omega (arith, size, k.count);
      })
      (get_elem?-set_self c.entries i v below) out (omega (arith, size))

-- The first entry of all.
update_first :
    (c : PageCache) (i : ℕ) (e : Entry)
    → IsLinked c []
    → get_elem? c.entries i ≡ some e
    → (c' : PageCache) × (update c i ≡ ok c') × IsLinked c' (i ∷ [])
unfolding update modify
update_first c i e k at =
    let alone = record e { prev = none; next = none } in
    let below = lt_of_get_elem? c.entries i at in
    (
      record c { newest = some i; oldest = some i; entries = set c.entries i alone },
      rw (k.newest, at, update, modify) refl,
      record {
        newest = refl;
        oldest = refl;
        links = (alone, get_elem?-set_self c.entries i alone below, refl, refl, tt);
        distinct = (tt, tt);
        count = omega (arith, length-set {0} c.entries i alone);
      },
    )

-- The same for any list.
renew_front :
    (c : PageCache) (i : ℕ) (v : Entry) (m : List (ℕ × ℕ)) (xs : List ℕ)
    → IsLinked c xs
    → i < length c.entries
    → NotIn i xs
    → length xs < length c.entries
    → (c' : PageCache) × (update (record c { entries = set c.entries i v; index = m }) i ≡ ok c')
      × IsLinked c' (i ∷ xs)
renew_front c i v m [] k below out room =
    update_first (record c { entries = set c.entries i v; index = m }) i v
      (record {
        newest = k.newest;
        oldest = k.oldest;
        links = tt;
        distinct = tt;
        count = omega arith;
      })
      (get_elem?-set_self c.entries i v below)
renew_front c i v m (x ∷ xs) k below out room = renew c i v m x xs k below out room

abbrev renewed : ℕ → Entry → Entry
renewed hash e = record e { hash = hash; valid = true; wait = true }

module _ (c : PageCache) (hash : ℕ) (full : ltb c.used_page c.max_page ≡ false) where
  -- `NewEntry` with the entry that the search takes.
  new_entry-Taken :
      (y : ℕ) (e : Entry) (xs : List ℕ) (c1 : PageCache)
      → Taken c y e xs c1
      → NotIn y xs
      → length xs < length c.entries
      → (c' : PageCache) × (new_entry c hash ≡ ok (y, c')) × IsLinked c' (y ∷ xs)
  unfolding new_entry modify
  new_entry-Taken y e xs c1 t out room =
      let (e1, at) = get_elem?_of_lt c1.entries y t.there in
      let m = emplace hash y (erase e.hash c.index) in
      let (c', done, linked) =
        renew_front c1 y (renewed hash e1) m xs t.linked t.there out (omega (arith, t.size)) in
      (c', rw (full, t.call, modify, at, done), linked)

  new_entry-evicts :
      (A : List ℕ) (w y : ℕ) (e : Entry) (B : List ℕ)
      → IsLinked c (A ++ (w ∷ y ∷ B))
      → get_elem? c.entries y ≡ some e
      → e.wait ≡ false
      → All (Waits c) B
      → (c' : PageCache) × (new_entry c hash ≡ ok (y, c')) × IsLinked c' (y ∷ (A ++ (w ∷ B)))
  new_entry-evicts A w y e [] k at free waits =
      let (c1, taken) = evict_last c A w y e k at free in
      new_entry-Taken y e (A ++ (w ∷ [])) c1 taken (Distinct-drop A w y [] k.distinct).1
        (omega (arith, length-append {0} A (w ∷ []), length-append {0} A (w ∷ y ∷ []), k.count))
  new_entry-evicts A w y e (z ∷ B) k at free waits =
      let (c1, taken) = evict_middle c A w y e z B k at free waits in
      new_entry-Taken y e (A ++ (w ∷ z ∷ B)) c1 taken (Distinct-drop A w y (z ∷ B) k.distinct).1 (
        omega
          (arith, length-append {0} A (w ∷ z ∷ B), length-append {0} A (w ∷ y ∷ z ∷ B), k.count))

  -- If the first entry is taken, the entry before it is none.
  new_entry-first :
      (y : ℕ) (e : Entry) (B : List ℕ)
      → IsLinked c (y ∷ B)
      → get_elem? c.entries y ≡ some e
      → e.wait ≡ false
      → All (Waits c) B
      → new_entry c hash ≡ fault null_pointer
  unfolding new_entry evict load modify cut_oldest
  new_entry-first y e [] k at free waits =
      let (ey, y-at, y-back, y-on, rest) = k.links in
      let prev : e.prev ≡ none = ground (arith, y-at, at, y-back) in
      let there = found c y e [] k.oldest tt (omega arith) at free tt in
      rw (full, evict, there, at, load, k.oldest, ==-refl y, cut_oldest, prev, modify) refl
  new_entry-first y e (z ∷ B) k at free waits =
      let (ey, y-at, y-back, y-on, rest) = k.links in
      let prev : e.prev ≡ none = ground (arith, y-at, at, y-back) in
      let there = found c y e (z ∷ B) k.oldest rest (omega (arith, k.count)) at free waits in
      rw (full, evict, there, at, load, k.oldest, is-last y z B k.distinct.0, prev, modify) refl

  new_entry-waiting :
      (xs : List ℕ) → IsLinked c xs → All (Waits c) xs → new_entry c hash ≡ fault assert_failed
  unfolding new_entry evict
  new_entry-waiting xs k waits =
      let enough : suc (length c.entries) ≡ suc (length c.entries - length xs) + length xs =
        omega (arith, k.count) in
      let none_found : skip_waiting (suc (length c.entries)) c c.oldest ≡ ok none =
        ap (λ p. skip_waiting (suc (length c.entries)) c p) k.oldest
        ∙ ap (λ n. skip_waiting n c (last_or xs none)) enough
        ∙ skip_waiting-back c (suc (length c.entries - length xs)) none xs none k.links waits
        ∙ skip_waiting-nothing (suc (length c.entries - length xs)) c in
      rw (full, evict, none_found) refl

get_elem?_last : (es : List Entry) (e : Entry) → get_elem? (es ++ (e ∷ [])) (length es) ≡ some e
get_elem?_last [] e = refl
get_elem?_last (d ∷ es) e = get_elem?_last es e

-- `NewEntry` while there are pages left.
new_entry-grows :
    (c : PageCache) (hash : ℕ) (xs : List ℕ)
    → ltb c.used_page c.max_page ≡ true
    → IsLinked c xs
    → (c' : PageCache) × (new_entry c hash ≡ ok (length c.entries, c'))
      × IsLinked c' (length c.entries ∷ xs)
unfolding new_entry grow modify
new_entry-grows c hash xs less k =
    let c1 = (grow c).1 in
    let new : Entry = record {
      page = c.used_page * page_size;
      hash = 0;
      wait = false;
      prev = none;
      next = none;
      valid = false;
    } in
    let longer = length-append {0} c.entries (new ∷ []) in
    let at = get_elem?_last c.entries new in
    let k1 : IsLinked c1 xs = record {
      newest = k.newest;
      oldest = k.oldest;
      links = Linked-more c.entries (new ∷ []) none xs none k.links;
      distinct = k.distinct;
      count = omega (arith, longer, k.count);
    } in
    let (c', done, linked) =
      renew_front c1 (length c.entries) (renewed hash new) (emplace hash (length c.entries) c.index)
        xs k1 (omega (arith, longer)) (Linked-new c.entries none xs none k.links)
        (omega (arith, longer, k.count)) in
    (c', rw (less, at, modify, done), linked)

-- Either all entries wait, or one is the last that does not.
last-Free :
    (c : PageCache) (p : Option ℕ) (xs : List ℕ) (q : Option ℕ)
    → Linked c.entries p xs q
    → All (Waits c) xs
      ⊎ ((A : List ℕ) × (y : ℕ) × (B : List ℕ) × (xs ≡ A ++ (y ∷ B)) × Free c y × All (Waits c) B)
last-Free c p [] q h = inl tt
last-Free c p (x ∷ xs) q (e, at, back, on, rest) = elim (last-Free c (some x) xs q rest) [
  | inr (A, y, B, parts, free, waits) ↦ inr (x ∷ A, y, B, ap (◌∷◌ x) parts, free, waits)
  | inl waits ↦ elim (Bool-cases e.wait) [
    | inl w ↦ inl ((e, at, w), waits)
    | inr f ↦ inr ([], x, xs, refl, (e, at, f), waits)
  ]
]

snoc : (a : ℕ) (A : List ℕ) → (A' : List ℕ) × (w : ℕ) × (a ∷ A ≡ A' ++ (w ∷ []))
snoc a [] = ([], a, refl)
snoc a (b ∷ A) = let (A', w, same) = snoc b A in (a ∷ A', w, ap (◌∷◌ a) same)

-- On a list without cycles `NewEntry` ends, in one of four ways. While there are pages left, the new
-- entry comes to the front of the list. Otherwise the last entry that does not wait is taken: if it
-- is not the first one, it comes to the front, and the others keep their order. If it is the first,
-- the call goes through a null pointer, and if all entries wait, an `assert` fails.
pub new_entry_cases : (c : PageCache) (hash : ℕ) (xs : List ℕ) → IsLinked c xs → Outcome c hash xs
new_entry_cases c hash xs k = elim (Bool-cases (ltb c.used_page c.max_page)) [
  | inl less ↦
      let (c', call, linked) = new_entry-grows c hash xs less k in grown c' less call linked
  | inr full ↦ elim (last-Free c none xs none k.links) [
    | inl waits ↦ all_wait full waits (new_entry-waiting c hash full xs k waits)
    | inr (A, y, B, parts, free, waits) ↦ taken full A y B parts free waits
  ]
]
  where
    behind :
        ltb c.used_page c.max_page ≡ false
        → (A : List ℕ) (w y : ℕ) (B : List ℕ) → xs ≡ A ++ (w ∷ y ∷ B)
        → Free c y
        → All (Waits c) B
        → Outcome c hash xs
    behind full A w y B parts (e, at, free) waits =
        let (c', call, linked) =
          new_entry-evicts c hash full A w y e B (subst (IsLinked c) parts k) at free waits in
        evicted A w y B c' full parts (e, at, free) waits call linked

    taken :
        ltb c.used_page c.max_page ≡ false
        → (A : List ℕ) (y : ℕ) (B : List ℕ) → xs ≡ A ++ (y ∷ B)
        → Free c y
        → All (Waits c) B
        → Outcome c hash xs
    taken full [] y B parts (e, at, free) waits =
        first_free y B full parts (e, at, free) waits
          (new_entry-first c hash full y e B (subst (IsLinked c) parts k) at free waits)
    taken full (a ∷ A) y B parts free waits =
        let (A', w, same) = snoc a A in
        behind full A' w y B
          (parts ∙ ap (λ l. l ++ (y ∷ B)) same ∙ append_assoc A' (w ∷ []) (y ∷ B)) free waits
