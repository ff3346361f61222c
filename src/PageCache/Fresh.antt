-- ===== src/PageCache/Fresh.antt =====
-- `NewEntry` (lib/kvengine/pagecache.cc) for a page that no entry has, whatever the links are.
use native.Mathlib.Decide.{ℕ_discrete}
use ktable_fs.Base.{
  ℕ, zero, suc, ◌*◌, ◌≡◌, ◌≢◌, refl, sym, ap, ◌∙◌, inl, inr, true, false, Option, none, some, List,
  [], ◌∷◌, ◌++◌, map, arith, length, length-map, length-append, get_elem?, set, get_elem?-set_self,
  get_elem?-set_ne, get_elem?-append_one, get_elem?-append, lt_of_get_elem?, Result, ok, fault,
  assert_failed, ◌>>=◌, ◌==◌, Ensures, Ensures-bind, Ensures-if, if◌then◌else◌, ltb, Option-cases,
  Bool-cases, find, emplace, erase, length-set, find-emplace_absent, find-erase,
}
use ktable_fs.PageCache.{
  Entry, PageCache, load, modify, is, update, skip_waiting, evict, cut_oldest, set_next, set_prev,
  new_entry, grow, page_size,
}
use ktable_fs.PageCache.Views.{
  View, view, SameViews, SameViews-refl, update-SameViews, modify-SameViews, cut_oldest-SameViews,
}
use ktable_fs.PageCache.Sound.{IsSound, HasHash, views, get_elem?-map}

-- What a new entry for a page shows.
abbrev pub claimed : ℕ → ℕ → View
claimed i hash = record { page = i * page_size; hash = hash; wait = true; valid = true }

-- Entry `i` now stands for the page with the hash, and the others are as before.
pub record Fresh (c : PageCache) (hash i : ℕ) (c' : PageCache) : Type 0 where
  pub memory : c'.memory ≡ c.memory
  pub sound : IsSound c'
  pub new : get_elem? (views c') i ≡ some (claimed i hash)
  pub old :
      (j : ℕ) (v : View) → j ≢ i → get_elem? (views c') j ≡ some v → get_elem? (views c) j ≡ some v

-- An entry that no one uses: a new one, or one that was taken out.
record Ready (c : PageCache) (i : ℕ) (c1 : PageCache) : Type 0 where
  pub memory : c1.memory ≡ c.memory
  pub used : c1.used_page ≡ length (views c1)
  pub own : (v : View) × (get_elem? (views c1) i ≡ some v) × (v.page ≡ i * page_size)
  pub old :
      (j : ℕ) (v : View) → j ≢ i → get_elem? (views c1) j ≡ some v → get_elem? (views c) j ≡ some v
  pub kept :
      (j : ℕ) (v : View) → j ≢ i → get_elem? (views c) j ≡ some v → get_elem? (views c1) j ≡ some v
  pub indexed : (hash j : ℕ) → find hash c1.index ≡ some j → (j ≢ i) × HasHash c hash j

abbrev ReadyFor : PageCache → ℕ × PageCache → Type 0
ReadyFor c r = Ready c r.0 r.1

map-append_one :
    (es : List Entry) (e : Entry) → map view (es ++ (e ∷ [])) ≡ map view es ++ (view e ∷ [])
map-append_one [] e = refl
map-append_one (x ∷ xs) e = ap (◌∷◌ (view x)) (map-append_one xs e)

get_elem?_last : (vs : List View) (v : View) → get_elem? (vs ++ (v ∷ [])) (length vs) ≡ some v
get_elem?_last [] v = refl
get_elem?_last (w ∷ vs) v = get_elem?_last vs v

pub map-set-view :
    (es : List Entry) (i : ℕ) (v : Entry) → map view (set es i v) ≡ set (map view es) i (view v)
map-set-view [] i v = refl
map-set-view (x ∷ xs) zero v = refl
map-set-view (x ∷ xs) (suc i) v = ap (◌∷◌ (view x)) (map-set-view xs i v)

grow-Ready : (c : PageCache) → IsSound c → Ready c (grow c).0 (grow c).1
unfolding grow
grow-Ready c k =
    let blank : Entry = record {
      page = c.used_page * page_size;
      hash = 0;
      wait = false;
      prev = none;
      next = none;
      valid = false;
    } in
    let more = map-append_one c.entries blank in
    let size = length-map {0, 0} c.entries view in
    let last : get_elem? (views (grow c).1) (length c.entries) ≡ some (view blank) =
      rw (more, ← size) (get_elem?_last (views c) (view blank)) in
    record {
      memory = refl;
      used = rw more (omega (arith, k.used, length-append {0} (views c) (view blank ∷ [])));
      own = (view blank, last, omega (arith, k.used, size));
      old = λ j v ne at. elim (get_elem?-append_one (views c) (view blank) j (rw more at at)) [
        | inl old ↦ old
        | inr (here, same) ↦ absurd (ne (here ∙ size))
      ];
      kept = λ j v ne at. rw more (get_elem?-append (views c) (view blank ∷ []) j at);
      indexed = λ hash j there.
          let (v, at, same) = k.indexed hash j there in
          let below = lt_of_get_elem? (views c) j at in
          ((λ e. absurd (omega (arith, size))), (v, at, same));
    }

load-at :
    (c : PageCache) (i : ℕ)
    → Ensures (λ (e : Entry). get_elem? c.entries i ≡ some e) (load c (some i))
unfolding load
load-at c i = elim (Option-cases (get_elem? c.entries i)) [
  | inl gone ↦ rw (gone, load) tt
  | inr (e, at) ↦ rw (at, load) refl
]

-- An entry `e` whose hash was taken out of the index is ready.
erased-Ready :
    (c c1 : PageCache) (i : ℕ) (e : Entry)
    → IsSound c
    → get_elem? c.entries i ≡ some e
    → SameViews c c1
    → Ready c i (record c1 { index = erase e.hash c1.index })
erased-Ready c c1 i e k at s =
    let here = get_elem?-map c.entries i e at in
    record {
      memory = s.memory;
      used = s.used ∙ k.used ∙ sym (ap length s.views);
      own = (view e, rw s.views here, k.pages i (view e) here);
      old = λ j v ne there. rw s.views at there;
      kept = λ j v ne there. rw s.views there;
      indexed = λ hash j there.
          let (apart, before) = not_erased c1.index hash e.hash j there in
          let (v, j-at, same) = k.indexed hash j (rw s.index at before) in
          ((λ j≡i. apart (ground (arith, j≡i, j-at, here, same))), (v, j-at, same));
    }
  where
    not_erased :
        (m : List (ℕ × ℕ)) (hash other j : ℕ)
        → find hash (erase other m) ≡ some j
        → (other ≢ hash) × (find hash m ≡ some j)
    not_erased m hash other j there =
        let law = find-erase other hash m in
        elim (Bool-cases (other == hash)) [
          | inl same ↦ absurd (ground (arith, law))
          | inr ne ↦ ((λ e. ground (arith, e)), ground (arith, law))
        ]

evict-Ready : (c : PageCache) → IsSound c → Ensures (ReadyFor c) (evict c)
unfolding evict
evict-Ready c k =
    Ensures-bind (λ o. Unit {0}) (ReadyFor c) (skip_waiting (suc (length c.entries)) c c.oldest) _
      (any (skip_waiting (suc (length c.entries)) c c.oldest)) taken
  where
    any : (r : Result (Option ℕ)) → Ensures (λ o. Unit {0}) r
    any (fault why) = tt
    any (ok o) = tt

    taken :
        (o : Option ℕ)
        → Unit {0}
        → Ensures (ReadyFor c) (elim o [
          | none ↦ fault assert_failed
          | some i ↦ do
            e ← load c (some i)
            c1 ←
                if is c.oldest i
                then cut_oldest c e
                else (do c2 ← modify c e.prev (set_next e.next); modify c2 e.next (set_prev e.prev))
            ok (i, record c1 { index = erase e.hash c1.index })
        ])
    taken none known = tt
    taken (some i) known =
        Ensures-bind (λ e. get_elem? c.entries i ≡ some e) (ReadyFor c) (load c (some i)) _
          (load-at c i)
          (λ e at.
            Ensures-bind (SameViews c) (ReadyFor c) _ _
              (Ensures-if (SameViews c) (is c.oldest i) _ _
                (cut_oldest-SameViews c c e (SameViews-refl c))
                (Ensures-bind (SameViews c) (SameViews c) _ _
                  (modify-SameViews c c e.prev (set_next e.next) (λ x. refl) (SameViews-refl c))
                  (λ c2 s. modify-SameViews c c2 e.next (set_prev e.prev) (λ x. refl) s)))
              (λ c1 s. erased-Ready c c1 i e k at s))

-- The contents of a ready entry are set, and it is put into the index.
claim-Fresh :
    (c c1 c3 : PageCache) (hash i : ℕ) (e : Entry)
    → IsSound c
    → ((j : ℕ) (v : View) → get_elem? (views c) j ≡ some v → v.hash ≢ hash)
    → Ready c i c1
    → get_elem? c1.entries i ≡ some e
    → SameViews
        (record c1 {
          entries = set c1.entries i (record e { hash = hash; valid = true; wait = true });
          index = emplace hash i c1.index;
        })
        c3
    → Fresh c hash i c3
claim-Fresh c c1 c3 hash i e k absent r at s =
    let (own, own-at, page) = r.own in
    let e' = record e { hash = hash; valid = true; wait = true } in
    let below = lt_of_get_elem? (views c1) i own-at in
    let same : views c3 ≡ set (views c1) i (view e') = s.views ∙ map-set-view c1.entries i e' in
    let e-page : e.page ≡ i * page_size =
      ground (arith, get_elem?-map c1.entries i e at, own-at, page) in
    let new : get_elem? (views c3) i ≡ some (claimed i hash) = rw same (
      get_elem?-set_self (views c1) i (view e') below
      ∙ ap (λ p. some (record { page = p; hash = hash; wait = true; valid = true })) e-page) in
    record {
      memory = s.memory ∙ r.memory;
      new = new;
      old = old same;
      sound = record {
        pages = λ j v j-at. elim (ℕ_discrete j i) [
          | yes here ↦ ground (arith, new, here, j-at)
          | no other ↦ k.pages j v (old same j v other j-at)
        ];
        used = s.used ∙ r.used ∙ sym (ap length same ∙ length-set (views c1) i (view e'));
        unique = λ j l v w j-at l-at eq. elim (ℕ_discrete j i) [
          | yes j≡i ↦ elim (ℕ_discrete l i) [
            | yes l≡i ↦ j≡i ∙ sym l≡i
            | no l≢i ↦
                absurd (absent l w (old same l w l≢i l-at) (ground (arith, new, j≡i, j-at, eq)))
          ]
          | no j≢i ↦ elim (ℕ_discrete l i) [
            | yes l≡i ↦
                absurd (absent j v (old same j v j≢i j-at) (ground (arith, new, l≡i, l-at, eq)))
            | no l≢i ↦ k.unique j l v w (old same j v j≢i j-at) (old same l w l≢i l-at) eq
          ]
        ];
        indexed = λ h j there.
            let law =
              find-emplace_absent hash h i c1.index (not_indexed (find hash c1.index) refl) in
            let there' : find h (emplace hash i c1.index) ≡ some j = rw s.index at there in
            elim (Bool-cases (hash == h)) [
              | inl found_new ↦
                  let i≡j : i ≡ j = ground (arith, law, there', found_new) in
                  (claimed i hash, rw (← i≡j) new, ground (arith, found_new))
              | inr other ↦
                  let (j≢i, (v, j-at, eq)) = r.indexed h j (ground (arith, law, there', other)) in
                  let j-at1 = r.kept j v j≢i j-at in
                  (
                    v,
                    rw same (get_elem?-set_ne (views c1) (view e') (λ x. j≢i (sym x)) ∙ j-at1),
                    eq,
                  )
            ];
      };
    }
  where
    not_indexed : (o : Option ℕ) → find hash c1.index ≡ o → find hash c1.index ≡ none
    not_indexed none there = there
    not_indexed (some j) there =
        let (j≢i, (v, j-at, eq)) = r.indexed hash j there in absurd (absent j v j-at eq)

    old :
        views c3 ≡ set (views c1) i (view (record e { hash = hash; valid = true; wait = true }))
        → (j : ℕ) (v : View) → j ≢ i
        → get_elem? (views c3) j ≡ some v
        → get_elem? (views c) j ≡ some v
    old same j v ne j-at =
        let e' = record e { hash = hash; valid = true; wait = true } in
        r.old j v ne
          (sym (get_elem?-set_ne (views c1) (view e') (λ h. ne (sym h))) ∙ (rw same at j-at))

abbrev pub FreshFor : PageCache → ℕ → ℕ × PageCache → Type 0
FreshFor c hash r = Fresh c hash r.0 r.1

abbrev Modified : PageCache → ℕ → (Entry → Entry) → PageCache → Type 0
Modified c i f c2 =
    (e : Entry) × (get_elem? c.entries i ≡ some e)
    × (c2 ≡ record c { entries = set c.entries i (f e) })

modify-at :
    (c : PageCache) (i : ℕ) (f : Entry → Entry) → Ensures (Modified c i f) (modify c (some i) f)
unfolding modify
modify-at c i f = elim (Option-cases (get_elem? c.entries i)) [
  | inl gone ↦ rw (gone, modify) tt
  | inr (e, at) ↦ rw (at, modify) (e, at, refl)
]

-- `NewEntry` for a hash that no entry has, where it returns.
pub new_entry-Fresh :
    (c : PageCache) (hash : ℕ)
    → IsSound c
    → ((j : ℕ) (v : View) → get_elem? (views c) j ≡ some v → v.hash ≢ hash)
    → Ensures (FreshFor c hash) (new_entry c hash)
unfolding new_entry
new_entry-Fresh c hash k absent =
    Ensures-bind (ReadyFor c) (FreshFor c hash) _ _
      (Ensures-if (ReadyFor c) (ltb c.used_page c.max_page) _ _ (grow-Ready c k) (evict-Ready c k))
      claim
  where
    claim :
        (ready : ℕ × PageCache)
        → ReadyFor c ready
        → Ensures (FreshFor c hash) (do
          c2 ←
              modify ready.1
                (some ready.0)
                (λ e. record e { hash = hash; valid = true; wait = true })
          c3 ← update (record c2 { index = emplace hash ready.0 c2.index }) ready.0
          ok (ready.0, c3))
    claim (i, c1) r =
        let set_up = λ (e : Entry). record e { hash = hash; valid = true; wait = true } in
        Ensures-bind (Modified c1 i set_up) (FreshFor c hash) _ _ (modify-at c1 i set_up)
          (λ c2 (e, at, same).
            let c2' = record c1 {
              entries = set c1.entries i (set_up e);
              index = emplace hash i c1.index;
            } in
            rw same (
              Ensures-bind (SameViews c2') (FreshFor c hash) _ _ (update-SameViews c2' i)
                (λ c3 s. claim-Fresh c c1 c3 hash i e k absent r at s)))
