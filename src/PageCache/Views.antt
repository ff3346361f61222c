-- ===== src/PageCache/Views.antt =====
-- What `Update_`, `Lookup` and `NewEntry` (lib/kvengine/pagecache.cc) keep of the entries, whatever the
-- links are: they change no page, and no hash but that of the entry that is taken.
use mathlib.Core.Option.{some-injective}
use ktable_fs.Base.{
  ℕ, zero, suc, ◌≡◌, refl, sym, ap, ◌∙◌, Bool, Option, none, some, List, [], ◌∷◌, map, get_elem?,
  set, Ensures, Ensures-bind, ◌==◌, Ensures-if, Option-cases, inl, inr,
}
use ktable_fs.PageCache.{
  Entry, PageCache, load, modify, is, update, update_list, set_prev, set_next, cut_oldest,
}

-- An entry without its links.
pub record View : Type 0 where
  pub page : ℕ
  pub hash : ℕ
  pub wait : Bool
  pub valid : Bool

abbrev pub view : Entry → View
view e = record { page = e.page; hash = e.hash; wait = e.wait; valid = e.valid }

-- `c'` differs from `c` in links alone.
pub record SameViews (c c' : PageCache) : Type 0 where
  pub views : map view c'.entries ≡ map view c.entries
  pub memory : c'.memory ≡ c.memory
  pub index : c'.index ≡ c.index
  pub used : c'.used_page ≡ c.used_page

pub SameViews-refl : (c : PageCache) → SameViews c c
SameViews-refl c = record { views = refl; memory = refl; index = refl; used = refl }

SameViews-trans : (a b c : PageCache) → SameViews a b → SameViews b c → SameViews a c
SameViews-trans a b c h k = record {
  views = k.views ∙ h.views;
  memory = k.memory ∙ h.memory;
  index = k.index ∙ h.index;
  used = k.used ∙ h.used;
}

map-set :
    (es : List Entry) (i : ℕ) (e v : Entry)
    → get_elem? es i ≡ some e
    → view v ≡ view e
    → map view (set es i v) ≡ map view es
map-set [] i e v at same = refl
map-set (x ∷ xs) zero e v at same =
    ap (λ t. t ∷ map view xs) (same ∙ ap view (some-injective e x (sym at)))
map-set (x ∷ xs) (suc i) e v at same = ap (◌∷◌ (view x)) (map-set xs i e v at same)

-- A write to the links of an entry.
pub modify-SameViews :
    (c0 c : PageCache) (p : Option ℕ) (f : Entry → Entry)
    → ((e : Entry) → view (f e) ≡ view e)
    → SameViews c0 c
    → Ensures (SameViews c0) (modify c p f)
unfolding modify
modify-SameViews c0 c none f keep h = tt
modify-SameViews c0 c (some i) f keep h = elim (Option-cases (get_elem? c.entries i)) [
  | inl gone ↦ rw (gone, modify) tt
  | inr (e, at) ↦
      rw (at, modify)
        (SameViews-trans c0 c (record c { entries = set c.entries i (f e) }) h
          (record {
            views = map-set c.entries i e (f e) at (keep e);
            memory = refl;
            index = refl;
            used = refl;
          }))
]

pub load-SameViews :
    (c0 c : PageCache) (p : Option ℕ) → Ensures (λ (e : Entry). Unit {0}) (load c p)
unfolding load
load-SameViews c0 c none = tt
load-SameViews c0 c (some i) = elim (Option-cases (get_elem? c.entries i)) [
  | inl gone ↦ rw (gone, load) tt
  | inr (e, at) ↦ rw (at, load) tt
]

relinked :
    (c0 c : PageCache) (n o : Option ℕ)
    → SameViews c0 c
    → SameViews c0 (record c { newest = n; oldest = o })
relinked c0 c n o h = record { views = h.views; memory = h.memory; index = h.index; used = h.used }

pub cut_oldest-SameViews :
    (c0 c : PageCache) (e : Entry) → SameViews c0 c → Ensures (SameViews c0) (cut_oldest c e)
unfolding cut_oldest
cut_oldest-SameViews c0 c e h =
    modify-SameViews c0 (record c { oldest = e.prev }) e.prev (set_next none) (λ x. refl)
      (relinked c0 c c.newest e.prev h)

-- `Update_` changes links alone.
pub update-SameViews : (c : PageCache) (i : ℕ) → Ensures (SameViews c) (update c i)
unfolding update
update-SameViews c i = by_newest c.newest
  where
    by_newest : (o : Option ℕ) → Ensures (SameViews c) (update_list c i o)
    by_newest none =
        modify-SameViews c (record c { newest = some i; oldest = some i }) (some i)
          (λ e. record e { prev = none; next = none }) (λ e. refl)
          (relinked c c (some i) (some i) (SameViews-refl c))
    by_newest (some x) = Ensures-if (SameViews c) (x == i) _ _ (SameViews-refl c) (
        Ensures-bind (λ e. Unit {0}) (SameViews c) _ _ (load-SameViews c c (some i))
          (λ e known.
            Ensures-bind (SameViews c) (SameViews c) _ _
              (Ensures-if (SameViews c) (is c.oldest i) _ _
                (cut_oldest-SameViews c c e (SameViews-refl c)) (SameViews-refl c))
              (λ c1 h1.
                Ensures-bind (SameViews c) (SameViews c) _ _
                  (modify-SameViews c c1 (some i) (λ e. record e { next = some x; prev = none })
                    (λ e. refl) h1)
                  (λ c2 h2.
                    Ensures-bind (SameViews c) (SameViews c) _ _
                      (modify-SameViews c c2 (some x) (set_prev (some i)) (λ e. refl) h2)
                      (λ c3 h3. relinked c c3 (some i) c3.oldest h3)))))
