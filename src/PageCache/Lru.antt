-- ===== src/PageCache/Lru.antt =====
-- The list of `PageCache` (lib/kvengine/pagecache.cc) by use: what `Update_` does to it, and how
-- `NewEntry` finds the entry that it takes.
use ktable_fs.Base.{
  ℕ, zero, suc, ◌+◌, ◌≤◌, ◌<◌, ◌≡◌, ◌≢◌, refl, sym, ap, ◌∙◌, true, false, Option, none, some, List,
  [], ◌∷◌, arith, length, get_elem?, set, get_elem?-set_self, get_elem?-set_ne, lt_of_get_elem?,
  length-set, ◌==◌, ok, All, NotIn, Distinct,
}
use ktable_fs.PageCache.{Entry, PageCache, load, modify, is, set_prev, update, skip_waiting}
use ktable_fs.PageCache.Links.{first_or, last_or, Linked, Linked-set, Linked-set_prev}

-- The list of the entries from the newest to the oldest is `xs`, without cycles.
pub record IsLinked (c : PageCache) (xs : List ℕ) : Type 0 where
  pub newest : c.newest ≡ first_or xs none
  pub oldest : c.oldest ≡ last_or xs none
  pub links : Linked c.entries none xs none
  pub distinct : Distinct xs
  pub count : length xs ≤ length c.entries

abbrev pub Waits : PageCache → ℕ → Type 0
Waits c i = (e : Entry) × (get_elem? c.entries i ≡ some e) × (e.wait ≡ true)

pub is-last : (i x : ℕ) (xs : List ℕ) → NotIn i (x ∷ xs) → is (last_or xs (some x)) i ≡ false
is-last i x [] out = let ne = out.0 in ground (arith, λ (e : i ≡ x). ne e)
is-last i x (y ∷ ys) out = is-last i y ys out.1

skip_waiting-step :
    (fuel : ℕ) (c : PageCache) (x : ℕ) (e : Entry)
    → get_elem? c.entries x ≡ some e
    → e.wait ≡ true
    → skip_waiting (suc fuel) c (some x) ≡ skip_waiting fuel c e.prev
unfolding skip_waiting
skip_waiting-step fuel c x e at waits = rw (at, skip_waiting, waits)

pub skip_waiting-stop :
    (fuel : ℕ) (c : PageCache) (x : ℕ) (e : Entry)
    → get_elem? c.entries x ≡ some e
    → e.wait ≡ false
    → skip_waiting (suc fuel) c (some x) ≡ ok (some x)
unfolding skip_waiting
skip_waiting-stop fuel c x e at free = rw (at, skip_waiting, free)

pub skip_waiting-nothing : (fuel : ℕ) (c : PageCache) → skip_waiting fuel c none ≡ ok none
unfolding skip_waiting
skip_waiting-nothing zero c = refl
skip_waiting-nothing (suc fuel) c = refl

-- The walk from the last entry of a part that waits comes out before it.
pub skip_waiting-back :
    (c : PageCache) (fuel : ℕ) (p : Option ℕ) (xs : List ℕ) (q : Option ℕ)
    → Linked c.entries p xs q
    → All (Waits c) xs
    → skip_waiting (fuel + length xs) c (last_or xs p) ≡ skip_waiting fuel c p
skip_waiting-back c fuel p [] q h w = ap (λ n. skip_waiting n c p) (omega arith)
skip_waiting-back c fuel p (x ∷ xs) q (e, at, back, on, rest) ((e', at', waits), w) =
    let same : e' ≡ e = cc in
    ap (λ n. skip_waiting n c (last_or xs (some x))) (omega arith)
    ∙ skip_waiting-back c (suc fuel) (some x) xs q rest w
    ∙ skip_waiting-step fuel c x e' at' waits
    ∙ ap (skip_waiting fuel c) (ap (λ (t : Entry). t.prev) same ∙ back)

pub modify-ok :
    (c : PageCache) (i : ℕ) (e : Entry) (f : Entry → Entry)
    → get_elem? c.entries i ≡ some e
    → modify c (some i) f ≡ ok (record c { entries = set c.entries i (f e) })
unfolding modify
modify-ok c i e f at = rw (at, modify)

-- A new entry, or one that was taken out of the list, comes to its front.
pub update-IsLinked :
    (c : PageCache) (i : ℕ) (e : Entry) (x : ℕ) (xs : List ℕ)
    → IsLinked c (x ∷ xs)
    → get_elem? c.entries i ≡ some e
    → NotIn i (x ∷ xs)
    → length (x ∷ xs) < length c.entries
    → (c' : PageCache) × (update c i ≡ ok c') × IsLinked c' (i ∷ x ∷ xs)
unfolding update load modify
update-IsLinked c i e x xs k at out room =
    let front = record e { next = some x; prev = none } in
    let es = set c.entries i front in
    let (ex, x-at, back, on, rest) = k.links in
    let x-at' : get_elem? es x ≡ some ex = get_elem?-set_ne c.entries front out.0 ∙ x-at in
    let i-at : get_elem? es i ≡ some front =
      get_elem?-set_self c.entries i front (lt_of_get_elem? c.entries i at) in
    let es' = set es x (set_prev (some i) ex) in
    let x≢i : x ≢ i = λ same. out.0 (sym same) in
    let apart : (x == i) ≡ false = ground (arith, λ (same : x ≡ i). x≢i same) in
    (
      record c { entries = es'; newest = some i },
      rw (k.newest, k.oldest, apart, is-last i x xs out, at, load, modify) (rw (x-at', modify)),
      record {
        newest = refl;
        oldest = k.oldest;
        links = (
          front,
          get_elem?-set_ne es (set_prev (some i) ex) x≢i ∙ i-at,
          refl,
          refl,
          Linked-set_prev es x ex none (some i) xs none x-at' k.distinct.0
              (Linked-set c.entries i front none (x ∷ xs) none out k.links),
        );
        distinct = (out, k.distinct);
        count =
            omega
              (arith, length-set {0} es x (set_prev (some i) ex), length-set {0} c.entries i front);
      },
    )
