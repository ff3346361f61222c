-- ===== src/PageCache/Links.antt =====
-- The double links of `PageCache::Entry` (lib/kvengine/pagecache.h): parts of the list from the newest
-- to the oldest entry, and what a write to one entry does to them.
use ktable_fs.Base.{
  ℕ, ◌≡◌, refl, sym, ◌∙◌, Option, some, List, [], ◌∷◌, ◌++◌, get_elem?, set, get_elem?-set_self,
  get_elem?-set_ne, lt_of_get_elem?, NotIn,
}
use ktable_fs.PageCache.{Entry, set_next, set_prev}

abbrev pub first_or : List ℕ → Option ℕ → Option ℕ
first_or [] q = q
first_or (i ∷ is) q = some i

abbrev pub last_or : List ℕ → Option ℕ → Option ℕ
last_or [] p = p
last_or (i ∷ is) p = last_or is (some i)

-- The entries `xs` are linked both ways; `p` comes before them and `q` after them.
abbrev pub Linked : List Entry → Option ℕ → List ℕ → Option ℕ → Type 0
Linked es p [] q = Unit
Linked es p (i ∷ is) q =
    (e : Entry) × (get_elem? es i ≡ some e)
    × (e.prev ≡ p)
    × (e.next ≡ first_or is q)
    × Linked es (some i) is q

pub first_or-append :
    (xs ys : List ℕ) (q : Option ℕ) → first_or (xs ++ ys) q ≡ first_or xs (first_or ys q)
first_or-append [] ys q = refl
first_or-append (i ∷ is) ys q = refl

pub last_or-append :
    (xs ys : List ℕ) (p : Option ℕ) → last_or (xs ++ ys) p ≡ last_or ys (last_or xs p)
last_or-append [] ys p = refl
last_or-append (i ∷ is) ys p = last_or-append is ys (some i)

module _ (es : List Entry) where
  pub Linked-append :
      (p : Option ℕ) (xs ys : List ℕ) (q : Option ℕ)
      → Linked es p xs (first_or ys q)
      → Linked es (last_or xs p) ys q
      → Linked es p (xs ++ ys) q
  Linked-append p [] ys q h k = k
  Linked-append p (i ∷ is) ys q (e, at, back, on, rest) k =
      (e, at, back, on ∙ sym (first_or-append is ys q), Linked-append (some i) is ys q rest k)

  pub Linked-left :
      (p : Option ℕ) (xs ys : List ℕ) (q : Option ℕ)
      → Linked es p (xs ++ ys) q
      → Linked es p xs (first_or ys q)
  Linked-left p [] ys q h = tt
  Linked-left p (i ∷ is) ys q (e, at, back, on, rest) =
      (e, at, back, on ∙ first_or-append is ys q, Linked-left (some i) is ys q rest)

  pub Linked-right :
      (p : Option ℕ) (xs ys : List ℕ) (q : Option ℕ)
      → Linked es p (xs ++ ys) q
      → Linked es (last_or xs p) ys q
  Linked-right p [] ys q h = h
  Linked-right p (i ∷ is) ys q (e, at, back, on, rest) = Linked-right (some i) is ys q rest

  -- A write to an entry that is not in a part.
  pub Linked-set :
      (i : ℕ) (v : Entry) (p : Option ℕ) (xs : List ℕ) (q : Option ℕ)
      → NotIn i xs
      → Linked es p xs q
      → Linked (set es i v) p xs q
  Linked-set i v p [] q out h = tt
  Linked-set i v p (j ∷ js) q out (e, at, back, on, rest) =
      (e, get_elem?-set_ne es v out.0 ∙ at, back, on, Linked-set i v (some j) js q out.1 rest)

  get_elem?-update :
      (i : ℕ) (e v : Entry) → get_elem? es i ≡ some e → get_elem? (set es i v) i ≡ some v
  get_elem?-update i e v at = get_elem?-set_self es i v (lt_of_get_elem? es i at)

  -- The first entry of a part gets another predecessor.
  pub Linked-set_prev :
      (i : ℕ) (e : Entry) (p p' : Option ℕ) (is : List ℕ) (q : Option ℕ)
      → get_elem? es i ≡ some e
      → NotIn i is
      → Linked es p (i ∷ is) q
      → Linked (set es i (set_prev p' e)) p' (i ∷ is) q
  Linked-set_prev i e p p' is q at out (e', at', back, on, rest) = (
    set_prev p' e,
    get_elem?-update i e (set_prev p' e) at,
    refl,
    cc,
    Linked-set i (set_prev p' e) (some i) is q out rest,
  )

module _ (es : List Entry) where
  -- The last entry of a part gets another successor.
  pub Linked-set_next :
      (i : ℕ) (e : Entry) (p : Option ℕ) (xs : List ℕ) (q q' : Option ℕ)
      → get_elem? es i ≡ some e
      → NotIn i xs
      → Linked es p (xs ++ (i ∷ [])) q
      → Linked (set es i (set_next q' e)) p (xs ++ (i ∷ [])) q'
  Linked-set_next i e p xs q q' at out h =
      let (e', at', back, on, rest) = Linked-right es p xs (i ∷ []) q h in
      let es' = set es i (set_next q' e) in
      Linked-append es' p xs (i ∷ []) q'
        (Linked-set es i (set_next q' e) p xs (some i) out (Linked-left es p xs (i ∷ []) q h))
        (set_next q' e, get_elem?-update es i e (set_next q' e) at, cc, refl, tt)

  -- Every entry of a part is there.
  pub Linked-at :
      (p : Option ℕ) (xs : List ℕ) (i : ℕ) (ys : List ℕ) (q : Option ℕ)
      → Linked es p (xs ++ (i ∷ ys)) q
      → (e : Entry) × (get_elem? es i ≡ some e) × (e.prev ≡ last_or xs p) × (e.next ≡ first_or ys q)
  Linked-at p xs i ys q h =
      let (e, at, back, on, rest) = Linked-right es p xs (i ∷ ys) q h in (e, at, back, on)
