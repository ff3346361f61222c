-- ===== src/PageCache/Evict.antt =====
-- `PageCache::NewEntry` (lib/kvengine/pagecache.cc) on a list of entries without cycles: which entry it
-- takes, and that the list is again one without cycles, with the new entry in front.
use ktable_fs.Base.{
  ℕ, suc, ◌+◌, ◌-◌, ◌≤◌, ◌<◌, ◌≡◌, ◌≢◌, refl, sym, ap, ◌∙◌, false, none, some, List, [], ◌∷◌, ◌++◌,
  arith, length, get_elem?, set, get_elem?-set_self, get_elem?-set_ne, lt_of_get_elem?, length-set,
  length-append, ==-refl, ok, All, NotIn, Distinct, Distinct-middle, Distinct-back, All-middle,
  All-back, All-append_left, All-append_right, erase,
}
use ktable_fs.PageCache.{
  Entry, PageCache, load, modify, is, set_next, set_prev, skip_waiting, evict, cut_oldest,
}
use ktable_fs.PageCache.Links.{
  last_or, first_or-append, last_or-append, Linked, Linked-append, Linked-left, Linked-right,
  Linked-set, Linked-set_prev,
}
use ktable_fs.PageCache.Lru.{IsLinked, Waits, is-last, skip_waiting-stop, skip_waiting-back}

-- What is known of a list without repetitions from which `y` behind `w` is taken.
pub Distinct-drop :
    (A : List ℕ) (w y : ℕ) (B : List ℕ)
    → Distinct (A ++ (w ∷ y ∷ B))
    → NotIn w (A ++ B) × NotIn y (A ++ (w ∷ B)) × Distinct (A ++ (w ∷ B))
Distinct-drop A w y B d =
    let (w-out, rest) = Distinct-middle A w (y ∷ B) d in
    let (y-out, both) = Distinct-middle A y B rest in
    let (w≢y, w-other) = All-middle (λ b. w ≢ b) A y B w-out in
    (
      w-other,
      All-back (λ b. y ≢ b) A w B ((λ e. w≢y (sym e)), y-out),
      Distinct-back A w B (w-other, both),
    )

-- The search of `NewEntry` finds the last entry that does not wait.
pub found :
    (c : PageCache) (y : ℕ) (e : Entry) (B : List ℕ)
    → c.oldest ≡ last_or B (some y)
    → Linked c.entries (some y) B none
    → length B ≤ length c.entries
    → get_elem? c.entries y ≡ some e
    → e.wait ≡ false
    → All (Waits c) B
    → skip_waiting (suc (length c.entries)) c c.oldest ≡ ok (some y)
found c y e B oldest links count at free waits =
    let fuel : suc (length c.entries) ≡ suc (length c.entries - length B) + length B =
      omega arith in
    ap (λ p. skip_waiting (suc (length c.entries)) c p) oldest
    ∙ ap (λ n. skip_waiting n c (last_or B (some y))) fuel
    ∙ skip_waiting-back c (suc (length c.entries - length B)) (some y) B none links waits
    ∙ skip_waiting-stop (length c.entries - length B) c y e at free

-- The entry `y` is taken out, and the list is then `xs`.
pub record Taken (c : PageCache) (y : ℕ) (e : Entry) (xs : List ℕ) (c1 : PageCache) : Type 0 where
  pub call : evict c ≡ ok (y, record c1 { index = erase e.hash c.index })
  pub max : c1.max_page ≡ c.max_page
  pub used : c1.used_page ≡ c.used_page
  pub there : y < length c1.entries
  pub size : length c1.entries ≡ length c.entries
  pub linked : IsLinked c1 xs

module _ (c : PageCache) (A : List ℕ) (w y : ℕ) (e : Entry) where
  -- The last entry of the list is taken.
  pub evict_last :
      IsLinked c (A ++ (w ∷ y ∷ []))
      → get_elem? c.entries y ≡ some e
      → e.wait ≡ false
      → (c1 : PageCache) × Taken c y e (A ++ (w ∷ [])) c1
  unfolding evict load modify cut_oldest
  evict_last k at free =
      let (w-out, y-out, d) = Distinct-drop A w y [] k.distinct in
      let (ew, w-at, w-back, w-on, (ey, y-at, y-back, y-on, end)) =
        Linked-right c.entries none A (w ∷ y ∷ []) none k.links in
      let prev : e.prev ≡ some w = ground (arith, y-at, at, y-back) in
      let w' = set_next none ew in
      let longer = length-append {0} A (w ∷ y ∷ []) in
      let shorter = length-append {0} A (w ∷ []) in
      let oldest : c.oldest ≡ some y = k.oldest ∙ last_or-append A (w ∷ y ∷ []) none in
      let c1 = record c { oldest = some w; entries = set c.entries w w' } in
      (
        c1,
        record {
          call =
              rw
                (
                  found c y e [] oldest tt (omega arith) at free tt,
                  at,
                  load,
                  oldest,
                  ==-refl y,
                  cut_oldest,
                  prev,
                  modify,
                  w-at,
                )
                (rw prev);
          max = refl;
          used = refl;
          there = omega (arith, lt_of_get_elem? c.entries y at, length-set {0} c.entries w w');
          size = length-set c.entries w w';
          linked = record {
            newest =
                k.newest
                ∙ first_or-append A (w ∷ y ∷ []) none
                ∙ sym (first_or-append A (w ∷ []) none);
            oldest = sym (last_or-append A (w ∷ []) none);
            links =
                Linked-append (set c.entries w w') none A (w ∷ []) none
                  (Linked-set c.entries w w' none A (some w)
                    (All-append_left (λ b. w ≢ b) A [] w-out)
                    (Linked-left c.entries none A (w ∷ y ∷ []) none k.links))
                  (
                    w',
                    get_elem?-set_self c.entries w w' (lt_of_get_elem? c.entries w w-at),
                    w-back,
                    refl,
                    tt,
                  );
            distinct = d;
            count = omega (arith, length-set {0} c.entries w w', k.count);
          };
        },
      )

  -- An entry in the middle of the list is taken.
  pub evict_middle :
      (z : ℕ) (B : List ℕ)
      → IsLinked c (A ++ (w ∷ y ∷ z ∷ B))
      → get_elem? c.entries y ≡ some e
      → e.wait ≡ false
      → All (Waits c) (z ∷ B)
      → (c1 : PageCache) × Taken c y e (A ++ (w ∷ z ∷ B)) c1
  unfolding evict load modify cut_oldest
  evict_middle z B k at free waits =
      let (w-out, y-out, d) = Distinct-drop A w y (z ∷ B) k.distinct in
      let (ew, w-at, w-back, w-on, (ey, y-at, y-back, y-on, rest)) =
        Linked-right c.entries none A (w ∷ y ∷ z ∷ B) none k.links in
      let (ez, z-at, z-back, z-on, behind) = rest in
      let prev : e.prev ≡ some w = ground (arith, y-at, at, y-back) in
      let next : e.next ≡ some z = ground (arith, y-at, at, y-on) in
      let w≢z : w ≢ z = (All-append_right (λ b. w ≢ b) A (z ∷ B) w-out).0 in
      let w-out' : NotIn w (z ∷ B) = (w≢z, (All-append_right (λ b. w ≢ b) A (z ∷ B) w-out).1) in
      let (z-out, d') = Distinct-middle A z B (Distinct-middle A w (z ∷ B) d).1 in
      let w' = set_next (some z) ew in
      let z' = set_prev (some w) ez in
      let es = set c.entries w w' in
      let longer = length-append {0} A (w ∷ y ∷ z ∷ B) in
      let shorter = length-append {0} A (w ∷ z ∷ B) in
      let oldest : c.oldest ≡ last_or B (some z) =
        k.oldest ∙ last_or-append A (w ∷ y ∷ z ∷ B) none in
      let y-behind = All-append_right (λ b. y ≢ b) A (w ∷ z ∷ B) y-out in
      let z-at' : get_elem? es z ≡ some ez = get_elem?-set_ne c.entries w' w≢z ∙ z-at in
      let c1 = record c { entries = set es z z' } in
      let size : length (set es z z') ≡ length c.entries =
        length-set es z z' ∙ length-set c.entries w w' in
      let found_y = found c y e (z ∷ B) oldest rest (omega arith) at free waits in
      let inner : is (last_or B (some z)) y ≡ false = is-last y z B y-behind.1 in
      (
        c1,
        record {
          call =
              rw (found_y, at, load, oldest, inner, prev, modify, w-at, next, modify, next, z-at')
                (rw (sym oldest, next));
          max = refl;
          used = refl;
          there = omega (arith, lt_of_get_elem? c.entries y at);
          size = size;
          linked = record {
            newest =
                k.newest
                ∙ first_or-append A (w ∷ y ∷ z ∷ B) none
                ∙ sym (first_or-append A (w ∷ z ∷ B) none);
            oldest = oldest ∙ sym (last_or-append A (w ∷ z ∷ B) none);
            links =
                Linked-append (set es z z') none A (w ∷ z ∷ B) none
                  (Linked-set es z z' none A (some w) (All-append_left (λ b. z ≢ b) A B z-out) (
                    Linked-set c.entries w w' none A (some w)
                      (All-append_left (λ b. w ≢ b) A (z ∷ B) w-out)
                      (Linked-left c.entries none A (w ∷ y ∷ z ∷ B) none k.links)))
                  (
                    w',
                    get_elem?-set_ne es z' (λ same. w≢z (sym same))
                        ∙ get_elem?-set_self c.entries w w' (lt_of_get_elem? c.entries w w-at),
                    w-back,
                    refl,
                    Linked-set_prev es z ez (some y) (some w) B none z-at'
                        (All-append_right (λ b. z ≢ b) A B z-out)
                        (Linked-set c.entries w w' (some y) (z ∷ B) none w-out' rest),
                  );
            distinct = d;
            count = omega (arith, size, k.count);
          };
        },
      )
