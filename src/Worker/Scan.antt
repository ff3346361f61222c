-- ===== src/Worker/Scan.antt =====
-- The scan of lib/kvengine/worker.cc, lines 117 to 128.
pub mod Range
mod Loop
use mathlib.Core.Path.{subst}
use mathlib.Core.Option.{some-injective}
use ktable_fs.Base.{
  ℕ, ◌<◌, ◌^◌, ◌≡◌, ◌∙◌, refl, sym, ap, inl, inr, ◌⊎◌, Bool, true, false, none, some, Option, List,
  [], ◌∷◌, ◌++◌, ok, fault, use_after_free, Bool-cases, Option-cases, All, if◌then◌else◌, Result,
  length, map, arith, >>=-ok, ◌>>=◌,
}
use ktable_fs.Slice.{Slice, less, equal}
use ktable_fs.Slice.Order.{equal_iff, less-IsOrder}
use ktable_fs.KeyMap.{find, lower_bound}
use ktable_fs.FileSlab.{Slab, parse, record_bytes}
use ktable_fs.FileSlab.Format.{parse-record_bytes}
use ktable_fs.Batch.{scan, ScanCallback, success, Batch, finish_request}
use ktable_fs.Slabs.{Slabs, Laws}
use ktable_fs.Worker.{Worker, scan_loop, answer_scan, process}
use ktable_fs.Worker.Map.{Holds, IsValid, value_at, view}
use ktable_fs.Worker.Change.{view_hit, view_miss, stored, stored-IsValid, stored-view}
use ktable_fs.Worker.Scan.Range.{
  IsSorted, find-lower, lower-All, lower-IsSorted, lower-not_less, find-member, find-All, All-zip,
  none_found,
}
use ktable_fs.Worker.Scan.Loop.{Item, entry, Has, Accepted, Dead, Refused, loop_ok, loop-Refused}

module _ (m : Slabs) (IsSlab Live : m.Store → Slab → Type 0) (l : Laws m IsSlab Live) (w : Worker m)
    (valid : IsValid m Live w) (min_key max_key : Slice) (f : ScanCallback) where
  abbrev Member : Slice × Slab → Type 0
  Member e = (find e.0 w.index ≡ some e.1) × (less e.0 min_key ≡ false)

  -- The map of the worker has the value of the item, from the first key of the range on.
  abbrev Mapped : Item → Type 0
  Mapped i = (less i.key min_key ≡ false) × (view m w i.key ≡ some i.value)

  -- The records that the loop goes through.
  items :
      (es : List (Slice × Slab))
      → All Member es
      → (is : List Item) × (map entry is ≡ es)
        × All (Has m IsSlab Live l max_key f w.store) is
        × All Mapped is
  items [] h = ([], refl, tt, tt)
  items ((k, s) ∷ es) ((at, from), h) =
      let (v, rest, a, b, same, value) = view_hit m Live w valid k s at in
      let (is, same_es, has, mapped) = items es h in
      (
        record { key = k; slab = s; value = v } ∷ is,
        (λ i. (k, s) ∷ same_es i),
        ((valid.live k s at, rest, a, b, same), has),
        ((from, value), mapped),
      )

  scanned :
      IsSorted w.index
      → (is : List Item) × (map entry is ≡ lower_bound min_key w.index)
        × All (Has m IsSlab Live l max_key f w.store) is
        × All Mapped is
  scanned sorted = items (lower_bound min_key w.index) (
      All-zip {A = Slice × Slab} (λ e. find e.0 w.index ≡ some e.1) (λ e. less e.0 min_key ≡ false)
        Member (λ e a b. (a, b)) _
        (lower-All (λ e. find e.0 w.index ≡ some e.1) min_key w.index (find-member w.index sorted))
        (lower-not_less min_key w.index sorted))

  -- The key and the value of a record in the range that the callback refuses.
  abbrev pub Refuses : Slice → Slice → Type 0
  Refuses k v =
      (less k min_key ≡ false) × (less k max_key ≡ true) × (view m w k ≡ some v) × (f k v ≡ false)

  all_or_one :
      (is : List Item)
      → All Mapped is
      → All (Accepted m IsSlab Live l max_key f) is ⊎ ((k v : Slice) × Refuses k v)
  all_or_one [] all = inl tt
  all_or_one (i ∷ is) ((from, value), all) = elim (all_or_one is all) [
    | inr found ↦ inr found
    | inl rest ↦ elim (Bool-cases (less i.key max_key)) [
      | inr t ↦ inl ((λ u. absurd (ground (arith, t, u))), rest)
      | inl t ↦ elim (Bool-cases (f i.key i.value)) [
        | inl u ↦ inl ((λ below. u), rest)
        | inr u ↦ inr (i.key, i.value, (from, t, value, u))
      ]
    ]
  ]

  refused :
      (k v : Slice) (s : Slab)
      → less k max_key ≡ true
      → view m w k ≡ some v
      → f k v ≡ false
      → (is : List Item) → IsSorted (map entry is)
      → All Mapped is
      → find k (map entry is) ≡ some s
      → Refused m IsSlab Live l max_key f is
  unfolding find
  refused k v s below value refuses [] sorted all at = none_found at
  refused k v s below value refuses (i ∷ is) (first, sorted) ((from, value_i), all) at =
      elim (Bool-cases (equal i.key k)) [
        | inl t ↦
            let same : i.key ≡ k = (equal_iff i.key k).0 t in
            let same_value : i.value ≡ v =
              some-injective _ _ (sym value_i ∙ ap (view m w) same ∙ value) in
            (
              ap (λ x. less x max_key) same ∙ below,
              inl ((λ i. f (same i) (same_value i)) ∙ refuses),
            )
        | inr t ↦
            let later : find k (map entry is) ≡ some s = rw (find, t) at at in
            let before : less i.key k ≡ true =
              find-All (λ e. less i.key e.0 ≡ true) k s (map entry is) first later in
            (
              (less-IsOrder i.key k max_key).1 before below,
              inr (refused k v s below value refuses is sorted all later),
            )
      ]

scan-Accepted :
    (m : Slabs) (IsSlab Live : m.Store → Slab → Type 0) (l : Laws m IsSlab Live) (w : Worker m)
    (valid : IsValid m Live w) (b : Batch) (n : ℕ) (min_key max_key : Slice) (f : ScanCallback)
    (sorted : IsSorted w.index)
    → All
        (Accepted m IsSlab Live l max_key f)
        (scanned m IsSlab Live l w valid min_key max_key f sorted).0
    → (w' : Worker m) × (process m w b (scan n min_key max_key f)
        ≡ ok (w', finish_request b none success ∷ []))
      × (w'.index ≡ w.index)
      × IsValid m Live w'
      × ((j : Slice) → view m w' j ≡ view m w j)
unfolding process
scan-Accepted m IsSlab Live l w valid b n min_key max_key f sorted all =
    let (is, same, has, mapped) = scanned m IsSlab Live l w valid min_key max_key f sorted in
    let (st', kept, run) = loop_ok m IsSlab Live l max_key f w.store is has all in
    (
      stored m Live w valid st' kept,
      rw (sym same, run, valid.idle) refl,
      refl,
      stored-IsValid m Live w valid st' kept,
      stored-view m Live w valid st' kept,
    )

scan-refused :
    (m : Slabs) (IsSlab Live : m.Store → Slab → Type 0) (l : Laws m IsSlab Live) (w : Worker m)
    (valid : IsValid m Live w) (b : Batch) (n : ℕ) (min_key max_key : Slice) (f : ScanCallback)
    (k v : Slice)
    → IsSorted w.index
    → less k min_key ≡ false
    → less k max_key ≡ true
    → view m w k ≡ some v
    → f k v ≡ false
    → process m w b (scan n min_key max_key f) ≡ fault use_after_free
unfolding process
scan-refused m IsSlab Live l w valid b n min_key max_key f k v sorted from below value refuses =
    let (is, same, has, mapped) = scanned m IsSlab Live l w valid min_key max_key f sorted in
    elim (Option-cases (find k w.index)) [
      | inl miss ↦ none_found (sym (view_miss m Live w valid k miss) ∙ value)
      | inr (s, at) ↦
          let at_is : find k (map entry is) ≡ some s =
            ap (find k) same ∙ find-lower min_key k w.index from ∙ at in
          let sorted_is : IsSorted (map entry is) =
            subst IsSorted (sym same) (lower-IsSorted min_key w.index sorted) in
          elim (loop-Refused m IsSlab Live l max_key f w.store is has (
            refused m IsSlab Live l w valid min_key max_key f k v s below value refuses is sorted_is
              mapped at_is)) [
                | inl dead ↦ rw (sym same, dead) refl
                | inr (st', dead) ↦ rw (sym same, dead) refl
              ]
    ]

not_both :
    {A : Type 0} {P : Type 0} {r : Result A} {a : A} → r ≡ ok a → r ≡ fault use_after_free → P
not_both e h = cc

-- For slabs that have the laws of `Slabs.Laws`, a valid worker whose index is in the order of its
-- keys, as a `std::map` is: either the callback of a scan accepts each record whose key is in the range,
-- not before the first key and before the last, and the scan finishes its batch once, with 0, leaves the
-- index as it is, the worker valid and its map the same. Or the callback refuses such a record,
-- anywhere in the range, and the scan goes on after the batch is deleted and uses it again, where the
-- model faults.
pub process-scan :
    (m : Slabs) (IsSlab Live : m.Store → Slab → Type 0) (l : Laws m IsSlab Live) (w : Worker m)
    (b : Batch) (n : ℕ) (min_key max_key : Slice) (f : ScanCallback)
    → IsValid m Live w
    → IsSorted w.index
    → (((k v : Slice)
          → less k min_key ≡ false
          → less k max_key ≡ true
          → view m w k ≡ some v
          → f k v ≡ true)
        × (w' : Worker m) × (process m w b (scan n min_key max_key f)
            ≡ ok (w', finish_request b none success ∷ []))
        × (w'.index ≡ w.index)
        × IsValid m Live w'
        × ((j : Slice) → view m w' j ≡ view m w j))
      ⊎ ((k : Slice) × (v : Slice) × (less k min_key ≡ false)
          × (less k max_key ≡ true)
          × (view m w k ≡ some v)
          × (f k v ≡ false)
          × (process m w b (scan n min_key max_key f) ≡ fault use_after_free))
process-scan m IsSlab Live l w b n min_key max_key f valid sorted =
    let (is, same, has, mapped) = scanned m IsSlab Live l w valid min_key max_key f sorted in
    elim (all_or_one m IsSlab Live l w valid min_key max_key f is mapped) [
      | inl all ↦
          let (w', run, index, valid', map') =
            scan-Accepted m IsSlab Live l w valid b n min_key max_key f sorted all in
          inl (
            (λ k v from below value. elim (Bool-cases (f k v)) [
              | inl u ↦ u
              | inr u ↦ not_both run (
                  scan-refused m IsSlab Live l w valid b n min_key max_key f k v sorted from below
                    value u)
            ]),
            w',
            run,
            index,
            valid',
            map',
          )
      | inr (k, v, (from, below, value, u)) ↦ inr (
        k,
        v,
        from,
        below,
        value,
        u,
        scan-refused m IsSlab Live l w valid b n min_key max_key f k v sorted from below value u,
      )
    ]
