-- ===== src/Worker/Scan/Loop.antt =====
-- The loop over the records in lib/kvengine/worker.cc, lines 117 to 127.
use mathlib.Core.Path.{subst}
use ktable_fs.Base.{
  ◌<◌, ◌^◌, ◌≡◌, ◌∙◌, refl, sym, ap, inl, inr, ◌⊎◌, Bool, true, false, List, [], ◌∷◌, ◌++◌, ok,
  fault, use_after_free, Bool-cases, All, Result, length, map, arith, ◌>>=◌,
}
use ktable_fs.Slice.{Slice, less}
use ktable_fs.FileSlab.{Slab, parse, record_bytes}
use ktable_fs.FileSlab.Format.{parse-record_bytes}
use ktable_fs.Batch.{ScanCallback}
use ktable_fs.Slabs.{Slabs, Laws}
use ktable_fs.Worker.{scan_loop, answer_scan}

-- An entry of the index with the value of its record.
pub record Item : Type 0 where
  pub key : Slice
  pub slab : Slab
  pub value : Slice

abbrev pub entry : Item → Slice × Slab
entry i = (i.key, i.slab)

module _ (m : Slabs) (IsSlab Live : m.Store → Slab → Type 0) (l : Laws m IsSlab Live)
    (max_key : Slice) (f : ScanCallback) where
  abbrev pub Has : m.Store → Item → Type 0
  Has st i =
      Live st i.slab
      × (rest : Slice) × (length i.key < 2 ^ 16)
      × (length i.value < 2 ^ 16)
      × (m.slab_bytes st i.slab ≡ record_bytes i.key i.value ++ rest)

  abbrev Kept : m.Store → m.Store → Type 0
  Kept st st' = (t : Slab) → Live st t → Live st' t × (m.slab_bytes st' t ≡ m.slab_bytes st t)

  Has-Kept :
      (st st' : m.Store) → Kept st st' → (is : List Item) → All (Has st) is → All (Has st') is
  Has-Kept st st' kept [] h = tt
  Has-Kept st st' kept (i ∷ is) ((alive, rest, a, b, e), h) =
      let (alive', same) = kept i.slab alive in
      ((alive', rest, a, b, same ∙ e), Has-Kept st st' kept is h)

  -- One round on an entry in the range.
  round :
      (st : m.Store) (alive : Bool) (i : Item) (es : List (Slice × Slab))
      → Has st i
      → less i.key max_key ≡ true
      → (st1 : m.Store) × Kept st st1
        × (scan_loop m st alive ((i.key, i.slab) ∷ es) max_key f ≡ (
            answer_scan m alive (f i.key i.value)
            >>= (λ alive'. scan_loop m st1 alive' es max_key f)))
  unfolding scan_loop
  round st alive i es (live, rest, a, b, e) t =
      let (st1, read) = l.sync_ok st i.slab live in
      let parsed : parse (m.slab_bytes st i.slab) ≡ ok (i.key, i.value) =
        ap parse e ∙ (parse-record_bytes i.key i.value rest a b).1 in
      (
        st1,
        (λ s alive. l.sync-Live st st1 i.slab s (m.slab_bytes st i.slab) read alive),
        rw (t, read, parsed) refl,
      )

  abbrev pub Accepted : Item → Type 0
  Accepted i = less i.key max_key ≡ true → f i.key i.value ≡ true

  pub loop_ok :
      (st : m.Store) (is : List Item)
      → All (Has st) is
      → All Accepted is
      → (st' : m.Store) × Kept st st'
        × (scan_loop m st true (map entry is) max_key f ≡ ok (true, st'))
  unfolding scan_loop answer_scan
  loop_ok st [] h a = (st, (λ t alive. (alive, refl)), refl)
  loop_ok st (i ∷ is) h a = elim (Bool-cases (less i.key max_key)) [
    | inr t ↦ (st, (λ s alive. (alive, refl)), rw (scan_loop, t) refl)
    | inl t ↦
        let (st1, kept, run) = round st true i (map entry is) h.0 t in
        let (st', kept', more) = loop_ok st1 is (Has-Kept st st1 kept is h.1) a.1 in
        (
          st',
          (λ s alive.
              let (alive1, same) = kept s alive in
              let (alive', same') = kept' s alive1 in (alive', same' ∙ same)),
          run ∙ rw (a.0 t) more,
        )
  ]

  -- The batch is deleted: the loop goes through freed memory, or the call after it does.
  abbrev pub Dead : Result (Bool × m.Store) → Type 0
  Dead r = (r ≡ fault use_after_free) ⊎ ((st' : m.Store) × (r ≡ ok (false, st')))

  loop-Dead :
      (st : m.Store) (is : List Item)
      → All (Has st) is
      → Dead (scan_loop m st false (map entry is) max_key f)
  unfolding scan_loop answer_scan
  loop-Dead st [] h = inr (st, refl)
  loop-Dead st (i ∷ is) h = elim (Bool-cases (less i.key max_key)) [
    | inr t ↦ inr (st, rw (scan_loop, t) refl)
    | inl t ↦
        let (st1, kept, run) = round st false i (map entry is) h.0 t in
        let more = loop-Dead st1 is (Has-Kept st st1 kept is h.1) in
        elim (Bool-cases (f i.key i.value)) [
          | inl t2 ↦ subst Dead (sym (run ∙ rw t2 refl)) more
          | inr u ↦ inl (run ∙ rw u refl)
        ]
  ]

  abbrev pub Refused : List Item → Type 0
  Refused [] = ⊥
  Refused (i ∷ is) = (less i.key max_key ≡ true) × ((f i.key i.value ≡ false) ⊎ Refused is)

  pub loop-Refused :
      (st : m.Store) (is : List Item)
      → All (Has st) is
      → Refused is
      → Dead (scan_loop m st true (map entry is) max_key f)
  unfolding scan_loop answer_scan
  loop-Refused st [] h r = absurd r
  loop-Refused st (i ∷ is) h (t, r) =
      let (st1, kept, run) = round st true i (map entry is) h.0 t in
      let h1 = Has-Kept st st1 kept is h.1 in
      elim (Bool-cases (f i.key i.value)) [
        | inr u ↦ subst Dead (sym (run ∙ rw u refl)) (loop-Dead st1 is h1)
        | inl t2 ↦ elim r [
          | inl u ↦ absurd (ground (arith, t2, u))
          | inr later ↦ subst Dead (sym (run ∙ rw t2 refl)) (loop-Refused st1 is h1 later)
        ]
      ]
