-- ===== src/Worker/Change.antt =====
-- A change of the slab of one key keeps a worker (lib/kvengine/worker.cc) well-formed.
use ktable_fs.Base.{
  ◌≤◌, ◌<◌, ◌^◌, ◌≡◌, ◌⊎◌, refl, inl, inr, true, false, Option, none, some, [], ◌++◌, arith,
  if◌then◌else◌, length, Option-cases, Bool-cases, sym, ◌∙◌,
}
use mathlib.Core.Path.{subst}
use ktable_fs.Slice.{Slice, equal}
use ktable_fs.Slice.Order.{equal_iff}
use ktable_fs.KeyMap.{find}
use ktable_fs.FileSlab.{Slab, item_size, record_bytes}
use ktable_fs.FileSlab.Format.{parse-record_bytes}
use ktable_fs.Slabs.{Slabs}
use ktable_fs.Worker.{Worker}
use ktable_fs.Worker.Map.{value_at, view, Holds, IsValid}

module _ (m : Slabs) (Live : m.Store → Slab → Type 0) (w : Worker m) (k : IsValid m Live w) where
  pub view_hit :
      (key : Slice) (s : Slab)
      → find key w.index ≡ some s
      → (v : Slice) × (rest : Slice) × (length key < 2 ^ 16)
        × (length v < 2 ^ 16)
        × (m.slab_bytes w.store s ≡ record_bytes key v ++ rest)
        × (view m w key ≡ some v)
  unfolding view value_at
  view_hit key s e =
      let (v, rest, h, i, same) = k.holds key s e in
      (v, rest, h, i, same, rw (e, value_at, same, (parse-record_bytes key v rest h i).1) refl)

  pub view_miss : (key : Slice) → find key w.index ≡ none → view m w key ≡ none
  unfolding view value_at
  view_miss key e = rw e

  pub value_same :
      (st st' : m.Store) (s : Slab)
      → m.slab_bytes st s ≡ m.slab_bytes st' s
      → value_at m st (some s) ≡ value_at m st' (some s)
  unfolding value_at
  value_same st st' s e = rw (value_at, e) refl

  -- The slab `slot` of `key` is in use, holds a record of the key, and is no other key's.
  abbrev pub Own : Worker m → Slice → Option Slab → Type 0
  Own w2 key slot =
      (s : Slab)
      → slot ≡ some s
      → Live w2.store s
        × Holds m w2.store key s
        × ((j : Slice) → find j w.index ≡ some s → equal key j ≡ true)

  abbrev pub Other : Worker m → Slice → Type 0
  Other w2 key =
      (j : Slice) (s : Slab)
      → find j w.index ≡ some s
      → equal key j ≡ false
      → Live w2.store s × (m.slab_bytes w2.store s ≡ m.slab_bytes w.store s)

  abbrev pub Found : Worker m → Slice → Option Slab → Type 0
  Found w2 key slot = (j : Slice) → find j w2.index ≡ (if equal key j then slot else find j w.index)

  -- A worker `w2` whose index has `slot` for `key`, and for the other keys what `w` has.
  module _ (w2 : Worker m) (key : Slice) (slot : Option Slab) (idle : w2.io_queue ≡ [])
      (found : Found w2 key slot) (own : Own w2 key slot) (other : Other w2 key) where
    other_or :
        (j : Slice) (s : Slab)
        → find j w2.index ≡ some s
        → ((equal key j ≡ true) × (slot ≡ some s))
          ⊎ ((equal key j ≡ false) × (find j w.index ≡ some s))
    other_or j s e = elim (Bool-cases (equal key j)) [
      | inl t ↦ inl (t, ground (arith, found j))
      | inr t ↦ inr (t, ground (arith, found j))
    ]

    pub changed_IsValid : IsValid m Live w2
    changed_IsValid = record {
      idle = idle;
      own = λ i j s e e'. elim (other_or i s e) [
        | inl (t, h) ↦ elim (other_or j s e') [
          | inl (t', h') ↦ sym ((equal_iff key i).0 t) ∙ (equal_iff key j).0 t'
          | inr (t', h') ↦ ground (arith, (own s h).2 j h')
        ]
        | inr (t, h) ↦ elim (other_or j s e') [
          | inl (t', h') ↦ ground (arith, (own s h').2 i h)
          | inr (t', h') ↦ k.own i j s h h'
        ]
      ];
      live = λ i s e. elim (other_or i s e) [
        | inl (t, h) ↦ (own s h).0
        | inr (t, h) ↦ (other i s h t).0
      ];
      holds = λ i s e. elim (other_or i s e) [
        | inl (t, h) ↦ subst (λ x. Holds m w2.store x s) ((equal_iff key i).0 t) (own s h).1
        | inr (t, h) ↦
            let (v, rest, a, c, bytes_eq) = k.holds i s h in
            (v, rest, a, c, (other i s h t).1 ∙ bytes_eq)
      ];
    }

    pub changed-view :
        (j : Slice) → view m w2 j ≡ (if equal key j then value_at m w2.store slot else view m w j)
    unfolding view value_at
    changed-view j = elim (Bool-cases (equal key j)) [
      | inl t ↦ rw (found j, t)
      | inr t ↦
          rw (found j, t)
            (elim (Option-cases (find j w.index)) [
              | inl none_eq ↦ rw none_eq
              | inr (s, e) ↦ rw e (value_same w2.store w.store s (other j s e t).1)
            ])
    ]

  pub length_fits :
      (key v : Slice) (s : Slab)
      → length key < 2 ^ 16
      → length v < 2 ^ 16
      → item_size key v ≤ s.size
      → length (record_bytes key v) ≤ s.size
  length_fits key v s h i room = ground (arith, (parse-record_bytes key v [] h i).0)

  pub holds_value :
      (st : m.Store) (key v rest : Slice) (s : Slab)
      → length key < 2 ^ 16
      → length v < 2 ^ 16
      → m.slab_bytes st s ≡ record_bytes key v ++ rest
      → value_at m st (some s) ≡ some v
  unfolding value_at
  holds_value st key v rest s h i e = rw (value_at, e, (parse-record_bytes key v rest h i).1) refl

  -- Another store with the same slabs in use.
  module _ (st' : m.Store)
      (kept : (t : Slab)
        → Live w.store t
        → Live st' t × (m.slab_bytes st' t ≡ m.slab_bytes w.store t)) where
    abbrev pub stored : Worker m
    stored = record { index = w.index; store = st'; io_queue = [] }

    pub stored-IsValid : IsValid m Live stored
    stored-IsValid = record {
      idle = refl;
      own = k.own;
      live = λ i s e. (kept s (k.live i s e)).0;
      holds = λ i s e.
          let (v, rest, h, j, bytes_eq) = k.holds i s e in
          (v, rest, h, j, (kept s (k.live i s e)).1 ∙ bytes_eq);
    }

    pub stored-view : (j : Slice) → view m stored j ≡ view m w j
    unfolding view value_at
    stored-view j = elim (Option-cases (find j w.index)) [
      | inl none_eq ↦ rw none_eq
      | inr (s, e) ↦ rw e (value_same st' w.store s (kept s (k.live j s e)).1)
    ]
