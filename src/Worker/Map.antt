-- ===== src/Worker/Map.antt =====
-- What a worker promises to its clients: a finite map from keys to values, as a function, and the
-- answer to a request on it. `IsValid` ties a worker of lib/kvengine/worker.cc to its map.
use ktable_fs.Base.{
  ◌≤◌, ◌<◌, ◌^◌, ◌≡◌, Option, none, some, List, [], ◌∷◌, ◌++◌, if◌then◌else◌, length, ok, fault,
}
use ktable_fs.Slice.{Slice, equal}
use ktable_fs.KeyMap.{find}
use ktable_fs.FileSlab.{Slab, item_size, record_bytes, parse}
use ktable_fs.Batch.{Request, get, put, update, delete, scan, Code, success, enoent, eexist}
use ktable_fs.Slabs.{Slabs}
use ktable_fs.Worker.{Aio, Event, bytes, pread, pwrite, Worker}

abbrev pub Map : Type 0
Map = Slice → Option Slice

abbrev pub code_if : Option Slice → Code → Code → Code
code_if none a b = a
code_if (some v) a b = b

-- The value and the code that a request is answered with.
abbrev pub answer : Map → Request → Option Slice × Code
answer f (get k) = (f k, code_if (f k) enoent success)
answer f (put k v) = (none, code_if (f k) success eexist)
answer f (update k v) = (none, code_if (f k) enoent success)
answer f (delete k) = (none, code_if (f k) enoent success)
answer f (scan n a b g) = (none, success)

abbrev pub set_if : Option Slice → Option Slice → Option Slice → Option Slice
set_if none a b = a
set_if (some v) a b = b

-- The map after a request.
abbrev pub after : Map → Request → Map
after f (get k) j = f j
after f (put k v) j = set_if (f k) (if equal k j then some v else f j) (f j)
after f (update k v) j = set_if (f k) (f j) (if equal k j then some v else f j)
after f (delete k) j = if equal k j then none else f j
after f (scan n a b g) j = f j

-- io_submit and io_getevents where each read and write is complete.
unfoldable pub complete : List Aio → List Event
complete [] = []
complete (a ∷ rest_aios) =
    let rest = complete rest_aios in
    if a.submit
    then (elim a.op [ pread ↦ bytes 4096 ∷ rest | pwrite d ↦ bytes (length d) ∷ rest ])
    else rest

module _ (m : Slabs) where
  -- The map of a worker.
  unfoldable pub value_at : m.Store → Option Slab → Option Slice
  value_at st none = none
  value_at st (some s) = elim (parse (m.slab_bytes st s)) [ ok (k, v) ↦ some v | fault e ↦ none ]

  unfoldable pub view : Worker m → Map
  view w k = value_at w.store (find k w.index)

  -- The slab `s` starts with a record of `k`.
  abbrev pub Holds : m.Store → Slice → Slab → Type 0
  Holds st k s =
      (v : Slice) × (rest : Slice) × (length k < 2 ^ 16)
      × (length v < 2 ^ 16)
      × (m.slab_bytes st s ≡ record_bytes k v ++ rest)

  -- Between two turns: no io is left, and each key has a slab of its own that holds its record.
  pub record IsValid (Live : m.Store → Slab → Type 0) (w : Worker m) : Type 0 where
    pub idle : w.io_queue ≡ []
    pub own : (k j : Slice) (s : Slab) → find k w.index ≡ some s → find j w.index ≡ some s → k ≡ j
    pub live : (k : Slice) (s : Slab) → find k w.index ≡ some s → Live w.store s
    pub holds : (k : Slice) (s : Slab) → find k w.index ≡ some s → Holds w.store k s

  -- What the sizes must be: the record of a `put` is one for which there is a slab, that of an `update`
  -- fits the slab that the key has.
  abbrev pub Fits : Worker m → Request → Type 0
  Fits w (get k) = Unit {0}
  Fits w (put k v) =
      (length k < 2 ^ 16)
      × (length v < 2 ^ 16)
      × ((s : Slab) × (st : m.Store) × (m.create w.store k v ≡ ok (s, st)))
  Fits w (update k v) =
      (length k < 2 ^ 16)
      × (length v < 2 ^ 16)
      × ((s : Slab) → find k w.index ≡ some s → item_size k v ≤ s.size)
  Fits w (delete k) = Unit {0}
  Fits w (scan n a b g) = ¬ Unit {0}
