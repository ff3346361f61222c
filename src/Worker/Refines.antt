-- ===== src/Worker/Refines.antt =====
-- A turn of a worker (lib/kvengine/worker.cc) implements the finite map.
use ktable_fs.Base.{
  ◌≤◌, ◌≡◌, ◌≢◌, refl, inl, inr, true, false, Option, none, some, List, [], ◌∷◌, length, ok,
  Option-cases, Bool-cases, sym, ap, ◌∙◌,
}
use mathlib.Core.Path.{subst}
use mathlib.Core.Bool.{false≢true}
use mathlib.Core.Option.{some-injective}
use ktable_fs.Slice.{Slice, equal}
use ktable_fs.Slice.Order.{equal_iff}
use ktable_fs.Bytes.{le_bytes}
use ktable_fs.KeyMap.{find, emplace, erase, find-emplace, find-erase}
use ktable_fs.FileSlab.{Slab, record_bytes, invalid_bytes}
use ktable_fs.Batch.{Request, get, put, update, delete, scan, Batch, finish_request}
use ktable_fs.Slabs.{Slabs, Laws, write_lem}
use ktable_fs.Worker.{
  Worker, turn, process, start_write, io_enqueue, run_callback, nothing, put_callback,
  delete_callback,
}
use ktable_fs.Worker.Map.{answer, after, complete, value_at, view, Holds, IsValid, Fits}
use ktable_fs.Worker.Change.{
  view_hit, view_miss, changed_IsValid, changed-view, Own, Other, Found, length_fits, holds_value,
}
use ktable_fs.Worker.Turns.{turn_io, write_aio, finish_write}
use ktable_fs.Worker.Quiet.{Implements, get_miss, get_hit, update_miss, delete_miss, put_hit}

module _ (m : Slabs) (IsSlab Live : m.Store → Slab → Type 0) (l : Laws m IsSlab Live) (w : Worker m)
    (k : IsValid m Live w) (b : Batch) (rs : List Request) where
  put_miss :
      (key v : Slice)
      → b.requests ≡ put key v ∷ rs
      → find key w.index ≡ none
      → Fits m w (put key v)
      → Implements m IsSlab Live l w k b rs (put key v)
  unfolding process start_write io_enqueue run_callback
  put_miss key v q e (h, i, (s, st, made)) =
      let (new, room, fresh) = l.create-fresh w.store st key v s made in
      let short = length_fits m Live w k key v s h i room in
      let wr = write_lem m IsSlab Live l st s (record_bytes key v) (l.Live-IsSlab st s new) short in
      let st' = wr.done in
      let (rest, bytes_eq) = wr.start in
      let aio = write_aio m w k.idle b rs s (record_bytes key v) (put_callback key s) in
      let w1 : Worker m = record { index = w.index; store = wr.begun; io_queue = aio ∷ [] } in
      let w2 : Worker m = record { index = emplace key s w.index; store = st'; io_queue = [] } in
      let found : Found m Live w k w2 key (some s) = λ j. find-emplace key j s w.index e in
      let own : Own m Live w k w2 key (some s) = λ t t_eq.
        subst
          (λ x.
            Live st' x
            × Holds m st' key x
            × ((j : Slice) → find j w.index ≡ some x → equal key j ≡ true))
          (some-injective _ _ t_eq)
          (
            wr.live s new,
            (v, rest, h, i, bytes_eq),
            λ j at. absurd (fresh s (k.live j s at) refl),
          ) in
      let other : Other m Live w k w2 key = λ j t at ne.
        let (alive, bytes_t) = l.create-other w.store st key v s t made (k.live j t at) in
        (wr.live t alive, wr.other t alive (fresh t (k.live j t at)) ∙ bytes_t) in
      (
        w2,
        rw (view_miss m Live w k key e) (
            turn_io m w k.idle b rs (put key v) w1 _
              (write_aio m w k.idle b rs s (record_bytes key v) (put_callback key s)) _ q
              (rw (e, process, made, start_write, wr.started, io_enqueue, k.idle) refl) refl
              (finish_write m w k.idle b rs w1 st' s (record_bytes key v) (put_callback key s)
                wr.finished)),
        changed_IsValid m Live w k w2 key (some s) refl found own other,
        λ j. rw (
          view_miss m Live w k key e,
          changed-view m Live w k w2 key (some s) refl found own other j,
          holds_value m Live w k st' key v rest s h i bytes_eq,
        ),
      )

  -- A slab that another key has is not the slab of `key`.
  apart :
      (key j : Slice) (s t : Slab)
      → find key w.index ≡ some s
      → find j w.index ≡ some t
      → equal key j ≡ false
      → s ≢ t
  apart key j s t e at ne same_slab = absurd (
      false≢true (
        sym ne
        ∙ (equal_iff key j).1 (k.own key j s e (at ∙ ap {B = Option Slab} some (sym same_slab)))))

  update_hit :
      (key v : Slice) (s : Slab)
      → b.requests ≡ update key v ∷ rs
      → find key w.index ≡ some s
      → Fits m w (update key v)
      → Implements m IsSlab Live l w k b rs (update key v)
  unfolding process start_write io_enqueue run_callback
  update_hit key v s q e (h, i, room) =
      let (_, _, _, _, _, hit) = view_hit m Live w k key s e in
      let old = k.live key s e in
      let short = length_fits m Live w k key v s h i (room s e) in
      let wr =
        write_lem m IsSlab Live l w.store s (record_bytes key v) (l.Live-IsSlab w.store s old)
          short in
      let st' = wr.done in
      let (rest, bytes_eq) = wr.start in
      let aio = write_aio m w k.idle b rs s (record_bytes key v) nothing in
      let w1 : Worker m = record { index = w.index; store = wr.begun; io_queue = aio ∷ [] } in
      let w2 : Worker m = record { index = w.index; store = st'; io_queue = [] } in
      let found : Found m Live w k w2 key (some s) = λ j. elim (Bool-cases (equal key j)) [
        | inl t ↦ rw (t, sym ((equal_iff key j).0 t)) e
        | inr t ↦ rw t
      ] in
      let own : Own m Live w k w2 key (some s) = λ t t_eq.
        subst
          (λ x.
            Live st' x
            × Holds m st' key x
            × ((j : Slice) → find j w.index ≡ some x → equal key j ≡ true))
          (some-injective _ _ t_eq)
          (
            wr.live s old,
            (v, rest, h, i, bytes_eq),
            λ j at. (equal_iff key j).1 (k.own key j s e at),
          ) in
      let other : Other m Live w k w2 key = λ j t at ne.
        (wr.live t (k.live j t at), wr.other t (k.live j t at) (apart key j s t e at ne)) in
      (
        w2,
        rw hit (
            turn_io m w k.idle b rs (update key v) w1 _
              (write_aio m w k.idle b rs s (record_bytes key v) nothing) _ q
              (rw (e, process, start_write, wr.started, io_enqueue, k.idle) refl) refl
              (finish_write m w k.idle b rs w1 st' s (record_bytes key v) nothing wr.finished)),
        changed_IsValid m Live w k w2 key (some s) refl found own other,
        λ j. rw (
          hit,
          changed-view m Live w k w2 key (some s) refl found own other j,
          holds_value m Live w k st' key v rest s h i bytes_eq,
        ),
      )

  delete_hit :
      (key : Slice) (s : Slab)
      → b.requests ≡ delete key ∷ rs
      → find key w.index ≡ some s
      → Implements m IsSlab Live l w k b rs (delete key)
  unfolding process start_write io_enqueue run_callback invalid_bytes le_bytes value_at
  delete_hit key s q e =
      let (_, _, _, _, _, hit) = view_hit m Live w k key s e in
      let (st, freed, issued) = l.free_ok w.store s (k.live key s e) in
      let short : length invalid_bytes ≤ s.size = l.header_fits st s issued in
      let wr = write_lem m IsSlab Live l st s invalid_bytes issued short in
      let st' = wr.done in
      let (rest, bytes_eq) = wr.start in
      let aio = write_aio m w k.idle b rs s invalid_bytes (delete_callback key) in
      let w1 : Worker m = record { index = w.index; store = wr.begun; io_queue = aio ∷ [] } in
      let w2 : Worker m = record { index = erase key w.index; store = st'; io_queue = [] } in
      let found : Found m Live w k w2 key none = λ j. find-erase key j w.index in
      let own : Own m Live w k w2 key none = λ t t_eq. cc in
      let other : Other m Live w k w2 key = λ j t at ne.
        let (alive, bytes_t) =
          l.free-other w.store st s t freed (k.live j t at) (apart key j s t e at ne) in
        (wr.live t alive, wr.other t alive (apart key j s t e at ne) ∙ bytes_t) in
      (
        w2,
        rw hit (
            turn_io m w k.idle b rs (delete key) w1 _
              (write_aio m w k.idle b rs s invalid_bytes (delete_callback key)) _ q
              (rw (e, process, freed, start_write, wr.started, io_enqueue, k.idle) refl) refl
              (finish_write m w k.idle b rs w1 st' s invalid_bytes (delete_callback key)
                wr.finished)),
        changed_IsValid m Live w k w2 key none refl found own other,
        changed-view m Live w k w2 key none refl found own other,
      )

-- For slabs that have the laws of `Slabs.Laws`, which the class of slabs in files `Slabs.Class` has and
-- the page cache has not in every state: a turn of a well-formed worker on one batch, where the system carries out each read and write
-- completely, implements a finite map: if the batch has a request that is not a scan, whose sizes
-- fit, the turn ends, answers the batch once with the value and the code that the map answers, and
-- leaves a well-formed worker whose map is the map after the request.
pub turn-refines :
    (m : Slabs) (IsSlab Live : m.Store → Slab → Type 0) (l : Laws m IsSlab Live) (w : Worker m)
    (b : Batch) (r : Request) (rs : List Request)
    → IsValid m Live w
    → b.requests ≡ r ∷ rs
    → Fits m w r
    → (w' : Worker m) × (turn m complete w (b ∷ [])
        ≡ ok (
          w',
          finish_request
                (record b { requests = rs })
                (answer (view m w) r).0
                (answer (view m w) r).1
              ∷ [],
        ))
      × IsValid m Live w'
      × ((j : Slice) → view m w' j ≡ after (view m w) r j)
turn-refines m IsSlab Live l w b (get key) rs k q fits = elim (Option-cases (find key w.index)) [
  | inl miss ↦ get_miss m IsSlab Live l w k b rs key q miss
  | inr (s, hit) ↦ get_hit m IsSlab Live l w k b rs key s q hit
]
turn-refines m IsSlab Live l w b (put key v) rs k q fits = elim (Option-cases (find key w.index)) [
  | inl miss ↦ put_miss m IsSlab Live l w k b rs key v q miss fits
  | inr (s, hit) ↦ put_hit m IsSlab Live l w k b rs key v s q hit
]
turn-refines m IsSlab Live l w b (update key v) rs k q fits =
    elim (Option-cases (find key w.index)) [
      | inl miss ↦ update_miss m IsSlab Live l w k b rs key v q miss
      | inr (s, hit) ↦ update_hit m IsSlab Live l w k b rs key v s q hit fits
    ]
turn-refines m IsSlab Live l w b (delete key) rs k q fits = elim (Option-cases (find key w.index)) [
  | inl miss ↦ delete_miss m IsSlab Live l w k b rs key q miss
  | inr (s, hit) ↦ delete_hit m IsSlab Live l w k b rs key s q hit
]
turn-refines m IsSlab Live l w b (scan n lo hi f) rs k q fits = absurd (fits tt)
