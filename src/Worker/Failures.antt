-- ===== src/Worker/Failures.antt =====
-- A turn of lib/kvengine/worker.cc with two batches for a key.
use ktable_fs.Base.{
  ◌≤◌, ◌<◌, ◌^◌, ◌≡◌, refl, Bool, true, none, some, [], ◌∷◌, ◌++◌, arith, length, ok, ==_iff, ◌∙◌,
}
use ktable_fs.Slice.{Slice}
use ktable_fs.Slice.Order.{equal_iff, less-lex, lex_irrefl}
use ktable_fs.KeyMap.{find, emplace}
use ktable_fs.FileSlab.{Slab, record_bytes}
use ktable_fs.FileSlab.Format.{parse-record_bytes}
use ktable_fs.Batch.{put, success, finish_request}
use ktable_fs.Slabs.{Slabs, Laws}
use ktable_fs.Worker.{
  Worker, turn, process_all, process_request, process, start_write, io_enqueue, finish, finish_all,
  run_callback, is_success, finish_code,
}
use ktable_fs.Worker.Map.{complete, value_at, view}

view_single :
    (m : Slabs) (st : m.Store) (key v rest : Slice) (s : Slab)
    → length key < 2 ^ 16
    → length v < 2 ^ 16
    → m.slab_bytes st s ≡ record_bytes key v ++ rest
    → view m (record { index = (key, s) ∷ []; store = st; io_queue = [] }) key ≡ some v
unfolding view value_at find
view_single m st key v rest s h i e =
    rw ((equal_iff key key).1 refl) (rw (value_at, e, (parse-record_bytes key v rest h i).1) refl)

emplace_twice : (key : Slice) (s t : Slab) → emplace key t (emplace key s []) ≡ (key, s) ∷ []
unfolding emplace
emplace_twice key s t = rw (less-lex key key, lex_irrefl key, (equal_iff key key).1 refl)

turn_twice :
    (m : Slabs) (st st1 a1 st2 a2 st3 st4 : m.Store) (callback : Bool) (key v v' : Slice)
    (s t : Slab)
    → m.create st key v ≡ ok (s, st1)
    → m.start_write st1 s (record_bytes key v) ≡ ok a1
    → m.create a1 key v' ≡ ok (t, st2)
    → m.start_write st2 t (record_bytes key v') ≡ ok a2
    → m.finish_write a2 s (record_bytes key v) true ≡ ok st3
    → m.finish_write st3 t (record_bytes key v') true ≡ ok st4
    → turn m complete
        (record { index = []; store = st; io_queue = [] })
        (record { requests = put key v ∷ []; callback = callback }
          ∷ record { requests = put key v' ∷ []; callback = callback }
          ∷ [])
      ≡ ok (
        record { index = (key, s) ∷ []; store = st4; io_queue = [] },
        finish_request (record { requests = []; callback = callback }) none success
            ∷ finish_request (record { requests = []; callback = callback }) none success
            ∷ [],
      )
unfolding turn process_all process_request process start_write io_enqueue finish_all finish
    is_success finish_code run_callback complete find
turn_twice m st st1 a1 st2 a2 st3 st4 callback key v v' s t made begun made' begun' written
      written' =
    rw
      (
        made,
        begun,
        made',
        begun',
        (==_iff (length (record_bytes key v)) _).1 refl,
        written,
        (==_iff (length (record_bytes key v')) _).1 refl,
        written',
        emplace_twice key s t,
      )
      refl

-- For slabs that have the laws of `Slabs.Laws`, which `Slabs.Class` has and the page cache has not in
-- every state: on an empty index, two batches that put the same key
-- in one turn, where a slab for each record can be created and the system carries out both writes
-- completely, are both answered with 0, and the key has the value of the first: that of the second is
-- lost.
pub put_twice :
    (m : Slabs) (IsSlab Live : m.Store → Slab → Type 0) (l : Laws m IsSlab Live)
    (st st1 a1 st2 : m.Store) (callback : Bool) (key v v' : Slice) (s t : Slab)
    → length key < 2 ^ 16
    → length v < 2 ^ 16
    → length v' < 2 ^ 16
    → m.create st key v ≡ ok (s, st1)
    → m.start_write st1 s (record_bytes key v) ≡ ok a1
    → m.create a1 key v' ≡ ok (t, st2)
    → (w' : Worker m) × (turn m complete
          (record { index = []; store = st; io_queue = [] })
          (record { requests = put key v ∷ []; callback = callback }
            ∷ record { requests = put key v' ∷ []; callback = callback }
            ∷ [])
        ≡ ok (
          w',
          finish_request (record { requests = []; callback = callback }) none success
              ∷ finish_request (record { requests = []; callback = callback }) none success
              ∷ [],
        ))
      × (view m w' key ≡ some v)
put_twice m IsSlab Live l st st1 a1 st2 callback key v v' s t h i i' made begun made' =
    let (new, room, fresh) = l.create-fresh st st1 key v s made in
    let (new0, _) = l.start-Live st1 a1 s s (record_bytes key v) begun new in
    let (new', room', fresh') = l.create-fresh a1 st2 key v' t made' in
    let (alive, _) = l.create-other a1 st2 key v' t s made' new0 in
    let short : length (record_bytes key v) ≤ s.size =
      ground (arith, (parse-record_bytes key v [] h i).0) in
    let short' : length (record_bytes key v') ≤ t.size =
      ground (arith, (parse-record_bytes key v' [] h i').0) in
    let (a2, begun', _) = l.start_ok st2 t (record_bytes key v') (l.Live-IsSlab st2 t new') in
    let (alive2, _) = l.start-Live st2 a2 t s (record_bytes key v') begun' alive in
    let (new2, _) = l.start-Live st2 a2 t t (record_bytes key v') begun' new' in
    let (st3, written, (rest, bytes_eq)) =
      l.write_ok a2 s (record_bytes key v) (l.Live-IsSlab a2 s alive2) short in
    let new3 = l.write-Live a2 st3 s t (record_bytes key v) written new2 in
    let alive3 = l.write-Live a2 st3 s s (record_bytes key v) written alive2 in
    let (st4, written', _) =
      l.write_ok st3 t (record_bytes key v') (l.Live-IsSlab st3 t new3) short' in
    let kept =
      l.write-other st3 st4 t s (record_bytes key v') written' (l.Live-IsSlab st3 t new3) short'
        alive3 (fresh' s new0) in
    (
      record { index = (key, s) ∷ []; store = st4; io_queue = [] },
      turn_twice m st st1 a1 st2 a2 st3 st4 callback key v v' s t made begun made' begun' written
          written',
      view_single m st4 key v rest s h i (kept ∙ bytes_eq),
    )
