-- ===== src/Worker.antt =====
-- lib/kvengine/worker.cc and lib/kvengine/aio.cc: a worker has an index from keys to slabs and serves
-- the requests of batches. In a turn of `Main_` it starts the requests of the batches it has, lets the
-- system carry out the io, and finishes each.
pub mod Map
mod Turns
mod Change
mod Quiet
mod Refines
mod Runs
mod Scan
mod Failures
mod Tests
mod ClassTests
use ktable_fs.Base.{
  ℕ, zero, ◌+◌, Bool, true, false, Option, none, some, List, [], ◌∷◌, ◌++◌, ltb, ◌==◌,
  if◌then◌else◌, length, take, drop, Result, ok, fault, assert_failed, null_pointer, use_after_free,
  assert, ◌>>=◌, ◌>>◌, map,
}
use ktable_fs.Slice.{Slice, less}
use ktable_fs.KeyMap.{find, emplace, erase, lower_bound}
use ktable_fs.FileSlab.{Slab, record_bytes, invalid_bytes, parse, read_callback}
use ktable_fs.Batch.{
  Request, get, put, update, delete, scan, ScanCallback, Code, success, count, neg, enoent, eexist,
  Batch, clear, Finish, finish_request,
}
use ktable_fs.Slabs.{Slabs}

-- The callbacks of the worker, and what an `AIO` does: a read, or a write of bytes.
pub data Callback : Type 0 where
  nothing : Callback
  put_callback : Slice → Slab → Callback
  delete_callback : Slice → Callback

pub data Operation : Type 0 where
  pread : Operation
  pwrite : Slice → Operation

pub record Aio : Type 0 where
  pub op : Operation
  pub slab : Slab
  pub callback : Callback
  pub submit : Bool
  pub batch : Batch

-- The member `res` of an `io_event`: a number of bytes, or the negative of an error number.
pub data Event : Type 0 where
  bytes : ℕ → Event
  error : ℕ → Event

abbrev pub res_code : Event → Code
res_code (bytes n) = count n
res_code (error e) = neg e

-- `AIO::Success`
unfoldable pub is_success : Operation → Option Event → Result Bool
is_success pread none = ok true
is_success pread (some (bytes n)) = ok (ltb 0 n)
is_success pread (some (error e)) = ok false
is_success (pwrite d) none = ok false
is_success (pwrite d) (some (bytes n)) = ok (n == length d)
is_success (pwrite d) (some (error e)) = ok false

-- The code that `AIO::Finish` gives the batch: `Success() ? 0 : event_->res`.
unfoldable pub finish_code : Bool → Option Event → Result Code
finish_code true e = ok success
finish_code false none = fault null_pointer
finish_code false (some e) = ok (res_code e)

module _ (m : Slabs) where
  pub record Worker : Type 0 where
    pub index : List (Slice × Slab)
    pub store : m.Store
    pub io_queue : List Aio

  -- `Worker::IOEnqueue`
  unfoldable pub io_enqueue : Worker → Aio → Worker
  io_enqueue w aio = record w { io_queue = w.io_queue ++ (aio ∷ []) }

  -- `FileSlab::Read` and `FileSlab::Write`, which submit the `AIO`.
  unfoldable pub start_read : Worker → Slab → Batch → Result Worker
  unfolding io_enqueue
  start_read w s b = do
    (u, st) ← m.start_read w.store s
    ok (
        io_enqueue (record w { store = st })
          (record { op = pread; slab = s; callback = nothing; submit = u; batch = b }))

  unfoldable pub start_write : Worker → Slab → Slice → Callback → Batch → Result Worker
  unfolding io_enqueue
  start_write w s d c b = do
    st ← m.start_write w.store s d
    ok (
        io_enqueue (record w { store = st })
          (record { op = pwrite d; slab = s; callback = c; submit = true; batch = b }))

  -- The test of the callback's answer in the loop of a scan: an answer of false clears the batch and
  -- finishes it, which deletes it, and the loop goes on. `alive` says that the batch is not deleted;
  -- clearing it again goes through freed memory.
  unfoldable pub answer_scan : Bool → Bool → Result Bool
  answer_scan alive true = ok alive
  answer_scan true false = ok false
  answer_scan false false = fault use_after_free

  unfoldable pub scan_loop :
      m.Store → Bool → List (Slice × Slab) → Slice → ScanCallback → Result (Bool × m.Store)
  unfolding answer_scan
  scan_loop st alive [] max_key f = ok (alive, st)
  scan_loop st alive ((k, s) ∷ rest) max_key f =
      if less k max_key
      then (do
        (page, st') ← m.read_sync st s
        (key, value) ← parse page
        alive' ← answer_scan alive (f key value)
        scan_loop st' alive' rest max_key f)
      else ok (alive, st)

  -- `Worker::ProcessRequest_` after the request is popped from the batch.
  unfoldable pub process : Worker → Batch → Request → Result (Worker × List Finish)
  process w b (get key) = elim (find key w.index) [
    | none ↦ ok (w, finish_request b none enoent ∷ [])
    | some s ↦ do w1 ← start_read w s b; ok (w1, [])
  ]
  process w b (put key value) = elim (find key w.index) [
    | some s ↦ ok (w, finish_request b none eexist ∷ [])
    | none ↦ do
      (s, st) ← m.create w.store key value
      w1 ← start_write (record w { store = st }) s (record_bytes key value) (put_callback key s) b
      ok (w1, [])
  ]
  process w b (update key value) = elim (find key w.index) [
    | none ↦ ok (w, finish_request b none enoent ∷ [])
    | some s ↦ do w1 ← start_write w s (record_bytes key value) nothing b; ok (w1, [])
  ]
  process w b (delete key) = elim (find key w.index) [
    | none ↦ ok (w, finish_request b none enoent ∷ [])
    | some s ↦ do
      st ← m.free w.store s
      w1 ← start_write (record w { store = st }) s invalid_bytes (delete_callback key) b
      ok (w1, [])
  ]
  process w b (scan thread min_key max_key f) = do
    (alive, st) ← scan_loop w.store true (lower_bound min_key w.index) max_key f
    if alive
        then ok (record w { store = st }, finish_request b none success ∷ [])
        else fault use_after_free

  unfoldable pub process_request : Worker → Batch → Result (Worker × List Finish)
  process_request w b = elim b.requests [
    | [] ↦ fault assert_failed
    | r ∷ rs ↦ process w (record b { requests = rs }) r
  ]

  unfoldable pub process_all : Worker → List Batch → Result (Worker × List Finish)
  process_all w [] = ok (w, [])
  process_all w (b ∷ bs) = do
    (w1, fs) ← process_request w b
    (w2, gs) ← process_all w1 bs
    ok (w2, fs ++ gs)

  -- `PutCallback` and `DeleteCallback`
  unfoldable pub run_callback : Callback → Bool → Worker → Worker
  run_callback nothing good w = w
  run_callback (put_callback key s) good w =
      if good then record w { index = emplace key s w.index } else w
  run_callback (delete_callback key) good w =
      if good then record w { index = erase key w.index } else w

  -- `AIO::Finish`, with the callbacks. A read that fails hands on what the page holds.
  unfoldable pub finish : Worker → Aio → Option Event → Result (Worker × Finish)
  finish w aio e = elim aio.op [
    | pread ↦ do
      good ← is_success pread e
      code ← finish_code good e
      let page = m.slab_bytes w.store aio.slab
      (size, off) ← if good then read_callback page 0 else ok (aio.slab.size, 0)
      ok (
        run_callback aio.callback good w,
        finish_request aio.batch (some (take size (drop off page))) code,
      )
    | pwrite d ↦ do
      good ← is_success (pwrite d) e
      st ← m.finish_write w.store aio.slab d good
      code ← finish_code good e
      ok (
        run_callback aio.callback good (record w { store = st }),
        finish_request aio.batch none code,
      )
  ]

  -- The loop at the end of `Main_`: each `AIO` that was submitted takes the next event.
  unfoldable pub finish_all : Worker → List Aio → List Event → Result (Worker × List Finish)
  finish_all w [] es = ok (w, [])
  finish_all w (aio ∷ rest) es =
      if aio.submit
      then (elim es [
        | [] ↦ fault assert_failed
        | e ∷ es' ↦ do
          (w1, f) ← finish w aio (some e)
          (w2, fs) ← finish_all w1 rest es'
          ok (w2, f ∷ fs)
      ])
      else (do (w1, f) ← finish w aio none; (w2, fs) ← finish_all w1 rest es; ok (w2, f ∷ fs))

  -- A turn of `Worker::Main_` that pops the batches `bs`; `io` is what io_submit and io_getevents
  -- return for the queue.
  unfoldable pub turn :
      (List Aio → List Event) → Worker → List Batch → Result (Worker × List Finish)
  turn io w bs = do
    (w1, fs) ← process_all w bs
    (w2, gs) ← finish_all w1 w1.io_queue (io w1.io_queue)
    ok (record w2 { io_queue = [] }, fs ++ gs)
