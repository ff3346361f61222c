-- ===== src/Worker/Tests.antt =====
-- Small inputs for lib/kvengine/worker.cc, over the array of slabs.
use mathlib.Core.Path.{subst}
use mathlib.Core.Option.{some-injective}
use ktable_fs.Base.{
  ◌≡◌, ◌∙◌, sym, Bool-cases, inl, inr, ◌⊎◌, fault, use_after_free, refl, ◌==◌, if◌then◌else◌, true,
  false, none, some, List, [], ◌∷◌, ok, arith,
}
use ktable_fs.Slice.{Slice, memcmp, less, equal}
use ktable_fs.Slice.Order.{equal_iff}
use ktable_fs.Bytes.{le_bytes, read_le}
use ktable_fs.KeyMap.{find, emplace, lower_bound}
use ktable_fs.FileSlab.{Slab, parse, record_bytes, item_size, invalid_bytes, read_callback}
use ktable_fs.Batch.{Request, get, put, scan, ScanCallback, success, Batch, Finish, finish_request}
use ktable_fs.Slabs.Array.{Array, array, IsLive, array-Laws, empty_array}
use ktable_fs.Worker.{
  Worker, turn, process, scan_loop, answer_scan, process_all, process_request, start_read,
  start_write, io_enqueue, finish_all, finish, is_success, finish_code, run_callback,
}
use ktable_fs.Worker.Map.{complete, view, Holds, IsValid}
use ktable_fs.Worker.Runs.{Runs, stay, step, single}
use ktable_fs.Worker.Scan.{process-scan}
use ktable_fs.Worker.Scan.Range.{none_found}
use ktable_fs.Worker.Failures.{put_twice}

program : Unit {0}
unfolding find emplace lower_bound less equal item_size memcmp record_bytes le_bytes
program = tt

steps : Unit {0}
unfolding program turn process_all process_request process start_read start_write io_enqueue
    finish_all finish complete is_success finish_code run_callback finish_request read_callback
    read_le invalid_bytes
steps = tt

abbrev key : Slice
key = 1 ∷ 2 ∷ []

abbrev value : Slice
value = 7 ∷ []

abbrev empty_worker : Worker array
empty_worker = record { index = []; store = empty_array; io_queue = [] }

-- One record, in the slab with the number 0.
abbrev slab_0 : Slab
slab_0 = record { size = 1024; file = 1; index = 0 }

abbrev store_1 : Array
store_1 = record { used = 1; contents = λ i. record_bytes key value }

abbrev worker_1 : Worker array
worker_1 = record { index = (key, slab_0) ∷ []; store = store_1; io_queue = [] }

abbrev batch : List Request → Batch
batch rs = record { requests = rs; callback = true }

empty-IsValid : IsValid array IsLive empty_worker
unfolding program
empty-IsValid = record {
  idle = refl;
  own = λ i j s e e'. cc;
  live = λ i s e. cc;
  holds = λ i s e. cc;
}

-- The worker after a `put` on the empty one.
abbrev worker_put : Worker array
worker_put = record {
  index = (key, slab_0) ∷ [];
  store = record { used = 1; contents = λ j. if 0 == j then record_bytes key value else [] };
  io_queue = [];
}

abbrev put_get : List Request
put_get = put key value ∷ get key ∷ []

abbrev put_answer : Finish
put_answer = finish_request (batch []) none success

abbrev get_answer : Finish
get_answer = finish_request (batch []) (some value) success

put_done :
    turn array complete empty_worker (single (put key value) ∷ [])
    ≡ ok (worker_put, put_answer ∷ [])
unfolding steps
put_done = refl

get_done : turn array complete worker_put (single (get key) ∷ []) ≡ ok (worker_put, get_answer ∷ [])
unfolding steps
get_done = refl

put_get-Runs : Runs array empty_worker put_get (put_answer ∷ get_answer ∷ []) worker_put
unfolding program
put_get-Runs =
    step (omega arith, omega arith, (slab_0, record empty_array { used = 1 }, refl)) put_done
      (step tt get_done stay)

worker_1-IsValid : IsValid array IsLive worker_1
unfolding program
worker_1-IsValid = record {
  idle = refl;
  own = λ i j s e e'. sym (key_of i s e) ∙ key_of j s e';
  live = λ i s e. subst (IsLive store_1) (slab_of i s e) (refl, refl, omega arith);
  holds = λ i s e.
      subst (λ x. Holds array store_1 x s) (key_of i s e)
        (value, [], omega arith, omega arith, refl);
}
  where
    key_of : (i : Slice) (s : Slab) → find i worker_1.index ≡ some s → key ≡ i
    key_of i s e = elim (Bool-cases (equal key i)) [
      | inl t ↦ (equal_iff key i).0 t
      | inr t ↦ none_found (rw (find, t) at e)
    ]

    slab_of : (i : Slice) (s : Slab) → find i worker_1.index ≡ some s → slab_0 ≡ s
    slab_of i s e = elim (Bool-cases (equal key i)) [
      | inl t ↦ some-injective _ _ (rw (find, t) at e)
      | inr t ↦ none_found (rw (find, t) at e)
    ]

abbrev not_7 : ScanCallback
not_7 k v = equal v (8 ∷ [])

process-scan_example :
    (((k v : Slice)
        → less k [] ≡ false
        → less k (9 ∷ []) ≡ true
        → view array worker_1 k ≡ some v
        → not_7 k v ≡ true)
      × (w' : Worker array) × (process array worker_1 (batch []) (scan 0 [] (9 ∷ []) not_7)
          ≡ ok (w', finish_request (batch []) none success ∷ []))
      × (w'.index ≡ worker_1.index)
      × IsValid array IsLive w'
      × ((j : Slice) → view array w' j ≡ view array worker_1 j))
    ⊎ ((k : Slice) × (v : Slice) × (less k [] ≡ false)
        × (less k (9 ∷ []) ≡ true)
        × (view array worker_1 k ≡ some v)
        × (not_7 k v ≡ false)
        × (process array worker_1 (batch []) (scan 0 [] (9 ∷ []) not_7) ≡ fault use_after_free))
process-scan_example =
    process-scan array IsLive IsLive array-Laws worker_1 (batch []) 0 [] (9 ∷ []) not_7
      worker_1-IsValid (tt, tt)

-- The record in the range is refused; behind the range it is not looked at.
scan_refused : process array worker_1 (batch []) (scan 0 [] (9 ∷ []) not_7) ≡ fault use_after_free
unfolding steps parse scan_loop answer_scan
scan_refused = refl

scan_accepted :
    process array worker_1 (batch []) (scan 0 [] (1 ∷ []) not_7)
    ≡ ok (worker_1, finish_request (batch []) none success ∷ [])
unfolding steps parse scan_loop answer_scan
scan_accepted = refl

put_twice_example :
    (w' : Worker array) × (turn array complete empty_worker
        (batch (put key value ∷ []) ∷ batch (put key (8 ∷ []) ∷ []) ∷ [])
      ≡ ok (
        w',
        finish_request (batch []) none success ∷ finish_request (batch []) none success ∷ [],
      ))
    × (view array w' key ≡ some value)
unfolding program
put_twice_example =
    put_twice array IsLive IsLive array-Laws empty_array (record empty_array { used = 1 })
      (record empty_array { used = 1 }) (record empty_array { used = 2 }) true key value (8 ∷ [])
      slab_0 (record slab_0 { index = 1 }) (omega arith) (omega arith) (omega arith) refl refl refl
