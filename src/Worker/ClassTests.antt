-- ===== src/Worker/ClassTests.antt =====
-- lib/kvengine/worker.cc over a class of slabs of lib/kvengine/fileslab.cc, from an empty directory.
use ktable_fs.Base.{◌≡◌, refl, true, List, [], ◌∷◌, ok, arith}
use ktable_fs.Slice.{Slice}
use ktable_fs.KeyMap.{find}
use ktable_fs.FileSlab.{SingleFileSlab, new_class, create_file, take_slab, item_size}
use ktable_fs.Batch.{Request, get, put, Batch, finish_request, Finish}
use ktable_fs.Slabs.Class.{Files, class, IsUsed, IsGiven}
use ktable_fs.Slabs.Class.Lawful.{class-Laws, create-ok}
use ktable_fs.Worker.{Worker, turn}
use ktable_fs.Worker.Map.{complete, view, answer, after, IsValid, Fits}
use ktable_fs.Worker.Refines.{turn-refines}
use ktable_fs.Worker.Runs.{Runs, stay, step, single, after_all, answers, Runs-refine}

abbrev key : Slice
key = 1 ∷ 2 ∷ []

abbrev value : Slice
value = 7 ∷ []

-- Slabs of 1024 bytes, 255 in a file, and no file yet.
abbrev slabs : SingleFileSlab
slabs = new_class 255 1024

abbrev empty_files : Files
unfolding new_class
empty_files = record {
  slabs = slabs;
  set = [];
  live = [];
  disk = λ file off. 0;
  account = record {
    size = omega arith;
    fits = omega arith;
    per_file = omega arith;
    file = omega arith;
    files = omega arith;
    index = omega arith;
    distinct = tt;
    issued = tt;
  };
  header = omega arith;
}

abbrev empty_worker : Worker class
empty_worker = record { index = []; store = empty_files; io_queue = [] }

abbrev batch : List Request → Batch
batch rs = record { requests = rs; callback = true }

empty-IsValid : IsValid class IsUsed empty_worker
unfolding find
empty-IsValid = record {
  idle = refl;
  own = λ i j s e e'. cc;
  live = λ i s e. cc;
  holds = λ i s e. cc;
}

put-Fits : Fits class empty_worker (put key value)
unfolding new_class take_slab create_file item_size
put-Fits = (omega arith, omega arith, create-ok empty_files key value (omega arith) (omega arith))

turn-refines_example :
    (w' : Worker class) × (turn class complete empty_worker (batch (put key value ∷ []) ∷ [])
      ≡ ok (
        w',
        finish_request
              (batch [])
              (answer (view class empty_worker) (put key value)).0
              (answer (view class empty_worker) (put key value)).1
            ∷ [],
      ))
    × IsValid class IsUsed w'
    × ((j : Slice) → view class w' j ≡ after (view class empty_worker) (put key value) j)
turn-refines_example =
    turn-refines class IsGiven IsUsed class-Laws empty_worker (batch (put key value ∷ []))
      (put key value) [] empty-IsValid refl put-Fits

abbrev put_get : List Request
put_get = put key value ∷ get key ∷ []

-- Two turns: a `put` and a `get` of its key.
put_get_run : (w : Worker class) × (fs : List Finish) × Runs class empty_worker put_get fs w
put_get_run =
    let (w1, put_done, valid, map1) =
      turn-refines class IsGiven IsUsed class-Laws empty_worker (single (put key value))
        (put key value) [] empty-IsValid refl put-Fits in
    let (w2, get_done, valid2, map2) =
      turn-refines class IsGiven IsUsed class-Laws w1 (single (get key)) (get key) [] valid refl
        tt in
    (w2, _, step put-Fits put_done (step tt get_done stay))

Runs-refine_example :
    IsValid class IsUsed put_get_run.0
    × (put_get_run.1 ≡ answers (view class empty_worker) put_get)
    × (view class put_get_run.0 ≡ after_all (view class empty_worker) put_get)
Runs-refine_example =
    Runs-refine class IsGiven IsUsed class-Laws empty_worker put_get_run.0 put_get put_get_run.1
      empty-IsValid put_get_run.2
