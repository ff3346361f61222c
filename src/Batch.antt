-- ===== src/Batch.antt =====
-- lib/kvengine/include/kvengine/batch.h and lib/kvengine/batch.cc: a batch is a queue of requests
-- that are served one after the other, each by the worker that has its key.
use ktable_fs.Base.{ℕ, Bool, true, false, Option, List, [], ◌∷◌, ◌++◌, if◌then◌else◌}
use ktable_fs.Slice.{Slice}

-- The callback of a scan: whether to go on, for a key and a value.
abbrev pub ScanCallback : Type 0
ScanCallback = Slice → Slice → Bool

-- `Request`, by its `type`. The member `key` of a scan holds the number of a worker.
pub data Request : Type 0 where
  get : Slice → Request
  put : Slice → Slice → Request
  update : Slice → Slice → Request
  delete : Slice → Request
  scan : ℕ → Slice → Slice → ScanCallback → Request

-- The result code of a `Respond`: 0, a positive number of bytes, or the negative of a number.
pub data Code : Type 0 where
  success : Code
  count : ℕ → Code
  neg : ℕ → Code

abbrev pub enoent : Code
enoent = neg 2

abbrev pub eexist : Code
eexist = neg 17

pub record Respond : Type 0 where
  pub res : Code
  pub value : Option Slice

-- `callback` says whether the batch has one.
pub record Batch : Type 0 where
  pub requests : List Request
  pub callback : Bool

abbrev pub new_batch : Batch
new_batch = record { requests = []; callback = false }

unfoldable pub push : Batch → Request → Batch
push b r = record b { requests = b.requests ++ (r ∷ []) }

unfoldable pub add_get : Batch → Slice → Batch
unfolding push
add_get b key = push b (get key)

unfoldable pub add_put : Batch → Slice → Slice → Batch
unfolding push
add_put b key value = push b (put key value)

unfoldable pub add_update : Batch → Slice → Slice → Batch
unfolding push
add_update b key value = push b (update key value)

unfoldable pub add_delete : Batch → Slice → Batch
unfolding push
add_delete b key = push b (delete key)

unfoldable pub add_scan : Batch → Slice → Slice → ScanCallback → Batch
unfolding push
add_scan b min_key max_key f = push b (scan 0 min_key max_key f)

unfoldable pub add_callback : Batch → Batch
add_callback b = record b { callback = true }

unfoldable pub clear : Batch → Batch
clear b = record b { requests = []; callback = false }

-- What `FinishRequest` does: it calls the callback and deletes the batch, deletes a batch without a
-- callback, or hands the batch to the database again for its next request.
pub data Finish : Type 0 where
  responded : Respond → Finish
  dropped : Finish
  resubmitted : Batch → Finish

unfoldable pub finish_request : Batch → Option Slice → Code → Finish
finish_request b value res = elim b.requests [
  | [] ↦ if b.callback then responded (record { res = res; value = value }) else dropped
  | r ∷ rs ↦ resubmitted b
]
