-- ===== src/Db.antt =====
-- lib/kvengine/db.cc: which worker a batch goes to. A scan is put to every worker in turn.
mod Routes
mod Tests
use ktable_fs.Base.{
  ℕ, zero, suc, ◌+◌, ◌-◌, ◌%◌, Bool, true, false, List, [], ◌∷◌, ◌++◌, ltb, ◌==◌, if◌then◌else◌,
  length, Result, ok, fault, out_of_range, hangs, assert_failed, ◌>>=◌,
}
use ktable_fs.Slice.{Slice}
use ktable_fs.Hash.{murmur_hash2}
use ktable_fs.Batch.{Request, get, put, update, delete, scan, ScanCallback, Batch}

-- `DefaultSplitFunc`, with `Slice::hash`.
unfoldable pub default_split : Slice → ℕ → ℕ
default_split key thread_num = murmur_hash2 key 0 % thread_num

-- The loop of `DB::Submit` that appends the scans of the workers from `i` on, `n` in number.
unfoldable pub scans_from : ℕ → ℕ → Slice → Slice → ScanCallback → List Request
scans_from i zero min_key max_key f = []
scans_from i (suc n) min_key max_key f =
    scan i min_key max_key f ∷ scans_from (i + 1) n min_key max_key f

-- The worker with a number; an index past the end of `workers_` is out of range.
unfoldable pub worker_at : ℕ → ℕ → Result ℕ
worker_at workers i = if ltb i workers then ok i else fault out_of_range

-- `DB::Submit(batch, false)` with `workers` workers: the worker that gets the batch, and the batch.
unfoldable pub submit : (Slice → ℕ → ℕ) → ℕ → Batch → Result (ℕ × Batch)
submit split workers b = elim b.requests [
  | [] ↦ fault out_of_range
  | r ∷ rs ↦ elim r [
    | scan thread min_key max_key f ↦ do
      i ← worker_at workers thread
      if thread == 0
          then ok (
            i,
            record b { requests = b.requests ++ scans_from 1 (workers - 1) min_key max_key f },
          )
          else ok (i, b)
    | get key ↦ do i ← worker_at workers (split key workers); ok (i, b)
    | put key value ↦ do i ← worker_at workers (split key workers); ok (i, b)
    | update key value ↦ do i ← worker_at workers (split key workers); ok (i, b)
    | delete key ↦ do i ← worker_at workers (split key workers); ok (i, b)
  ]
]

-- The workers that a batch goes to: each takes the first request off the batch and submits the rest
-- again, up to `fuel` times.
unfoldable pub visits : (Slice → ℕ → ℕ) → ℕ → ℕ → Batch → Result (List ℕ)
visits split workers zero b = fault hangs
visits split workers (suc fuel) b = do
  (i, b') ← submit split workers b
  elim b'.requests [
    | [] ↦ fault assert_failed
    | r ∷ rs ↦ elim rs [
      | [] ↦ ok (i ∷ [])
      | q ∷ qs ↦ do
        more ← visits split workers fuel (record b' { requests = q ∷ qs })
        ok (i ∷ more)
    ]
  ]
