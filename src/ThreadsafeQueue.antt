-- ===== src/ThreadsafeQueue.antt =====
-- lib/kvengine/threadsafe_queue.h: each operation holds the lock from beginning to end, so that the
-- operations of several threads are one sequence. A thread that waits for data makes its step when
-- the condition holds.
mod Order
mod Tests
use ktable_fs.Base.{Bool, true, false, Option, none, some, List, [], ◌∷◌, ◌++◌}

-- One operation of one thread.
pub data Operation (T : Type 0) : Type 0 where
  push : T → Operation T
  try_pop : Operation T
  wait_and_pop : Operation T
  wait_data : Operation T

module _ {T : Type 0} where
  -- `Empty`
  unfoldable pub is_empty : List T → Bool
  is_empty [] = true
  is_empty (x ∷ rest) = false

  -- `queue_.push(data)`, and `queue_.front()` with `queue_.pop()` of a queue that is not empty.
  unfoldable pub push_back : List T → T → List T
  push_back queue x = queue ++ (x ∷ [])

  unfoldable pub pop_front : List T → Option (T × List T)
  pop_front [] = none
  pop_front (x ∷ rest) = some (x, rest)

  -- An operation: what it hands out, and the queue after it; `none` while it has to wait. `TryPop` of
  -- an empty queue hands out nothing; `WaitData` takes nothing.
  unfoldable pub run_one : List T → Operation T → Option (Option T × List T)
  run_one queue (push x) = some (none, push_back queue x)
  run_one queue try_pop = elim (pop_front queue) [
    | none ↦ some (none, queue)
    | some (x, rest) ↦ some (some x, rest)
  ]
  run_one queue wait_and_pop = elim (pop_front queue) [
    | none ↦ none
    | some (x, rest) ↦ some (some x, rest)
  ]
  run_one queue wait_data = elim (is_empty queue) [ true ↦ none | false ↦ some (none, queue) ]

  -- What is handed out, before what later operations hand out.
  abbrev pub then_out : Option T → List T → List T
  then_out none outs = outs
  then_out (some x) outs = x ∷ outs

  -- Operations one after the other: what they hand out, and the queue at the end.
  unfoldable pub run_all : List T → List (Operation T) → Option (List T × List T)
  run_all queue [] = some ([], queue)
  run_all queue (op ∷ ops) = elim (run_one queue op) [
    | none ↦ none
    | some (out, queue') ↦ elim (run_all queue' ops) [
      | none ↦ none
      | some (outs, queue'') ↦ some (then_out out outs, queue'')
    ]
  ]

  -- What operations push, in order.
  unfoldable pub pushed : List (Operation T) → List T
  pushed [] = []
  pushed (push x ∷ ops) = x ∷ pushed ops
  pushed (try_pop ∷ ops) = pushed ops
  pushed (wait_and_pop ∷ ops) = pushed ops
  pushed (wait_data ∷ ops) = pushed ops
