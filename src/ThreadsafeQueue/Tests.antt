-- ===== src/ThreadsafeQueue/Tests.antt =====
-- A small interleaving on the queue of lib/kvengine/threadsafe_queue.h.
use ktable_fs.Base.{ℕ, ◌≡◌, refl, List, [], ◌∷◌, ◌++◌}
use ktable_fs.ThreadsafeQueue.{
  Operation, push, try_pop, wait_and_pop, wait_data, run_all, run_one, pop_front, push_back,
  is_empty, pushed,
}
use ktable_fs.ThreadsafeQueue.Order.{run_all-order}

abbrev operations : List (Operation ℕ)
operations = try_pop ∷ push 5 ∷ wait_data ∷ push 6 ∷ wait_and_pop ∷ []

run_all-order_example : [] ++ pushed operations ≡ (5 ∷ []) ++ (6 ∷ [])
unfolding run_all run_one pop_front push_back is_empty
run_all-order_example = run_all-order [] operations (5 ∷ []) (6 ∷ []) refl
