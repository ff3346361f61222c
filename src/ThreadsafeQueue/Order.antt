-- ===== src/ThreadsafeQueue/Order.antt =====
-- The queue of lib/kvengine/threadsafe_queue.h is first in, first out.
use mathlib.Core.List.{append_assoc, append-nil}
use mathlib.Core.Option.{some-injective}
use ktable_fs.Base.{
  ◌≡◌, ◌≢◌, inl, inr, refl, sym, ap, ◌∙◌, Option, none, some, List, [], ◌∷◌, ◌++◌, arith,
  Option-cases,
}
use ktable_fs.ThreadsafeQueue.{
  Operation, push, try_pop, wait_and_pop, wait_data, is_empty, push_back, pop_front, run_one,
  run_all, then_out, pushed,
}

none≢some : {A : Type 0} {a : A} → none ≢ some a
none≢some e = cc

module _ {T : Type 0} where
  -- What one operation pushes.
  abbrev in_of : Operation T → List T
  in_of op = pushed (op ∷ [])

  pushed-cons :
      (op : Operation T) (ops : List (Operation T)) → pushed (op ∷ ops) ≡ in_of op ++ pushed ops
  unfolding pushed
  pushed-cons (push x) ops = refl
  pushed-cons try_pop ops = refl
  pushed-cons wait_and_pop ops = refl
  pushed-cons wait_data ops = refl

  -- One operation hands out the front of the queue, or nothing.
  run_one-order :
      (queue queue' : List T) (op : Operation T) (out : Option T)
      → run_one queue op ≡ some (out, queue')
      → queue ++ in_of op ≡ then_out out [] ++ queue'
  unfolding run_one pushed pop_front push_back is_empty
  run_one-order [] queue' (push x) out e = cc
  run_one-order (y ∷ ys) queue' (push x) out e = cc
  run_one-order [] queue' try_pop out e = cc
  run_one-order (y ∷ ys) queue' try_pop out e = ground (arith, append-nil ys)
  run_one-order [] queue' wait_and_pop out e = cc
  run_one-order (y ∷ ys) queue' wait_and_pop out e = ground (arith, append-nil ys)
  run_one-order [] queue' wait_data out e = cc
  run_one-order (y ∷ ys) queue' wait_data out e = ground (arith, append-nil ys)

  then_out-append :
      (out : Option T) (xs ys : List T) → then_out out [] ++ (xs ++ ys) ≡ then_out out xs ++ ys
  then_out-append none xs ys = refl
  then_out-append (some x) xs ys = refl

  ended : {xs : List T} (p q : List T × List T) → p ≡ q → xs ≡ p.0 ++ p.1 → xs ≡ q.0 ++ q.1
  ended p q e h = h ∙ ap (λ r. r.0 ++ r.1) e

  -- Whatever threads push and pop in whatever order, as long as none has to wait: what was in the
  -- queue and what is pushed leaves it in this order, and what has not left it is in the queue.
  pub run_all-order :
      (queue : List T) (ops : List (Operation T)) (outs queue' : List T)
      → run_all queue ops ≡ some (outs, queue')
      → queue ++ pushed ops ≡ outs ++ queue'
  unfolding run_all pushed
  run_all-order queue [] outs queue' e = ground (arith, append-nil queue)
  run_all-order queue (op ∷ ops) outs queue' e = elim (Option-cases (run_one queue op)) [
    | inl stuck ↦ absurd (none≢some (rw (run_all, stuck) at e))
    | inr ((out, middle), done) ↦ elim (Option-cases (run_all middle ops)) [
      | inl stuck ↦ absurd (none≢some (rw (run_all, done, stuck) at e))
      | inr ((more, last), rest) ↦
          let both : some (then_out out more, last) ≡ some (outs, queue') =
            rw (run_all, done, rest) at e in
          ended (then_out out more, last) (outs, queue') (some-injective _ _ both)
            (ap (λ xs. queue ++ xs) (pushed-cons op ops)
              ∙ sym (append_assoc queue (in_of op) (pushed ops))
              ∙ ap (λ xs. xs ++ pushed ops) (run_one-order queue middle op out done)
              ∙ append_assoc (then_out out []) middle (pushed ops)
              ∙ ap (λ xs. then_out out [] ++ xs) (run_all-order middle ops more last rest)
              ∙ then_out-append out more last)
    ]
  ]
