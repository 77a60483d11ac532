-- ===== src/Queue/Run.antt =====
-- Any interleaving of producers, the sender and wakers on the ring: the mutex makes each call one
-- step, so an interleaving is a list of calls.
use posthog_c.Base.{ℕ, ◌≡◌, refl, ap, ap₂, ◌∙◌, List, [], ◌∷◌, ◌++◌, arith}
use posthog_c.Queue.{Event, Queue, push, pop_batch, wait, wake}
use posthog_c.Queue.Spec
use posthog_c.Queue.Spec.{Fifo}
use posthog_c.Queue.Valid.{IsValid, push-IsValid, pop_batch-IsValid, cap-push, cap-pop_batch}
use posthog_c.Queue.Refine.{view, push_refines, pop_batch_refines}

-- A call on the ring. `unpark` is the part of `ph_queue_wait` after the thread has resumed.
pub data Op : Type 0 where
  put : Event → Op
  pop : ℕ → Op
  rouse : Op
  unpark : Op

-- The batches that the calls return, one after the other, and the last ring.
unfoldable pub run : Queue → List Op → List Event × Queue
run q [] = ([], q)
run q (put e ∷ ops) = run (push (λ _. e) q) ops
run q (pop max ∷ ops) =
    let (batch, q') = pop_batch q max in let (rest, last) = run q' ops in (batch ++ rest, last)
run q (rouse ∷ ops) = run (wake q) ops
run q (unpark ∷ ops) = run (wait q 0 (λ r. r)) ops

module _ (cap : ℕ) where
  unfoldable pub run_spec : Fifo → List Op → List Event × Fifo
  run_spec s [] = ([], s)
  run_spec s (put e ∷ ops) = run_spec (Spec.push cap e s) ops
  run_spec s (pop max ∷ ops) =
      let (batch, s') = Spec.pop_batch max s in
      let (rest, last) = run_spec s' ops in (batch ++ rest, last)
  run_spec s (rouse ∷ ops) = run_spec s ops
  run_spec s (unpark ∷ ops) = run_spec s ops

wake-IsValid : {q : Queue} → IsValid q → IsValid (wake q)
unfolding wake
wake-IsValid v = ground arith

unpark-IsValid : {q : Queue} → IsValid q → IsValid (wait q 0 (λ r. r))
unfolding wait
unpark-IsValid v = ground arith

unpark_same : (q : Queue) → (view (wait q 0 (λ r. r)) ≡ view q) × ((wait q 0 (λ r. r)).cap ≡ q.cap)
unfolding wait
unpark_same q = ground arith

-- What a run of the ring has to do with the run of a sequence.
abbrev pub Agrees : List Event × Queue → List Event × Fifo → Type 0
Agrees r s = (r.0 ≡ s.0) × (view r.1 ≡ s.1) × IsValid r.1

run-Agrees :
    (ops : List Op) (q : Queue) (s : Fifo) (cap : ℕ)
    → IsValid q
    → view q ≡ s
    → q.cap ≡ cap
    → Agrees (run q ops) (run_spec cap s ops)
unfolding run run_spec
run-Agrees [] q s cap v h c = (refl, h, v)
run-Agrees (put e ∷ ops) q s cap v h c =
    run-Agrees ops (push (λ _. e) q) (Spec.push cap e s) cap (push-IsValid (λ _. e) v)
      (push_refines (λ _. e) v ∙ ap₂ (λ k t. Spec.push k e t) c h) (cap-push (λ _. e) q ∙ c)
run-Agrees (pop max ∷ ops) q s cap v h c =
    let both = pop_batch_refines max q v ∙ ap (Spec.pop_batch max) h in
    let ih =
      run-Agrees ops (pop_batch q max).1 (Spec.pop_batch max s).1 cap (pop_batch-IsValid max q v)
        (ap (λ r. r.1) both) (cap-pop_batch max q ∙ c) in
    (ap₂ ◌++◌ (ap (λ r. r.0) both) ih.0, ih.1, ih.2)
run-Agrees (rouse ∷ ops) q s cap v h c =
    run-Agrees ops (wake q) s cap (wake-IsValid v) (unfold wake in h) (unfold wake in c)
run-Agrees (unpark ∷ ops) q s cap v h c =
    run-Agrees ops (wait q 0 (λ r. r)) s cap (unpark-IsValid v) ((unpark_same q).0 ∙ h)
      ((unpark_same q).1 ∙ c)

-- No interleaving of calls tells a valid ring from the drop-oldest sequence of its events: the
-- batches returned, the events left and the drop counter agree, and the ring stays valid.
pub run_refines :
    (ops : List Op) {q : Queue} → IsValid q → Agrees (run q ops) (run_spec q.cap (view q) ops)
run_refines ops {q} v = run-Agrees ops q (view q) q.cap v refl refl
