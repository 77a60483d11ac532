-- ===== src/Queue/Tests.antt =====
-- Concrete runs of the ring, and its theorems at concrete inputs.
use posthog_c.Base.{
  ℕ, ◌+◌, ◌%◌, ◌^◌, ◌≤◌, ◌≡◌, refl, true, false, some, none, List, [], ◌∷◌, ◌++◌, length, arith,
  replicate,
}
use posthog_c.Base.Int.{pos, negsuc}
use posthog_c.Queue.{Event, Queue, zero_event, init, push, pop_batch, wait, wait_blocks, wake}
use posthog_c.Queue.Spec
use posthog_c.Queue.Valid.{IsValid, init-IsValid}
use posthog_c.Queue.Refine.{view, written, push_refines, pop_batch_refines}
use posthog_c.Queue.Run.{Op, put, pop, rouse, unpark, run, run_spec, Agrees, run_refines}
use posthog_c.Queue.Account.{Shuffle, losses, puts, run_accounts}
use posthog_c.Queue.Wake.{wait-wake}

abbrev numbered : ℕ → Event
numbered n = record zero_event { seq = n }

-- A ring of two slots that has gone round: event 8 is the oldest, event 9 the newest.
abbrev full_ring : Queue
full_ring = record {
  slots = numbered 9 ∷ numbered 8 ∷ [];
  cap = 2;
  head = 1;
  size = 2;
  dropped = 5;
  woken = false;
}

full_ring-IsValid : IsValid full_ring
full_ring-IsValid = omega arith

fresh_ring : Queue
unfolding init
fresh_ring = record {
  slots = replicate 8 zero_event;
  cap = 8;
  head = 0;
  size = 0;
  dropped = 0;
  woken = false;
}

init_floor : init (negsuc 3) true ≡ some fresh_ring
unfolding init fresh_ring
init_floor = refl

init_no_memory : init (pos 100) false ≡ none
unfolding init
init_no_memory = refl

push_full :
    push (λ e. numbered 10) full_ring
    ≡ record full_ring { slots = numbered 9 ∷ numbered 10 ∷ []; head = 0; dropped = 6 }
unfolding push
push_full = refl

init-IsValid_test :
    IsValid fresh_ring × (fresh_ring.size ≡ 0) × (8 ≤ fresh_ring.cap) × (0 ≤ fresh_ring.cap)
init-IsValid_test = init-IsValid (negsuc 3) true (omega arith) init_floor

push_refines_test :
    view (push (λ e. record e { kind = 4 }) full_ring)
    ≡ Spec.push 2 (written (λ e. record e { kind = 4 }) full_ring) (view full_ring)
push_refines_test = push_refines (λ e. record e { kind = 4 }) full_ring-IsValid

pop_batch_refines_test :
    ((pop_batch full_ring 1).0, view (pop_batch full_ring 1).1) ≡ Spec.pop_batch 1 (view full_ring)
pop_batch_refines_test = pop_batch_refines 1 full_ring full_ring-IsValid

abbrev calls : List Op
calls = put (numbered 10) ∷ rouse ∷ unpark ∷ pop 1 ∷ put (numbered 11) ∷ put (numbered 12) ∷ []

run_refines_example : Agrees (run full_ring calls) (run_spec 2 (view full_ring) calls)
run_refines_example = run_refines calls full_ring-IsValid

run_accounts_example :
    let lost = losses 2 (view full_ring) calls in
    let (popped, last) = run full_ring calls in
    Shuffle lost (popped ++ (view last).events) ((view full_ring).events ++ puts calls)
    × (last.dropped ≡ (5 + length lost) % 2 ^ 64)
run_accounts_example = run_accounts calls full_ring-IsValid

wait-wake_example :
    let q' = (run (wake full_ring) (pop 2 ∷ put (numbered 10) ∷ [])).1 in
    (wait_blocks q' 20 ≡ false) × (wait q' 20 (λ r. r) ≡ record q' { woken = false })
wait-wake_example = wait-wake (pop 2 ∷ put (numbered 10) ∷ []) full_ring 20 (λ r. r) tt
