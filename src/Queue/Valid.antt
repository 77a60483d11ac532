-- ===== src/Queue/Valid.antt =====
-- The representation invariant of the ring, and the calls that keep it.
use posthog_c.Base.{
  ℕ, zero, suc, ◌+◌, ◌-◌, ◌%◌, ◌^◌, ◌≤◌, ◌<◌, ◌≡◌, refl, Bool, some, arith, length, length-set,
  length-replicate, get_or,
}
use posthog_c.Base.Int.{ℤ, pos_part}
use posthog_c.Queue.{Event, Queue, zero_event, clamp_cap, init, evict, tail_index, push, pop_batch}

-- The largest capacity at which `head + size` still fits an `int`.
abbrev pub max_cap : ℕ
max_cap = 2 ^ 30

pub record IsValid (q : Queue) : Type 0 where
  pub storage : length q.slots ≡ q.cap
  pub some_room : 0 < q.cap
  pub small : q.cap ≤ max_cap
  pub head_in : q.head < q.cap
  pub size_in : q.size ≤ q.cap
  pub dropped_fits : q.dropped < 2 ^ 64

-- `ph_queue_init` yields an empty valid ring of at least eight slots.
pub init-IsValid :
    (cap : ℤ) (allocated : Bool) {q : Queue}
    → pos_part cap ≤ max_cap
    → init cap allocated ≡ some q
    → IsValid q × (q.size ≡ 0) × (8 ≤ q.cap) × (pos_part cap ≤ q.cap)
unfolding init
init-IsValid cap allocated h e = ground (arith, length-replicate (clamp_cap cap) zero_event)

pub evict-IsValid : {q : Queue} → IsValid q → IsValid (evict q)
unfolding evict
evict-IsValid v = ground arith

-- After the eviction there is room for one more event.
pub evict_room : {q : Queue} → IsValid q → ((evict q).size < q.cap) × ((evict q).cap ≡ q.cap)
unfolding evict
evict_room v = ground arith

pub push-IsValid : (fill : Event → Event) {q : Queue} → IsValid q → IsValid (push fill q)
unfolding push evict
push-IsValid fill {q} v =
    let at : ℕ = tail_index (evict q) in
    ground (arith, length-set q.slots at (fill (get_or q.slots at zero_event)))

pub cap-push : (fill : Event → Event) (q : Queue) → (push fill q).cap ≡ q.cap
unfolding push evict
cap-push fill q = ground arith

pub pop_batch-IsValid : (max : ℕ) (q : Queue) → IsValid q → IsValid (pop_batch q max).1
unfolding pop_batch
pop_batch-IsValid zero q v = v
pop_batch-IsValid (suc max) q v =
    ground
      (arith, pop_batch-IsValid max (record q { head = (q.head + 1) % q.cap; size = q.size - 1 }))

pub cap-pop_batch : (max : ℕ) (q : Queue) → (pop_batch q max).1.cap ≡ q.cap
unfolding pop_batch
cap-pop_batch zero q = refl
cap-pop_batch (suc max) q =
    ground (arith, cap-pop_batch max (record q { head = (q.head + 1) % q.cap; size = q.size - 1 }))

-- A push counts one event more, in the ring or among the lost.
pub push_counts :
    (fill : Event → Event) {q : Queue}
    → IsValid q
    → ((push fill q).size + (push fill q).dropped) % 2 ^ 64 ≡ (q.size + q.dropped + 1) % 2 ^ 64
unfolding push evict
push_counts fill v = ground arith
