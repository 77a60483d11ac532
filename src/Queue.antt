-- ===== src/Queue.antt =====
-- The bounded, drop-oldest ring of src/ph_queue.h and src/ph_queue.c: one definition for each
-- function. The mutex makes each of them one step, and so does the pair begin_push/end_push, which
-- holds it in between. Sizes and indices are `int`s that are never negative.
pub mod Valid
pub mod Spec
pub mod Refine
pub mod Run
pub mod Account
pub mod Wake
mod Tests
use posthog_c.Base.{
  ℕ, zero, suc, ◌+◌, ◌-◌, ◌%◌, ◌^◌, Bool, true, false, not, ◌&&◌, Option, none, some, List, [], ◌∷◌,
  get_or, set, replicate, ltb, ◌==◌, if◌then◌else◌,
}
use posthog_c.Base.Int.{ℤ, lt_nat, pos_part}

-- `ph_event`: `data` holds the name, the distinct_id override and the packed properties.
pub record Event : Type 0 where
  pub kind : ℕ
  pub flags : ℕ
  pub name_len : ℕ
  pub did_len : ℕ
  pub blob_len : ℕ
  pub mono_ns : ℕ
  pub epoch_wall_ns : ℕ
  pub epoch_mono_ns : ℕ
  pub seq : ℕ
  pub bytes : List ℕ

-- What `calloc` leaves in a slot; the bytes of `data` that no length covers are not listed.
abbrev pub zero_event : Event
zero_event = record {
  kind = 0;
  flags = 0;
  name_len = 0;
  did_len = 0;
  blob_len = 0;
  mono_ns = 0;
  epoch_wall_ns = 0;
  epoch_mono_ns = 0;
  seq = 0;
  bytes = [];
}

-- `ph_queue`, without its lock and condition variable.
pub record Queue : Type 0 where
  pub slots : List Event
  pub cap : ℕ
  pub head : ℕ
  pub size : ℕ
  pub dropped : ℕ
  pub woken : Bool

abbrev pub queue_min_cap : ℕ
queue_min_cap = 8

-- `cap` raised to the floor.
unfoldable pub clamp_cap : ℤ → ℕ
clamp_cap cap = if lt_nat cap queue_min_cap then queue_min_cap else pos_part cap

-- `allocated` says whether `calloc` found the memory; `none` is the return value -1.
unfoldable pub init : ℤ → Bool → Option Queue
unfolding clamp_cap
init cap allocated =
    if allocated
    then some (record {
      slots = replicate (clamp_cap cap) zero_event;
      cap = clamp_cap cap;
      head = 0;
      size = 0;
      dropped = 0;
      woken = false;
    })
    else none

-- The ring after the eviction of `ph_queue_begin_push`.
pub evict : Queue → Queue
evict q =
    if q.size == q.cap
    then record q {
      head = (q.head + 1) % q.cap;
      size = q.size - 1;
      dropped = (q.dropped + 1) % 2 ^ 64;
    }
    else q

-- The tail slot, as an index into `slots`.
abbrev pub tail_index : Queue → ℕ
tail_index q = (q.head + q.size) % q.cap

-- The new ring and the slot to fill.
pub begin_push : Queue → Queue × ℕ
unfolding evict
begin_push q = let q' = evict q in (q', tail_index q')

pub end_push : Queue → Queue
end_push q = record q { size = q.size + 1 }

-- What the caller writes through the pointer that `begin_push` returned.
abbrev pub fill_slot : Queue → ℕ → (Event → Event) → Queue
fill_slot q i fill = record q { slots = set q.slots i (fill (get_or q.slots i zero_event)) }

-- The whole producer path, from lock to unlock.
pub push : (Event → Event) → Queue → Queue
unfolding begin_push end_push
push fill q = let (q', i) = begin_push q in end_push (fill_slot q' i fill)

-- At most `max` events, oldest first, and the ring without them. `fuel` counts `max - n` down.
pub pop_batch : Queue → ℕ → List Event × Queue
pop_batch q zero = ([], q)
pop_batch q (suc more) =
    let (rest, q') = pop_batch (record q { head = (q.head + 1) % q.cap; size = q.size - 1 }) more in
    if ltb 0 q.size then (get_or q.slots q.head zero_event ∷ rest, q') else ([], q)

-- Whether `ph_queue_wait` parks its thread.
pub wait_blocks : Queue → ℕ → Bool
wait_blocks q threshold = ltb q.size threshold && not q.woken

-- `others` is what the other threads do to the ring while this one is parked.
pub wait : Queue → ℕ → (Queue → Queue) → Queue
unfolding wait_blocks
wait q threshold others =
    let q' = if wait_blocks q threshold then others q else q in record q' { woken = false }

unfoldable pub wake : Queue → Queue
wake q = record q { woken = true }

pub size : Queue → ℕ
size q = q.size

pub dropped : Queue → ℕ
dropped q = q.dropped
