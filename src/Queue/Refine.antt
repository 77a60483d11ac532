-- ===== src/Queue/Refine.antt =====
-- A valid ring behaves as the drop-oldest sequence of the events that it holds.
use posthog_c.Base.{
  ℕ, zero, suc, ◌+◌, ◌-◌, ◌%◌, ◌^◌, if◌then◌else◌, ◌==◌, ◌≤◌, ◌<◌, ◌≡◌, ◌≢◌, ◌⊎◌, inl, inr, refl,
  sym, ap, ap₂, ◌∙◌, List, [], ◌∷◌, ◌++◌, arith, length, get_or, set, drop, dec_lt,
}
use native.Mathlib.Nat.{mod-eq_of_lt, mod-eq-sub-mod, mod-add-mod, mod-mod}
use posthog_c.Queue.{
  Event, Queue, zero_event, evict, tail_index, begin_push, end_push, fill_slot, push, pop_batch,
}
use posthog_c.Queue.Spec
use posthog_c.Queue.Spec.{Fifo}
use posthog_c.Queue.Valid.{IsValid, evict-IsValid, evict_room}

abbrev pub slot : List Event → ℕ → Event
slot slots i = get_or slots i zero_event

pub slot-set_self :
    (slots : List Event) (i : ℕ) (e : Event) → i < length slots → slot (set slots i e) i ≡ e
slot-set_self [] i e h = absurd (omega arith)
slot-set_self (x ∷ slots) zero e h = refl
slot-set_self (x ∷ slots) (suc i) e h = slot-set_self slots i e (omega arith)

pub slot-set_ne :
    (slots : List Event) (i j : ℕ) (e : Event) → i ≢ j → slot (set slots i e) j ≡ slot slots j
slot-set_ne [] i j e h = refl
slot-set_ne (x ∷ slots) zero zero e h = absurd (h refl)
slot-set_ne (x ∷ slots) zero (suc j) e h = refl
slot-set_ne (x ∷ slots) (suc i) zero e h = refl
slot-set_ne (x ∷ slots) (suc i) (suc j) e h = slot-set_ne slots i j e (λ p. h (ap suc p))

-- `count` events from the running index `i` on; the index is reduced only where a slot is read.
abbrev pub collect : List Event → ℕ → ℕ → ℕ → List Event
collect slots cap i zero = []
collect slots cap i (suc count) = slot slots (i % cap) ∷ collect slots cap (suc i) count

abbrev pub view : Queue → Fifo
view q = record { events = collect q.slots q.cap q.head q.size; lost = q.dropped }

pub length-collect :
    (slots : List Event) (cap i count : ℕ) → length (collect slots cap i count) ≡ count
length-collect slots cap i zero = refl
length-collect slots cap i (suc count) = ap suc (length-collect slots cap (suc i) count)

-- Running indices that agree at the ring's size read the same events.
collect_mod :
    (slots : List Event) (cap i j count : ℕ)
    → i % cap ≡ j % cap
    → collect slots cap i count ≡ collect slots cap j count
collect_mod slots cap i j zero h = refl
collect_mod slots cap i j (suc count) h =
    ap₂ ◌∷◌ (ap (slot slots) h) (collect_mod slots cap (suc i) (suc j) count next)
  where
    next : suc i % cap ≡ suc j % cap
    next =
        ap (λ k. k % cap) (omega arith)
        ∙ sym (mod-add-mod i cap 1)
        ∙ ap (λ k. (k + 1) % cap) h
        ∙ mod-add-mod j cap 1
        ∙ ap (λ k. k % cap) (omega arith)

collect_snoc :
    (slots : List Event) (cap i count : ℕ)
    → collect slots cap i (suc count)
      ≡ collect slots cap i count ++ (slot slots ((i + count) % cap) ∷ [])
collect_snoc slots cap i zero = ap (λ k. slot slots (k % cap) ∷ []) (omega arith)
collect_snoc slots cap i (suc count) =
    ap (λ t. slot slots (i % cap) ∷ t)
      (collect_snoc slots cap (suc i) count
        ∙ ap (λ k. collect slots cap (suc i) count ++ (slot slots (k % cap) ∷ [])) (omega arith))

-- A write outside the indices that are read changes nothing.
collect-set :
    (slots : List Event) (cap i count at : ℕ) (e : Event)
    → ((k : ℕ) → i ≤ k → k < i + count → at ≢ k % cap)
    → collect (set slots at e) cap i count ≡ collect slots cap i count
collect-set slots cap i zero at e h = refl
collect-set slots cap i (suc count) at e h =
    ap₂ ◌∷◌ (slot-set_ne slots at (i % cap) e (h i (omega arith) (omega arith)))
      (collect-set slots cap (suc i) count at e (λ k p q. h k (omega arith) (omega arith)))

-- Reduction of an index that has gone round the ring at most once.
mod_near :
    (cap k : ℕ) → k < cap + cap → ((k < cap) × (k % cap ≡ k)) ⊎ ((cap ≤ k) × (k % cap + cap ≡ k))
mod_near cap k h = elim (dec_lt k cap) [
  | yes p ↦ inl (p, mod-eq_of_lt p)
  | no p ↦ inr (
    omega arith,
    omega (
      arith,
      mod-eq-sub-mod {n = k} {m = cap} (omega arith),
      mod-eq_of_lt {n = k - cap} {m = cap} (omega arith),
    ),
  )
]

-- Fewer than `cap` steps round the ring do not come back to the start.
mod_apart : (cap head i j : ℕ) → head < cap → head ≤ i → i < j → j < head + cap → j % cap ≢ i % cap
mod_apart cap head i j hh hi hij hj =
    omega (arith, mod_near cap i (omega arith), mod_near cap j (omega arith))

-- Writing at the tail extends what the ring holds by the written event.
collect-set_tail :
    (slots : List Event) (cap head count : ℕ) (e : Event)
    → cap ≤ length slots
    → head < cap
    → count < cap
    → collect (set slots ((head + count) % cap) e) cap head (suc count)
      ≡ collect slots cap head count ++ (e ∷ [])
collect-set_tail slots cap head count e hs hh hc =
    collect_snoc (set slots at e) cap head count
    ∙ ap₂ (λ xs x. xs ++ (x ∷ []))
        (collect-set slots cap head count at e
          (λ k p q. mod_apart cap head k (head + count) hh p q (omega arith)))
        (slot-set_self slots at e (omega arith))
  where
    at : ℕ
    at = (head + count) % cap

-- The events of the ring after the eviction: all of them, or all but the oldest.
collect-drop :
    (slots : List Event) (cap head count : ℕ)
    → collect slots cap ((head + 1) % cap) (count - 1) ≡ drop 1 (collect slots cap head count)
collect-drop slots cap head zero = refl
collect-drop slots cap head (suc count) =
    ap (collect slots cap ((head + 1) % cap)) (omega arith)
    ∙ collect_mod slots cap ((head + 1) % cap) (suc head) count
        (mod-mod (head + 1) cap ∙ ap (λ k. k % cap) (omega arith))

view-evict :
    (q : Queue)
    → view (evict q) ≡ (
        if q.size == q.cap
        then record { events = drop 1 (view q).events; lost = (q.dropped + 1) % 2 ^ 64 }
        else view q)
unfolding evict
view-evict q = ground (arith, collect-drop q.slots q.cap q.head q.size)

-- Publishing the tail slot of a ring that has room.
published_view :
    (fill : Event → Event) (q : Queue)
    → IsValid q
    → suc q.size ≤ q.cap
    → view (end_push (fill_slot q (tail_index q) fill)) ≡ record {
      events = (view q).events ++ (fill (slot q.slots (tail_index q)) ∷ []);
      lost = q.dropped;
    }
unfolding end_push
published_view fill q v room =
    ground
      (arith, collect-set_tail q.slots q.cap q.head q.size (fill (slot q.slots (tail_index q))))

-- The event that a push writes: what `fill` makes of the slot that it is given.
abbrev pub written : (Event → Event) → Queue → Event
written fill q = let (q', at) = begin_push q in fill (slot q'.slots at)

-- A push appends the filled record, and on a full ring loses exactly the oldest event and counts it.
pub push_refines :
    (fill : Event → Event) {q : Queue}
    → IsValid q
    → view (push fill q) ≡ Spec.push q.cap (written fill q) (view q)
unfolding push begin_push Spec.push
push_refines fill {q} v = ground (
  arith,
  published_view fill (evict q) (evict-IsValid v) (omega (arith, evict_room v)),
  evict_room v,
  view-evict q,
  length-collect q.slots q.cap q.head q.size,
)

-- The oldest event of a ring that is not empty, and the rest.
collect_uncons :
    (slots : List Event) (cap head count : ℕ)
    → head < cap
    → 0 < count
    → collect slots cap head count
      ≡ slot slots head ∷ collect slots cap ((head + 1) % cap) (count - 1)
collect_uncons slots cap head zero h c = absurd (omega arith)
collect_uncons slots cap head (suc count) h c =
    ap₂ (λ k rest. slot slots k ∷ rest) (mod-eq_of_lt h)
      (sym (collect-drop slots cap head (suc count)))

-- One round of the loop.
pub pop_one : Queue → Queue
pop_one q = record q { head = (q.head + 1) % q.cap; size = q.size - 1 }

pub pop_one-IsValid : {q : Queue} → IsValid q → IsValid (pop_one q)
unfolding pop_one
pop_one-IsValid v = ground arith

pop_batch_more :
    (max : ℕ) (q : Queue)
    → 0 < q.size
    → pop_batch q (suc max)
      ≡ (slot q.slots q.head ∷ (pop_batch (pop_one q) max).0, (pop_batch (pop_one q) max).1)
unfolding pop_batch pop_one
pop_batch_more max q h = ground arith

pop_batch_none : (max : ℕ) (q : Queue) → q.size ≡ 0 → pop_batch q max ≡ ([], q)
unfolding pop_batch
pop_batch_none zero q h = refl
pop_batch_none (suc max) q h = ground arith

-- A batch of at most `max` events is the oldest `max` events in order, and the rest stays.
pub pop_batch_refines :
    (max : ℕ) (q : Queue)
    → IsValid q
    → ((pop_batch q max).0, view (pop_batch q max).1) ≡ Spec.pop_batch max (view q)
unfolding Spec.pop_batch pop_one
pop_batch_refines zero q v = unfold pop_batch in refl
pop_batch_refines (suc max) q v = elim (dec_lt 0 q.size) [
  | yes h ↦
      rw (pop_batch_more max q h, collect_uncons q.slots q.cap q.head q.size v.head_in h)
        (ap {B = List Event × Fifo} (λ (r : List Event × Fifo). (slot q.slots q.head ∷ r.0, r.1))
          (pop_batch_refines max (pop_one q) (pop_one-IsValid v)))
  | no h ↦
      let none_left : q.size ≡ 0 = omega arith in
      ground (arith, pop_batch_none (suc max) q none_left)
]
