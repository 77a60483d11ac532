-- ===== src/Queue/Account.antt =====
-- Where each event ends: popped in a batch, still held, or lost and counted.
use posthog_c.Base.{
  ℕ, ◌+◌, ◌%◌, ◌^◌, ◌<◌, ◌≡◌, refl, sym, ap, ap₂, ◌∙◌, subst, subst₂, Bool, true, false, List, [],
  ◌∷◌, ◌++◌, arith, length, take, drop, ◌==◌, if◌then◌else◌, append_assoc, append-nil,
  take-append-drop, ==_iff, length-append, length-take,
}
use posthog_c.Queue.{Event, Queue}
use posthog_c.Queue.Spec
use posthog_c.Queue.Spec.{Fifo}
use posthog_c.Queue.Valid.{IsValid}
use posthog_c.Queue.Refine.{view}
use posthog_c.Queue.Run.{Op, put, pop, rouse, unpark, run, run_spec, run_refines}

-- The events that a list of calls puts in.
pub puts : List Op → List Event
puts [] = []
puts (put e ∷ ops) = e ∷ puts ops
puts (pop max ∷ ops) = puts ops
puts (rouse ∷ ops) = puts ops
puts (unpark ∷ ops) = puts ops

-- `Shuffle xs ys zs`: `zs` is made of `xs` and `ys`, each in its order.
pub data Shuffle : List Event → List Event → List Event → Type 0 where
  nil : Shuffle [] [] []
  left : {xs ys zs : List Event} (e : Event) → Shuffle xs ys zs → Shuffle (e ∷ xs) ys (e ∷ zs)
  right : {xs ys zs : List Event} (e : Event) → Shuffle xs ys zs → Shuffle xs (e ∷ ys) (e ∷ zs)

Shuffle-refl : (ys : List Event) → Shuffle [] ys ys
Shuffle-refl [] = nil
Shuffle-refl (e ∷ ys) = right e (Shuffle-refl ys)

Shuffle-append :
    (front : List Event) {xs ys zs : List Event}
    → Shuffle xs ys zs
    → Shuffle xs (front ++ ys) (front ++ zs)
Shuffle-append [] h = h
Shuffle-append (e ∷ front) h = right e (Shuffle-append front h)

-- The events that the sequence loses on the way.
module _ (cap : ℕ) where
  pub losses : Fifo → List Op → List Event
  losses s [] = []
  losses s (put e ∷ ops) =
      (if length s.events == cap then take 1 s.events else []) ++ losses (Spec.push cap e s) ops
  losses s (pop max ∷ ops) = losses (Spec.pop_batch max s).1 ops
  losses s (rouse ∷ ops) = losses s ops
  losses s (unpark ∷ ops) = losses s ops

lose :
    (full : Bool) (events : List Event) (e : Event) (ps : List Event) {xs ys : List Event}
    → (full ≡ true → 0 < length events)
    → Shuffle xs ys (((if full then drop 1 events else events) ++ (e ∷ [])) ++ ps)
    → Shuffle ((if full then take 1 events else []) ++ xs) ys (events ++ (e ∷ ps))
lose true [] e ps h sh = absurd (omega (arith, h refl))
lose true (x ∷ events) e ps {xs} {ys} h sh =
    left x (subst (Shuffle xs ys) (append_assoc events (e ∷ []) ps) sh)
lose false events e ps {xs} {ys} h sh = subst (Shuffle xs ys) (append_assoc events (e ∷ []) ps) sh

-- Nothing is lost silently, and nothing is duplicated or reordered: the events that went in are a
-- shuffle of those lost with those popped and then those still held.
losses-Shuffle :
    (cap : ℕ) (ops : List Op) (s : Fifo)
    → 0 < cap
    → let (popped, last) = run_spec cap s ops in
      Shuffle (losses cap s ops) (popped ++ last.events) (s.events ++ puts ops)
unfolding losses run_spec puts Spec.push Spec.pop_batch
losses-Shuffle cap [] s h =
    subst (Shuffle [] s.events) (sym (append-nil s.events)) (Shuffle-refl s.events)
losses-Shuffle cap (put e ∷ ops) s h =
    lose (length s.events == cap) s.events e (puts ops) (λ full. omega (arith, (==_iff _ _).0 full))
      (losses-Shuffle cap ops (Spec.push cap e s) h)
losses-Shuffle cap (pop max ∷ ops) s h =
    let s' = (Spec.pop_batch max s).1 in
    let r = run_spec cap s' ops in
    subst₂ (Shuffle (losses cap s' ops)) (sym (append_assoc (take max s.events) r.0 r.1.events))
      (sym (append_assoc (take max s.events) s'.events (puts ops))
        ∙ ap (λ xs. xs ++ puts ops) (take-append-drop max s.events))
      (Shuffle-append (take max s.events) (losses-Shuffle cap ops s' h))
losses-Shuffle cap (rouse ∷ ops) s h = losses-Shuffle cap ops s h
losses-Shuffle cap (unpark ∷ ops) s h = losses-Shuffle cap ops s h

lost_step :
    (cap : ℕ) (e : Event) (s : Fifo)
    → 0 < cap
    → s.lost < 2 ^ 64
    → (Spec.push cap e s).lost
      ≡ (s.lost + length (if length s.events == cap then take 1 s.events else [])) % 2 ^ 64
unfolding Spec.push
lost_step cap e s h b = ground (arith, length-take 1 s.events)

lost_fits : (cap : ℕ) (e : Event) (s : Fifo) → s.lost < 2 ^ 64 → (Spec.push cap e s).lost < 2 ^ 64
unfolding Spec.push
lost_fits cap e s b = ground arith

-- The counter counts the losses, modulo the width of `uint64_t`.
losses_counted :
    (cap : ℕ) (ops : List Op) (s : Fifo)
    → 0 < cap
    → s.lost < 2 ^ 64
    → (run_spec cap s ops).1.lost ≡ (s.lost + length (losses cap s ops)) % 2 ^ 64
unfolding losses run_spec Spec.pop_batch
losses_counted cap [] s h b = omega arith
losses_counted cap (put e ∷ ops) s h b =
    let out : List Event = if length s.events == cap then take 1 s.events else [] in
    omega (
      arith,
      losses_counted cap ops (Spec.push cap e s) h (lost_fits cap e s b),
      lost_step cap e s h b,
      length-append out (losses cap (Spec.push cap e s) ops),
    )
losses_counted cap (pop max ∷ ops) s h b = losses_counted cap ops (Spec.pop_batch max s).1 h b
losses_counted cap (rouse ∷ ops) s h b = losses_counted cap ops s h b
losses_counted cap (unpark ∷ ops) s h b = losses_counted cap ops s h b

-- Over any interleaving of calls on a valid ring, the events held at first and those pushed are a
-- shuffle of two lists: the popped batches in order, followed by the events still held, and the
-- evicted events; and the drop counter has grown by the number of the evicted, modulo 2 ^ 64.
pub run_accounts :
    (ops : List Op) {q : Queue}
    → IsValid q
    → let lost = losses q.cap (view q) ops in
      let (popped, last) = run q ops in
      Shuffle lost (popped ++ (view last).events) ((view q).events ++ puts ops)
      × (last.dropped ≡ (q.dropped + length lost) % 2 ^ 64)
run_accounts ops {q} v =
    let (popped, held, _) = run_refines ops v in
    (
      subst (λ xs. Shuffle (losses q.cap (view q) ops) xs ((view q).events ++ puts ops))
          (sym (ap₂ (λ xs t. xs ++ t.events) popped held))
          (losses-Shuffle q.cap ops (view q) v.some_room),
      ap (λ t. t.lost) held ∙ losses_counted q.cap ops (view q) v.some_room v.dropped_fits,
    )
