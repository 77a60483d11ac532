-- ===== src/Core/Order.antt =====
-- What any call of src/ph_core.c leaves of the events that are queued.
use posthog_c.Base.{
  ℕ, zero, suc, ◌+◌, ◌-◌, ◌≤◌, ◌<◌, ◌%◌, ◌^◌, ◌≡◌, refl, sym, ap, ap₂, ◌∙◌, subst, take,
  length-take, length-drop, length-append, ==_iff, Bool, true, false, not, ◌||◌, Option, none, some,
  List, [], ◌∷◌, ◌++◌, length, drop, Bytes, if◌then◌else◌, arith, by_cases, append-nil,
  append_assoc, All, ◌==◌,
}
use posthog_c.Props.{Props}
use posthog_c.Queue.{Event, Queue, pop_batch, wake}
use posthog_c.Queue.Refine.{view, push_refines, pop_batch_refines}
use posthog_c.Queue.Valid as Ring
use posthog_c.Queue.Spec as Spec
use posthog_c.Core.{Result, Doubles, Ctx, non_empty}
use posthog_c.Core.Submit.{Submission, rate_limit_admit, event_of, submit_event}
use posthog_c.Core.Valid.{IsValid, woken, view-wake_at}
use posthog_c.Core.Api.{
  capture_event, flags_context_changed, auto_refresh, identify_user, alias_user, reset, join_group,
  membership, context_after, group_user, register, unregister,
}
use posthog_c.Core.Run.{
  Call, captures, identifies, aliases, joins, registers, unregisters, resets, pops, takes,
  completes, corrects, CallFits, step, run, step-IsValid,
}

-- The old events and those added behind them, less the first `gone`: what is left of them is as it was,
-- in its order.
pub record Extends (gone : ℕ) (old new : List Event) : Type 0 where
  pub added : List Event
  pub enough : gone ≤ length (old ++ added)
  pub is : new ≡ drop gone (old ++ added)

-- What a drop counter of 64 bits has grown by.
abbrev pub growth : ℕ → ℕ → ℕ
growth before after = (after + 2 ^ 64 - before) % 2 ^ 64

-- How many events a call takes out of the ring, as a batch or as lost ones that it counts.
abbrev pub leaving : Doubles → Call → Ctx → ℕ
leaving D (pops max) g = length (pop_batch g.queue max).0
leaving D c g = growth g.queue.dropped (step D g c).queue.dropped

abbrev pub total_leaving : Doubles → Ctx → List Call → ℕ
total_leaving D g [] = 0
total_leaving D g (c ∷ cs) = leaving D c g + total_leaving D (step D g c) cs

-- From one content of the ring to another, where only the counted losses are gone.
abbrev Grows : Spec.Fifo → Spec.Fifo → Type 0
Grows f f' = Extends (growth f.lost f'.lost) f.events f'.events

abbrev content : Ctx → Spec.Fifo
content g = view g.queue

unmoved : (es : List Event) → Extends 0 es es
unmoved es = record { added = []; enough = omega arith; is = sym (append-nil es) }

growth_zero : (n : ℕ) → 0 ≡ growth n n
growth_zero n = omega arith

same : (f : Spec.Fifo) → Grows f f
same f = subst (λ n. Extends n f.events f.events) (growth_zero f.lost) (unmoved f.events)

drop_index : (i j : ℕ) (xs : List Event) → i ≡ j → drop i xs ≡ drop j xs
drop_index i j xs e = ap (λ k. drop k xs) e

drop-append :
    (m : ℕ) (xs ys : List Event) → drop m (xs ++ ys) ≡ drop m xs ++ drop (m - length xs) ys
drop-append zero xs ys = ap (λ t. xs ++ t) (drop_index 0 (0 - length xs) ys (omega arith))
drop-append (suc m) [] ys = drop_index (suc m) (suc m - 0) ys (omega arith)
drop-append (suc m) (x ∷ xs) ys =
    drop-append m xs ys
    ∙ ap (λ t. drop m xs ++ t)
        (drop_index (m - length xs) (suc m - suc (length xs)) ys (omega arith))

drop-drop : (m n : ℕ) (xs : List Event) → drop m (drop n xs) ≡ drop (n + m) xs
drop-drop m zero xs = drop_index m (0 + m) xs (omega arith)
drop-drop zero (suc n) xs = drop_index (suc n) (suc n + 0) xs (omega arith)
drop-drop (suc m) (suc n) [] = drop_index (suc (n + suc m)) (suc n + suc m) [] (omega arith)
drop-drop m (suc n) (x ∷ xs) =
    drop-drop m n xs ∙ drop_index (suc (n + m)) (suc n + m) (x ∷ xs) (omega arith)

then_extends : (m n : ℕ) (a b c : List Event) → Extends m a b → Extends n b c → Extends (m + n) a c
then_extends m n a b c ab bc = record {
  added = ab.added ++ bc.added;
  enough = omega (
    arith,
    ab.enough,
    bc.enough,
    ap length ab.is,
    length-drop m (a ++ ab.added),
    length-append b bc.added,
    length-append (a ++ ab.added) bc.added,
    ap length whole,
  );
  is =
      bc.is
      ∙ ap (λ t. drop n (t ++ bc.added)) ab.is
      ∙ ap (drop n) (
          sym (
            drop-append m (a ++ ab.added) bc.added
            ∙ ap (λ t. drop m (a ++ ab.added) ++ t)
                (drop_index (m - length (a ++ ab.added)) 0 bc.added (omega (arith, ab.enough)))))
      ∙ drop-drop n m ((a ++ ab.added) ++ bc.added)
      ∙ ap (drop (m + n)) whole;
}
  where
    whole : (a ++ ab.added) ++ bc.added ≡ a ++ (ab.added ++ bc.added)
    whole = append_assoc a ab.added bc.added

first_dropped : (xs ys : List Event) → 0 < length xs → drop 1 xs ++ ys ≡ drop 1 (xs ++ ys)
first_dropped [] ys h = absurd (omega arith)
first_dropped (x ∷ xs) ys h = refl

growth_one : (n : ℕ) → n < 2 ^ 64 → 1 ≡ growth n ((n + 1) % 2 ^ 64)
growth_one n h = omega arith

pushed_when :
    (full : Bool) (e : Event) (s : Spec.Fifo)
    → s.lost < 2 ^ 64
    → (full ≡ true → 0 < length s.events)
    → Grows s (record {
      events = (if full then drop 1 s.events else s.events) ++ (e ∷ []);
      lost = if full then (s.lost + 1) % 2 ^ 64 else s.lost;
    })
pushed_when true e s h n =
    subst (λ k. Extends k s.events (drop 1 s.events ++ (e ∷ []))) (growth_one s.lost h)
      (record {
        added = e ∷ [];
        enough = omega (arith, length-append s.events (e ∷ []));
        is = first_dropped s.events (e ∷ []) (n refl);
      })
pushed_when false e s h n =
    subst (λ k. Extends k s.events (s.events ++ (e ∷ []))) (growth_zero s.lost)
      (record { added = e ∷ []; enough = omega arith; is = refl })

pushed :
    (cap : ℕ) (e : Event) (s : Spec.Fifo) → 0 < cap → s.lost < 2 ^ 64 → Grows s (Spec.push cap e s)
unfolding Spec.push
pushed cap e s n h =
    pushed_when (length s.events == cap) e s h
      (λ full. omega (arith, (==_iff (length s.events) cap).0 full, n))

submitted :
    (D : Doubles) (mono : ℕ) (s : Submission) (g : Ctx)
    → Ring.IsValid g.queue
    → Grows (content g) (content (submit_event D mono s g).0)
unfolding submit_event
submitted D mono s g v =
    by_cases (λ (r : Ctx × Result). Grows (content g) (content r.0)) (not g.enabled)
      (λ off. same (content g))
      (λ on.
        by_cases (λ (r : Ctx × Result). Grows (content g) (content r.0))
          (rate_limit_admit D s.kind mono g.bucket).1
          (λ admitted.
            subst (λ (f : Spec.Fifo). Grows (content g) f)
              (sym (view-wake_at g.flush_at _ ∙ push_refines (λ old. event_of g mono s) v))
              (pushed g.queue.cap (event_of g mono s) (view g.queue) v.some_room v.dropped_fits))
          (λ refused. same (content g)))

content-auto_refresh : (g : Ctx) → content (auto_refresh g) ≡ content g
unfolding auto_refresh wake
content-auto_refresh g =
    by_cases (λ (h : Ctx). content h ≡ content g) g.enabled (λ on. refl) (λ off. refl)

content-context_after : (b : Bool) (g : Ctx) → content (context_after b g) ≡ content g
unfolding flags_context_changed
content-context_after true g = content-auto_refresh (flags_context_changed g)
content-context_after false g = refl

ring-context_after :
    (b : Bool) (g : Ctx) → Ring.IsValid g.queue → Ring.IsValid (context_after b g).queue
unfolding flags_context_changed auto_refresh
ring-context_after false g v = v
ring-context_after true g v =
    by_cases (λ (h : Ctx). Ring.IsValid h.queue) g.enabled (λ on. woken g.queue v) (λ off. v)

identified :
    (D : Doubles) (mono : ℕ) (did : Option Bytes) (props : Option Props) (g : Ctx)
    → Ring.IsValid g.queue
    → Grows (content g) (content (identify_user D mono did props g))
unfolding identify_user flags_context_changed
identified D mono none props g v = same (content g)
identified D mono (some did) props g v =
    by_cases (λ (h : Ctx). Grows (content g) (content h))
      (not g.enabled || not (non_empty (some did))) (λ off. same (content g))
      (λ on.
        subst (λ f. Grows (content g) f) (sym (content-auto_refresh _)) (submitted D mono _ _ v))

sent_after :
    (D : Doubles) (mono : ℕ) (s : Submission) (b : Bool) (g : Ctx)
    → Ring.IsValid g.queue
    → Grows (content g) (content (submit_event D mono s (context_after b g)).0)
sent_after D mono s b g v =
    subst (λ f. Grows f (content (submit_event D mono s (context_after b g)).0))
      (content-context_after b g)
      (submitted D mono s (context_after b g) (ring-context_after b g v))

joined :
    (D : Doubles) (mono : ℕ) (type key : Option Bytes) (props : Option Props) (g : Ctx)
    → Ring.IsValid g.queue
    → Grows (content g) (content (group_user D mono type key props g))
unfolding group_user
joined D mono type key props g v =
    by_cases (λ (h : Ctx). Grows (content g) (content h))
      (not g.enabled || not (non_empty type) || not (non_empty key)) (λ off. same (content g))
      (λ on.
        sent_after D mono _ (join_group (membership g type key props) g.groups).1
          (record g { groups = (join_group (membership g type key props) g.groups).0 }) v)

-- A batch is taken from the front.
drop_all : (max : ℕ) (xs : List Event) → drop max xs ≡ drop (length (take max xs)) xs
drop_all zero xs = refl
drop_all (suc max) [] = refl
drop_all (suc max) (x ∷ xs) = drop_all max xs

popped :
    (max : ℕ) (q : Queue)
    → Ring.IsValid q
    → Extends (length (pop_batch q max).0) (view q).events (view (pop_batch q max).1).events
unfolding Spec.pop_batch
popped max q v =
    let batch = ap (λ (r : List Event × Spec.Fifo). length r.0) (pop_batch_refines max q v) in
    record {
      added = [];
      enough =
          omega (arith, batch, length-take max (view q).events, length-append (view q).events []);
      is =
          ap (λ (r : List Event × Spec.Fifo). r.1.events) (pop_batch_refines max q v)
          ∙ drop_all max (view q).events
          ∙ ap₂ drop (sym batch) (sym (append-nil (view q).events));
    }

unchanged :
    (b : Bool) (g h : Ctx)
    → content h ≡ content g
    → Grows (content g) (content (if b then g else h))
unchanged true g h e = same (content g)
unchanged false g h e = subst (λ f. Grows (content g) f) (sym e) (same (content g))

step-Extends :
    (D : Doubles) (c : Call) (g : Ctx)
    → Ring.IsValid g.queue
    → Extends (leaving D c g) (content g).events (content (step D g c)).events
unfolding step capture_event alias_user reset flags_context_changed register unregister
step-Extends D (captures mono none props) g v = same (content g)
step-Extends D (captures mono (some []) props) g v = same (content g)
step-Extends D (captures mono (some (b ∷ bs)) props) g v = submitted D mono _ g v
step-Extends D (identifies mono did props) g v = identified D mono did props g v
step-Extends D (aliases mono new_id old_id) g v =
    by_cases (λ (h : Ctx). Grows (content g) (content h))
      (not g.enabled || not (non_empty new_id) || not (non_empty old_id)) (λ off. same (content g))
      (λ on. submitted D mono _ g v)
step-Extends D (joins mono type key props) g v = joined D mono type key props g v
step-Extends D (registers none) g v = same (content g)
step-Extends D (registers (some p)) g v = unchanged (not g.enabled) g _ refl
step-Extends D (unregisters none) g v = same (content g)
step-Extends D (unregisters (some key)) g v = unchanged (not g.enabled) g _ refl
step-Extends D (resets anon_id) g v = unchanged (not g.enabled) g _ (content-auto_refresh _)
step-Extends D (pops max) g v = popped max g.queue v
step-Extends D takes g v = same (content g)
step-Extends D (completes id status) g v = same (content g)
step-Extends D (corrects wall mono threshold) g v = same (content g)

-- No call rewrites an event that is queued: whatever the host calls and the sender takes, also where the
-- id, the groups, the super properties or the clock epoch change, the ring holds the old events as they
-- were captured, in the old order, and every event since behind them, less those in front that are as
-- many as the batches took and the drop counter counts, call by call.
pub run-Extends :
    (D : Doubles) (cs : List Call) (g : Ctx)
    → All CallFits cs
    → IsValid g
    → Extends (total_leaving D g cs) (view g.queue).events (view (run D g cs).queue).events
unfolding run
run-Extends D [] g h v = unmoved (view g.queue).events
run-Extends D (c ∷ cs) g (h, hs) v =
    then_extends (leaving D c g) (total_leaving D (step D g c) cs) (view g.queue).events
      (view (step D g c).queue).events _ (step-Extends D c g v.ring)
      (run-Extends D cs (step D g c) hs (step-IsValid D g c h v))
