-- ===== src/Core/Account.antt =====
-- What a submission of src/ph_core.c does to the counters, and what a capture leaves in the ring.
use posthog_c.Base.{
  ℕ, ◌+◌, ◌-◌, ◌%◌, ◌^◌, ◌≡◌, refl, sym, ap, ◌∙◌, subst, true, not, Option, some, List, [], ◌∷◌,
  leb, length, take, Bytes, arith, dec_lt, lt→ltb, length-take, by_cases, Bool-cases, inl, inr,
  if◌then◌else◌, take_all, ap₂, All, min,
}
use posthog_c.Props.{Props}
use posthog_c.Props as Set
use posthog_c.Core.Groups.{Member}
use posthog_c.Props.Laws.{AllValid}
use posthog_c.Props.Unpack.{unpack_props}
use posthog_c.Props.RoundTrip.{kept}
use posthog_c.Props.Util.{props_merge}
use posthog_c.Queue.{Event, Queue, push, wake}
use posthog_c.Queue.Valid.{push_counts}
use posthog_c.Queue.Refine.{view, push_refines}
use posthog_c.Queue.Spec as Spec
use posthog_c.Core.{
  Result, ok, truncated, Doubles, Bucket, Group, Ctx, EventKind, capture, event_name_cap,
  event_data_cap,
}
use posthog_c.Core.Submit.{
  Submission, rate_limit_admit, refill, event_of, submit_event, submit_locked, queued_ctx, wake_at,
  bounded_event_name_len, copy_capture_event_name,
}
use posthog_c.Core.Blob.{event_of_lem, unpack-event_of, name_of, did_of, blob_bytes, GroupFits}
use posthog_c.Core.Valid.{IsValid, view-wake_at}
use posthog_c.Core.Api.{captured, with_cut, capture_event, dropped_events}

-- An admission counts nothing, a refusal one.
admit_counts :
    (D : Doubles) (kind : EventKind) (mono : ℕ) (b : Bucket)
    → (rate_limit_admit D kind mono b).0.dropped % 2 ^ 64
      ≡ (b.dropped + (if (rate_limit_admit D kind mono b).1 then 0 else 1)) % 2 ^ 64
unfolding rate_limit_admit refill
admit_counts D kind mono b = ground arith

size-wake_at :
    (n : ℕ) (q : Queue) → ((wake_at n q).size ≡ q.size) × ((wake_at n q).dropped ≡ q.dropped)
unfolding wake
size-wake_at n q = elim (Bool-cases (leb n q.size)) [
  | inl e ↦ rw e (refl, refl)
  | inr e ↦ rw e (refl, refl)
]

pub submit_event-running :
    (D : Doubles) (mono : ℕ) (s : Submission) (g : Ctx)
    → g.enabled ≡ true
    → submit_event D mono s g ≡ submit_locked D mono s g
unfolding submit_event
submit_event-running D mono s g on =
    by_cases (λ (r : Ctx × Result). r ≡ submit_locked D mono s g) (not g.enabled)
      (λ off. absurd (ground arith)) (λ e. refl)

submit_event-admitted :
    (D : Doubles) (mono : ℕ) (s : Submission) (g : Ctx)
    → g.enabled ≡ true
    → (rate_limit_admit D s.kind mono g.bucket).1 ≡ true
    → submit_event D mono s g ≡ (queued_ctx D mono s g, ok)
submit_event-admitted D mono s g on admitted =
    submit_event-running D mono s g on
    ∙ by_cases (λ (r : Ctx × Result). r ≡ (queued_ctx D mono s g, ok))
        (rate_limit_admit D s.kind mono g.bucket).1 (λ e. refl) (λ e. absurd (ground arith))

-- The events that an instance holds and those that it reports as lost.
abbrev pub counted : Ctx → ℕ
counted g = (g.queue.size + dropped_events g) % 2 ^ 64

-- Every submission to a running instance is counted once: as an event in the ring, or in what
-- ph_dropped_events reports, whether the ring overflows or the bucket is empty.
pub submit_event-counts :
    (D : Doubles) (mono : ℕ) (s : Submission) (g : Ctx)
    → IsValid g
    → g.initialized ≡ true
    → g.enabled ≡ true
    → let g' = (submit_event D mono s g).0 in
      counted g' ≡ (g.queue.size + dropped_events g + 1) % 2 ^ 64
unfolding dropped_events
submit_event-counts D mono s g v init on =
    subst (λ (r : Ctx × Result). counted r.0 ≡ (g.queue.size + dropped_events g + 1) % 2 ^ 64)
      (sym (submit_event-running D mono s g on))
      (by_cases (λ (r : Ctx × Result). counted r.0 ≡ (g.queue.size + dropped_events g + 1) % 2 ^ 64)
        (rate_limit_admit D s.kind mono g.bucket).1
        (λ admitted. ground (
          arith,
          admit_counts D s.kind mono g.bucket,
          size-wake_at g.flush_at (push (λ old. event_of g mono s) g.queue),
          push_counts (λ old. event_of g mono s) v.ring,
        ))
        (λ refused. ground (arith, admit_counts D s.kind mono g.bucket)))

copied_name :
    (name : Bytes)
    → (take 127 (copy_capture_event_name name).0 ≡ take 127 name)
      × ((copy_capture_event_name name).1 ≡ leb event_name_cap (length name))
unfolding copy_capture_event_name bounded_event_name_len
copied_name name = elim (dec_lt (length name) 128) [
  | yes short ↦
      let n : min 128 (length name) ≡ length name = omega arith in
      rw (n, lt→ltb (length name) 128 short)
        (ap (take 127) (take_all (length name) name (omega arith)), refl)
  | no long ↦
      let n : min 128 (length name) ≡ 128 = omega arith in
      rw n (take_all 127 (take 127 name) (omega (arith, length-take 127 name)), ground arith)
]

-- What a sender finds in the event of a capture.
pub record Snapshot (g : Ctx) (name : Bytes) (props : Option Props) (e : Event) : Type 0 where
  pub its_name : name_of e ≡ take 127 name
  pub its_id : did_of e ≡ g.distinct_id
  pub its_seq : e.seq ≡ g.seq
  pub its_epoch : (e.epoch_wall_ns ≡ g.epoch_wall_ns) × (e.epoch_mono_ns ≡ g.epoch_mono_ns)
  pub its_props :
      (unpack_props (blob_bytes e)).items
      ≡ kept
          (event_data_cap - (length (take 127 name) + length g.distinct_id))
          (props_merge props (some g.super)).items

captured-Snapshot :
    (g : Ctx) (mono : ℕ) (name : Bytes) (props : Option Props)
    → IsValid g
    → AllValid props
    → Snapshot g name props (event_of g mono (captured name props))
unfolding event_of
captured-Snapshot g mono name props v hp =
    let s = captured name props in
    let lem = event_of_lem g mono s in
    let n = (copied_name name).0 in
    let d = take_all 127 g.distinct_id (omega (arith, v.id.2)) in
    record {
      its_name = lem.1 ∙ n;
      its_id = lem.2 ∙ d;
      its_seq = refl;
      its_epoch = (refl, refl);
      its_props =
          unpack-event_of g mono s refl refl hp (super_set v) (fits g.groups v.members.fit)
          ∙ ap₂
              (λ x y.
                kept (event_data_cap - (length x + length y))
                  (props_merge props (some g.super)).items)
              n d;
    }
  where
    super_set : IsValid g → Set.IsValid g.super
    super_set w = record { few = w.super.few; fit = w.super.fit }

    fits : (gs : List Group) → All Member gs → All GroupFits gs
    fits [] h = tt
    fits (x ∷ gs) (h, hs) = (h.0, fits gs hs)

-- The event that a capture puts in the ring, and what the ring is then.
abbrev pub Stored : Ctx → Ctx → Bytes → Option Props → Type 0
Stored g g' name props =
    (e : Event) × Snapshot g name props e × (view g'.queue ≡ Spec.push g.queue.cap e (view g.queue))

-- A capture that the bucket admits appends one event: the ring drops its oldest where it is full, and
-- the new event holds the name up to 127 bytes, the present id, sequence number and clock epoch, and the
-- merged properties as far as the blob has room. The result says whether the name was cut.
pub capture_event_lem :
    (D : Doubles) (mono b : ℕ) (bs : Bytes) (props : Option Props) (g : Ctx)
    → IsValid g
    → AllValid props
    → g.enabled ≡ true
    → (rate_limit_admit D capture mono g.bucket).1 ≡ true
    → let r = capture_event D mono (some (b ∷ bs)) props g in
      Stored g r.0 (b ∷ bs) props
      × (r.1 ≡ (if leb event_name_cap (length (b ∷ bs)) then truncated else ok))
unfolding capture_event
capture_event_lem D mono b bs props g v hp on admitted =
    let s = captured (b ∷ bs) props in
    let e = event_of g mono s in
    let r : submit_event D mono s g ≡ (queued_ctx D mono s g, ok) =
      submit_event-admitted D mono s g on admitted in
    (
      (
        e,
        captured-Snapshot g mono (b ∷ bs) props v hp,
        ap (λ t. view t.0.queue) r
            ∙ view-wake_at g.flush_at (push (λ old. e) g.queue)
            ∙ push_refines (λ old. e) v.ring,
      ),
      ap (λ t. with_cut (copy_capture_event_name (b ∷ bs)).1 t.1) r
          ∙ ap (λ cut. if cut then truncated else ok) (copied_name (b ∷ bs)).1,
    )
