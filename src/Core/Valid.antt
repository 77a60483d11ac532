-- ===== src/Core/Valid.antt =====
-- The invariant of the instance of src/ph_core.c, and that every call keeps it.
use posthog_c.Base.{
  ℕ, zero, suc, ◌+◌, ◌%◌, ◌^◌, ◌<◌, ◌≡◌, refl, sym, ap, ◌∙◌, subst, Bool, true, false, not, ◌||◌,
  Option, none, some, List, [], ◌∷◌, ◌++◌, leb, length, drop, Bytes, arith, by_cases, Bool-cases,
  inl, inr, All, IsChar, length-take, All-take, ◌==◌,
}
use posthog_c.Props.{Props, Property, ItemFits, key_cap, empty_props, set_str}
use posthog_c.Props as Set
use posthog_c.Props.Laws.{AllValid, TextFits}
use posthog_c.Props.Util.Valid.{apply_denylist-IsValid, empty_props-IsValid}
use posthog_c.Queue.{Event, Queue, push, wake}
use posthog_c.Queue.Valid as Ring
use posthog_c.Queue.Valid.{push-IsValid, cap-push}
use posthog_c.Queue.Refine.{view, push_refines}
use posthog_c.Queue.Spec as Spec
use posthog_c.Reload.Valid as Scheduler
use posthog_c.Reload.Run.{context_changed-IsValid, request_auto_refresh-IsValid}
use posthog_c.Core.{Result, Doubles, Bucket, Group, Ctx, distinct_id_cap, copy_capped, non_empty}
use posthog_c.Core.Submit.{Submission, rate_limit_admit, event_of, id_of, submit_event, wake_at}
use posthog_c.Core.Blob.{EventFits, event_of_lem}
use posthog_c.Core.Super.{Super, register_items-Super, remove_first-Super}
use posthog_c.Core.Groups.{Member, Members, join_group-Members}
use posthog_c.Core.Api.{
  capture_event, immediate_flag_props, flags_context_changed, auto_refresh, identify_user,
  alias_user, reset, forgotten, join_group, membership, with_group, context_after, group_user,
  register, unregister,
}

module _ {ℓ} {A : Type ℓ} (P : A → Type 0) where
  pub All_snoc : (xs : List A) (x : A) → All P xs → P x → All P (xs ++ (x ∷ []))
  All_snoc [] x h p = (p, tt)
  All_snoc (y ∷ xs) x (h, hs) p = (h, All_snoc xs x hs p)

  All_drop_one : (xs : List A) → All P xs → All P (drop 1 xs)
  All_drop_one [] h = h
  All_drop_one (x ∷ xs) (h, hs) = hs

-- An id that an event may carry: a C string within its array, and not an empty one.
abbrev pub IsId : Bytes → Type 0
IsId s = All IsChar s × (0 < length s) × (length s < distinct_id_cap)

-- An event in the ring: its lengths fit its bytes, and it carries an id.
abbrev pub Queued : Event → Type 0
Queued e = EventFits e × (0 < e.did_len)

pub record IsValid (g : Ctx) : Type 0 where
  pub id : IsId g.distinct_id
  pub super : Super g.super.items
  pub members : Members g.groups
  pub person : Set.IsValid g.flag_person_props
  pub scheduler : Scheduler.IsValid g.reload
  pub ring : Ring.IsValid g.queue
  pub events : All Queued (view g.queue).events

copied_capped :
    (cap : ℕ) (s : Bytes)
    → 1 < cap
    → All IsChar s
    → 0 < length s
    → All IsChar (copy_capped cap (some s))
      × (0 < length (copy_capped cap (some s)))
      × (length (copy_capped cap (some s)) < cap)
unfolding copy_capped
copied_capped zero s h hs n = absurd (omega arith)
copied_capped (suc room) s h hs n = (
  All-take IsChar room s hs,
  omega (arith, length-take room s),
  omega (arith, length-take room s),
)

id_of_pos : (g : Ctx) (o : Option Bytes) → 0 < length g.distinct_id → 0 < length (id_of g o)
id_of_pos g none h = h
id_of_pos g (some []) h = h
id_of_pos g (some (b ∷ bs)) h = omega arith

event_of-Queued :
    (g : Ctx) (mono : ℕ) (s : Submission) → 0 < length g.distinct_id → Queued (event_of g mono s)
event_of-Queued g mono s h =
    let e = event_of g mono s in
    let lem = event_of_lem g mono s in
    (
      lem.0,
      omega (
        arith,
        ap length lem.2,
        length-take e.did_len (drop e.name_len e.bytes),
        length-take 127 (id_of g s.did_override),
        id_of_pos g s.did_override h,
      ),
    )

wake_at-IsValid : (n : ℕ) (q : Queue) → Ring.IsValid q → Ring.IsValid (wake_at n q)
unfolding wake
wake_at-IsValid n q v = ground arith

pub view-wake_at : (n : ℕ) (q : Queue) → view (wake_at n q) ≡ view q
unfolding wake
view-wake_at n q = elim (Bool-cases (leb n q.size)) [ inl e ↦ rw e refl | inr e ↦ rw e refl ]

pushed_events :
    (cap : ℕ) (e : Event) (s : Spec.Fifo)
    → All Queued s.events
    → Queued e
    → All Queued (Spec.push cap e s).events
unfolding Spec.push
pushed_events cap e s h q = elim (Bool-cases (length s.events == cap)) [
  | inl full ↦ rw full (All_snoc Queued (drop 1 s.events) e (All_drop_one Queued s.events h) q)
  | inr room ↦ rw room (All_snoc Queued s.events e h q)
]

-- What a submission leaves of the rest of the context.
submitted :
    (D : Doubles) (g : Ctx) (mono : ℕ) (s : Submission) (b : Bucket)
    → IsValid g
    → IsValid (record g {
      bucket = b;
      seq = (g.seq + 1) % 2 ^ 64;
      queue = wake_at g.flush_at (push (λ old. event_of g mono s) g.queue);
    })
submitted D g mono s b v = record {
  id = v.id;
  super = v.super;
  members = v.members;
  person = v.person;
  scheduler = v.scheduler;
  ring = wake_at-IsValid g.flush_at _ (push-IsValid (λ old. event_of g mono s) v.ring);
  events =
      subst (λ f. All Queued f.events)
        (sym (view-wake_at g.flush_at _ ∙ push_refines (λ old. event_of g mono s) v.ring))
        (pushed_events g.queue.cap (event_of g mono s) (view g.queue) v.events
          (event_of-Queued g mono s v.id.1));
}

pub submit_event-IsValid :
    (D : Doubles) (mono : ℕ) (s : Submission) (g : Ctx)
    → IsValid g
    → IsValid (submit_event D mono s g).0
unfolding submit_event
submit_event-IsValid D mono s g v =
    by_cases (λ (r : Ctx × Result). IsValid r.0) (not g.enabled) (λ off. v)
      (λ on.
        by_cases (λ (r : Ctx × Result). IsValid r.0) (rate_limit_admit D s.kind mono g.bucket).1
          (λ admitted. submitted D g mono s _ v)
          (λ refused. record {
            id = v.id;
            super = v.super;
            members = v.members;
            person = v.person;
            scheduler = v.scheduler;
            ring = v.ring;
            events = v.events;
          }))

pub capture_event-IsValid :
    (D : Doubles) (mono : ℕ) (name : Option Bytes) (props : Option Props) (g : Ctx)
    → IsValid g
    → IsValid (capture_event D mono name props g).0
unfolding capture_event
capture_event-IsValid D mono none props g v = v
capture_event-IsValid D mono (some []) props g v = v
capture_event-IsValid D mono (some (b ∷ bs)) props g v = submit_event-IsValid D mono _ g v

flag_props-IsValid :
    (g : Ctx) (p : Option Props) → AllValid p → Set.IsValid (immediate_flag_props g p)
unfolding immediate_flag_props
flag_props-IsValid g none h = empty_props-IsValid
flag_props-IsValid g (some p) h = elim (Bool-cases g.has_hook) [
  | inl e ↦ rw e empty_props-IsValid
  | inr e ↦ rw e (apply_denylist-IsValid g.denylist p h)
]

context_changed_valid : (g : Ctx) → IsValid g → IsValid (flags_context_changed g)
unfolding flags_context_changed
context_changed_valid g v = record {
  id = v.id;
  super = v.super;
  members = v.members;
  person = v.person;
  scheduler = context_changed-IsValid g.reload v.scheduler;
  ring = v.ring;
  events = v.events;
}

pub woken : (q : Queue) → Ring.IsValid q → Ring.IsValid (wake q)
unfolding wake
woken q v = ground arith

auto_refresh-IsValid : (g : Ctx) → IsValid g → IsValid (auto_refresh g)
unfolding auto_refresh
auto_refresh-IsValid g v =
    by_cases IsValid g.enabled
      (λ on. record {
        id = v.id;
        super = v.super;
        members = v.members;
        person = v.person;
        scheduler = request_auto_refresh-IsValid g.reload v.scheduler;
        ring = woken g.queue v.ring;
        events = unfold wake in v.events;
      })
      (λ off. v)

pub identify_user-IsValid :
    (D : Doubles) (mono : ℕ) (did : Option Bytes) (p : Option Props) (g : Ctx)
    → TextFits did
    → AllValid p
    → IsValid g
    → IsValid (identify_user D mono did p g)
unfolding identify_user
identify_user-IsValid D mono none p g h hp v = v
identify_user-IsValid D mono (some []) p g h hp v =
    by_cases IsValid (not g.enabled || true) (λ off. v) (λ on. absurd (no g.enabled on))
  where
    no : (b : Bool) → (not b || true) ≡ false → ⊥
    no true e = cc
    no false e = cc
identify_user-IsValid D mono (some (b ∷ bs)) p g h hp v =
    let c = copied_capped distinct_id_cap (b ∷ bs) (omega arith) h (omega arith) in
    by_cases IsValid (not g.enabled || false) (λ off. v)
      (λ on. auto_refresh-IsValid _ (
        submit_event-IsValid D mono _ _ (
          context_changed_valid _ (record {
            id = c;
            super = v.super;
            members = v.members;
            person = flag_props-IsValid g p hp;
            scheduler = v.scheduler;
            ring = v.ring;
            events = v.events;
          }))))

pub alias_user-IsValid :
    (D : Doubles) (mono : ℕ) (new_id old_id : Option Bytes) (g : Ctx)
    → IsValid g
    → IsValid (alias_user D mono new_id old_id g)
unfolding alias_user
alias_user-IsValid D mono new_id old_id g v =
    by_cases IsValid (not g.enabled || not (non_empty new_id) || not (non_empty old_id)) (λ off. v)
      (λ on. submit_event-IsValid D mono _ g v)

pub reset-IsValid :
    (anon_id : Bytes) (g : Ctx)
    → All IsChar anon_id
    → 0 < length anon_id
    → IsValid g
    → IsValid (reset anon_id g)
unfolding reset
reset-IsValid anon_id g h n v =
    by_cases IsValid (not g.enabled) (λ off. v)
      (λ on. auto_refresh-IsValid _ (context_changed_valid (forgotten anon_id g) cleared))
  where
    cleared : IsValid (forgotten anon_id g)
    cleared = record {
      id = copied_capped distinct_id_cap anon_id (omega arith) h n;
      super = unfold empty_props in record { few = omega arith; fit = tt; unique = tt };
      members = record { few = omega arith; fit = tt; unique = tt };
      person = empty_props-IsValid;
      scheduler = v.scheduler;
      ring = v.ring;
      events = v.events;
    }

capped_text :
    (s : Option Bytes)
    → TextFits s
    → All IsChar (copy_capped key_cap s) × (length (copy_capped key_cap s) < key_cap)
unfolding copy_capped
capped_text none h = (tt, omega arith)
capped_text (some s) h = (All-take IsChar 47 s h, omega (arith, length-take 47 s))

context_after-IsValid : (b : Bool) (g : Ctx) → IsValid g → IsValid (context_after b g)
context_after-IsValid true g v = auto_refresh-IsValid _ (context_changed_valid g v)
context_after-IsValid false g v = v

with_group-IsValid : (new : Group) (g : Ctx) → Member new → IsValid g → IsValid (with_group new g)
with_group-IsValid new g m v =
    context_after-IsValid (join_group new g.groups).1
      (record g { groups = (join_group new g.groups).0 })
      (record {
        id = v.id;
        super = v.super;
        members = join_group-Members new g.groups m v.members;
        person = v.person;
        scheduler = v.scheduler;
        ring = v.ring;
        events = v.events;
      })

pub group_user-IsValid :
    (D : Doubles) (mono : ℕ) (type key : Option Bytes) (p : Option Props) (g : Ctx)
    → TextFits type
    → TextFits key
    → AllValid p
    → IsValid g
    → IsValid (group_user D mono type key p g)
unfolding group_user
group_user-IsValid D mono type key p g ht hk hp v =
    let t = capped_text type ht in
    let k = capped_text key hk in
    by_cases IsValid (not g.enabled || not (non_empty type) || not (non_empty key)) (λ off. v)
      (λ on. submit_event-IsValid D mono _ _ (
        with_group-IsValid (membership g type key p) g
          ((t.0, t.1, k.0, k.1), flag_props-IsValid g p hp) v))

with_super :
    (g : Ctx) (its : List Property)
    → Super its
    → IsValid g
    → IsValid (record g { super = record g.super { items = its } })
with_super g its s v = record {
  id = v.id;
  super = s;
  members = v.members;
  person = v.person;
  scheduler = v.scheduler;
  ring = v.ring;
  events = v.events;
}

pub register-IsValid :
    (p : Option Props) (g : Ctx) → AllValid p → IsValid g → IsValid (register p g)
unfolding register
register-IsValid none g h v = v
register-IsValid (some p) g h v =
    by_cases IsValid (not g.enabled) (λ off. v)
      (λ on. with_super g _ (register_items-Super p.items g.super.items h.fit v.super) v)

pub unregister-IsValid : (key : Option Bytes) (g : Ctx) → IsValid g → IsValid (unregister key g)
unfolding unregister
unregister-IsValid none g v = v
unregister-IsValid (some key) g v =
    by_cases IsValid (not g.enabled) (λ off. v)
      (λ on. with_super g _ (remove_first-Super key g.super.items v.super) v)
