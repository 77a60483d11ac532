-- ===== src/Core/Submit.antt =====
-- ph__submit_event of src/ph_core.c and its helpers. The monotonic clock is an argument.
use posthog_c.Base.{
  ℕ, ◌+◌, ◌-◌, ◌%◌, ◌^◌, Bool, true, false, not, ◌||◌, Option, none, some, List, [], ◌∷◌, ◌++◌,
  length, take, Bytes, ltb, leb, if◌then◌else◌, bit_or, min,
}
use posthog_c.Props.{Props}
use posthog_c.Props.Pack.{pack_str_entry, pack_props, type_group}
use posthog_c.Props.Util.{props_merge}
use posthog_c.Queue.{Queue, Event, push, wake}
use posthog_c.Core.{
  Result, ok, disabled, rate_limited, PersonProfiles, identified_only, always, never, EventKind,
  capture, exception, kind_code, evf_no_profile, evf_has_did, Doubles, Bucket, Group, Ctx,
  event_name_cap, distinct_id_cap, event_data_cap,
}

-- `bounded_event_name_len`
unfoldable pub bounded_event_name_len : Bytes → ℕ
bounded_event_name_len name = min event_name_cap (length name)

-- `copy_capture_event_name`: the accepted name, and whether it was cut.
unfoldable pub copy_capture_event_name : Bytes → Bytes × Bool
copy_capture_event_name name =
    let n = bounded_event_name_len name in
    (take (if ltb n event_name_cap then n else event_name_cap - 1) name, leb event_name_cap n)

abbrev pub is_limited : EventKind → Bool
is_limited capture = true
is_limited exception = true
is_limited _ = false

module _ (D : Doubles) where
  -- The bucket after the refill of `rate_limit_admit`.
  unfoldable pub refill : ℕ → Bucket → Bucket
  refill mono b =
      let d = mono - b.last_mono in
      let tokens = D.add b.tokens (D.mul (D.div (D.of_nat d) (D.of_nat 1000000000)) b.rate) in
      record b { last_mono = mono; tokens = if D.lt b.burst tokens then b.burst else tokens }

  -- `rate_limit_admit`
  unfoldable pub rate_limit_admit : EventKind → ℕ → Bucket → Bucket × Bool
  rate_limit_admit kind mono b =
      let full = refill mono b in
      if D.le b.rate (D.of_nat 0) || not (is_limited kind)
      then (b, true)
      else if D.lt full.tokens (D.of_nat 1)
      then (record full { dropped = (b.dropped + 1) % 2 ^ 64 }, false)
      else (record full { tokens = D.sub full.tokens (D.of_nat 1) }, true)

-- `profile_mode`: -1, 0 and 1.
pub data ProfileMode : Type 0 where
  derive profile anonymous : ProfileMode

-- `derive_no_profile`
unfoldable pub derive_no_profile : PersonProfiles → Bool → ProfileMode → Bool
derive_no_profile never identified mode = true
derive_no_profile identified_only identified derive = not identified
derive_no_profile always identified derive = false
derive_no_profile _ identified anonymous = true
derive_no_profile _ identified profile = false

-- The entries of the groups, each where it fits in what is left.
unfoldable pub pack_groups : ℕ → List Group → Bytes
pack_groups cap [] = []
pack_groups cap (g ∷ gs) =
    let e = pack_str_entry cap type_group (some g.type) (some g.key) in
    e ++ pack_groups (cap - length e) gs

-- The arguments of `ph__submit_event`; `extra` is empty where it is NULL.
pub record Submission : Type 0 where
  pub kind : EventKind
  pub base_flags : ℕ
  pub name : Bytes
  pub did_override : Option Bytes
  pub props : Option Props
  pub profile_mode : ProfileMode
  pub stamp : Bool
  pub extra : Bytes

abbrev pub id_of : Ctx → Option Bytes → Bytes
id_of g none = g.distinct_id
id_of g (some []) = g.distinct_id
id_of g (some (b ∷ bs)) = b ∷ bs

-- What is copied of the name and of the id.
abbrev pub name_part : Bytes → Bytes
name_part name =
    take (min (min (bounded_event_name_len name) (event_name_cap - 1)) event_data_cap) name

abbrev pub did_part : ℕ → Bytes → Bytes
did_part name_len did =
    take (min (min (length did) (distinct_id_cap - 1)) (event_data_cap - name_len)) did

-- The blob, in the `cap` bytes behind the name and the id.
unfoldable pub blob_of : Ctx → ℕ → Submission → Bytes
blob_of g cap s =
    let extra = if leb (length s.extra) cap then s.extra else [] in
    let room = cap - length extra in
    let given = if s.stamp then some (props_merge s.props (some g.super)) else s.props in
    let scalars = pack_props room given in
    extra ++ (scalars ++ (if s.stamp then pack_groups (room - length scalars) g.groups else []))

abbrev pub event_name : Submission → Bytes
event_name s = name_part s.name

abbrev pub event_did : Ctx → Submission → Bytes
event_did g s = did_part (length (event_name s)) (id_of g s.did_override)

-- The slot that a submission fills.
unfoldable pub event_of : Ctx → ℕ → Submission → Event
unfolding bounded_event_name_len
event_of g mono s =
    let name = event_name s in
    let did = event_did g s in
    let blob = blob_of g (event_data_cap - (length name + length did)) s in
    record {
      kind = kind_code s.kind;
      flags =
          bit_or s.base_flags (
            bit_or evf_has_did (
              if derive_no_profile g.person_profiles g.identified s.profile_mode
              then evf_no_profile
              else 0))
          % 256;
      name_len = length name % 2 ^ 16;
      did_len = length did % 2 ^ 16;
      blob_len = length blob % 2 ^ 16;
      mono_ns = mono;
      epoch_wall_ns = g.epoch_wall_ns;
      epoch_mono_ns = g.epoch_mono_ns;
      seq = g.seq;
      bytes = name ++ (did ++ blob);
    }

-- The wake of the sender, where the ring holds `flush_at` events.
abbrev pub wake_at : ℕ → Queue → Queue
wake_at flush_at q = if leb flush_at (q.size) then wake q else q

-- The sequence number is taken before the bucket is asked.
abbrev pub refused_ctx : Doubles → ℕ → Submission → Ctx → Ctx
refused_ctx D mono s g = record g {
  bucket = (rate_limit_admit D s.kind mono g.bucket).0;
  seq = (g.seq + 1) % 2 ^ 64;
}

abbrev pub queued_ctx : Doubles → ℕ → Submission → Ctx → Ctx
queued_ctx D mono s g = record (refused_ctx D mono s g) {
  queue = wake_at g.flush_at (push (λ old. event_of g mono s) g.queue);
}

-- The part of `ph__submit_event` behind the argument checks.
abbrev pub submit_locked : Doubles → ℕ → Submission → Ctx → Ctx × Result
submit_locked D mono s g =
    if (rate_limit_admit D s.kind mono g.bucket).1
    then (queued_ctx D mono s g, ok)
    else (refused_ctx D mono s g, rate_limited)

-- `ph__submit_event` with a name that is not NULL.
unfoldable pub submit_event : Doubles → ℕ → Submission → Ctx → Ctx × Result
submit_event D mono s g = if not g.enabled then (g, disabled) else submit_locked D mono s g
