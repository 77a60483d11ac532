-- ===== src/Sender.antt =====
-- The delivery of a batch in src/ph_native.c. What the platform does is a `World`: the answer of the
-- transport, the clocks, whether a wait is broken off, whether a record reaches the spill file. Each
-- question to it takes the next tick.
pub mod Bounds
pub mod Parts
pub mod Batches
pub mod Delivery
pub mod Account
mod Tests
use posthog_c.Base.{
  ℕ, zero, suc, ◌+◌, ◌-◌, ◌*◌, ◌/◌, ◌%◌, ◌^◌, Bool, true, false, not, ◌&&◌, ◌||◌, Option, none,
  some, List, [], ◌∷◌, ◌++◌, ltb, leb, ◌==◌, if◌then◌else◌, length, take, drop, Bytes, codes,
}
use posthog_c.Base.Int.{ℤ, pos, negsuc}
use posthog_c.Queue.{Event}
use posthog_c.Ratelimit.{Ratelimit, arm, blocked, note_response, is_status, default_backoff_ms}
use posthog_c.Time.{correct_wall_epoch}
use posthog_c.Core.{Ctx, evf_crash_replay}
use posthog_c.Serialize.{Platform, serialize_batch, has_flag}

-- The status of a POST and its `ph_send_meta`.
pub record Reply : Type 0 where
  pub status : ℤ
  pub retry_after : Option Bytes
  pub body : Bytes

-- `post` is `post_body`, `broken` the value of `sender_backoff_wait`, `spills` that of `offline_spill`,
-- and `expired` that of `shutdown_deadline_expired`.
pub record World : Type 0 where
  pub post : ℕ → Bytes → Reply
  pub mono : ℕ → ℕ
  pub wall : ℕ → ℕ
  pub broken : ℕ → Bool
  pub spills : ℕ → Bytes → Bool
  pub expired : ℕ → Bool

-- The context, the limiter, the bodies handed to the transport and those in the spill file, last first,
-- and how often a crash record was released.
pub record Sender : Type 0 where
  pub ctx : Ctx
  pub rl : Ratelimit
  pub posted : List Bytes
  pub spilled : List Bytes
  pub handoffs : ℕ
  pub tick : ℕ

-- `atomic_fetch_add` on a counter.
abbrev pub count : ℕ → ℕ → ℕ
count n k = (n + k) % 2 ^ 64

abbrev pub count_sent : ℕ → Sender → Sender
count_sent n s = record s { ctx = record s.ctx { st_sent = count s.ctx.st_sent n } }

abbrev pub count_failed : ℕ → Sender → Sender
count_failed n s = record s { ctx = record s.ctx { st_failed = count s.ctx.st_failed n } }

abbrev pub count_retry : Sender → Sender
count_retry s = record s { ctx = record s.ctx { st_retries = count s.ctx.st_retries 1 } }

-- `status >= lo && status < hi`
unfoldable pub in_range : ℕ → ℕ → ℤ → Bool
in_range lo hi (pos n) = leb lo n && ltb n hi
in_range lo hi (negsuc n) = false

abbrev pub is_accepted : ℤ → Bool
is_accepted status = in_range 200 300 status

-- `is_permanent_reject`
unfoldable pub is_permanent_reject : ℤ → Bool
is_permanent_reject status =
    in_range 400 500 status && not (is_status status 408) && not (is_status status 429)

-- Whether a string starts with another.
unfoldable pub is_prefix : Bytes → Bytes → Bool
is_prefix [] s = true
is_prefix (w ∷ word) [] = false
is_prefix (w ∷ word) (b ∷ s) = w == b && is_prefix word s

-- `strstr(s, word) != NULL`
unfoldable pub contains : Bytes → Bytes → Bool
contains word [] = is_prefix word []
contains word (b ∷ s) = let rest = contains word s in if is_prefix word (b ∷ s) then true else rest

-- `quota_limited_events`
unfoldable pub quota_limited_events : Bytes → Bool
quota_limited_events body =
    not (length body == 0)
    && contains (codes "quota_limited") body
    && contains (codes "\"events\"") body

abbrev pub next_tick : Sender → Sender
next_tick s = record s { tick = s.tick + 1 }

unfoldable pub hand_off : Bool → Sender → Sender
hand_off has_crash s = if has_crash then record s { handoffs = s.handoffs + 1 } else s

abbrev pub has_offline : Sender → Bool
has_offline s = not (length s.ctx.offline_path == 0)

-- Whether an event of the run replays a crash.
unfoldable pub has_crash_replay : List Event → Bool
has_crash_replay [] = false
has_crash_replay (e ∷ es) =
    let rest = has_crash_replay es in if has_flag e evf_crash_replay then true else rest

abbrev pub too_large : Sender → Bytes → Bool
too_large s body = ltb 0 s.ctx.max_batch_bytes && ltb s.ctx.max_batch_bytes (length body)

abbrev pub front : List Event → List Event
front es = take (length es / 2) es

abbrev pub back : List Event → List Event
back es = drop (length es / 2) es

module _ (W : World) where
  -- The limiter after an answer.
  unfoldable pub note_answer : Reply → ℕ → Ratelimit → Ratelimit
  note_answer r tick rl =
      if is_status r.status 429 || is_status r.status 503
      then (note_response rl r.status r.retry_after (W.mono tick) (W.wall tick)).0
      else if is_accepted r.status && quota_limited_events r.body
      then arm rl default_backoff_ms (W.mono tick)
      else rl

  -- `post_and_note`: the new state and the status.
  unfoldable pub post_and_note : Bytes → Sender → Sender × ℤ
  post_and_note body s =
      let r = W.post s.tick body in
      (
        record s {
          posted = body ∷ s.posted;
          rl = note_answer r (s.tick + 1) s.rl;
          tick = s.tick + 2;
        },
        r.status,
      )

  -- `ph_ratelimit_blocked(&g_ph.rl, ph_now_mono_ns())`
  unfoldable pub is_blocked : Sender → Bool
  is_blocked s = blocked s.rl (W.mono s.tick)

  -- The loop of `send_one` behind its first attempt: a wait, which a shutdown breaks off, and an attempt.
  -- `status` is that of the attempt before.
  unfoldable pub retries : ℕ → Bytes → Sender → ℤ → Sender × ℤ
  retries zero body s status = (s, status)
  retries (suc more) body s status =
      let waited = next_tick (count_retry s) in
      let (s', status') = post_and_note body waited in
      let rest = retries more body (next_tick s') status' in
      if is_accepted status || is_permanent_reject status || is_blocked s
      then (s, status)
      else if W.broken (next_tick s).tick
      then (waited, status)
      else rest

  -- The attempts of `send_one`.
  unfoldable pub attempts : Bytes → Sender → Sender × ℤ
  attempts body s =
      let (s', status) = post_and_note body s in retries s.ctx.max_retries body s' status

  -- A body that goes to the spill file, or counts as `n` failed events.
  unfoldable pub spill_or_fail : Bytes → ℕ → Bool → Sender → Sender
  spill_or_fail body n has_crash s =
      if W.spills s.tick body
      then hand_off has_crash (record (next_tick s) { spilled = body ∷ s.spilled })
      else count_failed n (next_tick s)

  -- `send_one` behind its loop.
  unfoldable pub settle : Bytes → ℕ → Bool → Sender → ℤ → Sender
  settle body n has_crash s status =
      if is_accepted status
      then hand_off has_crash (count_sent n s)
      else if is_permanent_reject status
      then count_failed n s
      else if has_offline s
      then spill_or_fail body n has_crash s
      else count_failed n s

  -- `send_one`: the new state, and whether the limiter holds.
  unfoldable pub send_one : Bytes → ℕ → Bool → Sender → Sender × Bool
  send_one body n has_crash s =
      let (s', status) = attempts body s in
      let done = settle body n has_crash s' status in (next_tick done, is_blocked done)

  -- `refresh_clock_epoch`
  unfoldable pub refresh_clock_epoch : Sender → Sender
  refresh_clock_epoch s = record s {
    ctx = record s.ctx {
      epoch_wall_ns =
          correct_wall_epoch s.ctx.epoch_wall_ns s.ctx.epoch_mono_ns (W.wall s.tick) (W.mono s.tick)
            1000000000;
    };
    tick = s.tick + 1;
  }

  module _ (P : Platform) where
    -- `persist_run`; a run of `fuel` events at most.
    unfoldable pub persist_run : ℕ → List Event → Sender → Sender
    persist_run zero es s = s
    persist_run (suc fuel) es s =
        let s1 = refresh_clock_epoch s in
        let body = serialize_batch P s1.ctx es in
        let first_half = persist_run fuel (front es) s1 in
        let both = persist_run fuel (back es) first_half in
        if not (has_offline s)
        then count_failed (length es) s
        else if too_large s1 body
        then if ltb 1 (length es) then both else count_failed 1 s1
        else spill_or_fail body (length es) (has_crash_replay es) s1

    -- `send_run`: the new state, and whether a response has armed the limiter.
    unfoldable pub send_run : ℕ → List Event → Sender → Sender × Bool
    send_run zero es s = (s, false)
    send_run (suc fuel) es s =
        let s0 = next_tick s in
        let s1 = refresh_clock_epoch s0 in
        let body = serialize_batch P s1.ctx es in
        let first_half = send_run fuel (front es) s1 in
        let held = persist_run fuel (back es) first_half.0 in
        let both = send_run fuel (back es) first_half.0 in
        if W.expired s.tick
        then (persist_run (suc fuel) es s0, false)
        else if too_large s1 body
        then if ltb 1 (length es)
          then if first_half.1 then (held, true) else both
          else (count_failed 1 s1, false)
        else send_one body (length es) (has_crash_replay es) s1
