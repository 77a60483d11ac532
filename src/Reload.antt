-- ===== src/Reload.antt =====
-- The scheduling of flag reloads in src/ph_flags.c: the part of `ph_ctx` behind the helpers named
-- `_locked`, and the calls that take the lock for one step each. A job that is queued or in flight is
-- named by the request id that it was given.
pub mod Valid
pub mod Steps
pub mod Run
mod Tests
use posthog_c.Base.{
  ℕ, zero, suc, ◌+◌, ◌%◌, ◌^◌, Bool, true, false, not, ◌&&◌, Option, none, some, List, [], ◌∷◌, ltb,
  ◌==◌, if◌then◌else◌, set, map,
}

-- `ph_feature_flag_reload_status`
pub data ReloadStatus : Type 0 where
  unknown pending success failed superseded : ReloadStatus

abbrev pub is_pending : ReloadStatus → Bool
is_pending pending = true
is_pending _ = false

-- `ph_flag_reload_record`; the id 0 marks a free slot.
pub record Ticket : Type 0 where
  pub request_id : ℕ
  pub context_gen : ℕ
  pub status : ReloadStatus

-- `last_id` is `g_reload_request_id`; `queued` and `inflight` are the request id and context generation
-- of the two jobs, where `flags_refetch` and `flags_fetch_inflight` are set.
pub record Reload : Type 0 where
  pub last_id : ℕ
  pub context_gen : ℕ
  pub history : List Ticket
  pub queued : Option (ℕ × ℕ)
  pub inflight : Option (ℕ × ℕ)

-- `reload_record_locked`
unfoldable pub find_record : ℕ → List Ticket → Option Ticket
find_record id [] = none
find_record id (t ∷ ts) =
    let rest = find_record id ts in if t.request_id == id then some t else rest

pub data Slot : Type 0 where
  existing : ℕ → Slot
  reuse : ℕ → Slot
  nowhere : Slot

abbrev pub best_slot : Option (ℕ × ℕ) → Slot
best_slot none = nowhere
best_slot (some (j, id)) = reuse j

-- Whether a ticket may give way, and before the best one so far.
abbrev pub gives_way : Ticket → Option (ℕ × ℕ) → Bool
gives_way t none = not (is_pending t.status)
gives_way t (some (j, id)) = not (is_pending t.status) && ltb t.request_id id

-- The loop of `alloc_reload_record_locked` from slot `i` on; `best` is its `slot`, with that one's id.
unfoldable pub pick_slot : ℕ → ℕ → Option (ℕ × ℕ) → List Ticket → Slot
pick_slot id i best [] = best_slot best
pick_slot id i best (t ∷ ts) =
    let rest =
      pick_slot id (suc i) (if gives_way t best then some (i, t.request_id) else best) ts in
    if t.request_id == id then existing i else if t.request_id == 0 then reuse i else rest

-- The new history, and whether there is a record.
unfoldable pub alloc_record : ℕ → ℕ → List Ticket → List Ticket × Bool
alloc_record id gen ts = elim (pick_slot id 0 none ts) [
  | existing i ↦ (ts, true)
  | reuse i ↦ (set ts i (record { request_id = id; context_gen = gen; status = pending }), true)
  | nowhere ↦ (ts, false)
]

-- `mark_reload_locked`: the first ticket of that id, where it is pending.
unfoldable pub mark : ℕ → ReloadStatus → List Ticket → List Ticket
mark id status [] = []
mark id status (t ∷ ts) =
    let rest = mark id status ts in
    if t.request_id == id
    then (if is_pending t.status then record t { status = status } else t) ∷ ts
    else t ∷ rest

-- The loop of `mark_context_superseded_locked`.
unfoldable pub mark_superseded : ℕ → List Ticket → List Ticket
mark_superseded gen [] = []
mark_superseded gen (t ∷ ts) =
    (if not (t.request_id == 0) && is_pending t.status && not (t.context_gen == gen)
      then record t { status = superseded }
      else t)
    ∷ mark_superseded gen ts

-- A `uint64_t` counter that skips 0.
unfoldable pub bump : ℕ → ℕ
bump n = let next = (n + 1) % 2 ^ 64 in if next == 0 then 1 else next

abbrev pub job_of : Option (ℕ × ℕ) → ℕ → Option ℕ
job_of none gen = none
job_of (some (id, g)) gen = if g == gen then some id else none

abbrev pub cancel : Option (ℕ × ℕ) → List Ticket → List Ticket
cancel none ts = ts
cancel (some (id, g)) ts = mark id superseded ts

-- `schedule_reload_locked`
unfoldable pub schedule : ℕ → Reload → Reload × ℕ
schedule gen r = elim (job_of r.inflight gen) [
  | some id ↦ (r, id)
  | none ↦ elim (job_of r.queued gen) [
    | some id ↦ (r, id)
    | none ↦
        let id = bump r.last_id in
        (
          record r { last_id = id; history = cancel r.queued r.history; queued = some (id, gen) },
          id,
        )
  ]
]

abbrev pub keep_queued : Option (ℕ × ℕ) → ℕ → Option (ℕ × ℕ)
keep_queued none gen = none
keep_queued (some (id, g)) gen = if g == gen then some (id, g) else none

-- `ph__flags_context_changed_locked`, less the flag cache.
unfoldable pub context_changed : Reload → Reload
context_changed r =
    let gen = bump r.context_gen in
    record r {
      context_gen = gen;
      history = mark_superseded gen r.history;
      queued = keep_queued r.queued gen;
    }

-- `ph__flags_request_auto_refresh` on an enabled instance, less the wake.
unfoldable pub request_auto_refresh : Reload → Reload
request_auto_refresh r = (schedule r.context_gen r).0

-- `ph__flags_take_fetch`: the job that the sender is to run.
unfoldable pub take_fetch : Reload → Reload × Option (ℕ × ℕ)
take_fetch r = elim r.inflight [
  | some job ↦ (r, none)
  | none ↦ elim r.queued [
    | none ↦ (r, none)
    | some job ↦ (record r { inflight = some job; queued = none }, some job)
  ]
]

abbrev pub finish : Option (ℕ × ℕ) → ℕ → Option (ℕ × ℕ)
finish none id = none
finish (some (i, g)) id = if i == id then none else some (i, g)

-- `ph__flags_complete_fetch`
unfoldable pub complete_fetch : ℕ → ReloadStatus → Reload → Reload
complete_fetch id status r = record r {
  inflight = finish r.inflight id;
  history = mark id status r.history;
}

abbrev pub abort_ticket : Ticket → Ticket
abort_ticket t =
    if not (t.request_id == 0) && is_pending t.status then record t { status = failed } else t

-- `ph__flags_abort_pending`
unfoldable pub abort_pending : Reload → Reload
abort_pending r = record r { history = map abort_ticket r.history; queued = none; inflight = none }

-- `ph__flags_reload_async` on an enabled instance with its sender: `none` is PH_ERR_FULL.
unfoldable pub reload_async : Reload → Reload × Option ℕ
reload_async r =
    let (r', id) = schedule r.context_gen r in
    let (ts, found) = alloc_record id r.context_gen r'.history in
    (record r' { history = ts }, if found then some id else none)

-- `ph__flags_reload_status` on an enabled instance.
unfoldable pub reload_status : ℕ → Reload → ReloadStatus
reload_status id r =
    if id == 0
    then unknown
    else elim (find_record id r.history) [ none ↦ unknown | some t ↦ t.status ]

abbrev free_ticket : Ticket
free_ticket = record { request_id = 0; context_gen = 0; status = unknown }

-- The zeroed history of `ph_init`, with the id counter of an earlier life of the instance.
unfoldable pub init : ℕ → Reload
init last_id = record {
  last_id = last_id;
  context_gen = 1;
  history =
      free_ticket ∷ free_ticket ∷ free_ticket ∷ free_ticket ∷ free_ticket ∷ free_ticket
      ∷ free_ticket ∷ free_ticket ∷ [];
  queued = none;
  inflight = none;
}
