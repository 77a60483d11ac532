-- ===== src/Reload/Run.antt =====
-- Every interleaving of hosts, identity changes and the sender on the reload scheduler of
-- src/ph_flags.c: `g_ph.lock` makes each call one step.
use posthog_c.Base.{
  ℕ, ◌<◌, ◌≡◌, inl, inr, refl, sym, subst, true, false, ◌||◌, Option, none, some, List, [], ◌∷◌,
  ◌==◌, All, arith, Bool-cases, Option-cases,
}
use posthog_c.Reload.{
  ReloadStatus, Reload, is_pending, job_of, cancel, schedule, keep_queued, context_changed,
  request_auto_refresh, take_fetch, finish, complete_fetch, abort_ticket, abort_pending,
  reload_async, bump, init,
}
use posthog_c.Reload.Valid.{
  serves, Served, IsJob, IsFor, IsValid, bump_pos, bump-ne, All_weaken, alloc_record-Unique,
  All-alloc_record,
}
use posthog_c.Reload.Steps.{
  map-Unique, mark_superseded-map, supersede, superseded_Served, aborted_Served, mark-Unique,
  mark-Served,
}

-- What `schedule` leaves: a valid scheduler in which the id that it returns has a job.
record Scheduled (r : Reload) (s : Reload × ℕ) : Type 0 where
  valid : IsValid s.0
  same_context : s.0.context_gen ≡ r.context_gen
  id_pos : 0 < s.1
  has_job : (serves s.0.queued s.1 || serves s.0.inflight s.1) ≡ true

found_job :
    (o : Option (ℕ × ℕ)) (gen id : ℕ)
    → job_of o gen ≡ some id
    → IsJob o
    → (serves o id ≡ true) × (0 < id)
found_job none gen id e h = cc
found_job (some (i, g)) gen id e h = ground arith

no_job : (o : Option (ℕ × ℕ)) (gen : ℕ) → job_of o gen ≡ none → IsFor gen o → o ≡ none
no_job none gen e h = refl
no_job (some (i, g)) gen e h = ground arith

schedule_queues :
    (r : Reload) (q : Option (ℕ × ℕ))
    → r.queued ≡ q
    → q ≡ none
    → IsValid r
    → Scheduled r (
      record r {
        last_id = bump r.last_id;
        history = cancel q r.history;
        queued = some (bump r.last_id, r.context_gen);
      },
      bump r.last_id,
    )
schedule_queues r none e n v = record {
  valid = record {
    tickets =
        All_weaken (Served r.queued r.inflight r.context_gen)
          (Served (some (bump r.last_id, r.context_gen)) r.inflight r.context_gen)
          (λ t h. record { current = h.current; job = λ live. ground (arith, h.job live, e) })
          r.history v.tickets;
    unique = v.unique;
    queued_id = bump_pos r.last_id;
    inflight_id = v.inflight_id;
    queued_current = refl;
  };
  same_context = refl;
  id_pos = bump_pos r.last_id;
  has_job = ground arith;
}
schedule_queues r (some job) e n v = cc

schedule-Scheduled : (r : Reload) → IsValid r → Scheduled r (schedule r.context_gen r)
unfolding schedule
schedule-Scheduled r v = elim (Option-cases (job_of r.inflight r.context_gen)) [
  | inr (id, e) ↦
      let j = found_job r.inflight r.context_gen id e v.inflight_id in
      rw (e, schedule)
        (record { valid = v; same_context = refl; id_pos = j.1; has_job = ground (arith, j.0) })
  | inl e ↦ elim (Option-cases (job_of r.queued r.context_gen)) [
    | inr (id, e') ↦
        let j = found_job r.queued r.context_gen id e' v.queued_id in
        rw (e, schedule, e')
          (record { valid = v; same_context = refl; id_pos = j.1; has_job = ground (arith, j.0) })
    | inl e' ↦
        rw (e, schedule, e')
          (schedule_queues r r.queued refl (no_job r.queued r.context_gen e' v.queued_current) v)
  ]
]

pub context_changed-IsValid : (r : Reload) → IsValid r → IsValid (context_changed r)
unfolding context_changed
context_changed-IsValid r v =
    let gen = bump r.context_gen in
    record {
      tickets = rw (mark_superseded-map gen r.history) (
          superseded_Served r.queued r.inflight r.context_gen gen (keep_queued r.queued gen)
            r.inflight (λ e. bump-ne r.context_gen (sym e)) r.history v.tickets);
      unique =
          rw (mark_superseded-map gen r.history)
            (map-Unique (supersede gen) (λ t. ground arith) r.history v.unique);
      queued_id = kept_id r.queued gen v.queued_id;
      inflight_id = v.inflight_id;
      queued_current = kept_for r.queued gen;
    }
  where
    kept_id : (q : Option (ℕ × ℕ)) (gen : ℕ) → IsJob q → IsJob (keep_queued q gen)
    kept_id none gen h = tt
    kept_id (some (id, g)) gen h = elim (Bool-cases (g == gen)) [ inl e ↦ rw e h | inr e ↦ rw e tt ]

    kept_for : (q : Option (ℕ × ℕ)) (gen : ℕ) → IsFor gen (keep_queued q gen)
    kept_for none gen = tt
    kept_for (some (id, g)) gen = elim (Bool-cases (g == gen)) [
      | inl e ↦ rw e (ground arith)
      | inr e ↦ rw e tt
    ]

pub request_auto_refresh-IsValid : (r : Reload) → IsValid r → IsValid (request_auto_refresh r)
unfolding request_auto_refresh
request_auto_refresh-IsValid r v = (schedule-Scheduled r v).valid

pub take_fetch-IsValid : (r : Reload) → IsValid r → IsValid (take_fetch r).0
unfolding take_fetch
take_fetch-IsValid r v = elim (Option-cases r.inflight) [
  | inr (job, e) ↦ rw (e, take_fetch) v
  | inl e ↦ elim (Option-cases r.queued) [
    | inl q ↦ rw (e, take_fetch, q) v
    | inr (job, q) ↦
        rw (e, take_fetch, q)
          (record {
            tickets =
                All_weaken (Served r.queued r.inflight r.context_gen)
                  (Served none (some job) r.context_gen)
                  (λ t h. record {
                    current = h.current;
                    job = λ live. ground (arith, h.job live, e, q);
                  })
                  r.history v.tickets;
            unique = v.unique;
            queued_id = tt;
            inflight_id = subst IsJob q v.queued_id;
            queued_current = tt;
          })
  ]
]

pub complete_fetch-IsValid :
    (r : Reload) (id : ℕ) (status : ReloadStatus)
    → is_pending status ≡ false
    → 0 < id
    → IsValid r
    → IsValid (complete_fetch id status r)
unfolding complete_fetch
complete_fetch-IsValid r id status done pos v = record {
  tickets =
      mark-Served r.queued r.inflight r.context_gen id status r.history done pos v.unique v.tickets;
  unique = mark-Unique id status r.history v.unique;
  queued_id = v.queued_id;
  inflight_id = finished r.inflight v.inflight_id;
  queued_current = v.queued_current;
}
  where
    finished : (f : Option (ℕ × ℕ)) → IsJob f → IsJob (finish f id)
    finished none h = tt
    finished (some (j, g)) h = elim (Bool-cases (j == id)) [ inl e ↦ rw e tt | inr e ↦ rw e h ]

abort_pending-IsValid : (r : Reload) → IsValid r → IsValid (abort_pending r)
unfolding abort_pending
abort_pending-IsValid r v = record {
  tickets = aborted_Served r.context_gen none none r.history;
  unique = map-Unique abort_ticket (λ t. ground arith) r.history v.unique;
  queued_id = tt;
  inflight_id = tt;
  queued_current = tt;
}

reload_async-IsValid : (r : Reload) → IsValid r → IsValid (reload_async r).0
unfolding reload_async
reload_async-IsValid r v =
    let s = schedule-Scheduled r v in
    let r' = (schedule r.context_gen r).0 in
    let id = (schedule r.context_gen r).1 in
    record {
      tickets =
          All-alloc_record (Served r'.queued r'.inflight r'.context_gen) id r.context_gen r'.history
            s.valid.tickets
            (record { current = λ live. sym s.same_context; job = λ live. s.has_job });
      unique = alloc_record-Unique id r.context_gen r'.history s.id_pos s.valid.unique;
      queued_id = s.valid.queued_id;
      inflight_id = s.valid.inflight_id;
      queued_current = s.valid.queued_current;
    }

-- A call on the scheduler; `completes` is the sender's, with the outcome of the fetch.
pub data Op : Type 0 where
  changes : Op
  refreshes : Op
  reloads : Op
  takes : Op
  completes : ℕ → ReloadStatus → Op
  aborts : Op

unfoldable pub step : Reload → Op → Reload
step r changes = context_changed r
step r refreshes = request_auto_refresh r
step r reloads = (reload_async r).0
step r takes = (take_fetch r).0
step r (completes id status) = complete_fetch id status r
step r aborts = abort_pending r

-- A fetch never ends as pending, and no request has the id 0.
abbrev pub OpFits : Op → Type 0
OpFits (completes id status) = (is_pending status ≡ false) × (0 < id)
OpFits _ = Unit

unfoldable pub run : Reload → List Op → Reload
run r [] = r
run r (op ∷ ops) = run (step r op) ops

step-IsValid : (r : Reload) (op : Op) → OpFits op → IsValid r → IsValid (step r op)
unfolding step request_auto_refresh
step-IsValid r changes h v = context_changed-IsValid r v
step-IsValid r refreshes h v = request_auto_refresh-IsValid r v
step-IsValid r reloads h v = reload_async-IsValid r v
step-IsValid r takes h v = take_fetch-IsValid r v
step-IsValid r (completes id status) (done, pos) v = complete_fetch-IsValid r id status done pos v
step-IsValid r aborts h v = abort_pending-IsValid r v

run-IsValid : (ops : List Op) (r : Reload) → All OpFits ops → IsValid r → IsValid (run r ops)
unfolding run
run-IsValid [] r h v = v
run-IsValid (op ∷ ops) r (h, hs) v = run-IsValid ops (step r op) hs (step-IsValid r op h v)

pub init-IsValid : (last : ℕ) → IsValid (init last)
unfolding init
init-IsValid last = record {
  tickets = ground arith;
  unique = ground arith;
  queued_id = tt;
  inflight_id = tt;
  queued_current = tt;
}

-- No caller of ph_reload_feature_flags is stranded: after any interleaving of context changes, refreshes,
-- reload requests, takes and completions of the sender and aborts, every ticket that is still pending
-- is for the current context, and its request is the queued job or the one in flight.
pub run-Served :
    (last : ℕ) (ops : List Op)
    → All OpFits ops
    → let r = run (init last) ops in
      All (Served r.queued r.inflight r.context_gen) r.history × IsFor r.context_gen r.queued
run-Served last ops h =
    let v = run-IsValid ops (init last) h (init-IsValid last) in (v.tickets, v.queued_current)
