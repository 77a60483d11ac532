-- ===== src/Reload/Tests.antt =====
-- A reload that an identity change overtakes, and the theorem at that run.
use posthog_c.Base.{◌≡◌, refl, some, List, [], ◌∷◌, All, arith}
use posthog_c.Reload.{
  Reload, init, schedule, alloc_record, pick_slot, reload_async, context_changed, mark_superseded,
  take_fetch, complete_fetch, mark, bump, find_record, reload_status, success, superseded, pending,
}
use posthog_c.Reload.Valid.{Served, IsFor}
use posthog_c.Reload.Run.{Op, reloads, takes, changes, completes, step, run, run-Served}

abbrev overtaken : List Op
overtaken = reloads ∷ takes ∷ changes ∷ reloads ∷ completes 8 success ∷ takes ∷ []

last_reload : Reload
unfolding run step init reload_async schedule alloc_record pick_slot bump take_fetch context_changed
    mark_superseded complete_fetch mark
last_reload = run (init 7) overtaken

-- The first request is superseded although its fetch succeeds; the second is in flight.
first_superseded : reload_status 8 last_reload ≡ superseded
unfolding last_reload reload_status find_record
first_superseded = refl

second_pending : (reload_status 9 last_reload ≡ pending) × (last_reload.inflight ≡ some (9, 2))
unfolding last_reload reload_status find_record
second_pending = (refl, refl)

run-Served_example :
    let r = run (init 7) overtaken in
    All (Served r.queued r.inflight r.context_gen) r.history × IsFor r.context_gen r.queued
run-Served_example = run-Served 7 overtaken (ground arith)
