-- ===== src/Core/Tests.antt =====
-- The theorems on src/ph_core.c at a small instance.
use posthog_c.Base.{
  ◌+◌, ◌%◌, ◌^◌, ◌≡◌, refl, true, ◌||◌, none, some, List, [], ◌∷◌, ltb, leb, length, take, bytes_eq,
  codes, arith, if◌then◌else◌,
}
use posthog_c.Base.Int.{pos}
use posthog_c.Props.{Property, Props, int, max_props, key_cap}
use posthog_c.Props.Util.{has_key}
use posthog_c.Queue.Refine.{view}
use posthog_c.Reload.Run as Scheduler
use posthog_c.Reload.{success}
use posthog_c.Core.{copy_capped, ok, truncated, Ctx, event_name_cap}
use posthog_c.Core.Config.{
  Config, config_defaults, validate_config, init, strings_ok, policy_ok, numbers_ok, denylist_ok,
  string_over_cap, def_int,
}
use posthog_c.Core.Submit.{event_of, refill, rate_limit_admit, submit_event, blob_of}
use posthog_c.Core.Api.{captured, capture_event, dropped_events, register_item, group_user}
use posthog_c.Core.Blob.{EventFits, event_of_lem, name_of, did_of, blob_bytes, room_of}
use posthog_c.Core.Super.{lookup, register_item_lem}
use posthog_c.Core.Groups.{has_type, Placed, group_user_lem}
use posthog_c.Core.Valid.{IsValid}
use posthog_c.Core.Account.{Stored, counted, submit_event-counts, capture_event_lem}
use posthog_c.Core.Run.{
  Call, captures, identifies, joins, registers, resets, pops, takes, completes, run, run-IsValid,
}
use posthog_c.Core.Sample.{whole, small}
use posthog_c.Core.Order.{Extends, total_leaving, run-Extends}

abbrev settings : Config
settings = record config_defaults {
  api_key = some (codes "phc_key");
  distinct_id = some (codes "install-1");
  max_queue = pos 8;
}

settings_accepted : validate_config (some settings) ≡ ok
unfolding validate_config strings_ok policy_ok numbers_ok denylist_ok string_over_cap def_int
    bytes_eq
settings_accepted = refl

abbrev some_props : Props
some_props = record { items = record { key = codes "level"; value = int 3 } ∷ []; dropped = 0 }

abbrev some_calls : List Call
some_calls =
    captures 5 (some (codes "start")) (some some_props)
    ∷ identifies 6 (some (codes "user-7")) (some some_props)
    ∷ joins 7 (some (codes "guild")) (some (codes "g1")) none
    ∷ registers (some some_props)
    ∷ pops 2
    ∷ takes
    ∷ completes 1 success
    ∷ resets (codes "anon")
    ∷ []

run-IsValid_example :
    (g : Ctx) × (init whole settings 1000 10 99 0 true true ≡ (some g, ok))
    × IsValid (run whole g some_calls)
run-IsValid_example =
    run-IsValid whole settings 1000 10 99 0 some_calls settings_accepted refl (ground arith)
      (ground arith)

small-IsValid : IsValid small
unfolding has_key has_type
small-IsValid = record {
  id = ground arith;
  super = record { few = omega arith; fit = ground arith; unique = (refl, tt) };
  members = record { few = omega arith; fit = ground arith; unique = (refl, tt) };
  person = record { few = omega arith; fit = tt };
  scheduler = Scheduler.init-IsValid 0;
  ring = ground arith;
  events = tt;
}

run-Extends_example :
    Extends
      (total_leaving whole small some_calls)
      (view small.queue).events
      (view (run whole small some_calls).queue).events
run-Extends_example = run-Extends whole some_calls small (ground arith) small-IsValid

event_of_lem_example :
    let s = captured (codes "start") (some some_props) in
    let e = event_of small 5 s in
    EventFits e
    × (name_of e ≡ take 127 s.name)
    × (did_of e ≡ take 127 (codes "install-1"))
    × (blob_bytes e ≡ blob_of small (room_of small s) s)
event_of_lem_example = event_of_lem small 5 (captured (codes "start") (some some_props))

capture_event_lem_example :
    let r = capture_event whole 5 (some (codes "start")) (some some_props) small in
    Stored small r.0 (codes "start") (some some_props)
    × (r.1 ≡ (if leb event_name_cap (length (codes "start")) then truncated else ok))
capture_event_lem_example =
    capture_event_lem whole 5 b's' (codes "tart") (some some_props) small small-IsValid
      (ground arith) refl (unfold rate_limit_admit refill in refl)

submit_event-counts_example :
    let g' = (submit_event whole 5 (captured (codes "start") none) small).0 in
    counted g' ≡ (small.queue.size + dropped_events small + 1) % 2 ^ 64
submit_event-counts_example =
    submit_event-counts whole 5 (captured (codes "start") none) small small-IsValid refl refl

abbrev level : Property
level = record { key = codes "level"; value = int 3 }

register_item_lem_example : lookup (register_item level small.super.items) (codes "level") ≡ (
    if has_key small.super.items (codes "level") || ltb (length small.super.items) max_props
    then (if bytes_eq (codes "level") (codes "level")
        then some level
        else lookup small.super.items (codes "level"))
    else lookup small.super.items (codes "level"))
register_item_lem_example = register_item_lem level small.super.items (codes "level")

group_user_lem_example :
    Placed small
      (copy_capped key_cap (some (codes "guild")))
      (copy_capped key_cap (some (codes "g2")))
      (group_user whole 7 (some (codes "guild")) (some (codes "g2")) none small)
group_user_lem_example = group_user_lem whole 7 b'g' b'g' (codes "uild") (codes "2") none small refl
