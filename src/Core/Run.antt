-- ===== src/Core/Run.antt =====
-- Any sequence of host calls and sender steps on an instance of src/ph_core.c, from ph_init on.
use posthog_c.Base.{
  ℕ, zero, suc, ◌≤◌, ◌<◌, ◌≡◌, refl, sym, ap, ◌∙◌, subst, Bool, true, false, not, ◌||◌, ◌&&◌,
  Option, none, some, List, [], ◌∷◌, ltb, length, Bytes, arith, All, IsChar, drop, length-take,
  All-take,
}
use posthog_c.Base.Int.{pos}
use posthog_c.Props.{Props, empty_props}
use posthog_c.Props.Laws.{AllValid, TextFits}
use posthog_c.Queue.{Event, Queue, pop_batch}
use posthog_c.Queue as Ring
use posthog_c.Queue.Valid.{pop_batch-IsValid, init-IsValid}
use posthog_c.Queue.Refine.{view, collect, pop_batch_refines}
use posthog_c.Queue.Spec as Spec
use posthog_c.Reload.{Reload, ReloadStatus, is_pending, take_fetch, complete_fetch}
use posthog_c.Reload.Run.{take_fetch-IsValid, complete_fetch-IsValid}
use posthog_c.Reload.Run as Fetches
use posthog_c.Reload.Valid as Scheduler
use posthog_c.Time.{correct_wall_epoch}
use posthog_c.Core.{ok, Doubles, Ctx, distinct_id_cap, copy_capped, non_empty}
use posthog_c.Core.Config.{
  Config, validate_config, fresh_ctx, with_queue, if_ok, start, init, strings_ok, string_over_cap,
  host_ok, host_of, long_setting, numbers_ok, config_max_queue, def_int,
}
use posthog_c.Core.Valid.{
  IsValid, IsId, Queued, capture_event-IsValid, identify_user-IsValid, alias_user-IsValid,
  group_user-IsValid, register-IsValid, unregister-IsValid, reset-IsValid,
}
use posthog_c.Core.Api.{
  capture_event, identify_user, alias_user, reset, group_user, register, unregister,
}

-- A call of the host, with the tick that it reads, or a step of the sender: a batch that it takes, a
-- fetch that it takes and completes, a correction of the clock epoch.
pub data Call : Type 0 where
  captures : ℕ → Option Bytes → Option Props → Call
  identifies : ℕ → Option Bytes → Option Props → Call
  aliases : ℕ → Option Bytes → Option Bytes → Call
  joins : ℕ → Option Bytes → Option Bytes → Option Props → Call
  registers : Option Props → Call
  unregisters : Option Bytes → Call
  resets : Bytes → Call
  pops : ℕ → Call
  takes : Call
  completes : ℕ → ReloadStatus → Call
  corrects : ℕ → ℕ → ℕ → Call

unfoldable pub step : Doubles → Ctx → Call → Ctx
step D g (captures mono name props) = (capture_event D mono name props g).0
step D g (identifies mono did props) = identify_user D mono did props g
step D g (aliases mono new_id old_id) = alias_user D mono new_id old_id g
step D g (joins mono type key props) = group_user D mono type key props g
step D g (registers props) = register props g
step D g (unregisters key) = unregister key g
step D g (resets anon_id) = reset anon_id g
step D g (pops max) = record g { queue = (pop_batch g.queue max).1 }
step D g takes = record g { reload = (take_fetch g.reload).0 }
step D g (completes id status) = record g { reload = complete_fetch id status g.reload }
step D g (corrects wall mono threshold) = record g {
  epoch_wall_ns = correct_wall_epoch g.epoch_wall_ns g.epoch_mono_ns wall mono threshold;
}

-- The strings are C strings and the property sets are within their arrays; a fetch is completed with a
-- final status.
abbrev pub CallFits : Call → Type 0
CallFits (captures mono name props) = AllValid props
CallFits (identifies mono did props) = TextFits did × AllValid props
CallFits (aliases mono new_id old_id) = Unit
CallFits (joins mono type key props) = TextFits type × TextFits key × AllValid props
CallFits (registers props) = AllValid props
CallFits (unregisters key) = Unit
CallFits (resets anon_id) = All IsChar anon_id × (0 < length anon_id)
CallFits (pops max) = Unit
CallFits takes = Unit
CallFits (completes id status) = (is_pending status ≡ false) × (0 < id)
CallFits (corrects wall mono threshold) = Unit

unfoldable pub run : Doubles → Ctx → List Call → Ctx
run D g [] = g
run D g (c ∷ cs) = run D (step D g c) cs

drop-Queued : (n : ℕ) (es : List Event) → All Queued es → All Queued (drop n es)
drop-Queued zero es h = h
drop-Queued (suc n) [] h = tt
drop-Queued (suc n) (e ∷ es) (h, hs) = drop-Queued n es hs

with_ring :
    (g : Ctx) (max : ℕ) → IsValid g → IsValid (record g { queue = (pop_batch g.queue max).1 })
unfolding Spec.pop_batch
with_ring g max v = record {
  id = v.id;
  super = v.super;
  members = v.members;
  person = v.person;
  scheduler = v.scheduler;
  ring = pop_batch-IsValid max g.queue v.ring;
  events =
      subst (λ (f : Spec.Fifo). All Queued f.events)
        (sym (ap (λ r. r.1) (pop_batch_refines max g.queue v.ring)))
        (drop-Queued max (view g.queue).events v.events);
}

with_reload :
    (g : Ctx) (r : Reload) → Scheduler.IsValid r → IsValid g → IsValid (record g { reload = r })
with_reload g r h v = record {
  id = v.id;
  super = v.super;
  members = v.members;
  person = v.person;
  scheduler = h;
  ring = v.ring;
  events = v.events;
}

pub step-IsValid :
    (D : Doubles) (g : Ctx) (c : Call) → CallFits c → IsValid g → IsValid (step D g c)
unfolding step
step-IsValid D g (captures mono name props) h v = capture_event-IsValid D mono name props g v
step-IsValid D g (identifies mono did props) (ht, hp) v =
    identify_user-IsValid D mono did props g ht hp v
step-IsValid D g (aliases mono new_id old_id) h v = alias_user-IsValid D mono new_id old_id g v
step-IsValid D g (joins mono type key props) (ht, hk, hp) v =
    group_user-IsValid D mono type key props g ht hk hp v
step-IsValid D g (registers props) h v = register-IsValid props g h v
step-IsValid D g (unregisters key) h v = unregister-IsValid key g v
step-IsValid D g (resets anon_id) (h, n) v = reset-IsValid anon_id g h n v
step-IsValid D g (pops max) h v = with_ring g max v
step-IsValid D g takes h v = with_reload g _ (take_fetch-IsValid g.reload v.scheduler) v
step-IsValid D g (completes id status) (done, n) v =
    with_reload g _ (complete_fetch-IsValid g.reload id status done n v.scheduler) v
step-IsValid D g (corrects wall mono threshold) h v = record {
  id = v.id;
  super = v.super;
  members = v.members;
  person = v.person;
  scheduler = v.scheduler;
  ring = v.ring;
  events = v.events;
}

run_from :
    (D : Doubles) (cs : List Call) (g : Ctx) → All CallFits cs → IsValid g → IsValid (run D g cs)
unfolding run
run_from D [] g h v = v
run_from D (c ∷ cs) g (h, hs) v = run_from D cs (step D g c) hs (step-IsValid D g c h v)

validated :
    (c : Config)
    → validate_config (some c) ≡ ok
    → c.enabled ≡ true
    → (strings_ok c ≡ true) × (numbers_ok c ≡ true)
unfolding validate_config
validated c h on = ground arith

id_tests :
    (key id host long over : Bool)
    → (key && id && host && not (long || over)) ≡ true
    → (id ≡ true) × (over ≡ false)
id_tests key id host long over h = ground arith

copied-IsId :
    (o : Option Bytes)
    → TextFits o
    → non_empty o ≡ true
    → string_over_cap o distinct_id_cap ≡ false
    → IsId (copy_capped distinct_id_cap o)
unfolding string_over_cap copy_capped
copied-IsId none h n cap = absurd (ground arith)
copied-IsId (some []) h n cap = absurd (ground arith)
copied-IsId (some (b ∷ bs)) h n cap =
    (All-take IsChar 127 (b ∷ bs) h, omega arith, omega (arith, length-take 127 (b ∷ bs)))

IsId-accepted :
    (c : Config)
    → TextFits c.distinct_id
    → strings_ok c ≡ true
    → IsId (copy_capped distinct_id_cap c.distinct_id)
unfolding strings_ok
IsId-accepted c h fine =
    let facts =
      id_tests (non_empty c.api_key) (non_empty c.distinct_id) (host_ok (host_of c.api_host))
        (long_setting c) (string_over_cap c.distinct_id distinct_id_cap) fine in
    copied-IsId c.distinct_id h facts.0 facts.1

both_small : (a p q : Bool) → (not a && not (p || q)) ≡ true → q ≡ false
both_small a p q h = ground arith

queue_accepted : (c : Config) → numbers_ok c ≡ true → def_int c.max_queue 1000 ≤ config_max_queue
unfolding numbers_ok
queue_accepted c h =
    let small = both_small _ _ (ltb config_max_queue (def_int c.max_queue 1000)) h in ground arith

started :
    (D : Doubles) (c : Config) (wall mono salt last_id : ℕ) (q : Queue) (allocated : Bool)
    → TextFits c.distinct_id
    → strings_ok c ≡ true
    → numbers_ok c ≡ true
    → Ring.init (pos (def_int c.max_queue 1000)) allocated ≡ some q
    → IsValid (record (fresh_ctx D c wall mono salt last_id) { enabled = true; queue = q })
unfolding fresh_ctx empty_props
started D c wall mono salt last_id q allocated h strings numbers e =
    let r =
      init-IsValid (pos (def_int c.max_queue 1000)) allocated
        (omega (arith, queue_accepted c numbers)) e in
    record {
      id = IsId-accepted c h strings;
      super = record { few = omega arith; fit = tt; unique = tt };
      members = record { few = omega arith; fit = tt; unique = tt };
      person = record { few = omega arith; fit = tt };
      scheduler = Fetches.init-IsValid last_id;
      ring = r.0;
      events = subst (λ n. All Queued (collect q.slots q.cap q.head n)) (sym r.1) tt;
    }

abbrev started_ctx : Doubles → Config → ℕ → ℕ → ℕ → ℕ → Queue → Ctx
started_ctx D c wall mono salt last_id q = record (fresh_ctx D c wall mono salt last_id) {
  enabled = true;
  queue = q;
}

some_ring : (cap : ℕ) → (q : Queue) × (Ring.init (pos cap) true ≡ some q)
unfolding Ring.init
some_ring cap = (_, refl)

init_result :
    (D : Doubles) (c : Config) (wall mono salt last_id : ℕ) (q : Queue)
    → validate_config (some c) ≡ ok
    → Ring.init (pos (def_int c.max_queue 1000)) true ≡ some q
    → c.enabled ≡ true
    → init D c wall mono salt last_id true true
      ≡ (some (started_ctx D c wall mono salt last_id q), ok)
unfolding init fresh_ctx
init_result D c wall mono salt last_id q e ring on =
    let g = fresh_ctx D c wall mono salt last_id in
    ap (λ v. if_ok v (start g c.enabled true true)) e
    ∙ ap (λ b. start g b true true) on
    ∙ ap (λ o. with_queue g o true) ring

-- An accepted configuration starts an instance, where there are memory and a thread; and whatever calls
-- of the host and steps of the sender follow, in whatever order: the id of the instance is not empty
-- and within its array, the super properties and the groups are within theirs and have no key twice,
-- the ring and the reload scheduler keep their invariants, and every queued event lies within its
-- `data`, with lengths that say where its parts are, and carries an id.
pub run-IsValid :
    (D : Doubles) (c : Config) (wall mono salt last_id : ℕ) (cs : List Call)
    → validate_config (some c) ≡ ok
    → c.enabled ≡ true
    → TextFits c.distinct_id
    → All CallFits cs
    → (g : Ctx) × (init D c wall mono salt last_id true true ≡ (some g, ok)) × IsValid (run D g cs)
run-IsValid D c wall mono salt last_id cs e on h hs =
    let ring = some_ring (def_int c.max_queue 1000) in
    let fine = validated c e on in
    let g = started_ctx D c wall mono salt last_id ring.0 in
    (
      g,
      init_result D c wall mono salt last_id ring.0 e ring.1 on,
      run_from D cs g hs (started D c wall mono salt last_id ring.0 true h fine.0 fine.1 ring.1),
    )
