-- ===== src/Sender/Account.antt =====
-- What becomes of the events of a run in src/ph_native.c.
use posthog_c.Base.{
  ℕ, zero, suc, ◌+◌, ◌%◌, ◌^◌, ◌≤◌, ◌<◌, ◌≡◌, refl, sym, subst, Bool, true, false, not, ◌||◌, List,
  [], ◌∷◌, ltb, length, Bytes, arith, by_cases, append-nil,
}
use posthog_c.Base.Int.{ℤ}
use posthog_c.Queue.{Event}
use posthog_c.Core.{Ctx}
use posthog_c.Serialize.{Platform, serialize_batch}
use posthog_c.Sender.{
  World, Sender, count_failed, is_accepted, is_permanent_reject, post_and_note, is_blocked,
  next_tick, retries, attempts, hand_off, spill_or_fail, has_offline, settle, send_one,
  refresh_clock_epoch, has_crash_replay, too_large, front, back, persist_run, send_run,
}
use posthog_c.Sender.Parts.{Settled, Recorded, sent, failed, spilled, both_halves, halves}

-- The counters and the spill file are as before.
record Kept (s s' : Sender) : Type 0 where
  same_sent : s'.ctx.st_sent ≡ s.ctx.st_sent
  same_failed : s'.ctx.st_failed ≡ s.ctx.st_failed
  same_spilled : s'.spilled ≡ s.spilled

module _ (W : World) where
  retries-Kept :
      (rounds : ℕ) (body : Bytes) (s : Sender) (status : ℤ)
      → Kept s (retries W rounds body s status).0
  unfolding retries post_and_note
  retries-Kept zero body s status = record {
    same_sent = refl;
    same_failed = refl;
    same_spilled = refl;
  }
  retries-Kept (suc more) body s status =
      by_cases (λ (r : Sender × ℤ). Kept s r.0)
        (is_accepted status || is_permanent_reject status || is_blocked W s)
        (λ stop. record { same_sent = refl; same_failed = refl; same_spilled = refl })
        (λ go.
          by_cases (λ (r : Sender × ℤ). Kept s r.0) (W.broken (next_tick s).tick)
            (λ stop. record { same_sent = refl; same_failed = refl; same_spilled = refl })
            (λ next.
              let k = retries-Kept more body _ _ in
              record {
                same_sent = k.same_sent;
                same_failed = k.same_failed;
                same_spilled = k.same_spilled;
              }))

  -- The status that the loop ends with is that of some answer to the body.
  retries_status :
      (rounds : ℕ) (body : Bytes) (s : Sender) (tick : ℕ)
      → (t : ℕ) × ((retries W rounds body s (W.post tick body).status).1 ≡ (W.post t body).status)
  unfolding retries post_and_note
  retries_status zero body s tick = (tick, refl)
  retries_status (suc more) body s tick =
      let status = (W.post tick body).status in
      by_cases (λ (r : Sender × ℤ). (t : ℕ) × (r.1 ≡ (W.post t body).status))
        (is_accepted status || is_permanent_reject status || is_blocked W s) (λ stop. (tick, refl))
        (λ go.
          by_cases (λ (r : Sender × ℤ). (t : ℕ) × (r.1 ≡ (W.post t body).status))
            (W.broken (next_tick s).tick) (λ stop. (tick, refl))
            (λ next. retries_status more body _ _))

module _ (P : Platform) (W : World) where
  all_sent :
      (c : Ctx) (tick : ℕ) (es : List Event) (s s' : Sender)
      → is_accepted (W.post tick (serialize_batch P c es)).status ≡ true
      → s'.ctx.st_sent % 2 ^ 64 ≡ (s.ctx.st_sent + length es) % 2 ^ 64
      → s'.ctx.st_failed ≡ s.ctx.st_failed
      → s'.spilled ≡ s.spilled
      → Settled P W es s s'
  all_sent c tick es s s' ok h f r = record {
    parts = sent es ∷ [];
    whole = append-nil es;
    sent_count = omega (arith, h);
    failed_count = omega (arith, f);
    records = (c, tick, ok, r);
  }

  all_failed :
      (es : List Event) (s s' : Sender)
      → s'.ctx.st_sent ≡ s.ctx.st_sent
      → s'.ctx.st_failed % 2 ^ 64 ≡ (s.ctx.st_failed + length es) % 2 ^ 64
      → s'.spilled ≡ s.spilled
      → Settled P W es s s'
  all_failed es s s' h f r = record {
    parts = failed es ∷ [];
    whole = append-nil es;
    sent_count = omega (arith, h);
    failed_count = omega (arith, f);
    records = r;
  }

  all_spilled :
      (c : Ctx) (es : List Event) (s s' : Sender)
      → s'.ctx.st_sent ≡ s.ctx.st_sent
      → s'.ctx.st_failed ≡ s.ctx.st_failed
      → s'.spilled ≡ serialize_batch P c es ∷ s.spilled
      → Settled P W es s s'
  all_spilled c es s s' h f r = record {
    parts = spilled es ∷ [];
    whole = append-nil es;
    sent_count = omega (arith, h);
    failed_count = omega (arith, f);
    records = (c, r);
  }

  -- The same end, from a state that has the same counters and file.
  from_Kept :
      (es : List Event) (s t s' : Sender) → Kept s t → Settled P W es t s' → Settled P W es s s'
  from_Kept es s t s' k h = record {
    parts = h.parts;
    whole = h.whole;
    sent_count = omega (arith, h.sent_count, k.same_sent);
    failed_count = omega (arith, h.failed_count, k.same_failed);
    records = subst (λ old. Recorded P W h.parts old s'.spilled) k.same_spilled h.records;
  }

  hand_off-Settled :
      (b : Bool) (es : List Event) (s s' : Sender)
      → Settled P W es s s'
      → Settled P W es s (hand_off b s')
  unfolding hand_off
  hand_off-Settled true es s s' h = record {
    parts = h.parts;
    whole = h.whole;
    sent_count = h.sent_count;
    failed_count = h.failed_count;
    records = h.records;
  }
  hand_off-Settled false es s s' h = h

  spill_or_fail-Settled :
      (c : Ctx) (es : List Event) (b : Bool) (s : Sender)
      → Settled P W es s (spill_or_fail W (serialize_batch P c es) (length es) b s)
  unfolding spill_or_fail
  spill_or_fail-Settled c es b s =
      by_cases (λ (t : Sender). Settled P W es s t) (W.spills s.tick (serialize_batch P c es))
        (λ written. hand_off-Settled b es s _ (all_spilled c es s _ refl refl refl))
        (λ lost. all_failed es s _ refl (omega arith) refl)

  settle-Settled :
      (c : Ctx) (tick : ℕ) (es : List Event) (b : Bool) (s : Sender)
      → Settled P W es s (
          settle W
            (serialize_batch P c es)
            (length es)
            b
            s
            (W.post tick (serialize_batch P c es)).status)
  unfolding settle
  settle-Settled c tick es b s =
      let status = (W.post tick (serialize_batch P c es)).status in
      by_cases (λ (t : Sender). Settled P W es s t) (is_accepted status)
        (λ yes_ok.
          hand_off-Settled b es s _ (all_sent c tick es s _ yes_ok (omega arith) refl refl))
        (λ no_ok.
          by_cases (λ (t : Sender). Settled P W es s t) (is_permanent_reject status)
            (λ reject. all_failed es s _ refl (omega arith) refl)
            (λ later.
              by_cases (λ (t : Sender). Settled P W es s t) (has_offline s)
                (λ offline. spill_or_fail-Settled c es b s)
                (λ memory. all_failed es s _ refl (omega arith) refl)))

  ticked : (es : List Event) (s s' : Sender) → Settled P W es s s' → Settled P W es s (next_tick s')
  ticked es s s' h = record {
    parts = h.parts;
    whole = h.whole;
    sent_count = h.sent_count;
    failed_count = h.failed_count;
    records = h.records;
  }

  attempts-Kept : (body : Bytes) (s : Sender) → Kept s (attempts W body s).0
  unfolding attempts post_and_note
  attempts-Kept body s =
      let k = retries-Kept W s.ctx.max_retries body _ _ in
      record { same_sent = k.same_sent; same_failed = k.same_failed; same_spilled = k.same_spilled }

  attempts_status :
      (body : Bytes) (s : Sender) → (tick : ℕ) × ((attempts W body s).1 ≡ (W.post tick body).status)
  unfolding attempts post_and_note
  attempts_status body s = retries_status W s.ctx.max_retries body _ s.tick

  send_one-Settled :
      (c : Ctx) (es : List Event) (b : Bool) (s : Sender)
      → Settled P W es s (send_one W (serialize_batch P c es) (length es) b s).0
  unfolding send_one
  send_one-Settled c es b s =
      let r = attempts W (serialize_batch P c es) s in
      let answer = attempts_status (serialize_batch P c es) s in
      ticked es s _ (
        from_Kept es s r.0 _ (attempts-Kept (serialize_batch P c es) s) (
          subst
            (λ status.
              Settled P W es r.0 (settle W (serialize_batch P c es) (length es) b r.0 status))
            (sym answer.1) (settle-Settled c answer.0 es b r.0)))

  refreshed : (s : Sender) → Kept s (refresh_clock_epoch W s)
  unfolding refresh_clock_epoch
  refreshed s = record { same_sent = refl; same_failed = refl; same_spilled = refl }

  lone :
      (es : List Event) (s : Sender)
      → 0 < length es
      → ltb 1 (length es) ≡ false
      → Settled P W es s (count_failed 1 s)
  lone es s n h = all_failed es s _ refl (ground arith) refl

  persist_run-Settled :
      (fuel : ℕ) (es : List Event) (s : Sender)
      → 0 < length es
      → length es ≤ fuel
      → Settled P W es s (persist_run W P fuel es s)
  unfolding persist_run
  persist_run-Settled zero es s n h = absurd (omega arith)
  persist_run-Settled (suc fuel) es s n h =
      let s1 = refresh_clock_epoch W s in
      let body = serialize_batch P s1.ctx es in
      by_cases (λ (t : Sender). Settled P W es s t) (not (has_offline s))
        (λ memory. all_failed es s _ refl (omega arith) refl)
        (λ offline. from_Kept es s s1 _ (refreshed s) (
          by_cases (λ (t : Sender). Settled P W es s1 t) (too_large s1 body)
            (λ large.
              by_cases (λ (t : Sender). Settled P W es s1 t) (ltb 1 (length es))
                (λ many.
                  let sizes = halves es fuel many h in
                  both_halves P W es s1 _ _ (persist_run-Settled fuel (front es) s1 sizes.0 sizes.2)
                    (persist_run-Settled fuel (back es) _ sizes.1 sizes.3))
                (λ one. lone es s1 n one))
            (λ fits. spill_or_fail-Settled s1.ctx es (has_crash_replay es) s1)))

  two_ticks : (s : Sender) → Kept s (refresh_clock_epoch W (next_tick s))
  unfolding refresh_clock_epoch
  two_ticks s = record { same_sent = refl; same_failed = refl; same_spilled = refl }

  -- Every event of a run meets one end, in order, whatever the server answers, the limiter holds and
  -- the disk does, also where the run is split for its size or the shutdown budget is spent: delivered,
  -- with an answer of class 2xx to a batch of just its part, and counted as sent, lost and counted as
  -- failed, or in the spill file, in a record of its own batch.
  pub send_run-Settled :
      (fuel : ℕ) (es : List Event) (s : Sender)
      → 0 < length es
      → length es ≤ fuel
      → Settled P W es s (send_run W P fuel es s).0
  unfolding send_run
  send_run-Settled zero es s n h = absurd (omega arith)
  send_run-Settled (suc fuel) es s n h =
      let s1 = refresh_clock_epoch W (next_tick s) in
      let body = serialize_batch P s1.ctx es in
      let ticks : Kept s (next_tick s) = record {
        same_sent = refl;
        same_failed = refl;
        same_spilled = refl;
      } in
      by_cases (λ (t : Sender × Bool). Settled P W es s t.0) (W.expired s.tick)
        (λ late.
          from_Kept es s (next_tick s) _ ticks
            (persist_run-Settled (suc fuel) es (next_tick s) n h))
        (λ in_time. from_Kept es s s1 _ (two_ticks s) (
          by_cases (λ (t : Sender × Bool). Settled P W es s1 t.0) (too_large s1 body)
            (λ large.
              by_cases (λ (t : Sender × Bool). Settled P W es s1 t.0) (ltb 1 (length es))
                (λ many.
                  let sizes = halves es fuel many h in
                  let first = send_run-Settled fuel (front es) s1 sizes.0 sizes.2 in
                  by_cases (λ (t : Sender × Bool). Settled P W es s1 t.0)
                    (send_run W P fuel (front es) s1).1
                    (λ held.
                      both_halves P W es s1 _ _ first
                        (persist_run-Settled fuel (back es) _ sizes.1 sizes.3))
                    (λ unheld.
                      both_halves P W es s1 _ _ first
                        (send_run-Settled fuel (back es) _ sizes.1 sizes.3)))
                (λ one. lone es s1 n one))
            (λ fits. send_one-Settled s1.ctx es (has_crash_replay es) s1)))
