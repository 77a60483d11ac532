-- ===== src/Sender/Bounds.antt =====
-- The size of what src/ph_native.c hands to the transport and to the spill file.
use posthog_c.Base.{
  ℕ, zero, suc, ◌≤◌, ◌≡◌, ◌⊎◌, refl, sym, ◌∙◌, subst, Bool, true, false, not, ◌||◌, List, ltb,
  length, Bytes, All, arith, by_cases,
}
use posthog_c.Base.Int.{ℤ}
use posthog_c.Queue.{Event}
use posthog_c.Serialize.{Platform, serialize_batch}
use posthog_c.Sender.{
  World, Sender, count_retry, is_accepted, is_permanent_reject, post_and_note, is_blocked,
  next_tick, retries, attempts, hand_off, spill_or_fail, has_offline, settle, send_one,
  refresh_clock_epoch, too_large, front, back, persist_run, send_run,
}

-- A body that `max_batch_bytes` allows; 0 is no limit.
abbrev pub Small : ℕ → Bytes → Type 0
Small cap body = (cap ≡ 0) ⊎ (length body ≤ cap)

pub record Within (cap : ℕ) (s : Sender) : Type 0 where
  pub limit : s.ctx.max_batch_bytes ≡ cap
  pub all_posted : All (Small cap) s.posted
  pub all_spilled : All (Small cap) s.spilled

module _ (cap : ℕ) where
  allowed :
      (s : Sender) (body : Bytes)
      → s.ctx.max_batch_bytes ≡ cap
      → too_large s body ≡ false
      → Small cap body
  allowed s body e h = ground arith

  hand_off-Within : (b : Bool) (s : Sender) → Within cap s → Within cap (hand_off b s)
  unfolding hand_off
  hand_off-Within true s v = record {
    limit = v.limit;
    all_posted = v.all_posted;
    all_spilled = v.all_spilled;
  }
  hand_off-Within false s v = v

  same :
      (s t : Sender)
      → Within cap s
      → t.ctx.max_batch_bytes ≡ s.ctx.max_batch_bytes
      → t.posted ≡ s.posted
      → t.spilled ≡ s.spilled
      → Within cap t
  same s t v m p q = record {
    limit = m ∙ v.limit;
    all_posted = subst (All (Small cap)) (sym p) v.all_posted;
    all_spilled = subst (All (Small cap)) (sym q) v.all_spilled;
  }

  module _ (W : World) where
    posted-Within :
        (body : Bytes) (s : Sender)
        → Small cap body
        → Within cap s
        → Within cap (post_and_note W body s).0
    unfolding post_and_note
    posted-Within body s small v = record {
      limit = v.limit;
      all_posted = (small, v.all_posted);
      all_spilled = v.all_spilled;
    }

    retries-Within :
        (rounds : ℕ) (body : Bytes) (s : Sender) (status : ℤ)
        → Small cap body
        → Within cap s
        → Within cap (retries W rounds body s status).0
    unfolding retries
    retries-Within zero body s status small v = v
    retries-Within (suc more) body s status small v =
        by_cases (λ (r : Sender × ℤ). Within cap r.0)
          (is_accepted status || is_permanent_reject status || is_blocked W s) (λ stop. v)
          (λ go.
            by_cases (λ (r : Sender × ℤ). Within cap r.0) (W.broken (next_tick s).tick)
              (λ stop. same s _ v refl refl refl)
              (λ next.
                let posted =
                  posted-Within body (next_tick (count_retry s)) small
                    (same s _ v refl refl refl) in
                retries-Within more body _ _ small (same _ _ posted refl refl refl)))

    spill-Within :
        (body : Bytes) (n : ℕ) (b : Bool) (s : Sender)
        → Small cap body
        → Within cap s
        → Within cap (spill_or_fail W body n b s)
    unfolding spill_or_fail
    spill-Within body n b s small v =
        by_cases (λ (t : Sender). Within cap t) (W.spills s.tick body)
          (λ written. hand_off-Within b _ (record {
            limit = v.limit;
            all_posted = v.all_posted;
            all_spilled = (small, v.all_spilled);
          }))
          (λ lost. same s _ v refl refl refl)

    send_one-Within :
        (body : Bytes) (n : ℕ) (b : Bool) (s : Sender)
        → Small cap body
        → Within cap s
        → Within cap (send_one W body n b s).0
    unfolding send_one attempts settle
    send_one-Within body n b s small v =
        let r = attempts W body s in
        let done : Within cap r.0 =
          retries-Within s.ctx.max_retries body _ _ small (posted-Within body s small v) in
        same (settle W body n b r.0 r.1) _
          (by_cases (λ (t : Sender). Within cap t) (is_accepted r.1)
            (λ yes_ok. hand_off-Within b _ (same r.0 _ done refl refl refl))
            (λ no_ok.
              by_cases (λ (t : Sender). Within cap t) (is_permanent_reject r.1)
                (λ reject. same r.0 _ done refl refl refl)
                (λ later.
                  by_cases (λ (t : Sender). Within cap t) (has_offline r.0)
                    (λ offline. spill-Within body n b r.0 small done)
                    (λ memory. same r.0 _ done refl refl refl))))
          refl refl refl

    refreshed : (s : Sender) → Within cap s → Within cap (refresh_clock_epoch W s)
    unfolding refresh_clock_epoch
    refreshed s v = record {
      limit = v.limit;
      all_posted = v.all_posted;
      all_spilled = v.all_spilled;
    }

    module _ (P : Platform) where
      persist_run-Within :
          (fuel : ℕ) (es : List Event) (s : Sender)
          → Within cap s
          → Within cap (persist_run W P fuel es s)
      unfolding persist_run
      persist_run-Within zero es s v = v
      persist_run-Within (suc fuel) es s v =
          let s1 = refresh_clock_epoch W s in
          let v1 = refreshed s v in
          let body = serialize_batch P s1.ctx es in
          by_cases (λ (t : Sender). Within cap t) (not (has_offline s))
            (λ memory. same s _ v refl refl refl)
            (λ offline.
              by_cases (λ (t : Sender). Within cap t) (too_large s1 body)
                (λ large.
                  by_cases (λ (t : Sender). Within cap t) (ltb 1 (length es))
                    (λ many.
                      persist_run-Within fuel (back es) _
                        (persist_run-Within fuel (front es) s1 v1))
                    (λ one. same s1 _ v1 refl refl refl))
                (λ fits. spill-Within body _ _ s1 (allowed s1 body v1.limit fits) v1))

      -- A run hands no body over max_batch_bytes, where that is not 0, to the transport or to the spill file.
      pub send_run-Within :
          (fuel : ℕ) (es : List Event) (s : Sender)
          → Within cap s
          → Within cap (send_run W P fuel es s).0
      unfolding send_run
      send_run-Within zero es s v = v
      send_run-Within (suc fuel) es s v =
          let v0 : Within cap (next_tick s) = same s _ v refl refl refl in
          let s1 = refresh_clock_epoch W (next_tick s) in
          let v1 = refreshed (next_tick s) v0 in
          let body = serialize_batch P s1.ctx es in
          by_cases (λ (t : Sender × Bool). Within cap t.0) (W.expired s.tick)
            (λ late. persist_run-Within (suc fuel) es (next_tick s) v0)
            (λ in_time.
              by_cases (λ (t : Sender × Bool). Within cap t.0) (too_large s1 body)
                (λ large.
                  by_cases (λ (t : Sender × Bool). Within cap t.0) (ltb 1 (length es))
                    (λ many.
                      let first = send_run-Within fuel (front es) s1 v1 in
                      by_cases (λ (t : Sender × Bool). Within cap t.0)
                        (send_run W P fuel (front es) s1).1
                        (λ held. persist_run-Within fuel (back es) _ first)
                        (λ unheld. send_run-Within fuel (back es) _ first))
                    (λ one. same s1 _ v1 refl refl refl))
                (λ fits. send_one-Within body _ _ s1 (allowed s1 body v1.limit fits) v1))
