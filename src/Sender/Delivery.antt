-- ===== src/Sender/Delivery.antt =====
-- The delivery of a run in src/ph_native.c where the server takes every body.
use posthog_c.Base.{
  ℕ, zero, suc, ◌+◌, ◌/◌, ◌≤◌, ◌<◌, ◌≡◌, refl, sym, ap, ◌∙◌, subst, subst₂, Bool, true, false, ◌&&◌,
  ◌||◌, List, [], ◌∷◌, ltb, length, take, drop, Bytes, arith, by_cases, append-nil,
}
use posthog_c.Base.Int.{ℤ, pos, negsuc}
use posthog_c.Queue.{Event}
use posthog_c.Ratelimit.{Ratelimit, blocked, is_status}
use posthog_c.Core.{Ctx}
use posthog_c.Serialize.{Platform, serialize_batch}
use posthog_c.Sender.{
  World, Sender, is_accepted, in_range, quota_limited_events, note_answer, post_and_note,
  is_blocked, next_tick, retries, attempts, hand_off, count, count_sent, settle, send_one,
  refresh_clock_epoch, has_crash_replay, too_large, front, back, send_run,
}
use posthog_c.Sender.Bounds.{Small}
use posthog_c.Sender.Batches.{
  EachFits, Delivered, pile, pile_same, batch_after, limit_after, small_same, both_halves,
}
use posthog_c.Sender.Parts.{halves}

-- Every body is accepted and no answer holds the sender, whose limiter is open.
pub record Accepts (W : World) (s : Sender) : Type 0 where
  pub in_time : (t : ℕ) → W.expired t ≡ false
  pub taken : (t : ℕ) (body : Bytes) → is_accepted (W.post t body).status ≡ true
  pub no_quota : (t : ℕ) (body : Bytes) → quota_limited_events (W.post t body).body ≡ false
  pub limiter_open : (t : ℕ) → blocked s.rl (W.mono t) ≡ false

not_held :
    (status : ℤ)
    → is_accepted status ≡ true
    → (is_status status 429 || is_status status 503) ≡ false
unfolding in_range is_status
not_held (pos n) h = ground arith
not_held (negsuc n) h = ground arith

module _ (W : World) where
  note_taken :
      (body : Bytes) (s : Sender) (tick : ℕ)
      → Accepts W s
      → note_answer W (W.post tick body) (tick + 1) s.rl ≡ s.rl
  unfolding note_answer
  note_taken body s tick a =
      by_cases (λ (l : Ratelimit). l ≡ s.rl)
        (is_status (W.post tick body).status 429 || is_status (W.post tick body).status 503)
        (λ held. absurd (ground (arith, not_held (W.post tick body).status (a.taken tick body))))
        (λ unheld.
          by_cases (λ (l : Ratelimit). l ≡ s.rl)
            (is_accepted (W.post tick body).status && quota_limited_events (W.post tick body).body)
            (λ limited. absurd (ground (arith, a.no_quota tick body))) (λ free. refl))

  retries_stop :
      (rounds : ℕ) (body : Bytes) (s : Sender) (status : ℤ)
      → is_accepted status ≡ true
      → retries W rounds body s status ≡ (s, status)
  unfolding retries
  retries_stop zero body s status h = refl
  retries_stop (suc more) body s status h = rw h refl

  -- One attempt is enough.
  taken_at_once :
      (body : Bytes) (s : Sender)
      → Accepts W s
      → attempts W body s ≡ (
        record s {
          posted = body ∷ s.posted;
          rl = note_answer W (W.post s.tick body) (s.tick + 1) s.rl;
          tick = s.tick + 2;
        },
        (W.post s.tick body).status,
      )
  unfolding attempts post_and_note
  taken_at_once body s a = retries_stop s.ctx.max_retries body _ _ (a.taken s.tick body)

  module _ (P : Platform) where
    -- A delivered batch is one run.
    counted :
        (es : List Event) (b : Bool) (s t : Sender)
        → Small s.ctx.max_batch_bytes (serialize_batch P s.ctx es)
        → t.posted ≡ serialize_batch P s.ctx es ∷ s.posted
        → t.ctx ≡ s.ctx
        → t.spilled ≡ s.spilled
        → t.rl ≡ s.rl
        → Delivered P es s (next_tick (hand_off b (count_sent (length es) t)))
    unfolding hand_off
    counted es true s t small p c sp l = record {
      runs = es ∷ [];
      whole = append-nil es;
      bodies = p;
      small = (small, tt);
      sent_count = omega (arith, ap (λ (g : Ctx). g.st_sent) c);
      context =
          ap
            (λ (g : Ctx). record g {
              epoch_wall_ns = t.ctx.epoch_wall_ns;
              st_sent = count t.ctx.st_sent (length es);
            })
            c;
      none_spilled = sp;
      limiter = l;
    }
    counted es false s t small p c sp l = record {
      runs = es ∷ [];
      whole = append-nil es;
      bodies = p;
      small = (small, tt);
      sent_count = omega (arith, ap (λ (g : Ctx). g.st_sent) c);
      context =
          ap
            (λ (g : Ctx). record g {
              epoch_wall_ns = t.ctx.epoch_wall_ns;
              st_sent = count t.ctx.st_sent (length es);
            })
            c;
      none_spilled = sp;
      limiter = l;
    }

    unblocked :
        (n : ℕ) (b : Bool) (s t : Sender)
        → Accepts W s
        → t.rl ≡ s.rl
        → is_blocked W (hand_off b (count_sent n t)) ≡ false
    unfolding hand_off is_blocked
    unblocked n true s t a e = ap (λ rl. blocked rl (W.mono t.tick)) e ∙ a.limiter_open t.tick
    unblocked n false s t a e = ap (λ rl. blocked rl (W.mono t.tick)) e ∙ a.limiter_open t.tick

    send_one-Delivered :
        (es : List Event) (b : Bool) (s : Sender)
        → Accepts W s
        → Small s.ctx.max_batch_bytes (serialize_batch P s.ctx es)
        → let r = send_one W (serialize_batch P s.ctx es) (length es) b s in
          Delivered P es s r.0 × (r.1 ≡ false)
    unfolding send_one settle
    send_one-Delivered es b s a small =
        let body = serialize_batch P s.ctx es in
        let rl_same = note_taken body s s.tick a in
        subst
          (λ (r : Sender × ℤ).
            Delivered P es s (next_tick (settle W body (length es) b r.0 r.1))
            × (is_blocked W (settle W body (length es) b r.0 r.1) ≡ false))
          (sym (taken_at_once body s a))
          (by_cases (λ (t : Sender). Delivered P es s (next_tick t) × (is_blocked W t ≡ false))
            (is_accepted (W.post s.tick body).status)
            (λ ok. (
              counted es b s _ small refl refl refl rl_same,
              unblocked (length es) b s _ a rl_same,
            ))
            (λ refused. absurd (ground (arith, a.taken s.tick body))))

    lone_fits :
        (es : List Event) (s : Sender)
        → 0 < length es
        → ltb 1 (length es) ≡ false
        → EachFits P s es
        → Small s.ctx.max_batch_bytes (serialize_batch P s.ctx es)
    lone_fits [] s n one h = absurd (omega arith)
    lone_fits (e ∷ []) s n one (h, hs) = h
    lone_fits (e ∷ f ∷ es) s n one h = absurd (ground arith)

    fits_take : (n : ℕ) (es : List Event) (s : Sender) → EachFits P s es → EachFits P s (take n es)
    fits_take zero es s h = tt
    fits_take (suc n) [] s h = tt
    fits_take (suc n) (e ∷ es) s (h, hs) = (h, fits_take n es s hs)

    fits_drop : (n : ℕ) (es : List Event) (s : Sender) → EachFits P s es → EachFits P s (drop n es)
    fits_drop zero es s h = h
    fits_drop (suc n) [] s h = h
    fits_drop (suc n) (e ∷ es) s (h, hs) = fits_drop n es s hs

    fits_after :
        (fs es : List Event) (s s' : Sender)
        → Delivered P fs s s'
        → EachFits P s es
        → EachFits P s' es
    fits_after fs [] s s' d h = tt
    fits_after fs (e ∷ es) s s' d (h, hs) = (
      subst₂ Small (sym (limit_after P fs s s' d)) (sym (batch_after P (e ∷ []) fs s s' d)) h,
      fits_after fs es s s' d hs,
    )

    Accepts-after :
        (fs : List Event) (s s' : Sender) → Delivered P fs s s' → Accepts W s → Accepts W s'
    Accepts-after fs s s' d a = record {
      in_time = a.in_time;
      taken = a.taken;
      no_quota = a.no_quota;
      limiter_open = λ t. ap (λ rl. blocked rl (W.mono t)) d.limiter ∙ a.limiter_open t;
    }

    -- Reading the clock delivers no event.
    refreshed : (s : Sender) → Delivered P [] s (refresh_clock_epoch W (next_tick s))
    unfolding refresh_clock_epoch
    refreshed s = record {
      runs = [];
      whole = refl;
      bodies = refl;
      small = tt;
      sent_count = omega arith;
      context = refl;
      none_spilled = refl;
      limiter = refl;
    }

    from_refreshed :
        (es : List Event) (s s1 s' : Sender)
        → Delivered P [] s s1
        → s1.posted ≡ s.posted
        → Delivered P es s1 s'
        → Delivered P es s s'
    from_refreshed es s s1 s' a p b =
        let same : (r : List Event) → serialize_batch P s1.ctx r ≡ serialize_batch P s.ctx r =
          λ r. batch_after P r [] s s1 a in
        record {
          runs = b.runs;
          whole = b.whole;
          bodies =
              b.bodies
              ∙ pile_same P s.ctx s1.ctx b.runs s1.posted same
              ∙ ap (pile P s.ctx b.runs) p;
          small = small_same P _ _ s.ctx s1.ctx b.runs same (limit_after P [] s s1 a) b.small;
          sent_count = omega (arith, a.sent_count, b.sent_count);
          context =
              b.context
              ∙ ap
                  (λ (g : Ctx). record g {
                    epoch_wall_ns = s'.ctx.epoch_wall_ns;
                    st_sent = s'.ctx.st_sent;
                  })
                  a.context;
          none_spilled = b.none_spilled ∙ a.none_spilled;
          limiter = b.limiter ∙ a.limiter;
        }

    allowed :
        (s : Sender) (body : Bytes) → too_large s body ≡ false → Small s.ctx.max_batch_bytes body
    allowed s body h = ground arith

    forbidden :
        (s : Sender) (body : Bytes) → too_large s body ≡ true → Small s.ctx.max_batch_bytes body → ⊥
    forbidden s body h k = ground arith

    -- Where each event alone makes a batch within max_batch_bytes, the server accepts every body and
    -- nothing holds the sender, a run is delivered whole: split as often as its size takes, its events
    -- are posted once each, in order, in batches of consecutive events within the limit, all are counted
    -- as sent, none as failed, and none is spilled.
    pub send_run-Delivered :
        (fuel : ℕ) (es : List Event) (s : Sender)
        → 0 < length es
        → length es ≤ fuel
        → Accepts W s
        → EachFits P s es
        → Delivered P es s (send_run W P fuel es s).0 × ((send_run W P fuel es s).1 ≡ false)
    unfolding send_run
    send_run-Delivered zero es s n h a fit = absurd (omega arith)
    send_run-Delivered (suc fuel) es s n h a fit =
        let s1 = refresh_clock_epoch W (next_tick s) in
        let body = serialize_batch P s1.ctx es in
        let start = refreshed s in
        let a1 = Accepts-after [] s s1 start a in
        let fit1 = fits_after [] es s s1 start fit in
        let back_to_start : (r : Sender × Bool)
            → Delivered P es s1 r.0 × (r.1 ≡ false)
            → Delivered P es s r.0 × (r.1 ≡ false) =
          λ r d. (from_refreshed es s s1 r.0 start (unfold refresh_clock_epoch in refl) d.0, d.1) in
        by_cases (λ (r : Sender × Bool). Delivered P es s r.0 × (r.1 ≡ false)) (W.expired s.tick)
          (λ late. absurd (ground (arith, a.in_time s.tick)))
          (λ in_time.
            by_cases (λ (r : Sender × Bool). Delivered P es s r.0 × (r.1 ≡ false))
              (too_large s1 body)
              (λ large.
                by_cases (λ (r : Sender × Bool). Delivered P es s r.0 × (r.1 ≡ false))
                  (ltb 1 (length es))
                  (λ many.
                    let sizes = halves es fuel many h in
                    let first =
                      send_run-Delivered fuel (front es) s1 sizes.0 sizes.2 a1
                        (fits_take (length es / 2) es s1 fit1) in
                    let s2 = (send_run W P fuel (front es) s1).0 in
                    let second =
                      send_run-Delivered fuel (back es) s2 sizes.1 sizes.3
                        (Accepts-after (front es) s1 s2 first.0 a1)
                        (fits_after (front es) (back es) s1 s2 first.0
                          (fits_drop (length es / 2) es s1 fit1)) in
                    by_cases (λ (r : Sender × Bool). Delivered P es s r.0 × (r.1 ≡ false))
                      (send_run W P fuel (front es) s1).1 (λ held. absurd (ground (arith, first.1)))
                      (λ unheld.
                        back_to_start _ (both_halves P es s1 s2 _ first.0 second.0, second.1)))
                  (λ one. absurd (forbidden s1 body large (lone_fits es s1 n one fit1))))
              (λ fits.
                back_to_start _
                  (send_one-Delivered es (has_crash_replay es) s1 a1 (allowed s1 body fits))))
