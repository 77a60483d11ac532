-- ===== src/Sender/Batches.antt =====
-- The batches that a run in src/ph_native.c is posted in.
use posthog_c.Base.{
  ℕ, ◌+◌, ◌/◌, ◌%◌, ◌^◌, ◌≡◌, refl, sym, ap, ap₂, ◌∙◌, subst₂, List, [], ◌∷◌, ◌++◌, length, Bytes,
  All, arith, append_assoc, take-append-drop, length-take, length-drop,
}
use posthog_c.Queue.{Event}
use posthog_c.Core.{Ctx}
use posthog_c.Serialize.{
  Platform, serialize_batch, serialize_more, serialize_event, properties, kind_members,
}
use posthog_c.Sender.{Sender, front, back}
use posthog_c.Sender.Bounds.{Small}

module _ (P : Platform) where
  -- The bodies of these runs, the last on top.
  abbrev pub pile : Ctx → List (List Event) → List Bytes → List Bytes
  pile g [] posted = posted
  pile g (r ∷ rs) posted = pile g rs (serialize_batch P g r ∷ posted)

  abbrev pub joined : List (List Event) → List Event
  joined [] = []
  joined (r ∷ rs) = r ++ joined rs

  -- The events are posted in consecutive runs, in order, each as a batch within the limit, and counted
  -- as sent; nothing is lost or spilled, and of the context only the epoch of the clock changes besides.
  pub record Delivered (es : List Event) (s s' : Sender) : Type 0 where
    pub runs : List (List Event)
    pub whole : joined runs ≡ es
    pub bodies : s'.posted ≡ pile s.ctx runs s.posted
    pub small : All (λ r. Small s.ctx.max_batch_bytes (serialize_batch P s.ctx r)) runs
    pub sent_count : s'.ctx.st_sent % 2 ^ 64 ≡ (s.ctx.st_sent + length es) % 2 ^ 64
    pub context :
        s'.ctx ≡ record s.ctx { epoch_wall_ns = s'.ctx.epoch_wall_ns; st_sent = s'.ctx.st_sent }
    pub none_spilled : s'.spilled ≡ s.spilled
    pub limiter : s'.rl ≡ s.rl

  more_moved :
      (g : Ctx) (epoch sent : ℕ) (es : List Event)
      → serialize_more P (record g { epoch_wall_ns = epoch; st_sent = sent }) es
        ≡ serialize_more P g es
  unfolding serialize_more serialize_event properties kind_members
  more_moved g epoch sent [] = refl
  more_moved g epoch sent (e ∷ es) =
      ap (λ t. b',' ∷ (serialize_event P g e ++ t)) (more_moved g epoch sent es)

  -- A batch does not depend on what a delivery changes of the context.
  batch_moved :
      (g : Ctx) (epoch sent : ℕ) (es : List Event)
      → serialize_batch P (record g { epoch_wall_ns = epoch; st_sent = sent }) es
        ≡ serialize_batch P g es
  unfolding serialize_batch serialize_event properties kind_members
  batch_moved g epoch sent [] = refl
  batch_moved g epoch sent (e ∷ es) = rw (more_moved g epoch sent es) refl

  -- The state before and after has the same batches.
  pub batch_after :
      (es fs : List Event) (s s' : Sender)
      → Delivered fs s s'
      → serialize_batch P s'.ctx es ≡ serialize_batch P s.ctx es
  batch_after es fs s s' d = ap (λ g. serialize_batch P g es) d.context ∙ batch_moved s.ctx _ _ es

  pub limit_after :
      (fs : List Event) (s s' : Sender)
      → Delivered fs s s'
      → s'.ctx.max_batch_bytes ≡ s.ctx.max_batch_bytes
  limit_after fs s s' d = ap (λ (g : Ctx). g.max_batch_bytes) d.context

  pile-append :
      (g : Ctx) (rs qs : List (List Event)) (p : List Bytes)
      → pile g (rs ++ qs) p ≡ pile g qs (pile g rs p)
  pile-append g [] qs p = refl
  pile-append g (r ∷ rs) qs p = pile-append g rs qs (serialize_batch P g r ∷ p)

  pub pile_same :
      (g g' : Ctx) (rs : List (List Event)) (p : List Bytes)
      → ((r : List Event) → serialize_batch P g' r ≡ serialize_batch P g r)
      → pile g' rs p ≡ pile g rs p
  pile_same g g' [] p h = refl
  pile_same g g' (r ∷ rs) p h =
      ap (λ b. pile g' rs (b ∷ p)) (h r) ∙ pile_same g g' rs (serialize_batch P g r ∷ p) h

  joined-append : (rs qs : List (List Event)) → joined (rs ++ qs) ≡ joined rs ++ joined qs
  joined-append [] qs = refl
  joined-append (r ∷ rs) qs =
      ap (λ t. r ++ t) (joined-append rs qs) ∙ sym (append_assoc r (joined rs) (joined qs))

  small-append :
      (n : ℕ) (g : Ctx) (rs qs : List (List Event))
      → All (λ r. Small n (serialize_batch P g r)) rs
      → All (λ r. Small n (serialize_batch P g r)) qs
      → All (λ r. Small n (serialize_batch P g r)) (rs ++ qs)
  small-append n g [] qs h k = k
  small-append n g (r ∷ rs) qs (h, hs) k = (h, small-append n g rs qs hs k)

  pub small_same :
      (n n' : ℕ) (g g' : Ctx) (rs : List (List Event))
      → ((r : List Event) → serialize_batch P g' r ≡ serialize_batch P g r)
      → n' ≡ n
      → All (λ r. Small n' (serialize_batch P g' r)) rs
      → All (λ r. Small n (serialize_batch P g r)) rs
  small_same n n' g g' [] e m h = tt
  small_same n n' g g' (r ∷ rs) e m (h, hs) =
      (subst₂ Small m (e r) h, small_same n n' g g' rs e m hs)

  pub both_halves :
      (es : List Event) (s s' s'' : Sender)
      → Delivered (front es) s s'
      → Delivered (back es) s' s''
      → Delivered es s s''
  both_halves es s s' s'' a b =
      let same : (r : List Event) → serialize_batch P s'.ctx r ≡ serialize_batch P s.ctx r =
        λ r. batch_after r (front es) s s' a in
      record {
        runs = a.runs ++ b.runs;
        whole =
            joined-append a.runs b.runs
            ∙ ap₂ ◌++◌ a.whole b.whole
            ∙ take-append-drop (length es / 2) es;
        bodies =
            b.bodies
            ∙ pile_same s.ctx s'.ctx b.runs s'.posted same
            ∙ ap (pile s.ctx b.runs) a.bodies
            ∙ sym (pile-append s.ctx a.runs b.runs s.posted);
        small =
            small-append s.ctx.max_batch_bytes s.ctx a.runs b.runs a.small
              (small_same _ _ s.ctx s'.ctx b.runs same (limit_after (front es) s s' a) b.small);
        sent_count = omega (
          arith,
          a.sent_count,
          b.sent_count,
          length-take (length es / 2) es,
          length-drop (length es / 2) es,
        );
        context =
            b.context
            ∙ ap
                (λ (g : Ctx). record g {
                  epoch_wall_ns = s''.ctx.epoch_wall_ns;
                  st_sent = s''.ctx.st_sent;
                })
                a.context;
        none_spilled = b.none_spilled ∙ a.none_spilled;
        limiter = b.limiter ∙ a.limiter;
      }

  -- Each event alone makes a batch within the limit.
  abbrev pub EachFits : Sender → List Event → Type 0
  EachFits s es = All (λ e. Small s.ctx.max_batch_bytes (serialize_batch P s.ctx (e ∷ []))) es
