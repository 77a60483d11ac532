-- ===== src/Sender/Parts.antt =====
-- What a run of events in src/ph_native.c is divided into: parts that were sent, failed or spilled.
use posthog_c.Base.{
  ℕ, ◌+◌, ◌/◌, ◌%◌, ◌^◌, ◌≡◌, refl, sym, ap, ap₂, ◌∙◌, subst, true, List, [], ◌∷◌, ◌++◌, length,
  Bytes, arith, ◌<◌, ◌≤◌, ltb, ltb→lt, length-take, length-drop, suc, append_assoc,
  take-append-drop,
}
use posthog_c.Queue.{Event}
use posthog_c.Core.{Ctx}
use posthog_c.Serialize.{Platform, serialize_batch}
use posthog_c.Sender.{World, Sender, is_accepted, front, back}

-- The two halves of a run that has to be split.
pub halves :
    (es : List Event) (fuel : ℕ)
    → ltb 1 (length es) ≡ true
    → length es ≤ suc fuel
    → (0 < length (front es))
      × (0 < length (back es))
      × (length (front es) ≤ fuel)
      × (length (back es) ≤ fuel)
halves es fuel many h = omega (
  arith,
  ltb→lt 1 (length es) many,
  length-take (length es / 2) es,
  length-drop (length es / 2) es,
)

-- Consecutive events of a run that met the same end.
pub data Part : Type 0 where
  sent : List Event → Part
  failed : List Event → Part
  spilled : List Event → Part

abbrev pub events_of : List Part → List Event
events_of [] = []
events_of (sent es ∷ ps) = es ++ events_of ps
events_of (failed es ∷ ps) = es ++ events_of ps
events_of (spilled es ∷ ps) = es ++ events_of ps

abbrev pub sent_of : List Part → ℕ
sent_of [] = 0
sent_of (sent es ∷ ps) = length es + sent_of ps
sent_of (failed es ∷ ps) = sent_of ps
sent_of (spilled es ∷ ps) = sent_of ps

abbrev pub failed_of : List Part → ℕ
failed_of [] = 0
failed_of (sent es ∷ ps) = failed_of ps
failed_of (failed es ∷ ps) = length es + failed_of ps
failed_of (spilled es ∷ ps) = failed_of ps

module _ (P : Platform) (W : World) where
  -- Some answer to the batch of a sent part was of class 2xx, and the spill file gains one record for
  -- each spilled part: its events as a batch.
  abbrev pub Recorded : List Part → List Bytes → List Bytes → Type 0
  Recorded [] old new = new ≡ old
  Recorded (sent es ∷ ps) old new =
      (c : Ctx) × (tick : ℕ) × (is_accepted (W.post tick (serialize_batch P c es)).status ≡ true)
      × Recorded ps old new
  Recorded (failed es ∷ ps) old new = Recorded ps old new
  Recorded (spilled es ∷ ps) old new = (c : Ctx) × Recorded ps (serialize_batch P c es ∷ old) new

  -- Every event of the run met one end, in order, and the counters and the file say which.
  pub record Settled (es : List Event) (s s' : Sender) : Type 0 where
    pub parts : List Part
    pub whole : events_of parts ≡ es
    pub sent_count : s'.ctx.st_sent % 2 ^ 64 ≡ (s.ctx.st_sent + sent_of parts) % 2 ^ 64
    pub failed_count : s'.ctx.st_failed % 2 ^ 64 ≡ (s.ctx.st_failed + failed_of parts) % 2 ^ 64
    pub records : Recorded parts s.spilled s'.spilled

  events_of-append : (ps qs : List Part) → events_of (ps ++ qs) ≡ events_of ps ++ events_of qs
  events_of-append [] qs = refl
  events_of-append (sent es ∷ ps) qs =
      ap (λ t. es ++ t) (events_of-append ps qs)
      ∙ sym (append_assoc es (events_of ps) (events_of qs))
  events_of-append (failed es ∷ ps) qs =
      ap (λ t. es ++ t) (events_of-append ps qs)
      ∙ sym (append_assoc es (events_of ps) (events_of qs))
  events_of-append (spilled es ∷ ps) qs =
      ap (λ t. es ++ t) (events_of-append ps qs)
      ∙ sym (append_assoc es (events_of ps) (events_of qs))

  counts-append :
      (ps qs : List Part)
      → (sent_of (ps ++ qs) ≡ sent_of ps + sent_of qs)
        × (failed_of (ps ++ qs) ≡ failed_of ps + failed_of qs)
  counts-append [] qs = omega arith
  counts-append (sent es ∷ ps) qs = omega (arith, counts-append ps qs)
  counts-append (failed es ∷ ps) qs = omega (arith, counts-append ps qs)
  counts-append (spilled es ∷ ps) qs = omega (arith, counts-append ps qs)

  Recorded-append :
      (ps qs : List Part) (old mid new : List Bytes)
      → Recorded ps old mid
      → Recorded qs mid new
      → Recorded (ps ++ qs) old new
  Recorded-append [] qs old mid new h k = subst (λ m. Recorded qs m new) h k
  Recorded-append (sent es ∷ ps) qs old mid new (c, tick, ok, h) k =
      (c, tick, ok, Recorded-append ps qs old mid new h k)
  Recorded-append (failed es ∷ ps) qs old mid new h k = Recorded-append ps qs old mid new h k
  Recorded-append (spilled es ∷ ps) qs old mid new (c, h) k =
      (c, Recorded-append ps qs (serialize_batch P c es ∷ old) mid new h k)

  pub both_halves :
      (es : List Event) (s s' s'' : Sender)
      → Settled (front es) s s'
      → Settled (back es) s' s''
      → Settled es s s''
  both_halves es s s' s'' a b =
      let counts = counts-append a.parts b.parts in
      record {
        parts = a.parts ++ b.parts;
        whole =
            events_of-append a.parts b.parts
            ∙ ap₂ ◌++◌ a.whole b.whole
            ∙ take-append-drop (length es / 2) es;
        sent_count = omega (arith, counts.0, a.sent_count, b.sent_count);
        failed_count = omega (arith, counts.1, a.failed_count, b.failed_count);
        records =
            Recorded-append a.parts b.parts s.spilled s'.spilled s''.spilled a.records b.records;
      }
