-- ===== src/Queue/Spec.antt =====
-- What the ring promises: a first-in first-out sequence of at most `cap` events that loses its
-- oldest event when a push finds it full, and counts the losses.
use posthog_c.Base.{ℕ, ◌+◌, ◌%◌, ◌^◌, List, [], ◌∷◌, ◌++◌, length, take, drop, ◌==◌, if◌then◌else◌}
use posthog_c.Queue.{Event}

pub record Fifo : Type 0 where
  pub events : List Event
  pub lost : ℕ

module _ (cap : ℕ) where
  unfoldable pub push : Event → Fifo → Fifo
  push e s =
      let full = length s.events == cap in
      record {
        events = (if full then drop 1 s.events else s.events) ++ (e ∷ []);
        lost = if full then (s.lost + 1) % 2 ^ 64 else s.lost;
      }

unfoldable pub pop_batch : ℕ → Fifo → List Event × Fifo
pop_batch max s = (take max s.events, record s { events = drop max s.events })
