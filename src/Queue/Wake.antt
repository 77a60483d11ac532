-- ===== src/Queue/Wake.antt =====
-- The `woken` latch of ph_queue_wake and ph_queue_wait.
use posthog_c.Base.{ℕ, zero, suc, ◌+◌, ◌-◌, ◌%◌, ◌≡◌, ◌∙◌, refl, true, false, List, [], ◌∷◌, arith}
use posthog_c.Queue.{Event, Queue, push, evict, pop_batch, wait, wait_blocks, wake}
use posthog_c.Queue.Run.{Op, put, pop, rouse, unpark, run}

-- No waiting thread resumes during these calls.
abbrev pub NoUnpark : List Op → Type 0
NoUnpark [] = Unit
NoUnpark (put e ∷ ops) = NoUnpark ops
NoUnpark (pop max ∷ ops) = NoUnpark ops
NoUnpark (rouse ∷ ops) = NoUnpark ops
NoUnpark (unpark ∷ ops) = ⊥

woken-push : (fill : Event → Event) (q : Queue) → (push fill q).woken ≡ q.woken
unfolding push evict
woken-push fill q = ground arith

woken-pop_batch : (max : ℕ) (q : Queue) → (pop_batch q max).1.woken ≡ q.woken
unfolding pop_batch
woken-pop_batch zero q = refl
woken-pop_batch (suc max) q =
    ground
      (arith, woken-pop_batch max (record q { head = (q.head + 1) % q.cap; size = q.size - 1 }))

woken-run : (ops : List Op) (q : Queue) → q.woken ≡ true → NoUnpark ops → (run q ops).1.woken ≡ true
unfolding run
woken-run [] q h n = h
woken-run (put e ∷ ops) q h n = woken-run ops (push (λ _. e) q) (woken-push (λ _. e) q ∙ h) n
woken-run (pop max ∷ ops) q h n = woken-run ops (pop_batch q max).1 (woken-pop_batch max q ∙ h) n
woken-run (rouse ∷ ops) q h n = woken-run ops (wake q) (unfold wake in refl) n
woken-run (unpark ∷ ops) q h n = elim n [ ]

-- A wake is not lost: whatever the other threads do to the ring before the next wait, that wait
-- does not park its thread, whatever its threshold; it resets the latch and changes nothing else.
pub wait-wake :
    (ops : List Op) (q : Queue) (threshold : ℕ) (others : Queue → Queue)
    → NoUnpark ops
    → let q' = (run (wake q) ops).1 in
      (wait_blocks q' threshold ≡ false) × (wait q' threshold others ≡ record q' { woken = false })
unfolding wait wait_blocks
wait-wake ops q threshold others n = ground (arith, woken-run ops (wake q) (unfold wake in refl) n)
