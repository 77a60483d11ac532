-- ===== src/Reload/Valid.antt =====
-- The invariant of the reload scheduler of src/ph_flags.c, and the list operations that keep it.
use posthog_c.Base.{
  ℕ, zero, suc, ◌-◌, ◌≤◌, ◌<◌, ◌≡◌, ◌≢◌, ◌⊎◌, inl, inr, refl, sym, ◌∙◌, Bool, true, false, not,
  ◌&&◌, ◌||◌, Option, none, some, List, [], ◌∷◌, ◌==◌, if◌then◌else◌, set, All, arith, Bool-cases,
  ==_iff,
}
use posthog_c.Reload.{
  pending, Ticket, Reload, is_pending, gives_way, best_slot, Slot, reuse, existing, nowhere,
  pick_slot, alloc_record, bump,
}

-- A ticket on which a caller may wait.
abbrev pub is_live : Ticket → Bool
is_live t = not (t.request_id == 0) && is_pending t.status

abbrev pub serves : Option (ℕ × ℕ) → ℕ → Bool
serves none id = false
serves (some (i, g)) id = i == id

-- A live ticket is of the current context, and a job that is queued or in flight will end it.
pub record Served (queued inflight : Option (ℕ × ℕ)) (gen : ℕ) (t : Ticket) : Type 0 where
  pub current : is_live t ≡ true → t.context_gen ≡ gen
  pub job : is_live t ≡ true → (serves queued t.request_id || serves inflight t.request_id) ≡ true

-- Behind a free slot all slots are free, and no id stands twice.
abbrev pub Follows : Ticket → Ticket → Type 0
Follows t u = (u.request_id ≡ 0) ⊎ ((0 < t.request_id) × (u.request_id ≢ t.request_id))

abbrev pub Unique : List Ticket → Type 0
Unique [] = Unit
Unique (t ∷ ts) = All (Follows t) ts × Unique ts

abbrev pub IsJob : Option (ℕ × ℕ) → Type 0
IsJob none = Unit
IsJob (some (id, g)) = 0 < id

abbrev pub IsFor : ℕ → Option (ℕ × ℕ) → Type 0
IsFor gen none = Unit
IsFor gen (some (id, g)) = g ≡ gen

pub record IsValid (r : Reload) : Type 0 where
  pub tickets : All (Served r.queued r.inflight r.context_gen) r.history
  pub unique : Unique r.history
  pub queued_id : IsJob r.queued
  pub inflight_id : IsJob r.inflight
  pub queued_current : IsFor r.context_gen r.queued

pub bump_pos : (n : ℕ) → 0 < bump n
unfolding bump
bump_pos n = ground arith

pub bump-ne : (n : ℕ) → bump n ≢ n
unfolding bump
bump-ne n = ground arith

module _ (P Q : Ticket → Type 0) where
  pub All_weaken : ((t : Ticket) → P t → Q t) → (ts : List Ticket) → All P ts → All Q ts
  All_weaken f [] h = tt
  All_weaken f (t ∷ ts) (h, hs) = (f t h, All_weaken f ts hs)

module _ (P : Ticket → Type 0) where
  pub All-set : (ts : List Ticket) (i : ℕ) (u : Ticket) → All P ts → P u → All P (set ts i u)
  All-set [] i u h p = tt
  All-set (t ∷ ts) zero u (h, hs) p = (p, hs)
  All-set (t ∷ ts) (suc i) u (h, hs) p = (h, All-set ts i u hs p)

-- The first `n` slots are in use.
abbrev InUse : ℕ → List Ticket → Type 0
InUse zero ts = Unit
InUse (suc n) [] = Unit
InUse (suc n) (t ∷ ts) = (0 < t.request_id) × InUse n ts

abbrev Lacks : ℕ → List Ticket → Type 0
Lacks id ts = All (λ t. t.request_id ≢ id) ts

set-Follows :
    (t : Ticket) (ts : List Ticket) (i : ℕ) (u : Ticket)
    → All (Follows t) ts
    → 0 < t.request_id
    → t.request_id ≢ u.request_id
    → All (Follows t) (set ts i u)
set-Follows t ts i u h pos ne = All-set (Follows t) ts i u h (inr (pos, λ e. ne (sym e)))

zeros_lack :
    (t : Ticket) (ts : List Ticket) (id : ℕ)
    → 0 < id
    → t.request_id ≡ 0
    → All (Follows t) ts
    → Lacks id ts
zeros_lack t [] id pos e h = tt
zeros_lack t (u ∷ ts) id pos e (inl z, hs) = (omega arith, zeros_lack t ts id pos e hs)
zeros_lack t (u ∷ ts) id pos e (inr (p, ne), hs) = absurd (omega arith)

others_follow :
    (t u : Ticket) (ts : List Ticket)
    → 0 < u.request_id
    → Lacks u.request_id ts
    → All (Follows u) ts
others_follow t u [] pos h = tt
others_follow t u (x ∷ ts) pos (h, hs) = (inr (pos, h), others_follow t u ts pos hs)

set-Unique :
    (ts : List Ticket) (i : ℕ) (u : Ticket)
    → Unique ts
    → 0 < u.request_id
    → Lacks u.request_id ts
    → InUse i ts
    → Unique (set ts i u)
set-Unique [] i u h pos lack used = tt
set-Unique (t ∷ ts) zero u (h, hs) pos (l, ls) used = (others_follow t u ts pos ls, hs)
set-Unique (t ∷ ts) (suc i) u (h, hs) pos (l, ls) (used, more) =
    (set-Follows t ts i u h used l, set-Unique ts i u hs pos ls more)

-- Where the loop of alloc_reload_record_locked stops to reuse slot `j`.
abbrev Picked : ℕ → ℕ → Option (ℕ × ℕ) → List Ticket → ℕ → Type 0
Picked id i best ts j = Lacks id ts × ((best_slot best ≡ reuse j) ⊎ ((i ≤ j) × InUse (j - i) ts))

InUse-suc :
    (i j : ℕ) (t : Ticket) (ts : List Ticket)
    → suc i ≤ j
    → 0 < t.request_id
    → InUse (j - suc i) ts
    → InUse (j - i) (t ∷ ts)
InUse-suc i j t ts h pos used = let e : j - i ≡ suc (j - suc i) = omega arith in rw e (pos, used)

reuse-inj : (i j : ℕ) → reuse i ≡ reuse j → i ≡ j
reuse-inj i j h = cc

used_none : (i : ℕ) (ts : List Ticket) → InUse (i - i) ts
used_none i ts = let e : i - i ≡ 0 = omega arith in rw e tt

Picked-step :
    (id i j : ℕ) (best : Option (ℕ × ℕ)) (t : Ticket) (ts : List Ticket)
    → t.request_id ≢ id
    → 0 < t.request_id
    → Picked id (suc i) (if gives_way t best then some (i, t.request_id) else best) ts j
    → Picked id i best (t ∷ ts) j
Picked-step id i j best t ts ne pos (ls, inr (le, used)) =
    ((ne, ls), inr (omega arith, InUse-suc i j t ts le pos used))
Picked-step id i j best t ts ne pos (ls, inl e) = elim (Bool-cases (gives_way t best)) [
  | inr no_way ↦ ((ne, ls), inl (rw no_way at e))
  | inl way ↦
      let same : i ≡ j = reuse-inj i j (rw way at e) in
      ((ne, ls), inr (omega arith, rw (← same) (used_none i (t ∷ ts))))
]

pick_slot_lem :
    (ts : List Ticket) (id i j : ℕ) (best : Option (ℕ × ℕ))
    → 0 < id
    → Unique ts
    → pick_slot id i best ts ≡ reuse j
    → Picked id i best ts j
unfolding pick_slot
pick_slot_lem [] id i j best pos u h = (tt, inl h)
pick_slot_lem (t ∷ ts) id i j best pos (f, u) h = elim (Bool-cases (t.request_id == id)) [
  | inl e ↦ absurd (reuse_ne i j (sym (rw e refl) ∙ h))
  | inr ne ↦ elim (Bool-cases (t.request_id == 0)) [
    | inl z ↦
        let same : i ≡ j = reuse-inj i j (sym (rw (ne, z) refl) ∙ h) in
        (
          (ground arith, zeros_lack t ts id pos ((==_iff _ _).0 z) f),
          inr (omega arith, rw (← same) (used_none i (t ∷ ts))),
        )
    | inr nz ↦
        Picked-step id i j best t ts (ground arith) (ground arith)
          (pick_slot_lem ts id (suc i) j _ pos u (sym (rw (ne, nz) refl) ∙ h))
  ]
]
  where
    reuse_ne : (i j : ℕ) → existing i ≡ reuse j → ⊥
    reuse_ne i j e = cc

-- A new ticket takes a slot, and the slots stay well ordered.
pub alloc_record-Unique :
    (id gen : ℕ) (ts : List Ticket) → 0 < id → Unique ts → Unique (alloc_record id gen ts).0
unfolding alloc_record
alloc_record-Unique id gen ts pos u = go (pick_slot id 0 none ts) refl
  where
    new : Ticket
    new = record { request_id = id; context_gen = gen; status = pending }

    placed : (i : ℕ) → Picked id 0 none ts i → Unique (set ts i new)
    placed i (lack, inl e) = absurd (no_slot i e)
      where
        no_slot : (i : ℕ) → nowhere ≡ reuse i → ⊥
        no_slot i e = cc
    placed i (lack, inr (le, used)) =
        let e : i - 0 ≡ i = omega arith in set-Unique ts i new u pos lack (rw e at used)

    go : (s : Slot) → pick_slot id 0 none ts ≡ s → Unique (alloc_record id gen ts).0
    go (existing i) e = rw (e, alloc_record) u
    go nowhere e = rw (e, alloc_record) u
    go (reuse i) e = rw (e, alloc_record) (placed i (pick_slot_lem ts id 0 i none pos u e))

module _ (P : Ticket → Type 0) where
  pub All-alloc_record :
      (id gen : ℕ) (ts : List Ticket)
      → All P ts
      → P (record { request_id = id; context_gen = gen; status = pending })
      → All P (alloc_record id gen ts).0
  unfolding alloc_record
  All-alloc_record id gen ts h p = go (pick_slot id 0 none ts) refl
    where
      go : (s : Slot) → pick_slot id 0 none ts ≡ s → All P (alloc_record id gen ts).0
      go (existing i) e = rw (e, alloc_record) h
      go nowhere e = rw (e, alloc_record) h
      go (reuse i) e = rw (e, alloc_record) (All-set P ts i _ h p)
