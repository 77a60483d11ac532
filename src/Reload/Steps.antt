-- ===== src/Reload/Steps.antt =====
-- Every interleaving of hosts, identity changes and the sender on the reload scheduler of
-- src/ph_flags.c: `g_ph.lock` makes each call one step.
use posthog_c.Base.{
  ℕ, ◌<◌, ◌≡◌, ◌≢◌, inl, inr, refl, ap, ◌∙◌, true, false, not, ◌&&◌, Option, none, some, List, [],
  ◌∷◌, ◌==◌, if◌then◌else◌, map, All, arith, Bool-cases,
}
use posthog_c.Reload.{
  ReloadStatus, superseded, Ticket, is_pending, finish, abort_ticket, mark, mark_superseded,
}
use posthog_c.Reload.Valid.{is_live, serves, Served, Unique, Follows, All_weaken}

-- What a map that keeps the ids leaves of the order of the slots.
module _ (f : Ticket → Ticket) (same : (t : Ticket) → (f t).request_id ≡ t.request_id) where
  map-Follows :
      (t : Ticket) (ts : List Ticket) → All (Follows t) ts → All (Follows (f t)) (map f ts)
  map-Follows t [] h = tt
  map-Follows t (u ∷ ts) (inl z, hs) = (inl (same u ∙ z), map-Follows t ts hs)
  map-Follows t (u ∷ ts) (inr (p, ne), hs) =
      (inr (rw (same t) p, rw (same t, same u) ne), map-Follows t ts hs)

  pub map-Unique : (ts : List Ticket) → Unique ts → Unique (map f ts)
  map-Unique [] h = tt
  map-Unique (t ∷ ts) (h, hs) = (map-Follows t ts h, map-Unique ts hs)

abbrev pub supersede : ℕ → Ticket → Ticket
supersede gen t =
    if not (t.request_id == 0) && is_pending t.status && not (t.context_gen == gen)
    then record t { status = superseded }
    else t

pub mark_superseded-map :
    (gen : ℕ) (ts : List Ticket) → mark_superseded gen ts ≡ map (supersede gen) ts
unfolding mark_superseded
mark_superseded-map gen [] = refl
mark_superseded-map gen (t ∷ ts) = ap (λ r. supersede gen t ∷ r) (mark_superseded-map gen ts)

-- A ticket of an older context is no longer live after the change.
pub superseded_Served :
    (q f : Option (ℕ × ℕ)) (gen gen' : ℕ) (q' f' : Option (ℕ × ℕ))
    → gen ≢ gen'
    → (ts : List Ticket) → All (Served q f gen) ts
    → All (Served q' f' gen') (map (supersede gen') ts)
superseded_Served q f gen gen' q' f' ne [] h = tt
superseded_Served q f gen gen' q' f' ne (t ∷ ts) (h, hs) = (
  record { current = λ e. absurd (ne (dead e)); job = λ e. absurd (ne (dead e)) },
  superseded_Served q f gen gen' q' f' ne ts hs,
)
  where
    dead : is_live (supersede gen' t) ≡ true → gen ≡ gen'
    dead e = ground (arith, h.current)

pub aborted_Served :
    (gen : ℕ) (q f : Option (ℕ × ℕ)) (ts : List Ticket) → All (Served q f gen) (map abort_ticket ts)
aborted_Served gen q f [] = tt
aborted_Served gen q f (t ∷ ts) = (
  record { current = λ e. absurd (dead e); job = λ e. absurd (dead e) },
  aborted_Served gen q f ts,
)
  where
    dead : is_live (abort_ticket t) ≡ true → ⊥
    dead e = ground arith

-- The ids stay, so the order does.
mark-Follows :
    (id : ℕ) (status : ReloadStatus) (t : Ticket) (ts : List Ticket)
    → All (Follows t) ts
    → All (Follows t) (mark id status ts)
unfolding mark
mark-Follows id status t [] h = tt
mark-Follows id status t (u ∷ ts) (h, hs) = elim (Bool-cases (u.request_id == id)) [
  | inl e ↦ rw e (ground (arith, h), hs)
  | inr e ↦ rw e (h, mark-Follows id status t ts hs)
]

pub mark-Unique :
    (id : ℕ) (status : ReloadStatus) (ts : List Ticket) → Unique ts → Unique (mark id status ts)
unfolding mark
mark-Unique id status [] h = tt
mark-Unique id status (t ∷ ts) (h, hs) = elim (Bool-cases (t.request_id == id)) [
  | inl e ↦ elim (Bool-cases (is_pending t.status)) [
    | inl p ↦
        rw (e, p)
          (All_weaken (Follows t) (Follows (record t { status = status })) (λ u x. x) ts h, hs)
    | inr p ↦ rw (e, p) (h, hs)
  ]
  | inr e ↦ rw e (mark-Follows id status t ts h, mark-Unique id status ts hs)
]

finish-serves :
    (f : Option (ℕ × ℕ)) (id i : ℕ) → i ≢ id → serves f i ≡ true → serves (finish f id) i ≡ true
finish-serves none id i ne h = h
finish-serves (some (j, g)) id i ne h = ground arith

others_Served :
    (q f : Option (ℕ × ℕ)) (gen id : ℕ) (t : Ticket) (ts : List Ticket)
    → t.request_id ≡ id
    → 0 < id
    → All (Follows t) ts
    → All (Served q f gen) ts
    → All (Served q (finish f id) gen) ts
others_Served q f gen id t [] e pos fs h = tt
others_Served q f gen id t (u ∷ ts) e pos (fo, fs) (h, hs) = (
  record {
    current = h.current;
    job = λ live. ground (arith, fo, h.job live, finish-serves f id u.request_id);
  },
  others_Served q f gen id t ts e pos fs hs,
)

-- The job that ends leaves no ticket waiting for it.
pub mark-Served :
    (q f : Option (ℕ × ℕ)) (gen id : ℕ) (status : ReloadStatus) (ts : List Ticket)
    → is_pending status ≡ false
    → 0 < id
    → Unique ts
    → All (Served q f gen) ts
    → All (Served q (finish f id) gen) (mark id status ts)
unfolding mark
mark-Served q f gen id status [] done pos u h = tt
mark-Served q f gen id status (t ∷ ts) done pos (fo, u) (h, hs) =
    elim (Bool-cases (t.request_id == id)) [
      | inl e ↦ rw e (
        record { current = λ live. ground (arith, h.current); job = λ live. ground arith },
        others_Served q f gen id t ts (ground arith) pos fo hs,
      )
      | inr e ↦ rw e (
        record {
          current = h.current;
          job = λ live. ground (arith, h.job live, finish-serves f id t.request_id);
        },
        mark-Served q f gen id status ts done pos u hs,
      )
    ]
