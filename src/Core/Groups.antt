-- ===== src/Core/Groups.antt =====
-- The group memberships of src/ph_core.c: the loop of ph_group.
use posthog_c.Base.{
  ℕ, not, by_cases, suc, ◌≤◌, ◌≡◌, refl, ap, ◌∙◌, Bool, true, false, Option, none, some, List, [],
  ◌∷◌, ◌++◌, ◌||◌, ◌&&◌, subst, ltb, length, Bytes, bytes_eq, bytes_eq_iff, arith, Bool-cases,
  Option-cases, inl, inr, All, if◌then◌else◌, length-append, ltb→lt,
}
use posthog_c.Props.{IsValid, Props, key_cap}
use posthog_c.Reload.{context_changed, request_auto_refresh}
use posthog_c.Core.{Group, max_groups, Ctx, Doubles, Result, copy_capped, non_empty}
use posthog_c.Core.Submit.{Submission, submit_event, rate_limit_admit}
use posthog_c.Core.Blob.{GroupFits}
use posthog_c.Core.Api.{
  update_group, join_group, membership, with_group, context_after, group_user, auto_refresh,
  flags_context_changed,
}

-- Whether a group of the type is there.
unfoldable pub has_type : List Group → Bytes → Bool
has_type [] type = false
has_type (g ∷ gs) type = let rest = has_type gs type in if bytes_eq g.type type then true else rest

abbrev pub UniqueTypes : List Group → Type 0
UniqueTypes [] = Unit
UniqueTypes (g ∷ gs) = (has_type gs g.type ≡ false) × UniqueTypes gs

abbrev pub Member : Group → Type 0
Member g = GroupFits g × IsValid g.props

-- What the membership arrays keep.
pub record Members (gs : List Group) : Type 0 where
  pub few : length gs ≤ max_groups
  pub fit : All Member gs
  pub unique : UniqueTypes gs

-- The key of a type: the abstract view of the memberships is this map.
unfoldable pub key_of : List Group → Bytes → Option Bytes
key_of [] type = none
key_of (g ∷ gs) type =
    let rest = key_of gs type in if bytes_eq g.type type then some g.key else rest

-- What an update keeps.
abbrev Updated : List Group → List Group → Type 0
Updated gs gs' =
    (length gs' ≡ length gs)
    × (All Member gs → All Member gs')
    × ((t : Bytes) → has_type gs' t ≡ has_type gs t)
    × (UniqueTypes gs → UniqueTypes gs')

some-inj {ℓ} : {A : Type ℓ} {x y : A} → some x ≡ some y → x ≡ y
some-inj e = cc

Updated-here :
    (new g : Group) (gs : List Group)
    → Member new
    → Updated (g ∷ gs) (record g { key = new.key; props = new.props } ∷ gs)
unfolding has_type
Updated-here new g gs ((nt, nl, nk, nkl), np) =
    (refl, λ h. (((h.0.0.0, h.0.0.1, nk, nkl), np), h.1), λ t. refl, λ u. u)

Updated-behind : (g : Group) (gs gs' : List Group) → Updated gs gs' → Updated (g ∷ gs) (g ∷ gs')
unfolding has_type
Updated-behind g gs gs' (len, fit, same, unique) =
    (ap suc len, λ h. (h.0, fit h.1), λ t. rw (same t) refl, λ u. (same g.type ∙ u.0, unique u.1))

Updated-Members :
    (new : Group) (gs gs' : List Group)
    → Member new
    → update_group new gs ≡ some gs'
    → Updated gs gs'
unfolding update_group
Updated-Members new [] gs' m h = absurd (no h)
  where
    no : none ≡ some gs' → ⊥
    no e = cc
Updated-Members new (g ∷ gs) gs' m h = elim (Bool-cases (bytes_eq g.type new.type)) [
  | inl e ↦ subst (Updated (g ∷ gs)) (some-inj (rw e at h)) (Updated-here new g gs m)
  | inr ne ↦ elim (Option-cases (update_group new gs)) [
    | inl n ↦ ground arith
    | inr (r, e) ↦
        subst (Updated (g ∷ gs)) (some-inj (rw (ne, e) at h))
          (Updated-behind g gs r (Updated-Members new gs r m e))
  ]
]

update_group-none :
    (new : Group) (gs : List Group) → update_group new gs ≡ none → has_type gs new.type ≡ false
unfolding update_group has_type
update_group-none new [] h = refl
update_group-none new (g ∷ gs) h = elim (Option-cases (update_group new gs)) [
  | inl n ↦ ground (arith, update_group-none new gs n)
  | inr (r, e) ↦ ground arith
]

has_type-snoc :
    (gs : List Group) (g : Group) (t : Bytes)
    → has_type (gs ++ (g ∷ [])) t ≡ (if has_type gs t then true else bytes_eq g.type t)
unfolding has_type
has_type-snoc [] g t = ground arith
has_type-snoc (x ∷ gs) g t = ground (arith, has_type-snoc gs g t)

snoc-Unique :
    (gs : List Group) (g : Group)
    → UniqueTypes gs
    → has_type gs g.type ≡ false
    → UniqueTypes (gs ++ (g ∷ []))
unfolding has_type
snoc-Unique [] g u h = (refl, tt)
snoc-Unique (x ∷ gs) g (f, u) h = (
  ground (arith, has_type-snoc gs g x.type, bytes_eq_iff x.type g.type, bytes_eq_iff g.type x.type),
  snoc-Unique gs g u (ground arith),
)

snoc-fit : (gs : List Group) (g : Group) → All Member gs → Member g → All Member (gs ++ (g ∷ []))
snoc-fit [] g h m = (m, tt)
snoc-fit (x ∷ gs) g (h, hs) m = (h, snoc-fit gs g hs m)

joined :
    (new : Group) (gs : List Group)
    → Member new
    → Members gs
    → has_type gs new.type ≡ false
    → let r : List Group × Bool =
        if ltb (length gs) max_groups then (gs ++ (new ∷ []), true) else (gs, false) in
      Members r.0
joined new gs m v n = elim (Bool-cases (ltb (length gs) max_groups)) [
  | inl room ↦ rw room (record {
    few = omega (arith, length-append gs (new ∷ []), ltb→lt _ _ room);
    fit = snoc-fit gs new v.fit m;
    unique = snoc-Unique gs new v.unique n;
  })
  | inr no_room ↦ rw no_room v
]

pub join_group-Members :
    (new : Group) (gs : List Group) → Member new → Members gs → Members (join_group new gs).0
unfolding join_group
join_group-Members new gs m v = elim (Option-cases (update_group new gs)) [
  | inr (gs', e) ↦
      let r = Updated-Members new gs gs' m e in
      rw (e, join_group)
        (record { few = omega (arith, r.0, v.few); fit = r.1 v.fit; unique = r.3 v.unique })
  | inl n ↦ rw (n, join_group) (joined new gs m v (update_group-none new gs n))
]

updated_key :
    (new : Group) (gs gs' : List Group) (t : Bytes)
    → update_group new gs ≡ some gs'
    → (key_of gs' t ≡ (if bytes_eq new.type t then some new.key else key_of gs t))
      × (has_type gs new.type ≡ true)
unfolding update_group key_of has_type
updated_key new [] gs' t h = ground arith
updated_key new (g ∷ gs) gs' t h = elim (Option-cases (update_group new gs)) [
  | inl n ↦ ground (arith, bytes_eq_iff g.type new.type)
  | inr (r, e) ↦ ground (
    arith,
    updated_key new gs r t e,
    bytes_eq_iff g.type new.type,
    bytes_eq_iff g.type t,
    bytes_eq_iff new.type t,
  )
]

joined_key :
    (new : Group) (gs : List Group) (t : Bytes)
    → has_type gs new.type ≡ false
    → key_of (gs ++ (new ∷ [])) t ≡ (if bytes_eq new.type t then some new.key else key_of gs t)
unfolding has_type key_of
joined_key new [] t h = ground arith
joined_key new (g ∷ gs) t h = ground (
  arith,
  joined_key new gs t,
  bytes_eq_iff g.type new.type,
  bytes_eq_iff g.type t,
  bytes_eq_iff new.type t,
)

-- Whether there is a group of the type, or room for one.
abbrev pub has_place : Bytes → List Group → Bool
has_place type gs = has_type gs type || ltb (length gs) max_groups

-- The keys after the loop, and whether it has changed something.
join_group_lem :
    (new : Group) (gs : List Group) (t : Bytes)
    → (key_of (join_group new gs).0 t
        ≡ (if (join_group new gs).1 && bytes_eq new.type t then some new.key else key_of gs t))
      × ((join_group new gs).1 ≡ has_place new.type gs)
unfolding join_group
join_group_lem new gs t = elim (Option-cases (update_group new gs)) [
  | inr (gs', e) ↦ rw (e, join_group) (ground (arith, updated_key new gs gs' t e))
  | inl n ↦ rw (n, join_group) (ground (arith, joined_key new gs t, update_group-none new gs n))
]

-- What a submission leaves of the parts that a group call changes.
record Kept (g g' : Ctx) : Type 0 where
  same_groups : g'.groups ≡ g.groups
  same_flags : g'.flags ≡ g.flags
  same_reload : g'.reload ≡ g.reload

submit_event-Kept :
    (D : Doubles) (mono : ℕ) (s : Submission) (g : Ctx) → Kept g (submit_event D mono s g).0
unfolding submit_event
submit_event-Kept D mono s g =
    by_cases (λ (r : Ctx × Result). Kept g r.0) (not g.enabled)
      (λ off. record { same_groups = refl; same_flags = refl; same_reload = refl })
      (λ on.
        by_cases (λ (r : Ctx × Result). Kept g r.0) (rate_limit_admit D s.kind mono g.bucket).1
          (λ admitted. record { same_groups = refl; same_flags = refl; same_reload = refl })
          (λ refused. record { same_groups = refl; same_flags = refl; same_reload = refl }))

-- Where the context has changed, no flag value is left and a reload for the new context is scheduled.
context_after_lem :
    (changed : Bool) (g : Ctx)
    → g.enabled ≡ true
    → ((context_after changed g).groups ≡ g.groups)
      × ((context_after changed g).flags ≡ (if changed then [] else g.flags))
      × ((context_after changed g).reload
          ≡ (if changed then request_auto_refresh (context_changed g.reload) else g.reload))
unfolding auto_refresh flags_context_changed
context_after_lem true g e = rw e (refl, refl, refl)
context_after_lem false g e = (refl, refl, refl)

-- The state after a group of the type and key is placed, or is left out.
pub record Placed (g : Ctx) (type key : Bytes) (g' : Ctx) : Type 0 where
  pub keys :
      (t : Bytes)
      → key_of g'.groups t
        ≡ (if has_place type g.groups && bytes_eq type t then some key else key_of g.groups t)
  pub flag_values : g'.flags ≡ (if has_place type g.groups then [] else g.flags)
  pub reloads : g'.reload ≡ (
      if has_place type g.groups then request_auto_refresh (context_changed g.reload) else g.reload)

-- A group call on a running instance sets the key of its type, each cut to its array, and of no other
-- type; it drops the flag values and schedules a reload for a new context. Only a new type that meets
-- four others is left out, and then keys, flag values and reload scheduler stay as they are.
pub group_user_lem :
    (D : Doubles) (mono a b : ℕ) (xs ys : Bytes) (props : Option Props) (g : Ctx)
    → g.enabled ≡ true
    → Placed g
        (copy_capped key_cap (some (a ∷ xs)))
        (copy_capped key_cap (some (b ∷ ys)))
        (group_user D mono (some (a ∷ xs)) (some (b ∷ ys)) props g)
unfolding group_user
group_user_lem D mono a b xs ys props g on =
    let new = membership g (some (a ∷ xs)) (some (b ∷ ys)) props in
    let lem = join_group_lem new g.groups in
    let after =
      context_after_lem (join_group new g.groups).1
        (record g { groups = (join_group new g.groups).0 }) on in
    let kept = submit_event-Kept D mono _ (with_group new g) in
    by_cases (λ h. Placed g new.type new.key h)
      (not g.enabled || not (non_empty (some (a ∷ xs))) || not (non_empty (some (b ∷ ys))))
      (λ off. absurd (ground arith))
      (λ running. record {
        keys = λ t.
            ap (λ gs. key_of gs t) (kept.same_groups ∙ after.0)
            ∙ (lem t).0
            ∙ ap
                (λ changed.
                  if changed && bytes_eq new.type t then some new.key else key_of g.groups t)
                (lem t).1;
        flag_values =
            kept.same_flags ∙ after.1 ∙ ap (λ changed. if changed then [] else g.flags) (lem []).1;
        reloads =
            kept.same_reload
            ∙ after.2
            ∙ ap
                (λ changed.
                  if changed then request_auto_refresh (context_changed g.reload) else g.reload)
                (lem []).1;
      })
