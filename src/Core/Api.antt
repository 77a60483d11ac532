-- ===== src/Core/Api.antt =====
-- The public calls of src/ph_core.c on an instance: capture, identity, groups, super properties. A
-- NULL argument is `none`.
use posthog_c.Base.{
  ℕ, ◌+◌, ◌*◌, ◌%◌, ◌^◌, Bool, true, false, not, ◌||◌, Option, none, some, List, [], ◌∷◌, ◌++◌,
  length, take, Bytes, bytes_eq, ltb, leb, if◌then◌else◌, codes,
}
use posthog_c.Base.Int.{ℤ, lt_nat, pos_part}
use posthog_c.Props.{Property, Props, empty_props, key_cap, max_props, set_str}
use posthog_c.Props.Util.{updated, copy_explicit, apply_denylist}
use posthog_c.Queue.{wake}
use posthog_c.Reload.{context_changed, request_auto_refresh}
use posthog_c.Core.{
  Result, ok, disabled, bad_arg, truncated, EventKind, capture, identify, alias, group, Doubles,
  Group, Ctx, distinct_id_cap, max_groups, copy_capped, non_empty,
}
use posthog_c.Core.Submit.{derive, profile, Submission, copy_capture_event_name, submit_event}

-- The submission of a capture.
abbrev pub captured : Bytes → Option Props → Submission
captured name props = record {
  kind = capture;
  base_flags = 0;
  name = (copy_capture_event_name name).0;
  did_override = none;
  props = props;
  profile_mode = derive;
  stamp = true;
  extra = [];
}

-- `r == PH_OK && truncated ? PH_ERR_TRUNCATED : r`
abbrev pub with_cut : Bool → Result → Result
with_cut cut ok = if cut then truncated else ok
with_cut cut r = r

-- `ph_capture`
unfoldable pub capture_event : Doubles → ℕ → Option Bytes → Option Props → Ctx → Ctx × Result
capture_event D mono none props g = (g, if g.enabled then bad_arg else disabled)
capture_event D mono (some []) props g = (g, if g.enabled then bad_arg else disabled)
capture_event D mono (some (b ∷ bs)) props g =
    let (g', r) = submit_event D mono (captured (b ∷ bs) props) g in
    (g', with_cut (copy_capture_event_name (b ∷ bs)).1 r)

-- `immediate_flag_props`
unfoldable pub immediate_flag_props : Ctx → Option Props → Props
immediate_flag_props g none = empty_props
immediate_flag_props g (some p) = if g.has_hook then empty_props else apply_denylist p g.denylist

-- `ph__flags_context_changed_locked`
unfoldable pub flags_context_changed : Ctx → Ctx
flags_context_changed g = record g { flags = []; reload = context_changed g.reload }

-- `ph__flags_request_auto_refresh`
unfoldable pub auto_refresh : Ctx → Ctx
auto_refresh g =
    if g.enabled
    then record g { reload = request_auto_refresh g.reload; queue = wake g.queue }
    else g

-- A control event: no super properties, and a profile where the policy allows one.
abbrev pub control : EventKind → Bytes → Bytes → Option Props → Submission
control kind name did props = record {
  kind = kind;
  base_flags = 0;
  name = name;
  did_override = some did;
  props = props;
  profile_mode = profile;
  stamp = false;
  extra = [];
}

module _ (D : Doubles) where
  -- `ph_identify`
  unfoldable pub identify_user : ℕ → Option Bytes → Option Props → Ctx → Ctx
  identify_user mono none set_props g = g
  identify_user mono (some did) set_props g =
      if not g.enabled || not (non_empty (some did))
      then g
      else let g1 = flags_context_changed (record g {
        distinct_id = copy_capped distinct_id_cap (some did);
        identified = true;
        flag_person_props = immediate_flag_props g set_props;
      }) in
        auto_refresh (submit_event D mono (control identify (codes "$identify") did set_props) g1).0

  -- `ph_alias`
  unfoldable pub alias_user : ℕ → Option Bytes → Option Bytes → Ctx → Ctx
  alias_user mono new_id old_id g =
      let new_capped = copy_capped distinct_id_cap new_id in
      let old_capped = copy_capped distinct_id_cap old_id in
      let p =
        updated empty_props (set_str (some empty_props) (some (codes "alias")) (some new_capped)) in
      if not g.enabled || not (non_empty new_id) || not (non_empty old_id)
      then g
      else (submit_event D mono (control alias (codes "$create_alias") old_capped (some p)) g).0

-- `ph_get_distinct_id`: the string in `out`, where one is written.
unfoldable pub get_distinct_id : Ctx → Bool → ℤ → Option Bytes × Result
get_distinct_id g has_out cap =
    if not has_out || lt_nat cap 1
    then (none, bad_arg)
    else if not g.enabled
    then (some [], disabled)
    else (
      some (copy_capped (pos_part cap) (some g.distinct_id)),
      if leb (pos_part cap) (length g.distinct_id) then truncated else ok,
    )

-- What `ph_reset` clears, under the new id.
abbrev pub forgotten : Bytes → Ctx → Ctx
forgotten anon_id g = record g {
  distinct_id = copy_capped distinct_id_cap (some anon_id);
  identified = false;
  super = empty_props;
  flag_person_props = empty_props;
  groups = [];
}

-- `ph_reset`; `anon_id` is the UUID of `gen_anon_id`.
unfoldable pub reset : Bytes → Ctx → Ctx
reset anon_id g =
    if not g.enabled then g else auto_refresh (flags_context_changed (forgotten anon_id g))

-- The membership loop of `ph_group`; `none` says that no group has the type.
unfoldable pub update_group : Group → List Group → Option (List Group)
update_group new [] = none
update_group new (g ∷ gs) =
    let rest = update_group new gs in
    if bytes_eq g.type new.type
    then some (record g { key = new.key; props = new.props } ∷ gs)
    else elim rest [ none ↦ none | some gs' ↦ some (g ∷ gs') ]

-- The memberships afterwards, and `context_changed`.
unfoldable pub join_group : Group → List Group → List Group × Bool
join_group new gs = elim (update_group new gs) [
  | some gs' ↦ (gs', true)
  | none ↦ if ltb (length gs) max_groups then (gs ++ (new ∷ []), true) else (gs, false)
]

-- The properties of `$groupidentify`.
unfoldable pub group_event_props : Bytes → Bytes → Option Props → Props
group_event_props type key set_props =
    let p1 =
      updated empty_props (set_str (some empty_props) (some (codes "$group_type")) (some type)) in
    let p2 = updated p1 (set_str (some p1) (some (codes "$group_key")) (some key)) in
    elim set_props [ none ↦ p2 | some p ↦ copy_explicit p2 p.items ]

abbrev pub context_after : Bool → Ctx → Ctx
context_after changed g = if changed then auto_refresh (flags_context_changed g) else g

-- The membership that the arguments of `ph_group` name.
abbrev pub membership : Ctx → Option Bytes → Option Bytes → Option Props → Group
membership g type key set_props = record {
  type = copy_capped key_cap type;
  key = copy_capped key_cap key;
  props = immediate_flag_props g set_props;
}

-- The context before `$groupidentify` is sent.
abbrev pub with_group : Group → Ctx → Ctx
with_group new g =
    context_after (join_group new g.groups).1 (record g { groups = (join_group new g.groups).0 })

-- `ph_group`
unfoldable pub group_user : Doubles → ℕ → Option Bytes → Option Bytes → Option Props → Ctx → Ctx
group_user D mono type key set_props g =
    let new = membership g type key set_props in
    let did = take (2 * key_cap + 3) (codes "$" ++ (new.type ++ (codes "_" ++ new.key))) in
    if not g.enabled || not (non_empty type) || not (non_empty key)
    then g
    else (submit_event D mono
        (control group (codes "$groupidentify") did
          (some (group_event_props new.type new.key set_props)))
        (with_group new g)).0

-- The inner loop of `ph_register`; `none` says that no item has the key.
unfoldable pub replace_item : Property → List Property → Option (List Property)
replace_item src [] = none
replace_item src (it ∷ its) =
    let rest = replace_item src its in
    if bytes_eq it.key src.key
    then some (src ∷ its)
    else elim rest [ none ↦ none | some its' ↦ some (it ∷ its') ]

-- One round of `ph_register`.
unfoldable pub register_item : Property → List Property → List Property
register_item src its = elim (replace_item src its) [
  | some its' ↦ its'
  | none ↦ if ltb (length its) max_props then its ++ (src ∷ []) else its
]

unfoldable pub register_items : List Property → List Property → List Property
register_items [] its = its
register_items (src ∷ srcs) its = register_items srcs (register_item src its)

-- `ph_register`
unfoldable pub register : Option Props → Ctx → Ctx
register none g = g
register (some p) g =
    if not g.enabled
    then g
    else record g { super = record g.super { items = register_items p.items g.super.items } }

-- The first item of the key goes.
unfoldable pub remove_first : Bytes → List Property → List Property
remove_first key [] = []
remove_first key (it ∷ its) =
    let rest = remove_first key its in if bytes_eq it.key key then its else it ∷ rest

-- `ph_unregister`
unfoldable pub unregister : Option Bytes → Ctx → Ctx
unregister none g = g
unregister (some key) g =
    if not g.enabled
    then g
    else record g { super = record g.super { items = remove_first key g.super.items } }

-- `ph_dropped_events`
unfoldable pub dropped_events : Ctx → ℕ
dropped_events g =
    if not g.initialized
    then 0
    else ((if g.enabled then g.queue.dropped else 0)
        + g.bucket.dropped
        + g.st_before_send_dropped
        + g.st_failed)
      % 2 ^ 64
