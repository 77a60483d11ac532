-- ===== src/Serialize.antt =====
-- The events of src/ph_serialize.c as JSON, and the number writers of src/ph_json.c: the bytes that each
-- function appends while the buffer has memory. The flag `first` of a writer is passed on as a value.
pub mod Object
pub mod Reads
mod Tests
use posthog_c.Base.{
  ℕ, zero, suc, ◌+◌, ◌-◌, ◌*◌, ◌/◌, ◌%◌, ◌^◌, Bool, true, false, not, ◌&&◌, ◌||◌, Option, none,
  some, List, [], ◌∷◌, ◌++◌, ltb, leb, ◌==◌, if◌then◌else◌, bit_and, length, take, drop, Bytes,
  bytes_eq, codes, of_bytes,
}
use posthog_c.Json.{json_str, json_cstr, json_bool}
use posthog_c.Props.{Property, Props, str, double, int, boolean, other}
use posthog_c.Props.Pack.{type_group}
use posthog_c.Props.Unpack.{Entry, blob_next, nonzero_head}
use posthog_c.Props.Util.{denylist_has, props_remove_key}
use posthog_c.Queue.{Event}
use posthog_c.Time.{Tm, format_iso8601, uuid_v7}
use posthog_c.Core.{Ctx, evf_has_did, evf_no_profile}

-- What the build and the C library give: the platform tags, `gmtime`, "%.*g", and for a double whether
-- it is finite and whether `strtod` reads a text as that same double.
pub record Platform : Type 0 where
  pub os : Bytes
  pub arch : Bytes
  pub gmtime : ℕ → Tm
  pub is_finite : ℕ → Bool
  pub print_g : ℕ → ℕ → Bytes
  pub reads_as : Bytes → ℕ → Bool

-- The decimal digits of a number, with fuel for as many.
unfoldable pub decimal : ℕ → ℕ → Bytes
decimal zero n = []
decimal (suc fuel) n =
    let front = decimal fuel (n / 10) in
    if ltb n 10 then (b'0' + n) ∷ [] else front ++ ((b'0' + n % 10) ∷ [])

-- `ph_json_int` of the 64-bit pattern of an `int64_t`; twenty digits are enough.
unfoldable pub json_int : ℕ → Bytes
json_int i = if ltb i (2 ^ 63) then decimal 20 i else b'-' ∷ decimal 20 (2 ^ 64 - i)

module _ (P : Platform) where
  -- The loop of `ph_json_double` from the precision `prec` on, over `17 - prec` rounds.
  unfoldable pub shortest : ℕ → ℕ → ℕ → Bytes
  shortest zero prec d = P.print_g 17 d
  shortest (suc rounds) prec d =
      let rest = shortest rounds (suc prec) d in
      if P.reads_as (P.print_g prec d) d then P.print_g prec d else rest

  -- `ph_json_double`, in a locale with a decimal point.
  unfoldable pub json_double : ℕ → Bytes
  json_double d = if not (P.is_finite d) then codes "null" else shortest 16 1 d

  -- `emit_scalar_value`
  unfoldable pub scalar_value : Entry → Bytes
  scalar_value e =
      if e.type == 0
      then json_str e.val
      else if e.type == 1
      then json_double (if length e.val == 8 then of_bytes e.val else 0)
      else if e.type == 2
      then json_int (if length e.val == 8 then of_bytes e.val else 0)
      else if e.type == 3
      then json_bool (nonzero_head e.val)
      else codes "null"

-- `PH_PK_RAWJSON`
abbrev pub type_rawjson : ℕ
type_rawjson = 5

-- The `while` loop over a blob; each entry takes four bytes at least.
unfoldable pub entries_loop : ℕ → Bytes → List Entry
entries_loop zero blob = []
entries_loop (suc fuel) blob = elim (blob_next blob) [
  | none ↦ []
  | some (e, rest) ↦ e ∷ entries_loop fuel rest
]

abbrev pub entries : Bytes → List Entry
entries blob = entries_loop (length blob) blob

-- `comma`
abbrev pub comma : Bool → Bytes
comma true = []
comma false = b',' ∷ []

-- A member of an object, and the flag after it.
abbrev pub member : Bool → Bytes → Bytes → Bytes × Bool
member first key value = (comma first ++ (json_str key ++ (b':' ∷ value)), false)

abbrev pub followed_by : Bytes × Bool → (Bool → Bytes × Bool) → Bytes × Bool
followed_by (w, first) next = (w ++ (next first).0, (next first).1)

abbrev pub in_order : List (Bool → Bytes × Bool) → Bool → Bytes × Bool
in_order [] first = ([], first)
in_order (w ∷ ws) first = followed_by (w first) (in_order ws)

-- The members of a list, those that `keep` passes.
module _ (keep : Entry → Bool) (value : Entry → Bytes) where
  unfoldable pub members : List Entry → Bool → Bytes × Bool
  members [] first = ([], first)
  members (e ∷ es) first =
      if keep e then followed_by (member first e.key (value e)) (members es) else members es first

abbrev pub sdk_owned : List Bytes
sdk_owned =
    codes "distinct_id"
    ∷ codes "$lib"
    ∷ codes "$lib_version"
    ∷ codes "$lib_backend"
    ∷ codes "$process_person_profile"
    ∷ codes "$groups"
    ∷ codes "$group_set"
    ∷ codes "$group_type"
    ∷ codes "$group_key"
    ∷ []

-- `key_is_sdk_owned_top_level`
unfoldable pub is_sdk_owned : Bytes → Bool
is_sdk_owned key = denylist_has sdk_owned (some key)

-- The loop of `ph__props_strip_sdk_owned_top_level` over the keys left.
unfoldable strip_keys : List Bytes → Option Props → Option Props
strip_keys [] p = p
strip_keys (key ∷ keys) p = strip_keys keys (props_remove_key p (some key))

-- `ph__props_strip_sdk_owned_top_level`, which the WebAssembly build calls in place of the test above.
unfoldable strip_sdk_owned : Option Props → Option Props
strip_sdk_owned p = strip_keys sdk_owned p

-- The tests of `emit_scalar_entries`.
unfoldable pub is_emitted : Bool → Bool → Entry → Bool
is_emitted skip_geoip skip_owned e = not (
    e.type == type_group
    || skip_geoip && bytes_eq e.key (codes "$geoip_disable")
    || skip_owned && is_sdk_owned e.key)

module _ (P : Platform) where
  unfoldable pub entry_value : Entry → Bytes
  entry_value e = if e.type == type_rawjson then e.val else scalar_value P e

  -- `emit_scalar_entries`
  unfoldable pub scalar_entries : Bool → Bool → List Entry → Bool → Bytes × Bool
  scalar_entries skip_geoip skip_owned es first =
      members (is_emitted skip_geoip skip_owned) entry_value es first

-- `blob_has_scalar_key`
unfoldable pub has_scalar_key : List Entry → Bytes → Bool
has_scalar_key [] wanted = false
has_scalar_key (e ∷ es) wanted =
    let rest = has_scalar_key es wanted in
    if leb e.type 3 && bytes_eq e.key wanted then true else rest

abbrev pub is_group : Entry → Bool
is_group e = e.type == type_group

abbrev pub any_of : (Entry → Bool) → List Entry → Bool
any_of test [] = false
any_of test (e ∷ es) = let rest = any_of test es in if test e then true else rest

-- An object that is written as a member where there is anything in it.
abbrev pub nested : Bytes → (Entry → Bool) → (Entry → Bytes) → List Entry → Bool → Bytes × Bool
nested key keep value es first =
    if any_of keep es
    then member first key (b'{' ∷ ((members keep value es true).0 ++ (b'}' ∷ [])))
    else ([], first)

-- `emit_groups`
unfoldable pub groups_member : List Entry → Bool → Bytes × Bool
groups_member es first = nested (codes "$groups") is_group (λ e. json_str e.val) es first

abbrev pub names_group : Entry → Bool
names_group e = bytes_eq e.key (codes "$group_type") || bytes_eq e.key (codes "$group_key")

-- `emit_group_identify`
unfoldable pub group_identify : Platform → List Entry → Bool → Bytes × Bool
group_identify P es first =
    followed_by (members names_group (scalar_value P) es first)
      (nested (codes "$group_set") (λ e. not (names_group e)) (scalar_value P) es)

-- A tag that the denylist or a property of the event may suppress.
abbrev pub tag : Ctx → Bool → List Entry → Bytes → Bytes → Bool → Bytes × Bool
tag g top_level es key value first =
    if not (denylist_has g.denylist (some key)) && (not top_level || not (has_scalar_key es key))
    then member first key (json_str value)
    else ([], first)

-- The wall clock of an event: `e->epoch_wall_ns + delta` in 64 bits.
unfoldable pub wall_of : Event → ℕ
wall_of e = (e.epoch_wall_ns + (e.mono_ns - e.epoch_mono_ns)) % 2 ^ 64

abbrev pub has_flag : Event → ℕ → Bool
has_flag e bit = not (bit_and e.flags bit == 0)

abbrev pub event_id : Ctx → Event → Bytes
event_id g e =
    if has_flag e evf_has_did then take e.did_len (drop e.name_len e.bytes) else g.distinct_id

abbrev pub event_entries : Event → List Entry
event_entries e = entries (take e.blob_len (drop e.did_len (drop e.name_len e.bytes)))

module _ (P : Platform) (g : Ctx) where
  -- The `switch` on the kind: 1 is PH_EV_IDENTIFY, 3 is PH_EV_GROUP.
  unfoldable pub kind_members : Event → Bool → Bytes × Bool
  kind_members e first =
      if e.kind == 1
      then member first (codes "$set")
          (b'{' ∷ ((scalar_entries P false false (event_entries e) true).0 ++ (b'}' ∷ [])))
      else if e.kind == 3
      then group_identify P (event_entries e) first
      else followed_by (scalar_entries P g.disable_geoip true (event_entries e) first)
          (groups_member (event_entries e))

  abbrev pub is_top_level : Event → Bool
  is_top_level e = not (e.kind == 1) && not (e.kind == 3)

  -- The writers of the members of "properties", in their order.
  abbrev pub property_writers : Event → List (Bool → Bytes × Bool)
  property_writers e =
      let es = event_entries e in
      let top = is_top_level e in
      (λ f. member f (codes "distinct_id") (json_str (event_id g e)))
      ∷ (λ f. member f (codes "$lib") (json_str (codes "posthog-c")))
      ∷ (λ f. member f (codes "$lib_version") (json_str (codes "0.1.0")))
      ∷ (λ f. member f (codes "$lib_backend") (json_str (codes "native")))
      ∷ tag g top es (codes "$os") P.os
      ∷ tag g top es (codes "arch") P.arch
      ∷ (λ f. if 0 == length g.release then ([], f) else tag g top es (codes "release") g.release f)
      ∷ (λ f.
          if has_flag e evf_no_profile
          then member f (codes "$process_person_profile") (codes "false")
          else ([], f))
      ∷ kind_members e
      ∷ (λ f. if g.disable_geoip then member f (codes "$geoip_disable") (codes "true") else ([], f))
      ∷ []

  unfoldable pub properties : Event → Bytes
  properties e = (in_order (property_writers e) true).0

  -- `serialize_event`
  unfoldable pub serialize_event : Event → Bytes
  serialize_event e =
      codes "{\"event\":"
      ++ (json_str (take e.name_len e.bytes)
          ++ (codes ",\"timestamp\":"
              ++ (json_cstr (some (format_iso8601 P.gmtime (wall_of e)))
                  ++ (codes ",\"uuid\":"
                      ++ (json_cstr (some (uuid_v7 (wall_of e / 1000000) g.uuid_salt e.seq))
                          ++ (codes ",\"properties\":{" ++ (properties e ++ codes "}}")))))))

  -- The loop of `ph_serialize_batch` behind its first event.
  unfoldable pub serialize_more : List Event → Bytes
  serialize_more [] = []
  serialize_more (e ∷ es) = b',' ∷ (serialize_event e ++ serialize_more es)

  abbrev pub serialize_list : List Event → Bytes
  serialize_list [] = []
  serialize_list (e ∷ es) = serialize_event e ++ serialize_more es

  -- `ph_serialize_batch`
  unfoldable pub serialize_batch : List Event → Bytes
  serialize_batch es =
      codes "{\"api_key\":"
      ++ (json_cstr (some g.api_key)
          ++ (codes ",\"historical_migration\":false,\"batch\":["
              ++ (serialize_list es ++ codes "]}")))

-- The value of an item in `ph_serialize_props_object`.
unfoldable pub item_value : Platform → Property → Bytes
item_value P it = elim it.value [
  | str s ↦ json_cstr (some s)
  | double d ↦ json_double P d
  | int i ↦ json_int i
  | boolean b ↦ json_bool b
  | other t ↦ codes "null"
]

unfoldable pub object_members : Platform → List Property → Bool → Bytes
object_members P [] first = []
object_members P (it ∷ its) first =
    comma first
    ++ (json_cstr (some it.key) ++ (b':' ∷ (item_value P it ++ object_members P its false)))

-- `ph_serialize_props_object`
unfoldable pub serialize_props_object : Platform → Option Props → Bytes
serialize_props_object P none = codes "{}"
serialize_props_object P (some p) = b'{' ∷ (object_members P p.items true ++ (b'}' ∷ []))
