-- ===== src/Core/Blob.antt =====
-- The layout of an event in its slot: what the `memcpy`s and the packers of ph__submit_event write.
use posthog_c.Base.{
  ℕ, zero, suc, ◌+◌, ◌-◌, ◌%◌, ◌^◌, ◌≤◌, ◌<◌, ◌≡◌, refl, sym, ap, ap₂, ◌∙◌, Bool, true, false,
  Option, none, some, List, [], ◌∷◌, ◌++◌, length, take, drop, Bytes, ltb, leb, if◌then◌else◌, min,
  arith, All, IsChar, ◌⊎◌, length-append, length-take, to_bytes, take-append_length,
  drop-append_length, take_all, Bool-cases, inl, inr, dec_lt,
}
use posthog_c.Props.{
  Value, str, double, int, boolean, other, Property, Props, IsValid, key_cap, max_props,
  empty_props,
}
use posthog_c.Props.Pack.{
  pack_one, pack_item, pack_items, pack_str_entry, pack_props, type_group, type_str, type_double,
  type_int, type_bool, bool_byte,
}
use posthog_c.Props.Unpack.{blob_next, read_item, unpack_loop, unpack_props}
use posthog_c.Props.Entry.{blob_next-pack_one, pack_one_skips}
use posthog_c.Props.RoundTrip.{kept, unpack_loop-pack_items}
use posthog_c.Props.Util.{props_merge}
use posthog_c.Props.Util.Valid.{props_merge-IsValid}
use posthog_c.Props.Laws.{AllValid}
use posthog_c.Queue.{Event}
use posthog_c.Core.{
  EventKind, capture, identify, alias, group, exception, Group, Ctx, event_name_cap,
  distinct_id_cap, event_data_cap, kind_code,
}
use posthog_c.Core.Submit.{
  Submission, bounded_event_name_len, pack_groups, id_of, name_part, did_part, event_name,
  event_did, blob_of, event_of,
}

length-pack_one_le : (cap type : ℕ) (key val : Bytes) → length (pack_one cap type key val) ≤ cap
unfolding pack_one
length-pack_one_le cap type key val = ground (arith, length-append key val)

length-pack_value_le :
    (cap : ℕ) (k : Bytes) (v : Value) → length (pack_item cap (record { key = k; value = v })) ≤ cap
unfolding pack_item
length-pack_value_le cap k (str s) = length-pack_one_le cap type_str k s
length-pack_value_le cap k (double d) = length-pack_one_le cap type_double k (to_bytes 8 d)
length-pack_value_le cap k (int i) = length-pack_one_le cap type_int k (to_bytes 8 i)
length-pack_value_le cap k (boolean b) = length-pack_one_le cap type_bool k (bool_byte b ∷ [])
length-pack_value_le cap k (other t) = omega arith

length-pack_item_le : (cap : ℕ) (it : Property) → length (pack_item cap it) ≤ cap
length-pack_item_le cap it = length-pack_value_le cap it.key it.value

length-pack_items_le : (cap : ℕ) (its : List Property) → length (pack_items cap its) ≤ cap
unfolding pack_items
length-pack_items_le cap [] = omega arith
length-pack_items_le cap (it ∷ its) = omega (
  arith,
  length-append (pack_item cap it) (pack_items (cap - length (pack_item cap it)) its),
  length-pack_item_le cap it,
  length-pack_items_le (cap - length (pack_item cap it)) its,
)

length-pack_props_le : (cap : ℕ) (p : Option Props) → length (pack_props cap p) ≤ cap
unfolding pack_props
length-pack_props_le cap none = omega arith
length-pack_props_le cap (some p) = length-pack_items_le cap p.items

length-pack_groups_le : (cap : ℕ) (gs : List Group) → length (pack_groups cap gs) ≤ cap
unfolding pack_groups pack_str_entry
length-pack_groups_le cap [] = omega arith
length-pack_groups_le cap (g ∷ gs) = omega (
  arith,
  length-append (pack_one cap type_group g.type g.key)
      (pack_groups (cap - length (pack_one cap type_group g.type g.key)) gs),
  length-pack_one_le cap type_group g.type g.key,
  length-pack_groups_le (cap - length (pack_one cap type_group g.type g.key)) gs,
)

three_parts :
    (cap : ℕ) (a b c : Bytes)
    → length a ≤ cap
    → length b ≤ cap - length a
    → length c ≤ cap - length a - length b
    → length (a ++ (b ++ c)) ≤ cap
three_parts cap a b c ha hb hc = omega (arith, length-append a (b ++ c), length-append b c)

when_it_fits :
    (cap : ℕ) (extra : Bytes) → length (if leb (length extra) cap then extra else []) ≤ cap
when_it_fits cap extra = ground arith

when_stamped :
    (cap : ℕ) (stamp : Bool) (gs : List Group)
    → length (if stamp then pack_groups cap gs else []) ≤ cap
when_stamped cap true gs = length-pack_groups_le cap gs
when_stamped cap false gs = omega arith

pub length-blob_of_le : (g : Ctx) (cap : ℕ) (s : Submission) → length (blob_of g cap s) ≤ cap
unfolding blob_of
length-blob_of_le g cap s =
    three_parts cap _ _ _ (when_it_fits cap s.extra) (length-pack_props_le _ _)
      (when_stamped _ s.stamp g.groups)

-- The parts of `data`, as the sender reads them.
abbrev pub name_of : Event → Bytes
name_of e = take e.name_len e.bytes

abbrev pub did_of : Event → Bytes
did_of e = take e.did_len (drop e.name_len e.bytes)

abbrev pub blob_bytes : Event → Bytes
blob_bytes e = drop e.did_len (drop e.name_len e.bytes)

-- The lengths of an event cover its bytes, and these lie in `data`.
pub record EventFits (e : Event) : Type 0 where
  pub covered : length e.bytes ≡ e.name_len + e.did_len + e.blob_len
  pub in_data : length e.bytes ≤ event_data_cap
  pub kind_in : e.kind ≤ 4
  pub name_fits : e.name_len < event_name_cap
  pub did_fits : e.did_len < distinct_id_cap

take-min : (n : ℕ) (xs : Bytes) → take (min n (length xs)) xs ≡ take n xs
take-min n xs = elim (dec_lt (length xs) n) [
  | yes h ↦
      ap (λ k. take k xs) (omega arith)
      ∙ take_all (length xs) xs (omega arith)
      ∙ sym (take_all n xs (omega arith))
  | no h ↦ ap (λ k. take k xs) (omega arith)
]

name_part_lem : (name : Bytes) → (name_part name ≡ take 127 name) × (length (name_part name) ≤ 127)
unfolding bounded_event_name_len
name_part_lem name =
    let cut : name_part name ≡ take 127 name =
      ap (λ k. take k name) (omega arith) ∙ take-min 127 name in
    (cut, omega (arith, ap length cut, length-take 127 name))

did_part_lem :
    (n : ℕ) (did : Bytes)
    → n ≤ 127
    → (did_part n did ≡ take 127 did) × (length (did_part n did) ≤ 127)
did_part_lem n did h =
    let cut : did_part n did ≡ take 127 did =
      ap (λ k. take k did) (omega arith) ∙ take-min 127 did in
    (cut, omega (arith, ap length cut, length-take 127 did))

-- The room behind the name and the id of a submission.
abbrev pub room_of : Ctx → Submission → ℕ
room_of g s =
    event_data_cap - (length (take 127 s.name) + length (take 127 (id_of g s.did_override)))

-- How an event that holds `name`, `did` and `blob` is read.
record Holds (e : Event) (name did blob : Bytes) : Type 0 where
  pub its_name : name_of e ≡ name
  pub its_did : did_of e ≡ did
  pub its_blob : blob_bytes e ≡ blob

laid_out :
    (e : Event) (name did blob : Bytes)
    → e.bytes ≡ name ++ (did ++ blob)
    → e.name_len ≡ length name
    → e.did_len ≡ length did
    → Holds e name did blob
laid_out e name did blob hb hn hd =
    rw (hb, hn, hd)
      (record {
        its_name = take-append_length name (did ++ blob);
        its_did =
            ap (take (length did)) (drop-append_length name (did ++ blob))
            ∙ take-append_length did blob;
        its_blob =
            ap (drop (length did)) (drop-append_length name (did ++ blob))
            ∙ drop-append_length did blob;
      })

-- The parts of an event are the lengths that its bytes have.
sized :
    (name did blob : Bytes)
    → length name ≤ 127
    → length did ≤ 127
    → length blob ≤ event_data_cap - (length name + length did)
    → (length name % 2 ^ 16 ≡ length name)
      × (length did % 2 ^ 16 ≡ length did)
      × (length blob % 2 ^ 16 ≡ length blob)
      × (length (name ++ (did ++ blob)) ≡ length name + length did + length blob)
sized name did blob hn hd hb =
    omega (arith, length-append name (did ++ blob), length-append did blob)

kind_code-le : (k : EventKind) → kind_code k ≤ 4
kind_code-le capture = omega arith
kind_code-le identify = omega arith
kind_code-le alias = omega arith
kind_code-le group = omega arith
kind_code-le exception = omega arith

-- Whatever the lengths of the arguments, a submission writes within `data[4096]`, no length wraps in its
-- `uint16_t`, and the three parts are found again by their lengths: the first 127 bytes of the name, the
-- first 127 of the id, and the blob that was packed into what they leave.
pub event_of_lem :
    (g : Ctx) (mono : ℕ) (s : Submission)
    → let e = event_of g mono s in
      EventFits e
      × (name_of e ≡ take 127 s.name)
      × (did_of e ≡ take 127 (id_of g s.did_override))
      × (blob_bytes e ≡ blob_of g (room_of g s) s)
unfolding event_of
event_of_lem g mono s =
    let n = name_part_lem s.name in
    let d = did_part_lem (length (event_name s)) (id_of g s.did_override) n.1 in
    let left : ℕ = event_data_cap - (length (event_name s) + length (event_did g s)) in
    let room : left ≡ room_of g s = ap₂ (λ x y. event_data_cap - (length x + length y)) n.0 d.0 in
    let fits = length-blob_of_le g left s in
    let sz = sized (event_name s) (event_did g s) (blob_of g left s) n.1 d.1 fits in
    let at = laid_out (event_of g mono s) (event_name s) (event_did g s) _ refl sz.0 sz.1 in
    (
      record {
        covered = omega (arith, sz);
        in_data = omega (arith, sz, n.1, d.1, fits);
        kind_in = kind_code-le s.kind;
        name_fits = omega (arith, sz, n.1);
        did_fits = omega (arith, sz, d.1);
      },
      at.its_name ∙ n.0,
      at.its_did ∙ d.0,
      at.its_blob ∙ ap (λ r. blob_of g r s) room,
    )

-- The text of a group is within its arrays.
abbrev pub GroupFits : Group → Type 0
GroupFits g =
    All IsChar g.type × (length g.type < key_cap) × All IsChar g.key × (length g.key < key_cap)

group_entry :
    (cap : ℕ) (g : Group) (rest : Bytes)
    → GroupFits g
    → (pack_one cap type_group g.type g.key ≡ [])
      ⊎ (blob_next (pack_one cap type_group g.type g.key ++ rest)
          ≡ some (record { type = type_group; key = g.type; val = g.key }, rest))
group_entry cap g rest (ht, lt, hk, lk) = elim (dec_lt cap (4 + length g.type + length g.key)) [
  | yes big ↦ inl (pack_one_skips cap type_group g.type g.key big)
  | no fits ↦ inr (
      blob_next-pack_one cap type_group g.type g.key rest (omega arith) (omega arith) (omega arith)
        (omega arith))
]

-- The unpacker of the scalars passes over the groups.
groups_silent :
    (gs : List Group) (cap f : ℕ) (acc : List Property)
    → All GroupFits gs
    → unpack_loop f (pack_groups cap gs) acc ≡ acc
unfolding pack_groups pack_str_entry unpack_loop read_item blob_next
groups_silent [] cap zero acc h = refl
groups_silent [] cap (suc f) acc h = ground arith
groups_silent (g ∷ gs) cap zero acc h = refl
groups_silent (g ∷ gs) cap (suc f) acc (h, hs) =
    elim (group_entry cap g (pack_groups (cap - length (pack_one cap type_group g.type g.key)) gs)
      h) [
        | inl skipped ↦ rw skipped (groups_silent gs (cap - 0) (suc f) acc hs)
        | inr next ↦ elim (Bool-cases (ltb (length acc) max_props)) [
          | inl go ↦ rw (go, next) (groups_silent gs _ f acc hs)
          | inr stop ↦ rw stop refl
        ]
      ]

no_extra :
    (cap : ℕ) (s : Submission)
    → s.extra ≡ []
    → (if leb (length s.extra) cap then s.extra else []) ≡ []
no_extra cap s e = rw e (ground arith)

stamped_blob :
    (g : Ctx) (cap : ℕ) (s : Submission)
    → s.stamp ≡ true
    → s.extra ≡ []
    → let its = (props_merge s.props (some g.super)).items in
      blob_of g cap s
      ≡ pack_items cap its ++ pack_groups (cap - length (pack_items cap its)) g.groups
unfolding blob_of pack_props
stamped_blob g cap s st ex =
    let its = (props_merge s.props (some g.super)).items in
    let whole : cap - 0 ≡ cap = omega arith in rw (st, no_extra cap s ex, whole) refl

-- Without a raw extra, the scalars of a stamped submission come back from its event: the merge of its
-- properties with the super properties, less the items for which the blob had no room, whatever groups
-- are behind them.
pub unpack-event_of :
    (g : Ctx) (mono : ℕ) (s : Submission)
    → s.stamp ≡ true
    → s.extra ≡ []
    → AllValid s.props
    → IsValid g.super
    → All GroupFits g.groups
    → (unpack_props (blob_bytes (event_of g mono s))).items
      ≡ kept (room_of g s) (props_merge s.props (some g.super)).items
unfolding unpack_props empty_props
unpack-event_of g mono s st ex hp hs hg =
    let its = (props_merge s.props (some g.super)).items in
    let room = room_of g s in
    let groups = pack_groups (room - length (pack_items room its)) g.groups in
    let v = props_merge-IsValid s.props (some g.super) hp hs in
    ap (λ b. unpack_loop (length b) b []) ((event_of_lem g mono s).3 ∙ stamped_blob g room s st ex)
    ∙ unpack_loop-pack_items groups (λ f acc. groups_silent g.groups _ f acc hg) its room _ [] v.fit
        (omega (arith, v.few)) (omega (arith, length-append (pack_items room its) groups))
