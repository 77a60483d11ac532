-- ===== src/Props/Entry.antt =====
-- One entry of a blob of properties: what append_prop_item writes, blob_next and unpack_props read.
use posthog_c.Base.{
  ℕ, ◌+◌, ◌-◌, ◌*◌, ◌/◌, ◌%◌, ◌≤◌, ◌<◌, ◌≡◌, refl, ap, ap₂, ◌∙◌, Bool, true, false, not, some, [],
  ◌∷◌, ◌++◌, append_assoc, ◌==◌, length, length-append, Bytes, to_bytes, c_string_lem,
  length-to_bytes, of_bytes-to_bytes, take-append_length, drop-append_length, take_all, arith,
}
use posthog_c.Props.{Value, Property, str, double, int, boolean, other, key_cap, val_cap, ItemFits}
use posthog_c.Props.Pack.{
  pack_one, pack_item, bool_byte, type_str, type_double, type_int, type_bool,
}
use posthog_c.Props.Unpack.{Entry, blob_next, read_value, read_item}

-- The bytes of an entry: four of header, the key, the value.
unfoldable pub value_size : Value → ℕ
value_size (str s) = length s
value_size (double d) = 8
value_size (int i) = 8
value_size (boolean b) = 1
value_size (other t) = 0

unfoldable pub item_size : Property → ℕ
unfolding value_size
item_size it = 4 + length it.key + value_size it.value

-- The type code and the value bytes of an item.
abbrev pub entry_of : Property → Entry
entry_of it = elim it.value [
  | str s ↦ record { type = 0; key = it.key; val = s }
  | double d ↦ record { type = 1; key = it.key; val = to_bytes 8 d }
  | int i ↦ record { type = 2; key = it.key; val = to_bytes 8 i }
  | boolean b ↦ record { type = 3; key = it.key; val = bool_byte b ∷ [] }
  | other t ↦ record { type = t; key = it.key; val = [] }
]

read_header :
    (type kl v0 v1 : ℕ) (key val rest : Bytes)
    → kl ≡ length key
    → v0 + 256 * v1 ≡ length val
    → blob_next (type ∷ kl ∷ v0 ∷ v1 ∷ (key ++ (val ++ rest)))
      ≡ some (record { type = type; key = key; val = val }, rest)
unfolding blob_next
read_header type kl v0 v1 key val rest hk hv =
    rw (hk, hv)
      (ground (
        arith,
        length-append key (val ++ rest),
        length-append val rest,
        take-append_length key (val ++ rest),
        drop-append_length key (val ++ rest),
        take-append_length val rest,
        drop-append_length val rest,
      ))

pack_one_fits :
    (cap type : ℕ) (key val rest : Bytes)
    → type < 256
    → length key ≤ 255
    → length val ≤ 0xFFFF
    → 4 + length key + length val ≤ cap
    → pack_one cap type key val ++ rest
      ≡ type ∷ length key ∷ (length val % 256) ∷ (length val / 256 % 256) ∷ (key ++ (val ++ rest))
unfolding pack_one
pack_one_fits cap type key val rest ht hk hv hc = ground (arith, append_assoc key val rest)

-- The parser reads back the entry that the packer wrote, and leaves the rest.
pub blob_next-pack_one :
    (cap type : ℕ) (key val rest : Bytes)
    → type < 256
    → length key ≤ 255
    → length val ≤ 0xFFFF
    → 4 + length key + length val ≤ cap
    → blob_next (pack_one cap type key val ++ rest)
      ≡ some (record { type = type; key = key; val = val }, rest)
blob_next-pack_one cap type key val rest ht hk hv hc =
    ap blob_next (pack_one_fits cap type key val rest ht hk hv hc)
    ∙ read_header type (length key) (length val % 256) (length val / 256 % 256) key val rest refl
        (omega arith)

pub pack_one_skips :
    (cap type : ℕ) (key val : Bytes)
    → cap < 4 + length key + length val
    → pack_one cap type key val ≡ []
unfolding pack_one
pack_one_skips cap type key val h = ground arith

pub length-pack_one :
    (cap type : ℕ) (key val : Bytes)
    → length key ≤ 255
    → length val ≤ 0xFFFF
    → 4 + length key + length val ≤ cap
    → length (pack_one cap type key val) ≡ 4 + length key + length val
unfolding pack_one
length-pack_one cap type key val hk hv hc = ground (arith, length-append key val)

abbrev item : Bytes → Value → Property
item k v = record { key = k; value = v }

pub packs :
    (cap : ℕ) (k : Bytes) (v : Value) (rest : Bytes)
    → ItemFits (item k v)
    → item_size (item k v) ≤ cap
    → blob_next (pack_item cap (item k v) ++ rest) ≡ some (entry_of (item k v), rest)
unfolding pack_item item_size
packs cap k (str s) rest h hc =
    blob_next-pack_one cap type_str k s rest (omega arith) (omega arith) (omega arith) (omega arith)
packs cap k (double d) rest h hc =
    blob_next-pack_one cap type_double k (to_bytes 8 d) rest (omega arith) (omega arith)
      (omega (arith, length-to_bytes 8 d)) (omega (arith, length-to_bytes 8 d))
packs cap k (int i) rest h hc =
    blob_next-pack_one cap type_int k (to_bytes 8 i) rest (omega arith) (omega arith)
      (omega (arith, length-to_bytes 8 i)) (omega (arith, length-to_bytes 8 i))
packs cap k (boolean b) rest h hc =
    blob_next-pack_one cap type_bool k (bool_byte b ∷ []) rest (omega arith) (omega arith)
      (omega arith) (omega arith)
packs cap k (other t) rest (_, _, h) hc = elim h [ ]

pub length_packs :
    (cap : ℕ) (k : Bytes) (v : Value)
    → ItemFits (item k v)
    → item_size (item k v) ≤ cap
    → length (pack_item cap (item k v)) ≡ item_size (item k v)
unfolding pack_item item_size
length_packs cap k (str s) h hc =
    length-pack_one cap type_str k s (omega arith) (omega arith) (omega arith)
length_packs cap k (double d) h hc = omega (
  arith,
  length-to_bytes 8 d,
  length-pack_one cap type_double k (to_bytes 8 d) (omega arith)
      (omega (arith, length-to_bytes 8 d)) (omega (arith, length-to_bytes 8 d)),
)
length_packs cap k (int i) h hc = omega (
  arith,
  length-to_bytes 8 i,
  length-pack_one cap type_int k (to_bytes 8 i) (omega arith) (omega (arith, length-to_bytes 8 i))
      (omega (arith, length-to_bytes 8 i)),
)
length_packs cap k (boolean b) h hc =
    length-pack_one cap type_bool k (bool_byte b ∷ []) (omega arith) (omega arith) (omega arith)
length_packs cap k (other t) (_, _, h) hc = elim h [ ]

pub skips :
    (cap : ℕ) (k : Bytes) (v : Value) → cap < item_size (item k v) → pack_item cap (item k v) ≡ []
unfolding pack_item item_size
skips cap k (str s) h = pack_one_skips cap type_str k s h
skips cap k (double d) h =
    pack_one_skips cap type_double k (to_bytes 8 d) (omega (arith, length-to_bytes 8 d))
skips cap k (int i) h =
    pack_one_skips cap type_int k (to_bytes 8 i) (omega (arith, length-to_bytes 8 i))
skips cap k (boolean b) h = pack_one_skips cap type_bool k (bool_byte b ∷ []) h
skips cap k (other t) h = refl

bool_byte-nonzero : (b : Bool) → not (bool_byte b == 0) ≡ b
bool_byte-nonzero true = refl
bool_byte-nonzero false = refl

pub reads :
    (k : Bytes) (v : Value)
    → ItemFits (item k v)
    → read_item (entry_of (item k v)) ≡ some (item k v)
unfolding read_item read_value
reads k (str s) (hk, lk, (hs, ls)) =
    rw (take_all (key_cap - 1) k (omega arith), take_all (val_cap - 1) s (omega arith))
      (ap₂ (λ x y. some (item x (str y))) (c_string_lem k hk) (c_string_lem s hs))
reads k (double d) (hk, lk, hd) = ground (
  arith,
  take_all (key_cap - 1) k (omega arith),
  c_string_lem k hk,
  length-to_bytes 8 d,
  of_bytes-to_bytes 8 d hd,
)
reads k (int i) (hk, lk, hi) = ground (
  arith,
  take_all (key_cap - 1) k (omega arith),
  c_string_lem k hk,
  length-to_bytes 8 i,
  of_bytes-to_bytes 8 i hi,
)
reads k (boolean b) (hk, lk, hb) =
    rw (take_all (key_cap - 1) k (omega arith))
      (ap₂ (λ x y. some (item x (boolean y))) (c_string_lem k hk) (bool_byte-nonzero b))
reads k (other t) (_, _, h) = elim h [ ]
