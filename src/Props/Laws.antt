-- ===== src/Props/Laws.antt =====
-- The setters and the parser keep a property set within its arrays.
use posthog_c.Base.{
  ℕ, zero, suc, ◌+◌, ◌-◌, ◌<◌, ◌≡◌, refl, ap, ap₂, ◌∙◌, Bool, false, ◌||◌, Option, none, some, List,
  [], ◌∷◌, ◌++◌, ltb, leb, if◌then◌else◌, length, length-append, length-take, take, Bytes, IsChar,
  All, arith, Bool-cases, inl, inr,
}
use posthog_c.Props.{
  Value, Property, Props, str, double, int, boolean, Status, ok, full, truncated, max_props,
  key_cap, val_cap, ValueFits, ItemFits, IsValid, copy_loop, copy_capped, next_slot, append_item,
  set_item, or_empty, set_str, set_double, set_int, set_bool,
}

copy_loop_lem :
    (room : ℕ) (src : Bytes) → copy_loop room src ≡ (take room src, ltb room (length src))
unfolding copy_loop
copy_loop_lem zero [] = refl
copy_loop_lem (suc room) [] = ground arith
copy_loop_lem zero (b ∷ bs) = ground arith
copy_loop_lem (suc room) (b ∷ bs) = ap (λ r. (b ∷ r.0, r.1)) (copy_loop_lem room bs) ∙ ground arith

ltb_of_leb : (a b : ℕ) → ltb a b ≡ leb (suc a) b
ltb_of_leb a b = ground arith

-- What fits before the NUL is copied, and the cut is reported exactly when something is left out.
pub copy_capped_lem :
    (cap : ℕ) (src : Bytes)
    → 0 < cap
    → copy_capped cap src ≡ (take (cap - 1) src, leb cap (length src))
unfolding copy_capped
copy_capped_lem zero src h = absurd (omega arith)
copy_capped_lem (suc room) src h =
    copy_loop_lem room src
    ∙ ap₂ (λ n t. (take n src, t)) (omega arith) (ltb_of_leb room (length src))

All-take : (n : ℕ) (bs : Bytes) → All IsChar bs → All IsChar (take n bs)
All-take zero bs h = tt
All-take (suc n) [] h = tt
All-take (suc n) (b ∷ bs) (hb, hs) = (hb, All-take n bs hs)

pub All-snoc :
    (its : List Property) (it : Property)
    → All ItemFits its
    → ItemFits it
    → All ItemFits (its ++ (it ∷ []))
All-snoc [] it hs h = (h, tt)
All-snoc (x ∷ its) it (hx, hs) h = (hx, All-snoc its it hs h)

-- A call of a setter, with the value that it hands over.
pub data Call : Type 0 where
  call_str : Option Bytes → Option Bytes → Call
  call_double : Option Bytes → ℕ → Call
  call_int : Option Bytes → ℕ → Call
  call_bool : Option Bytes → Bool → Call

unfoldable pub call : Option Props → Call → Option Props × Status
call p (call_str key val) = set_str p key val
call p (call_double key val) = set_double p key val
call p (call_int key val) = set_int p key val
call p (call_bool key val) = set_bool p key val

abbrev pub TextFits : Option Bytes → Type 0
TextFits none = Unit
TextFits (some s) = All IsChar s

-- The arguments are C strings and 64-bit words.
abbrev pub CallFits : Call → Type 0
CallFits (call_str key val) = TextFits key × TextFits val
CallFits (call_double key val) = TextFits key × (val < 18446744073709551616)
CallFits (call_int key val) = TextFits key × (val < 18446744073709551616)
CallFits (call_bool key val) = TextFits key

leb-false : (a b : ℕ) → leb a b ≡ false → b < a
leb-false a b h = ground arith

copied_fits :
    (cap : ℕ) (src : Bytes)
    → 0 < cap
    → All IsChar src
    → All IsChar (copy_capped cap src).0 × (length (copy_capped cap src).0 < cap)
copied_fits cap src h hs =
    rw (copy_capped_lem cap src h)
      (All-take (cap - 1) src hs, omega (arith, length-take (cap - 1) src))

pub append_item_lem :
    (p : Props) (key : Bytes) (v : Value) (cut : Bool)
    → (append_item p key v cut).0 ≡ (
        if leb max_props (length p.items) then record p { dropped = p.dropped + 1 } else record p {
          items = p.items ++ (record { key = (copy_capped key_cap key).0; value = v } ∷ []);
        })
unfolding append_item next_slot
append_item_lem p key v cut = ground arith

append_item-IsValid :
    (p : Props) (key : Bytes) (v : Value) (cut : Bool)
    → IsValid p
    → All IsChar key
    → ValueFits v
    → IsValid (append_item p key v cut).0
append_item-IsValid p key v cut valid hk hv = elim (Bool-cases (leb max_props (length p.items))) [
  | inl no_room ↦
      rw (append_item_lem p key v cut, no_room) (record { few = valid.few; fit = valid.fit })
  | inr room ↦
      rw (append_item_lem p key v cut, room)
        (record {
          few = omega (arith, length-append p.items (new ∷ []), leb-false _ _ room);
          fit = All-snoc p.items new valid.fit (k.0, k.1, hv);
        })
]
  where
    new : Property
    new = record { key = (copy_capped key_cap key).0; value = v }

    k : All IsChar new.key × (length new.key < key_cap)
    k = copied_fits key_cap key (omega arith) hk

-- What `call` leaves behind, where there is a set at all.
abbrev pub AllValid : Option Props → Type 0
AllValid none = Unit
AllValid (some p) = IsValid p

set_item-IsValid :
    (p : Option Props) (key : Option Bytes) (v : Value) (cut : Bool)
    → AllValid p
    → TextFits key
    → ValueFits v
    → AllValid (set_item p key v cut).0
unfolding set_item
set_item-IsValid none key v cut valid hk hv = tt
set_item-IsValid (some p) none v cut valid hk hv = record { few = valid.few; fit = valid.fit }
set_item-IsValid (some p) (some []) v cut valid hk hv = record { few = valid.few; fit = valid.fit }
set_item-IsValid (some p) (some (b ∷ bs)) v cut valid hk hv =
    append_item-IsValid p (b ∷ bs) v cut valid hk hv

TextFits-or_empty : (s : Option Bytes) → TextFits s → All IsChar (or_empty s)
TextFits-or_empty none h = tt
TextFits-or_empty (some s) h = h

pub call-IsValid : (c : Call) (p : Option Props) → AllValid p → CallFits c → AllValid (call p c).0
unfolding call set_str set_double set_int set_bool
call-IsValid (call_str key val) p valid (hk, hv) =
    set_item-IsValid p key _ _ valid hk
      (copied_fits val_cap (or_empty val) (omega arith) (TextFits-or_empty val hv))
call-IsValid (call_double key val) p valid (hk, hv) =
    set_item-IsValid p key (double val) false valid hk hv
call-IsValid (call_int key val) p valid (hk, hv) =
    set_item-IsValid p key (int val) false valid hk hv
call-IsValid (call_bool key val) p valid hk = set_item-IsValid p key (boolean val) false valid hk tt

unfoldable pub calls : Option Props → List Call → Option Props
calls p [] = p
calls p (c ∷ cs) = calls (call p c).0 cs

-- Whatever calls the host makes on a set from ph_props_init, with keys and values of any length, NULL
-- or empty: the set stays within its 24 items, and each key and string within its array.
pub calls-IsValid :
    (cs : List Call) (p : Option Props) → AllValid p → All CallFits cs → AllValid (calls p cs)
unfolding calls
calls-IsValid [] p valid h = valid
calls-IsValid (c ∷ cs) p valid (hc, hs) =
    calls-IsValid cs (call p c).0 (call-IsValid c p valid hc) hs

-- The status of a call, on every branch: what was stored when it is `ok` or `truncated`, and that
-- nothing but the drop counter changed when it is `full` or `bad_arg`.
pub set_str_status :
    (p : Props) (b : ℕ) (key val : Bytes)
    → set_str (some p) (some (b ∷ key)) (some val) ≡ (
        if leb max_props (length p.items)
        then (some (record p { dropped = p.dropped + 1 }), full)
        else (
          some (record p {
            items =
                p.items ++ (record { key = take 47 (b ∷ key); value = str (take 191 val) } ∷ []);
          }),
          if leb 48 (length (b ∷ key)) || leb 192 (length val) then truncated else ok,
        ))
unfolding set_str next_slot
set_str_status p b key val =
    ground (arith, copy_capped_lem key_cap (b ∷ key), copy_capped_lem val_cap val)
