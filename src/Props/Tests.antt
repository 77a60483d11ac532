-- ===== src/Props/Tests.antt =====
-- Concrete property sets, and the theorems at concrete inputs.
use posthog_c.Base.{
  ◌≡◌, refl, true, not, some, none, List, [], ◌∷◌, ◌++◌, take, if◌then◌else◌, arith, codes,
  bytes_eq, filter_by,
}
use posthog_c.Props.{
  Property, Props, str, int, boolean, bad_arg, empty_props, set_str, set_int, set_bool, copy_capped,
  IsValid,
}
use posthog_c.Props.Pack.{pack_props}
use posthog_c.Props.Unpack.{unpack_props, unpack_loop}
use posthog_c.Props.Entry.{item_size}
use posthog_c.Props.RoundTrip.{kept, unpack-pack}
use posthog_c.Props.Laws.{Call, call_str, call_int, call_bool, calls, call, AllValid, calls-IsValid}
use posthog_c.Props.Safe.{unpack-IsValid, unpack_loop_enough}
use posthog_c.Props.Util.{denylist_has, apply_denylist, props_merge, find_last_str, has_key}
use posthog_c.Props.Util.Laws.{apply_denylist_lem, find_last-set_str}
use posthog_c.Props.Util.Merge.{props_merge_lem}

abbrev weapon : Property
weapon = record { key = codes "weapon"; value = str (codes "railgun") }

abbrev combo : Property
combo = record { key = codes "combo"; value = int 17 }

abbrev won : Property
won = record { key = codes "won"; value = boolean true }

abbrev sample : Props
sample = record { items = weapon ∷ combo ∷ won ∷ []; dropped = 0 }

abbrev defaults : Props
defaults = record { items = record combo { value = int 1 } ∷ won ∷ []; dropped = 0 }

sample-IsValid : IsValid sample
sample-IsValid = record { few = omega arith; fit = omega arith }

defaults-IsValid : IsValid defaults
defaults-IsValid = record { few = omega arith; fit = omega arith }

build_two :
    (calls
      (some empty_props)
      (call_int (some (codes "combo")) 17 ∷ call_bool (some (codes "won")) true ∷ []))
    ≡ some (record { items = combo ∷ won ∷ []; dropped = 0 })
unfolding calls call set_int set_bool copy_capped empty_props
build_two = refl

-- The integer no longer fits behind the string; the short boolean still does.
kept_skips : kept 26 sample.items ≡ weapon ∷ won ∷ []
unfolding kept item_size
kept_skips = refl

unpack-pack_example : (unpack_props (pack_props 26 (some sample))).items ≡ kept 26 (sample.items)
unpack-pack_example = unpack-pack 26 sample sample-IsValid

unpack-IsValid_example : IsValid (unpack_props (0 ∷ 1 ∷ 2 ∷ 0 ∷ 65 ∷ 66 ∷ 67 ∷ 9 ∷ []))
unpack-IsValid_example = unpack-IsValid (0 ∷ 1 ∷ 2 ∷ 0 ∷ 65 ∷ 66 ∷ 67 ∷ 9 ∷ []) (omega arith)

unpack_loop_enough_example :
    unpack_loop 5 (3 ∷ 0 ∷ 1 ∷ 0 ∷ 1 ∷ []) [] ≡ unpack_loop 9 (3 ∷ 0 ∷ 1 ∷ 0 ∷ 1 ∷ []) []
unpack_loop_enough_example =
    unpack_loop_enough 5 9 (3 ∷ 0 ∷ 1 ∷ 0 ∷ 1 ∷ []) [] (omega arith) (omega arith) (omega arith)

abbrev host_calls : List Call
host_calls =
    call_str (some (codes "map")) (some (codes "aztec"))
    ∷ call_str none (some (codes "lost"))
    ∷ call_int (some (codes "combo")) 17
    ∷ []

calls-IsValid_example : AllValid (calls (some sample) host_calls)
calls-IsValid_example = calls-IsValid host_calls (some sample) sample-IsValid (omega arith)

set_str_status_test : (set_str (some sample) (some []) none).1 ≡ bad_arg
unfolding set_str
set_str_status_test = refl

apply_denylist_lem_example :
    (apply_denylist sample (codes "won" ∷ codes "email" ∷ [])).items
    ≡ filter_by
        (λ it. not (denylist_has (codes "won" ∷ codes "email" ∷ []) (some it.key)))
        sample.items
apply_denylist_lem_example = apply_denylist_lem (codes "won" ∷ codes "email" ∷ []) sample

find_last-set_str_test :
    find_last_str
      (set_str (some sample) (some (codes "weapon")) (some (codes "axe"))).0
      (some (codes "weapon"))
    ≡ (if bytes_eq (codes "weapon") (codes "weapon")
        then some (codes "axe")
        else find_last_str (some sample) (some (codes "weapon")))
find_last-set_str_test =
    find_last-set_str sample b'w' (codes "eapon") (codes "axe") (codes "weapon") (omega arith)
      (omega arith) (omega arith)

props_merge_lem_example :
    (props_merge (some sample) (some defaults)).items
    ≡ take 24 (sample.items ++ filter_by (λ it. not (has_key sample.items it.key)) defaults.items)
props_merge_lem_example =
    props_merge_lem sample defaults sample-IsValid defaults-IsValid (omega arith) (omega arith)
