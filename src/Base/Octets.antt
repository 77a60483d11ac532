-- ===== src/Base/Octets.antt =====
-- Byte strings: a byte is a number below 256, a C string is the list of its bytes before the NUL.
use Prim.Native.Nat.{ℕ, zero, suc, ◌+◌, ◌*◌, ◌/◌, ◌%◌, ◌^◌, ◌≤◌, ◌<◌}
use Prim.Native.Char.{code}
use Prim.Native.String.{String}
use mathlib.Core.Path.{◌≡◌, refl, ap}
use mathlib.Core.Logic.{◌↔◌}
use mathlib.Core.Bool.{Bool, true, false, ◌&&◌}
use mathlib.Core.List.{List, [], ◌∷◌, ◌++◌}
use native.Mathlib.Omega.{arith}
use native.Mathlib.Nat.{pow-suc}
use posthog_c.Base.Tests.{◌==◌, if◌then◌else◌}
use posthog_c.Base.Lists.{length, take, drop}

abbrev pub Bytes : Type 0
Bytes = List ℕ

-- The bytes of a literal.
abbrev pub codes : String → Bytes
codes String.[] = []
codes (String.◌∷◌ c s) = code c ∷ codes s

module _ {ℓ κ} {A : Type ℓ} where
  abbrev pub All : (A → Type κ) → List A → Type κ
  All P [] = Unit
  All P (x ∷ xs) = P x × All P xs

abbrev pub IsByte : ℕ → Type 0
IsByte b = b < 256

-- A byte that a C string can hold.
abbrev pub IsChar : ℕ → Type 0
IsChar b = (0 < b) × (b < 256)

-- A buffer read as a C string ends at its first NUL.
pub c_string : Bytes → Bytes
c_string [] = []
c_string (b ∷ bs) = let rest = c_string bs in if b == 0 then [] else b ∷ rest

pub c_string_lem : (bs : Bytes) → All IsChar bs → c_string bs ≡ bs
unfolding c_string
c_string_lem [] h = refl
c_string_lem (b ∷ bs) (hb, hs) = ground (arith, c_string_lem bs hs)

-- `strcmp(a, b) == 0`, and `memcmp` of equal lengths.
unfoldable pub bytes_eq : Bytes → Bytes → Bool
bytes_eq [] [] = true
bytes_eq [] (b ∷ bs) = false
bytes_eq (a ∷ as') [] = false
bytes_eq (a ∷ as') (b ∷ bs) = a == b && bytes_eq as' bs

pub bytes_eq_iff : (a b : Bytes) → (bytes_eq a b ≡ true) ↔ (a ≡ b)
unfolding bytes_eq
bytes_eq_iff [] [] = (λ h. refl, λ h. refl)
bytes_eq_iff [] (b ∷ bs) = (λ h. cc, λ h. cc)
bytes_eq_iff (a ∷ as') [] = (λ h. cc, λ h. cc)
bytes_eq_iff (a ∷ as') (b ∷ bs) = ground (arith, bytes_eq_iff as' bs)

-- The `n` low bytes of a word, lowest first: its memory on a little-endian host.
unfoldable pub to_bytes : ℕ → ℕ → Bytes
to_bytes zero v = []
to_bytes (suc n) v = (v % 256) ∷ to_bytes n (v / 256)

unfoldable pub of_bytes : Bytes → ℕ
of_bytes [] = 0
of_bytes (b ∷ bs) = b + 256 * of_bytes bs

pub length-to_bytes : (n v : ℕ) → length (to_bytes n v) ≡ n
unfolding to_bytes
length-to_bytes zero v = refl
length-to_bytes (suc n) v = ap suc (length-to_bytes n (v / 256))

pub to_bytes-IsByte : (n v : ℕ) → All IsByte (to_bytes n v)
unfolding to_bytes
to_bytes-IsByte zero v = tt
to_bytes-IsByte (suc n) v = (omega arith, to_bytes-IsByte n (v / 256))

pub of_bytes-to_bytes : (n v : ℕ) → v < 256 ^ n → of_bytes (to_bytes n v) ≡ v
unfolding of_bytes to_bytes
of_bytes-to_bytes zero v h = omega arith
of_bytes-to_bytes (suc n) v h =
    omega (arith, of_bytes-to_bytes n (v / 256) (omega (arith, pow-suc 256 n)))

module _ (P : ℕ → Type 0) where
  pub All-take : (n : ℕ) (bs : Bytes) → All P bs → All P (take n bs)
  All-take zero bs h = tt
  All-take (suc n) [] h = tt
  All-take (suc n) (b ∷ bs) (hb, hs) = (hb, All-take n bs hs)

  pub All-drop : (n : ℕ) (bs : Bytes) → All P bs → All P (drop n bs)
  All-drop zero bs h = h
  All-drop (suc n) [] h = tt
  All-drop (suc n) (b ∷ bs) (hb, hs) = All-drop n bs hs

pub c_string_fits :
    (bs : Bytes) → All IsByte bs → All IsChar (c_string bs) × (length (c_string bs) ≤ length bs)
unfolding c_string
c_string_fits [] h = (tt, omega arith)
c_string_fits (b ∷ bs) (hb, hs) = ground (arith, c_string_fits bs hs)

pub of_bytes-lt : (bs : Bytes) → All IsByte bs → of_bytes bs < 256 ^ length bs
unfolding of_bytes
of_bytes-lt [] h = omega arith
of_bytes-lt (b ∷ bs) (hb, hs) = omega (arith, of_bytes-lt bs hs, pow-suc 256 (length bs))

module _ {ℓ} {A : Type ℓ} where
  pub take-append_length : (xs ys : List A) → take (length xs) (xs ++ ys) ≡ xs
  take-append_length [] ys = refl
  take-append_length (x ∷ xs) ys = ap (λ t. x ∷ t) (take-append_length xs ys)

  pub drop-append_length : (xs ys : List A) → drop (length xs) (xs ++ ys) ≡ ys
  drop-append_length [] ys = refl
  drop-append_length (x ∷ xs) ys = drop-append_length xs ys

  pub take_all : (n : ℕ) (xs : List A) → length xs ≤ n → take n xs ≡ xs
  take_all zero [] h = refl
  take_all zero (x ∷ xs) h = absurd (omega arith)
  take_all (suc n) [] h = refl
  take_all (suc n) (x ∷ xs) h = ap (λ t. x ∷ t) (take_all n xs (omega arith))
