-- ===== src/Base/Tables.antt =====
-- Facts about small numbers, checked by going through them.
use Prim.Native.Nat.{ℕ, zero, suc, ◌<◌}
use mathlib.Core.Path.{◌≡◌}
use mathlib.Core.Bool.{Bool, true, false}
use native.Mathlib.Omega.{arith}
use posthog_c.Base.Tests.{if◌then◌else◌}

-- The test passes for every number below the bound.
unfoldable pub passes_below : (ℕ → Bool) → ℕ → Bool
passes_below test zero = true
passes_below test (suc n) = if test n then passes_below test n else false

pub passes-below :
    (test : ℕ → Bool) (bound n : ℕ) → passes_below test bound ≡ true → n < bound → test n ≡ true
unfolding passes_below
passes-below test zero n h lt = absurd (omega arith)
passes-below test (suc bound) n h lt = ground (arith, passes-below test bound n)
