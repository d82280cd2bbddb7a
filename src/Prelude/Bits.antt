-- ===== src/Prelude/Bits.antt =====
-- Facts about bytes, proved by evaluating a test at every value.
use Prim.Native.Nat.{ℕ, zero, suc, ◌<◌}
use mathlib.Core.Path.{◌≡◌, refl}
use mathlib.Core.Bool.{Bool, true, false, not, ◌&&◌}
use native.Mathlib.Omega.{arith}

-- The test holds of every number below the bound.
unfoldable pub holds_below : (ℕ → Bool) → ℕ → Bool
holds_below test zero = true
holds_below test (suc bound) = holds_below test bound && test bound

unfoldable pub all_bools : (Bool → Bool) → Bool
all_bools p = p true && p false

abbrev pub same : Bool → Bool → Bool
same true b = b
same false b = not b

pub same→eq : (a b : Bool) → same a b ≡ true → a ≡ b
same→eq true true h = refl
same→eq true false h = cc
same→eq false true h = cc
same→eq false false h = refl

pub holds_below_lem :
    (test : ℕ → Bool) (bound value : ℕ)
    → value < bound
    → holds_below test bound ≡ true
    → test value ≡ true
unfolding holds_below
holds_below_lem test zero value small all = absurd (omega arith)
holds_below_lem test (suc bound) value small all = ground (arith, holds_below_lem test bound value)

pub all_bools_sound : (p : Bool → Bool) (b : Bool) → all_bools p ≡ true → p b ≡ true
unfolding all_bools
all_bools_sound p true h = ground arith
all_bools_sound p false h = ground arith
