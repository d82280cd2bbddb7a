-- ===== src/Prelude/Results.antt =====
-- A Rust computation that may panic, and `do` blocks over it.
use mathlib.Core.Path.{◌≡◌, refl}

-- The places where the modelled code panics, and `blocked` for a wait that never ends.
pub data Panic : Type 0 where
  unsorted_scids wrong_scid_column unwrap_none unreadable underflow out_of_bounds assertion
        unreachable unknown_schema blocked :
      Panic

pub data Result {ℓ} (A : Type ℓ) : Type ℓ where
  ok : A → Result A
  panic : Panic → Result A

-- The next step runs unless the one before it panics.
infixl 5 ◌>>=◌
abbrev pub ◌>>=◌ {ℓ κ} :
    {Read : Type ℓ} {Out : Type κ} → Result Read → (Read → Result Out) → Result Out
ok value >>= next = next value
panic cause >>= next = panic cause

-- A computation in two steps returns only if each step does.
pub >>=_inv {ℓ κ} :
    {Read : Type ℓ} {Out : Type κ} (read : Result Read) (next : Read → Result Out) (out : Out)
    → (read >>= next) ≡ ok out
    → (value : Read) × (read ≡ ok value) × (next value ≡ ok out)
>>=_inv (ok value) next out e = (value, refl, e)
>>=_inv (panic cause) next out e = cc

pub ok-inj {ℓ} : {A : Type ℓ} {a b : A} → ok a ≡ ok b → a ≡ b
ok-inj e = cc
