-- ===== src/Prelude/Casts.antt =====
-- Signed integers of Rust, and the `as` casts between signed and unsigned integers of one width.
use rapid_gossip_sync_server.Prelude.{
  ℕ, ◌+◌, ◌-◌, ◌%◌, ◌<◌, if◌then◌else◌, ltb, ◌==◌, ==_iff, Bool, true, false, ◌≡◌, ap, arith,
}
use native.Mathlib.Nat.{mod-eq_of_lt}

pub data ℤ : Type 0 where
  pos : ℕ → ℤ
  negsuc : ℕ → ℤ

-- `half` is 2 to the width less one.
unfoldable pub as_signed : ℕ → ℕ → ℤ
as_signed half n =
    let bits = n % (half + half) in
    if ltb bits half then pos bits else negsuc (half + half - (bits + 1))

unfoldable pub as_unsigned : ℕ → ℤ → ℕ
as_unsigned half (pos n) = n
as_unsigned half (negsuc n) = half + half - (n + 1)

abbrev pub eq_int : ℤ → ℤ → Bool
eq_int (pos a) (pos b) = a == b
eq_int (negsuc a) (negsuc b) = a == b
eq_int (pos a) (negsuc b) = false
eq_int (negsuc a) (pos b) = false

pub eq_int_lem : (a b : ℤ) → eq_int a b ≡ true → a ≡ b
eq_int_lem (pos a) (pos b) e = ap pos ((==_iff a b).0 e)
eq_int_lem (negsuc a) (negsuc b) e = ap negsuc ((==_iff a b).0 e)
eq_int_lem (pos a) (negsuc b) e = cc
eq_int_lem (negsuc a) (pos b) e = cc

pub eq_int_refl : (a : ℤ) → eq_int a a ≡ true
eq_int_refl (pos a) = (==_iff a a).1 (λ i. a)
eq_int_refl (negsuc a) = (==_iff a a).1 (λ i. a)

-- A cast and the cast back give the number, if it fits the type.
pub as_unsigned-as_signed : (half n : ℕ) → n < half + half → as_unsigned half (as_signed half n) ≡ n
unfolding as_unsigned as_signed
as_unsigned-as_signed half n h = ground (arith, mod-eq_of_lt h)
