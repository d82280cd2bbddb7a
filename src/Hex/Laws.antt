-- ===== src/Hex/Laws.antt =====
-- What src/hex_utils.rs reads from an even number of hexadecimal digits.
use rapid_gossip_sync_server.Prelude.{
  ℕ, ◌+◌, ◌*◌, ◌/◌, ◌%◌, ◌<◌, List, [], ◌∷◌, ◌++◌, Option, none, some, Bool, true, if◌then◌else◌,
  ltb, ◌==◌, ==_iff, bit_or, All, ◌≡◌, refl, arith, append_assoc, append-nil, ◌∙◌, ◌⊎◌, inl, inr,
  length, Option-cases, Bool-cases, length-append,
}
use rapid_gossip_sync_server.Prelude.Bits.{holds_below, holds_below_lem}
use rapid_gossip_sync_server.Hex.{digit, read_digits, to_vec}

-- The lower-case digits, as a specification.
abbrev pub to_digit : ℕ → ℕ
to_digit d = if ltb d 10 then 48 + d else 87 + d

abbrev pub to_hex : List ℕ → List ℕ
to_hex [] = []
to_hex (byte ∷ bytes) = to_digit (byte / 16) ∷ to_digit (byte % 16) ∷ to_hex bytes

digit-to_digit : (d : ℕ) → d < 16 → digit (to_digit d) ≡ some d
unfolding digit
digit-to_digit d small = ground arith

abbrev halves_test : ℕ → Bool
halves_test byte = bit_or (bit_or (0 * 16 % 256) (byte / 16) * 16 % 256) (byte % 16) == byte

halves_table : holds_below halves_test 256 ≡ true
unfolding holds_below
halves_table = refl

halves :
    (byte : ℕ)
    → byte < 256
    → bit_or (bit_or (0 * 16 % 256) (byte / 16) * 16 % 256) (byte % 16) ≡ byte
halves byte small = (==_iff _ _).0 (holds_below_lem halves_test 256 byte small halves_table)

read_digits_even :
    (c d idx b : ℕ) (hex out : List ℕ)
    → digit c ≡ some d
    → idx % 2 ≡ 0
    → read_digits (c ∷ hex) idx b out ≡ read_digits hex (idx + 1) (bit_or (b * 16 % 256) d) out
unfolding read_digits
read_digits_even c d idx b hex out reads even = rw (read_digits, reads, even) refl

read_digits_odd :
    (c d idx b : ℕ) (hex out : List ℕ)
    → digit c ≡ some d
    → idx % 2 ≡ 1
    → read_digits (c ∷ hex) idx b out
      ≡ read_digits hex (idx + 1) 0 (out ++ (bit_or (b * 16 % 256) d ∷ []))
unfolding read_digits
read_digits_odd c d idx b hex out reads odd = rw (read_digits, reads, odd) refl

read_digits-to_hex :
    (bytes : List ℕ) (idx : ℕ) (out : List ℕ)
    → All (λ byte. byte < 256) bytes
    → idx % 2 ≡ 0
    → read_digits (to_hex bytes) idx 0 out ≡ some (out ++ bytes)
read_digits-to_hex [] idx out small even = unfold read_digits in rw (append-nil out) refl
read_digits-to_hex (byte ∷ bytes) idx out small even =
    let hi = digit-to_digit (byte / 16) (omega (arith, small.0)) in
    let lo = digit-to_digit (byte % 16) (omega arith) in
    read_digits_even _ _ idx 0 _ out hi even
    ∙ read_digits_odd _ _ (idx + 1) _ _ out lo (omega (arith, even))
    ∙ rw (halves byte small.0) (
        rw (append_assoc out (byte ∷ []) bytes) at (
          read_digits-to_hex bytes (idx + 1 + 1) (out ++ (byte ∷ [])) small.1
            (omega (arith, even))))

-- Bytes that are written as two lower-case digits each are read back.
pub to_vec-to_hex :
    (bytes : List ℕ) → All (λ byte. byte < 256) bytes → to_vec (to_hex bytes) ≡ some bytes
unfolding to_vec
to_vec-to_hex bytes small = read_digits-to_hex bytes 0 [] small refl

-- Whether a byte is a hexadecimal digit.
abbrev pub IsDigit : ℕ → Type 0
IsDigit c = (47 < c) × (c < 58) ⊎ ((64 < c) × (c < 71) ⊎ (96 < c) × (c < 103))

digit-eq_none : (c : ℕ) → digit c ≡ none → ¬ IsDigit c
unfolding digit
digit-eq_none c e = λ h. ground arith

digit-eq_some : (c d : ℕ) → digit c ≡ some d → IsDigit c
unfolding digit
digit-eq_some c d e = ground arith

-- The outcome of the loop: the output grows by a byte for every pair of digits that is completed.
Outcome : ℕ → List ℕ → ℕ → Option (List ℕ) → Type 0
Outcome idx hex written result =
    (All IsDigit hex
      × ((out : List ℕ) × (result ≡ some out)
          × (length out ≡ written + (idx % 2 + length hex) / 2)))
    ⊎ ((¬ All IsDigit hex) × (result ≡ none))

read_digits-Outcome :
    (hex : List ℕ) (idx b : ℕ) (out : List ℕ)
    → Outcome idx hex (length out) (read_digits hex idx b out)
unfolding Outcome
read_digits-Outcome [] idx b out = inl (tt, (out, (unfold read_digits in refl), omega arith))
read_digits-Outcome (c ∷ hex) idx b out = elim (Option-cases (digit c)) [
  | inl fails ↦
      inr ((λ h. digit-eq_none c fails h.0), (unfold read_digits in rw (read_digits, fails) refl))
  | inr (d, reads) ↦ elim (Bool-cases (idx % 2 == 1)) [
    | inl odd ↦ elim (read_digits-Outcome hex (idx + 1) 0 (out ++ (bit_or (b * 16 % 256) d ∷ []))) [
      | inl (digits, (out', returns, count)) ↦ inl (
        (digit-eq_some c d reads, digits),
        (
          out',
          read_digits_odd c d idx b hex out reads ((==_iff _ _).0 odd) ∙ returns,
          omega
              (arith, count, (==_iff _ _).0 odd, length-append out (bit_or (b * 16 % 256) d ∷ [])),
        ),
      )
      | inr (none_left, returns) ↦ inr (
        (λ h. none_left h.1),
        read_digits_odd c d idx b hex out reads ((==_iff _ _).0 odd) ∙ returns,
      )
    ]
    | inr not_odd ↦ elim (read_digits-Outcome hex (idx + 1) (bit_or (b * 16 % 256) d) out) [
      | inl (digits, (out', returns, count)) ↦ inl (
        (digit-eq_some c d reads, digits),
        (
          out',
          read_digits_even c d idx b hex out reads (ground arith) ∙ returns,
          (let even : idx % 2 ≡ 0 = ground arith in omega (arith, count, even)),
        ),
      )
      | inr (none_left, returns) ↦
          inr (
            (λ h. none_left h.1),
            read_digits_even c d idx b hex out reads (ground arith) ∙ returns,
          )
    ]
  ]
]

-- A string of digits only is read, into half as many bytes as it has digits (of an odd number the
-- last one is dropped); any other string is refused.
pub to_vec_total :
    (hex : List ℕ)
    → (All IsDigit hex × ((out : List ℕ) × (to_vec hex ≡ some out) × (length out ≡ length hex / 2)))
      ⊎ ((¬ All IsDigit hex) × (to_vec hex ≡ none))
unfolding to_vec Outcome
to_vec_total hex = elim (read_digits-Outcome hex 0 0 []) [
  | inl (digits, (out, returns, count)) ↦ inl (digits, (out, returns, omega (arith, count)))
  | inr fails ↦ inr fails
]
