-- ===== src/Hex.antt =====
-- src/hex_utils.rs. A string is the list of its bytes.
pub mod Laws
use rapid_gossip_sync_server.Prelude.{
  ℕ, ◌+◌, ◌-◌, ◌*◌, ◌%◌, List, [], ◌∷◌, ◌++◌, Option, none, some, true, false, ◌&&◌, if◌then◌else◌,
  leb, ◌==◌, bit_or,
}

-- The match on a byte: the ranges 'A' to 'F', 'a' to 'f' and '0' to '9'.
unfoldable pub digit : ℕ → Option ℕ
digit c =
    if leb 65 c && leb c 70
    then some (c - 65 + 10)
    else if leb 97 c && leb c 102
    then some (c - 97 + 10)
    else if leb 48 c && leb c 57
    then some (c - 48)
    else none

-- The loop, at the index `idx`, with the byte `b` and the output so far. The test `(idx & 1) == 1`
-- is that the index is odd.
unfoldable pub read_digits : List ℕ → ℕ → ℕ → List ℕ → Option (List ℕ)
read_digits [] idx b out = some out
read_digits (c ∷ hex) idx b out = elim (digit c) [
  | none ↦ none
  | some d ↦
      let b' = bit_or (b * 16 % 256) d in
      elim (idx % 2 == 1) [
        | true ↦ read_digits hex (idx + 1) 0 (out ++ (b' ∷ []))
        | false ↦ read_digits hex (idx + 1) b' out
      ]
]

unfoldable pub to_vec : List ℕ → Option (List ℕ)
to_vec hex = read_digits hex 0 0 []
