-- ===== src/Config/Texts.antt =====
-- Texts as lists of characters, and the splitting that src/config.rs does with them.
use rapid_gossip_sync_server.Prelude.{
  ℕ, List, [], ◌∷◌, ◌++◌, Option, none, some, Bool-cases, inl, inr, if◌then◌else◌, ◌==◌, ◌≡◌, refl,
  arith,
}
use Prim.Native.String.{String}
use Prim.Native.Char.{code}

abbrev pub characters : String → List ℕ
characters String.[] = []
characters (String.◌∷◌ c text) = code c ∷ characters text

-- `split(separator)`, with the part read so far.
unfoldable pub split : ℕ → List ℕ → List ℕ → List (List ℕ)
split separator part [] = part ∷ []
split separator part (c ∷ rest) =
    let next = split separator (part ++ (c ∷ [])) rest in
    if c == separator then part ∷ split separator [] rest else next

-- `splitn(2, separator)`: the part before the first separator, and what comes after it, if there
-- is one.
unfoldable pub split_in_two : ℕ → List ℕ → List ℕ × Option (List ℕ)
split_in_two separator [] = ([], none)
split_in_two separator (c ∷ rest) =
    if c == separator
    then ([], some rest)
    else (c ∷ (split_in_two separator rest).0, (split_in_two separator rest).1)

-- Two texts with a separator between them split into the parts of the one and then of the other.
pub split-append :
    (separator : ℕ) (part text other : List ℕ)
    → split separator part (text ++ (separator ∷ other))
      ≡ split separator part text ++ split separator [] other
unfolding split
split-append separator part [] other = ground arith
split-append separator part (c ∷ text) other = elim (Bool-cases (c == separator)) [
  | inl ends ↦ rw (split, ends) (rw (split-append separator [] text other) refl)
  | inr goes ↦ rw (split, goes) (split-append separator (part ++ (c ∷ [])) text other)
]
