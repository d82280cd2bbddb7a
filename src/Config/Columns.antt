-- ===== src/Config/Columns.antt =====
-- The loops of `upgrade_db` in src/config.rs that fill a new column, batch by batch.
use rapid_gossip_sync_server.Prelude.{
  ℕ, zero, suc, ◌+◌, ◌-◌, ◌*◌, ◌^◌, ◌≤◌, ◌<◌, List, [], ◌∷◌, length, Option, none, some, Bool,
  false, ◌||◌, if◌then◌else◌, ltb, ◌==◌, Result, ok, panic, unwrap_none, assertion, ◌>>=◌, ◌≡◌,
  refl, sym, ap, ◌∙◌, Bool-cases, inl, inr, ==_iff, arith, >>=_inv, ok-inj,
}
use rapid_gossip_sync_server.Config.Texts.{split}
use rapid_gossip_sync_server.Hex.{to_vec}
use rapid_gossip_sync_server.Ldk.{Ldk}
use rapid_gossip_sync_server.Verifier.{found, failed, Chain, retrieve_txo}

-- `.unwrap()`
abbrev unwrap : {A : Type 0} → Option A → Result A
unwrap none = panic unwrap_none
unwrap (some a) = ok a

unfoldable pub from_be_bytes : ℕ → List ℕ → ℕ
from_be_bytes n [] = n
from_be_bytes n (byte ∷ bytes) = from_be_bytes (n * 256 + byte) bytes

abbrev is_digit : ℕ → List ℕ → Bool
is_digit digit (c ∷ []) = c == digit
is_digit digit _ = false

-- The `i64` of eight bytes, which must be above zero: its highest bit is not set.
unfoldable pub positive_scid : ℕ → Result ℕ
positive_scid scid =
    if ltb 0 scid then if ltb scid (2 ^ 63) then ok scid else panic assertion else panic assertion

-- The three parts of an index.
unfoldable pub read_parts : List (List ℕ) → Result (ℕ × Bool)
read_parts (scid_hex ∷ middle ∷ direction_str ∷ rest) =
    if is_digit b'1' direction_str || is_digit b'0' direction_str
    then (do
      scid_be_bytes ← unwrap (to_vec scid_hex)
      scid ←
          (if length scid_be_bytes == 8
            then ok (from_be_bytes 0 scid_be_bytes)
            else panic unwrap_none)
      checked ← positive_scid scid
      ok (checked, is_digit b'1' direction_str))
    else panic assertion
read_parts _ = panic unwrap_none

-- The scid and the direction of a channel update, from its `composite_index`.
unfoldable pub read_index : List ℕ → Result (ℕ × Bool)
read_index index = read_parts (split b':' [] index)

-- The scid of an announcement.
unfoldable pub read_announcement_scid : Ldk → List ℕ → Result ℕ
read_announcement_scid ldk announcement = do
  a ← unwrap (ldk.read_channel_announcement announcement)
  positive_scid a.short_channel_id

-- The funding amount for schema 15; a lookup that fails is not expected.
unfoldable pub read_funding : Chain → ℕ → Result ℕ
read_funding chain scid =
    retrieve_txo chain scid
    >>= (λ txo. elim txo [ found o ↦ ok (chain.to_sat o) | failed e ↦ panic unwrap_none ])

abbrev pub update_batch : ℕ
update_batch = 50000

abbrev pub announcement_batch : ℕ
announcement_batch = 10000

-- A table as the source of each row, and the new column, which is NULL at first.
module _ {Source Value : Type 0} (read : Source → Result Value) where
  abbrev pub Column : Type 0
  Column = List (Source × Option Value)

  abbrev pub nulls : Column → ℕ
  nulls [] = 0
  nulls ((source, none) ∷ rows) = suc (nulls rows)
  nulls ((source, some value) ∷ rows) = nulls rows

  -- The updates of the first `limit` rows that are NULL.
  unfoldable pub fill_batch : ℕ → Column → Result Column
  fill_batch zero rows = ok rows
  fill_batch (suc limit) [] = ok []
  fill_batch (suc limit) ((source, some value) ∷ rows) = do
    rows' ← fill_batch (suc limit) rows
    ok ((source, some value) ∷ rows')
  fill_batch (suc limit) ((source, none) ∷ rows) = do
    value ← read source
    rows' ← fill_batch limit rows
    ok ((source, some value) ∷ rows')

  -- `loop { … if rows.is_empty() { break; } … }`, with fuel for the rounds.
  unfoldable pub fill : ℕ → ℕ → Column → Result Column
  fill zero limit rows = ok rows
  fill (suc rounds) limit rows =
      if nulls rows == 0 then ok rows else fill_batch limit rows >>= fill rounds limit

  -- The whole column at once.
  unfoldable pub fill_all : Column → Result Column
  fill_all [] = ok []
  fill_all ((source, some value) ∷ rows) = do
    rows' ← fill_all rows
    ok ((source, some value) ∷ rows')
  fill_all ((source, none) ∷ rows) = do
    value ← read source
    rows' ← fill_all rows
    ok ((source, some value) ∷ rows')

  fill_all-full : (rows : Column) → nulls rows ≡ 0 → fill_all rows ≡ ok rows
  unfolding fill_all
  fill_all-full [] e = refl
  fill_all-full ((source, some value) ∷ rows) e = rw (fill_all-full rows e) refl
  fill_all-full ((source, none) ∷ rows) e = absurd (omega (arith, e))

  -- A row that is filled does not matter.
  prepend :
      (source : Source) (value : Value) (r target : Result Column)
      → (r >>= fill_all) ≡ target
      → ((r >>= (λ (rows : Column). ok ((source, some value) ∷ rows))) >>= fill_all)
        ≡ (target >>= (λ (rows : Column). ok ((source, some value) ∷ rows)))
  unfolding fill_all
  prepend source value (ok rows) target e =
      ap (λ (t : Result Column). t >>= (λ (rows : Column). ok ((source, some value) ∷ rows))) e
  prepend source value (panic cause) target e = rw (← e) refl

  fill_all-fill_batch :
      (limit : ℕ) (rows : Column) → (fill_batch limit rows >>= fill_all) ≡ fill_all rows
  unfolding fill_batch fill_all
  fill_all-fill_batch zero rows = refl
  fill_all-fill_batch (suc limit) [] = refl
  fill_all-fill_batch (suc limit) ((source, some value) ∷ rows) =
      prepend source value (fill_batch (suc limit) rows) (fill_all rows)
        (fill_all-fill_batch (suc limit) rows)
  fill_all-fill_batch (suc limit) ((source, none) ∷ rows) =
      by_value (read source) (fill_all-fill_batch limit rows)
    where
      by_value :
          (r : Result Value)
          → (fill_batch limit rows >>= fill_all) ≡ fill_all rows
          → ((r >>= (λ (value : Value).
                fill_batch limit rows
                >>= (λ (filled : Column). ok ((source, some value) ∷ filled))))
              >>= fill_all)
            ≡ (r >>= (λ (value : Value).
                fill_all rows >>= (λ (filled : Column). ok ((source, some value) ∷ filled))))
      by_value (ok value) ih = prepend source value (fill_batch limit rows) (fill_all rows) ih
      by_value (panic cause) ih = refl

  nulls-fill_batch :
      (limit : ℕ) (rows rows' : Column)
      → fill_batch limit rows ≡ ok rows'
      → nulls rows' ≡ nulls rows - limit
  unfolding fill_batch
  nulls-fill_batch zero rows rows' e = omega (arith, ap nulls (ok-inj e))
  nulls-fill_batch (suc limit) [] rows' e = omega (arith, ap nulls (ok-inj e))
  nulls-fill_batch (suc limit) ((source, some value) ∷ rows) rows' e =
      let (filled, fills, same) = >>=_inv (fill_batch (suc limit) rows) _ rows' e in
      omega (arith, ap nulls (ok-inj same), nulls-fill_batch (suc limit) rows filled fills)
  nulls-fill_batch (suc limit) ((source, none) ∷ rows) rows' e =
      let (value, reads, rest) = >>=_inv (read source) _ rows' e in
      let (filled, fills, same) = >>=_inv (fill_batch limit rows) _ rows' rest in
      omega (arith, ap nulls (ok-inj same), nulls-fill_batch limit rows filled fills)

  nulls-fill_all : (rows rows' : Column) → fill_all rows ≡ ok rows' → nulls rows' ≡ 0
  unfolding fill_all
  nulls-fill_all [] rows' e = omega (arith, ap nulls (ok-inj e))
  nulls-fill_all ((source, some value) ∷ rows) rows' e =
      let (filled, fills, same) = >>=_inv (fill_all rows) _ rows' e in
      omega (arith, ap nulls (ok-inj same), nulls-fill_all rows filled fills)
  nulls-fill_all ((source, none) ∷ rows) rows' e =
      let (value, reads, rest) = >>=_inv (read source) _ rows' e in
      let (filled, fills, same) = >>=_inv (fill_all rows) _ rows' rest in
      omega (arith, ap nulls (ok-inj same), nulls-fill_all rows filled fills)

  fill-all :
      (rounds limit : ℕ) (rows : Column)
      → 0 < limit
      → nulls rows ≤ rounds
      → fill rounds limit rows ≡ fill_all rows
  unfolding fill
  fill-all zero limit rows positive enough = sym (fill_all-full rows (omega (arith, enough)))
  fill-all (suc rounds) limit rows positive enough = elim (Bool-cases (nulls rows == 0)) [
    | inl full ↦ rw (fill, full) (sym (fill_all-full rows ((==_iff (nulls rows) 0).0 full)))
    | inr left ↦
        rw (fill, left)
          (by_batch (fill_batch limit rows) refl (fill-all rounds limit) (ground (arith, left)))
  ]
    where
      by_batch :
          (r : Result Column)
          → fill_batch limit rows ≡ r
          → ((rows' : Column)
              → 0 < limit
              → nulls rows' ≤ rounds
              → fill rounds limit rows' ≡ fill_all rows')
          → 0 < nulls rows
          → (r >>= fill rounds limit) ≡ fill_all rows
      by_batch (panic cause) e ih some_left = rw e at (fill_all-fill_batch limit rows)
      by_batch (ok rows') e ih some_left =
          ih rows' positive
            (omega (arith, nulls-fill_batch limit rows rows' e, enough, positive, some_left))
          ∙ rw e at (fill_all-fill_batch limit rows)

  -- The loop over batches of any positive size ends after as many rounds as there are rows that
  -- are NULL, and comes to what filling the whole column at once comes to, be it the column or a
  -- panic. A column that it returns has no row left that is NULL.
  pub fill-fill_all :
      (rounds limit : ℕ) (rows : Column)
      → 0 < limit
      → nulls rows ≤ rounds
      → (fill rounds limit rows ≡ fill_all rows)
        × ((rows' : Column) → fill rounds limit rows ≡ ok rows' → nulls rows' ≡ 0)
  fill-fill_all rounds limit rows positive enough =
      let same = fill-all rounds limit rows positive enough in
      (same, λ rows' e. nulls-fill_all rows rows' (sym same ∙ e))
