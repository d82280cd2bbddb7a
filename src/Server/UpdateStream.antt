-- ===== src/Server/UpdateStream.antt =====
-- The loop over the updates in `serialize_delta`, and the client's loop that reads them.
use rapid_gossip_sync_server.Prelude.{
  ℕ, zero, suc, ◌≤◌, List, [], ◌∷◌, ◌++◌, map, Option, none, some, length, ok, panic,
  unsorted_scids, ◌≡◌, refl, arith, append_assoc, ◌⊎◌, inl, inr,
}
use rapid_gossip_sync_server.Ldk.{IntCodecs}
use rapid_gossip_sync_server.Serialization.{
  DefaultUpdateValues, UpdateSerialization, full, incremental, reminder, scid,
}
use rapid_gossip_sync_server.Serialization.ReadUpdate.{
  Received, replace, amend, read_update, meaning,
}
use rapid_gossip_sync_server.Serialization.UpdateRoundTrip.{
  FitsMessage, read_update-serialize, serialize_stripped_channel_update_total,
  serialize_stripped_channel_update_panic,
}
use rapid_gossip_sync_server.Server.SerializeDelta.{serialize_updates}
use rapid_gossip_sync_server.Prelude.{All}
use native.Mathlib.Decide.{dec_le}

-- The scids do not descend, from `previous` on.
abbrev pub IsSorted : ℕ → List UpdateSerialization → Type 0
IsSorted previous [] = Unit
IsSorted previous (update ∷ updates) = (previous ≤ scid update) × IsSorted (scid update) updates

unfoldable pub received_scid : Received → ℕ
received_scid (replace id _ _ _ _ _ _) = id
received_scid (amend id _ _ _ _ _ _) = id

received_scid-meaning :
    (update : UpdateSerialization) → received_scid (meaning update) ≡ scid update
unfolding received_scid meaning scid
received_scid-meaning (full u) = refl
received_scid-meaning (incremental u m) = refl
received_scid-meaning (reminder id bits) = refl

module _ (ints : IntCodecs) where
  -- The client reads as many updates as the count says.
  unfoldable pub read_updates :
      DefaultUpdateValues → ℕ → ℕ → List ℕ → Option (List Received × List ℕ)
  read_updates d zero previous bytes = some ([], bytes)
  read_updates d (suc count) previous bytes = elim (read_update ints d previous bytes) [
    | none ↦ none
    | some (received, bytes') ↦ elim (read_updates d count (received_scid received) bytes') [
      | none ↦ none
      | some (others, rest) ↦ some (received ∷ others, rest)
    ]
  ]

  read_updates_step :
      (d : DefaultUpdateValues) (count previous : ℕ) (bytes bytes' rest : List ℕ) (r : Received)
      (others : List Received)
      → read_update ints d previous bytes ≡ some (r, bytes')
      → read_updates d count (received_scid r) bytes' ≡ some (others, rest)
      → read_updates d (suc count) previous bytes ≡ some (r ∷ others, rest)
  unfolding read_updates
  read_updates_step d count previous bytes bytes' rest r others h k = ground arith

  -- Updates whose scids do not descend and whose values fit are serialized without a panic, and the
  -- client reads back the meaning of each, in order, whatever follows.
  pub read_updates-serialize :
      (d : DefaultUpdateValues) (updates : List UpdateSerialization) (previous : ℕ)
      → IsSorted previous updates
      → All FitsMessage updates
      → (bytes : List ℕ) × (serialize_updates ints d updates previous ≡ ok bytes)
        × ((rest : List ℕ)
            → read_updates d (length updates) previous (bytes ++ rest)
              ≡ some (map meaning updates, rest))
  unfolding serialize_updates
  read_updates-serialize d [] previous sorted fits = ([], refl, λ rest. unfold read_updates in refl)
  read_updates-serialize d (u ∷ us) previous sorted fits =
      let (bytes, wrote, read) = read_update-serialize ints u d previous sorted.0 fits.0 in
      let (more, wrote', read') = read_updates-serialize d us (scid u) sorted.1 fits.1 in
      (
        bytes ++ more,
        rw (wrote, wrote') refl,
        λ rest.
            read_updates_step d (length us) previous _ (more ++ rest) rest (meaning u)
              (map meaning us) (rw append_assoc (read (more ++ rest)))
              (rw received_scid-meaning (read' rest)),
      )

  -- The loop panics, with `unsorted scids!`, exactly when the scids descend somewhere.
  pub serialize_updates_total :
      (d : DefaultUpdateValues) (updates : List UpdateSerialization) (previous : ℕ)
      → (IsSorted previous updates
          × ((bytes : List ℕ) × (serialize_updates ints d updates previous ≡ ok bytes)))
        ⊎ ((¬ IsSorted previous updates)
            × (serialize_updates ints d updates previous ≡ panic unsorted_scids))
  unfolding serialize_updates
  serialize_updates_total d [] previous = inl (tt, ([], refl))
  serialize_updates_total d (u ∷ us) previous = elim (dec_le previous (scid u)) [
    | yes le ↦ elim (serialize_updates_total d us (scid u)) [
      | inl (sorted, (bytes, wrote)) ↦ inl (
        (le, sorted),
        let (first, strip) = serialize_stripped_channel_update_total ints u d previous le in
            (first ++ bytes, rw (strip, wrote) refl),
      )
      | inr (unsorted, panics) ↦ inr (
        λ sorted. unsorted sorted.1,
        let (first, strip) = serialize_stripped_channel_update_total ints u d previous le in
            rw (strip, panics) refl,
      )
    ]
    | no above ↦ inr (
      λ sorted. above sorted.0,
      rw (serialize_stripped_channel_update_panic ints u d previous above) refl,
    )
  ]
