-- ===== src/Lookup/Updates.antt =====
-- `fetch_channel_updates` of src/lookup.rs, over the rows that its two queries return.
use rapid_gossip_sync_server.Prelude.{
  ℕ, ◌%◌, ◌^◌, ◌-◌, List, [], ◌∷◌, Option, none, some, Bool, true, false, not, ◌||◌, if◌then◌else◌,
  ◌==◌, Result, ok, panic, unreadable, ◌>>=◌,
}
use rapid_gossip_sync_server.Prelude.Maps.{entry, unwrap_or}
use rapid_gossip_sync_server.Ldk.{Ldk, UnsignedChannelUpdate}
use rapid_gossip_sync_server.Serialization.{MutatedProperties}
use rapid_gossip_sync_server.Lookup.{
  UpdateDelta, DirectedUpdateDelta, default_directed, ChannelDelta, default_channel, DeltaSet,
}

-- A row of `channel_updates` as the queries return it.
pub record UpdateRow : Type 0 where
  pub id : ℕ
  pub direction : Bool
  pub seen : ℕ
  pub blob_signed : List ℕ

-- `read(…).unwrap()`
abbrev pub unwrap_read : {A : Type 0} → Option A → Result A
unwrap_read none = panic unreadable
unwrap_read (some a) = ok a

abbrev pub contains_id : List ℕ → ℕ → Bool
contains_id [] id = false
contains_id (known ∷ ids) id = known == id || contains_id ids id

-- `mutated_properties.x = true` where a property differs from the last update seen.
unfoldable pub mark_mutations :
    UnsignedChannelUpdate → UnsignedChannelUpdate → MutatedProperties → MutatedProperties
mark_mutations u last m =
    let mark = λ (a b : ℕ) (old : Bool). if not (a == b) then true else old in
    record {
      flags = mark u.channel_flags last.channel_flags m.flags;
      cltv_expiry_delta = mark u.cltv_expiry_delta last.cltv_expiry_delta m.cltv_expiry_delta;
      htlc_minimum_msat = mark u.htlc_minimum_msat last.htlc_minimum_msat m.htlc_minimum_msat;
      fee_base_msat = mark u.fee_base_msat last.fee_base_msat m.fee_base_msat;
      fee_proportional_millionths =
          mark u.fee_proportional_millionths last.fee_proportional_millionths
            m.fee_proportional_millionths;
      htlc_maximum_msat = mark u.htlc_maximum_msat last.htlc_maximum_msat m.htlc_maximum_msat;
    }

unfoldable pub determine_mutations :
    UnsignedChannelUpdate → DirectedUpdateDelta → DirectedUpdateDelta
determine_mutations u d = elim d.last_update_before_seen [
  | none ↦ d
  | some last ↦ record d { mutated_properties = mark_mutations u last.update d.mutated_properties }
]

-- `latest_update_after_seen` is written for the first row of a direction.
unfoldable pub set_latest : Bool → UpdateDelta → DirectedUpdateDelta → DirectedUpdateDelta
set_latest is_first u d = if is_first then record d { latest_update_after_seen = some u } else d

unfoldable pub set_before : UpdateDelta → DirectedUpdateDelta → DirectedUpdateDelta
set_before u d = record d { last_update_before_seen = some u }

module _ (ldk : Ldk) where
  -- `updates.0` or `updates.1`, by `get_or_insert(DirectedUpdateDelta::default())`.
  unfoldable pub modify_direction :
      Bool → (DirectedUpdateDelta → DirectedUpdateDelta) → ChannelDelta ldk → ChannelDelta ldk
  modify_direction false f c = record c {
    updates_a = some (f (unwrap_or default_directed c.updates_a));
  }
  modify_direction true f c = record c {
    updates_b = some (f (unwrap_or default_directed c.updates_b));
  }

  abbrev pub entry_direction :
      ℕ → Bool → (DirectedUpdateDelta → DirectedUpdateDelta) → DeltaSet ldk → DeltaSet ldk
  entry_direction scid direction f delta_set =
      entry (default_channel ldk) scid (modify_direction direction f) delta_set

  -- The loop over the reference rows; it also collects `non_intermediate_ids`.
  unfoldable pub fetch_reference_row :
      UpdateRow → DeltaSet ldk × List ℕ → Result (DeltaSet ldk × List ℕ)
  fetch_reference_row row (delta_set, ids) = do
    u ← unwrap_read (ldk.read_channel_update row.blob_signed)
    ok (
      entry_direction u.short_channel_id row.direction
          (set_before (record { seen = row.seen % 2 ^ 32; update = u })) delta_set,
      row.id ∷ ids,
    )

  unfoldable pub fetch_reference_rows :
      List UpdateRow → DeltaSet ldk × List ℕ → Result (DeltaSet ldk × List ℕ)
  fetch_reference_rows [] state = ok state
  fetch_reference_rows (row ∷ rows) state =
      fetch_reference_row row state >>= fetch_reference_rows rows

  -- The variables of the second loop.
  pub record Intermediate : Type 0 where
    pub delta_set : DeltaSet ldk
    pub previous_scid : ℕ
    pub seen_a : Bool
    pub seen_b : Bool

  -- The rest of a round, once the row's update is read.
  unfoldable pub add_intermediate : UpdateRow → UnsignedChannelUpdate → Intermediate → Intermediate
  add_intermediate row u state =
      let same_scid = u.short_channel_id == state.previous_scid in
      let seen_a = if same_scid then state.seen_a else false in
      let seen_b = if same_scid then state.seen_b else false in
      let is_first = if row.direction then not seen_b else not seen_a in
      record {
        delta_set =
            entry_direction u.short_channel_id row.direction
              (λ d.
                determine_mutations u
                  (set_latest is_first (record { seen = row.seen % 2 ^ 32; update = u }) d))
              state.delta_set;
        previous_scid = u.short_channel_id;
        seen_a = if row.direction then seen_a else true;
        seen_b = if row.direction then true else seen_b;
      }

  unfoldable pub fetch_intermediate_row : List ℕ → UpdateRow → Intermediate → Result Intermediate
  fetch_intermediate_row ids row state = if contains_id ids row.id then ok state else do
    u ← unwrap_read (ldk.read_channel_update row.blob_signed)
    ok (add_intermediate row u state)

  unfoldable pub fetch_intermediate_rows :
      List ℕ → List UpdateRow → Intermediate → Result Intermediate
  fetch_intermediate_rows ids [] state = ok state
  fetch_intermediate_rows ids (row ∷ rows) state =
      fetch_intermediate_row ids row state >>= fetch_intermediate_rows ids rows

  unfoldable pub fetch_channel_updates :
      List UpdateRow → List UpdateRow → DeltaSet ldk → Result (DeltaSet ldk)
  fetch_channel_updates reference_rows intermediate_updates delta_set = do
    (delta_set', non_intermediate_ids) ← fetch_reference_rows reference_rows (delta_set, [])
    state ← fetch_intermediate_rows non_intermediate_ids intermediate_updates (record {
      delta_set = delta_set';
      previous_scid = 2 ^ 64 - 1;
      seen_a = false;
      seen_b = false;
    })
    ok state.delta_set
