-- ===== src/Server/SnapshotTotal.antt =====
-- The first version of a snapshot is made without a panic, from the database to the bytes: what
-- `generate_snapshots` of src/snapshot.rs calls for it in src/lib.rs.
use rapid_gossip_sync_server.Prelude.{
  ℕ, ◌+◌, ◌%◌, ◌^◌, ◌≤◌, ◌<◌, List, [], ◌∷◌, ◌++◌, Option, ok, ◌≡◌, refl, arith, inl, inr, length,
}
use rapid_gossip_sync_server.Prelude.Maps.{unwrap_or}
use rapid_gossip_sync_server.Config.{channel_reminder_age, prune_interval}
use rapid_gossip_sync_server.Ldk.{Ldk}
use rapid_gossip_sync_server.Lookup.Announcements.{Database}
use rapid_gossip_sync_server.Lookup.AnnouncementLaws.{IsReadableDatabase}
use rapid_gossip_sync_server.Lookup.Nodes.{NodeSource}
use rapid_gossip_sync_server.Lookup.NodeLaws.{IsReadableSource}
use rapid_gossip_sync_server.Serialization.Histograms.{HashOrder}
use rapid_gossip_sync_server.Serialization.{UpdateSerialization, full, incremental, reminder}
use rapid_gossip_sync_server.Serialization.DeltaSet.{ChannelAnnouncement, SerializationSet}
use rapid_gossip_sync_server.Server.{SerializedResponse}
use rapid_gossip_sync_server.Server.NodeIndex.{NodeIndex, no_nodes}
use rapid_gossip_sync_server.Server.IndexLaws.{IsIndexed, get_node_id_index_lem, no_nodes-IsIndexed}
use rapid_gossip_sync_server.Server.AnnouncementStream.{AreSorted, stripped, strip_lem}
use rapid_gossip_sync_server.Server.UpdateStream.{serialize_updates_total}
use rapid_gossip_sync_server.Server.CalculateDelta.{
  Graph, IsOrdered, calculate_delta, calculate_delta-IsOrdered,
}
use rapid_gossip_sync_server.Server.SerializeDelta.{
  count_update, count_updates, serialize_announcements, serialize_delta,
}
use rapid_gossip_sync_server.Server.SnapshotRoundTrip.{response_v1, serialize_delta_v1}

-- The number of updates that are sent in full.
abbrev pub full_updates : List UpdateSerialization → ℕ
full_updates [] = 0
full_updates (full _ ∷ updates) = 1 + full_updates updates
full_updates (incremental _ _ ∷ updates) = full_updates updates
full_updates (reminder _ _ ∷ updates) = full_updates updates

-- Every full update is counted once, and so is every other one.
count_updates_lem :
    (updates : List UpdateSerialization) (f i : ℕ)
    → f < 2 ^ 32
    → i < 2 ^ 32
    → let counts = count_updates updates (f, i) in
      (counts.0 ≡ (f + full_updates updates) % 2 ^ 32)
      × (counts.1 < 2 ^ 32)
      × ((counts.0 + counts.1) % 2 ^ 32 ≡ (f + i + length updates) % 2 ^ 32)
unfolding count_updates count_update
count_updates_lem [] f i hf hi = (omega (arith, hf), hi, omega arith)
count_updates_lem (full u ∷ updates) f i hf hi =
    let (fulls, fits, sum) = count_updates_lem updates ((f + 1) % 2 ^ 32) i (omega arith) hi in
    (omega (arith, fulls), fits, omega (arith, sum))
count_updates_lem (incremental u m ∷ updates) f i hf hi =
    let (fulls, fits, sum) = count_updates_lem updates f ((i + 1) % 2 ^ 32) hf (omega arith) in
    (fulls, fits, omega (arith, sum))
count_updates_lem (reminder id bits ∷ updates) f i hf hi =
    let (fulls, fits, sum) = count_updates_lem updates f ((i + 1) % 2 ^ 32) hf (omega arith) in
    (fulls, fits, omega (arith, sum))

module _ (ldk : Ldk) where
  serialize_announcements_total :
      (announcements : List (ChannelAnnouncement ldk)) (previous : ℕ) (n : NodeIndex ldk)
      → IsIndexed ldk n
      → AreSorted ldk previous announcements
      → (bytes : List ℕ) × (n' : NodeIndex ldk) × (serialize_announcements ldk announcements
            previous n
          ≡ ok (bytes, n'))
  unfolding serialize_announcements
  serialize_announcements_total [] previous n h sorted = ([], n, refl)
  serialize_announcements_total (a ∷ announcements) previous n h sorted =
      let (i, n1, num1) = get_node_id_index_lem ldk a.node_id_1 n h in
      let (j, n2, num2) = get_node_id_index_lem ldk a.node_id_2 n1 num1.indexed in
      let (bytes, n3, more) =
        serialize_announcements_total announcements a.short_channel_id n2 num2.indexed sorted.1 in
      (
        stripped ldk a i j previous sorted.0 ++ bytes,
        n3,
        rw (num1.returns, num2.returns, strip_lem ldk a i j previous sorted.0, more) refl,
      )

  -- With a positive interval, a set whose scids do not descend is serialized in version 1 without
  -- a panic. Its two counters of updates are u32 and wrap: the one of full updates is the number
  -- of them cut to 32 bits, the other one fits 32 bits, and their sum is the number of updates
  -- modulo 2 ^ 32.
  pub serialize_delta_total :
      (order : HashOrder) (interval : ℕ) (details : SerializationSet ldk)
      → 0 < interval
      → IsOrdered ldk details
      → (response : SerializedResponse) × (serialize_delta ldk order interval details 1
          ≡ ok response)
        × (response.update_count_full ≡ full_updates details.updates % 2 ^ 32)
        × (response.update_count_incremental < 2 ^ 32)
        × ((response.update_count_full + response.update_count_incremental) % 2 ^ 32
            ≡ length details.updates % 2 ^ 32)
  serialize_delta_total order interval details positive h =
      let (a_bytes, n, announced) =
        serialize_announcements_total details.announcements 0 (no_nodes ldk)
          (no_nodes-IsIndexed ldk) h.announcements_sorted in
      elim (serialize_updates_total ldk.ints details.full_update_defaults details.updates 0) [
        | inl (sorted, (u_bytes, updated)) ↦
            let (fulls, fits, sum) =
              count_updates_lem details.updates 0 0 (omega arith) (omega arith) in
            (
              response_v1 ldk interval details a_bytes u_bytes n.node_ids,
              serialize_delta_v1 ldk interval details order a_bytes u_bytes n announced updated,
              omega (arith, fulls),
              fits,
              omega (arith, sum),
            )
        | inr (unsorted, fails) ↦ absurd (unsorted h.updates_sorted)
      ]

  -- If the snapshot interval is positive, the database returns blobs that can be read, the
  -- reference time is not before the prune interval and the clock not before the reminder age
  -- (both counted from the epoch), the delta is calculated and the snapshot of version 1 is
  -- serialized from it, neither with a panic.
  pub serialize_delta-calculate_delta :
      (order : HashOrder) (remove_stale : Graph ldk → Graph ldk) (db : Database)
      (source : NodeSource ldk) (network : ldk.ChainHash) (now : ℕ) (graph : Graph ldk)
      (last_sync_timestamp : ℕ) (reference : Option ℕ) (interval : ℕ)
      → 0 < interval
      → IsReadableDatabase ldk db
      → IsReadableSource ldk source
      → prune_interval ≤ unwrap_or now reference
      → channel_reminder_age ≤ now
      → (details : SerializationSet ldk) × (response : SerializedResponse) × (calculate_delta ldk
            order remove_stale db source network now graph last_sync_timestamp reference
          ≡ ok details)
        × (serialize_delta ldk order interval details 1 ≡ ok response)
  serialize_delta-calculate_delta order remove_stale db source network now graph last reference
        interval positive readable readable' late late' =
      let (details, calculated, ordered) =
        calculate_delta-IsOrdered ldk order remove_stale db source network now graph last reference
          readable readable' late late' in
      let (response, serialized, fulls, fits, sum) =
        serialize_delta_total order interval details positive ordered in
      (details, response, calculated, serialized)
