-- ===== src/Server/CalculateDelta.antt =====
-- `calculate_delta` of src/lib.rs, and that it does not panic.
use rapid_gossip_sync_server.Prelude.{
  ℕ, ◌≤◌, ◌-◌, ◌%◌, ◌^◌, List, [], ◌∷◌, Option, All, All-imp, Result, ok, ◌>>=◌, ◌≡◌, refl, arith,
}
use rapid_gossip_sync_server.Prelude.Maps.{unwrap_or, IsAscending}
use rapid_gossip_sync_server.Config.{
  channel_reminder_age, node_default_feature_count, prune_interval,
}
use rapid_gossip_sync_server.Ldk.{Ldk}
use rapid_gossip_sync_server.Lookup.{DeltaSet, NodeDelta, NodeDeltaSet}
use rapid_gossip_sync_server.Lookup.Keyed.{IsKeyed, IsAnnounced}
use rapid_gossip_sync_server.Lookup.Announcements.{
  Database, NetworkGraph, fetch_channel_announcements,
}
use rapid_gossip_sync_server.Lookup.AnnouncementLaws.{
  IsReadableDatabase, fetch_channel_announcements-Holds,
}
use rapid_gossip_sync_server.Lookup.Updates.{fetch_channel_updates}
use rapid_gossip_sync_server.Lookup.UpdateLaws.{
  Each, Each-IsKeyed, Holds-imp, fetch_channel_updates-Holds,
}
use rapid_gossip_sync_server.Lookup.Marks.{IsMarked, IsReference, IsFresh, IsFresh-IsReference}
use rapid_gossip_sync_server.Lookup.Nodes.{GraphNode, NodeSource, fetch_node_updates}
use rapid_gossip_sync_server.Lookup.NodeLaws.{IsReadableSource, fetch_node_updates-ArePlanned}
use rapid_gossip_sync_server.Lookup.Filter.{
  filter_delta_set, filter_delta_set_lem, All-filter_delta_set,
}
use rapid_gossip_sync_server.Serialization.Histograms.{HashOrder, find_leading_histogram_entries}
use rapid_gossip_sync_server.Serialization.DeltaSet.{
  SerializationSet, non_incremental_threshold, serialize_delta_set, serialize_nodes,
  feature_histogram, default_values,
}
use rapid_gossip_sync_server.Serialization.Categorize.{empty_histograms}
use rapid_gossip_sync_server.Serialization.NoPanic.{serialize_channels-StateUpTo}
use rapid_gossip_sync_server.Server.AnnouncementStream.{AreSorted}
use rapid_gossip_sync_server.Server.UpdateStream.{IsSorted}

module _ (ldk : Ldk) where
  -- What the function reads of LDK's `NetworkGraph`.
  pub record Graph : Type 0 where
    pub channels : NetworkGraph
    pub nodes : List (GraphNode ldk)

  module _ (order : HashOrder) (remove_stale_channels_and_tracking : Graph → Graph) where
    -- `db` and `source` are what the database answers, `now` is the system's clock in seconds.
    unfoldable pub calculate_delta :
        Database
        → NodeSource ldk
        → ldk.ChainHash
        → ℕ
        → Graph
        → ℕ
        → Option ℕ
        → Result (SerializationSet ldk)
    calculate_delta db source network now network_graph last_sync_timestamp reference = do
      let graph = remove_stale_channels_and_tracking network_graph
      announced ←
          fetch_channel_announcements ldk db graph.channels now last_sync_timestamp reference []
      updated ←
          fetch_channel_updates ldk (db.reference_rows last_sync_timestamp)
            (db.intermediate_updates last_sync_timestamp) announced
      node_delta_set ← fetch_node_updates ldk source graph.nodes now last_sync_timestamp reference
      delta_set ← filter_delta_set ldk updated
      serialize_delta_set ldk order network now delta_set node_delta_set last_sync_timestamp

  -- What `serialize_delta` relies on: the scids of both streams ascend.
  pub record IsOrdered (details : SerializationSet ldk) : Type 0 where
    pub announcements_sorted : AreSorted ldk 0 details.announcements
    pub updates_sorted : IsSorted 0 details.updates

  non_incremental_threshold_lem :
      (now : ℕ)
      → channel_reminder_age ≤ now
      → non_incremental_threshold now ≡ ok ((now - channel_reminder_age) % 2 ^ 32)
  unfolding non_incremental_threshold
  non_incremental_threshold_lem now late = ground arith

  All-zero : (m : DeltaSet ldk) → All (λ e. 0 ≤ e.0) m
  All-zero [] = tt
  All-zero (e ∷ m) = (omega arith, All-zero m)

  serialize_delta_set-IsOrdered :
      (order : HashOrder) (network : ldk.ChainHash) (now : ℕ) (delta_set : DeltaSet ldk)
      (nodes : NodeDeltaSet ldk) (last_sync_timestamp : ℕ)
      → channel_reminder_age ≤ now
      → IsAscending delta_set
      → All (IsAnnounced ldk) delta_set
      → All (IsKeyed ldk) delta_set
      → (details : SerializationSet ldk) × (serialize_delta_set ldk order network now delta_set
            nodes last_sync_timestamp
          ≡ ok details)
        × IsOrdered details
  unfolding serialize_delta_set
  serialize_delta_set-IsOrdered order network now m nodes last late asc announced keyed =
      let threshold = (now - channel_reminder_age) % 2 ^ 32 in
      let (id, state, returns, h) =
        serialize_channels-StateUpTo ldk last threshold m 0
          ([], record { updates = []; latest_seen = 0; histograms = empty_histograms }) asc
          (All-zero m) announced keyed
          (record {
            announcements_sorted = tt;
            announcements_below = tt;
            progress = record { sorted = tt; below = tt };
          }) in
      let node_mutations =
        serialize_nodes ldk threshold (order.iter (ldk.NodeId × NodeDelta ldk) nodes) in
      let histogram =
        feature_histogram ldk (order.iter (ldk.NodeId × NodeDelta ldk) node_mutations) [] in
      (
        record {
          announcements = state.0;
          updates = state.1.updates;
          full_update_defaults = default_values ldk order state.1.histograms;
          node_announcement_feature_defaults =
              find_leading_histogram_entries (order.iter (ldk.NodeFeatures × ℕ) histogram)
                node_default_feature_count;
          node_mutations = node_mutations;
          latest_seen = state.1.latest_seen;
          chain_hash = network;
        },
        rw (non_incremental_threshold_lem now late, returns) refl,
        record {
          announcements_sorted = h.announcements_sorted;
          updates_sorted = h.progress.sorted;
        },
      )

  -- If the database returns blobs that can be read, the reference time is not before the prune
  -- interval and the clock not before the reminder age (both counted from the epoch),
  -- `calculate_delta` does not panic. The scids of the announcements, and those of the updates, do
  -- not descend, as `serialize_delta` requires.
  pub calculate_delta-IsOrdered :
      (order : HashOrder) (remove_stale : Graph → Graph) (db : Database) (source : NodeSource ldk)
      (network : ldk.ChainHash) (now : ℕ) (graph : Graph) (last_sync_timestamp : ℕ)
      (reference : Option ℕ)
      → IsReadableDatabase ldk db
      → IsReadableSource ldk source
      → prune_interval ≤ unwrap_or now reference
      → channel_reminder_age ≤ now
      → (details : SerializationSet ldk) × (calculate_delta order remove_stale db source network now
            graph last_sync_timestamp reference
          ≡ ok details)
        × IsOrdered details
  unfolding calculate_delta
  calculate_delta-IsOrdered order remove_stale db source network now graph last reference readable
        readable' late late' =
      let (m1, one, h1) =
        fetch_channel_announcements-Holds ldk db (remove_stale graph).channels readable now last
          reference late in
      let (m2, two, h2) =
        fetch_channel_updates-Holds ldk (db.reference_rows last) (db.intermediate_updates last) m1
          (readable.reference_readable last) (readable.intermediate_readable last)
          (Holds-imp ldk IsFresh IsReference IsFresh-IsReference m1 h1) in
      let (nodes, three, h3) =
        fetch_node_updates-ArePlanned ldk source (remove_stale graph).nodes now last reference
          readable' late in
      let (m4, four, asc, announced, same) = filter_delta_set_lem ldk m2 h2.ascending in
      let keyed =
        All-imp (Each ldk IsMarked) (IsKeyed ldk) (Each-IsKeyed ldk) m4
          (All-filter_delta_set ldk (Each ldk IsMarked) m2 m4 h2.ascending four h2.each) in
      let (details, five, ordered) =
        serialize_delta_set-IsOrdered order network now m4 nodes last late' asc announced keyed in
      (details, rw (one, two, three, four) five, ordered)
