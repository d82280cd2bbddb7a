-- ===== src/Snapshot/Generate.antt =====
-- `generate_snapshots` of src/snapshot.rs over the calculation and the serialization of src/lib.rs.
use rapid_gossip_sync_server.Prelude.{ℕ, List, Option, some, Result, ok, ◌>>=◌}
use rapid_gossip_sync_server.Ldk.{Ldk}
use rapid_gossip_sync_server.Lookup.Announcements.{Database}
use rapid_gossip_sync_server.Lookup.Nodes.{NodeSource}
use rapid_gossip_sync_server.Serialization.Histograms.{HashOrder}
use rapid_gossip_sync_server.Server.CalculateDelta.{Graph, calculate_delta}
use rapid_gossip_sync_server.Server.SerializeDelta.{serialize_delta}
use rapid_gossip_sync_server.Server.EmptyBlob.{serialize_empty_blob}
use rapid_gossip_sync_server.Snapshot.{round_down_to_nearest_multiple}
use rapid_gossip_sync_server.Snapshot.Files.{Version, v1, v2, Directories, generate_at}

abbrev pub version_number : Version → ℕ
version_number v1 = 1
version_number v2 = 2

module _ (ldk : Ldk) (order : HashOrder)
    (remove_stale_channels_and_tracking : Graph ldk → Graph ldk) where
  -- The bytes of one file. The delta is calculated once for both versions, from the same answers.
  unfoldable pub calculated_snapshot :
      Database
      → NodeSource ldk
      → ldk.ChainHash
      → ℕ
      → Graph ldk
      → ℕ
      → ℕ
      → Version
      → ℕ
      → Result (List ℕ)
  calculated_snapshot db source network now network_graph snapshot_interval reference_timestamp
        version last_sync =
      do
        delta ←
            calculate_delta ldk order remove_stale_channels_and_tracking db source network now
              network_graph last_sync (some reference_timestamp)
        response ← serialize_delta ldk order snapshot_interval delta (version_number version)
        ok response.bytes

  -- `now` is the clock's time, also during the calculation.
  unfoldable pub generate_snapshots :
      Database
      → NodeSource ldk
      → ldk.ChainHash
      → ℕ
      → Graph ldk
      → ℕ
      → ℕ
      → List ℕ
      → Option ℕ
      → Result Directories
  generate_snapshots db source network now network_graph granularity_interval snapshot_interval
        snapshot_scopes max_symlink_count =
      let reference_timestamp = round_down_to_nearest_multiple now snapshot_interval in
      generate_at
        (calculated_snapshot db source network now network_graph snapshot_interval
          reference_timestamp)
        (λ version. serialize_empty_blob ldk network reference_timestamp (version_number version))
        reference_timestamp granularity_interval snapshot_scopes max_symlink_count
