-- ===== src/Tests/Totals.antt =====
-- The theorems on hexadecimal digits, on histograms, and that snapshots are made, at concrete
-- inputs.
use rapid_gossip_sync_server.Prelude.{
  ℕ, ◌+◌, ◌/◌, ◌%◌, ◌^◌, ◌≤◌, ◌<◌, List, [], ◌∷◌, ◌++◌, some, none, ok, All, ◌≡◌, ◌⊎◌, refl, arith,
  length,
}
use rapid_gossip_sync_server.Config.{symlink_granularity_interval}
use rapid_gossip_sync_server.Hex.{to_vec}
use rapid_gossip_sync_server.Hex.Laws.{to_hex, IsDigit, to_vec-to_hex, to_vec_total}
use rapid_gossip_sync_server.Serialization.Histograms.{
  find_most_common_histogram_entry_with_default,
}
use rapid_gossip_sync_server.Serialization.HistogramLaws.{
  IsMostFrequent, find_most_common_histogram_entry_with_default_lem,
}
use rapid_gossip_sync_server.Serialization.DeltaSet.{SerializationSet}
use rapid_gossip_sync_server.Server.{SerializedResponse}
use rapid_gossip_sync_server.Server.CalculateDelta.{IsOrdered, calculate_delta}
use rapid_gossip_sync_server.Server.EmptyBlob.{serialize_empty_blob}
use rapid_gossip_sync_server.Server.EmptyBlobLaws.{read_snapshot-serialize_empty_blob}
use rapid_gossip_sync_server.Server.ReadSnapshot.{read_snapshot}
use rapid_gossip_sync_server.Server.SerializeDelta.{serialize_delta}
use rapid_gossip_sync_server.Server.SnapshotTotal.{
  full_updates, serialize_delta_total, serialize_delta-calculate_delta,
}
use rapid_gossip_sync_server.Tests.{toy, as_listed}
use rapid_gossip_sync_server.Tests.Queries.{
  toy_database, toy_database-IsReadable, toy_source, toy_source-IsReadable, toy_graph,
}
use rapid_gossip_sync_server.Tests.Snapshots.{toy_details, toy_details-IsSerializable}

to_vec-to_hex_example : to_vec (to_hex (202 ∷ 254 ∷ [])) ≡ some (202 ∷ 254 ∷ [])
to_vec-to_hex_example = to_vec-to_hex (202 ∷ 254 ∷ []) (omega arith, (omega arith, tt))

to_vec_total_example :
    (All IsDigit (48 ∷ 71 ∷ [])
      × ((out : List ℕ) × (to_vec (48 ∷ 71 ∷ []) ≡ some out)
          × (length out ≡ length {A = ℕ} (48 ∷ 71 ∷ []) / 2)))
    ⊎ ((¬ All IsDigit (48 ∷ 71 ∷ [])) × (to_vec (48 ∷ 71 ∷ []) ≡ none))
to_vec_total_example = to_vec_total (48 ∷ 71 ∷ [])

abbrev toy_histogram : List (ℕ × ℕ)
toy_histogram = (40, 3) ∷ (80, 7) ∷ (144, 7) ∷ []

find_most_common_histogram_entry_with_default_example :
    ((toy_histogram ≡ []) × (find_most_common_histogram_entry_with_default toy_histogram 0 ≡ 0))
    ⊎ ((e : ℕ × ℕ) × (find_most_common_histogram_entry_with_default toy_histogram 0 ≡ e.0)
        × IsMostFrequent toy_histogram e)
find_most_common_histogram_entry_with_default_example =
    find_most_common_histogram_entry_with_default_lem toy_histogram 0

read_snapshot-serialize_empty_blob_example :
    (time : ℕ) × (read_snapshot toy (serialize_empty_blob toy 1 1700000000 1 ++ (5 ∷ []))
      ≡ some (
        record {
          chain_hash = 1;
          latest_seen = time;
          node_ids = [];
          announcements = [];
          updates = [];
        },
        5 ∷ [],
      ))
    × (time ≤ 1700000000)
    × (1700000000 < time + symlink_granularity_interval)
read_snapshot-serialize_empty_blob_example =
    read_snapshot-serialize_empty_blob toy 1 1700000000 (5 ∷ []) refl (omega arith)

toy_details-IsOrdered : IsOrdered toy toy_details
toy_details-IsOrdered = record {
  announcements_sorted = toy_details-IsSerializable.announcements_sorted;
  updates_sorted = toy_details-IsSerializable.updates_sorted;
}

serialize_delta_total_example :
    (response : SerializedResponse) × (serialize_delta toy as_listed 10800 toy_details 1
      ≡ ok response)
    × (response.update_count_full ≡ full_updates toy_details.updates % 2 ^ 32)
    × (response.update_count_incremental < 2 ^ 32)
    × ((response.update_count_full + response.update_count_incremental) % 2 ^ 32
        ≡ length toy_details.updates % 2 ^ 32)
serialize_delta_total_example =
    serialize_delta_total toy as_listed 10800 toy_details (omega arith) toy_details-IsOrdered

serialize_delta-calculate_delta_example :
    (details : SerializationSet toy) × (response : SerializedResponse) × (calculate_delta toy
        as_listed
        (λ graph. graph)
        toy_database
        toy_source
        1
        2100000
        toy_graph
        1800000
        (some 2090000)
      ≡ ok details)
    × (serialize_delta toy as_listed 10800 details 1 ≡ ok response)
serialize_delta-calculate_delta_example =
    serialize_delta-calculate_delta toy as_listed (λ graph. graph) toy_database toy_source 1 2100000
      toy_graph 1800000 (some 2090000) 10800 (omega arith) toy_database-IsReadable
      toy_source-IsReadable (omega arith) (omega arith)
