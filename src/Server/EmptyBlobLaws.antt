-- ===== src/Server/EmptyBlobLaws.antt =====
-- The client's reading of the empty snapshot of src/lib.rs.
use rapid_gossip_sync_server.Prelude.{
  ℕ, ◌+◌, ◌%◌, ◌^◌, ◌≤◌, ◌<◌, List, [], ◌∷◌, ◌++◌, some, ◌≡◌, arith, append_assoc,
}
use rapid_gossip_sync_server.Config.{symlink_granularity_interval}
use rapid_gossip_sync_server.Ldk.{Ldk}
use rapid_gossip_sync_server.Snapshot.{round_down_to_nearest_multiple}
use rapid_gossip_sync_server.Snapshot.Scopes.{round_down_to_nearest_multiple_lem}
use rapid_gossip_sync_server.Server.EmptyBlob.{serialize_empty_blob}
use rapid_gossip_sync_server.Server.ReadSnapshot.{read_snapshot, read_node_ids, read_update_section}
use rapid_gossip_sync_server.Server.AnnouncementStream.{read_announcements}

module _ (ldk : Ldk) where
  open ldk use {ints, chain_hash}

  -- If the version 1 is written as one byte: from the empty blob of version 1 for a time that fits
  -- 32 bits, whatever follows, the client reads the chain hash, a time that is less than three hours
  -- before the given one, and no nodes, announcements or updates.
  pub read_snapshot-serialize_empty_blob :
      (network : ldk.ChainHash) (current_timestamp : ℕ) (rest : List ℕ)
      → ints.u8.write 1 ≡ 1 ∷ []
      → current_timestamp < 2 ^ 32
      → (time : ℕ) × (read_snapshot ldk
            (serialize_empty_blob ldk network current_timestamp 1 ++ rest)
          ≡ some (
            record {
              chain_hash = network;
              latest_seen = time;
              node_ids = [];
              announcements = [];
              updates = [];
            },
            rest,
          ))
        × (time ≤ current_timestamp)
        × (current_timestamp < time + symlink_granularity_interval)
  unfolding read_snapshot serialize_empty_blob read_node_ids read_update_section read_announcements
  read_snapshot-serialize_empty_blob network now rest one_byte fits =
      let time = round_down_to_nearest_multiple now symlink_granularity_interval in
      let (whole, before, near) =
        round_down_to_nearest_multiple_lem now symlink_granularity_interval (omega arith) in
      let small : time < 2 ^ 32 = omega (arith, before, fits) in
      let mod_eq : time % 2 ^ 32 ≡ time = omega (arith, small) in
      (
        time,
        simp (
          append_assoc,
          one_byte,
          mod_eq,
          chain_hash.read_write network _ tt,
          ints.u32.read_write _ _ small,
          ints.u32.read_write 0 _ (omega arith),
        ),
        before,
        near,
      )
