-- ===== src/Server/EmptyBlob.antt =====
-- `serialize_empty_blob` of src/lib.rs, and the rounding of src/snapshot.rs that it uses.
use rapid_gossip_sync_server.Prelude.{ℕ, ◌%◌, ◌^◌, List, [], ◌++◌, if◌then◌else◌, leb}
use rapid_gossip_sync_server.Ldk.{Ldk}
use rapid_gossip_sync_server.Config.{symlink_granularity_interval}
use rapid_gossip_sync_server.Snapshot.{round_down_to_nearest_multiple}
use rapid_gossip_sync_server.Server.{gossip_prefix}

module _ (ldk : Ldk) where
  open ldk use {ChainHash, ints, chain_hash}

  -- `network` is the genesis hash of the configured network.
  unfoldable pub serialize_empty_blob : ChainHash → ℕ → ℕ → List ℕ
  serialize_empty_blob network current_timestamp version =
      gossip_prefix
      ++ (ints.u8.write version
          ++ (chain_hash.write network
              ++ (ints.u32.write (
                    round_down_to_nearest_multiple current_timestamp symlink_granularity_interval
                    % 2 ^ 32)
                  ++ ((if leb 2 version then ints.u8.write 0 else [])
                      ++ (ints.u32.write 0 ++ (ints.u32.write 0 ++ ints.u32.write 0))))))
