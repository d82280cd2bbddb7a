-- ===== src/Server/SerializeDelta.antt =====
-- `serialize_delta` of src/lib.rs.
use rapid_gossip_sync_server.Prelude.{
  ℕ, ◌+◌, ◌-◌, ◌%◌, ◌^◌, List, [], ◌∷◌, ◌++◌, if◌then◌else◌, ltb, leb, length, Result, ok, ◌>>=◌,
}
use rapid_gossip_sync_server.Ldk.{Ldk, IntCodecs}
use rapid_gossip_sync_server.Serialization.{
  DefaultUpdateValues, UpdateSerialization, full, incremental, reminder, scid,
}
use rapid_gossip_sync_server.Serialization.Histograms.{HashOrder}
use rapid_gossip_sync_server.Serialization.DeltaSet.{ChannelAnnouncement, SerializationSet}
use rapid_gossip_sync_server.Serialization.StripAnnouncement.{
  serialize_stripped_channel_announcement,
}
use rapid_gossip_sync_server.Serialization.StripUpdate.{serialize_stripped_channel_update}
use rapid_gossip_sync_server.Lookup.{NodeDelta, NodeDeltaSet}
use rapid_gossip_sync_server.Server.{gossip_prefix, SerializedResponse}
use rapid_gossip_sync_server.Server.NodeIndex.{NodeIndex, no_nodes, get_node_id_index}
use rapid_gossip_sync_server.Server.NodeDelta.{no_counts, serialize_node_ids}

-- `length as u32`
abbrev pub as_u32 : ℕ → ℕ
as_u32 n = n % 2 ^ 32

module _ (ints : IntCodecs) where
  -- The loop over the updates.
  unfoldable pub serialize_updates :
      DefaultUpdateValues → List UpdateSerialization → ℕ → Result (List ℕ)
  serialize_updates d [] previous_update_scid = ok []
  serialize_updates d (update ∷ updates) previous_update_scid = do
    stripped ← serialize_stripped_channel_update ints update d previous_update_scid
    rest ← serialize_updates d updates (scid update)
    ok (stripped ++ rest)

  -- The defaults are written only if there is an update.
  unfoldable pub write_defaults : ℕ → DefaultUpdateValues → List ℕ
  write_defaults update_count d =
      if ltb 0 update_count
      then ints.u16.write d.cltv_expiry_delta
        ++ (ints.u64.write d.htlc_minimum_msat
            ++ (ints.u32.write d.fee_base_msat
                ++ (ints.u32.write d.fee_proportional_millionths
                    ++ ints.u64.write d.htlc_maximum_msat)))
      else []

-- The match in the loop over the updates, on the counts of full and of incremental ones, which
-- are u32 and wrap.
unfoldable pub count_update : UpdateSerialization → ℕ × ℕ → ℕ × ℕ
count_update (full _) (fulls, incrementals) = ((fulls + 1) % 2 ^ 32, incrementals)
count_update (incremental _ _) (fulls, incrementals) = (fulls, (incrementals + 1) % 2 ^ 32)
count_update (reminder _ _) (fulls, incrementals) = (fulls, (incrementals + 1) % 2 ^ 32)

unfoldable pub count_updates : List UpdateSerialization → ℕ × ℕ → ℕ × ℕ
count_updates [] counts = counts
count_updates (update ∷ updates) counts = count_updates updates (count_update update counts)

-- `latest_seen_timestamp.saturating_sub(latest_seen_timestamp % snapshot_interval)`
unfoldable pub serialized_seen : ℕ → ℕ → ℕ
serialized_seen latest_seen snapshot_interval = latest_seen - latest_seen % snapshot_interval

module _ (ldk : Ldk) where
  open ldk use {NodeId, NodeFeatures, ints, chain_hash, node_features}

  -- The loop over the announcements.
  unfoldable pub serialize_announcements :
      List (ChannelAnnouncement ldk) → ℕ → NodeIndex ldk → Result (List ℕ × NodeIndex ldk)
  serialize_announcements [] previous_announcement_scid n = ok ([], n)
  serialize_announcements (a ∷ announcements) previous_announcement_scid n = do
    (id_index_1, n') ← get_node_id_index ldk a.node_id_1 n
    (id_index_2, n'') ← get_node_id_index ldk a.node_id_2 n'
    stripped ←
        serialize_stripped_channel_announcement ldk a id_index_1 id_index_2
          previous_announcement_scid
    (rest, n''') ← serialize_announcements announcements a.short_channel_id n''
    ok (stripped ++ rest, n''')

  -- The loop over the keys of `node_mutations`.
  unfoldable pub index_mutated_nodes : NodeDeltaSet ldk → NodeIndex ldk → Result (NodeIndex ldk)
  index_mutated_nodes [] n = ok n
  index_mutated_nodes ((id, _) ∷ nodes) n = do
    (_, n') ← get_node_id_index ldk id n
    index_mutated_nodes nodes n'

  unfoldable pub write_features : List NodeFeatures → List ℕ
  write_features [] = []
  write_features (features ∷ defaults) = node_features.write features ++ write_features defaults

  -- Version 2 writes the most common node features; the count is `len() as u8`.
  unfoldable pub write_feature_defaults : ℕ → List NodeFeatures → List ℕ
  write_feature_defaults version defaults =
      if leb 2 version
      then ints.u8.write (length defaults % 2 ^ 8) ++ write_features defaults
      else []

  unfoldable pub index_nodes :
      HashOrder → ℕ → NodeDeltaSet ldk → NodeIndex ldk → Result (NodeIndex ldk)
  index_nodes order version nodes n =
      if leb 2 version
      then index_mutated_nodes (order.iter (NodeId × NodeDelta ldk) nodes) n
      else ok n

  unfoldable pub serialize_delta :
      HashOrder → ℕ → SerializationSet ldk → ℕ → Result SerializedResponse
  serialize_delta order snapshot_interval details version = do
    let announcement_count = as_u32 (length details.announcements)
    (announcement_bytes, n) ← serialize_announcements details.announcements 0 (no_nodes ldk)
    let update_count = as_u32 (length details.updates)
    let d = details.full_update_defaults
    update_bytes ← serialize_updates ints d details.updates 0
    let output =
        ints.u32.write announcement_count
        ++ (announcement_bytes
            ++ (ints.u32.write update_count
                ++ (write_defaults ints update_count d ++ update_bytes)))
    n' ← index_nodes order version details.node_mutations n
    (node_bytes, counts) ←
        serialize_node_ids ldk version details.node_announcement_feature_defaults
          details.node_mutations n'.node_ids no_counts
    let node_id_count = as_u32 (length n'.node_ids)
    ok (record {
      bytes =
          gossip_prefix
          ++ (version
              ∷ (chain_hash.write details.chain_hash
                  ++ (ints.u32.write (serialized_seen details.latest_seen snapshot_interval)
                      ++ (write_feature_defaults version details.node_announcement_feature_defaults
                          ++ (ints.u32.write node_id_count ++ (node_bytes ++ output))))));
      message_count = as_u32 (announcement_count + update_count);
      node_announcement_count = node_id_count;
      node_update_count = counts.node_update_count;
      node_feature_update_count = counts.node_feature_update_count;
      node_address_update_count = counts.node_address_update_count;
      channel_announcement_count = announcement_count;
      update_count = update_count;
      update_count_full = (count_updates details.updates (0, 0)).0;
      update_count_incremental = (count_updates details.updates (0, 0)).1;
    })
