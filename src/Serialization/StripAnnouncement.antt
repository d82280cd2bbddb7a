-- ===== src/Serialization/StripAnnouncement.antt =====
-- `serialize_stripped_channel_announcement` of src/serialization.rs.
use rapid_gossip_sync_server.Prelude.{
  ℕ, ◌-◌, List, ◌++◌, if◌then◌else◌, ltb, Result, ok, panic, unsorted_scids,
}
use rapid_gossip_sync_server.Ldk.{Ldk}
use rapid_gossip_sync_server.Serialization.DeltaSet.{ChannelAnnouncement}

module _ (ldk : Ldk) where
  open ldk use {ints, channel_features}

  unfoldable pub serialize_stripped_channel_announcement :
      ChannelAnnouncement ldk → ℕ → ℕ → ℕ → Result (List ℕ)
  serialize_stripped_channel_announcement announcement node_id_a_index node_id_b_index
        previous_scid =
      if ltb announcement.short_channel_id previous_scid
      then panic unsorted_scids
      else ok (
          channel_features.write announcement.features
          ++ (ints.big_size.write (announcement.short_channel_id - previous_scid)
              ++ (ints.big_size.write node_id_a_index ++ ints.big_size.write node_id_b_index)))
