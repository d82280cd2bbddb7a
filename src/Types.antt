-- ===== src/Types.antt =====
-- src/types.rs: the gossip messages that the downloader hands to the persister.
use rapid_gossip_sync_server.Prelude.{ℕ, List, Option}
use rapid_gossip_sync_server.Ldk.{UnsignedChannelUpdate}

-- What is used of the signed messages of the crate `lightning`: fields of their `contents`, and the
-- bytes that `write` and `encode` yield.
pub record SignedMessages : Type 1 where
  pub NodeAnnouncement : Type 0
  pub ChannelAnnouncement : Type 0
  pub ChannelUpdate : Type 0
  -- `contents.node_id.to_string()`, as the characters of the hexadecimal digits
  pub public_key_hex : NodeAnnouncement → List ℕ
  pub encoded_features : NodeAnnouncement → List ℕ
  pub written_addresses : NodeAnnouncement → List ℕ
  pub node_timestamp : NodeAnnouncement → ℕ
  pub write_node_announcement : NodeAnnouncement → List ℕ
  pub short_channel_id : ChannelAnnouncement → ℕ
  pub write_channel_announcement : ChannelAnnouncement → List ℕ
  pub update_contents : ChannelUpdate → UnsignedChannelUpdate
  pub write_channel_update : ChannelUpdate → List ℕ

module _ (signed : SignedMessages) where
  open signed use {NodeAnnouncement, ChannelAnnouncement, ChannelUpdate}

  -- The last argument of each is an optional override for the seen value.
  pub data GossipMessage : Type 0 where
    node_announcement : NodeAnnouncement → Option ℕ → GossipMessage
    channel_announcement : ChannelAnnouncement → ℕ → Option ℕ → GossipMessage
    channel_update : ChannelUpdate → Option ℕ → GossipMessage
