-- ===== src/Lookup.antt =====
-- The delta types of src/lookup.rs, with their `Default` values.
pub mod Keyed
pub mod AnnouncementLaws
pub mod Reminders
pub mod Announcements
pub mod UpdateLaws
pub mod Marks
pub mod Updates
pub mod Filter
pub mod Nodes
pub mod NodeLaws
use rapid_gossip_sync_server.Prelude.{ℕ, Bool, false, Option, none, List}
use rapid_gossip_sync_server.Ldk.{UnsignedChannelUpdate, UnsignedChannelAnnouncement, Ldk}
use rapid_gossip_sync_server.Serialization.{
  MutatedProperties, no_mutations, NodeSerializationStrategy,
}

pub record UpdateDelta : Type 0 where
  pub seen : ℕ
  pub update : UnsignedChannelUpdate

pub record DirectedUpdateDelta : Type 0 where
  pub last_update_before_seen : Option UpdateDelta
  pub latest_update_after_seen : Option UpdateDelta
  pub mutated_properties : MutatedProperties
  pub serialization_update_flags : Option ℕ

abbrev pub default_directed : DirectedUpdateDelta
default_directed = record {
  last_update_before_seen = none;
  latest_update_after_seen = none;
  mutated_properties = no_mutations;
  serialization_update_flags = none;
}

module _ (ldk : Ldk) where
  open ldk use {ChannelFeatures, NodeFeatures, NodeId, SocketAddress}

  pub record AnnouncementDelta : Type 0 where
    pub seen : ℕ
    pub announcement : UnsignedChannelAnnouncement ChannelFeatures NodeId

  -- `updates` is a pair in the source: the two directions.
  pub record ChannelDelta : Type 0 where
    pub announcement : Option AnnouncementDelta
    pub updates_a : Option DirectedUpdateDelta
    pub updates_b : Option DirectedUpdateDelta
    pub first_bidirectional_updates_seen : Option ℕ
    pub requires_reminder : Bool

  abbrev pub default_channel : ChannelDelta
  default_channel = record {
    announcement = none;
    updates_a = none;
    updates_b = none;
    first_bidirectional_updates_seen = none;
    requires_reminder = false;
  }

  -- A `BTreeMap`, as the list of its entries by ascending scid.
  abbrev pub DeltaSet : Type 0
  DeltaSet = List (ℕ × ChannelDelta)

  -- The addresses are a `HashSet`, as the list of its elements.
  pub record NodeDetails : Type 0 where
    pub seen : Option ℕ
    pub features : NodeFeatures
    pub addresses : List SocketAddress

  pub record NodeDelta : Type 0 where
    pub latest_details : Option NodeDetails
    pub strategy : Option NodeSerializationStrategy
    pub last_details_before_seen : Option NodeDetails

  abbrev pub default_node : NodeDelta
  default_node = record { latest_details = none; strategy = none; last_details_before_seen = none }

  -- A `HashMap`, as the list of its entries.
  abbrev pub NodeDeltaSet : Type 0
  NodeDeltaSet = List (NodeId × NodeDelta)
