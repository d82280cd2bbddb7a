-- ===== src/Serialization/DeltaSet.antt =====
-- `serialize_delta_set` of src/serialization.rs.
use rapid_gossip_sync_server.Serialization.Categorize.{
  FullUpdateValueHistograms, empty_histograms, Progress, ChannelContext,
  categorize_directed_update_serialization,
}
use rapid_gossip_sync_server.Prelude.{
  ℕ, ◌-◌, ◌%◌, ◌^◌, max, List, [], ◌∷◌, ◌++◌, Option, none, some, Bool, true, false, ◌||◌,
  if◌then◌else◌, ltb, leb, Result, ok, panic, unwrap_none, ◌>>=◌,
}
use rapid_gossip_sync_server.Ldk.{UnsignedChannelAnnouncement, Ldk}
use rapid_gossip_sync_server.Config.{channel_reminder_age, node_default_feature_count}
use rapid_gossip_sync_server.Serialization.{
  DefaultUpdateValues, UpdateSerialization, mutated_node, full_node, reminder_node,
}
use rapid_gossip_sync_server.Serialization.Histograms.{
  HashOrder, tally, find_most_common_histogram_entry_with_default, find_leading_histogram_entries,
}
use rapid_gossip_sync_server.Lookup.{
  AnnouncementDelta, ChannelDelta, DeltaSet, NodeDelta, NodeDeltaSet,
}

abbrev pub seen_since : ℕ → Option ℕ → Bool
seen_since last_sync_timestamp none = false
seen_since last_sync_timestamp (some seen) = leb last_sync_timestamp seen

-- `SystemTime::now() - CHANNEL_REMINDER_AGE` in seconds since the epoch, `as u32`.
unfoldable pub non_incremental_threshold : ℕ → Result ℕ
non_incremental_threshold now =
    if ltb now channel_reminder_age
    then panic unwrap_none
    else ok ((now - channel_reminder_age) % 2 ^ 32)

module _ (ldk : Ldk) where
  open ldk use {ChannelFeatures, NodeFeatures, NodeId, ChainHash, features_eq}

  abbrev pub ChannelAnnouncement : Type 0
  ChannelAnnouncement = UnsignedChannelAnnouncement ChannelFeatures NodeId

  pub record SerializationSet : Type 0 where
    pub announcements : List ChannelAnnouncement
    pub updates : List UpdateSerialization
    pub full_update_defaults : DefaultUpdateValues
    pub node_announcement_feature_defaults : List NodeFeatures
    pub node_mutations : NodeDeltaSet ldk
    pub latest_seen : ℕ
    pub chain_hash : ChainHash

  unfoldable pub sends_announcement : ℕ → ChannelDelta ldk → AnnouncementDelta ldk → Bool
  sends_announcement last_sync_timestamp delta a =
      leb last_sync_timestamp a.seen
      || seen_since last_sync_timestamp delta.first_bidirectional_updates_seen

  abbrev pub channel_context : ℕ → ℕ → ℕ → ChannelDelta ldk → AnnouncementDelta ldk → ChannelContext
  channel_context last_sync_timestamp threshold scid delta a = record {
    scid = scid;
    send_announcement = sends_announcement last_sync_timestamp delta a;
    is_newly_included_announcement =
        seen_since last_sync_timestamp delta.first_bidirectional_updates_seen;
    requires_reminder = delta.requires_reminder;
    threshold = threshold;
  }

  -- `if send_announcement { … }`, on the announcements and the rest of the progress.
  unfoldable pub push_announcement :
      Bool
      → AnnouncementDelta ldk
      → List ChannelAnnouncement × Progress
      → List ChannelAnnouncement × Progress
  push_announcement send a (announcements, s) =
      if send
      then (
        announcements ++ (a.announcement ∷ []),
        record s { latest_seen = max s.latest_seen a.seen },
      )
      else (announcements, s)

  -- One round of the loop over the channels.
  unfoldable pub serialize_channel :
      ℕ
      → ℕ
      → ℕ × ChannelDelta ldk
      → List ChannelAnnouncement × Progress
      → Result (List ChannelAnnouncement × Progress)
  serialize_channel last_sync_timestamp threshold (scid, delta) state = elim delta.announcement [
    | none ↦ panic unwrap_none
    | some a ↦
        let c = channel_context last_sync_timestamp threshold scid delta a in
        let (announcements, s) = push_announcement c.send_announcement a state in
        do
          s' ← categorize_directed_update_serialization c delta.updates_a s
          s'' ← categorize_directed_update_serialization c delta.updates_b s'
          ok (announcements, s'')
  ]

  unfoldable pub serialize_channels :
      ℕ
      → ℕ
      → DeltaSet ldk
      → List ChannelAnnouncement × Progress
      → Result (List ChannelAnnouncement × Progress)
  serialize_channels last_sync_timestamp threshold [] state = ok state
  serialize_channels last_sync_timestamp threshold (channel ∷ delta_set) state =
      serialize_channel last_sync_timestamp threshold channel state
      >>= serialize_channels last_sync_timestamp threshold delta_set

  -- The closure of the `filter_map` over the node deltas.
  unfoldable pub serialize_node : ℕ → NodeDelta ldk → Option (NodeDelta ldk)
  serialize_node threshold delta = elim delta.strategy [
    | none ↦ none
    | some _ ↦ elim delta.last_details_before_seen [
      | none ↦ none
      | some before ↦ some (elim before.seen [
        | none ↦ delta
        | some seen ↦
            if leb seen threshold then record delta { strategy = some full_node } else delta
      ])
    ]
  ]

  unfoldable pub serialize_nodes : ℕ → NodeDeltaSet ldk → NodeDeltaSet ldk
  serialize_nodes threshold [] = []
  serialize_nodes threshold ((id, delta) ∷ nodes) = elim (serialize_node threshold delta) [
    | none ↦ serialize_nodes threshold nodes
    | some delta' ↦ (id, delta') ∷ serialize_nodes threshold nodes
  ]

  -- Full and feature-mutating serializations count for the feature histogram.
  unfoldable pub should_add_to_histogram : NodeDelta ldk → Bool
  should_add_to_histogram delta = elim delta.strategy [
    | some full_node ↦ true
    | some (mutated_node mutation) ↦ mutation.features
    | some reminder_node ↦ false
    | none ↦ false
  ]

  unfoldable pub feature_histogram :
      NodeDeltaSet ldk → List (NodeFeatures × ℕ) → List (NodeFeatures × ℕ)
  feature_histogram [] histogram = histogram
  feature_histogram ((id, delta) ∷ nodes) histogram = feature_histogram nodes (
      if should_add_to_histogram delta
      then elim delta.latest_details [
        | some details ↦ tally features_eq details.features histogram
        | none ↦ histogram
      ]
      else histogram)

  module _ (order : HashOrder) where
    unfoldable pub default_values : FullUpdateValueHistograms → DefaultUpdateValues
    default_values h =
        let most_common = λ (histogram : List (ℕ × ℕ)).
          find_most_common_histogram_entry_with_default (order.iter (ℕ × ℕ) histogram) 0 in
        record {
          cltv_expiry_delta = most_common h.cltv_expiry_delta;
          htlc_minimum_msat = most_common h.htlc_minimum_msat;
          fee_base_msat = most_common h.fee_base_msat;
          fee_proportional_millionths = most_common h.fee_proportional_millionths;
          htlc_maximum_msat = most_common h.htlc_maximum_msat;
        }

    -- `now` is the system's clock, `network` the genesis hash of the configured network.
    unfoldable pub serialize_delta_set :
        ChainHash → ℕ → DeltaSet ldk → NodeDeltaSet ldk → ℕ → Result SerializationSet
    serialize_delta_set network now channel_delta_set node_delta_set last_sync_timestamp = do
      threshold ← non_incremental_threshold now
      (announcements, s) ←
          serialize_channels last_sync_timestamp threshold channel_delta_set
            ([], record { updates = []; latest_seen = 0; histograms = empty_histograms })
      let node_mutations =
          serialize_nodes threshold (order.iter (NodeId × NodeDelta ldk) node_delta_set)
      let histogram = feature_histogram (order.iter (NodeId × NodeDelta ldk) node_mutations) []
      ok (record {
        announcements = announcements;
        updates = s.updates;
        full_update_defaults = default_values s.histograms;
        node_announcement_feature_defaults =
            find_leading_histogram_entries (order.iter (NodeFeatures × ℕ) histogram)
              node_default_feature_count;
        node_mutations = node_mutations;
        latest_seen = s.latest_seen;
        chain_hash = network;
      })
