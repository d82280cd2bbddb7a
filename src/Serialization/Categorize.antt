-- ===== src/Serialization/Categorize.antt =====
-- What is sent of one direction of a channel: the closures of `serialize_delta_set` of
-- src/serialization.rs.
use rapid_gossip_sync_server.Prelude.{
  ℕ, max, List, [], ◌∷◌, ◌++◌, Option, none, some, Bool, not, ◌||◌, if◌then◌else◌, ltb, leb, ◌==◌,
  Result, ok, panic, wrong_scid_column,
}
use rapid_gossip_sync_server.Ldk.{UnsignedChannelUpdate}
use rapid_gossip_sync_server.Serialization.{UpdateSerialization, full, incremental, reminder, len}
use rapid_gossip_sync_server.Serialization.Histograms.{tally}
use rapid_gossip_sync_server.Lookup.{UpdateDelta, DirectedUpdateDelta}

pub record FullUpdateValueHistograms : Type 0 where
  pub cltv_expiry_delta : List (ℕ × ℕ)
  pub htlc_minimum_msat : List (ℕ × ℕ)
  pub fee_base_msat : List (ℕ × ℕ)
  pub fee_proportional_millionths : List (ℕ × ℕ)
  pub htlc_maximum_msat : List (ℕ × ℕ)

abbrev pub empty_histograms : FullUpdateValueHistograms
empty_histograms = record {
  cltv_expiry_delta = [];
  htlc_minimum_msat = [];
  fee_base_msat = [];
  fee_proportional_millionths = [];
  htlc_maximum_msat = [];
}

-- The closure `record_full_update_in_histograms`.
unfoldable pub record_full_update :
    UnsignedChannelUpdate → FullUpdateValueHistograms → FullUpdateValueHistograms
record_full_update u h = record {
  cltv_expiry_delta = tally ◌==◌ u.cltv_expiry_delta h.cltv_expiry_delta;
  htlc_minimum_msat = tally ◌==◌ u.htlc_minimum_msat h.htlc_minimum_msat;
  fee_base_msat = tally ◌==◌ u.fee_base_msat h.fee_base_msat;
  fee_proportional_millionths =
      tally ◌==◌ u.fee_proportional_millionths h.fee_proportional_millionths;
  htlc_maximum_msat = tally ◌==◌ u.htlc_maximum_msat h.htlc_maximum_msat;
}

-- What the function writes to as it walks over the updates of the channels.
pub record Progress : Type 0 where
  pub updates : List UpdateSerialization
  pub latest_seen : ℕ
  pub histograms : FullUpdateValueHistograms

-- `serialization_set.updates.push(update)`
abbrev pub push_update : UpdateSerialization → Progress → Progress
push_update update s = record s { updates = s.updates ++ (update ∷ []) }

-- `record_full_update_in_histograms(&u); serialization_set.updates.push(Full(u))`
abbrev pub push_full : UnsignedChannelUpdate → Progress → Progress
push_full u s = push_update (full u) (record s { histograms = record_full_update u s.histograms })

abbrev pub push_reminder : ℕ → Option ℕ → Progress → Progress
push_reminder scid none s = s
push_reminder scid (some flags) s = push_update (reminder scid flags) s

-- What the closure reads of the channel that is walked over.
pub record ChannelContext : Type 0 where
  pub scid : ℕ
  pub send_announcement : Bool
  pub is_newly_included_announcement : Bool
  pub requires_reminder : Bool
  pub threshold : ℕ

-- The case that an update was seen before the last sync and one after it.
unfoldable pub categorize_known :
    ChannelContext → DirectedUpdateDelta → UpdateDelta → UnsignedChannelUpdate → Progress → Progress
categorize_known c d before latest s =
    if c.send_announcement || len d.mutated_properties == 5 || leb before.seen c.threshold
    then push_full latest s
    else if ltb 0 (len d.mutated_properties) || d.mutated_properties.flags
    then push_update (incremental latest d.mutated_properties) s
    else if c.requires_reminder
    then push_reminder c.scid d.serialization_update_flags s
    else s

unfoldable pub categorize_latest :
    ChannelContext → DirectedUpdateDelta → UpdateDelta → Progress → Result Progress
categorize_latest c d latest s =
    if not (latest.update.short_channel_id == c.scid)
    then panic wrong_scid_column
    else let s' = record s { latest_seen = max s.latest_seen latest.seen } in
      ok (elim d.last_update_before_seen [
        | some before ↦ categorize_known c d before latest.update s'
        | none ↦ push_full latest.update s'
      ])

unfoldable pub categorize_unseen : ChannelContext → DirectedUpdateDelta → Progress → Progress
categorize_unseen c d s =
    if c.is_newly_included_announcement
    then elim d.last_update_before_seen [
      | some unannounced_update ↦ push_update (full unannounced_update.update) s
      | none ↦ s
    ]
    else push_reminder c.scid d.serialization_update_flags s

-- The closure `categorize_directed_update_serialization`.
unfoldable pub categorize_directed_update_serialization :
    ChannelContext → Option DirectedUpdateDelta → Progress → Result Progress
categorize_directed_update_serialization c none s = ok s
categorize_directed_update_serialization c (some d) s = elim d.latest_update_after_seen [
  | some latest ↦ categorize_latest c d latest s
  | none ↦ ok (categorize_unseen c d s)
]
