-- ===== src/Lookup/Announcements.antt =====
-- `fetch_channel_announcements` of src/lookup.rs, over the network graph and the rows that its three
-- queries return.
use rapid_gossip_sync_server.Prelude.{
  ℕ, ◌-◌, ◌%◌, ◌^◌, min, List, [], ◌∷◌, Option, none, some, Bool, true, false, ◌&&◌, if◌then◌else◌,
  ltb, Result, ok, panic, unwrap_none, ◌>>=◌,
}
use rapid_gossip_sync_server.Prelude.Maps.{get, entry, unwrap_or}
use rapid_gossip_sync_server.Config.{channel_reminder_age, prune_interval}
use rapid_gossip_sync_server.Ldk.{Ldk}
use rapid_gossip_sync_server.Lookup.{
  DirectedUpdateDelta, AnnouncementDelta, ChannelDelta, default_channel, DeltaSet,
}
use rapid_gossip_sync_server.Lookup.Filter.{is_some}
use rapid_gossip_sync_server.Lookup.Reminders.{should_snapshot_include_reminders}
use rapid_gossip_sync_server.Lookup.Updates.{UpdateRow, unwrap_read, modify_direction}

-- A channel of LDK's network graph: the scid of its announcement message, and whether each direction
-- is enabled.
pub record GraphChannel : Type 0 where
  pub announcement_message : Option ℕ
  pub one_to_two : Option Bool
  pub two_to_one : Option Bool

abbrev pub NetworkGraph : Type 0
NetworkGraph = List (ℕ × GraphChannel)

-- A row of `channel_announcements`, and a row of the second query.
pub record AnnouncementRow : Type 0 where
  pub announcement_signed : List ℕ
  pub seen : ℕ

pub record ScidRow : Type 0 where
  pub short_channel_id : ℕ
  pub seen : ℕ

-- What Postgres returns to the queries of the module, as functions of their parameters.
pub record Database : Type 0 where
  pub announcement_rows : List ℕ → List AnnouncementRow
  pub newer_oldest_directional_updates : List ℕ → ℕ → List ScidRow
  pub mutated_updates : List ℕ → ℕ → List UpdateRow
  pub reference_rows : ℕ → List UpdateRow
  pub intermediate_updates : ℕ → List UpdateRow

-- The ids of the channels that have an announcement and both directions.
unfoldable pub channel_ids : NetworkGraph → List ℕ
channel_ids [] = []
channel_ids ((_, c) ∷ graph) =
    let rest = channel_ids graph in
    if is_some c.one_to_two && is_some c.two_to_one
    then elim c.announcement_message [ some scid ↦ scid ∷ rest | none ↦ rest ]
    else rest

-- `current_timestamp.checked_sub(age).unwrap()`
unfoldable pub checked_before : ℕ → ℕ → Result ℕ
checked_before current_timestamp age =
    if ltb current_timestamp age then panic unwrap_none else ok (current_timestamp - age)

-- A float `as u32`
abbrev pub saturating_u32 : ℕ → ℕ
saturating_u32 n = min n (2 ^ 32 - 1)

unfoldable pub set_flags : ℕ → DirectedUpdateDelta → DirectedUpdateDelta
set_flags flags d = record d { serialization_update_flags = some flags }

module _ (ldk : Ldk) where
  unfoldable pub set_announcement : AnnouncementDelta ldk → ChannelDelta ldk → ChannelDelta ldk
  set_announcement a c = record c { announcement = some a }

  unfoldable pub fetch_announcement_row : AnnouncementRow → DeltaSet ldk → Result (DeltaSet ldk)
  fetch_announcement_row row delta_set = do
    a ← unwrap_read (ldk.read_channel_announcement row.announcement_signed)
    ok (
        entry (default_channel ldk) a.short_channel_id
          (set_announcement (record { seen = row.seen % 2 ^ 32; announcement = a })) delta_set)

  unfoldable pub fetch_announcement_rows :
      List AnnouncementRow → DeltaSet ldk → Result (DeltaSet ldk)
  fetch_announcement_rows [] delta_set = ok delta_set
  fetch_announcement_rows (row ∷ rows) delta_set =
      fetch_announcement_row row delta_set >>= fetch_announcement_rows rows

  unfoldable pub set_first_seen : ℕ → ChannelDelta ldk → ChannelDelta ldk
  set_first_seen seen c = record c { first_bidirectional_updates_seen = some seen }

  unfoldable pub annotate_first_seen : List ScidRow → DeltaSet ldk → DeltaSet ldk
  annotate_first_seen [] delta_set = delta_set
  annotate_first_seen (row ∷ rows) delta_set = annotate_first_seen rows (
      entry (default_channel ldk) row.short_channel_id (set_first_seen (row.seen % 2 ^ 32))
        delta_set)

  unfoldable pub set_reminder : ChannelDelta ldk → ChannelDelta ldk
  set_reminder c = record c { requires_reminder = true }

  -- The flags of the two directions, if the graph has both.
  unfoldable pub remind_both : Option Bool → Option Bool → ChannelDelta ldk → ChannelDelta ldk
  remind_both (some a_enabled) (some b_enabled) c =
      modify_direction ldk true (set_flags (if b_enabled then 1 else 3))
        (modify_direction ldk false (set_flags (if a_enabled then 0 else 2)) c)
  remind_both _ _ c = c

  unfoldable pub remind_directions : Option GraphChannel → ChannelDelta ldk → ChannelDelta ldk
  remind_directions none c = c
  remind_directions (some info) c = remind_both info.one_to_two info.two_to_one c

  unfoldable pub fetch_reminder_row :
      NetworkGraph → ℕ → UpdateRow → DeltaSet ldk → Result (DeltaSet ldk)
  fetch_reminder_row graph reminder_threshold_timestamp row delta_set =
      if ltb (row.seen % 2 ^ 32) (saturating_u32 reminder_threshold_timestamp)
      then unwrap_read (ldk.read_channel_update row.blob_signed) >>= (λ u. ok (
          entry (default_channel ldk) u.short_channel_id
            (λ c. remind_directions (get u.short_channel_id graph) (set_reminder c)) delta_set))
      else ok delta_set

  unfoldable pub fetch_reminder_rows :
      NetworkGraph → ℕ → List UpdateRow → DeltaSet ldk → Result (DeltaSet ldk)
  fetch_reminder_rows graph threshold [] delta_set = ok delta_set
  fetch_reminder_rows graph threshold (row ∷ rows) delta_set =
      fetch_reminder_row graph threshold row delta_set >>= fetch_reminder_rows graph threshold rows

  -- The step that is taken if reminders are included.
  unfoldable pub fetch_reminders :
      Database → NetworkGraph → ℕ → DeltaSet ldk → Result (DeltaSet ldk)
  fetch_reminders db graph current_timestamp delta_set = do
    reminder_threshold_timestamp ← checked_before current_timestamp channel_reminder_age
    reminder_lookup_threshold_timestamp ← checked_before current_timestamp prune_interval
    fetch_reminder_rows graph reminder_threshold_timestamp
        (db.mutated_updates (channel_ids graph) reminder_lookup_threshold_timestamp) delta_set

  -- `now` is the system's clock in seconds.
  unfoldable pub fetch_channel_announcements :
      Database → NetworkGraph → ℕ → ℕ → Option ℕ → DeltaSet ldk → Result (DeltaSet ldk)
  fetch_channel_announcements db graph now last_sync_timestamp snapshot_reference_timestamp
        delta_set =
      do
        let ids = channel_ids graph
        let current_timestamp = unwrap_or now snapshot_reference_timestamp
        announced ← fetch_announcement_rows (db.announcement_rows ids) delta_set
        let annotated =
            annotate_first_seen (db.newer_oldest_directional_updates ids last_sync_timestamp)
              announced
        (if should_snapshot_include_reminders last_sync_timestamp current_timestamp
            then fetch_reminders db graph current_timestamp annotated
            else ok annotated)
