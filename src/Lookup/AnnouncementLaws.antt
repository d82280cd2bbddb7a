-- ===== src/Lookup/AnnouncementLaws.antt =====
-- `fetch_channel_announcements` leaves a delta set on which `fetch_channel_updates` can work.
use rapid_gossip_sync_server.Prelude.{
  ℕ, ◌-◌, ◌%◌, ◌^◌, ◌≤◌, List, [], ◌∷◌, Option, none, some, Bool, true, false, if◌then◌else◌, ltb,
  All, ok, ◌≡◌, ◌≢◌, refl, arith, Bool-cases, Option-cases, inl, inr,
}
use rapid_gossip_sync_server.Prelude.Maps.{get, entry, unwrap_or, All-entry, entry-IsAscending}
use rapid_gossip_sync_server.Config.{channel_reminder_age, prune_interval}
use rapid_gossip_sync_server.Ldk.{Ldk}
use rapid_gossip_sync_server.Lookup.{
  DirectedUpdateDelta, AnnouncementDelta, ChannelDelta, default_channel, DeltaSet,
}
use rapid_gossip_sync_server.Lookup.Reminders.{should_snapshot_include_reminders}
use rapid_gossip_sync_server.Lookup.Updates.{UpdateRow, modify_direction}
use rapid_gossip_sync_server.Lookup.UpdateLaws.{Each, Holds, IsReadable, modify_direction-Each}
use rapid_gossip_sync_server.Lookup.Marks.{IsFresh}
use rapid_gossip_sync_server.Lookup.Announcements.{
  GraphChannel, NetworkGraph, AnnouncementRow, ScidRow, Database, channel_ids, checked_before,
  set_flags, set_announcement, fetch_announcement_row, fetch_announcement_rows, set_first_seen,
  annotate_first_seen, set_reminder, remind_both, remind_directions, saturating_u32,
  fetch_reminder_row, fetch_reminder_rows, fetch_reminders, fetch_channel_announcements,
}

pub checked_before_lem :
    (current age : ℕ) → age ≤ current → (t : ℕ) × (checked_before current age ≡ ok t)
unfolding checked_before
checked_before_lem current age le = (current - age, ground arith)

set_flags-IsFresh :
    (id flags : ℕ) (d : DirectedUpdateDelta) → IsFresh id d → IsFresh id (set_flags flags d)
unfolding set_flags
set_flags-IsFresh id flags d h = record { no_before = h.no_before; no_latest = h.no_latest }

module _ (ldk : Ldk) where
  abbrev EachFresh : ℕ × ChannelDelta ldk → Type 0
  EachFresh = Each ldk IsFresh

  entry-Holds :
      (k : ℕ) (f : ChannelDelta ldk → ChannelDelta ldk) (m : DeltaSet ldk)
      → ((c : ChannelDelta ldk) → EachFresh (k, c) → EachFresh (k, f c))
      → Holds ldk IsFresh m
      → Holds ldk IsFresh (entry (default_channel ldk) k f m)
  entry-Holds k f m keeps h = record {
    ascending = entry-IsAscending _ k f m h.ascending;
    each =
        All-entry EachFresh (default_channel ldk) k f m
          (keeps (default_channel ldk)
            (record { announcement_keyed = tt; a_holds = tt; b_holds = tt }))
          (λ j c same each. rw (← same) (keeps c (rw (← same) at each))) h.each;
  }

  abbrev pub IsReadableAnnouncement : AnnouncementRow → Type 0
  IsReadableAnnouncement row = ldk.read_channel_announcement row.announcement_signed ≢ none

  fetch_announcement_rows-Holds :
      (rows : List AnnouncementRow) (m : DeltaSet ldk)
      → All IsReadableAnnouncement rows
      → Holds ldk IsFresh m
      → (m' : DeltaSet ldk) × (fetch_announcement_rows ldk rows m ≡ ok m') × Holds ldk IsFresh m'
  unfolding fetch_announcement_rows fetch_announcement_row set_announcement
  fetch_announcement_rows-Holds [] m readable h = (m, refl, h)
  fetch_announcement_rows-Holds (row ∷ rows) m readable h =
      elim (Option-cases (ldk.read_channel_announcement row.announcement_signed)) [
        | inl fails ↦ absurd (readable.0 fails)
        | inr (a, reads) ↦
            let delta : AnnouncementDelta ldk = record {
              seen = row.seen % 2 ^ 32;
              announcement = a;
            } in
            let (m', returns, h') =
              fetch_announcement_rows-Holds rows
                (entry (default_channel ldk) a.short_channel_id (set_announcement ldk delta) m)
                readable.1
                (entry-Holds a.short_channel_id (set_announcement ldk delta) m
                  (λ c each. record {
                    announcement_keyed = refl;
                    a_holds = each.a_holds;
                    b_holds = each.b_holds;
                  })
                  h) in
            (m', rw reads returns, h')
      ]

  annotate_first_seen-Holds :
      (rows : List ScidRow) (m : DeltaSet ldk)
      → Holds ldk IsFresh m
      → Holds ldk IsFresh (annotate_first_seen ldk rows m)
  unfolding annotate_first_seen set_first_seen
  annotate_first_seen-Holds [] m h = h
  annotate_first_seen-Holds (row ∷ rows) m h = annotate_first_seen-Holds rows _ (
      entry-Holds row.short_channel_id (set_first_seen ldk (row.seen % 2 ^ 32)) m
        (λ c each. record {
          announcement_keyed = each.announcement_keyed;
          a_holds = each.a_holds;
          b_holds = each.b_holds;
        })
        h)

  set_flags-Each :
      (k flags : ℕ) (direction : Bool) (c : ChannelDelta ldk)
      → EachFresh (k, c)
      → EachFresh (k, modify_direction ldk direction (set_flags flags) c)
  set_flags-Each k flags direction c each =
      modify_direction-Each ldk IsFresh k (set_flags flags)
        (record { no_before = refl; no_latest = refl }) (set_flags-IsFresh k flags) direction c each

  remind_both-Each :
      (k : ℕ) (a b : Option Bool) (c : ChannelDelta ldk)
      → EachFresh (k, c)
      → EachFresh (k, remind_both ldk a b c)
  unfolding remind_both
  remind_both-Each k (some a) (some b) c each =
      set_flags-Each k (if b then 1 else 3) true _
        (set_flags-Each k (if a then 0 else 2) false c each)
  remind_both-Each k _ _ c each = each

  remind_directions-Each :
      (k : ℕ) (info : Option GraphChannel) (c : ChannelDelta ldk)
      → EachFresh (k, c)
      → EachFresh (k, remind_directions ldk info c)
  unfolding remind_directions
  remind_directions-Each k none c each = each
  remind_directions-Each k (some info) c each =
      remind_both-Each k info.one_to_two info.two_to_one c each

  set_reminder-Each :
      (k : ℕ) (c : ChannelDelta ldk) → EachFresh (k, c) → EachFresh (k, set_reminder ldk c)
  unfolding set_reminder
  set_reminder-Each k c each = record {
    announcement_keyed = each.announcement_keyed;
    a_holds = each.a_holds;
    b_holds = each.b_holds;
  }

  fetch_reminder_row-Holds :
      (graph : NetworkGraph) (threshold : ℕ) (row : UpdateRow) (m : DeltaSet ldk)
      → IsReadable ldk row
      → Holds ldk IsFresh m
      → (m' : DeltaSet ldk) × (fetch_reminder_row ldk graph threshold row m ≡ ok m')
        × Holds ldk IsFresh m'
  unfolding fetch_reminder_row
  fetch_reminder_row-Holds graph threshold row m readable h =
      elim (Bool-cases (ltb (row.seen % 2 ^ 32) (saturating_u32 threshold))) [
        | inr recent ↦ (m, rw recent refl, h)
        | inl old ↦ elim (Option-cases (ldk.read_channel_update row.blob_signed)) [
          | inl fails ↦ absurd (readable fails)
          | inr (u, reads) ↦ (
            entry (default_channel ldk) u.short_channel_id
                (λ c. remind_directions ldk (get u.short_channel_id graph) (set_reminder ldk c)) m,
            rw (old, reads) refl,
            entry-Holds u.short_channel_id _ m
                (λ c each.
                  remind_directions-Each u.short_channel_id (get u.short_channel_id graph) _
                    (set_reminder-Each u.short_channel_id c each))
                h,
          )
        ]
      ]

  fetch_reminder_rows-Holds :
      (graph : NetworkGraph) (threshold : ℕ) (rows : List UpdateRow) (m : DeltaSet ldk)
      → All (IsReadable ldk) rows
      → Holds ldk IsFresh m
      → (m' : DeltaSet ldk) × (fetch_reminder_rows ldk graph threshold rows m ≡ ok m')
        × Holds ldk IsFresh m'
  unfolding fetch_reminder_rows
  fetch_reminder_rows-Holds graph threshold [] m readable h = (m, refl, h)
  fetch_reminder_rows-Holds graph threshold (row ∷ rows) m readable h =
      let (m1, one, h1) = fetch_reminder_row-Holds graph threshold row m readable.0 h in
      let (m2, more, h2) = fetch_reminder_rows-Holds graph threshold rows m1 readable.1 h1 in
      (m2, rw one more, h2)

  -- Every blob that the database returns can be read.
  pub record IsReadableDatabase (db : Database) : Type 0 where
    pub announcements_readable :
        (ids : List ℕ) → All IsReadableAnnouncement (db.announcement_rows ids)
    pub mutated_readable : (ids : List ℕ) (t : ℕ) → All (IsReadable ldk) (db.mutated_updates ids t)
    pub reference_readable : (t : ℕ) → All (IsReadable ldk) (db.reference_rows t)
    pub intermediate_readable : (t : ℕ) → All (IsReadable ldk) (db.intermediate_updates t)

  module _ (db : Database) (graph : NetworkGraph) (readable : IsReadableDatabase db) where
    fetch_reminders-Holds :
        (current : ℕ) (m : DeltaSet ldk)
        → prune_interval ≤ current
        → Holds ldk IsFresh m
        → (m' : DeltaSet ldk) × (fetch_reminders ldk db graph current m ≡ ok m')
          × Holds ldk IsFresh m'
    unfolding fetch_reminders
    fetch_reminders-Holds current m late h =
        let (t, one) = checked_before_lem current channel_reminder_age (omega arith) in
        let (t', two) = checked_before_lem current prune_interval late in
        let (m', rows, h') =
          fetch_reminder_rows-Holds graph t (db.mutated_updates (channel_ids graph) t') m
            (readable.mutated_readable (channel_ids graph) t') h in
        (m', rw (one, two) rows, h')

    -- If every blob can be read and the reference time is not before the prune interval (counted
    -- from the epoch), the function does not panic. In the delta set that it makes from nothing
    -- the keys ascend, every announcement stands under its own scid, and no update is noted yet,
    -- neither an earlier nor a latest one.
    pub fetch_channel_announcements-Holds :
        (now last_sync_timestamp : ℕ) (reference : Option ℕ)
        → prune_interval ≤ unwrap_or now reference
        → (fetched : DeltaSet ldk) × (fetch_channel_announcements ldk db graph now
              last_sync_timestamp reference []
            ≡ ok fetched)
          × Holds ldk IsFresh fetched
    unfolding fetch_channel_announcements
    fetch_channel_announcements-Holds now last reference late =
        let (m1, one, h1) =
          fetch_announcement_rows-Holds (db.announcement_rows (channel_ids graph)) []
            (readable.announcements_readable (channel_ids graph))
            (record { ascending = tt; each = tt }) in
        let rows = db.newer_oldest_directional_updates (channel_ids graph) last in
        let h2 = annotate_first_seen-Holds rows m1 h1 in
        let (m3, three, h3) = fetch_reminders-Holds (unwrap_or now reference) _ late h2 in
        elim (Bool-cases (should_snapshot_include_reminders last (unwrap_or now reference))) [
          | inl included ↦ (m3, rw (one, included) three, h3)
          | inr left_out ↦ (annotate_first_seen ldk rows m1, rw (one, left_out) refl, h2)
        ]
