-- ===== src/Serialization/NoPanic.antt =====
-- `serialize_delta_set` does not panic, and what it hands to `serialize_delta` is sorted.
use rapid_gossip_sync_server.Serialization.SortedProgress.{categorize-Kept, SortedUpTo}
use rapid_gossip_sync_server.Prelude.{
  ℕ, ◌≤◌, ◌<◌, List, [], ◌∷◌, ◌++◌, some, Bool, true, false, All, All-append, All-imp, ok, ◌≡◌,
  refl, arith, inl, inr, Option-cases,
}
use rapid_gossip_sync_server.Prelude.Maps.{IsAscending}
use rapid_gossip_sync_server.Ldk.{Ldk}
use rapid_gossip_sync_server.Lookup.{AnnouncementDelta, ChannelDelta, DeltaSet}
use rapid_gossip_sync_server.Lookup.Keyed.{IsKeyed, IsAnnounced}
use rapid_gossip_sync_server.Serialization.{scid}
use rapid_gossip_sync_server.Serialization.DeltaSet.{
  ChannelAnnouncement, channel_context, sends_announcement, push_announcement, serialize_channel,
  serialize_channels,
}
use rapid_gossip_sync_server.Serialization.Categorize.{
  Progress, categorize_directed_update_serialization,
}
use rapid_gossip_sync_server.Server.AnnouncementStream.{AreSorted}

module _ (ldk : Ldk) where
  -- The state of the loop over the channels: both lists are sorted, and not above `id`.
  pub record StateUpTo (id : ℕ) (state : List (ChannelAnnouncement ldk) × Progress) : Type 0 where
    pub announcements_sorted : AreSorted ldk 0 state.0
    pub announcements_below : All (λ a. a.short_channel_id ≤ id) state.0
    pub progress : SortedUpTo id state.1

  StateUpTo-weaken :
      (id id' : ℕ) (state : List (ChannelAnnouncement ldk) × Progress)
      → id ≤ id'
      → StateUpTo id state
      → StateUpTo id' state
  StateUpTo-weaken id id' state le h = record {
    announcements_sorted = h.announcements_sorted;
    announcements_below =
        All-imp (λ a. a.short_channel_id ≤ id) (λ a. a.short_channel_id ≤ id') (λ a p. omega arith)
          state.0 h.announcements_below;
    progress = record {
      sorted = h.progress.sorted;
      below =
          All-imp (λ u. scid u ≤ id) (λ u. scid u ≤ id') (λ u p. omega arith) state.1.updates
            h.progress.below;
    };
  }

  AreSorted-append :
      (lo : ℕ) (announcements : List (ChannelAnnouncement ldk)) (a : ChannelAnnouncement ldk)
      → AreSorted ldk lo announcements
      → All (λ b. b.short_channel_id ≤ a.short_channel_id) announcements
      → lo ≤ a.short_channel_id
      → AreSorted ldk lo (announcements ++ (a ∷ []))
  AreSorted-append lo [] a h below le = (le, tt)
  AreSorted-append lo (b ∷ announcements) a h below le =
      (h.0, AreSorted-append b.short_channel_id announcements a h.1 below.1 below.0)

  push_announcement-StateUpTo :
      (send : Bool) (id : ℕ) (a : AnnouncementDelta ldk)
      (state : List (ChannelAnnouncement ldk) × Progress)
      → a.announcement.short_channel_id ≡ id
      → StateUpTo id state
      → StateUpTo id (push_announcement ldk send a state)
  unfolding push_announcement
  push_announcement-StateUpTo false id a state e h = h
  push_announcement-StateUpTo true id a state e h = record {
    announcements_sorted =
        AreSorted-append 0 state.0 a.announcement h.announcements_sorted
          (rw e h.announcements_below) (omega arith);
    announcements_below =
        All-append (λ b. b.short_channel_id ≤ id) state.0 (a.announcement ∷ [])
          h.announcements_below (omega arith, tt);
    progress = record { sorted = h.progress.sorted; below = h.progress.below };
  }

  module _ (last_sync_timestamp threshold : ℕ) where
    serialize_channel_step :
        (e : ℕ × ChannelDelta ldk) (a : AnnouncementDelta ldk)
        (state pushed : List (ChannelAnnouncement ldk) × Progress) (s1 s2 : Progress)
        → e.1.announcement ≡ some a
        → push_announcement ldk (sends_announcement ldk last_sync_timestamp e.1 a) a state ≡ pushed
        → categorize_directed_update_serialization
            (channel_context ldk last_sync_timestamp threshold e.0 e.1 a)
            e.1.updates_a
            pushed.1
          ≡ ok s1
        → categorize_directed_update_serialization
            (channel_context ldk last_sync_timestamp threshold e.0 e.1 a)
            e.1.updates_b
            s1
          ≡ ok s2
        → serialize_channel ldk last_sync_timestamp threshold e state ≡ ok (pushed.0, s2)
    unfolding serialize_channel
    serialize_channel_step e a state pushed s1 s2 present push one two =
        rw (serialize_channel, present, push, one, two) refl

    serialize_channel-StateUpTo :
        (e : ℕ × ChannelDelta ldk) (state : List (ChannelAnnouncement ldk) × Progress)
        → IsAnnounced ldk e
        → IsKeyed ldk e
        → StateUpTo e.0 state
        → (state' : List (ChannelAnnouncement ldk) × Progress) × (serialize_channel ldk
              last_sync_timestamp threshold e state
            ≡ ok state')
          × StateUpTo e.0 state'
    serialize_channel-StateUpTo e state announced keyed h = elim (Option-cases e.1.announcement) [
      | inl missing ↦ absurd (announced missing)
      | inr (a, present) ↦
          let c = channel_context ldk last_sync_timestamp threshold e.0 e.1 a in
          let pushed = push_announcement ldk c.send_announcement a state in
          let h0 =
            push_announcement-StateUpTo c.send_announcement e.0 a state
              (rw present at keyed.announcement_keyed) h in
          let (s1, one, k1) = categorize-Kept c e.1.updates_a pushed.1 keyed.a_keyed h0.progress in
          let (s2, two, k2) = categorize-Kept c e.1.updates_b s1 keyed.b_keyed k1 in
          (
            (pushed.0, s2),
            serialize_channel_step e a state pushed s1 s2 present refl one two,
            record {
              announcements_sorted = h0.announcements_sorted;
              announcements_below = h0.announcements_below;
              progress = k2;
            },
          )
    ]

    -- A delta set whose keys ascend, whose channels are all announced and whose messages carry the
    -- scid of their key is walked through without a panic, and both lists stay sorted.
    pub serialize_channels-StateUpTo :
        (delta_set : DeltaSet ldk) (id : ℕ) (state : List (ChannelAnnouncement ldk) × Progress)
        → IsAscending delta_set
        → All (λ e. id ≤ e.0) delta_set
        → All (IsAnnounced ldk) delta_set
        → All (IsKeyed ldk) delta_set
        → StateUpTo id state
        → (last : ℕ) × (state' : List (ChannelAnnouncement ldk) × Progress) × (serialize_channels
              ldk last_sync_timestamp threshold delta_set state
            ≡ ok state')
          × StateUpTo last state'
    unfolding serialize_channels
    serialize_channels-StateUpTo [] id state asc above announced keyed h = (id, state, refl, h)
    serialize_channels-StateUpTo (e ∷ es) id state asc above announced keyed h =
        let (state1, returns, h1) =
          serialize_channel-StateUpTo e state announced.0 keyed.0
            (StateUpTo-weaken id e.0 state above.0 h) in
        let (last, state2, returns', h2) =
          serialize_channels-StateUpTo es e.0 state1 asc.1
            (All-imp (λ x. e.0 < x.0) (λ x. e.0 ≤ x.0) (λ x p. omega arith) es asc.0) announced.1
            keyed.1 h1 in
        (last, state2, rw returns returns', h2)
