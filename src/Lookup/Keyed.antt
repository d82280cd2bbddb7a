-- ===== src/Lookup/Keyed.antt =====
-- The invariant that ties the messages of a delta to the scid under which it is stored.
use rapid_gossip_sync_server.Prelude.{ℕ, Option, none, some, ◌≡◌, ◌≢◌}
use rapid_gossip_sync_server.Ldk.{Ldk}
use rapid_gossip_sync_server.Lookup.{
  UpdateDelta, DirectedUpdateDelta, AnnouncementDelta, ChannelDelta,
}

abbrev pub OnSome {κ} : {A : Type 0} → (A → Type κ) → Option A → Type κ
OnSome P none = Unit
OnSome P (some a) = P a

abbrev pub IsUpdateOf : ℕ → UpdateDelta → Type 0
IsUpdateOf id u = u.update.short_channel_id ≡ id

pub record IsDirectedOf (id : ℕ) (d : DirectedUpdateDelta) : Type 0 where
  pub before_keyed : OnSome (IsUpdateOf id) d.last_update_before_seen
  pub latest_keyed : OnSome (IsUpdateOf id) d.latest_update_after_seen

module _ (ldk : Ldk) where
  abbrev pub IsAnnouncementOf : ℕ → AnnouncementDelta ldk → Type 0
  IsAnnouncementOf id a = a.announcement.short_channel_id ≡ id

  pub record IsKeyed (e : ℕ × ChannelDelta ldk) : Type 0 where
    pub announcement_keyed : OnSome (IsAnnouncementOf e.0) e.1.announcement
    pub a_keyed : OnSome (IsDirectedOf e.0) e.1.updates_a
    pub b_keyed : OnSome (IsDirectedOf e.0) e.1.updates_b

  -- The channel is in the network graph.
  abbrev pub IsAnnounced : ℕ × ChannelDelta ldk → Type 0
  IsAnnounced e = e.1.announcement ≢ none
