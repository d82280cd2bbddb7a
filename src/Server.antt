-- ===== src/Server.antt =====
-- src/lib.rs: how a snapshot is put together from its parts.
pub mod NodeIndex
pub mod ReadSnapshot
pub mod SnapshotRoundTrip
pub mod SnapshotTotal
pub mod AnnouncementStream
pub mod UpdateStream
pub mod IndexLaws
pub mod NodeDelta
pub mod SerializeDelta
pub mod EmptyBlob
pub mod EmptyBlobLaws
pub mod CalculateDelta
use rapid_gossip_sync_server.Prelude.{ℕ, List, [], ◌∷◌}

abbrev pub gossip_prefix : List ℕ
gossip_prefix = 76 ∷ 68 ∷ 75 ∷ []

-- `bytes` is the field `data` of the source. The counters are u32, which what fills them keeps
-- to: each is cut to 32 bits.
pub record SerializedResponse : Type 0 where
  pub bytes : List ℕ
  pub message_count : ℕ
  pub node_announcement_count : ℕ
  pub node_update_count : ℕ
  pub node_feature_update_count : ℕ
  pub node_address_update_count : ℕ
  pub channel_announcement_count : ℕ
  pub update_count : ℕ
  pub update_count_full : ℕ
  pub update_count_incremental : ℕ
