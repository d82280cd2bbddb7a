-- ===== src/Ldk/Messages.antt =====
-- Gossip messages (`lightning::ln::msgs`) with the fields that the server reads.
use rapid_gossip_sync_server.Prelude.{ℕ, ◌^◌, ◌<◌}

pub record UnsignedChannelUpdate : Type 0 where
  pub short_channel_id : ℕ
  pub timestamp : ℕ
  pub channel_flags : ℕ
  pub cltv_expiry_delta : ℕ
  pub htlc_minimum_msat : ℕ
  pub fee_base_msat : ℕ
  pub fee_proportional_millionths : ℕ
  pub htlc_maximum_msat : ℕ

-- The ranges of the Rust integer types of the fields.
pub record FitsUpdate (u : UnsignedChannelUpdate) : Type 0 where
  pub scid_fits : u.short_channel_id < 2 ^ 64
  pub cltv_fits : u.cltv_expiry_delta < 2 ^ 16
  pub htlc_min_fits : u.htlc_minimum_msat < 2 ^ 64
  pub base_fits : u.fee_base_msat < 2 ^ 32
  pub prop_fits : u.fee_proportional_millionths < 2 ^ 32
  pub htlc_max_fits : u.htlc_maximum_msat < 2 ^ 64

-- Over the types of channel features and of node ids.
pub record UnsignedChannelAnnouncement (F N : Type 0) : Type 0 where
  pub features : F
  pub short_channel_id : ℕ
  pub node_id_1 : N
  pub node_id_2 : N
