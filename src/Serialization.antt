-- ===== src/Serialization.antt =====
-- The types of src/serialization.rs, and those of src/lookup.rs that it consumes.
pub mod Histograms
pub mod HistogramLaws
pub mod DeltaSet
pub mod Categorize
pub mod StripAnnouncement
pub mod NoPanic
pub mod SortedProgress
pub mod NodeSelection
pub mod Convergence
pub mod StripUpdate
pub mod ReadUpdate
pub mod UpdateRoundTrip
pub mod UpdateFlags
use rapid_gossip_sync_server.Prelude.{ℕ, ◌+◌, Bool, false, if◌then◌else◌}
use rapid_gossip_sync_server.Ldk.{UnsignedChannelUpdate}

pub record DefaultUpdateValues : Type 0 where
  pub cltv_expiry_delta : ℕ
  pub htlc_minimum_msat : ℕ
  pub fee_base_msat : ℕ
  pub fee_proportional_millionths : ℕ
  pub htlc_maximum_msat : ℕ

pub record MutatedProperties : Type 0 where
  pub flags : Bool
  pub cltv_expiry_delta : Bool
  pub htlc_minimum_msat : Bool
  pub fee_base_msat : Bool
  pub fee_proportional_millionths : Bool
  pub htlc_maximum_msat : Bool

-- `MutatedProperties::default`
abbrev pub no_mutations : MutatedProperties
no_mutations = record {
  flags = false;
  cltv_expiry_delta = false;
  htlc_minimum_msat = false;
  fee_base_msat = false;
  fee_proportional_millionths = false;
  htlc_maximum_msat = false;
}

abbrev pub one_if : Bool → ℕ
one_if b = if b then 1 else 0

-- `MutatedProperties::len`: the flags do not count.
unfoldable pub len : MutatedProperties → ℕ
len m =
    one_if m.cltv_expiry_delta
    + one_if m.htlc_minimum_msat
    + one_if m.fee_base_msat
    + one_if m.fee_proportional_millionths
    + one_if m.htlc_maximum_msat

pub data UpdateSerialization : Type 0 where
  full : UnsignedChannelUpdate → UpdateSerialization
  incremental : UnsignedChannelUpdate → MutatedProperties → UpdateSerialization
  reminder : ℕ → ℕ → UpdateSerialization

unfoldable pub scid : UpdateSerialization → ℕ
scid (full latest_update) = latest_update.short_channel_id
scid (incremental latest_update _) = latest_update.short_channel_id
scid (reminder id _) = id

unfoldable pub flags : UpdateSerialization → ℕ
flags (full latest_update) = latest_update.channel_flags
flags (incremental latest_update _) = latest_update.channel_flags
flags (reminder _ bits) = bits

pub record MutatedNodeProperties : Type 0 where
  pub addresses : Bool
  pub features : Bool

pub data NodeSerializationStrategy : Type 0 where
  mutated_node : MutatedNodeProperties → NodeSerializationStrategy
  full_node : NodeSerializationStrategy
  reminder_node : NodeSerializationStrategy
