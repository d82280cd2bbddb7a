-- ===== src/Tests.antt =====
-- Concrete inputs: a small instance of what the server takes from its crates, and messages over it.
mod Updates
mod Snapshots
mod Queries
mod Totals
mod Gossip
mod Persisting
mod Watching
use rapid_gossip_sync_server.Prelude.{ℕ, List, [], ◌∷◌, Option, none, some, ◌==◌, ==_iff, refl}
use rapid_gossip_sync_server.Ldk.{
  Codec, Always, IntCodecs, Ldk, UnsignedChannelUpdate, UnsignedChannelAnnouncement, FitsUpdate,
}
use rapid_gossip_sync_server.Serialization.Histograms.{HashOrder}
use rapid_gossip_sync_server.Serialization.{DefaultUpdateValues}
use mathlib.Core.List.Perm

-- A number is one element of the output.
abbrev read_one : List ℕ → Option (ℕ × List ℕ)
read_one [] = none
read_one (n ∷ bytes) = some (n, bytes)

abbrev one_element : (Fits : ℕ → Type 0) → Codec Fits
one_element Fits = record { write = λ n. n ∷ []; read = read_one; read_write = λ n rest fits. refl }

-- An update is its scid, its flags and five values; an announcement is its scid and the two nodes.
abbrev read_update_blob : List ℕ → Option UnsignedChannelUpdate
read_update_blob (id ∷ bits ∷ cltv ∷ htlc_min ∷ base ∷ prop ∷ htlc_max ∷ []) = some (record {
  short_channel_id = id;
  timestamp = 0;
  channel_flags = bits;
  cltv_expiry_delta = cltv;
  htlc_minimum_msat = htlc_min;
  fee_base_msat = base;
  fee_proportional_millionths = prop;
  htlc_maximum_msat = htlc_max;
})
read_update_blob _ = none

abbrev read_announcement_blob : List ℕ → Option (UnsignedChannelAnnouncement ℕ ℕ)
read_announcement_blob (id ∷ one ∷ two ∷ []) =
    some (record { features = 0; short_channel_id = id; node_id_1 = one; node_id_2 = two })
read_announcement_blob _ = none

abbrev toy_ints : IntCodecs
toy_ints = record {
  u8 = one_element _;
  u16 = one_element _;
  u32 = one_element _;
  u64 = one_element _;
  big_size = one_element _;
}

abbrev toy : Ldk
toy = record {
  ChainHash = ℕ;
  ChannelFeatures = ℕ;
  NodeFeatures = ℕ;
  NodeId = ℕ;
  SocketAddress = ℕ;
  ints = toy_ints;
  chain_hash = one_element _;
  channel_features = one_element _;
  node_features = one_element _;
  node_id = one_element _;
  socket_address = one_element _;
  node_id_eq = ◌==◌;
  node_id_eq_iff = ==_iff;
  features_eq = ◌==◌;
  features_eq_iff = ==_iff;
  read_channel_update = read_update_blob;
  read_channel_announcement = read_announcement_blob;
}

abbrev as_listed : HashOrder
as_listed = record { iter = λ A entries. entries; iter_perm = λ A entries. Perm.refl entries }

abbrev toy_update : ℕ → ℕ → ℕ → UnsignedChannelUpdate
toy_update id bits base = record {
  short_channel_id = id;
  timestamp = 0;
  channel_flags = bits;
  cltv_expiry_delta = 40;
  htlc_minimum_msat = 1;
  fee_base_msat = base;
  fee_proportional_millionths = 10;
  htlc_maximum_msat = 100000;
}

abbrev toy_defaults : DefaultUpdateValues
toy_defaults = record {
  cltv_expiry_delta = 40;
  htlc_minimum_msat = 1;
  fee_base_msat = 1000;
  fee_proportional_millionths = 10;
  htlc_maximum_msat = 100000;
}
