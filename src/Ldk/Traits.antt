-- ===== src/Ldk/Traits.antt =====
-- `Writeable` and `Readable` as an interface: each `write` has a `read` that takes its bytes off the
-- front of any input.
use rapid_gossip_sync_server.Ldk.Messages.{UnsignedChannelUpdate, UnsignedChannelAnnouncement}
use rapid_gossip_sync_server.Prelude.{ℕ, ◌^◌, ◌<◌, List, ◌++◌, Option, some, ◌≡◌, Bool, true, ◌↔◌}

-- `Fits` says which values of `A` the Rust type holds.
pub record Codec {A : Type 0} (Fits : A → Type 0) : Type 0 where
  pub write : A → List ℕ
  pub read : List ℕ → Option (A × List ℕ)
  pub read_write : (a : A) (rest : List ℕ) → Fits a → read (write a ++ rest) ≡ some (a, rest)

abbrev pub Always : {A : Type 0} → A → Type 0
Always a = Unit

-- The integers, and `BigSize`.
pub record IntCodecs : Type 0 where
  pub u8 : Codec (λ (n : ℕ). n < 2 ^ 8)
  pub u16 : Codec (λ (n : ℕ). n < 2 ^ 16)
  pub u32 : Codec (λ (n : ℕ). n < 2 ^ 32)
  pub u64 : Codec (λ (n : ℕ). n < 2 ^ 64)
  pub big_size : Codec (λ (n : ℕ). n < 2 ^ 64)

-- The opaque types, with the traits that the server uses of them.
pub record Ldk : Type 1 where
  pub ChainHash : Type 0
  pub ChannelFeatures : Type 0
  pub NodeFeatures : Type 0
  pub NodeId : Type 0
  pub SocketAddress : Type 0
  pub ints : IntCodecs
  pub chain_hash : Codec {A = ChainHash} Always
  pub channel_features : Codec {A = ChannelFeatures} Always
  pub node_features : Codec {A = NodeFeatures} Always
  pub node_id : Codec {A = NodeId} Always
  pub socket_address : Codec {A = SocketAddress} Always
  -- `==` of the types that derive `PartialEq`.
  pub node_id_eq : NodeId → NodeId → Bool
  pub node_id_eq_iff : (a b : NodeId) → (node_id_eq a b ≡ true) ↔ (a ≡ b)
  pub features_eq : NodeFeatures → NodeFeatures → Bool
  pub features_eq_iff : (a b : NodeFeatures) → (features_eq a b ≡ true) ↔ (a ≡ b)
  -- `ChannelUpdate::read(…).contents` and `ChannelAnnouncement::read(…).contents` of a blob;
  -- `none` is an error.
  pub read_channel_update : List ℕ → Option UnsignedChannelUpdate
  pub read_channel_announcement :
      List ℕ → Option (UnsignedChannelAnnouncement ChannelFeatures NodeId)
