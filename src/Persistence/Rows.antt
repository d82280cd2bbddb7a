-- ===== src/Persistence/Rows.antt =====
-- The rows that src/persistence.rs makes of gossip messages.
use rapid_gossip_sync_server.Prelude.{
  ℕ, ◌^◌, ◌%◌, ◌/◌, ◌<◌, ◌≡◌, refl, ◌↔◌, List, Bool, true, ltb, ◌==◌, ==_iff, bit_and, arith,
}
use rapid_gossip_sync_server.Prelude.Bits.{holds_below, holds_below_lem, same, same→eq}
use rapid_gossip_sync_server.Prelude.Casts.{ℤ, as_signed, as_unsigned, as_unsigned-as_signed}
use rapid_gossip_sync_server.Ldk.{UnsignedChannelUpdate, FitsUpdate}
use rapid_gossip_sync_server.Types.{
  SignedMessages, GossipMessage, node_announcement, channel_announcement, channel_update,
}

abbrev pub as_i64 : ℕ → ℤ
as_i64 = as_signed (2 ^ 63)

abbrev pub as_i32 : ℕ → ℤ
as_i32 = as_signed (2 ^ 31)

abbrev pub as_i16 : ℕ → ℤ
as_i16 = as_signed (2 ^ 15)

-- The columns that the statements fill.
pub record NodeAnnouncementRow : Type 0 where
  pub public_key : List ℕ
  pub features : List ℕ
  pub socket_addresses : List ℕ
  pub timestamp : ℤ
  pub announcement_signed : List ℕ

pub record ChannelAnnouncementRow : Type 0 where
  pub short_channel_id : ℤ
  pub funding_amount_sats : ℤ
  pub announcement_signed : List ℕ

pub record ChannelUpdateRow : Type 0 where
  pub short_channel_id : ℤ
  pub timestamp : ℤ
  pub channel_flags : ℤ
  pub direction : Bool
  pub disable : Bool
  pub cltv_expiry_delta : ℤ
  pub htlc_minimum_msat : ℤ
  pub fee_base_msat : ℤ
  pub fee_proportional_millionths : ℤ
  pub htlc_maximum_msat : ℤ
  pub blob_signed : List ℕ

pub data Insert : Type 0 where
  insert_node : NodeAnnouncementRow → Insert
  insert_announcement : ChannelAnnouncementRow → Insert
  insert_update : ChannelUpdateRow → Insert

unfoldable pub update_row : UnsignedChannelUpdate → List ℕ → ChannelUpdateRow
update_row contents update_signed = record {
  short_channel_id = as_i64 contents.short_channel_id;
  timestamp = as_i64 contents.timestamp;
  channel_flags = as_i16 contents.channel_flags;
  direction = bit_and contents.channel_flags 1 == 1;
  disable = ltb 0 (bit_and contents.channel_flags 2);
  cltv_expiry_delta = as_i32 contents.cltv_expiry_delta;
  htlc_minimum_msat = as_i64 contents.htlc_minimum_msat;
  fee_base_msat = as_i32 contents.fee_base_msat;
  fee_proportional_millionths = as_i32 contents.fee_proportional_millionths;
  htlc_maximum_msat = as_i64 contents.htlc_maximum_msat;
  blob_signed = update_signed;
}

-- The match on the message. The override of the seen value is for tests only.
unfoldable pub insert_of : (signed : SignedMessages) → GossipMessage signed → Insert
insert_of signed (node_announcement announcement seen_override) = insert_node (record {
  public_key = signed.public_key_hex announcement;
  features = signed.encoded_features announcement;
  socket_addresses = signed.written_addresses announcement;
  timestamp = as_i64 (signed.node_timestamp announcement);
  announcement_signed = signed.write_node_announcement announcement;
})
insert_of signed (channel_announcement announcement funding_value seen_override) =
    insert_announcement (record {
      short_channel_id = as_i64 (signed.short_channel_id announcement);
      funding_amount_sats = as_i64 funding_value;
      announcement_signed = signed.write_channel_announcement announcement;
    })
insert_of signed (channel_update update seen_override) =
    insert_update (update_row (signed.update_contents update) (signed.write_channel_update update))

-- Every value of the message can be read off the row.
pub record Reads (row : ChannelUpdateRow) (u : UnsignedChannelUpdate) : Type 0 where
  pub short_channel_id : as_unsigned (2 ^ 63) row.short_channel_id ≡ u.short_channel_id
  pub timestamp : as_unsigned (2 ^ 63) row.timestamp ≡ u.timestamp
  pub channel_flags : as_unsigned (2 ^ 15) row.channel_flags ≡ u.channel_flags
  pub direction : (row.direction ≡ true) ↔ (u.channel_flags % 2 ≡ 1)
  pub disable : (row.disable ≡ true) ↔ (u.channel_flags / 2 % 2 ≡ 1)
  pub cltv_expiry_delta : as_unsigned (2 ^ 31) row.cltv_expiry_delta ≡ u.cltv_expiry_delta
  pub htlc_minimum_msat : as_unsigned (2 ^ 63) row.htlc_minimum_msat ≡ u.htlc_minimum_msat
  pub fee_base_msat : as_unsigned (2 ^ 31) row.fee_base_msat ≡ u.fee_base_msat
  pub fee_proportional_millionths :
      as_unsigned (2 ^ 31) row.fee_proportional_millionths ≡ u.fee_proportional_millionths
  pub htlc_maximum_msat : as_unsigned (2 ^ 63) row.htlc_maximum_msat ≡ u.htlc_maximum_msat

abbrev direction_test : ℕ → Bool
direction_test flags = same (bit_and flags 1 == 1) (flags % 2 == 1)

abbrev disable_test : ℕ → Bool
disable_test flags = same (ltb 0 (bit_and flags 2)) (flags / 2 % 2 == 1)

direction_table : holds_below direction_test 256 ≡ true
unfolding holds_below
direction_table = refl

disable_table : holds_below disable_test 256 ≡ true
unfolding holds_below
disable_table = refl

direction_bit : (flags : ℕ) → flags < 256 → (bit_and flags 1 == 1) ≡ (flags % 2 == 1)
direction_bit flags h = same→eq _ _ (holds_below_lem direction_test 256 flags h direction_table)

disable_bit : (flags : ℕ) → flags < 256 → ltb 0 (bit_and flags 2) ≡ (flags / 2 % 2 == 1)
disable_bit flags h = same→eq _ _ (holds_below_lem disable_test 256 flags h disable_table)

-- A row made of a message whose fields fit their Rust types can be read back: the casts to the
-- signed types of the columns lose nothing, the direction is the lowest bit of the flags, and the
-- channel is disabled if the next bit is set.
pub update_row-Reads :
    (u : UnsignedChannelUpdate) (update_signed : List ℕ)
    → FitsUpdate u
    → u.timestamp < 2 ^ 32
    → u.channel_flags < 2 ^ 8
    → Reads (update_row u update_signed) u
unfolding update_row
update_row-Reads u update_signed h time_fits flags_fit = record {
  short_channel_id = as_unsigned-as_signed (2 ^ 63) u.short_channel_id h.scid_fits;
  timestamp = as_unsigned-as_signed (2 ^ 63) u.timestamp (omega (arith, time_fits));
  channel_flags = as_unsigned-as_signed (2 ^ 15) u.channel_flags (omega (arith, flags_fit));
  direction = rw (direction_bit u.channel_flags flags_fit) (==_iff (u.channel_flags % 2) 1);
  disable = rw (disable_bit u.channel_flags flags_fit) (==_iff (u.channel_flags / 2 % 2) 1);
  cltv_expiry_delta =
      as_unsigned-as_signed (2 ^ 31) u.cltv_expiry_delta (omega (arith, h.cltv_fits));
  htlc_minimum_msat = as_unsigned-as_signed (2 ^ 63) u.htlc_minimum_msat h.htlc_min_fits;
  fee_base_msat = as_unsigned-as_signed (2 ^ 31) u.fee_base_msat h.base_fits;
  fee_proportional_millionths =
      as_unsigned-as_signed (2 ^ 31) u.fee_proportional_millionths h.prop_fits;
  htlc_maximum_msat = as_unsigned-as_signed (2 ^ 63) u.htlc_maximum_msat h.htlc_max_fits;
}
