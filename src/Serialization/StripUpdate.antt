-- ===== src/Serialization/StripUpdate.antt =====
-- `serialize_stripped_channel_update` of src/serialization.rs.
use rapid_gossip_sync_server.Prelude.{
  ℕ, ◌-◌, Bool, not, List, [], ◌++◌, bit_or, if◌then◌else◌, ltb, ◌==◌, Result, ok, panic,
  unsorted_scids,
}
use rapid_gossip_sync_server.Ldk.{UnsignedChannelUpdate, IntCodecs}
use rapid_gossip_sync_server.Serialization.{
  DefaultUpdateValues, MutatedProperties, UpdateSerialization, full, incremental, reminder, scid,
}

-- `if test { serialized_flags |= mask; value.write(&mut delta_serialization) }`, on the flags and
-- the bytes of the values written so far.
unfoldable pub put_value : Bool → ℕ → List ℕ → ℕ × List ℕ → ℕ × List ℕ
put_value test mask bytes (serialized_flags, delta) =
    if test then (bit_or serialized_flags mask, delta ++ bytes) else (serialized_flags, delta)

-- Which of the five values are written.
pub record Present : Type 0 where
  pub cltv_expiry_delta : Bool
  pub htlc_minimum_msat : Bool
  pub fee_base_msat : Bool
  pub fee_proportional_millionths : Bool
  pub htlc_maximum_msat : Bool

-- A full update leaves out the values that are the defaults.
unfoldable pub differing : UnsignedChannelUpdate → DefaultUpdateValues → Present
differing u d = record {
  cltv_expiry_delta = not (u.cltv_expiry_delta == d.cltv_expiry_delta);
  htlc_minimum_msat = not (u.htlc_minimum_msat == d.htlc_minimum_msat);
  fee_base_msat = not (u.fee_base_msat == d.fee_base_msat);
  fee_proportional_millionths =
      not (u.fee_proportional_millionths == d.fee_proportional_millionths);
  htlc_maximum_msat = not (u.htlc_maximum_msat == d.htlc_maximum_msat);
}

-- An incremental one writes those that were mutated.
unfoldable pub mutated : MutatedProperties → Present
mutated m = record {
  cltv_expiry_delta = m.cltv_expiry_delta;
  htlc_minimum_msat = m.htlc_minimum_msat;
  fee_base_msat = m.fee_base_msat;
  fee_proportional_millionths = m.fee_proportional_millionths;
  htlc_maximum_msat = m.htlc_maximum_msat;
}

module _ (ints : IntCodecs) where
  -- The five tests of an arm of the match, in their order.
  unfoldable pub put_values : Present → UnsignedChannelUpdate → ℕ → ℕ × List ℕ
  put_values t u bits =
      put_value t.htlc_maximum_msat 0b0000_0100 (ints.u64.write u.htlc_maximum_msat) (
        put_value t.fee_proportional_millionths 0b0000_1000
          (ints.u32.write u.fee_proportional_millionths)
          (put_value t.fee_base_msat 0b0001_0000 (ints.u32.write u.fee_base_msat) (
            put_value t.htlc_minimum_msat 0b0010_0000 (ints.u64.write u.htlc_minimum_msat) (
              put_value t.cltv_expiry_delta 0b0100_0000 (ints.u16.write u.cltv_expiry_delta)
                (bits, [])))))

  -- The match: the flag byte, and the bytes of the values.
  unfoldable pub put_update : UpdateSerialization → DefaultUpdateValues → ℕ × List ℕ
  put_update (full u) d = put_values (differing u d) u u.channel_flags
  put_update (incremental u m) d = put_values (mutated m) u (bit_or u.channel_flags 0b1000_0000)
  put_update (reminder _ bits) d = (bit_or bits 0b1000_0000, [])

  unfoldable pub serialize_stripped_channel_update :
      UpdateSerialization → DefaultUpdateValues → ℕ → Result (List ℕ)
  serialize_stripped_channel_update update default_values previous_scid =
      if ltb (scid update) previous_scid
      then panic unsorted_scids
      else let (serialized_flags, delta) = put_update update default_values in
        ok (
          ints.big_size.write (scid update - previous_scid)
          ++ (ints.u8.write serialized_flags ++ delta))
