-- ===== src/Serialization/UpdateRoundTrip.antt =====
-- Reading back what `serialize_stripped_channel_update` writes.
use rapid_gossip_sync_server.Serialization.UpdateFlags.{
  or_if, flag_byte, ReadsBack, flag_byte-ReadsBack, present_reads,
}
use rapid_gossip_sync_server.Prelude.{
  ℕ, ◌+◌, ◌-◌, ◌^◌, ◌≤◌, ◌<◌, Bool, true, false, not, List, [], ◌++◌, some, if◌then◌else◌, ◌==◌,
  ◌≡◌, ◌∙◌, refl, arith, ok, panic, unsorted_scids, append-nil, append_assoc,
}
use rapid_gossip_sync_server.Ldk.{UnsignedChannelUpdate, FitsUpdate, Codec, IntCodecs}
use rapid_gossip_sync_server.Serialization.{
  DefaultUpdateValues, UpdateSerialization, full, incremental, reminder, scid,
}
use rapid_gossip_sync_server.Serialization.StripUpdate.{
  put_value, put_values, Present, differing, mutated, put_update, serialize_stripped_channel_update,
}
use rapid_gossip_sync_server.Serialization.ReadUpdate.{
  replace, amend, value_or, read_if, read_values, read_update, meaning, some_if,
}

abbrev bytes_if : Bool → List ℕ → List ℕ
bytes_if test bytes = if test then bytes else []

put_value_lem :
    (test : Bool) (mask : ℕ) (bytes : List ℕ) (bits : ℕ) (delta : List ℕ)
    → put_value test mask bytes (bits, delta) ≡ (or_if test mask bits, delta ++ bytes_if test bytes)
unfolding put_value
put_value_lem true mask bytes bits delta = refl
put_value_lem false mask bytes bits delta = rw append-nil

read_if_lem :
    {Fits : ℕ → Type 0} (c : Codec Fits) (test : Bool) (v : ℕ) (rest : List ℕ)
    → Fits v
    → read_if c test (bytes_if test (c.write v) ++ rest) ≡ some (some_if test v, rest)
read_if_lem c true v rest fits = rw (c.read_write v rest fits)
read_if_lem c false v rest fits = refl

module _ (ints : IntCodecs) where
  abbrev value_bytes : Present → UnsignedChannelUpdate → List ℕ
  value_bytes t u =
      bytes_if t.cltv_expiry_delta (ints.u16.write u.cltv_expiry_delta)
      ++ (bytes_if t.htlc_minimum_msat (ints.u64.write u.htlc_minimum_msat)
          ++ (bytes_if t.fee_base_msat (ints.u32.write u.fee_base_msat)
              ++ (bytes_if t.fee_proportional_millionths
                    (ints.u32.write u.fee_proportional_millionths)
                  ++ bytes_if t.htlc_maximum_msat (ints.u64.write u.htlc_maximum_msat))))

  put_values_lem :
      (t : Present) (u : UnsignedChannelUpdate) (f : ℕ) (i : Bool)
      → put_values ints t u (or_if i 0b1000_0000 f) ≡ (
        flag_byte f i t.cltv_expiry_delta t.htlc_minimum_msat t.fee_base_msat
            t.fee_proportional_millionths t.htlc_maximum_msat,
        value_bytes t u,
      )
  unfolding put_values
  put_values_lem t u f i = simp (put_value_lem, append_assoc)

  read_values_lem :
      (d : DefaultUpdateValues) (t : Present) (u : UnsignedChannelUpdate) (id byte f : ℕ) (i : Bool)
      (rest : List ℕ)
      → FitsUpdate u
      → ReadsBack f byte i t.cltv_expiry_delta t.htlc_minimum_msat t.fee_base_msat
          t.fee_proportional_millionths t.htlc_maximum_msat
      → read_values ints d id byte (value_bytes t u ++ rest)
        ≡ some (
          if i
              then amend id f
                  (some_if t.cltv_expiry_delta u.cltv_expiry_delta)
                  (some_if t.htlc_minimum_msat u.htlc_minimum_msat)
                  (some_if t.fee_base_msat u.fee_base_msat)
                  (some_if t.fee_proportional_millionths u.fee_proportional_millionths)
                  (some_if t.htlc_maximum_msat u.htlc_maximum_msat)
              else replace id f
                  (value_or d.cltv_expiry_delta (some_if t.cltv_expiry_delta u.cltv_expiry_delta))
                  (value_or d.htlc_minimum_msat (some_if t.htlc_minimum_msat u.htlc_minimum_msat))
                  (value_or d.fee_base_msat (some_if t.fee_base_msat u.fee_base_msat))
                  (value_or d.fee_proportional_millionths
                    (some_if t.fee_proportional_millionths u.fee_proportional_millionths))
                  (value_or d.htlc_maximum_msat (some_if t.htlc_maximum_msat u.htlc_maximum_msat)),
          rest,
        )
  unfolding read_values
  read_values_lem d t u id byte f i rest fits bits = simp (
    append_assoc,
    bits.cltv_bit,
    read_if_lem ints.u16 t.cltv_expiry_delta u.cltv_expiry_delta _ fits.cltv_fits,
    bits.htlc_min_bit,
    read_if_lem ints.u64 t.htlc_minimum_msat u.htlc_minimum_msat _ fits.htlc_min_fits,
    bits.base_bit,
    read_if_lem ints.u32 t.fee_base_msat u.fee_base_msat _ fits.base_fits,
    bits.prop_bit,
    read_if_lem ints.u32 t.fee_proportional_millionths u.fee_proportional_millionths _
        fits.prop_fits,
    bits.htlc_max_bit,
    read_if_lem ints.u64 t.htlc_maximum_msat u.htlc_maximum_msat rest fits.htlc_max_fits,
    bits.incremental_bit,
    bits.direction,
  )

default_filled : (d v : ℕ) → value_or d (some_if (not (v == d)) v) ≡ v
default_filled d v = ground arith

-- The values fit their types, and of the flags only the bits `direction` and `disable` are used.
abbrev pub FitsMessage : UpdateSerialization → Type 0
FitsMessage (full u) = FitsUpdate u × (u.channel_flags < 4)
FitsMessage (incremental u m) = FitsUpdate u × (u.channel_flags < 4)
FitsMessage (reminder id bits) = (id < 2 ^ 64) × (bits < 4)

module _ (ints : IntCodecs) where
  FitsMessage-scid : (m : UpdateSerialization) → FitsMessage m → scid m < 2 ^ 64
  unfolding scid
  FitsMessage-scid (full u) fits = fits.0.scid_fits
  FitsMessage-scid (incremental u m) fits = fits.0.scid_fits
  FitsMessage-scid (reminder id bits) fits = fits.0

  put_update-is_byte :
      (m : UpdateSerialization) (d : DefaultUpdateValues)
      → FitsMessage m
      → (put_update ints m d).0 < 2 ^ 8
  unfolding put_update
  put_update-is_byte (full u) d fits =
      rw (put_values_lem ints (differing u d) u u.channel_flags false)
        (present_reads u.channel_flags false (differing u d) fits.1).is_byte
  put_update-is_byte (incremental u m) d fits =
      rw (put_values_lem ints (mutated m) u u.channel_flags true)
        (present_reads u.channel_flags true (mutated m) fits.1).is_byte
  put_update-is_byte (reminder id bits) d fits =
      (flag_byte-ReadsBack bits true false false false false false fits.1).is_byte

  read_values-put_update :
      (m : UpdateSerialization) (d : DefaultUpdateValues) (rest : List ℕ)
      → FitsMessage m
      → read_values ints d (scid m) (put_update ints m d).0 ((put_update ints m d).1 ++ rest)
        ≡ some (meaning m, rest)
  unfolding put_update scid meaning
  read_values-put_update (full u) d rest fits =
      rw (put_values_lem ints (differing u d) u u.channel_flags false) (
        read_values_lem ints d (differing u d) u u.short_channel_id _ u.channel_flags false rest
          fits.0 (present_reads u.channel_flags false (differing u d) fits.1)
        ∙ unfold differing in simp default_filled)
  read_values-put_update (incremental u m) d rest fits =
      rw (put_values_lem ints (mutated m) u u.channel_flags true) (
        read_values_lem ints d (mutated m) u u.short_channel_id _ u.channel_flags true rest fits.0
          (present_reads u.channel_flags true (mutated m) fits.1)
        ∙ unfold mutated in refl)
  read_values-put_update (reminder id bits) d rest fits =
      let r = flag_byte-ReadsBack bits true false false false false false fits.1 in
      unfold read_values in
      simp (
        r.cltv_bit, r.htlc_min_bit, r.base_bit, r.prop_bit, r.htlc_max_bit, r.incremental_bit,
        r.direction,
      )

  serialize_stripped_channel_update_ok :
      (m : UpdateSerialization) (d : DefaultUpdateValues) (previous_scid : ℕ)
      → previous_scid ≤ scid m
      → serialize_stripped_channel_update ints m d previous_scid
        ≡ ok (
            ints.big_size.write (scid m - previous_scid)
            ++ (ints.u8.write (put_update ints m d).0 ++ (put_update ints m d).1))
  unfolding serialize_stripped_channel_update
  serialize_stripped_channel_update_ok m d previous_scid le = ground arith

  pub serialize_stripped_channel_update_total :
      (m : UpdateSerialization) (d : DefaultUpdateValues) (previous_scid : ℕ)
      → previous_scid ≤ scid m
      → (bytes : List ℕ) × (serialize_stripped_channel_update ints m d previous_scid ≡ ok bytes)
  serialize_stripped_channel_update_total m d previous_scid le =
      (_, serialize_stripped_channel_update_ok m d previous_scid le)

  pub serialize_stripped_channel_update_panic :
      (m : UpdateSerialization) (d : DefaultUpdateValues) (previous_scid : ℕ)
      → ¬ (previous_scid ≤ scid m)
      → serialize_stripped_channel_update ints m d previous_scid ≡ panic unsorted_scids
  unfolding serialize_stripped_channel_update
  serialize_stripped_channel_update_panic m d previous_scid above = ground arith

  -- If the previous scid is not larger, the flags use two bits and the values fit their types, an
  -- update is serialized without a panic, and whatever bytes follow, the client reads the meaning of
  -- that update off the front and keeps the rest.
  pub read_update-serialize :
      (m : UpdateSerialization) (d : DefaultUpdateValues) (previous_scid : ℕ)
      → previous_scid ≤ scid m
      → FitsMessage m
      → (bytes : List ℕ) × (serialize_stripped_channel_update ints m d previous_scid ≡ ok bytes)
        × ((rest : List ℕ)
            → read_update ints d previous_scid (bytes ++ rest) ≡ some (meaning m, rest))
  read_update-serialize m d previous_scid le fits =
      (_, serialize_stripped_channel_update_ok m d previous_scid le, read)
    where
      small : scid m - previous_scid < 2 ^ 64
      small = omega (arith, FitsMessage-scid m fits)

      whole : previous_scid + (scid m - previous_scid) ≡ scid m
      whole = omega arith

      read :
          (rest : List ℕ)
          → read_update ints d previous_scid (
              (ints.big_size.write (scid m - previous_scid)
                ++ (ints.u8.write (put_update ints m d).0 ++ (put_update ints m d).1))
              ++ rest)
            ≡ some (meaning m, rest)
      read rest =
          unfold read_update in
          simp (
            append_assoc,
            ints.big_size.read_write (scid m - previous_scid) _ small,
            ints.u8.read_write _ _ (put_update-is_byte m d fits),
            whole,
            read_values-put_update m d rest fits,
          )
