-- ===== src/Serialization/UpdateFlags.antt =====
-- The flag byte of `serialize_stripped_channel_update` of src/serialization.rs: its bits are read
-- back.
use rapid_gossip_sync_server.Prelude.{
  ℕ, ◌^◌, ◌<◌, Bool, true, false, ◌&&◌, bit_and, bit_or, if◌then◌else◌, ◌==◌, ltb, ◌≡◌, refl,
  ==_iff, ltb→lt,
}
use rapid_gossip_sync_server.Prelude.Bits.{
  holds_below, all_bools, holds_below_lem, all_bools_sound, same, same→eq,
}
use rapid_gossip_sync_server.Serialization.StripUpdate.{Present}
use rapid_gossip_sync_server.Serialization.ReadUpdate.{has}

abbrev pub or_if : Bool → ℕ → ℕ → ℕ
or_if test mask bits = if test then bit_or bits mask else bits

-- The flag byte over the direction bits `f`: incremental `i`, then the five values.
abbrev pub flag_byte : ℕ → Bool → Bool → Bool → Bool → Bool → Bool → ℕ
flag_byte f i c h b p m = or_if m 0b0000_0100 (
    or_if p 0b0000_1000
      (or_if b 0b0001_0000 (or_if h 0b0010_0000 (or_if c 0b0100_0000 (or_if i 0b1000_0000 f)))))

abbrev pub reads_back : ℕ → Bool → Bool → Bool → Bool → Bool → Bool → Bool
reads_back f i c h b p m =
    let byte = flag_byte f i c h b p m in
    same (has byte 0b1000_0000) i
    && (same (has byte 0b0100_0000) c
        && (same (has byte 0b0010_0000) h
            && (same (has byte 0b0001_0000) b
                && (same (has byte 0b0000_1000) p
                    && (same (has byte 0b0000_0100) m && (bit_and byte 3 == f && ltb byte 256))))))

abbrev pub flag_test : ℕ → Bool
flag_test f = all_bools λ i.
    all_bools
      λ c. all_bools λ h. all_bools λ b. all_bools λ p. all_bools λ m. reads_back f i c h b p m

pub flag_table : holds_below flag_test 4 ≡ true
unfolding holds_below all_bools
flag_table = refl

pub flag_byte_reads : (f : ℕ) (i c h b p m : Bool) → f < 4 → reads_back f i c h b p m ≡ true
flag_byte_reads f i c h b p m lt = all_bools_sound _ m (
    all_bools_sound _ p (
      all_bools_sound _ b (
        all_bools_sound _ h (
          all_bools_sound _ c
            (all_bools_sound _ i (holds_below_lem flag_test 4 f lt flag_table))))))

-- The tests of the reader, one by one.
pub record ReadsBack (f : ℕ) (byte : ℕ) (i c h b p m : Bool) : Type 0 where
  pub is_byte : byte < 2 ^ 8
  pub direction : bit_and byte 3 ≡ f
  pub incremental_bit : has byte 0b1000_0000 ≡ i
  pub cltv_bit : has byte 0b0100_0000 ≡ c
  pub htlc_min_bit : has byte 0b0010_0000 ≡ h
  pub base_bit : has byte 0b0001_0000 ≡ b
  pub prop_bit : has byte 0b0000_1000 ≡ p
  pub htlc_max_bit : has byte 0b0000_0100 ≡ m

pub &&-eq_true : (a b : Bool) → (a && b) ≡ true → (a ≡ true) × (b ≡ true)
&&-eq_true true b h = (refl, h)
&&-eq_true false b h = cc

pub ReadsBack_lem :
    (f byte : ℕ) (i c h b p m : Bool)
    → (same (has byte 0b1000_0000) i
        && (same (has byte 0b0100_0000) c
            && (same (has byte 0b0010_0000) h
                && (same (has byte 0b0001_0000) b
                    && (same (has byte 0b0000_1000) p
                        && (same (has byte 0b0000_0100) m
                            && (bit_and byte 3 == f && ltb byte 256)))))))
      ≡ true
    → ReadsBack f byte i c h b p m
ReadsBack_lem f byte i c h b p m e =
    let r1 = &&-eq_true _ _ e in
    let r2 = &&-eq_true _ _ r1.1 in
    let r3 = &&-eq_true _ _ r2.1 in
    let r4 = &&-eq_true _ _ r3.1 in
    let r5 = &&-eq_true _ _ r4.1 in
    let r6 = &&-eq_true _ _ r5.1 in
    let r7 = &&-eq_true _ _ r6.1 in
    record {
      is_byte = ltb→lt _ _ r7.1;
      direction = (==_iff _ _).0 r7.0;
      incremental_bit = same→eq _ _ r1.0;
      cltv_bit = same→eq _ _ r2.0;
      htlc_min_bit = same→eq _ _ r3.0;
      base_bit = same→eq _ _ r4.0;
      prop_bit = same→eq _ _ r5.0;
      htlc_max_bit = same→eq _ _ r6.0;
    }

pub flag_byte-ReadsBack :
    (f : ℕ) (i c h b p m : Bool) → f < 4 → ReadsBack f (flag_byte f i c h b p m) i c h b p m
flag_byte-ReadsBack f i c h b p m lt =
    ReadsBack_lem f _ i c h b p m (flag_byte_reads f i c h b p m lt)

abbrev pub PresentReadsBack : ℕ → Bool → Present → Type 0
PresentReadsBack f i t =
    ReadsBack f
      (flag_byte f i t.cltv_expiry_delta t.htlc_minimum_msat t.fee_base_msat
        t.fee_proportional_millionths t.htlc_maximum_msat)
      i t.cltv_expiry_delta t.htlc_minimum_msat t.fee_base_msat t.fee_proportional_millionths
      t.htlc_maximum_msat

pub present_reads : (f : ℕ) (i : Bool) (t : Present) → f < 4 → PresentReadsBack f i t
present_reads f i t lt = flag_byte-ReadsBack f i _ _ _ _ _ lt
