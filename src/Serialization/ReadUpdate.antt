-- ===== src/Serialization/ReadUpdate.antt =====
-- The client's reading of an update message: what the bytes of
-- `serialize_stripped_channel_update` mean. It is the specification of that function.
use rapid_gossip_sync_server.Prelude.{
  ℕ, ◌+◌, Bool, not, List, Option, none, some, bit_and, if◌then◌else◌, ◌==◌,
}
use rapid_gossip_sync_server.Ldk.{Codec, IntCodecs}
use rapid_gossip_sync_server.Serialization.{
  DefaultUpdateValues, UpdateSerialization, full, incremental, reminder,
}

infixl 5 ◌>>=◌
abbrev pub ◌>>=◌ {ℓ κ} : {A : Type ℓ} {B : Type κ} → Option A → (A → Option B) → Option B
none >>= f = none
some a >>= f = f a

-- What a message tells the client about one direction of a channel: all values, or those to change.
pub data Received : Type 0 where
  replace : (id direction cltv htlc_min base prop htlc_max : ℕ) → Received
  amend : (id direction : ℕ) (cltv htlc_min base prop htlc_max : Option ℕ) → Received

abbrev pub has : ℕ → ℕ → Bool
has byte mask = not (bit_and byte mask == 0)

abbrev pub value_or : ℕ → Option ℕ → ℕ
value_or d none = d
value_or d (some v) = v

-- A value is read only if its bit is set.
abbrev pub read_if : {Fits : ℕ → Type 0} → Codec Fits → Bool → List ℕ → Option (Option ℕ × List ℕ)
read_if c test bytes =
    if test then (c.read bytes >>= λ r. some (some r.0, r.1)) else some (none, bytes)

module _ (ints : IntCodecs) where
  unfoldable pub read_values : DefaultUpdateValues → ℕ → ℕ → List ℕ → Option (Received × List ℕ)
  read_values d id byte bytes = do
    c ← read_if ints.u16 (has byte 0b0100_0000) bytes
    h ← read_if ints.u64 (has byte 0b0010_0000) c.1
    b ← read_if ints.u32 (has byte 0b0001_0000) h.1
    p ← read_if ints.u32 (has byte 0b0000_1000) b.1
    m ← read_if ints.u64 (has byte 0b0000_0100) p.1
    some (
      if has byte 0b1000_0000
          then amend id (bit_and byte 3) c.0 h.0 b.0 p.0 m.0
          else replace id (bit_and byte 3) (value_or d.cltv_expiry_delta c.0)
              (value_or d.htlc_minimum_msat h.0) (value_or d.fee_base_msat b.0)
              (value_or d.fee_proportional_millionths p.0) (value_or d.htlc_maximum_msat m.0),
      m.1,
    )

  unfoldable pub read_update : DefaultUpdateValues → ℕ → List ℕ → Option (Received × List ℕ)
  read_update d previous_scid bytes = do
    delta ← ints.big_size.read bytes
    byte ← ints.u8.read delta.1
    read_values d (previous_scid + delta.0) byte.0 byte.1

abbrev pub some_if : Bool → ℕ → Option ℕ
some_if test v = if test then some v else none

-- What the client is meant to learn.
unfoldable pub meaning : UpdateSerialization → Received
meaning (full u) =
    replace u.short_channel_id u.channel_flags u.cltv_expiry_delta u.htlc_minimum_msat
      u.fee_base_msat u.fee_proportional_millionths u.htlc_maximum_msat
meaning (incremental u m) =
    amend u.short_channel_id u.channel_flags (some_if m.cltv_expiry_delta u.cltv_expiry_delta)
      (some_if m.htlc_minimum_msat u.htlc_minimum_msat) (some_if m.fee_base_msat u.fee_base_msat)
      (some_if m.fee_proportional_millionths u.fee_proportional_millionths)
      (some_if m.htlc_maximum_msat u.htlc_maximum_msat)
meaning (reminder id bits) = amend id bits none none none none none
