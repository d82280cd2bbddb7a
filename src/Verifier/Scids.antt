-- ===== src/Verifier/Scids.antt =====
-- How src/verifier.rs takes a short channel id apart.
use rapid_gossip_sync_server.Prelude.{ℕ, ◌+◌, ◌*◌, ◌^◌, ◌<◌, ◌≡◌, arith}
use rapid_gossip_sync_server.Verifier.{block_height, transaction_index, output_index}

-- BOLT 7: three bytes for the block, three for the transaction, two for the output.
abbrev pub scid_of : ℕ → ℕ → ℕ → ℕ
scid_of height transaction output = height * 2 ^ 40 + (transaction * 2 ^ 16 + output)

-- Of an id of 64 bits, the height of the block and the index of the transaction are below 2^24 and
-- the index of the output is below 2^16, and the three make up the id again.
pub scid_of-block_height :
    (short_channel_id : ℕ)
    → short_channel_id < 2 ^ 64
    → (block_height short_channel_id < 2 ^ 24)
      × (transaction_index short_channel_id < 2 ^ 24)
      × (output_index short_channel_id < 2 ^ 16)
      × (scid_of
            (block_height short_channel_id)
            (transaction_index short_channel_id)
            (output_index short_channel_id)
          ≡ short_channel_id)
unfolding block_height transaction_index output_index
scid_of-block_height scid small = ground arith

-- An id that is put together from three parts that fit is taken apart into them.
pub block_height-scid_of :
    (height transaction output : ℕ)
    → height < 2 ^ 24
    → transaction < 2 ^ 24
    → output < 2 ^ 16
    → (block_height (scid_of height transaction output) ≡ height)
      × (transaction_index (scid_of height transaction output) ≡ transaction)
      × (output_index (scid_of height transaction output) ≡ output)
unfolding block_height transaction_index output_index
block_height-scid_of height transaction output h t o = ground arith
