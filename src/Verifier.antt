-- ===== src/Verifier.antt =====
-- src/verifier.rs: the funding output of a channel is looked up in bitcoind, and its amount is
-- cached.
pub mod Scids
pub mod Funding
use rapid_gossip_sync_server.Prelude.{
  ℕ, ◌/◌, ◌%◌, ◌^◌, ◌*◌, List, [], ◌∷◌, Option, none, some, get_elem?, Result, ok, panic,
  unwrap_none, unreachable, ◌>>=◌,
}
use rapid_gossip_sync_server.Prelude.Maps.{get, entry, unwrap_or}

pub data UtxoLookupError : Type 0 where
  unknown_chain unknown_tx : UtxoLookupError

-- A Rust `Result` with that error.
pub data Lookup (A : Type 0) : Type 0 where
  found : A → Lookup A
  failed : UtxoLookupError → Lookup A

-- `BlockData` as `get_block` answers, or an error.
pub data BlockAnswer (Block : Type 0) : Type 0 where
  full_block : Block → BlockAnswer Block
  header_only : BlockAnswer Block
  no_block : BlockAnswer Block

-- What is used of the crate `bitcoin`, and what bitcoind answers.
pub record Chain : Type 1 where
  pub BlockHash : Type 0
  pub Block : Type 0
  pub Transaction : Type 0
  pub TxOut : Type 0
  pub txdata : Block → List Transaction
  pub output : Transaction → List TxOut
  pub to_sat : TxOut → ℕ
  -- `BlockHash::from_slice`; `none` is an error.
  pub from_slice : List ℕ → Option BlockHash
  -- The resource `blockhashbyheight/….bin`, or an error.
  pub block_hash_by_height : ℕ → Option (List ℕ)
  pub get_block : BlockHash → BlockAnswer Block

-- From scid to funding satoshis. A `HashMap`, as its entries by ascending scid.
abbrev pub FundingAmounts : Type 0
FundingAmounts = List (ℕ × ℕ)

-- The shifts are divisions, and the masks remainders.
unfoldable pub block_height : ℕ → ℕ
block_height short_channel_id = short_channel_id / 2 ^ 40 % 2 ^ 32

unfoldable pub transaction_index : ℕ → ℕ
transaction_index short_channel_id = short_channel_id / 2 ^ 16 % 2 ^ 24

unfoldable pub output_index : ℕ → ℕ
output_index short_channel_id = short_channel_id % 2 ^ 16

unfoldable pub get_cached_funding_value : FundingAmounts → ℕ → Option ℕ
get_cached_funding_value amounts scid = get scid amounts

module _ (chain : Chain) where
  open chain use {Block, TxOut, txdata, output, to_sat, from_slice, block_hash_by_height, get_block}

  -- The match on the answer to `get_block`: a header alone is `unreachable!()`.
  unfoldable pub answered : BlockAnswer Block → Result (Lookup Block)
  answered (full_block block) = ok (found block)
  answered header_only = panic unreachable
  answered no_block = ok (failed unknown_chain)

  unfoldable pub retrieve_block : ℕ → Result (Lookup Block)
  retrieve_block height = elim (block_hash_by_height height) [
    | none ↦ ok (failed unknown_chain)
    | some bytes ↦ elim (from_slice bytes) [
      | none ↦ panic unwrap_none
      | some hash ↦ answered (get_block hash)
    ]
  ]

  -- `channel_funding_amounts.insert(…)`, if there is a cache.
  unfoldable pub cache_amount : ℕ → TxOut → Option FundingAmounts → Option FundingAmounts
  cache_amount scid txo none = none
  cache_amount scid txo (some amounts) = some (entry 0 scid (λ old. to_sat txo) amounts)

  -- The output of a block: `swap_remove` yields the element at the index.
  unfoldable pub find_output : ℕ → Block → Lookup TxOut
  find_output scid block = elim (get_elem? (txdata block) (transaction_index scid)) [
    | none ↦ failed unknown_tx
    | some transaction ↦ elim (get_elem? (output transaction) (output_index scid)) [
      | none ↦ failed unknown_tx
      | some txo ↦ found txo
    ]
  ]

  unfoldable pub cache_output :
      ℕ → Option FundingAmounts → Lookup TxOut → Lookup TxOut × Option FundingAmounts
  cache_output scid amounts (failed e) = (failed e, amounts)
  cache_output scid amounts (found txo) = (found txo, cache_amount scid txo amounts)

  unfoldable pub find_in_block :
      ℕ → Option FundingAmounts → Lookup Block → Lookup TxOut × Option FundingAmounts
  find_in_block scid amounts (failed e) = (failed e, amounts)
  find_in_block scid amounts (found block) = cache_output scid amounts (find_output scid block)

  unfoldable pub retrieve_cache_txo :
      Option FundingAmounts → ℕ → Result (Lookup TxOut × Option FundingAmounts)
  retrieve_cache_txo amounts scid = do
    block ← retrieve_block (block_height scid)
    ok (find_in_block scid amounts block)

  unfoldable pub retrieve_txo : ℕ → Result (Lookup TxOut)
  retrieve_txo scid = do (txo, amounts) ← retrieve_cache_txo none scid; ok txo

  unfoldable pub in_sats : Lookup TxOut → Lookup ℕ
  in_sats (found txo) = found (to_sat txo)
  in_sats (failed e) = failed e

  -- The value, and the cache afterwards.
  unfoldable pub retrieve_funding_value : FundingAmounts → ℕ → Result (Lookup ℕ × FundingAmounts)
  retrieve_funding_value amounts scid = do
    (txo, amounts') ← retrieve_cache_txo (some amounts) scid
    ok (in_sats txo, unwrap_or amounts amounts')

  -- What the task that `get_utxo` spawns resolves the future with, and the cache afterwards.
  unfoldable pub get_utxo : FundingAmounts → ℕ → Result (Lookup TxOut × FundingAmounts)
  get_utxo amounts scid = do
    (txo, amounts') ← retrieve_cache_txo (some amounts) scid
    ok (txo, unwrap_or amounts amounts')
