-- ===== src/Verifier/Funding.antt =====
-- What src/verifier.rs finds for a short channel id, and that its cache only holds amounts of the
-- chain.
use rapid_gossip_sync_server.Prelude.{
  ℕ, List, [], ◌∷◌, none, some, All, get_elem?, ok, ◌≡◌, ◌≢◌, ◌==◌, ==_iff, Bool-cases, ◌⊎◌, inl,
  inr, refl, sym, ap, ◌∙◌, Option-cases, >>=_inv, ok-inj,
}
use rapid_gossip_sync_server.Prelude.Maps.{get, entry, IsAscending, entry-IsAscending, All-entry}
use rapid_gossip_sync_server.Verifier.{
  UtxoLookupError, unknown_tx, unknown_chain, BlockAnswer, full_block, header_only, no_block,
  answered, Lookup, found, failed, Chain, FundingAmounts, block_height, transaction_index,
  output_index, get_cached_funding_value, retrieve_block, cache_amount, find_output, cache_output,
  find_in_block, retrieve_cache_txo, in_sats, retrieve_funding_value, get_utxo,
}

module _ (chain : Chain) where
  open chain use {Block, Transaction, TxOut, txdata, output, to_sat}

  -- The chain has the output that the id names.
  pub record IsOutput (scid : ℕ) (txo : TxOut) : Type 0 where
    pub block : Block
    pub transaction : Transaction
    pub retrieved : retrieve_block chain (block_height scid) ≡ ok (found block)
    pub in_block : get_elem? (txdata block) (transaction_index scid) ≡ some transaction
    pub in_transaction : get_elem? (output transaction) (output_index scid) ≡ some txo

  -- The chain has an output of that amount for the id.
  pub record IsAmount (scid amount : ℕ) : Type 0 where
    pub txo : TxOut
    pub is_output : IsOutput scid txo
    pub is_amount : to_sat txo ≡ amount

  -- Every amount in the cache is that of the output on the chain.
  pub record IsFaithful (amounts : FundingAmounts) : Type 0 where
    pub ascending : IsAscending amounts
    pub amounts_of_chain : All (λ e. IsAmount e.0 e.1) amounts

  cache-IsFaithful :
      (scid : ℕ) (txo : TxOut) (amounts : FundingAmounts)
      → IsOutput scid txo
      → IsFaithful amounts
      → IsFaithful (entry 0 scid (λ old. to_sat txo) amounts)
  cache-IsFaithful scid txo amounts h k = record {
    ascending = entry-IsAscending 0 scid (λ old. to_sat txo) amounts k.ascending;
    amounts_of_chain =
        All-entry (λ e. IsAmount e.0 e.1) 0 scid (λ old. to_sat txo) amounts
          (record { txo = txo; is_output = h; is_amount = refl })
          (λ j v same old. record { txo = txo; is_output = rw same at h; is_amount = refl })
          k.amounts_of_chain;
  }

  -- How one lookup ends, from the cache to the cache afterwards.
  pub record Looks (scid : ℕ) (amounts : FundingAmounts) (txo : Lookup TxOut)
      (amounts' : FundingAmounts) : Type 0 where
    pub outcome :
        ((o : TxOut) × (txo ≡ found o)
          × IsOutput scid o
          × (amounts' ≡ entry 0 scid (λ old. to_sat o) amounts))
        ⊎ ((e : UtxoLookupError) × (txo ≡ failed e) × (amounts' ≡ amounts))
    pub keeps : IsFaithful amounts → IsFaithful amounts'

  find_in_block_lem :
      (scid : ℕ) (amounts : FundingAmounts) (b : Lookup Block)
      → retrieve_block chain (block_height scid) ≡ ok b
      → (txo : Lookup TxOut) × (amounts' : FundingAmounts) × (find_in_block chain scid
            (some amounts)
            b
          ≡ (txo, some amounts'))
        × Looks scid amounts txo amounts'
  unfolding find_in_block cache_output find_output cache_amount
  find_in_block_lem scid amounts (failed e) h =
      (failed e, amounts, refl, record { outcome = inr (e, refl, refl); keeps = λ k. k })
  find_in_block_lem scid amounts (found block) h =
      elim (Option-cases (get_elem? (txdata block) (transaction_index scid))) [
        | inl missing ↦ (
          failed unknown_tx,
          amounts,
          rw (find_output, missing) refl,
          record { outcome = inr (unknown_tx, refl, refl); keeps = λ k. k },
        )
        | inr (transaction, in_block) ↦
            elim (Option-cases (get_elem? (output transaction) (output_index scid))) [
              | inl missing ↦ (
                failed unknown_tx,
                amounts,
                rw (find_output, in_block, missing) refl,
                record { outcome = inr (unknown_tx, refl, refl); keeps = λ k. k },
              )
              | inr (txo, in_transaction) ↦
                  let is : IsOutput scid txo = record {
                    block = block;
                    transaction = transaction;
                    retrieved = h;
                    in_block = in_block;
                    in_transaction = in_transaction;
                  } in
                  (
                    found txo,
                    entry 0 scid (λ old. to_sat txo) amounts,
                    rw (find_output, in_block, in_transaction) refl,
                    record {
                      outcome = inl (txo, refl, is, refl);
                      keeps = cache-IsFaithful scid txo amounts is;
                    },
                  )
            ]
      ]

  -- bitcoind answers with block hashes that are hashes, and with whole blocks.
  pub record IsServing : Type 0 where
    pub hashes_parse :
        (height : ℕ) (bytes : List ℕ)
        → chain.block_hash_by_height height ≡ some bytes
        → chain.from_slice bytes ≢ none
    pub blocks_whole : (hash : chain.BlockHash) → chain.get_block hash ≢ header_only

  answered_lem :
      (answer : BlockAnswer Block)
      → answer ≢ header_only
      → (b : Lookup Block) × (answered chain answer ≡ ok b)
  unfolding answered
  answered_lem (full_block block) whole = (found block, refl)
  answered_lem header_only whole = absurd (whole refl)
  answered_lem no_block whole = (failed unknown_chain, refl)

  retrieve_block_lem :
      (height : ℕ) → IsServing → (b : Lookup Block) × (retrieve_block chain height ≡ ok b)
  unfolding retrieve_block
  retrieve_block_lem height serving = elim (Option-cases (chain.block_hash_by_height height)) [
    | inl none_there ↦ (failed unknown_chain, rw (retrieve_block, none_there) refl)
    | inr (bytes, there) ↦ elim (Option-cases (chain.from_slice bytes)) [
      | inl fails ↦ absurd (serving.hashes_parse height bytes there fails)
      | inr (hash, parses) ↦
          let (b, returns) = answered_lem (chain.get_block hash) (serving.blocks_whole hash) in
          (b, rw (retrieve_block, there, parses) returns)
    ]
  ]

  -- If bitcoind answers with block hashes that are hashes and with whole blocks, a lookup does not
  -- panic. It finds the output that the id names and enters its amount in the cache, or it fails and
  -- leaves the cache as it was; a cache that only holds amounts of the chain still does.
  pub get_utxo-Looks :
      (scid : ℕ) (amounts : FundingAmounts)
      → IsServing
      → (txo : Lookup TxOut) × (amounts' : FundingAmounts) × (get_utxo chain amounts scid
          ≡ ok (txo, amounts'))
        × Looks scid amounts txo amounts'
  unfolding get_utxo retrieve_cache_txo
  get_utxo-Looks scid amounts serving =
      let (b, retrieved) = retrieve_block_lem (block_height scid) serving in
      let (txo, amounts', finds, looks) = find_in_block_lem scid amounts b retrieved in
      (txo, amounts', rw (get_utxo, retrieve_cache_txo, retrieved, finds) refl, looks)

  found_inj : {A : Type 0} {a b : A} → found a ≡ found b → a ≡ b
  found_inj e = cc

  -- How the amount is retrieved.
  pub record Retrieves (scid : ℕ) (amounts : FundingAmounts) (amount : Lookup ℕ)
      (amounts' : FundingAmounts) : Type 0 where
    pub true_amount : (v : ℕ) → amount ≡ found v → IsAmount scid v
    pub keeps : IsFaithful amounts → IsFaithful amounts'

  true_amount_lem :
      (scid v : ℕ) (amounts amounts' : FundingAmounts) (txo : Lookup TxOut)
      → Looks scid amounts txo amounts'
      → in_sats chain txo ≡ found v
      → IsAmount scid v
  unfolding in_sats
  true_amount_lem scid v amounts amounts' (failed e) looks same = cc
  true_amount_lem scid v amounts amounts' (found o) looks same = elim looks.outcome [
    | inl (o', is, is_output, cached) ↦ record {
      txo = o;
      is_output = rw (found_inj is) is_output;
      is_amount = found_inj same;
    }
    | inr (e, fails, cached) ↦ cc
  ]

  found_block_lem :
      (scid : ℕ) (amounts : FundingAmounts) (b : Lookup Block)
      → retrieve_block chain (block_height scid) ≡ ok b
      → (amount : Lookup ℕ) × (amounts' : FundingAmounts) × (retrieve_funding_value chain amounts
            scid
          ≡ ok (amount, amounts'))
        × Retrieves scid amounts amount amounts'
  unfolding retrieve_funding_value retrieve_cache_txo
  found_block_lem scid amounts b retrieved =
      let (txo, amounts', finds, looks) = find_in_block_lem scid amounts b retrieved in
      (
        in_sats chain txo,
        amounts',
        rw (retrieve_funding_value, retrieve_cache_txo, retrieved, finds) refl,
        record {
          true_amount = λ v. true_amount_lem scid v amounts amounts' txo looks;
          keeps = looks.keeps;
        },
      )

  pub retrieve_funding_value-ok :
      (scid : ℕ) (amounts : FundingAmounts)
      → IsServing
      → (amount : Lookup ℕ) × (amounts' : FundingAmounts) × (retrieve_funding_value chain amounts
            scid
          ≡ ok (amount, amounts'))
        × Retrieves scid amounts amount amounts'
  retrieve_funding_value-ok scid amounts serving =
      let (b, retrieved) = retrieve_block_lem (block_height scid) serving in
      found_block_lem scid amounts b retrieved

  pub retrieve_funding_value-Retrieves :
      (scid : ℕ) (amounts : FundingAmounts) (p : Lookup ℕ × FundingAmounts)
      → retrieve_funding_value chain amounts scid ≡ ok p
      → Retrieves scid amounts p.0 p.1
  unfolding retrieve_funding_value retrieve_cache_txo
  retrieve_funding_value-Retrieves scid amounts p e =
      let (q, caches, e2) = >>=_inv (retrieve_cache_txo chain (some amounts) scid) _ p e in
      let (b, retrieved, e3) = >>=_inv (retrieve_block chain (block_height scid)) _ q caches in
      let (amount, amounts', returns, h) = found_block_lem scid amounts b retrieved in
      let same : (amount, amounts') ≡ p = ok-inj (sym returns ∙ e) in rw (← same) h

  pub get_utxo-keep :
      (scid : ℕ) (amounts : FundingAmounts) (p : Lookup TxOut × FundingAmounts)
      → get_utxo chain amounts scid ≡ ok p
      → IsFaithful amounts
      → IsFaithful p.1
  unfolding get_utxo retrieve_cache_txo
  get_utxo-keep scid amounts p e =
      let (q, caches, e2) = >>=_inv (retrieve_cache_txo chain (some amounts) scid) _ p e in
      let (b, retrieved, e3) = >>=_inv (retrieve_block chain (block_height scid)) _ q caches in
      let (txo, amounts', finds, looks) = find_in_block_lem scid amounts b retrieved in
      let same : (txo, amounts') ≡ p =
        ok-inj (sym (rw (get_utxo, retrieve_cache_txo, retrieved, finds) refl) ∙ e) in
      λ faithful. rw (← ap (λ q. q.1) same) (looks.keeps faithful)

  some_inj : {a b : ℕ} → some a ≡ some b → a ≡ b
  some_inj e = cc

  All-get :
      (P : ℕ → ℕ → Type 0) (k v : ℕ) (m : FundingAmounts)
      → All (λ e. P e.0 e.1) m
      → get k m ≡ some v
      → P k v
  unfolding get
  All-get P k v [] h e = cc
  All-get P k v ((j, w) ∷ m) h e = elim (Bool-cases (k == j)) [
    | inl same ↦ rw ((==_iff k j).0 same) (rw (sym (some_inj (rw (get, same) at e))) h.0)
    | inr other ↦ All-get P k v m h.1 (rw (get, other) at e)
  ]

  -- An amount that a cache of the chain's amounts gives for an id is that of the chain's output.
  pub get_cached_funding_value-IsAmount :
      (scid v : ℕ) (amounts : FundingAmounts)
      → IsFaithful amounts
      → get_cached_funding_value amounts scid ≡ some v
      → IsAmount scid v
  unfolding get_cached_funding_value
  get_cached_funding_value-IsAmount scid v amounts h e =
      All-get IsAmount scid v amounts h.amounts_of_chain e

  -- The amount of an output that is on the chain is found.
  pub retrieve_funding_value-found :
      (scid : ℕ) (amounts : FundingAmounts) (o : TxOut)
      → IsOutput scid o
      → (amounts' : FundingAmounts) × (retrieve_funding_value chain amounts scid
          ≡ ok (found (to_sat o), amounts'))
  unfolding retrieve_funding_value retrieve_cache_txo find_in_block find_output cache_output in_sats
      cache_amount
  retrieve_funding_value-found scid amounts o h = (
    entry 0 scid (λ old. to_sat o) amounts,
    rw
        (
          retrieve_funding_value, retrieve_cache_txo, h.retrieved, find_output, h.in_block,
          h.in_transaction,
        )
        refl,
  )
