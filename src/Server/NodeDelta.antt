-- ===== src/Server/NodeDelta.antt =====
-- One node of a snapshot: the loop body over `node_ids` in `serialize_delta`.
use rapid_gossip_sync_server.Prelude.{
  ℕ, suc, ◌+◌, ◌*◌, ◌%◌, ◌^◌, List, [], ◌∷◌, ◌++◌, Option, none, some, Bool, true, false, ◌||◌,
  bit_or, if◌then◌else◌, ltb, leb, ◌==◌, length, Result, ok, panic, out_of_bounds, unwrap_none,
  ◌>>=◌,
}
use rapid_gossip_sync_server.Ldk.{Ldk}
use rapid_gossip_sync_server.Serialization.{
  NodeSerializationStrategy, mutated_node, full_node, reminder_node, one_if,
}
use rapid_gossip_sync_server.Lookup.{NodeDelta, NodeDeltaSet}

-- The counters of node updates.
pub record NodeCounts : Type 0 where
  pub node_update_count : ℕ
  pub node_feature_update_count : ℕ
  pub node_address_update_count : ℕ

abbrev pub no_counts : NodeCounts
no_counts = record {
  node_update_count = 0;
  node_feature_update_count = 0;
  node_address_update_count = 0;
}

-- `bytes[0] |= mask`
unfoldable pub or_first : ℕ → List ℕ → Result (List ℕ)
or_first mask [] = panic out_of_bounds
or_first mask (first ∷ bytes) = ok (bit_or first mask ∷ bytes)

unfoldable pub sends_addresses : NodeSerializationStrategy → Bool
sends_addresses (mutated_node m) = m.addresses
sends_addresses full_node = true
sends_addresses reminder_node = false

unfoldable pub sends_features : NodeSerializationStrategy → Bool
sends_features (mutated_node m) = m.features
sends_features full_node = true
sends_features reminder_node = false

unfoldable pub is_reminder : NodeSerializationStrategy → Bool
is_reminder reminder_node = true
is_reminder _ = false

abbrev pub unwrap : {A : Type 0} → Option A → Result A
unwrap none = panic unwrap_none
unwrap (some a) = ok a

module _ (ldk : Ldk) where
  open ldk use {
    NodeId, NodeFeatures, SocketAddress, ints, node_id, node_features, socket_address, node_id_eq,
    features_eq,
  }

  unfoldable pub node_delta_of : NodeDeltaSet ldk → NodeId → Option (NodeDelta ldk)
  node_delta_of [] id = none
  node_delta_of ((known, delta) ∷ nodes) id =
      if node_id_eq known id then some delta else node_delta_of nodes id

  -- The loop over the addresses, from `total_address_count` on: at most 255 of them, and none that
  -- is longer than 255 bytes. `serialized_length` is the number of bytes that `write` writes.
  unfoldable pub write_addresses : List SocketAddress → ℕ → ℕ × List ℕ
  write_addresses [] total_address_count = (total_address_count, [])
  write_addresses (address ∷ addresses) total_address_count =
      let bytes = socket_address.write address in
      elim (total_address_count == 255) [
        | true ↦ (total_address_count, [])
        | false ↦ elim (ltb (length bytes) 256) [
          | true ↦
              let (count, written) = write_addresses addresses (total_address_count + 1) in
              (count, ints.u8.write (length bytes) ++ (bytes ++ written))
          | false ↦ write_addresses addresses total_address_count
        ]
      ]

  unfoldable pub position : List NodeFeatures → NodeFeatures → Option ℕ
  position [] features = none
  position (f ∷ defaults) features =
      if features_eq f features
      then some 0
      else elim (position defaults features) [ none ↦ none | some index ↦ some (suc index) ]

  unfoldable pub put_addresses : NodeDelta ldk → List ℕ → Result (List ℕ)
  put_addresses delta bytes = do
    details ← unwrap delta.latest_details
    flagged ← or_first 0b0000_0100 bytes
    let written = write_addresses details.addresses 0
    ok (flagged ++ (ints.u8.write written.0 ++ written.1))

  unfoldable pub put_features : List NodeFeatures → NodeDelta ldk → List ℕ → Result (List ℕ)
  put_features defaults delta bytes = do
    details ← unwrap delta.latest_details
    elim (position defaults details.features) [
      | some index ↦ or_first ((index + 1) % 256 * 8 % 256) bytes
      | none ↦ do
        flagged ← or_first 0b0011_1000 bytes
        ok (flagged ++ node_features.write details.features)
    ]

  -- The counters are u32 and wrap.
  unfoldable pub count_node : NodeSerializationStrategy → NodeCounts → NodeCounts
  count_node strategy counts = record {
    node_update_count =
        (counts.node_update_count + one_if (sends_addresses strategy || sends_features strategy))
        % 2 ^ 32;
    node_feature_update_count =
        (counts.node_feature_update_count + one_if (sends_features strategy)) % 2 ^ 32;
    node_address_update_count =
        (counts.node_address_update_count + one_if (sends_addresses strategy)) % 2 ^ 32;
  }

  -- A node with a delta, in version 2.
  unfoldable pub serialize_node_delta :
      List NodeFeatures → NodeDelta ldk → List ℕ → NodeCounts → Result (List ℕ × NodeCounts)
  serialize_node_delta defaults delta bytes counts = do
    strategy ← unwrap delta.strategy
    addressed ← if sends_addresses strategy then put_addresses delta bytes else ok bytes
    featured ←
        if sends_features strategy then put_features defaults delta addressed else ok addressed
    marked ← if is_reminder strategy then or_first 0b0100_0000 featured else ok featured
    ok (marked, count_node strategy counts)

  unfoldable pub serialize_node_id :
      ℕ → List NodeFeatures → NodeDeltaSet ldk → NodeId → NodeCounts → Result (List ℕ × NodeCounts)
  serialize_node_id version defaults nodes id counts =
      let bytes = node_id.write id in
      if leb 2 version
      then elim (node_delta_of nodes id) [
        | none ↦ ok (bytes, counts)
        | some delta ↦ serialize_node_delta defaults delta bytes counts
      ]
      else ok (bytes, counts)

  -- The loop over `node_ids`.
  unfoldable pub serialize_node_ids :
      ℕ
      → List NodeFeatures
      → NodeDeltaSet ldk
      → List NodeId
      → NodeCounts
      → Result (List ℕ × NodeCounts)
  serialize_node_ids version defaults nodes [] counts = ok ([], counts)
  serialize_node_ids version defaults nodes (id ∷ ids) counts = do
    (bytes, counts') ← serialize_node_id version defaults nodes id counts
    (rest, counts'') ← serialize_node_ids version defaults nodes ids counts'
    ok (bytes ++ rest, counts'')
