-- ===== src/Server/NodeIndex.antt =====
-- The closure `get_node_id_index` of `serialize_delta`: node ids are numbered in the order in which
-- they are first met.
use rapid_gossip_sync_server.Prelude.{
  ℕ, ◌+◌, ◌-◌, List, [], ◌∷◌, ◌++◌, Option, none, some, Bool, false, ◌||◌, if◌then◌else◌, length,
  Result, ok, panic, out_of_bounds,
}
use rapid_gossip_sync_server.Ldk.{Ldk}

module _ (ldk : Ldk) where
  open ldk use {NodeId, node_id_eq}

  unfoldable pub contains : List NodeId → NodeId → Bool
  contains [] id = false
  contains (known ∷ ids) id = node_id_eq known id || contains ids id

  unfoldable pub index_of : List (NodeId × ℕ) → NodeId → Option ℕ
  index_of [] id = none
  index_of ((known, index) ∷ indices) id =
      if node_id_eq known id then some index else index_of indices id

  -- The variables that the closure captures. A set and a map are lists that grow at the end.
  pub record NodeIndex : Type 0 where
    pub node_id_set : List NodeId
    pub node_id_indices : List (NodeId × ℕ)
    pub node_ids : List NodeId
    pub duplicate_node_ids : ℕ

  abbrev pub no_nodes : NodeIndex
  no_nodes = record {
    node_id_set = [];
    node_id_indices = [];
    node_ids = [];
    duplicate_node_ids = 0;
  }

  unfoldable pub get_node_id_index : NodeId → NodeIndex → Result (ℕ × NodeIndex)
  get_node_id_index node_id n =
      if contains n.node_id_set node_id
      then elim (index_of n.node_id_indices node_id) [
        | some index ↦ ok (index, record n { duplicate_node_ids = n.duplicate_node_ids + 1 })
        | none ↦ panic out_of_bounds
      ]
      else let node_ids = n.node_ids ++ (node_id ∷ []) in
        let index = length node_ids - 1 in
        ok (
          index,
          record n {
            node_id_set = n.node_id_set ++ (node_id ∷ []);
            node_ids = node_ids;
            node_id_indices = n.node_id_indices ++ ((node_id, index) ∷ []);
          },
        )
