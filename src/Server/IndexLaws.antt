-- ===== src/Server/IndexLaws.antt =====
-- The numbering of node ids: an index always finds the id that it was given for.
use rapid_gossip_sync_server.Prelude.{
  ℕ, suc, ◌+◌, ◌-◌, ◌≤◌, List, [], ◌∷◌, ◌++◌, some, true, false, length, length-append, get_elem?,
  get_elem?-append, get_elem?-append_self, ok, ◌≡◌, refl, ap, arith, Bool-cases, inl, inr,
}
use native.Mathlib.Nat.{zero-add}
use rapid_gossip_sync_server.Ldk.{Ldk}
use rapid_gossip_sync_server.Server.NodeIndex.{
  contains, index_of, NodeIndex, no_nodes, get_node_id_index,
}

module _ (ldk : Ldk) where
  open ldk use {NodeId, node_id_eq}

  abbrev enumerate : ℕ → List NodeId → List (NodeId × ℕ)
  enumerate k [] = []
  enumerate k (id ∷ ids) = (id, k) ∷ enumerate (k + 1) ids

  abbrev pub IsDistinct : List NodeId → Type 0
  IsDistinct [] = Unit
  IsDistinct (id ∷ ids) = (contains ldk ids id ≡ false) × IsDistinct ids

  pub record IsIndexed (n : NodeIndex ldk) : Type 0 where
    pub set_is_ids : n.node_id_set ≡ n.node_ids
    pub indices_of_ids : n.node_id_indices ≡ enumerate 0 n.node_ids
    pub distinct : IsDistinct n.node_ids

  -- What is found at an index stays there.
  abbrev pub Extends : List NodeId → List NodeId → Type 0
  Extends ids ids' = (i : ℕ) (id : NodeId) → get_elem? ids i ≡ some id → get_elem? ids' i ≡ some id

  enumerate-append :
      (ids : List NodeId) (id : NodeId) (k : ℕ)
      → enumerate k (ids ++ (id ∷ [])) ≡ enumerate k ids ++ ((id, k + length ids) ∷ [])
  enumerate-append [] id k = ground arith
  enumerate-append (x ∷ ids) id k = ground (arith, enumerate-append ids id (k + 1))

  node_id_eq_false : (a b : NodeId) → node_id_eq a b ≡ false → node_id_eq b a ≡ false
  node_id_eq_false a b h = ground (arith, ldk.node_id_eq_iff a b, ldk.node_id_eq_iff b a)

  contains-append :
      (ids : List NodeId) (id known : NodeId)
      → contains ldk ids known ≡ false
      → node_id_eq id known ≡ false
      → contains ldk (ids ++ (id ∷ [])) known ≡ false
  unfolding contains
  contains-append [] id known h e = ground arith
  contains-append (x ∷ ids) id known h e = ground (arith, contains-append ids id known)

  IsDistinct-append :
      (ids : List NodeId) (id : NodeId)
      → IsDistinct ids
      → contains ldk ids id ≡ false
      → IsDistinct (ids ++ (id ∷ []))
  unfolding contains
  IsDistinct-append [] id d h = (refl, tt)
  IsDistinct-append (x ∷ ids) id d h =
      ground (arith, contains-append ids id x, node_id_eq_false x id, IsDistinct-append ids id d.1)

  found :
      (ids : List NodeId) (k : ℕ) (id : NodeId)
      → contains ldk ids id ≡ true
      → (i : ℕ) × (index_of ldk (enumerate k ids) id ≡ some (k + i)) × (get_elem? ids i ≡ some id)
  unfolding contains index_of
  found [] k id h = cc
  found (x ∷ ids) k id h = elim (Bool-cases (node_id_eq x id)) [
    | inl same ↦ (0, ground arith, ap some ((ldk.node_id_eq_iff x id).0 same))
    | inr other ↦
        let (i, index, elem) = found ids (k + 1) id (ground arith) in (suc i, ground arith, elem)
  ]

  pub no_nodes-IsIndexed : IsIndexed (no_nodes ldk)
  no_nodes-IsIndexed = record { set_is_ids = refl; indices_of_ids = refl; distinct = tt }

  -- What a call of `get_node_id_index` for `id` does that returns `i` and leaves `n'`.
  pub record Numbers (id : NodeId) (n : NodeIndex ldk) (i : ℕ) (n' : NodeIndex ldk) : Type 0 where
    pub returns : get_node_id_index ldk id n ≡ ok (i, n')
    pub indexed : IsIndexed n'
    pub elem : get_elem? n'.node_ids i ≡ some id
    pub extends : Extends n.node_ids n'.node_ids
    pub one_more : length n'.node_ids ≤ length n.node_ids + 1

  module _ (id : NodeId) (n : NodeIndex ldk) (h : IsIndexed n) where
    known :
        contains ldk n.node_id_set id ≡ true → (i : ℕ) × (n' : NodeIndex ldk) × Numbers id n i n'
    unfolding get_node_id_index
    known old =
        let (i, index, elem) = found n.node_ids 0 id (rw h.set_is_ids at old) in
        let at_index : index_of ldk n.node_id_indices id ≡ some i =
          rw (h.indices_of_ids, index, zero-add) refl in
        (
          i,
          record n { duplicate_node_ids = n.duplicate_node_ids + 1 },
          record {
            returns = rw (old, at_index) refl;
            indexed = record {
              set_is_ids = h.set_is_ids;
              indices_of_ids = h.indices_of_ids;
              distinct = h.distinct;
            };
            elem = elem;
            extends = λ k a e. e;
            one_more = omega arith;
          },
        )

    last_index : length (n.node_ids ++ (id ∷ [])) - 1 ≡ length n.node_ids
    last_index = omega (arith, length-append n.node_ids (id ∷ []))

    fresh :
        contains ldk n.node_id_set id ≡ false → (i : ℕ) × (n' : NodeIndex ldk) × Numbers id n i n'
    unfolding get_node_id_index
    fresh new = (
      length n.node_ids,
      record n {
        node_id_set = n.node_id_set ++ (id ∷ []);
        node_ids = n.node_ids ++ (id ∷ []);
        node_id_indices = n.node_id_indices ++ ((id, length n.node_ids) ∷ []);
      },
      record {
        returns = rw (new, last_index) refl;
        indexed = record {
          set_is_ids = rw h.set_is_ids refl;
          indices_of_ids = rw (h.indices_of_ids, enumerate-append n.node_ids id 0, zero-add) refl;
          distinct = IsDistinct-append n.node_ids id h.distinct (rw h.set_is_ids at new);
        };
        elem = get_elem?-append_self n.node_ids id;
        extends = λ k a e. get_elem?-append n.node_ids (id ∷ []) k a e;
        one_more = omega (arith, length-append n.node_ids (id ∷ []));
      },
    )

  -- A call of `get_node_id_index` on an indexed state does not panic and leaves an indexed state,
  -- which has at most one id more, and where the ids of before are found at their indices. The id
  -- that was asked for is found at the index that is returned.
  pub get_node_id_index_lem :
      (id : NodeId) (n : NodeIndex ldk)
      → IsIndexed n
      → (i : ℕ) × (n' : NodeIndex ldk) × Numbers id n i n'
  get_node_id_index_lem id n h = elim (Bool-cases (contains ldk n.node_id_set id)) [
    | inl old ↦ known id n h old
    | inr new ↦ fresh id n h new
  ]
