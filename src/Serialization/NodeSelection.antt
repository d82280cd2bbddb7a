-- ===== src/Serialization/NodeSelection.antt =====
-- Which nodes `serialize_delta_set` of src/serialization.rs keeps, and which of them in full.
use rapid_gossip_sync_server.Prelude.{
  ℕ, ◌≤◌, ◌<◌, List, [], ◌∷◌, map, Option, none, some, leb, leb→le, ◌↔◌, All, ◌≡◌, ◌≢◌, refl, ap,
  ◌∙◌, arith, Option-cases, Bool-cases, inl, inr,
}
use rapid_gossip_sync_server.Ldk.{Ldk}
use rapid_gossip_sync_server.Serialization.{
  NodeSerializationStrategy, mutated_node, full_node, reminder_node,
}
use rapid_gossip_sync_server.Serialization.DeltaSet.{serialize_node, serialize_nodes}
use rapid_gossip_sync_server.Lookup.{NodeDetails, NodeDelta, NodeDeltaSet}
use rapid_gossip_sync_server.Lookup.NodeLaws.{Suits, ArePlanned}

module _ (ldk : Ldk) where
  -- A node that is sent: the client knows it, and it is sent in full exactly if the details that
  -- were known before the last sync are not newer than the threshold.
  pub record IsSent (threshold : ℕ) (d : NodeDelta ldk) : Type 0 where
    pub before : NodeDetails ldk
    pub is_known : d.last_details_before_seen ≡ some before
    pub is_chosen : d.strategy ≢ none
    pub full_iff :
        (d.strategy ≡ some full_node)
        ↔ ((seen : ℕ) × (before.seen ≡ some seen) × (seen ≤ threshold))

  -- A node that keeps the strategy it was given.
  kept_strategy :
      (threshold : ℕ) (latest : Option (NodeDetails ldk)) (strategy : NodeSerializationStrategy)
      (before : NodeDetails ldk)
      → Suits ldk (some strategy) (some before)
      → ((seen : ℕ) → before.seen ≡ some seen → threshold < seen)
      → IsSent threshold (record {
        latest_details = latest;
        strategy = some strategy;
        last_details_before_seen = some before;
      })
  kept_strategy threshold latest full_node before suits newer = cc
  kept_strategy threshold latest reminder_node before suits newer = record {
    before = before;
    is_known = refl;
    is_chosen = λ e. cc;
    full_iff = (λ e. ground arith, λ (seen, e, le). absurd (omega (arith, newer seen e)));
  }
  kept_strategy threshold latest (mutated_node m) before suits newer = record {
    before = before;
    is_known = refl;
    is_chosen = λ e. cc;
    full_iff = (λ e. ground arith, λ (seen, e, le). absurd (omega (arith, newer seen e)));
  }

  serialize_node-IsSent :
      (threshold : ℕ) (latest : Option (NodeDetails ldk)) (strategy : NodeSerializationStrategy)
      (before : NodeDetails ldk) (seen : Option ℕ)
      → before.seen ≡ seen
      → Suits ldk (some strategy) (some before)
      → (d' : NodeDelta ldk) × (serialize_node ldk threshold (record {
        latest_details = latest;
        strategy = some strategy;
        last_details_before_seen = some before;
      })
          ≡ some d')
        × IsSent threshold d'
  unfolding serialize_node
  serialize_node-IsSent threshold latest strategy before none e suits = (
    record {
      latest_details = latest;
      strategy = some strategy;
      last_details_before_seen = some before;
    },
    simp e,
    kept_strategy threshold latest strategy before suits (λ seen p. cc),
  )
  serialize_node-IsSent threshold latest strategy before (some seen) e suits =
      elim (Bool-cases (leb seen threshold)) [
        | inl old ↦ (
          record {
            latest_details = latest;
            strategy = some full_node;
            last_details_before_seen = some before;
          },
          simp (e, old) refl,
          record {
            before = before;
            is_known = refl;
            is_chosen = λ e. cc;
            full_iff = (λ p. (seen, e, leb→le seen threshold old), λ p. refl);
          },
        )
        | inr recent ↦ (
          record {
            latest_details = latest;
            strategy = some strategy;
            last_details_before_seen = some before;
          },
          simp (e, recent) refl,
          kept_strategy threshold latest strategy before suits
              (λ seen' p. grind (arith, e, p, recent)),
        )
      ]

  serialize_node-IsSent_known :
      (threshold : ℕ) (d : NodeDelta ldk) (strategy : NodeSerializationStrategy)
      (before : NodeDetails ldk)
      → d.strategy ≡ some strategy
      → d.last_details_before_seen ≡ some before
      → Suits ldk d.strategy d.last_details_before_seen
      → (d' : NodeDelta ldk) × (serialize_node ldk threshold d ≡ some d') × IsSent threshold d'
  serialize_node-IsSent_known threshold d strategy before chosen known suits =
      let (d', returns, sent) =
        serialize_node-IsSent threshold d.latest_details strategy before before.seen refl
          (rw (chosen, known) at suits) in
      let whole : d ≡ record {
        latest_details = d.latest_details;
        strategy = some strategy;
        last_details_before_seen = some before;
      } =
        λ i. record {
          latest_details = d.latest_details;
          strategy = chosen i;
          last_details_before_seen = known i;
        } in
      (d', ap (serialize_node ldk threshold) whole ∙ returns, sent)

  unchosen_node :
      (threshold : ℕ) (d : NodeDelta ldk)
      → d.strategy ≡ none
      → serialize_node ldk threshold d ≡ none
  unfolding serialize_node
  unchosen_node threshold d e = rw (serialize_node, e) refl

  unknown_node :
      (threshold : ℕ) (d : NodeDelta ldk) (s : NodeSerializationStrategy)
      → d.strategy ≡ some s
      → d.last_details_before_seen ≡ none
      → serialize_node ldk threshold d ≡ none
  unfolding serialize_node
  unknown_node threshold d s chosen e = rw (serialize_node, chosen, e) refl

  -- The ids of the nodes that have a strategy and earlier details.
  abbrev pub known_ids : NodeDeltaSet ldk → List ldk.NodeId
  known_ids [] = []
  known_ids ((id, d) ∷ nodes) = elim d.strategy [
    | none ↦ known_ids nodes
    | some s ↦ elim d.last_details_before_seen [
      | none ↦ known_ids nodes
      | some before ↦ id ∷ known_ids nodes
    ]
  ]

  -- Of deltas whose strategies suit them, `serialize_delta_set` sends those of the nodes that have
  -- a strategy and whose details from before the last sync are known, in their order. Each that is
  -- sent is sent in full exactly if those details were seen at a known time, not later than the
  -- threshold.
  pub serialize_nodes-IsSent :
      (threshold : ℕ) (nodes : NodeDeltaSet ldk)
      → ArePlanned ldk nodes
      → All (λ e. IsSent threshold e.1) (serialize_nodes ldk threshold nodes)
        × (map (λ e. e.0) (serialize_nodes ldk threshold nodes) ≡ known_ids nodes)
  unfolding serialize_nodes
  serialize_nodes-IsSent threshold [] h = (tt, refl)
  serialize_nodes-IsSent threshold ((id, d) ∷ nodes) h =
      let (rest, ids) = serialize_nodes-IsSent threshold nodes h.1 in
      elim (Option-cases d.strategy) [
        | inl unchosen ↦ (
          rw (serialize_nodes, unchosen_node threshold d unchosen) rest,
          rw (serialize_nodes, unchosen_node threshold d unchosen, unchosen) ids,
        )
        | inr (s, chosen) ↦ elim (Option-cases d.last_details_before_seen) [
          | inl unknown ↦ (
            rw (serialize_nodes, unknown_node threshold d s chosen unknown) rest,
            rw (serialize_nodes, unknown_node threshold d s chosen unknown, chosen, unknown) ids,
          )
          | inr (before, known) ↦
              let (d', returns, sent) =
                serialize_node-IsSent_known threshold d s before chosen known h.0.suits in
              (
                rw (serialize_nodes, returns) (sent, rest),
                rw (serialize_nodes, returns, chosen, known) (ap (λ l. id ∷ l) ids),
              )
        ]
      ]
