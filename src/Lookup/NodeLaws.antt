-- ===== src/Lookup/NodeLaws.antt =====
-- The strategies that `fetch_node_updates` chooses, and the nodes that `serialize_delta_set` keeps.
use rapid_gossip_sync_server.Prelude.{
  ℕ, ◌≤◌, ◌-◌, ◌%◌, ◌^◌, List, [], ◌∷◌, map, Option, none, some, Bool, true, false, ◌&&◌, ◌||◌,
  if◌then◌else◌, if_elim, leb, All, All-imp, ok, ◌≡◌, ◌≢◌, refl, arith, Option-cases, inl, inr,
}
use rapid_gossip_sync_server.Prelude.Maps.{unwrap_or}
use rapid_gossip_sync_server.Config.{channel_reminder_age, prune_interval}
use rapid_gossip_sync_server.Ldk.{Ldk}
use rapid_gossip_sync_server.Serialization.{
  NodeSerializationStrategy, mutated_node, full_node, reminder_node,
}
use rapid_gossip_sync_server.Lookup.{NodeDetails, NodeDelta, default_node, NodeDeltaSet}
use rapid_gossip_sync_server.Lookup.AnnouncementLaws.{checked_before_lem}
use rapid_gossip_sync_server.Lookup.Reminders.{should_snapshot_include_reminders}
use rapid_gossip_sync_server.Lookup.Nodes.{
  NodeRow, NodeAnnouncement, GraphNode, NodeSource, entry_node, is_previous, Changes, no_changes,
  details_of, graph_deltas, set_details_before, fetch_node_reference_rows, set_latest_seen,
  Thresholds, plan_known, plan, NodeProgress, delta_of, add_node_update,
  fetch_intermediate_node_rows, effective_threshold, fetch_node_updates,
}

module _ (ldk : Ldk) where
  -- What a strategy says of the details that the client has: a full announcement is chosen where
  -- there are none, a mutation names a change, and a reminder is of a node that is known.
  abbrev pub Suits : Option NodeSerializationStrategy → Option (NodeDetails ldk) → Type 0
  Suits none before = Unit
  Suits (some full_node) before = before ≡ none
  Suits (some reminder_node) before = before ≢ none
  Suits (some (mutated_node m)) before = (before ≢ none) × ((m.addresses || m.features) ≡ true)

  pub record IsPlanned (d : NodeDelta ldk) : Type 0 where
    pub suits : Suits d.strategy d.last_details_before_seen

  abbrev pub ArePlanned : NodeDeltaSet ldk → Type 0
  ArePlanned nodes = All (λ e. IsPlanned e.1) nodes

  -- Before the second loop no strategy is chosen.
  abbrev AreUnplanned : NodeDeltaSet ldk → Type 0
  AreUnplanned nodes = All (λ e. e.1.strategy ≡ none) nodes

  All-entry_node :
      (P : NodeDelta ldk → Type 0) (id : ldk.NodeId) (f : NodeDelta ldk → NodeDelta ldk)
      (nodes : NodeDeltaSet ldk)
      → P (f (default_node ldk))
      → ((d : NodeDelta ldk) → P d → P (f d))
      → All (λ e. P e.1) nodes
      → All (λ e. P e.1) (entry_node ldk id f nodes)
  unfolding entry_node
  All-entry_node P id f [] new old h = (new, tt)
  All-entry_node P id f ((known, d) ∷ nodes) new old h =
      let P' = λ (nodes : NodeDeltaSet ldk). All (λ e. P e.1) nodes in
      let found : P' ((known, f d) ∷ nodes) = (old d h.0, h.1) in
      let missed : P' ((known, d) ∷ entry_node ldk id f nodes) =
        (h.0, All-entry_node P id f nodes new old h.1) in
      if_elim P' (ldk.node_id_eq known id) found missed

  set_latest_seen_keeps :
      (source : NodeSource ldk) (seen : ℕ) (d : NodeDelta ldk)
      → ((set_latest_seen ldk source seen d).strategy ≡ d.strategy)
        × ((set_latest_seen ldk source seen d).last_details_before_seen
            ≡ d.last_details_before_seen)
  unfolding set_latest_seen
  set_latest_seen_keeps source seen d = ground arith

  set_latest_seen-IsPlanned :
      (source : NodeSource ldk) (seen : ℕ) (d : NodeDelta ldk)
      → IsPlanned d
      → IsPlanned (set_latest_seen ldk source seen d)
  set_latest_seen-IsPlanned source seen d h =
      let (same_strategy, same_before) = set_latest_seen_keeps source seen d in
      record { suits = rw (same_strategy, same_before) h.suits }

  set_details_before_keeps :
      (source : NodeSource ldk) (details : NodeDetails ldk) (d : NodeDelta ldk)
      → (set_details_before ldk source details d).strategy ≡ d.strategy
  unfolding set_details_before
  set_details_before_keeps source details d = ground arith

  plan_known-IsPlanned :
      (source : NodeSource ldk) (t : Thresholds ldk source) (seen : ℕ) (c : Changes ldk)
      (d : NodeDelta ldk)
      → d.last_details_before_seen ≢ none
      → IsPlanned d
      → IsPlanned (plan_known ldk source t seen c d)
  unfolding plan_known
  plan_known-IsPlanned source t seen c d known h =
      let reminded : IsPlanned (record d { strategy = some reminder_node }) = record {
        suits = known;
      } in
      if_elim IsPlanned (leb t.last_sync_timestamp seen)
        (mutation (c.has_address_set_changed || c.has_feature_set_changed) refl)
        (if_elim IsPlanned
          (t.include_reminders
            && leb (unwrap_or (2 ^ 32 - 1) c.latest_mutation_timestamp)
                t.reminder_inclusion_threshold_timestamp)
          reminded h)
    where
      mutation :
          (b : Bool)
          → (c.has_address_set_changed || c.has_feature_set_changed) ≡ b
          → IsPlanned (
              if b
              then record d {
                strategy = some (
                    mutated_node (record {
                      addresses = c.has_address_set_changed;
                      features = c.has_feature_set_changed;
                    }));
              }
              else d)
      mutation true e = record { suits = (known, e) }
      mutation false e = h

  plan-IsPlanned :
      (source : NodeSource ldk) (t : Thresholds ldk source) (seen : ℕ) (c : Changes ldk)
      (latest : Option (NodeDetails ldk)) (strategy : Option NodeSerializationStrategy)
      (before : Option (NodeDetails ldk))
      → IsPlanned (record {
        latest_details = latest;
        strategy = strategy;
        last_details_before_seen = before;
      })
      → IsPlanned (
          plan ldk source t seen c (record {
            latest_details = latest;
            strategy = strategy;
            last_details_before_seen = before;
          }))
  unfolding plan
  plan-IsPlanned source t seen c latest strategy none h = record { suits = refl }
  plan-IsPlanned source t seen c latest strategy (some b) h =
      plan_known-IsPlanned source t seen c _ (λ e. ground arith) h

  delta_of-IsPlanned :
      (source : NodeSource ldk) (nodes : NodeDeltaSet ldk) (id : ldk.NodeId)
      → ArePlanned nodes
      → IsPlanned (delta_of ldk source nodes id)
  unfolding delta_of
  delta_of-IsPlanned source [] id h = record { suits = tt }
  delta_of-IsPlanned source ((known, d) ∷ nodes) id h =
      if_elim IsPlanned _ h.0 (delta_of-IsPlanned source nodes id h.1)

  add_node_update-ArePlanned :
      (source : NodeSource ldk) (t : Thresholds ldk source) (seen : ℕ) (a : NodeAnnouncement ldk)
      (s : NodeProgress ldk source)
      → ArePlanned s.nodes
      → ArePlanned (add_node_update ldk source t seen a s).nodes
  unfolding add_node_update
  add_node_update-ArePlanned source t seen a s h =
      let current = delta_of ldk source s.nodes a.node_id in
      let h0 = delta_of-IsPlanned source s.nodes a.node_id h in
      let planned =
        if_elim IsPlanned (is_previous ldk s.previous_node_id a.node_id) h0
          (set_latest_seen-IsPlanned source seen current h0) in
      let next = plan-IsPlanned source t seen _ _ _ _ planned in
      All-entry_node IsPlanned a.node_id _ s.nodes next (λ d k. next) h

  graph_deltas_unplanned :
      (source : NodeSource ldk) (graph : List (GraphNode ldk))
      → AreUnplanned (graph_deltas ldk source graph)
  unfolding graph_deltas
  graph_deltas_unplanned source [] = tt
  graph_deltas_unplanned source (node ∷ graph) = elim (Option-cases node.announcement_info) [
    | inl e ↦ rw e (graph_deltas_unplanned source graph)
    | inr (info, e) ↦ rw e (refl, graph_deltas_unplanned source graph)
  ]

  abbrev IsReadableNode : NodeSource ldk → NodeRow → Type 0
  IsReadableNode source row = source.read_node_announcement row.announcement_signed ≢ none

  fetch_node_reference_rows_unplanned :
      (source : NodeSource ldk) (rows : List NodeRow) (nodes : NodeDeltaSet ldk)
      → All (IsReadableNode source) rows
      → AreUnplanned nodes
      → (nodes' : NodeDeltaSet ldk) × (fetch_node_reference_rows ldk source rows nodes ≡ ok nodes')
        × AreUnplanned nodes'
  unfolding fetch_node_reference_rows
  fetch_node_reference_rows_unplanned source [] nodes readable h = (nodes, refl, h)
  fetch_node_reference_rows_unplanned source (row ∷ rows) nodes readable h =
      elim (Option-cases (source.read_node_announcement row.announcement_signed)) [
        | inl fails ↦ absurd (readable.0 fails)
        | inr (a, reads) ↦
            let details = details_of ldk source (some (row.seen % 2 ^ 32)) a in
            let h1 =
              All-entry_node (λ d. d.strategy ≡ none) a.node_id
                (set_details_before ldk source details) nodes
                (set_details_before_keeps source details (default_node ldk))
                (λ d k. rw (set_details_before_keeps source details d) k) h in
            let (nodes', returns, h') =
              fetch_node_reference_rows_unplanned source rows _ readable.1 h1 in
            (nodes', rw reads returns, h')
      ]

  fetch_intermediate_node_rows-ArePlanned :
      (source : NodeSource ldk) (t : Thresholds ldk source) (rows : List NodeRow)
      (s : NodeProgress ldk source)
      → All (IsReadableNode source) rows
      → ArePlanned s.nodes
      → (s' : NodeProgress ldk source) × (fetch_intermediate_node_rows ldk source t rows s ≡ ok s')
        × ArePlanned s'.nodes
  unfolding fetch_intermediate_node_rows
  fetch_intermediate_node_rows-ArePlanned source t [] s readable h = (s, refl, h)
  fetch_intermediate_node_rows-ArePlanned source t (row ∷ rows) s readable h =
      elim (Option-cases (source.read_node_announcement row.announcement_signed)) [
        | inl fails ↦ absurd (readable.0 fails)
        | inr (a, reads) ↦
            let (s', returns, h') =
              fetch_intermediate_node_rows-ArePlanned source t rows
                (add_node_update ldk source t (row.seen % 2 ^ 32) a s) readable.1
                (add_node_update-ArePlanned source t (row.seen % 2 ^ 32) a s h) in
            (s', rw reads returns, h')
      ]

  -- Every blob of a node announcement that the database returns can be read.
  pub record IsReadableSource (source : NodeSource ldk) : Type 0 where
    pub reference_readable :
        (ids : List ldk.NodeId) (t : ℕ)
        → All (IsReadableNode source) (source.node_reference_rows ids t)
    pub intermediate_readable :
        (ids : List ldk.NodeId) (t : ℕ)
        → All (IsReadableNode source) (source.intermediate_node_updates ids t)

  -- If every row can be read and the snapshot is not taken before the prune interval has passed
  -- since the epoch, `fetch_node_updates` does not panic. A node is then to be sent in full only
  -- if no details of it from before the last sync are known, as a mutation or a reminder only if
  -- some are, and a mutation names at least one change.
  pub fetch_node_updates-ArePlanned :
      (source : NodeSource ldk) (graph : List (GraphNode ldk)) (now last_sync_timestamp : ℕ)
      (reference : Option ℕ)
      → IsReadableSource source
      → prune_interval ≤ unwrap_or now reference
      → (nodes : NodeDeltaSet ldk) × (fetch_node_updates ldk source graph now last_sync_timestamp
            reference
          ≡ ok nodes)
        × ArePlanned nodes
  unfolding fetch_node_updates
  fetch_node_updates-ArePlanned source graph now last reference readable late =
      let deltas = graph_deltas ldk source graph in
      let ids = map (λ (e : ldk.NodeId × NodeDelta ldk). e.0) deltas in
      let current = unwrap_or now reference in
      let reminders = should_snapshot_include_reminders last current in
      let (nodes, one, h1) =
        fetch_node_reference_rows_unplanned source (source.node_reference_rows ids last) deltas
          (readable.reference_readable ids last) (graph_deltas_unplanned source graph) in
      let (inclusion, two) = checked_before_lem current channel_reminder_age (omega arith) in
      let (lookup, three) = checked_before_lem current prune_interval late in
      let since = effective_threshold ldk source reminders last (lookup % 2 ^ 32) in
      let (s, four, h2) =
        fetch_intermediate_node_rows-ArePlanned source
          (record {
            last_sync_timestamp = last;
            include_reminders = reminders;
            reminder_inclusion_threshold_timestamp = inclusion % 2 ^ 32;
          })
          (source.intermediate_node_updates ids since)
          (record { nodes = nodes; previous_node_id = none; changes = no_changes ldk })
          (readable.intermediate_readable ids since)
          (All-imp (λ e. e.1.strategy ≡ none) (λ e. IsPlanned e.1)
            (λ e none_yet. record { suits = rw none_yet tt }) nodes h1) in
      (s.nodes, rw (one, two, three, four) refl, h2)
