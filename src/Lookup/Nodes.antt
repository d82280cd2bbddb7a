-- ===== src/Lookup/Nodes.antt =====
-- `fetch_node_updates` of src/lookup.rs, over the network graph and the rows that its two queries
-- return.
use rapid_gossip_sync_server.Prelude.{
  ℕ, ◌-◌, ◌%◌, ◌^◌, min, List, [], ◌∷◌, map, Option, none, some, Bool, true, false, not, ◌&&◌, ◌||◌,
  if◌then◌else◌, leb, Result, ok, ◌>>=◌,
}
use rapid_gossip_sync_server.Prelude.Maps.{unwrap_or}
use rapid_gossip_sync_server.Config.{channel_reminder_age, prune_interval}
use rapid_gossip_sync_server.Ldk.{Ldk}
use rapid_gossip_sync_server.Serialization.{mutated_node, full_node, reminder_node}
use rapid_gossip_sync_server.Lookup.{NodeDetails, NodeDelta, default_node, NodeDeltaSet}
use rapid_gossip_sync_server.Lookup.Announcements.{checked_before}
use rapid_gossip_sync_server.Lookup.Reminders.{should_snapshot_include_reminders}
use rapid_gossip_sync_server.Lookup.Updates.{unwrap_read}

-- A row of `node_announcements`.
pub record NodeRow : Type 0 where
  pub seen : ℕ
  pub announcement_signed : List ℕ

module _ (ldk : Ldk) where
  open ldk use {NodeFeatures, NodeId, SocketAddress, node_id_eq, features_eq}

  -- The fields of `UnsignedNodeAnnouncement` that the server reads.
  pub record NodeAnnouncement : Type 0 where
    pub node_id : NodeId
    pub features : NodeFeatures
    pub addresses : List SocketAddress

  -- A node of the network graph that has an `announcement_info`, or none.
  pub record GraphNode : Type 0 where
    pub node_id : NodeId
    pub announcement_info : Option NodeAnnouncement

  -- What the function takes from LDK and from Postgres: the reader of a blob, `==` of addresses, and
  -- the rows as functions of the parameters of the queries.
  pub record NodeSource : Type 0 where
    pub read_node_announcement : List ℕ → Option NodeAnnouncement
    pub socket_address_eq : SocketAddress → SocketAddress → Bool
    pub node_reference_rows : List NodeId → ℕ → List NodeRow
    pub intermediate_node_updates : List NodeId → ℕ → List NodeRow

  -- `delta_set.entry(id).or_insert(NodeDelta::default())`, changed by `f`.
  unfoldable pub entry_node :
      NodeId → (NodeDelta ldk → NodeDelta ldk) → NodeDeltaSet ldk → NodeDeltaSet ldk
  entry_node id f [] = (id, f (default_node ldk)) ∷ []
  entry_node id f ((known, delta) ∷ nodes) =
      if node_id_eq known id
      then (known, f delta) ∷ nodes
      else (known, delta) ∷ entry_node id f nodes

  -- `Some(id) != previous`, negated
  unfoldable pub is_previous : Option NodeId → NodeId → Bool
  is_previous none id = false
  is_previous (some previous) id = node_id_eq previous id

  -- The changes noted for the node that the second loop is at.
  pub record Changes : Type 0 where
    pub has_address_set_changed : Bool
    pub has_feature_set_changed : Bool
    pub latest_mutation_timestamp : Option ℕ

  abbrev pub no_changes : Changes
  no_changes = record {
    has_address_set_changed = false;
    has_feature_set_changed = false;
    latest_mutation_timestamp = none;
  }

  -- `latest_mutation_timestamp = Some(seen)` if it is none.
  unfoldable pub or_set : Option ℕ → ℕ → Option ℕ
  or_set none seen = some seen
  or_set (some t) seen = some t

  module _ (source : NodeSource) where
    open source use {
      read_node_announcement, socket_address_eq, node_reference_rows, intermediate_node_updates,
    }

    unfoldable pub has_address : List SocketAddress → SocketAddress → Bool
    has_address [] address = false
    has_address (known ∷ addresses) address =
        socket_address_eq known address || has_address addresses address

    -- `into_iter().collect()` into a `HashSet`
    unfoldable pub collect : List SocketAddress → List SocketAddress
    collect [] = []
    collect (address ∷ addresses) =
        let rest = collect addresses in if has_address rest address then rest else address ∷ rest

    unfoldable pub is_subset : List SocketAddress → List SocketAddress → Bool
    is_subset [] others = true
    is_subset (address ∷ addresses) others =
        has_address others address && is_subset addresses others

    -- `==` of two `HashSet`s
    unfoldable pub same_addresses : List SocketAddress → List SocketAddress → Bool
    same_addresses one two = is_subset one two && is_subset two one

    unfoldable pub details_of : Option ℕ → NodeAnnouncement → NodeDetails ldk
    details_of seen a = record {
      seen = seen;
      features = a.features;
      addresses = collect a.addresses;
    }

    -- The deltas that the function starts with.
    unfoldable pub graph_deltas : List GraphNode → NodeDeltaSet ldk
    graph_deltas [] = []
    graph_deltas (node ∷ graph) = elim node.announcement_info [
      | none ↦ graph_deltas graph
      | some info ↦
          (
            node.node_id,
            record {
              latest_details = some (details_of none info);
              strategy = none;
              last_details_before_seen = none;
            },
          )
          ∷ graph_deltas graph
    ]

    -- `last_details_before_seen.get_or_insert_with(…)`
    unfoldable pub set_details_before : NodeDetails ldk → NodeDelta ldk → NodeDelta ldk
    set_details_before details d = elim d.last_details_before_seen [
      | some before ↦ d
      | none ↦ record d { last_details_before_seen = some details }
    ]

    unfoldable pub fetch_node_reference_rows :
        List NodeRow → NodeDeltaSet ldk → Result (NodeDeltaSet ldk)
    fetch_node_reference_rows [] nodes = ok nodes
    fetch_node_reference_rows (row ∷ rows) nodes =
        unwrap_read (read_node_announcement row.announcement_signed) >>= (λ a.
          fetch_node_reference_rows rows (
            entry_node a.node_id (set_details_before (details_of (some (row.seen % 2 ^ 32)) a))
              nodes))

    -- `latest_details.as_mut().map(|d| d.seen.replace(seen))`
    unfoldable pub set_latest_seen : ℕ → NodeDelta ldk → NodeDelta ldk
    set_latest_seen seen d = elim d.latest_details [
      | none ↦ d
      | some details ↦ record d { latest_details = some (record details { seen = some seen }) }
    ]

    -- The block that determines the latest mutation timestamp.
    unfoldable pub note_changes : ℕ → NodeAnnouncement → NodeDetails ldk → Changes → Changes
    note_changes seen a before c =
        let addresses_differ = not (same_addresses (collect a.addresses) before.addresses) in
        let features_differ = not (features_eq a.features before.features) in
        record {
          has_address_set_changed = if addresses_differ then true else c.has_address_set_changed;
          has_feature_set_changed = if features_differ then true else c.has_feature_set_changed;
          latest_mutation_timestamp =
              if addresses_differ || features_differ
              then or_set c.latest_mutation_timestamp seen
              else c.latest_mutation_timestamp;
        }

    unfoldable pub note_changes_since : ℕ → NodeAnnouncement → NodeDelta ldk → Changes → Changes
    note_changes_since seen a d c = elim d.last_details_before_seen [
      | none ↦ c
      | some before ↦ note_changes seen a before c
    ]

    -- The parameters of the second loop.
    pub record Thresholds : Type 0 where
      pub last_sync_timestamp : ℕ
      pub include_reminders : Bool
      pub reminder_inclusion_threshold_timestamp : ℕ

    -- The strategy for a node that was seen before, from the changes noted so far.
    unfoldable pub plan_known : Thresholds → ℕ → Changes → NodeDelta ldk → NodeDelta ldk
    plan_known t seen c d =
        if leb t.last_sync_timestamp seen
        then (if c.has_address_set_changed || c.has_feature_set_changed
            then record d {
              strategy = some (
                  mutated_node (record {
                    addresses = c.has_address_set_changed;
                    features = c.has_feature_set_changed;
                  }));
            }
            else d)
        else if t.include_reminders
            && leb (unwrap_or (2 ^ 32 - 1) c.latest_mutation_timestamp)
                t.reminder_inclusion_threshold_timestamp
        then record d { strategy = some reminder_node }
        else d

    unfoldable pub plan : Thresholds → ℕ → Changes → NodeDelta ldk → NodeDelta ldk
    plan t seen c d = elim d.last_details_before_seen [
      | none ↦ record d { strategy = some full_node }
      | some before ↦ plan_known t seen c d
    ]

    -- The variables of the second loop.
    pub record NodeProgress : Type 0 where
      pub nodes : NodeDeltaSet ldk
      pub previous_node_id : Option NodeId
      pub changes : Changes

    unfoldable pub delta_of : NodeDeltaSet ldk → NodeId → NodeDelta ldk
    delta_of [] id = default_node ldk
    delta_of ((known, delta) ∷ nodes) id = if node_id_eq known id then delta else delta_of nodes id

    -- One round, once the row's announcement is read.
    unfoldable pub add_node_update : Thresholds → ℕ → NodeAnnouncement → NodeProgress → NodeProgress
    add_node_update t seen a s =
        let is_same = is_previous s.previous_node_id a.node_id in
        let c = if is_same then s.changes else no_changes in
        let current = delta_of s.nodes a.node_id in
        let current' = if is_same then current else set_latest_seen seen current in
        let c' = note_changes_since seen a current' c in
        record {
          nodes = entry_node a.node_id (λ d. plan t seen c' current') s.nodes;
          previous_node_id = some a.node_id;
          changes = c';
        }

    unfoldable pub fetch_intermediate_node_rows :
        Thresholds → List NodeRow → NodeProgress → Result NodeProgress
    fetch_intermediate_node_rows t [] s = ok s
    fetch_intermediate_node_rows t (row ∷ rows) s =
        unwrap_read (read_node_announcement row.announcement_signed)
        >>= (λ a. fetch_intermediate_node_rows t rows (add_node_update t (row.seen % 2 ^ 32) a s))

    unfoldable pub effective_threshold : Bool → ℕ → ℕ → ℕ
    effective_threshold include_reminders last_sync_timestamp lookup_threshold =
        if include_reminders then min last_sync_timestamp lookup_threshold else last_sync_timestamp

    -- `now` is the system's clock in seconds.
    unfoldable pub fetch_node_updates :
        List GraphNode → ℕ → ℕ → Option ℕ → Result (NodeDeltaSet ldk)
    fetch_node_updates graph now last_sync_timestamp snapshot_reference_timestamp = do
      let graph_nodes = graph_deltas graph
      let node_ids = map (λ e. e.0) graph_nodes
      nodes ←
          fetch_node_reference_rows (node_reference_rows node_ids last_sync_timestamp) graph_nodes
      let current_timestamp = unwrap_or now snapshot_reference_timestamp
      inclusion ← checked_before current_timestamp channel_reminder_age
      lookup ← checked_before current_timestamp prune_interval
      let include_reminders =
          should_snapshot_include_reminders last_sync_timestamp current_timestamp
      let since = effective_threshold include_reminders last_sync_timestamp (lookup % 2 ^ 32)
      s ←
          fetch_intermediate_node_rows
            (record {
              last_sync_timestamp = last_sync_timestamp;
              include_reminders = include_reminders;
              reminder_inclusion_threshold_timestamp = inclusion % 2 ^ 32;
            })
            (intermediate_node_updates node_ids since)
            (record { nodes = nodes; previous_node_id = none; changes = no_changes })
      ok s.nodes
