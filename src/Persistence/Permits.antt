-- ===== src/Persistence/Permits.antt =====
-- The permits and connections of `persist_gossip` in src/persistence.rs.
use rapid_gossip_sync_server.Prelude.{
  ℕ, zero, suc, ◌+◌, ◌-◌, ◌≤◌, List, [], ◌∷◌, ◌++◌, length, length-append, Option, some, Bool, true,
  false, Bool-cases, inl, inr, leb, ◌≡◌, refl, ap, ◌∙◌, arith,
}
use rapid_gossip_sync_server.Types.{SignedMessages, GossipMessage}
use rapid_gossip_sync_server.Persistence.{insert_paralellism}
use rapid_gossip_sync_server.Persistence.Rows.{Insert, insert_of}
use rapid_gossip_sync_server.Persistence.Tables.{Tables, AreUnique, execute-AreUnique}
use rapid_gossip_sync_server.Persistence.Inserts.{
  Graphs, Persister, started, persist_network_graph, count_message, cache_graph, spawn_insert,
  take_next, take_message, finish_insert, fail_insert, fail_to_connect, Step, arrives, takes,
  stores, fails, disconnects, graph_changes, Steps, done, more,
}

module _ (signed : SignedMessages) (graphs : Graphs) where
  abbrev P : Type 0
  P = Persister signed graphs

  some-inj : {a b : P} → some a ≡ some b → a ≡ b
  some-inj e = cc

  -- What one round of the loop does.
  pub record Takes (p q : P) : Type 0 where
    pub message : GossipMessage signed
    pub queued : p.queue ≡ message ∷ q.queue
    pub permitted : p.permits ≡ suc q.permits
    pub runs : q.running ≡ insert_of signed message ∷ p.running
    pub connected : q.connections ≡ p.connections - 1
    pub lost_kept : q.lost ≡ p.lost
    pub alive : p.is_alive ≡ true
    pub alive_kept : q.is_alive ≡ true
    pub tables_kept : q.tables ≡ p.tables

  cache_graph-keep :
      (now : ℕ) (p : P)
      → let q = cache_graph signed graphs now p in
        (q.queue ≡ p.queue)
        × (q.running ≡ p.running)
        × (q.connections ≡ p.connections)
        × (q.lost ≡ p.lost)
        × (q.is_alive ≡ p.is_alive)
        × (q.tables ≡ p.tables)
  unfolding cache_graph persist_network_graph
  cache_graph-keep now p = elim (Bool-cases (leb 600 (now - p.latest_graph_cache_time))) [
    | inl due ↦ rw (cache_graph, due) (refl, refl, refl, refl, refl, refl)
    | inr early ↦ rw (cache_graph, early) (refl, refl, refl, refl, refl, refl)
  ]

  take_next-Takes :
      (now : ℕ) (alive : Bool) (queue : List (GossipMessage signed)) (permits : ℕ) (p q : P)
      → p.is_alive ≡ alive
      → p.queue ≡ queue
      → p.permits ≡ permits
      → take_next signed graphs now alive queue permits p ≡ some q
      → Takes p q
  unfolding take_next spawn_insert count_message
  take_next-Takes now false queue permits p q a b c e = cc
  take_next-Takes now true [] permits p q a b c e = cc
  take_next-Takes now true (m ∷ queue) zero p q a b c e = cc
  take_next-Takes now true (m ∷ queue) (suc permits) p q a b c e =
      let noted = cache_graph signed graphs now (count_message signed graphs now p) in
      let (d, r, k, l, v, t) = cache_graph-keep now (count_message signed graphs now p) in
      let next = spawn_insert signed graphs m (record noted { queue = queue; permits = permits }) in
      let same : next ≡ q = some-inj e in
      rw (← same) record {
        message = m;
        queued = b;
        permitted = c;
        runs = ap (λ (rows : List Insert). insert_of signed m ∷ rows) r;
        connected = ap (λ (n : ℕ). n - 1) k;
        lost_kept = l;
        alive = a;
        alive_kept = v ∙ a;
        tables_kept = t;
      }

  pub take_message-Takes :
      (now : ℕ) (p q : P) → take_message signed graphs now p ≡ some q → Takes p q
  unfolding take_message
  take_message-Takes now p q e =
      take_next-Takes now p.is_alive p.queue p.permits p q refl refl refl e

  -- Every permit is free, with a task, or lost, and there are no more connections than permits.
  pub record IsBalanced (p : P) : Type 0 where
    pub permits_total : p.permits + length p.running + p.lost ≡ insert_paralellism
    pub connections_bounded : p.connections + length p.running ≤ insert_paralellism
    pub unique : AreUnique p.tables

  length-remove :
      (before after : List Insert) (statement : Insert)
      → length (before ++ (statement ∷ after)) ≡ suc (length (before ++ after))
  length-remove before after statement =
      omega (arith, length-append before (statement ∷ after), length-append before after)

  Step-IsBalanced : {p q : P} → Step signed graphs p q → IsBalanced p → IsBalanced q
  unfolding finish_insert fail_insert fail_to_connect
  Step-IsBalanced (arrives p message) h = record {
    permits_total = h.permits_total;
    connections_bounded = h.connections_bounded;
    unique = h.unique;
  }
  Step-IsBalanced (takes p q now e) h =
      let t = take_message-Takes now p q e in
      let longer = ap (λ (rows : List Insert). length rows) t.runs in
      record {
        permits_total = omega (arith, h.permits_total, t.permitted, t.lost_kept, longer);
        connections_bounded =
            omega (arith, h.permits_total, h.connections_bounded, t.permitted, t.connected, longer);
        unique = rw t.tables_kept h.unique;
      }
  Step-IsBalanced (stores p before after statement e) h =
      let shorter =
        ap (λ (rows : List Insert). length rows) e ∙ length-remove before after statement in
      record {
        permits_total = omega (arith, h.permits_total, shorter);
        connections_bounded = omega (arith, h.connections_bounded, shorter);
        unique = execute-AreUnique p.tables statement h.unique;
      }
  Step-IsBalanced (fails p before after statement e) h =
      let shorter =
        ap (λ (rows : List Insert). length rows) e ∙ length-remove before after statement in
      record {
        permits_total = omega (arith, h.permits_total, shorter);
        connections_bounded = omega (arith, h.connections_bounded, shorter);
        unique = h.unique;
      }
  Step-IsBalanced (disconnects p message queue permits a b c d) h = record {
    permits_total = omega (arith, h.permits_total, c);
    connections_bounded = h.connections_bounded;
    unique = h.unique;
  }
  Step-IsBalanced (graph_changes p graph) h = record {
    permits_total = h.permits_total;
    connections_bounded = h.connections_bounded;
    unique = h.unique;
  }

  pub Steps-keep : {p q : P} → Steps signed graphs p q → IsBalanced p → IsBalanced q
  Steps-keep done h = h
  Steps-keep (more steps step) h = Step-IsBalanced step (Steps-keep steps h)

  -- However messages arrive, tasks end and the graph changes: of the 16 permits each is free, held
  -- by one running insert, or lost for good with a failed one; the running inserts and the cached
  -- connections are at most 16 together; and no two rows have the same key, if that was so at
  -- first.
  pub Steps-IsBalanced :
      (now : ℕ) (graph : graphs.Graph) (file : Option (List ℕ)) (tables : Tables) (q : P)
      → AreUnique tables
      → Steps signed graphs (started signed graphs now graph file tables) q
      → IsBalanced q
  Steps-IsBalanced now graph file tables q unique steps =
      Steps-keep steps
        (record { permits_total = refl; connections_bounded = omega arith; unique = unique })

  -- Nothing runs and nothing can: no permit is left.
  abbrev pub IsStuck : P → Type 0
  IsStuck p = (p.permits ≡ 0) × (p.running ≡ [])

  -- What is queued only grows, and the tables stay.
  abbrev pub Stalls : P → P → Type 0
  Stalls p q =
      IsStuck q
      × (q.tables ≡ p.tables)
      × (arrived : List (GossipMessage signed)) × (q.queue ≡ p.queue ++ arrived)
