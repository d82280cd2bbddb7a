-- ===== src/Persistence/Inserts.antt =====
-- `persist_gossip` of src/persistence.rs: the loop over the messages, and the tasks that it
-- spawns, as steps on a shared state.
use rapid_gossip_sync_server.Prelude.{
  ℕ, zero, suc, ◌+◌, ◌-◌, ◌%◌, ◌^◌, List, [], ◌∷◌, ◌++◌, Option, none, some, Bool, true, false, leb,
  if◌then◌else◌, ◌≡◌,
}
use rapid_gossip_sync_server.Types.{SignedMessages, GossipMessage}
use rapid_gossip_sync_server.Persistence.{insert_paralellism}
use rapid_gossip_sync_server.Persistence.Rows.{Insert, insert_of}
use rapid_gossip_sync_server.Persistence.Tables.{Tables, execute}

-- What is used of `NetworkGraph`: `none` is an error of `read`.
pub record Graphs : Type 1 where
  pub Graph : Type 0
  pub remove_stale_channels_and_tracking : Graph → Graph
  pub write : Graph → List ℕ
  pub read : List ℕ → Option Graph

module _ (signed : SignedMessages) (graphs : Graphs) where
  open graphs use {Graph, remove_stale_channels_and_tracking, write}

  -- The channel's queue; the local variables of the loop, with times in seconds; the permits of
  -- `insert_limiter`, the number of connections in `connections_cache`, the statements of the
  -- tasks that run; how many permits were never given back; the graph and its cache file; and the
  -- tables.
  pub record Persister : Type 0 where
    pub queue : List (GossipMessage signed)
    pub is_alive : Bool
    pub i : ℕ
    pub latest_persistence_log : ℕ
    pub latest_graph_cache_time : ℕ
    pub permits : ℕ
    pub connections : ℕ
    pub running : List Insert
    pub lost : ℕ
    pub network_graph : Graph
    pub graph_file : Option (List ℕ)
    pub tables : Tables

  -- The state that the loop starts in, at the time `now`.
  abbrev pub started : ℕ → Graph → Option (List ℕ) → Tables → Persister
  started now graph file tables = record {
    queue = [];
    is_alive = true;
    i = 0;
    latest_persistence_log = now - 60;
    latest_graph_cache_time = now;
    permits = insert_paralellism;
    connections = 0;
    running = [];
    lost = 0;
    network_graph = graph;
    graph_file = file;
    tables = tables;
  }

  -- The file is truncated and written anew.
  unfoldable pub persist_network_graph : Persister → Persister
  persist_network_graph p =
      let graph = remove_stale_channels_and_tracking p.network_graph in
      record p { network_graph = graph; graph_file = some (write graph) }

  unfoldable pub count_message : ℕ → Persister → Persister
  count_message now p = record p {
    i = (p.i + 1) % 2 ^ 32;
    latest_persistence_log =
        if leb 60 (now - p.latest_persistence_log) then now else p.latest_persistence_log;
  }

  -- Every ten minutes.
  unfoldable pub cache_graph : ℕ → Persister → Persister
  cache_graph now p =
      if leb 600 (now - p.latest_graph_cache_time)
      then record (persist_network_graph p) { latest_graph_cache_time = now }
      else p

  -- A connection is taken from the cache, or a new one is made.
  unfoldable pub spawn_insert : GossipMessage signed → Persister → Persister
  spawn_insert gossip_message p = record p {
    connections = p.connections - 1;
    running = insert_of signed gossip_message ∷ p.running;
  }

  -- By whether the loop is alive, its queue and its permits.
  unfoldable pub take_next :
      ℕ → Bool → List (GossipMessage signed) → ℕ → Persister → Option Persister
  take_next now false queue permits p = none
  take_next now true [] permits p = none
  take_next now true (gossip_message ∷ queue) zero p = none
  take_next now true (gossip_message ∷ queue) (suc permits) p =
      let noted = cache_graph now (count_message now p) in
      some (spawn_insert gossip_message (record noted { queue = queue; permits = permits }))

  -- One round of the loop at the time `now`; `none` if the loop waits for a message or for a
  -- permit, or has died. A message that the loop holds while it waits for a permit counts as
  -- queued.
  unfoldable pub take_message : ℕ → Persister → Option Persister
  take_message now p = take_next now p.is_alive p.queue p.permits p

  -- The connection goes to the cache, and the permit is given back.
  unfoldable pub finish_insert : Insert → List Insert → Persister → Persister
  finish_insert statement others p = record p {
    tables = execute p.tables statement;
    running = others;
    connections = p.connections + 1;
    permits = p.permits + 1;
  }

  -- The task panics: the connection is dropped, and the permit was forgotten.
  unfoldable pub fail_insert : List Insert → Persister → Persister
  fail_insert others p = record p { running = others; lost = p.lost + 1 }

  -- `connect_to_db` panics in the loop, which has a permit and has taken a message.
  unfoldable pub fail_to_connect : ℕ → List (GossipMessage signed) → Persister → Persister
  fail_to_connect permits queue p = record p {
    is_alive = false;
    permits = permits;
    queue = queue;
    lost = p.lost + 1;
  }

  pub data Step : Persister → Persister → Type 0 where
    arrives :
        (p : Persister) (message : GossipMessage signed)
        → Step p (record p { queue = p.queue ++ (message ∷ []) })
    takes : (p q : Persister) (now : ℕ) → take_message now p ≡ some q → Step p q
    stores :
        (p : Persister) (before after : List Insert) (statement : Insert)
        → p.running ≡ before ++ (statement ∷ after)
        → Step p (finish_insert statement (before ++ after) p)
    fails :
        (p : Persister) (before after : List Insert) (statement : Insert)
        → p.running ≡ before ++ (statement ∷ after)
        → Step p (fail_insert (before ++ after) p)
    disconnects :
        (p : Persister) (message : GossipMessage signed) (queue : List (GossipMessage signed))
        (permits : ℕ)
        → p.is_alive ≡ true
        → p.queue ≡ message ∷ queue
        → p.permits ≡ suc permits
        → p.connections ≡ 0
        → Step p (fail_to_connect permits queue p)
    graph_changes : (p : Persister) (graph : Graph) → Step p (record p { network_graph = graph })

  pub data Steps (p : Persister) : Persister → Type 0 where
    done : Steps p p
    more : {q r : Persister} → Steps p q → Step q r → Steps p r
