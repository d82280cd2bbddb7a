-- ===== src/Startup.antt =====
-- The start of the server in src/lib.rs, and of the database in src/persistence.rs.
pub mod Laws
use rapid_gossip_sync_server.Prelude.{
  ℕ, List, [], ◌∷◌, ◌++◌, Option, none, some, Result, ok, panic, ◌>>=◌,
}
use Prim.Native.String.{String}
use rapid_gossip_sync_server.Config.Queries.{
  db_config_table_creation_query, db_announcement_table_creation_query,
  db_channel_update_table_creation_query, db_node_announcement_table_creation_query,
  db_index_creation_query,
}
use rapid_gossip_sync_server.Config.Upgrade.{upgrade_db}
use rapid_gossip_sync_server.Types.{
  SignedMessages, GossipMessage, channel_announcement, channel_update,
}
use rapid_gossip_sync_server.Persistence.Inserts.{Graphs}

-- `RapidSyncProcessor::new`, over the content of the cache file, if it can be opened.
unfoldable pub initial_graph : (graphs : Graphs) → graphs.Graph → Option (List ℕ) → graphs.Graph
initial_graph graphs fresh none = fresh
initial_graph graphs fresh (some file) = elim (graphs.read file) [
  | some network_graph ↦ network_graph
  | none ↦ fresh
]

abbrev insert_config : String
insert_config = "INSERT INTO config (id, db_schema) VALUES ($1, $2) ON CONFLICT (id) DO NOTHING"

abbrev table_creation_queries : List String
table_creation_queries =
    db_announcement_table_creation_query ∷ db_channel_update_table_creation_query
    ∷ db_channel_update_table_creation_query ∷ db_node_announcement_table_creation_query ∷ []

-- What `GossipPersister::new` does after the upgrade.
abbrev preparation : List String
preparation =
    ("set time zone UTC" ∷ insert_config ∷ [])
    ++ table_creation_queries
    ++ (db_index_creation_query ∷ [])

-- The statements that `GossipPersister::new` executes beside the transactions of the upgrade,
-- given the schema that `config` holds, if it has a row; each is taken to succeed.
unfoldable pub initialize : Option ℕ → Result (List String)
initialize none = ok (db_config_table_creation_query ∷ preparation)
initialize (some cur_schema) = do
  settings ← (upgrade_db cur_schema).outcome
  ok ((db_config_table_creation_query ∷ settings) ++ preparation)

-- A channel of the graph, with the last message of each direction that the graph knows.
pub record CachedChannel (signed : SignedMessages) : Type 0 where
  pub announcement_message : Option signed.ChannelAnnouncement
  pub capacity_sats : Option ℕ
  pub one_to_two : Option (Option signed.ChannelUpdate)
  pub two_to_one : Option (Option signed.ChannelUpdate)

module _ (signed : SignedMessages) where
  unfoldable pub announced : CachedChannel signed → List (GossipMessage signed)
  announced chan = elim chan.announcement_message [
    | none ↦ []
    | some announcement ↦ elim chan.capacity_sats [
      | none ↦ []
      | some funding ↦ channel_announcement announcement funding none ∷ []
    ]
  ]

  -- `as_ref().map(|i| i.last_update_message.as_ref()).flatten()`
  unfoldable pub updated : Option (Option signed.ChannelUpdate) → List (GossipMessage signed)
  updated (some (some update)) = channel_update update none ∷ []
  updated (some none) = []
  updated none = []

  -- What `start_sync` sends to the persister before the download starts.
  unfoldable pub backfill : List (CachedChannel signed) → List (GossipMessage signed)
  backfill [] = []
  backfill (chan ∷ channels) =
      announced chan ++ updated chan.one_to_two ++ updated chan.two_to_one ++ backfill channels
