-- ===== src/Tests/Persisting.antt =====
-- The persister of src/persistence.rs on a few messages.
use rapid_gossip_sync_server.Prelude.{
  ℕ, ◌-◌, List, [], ◌∷◌, ◌++◌, map, Option, none, some, if◌then◌else◌, ◌≡◌, refl, arith,
}
use rapid_gossip_sync_server.Prelude.Casts.{pos, eq_int}
use rapid_gossip_sync_server.Types.{
  GossipMessage, node_announcement, channel_announcement, channel_update,
}
use rapid_gossip_sync_server.Ldk.{FitsUpdate}
use rapid_gossip_sync_server.Persistence.Rows.{
  Reads, ChannelAnnouncementRow, insert_announcement, insert_of, update_row, update_row-Reads,
}
use rapid_gossip_sync_server.Persistence.Tables.{
  Tables, AreUnique, execute, rows_of, or_only, rows_of-execute, insert_new, has_conflict,
}
use rapid_gossip_sync_server.Persistence.Inserts.{
  Graphs, Persister, started, arrives, takes, fails, Steps, done, more, take_message, take_next,
  cache_graph, count_message, spawn_insert, persist_network_graph, fail_insert,
}
use rapid_gossip_sync_server.Persistence.Permits.{IsBalanced, Steps-IsBalanced}
use rapid_gossip_sync_server.Persistence.Drain.{execute_all, drain-IsStored}
use rapid_gossip_sync_server.Tests.{toy_update}
use rapid_gossip_sync_server.Tests.Gossip.{toy_signed}

abbrev read_graph : List ℕ → Option ℕ
read_graph [] = none
read_graph (n ∷ bytes) = some n

abbrev toy_graphs : Graphs
toy_graphs = record {
  Graph = ℕ;
  remove_stale_channels_and_tracking = λ graph. graph - 1;
  write = λ graph. graph ∷ [];
  read = read_graph;
}

abbrev ToyPersister : Type 0
ToyPersister = Persister toy_signed toy_graphs

abbrev no_tables : Tables
no_tables = record { node_announcements = []; channel_announcements = []; channel_updates = [] }

no_tables-AreUnique : AreUnique no_tables
no_tables-AreUnique = record { announcements = tt; updates = tt }

abbrev before : ToyPersister
before = started toy_signed toy_graphs 1000 9 none no_tables

-- A message arrives and is taken, and its insert times out.
abbrev message : GossipMessage toy_signed
message = channel_announcement 5 500 none

abbrev queued : ToyPersister
queued = record before { queue = message ∷ [] }

abbrev taken : ToyPersister
taken = record before {
  i = 1;
  latest_persistence_log = 1700;
  latest_graph_cache_time = 1700;
  permits = 15;
  running = insert_of toy_signed message ∷ [];
  network_graph = 8;
  graph_file = some (8 ∷ []);
}

abbrev timed_out : ToyPersister
timed_out = record taken { running = []; lost = 1 }

is_taken : take_message toy_signed toy_graphs 1700 queued ≡ some taken
unfolding take_message take_next cache_graph count_message spawn_insert persist_network_graph
is_taken = refl

before-Steps : Steps toy_signed toy_graphs before timed_out
unfolding fail_insert
before-Steps =
    more (more (more done (arrives before message)) (takes queued taken 1700 is_taken))
      (fails taken [] [] (insert_of toy_signed message) refl)

Steps-IsBalanced_example : IsBalanced toy_signed toy_graphs timed_out
Steps-IsBalanced_example =
    Steps-IsBalanced toy_signed toy_graphs 1000 9 none no_tables timed_out no_tables-AreUnique
      before-Steps

abbrev all_lost : ToyPersister
all_lost = record before { permits = 0; lost = 16 }

abbrev unheard : ToyPersister
unheard = record all_lost { queue = message ∷ [] }

abbrev busy : ToyPersister
busy = record before {
  queue = message ∷ node_announcement 7 none ∷ channel_update 5 none ∷ [];
  permits = 12;
  running = insert_of toy_signed message ∷ [];
  lost = 3;
}

busy-IsBalanced : IsBalanced toy_signed toy_graphs busy
busy-IsBalanced = record {
  permits_total = refl;
  connections_bounded = omega arith;
  unique = no_tables-AreUnique;
}

drain-IsStored_example :
    (q : ToyPersister) × Steps toy_signed toy_graphs busy q
    × (q.queue ≡ [])
    × (q.running ≡ [])
    × (q.lost ≡ 3)
    × (q.tables ≡ execute_all (busy.running ++ map (insert_of toy_signed) busy.queue) no_tables)
drain-IsStored_example =
    drain-IsStored toy_signed toy_graphs 2000 busy busy-IsBalanced refl (omega arith)

toy_update-Fits : FitsUpdate (toy_update 5 3 4000000000)
toy_update-Fits = record {
  scid_fits = omega arith;
  cltv_fits = omega arith;
  htlc_min_fits = omega arith;
  base_fits = omega arith;
  prop_fits = omega arith;
  htlc_max_fits = omega arith;
}

update_row-Reads_example :
    Reads (update_row (toy_update 5 3 4000000000) (1 ∷ [])) (toy_update 5 3 4000000000)
update_row-Reads_example =
    update_row-Reads (toy_update 5 3 4000000000) (1 ∷ []) toy_update-Fits (omega arith)
      (omega arith)

abbrev five : ChannelAnnouncementRow
five = record {
  short_channel_id = pos 5;
  funding_amount_sats = pos 500;
  announcement_signed = 5 ∷ [];
}

abbrev other_five : ChannelAnnouncementRow
other_five = record five { funding_amount_sats = pos 700 }

abbrev known_five : Tables
known_five = record no_tables { channel_announcements = five ∷ [] }

-- A second row for the channel is left out.
rows_of-execute_example :
    rows_of (pos 5) (execute known_five (insert_announcement other_five)).channel_announcements ≡ (
      if eq_int (pos 5) (pos 5)
      then or_only (rows_of (pos 5) (five ∷ [])) other_five
      else rows_of (pos 5) (five ∷ []))
rows_of-execute_example = rows_of-execute known_five other_five (pos 5)

keeps_five :
    rows_of (pos 5) (execute known_five (insert_announcement other_five)).channel_announcements
    ≡ five ∷ []
unfolding rows_of execute insert_new has_conflict
keeps_five = refl
