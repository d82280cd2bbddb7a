-- ===== src/Tests/Queries.antt =====
-- The theorems on what is calculated from the database, at concrete rows.
use rapid_gossip_sync_server.Prelude.{
  ℕ, ◌<◌, ◌+◌, ◌*◌, ◌%◌, List, [], ◌∷◌, map, Option, none, some, Bool, true, false, All, ok, ◌==◌,
  ◌≡◌, ◌↔◌, ◌⊎◌, refl, arith,
}
use rapid_gossip_sync_server.Prelude.Maps.{get, IsAscending}
use rapid_gossip_sync_server.Lookup.{
  ChannelDelta, DeltaSet, NodeDetails, NodeDelta, NodeDeltaSet, default_channel,
}
use rapid_gossip_sync_server.Lookup.Keyed.{IsAnnounced}
use rapid_gossip_sync_server.Lookup.Reminders.{
  should_snapshot_include_reminders, should_snapshot_include_reminders_iff,
}
use rapid_gossip_sync_server.Lookup.Updates.{UpdateRow, fetch_channel_updates}
use rapid_gossip_sync_server.Lookup.UpdateLaws.{IsReadable, Holds, fetch_channel_updates-Holds}
use rapid_gossip_sync_server.Lookup.Marks.{IsMarked, IsFresh}
use rapid_gossip_sync_server.Lookup.Announcements.{Database, fetch_channel_announcements}
use rapid_gossip_sync_server.Lookup.AnnouncementLaws.{
  IsReadableDatabase, fetch_channel_announcements-Holds,
}
use rapid_gossip_sync_server.Lookup.Nodes.{NodeAnnouncement, NodeSource, fetch_node_updates}
use rapid_gossip_sync_server.Lookup.NodeLaws.{
  ArePlanned, IsReadableSource, fetch_node_updates-ArePlanned,
}
use rapid_gossip_sync_server.Lookup.Filter.{filter_delta_set, if_sent, filter_delta_set_lem}
use rapid_gossip_sync_server.Serialization.{
  NodeSerializationStrategy, full_node, mutated_node, reminder_node, no_mutations,
}
use rapid_gossip_sync_server.Serialization.DeltaSet.{
  ChannelAnnouncement, SerializationSet, serialize_channels, serialize_node, serialize_nodes,
}
use rapid_gossip_sync_server.Serialization.Categorize.{Progress}
use rapid_gossip_sync_server.Serialization.NoPanic.{StateUpTo, serialize_channels-StateUpTo}
use rapid_gossip_sync_server.Serialization.NodeSelection.{IsSent, serialize_nodes-IsSent}
use rapid_gossip_sync_server.Server.CalculateDelta.{
  Graph, IsOrdered, calculate_delta, calculate_delta-IsOrdered,
}
use rapid_gossip_sync_server.Tests.{toy, as_listed, toy_update}
use rapid_gossip_sync_server.Tests.Updates.{no_progress}

abbrev row : ℕ → Bool → ℕ → ℕ → UpdateRow
row id direction seen base = record {
  id = id;
  direction = direction;
  seen = seen;
  blob_signed = 5 ∷ 0 ∷ 40 ∷ 1 ∷ base ∷ 10 ∷ 1000 ∷ [];
}

abbrev reference_rows : List UpdateRow
reference_rows = row 1 false 100 1000 ∷ row 2 true 110 1000 ∷ []

abbrev intermediate_rows : List UpdateRow
intermediate_rows = row 3 false 2000000 3000 ∷ row 4 false 1900000 2000 ∷ []

reference_rows-IsReadable : All (IsReadable toy) reference_rows
reference_rows-IsReadable = ((λ e. cc), ((λ e. cc), tt))

intermediate_rows-IsReadable : All (IsReadable toy) intermediate_rows
intermediate_rows-IsReadable = ((λ e. cc), ((λ e. cc), tt))

abbrev pub toy_database : Database
toy_database = record {
  announcement_rows = λ ids. record { announcement_signed = 5 ∷ 11 ∷ 12 ∷ []; seen = 90 } ∷ [];
  newer_oldest_directional_updates = λ ids t. record { short_channel_id = 5; seen = 110 } ∷ [];
  mutated_updates = λ ids t. intermediate_rows;
  reference_rows = λ t. reference_rows;
  intermediate_updates = λ t. intermediate_rows;
}

pub toy_database-IsReadable : IsReadableDatabase toy toy_database
toy_database-IsReadable = record {
  announcements_readable = λ ids. ((λ e. cc), tt);
  mutated_readable = λ ids t. intermediate_rows-IsReadable;
  reference_readable = λ t. reference_rows-IsReadable;
  intermediate_readable = λ t. intermediate_rows-IsReadable;
}

abbrev read_node_blob : List ℕ → Option (NodeAnnouncement toy)
read_node_blob (id ∷ features ∷ addresses) =
    some (record { node_id = id; features = features; addresses = addresses })
read_node_blob _ = none

abbrev toy_node : ℕ → NodeAnnouncement toy
toy_node features = record { node_id = 11; features = features; addresses = 7 ∷ 8 ∷ [] }

abbrev pub toy_source : NodeSource toy
toy_source = record {
  read_node_announcement = read_node_blob;
  socket_address_eq = ◌==◌;
  node_reference_rows = λ ids t. record { seen = 100; announcement_signed = 11 ∷ 1 ∷ 7 ∷ [] } ∷ [];
  intermediate_node_updates =
      λ ids t. record { seen = 1900000; announcement_signed = 11 ∷ 2 ∷ 7 ∷ 8 ∷ [] } ∷ [];
}

pub toy_source-IsReadable : IsReadableSource toy toy_source
toy_source-IsReadable = record {
  reference_readable = λ ids t. ((λ e. cc), tt);
  intermediate_readable = λ ids t. ((λ e. cc), tt);
}

abbrev pub toy_graph : Graph toy
toy_graph = record {
  channels =
      (5, record { announcement_message = some 5; one_to_two = some true; two_to_one = some false })
      ∷ [];
  nodes = record { node_id = 11; announcement_info = some (toy_node 2) } ∷ [];
}

calculate_delta-IsOrdered_example :
    (details : SerializationSet toy) × (calculate_delta toy as_listed
        (λ graph. graph)
        toy_database
        toy_source
        1
        2100000
        toy_graph
        1800000
        (some 2090000)
      ≡ ok details)
    × IsOrdered toy details
calculate_delta-IsOrdered_example =
    calculate_delta-IsOrdered toy as_listed (λ graph. graph) toy_database toy_source 1 2100000
      toy_graph 1800000 (some 2090000) toy_database-IsReadable toy_source-IsReadable (omega arith)
      (omega arith)

fetch_channel_announcements-Holds_example :
    (fetched : DeltaSet toy) × (fetch_channel_announcements toy toy_database toy_graph.channels
        2100000 1800000
        (some 2090000)
        []
      ≡ ok fetched)
    × Holds toy IsFresh fetched
fetch_channel_announcements-Holds_example =
    fetch_channel_announcements-Holds toy toy_database toy_graph.channels toy_database-IsReadable
      2100000 1800000 (some 2090000) (omega arith)

fetch_channel_updates-Holds_example :
    (fetched : DeltaSet toy) × (fetch_channel_updates toy reference_rows intermediate_rows []
      ≡ ok fetched)
    × Holds toy IsMarked fetched
fetch_channel_updates-Holds_example =
    fetch_channel_updates-Holds toy reference_rows intermediate_rows [] reference_rows-IsReadable
      intermediate_rows-IsReadable (record { ascending = tt; each = tt })

fetch_node_updates-ArePlanned_example :
    (nodes : NodeDeltaSet toy) × (fetch_node_updates toy toy_source toy_graph.nodes 2100000 1800000
        none
      ≡ ok nodes)
    × ArePlanned toy nodes
fetch_node_updates-ArePlanned_example =
    fetch_node_updates-ArePlanned toy toy_source toy_graph.nodes 2100000 1800000 none
      toy_source-IsReadable (omega arith)

abbrev details_seen : ℕ → NodeDetails toy
details_seen seen = record { seen = some seen; features = 1; addresses = 7 ∷ [] }

abbrev node_known : Option NodeSerializationStrategy → Option (NodeDetails toy) → NodeDelta toy
node_known strategy before = record {
  latest_details = some (details_seen 95);
  strategy = strategy;
  last_details_before_seen = before;
}

abbrev address_change : NodeSerializationStrategy
address_change = mutated_node (record { addresses = true; features = false })

-- Node 11 is new to the client and node 15 has no strategy. The details of node 12 are older than
-- the threshold 50, those of the nodes 13 and 14 are not.
abbrev planned_nodes : NodeDeltaSet toy
planned_nodes =
    (11, node_known (some full_node) none)
    ∷ (12, node_known (some address_change) (some (details_seen 40)))
    ∷ (13, node_known (some address_change) (some (details_seen 90)))
    ∷ (14, node_known (some reminder_node) (some (details_seen 80)))
    ∷ (15, node_known none (some (details_seen 40)))
    ∷ []

planned_nodes-ArePlanned : ArePlanned toy planned_nodes
planned_nodes-ArePlanned = (
  record { suits = refl },
  (
    record { suits = ((λ e. cc), refl) },
    (
      record { suits = ((λ e. cc), refl) },
      (record { suits = λ e. cc }, (record { suits = tt }, tt)),
    ),
  ),
)

abbrev sent_nodes : NodeDeltaSet toy
sent_nodes =
    (12, node_known (some full_node) (some (details_seen 40)))
    ∷ (13, node_known (some address_change) (some (details_seen 90)))
    ∷ (14, node_known (some reminder_node) (some (details_seen 80)))
    ∷ []

-- Node 12 becomes a full one; the new node and the one without a strategy are left out.
serialize_planned : serialize_nodes toy 50 planned_nodes ≡ sent_nodes
unfolding serialize_nodes serialize_node
serialize_planned = refl

serialize_nodes-IsSent_example :
    All (λ e. IsSent toy 50 e.1) (serialize_nodes toy 50 planned_nodes)
    × (map (λ e. e.0) (serialize_nodes toy 50 planned_nodes) ≡ 12 ∷ 13 ∷ 14 ∷ [])
serialize_nodes-IsSent_example =
    serialize_nodes-IsSent toy 50 planned_nodes planned_nodes-ArePlanned

abbrev toy_channel : ChannelDelta toy
toy_channel = record (default_channel toy) {
  announcement = some (record {
    seen = 90;
    announcement = record { features = 0; short_channel_id = 5; node_id_1 = 11; node_id_2 = 12 };
  });
  updates_a = some (record {
    last_update_before_seen = none;
    latest_update_after_seen = some (record { seen = 100; update = toy_update 5 0 1000 });
    mutated_properties = no_mutations;
    serialization_update_flags = none;
  });
}

abbrev toy_set : DeltaSet toy
toy_set = (5, toy_channel) ∷ (6, default_channel toy) ∷ []

filter_delta_set_example :
    (left : DeltaSet toy) × (filter_delta_set toy toy_set ≡ ok left)
    × IsAscending left
    × All (IsAnnounced toy) left
    × ((k : ℕ) → get k left ≡ if_sent toy (get k toy_set))
filter_delta_set_example = filter_delta_set_lem toy toy_set ((omega arith, tt), (tt, tt))

serialize_channels-StateUpTo_example :
    (last : ℕ) × (state : List (ChannelAnnouncement toy) × Progress) × (serialize_channels toy 80 50
        ((5, toy_channel) ∷ [])
        ([], no_progress)
      ≡ ok state)
    × StateUpTo toy last state
serialize_channels-StateUpTo_example =
    serialize_channels-StateUpTo toy 80 50 ((5, toy_channel) ∷ []) 0 ([], no_progress) (tt, tt)
      (omega arith, tt) ((λ e. cc), tt)
      (
        record {
          announcement_keyed = refl;
          a_keyed = record { before_keyed = tt; latest_keyed = refl };
          b_keyed = tt;
        },
        tt,
      )
      (record {
        announcements_sorted = tt;
        announcements_below = tt;
        progress = record { sorted = tt; below = tt };
      })

should_snapshot_include_reminders_example :
    (should_snapshot_include_reminders 1700000000 1700352000 ≡ true)
    ↔ ((1700352000 % (5 * 24 * 3600) < 3600) ⊎ (1700000000 + 50 * 3600 < 1700352000))
should_snapshot_include_reminders_example =
    should_snapshot_include_reminders_iff 1700000000 1700352000
