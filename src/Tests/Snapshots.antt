-- ===== src/Tests/Snapshots.antt =====
-- The theorems on whole snapshots, and on which snapshot a client gets, at concrete inputs.
use rapid_gossip_sync_server.Prelude.{
  none, Result, ℕ, List, [], ◌∷◌, ◌++◌, map, some, ok, All, length, ◌≡◌, refl, arith,
}
use rapid_gossip_sync_server.Ldk.{UnsignedChannelAnnouncement}
use rapid_gossip_sync_server.Serialization.{scid}
use rapid_gossip_sync_server.Serialization.DeltaSet.{SerializationSet}
use rapid_gossip_sync_server.Serialization.ReadUpdate.{meaning}
use rapid_gossip_sync_server.Server.{SerializedResponse}
use rapid_gossip_sync_server.Server.NodeIndex.{NodeIndex, no_nodes}
use rapid_gossip_sync_server.Server.IndexLaws.{Numbers, get_node_id_index_lem, no_nodes-IsIndexed}
use rapid_gossip_sync_server.Server.AnnouncementStream.{Announces, serialize_announcements_lem}
use rapid_gossip_sync_server.Server.SerializeDelta.{serialize_delta, serialized_seen}
use rapid_gossip_sync_server.Server.ReadSnapshot.{Snapshot, read_snapshot}
use rapid_gossip_sync_server.Server.SnapshotRoundTrip.{
  IsSerializable, read_snapshot-serialize_delta,
}
use rapid_gossip_sync_server.Snapshot.{snapshot_scopes, symlink_count, symlinks, Symlink, u64_max}
use rapid_gossip_sync_server.Snapshot.Scopes.{AreScopes, snapshot_scopes_lem}
use rapid_gossip_sync_server.Snapshot.Symlinks.{Covers, symlinks-Covers}
use rapid_gossip_sync_server.Snapshot.Files.{Version, v1, v2, Directories, generate_at, request}
use rapid_gossip_sync_server.Snapshot.Requests.{IsTotal, LeadsTo, generate_at-LeadsTo}
use rapid_gossip_sync_server.Tests.{toy, as_listed, toy_defaults}
use rapid_gossip_sync_server.Tests.Updates.{three_updates, three_fit}

abbrev toy_announcement : ℕ → ℕ → ℕ → UnsignedChannelAnnouncement ℕ ℕ
toy_announcement id one two = record {
  features = 0;
  short_channel_id = id;
  node_id_1 = one;
  node_id_2 = two;
}

abbrev two_announcements : List (UnsignedChannelAnnouncement ℕ ℕ)
two_announcements = toy_announcement 5 11 12 ∷ toy_announcement 9 12 13 ∷ []

abbrev pub toy_details : SerializationSet toy
toy_details = record {
  announcements = two_announcements;
  updates = three_updates;
  full_update_defaults = toy_defaults;
  node_announcement_feature_defaults = [];
  node_mutations = [];
  latest_seen = 1700000000;
  chain_hash = 1;
}

pub toy_details-IsSerializable : IsSerializable toy toy_details
unfolding scid
toy_details-IsSerializable = record {
  announcements_sorted = (omega arith, (omega arith, tt));
  announcements_fit = (omega arith, (omega arith, tt));
  few_announcements = omega arith;
  updates_sorted = (omega arith, (omega arith, (omega arith, tt)));
  updates_fit = three_fit;
  few_updates = omega arith;
  defaults_fit = record {
    cltv_fits = omega arith;
    htlc_min_fits = omega arith;
    base_fits = omega arith;
    prop_fits = omega arith;
    htlc_max_fits = omega arith;
  };
  seen_fits = omega arith;
}

read_snapshot-serialize_delta_example :
    (response : SerializedResponse) × (snapshot : Snapshot toy) × (serialize_delta toy as_listed
        10800 toy_details 1
      ≡ ok response)
    × ((rest : List ℕ) → read_snapshot toy (response.bytes ++ rest) ≡ some (snapshot, rest))
    × (snapshot.chain_hash ≡ 1)
    × (snapshot.latest_seen ≡ serialized_seen 1700000000 10800)
    × (snapshot.announcements ≡ two_announcements)
    × (snapshot.updates ≡ map meaning three_updates)
read_snapshot-serialize_delta_example =
    read_snapshot-serialize_delta toy as_listed 10800 toy_details (omega arith)
      toy_details-IsSerializable

serialize_announcements_example :
    (bytes : List ℕ) × (n : NodeIndex toy) × Announces toy two_announcements 0
      (no_nodes toy)
      bytes
      n
serialize_announcements_example =
    serialize_announcements_lem toy two_announcements 0 (no_nodes toy) (no_nodes-IsIndexed toy)
      (omega arith, (omega arith, tt)) (omega arith, (omega arith, tt)) (omega arith)

get_node_id_index_example : (i : ℕ) × (n : NodeIndex toy) × Numbers toy 11 (no_nodes toy) i n
get_node_id_index_example = get_node_id_index_lem toy 11 (no_nodes toy) (no_nodes-IsIndexed toy)

snapshot_scopes_example :
    (scopes : List ℕ) × (snapshot_scopes 22 10800 ≡ some scopes) × AreScopes 10800 scopes
snapshot_scopes_example = snapshot_scopes_lem 10800 (omega arith) (omega arith)

abbrev two_scopes : List ℕ
two_scopes = 2000000 ∷ u64_max ∷ []

symlinks_example :
    (links : List Symlink) × (symlinks 1641100000 10800 two_scopes (some 3) ≡ ok links)
    × All (Covers 1641100000 two_scopes) links
    × (symlink_count 1641100000 10800 (some 3) ≡ ok (length links))
symlinks_example =
    symlinks-Covers 2000000 1641100000 10800 two_scopes (some 3)
      (record {
        longer = u64_max ∷ [];
        starts = refl;
        ascending = (omega arith, tt);
        has_all_time = refl;
      })
      (omega arith) (omega arith) (omega arith)

-- A snapshot is the last sync and the version, and the empty delta is nothing.
abbrev toy_snapshots : Version → ℕ → Result (List ℕ)
toy_snapshots v1 last_sync = ok (last_sync ∷ 1 ∷ [])
toy_snapshots v2 last_sync = ok (last_sync ∷ 2 ∷ [])

toy_snapshots-IsTotal : IsTotal toy_snapshots (λ version. [])
toy_snapshots-IsTotal v1 last_sync = (last_sync ∷ 1 ∷ [], refl)
toy_snapshots-IsTotal v2 last_sync = (last_sync ∷ 2 ∷ [], refl)

generate_at-LeadsTo_example :
    (dirs : Directories) × (generate_at toy_snapshots
        (λ version. [])
        1641100000
        10800
        two_scopes
        (some 3)
      ≡ ok dirs)
    × All (LeadsTo toy_snapshots (λ version. []) 1641100000 dirs) dirs.links
    × (request v1 1641100000 dirs ≡ some [])
    × (request v2 1641100000 dirs ≡ none)
generate_at-LeadsTo_example =
    generate_at-LeadsTo toy_snapshots (λ version. []) 2000000 1641100000 10800 two_scopes (some 3)
      (record {
        longer = u64_max ∷ [];
        starts = refl;
        ascending = (omega arith, tt);
        has_all_time = refl;
      })
      (omega arith) (omega arith) (omega arith) toy_snapshots-IsTotal
