-- ===== src/Lib.antt =====
-- rapid-gossip-sync-server collects Lightning gossip in a database and prepares snapshots of it:
-- files from which a client that last synced at a given time learns what has changed since.
--
-- A snapshot is made in these steps, each of which has its part here:
-- * Lookup (src/lookup.rs) builds a `DeltaSet`, a map from scid to `ChannelDelta`, and a
--   `NodeDeltaSet`. Lookup.Announcements is `fetch_channel_announcements`, Lookup.Updates is
--   `fetch_channel_updates`, Lookup.Nodes is `fetch_node_updates`, Lookup.Filter is
--   `filter_delta_set` and Lookup.Reminders is `should_snapshot_include_reminders`. Lookup.Keyed
--   holds an invariant of deltas; Marks, AnnouncementLaws, UpdateLaws and NodeLaws hold theorems.
-- * Serialization (src/serialization.rs): DeltaSet is `serialize_delta_set`, and Categorize its
--   closure that decides for each direction of a channel what is sent; Histograms chooses the
--   defaults; StripUpdate and StripAnnouncement are `serialize_stripped_channel_update` and
--   `serialize_stripped_channel_announcement`. ReadUpdate is the client's reading of an update, the
--   specification of the former; UpdateFlags, UpdateRoundTrip, SortedProgress, NoPanic,
--   HistogramLaws, NodeSelection and Convergence hold theorems.
-- * Server (src/lib.rs): CalculateDelta is `calculate_delta`, which composes the two parts above.
--   SerializeDelta is `serialize_delta`, NodeIndex its closure `get_node_id_index`, NodeDelta its
--   loop over the nodes, and EmptyBlob is `serialize_empty_blob`. ReadSnapshot is the client's
--   reading of a snapshot of version 1. IndexLaws, AnnouncementStream, UpdateStream,
--   SnapshotRoundTrip, SnapshotTotal and EmptyBlobLaws hold theorems.
-- * Snapshot (src/snapshot.rs): the scopes for which snapshots are made, and the symlinks that lead
--   a client to one of them. Files is what `generate_snapshots` leaves behind, and Generate composes
--   it with the calculation and the serialization. Scopes, Symlinks, Timestamps and Requests
--   hold theorems.
-- * Config (src/config.rs): constants and `snapshot_generation_interval`. Config.Queries holds the
--   texts that create the tables, Config.Migrations the transactions of `upgrade_db`, Config.Upgrade
--   which of them run, Config.Columns the loops that fill new columns, Config.Peers `ln_peers`, over
--   the splitting of Config.Texts, and Config.Environment `network` and `log_level`.
-- * Hex (src/hex_utils.rs): `to_vec`; Hex.Laws holds theorems.
--
-- What the snapshots are made of is collected by these parts:
-- * Verifier (src/verifier.rs) looks up the funding output of a channel in bitcoind and caches its
--   amount; Scids and Funding hold theorems.
-- * Types (src/types.rs) is `GossipMessage`.
-- * Downloader (src/downloader.rs) is `GossipRouter`, over the native router of LDK and a Verifier:
--   it counts what it accepts and sends it on the channel that Downloader.Channels models. Reliance
--   is what the router relies on of LDK, bitcoind and the persister in order not to panic. Forwards,
--   Handlers, Counts, Accounts and NeverPanics hold theorems on the runs of Downloader.Runs.
-- * Persistence (src/persistence.rs): Rows makes a row of a message, Tables executes the insertion,
--   and Inserts is `persist_gossip`, whose loop and tasks are steps on a shared state. Permits and
--   Drain hold theorems.
-- * Tracking (src/tracking.rs): the loop of `download_gossip`, with its channel to `start_sync` in
--   Completion, and `connect_peer` in Peers. CaughtUp, Blocked and CatchUps
--   hold theorems.
-- * Startup (src/lib.rs, src/persistence.rs): `RapidSyncProcessor::new`, the messages that
--   `start_sync` sends, and the statements of `GossipPersister::new`. Startup.Laws holds theorems on
--   the way from a part to the next.
-- Prelude holds shared notation and lemmas. Tests holds concrete inputs.
--
-- How code is rendered. Numbers are natural numbers; where the source casts, the wrap-around of the
-- type is written out. A panic is a value of `Result`. A `BTreeMap` is the list of its entries by
-- ascending key, and a `HashMap` a list of entries, the order of whose iteration is the parameter
-- `HashOrder`. Loops are structural recursions. The doubling of the scopes runs on fuel, of which 22
-- rounds are enough for any interval that fits 32 bits.
--
-- Ldk states what is used of the crates `lightning` and `bitcoin`: the types and their codecs are a
-- parameter, with the law that a `read` takes off what a `write` has written. The database is a
-- parameter too: the rows that each query returns, as a function of the query's arguments. The clock
-- and the network are arguments. Sums of counters wrap, as in a release build; the subtractions in
-- `symlink_count` and in the loop of src/tracking.rs panic where they would go below zero, as in a
-- debug build. Counts of bytes and of list elements, and `previous_scid`, are not cut to the width
-- of `usize`.
--
-- The mpsc channels are a queue with the list of what was received; whether a sender
-- that waits on a full channel is let in is part of the state of the channel, and a wait that never
-- ends is the cause `blocked`. Concurrent tasks are sequences of steps in any order. The
-- statements of SQL that insert rows are functions on tables, by their keys and their clause ON
-- CONFLICT; other statements are their texts. The rounds of the loops that fill a column are fuel,
-- of which the number of rows is enough.
--
-- Not modelled: the addresses of the database and of bitcoind (src/config.rs), the keys and the
-- wiring of the peer manager (src/tracking.rs), `connect_to_db` (src/lib.rs), the exchange of the
-- directories, the file with the time of the update and errors of the file system (src/snapshot.rs),
-- and logging other than that of src/tracking.rs. They are I/O or glue round libraries that are not
-- in the repository. What is compiled for tests only is left out.
pub mod Prelude
pub mod Ldk
pub mod Config
pub mod Hex
pub mod Serialization
pub mod Lookup
pub mod Snapshot
pub mod Server
pub mod Types
pub mod Verifier
pub mod Downloader
pub mod Persistence
pub mod Tracking
pub mod Startup
mod Tests
