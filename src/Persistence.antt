-- ===== src/Persistence.antt =====
-- src/persistence.rs: the persister takes gossip messages off the channel and inserts a row for
-- each, with at most 16 inserts at a time.
pub mod Rows
pub mod Tables
pub mod Inserts
pub mod Permits
pub mod Drain
use rapid_gossip_sync_server.Prelude.{ℕ}

-- In seconds.
abbrev pub postgres_insert_timeout : ℕ
postgres_insert_timeout = 15

abbrev pub insert_paralellism : ℕ
insert_paralellism = 16

-- The capacity of the channel that `GossipPersister::new` makes.
abbrev pub channel_capacity : ℕ
channel_capacity = 100
