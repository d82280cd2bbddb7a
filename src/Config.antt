-- ===== src/Config.antt =====
-- The constants of src/config.rs, and `snapshot_generation_interval`.
pub mod Queries
pub mod Migrations
pub mod Columns
pub mod Upgrade
pub mod Environment
pub mod Texts
pub mod Peers
use rapid_gossip_sync_server.Prelude.{
  ℕ, ◌*◌, ◌%◌, ◌<◌, ◌≡◌, Option, none, some, not, if◌then◌else◌, ◌==◌, Result, ok, panic, assertion,
  arith,
}

abbrev pub schema_version : ℕ
schema_version = 15

abbrev pub symlink_granularity_interval : ℕ
symlink_granularity_interval = 3600 * 3

abbrev pub max_snapshot_scope : ℕ
max_snapshot_scope = 3600 * 24 * 21

-- In seconds.
abbrev pub channel_reminder_age : ℕ
channel_reminder_age = 6 * 24 * 60 * 60

abbrev pub prune_interval : ℕ
prune_interval = 14 * 24 * 60 * 60

abbrev pub node_default_feature_count : ℕ
node_default_feature_count = 6

-- The value of the environment variable, once it is parsed as a `u32`; `none` if it is not set.
unfoldable pub snapshot_generation_interval : Option ℕ → Result ℕ
snapshot_generation_interval variable =
    let interval : ℕ = elim variable [ none ↦ symlink_granularity_interval | some n ↦ n ] in
    if interval == 0
    then panic assertion
    else if not (interval % symlink_granularity_interval == 0)
    then panic assertion
    else ok interval

-- An interval that the configuration accepts is positive and a multiple of the granularity.
pub snapshot_generation_interval_lem :
    (variable : Option ℕ) (interval : ℕ)
    → snapshot_generation_interval variable ≡ ok interval
    → (0 < interval) × (interval % symlink_granularity_interval ≡ 0)
unfolding snapshot_generation_interval
snapshot_generation_interval_lem none interval e = ground arith
snapshot_generation_interval_lem (some n) interval e = ground arith
