-- ===== src/Snapshot.antt =====
-- src/snapshot.rs: which snapshots are generated, and which snapshot a client is referred to.
pub mod Scopes
pub mod Symlinks
pub mod Files
pub mod Requests
pub mod Timestamps
pub mod Generate
use rapid_gossip_sync_server.Prelude.{
  ℕ, zero, suc, ◌+◌, ◌-◌, ◌*◌, ◌/◌, ◌%◌, ◌^◌, min, List, [], ◌∷◌, map, Option, none, some,
  if◌then◌else◌, ltb, leb, ◌==◌, Result, ok, panic, underflow, unwrap_none, ◌>>=◌,
}
use rapid_gossip_sync_server.Prelude.Maps.{get}
use rapid_gossip_sync_server.Config.{max_snapshot_scope}

unfoldable pub round_down_to_nearest_multiple : ℕ → ℕ → ℕ
round_down_to_nearest_multiple number multiple =
    let round_multiple_delta = number % multiple in number - round_multiple_delta

abbrev pub u64_max : ℕ
u64_max = 2 ^ 64 - 1

-- The loop that fills `snapshot_scopes`, on fuel; `none` if the fuel does not do.
unfoldable pub snapshot_scopes : ℕ → ℕ → Option (List ℕ)
snapshot_scopes zero current_scope = none
snapshot_scopes (suc fuel) current_scope =
    let rest = snapshot_scopes fuel (current_scope * 2 % 2 ^ 64) in
    if leb max_snapshot_scope current_scope
    then some (current_scope ∷ u64_max ∷ [])
    else elim rest [ none ↦ none | some scopes ↦ some (current_scope ∷ scopes) ]

-- The wait of `snapshot_gossip` until the next round, in seconds, with the five that are added.
unfoldable pub time_until_next_generation : ℕ → ℕ → ℕ
time_until_next_generation current_time snapshot_interval =
    snapshot_interval - current_time % snapshot_interval + 5

-- The scopes with the timestamps of the last sync of a client that they are for.
unfoldable pub snapshot_sync_timestamps : ℕ → List ℕ → List (ℕ × ℕ)
snapshot_sync_timestamps reference_timestamp [] = []
snapshot_sync_timestamps reference_timestamp (current_scope ∷ scopes) =
    (current_scope, reference_timestamp - current_scope)
    ∷ snapshot_sync_timestamps reference_timestamp scopes

-- The number of intervals since Jan 1, 2022.
unfoldable pub symlink_count : ℕ → ℕ → Option ℕ → Result ℕ
symlink_count reference_timestamp granularity_interval max_symlink_count =
    if ltb reference_timestamp 1640995200
    then panic underflow
    else let count = (reference_timestamp - 1640995200) / granularity_interval in
      ok (elim max_symlink_count [ none ↦ count | some most ↦ min count most ])

-- `iter().find(…).unwrap()`
unfoldable pub find_scope : ℕ → List ℕ → Result ℕ
find_scope age [] = panic unwrap_none
find_scope age (current_scope ∷ scopes) =
    if leb age current_scope then ok current_scope else find_scope age scopes

unfoldable pub referenced_scope : ℕ → ℕ → List ℕ → Result ℕ
referenced_scope i granularity_interval scopes =
    if i == 0 then ok u64_max else find_scope (i * granularity_interval) scopes

unfoldable pub canonical_last_sync_timestamp : ℕ → ℕ → ℕ → ℕ
canonical_last_sync_timestamp reference_timestamp granularity_interval i =
    if i == 0 then 0 else reference_timestamp - min (granularity_interval * i) u64_max

-- A symlink: the timestamp of the clients that it is for, the scope of the snapshot to which it
-- leads, and the last sync from which that snapshot is calculated.
pub record Symlink : Type 0 where
  pub timestamp : ℕ
  pub scope : ℕ
  pub previous_sync : ℕ

-- The symlink to the file of a scope, which is looked up; the unwrap fails if there is none.
unfoldable pub link_to : ℕ → ℕ → List ℕ → ℕ → ℕ → Result Symlink
link_to reference_timestamp granularity_interval scopes i scope =
    elim (get scope (snapshot_sync_timestamps reference_timestamp scopes)) [
      | none ↦ panic unwrap_none
      | some previous_sync ↦ ok (record {
        timestamp = canonical_last_sync_timestamp reference_timestamp granularity_interval i;
        scope = scope;
        previous_sync = previous_sync;
      })
    ]

-- One round of the loop over the symlinks.
unfoldable pub symlink : ℕ → ℕ → List ℕ → ℕ → Result Symlink
symlink reference_timestamp granularity_interval scopes i =
    referenced_scope i granularity_interval scopes
    >>= link_to reference_timestamp granularity_interval scopes i

-- The rounds from `i` on, `rounds` of them.
unfoldable pub symlinks_from : ℕ → ℕ → List ℕ → ℕ → ℕ → Result (List Symlink)
symlinks_from reference_timestamp granularity_interval scopes i zero = ok []
symlinks_from reference_timestamp granularity_interval scopes i (suc rounds) = do
  link ← symlink reference_timestamp granularity_interval scopes i
  links ← symlinks_from reference_timestamp granularity_interval scopes (i + 1) rounds
  ok (link ∷ links)

unfoldable pub symlinks : ℕ → ℕ → List ℕ → Option ℕ → Result (List Symlink)
symlinks reference_timestamp granularity_interval scopes max_symlink_count = do
  count ← symlink_count reference_timestamp granularity_interval max_symlink_count
  symlinks_from reference_timestamp granularity_interval scopes 0 count
