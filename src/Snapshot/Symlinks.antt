-- ===== src/Snapshot/Symlinks.antt =====
-- The symlinks of `generate_snapshots` of src/snapshot.rs lead every client to a snapshot that
-- covers what it has missed.
use native.Mathlib.Nat.{zero-add, mul_comm, le_trans, mul-le-mul_right, div-mul-le_self}
use rapid_gossip_sync_server.Prelude.{
  ℕ, zero, suc, ◌+◌, ◌-◌, ◌*◌, ◌/◌, ◌≤◌, ◌<◌, min, List, [], ◌∷◌, Option, none, some, leb, leb→le,
  ◌≡◌, refl, ap, arith, Bool-cases, inl, inr, true, All, ok, length,
}
use rapid_gossip_sync_server.Prelude.Maps.{get}
use rapid_gossip_sync_server.Lookup.Updates.{contains_id}
use rapid_gossip_sync_server.Snapshot.{
  u64_max, snapshot_sync_timestamps, symlink_count, find_scope, referenced_scope,
  canonical_last_sync_timestamp, Symlink, link_to, symlink, symlinks_from, symlinks,
}
use rapid_gossip_sync_server.Snapshot.Scopes.{AreScopes}

-- Every scope has a snapshot.
get-snapshot_sync_timestamps :
    (reference scope : ℕ) (scopes : List ℕ)
    → contains_id scopes scope ≡ true
    → get scope (snapshot_sync_timestamps reference scopes) ≡ some (reference - scope)
unfolding get snapshot_sync_timestamps
get-snapshot_sync_timestamps reference scope [] h = ground arith
get-snapshot_sync_timestamps reference scope (first ∷ scopes) h =
    ground (arith, get-snapshot_sync_timestamps reference scope scopes)

record Found (age : ℕ) (scopes : List ℕ) : Type 0 where
  scope : ℕ
  returns : find_scope age scopes ≡ ok scope
  listed : contains_id scopes scope ≡ true
  covers : age ≤ scope

find_scope_lem :
    (age : ℕ) (scopes : List ℕ)
    → age ≤ u64_max
    → contains_id scopes u64_max ≡ true
    → Found age scopes
unfolding find_scope
find_scope_lem age [] le h = ground arith
find_scope_lem age (first ∷ scopes) le h = elim (Bool-cases (leb age first)) [
  | inl reaches ↦ record {
    scope = first;
    returns = rw reaches refl;
    listed = ground arith;
    covers = leb→le age first reaches;
  }
  | inr short ↦
      let f = find_scope_lem age scopes le (ground (arith, h, short)) in
      record {
        scope = f.scope;
        returns = rw (find_scope, short) f.returns;
        listed = ground (arith, f.listed);
        covers = f.covers;
      }
]

-- The snapshot is calculated for a client that is at least as old as those that the symlink is for.
pub record Covers (reference : ℕ) (scopes : List ℕ) (link : Symlink) : Type 0 where
  pub generated : contains_id scopes link.scope ≡ true
  pub calculated_from : link.previous_sync ≡ reference - link.scope
  pub covers : link.previous_sync ≤ link.timestamp
  pub not_late : link.timestamp ≤ reference

-- The scope that the symlink `i` refers to.
record Refers (reference granularity i : ℕ) (scopes : List ℕ) : Type 0 where
  scope : ℕ
  returns : referenced_scope i granularity scopes ≡ ok scope
  listed : contains_id scopes scope ≡ true
  covers : reference - scope ≤ canonical_last_sync_timestamp reference granularity i
  not_late : canonical_last_sync_timestamp reference granularity i ≤ reference

referenced_scope_lem :
    (reference granularity i : ℕ) (scopes : List ℕ)
    → i * granularity ≤ reference
    → reference ≤ u64_max
    → contains_id scopes u64_max ≡ true
    → Refers reference granularity i scopes
unfolding referenced_scope canonical_last_sync_timestamp
referenced_scope_lem reference granularity zero scopes young small all_time = record {
  scope = u64_max;
  returns = ground arith;
  listed = all_time;
  covers = ground arith;
  not_late = ground arith;
}
referenced_scope_lem reference granularity (suc i) scopes young small all_time =
    let f = find_scope_lem (suc i * granularity) scopes (omega (arith, young)) all_time in
    record {
      scope = f.scope;
      returns = ground (arith, f.returns);
      listed = f.listed;
      covers =
          let covered : suc i * granularity ≤ f.scope = f.covers in
          let turn = mul_comm granularity (suc i) in ground (arith, covered, turn, young);
      not_late = ground arith;
    }

symlink-Covers :
    (reference granularity i : ℕ) (scopes : List ℕ)
    → i * granularity ≤ reference
    → reference ≤ u64_max
    → contains_id scopes u64_max ≡ true
    → (link : Symlink) × (symlink reference granularity scopes i ≡ ok link)
      × Covers reference scopes link
unfolding symlink link_to
symlink-Covers reference granularity i scopes young small all_time =
    let r = referenced_scope_lem reference granularity i scopes young small all_time in
    (
      record {
        timestamp = canonical_last_sync_timestamp reference granularity i;
        scope = r.scope;
        previous_sync = reference - r.scope;
      },
      rw (symlink, r.returns)
          (rw (link_to, get-snapshot_sync_timestamps reference r.scope scopes r.listed) refl),
      record {
        generated = r.listed;
        calculated_from = refl;
        covers = r.covers;
        not_late = r.not_late;
      },
    )

symlinks_from-Covers :
    (reference granularity i rounds : ℕ) (scopes : List ℕ)
    → (i + rounds) * granularity ≤ reference
    → reference ≤ u64_max
    → contains_id scopes u64_max ≡ true
    → (links : List Symlink) × (symlinks_from reference granularity scopes i rounds ≡ ok links)
      × All (Covers reference scopes) links
      × (length links ≡ rounds)
unfolding symlinks_from
symlinks_from-Covers reference granularity i zero scopes young small all_time = ([], refl, tt, refl)
symlinks_from-Covers reference granularity i (suc rounds) scopes young small all_time =
    let (link, one, h) =
      symlink-Covers reference granularity i scopes
        (le_trans (mul-le-mul_right granularity (omega arith)) young) small all_time in
    let (links, more, hs, count) =
      symlinks_from-Covers reference granularity (i + 1) rounds scopes
        (le_trans (mul-le-mul_right granularity (omega arith)) young) small all_time in
    (link ∷ links, rw (symlinks_from, one, more) refl, (h, hs), ap suc count)

min_le : (a b : ℕ) → min a b ≤ a
min_le a b = omega arith

symlink_count_lem :
    (reference granularity : ℕ) (most : Option ℕ)
    → 1640995200 ≤ reference
    → (count : ℕ) × (symlink_count reference granularity most ≡ ok count)
      × (count * granularity ≤ reference)
unfolding symlink_count
symlink_count_lem reference granularity none late =
    let all = (reference - 1640995200) / granularity in
    let le = div-mul-le_self (reference - 1640995200) granularity in
    (all, ground arith, omega (arith, le))
symlink_count_lem reference granularity (some most) late =
    let all = (reference - 1640995200) / granularity in
    let le = div-mul-le_self (reference - 1640995200) granularity in
    let fewer = mul-le-mul_right granularity (min_le all most) in
    (min all most, ground arith, omega (arith, le, fewer))

-- From the scopes of the loop in `snapshot_gossip`, with a positive granularity and at a reference
-- time from 2022 on that fits 64 bits, the loop over the symlinks does not panic: every symlink
-- finds a scope, and a snapshot for the scope. Each leads to a snapshot that was calculated from a
-- last sync that is not later than the timestamp in the name of the symlink, so that it has all
-- that such a client has missed. There are as many symlinks as `symlink_count` says.
pub symlinks-Covers :
    (interval reference granularity : ℕ) (scopes : List ℕ) (max_symlink_count : Option ℕ)
    → AreScopes interval scopes
    → 1640995200 ≤ reference
    → reference ≤ u64_max
    → 0 < granularity
    → (links : List Symlink) × (symlinks reference granularity scopes max_symlink_count ≡ ok links)
      × All (Covers reference scopes) links
      × (symlink_count reference granularity max_symlink_count ≡ ok (length links))
unfolding symlinks
symlinks-Covers interval reference granularity scopes most h late small positive =
    let (count, counts, few) = symlink_count_lem reference granularity most late in
    let (links, returns, hs, as_many) =
      symlinks_from-Covers reference granularity 0 count scopes (rw (zero-add count) few) small
        (rw h.starts (ground (arith, h.has_all_time))) in
    (links, rw (counts, returns) refl, hs, rw as_many counts)
