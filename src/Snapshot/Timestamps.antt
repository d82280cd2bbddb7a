-- ===== src/Snapshot/Timestamps.antt =====
-- The timestamps of the symlinks of `generate_snapshots` of src/snapshot.rs are before the
-- reference time.
use rapid_gossip_sync_server.Prelude.{
  zero, suc, ◌+◌, ◌*◌, Option-cases, Panic, panic, >>=_inv, ok-inj, ap, arith, ℕ, ◌<◌, List, All,
  Option, ok, ◌≡◌, inl, inr,
}
use native.Mathlib.Nat.{mul-suc}
use rapid_gossip_sync_server.Snapshot.{
  snapshot_sync_timestamps, Symlink, symlinks, symlink, symlinks_from, symlink_count,
  referenced_scope, link_to, canonical_last_sync_timestamp,
}
use rapid_gossip_sync_server.Prelude.Maps.{get}

pub canonical-young :
    (reference granularity i : ℕ)
    → 0 < reference
    → 0 < granularity
    → canonical_last_sync_timestamp reference granularity i < reference
unfolding canonical_last_sync_timestamp
canonical-young reference granularity zero late positive = ground arith
canonical-young reference granularity (suc i) late positive =
    let ahead : 0 < granularity * suc i = rw mul-suc (omega (arith, positive)) in
    ground (arith, ahead)

pub link_to-young :
    (reference granularity i scope : ℕ) (scopes : List ℕ) (link : Symlink)
    → 0 < reference
    → 0 < granularity
    → link_to reference granularity scopes i scope ≡ ok link
    → link.timestamp < reference
unfolding link_to canonical_last_sync_timestamp
link_to-young reference granularity i scope scopes link late positive e =
    elim (Option-cases (get scope (snapshot_sync_timestamps reference scopes))) [
      | inl missing ↦ absurd (clash (rw (link_to, missing) at e))
      | inr (previous, there) ↦
          rw (← ap (λ (l : Symlink). l.timestamp) (ok-inj (rw (link_to, there) at e)))
            (canonical-young reference granularity i late positive)
    ]
  where
    clash : {cause : Panic} → panic cause ≡ ok link → ⊥
    clash p = cc

pub symlinks_from-young :
    (reference granularity i rounds : ℕ) (scopes : List ℕ) (links : List Symlink)
    → 0 < reference
    → 0 < granularity
    → symlinks_from reference granularity scopes i rounds ≡ ok links
    → All (λ link. link.timestamp < reference) links
unfolding symlinks_from symlink
symlinks_from-young reference granularity i zero scopes links late positive e = rw (← ok-inj e) tt
symlinks_from-young reference granularity i (suc rounds) scopes links late positive e =
    let (link, one, more) = >>=_inv (symlink reference granularity scopes i) _ links e in
    let (rest, others, same) =
      >>=_inv (symlinks_from reference granularity scopes (i + 1) rounds) _ links more in
    let (scope, refers, links_to) = >>=_inv (referenced_scope i granularity scopes) _ link one in
    rw (← ok-inj same) (
      link_to-young reference granularity i scope scopes link late positive links_to,
      symlinks_from-young reference granularity (i + 1) rounds scopes rest late positive others,
    )

pub symlinks-young :
    (reference granularity : ℕ) (scopes : List ℕ) (most : Option ℕ) (links : List Symlink)
    → 0 < reference
    → 0 < granularity
    → symlinks reference granularity scopes most ≡ ok links
    → All (λ link. link.timestamp < reference) links
unfolding symlinks
symlinks-young reference granularity scopes most links late positive e =
    let (count, counts, from) = >>=_inv (symlink_count reference granularity most) _ links e in
    symlinks_from-young reference granularity 0 count scopes links late positive from
