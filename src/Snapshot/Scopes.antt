-- ===== src/Snapshot/Scopes.antt =====
-- The loop over the scopes in `snapshot_gossip` of src/snapshot.rs ends, and what it yields.
use native.Mathlib.Nat.{mul_assoc, pow-succ', mod-lt, mod-le, mod-add-div, mul-mod_right}
use rapid_gossip_sync_server.Prelude.{
  ℕ, zero, suc, ◌+◌, ◌-◌, ◌*◌, ◌/◌, ◌%◌, ◌^◌, ◌≤◌, ◌<◌, List, [], ◌∷◌, some, leb, ◌≡◌, refl, arith,
  Bool-cases, inl, inr, true, false,
}
use rapid_gossip_sync_server.Config.{max_snapshot_scope}
use rapid_gossip_sync_server.Lookup.Updates.{contains_id}
use rapid_gossip_sync_server.Snapshot.{snapshot_scopes, u64_max, round_down_to_nearest_multiple}

-- The scopes ascend from `lo` on.
abbrev pub AreAscending : ℕ → List ℕ → Type 0
AreAscending lo [] = Unit
AreAscending lo (scope ∷ scopes) = (lo < scope) × AreAscending scope scopes

AreAscending-weaken :
    (lo lo' : ℕ) (scopes : List ℕ) → lo' ≤ lo → AreAscending lo scopes → AreAscending lo' scopes
AreAscending-weaken lo lo' [] le h = tt
AreAscending-weaken lo lo' (scope ∷ scopes) le h = (omega (arith, h.0), h.1)

-- What the loop yields from `scope` on.
pub record AreScopes (scope : ℕ) (scopes : List ℕ) : Type 0 where
  pub longer : List ℕ
  pub starts : scopes ≡ scope ∷ longer
  pub ascending : AreAscending scope longer
  pub has_all_time : contains_id longer u64_max ≡ true

abbrev Yields : ℕ → ℕ → Type 0
Yields fuel scope =
    (scopes : List ℕ) × (snapshot_scopes fuel scope ≡ some scopes) × AreScopes scope scopes

last_round :
    (fuel scope : ℕ)
    → scope < 2 ^ 32
    → leb max_snapshot_scope scope ≡ true
    → Yields (suc fuel) scope
unfolding snapshot_scopes
last_round fuel scope small reached = (
  scope ∷ u64_max ∷ [],
  rw reached refl,
  record {
    longer = u64_max ∷ [];
    starts = refl;
    ascending = (omega arith, tt);
    has_all_time = refl;
  },
)

next_round :
    (fuel scope : ℕ)
    → 0 < scope
    → leb max_snapshot_scope scope ≡ false
    → Yields fuel (scope * 2 % 2 ^ 64)
    → Yields (suc fuel) scope
unfolding snapshot_scopes
next_round fuel scope positive below (scopes, returns, h) = (
  scope ∷ scopes,
  rw (snapshot_scopes, below, returns) refl,
  record {
    longer = scopes;
    starts = refl;
    ascending = rw h.starts (ground arith, h.ascending);
    has_all_time = rw h.starts (ground (arith, h.has_all_time));
  },
)

snapshot_scopes-AreScopes :
    (fuel scope factor : ℕ)
    → 0 < scope
    → scope < 2 ^ 32
    → factor ≤ scope
    → max_snapshot_scope ≤ factor * 2 ^ fuel
    → Yields (suc fuel) scope
snapshot_scopes-AreScopes zero scope factor positive small le enough =
    last_round 0 scope small (ground arith)
snapshot_scopes-AreScopes (suc fuel) scope factor positive small le enough =
    elim (Bool-cases (leb max_snapshot_scope scope)) [
      | inl reached ↦ last_round (suc fuel) scope small reached
      | inr below ↦ next_round (suc fuel) scope positive below (
          snapshot_scopes-AreScopes fuel (scope * 2 % 2 ^ 64) (factor * 2) (ground arith)
            (ground arith) (ground arith)
            (rw (mul_assoc factor 2 (2 ^ fuel)) (rw (pow-succ' 2 fuel) at enough)))
    ]

-- The loop ends for every positive interval that a `u32` holds, after at most twenty-two rounds.
-- The scopes start with the interval and ascend, and one after the first reaches back through all
-- time.
pub snapshot_scopes_lem :
    (interval : ℕ)
    → 0 < interval
    → interval < 2 ^ 32
    → (scopes : List ℕ) × (snapshot_scopes 22 interval ≡ some scopes) × AreScopes interval scopes
snapshot_scopes_lem interval positive small =
    snapshot_scopes-AreScopes 21 interval 1 positive small positive (omega arith)

-- Rounding down yields a multiple, and the one nearest below the number.
pub round_down_to_nearest_multiple_lem :
    (number multiple : ℕ)
    → 0 < multiple
    → (round_down_to_nearest_multiple number multiple % multiple ≡ 0)
      × (round_down_to_nearest_multiple number multiple ≤ number)
      × (number < round_down_to_nearest_multiple number multiple + multiple)
unfolding round_down_to_nearest_multiple
round_down_to_nearest_multiple_lem number multiple positive =
    let below = mod-lt number positive in
    let le = mod-le number multiple in
    let split : number - number % multiple ≡ multiple * (number / multiple) =
      omega (arith, mod-add-div number multiple) in
    (rw split (mul-mod_right multiple (number / multiple)), omega arith, omega (arith, below, le))
