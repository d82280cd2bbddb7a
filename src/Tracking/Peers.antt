-- ===== src/Tracking/Peers.antt =====
-- `connect_peer` of src/tracking.rs, and the wait of `download_gossip` for enough connections.
use rapid_gossip_sync_server.Prelude.{
  ℕ, ◌+◌, ◌<◌, min, List, [], ◌∷◌, Option, none, some, Bool, true, false, if◌then◌else◌, leb, ltb,
  Result, ok, panic, unwrap_none, assertion, ◌≡◌, refl, arith,
}

abbrev pub connected_peer_assertion_limit : ℕ
connected_peer_assertion_limit = 5

-- Whether the warning on the number of peers is logged.
unfoldable pub warns_of_few_peers : ℕ → Bool
warns_of_few_peers peers = leb peers connected_peer_assertion_limit

-- The task of `connect_peer`, over whether each attempt to connect succeeds: what it sends.
unfoldable pub attempts : Bool → List Bool → List Bool
attempts is_first_iteration [] = []
attempts is_first_iteration (connected ∷ outcomes) =
    let rest = attempts false outcomes in if is_first_iteration then connected ∷ rest else rest

-- `receiver.recv().await.unwrap()`
unfoldable pub connect_peer : List Bool → Result Bool
connect_peer outcomes = elim (attempts true outcomes) [
  | [] ↦ panic unwrap_none
  | success ∷ rest ↦ ok success
]

-- The loop over `join_next`, where `none` is a task that panicked.
unfoldable pub join_connections : ℕ → List (Option Bool) → ℕ
join_connections connected_peer_count [] = connected_peer_count
join_connections connected_peer_count (some true ∷ results) =
    let rest = join_connections (connected_peer_count + 1) results in
    if leb connected_peer_assertion_limit (connected_peer_count + 1)
    then connected_peer_count + 1
    else rest
join_connections connected_peer_count (some false ∷ results) =
    join_connections connected_peer_count results
join_connections connected_peer_count (none ∷ results) =
    join_connections connected_peer_count results

unfoldable pub await_connections : List (Option Bool) → Result ℕ
await_connections results =
    let connected_peer_count = join_connections 0 results in
    if ltb connected_peer_count 1 then panic assertion else ok connected_peer_count

-- How many peers could be connected to at the first attempt.
abbrev pub successes : List (Option Bool) → ℕ
successes [] = 0
successes (some true ∷ results) = successes results + 1
successes (some false ∷ results) = successes results
successes (none ∷ results) = successes results

join_connections_lem :
    (results : List (Option Bool)) (n : ℕ)
    → n < connected_peer_assertion_limit
    → join_connections n results ≡ min connected_peer_assertion_limit (n + successes results)
unfolding join_connections
join_connections_lem [] n h = omega (arith, h)
join_connections_lem (some true ∷ results) n h =
    ground (arith, join_connections_lem results (n + 1))
join_connections_lem (some false ∷ results) n h = join_connections_lem results n h
join_connections_lem (none ∷ results) n h = join_connections_lem results n h

-- The download goes on with the number of peers that could be connected to, at most five; it panics
-- exactly when there is none.
pub await_connections_lem :
    (results : List (Option Bool))
    → await_connections results ≡ (
        if ltb 0 (successes results)
        then ok (min connected_peer_assertion_limit (successes results))
        else panic assertion)
unfolding await_connections
await_connections_lem results = ground (arith, join_connections_lem results 0)

attempts_later : (outcomes : List Bool) → attempts false outcomes ≡ []
unfolding attempts
attempts_later [] = refl
attempts_later (connected ∷ outcomes) = attempts_later outcomes

-- A peer is reported as connected exactly if the first attempt to connect succeeds, whatever comes
-- of later ones.
pub connect_peer_lem :
    (connected : Bool) (outcomes : List Bool) → connect_peer (connected ∷ outcomes) ≡ ok connected
unfolding connect_peer attempts
connect_peer_lem connected outcomes = refl
