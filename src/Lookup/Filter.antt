-- ===== src/Lookup/Filter.antt =====
-- `filter_delta_set` of src/lookup.rs, and what it leaves.
use rapid_gossip_sync_server.Prelude.{
  ℕ, ◌+◌, ◌≤◌, ◌<◌, List, [], ◌∷◌, ◌++◌, map, Option, none, some, Bool, true, false, not, ◌&&◌,
  ◌||◌, if◌then◌else◌, All, All-imp, All-append, Result, ok, panic, unwrap_none, ◌≡◌, refl, sym,
  ◌∙◌, arith, append_assoc, Bool-cases, inl, inr,
}
use rapid_gossip_sync_server.Prelude.Maps.{get, remove, IsAscending}
use rapid_gossip_sync_server.Ldk.{Ldk}
use rapid_gossip_sync_server.Lookup.{DirectedUpdateDelta, ChannelDelta, DeltaSet}
use rapid_gossip_sync_server.Lookup.Keyed.{IsAnnounced}

abbrev pub is_none : {A : Type 0} → Option A → Bool
is_none none = true
is_none (some _) = false

abbrev pub is_some : {A : Type 0} → Option A → Bool
is_some o = not (is_none o)

module _ (ldk : Ldk) where
  -- The closure `update_meets_criteria`.
  unfoldable pub update_meets_criteria : ChannelDelta ldk → Option DirectedUpdateDelta → Bool
  update_meets_criteria v none = false
  update_meets_criteria v (some update) =
      v.requires_reminder || is_some update.latest_update_after_seen

  -- Whether one round of the loop removes the channel.
  unfoldable pub is_removed : ChannelDelta ldk → Bool
  is_removed v =
      if is_none v.announcement
      then true
      else not v.requires_reminder
        && (not (update_meets_criteria v v.updates_a) && not (update_meets_criteria v v.updates_b))

  unfoldable pub filter_keys : List ℕ → DeltaSet ldk → Result (DeltaSet ldk)
  filter_keys [] delta_set = ok delta_set
  filter_keys (k ∷ ks) delta_set = elim (get k delta_set) [
    | none ↦ panic unwrap_none
    | some v ↦ filter_keys ks (if is_removed v then remove k delta_set else delta_set)
  ]

  unfoldable pub filter_delta_set : DeltaSet ldk → Result (DeltaSet ldk)
  filter_delta_set delta_set = filter_keys (map (λ e. e.0) delta_set) delta_set

  -- The specification: a channel is sent if it is in the graph, and a reminder is due or there is an
  -- update that the client has not seen.
  abbrev pub has_latest : Option DirectedUpdateDelta → Bool
  has_latest none = false
  has_latest (some d) = is_some d.latest_update_after_seen

  unfoldable pub is_sent : ChannelDelta ldk → Bool
  is_sent v =
      is_some v.announcement
      && (v.requires_reminder || (has_latest v.updates_a || has_latest v.updates_b))

  is_removed-is_sent : (v : ChannelDelta ldk) → is_removed v ≡ not (is_sent v)
  unfolding is_removed is_sent update_meets_criteria
  is_removed-is_sent v = ground arith

  abbrev keep : DeltaSet ldk → DeltaSet ldk
  keep [] = []
  keep ((k, v) ∷ m) = let rest = keep m in if is_sent v then (k, v) ∷ rest else rest

  get_middle :
      (kept m : DeltaSet ldk) (k : ℕ) (v : ChannelDelta ldk)
      → All (λ e. e.0 < k) kept
      → get k (kept ++ ((k, v) ∷ m)) ≡ some v
  unfolding get
  get_middle [] m k v h = ground arith
  get_middle (e ∷ kept) m k v h = ground (arith, get_middle kept m k v h.1)

  remove_middle :
      (kept m : DeltaSet ldk) (k : ℕ) (v : ChannelDelta ldk)
      → All (λ e. e.0 < k) kept
      → remove k (kept ++ ((k, v) ∷ m)) ≡ kept ++ m
  unfolding remove
  remove_middle [] m k v h = ground arith
  remove_middle (e ∷ kept) m k v h = ground (arith, remove_middle kept m k v h.1)

  -- The loop, when it has been through `kept`.
  filter_keys_lem :
      (kept m : DeltaSet ldk) (lo : ℕ)
      → All (λ e. e.0 < lo) kept
      → All (λ e. lo ≤ e.0) m
      → IsAscending m
      → filter_keys (map (λ e. e.0) m) (kept ++ m) ≡ ok (kept ++ keep m)
  unfolding filter_keys
  filter_keys_lem kept [] lo low high asc = refl
  filter_keys_lem kept ((k, v) ∷ m) lo low high asc =
      let below : All (λ e. e.0 < k) kept =
        All-imp (λ e. e.0 < lo) (λ e. e.0 < k) (λ e p. omega arith) kept low in
      let above : All (λ e. k + 1 ≤ e.0) m =
        All-imp (λ e. k < e.0) (λ e. k + 1 ≤ e.0) (λ e p. omega arith) m asc.0 in
      let below' : All (λ e. e.0 < k + 1) kept =
        All-imp (λ e. e.0 < k) (λ e. e.0 < k + 1) (λ e p. omega arith) kept below in
      elim (Bool-cases (is_sent v)) [
        | inl sent ↦
            rw (filter_keys, get_middle kept m k v below, is_removed-is_sent v, sent)
              (rw (append_assoc kept ((k, v) ∷ []) m, append_assoc kept ((k, v) ∷ []) (keep m)) at
                (filter_keys_lem (kept ++ ((k, v) ∷ [])) m (k + 1)
                  (All-append (λ e. e.0 < k + 1) kept ((k, v) ∷ []) below' (omega arith, tt)) above
                  asc.1))
        | inr unsent ↦
            rw
              (
                filter_keys,
                get_middle kept m k v below,
                is_removed-is_sent v,
                unsent,
                remove_middle kept m k v below,
              )
              (filter_keys_lem kept m (k + 1) below' above asc.1)
      ]

  All-keep : (P : ℕ × ChannelDelta ldk → Type 0) (m : DeltaSet ldk) → All P m → All P (keep m)
  All-keep P [] h = tt
  All-keep P ((k, v) ∷ m) h = ground (arith, All-keep P m h.1)

  keep-IsAscending : (m : DeltaSet ldk) → IsAscending m → IsAscending (keep m)
  keep-IsAscending [] h = tt
  keep-IsAscending ((k, v) ∷ m) h =
      ground (arith, keep-IsAscending m h.1, All-keep (λ e. k < e.0) m h.0)

  keep_sent : (m : DeltaSet ldk) → All (λ e. is_sent e.1 ≡ true) (keep m)
  keep_sent [] = tt
  keep_sent ((k, v) ∷ m) = ground (arith, keep_sent m)

  is_sent-IsAnnounced : (e : ℕ × ChannelDelta ldk) → is_sent e.1 ≡ true → IsAnnounced ldk e
  unfolding is_sent
  is_sent-IsAnnounced e h = ground arith

  abbrev pub if_sent : Option (ChannelDelta ldk) → Option (ChannelDelta ldk)
  if_sent none = none
  if_sent (some v) = if is_sent v then some v else none

  get_absent : (k : ℕ) (m : DeltaSet ldk) → All (λ e. k < e.0) m → get k m ≡ none
  unfolding get
  get_absent k [] h = refl
  get_absent k (e ∷ m) h = ground (arith, get_absent k m h.1)

  get-keep : (k : ℕ) (m : DeltaSet ldk) → IsAscending m → get k (keep m) ≡ if_sent (get k m)
  unfolding get
  get-keep k [] h = refl
  get-keep k ((j, v) ∷ m) h =
      ground (arith, get-keep k m h.1, get_absent j (keep m) (All-keep (λ e. j < e.0) m h.0))

  filter_delta_set-keep :
      (delta_set : DeltaSet ldk)
      → IsAscending delta_set
      → filter_delta_set delta_set ≡ ok (keep delta_set)
  unfolding filter_delta_set
  filter_delta_set-keep m asc = filter_keys_lem [] m 0 tt (every m) asc
    where
      every : (m' : DeltaSet ldk) → All (λ e. 0 ≤ e.0) m'
      every [] = tt
      every (e ∷ m') = (omega arith, every m')

  -- What holds of all entries holds of those that the filter leaves.
  pub All-filter_delta_set :
      (P : ℕ × ChannelDelta ldk → Type 0) (delta_set left : DeltaSet ldk)
      → IsAscending delta_set
      → filter_delta_set delta_set ≡ ok left
      → All P delta_set
      → All P left
  All-filter_delta_set P m left asc e h =
      let same : keep m ≡ left = ok_inj (keep m) left (sym (filter_delta_set-keep m asc) ∙ e) in
      rw same at (All-keep P m h)
    where
      ok_inj : (a b : DeltaSet ldk) → ok a ≡ ok b → a ≡ b
      ok_inj a b p = cc

  -- On a delta set with ascending keys the filter does not panic. It leaves a channel as it was if
  -- the channel is in the network graph and has a reminder or an update that the client has not
  -- seen, and removes every other one; the keys still ascend, and every channel that is left is
  -- announced.
  pub filter_delta_set_lem :
      (delta_set : DeltaSet ldk)
      → IsAscending delta_set
      → (left : DeltaSet ldk) × (filter_delta_set delta_set ≡ ok left)
        × IsAscending left
        × All (IsAnnounced ldk) left
        × ((k : ℕ) → get k left ≡ if_sent (get k delta_set))
  filter_delta_set_lem m asc = (
    keep m,
    filter_delta_set-keep m asc,
    keep-IsAscending m asc,
    All-imp (λ e. is_sent e.1 ≡ true) (IsAnnounced ldk) is_sent-IsAnnounced (keep m) (keep_sent m),
    λ k. get-keep k m asc,
  )
