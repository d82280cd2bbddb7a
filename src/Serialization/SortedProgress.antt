-- ===== src/Serialization/SortedProgress.antt =====
-- The closure `categorize_directed_update_serialization` of src/serialization.rs keeps the updates
-- sorted.
use rapid_gossip_sync_server.Prelude.{
  ℕ, ◌≤◌, List, [], ◌∷◌, ◌++◌, Option, none, some, All, All-append, ok, ◌≡◌, refl, arith, inl, inr,
  if_elim, Option-cases, ==_iff, max,
}
use rapid_gossip_sync_server.Ldk.{UnsignedChannelUpdate}
use rapid_gossip_sync_server.Lookup.{UpdateDelta, DirectedUpdateDelta}
use rapid_gossip_sync_server.Lookup.Keyed.{OnSome, IsUpdateOf, IsDirectedOf}
use rapid_gossip_sync_server.Serialization.{UpdateSerialization, full, incremental, reminder, scid}
use rapid_gossip_sync_server.Serialization.Categorize.{
  Progress, push_update, push_full, push_reminder, record_full_update, ChannelContext,
  categorize_known, categorize_latest, categorize_unseen, categorize_directed_update_serialization,
}
use rapid_gossip_sync_server.Server.UpdateStream.{IsSorted}

-- The updates pushed so far are sorted, and not above `id`.
pub record SortedUpTo (id : ℕ) (s : Progress) : Type 0 where
  pub sorted : IsSorted 0 s.updates
  pub below : All (λ u. scid u ≤ id) s.updates

pub IsSorted-append :
    (lo : ℕ) (updates : List UpdateSerialization) (u : UpdateSerialization)
    → IsSorted lo updates
    → All (λ v. scid v ≤ scid u) updates
    → lo ≤ scid u
    → IsSorted lo (updates ++ (u ∷ []))
IsSorted-append lo [] u h below le = (le, tt)
IsSorted-append lo (v ∷ updates) u h below le =
    (h.0, IsSorted-append (scid v) updates u h.1 below.1 below.0)

pub push_update-SortedUpTo :
    (id : ℕ) (u : UpdateSerialization) (s : Progress)
    → scid u ≡ id
    → SortedUpTo id s
    → SortedUpTo id (push_update u s)
push_update-SortedUpTo id u s e h = record {
  sorted = IsSorted-append 0 s.updates u h.sorted (rw e h.below) (omega arith);
  below = All-append (λ v. scid v ≤ id) s.updates (u ∷ []) h.below (omega arith, tt);
}

pub push_full-SortedUpTo :
    (id : ℕ) (u : UnsignedChannelUpdate) (s : Progress)
    → u.short_channel_id ≡ id
    → SortedUpTo id s
    → SortedUpTo id (push_full u s)
unfolding scid
push_full-SortedUpTo id u s e h =
    push_update-SortedUpTo id (full u) (record s { histograms = record_full_update u s.histograms })
      e (record { sorted = h.sorted; below = h.below })

pub push_reminder-SortedUpTo :
    (id : ℕ) (flags : Option ℕ) (s : Progress)
    → SortedUpTo id s
    → SortedUpTo id (push_reminder id flags s)
unfolding scid
push_reminder-SortedUpTo id none s h = h
push_reminder-SortedUpTo id (some bits) s h = push_update-SortedUpTo id (reminder id bits) s refl h

module _ (c : ChannelContext) where
  abbrev pub Kept : Progress → Type 0
  Kept = SortedUpTo c.scid

  categorize_known-Kept :
      (d : DirectedUpdateDelta) (before : UpdateDelta) (latest : UnsignedChannelUpdate)
      (s : Progress)
      → latest.short_channel_id ≡ c.scid
      → Kept s
      → Kept (categorize_known c d before latest s)
  unfolding categorize_known scid
  categorize_known-Kept d before latest s e h =
      if_elim Kept _ (push_full-SortedUpTo c.scid latest s e h) (
        if_elim Kept _
          (push_update-SortedUpTo c.scid (incremental latest d.mutated_properties) s e h)
          (if_elim Kept _ (push_reminder-SortedUpTo c.scid d.serialization_update_flags s h) h))

  categorize_unseen-Kept :
      (d : DirectedUpdateDelta) (s : Progress)
      → IsDirectedOf c.scid d
      → Kept s
      → Kept (categorize_unseen c d s)
  unfolding categorize_unseen scid
  categorize_unseen-Kept d s keyed h =
      if_elim Kept _ (unannounced d.last_update_before_seen keyed.before_keyed)
        (push_reminder-SortedUpTo c.scid d.serialization_update_flags s h)
    where
      unannounced :
          (before : Option UpdateDelta)
          → OnSome (IsUpdateOf c.scid) before
          → Kept (elim before [ some u ↦ push_update (full u.update) s | none ↦ s ])
      unannounced none k = h
      unannounced (some u) k = push_update-SortedUpTo c.scid (full u.update) s k h

  categorize_latest-Kept :
      (d : DirectedUpdateDelta) (latest : UpdateDelta) (s : Progress)
      → IsUpdateOf c.scid latest
      → Kept s
      → (s' : Progress) × (categorize_latest c d latest s ≡ ok s') × Kept s'
  unfolding categorize_latest scid
  categorize_latest-Kept d latest s e h = (
    elim d.last_update_before_seen [
      | some before ↦ categorize_known c d before latest.update seen
      | none ↦ push_full latest.update seen
    ],
    rw ((==_iff _ _).1 e) refl,
    known d.last_update_before_seen,
  )
    where
      seen : Progress
      seen = record s { latest_seen = max s.latest_seen latest.seen }

      still : Kept seen
      still = record { sorted = h.sorted; below = h.below }

      known :
          (before : Option UpdateDelta)
          → Kept (elim before [
            | some b ↦ categorize_known c d b latest.update seen
            | none ↦ push_full latest.update seen
          ])
      known none = push_full-SortedUpTo c.scid latest.update seen e still
      known (some b) = categorize_known-Kept d b latest.update seen e still

  pub categorize-Kept :
      (o : Option DirectedUpdateDelta) (s : Progress)
      → OnSome (IsDirectedOf c.scid) o
      → Kept s
      → (s' : Progress) × (categorize_directed_update_serialization c o s ≡ ok s') × Kept s'
  unfolding categorize_directed_update_serialization
  categorize-Kept none s keyed h = (s, refl, h)
  categorize-Kept (some d) s keyed h = elim (Option-cases d.latest_update_after_seen) [
    | inl unseen ↦ (categorize_unseen c d s, simp unseen, categorize_unseen-Kept d s keyed h)
    | inr (latest, e) ↦
        let (s', returns, kept) =
          categorize_latest-Kept d latest s (rw e at keyed.latest_keyed) h in
        (s', simp e returns, kept)
  ]
