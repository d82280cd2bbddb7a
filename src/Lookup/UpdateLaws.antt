-- ===== src/Lookup/UpdateLaws.antt =====
-- What `fetch_channel_updates` leaves in a delta set: messages under their own scid, and mutation
-- marks that miss no difference.
use rapid_gossip_sync_server.Lookup.Marks.{
  determine-IsMarked, IsMarked, IsReference, set_before-IsReference, IsReference-IsMarked,
}
use rapid_gossip_sync_server.Prelude.{
  ℕ, ◌%◌, ◌^◌, ◌-◌, List, [], ◌∷◌, Option, none, some, Bool, true, false, All, All-imp, ok, ◌≡◌,
  ◌≢◌, refl, Bool-cases, Option-cases, inl, inr,
}
use rapid_gossip_sync_server.Prelude.Maps.{unwrap_or, IsAscending, All-entry, entry-IsAscending}
use rapid_gossip_sync_server.Ldk.{Ldk, UnsignedChannelUpdate}
use rapid_gossip_sync_server.Lookup.{
  UpdateDelta, DirectedUpdateDelta, default_directed, ChannelDelta, default_channel, DeltaSet,
}
use rapid_gossip_sync_server.Lookup.Keyed.{OnSome, IsAnnouncementOf, IsDirectedOf, IsKeyed}
use rapid_gossip_sync_server.Lookup.Updates.{
  UpdateRow, contains_id, set_before, modify_direction, entry_direction, fetch_reference_row,
  fetch_reference_rows, Intermediate, add_intermediate, fetch_intermediate_row,
  fetch_intermediate_rows, fetch_channel_updates,
}

module _ (ldk : Ldk) where
  -- Both directions satisfy `Q`, and the announcement carries the scid of the key.
  pub record Each (Q : ℕ → DirectedUpdateDelta → Type 0) (e : ℕ × ChannelDelta ldk) : Type 0 where
    pub announcement_keyed : OnSome (IsAnnouncementOf ldk e.0) e.1.announcement
    pub a_holds : OnSome (Q e.0) e.1.updates_a
    pub b_holds : OnSome (Q e.0) e.1.updates_b

  on_default :
      (P : DirectedUpdateDelta → Type 0) (o : Option DirectedUpdateDelta)
      → P default_directed
      → OnSome P o
      → P (unwrap_or default_directed o)
  on_default P none new h = new
  on_default P (some d) new h = h

  module _ (Q : ℕ → DirectedUpdateDelta → Type 0) (k : ℕ)
      (f : DirectedUpdateDelta → DirectedUpdateDelta) (new : Q k default_directed)
      (keeps : (d : DirectedUpdateDelta) → Q k d → Q k (f d)) where
    pub modify_direction-Each :
        (direction : Bool) (c : ChannelDelta ldk)
        → Each Q (k, c)
        → Each Q (k, modify_direction ldk direction f c)
    unfolding modify_direction
    modify_direction-Each false c h = record {
      announcement_keyed = h.announcement_keyed;
      a_holds = keeps _ (on_default (Q k) c.updates_a new h.a_holds);
      b_holds = h.b_holds;
    }
    modify_direction-Each true c h = record {
      announcement_keyed = h.announcement_keyed;
      a_holds = h.a_holds;
      b_holds = keeps _ (on_default (Q k) c.updates_b new h.b_holds);
    }

    entry_direction-Each :
        (direction : Bool) (m : DeltaSet ldk)
        → All (Each Q) m
        → All (Each Q) (entry_direction ldk k direction f m)
    entry_direction-Each direction m h =
        All-entry (Each Q) (default_channel ldk) k (modify_direction ldk direction f) m
          (modify_direction-Each direction (default_channel ldk)
            (record { announcement_keyed = tt; a_holds = tt; b_holds = tt }))
          (λ j c same each. rw (← same) (modify_direction-Each direction c (rw (← same) at each))) h

  abbrev pub IsReadable : UpdateRow → Type 0
  IsReadable row = ldk.read_channel_update row.blob_signed ≢ none

  -- The state of the two loops.
  pub record Holds (Q : ℕ → DirectedUpdateDelta → Type 0) (m : DeltaSet ldk) : Type 0 where
    pub ascending : IsAscending m
    pub each : All (Each Q) m

  fetch_reference_rows-Holds :
      (rows : List UpdateRow) (m : DeltaSet ldk) (ids : List ℕ)
      → All IsReadable rows
      → Holds IsReference m
      → (m' : DeltaSet ldk) × (ids' : List ℕ) × (fetch_reference_rows ldk rows (m, ids)
          ≡ ok (m', ids'))
        × Holds IsReference m'
  unfolding fetch_reference_rows fetch_reference_row
  fetch_reference_rows-Holds [] m ids readable h = (m, ids, refl, h)
  fetch_reference_rows-Holds (row ∷ rows) m ids readable h =
      elim (Option-cases (ldk.read_channel_update row.blob_signed)) [
        | inl fails ↦ absurd (readable.0 fails)
        | inr (u, reads) ↦
            let before : UpdateDelta = record { seen = row.seen % 2 ^ 32; update = u } in
            let (m', ids', returns, h') =
              fetch_reference_rows-Holds rows
                (entry_direction ldk u.short_channel_id row.direction (set_before before) m)
                (row.id ∷ ids) readable.1
                (record {
                  ascending = entry-IsAscending _ u.short_channel_id _ m h.ascending;
                  each =
                      entry_direction-Each IsReference u.short_channel_id (set_before before)
                        (record { before_keyed = tt; no_latest = refl })
                        (λ d. set_before-IsReference u.short_channel_id before d refl) row.direction
                        m h.each;
                }) in
            (m', ids', rw reads returns, h')
      ]

  add_intermediate-Holds :
      (row : UpdateRow) (u : UnsignedChannelUpdate) (state : Intermediate ldk)
      → Holds IsMarked state.delta_set
      → Holds IsMarked (add_intermediate ldk row u state).delta_set
  unfolding add_intermediate
  add_intermediate-Holds row u state h = record {
    ascending = entry-IsAscending _ u.short_channel_id _ state.delta_set h.ascending;
    each =
        entry_direction-Each IsMarked u.short_channel_id _
          (record { before_keyed = tt; latest_keyed = tt; marked = tt })
          (λ d.
            determine-IsMarked u.short_channel_id (record { seen = row.seen % 2 ^ 32; update = u })
              refl d.last_update_before_seen d.latest_update_after_seen d.mutated_properties
              d.serialization_update_flags _)
          row.direction state.delta_set h.each;
  }

  fetch_intermediate_row-Holds :
      (ids : List ℕ) (row : UpdateRow) (state : Intermediate ldk)
      → IsReadable row
      → Holds IsMarked state.delta_set
      → (state' : Intermediate ldk) × (fetch_intermediate_row ldk ids row state ≡ ok state')
        × Holds IsMarked state'.delta_set
  unfolding fetch_intermediate_row
  fetch_intermediate_row-Holds ids row state readable h =
      elim (Bool-cases (contains_id ids row.id)) [
        | inl reference ↦ (state, rw reference refl, h)
        | inr intermediate ↦ elim (Option-cases (ldk.read_channel_update row.blob_signed)) [
          | inl fails ↦ absurd (readable fails)
          | inr (u, reads) ↦ (
            add_intermediate ldk row u state,
            rw (intermediate, reads) refl,
            add_intermediate-Holds row u state h,
          )
        ]
      ]

  fetch_intermediate_rows-Holds :
      (ids : List ℕ) (rows : List UpdateRow) (state : Intermediate ldk)
      → All IsReadable rows
      → Holds IsMarked state.delta_set
      → (state' : Intermediate ldk) × (fetch_intermediate_rows ldk ids rows state ≡ ok state')
        × Holds IsMarked state'.delta_set
  unfolding fetch_intermediate_rows
  fetch_intermediate_rows-Holds ids [] state readable h = (state, refl, h)
  fetch_intermediate_rows-Holds ids (row ∷ rows) state readable h =
      let (state1, one, h1) = fetch_intermediate_row-Holds ids row state readable.0 h in
      let (state2, more, h2) = fetch_intermediate_rows-Holds ids rows state1 readable.1 h1 in
      (state2, rw one more, h2)

  OnSome-imp :
      (P Q : DirectedUpdateDelta → Type 0) (o : Option DirectedUpdateDelta)
      → ((d : DirectedUpdateDelta) → P d → Q d)
      → OnSome P o
      → OnSome Q o
  OnSome-imp P Q none f h = tt
  OnSome-imp P Q (some d) f h = f d h

  pub Holds-imp :
      (P Q : ℕ → DirectedUpdateDelta → Type 0)
      → ((id : ℕ) (d : DirectedUpdateDelta) → P id d → Q id d)
      → (m : DeltaSet ldk) → Holds P m
      → Holds Q m
  Holds-imp P Q f m h = record {
    ascending = h.ascending;
    each =
        All-imp (Each P) (Each Q)
          (λ e each. record {
            announcement_keyed = each.announcement_keyed;
            a_holds = OnSome-imp (P e.0) (Q e.0) e.1.updates_a (f e.0) each.a_holds;
            b_holds = OnSome-imp (P e.0) (Q e.0) e.1.updates_b (f e.0) each.b_holds;
          })
          m h.each;
  }

  -- On a delta set that has no latest updates yet, with readable rows, the function does not panic.
  -- Its keys still ascend, every message stands under its own scid, and for each direction every
  -- property in which the latest update differs from the last one seen before is marked as mutated.
  pub fetch_channel_updates-Holds :
      (reference_rows intermediate_updates : List UpdateRow) (delta_set : DeltaSet ldk)
      → All IsReadable reference_rows
      → All IsReadable intermediate_updates
      → Holds IsReference delta_set
      → (fetched : DeltaSet ldk) × (fetch_channel_updates ldk reference_rows intermediate_updates
            delta_set
          ≡ ok fetched)
        × Holds IsMarked fetched
  unfolding fetch_channel_updates
  fetch_channel_updates-Holds refs rows m readable readable' h =
      let (m1, ids, one, h1) = fetch_reference_rows-Holds refs m [] readable h in
      let (s, two, h2) =
        fetch_intermediate_rows-Holds ids rows
          (record { delta_set = m1; previous_scid = 2 ^ 64 - 1; seen_a = false; seen_b = false })
          readable' (Holds-imp IsReference IsMarked IsReference-IsMarked m1 h1) in
      (s.delta_set, rw (one, two) refl, h2)

  IsMarked-IsDirectedOf : (id : ℕ) (d : DirectedUpdateDelta) → IsMarked id d → IsDirectedOf id d
  IsMarked-IsDirectedOf id d h = record {
    before_keyed = h.before_keyed;
    latest_keyed = h.latest_keyed;
  }

  pub Each-IsKeyed : (e : ℕ × ChannelDelta ldk) → Each IsMarked e → IsKeyed ldk e
  Each-IsKeyed e h = record {
    announcement_keyed = h.announcement_keyed;
    a_keyed =
        OnSome-imp (IsMarked e.0) (IsDirectedOf e.0) e.1.updates_a (IsMarked-IsDirectedOf e.0)
          h.a_holds;
    b_keyed =
        OnSome-imp (IsMarked e.0) (IsDirectedOf e.0) e.1.updates_b (IsMarked-IsDirectedOf e.0)
          h.b_holds;
  }
