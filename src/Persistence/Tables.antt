-- ===== src/Persistence/Tables.antt =====
-- The tables of src/config.rs, and what the insertion statements of src/persistence.rs do to them.
use rapid_gossip_sync_server.Prelude.{
  List, [], ◌∷◌, ◌++◌, All, All-append, Bool, true, false, ◌&&◌, ◌||◌, if◌then◌else◌, Bool-cases,
  inl, inr, ◌≡◌, refl, sym, ◌∙◌, arith,
}
use rapid_gossip_sync_server.Prelude.Bits.{same}
use rapid_gossip_sync_server.Prelude.Casts.{ℤ, eq_int, eq_int_lem, eq_int_refl}
use rapid_gossip_sync_server.Persistence.Rows.{
  NodeAnnouncementRow, ChannelAnnouncementRow, ChannelUpdateRow, Insert, insert_node,
  insert_announcement, insert_update,
}

-- The rows in the order of their insertion.
pub record Tables : Type 0 where
  pub node_announcements : List NodeAnnouncementRow
  pub channel_announcements : List ChannelAnnouncementRow
  pub channel_updates : List ChannelUpdateRow

-- `short_channel_id bigint NOT NULL UNIQUE`
abbrev pub same_scid : ChannelAnnouncementRow → ChannelAnnouncementRow → Bool
same_scid a b = eq_int a.short_channel_id b.short_channel_id

-- `channel_updates_key ON channel_updates (short_channel_id, direction, timestamp)`
abbrev pub same_key : ChannelUpdateRow → ChannelUpdateRow → Bool
same_key a b =
    eq_int a.short_channel_id b.short_channel_id
    && (same a.direction b.direction && eq_int a.timestamp b.timestamp)

module _ {Row : Type 0} (conflicts : Row → Row → Bool) where
  unfoldable pub has_conflict : Row → List Row → Bool
  has_conflict row [] = false
  has_conflict row (r ∷ rows) = conflicts r row || has_conflict row rows

  -- `ON CONFLICT … DO NOTHING`
  unfoldable pub insert_new : Row → List Row → List Row
  insert_new row rows = if has_conflict row rows then rows else rows ++ (row ∷ [])

  -- No two rows conflict.
  abbrev pub IsUnique : List Row → Type 0
  IsUnique [] = Unit
  IsUnique (r ∷ rows) = All (λ row. conflicts r row ≡ false) rows × IsUnique rows

  snoc-IsUnique :
      (row : Row) (rows : List Row)
      → has_conflict row rows ≡ false
      → IsUnique rows
      → IsUnique (rows ++ (row ∷ []))
  unfolding has_conflict
  snoc-IsUnique row [] free h = (tt, tt)
  snoc-IsUnique row (r ∷ rows) free h = (
    All-append (λ other. conflicts r other ≡ false) rows (row ∷ []) h.0 (ground (arith, free), tt),
    snoc-IsUnique row rows (ground (arith, free)) h.1,
  )

  insert_new-IsUnique :
      (row : Row) (rows : List Row) → IsUnique rows → IsUnique (insert_new row rows)
  unfolding insert_new
  insert_new-IsUnique row rows h = elim (Bool-cases (has_conflict row rows)) [
    | inl taken ↦ rw (insert_new, taken) h
    | inr free ↦ rw (insert_new, free) (snoc-IsUnique row rows free h)
  ]

-- A statement that succeeds. The table of nodes has no key but the id that Postgres assigns.
unfoldable pub execute : Tables → Insert → Tables
execute tables (insert_node row) = record tables {
  node_announcements = tables.node_announcements ++ (row ∷ []);
}
execute tables (insert_announcement row) = record tables {
  channel_announcements = insert_new same_scid row tables.channel_announcements;
}
execute tables (insert_update row) = record tables {
  channel_updates = insert_new same_key row tables.channel_updates;
}

pub record AreUnique (tables : Tables) : Type 0 where
  pub announcements : IsUnique same_scid tables.channel_announcements
  pub updates : IsUnique same_key tables.channel_updates

pub execute-AreUnique :
    (tables : Tables) (statement : Insert) → AreUnique tables → AreUnique (execute tables statement)
unfolding execute
execute-AreUnique tables (insert_node row) h = record {
  announcements = h.announcements;
  updates = h.updates;
}
execute-AreUnique tables (insert_announcement row) h = record {
  announcements = insert_new-IsUnique same_scid row tables.channel_announcements h.announcements;
  updates = h.updates;
}
execute-AreUnique tables (insert_update row) h = record {
  announcements = h.announcements;
  updates = insert_new-IsUnique same_key row tables.channel_updates h.updates;
}

-- All the rows of a channel.
unfoldable pub rows_of : ℤ → List ChannelAnnouncementRow → List ChannelAnnouncementRow
rows_of scid [] = []
rows_of scid (r ∷ rows) =
    let rest = rows_of scid rows in if eq_int r.short_channel_id scid then r ∷ rest else rest

-- The known rows, or the new one if there is none.
abbrev pub or_only : {A : Type 0} → List A → A → List A
or_only [] a = a ∷ []
or_only (known ∷ rest) a = known ∷ rest

rows_of-snoc :
    (scid : ℤ) (row : ChannelAnnouncementRow) (rows : List ChannelAnnouncementRow)
    → rows_of scid (rows ++ (row ∷ [])) ≡ (
        if eq_int row.short_channel_id scid
        then rows_of scid rows ++ (row ∷ [])
        else rows_of scid rows)
unfolding rows_of
rows_of-snoc scid row [] = refl
rows_of-snoc scid row (r ∷ rows) = ground (arith, rows_of-snoc scid row rows)

-- Without a conflict the channel has no row.
rows_of-free :
    (row : ChannelAnnouncementRow) (rows : List ChannelAnnouncementRow)
    → has_conflict same_scid row rows ≡ false
    → rows_of row.short_channel_id rows ≡ []
unfolding has_conflict rows_of
rows_of-free row [] free = refl
rows_of-free row (r ∷ rows) free =
    elim (Bool-cases (eq_int r.short_channel_id row.short_channel_id)) [
      | inl here ↦ absurd (ground (arith, free, here))
      | inr elsewhere ↦
          rw (rows_of, elsewhere) (rows_of-free row rows (rw (has_conflict, elsewhere) at free))
    ]

-- With a conflict it has one.
rows_of-taken :
    (row other : ChannelAnnouncementRow) (rows : List ChannelAnnouncementRow)
    → has_conflict same_scid row rows ≡ true
    → or_only (rows_of row.short_channel_id rows) other ≡ rows_of row.short_channel_id rows
unfolding has_conflict rows_of
rows_of-taken row other [] taken = cc
rows_of-taken row other (r ∷ rows) taken =
    elim (Bool-cases (eq_int r.short_channel_id row.short_channel_id)) [
      | inl here ↦ rw (rows_of, here) refl
      | inr elsewhere ↦
          rw (rows_of, elsewhere)
            (rows_of-taken row other rows (rw (has_conflict, elsewhere) at taken))
    ]

-- A channel that has rows in the table of announcements keeps exactly these; one that has none gets
-- the row that is inserted for it as its only one; and the rows of other channels stay.
pub rows_of-execute :
    (tables : Tables) (row : ChannelAnnouncementRow) (scid : ℤ)
    → let known = rows_of scid tables.channel_announcements in
      rows_of scid (execute tables (insert_announcement row)).channel_announcements
      ≡ (if eq_int row.short_channel_id scid then or_only known row else known)
unfolding execute insert_new
rows_of-execute tables row scid =
    let rows = tables.channel_announcements in
    elim (Bool-cases (eq_int row.short_channel_id scid)) [
      | inr other ↦ elim (Bool-cases (has_conflict same_scid row rows)) [
        | inr free ↦ rw (insert_new, free, other) (rows_of-snoc scid row rows ∙ rw other refl)
        | inl taken ↦ rw (insert_new, taken, other) refl
      ]
      | inl mine ↦ rw mine (rw (← eq_int_lem row.short_channel_id scid mine) (insert_mine rows))
    ]
  where
    insert_mine :
        (rows : List ChannelAnnouncementRow)
        → rows_of row.short_channel_id (insert_new same_scid row rows)
          ≡ or_only (rows_of row.short_channel_id rows) row
    insert_mine rows = elim (Bool-cases (has_conflict same_scid row rows)) [
      | inl taken ↦ rw (insert_new, taken) (sym (rows_of-taken row row rows taken))
      | inr free ↦
          rw (insert_new, free)
            (ground (
              arith,
              rows_of-snoc row.short_channel_id row rows,
              rows_of-free row rows free,
              eq_int_refl row.short_channel_id,
            ))
    ]
