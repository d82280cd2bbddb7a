-- ===== src/Config/Migrations.antt =====
-- The transactions of `upgrade_db` in src/config.rs.
use rapid_gossip_sync_server.Prelude.{ℕ, List, [], ◌∷◌}
use Prim.Native.String.{String}

-- A statement, or one of the two loops that fill a new column row by row: they are
-- `fill_update_columns` and `fill_announcement_scids` of src/config.rs, lines 194 to 216 and 228
-- to 243.
pub data Action : Type 0 where
  execute : String → Action
  fill_update_columns fill_announcement_scids : Action

-- A transaction: it runs if the schema is from 1 to `last`, and commits its actions with the new
-- value of `db_schema`.
pub record Migration : Type 0 where
  pub last : ℕ
  pub actions : List Action
  pub db_schema : ℕ

abbrev pub to_schema_2 : Migration
to_schema_2 = record {
  last = 1;
  actions =
      execute "ALTER TABLE channel_updates DROP COLUMN chain_hash"
      ∷ execute "ALTER TABLE channel_announcements DROP COLUMN chain_hash"
      ∷ [];
  db_schema = 2;
}

abbrev pub to_schema_3 : Migration
to_schema_3 = record {
  last = 2;
  actions =
      execute "ALTER TABLE channel_updates DROP COLUMN short_channel_id"
      ∷ execute "ALTER TABLE channel_updates ADD COLUMN short_channel_id bigint DEFAULT null"
      ∷ execute "ALTER TABLE channel_updates DROP COLUMN direction"
      ∷ execute "ALTER TABLE channel_updates ADD COLUMN direction boolean DEFAULT null"
      ∷ fill_update_columns
      ∷ execute "ALTER TABLE channel_updates ALTER short_channel_id DROP DEFAULT"
      ∷ execute "ALTER TABLE channel_updates ALTER short_channel_id SET NOT NULL"
      ∷ execute "ALTER TABLE channel_updates ALTER direction DROP DEFAULT"
      ∷ execute "ALTER TABLE channel_updates ALTER direction SET NOT NULL"
      ∷ [];
  db_schema = 3;
}

abbrev pub to_schema_4 : Migration
to_schema_4 = record {
  last = 3;
  actions =
      execute "ALTER TABLE channel_announcements DROP COLUMN short_channel_id"
      ∷ execute "ALTER TABLE channel_announcements ADD COLUMN short_channel_id bigint DEFAULT null"
      ∷ fill_announcement_scids
      ∷ execute
          "ALTER TABLE channel_announcements ADD CONSTRAINT channel_announcements_short_channel_id_key UNIQUE (short_channel_id)"
      ∷ execute "ALTER TABLE channel_announcements ALTER short_channel_id DROP DEFAULT"
      ∷ execute "ALTER TABLE channel_announcements ALTER short_channel_id SET NOT NULL"
      ∷ [];
  db_schema = 4;
}

abbrev pub to_schema_5 : Migration
to_schema_5 = record {
  last = 4;
  actions =
      execute "ALTER TABLE channel_updates ALTER composite_index SET DATA TYPE character(29)" ∷ [];
  db_schema = 5;
}

abbrev pub to_schema_6 : Migration
to_schema_6 = record {
  last = 5;
  actions =
      execute "ALTER TABLE channel_updates ALTER channel_flags SET DATA TYPE smallint"
      ∷ execute "ALTER TABLE channel_announcements DROP COLUMN block_height"
      ∷ [];
  db_schema = 6;
}

abbrev pub to_schema_7 : Migration
to_schema_7 = record {
  last = 6;
  actions =
      execute "ALTER TABLE channel_updates DROP COLUMN composite_index"
      ∷ execute "ALTER TABLE channel_updates ALTER timestamp SET NOT NULL"
      ∷ execute "ALTER TABLE channel_updates ALTER channel_flags SET NOT NULL"
      ∷ execute "ALTER TABLE channel_updates ALTER disable SET NOT NULL"
      ∷ execute "ALTER TABLE channel_updates ALTER cltv_expiry_delta SET NOT NULL"
      ∷ execute "ALTER TABLE channel_updates ALTER htlc_minimum_msat SET NOT NULL"
      ∷ execute "ALTER TABLE channel_updates ALTER fee_base_msat SET NOT NULL"
      ∷ execute "ALTER TABLE channel_updates ALTER fee_proportional_millionths SET NOT NULL"
      ∷ execute "ALTER TABLE channel_updates ALTER htlc_maximum_msat SET NOT NULL"
      ∷ execute "ALTER TABLE channel_updates ALTER blob_signed SET NOT NULL"
      ∷ execute
          "CREATE UNIQUE INDEX channel_updates_key ON channel_updates (short_channel_id, direction, timestamp)"
      ∷ [];
  db_schema = 7;
}

abbrev pub to_schema_8 : Migration
to_schema_8 = record {
  last = 7;
  actions =
      execute "DROP INDEX IF EXISTS channels_seen"
      ∷ execute "DROP INDEX IF EXISTS channel_updates_scid"
      ∷ execute "DROP INDEX IF EXISTS channel_updates_direction"
      ∷ execute "DROP INDEX IF EXISTS channel_updates_seen"
      ∷ execute "DROP INDEX IF EXISTS channel_updates_scid_seen"
      ∷ execute "DROP INDEX IF EXISTS channel_updates_scid_dir_seen"
      ∷ [];
  db_schema = 8;
}

abbrev pub to_schema_9 : Migration
to_schema_9 = record {
  last = 8;
  actions =
      execute "DROP INDEX IF EXISTS channel_updates_seen"
      ∷ execute "DROP INDEX IF EXISTS channel_updates_scid_seen"
      ∷ [];
  db_schema = 9;
}

abbrev pub to_schema_10 : Migration
to_schema_10 = record {
  last = 9;
  actions = execute "DROP INDEX IF EXISTS channel_updates_scid_dir_seen" ∷ [];
  db_schema = 10;
}

abbrev pub to_schema_11 : Migration
to_schema_11 = record {
  last = 10;
  actions = execute "DROP INDEX IF EXISTS channel_updates_id_with_scid_dir_blob" ∷ [];
  db_schema = 11;
}

abbrev pub to_schema_12 : Migration
to_schema_12 = record {
  last = 11;
  actions = execute "DROP INDEX IF EXISTS channel_updates_seen_with_id_direction_blob" ∷ [];
  db_schema = 12;
}

abbrev pub to_schema_13 : Migration
to_schema_13 = record {
  last = 12;
  actions = execute "DROP INDEX IF EXISTS channel_updates_timestamp_desc" ∷ [];
  db_schema = 13;
}

abbrev pub to_schema_14 : Migration
to_schema_14 = record { last = 13; actions = []; db_schema = 14 }

abbrev pub migrations : List Migration
migrations =
    to_schema_2 ∷ to_schema_3 ∷ to_schema_4 ∷ to_schema_5 ∷ to_schema_6 ∷ to_schema_7 ∷ to_schema_8
    ∷ to_schema_9 ∷ to_schema_10 ∷ to_schema_11 ∷ to_schema_12 ∷ to_schema_13 ∷ to_schema_14 ∷ []
