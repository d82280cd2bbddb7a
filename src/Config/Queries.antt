-- ===== src/Config/Queries.antt =====
-- The texts of src/config.rs that create the tables and the indices.
use Prim.Native.String.{String}

abbrev pub db_config_table_creation_query : String
db_config_table_creation_query =
    "CREATE TABLE IF NOT EXISTS config (\n\t\tid SERIAL PRIMARY KEY,\n\t\tdb_schema integer\n\t)"

abbrev pub db_announcement_table_creation_query : String
db_announcement_table_creation_query =
    "CREATE TABLE IF NOT EXISTS channel_announcements (\n\t\tid SERIAL PRIMARY KEY,\n\t\tshort_channel_id bigint NOT NULL UNIQUE,\n\t\tfunding_amount_sats bigint NOT NULL,\n\t\tannouncement_signed BYTEA,\n\t\tseen timestamp NOT NULL DEFAULT NOW()\n\t)"

abbrev pub db_channel_update_table_creation_query : String
db_channel_update_table_creation_query =
    "CREATE TABLE IF NOT EXISTS channel_updates (\n\t\tid SERIAL PRIMARY KEY,\n\t\tshort_channel_id bigint NOT NULL,\n\t\ttimestamp bigint NOT NULL,\n\t\tchannel_flags smallint NOT NULL,\n\t\tdirection boolean NOT NULL,\n\t\tdisable boolean NOT NULL,\n\t\tcltv_expiry_delta integer NOT NULL,\n\t\thtlc_minimum_msat bigint NOT NULL,\n\t\tfee_base_msat integer NOT NULL,\n\t\tfee_proportional_millionths integer NOT NULL,\n\t\thtlc_maximum_msat bigint NOT NULL,\n\t\tblob_signed BYTEA NOT NULL,\n\t\tseen timestamp NOT NULL DEFAULT NOW()\n\t)"

abbrev pub db_node_announcement_table_creation_query : String
db_node_announcement_table_creation_query =
    "CREATE TABLE IF NOT EXISTS node_announcements (\n\t\tid SERIAL PRIMARY KEY,\n\t\tpublic_key varchar(66) NOT NULL,\n\t\tfeatures BYTEA NOT NULL,\n\t\tsocket_addresses BYTEA NOT NULL,\n\t\ttimestamp bigint NOT NULL,\n\t\tannouncement_signed BYTEA,\n\t\tseen timestamp NOT NULL DEFAULT NOW()\n\t)"

abbrev pub db_index_creation_query : String
db_index_creation_query =
    "\n\tCREATE INDEX IF NOT EXISTS channel_updates_seen_scid ON channel_updates(seen, short_channel_id);\n\tCREATE INDEX IF NOT EXISTS channel_updates_scid_dir_seen_asc ON channel_updates(short_channel_id, direction, seen);\n\tCREATE INDEX IF NOT EXISTS channel_updates_scid_dir_seen_desc_with_id ON channel_updates(short_channel_id ASC, direction ASC, seen DESC) INCLUDE (id);\n\tCREATE UNIQUE INDEX IF NOT EXISTS channel_updates_key ON channel_updates (short_channel_id, direction, timestamp);\n\tCREATE INDEX IF NOT EXISTS channel_updates_seen ON channel_updates(seen);\n\tCREATE INDEX IF NOT EXISTS channel_updates_scid_asc_timestamp_desc ON channel_updates(short_channel_id ASC, timestamp DESC);\n\tCREATE INDEX IF NOT EXISTS node_announcements_seen_pubkey ON node_announcements(seen, public_key);\n\t"
