-- ===== src/Tests/Updates.antt =====
-- The theorems on single updates and their stream, at concrete inputs.
use rapid_gossip_sync_server.Prelude.{
  ℕ, ◌^◌, All, List, [], ◌∷◌, ◌++◌, map, none, some, ok, true, false, length, ◌≡◌, ◌⊎◌, ◌<◌, refl,
  arith, panic, unsorted_scids,
}
use rapid_gossip_sync_server.Ldk.{FitsUpdate}
use rapid_gossip_sync_server.Lookup.{UpdateDelta, DirectedUpdateDelta}
use rapid_gossip_sync_server.Lookup.Marks.{MarksAll}
use rapid_gossip_sync_server.Serialization.{
  UpdateSerialization, MutatedProperties, no_mutations, scid, full, incremental, reminder,
}
use rapid_gossip_sync_server.Serialization.StripUpdate.{serialize_stripped_channel_update}
use rapid_gossip_sync_server.Serialization.ReadUpdate.{read_update, meaning}
use rapid_gossip_sync_server.Serialization.UpdateRoundTrip.{FitsMessage, read_update-serialize}
use rapid_gossip_sync_server.Serialization.Categorize.{
  ChannelContext, Progress, empty_histograms, categorize_directed_update_serialization,
}
use rapid_gossip_sync_server.Serialization.Convergence.{
  Brings, values_of, categorize_directed-Brings,
}
use rapid_gossip_sync_server.Server.UpdateStream.{
  IsSorted, read_updates, read_updates-serialize, serialize_updates_total,
}
use rapid_gossip_sync_server.Server.SerializeDelta.{serialize_updates}
use rapid_gossip_sync_server.Tests.{toy_ints, toy_update, toy_defaults}

pub toy_fits :
    (id bits base : ℕ) → id < 2 ^ 32 → base < 2 ^ 32 → FitsUpdate (toy_update id bits base)
toy_fits id bits base h k = record {
  scid_fits = omega arith;
  cltv_fits = omega arith;
  htlc_min_fits = omega arith;
  base_fits = k;
  prop_fits = omega arith;
  htlc_max_fits = omega arith;
}

abbrev pub base_changed : MutatedProperties
base_changed = record no_mutations { fee_base_msat = true }

abbrev pub three_updates : List UpdateSerialization
three_updates =
    full (toy_update 5 1 1000) ∷ incremental (toy_update 5 0 2000) base_changed ∷ reminder 9 2 ∷ []

pub three_fit : All FitsMessage three_updates
three_fit = (
  (toy_fits 5 1 1000 (omega arith) (omega arith), omega arith),
  ((toy_fits 5 0 2000 (omega arith) (omega arith), omega arith), ((omega arith, omega arith), tt)),
)

read_update-serialize_example :
    (bytes : List ℕ) × (serialize_stripped_channel_update toy_ints
        (incremental (toy_update 5 0 2000) base_changed)
        toy_defaults
        3
      ≡ ok bytes)
    × ((rest : List ℕ)
        → read_update toy_ints toy_defaults 3 (bytes ++ rest)
          ≡ some (meaning (incremental (toy_update 5 0 2000) base_changed), rest))
unfolding scid
read_update-serialize_example =
    read_update-serialize toy_ints (incremental (toy_update 5 0 2000) base_changed) toy_defaults 3
      (omega arith) (toy_fits 5 0 2000 (omega arith) (omega arith), omega arith)

read_updates-serialize_example :
    (bytes : List ℕ) × (serialize_updates toy_ints toy_defaults three_updates 0 ≡ ok bytes)
    × ((rest : List ℕ)
        → read_updates toy_ints toy_defaults (length three_updates) 0 (bytes ++ rest)
          ≡ some (map meaning three_updates, rest))
unfolding scid
read_updates-serialize_example =
    read_updates-serialize toy_ints toy_defaults three_updates 0
      (omega arith, (omega arith, (omega arith, tt))) three_fit

serialize_updates_total_example :
    (IsSorted 7 three_updates
      × ((bytes : List ℕ) × (serialize_updates toy_ints toy_defaults three_updates 7 ≡ ok bytes)))
    ⊎ ((¬ IsSorted 7 three_updates)
        × (serialize_updates toy_ints toy_defaults three_updates 7 ≡ panic unsorted_scids))
serialize_updates_total_example = serialize_updates_total toy_ints toy_defaults three_updates 7

abbrev toy_context : ChannelContext
toy_context = record {
  scid = 5;
  send_announcement = false;
  is_newly_included_announcement = false;
  requires_reminder = false;
  threshold = 50;
}

abbrev toy_before : UpdateDelta
toy_before = record { seen = 80; update = toy_update 5 0 1000 }

abbrev toy_latest : UpdateDelta
toy_latest = record { seen = 120; update = toy_update 5 0 2000 }

abbrev toy_direction : DirectedUpdateDelta
toy_direction = record {
  last_update_before_seen = some toy_before;
  latest_update_after_seen = some toy_latest;
  mutated_properties = base_changed;
  serialization_update_flags = none;
}

abbrev pub no_progress : Progress
no_progress = record { updates = []; latest_seen = 0; histograms = empty_histograms }

base_marked : MarksAll base_changed (toy_update 5 0 2000) (toy_update 5 0 1000)
base_marked = record {
  flags = λ e. refl;
  cltv = λ e. refl;
  htlc_min = λ e. refl;
  base = λ e. cc;
  prop = λ e. refl;
  htlc_max = λ e. refl;
}

categorize_directed-Brings_example :
    (s' : Progress) × (categorize_directed_update_serialization toy_context
        (some toy_direction)
        no_progress
      ≡ ok s')
    × Brings
        (some (values_of (toy_update 5 0 1000)))
        (some (values_of (toy_update 5 0 2000)))
        no_progress
        s'
categorize_directed-Brings_example =
    categorize_directed-Brings toy_context toy_direction toy_latest no_progress refl
      (record { before_keyed = refl; latest_keyed = refl; marked = base_marked }) tt
