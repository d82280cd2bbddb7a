-- ===== src/Lookup/Marks.antt =====
-- The mutation marks of one direction of a channel in `fetch_channel_updates` of src/lookup.rs.
use rapid_gossip_sync_server.Prelude.{ℕ, Option, none, some, Bool, true, false, ◌≡◌, arith}
use rapid_gossip_sync_server.Ldk.{UnsignedChannelUpdate}
use rapid_gossip_sync_server.Serialization.{MutatedProperties}
use rapid_gossip_sync_server.Lookup.{UpdateDelta, DirectedUpdateDelta}
use rapid_gossip_sync_server.Lookup.Keyed.{OnSome, IsUpdateOf}
use rapid_gossip_sync_server.Lookup.Updates.{
  mark_mutations, determine_mutations, set_latest, set_before,
}

-- Every property in which `latest` differs from `before` is marked.
pub record MarksAll (m : MutatedProperties) (latest before : UnsignedChannelUpdate) : Type 0 where
  pub flags : m.flags ≡ false → latest.channel_flags ≡ before.channel_flags
  pub cltv : m.cltv_expiry_delta ≡ false → latest.cltv_expiry_delta ≡ before.cltv_expiry_delta
  pub htlc_min : m.htlc_minimum_msat ≡ false → latest.htlc_minimum_msat ≡ before.htlc_minimum_msat
  pub base : m.fee_base_msat ≡ false → latest.fee_base_msat ≡ before.fee_base_msat
  pub prop :
      m.fee_proportional_millionths ≡ false
      → latest.fee_proportional_millionths ≡ before.fee_proportional_millionths
  pub htlc_max : m.htlc_maximum_msat ≡ false → latest.htlc_maximum_msat ≡ before.htlc_maximum_msat

pub mark_mutations-MarksAll :
    (u last : UnsignedChannelUpdate) (m : MutatedProperties)
    → MarksAll (mark_mutations u last m) u last
unfolding mark_mutations
mark_mutations-MarksAll u last m = ground arith

pub mark_mutations_keep :
    (u last latest : UnsignedChannelUpdate) (m : MutatedProperties)
    → MarksAll m latest last
    → MarksAll (mark_mutations u last m) latest last
unfolding mark_mutations
mark_mutations_keep u last latest m h = ground arith

abbrev pub MarksBoth : MutatedProperties → Option UpdateDelta → Option UpdateDelta → Type 0
MarksBoth m none before = Unit
MarksBoth m (some latest) none = Unit
MarksBoth m (some latest) (some before) = MarksAll m latest.update before.update

-- A direction of the channel `id`: its messages carry that scid, and the marks are complete.
pub record IsMarked (id : ℕ) (d : DirectedUpdateDelta) : Type 0 where
  pub before_keyed : OnSome (IsUpdateOf id) d.last_update_before_seen
  pub latest_keyed : OnSome (IsUpdateOf id) d.latest_update_after_seen
  pub marked : MarksBoth d.mutated_properties d.latest_update_after_seen d.last_update_before_seen

-- Before the second loop there is no latest update.
pub record IsReference (id : ℕ) (d : DirectedUpdateDelta) : Type 0 where
  pub before_keyed : OnSome (IsUpdateOf id) d.last_update_before_seen
  pub no_latest : d.latest_update_after_seen ≡ none

-- No update is noted, neither an earlier nor a latest one.
pub record IsFresh (id : ℕ) (d : DirectedUpdateDelta) : Type 0 where
  pub no_before : d.last_update_before_seen ≡ none
  pub no_latest : d.latest_update_after_seen ≡ none

pub IsFresh-IsReference : (id : ℕ) (d : DirectedUpdateDelta) → IsFresh id d → IsReference id d
IsFresh-IsReference id d h = record { before_keyed = rw h.no_before tt; no_latest = h.no_latest }

pub set_before-IsReference :
    (id : ℕ) (u : UpdateDelta) (d : DirectedUpdateDelta)
    → IsUpdateOf id u
    → IsReference id d
    → IsReference id (set_before u d)
unfolding set_before
set_before-IsReference id u d e h = record { before_keyed = e; no_latest = h.no_latest }

pub IsReference-IsMarked : (id : ℕ) (d : DirectedUpdateDelta) → IsReference id d → IsMarked id d
IsReference-IsMarked id d h = record {
  before_keyed = h.before_keyed;
  latest_keyed = rw h.no_latest tt;
  marked = rw h.no_latest tt;
}

module _ (id : ℕ) (u : UpdateDelta) (e : IsUpdateOf id u) where
  pub determine-IsMarked :
      (before latest : Option UpdateDelta) (m : MutatedProperties) (flags : Option ℕ) (first : Bool)
      → IsMarked id (record {
        last_update_before_seen = before;
        latest_update_after_seen = latest;
        mutated_properties = m;
        serialization_update_flags = flags;
      })
      → IsMarked id (
          determine_mutations u.update (
            set_latest first u (record {
              last_update_before_seen = before;
              latest_update_after_seen = latest;
              mutated_properties = m;
              serialization_update_flags = flags;
            })))
  unfolding determine_mutations set_latest
  determine-IsMarked none latest m flags true h = record {
    before_keyed = tt;
    latest_keyed = e;
    marked = tt;
  }
  determine-IsMarked none latest m flags false h = h
  determine-IsMarked (some b) latest m flags true h = record {
    before_keyed = h.before_keyed;
    latest_keyed = e;
    marked = mark_mutations-MarksAll u.update b.update m;
  }
  determine-IsMarked (some b) none m flags false h = record {
    before_keyed = h.before_keyed;
    latest_keyed = tt;
    marked = tt;
  }
  determine-IsMarked (some b) (some l) m flags false h = record {
    before_keyed = h.before_keyed;
    latest_keyed = h.latest_keyed;
    marked = mark_mutations_keep u.update b.update l.update m h.marked;
  }
