-- ===== src/Server/SnapshotRoundTrip.antt =====
-- A snapshot of version 1 that `serialize_delta` writes is read back by the client.
use rapid_gossip_sync_server.Prelude.{
  ℕ, suc, ◌+◌, ◌*◌, ◌^◌, ◌<◌, List, [], ◌∷◌, ◌++◌, map, some, length, All, ok, ◌≡◌, refl, arith,
  append_assoc,
}
use rapid_gossip_sync_server.Ldk.{Ldk}
use rapid_gossip_sync_server.Serialization.{DefaultUpdateValues, UpdateSerialization}
use rapid_gossip_sync_server.Serialization.Histograms.{HashOrder}
use rapid_gossip_sync_server.Serialization.DeltaSet.{SerializationSet}
use rapid_gossip_sync_server.Serialization.ReadUpdate.{meaning}
use rapid_gossip_sync_server.Serialization.UpdateRoundTrip.{FitsMessage}
use rapid_gossip_sync_server.Lookup.{NodeDeltaSet}
use rapid_gossip_sync_server.Server.{SerializedResponse, gossip_prefix}
use rapid_gossip_sync_server.Server.NodeDelta.{NodeCounts, serialize_node_id, serialize_node_ids}
use rapid_gossip_sync_server.Server.NodeIndex.{NodeIndex, no_nodes}
use rapid_gossip_sync_server.Server.IndexLaws.{no_nodes-IsIndexed}
use rapid_gossip_sync_server.Server.UpdateStream.{IsSorted, read_updates, read_updates-serialize}
use rapid_gossip_sync_server.Server.AnnouncementStream.{
  AreSorted, FitsScid, Announces, serialize_announcements_lem,
}
use rapid_gossip_sync_server.Server.SerializeDelta.{
  as_u32, count_updates, serialize_updates, serialize_announcements, write_defaults,
  serialized_seen, index_nodes, write_feature_defaults, serialize_delta,
}
use rapid_gossip_sync_server.Server.ReadSnapshot.{
  Snapshot, read_node_ids, read_defaults, read_update_section, read_snapshot,
}

pub record FitsDefaults (d : DefaultUpdateValues) : Type 0 where
  pub cltv_fits : d.cltv_expiry_delta < 2 ^ 16
  pub htlc_min_fits : d.htlc_minimum_msat < 2 ^ 64
  pub base_fits : d.fee_base_msat < 2 ^ 32
  pub prop_fits : d.fee_proportional_millionths < 2 ^ 32
  pub htlc_max_fits : d.htlc_maximum_msat < 2 ^ 64

module _ (ldk : Ldk) where
  open ldk use {NodeId, NodeFeatures, ints, chain_hash, node_id}

  abbrev written_ids : List NodeId → List ℕ
  written_ids [] = []
  written_ids (id ∷ ids) = node_id.write id ++ written_ids ids

  -- Version 1 has nothing of a node but its id.
  serialize_node_ids_v1 :
      (defaults : List NodeFeatures) (nodes : NodeDeltaSet ldk) (ids : List NodeId)
      (counts : NodeCounts)
      → serialize_node_ids ldk 1 defaults nodes ids counts ≡ ok (written_ids ids, counts)
  unfolding serialize_node_ids serialize_node_id
  serialize_node_ids_v1 defaults nodes [] counts = refl
  serialize_node_ids_v1 defaults nodes (id ∷ ids) counts =
      rw (serialize_node_ids_v1 defaults nodes ids counts) refl

  read_node_ids_lem :
      (ids : List NodeId) (rest : List ℕ)
      → read_node_ids ldk (length ids) (written_ids ids ++ rest) ≡ some (ids, rest)
  unfolding read_node_ids
  read_node_ids_lem [] rest = refl
  read_node_ids_lem (id ∷ ids) rest = ground (
    arith,
    append_assoc (node_id.write id) (written_ids ids) rest,
    node_id.read_write id (written_ids ids ++ rest) tt,
    read_node_ids_lem ids rest,
  )

  abbrev default_bytes : DefaultUpdateValues → List ℕ
  default_bytes d =
      ints.u16.write d.cltv_expiry_delta
      ++ (ints.u64.write d.htlc_minimum_msat
          ++ (ints.u32.write d.fee_base_msat
              ++ (ints.u32.write d.fee_proportional_millionths
                  ++ ints.u64.write d.htlc_maximum_msat)))

  write_defaults_lem :
      (d : DefaultUpdateValues) (count : ℕ) → write_defaults ints (suc count) d ≡ default_bytes d
  unfolding write_defaults
  write_defaults_lem d count = ground arith

  read_defaults_lem :
      (d : DefaultUpdateValues) (rest : List ℕ)
      → FitsDefaults d
      → read_defaults ldk (default_bytes d ++ rest) ≡ some (d, rest)
  unfolding read_defaults
  read_defaults_lem d rest fits = simp (
    append_assoc,
    ints.u16.read_write d.cltv_expiry_delta _ fits.cltv_fits,
    ints.u64.read_write d.htlc_minimum_msat _ fits.htlc_min_fits,
    ints.u32.read_write d.fee_base_msat _ fits.base_fits,
    ints.u32.read_write d.fee_proportional_millionths _ fits.prop_fits,
    ints.u64.read_write d.htlc_maximum_msat _ fits.htlc_max_fits,
  )

  read_update_section_lem :
      (d : DefaultUpdateValues) (updates : List UpdateSerialization) (bytes rest : List ℕ)
      → FitsDefaults d
      → length updates < 2 ^ 32
      → ((more : List ℕ)
          → read_updates ints d (length updates) 0 (bytes ++ more)
            ≡ some (map meaning updates, more))
      → read_update_section ldk (
          ints.u32.write (length updates)
          ++ (write_defaults ints (length updates) d ++ (bytes ++ rest)))
        ≡ some (map meaning updates, rest)
  unfolding read_update_section
  read_update_section_lem d [] bytes rest fits small reads =
      rw (ints.u32.read_write 0 _ (omega arith)) (unfold read_updates write_defaults in reads rest)
  read_update_section_lem d (u ∷ us) bytes rest fits small reads =
      rw (ints.u32.read_write (suc (length us)) _ small)
        (rw (write_defaults_lem, read_defaults_lem d (bytes ++ rest) fits) (reads rest))

  -- What a set must be for its snapshot: scids do not descend, the flags use two bits, and counts
  -- and values fit their types.
  pub record IsSerializable (details : SerializationSet ldk) : Type 0 where
    pub announcements_sorted : AreSorted ldk 0 details.announcements
    pub announcements_fit : All (FitsScid ldk) details.announcements
    pub few_announcements : 2 * length details.announcements < 2 ^ 32
    pub updates_sorted : IsSorted 0 details.updates
    pub updates_fit : All FitsMessage details.updates
    pub few_updates : length details.updates < 2 ^ 32
    pub defaults_fit : FitsDefaults details.full_update_defaults
    pub seen_fits : details.latest_seen < 2 ^ 32

  module _ (interval : ℕ) (details : SerializationSet ldk) where
    abbrev output : List ℕ → List ℕ → List ℕ
    output announcement_bytes update_bytes =
        ints.u32.write (as_u32 (length details.announcements))
        ++ (announcement_bytes
            ++ (ints.u32.write (as_u32 (length details.updates))
                ++ (write_defaults ints (as_u32 (length details.updates))
                      details.full_update_defaults
                    ++ update_bytes)))

    abbrev pub response_v1 : List ℕ → List ℕ → List NodeId → SerializedResponse
    response_v1 announcement_bytes update_bytes node_ids = record {
      bytes =
          gossip_prefix
          ++ (1
              ∷ (chain_hash.write details.chain_hash
                  ++ (ints.u32.write (serialized_seen details.latest_seen interval)
                      ++ ([]
                          ++ (ints.u32.write (as_u32 (length node_ids))
                              ++ (written_ids node_ids
                                  ++ output announcement_bytes update_bytes))))));
      message_count =
          as_u32 (as_u32 (length details.announcements) + as_u32 (length details.updates));
      node_announcement_count = as_u32 (length node_ids);
      node_update_count = 0;
      node_feature_update_count = 0;
      node_address_update_count = 0;
      channel_announcement_count = as_u32 (length details.announcements);
      update_count = as_u32 (length details.updates);
      update_count_full = (count_updates details.updates (0, 0)).0;
      update_count_incremental = (count_updates details.updates (0, 0)).1;
    }

    pub serialize_delta_v1 :
        (order : HashOrder) (a_bytes u_bytes : List ℕ) (n : NodeIndex ldk)
        → serialize_announcements ldk details.announcements 0 (no_nodes ldk) ≡ ok (a_bytes, n)
        → serialize_updates ints details.full_update_defaults details.updates 0 ≡ ok u_bytes
        → serialize_delta ldk order interval details 1 ≡ ok (response_v1 a_bytes u_bytes n.node_ids)
    unfolding serialize_delta index_nodes write_feature_defaults
    serialize_delta_v1 order a_bytes u_bytes n announced updated =
        rw (announced, updated, serialize_node_ids_v1) refl

    as_u32_lem : (n : ℕ) → n < 2 ^ 32 → as_u32 n ≡ n
    as_u32_lem n h = omega arith

    seen_fits : details.latest_seen < 2 ^ 32 → serialized_seen details.latest_seen interval < 2 ^ 32
    unfolding serialized_seen
    seen_fits h = omega arith

    snapshot_v1 : List NodeId → Snapshot ldk
    snapshot_v1 node_ids = record {
      chain_hash = details.chain_hash;
      latest_seen = serialized_seen details.latest_seen interval;
      node_ids = node_ids;
      announcements = details.announcements;
      updates = map meaning details.updates;
    }

    read_response_v1 :
        (a_bytes u_bytes : List ℕ) (n : NodeIndex ldk) (rest : List ℕ)
        → IsSerializable details
        → Announces ldk details.announcements 0 (no_nodes ldk) a_bytes n
        → ((more : List ℕ)
            → read_updates ints details.full_update_defaults
                (length details.updates)
                0
                (u_bytes ++ more)
              ≡ some (map meaning details.updates, more))
        → read_snapshot ldk ((response_v1 a_bytes u_bytes n.node_ids).bytes ++ rest)
          ≡ some (snapshot_v1 n.node_ids, rest)
    unfolding read_snapshot snapshot_v1
    read_response_v1 a_bytes u_bytes n rest h a reads =
        let few_nodes : length n.node_ids < 2 ^ 32 =
          omega (arith, a.bounded, h.few_announcements) in
        let few : length details.announcements < 2 ^ 32 = omega (arith, h.few_announcements) in
        simp (
          append_assoc,
          as_u32_lem (length n.node_ids) few_nodes,
          as_u32_lem (length details.announcements) few,
          as_u32_lem (length details.updates) h.few_updates,
          chain_hash.read_write details.chain_hash _ tt,
          ints.u32.read_write _ _ (seen_fits h.seen_fits),
          ints.u32.read_write (length n.node_ids) _ few_nodes,
          read_node_ids_lem,
          ints.u32.read_write (length details.announcements) _ few,
          a.reads n.node_ids _ (λ i id e. e),
          read_update_section_lem details.full_update_defaults details.updates u_bytes rest
              h.defaults_fit h.few_updates reads,
        )

  -- With a positive interval, the first version of a snapshot is serialized without a panic if the
  -- set is serializable. Whatever bytes follow, the client reads off it the chain hash, the
  -- rounded timestamp, every announcement with its node ids, and the meaning of every update, all
  -- in order.
  pub read_snapshot-serialize_delta :
      (order : HashOrder) (snapshot_interval : ℕ) (details : SerializationSet ldk)
      → 0 < snapshot_interval
      → IsSerializable details
      → (response : SerializedResponse) × (snapshot : Snapshot ldk) × (serialize_delta ldk order
            snapshot_interval details 1
          ≡ ok response)
        × ((rest : List ℕ) → read_snapshot ldk (response.bytes ++ rest) ≡ some (snapshot, rest))
        × (snapshot.chain_hash ≡ details.chain_hash)
        × (snapshot.latest_seen ≡ serialized_seen details.latest_seen snapshot_interval)
        × (snapshot.announcements ≡ details.announcements)
        × (snapshot.updates ≡ map meaning details.updates)
  unfolding snapshot_v1
  read_snapshot-serialize_delta order interval details positive h =
      let (a_bytes, n, a) =
        serialize_announcements_lem ldk details.announcements 0 (no_nodes ldk)
          (no_nodes-IsIndexed ldk) h.announcements_sorted h.announcements_fit
          (omega (arith, h.few_announcements)) in
      let (u_bytes, wrote, reads) =
        read_updates-serialize ints details.full_update_defaults details.updates 0 h.updates_sorted
          h.updates_fit in
      (
        response_v1 interval details a_bytes u_bytes n.node_ids,
        snapshot_v1 interval details n.node_ids,
        serialize_delta_v1 interval details order a_bytes u_bytes n a.returns wrote,
        λ rest. read_response_v1 interval details a_bytes u_bytes n rest h a reads,
        refl,
        refl,
        refl,
        refl,
      )
