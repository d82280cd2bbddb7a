-- ===== src/Server/ReadSnapshot.antt =====
-- The client's reading of a whole snapshot of version 1: the specification of `serialize_delta`.
use rapid_gossip_sync_server.Prelude.{
  ℕ, zero, suc, List, [], ◌∷◌, Option, none, some, if◌then◌else◌, ◌==◌,
}
use rapid_gossip_sync_server.Ldk.{Ldk}
use rapid_gossip_sync_server.Serialization.{DefaultUpdateValues}
use rapid_gossip_sync_server.Serialization.DeltaSet.{ChannelAnnouncement}
use rapid_gossip_sync_server.Serialization.ReadUpdate.{Received, ◌>>=◌}
use rapid_gossip_sync_server.Server.UpdateStream.{read_updates}
use rapid_gossip_sync_server.Server.AnnouncementStream.{read_announcements}

-- One given byte.
abbrev pub expect : ℕ → List ℕ → Option (List ℕ)
expect byte [] = none
expect byte (b ∷ bytes) = if b == byte then some bytes else none

module _ (ldk : Ldk) where
  open ldk use {ChainHash, NodeId, ints, chain_hash, node_id}

  pub record Snapshot : Type 0 where
    pub chain_hash : ChainHash
    pub latest_seen : ℕ
    pub node_ids : List NodeId
    pub announcements : List (ChannelAnnouncement ldk)
    pub updates : List Received

  unfoldable pub read_node_ids : ℕ → List ℕ → Option (List NodeId × List ℕ)
  read_node_ids zero bytes = some ([], bytes)
  read_node_ids (suc count) bytes = elim (node_id.read bytes) [
    | none ↦ none
    | some (id, bytes') ↦ elim (read_node_ids count bytes') [
      | none ↦ none
      | some (others, rest) ↦ some (id ∷ others, rest)
    ]
  ]

  -- The defaults are there only if there are updates.
  unfoldable pub read_defaults : List ℕ → Option (DefaultUpdateValues × List ℕ)
  read_defaults bytes = do
    c ← ints.u16.read bytes
    h ← ints.u64.read c.1
    b ← ints.u32.read h.1
    p ← ints.u32.read b.1
    m ← ints.u64.read p.1
    some (
      record {
        cltv_expiry_delta = c.0;
        htlc_minimum_msat = h.0;
        fee_base_msat = b.0;
        fee_proportional_millionths = p.0;
        htlc_maximum_msat = m.0;
      },
      m.1,
    )

  unfoldable pub read_update_section : List ℕ → Option (List Received × List ℕ)
  read_update_section bytes = do
    count ← ints.u32.read bytes
    elim count.0 [
      | zero ↦ some ([], count.1)
      | suc more ↦ do d ← read_defaults count.1; read_updates ints d.0 (suc more) 0 d.1
    ]

  unfoldable pub read_snapshot : List ℕ → Option (Snapshot × List ℕ)
  read_snapshot bytes = do
    b1 ← expect 76 bytes
    b2 ← expect 68 b1
    b3 ← expect 75 b2
    b4 ← expect 1 b3
    hash ← chain_hash.read b4
    seen ← ints.u32.read hash.1
    node_count ← ints.u32.read seen.1
    ids ← read_node_ids node_count.0 node_count.1
    announcement_count ← ints.u32.read ids.1
    announcements ← read_announcements ldk ids.0 announcement_count.0 0 announcement_count.1
    updates ← read_update_section announcements.1
    some (
      record {
        chain_hash = hash.0;
        latest_seen = seen.0;
        node_ids = ids.0;
        announcements = announcements.0;
        updates = updates.0;
      },
      updates.1,
    )
