-- ===== src/Downloader/Counts.antt =====
-- The counters of src/downloader.rs, and how many messages of each kind there are.
use rapid_gossip_sync_server.Prelude.{
  ℕ, ◌+◌, ◌%◌, ◌^◌, List, [], ◌∷◌, ◌++◌, ◌≡◌, Bool, true, false, if◌then◌else◌, arith,
}
use rapid_gossip_sync_server.Types.{
  SignedMessages, GossipMessage, node_announcement, channel_announcement, channel_update,
}
use rapid_gossip_sync_server.Verifier.{Chain}
use rapid_gossip_sync_server.Downloader.{GossipCounter, NativeRouter}
use rapid_gossip_sync_server.Downloader.Forwards.{counted}

module _ (signed : SignedMessages) (native : NativeRouter signed) (chain : Chain) where
  abbrev pub is_node : GossipMessage signed → Bool
  is_node (node_announcement msg seen) = true
  is_node (channel_announcement msg sats seen) = false
  is_node (channel_update msg seen) = false

  abbrev pub is_channel : GossipMessage signed → Bool
  is_channel (node_announcement msg seen) = false
  is_channel (channel_announcement msg sats seen) = true
  is_channel (channel_update msg seen) = false

  abbrev pub is_update : GossipMessage signed → Bool
  is_update (node_announcement msg seen) = false
  is_update (channel_announcement msg sats seen) = false
  is_update (channel_update msg seen) = true

  abbrev pub count : (GossipMessage signed → Bool) → List (GossipMessage signed) → ℕ
  count is [] = 0
  count is (m ∷ ms) = (if is m then 1 else 0) + count is ms

  -- The counters tell how many messages of each kind there are, cut to 64 bits.
  pub record Counts (counter : GossipCounter) (messages : List (GossipMessage signed))
      : Type 0 where
    pub nodes : counter.node_announcements ≡ count is_node messages % 2 ^ 64
    pub channels : counter.channel_announcements ≡ count is_channel messages % 2 ^ 64
    pub updates : counter.channel_updates ≡ count is_update messages % 2 ^ 64
    pub without_htlc_max : counter.channel_updates_without_htlc_max_msats ≡ 0
    pub mismatched : counter.channel_announcements_with_mismatched_scripts ≡ 0

  count-snoc :
      (is : GossipMessage signed → Bool) (ms : List (GossipMessage signed))
      (m : GossipMessage signed)
      → count is (ms ++ (m ∷ [])) ≡ count is ms + (if is m then 1 else 0)
  count-snoc is [] m = omega arith
  count-snoc is (x ∷ ms) m = omega (arith, count-snoc is ms m)

  pub counted-Counts :
      (counter : GossipCounter) (ms : List (GossipMessage signed)) (m : GossipMessage signed)
      → Counts counter ms
      → Counts (counted signed native chain m counter) (ms ++ (m ∷ []))
  counted-Counts counter ms (node_announcement msg seen) h = record {
    nodes = omega (arith, h.nodes, count-snoc is_node ms (node_announcement msg seen));
    channels = omega (arith, h.channels, count-snoc is_channel ms (node_announcement msg seen));
    updates = omega (arith, h.updates, count-snoc is_update ms (node_announcement msg seen));
    without_htlc_max = h.without_htlc_max;
    mismatched = h.mismatched;
  }
  counted-Counts counter ms (channel_announcement msg sats seen) h = record {
    nodes = omega (arith, h.nodes, count-snoc is_node ms (channel_announcement msg sats seen));
    channels =
        omega (arith, h.channels, count-snoc is_channel ms (channel_announcement msg sats seen));
    updates =
        omega (arith, h.updates, count-snoc is_update ms (channel_announcement msg sats seen));
    without_htlc_max = h.without_htlc_max;
    mismatched = h.mismatched;
  }
  counted-Counts counter ms (channel_update msg seen) h = record {
    nodes = omega (arith, h.nodes, count-snoc is_node ms (channel_update msg seen));
    channels = omega (arith, h.channels, count-snoc is_channel ms (channel_update msg seen));
    updates = omega (arith, h.updates, count-snoc is_update ms (channel_update msg seen));
    without_htlc_max = h.without_htlc_max;
    mismatched = h.mismatched;
  }
