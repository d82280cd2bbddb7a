-- ===== src/Startup/Laws.antt =====
-- From the cached graph and the downloader of the repository to the tables: what the parts of the
-- server make of each other's results.
use rapid_gossip_sync_server.Prelude.{
  ℕ, List, [], ◌∷◌, ◌++◌, map, All, All-append, some, Bool-cases, inl, inr, ok, ◌≡◌, refl, ap, ◌∙◌,
}
use rapid_gossip_sync_server.Verifier.{Chain}
use rapid_gossip_sync_server.Verifier.Funding.{IsAmount}
use rapid_gossip_sync_server.Types.{
  SignedMessages, GossipMessage, node_announcement, channel_announcement, channel_update,
}
use rapid_gossip_sync_server.Downloader.Channels.{Channel, sent, IsBounded}
use rapid_gossip_sync_server.Downloader.{NativeRouter, GossipRouter}
use rapid_gossip_sync_server.Downloader.Forwards.{IsGenuine}
use rapid_gossip_sync_server.Downloader.Runs.{Action, run, new_router}
use rapid_gossip_sync_server.Downloader.Accounts.{run-IsAccounted}
use rapid_gossip_sync_server.Persistence.Rows.{as_i64, ChannelAnnouncementRow, insert_of}
use rapid_gossip_sync_server.Persistence.Tables.{
  Tables, same_scid, has_conflict, insert_new, execute,
}
use rapid_gossip_sync_server.Persistence.Inserts.{Graphs, Persister, persist_network_graph}
use rapid_gossip_sync_server.Persistence.Drain.{execute_all}
use rapid_gossip_sync_server.Startup.{initial_graph}

-- A server that starts from the file that the persister has written gets the persister's graph,
-- without stale channels, if `NetworkGraph::read` reads what `write` has written.
pub initial_graph-persist_network_graph :
    (signed : SignedMessages) (graphs : Graphs) (fresh : graphs.Graph) (p : Persister signed graphs)
    → ((graph : graphs.Graph) → graphs.read (graphs.write graph) ≡ some graph)
    → let q = persist_network_graph signed graphs p in
      (initial_graph graphs fresh q.graph_file
        ≡ graphs.remove_stale_channels_and_tracking p.network_graph)
      × (q.network_graph ≡ graphs.remove_stale_channels_and_tracking p.network_graph)
unfolding initial_graph persist_network_graph
initial_graph-persist_network_graph signed graphs fresh p reads = (
  rw (initial_graph, reads (graphs.remove_stale_channels_and_tracking p.network_graph)) refl,
  refl,
)

-- The amount of a row is that of the funding output of its channel.
pub record IsTrueRow (chain : Chain) (row : ChannelAnnouncementRow) : Type 0 where
  pub scid : ℕ
  pub amount : ℕ
  pub row_scid : row.short_channel_id ≡ as_i64 scid
  pub row_amount : row.funding_amount_sats ≡ as_i64 amount
  pub true_amount : IsAmount chain scid amount

module _ (signed : SignedMessages) (native : NativeRouter signed) (chain : Chain) where
  execute-IsTrueRow :
      (tables : Tables) (m : GossipMessage signed)
      → IsGenuine signed native chain m
      → All (IsTrueRow chain) tables.channel_announcements
      → All (IsTrueRow chain) (execute tables (insert_of signed m)).channel_announcements
  unfolding execute insert_of insert_new
  execute-IsTrueRow tables (node_announcement msg seen) genuine h = h
  execute-IsTrueRow tables (channel_update msg seen) genuine h = h
  execute-IsTrueRow tables (channel_announcement msg sats seen) (is, e) h =
      let row : ChannelAnnouncementRow = record {
        short_channel_id = as_i64 (signed.short_channel_id msg);
        funding_amount_sats = as_i64 sats;
        announcement_signed = signed.write_channel_announcement msg;
      } in
      elim (Bool-cases (has_conflict same_scid row tables.channel_announcements)) [
        | inl taken ↦ rw (insert_new, taken) h
        | inr free ↦
            rw (insert_new, free)
              (All-append (IsTrueRow chain) tables.channel_announcements (row ∷ []) h (
                record {
                  scid = signed.short_channel_id msg;
                  amount = sats;
                  row_scid = refl;
                  row_amount = refl;
                  true_amount = is;
                },
                tt,
              ))
      ]

  execute_all-IsTrueRow :
      (messages : List (GossipMessage signed)) (tables : Tables)
      → All (IsGenuine signed native chain) messages
      → All (IsTrueRow chain) tables.channel_announcements
      → All
          (IsTrueRow chain)
          (execute_all (map (insert_of signed) messages) tables).channel_announcements
  unfolding execute_all
  execute_all-IsTrueRow [] tables genuine h = h
  execute_all-IsTrueRow (m ∷ messages) tables genuine h =
      execute_all-IsTrueRow messages _ genuine.1 (execute-IsTrueRow tables m genuine.0 h)

  -- Whatever has happened to a new router on an empty channel with room for a message, as long as
  -- it has not panicked: once the statements for all that it has sent are executed, each row of
  -- `channel_announcements` carries the amount of the funding output that the chain has for its
  -- short channel id, if that was so of the rows before.
  pub run-IsTrueRow :
      (started outbound : native.State) (sender : Channel (GossipMessage signed))
      (actions : List (Action signed native chain)) (router : GossipRouter signed native)
      (tables : Tables)
      → IsBounded sender
      → sent sender ≡ []
      → run signed native chain (new_router signed native chain started outbound sender) actions
        ≡ ok router
      → All (IsTrueRow chain) tables.channel_announcements
      → All
          (IsTrueRow chain)
          (execute_all (map (insert_of signed) (sent router.sender)) tables).channel_announcements
  run-IsTrueRow started outbound sender actions router tables bounded empty e h =
      let a =
        run-IsAccounted signed native chain started outbound sender actions router bounded e in
      let all : sent router.sender ≡ a.messages =
        a.sent_after ∙ ap (λ (before : List (GossipMessage signed)). before ++ a.messages) empty in
      rw all (execute_all-IsTrueRow a.messages tables a.all_genuine h)
