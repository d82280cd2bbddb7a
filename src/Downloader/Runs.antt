-- ===== src/Downloader/Runs.antt =====
-- Runs of the router of src/downloader.rs, over any sequence of what may happen to it.
use rapid_gossip_sync_server.Prelude.{ℕ, Bool, List, [], ◌∷◌, Option, Result, ok, ◌>>=◌}
use rapid_gossip_sync_server.Types.{SignedMessages, GossipMessage}
use rapid_gossip_sync_server.Verifier.{Chain, get_utxo}
use rapid_gossip_sync_server.Downloader.Channels.{Channel, WhenFull, recv}
use rapid_gossip_sync_server.Downloader.{
  new_counter, NativeRouter, GossipRouter, handle_node_announcement, handle_channel_announcement,
  handle_channel_update, get_and_clear_pending_msg_events,
}

module _ (signed : SignedMessages) (native : NativeRouter signed) (chain : Chain) where
  open signed use {NodeAnnouncement, ChannelAnnouncement, ChannelUpdate}
  open native use {State, PublicKey}

  -- A peer's message, the poll for pending events, a message that the persister takes, a change of
  -- what the persister does (whether its end is closed, and what it does on a full channel), the
  -- task of a lookup, and a change of the state of one of the two `P2PGossipSync`.
  pub data Action : Type 0 where
    node_arrives : Option PublicKey → NodeAnnouncement → Action
    channel_arrives : Option PublicKey → ChannelAnnouncement → Action
    update_arrives : Option PublicKey → ChannelUpdate → Action
    polled : Action
    persister_takes : Action
    persister_turns : Bool → WhenFull → Action
    looks_up : ℕ → Action
    native_moves : State → Action
    gossiper_moves : State → Action

  unfoldable pub act : GossipRouter signed native → Action → Result (GossipRouter signed native)
  act router (node_arrives peer msg) =
      handle_node_announcement signed native chain router peer msg >>= (λ p. ok p.1)
  act router (channel_arrives peer msg) =
      handle_channel_announcement signed native chain router peer msg >>= (λ p. ok p.1)
  act router (update_arrives peer msg) =
      handle_channel_update signed native chain router peer msg >>= (λ p. ok p.1)
  act router polled = get_and_clear_pending_msg_events signed native chain router >>= (λ p. ok p.1)
  act router persister_takes = ok (record router { sender = recv router.sender })
  act router (persister_turns closed full) =
      ok (record router { sender = record router.sender { is_closed = closed; when_full = full } })
  act router (looks_up scid) =
      get_utxo chain router.amounts scid >>= (λ p. ok (record router { amounts = p.1 }))
  act router (native_moves state) = ok (record router { native_router = state })
  act router (gossiper_moves state) = ok (record router { outbound_gossiper = state })

  unfoldable pub run :
      GossipRouter signed native → List Action → Result (GossipRouter signed native)
  run router [] = ok router
  run router (action ∷ actions) = do router' ← act router action; run router' actions

  -- `GossipRouter::new`, with the states that `P2PGossipSync::new` gives.
  abbrev pub new_router :
      State → State → Channel (GossipMessage signed) → GossipRouter signed native
  new_router started outbound sender = record {
    native_router = started;
    counter = new_counter;
    sender = sender;
    amounts = [];
    outbound_gossiper = outbound;
  }
