-- ===== src/Downloader/NeverPanics.antt =====
-- The runs of the router of src/downloader.rs, if what it relies on holds.
use rapid_gossip_sync_server.Prelude.{
  List, [], ◌∷◌, All, none, some, Result, ok, ◌>>=◌, ◌≡◌, ◌≢◌, refl,
}
use rapid_gossip_sync_server.Types.{SignedMessages, GossipMessage}
use rapid_gossip_sync_server.Verifier.{Chain}
use rapid_gossip_sync_server.Verifier.Funding.{get_utxo-Looks}
use rapid_gossip_sync_server.Downloader.Channels.{Channel, sent, IsBounded, IsOpen, recv-IsOpen}
use rapid_gossip_sync_server.Downloader.{
  Answer, NativeRouter, GossipRouter, relay, handle_node_announcement, handle_channel_announcement,
  handle_channel_update, get_and_clear_pending_msg_events,
}
use rapid_gossip_sync_server.Downloader.Runs.{
  Action, node_arrives, channel_arrives, update_arrives, polled, persister_takes, persister_turns,
  looks_up, native_moves, gossiper_moves, act, run, new_router,
}
use rapid_gossip_sync_server.Downloader.Accounts.{IsAccounted, run-IsAccounted}
use rapid_gossip_sync_server.Downloader.Reliance.{
  IsReliable, IsFit, IsHarmless, Returns, moved-IsFit, new_node_announcement-Returns,
  new_channel_update-Returns, new_channel_announcement-Returns, forward_events-Returns,
}

module _ (signed : SignedMessages) (native : NativeRouter signed) (chain : Chain)
    (IsNative IsOutbound : native.State → Type 0) where
  open signed use {NodeAnnouncement, ChannelAnnouncement, ChannelUpdate}
  open native use {State, PublicKey}

  relay-Returns :
      (answer : Answer) (router : GossipRouter signed native)
      (next : Result (GossipRouter signed native))
      → IsFit signed native chain IsNative IsOutbound router
      → (answer ≢ none → Returns signed native chain IsNative IsOutbound next)
      → Returns signed native chain IsNative IsOutbound
          (relay signed native chain answer router next >>= (λ p. ok p.1))
  unfolding relay
  relay-Returns none router next h returns = (router, refl, h)
  relay-Returns (some changed) router next h returns =
      let (router', e, h') = returns (λ clash. cc) in (router', rw e refl, h')

  act-Returns :
      IsReliable signed native chain IsNative IsOutbound
      → (router : GossipRouter signed native) (action : Action signed native chain)
      → IsFit signed native chain IsNative IsOutbound router
      → IsHarmless signed native chain IsNative IsOutbound action
      → Returns signed native chain IsNative IsOutbound (act signed native chain router action)
  unfolding act handle_node_announcement handle_channel_announcement handle_channel_update
      get_and_clear_pending_msg_events
  act-Returns reliable router (node_arrives peer msg) h harmless =
      let handled =
        moved-IsFit signed native chain IsNative IsOutbound router _ _ h
          (reliable.node_handled router.native_router peer msg h.is_native) h.is_outbound in
      relay-Returns _ _ _ handled (λ accepted.
        new_node_announcement-Returns signed native chain IsNative IsOutbound _ msg handled)
  act-Returns reliable router (channel_arrives peer msg) h harmless =
      let handled =
        moved-IsFit signed native chain IsNative IsOutbound router _ _ h
          (reliable.channel_handled router.native_router peer msg h.is_native) h.is_outbound in
      relay-Returns _ _ _ handled (λ accepted.
        new_channel_announcement-Returns signed native chain IsNative IsOutbound _ msg
          (reliable.accepts_funded router.native_router peer msg h.is_native accepted) handled)
  act-Returns reliable router (update_arrives peer msg) h harmless =
      let handled =
        moved-IsFit signed native chain IsNative IsOutbound router _ _ h
          (reliable.update_handled router.native_router peer msg h.is_native) h.is_outbound in
      relay-Returns _ _ _ handled (λ accepted.
        new_channel_update-Returns signed native chain IsNative IsOutbound _ msg handled)
  act-Returns reliable router polled h harmless =
      let evs = native.get_and_clear_pending_msg_events router.outbound_gossiper in
      let (next, e, h') =
        forward_events-Returns signed native chain IsNative IsOutbound
          (record router { outbound_gossiper = evs.1 }) evs.0
          (reliable.broadcasts router.outbound_gossiper h.is_outbound)
          (moved-IsFit signed native chain IsNative IsOutbound router _ _ h h.is_native
            (reliable.outbound_cleared router.outbound_gossiper h.is_outbound)) in
      (
        record next {
          native_router = (native.get_and_clear_pending_msg_events next.native_router).1;
        },
        rw (get_and_clear_pending_msg_events, e) refl,
        moved-IsFit signed native chain IsNative IsOutbound next _ _ h'
            (reliable.native_cleared next.native_router h'.is_native) h'.is_outbound,
      )
  act-Returns reliable router persister_takes h harmless = (
    _,
    refl,
    record {
      opened = recv-IsOpen router.sender h.opened;
      is_native = h.is_native;
      is_outbound = h.is_outbound;
    },
  )
  act-Returns reliable router (persister_turns closed full) h (kept, room) = (
    _,
    refl,
    record {
      opened = record { not_closed = kept; takes_on = room };
      is_native = h.is_native;
      is_outbound = h.is_outbound;
    },
  )
  act-Returns reliable router (looks_up scid) h harmless =
      let (txo, amounts', e, looks) = get_utxo-Looks chain scid router.amounts reliable.serving in
      (
        record router { amounts = amounts' },
        rw e refl,
        record { opened = h.opened; is_native = h.is_native; is_outbound = h.is_outbound },
      )
  act-Returns reliable router (native_moves state) h harmless = (
    _,
    refl,
    moved-IsFit signed native chain IsNative IsOutbound router state _ h harmless h.is_outbound,
  )
  act-Returns reliable router (gossiper_moves state) h harmless = (
    _,
    refl,
    moved-IsFit signed native chain IsNative IsOutbound router _ state h h.is_native harmless,
  )

  run-Returns :
      IsReliable signed native chain IsNative IsOutbound
      → (router : GossipRouter signed native) (actions : List (Action signed native chain))
      → IsFit signed native chain IsNative IsOutbound router
      → All (IsHarmless signed native chain IsNative IsOutbound) actions
      → Returns signed native chain IsNative IsOutbound (run signed native chain router actions)
  unfolding run
  run-Returns reliable router [] h harmless = (router, refl, h)
  run-Returns reliable router (action ∷ actions) h harmless =
      let (next, e, h') = act-Returns reliable router action h harmless.0 in
      let (last, e', h'') = run-Returns reliable next actions h' harmless.1 in
      (last, rw (run, e) e', h'')

  -- Bitcoind serves block hashes and whole blocks; in the states of the native router that come
  -- up, it only accepts channel announcements whose funding output is on the chain; in those of
  -- the outbound gossiper, nothing but broadcasts is pending, and of channel announcements only
  -- where the output is on the chain; the channel has room for a message and holds no more than
  -- it has room for; and the persister keeps its end of it and takes a message whenever a sender
  -- waits. Then no sequence of messages, polls, lookups and changes of the two states makes a
  -- new router panic or wait for ever: it runs to the end, and all it has sent is accounted for.
  pub run-ok :
      (started outbound : State) (sender : Channel (GossipMessage signed))
      (actions : List (Action signed native chain))
      → IsReliable signed native chain IsNative IsOutbound
      → IsOpen sender
      → IsBounded sender
      → IsNative started
      → IsOutbound outbound
      → All (IsHarmless signed native chain IsNative IsOutbound) actions
      → (router : GossipRouter signed native) × (run signed native chain
            (new_router signed native chain started outbound sender)
            actions
          ≡ ok router)
        × IsAccounted signed native chain (sent sender) router
  run-ok started outbound sender actions reliable opened bounded starts outbounds harmless =
      let (router, e, h) =
        run-Returns reliable (new_router signed native chain started outbound sender) actions
          (record { opened = opened; is_native = starts; is_outbound = outbounds }) harmless in
      (
        router,
        e,
        run-IsAccounted signed native chain started outbound sender actions router bounded e,
      )
