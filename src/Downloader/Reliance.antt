-- ===== src/Downloader/Reliance.antt =====
-- What the router of src/downloader.rs relies on, and lemmas on the functions that send.
use rapid_gossip_sync_server.Prelude.{
  ℕ, List, [], ◌∷◌, All, Option, none, false, Result, ok, Option-cases, ◌≡◌, ◌≢◌, refl, inl, inr,
}
use rapid_gossip_sync_server.Types.{
  SignedMessages, GossipMessage, node_announcement, channel_announcement, channel_update,
}
use rapid_gossip_sync_server.Verifier.{Chain, FundingAmounts, get_cached_funding_value}
use rapid_gossip_sync_server.Verifier.Funding.{IsOutput, IsServing, retrieve_funding_value-found}
use rapid_gossip_sync_server.Downloader.Channels.{makes_room, IsOpen, deliver-ok}
use rapid_gossip_sync_server.Downloader.{
  MessageSendEvent, broadcast_channel_announcement, broadcast_node_announcement,
  broadcast_channel_update, other_event, NativeRouter, GossipRouter, send_gossip, expect_amount,
  funding_amount_sats, new_node_announcement, new_channel_update, new_channel_announcement,
  forward_event, forward_events,
}
use rapid_gossip_sync_server.Downloader.Forwards.{
  counted, Forwards, new_node_announcement-Forwards, new_channel_update-Forwards,
  new_channel_announcement-Forwards,
}
use rapid_gossip_sync_server.Downloader.Runs.{Action, persister_turns, native_moves, gossiper_moves}

module _ (signed : SignedMessages) (native : NativeRouter signed) (chain : Chain) where
  open signed use {NodeAnnouncement, ChannelAnnouncement, ChannelUpdate, short_channel_id}
  open native use {State, PublicKey}

  -- The chain has the funding output of a channel.
  abbrev pub IsFunded : ChannelAnnouncement → Type 0
  IsFunded msg = (o : chain.TxOut) × IsOutput chain (short_channel_id msg) o

  -- Events are broadcasts, and those of channels are of funded ones.
  abbrev pub IsBroadcast : MessageSendEvent signed → Type 0
  IsBroadcast (broadcast_channel_announcement msg) = IsFunded msg
  IsBroadcast (broadcast_node_announcement msg) = Unit
  IsBroadcast (broadcast_channel_update msg) = Unit
  IsBroadcast other_event = ⊥

  -- Conditions on the states of the two `P2PGossipSync` that are in use.
  module _ (IsNative IsOutbound : State → Type 0) where
    -- What the router relies on: bitcoind serves whole blocks; the native router only accepts an
    -- announcement whose funding output is on the chain; the outbound gossiper, which has no peers,
    -- has nothing but broadcasts pending; and what the router calls keeps both conditions.
    pub record IsReliable : Type 0 where
      pub serving : IsServing chain
      pub accepts_funded :
          (state : State) (peer : Option PublicKey) (msg : ChannelAnnouncement)
          → IsNative state
          → (native.handle_channel_announcement state peer msg).0 ≢ none
          → IsFunded msg
      pub node_handled :
          (state : State) (peer : Option PublicKey) (msg : NodeAnnouncement)
          → IsNative state
          → IsNative (native.handle_node_announcement state peer msg).1
      pub channel_handled :
          (state : State) (peer : Option PublicKey) (msg : ChannelAnnouncement)
          → IsNative state
          → IsNative (native.handle_channel_announcement state peer msg).1
      pub update_handled :
          (state : State) (peer : Option PublicKey) (msg : ChannelUpdate)
          → IsNative state
          → IsNative (native.handle_channel_update state peer msg).1
      pub native_cleared :
          (state : State)
          → IsNative state
          → IsNative (native.get_and_clear_pending_msg_events state).1
      pub broadcasts :
          (state : State)
          → IsOutbound state
          → All IsBroadcast (native.get_and_clear_pending_msg_events state).0
      pub outbound_cleared :
          (state : State)
          → IsOutbound state
          → IsOutbound (native.get_and_clear_pending_msg_events state).1

    -- The persister keeps its end of the channel and makes room, and the states are as they should.
    pub record IsFit (router : GossipRouter signed native) : Type 0 where
      pub opened : IsOpen router.sender
      pub is_native : IsNative router.native_router
      pub is_outbound : IsOutbound router.outbound_gossiper

    -- The actions that keep this so.
    abbrev pub IsHarmless : Action signed native chain → Type 0
    IsHarmless (persister_turns closed full) = (closed ≡ false) × (full ≡ makes_room)
    IsHarmless (native_moves state) = IsNative state
    IsHarmless (gossiper_moves state) = IsOutbound state
    IsHarmless action = Unit

    -- A computation returns a router that is fit.
    abbrev pub Returns : Result (GossipRouter signed native) → Type 0
    Returns computation =
        (router : GossipRouter signed native) × (computation ≡ ok router) × IsFit router

    Forwards-IsFit :
        (router router' : GossipRouter signed native) (message : GossipMessage signed)
        → Forwards signed native chain router message router'
        → IsFit router
        → IsFit router'
    Forwards-IsFit router router' message f h = record {
      opened = f.delivers.opens h.opened;
      is_native = rw f.native_kept h.is_native;
      is_outbound = rw f.outbound_kept h.is_outbound;
    }

    send_gossip-Returns :
        (router : GossipRouter signed native) (message : GossipMessage signed)
        → IsOpen router.sender
        → (router' : GossipRouter signed native) × (send_gossip signed native router message
            ≡ ok router')
    unfolding send_gossip
    send_gossip-Returns router message h =
        let (channel, delivers) = deliver-ok router.sender message h in
        (record router { sender = channel }, rw (send_gossip, delivers) refl)

    pub new_node_announcement-Returns :
        (router : GossipRouter signed native) (msg : NodeAnnouncement)
        → IsFit router
        → Returns (new_node_announcement signed native router msg)
    unfolding new_node_announcement
    new_node_announcement-Returns router msg h =
        let (router', e) = send_gossip-Returns _ (node_announcement msg none) h.opened in
        let f = new_node_announcement-Forwards signed native chain router router' msg e in
        (router', e, Forwards-IsFit router router' _ f h)

    pub new_channel_update-Returns :
        (router : GossipRouter signed native) (msg : ChannelUpdate)
        → IsFit router
        → Returns (new_channel_update signed native router msg)
    unfolding new_channel_update
    new_channel_update-Returns router msg h =
        let (router', e) = send_gossip-Returns _ (channel_update msg none) h.opened in
        let f = new_channel_update-Forwards signed native chain router router' msg e in
        (router', e, Forwards-IsFit router router' _ f h)

    funding_amount_sats-ok :
        (amounts : FundingAmounts) (scid : ℕ) (o : chain.TxOut)
        → IsOutput chain scid o
        → (p : ℕ × FundingAmounts) × (funding_amount_sats signed native chain amounts scid ≡ ok p)
    unfolding funding_amount_sats expect_amount
    funding_amount_sats-ok amounts scid o is =
        elim (Option-cases (get_cached_funding_value amounts scid)) [
          | inl missing ↦
              let (amounts', finds) = retrieve_funding_value-found chain scid amounts o is in
              ((chain.to_sat o, amounts'), rw (funding_amount_sats, missing, finds) refl)
          | inr (v, cached) ↦ ((v, amounts), rw (funding_amount_sats, cached) refl)
        ]

    pub new_channel_announcement-Returns :
        (router : GossipRouter signed native) (msg : ChannelAnnouncement)
        → IsFunded msg
        → IsFit router
        → Returns (new_channel_announcement signed native chain router msg)
    unfolding new_channel_announcement
    new_channel_announcement-Returns router msg (o, is) h =
        let ((sats, amounts'), funds) =
          funding_amount_sats-ok router.amounts (short_channel_id msg) o is in
        let (router', e) =
          send_gossip-Returns
            (record router {
              counter =
                  counted signed native chain (channel_announcement msg sats none) router.counter;
              amounts = amounts';
            })
            (channel_announcement msg sats none) h.opened in
        let returns : new_channel_announcement signed native chain router msg ≡ ok router' =
          rw (new_channel_announcement, funds) e in
        let (v, f) =
          new_channel_announcement-Forwards signed native chain router router' msg returns in
        (router', returns, Forwards-IsFit router router' _ f h)

    pub forward_events-Returns :
        (router : GossipRouter signed native) (evs : List (MessageSendEvent signed))
        → All IsBroadcast evs
        → IsFit router
        → Returns (forward_events signed native chain router evs)
    unfolding forward_events forward_event
    forward_events-Returns router [] h opened = (router, refl, opened)
    forward_events-Returns router (ev ∷ evs) h opened =
        let (next, e, opened') = forward_event-Returns ev h.0 in
        let (last, e', opened'') = forward_events-Returns next evs h.1 opened' in
        (last, rw (forward_events, e) e', opened'')
      where
        forward_event-Returns :
            (ev : MessageSendEvent signed)
            → IsBroadcast ev
            → Returns (forward_event signed native chain router ev)
        forward_event-Returns (broadcast_channel_announcement msg) funded =
            new_channel_announcement-Returns router msg funded opened
        forward_event-Returns (broadcast_node_announcement msg) h =
            new_node_announcement-Returns router msg opened
        forward_event-Returns (broadcast_channel_update msg) h =
            new_channel_update-Returns router msg opened
        forward_event-Returns other_event h = absurd h

    pub moved-IsFit :
        (router : GossipRouter signed native) (state outbound : State)
        → IsFit router
        → IsNative state
        → IsOutbound outbound
        → IsFit (record router { native_router = state; outbound_gossiper = outbound })
    moved-IsFit router state outbound h is_native is_outbound = record {
      opened = h.opened;
      is_native = is_native;
      is_outbound = is_outbound;
    }
