-- ===== src/Downloader/Accounts.antt =====
-- What the router of src/downloader.rs has sent and counted after any sequence of what may happen
-- to it.
use rapid_gossip_sync_server.Prelude.{
  List, [], ◌∷◌, ◌++◌, append_assoc, append-nil, All, All-append, none, some, Result, ok, ◌>>=◌,
  >>=_inv, ok-inj, ◌≡◌, refl, sym, ap, ◌∙◌, ◌⊎◌, inl, inr,
}
use rapid_gossip_sync_server.Types.{SignedMessages, GossipMessage}
use rapid_gossip_sync_server.Verifier.{Chain, get_utxo}
use rapid_gossip_sync_server.Verifier.Funding.{IsFaithful, get_utxo-keep}
use rapid_gossip_sync_server.Downloader.Channels.{
  Channel, sent, IsBounded, recv-sent, recv-IsBounded,
}
use rapid_gossip_sync_server.Downloader.{
  Answer, MessageSendEvent, broadcast_channel_announcement, broadcast_node_announcement,
  broadcast_channel_update, other_event, NativeRouter, GossipRouter, handle_node_announcement,
  handle_channel_announcement, handle_channel_update, forward_event, forward_events,
  get_and_clear_pending_msg_events, relay,
}
use rapid_gossip_sync_server.Downloader.Forwards.{
  IsGenuine, Forwards, new_node_announcement-Forwards, new_channel_update-Forwards,
  new_channel_announcement-Forwards,
}
use rapid_gossip_sync_server.Downloader.Runs.{
  Action, node_arrives, channel_arrives, update_arrives, polled, persister_takes, persister_turns,
  looks_up, native_moves, gossiper_moves, act, run, new_router,
}
use rapid_gossip_sync_server.Downloader.Counts.{Counts, counted-Counts}

module _ (signed : SignedMessages) (native : NativeRouter signed) (chain : Chain) where
  open signed use {NodeAnnouncement, ChannelAnnouncement, ChannelUpdate}
  open native use {State, PublicKey}

  -- What the router has sent after `before`.
  pub record IsAccounted (before : List (GossipMessage signed))
      (router : GossipRouter signed native) : Type 0 where
    pub messages : List (GossipMessage signed)
    pub sent_after : sent router.sender ≡ before ++ messages
    pub counts : Counts signed native chain router.counter messages
    pub all_genuine : All (IsGenuine signed native chain) messages
    pub faithful : IsFaithful chain router.amounts
    pub bounded : IsBounded router.sender

  Forwards-IsAccounted :
      (before : List (GossipMessage signed)) (router router' : GossipRouter signed native)
      (m : GossipMessage signed)
      → Forwards signed native chain router m router'
      → IsAccounted before router
      → IsAccounted before router'
  Forwards-IsAccounted before router router' m f h = record {
    messages = h.messages ++ (m ∷ []);
    sent_after =
        f.delivers.appends
        ∙ ap (λ q. q ++ (m ∷ [])) h.sent_after
        ∙ append_assoc before h.messages (m ∷ []);
    counts = rw f.counts (counted-Counts signed native chain router.counter h.messages m h.counts);
    all_genuine =
        All-append (IsGenuine signed native chain) h.messages (m ∷ []) h.all_genuine
          ((f.genuine h.faithful).0, tt);
    faithful = (f.genuine h.faithful).1;
    bounded = f.delivers.bounds h.bounded;
  }

  forward_event-IsAccounted :
      (before : List (GossipMessage signed)) (router router' : GossipRouter signed native)
      (ev : MessageSendEvent signed)
      → forward_event signed native chain router ev ≡ ok router'
      → IsAccounted before router
      → IsAccounted before router'
  unfolding forward_event
  forward_event-IsAccounted before router router' (broadcast_channel_announcement msg) e h =
      let (sats, f) = new_channel_announcement-Forwards signed native chain router router' msg e in
      Forwards-IsAccounted before router router' _ f h
  forward_event-IsAccounted before router router' (broadcast_node_announcement msg) e h =
      Forwards-IsAccounted before router router' _
        (new_node_announcement-Forwards signed native chain router router' msg e) h
  forward_event-IsAccounted before router router' (broadcast_channel_update msg) e h =
      Forwards-IsAccounted before router router' _
        (new_channel_update-Forwards signed native chain router router' msg e) h
  forward_event-IsAccounted before router router' other_event e h = cc

  forward_events-IsAccounted :
      (before : List (GossipMessage signed)) (router router' : GossipRouter signed native)
      (evs : List (MessageSendEvent signed))
      → forward_events signed native chain router evs ≡ ok router'
      → IsAccounted before router
      → IsAccounted before router'
  unfolding forward_events
  forward_events-IsAccounted before router router' [] e h = rw (← ok-inj e) h
  forward_events-IsAccounted before router router' (ev ∷ evs) e h =
      let (next, forwards, rest) =
        >>=_inv (forward_event signed native chain router ev) _ router' e in
      forward_events-IsAccounted before next router' evs rest
        (forward_event-IsAccounted before router next ev forwards h)

  -- The states of the two `P2PGossipSync` do not matter.
  moved-IsAccounted :
      (before : List (GossipMessage signed)) (router : GossipRouter signed native) (s t : State)
      → IsAccounted before router
      → IsAccounted before (record router { native_router = s; outbound_gossiper = t })
  moved-IsAccounted before router s t h = record {
    messages = h.messages;
    sent_after = h.sent_after;
    counts = h.counts;
    all_genuine = h.all_genuine;
    faithful = h.faithful;
    bounded = h.bounded;
  }

  relay-inv :
      (answer : Answer) (router : GossipRouter signed native)
      (next : Result (GossipRouter signed native)) (p : Answer × GossipRouter signed native)
      → relay signed native chain answer router next ≡ ok p
      → (p.1 ≡ router) ⊎ (next ≡ ok p.1)
  unfolding relay
  relay-inv none router next p e = inl (ap (λ q. q.1) (sym (ok-inj e)))
  relay-inv (some changed) router next p e =
      let (router', returns, same) = >>=_inv next _ p e in
      inr (returns ∙ ap (λ q. ok q.1) (ok-inj same))

  relay-IsAccounted :
      (before : List (GossipMessage signed)) (router : GossipRouter signed native) (answer : Answer)
      (state : State) (next : Result (GossipRouter signed native))
      (router' : GossipRouter signed native)
      → ((router' : GossipRouter signed native)
          → next ≡ ok router'
          → IsAccounted before (record router { native_router = state })
          → IsAccounted before router')
      → (relay signed native chain answer (record router { native_router = state }) next
          >>= (λ p. ok p.1))
        ≡ ok router'
      → IsAccounted before router
      → IsAccounted before router'
  relay-IsAccounted before router answer state next router' handed_on e h =
      let (p, relays, same) = >>=_inv (relay signed native chain answer _ next) _ router' e in
      let h' = moved-IsAccounted before router state router.outbound_gossiper h in
      elim (relay-inv answer _ next p relays) [
        | inl left ↦ rw (← ok-inj same) (rw left h')
        | inr returns ↦ handed_on router' (returns ∙ same) h'
      ]

  act-IsAccounted :
      (before : List (GossipMessage signed)) (router router' : GossipRouter signed native)
      (action : Action signed native chain)
      → act signed native chain router action ≡ ok router'
      → IsAccounted before router
      → IsAccounted before router'
  unfolding act handle_node_announcement handle_channel_announcement handle_channel_update
      get_and_clear_pending_msg_events
  act-IsAccounted before router router' (node_arrives peer msg) e h =
      relay-IsAccounted before router _ _ _ router'
        (λ r returns.
          Forwards-IsAccounted before _ r _
            (new_node_announcement-Forwards signed native chain _ r msg returns))
        e h
  act-IsAccounted before router router' (channel_arrives peer msg) e h =
      relay-IsAccounted before router _ _ _ router'
        (λ r returns.
          Forwards-IsAccounted before _ r _
            (new_channel_announcement-Forwards signed native chain _ r msg returns).1)
        e h
  act-IsAccounted before router router' (update_arrives peer msg) e h =
      relay-IsAccounted before router _ _ _ router'
        (λ r returns.
          Forwards-IsAccounted before _ r _
            (new_channel_update-Forwards signed native chain _ r msg returns))
        e h
  act-IsAccounted before router router' polled e h =
      let (p, polls, same) =
        >>=_inv (get_and_clear_pending_msg_events signed native chain router) _ router' e in
      let (next, forwards, same2) = >>=_inv (forward_events signed native chain _ _) _ p polls in
      rw (← ok-inj same, ← ok-inj same2)
        (moved-IsAccounted before next _ next.outbound_gossiper (
          forward_events-IsAccounted before _ next _ forwards
            (moved-IsAccounted before router router.native_router _ h)))
  act-IsAccounted before router router' persister_takes e h = rw (← ok-inj e) record {
    messages = h.messages;
    sent_after = recv-sent router.sender ∙ h.sent_after;
    counts = h.counts;
    all_genuine = h.all_genuine;
    faithful = h.faithful;
    bounded = recv-IsBounded router.sender h.bounded;
  }
  act-IsAccounted before router router' (persister_turns closed full) e h = rw (← ok-inj e) record {
    messages = h.messages;
    sent_after = h.sent_after;
    counts = h.counts;
    all_genuine = h.all_genuine;
    faithful = h.faithful;
    bounded = record { positive = h.bounded.positive; bounded = h.bounded.bounded };
  }
  act-IsAccounted before router router' (looks_up scid) e h =
      let (p, looks, same) = >>=_inv (get_utxo chain router.amounts scid) _ router' e in
      rw (← ok-inj same) record {
        messages = h.messages;
        sent_after = h.sent_after;
        counts = h.counts;
        all_genuine = h.all_genuine;
        faithful = get_utxo-keep chain scid router.amounts p looks h.faithful;
        bounded = h.bounded;
      }
  act-IsAccounted before router router' (native_moves state) e h =
      rw (← ok-inj e) (moved-IsAccounted before router state router.outbound_gossiper h)
  act-IsAccounted before router router' (gossiper_moves state) e h =
      rw (← ok-inj e) (moved-IsAccounted before router router.native_router state h)

  run-keep :
      (before : List (GossipMessage signed)) (router router' : GossipRouter signed native)
      (actions : List (Action signed native chain))
      → run signed native chain router actions ≡ ok router'
      → IsAccounted before router
      → IsAccounted before router'
  unfolding run
  run-keep before router router' [] e h = rw (← ok-inj e) h
  run-keep before router router' (action ∷ actions) e h =
      let (next, acts, rest) = >>=_inv (act signed native chain router action) _ router' e in
      run-keep before next router' actions rest (act-IsAccounted before router next action acts h)

  -- Whatever happens, in whatever order, to a new router on a channel that has room for a message
  -- and holds no more than it has room for: as long as it has not panicked, its counters tell how
  -- many messages of each kind it has sent, cut to 64 bits; the two counters for mismatched
  -- scripts and missing maxima are zero; each channel announcement that it has sent carries the
  -- amount of the funding output on the chain, and no message overrides the seen value; the cache
  -- holds amounts of the chain only; and no more messages are queued than the channel has room
  -- for.
  pub run-IsAccounted :
      (started outbound : State) (sender : Channel (GossipMessage signed))
      (actions : List (Action signed native chain)) (router : GossipRouter signed native)
      → IsBounded sender
      → run signed native chain (new_router signed native chain started outbound sender) actions
        ≡ ok router
      → IsAccounted (sent sender) router
  run-IsAccounted started outbound sender actions router bounded e =
      run-keep (sent sender) _ router actions e (record {
        messages = [];
        sent_after = sym (append-nil (sent sender));
        counts = record {
          nodes = refl;
          channels = refl;
          updates = refl;
          without_htlc_max = refl;
          mismatched = refl;
        };
        all_genuine = tt;
        faithful = record { ascending = tt; amounts_of_chain = tt };
        bounded = bounded;
      })
