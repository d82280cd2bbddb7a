-- ===== src/Downloader.antt =====
-- src/downloader.rs: the router that counts the gossip which it accepts from peers and hands it to
-- the persister.
pub mod Channels
pub mod Forwards
pub mod Runs
pub mod Counts
pub mod Accounts
pub mod Handlers
pub mod Reliance
pub mod NeverPanics
use rapid_gossip_sync_server.Prelude.{
  ℕ, ◌+◌, ◌%◌, ◌^◌, List, [], ◌∷◌, Option, none, some, Result, ok, panic, unwrap_none, unreachable,
  Bool, ◌>>=◌,
}
use rapid_gossip_sync_server.Types.{
  SignedMessages, GossipMessage, node_announcement, channel_announcement, channel_update,
}
use rapid_gossip_sync_server.Verifier.{
  Lookup, found, failed, Chain, FundingAmounts, get_cached_funding_value, retrieve_funding_value,
  get_utxo,
}
use rapid_gossip_sync_server.Downloader.Channels.{Channel, deliver}

pub record GossipCounter : Type 0 where
  pub node_announcements : ℕ
  pub channel_announcements : ℕ
  pub channel_updates : ℕ
  pub channel_updates_without_htlc_max_msats : ℕ
  pub channel_announcements_with_mismatched_scripts : ℕ

-- `GossipCounter::new`
abbrev pub new_counter : GossipCounter
new_counter = record {
  node_announcements = 0;
  channel_announcements = 0;
  channel_updates = 0;
  channel_updates_without_htlc_max_msats = 0;
  channel_announcements_with_mismatched_scripts = 0;
}

-- `count += 1` of a `u64`
abbrev pub count_up : ℕ → ℕ
count_up count = (count + 1) % 2 ^ 64

-- The `Result<bool, LightningError>` of a handler; `none` is the error.
abbrev pub Answer : Type 0
Answer = Option Bool

module _ (signed : SignedMessages) where
  open signed use {NodeAnnouncement, ChannelAnnouncement, ChannelUpdate, short_channel_id}

  -- The events that the outbound gossiper may have pending.
  pub data MessageSendEvent : Type 0 where
    broadcast_channel_announcement : ChannelAnnouncement → MessageSendEvent
    broadcast_node_announcement : NodeAnnouncement → MessageSendEvent
    broadcast_channel_update : ChannelUpdate → MessageSendEvent
    other_event : MessageSendEvent

  -- What is used of `P2PGossipSync`, over its own state.
  pub record NativeRouter : Type 1 where
    pub State : Type 0
    pub PublicKey : Type 0
    pub handle_node_announcement : State → Option PublicKey → NodeAnnouncement → Answer × State
    pub handle_channel_announcement :
        State → Option PublicKey → ChannelAnnouncement → Answer × State
    pub handle_channel_update : State → Option PublicKey → ChannelUpdate → Answer × State
    pub get_and_clear_pending_msg_events : State → List MessageSendEvent × State

  module _ (native : NativeRouter) where
    -- `counter`; `sender` as its channel; the cache of `verifier`; and the states of the two
    -- `P2PGossipSync`.
    pub record GossipRouter : Type 0 where
      pub native_router : native.State
      pub counter : GossipCounter
      pub sender : Channel (GossipMessage signed)
      pub amounts : FundingAmounts
      pub outbound_gossiper : native.State

    -- `try_send`, and the blocking `send` if it fails.
    unfoldable pub send_gossip : GossipRouter → GossipMessage signed → Result GossipRouter
    send_gossip router gossip_message = do
      sender' ← deliver router.sender gossip_message
      ok (record router { sender = sender' })

    unfoldable pub new_node_announcement : GossipRouter → NodeAnnouncement → Result GossipRouter
    new_node_announcement router msg =
        send_gossip
          (record router {
            counter = record router.counter {
              node_announcements = count_up router.counter.node_announcements;
            };
          })
          (node_announcement msg none)

    unfoldable pub new_channel_update : GossipRouter → ChannelUpdate → Result GossipRouter
    new_channel_update router msg =
        send_gossip
          (record router {
            counter = record router.counter {
              channel_updates = count_up router.counter.channel_updates;
            };
          })
          (channel_update msg none)

    -- `.expect("If we've accepted a ChannelAnnouncement, …")`, with the cache after the retrieval
    unfoldable pub expect_amount : Lookup ℕ × FundingAmounts → Result (ℕ × FundingAmounts)
    expect_amount (found sats, amounts) = ok (sats, amounts)
    expect_amount (failed e, amounts) = panic unwrap_none

    module _ (chain : Chain) where
      -- The cached amount, or else the retrieved one, and the cache afterwards.
      unfoldable pub funding_amount_sats : FundingAmounts → ℕ → Result (ℕ × FundingAmounts)
      funding_amount_sats amounts scid = elim (get_cached_funding_value amounts scid) [
        | some sats ↦ ok (sats, amounts)
        | none ↦ retrieve_funding_value chain amounts scid >>= expect_amount
      ]

      unfoldable pub new_channel_announcement :
          GossipRouter → ChannelAnnouncement → Result GossipRouter
      new_channel_announcement router msg = do
        (sats, amounts') ← funding_amount_sats router.amounts (short_channel_id msg)
        send_gossip
            (record router {
              counter = record router.counter {
                channel_announcements = count_up router.counter.channel_announcements;
              };
              amounts = amounts';
            })
            (channel_announcement msg sats none)

      -- `?` on the native router's answer: an error is returned at once, and else the message is
      -- handed on.
      unfoldable pub relay :
          Answer → GossipRouter → Result GossipRouter → Result (Answer × GossipRouter)
      relay none router next = ok (none, router)
      relay (some changed) router next = do router' ← next; ok (some changed, router')

      unfoldable pub handle_node_announcement :
          GossipRouter → Option native.PublicKey → NodeAnnouncement → Result (Answer × GossipRouter)
      handle_node_announcement router their_node_id msg =
          let res = native.handle_node_announcement router.native_router their_node_id msg in
          let router' = record router { native_router = res.1 } in
          relay res.0 router' (new_node_announcement router' msg)

      unfoldable pub handle_channel_announcement :
          GossipRouter
          → Option native.PublicKey
          → ChannelAnnouncement
          → Result (Answer × GossipRouter)
      handle_channel_announcement router their_node_id msg =
          let res = native.handle_channel_announcement router.native_router their_node_id msg in
          let router' = record router { native_router = res.1 } in
          relay res.0 router' (new_channel_announcement router' msg)

      unfoldable pub handle_channel_update :
          GossipRouter → Option native.PublicKey → ChannelUpdate → Result (Answer × GossipRouter)
      handle_channel_update router their_node_id msg =
          let res = native.handle_channel_update router.native_router their_node_id msg in
          let router' = record router { native_router = res.1 } in
          relay res.0 router' (new_channel_update router' msg)

      -- One event of the outbound gossiper; any other than a broadcast is `unreachable!()`.
      unfoldable pub forward_event : GossipRouter → MessageSendEvent → Result GossipRouter
      forward_event router (broadcast_channel_announcement msg) =
          new_channel_announcement router msg
      forward_event router (broadcast_node_announcement msg) = new_node_announcement router msg
      forward_event router (broadcast_channel_update msg) = new_channel_update router msg
      forward_event router other_event = panic unreachable

      unfoldable pub forward_events : GossipRouter → List MessageSendEvent → Result GossipRouter
      forward_events router [] = ok router
      forward_events router (ev ∷ evs) = do
        router' ← forward_event router ev
        forward_events router' evs

      unfoldable pub get_and_clear_pending_msg_events :
          GossipRouter → Result (List MessageSendEvent × GossipRouter)
      get_and_clear_pending_msg_events router = do
        let gossip_evs = native.get_and_clear_pending_msg_events router.outbound_gossiper
        router' ← forward_events (record router { outbound_gossiper = gossip_evs.1 }) gossip_evs.0
        let pending = native.get_and_clear_pending_msg_events router'.native_router
        ok (pending.0, record router' { native_router = pending.1 })
