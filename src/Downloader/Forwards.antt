-- ===== src/Downloader/Forwards.antt =====
-- What the `new_…` functions of src/downloader.rs do: each counts one message and sends it.
use rapid_gossip_sync_server.Prelude.{
  ℕ, none, some, ok, >>=_inv, ok-inj, Option-cases, ◌≡◌, refl, sym, ap, ◌∙◌, inl, inr,
}
use rapid_gossip_sync_server.Types.{
  SignedMessages, GossipMessage, node_announcement, channel_announcement, channel_update,
}
use rapid_gossip_sync_server.Verifier.{
  Lookup, found, failed, Chain, FundingAmounts, get_cached_funding_value, retrieve_funding_value,
}
use rapid_gossip_sync_server.Verifier.Funding.{
  IsAmount, IsFaithful, Retrieves, retrieve_funding_value-Retrieves,
  get_cached_funding_value-IsAmount,
}
use rapid_gossip_sync_server.Downloader.Channels.{Channel, deliver, Delivers, deliver-Delivers}
use rapid_gossip_sync_server.Downloader.{
  GossipCounter, count_up, NativeRouter, GossipRouter, send_gossip, new_node_announcement,
  new_channel_update, expect_amount, funding_amount_sats, new_channel_announcement,
}

module _ (signed : SignedMessages) (native : NativeRouter signed) (chain : Chain) where
  open signed use {NodeAnnouncement, ChannelAnnouncement, ChannelUpdate, short_channel_id}

  -- The counter after one message more.
  abbrev pub counted : GossipMessage signed → GossipCounter → GossipCounter
  counted (node_announcement msg seen) counter = record counter {
    node_announcements = count_up counter.node_announcements;
  }
  counted (channel_announcement msg sats seen) counter = record counter {
    channel_announcements = count_up counter.channel_announcements;
  }
  counted (channel_update msg seen) counter = record counter {
    channel_updates = count_up counter.channel_updates;
  }

  -- A message as the downloader makes it: the funding amount is that of the output on the chain,
  -- and the seen value is not overridden.
  abbrev pub IsGenuine : GossipMessage signed → Type 0
  IsGenuine (node_announcement msg seen) = seen ≡ none
  IsGenuine (channel_announcement msg sats seen) =
      IsAmount chain (short_channel_id msg) sats × (seen ≡ none)
  IsGenuine (channel_update msg seen) = seen ≡ none

  -- The router counts a message and sends it, and leaves the rest alone.
  pub record Forwards (router : GossipRouter signed native) (message : GossipMessage signed)
      (router' : GossipRouter signed native) : Type 0 where
    pub delivers : Delivers router.sender message router'.sender
    pub counts : router'.counter ≡ counted message router.counter
    pub genuine :
        IsFaithful chain router.amounts → IsGenuine message × IsFaithful chain router'.amounts
    pub native_kept : router'.native_router ≡ router.native_router
    pub outbound_kept : router'.outbound_gossiper ≡ router.outbound_gossiper

  -- Sending leaves all but the channel alone.
  send_gossip-inv :
      (router router' : GossipRouter signed native) (message : GossipMessage signed)
      → send_gossip signed native router message ≡ ok router'
      → (channel : Channel (GossipMessage signed)) × (deliver router.sender message ≡ ok channel)
        × (router' ≡ record router { sender = channel })
  unfolding send_gossip
  send_gossip-inv router router' message e =
      let (channel, delivers, same) = >>=_inv (deliver router.sender message) _ router' e in
      (channel, delivers, sym (ok-inj same))

  counts_and_sends :
      (router router' : GossipRouter signed native) (amounts' : FundingAmounts)
      (message : GossipMessage signed)
      → (IsFaithful chain router.amounts → IsGenuine message × IsFaithful chain amounts')
      → send_gossip signed native
          (record router { counter = counted message router.counter; amounts = amounts' })
          message
        ≡ ok router'
      → Forwards router message router'
  counts_and_sends router router' amounts' message genuine e =
      let (channel, delivers, same) = send_gossip-inv _ router' message e in
      rw same record {
        delivers = deliver-Delivers _ _ channel delivers;
        counts = refl;
        genuine = genuine;
        native_kept = refl;
        outbound_kept = refl;
      }

  pub new_node_announcement-Forwards :
      (router router' : GossipRouter signed native) (msg : NodeAnnouncement)
      → new_node_announcement signed native router msg ≡ ok router'
      → Forwards router (node_announcement msg none) router'
  unfolding new_node_announcement
  new_node_announcement-Forwards router router' msg e =
      counts_and_sends router router' router.amounts (node_announcement msg none)
        (λ faithful. (refl, faithful)) e

  pub new_channel_update-Forwards :
      (router router' : GossipRouter signed native) (msg : ChannelUpdate)
      → new_channel_update signed native router msg ≡ ok router'
      → Forwards router (channel_update msg none) router'
  unfolding new_channel_update
  new_channel_update-Forwards router router' msg e =
      counts_and_sends router router' router.amounts (channel_update msg none)
        (λ faithful. (refl, faithful)) e

  expect_amount-inv :
      (scid sats : ℕ) (amounts amounts' : FundingAmounts) (p : Lookup ℕ × FundingAmounts)
      → Retrieves chain scid amounts p.0 p.1
      → expect_amount signed native p ≡ ok (sats, amounts')
      → IsFaithful chain amounts
      → IsAmount chain scid sats × IsFaithful chain amounts'
  unfolding expect_amount
  expect_amount-inv scid sats amounts amounts' (found v, after) h e faithful =
      let same : (v, after) ≡ (sats, amounts') = ok-inj e in
      (h.true_amount sats (ap (λ q. found q.0) same), rw (← ap (λ q. q.1) same) (h.keeps faithful))
  expect_amount-inv scid sats amounts amounts' (failed error, after) h e faithful = cc

  -- The amount that is sent is that of the chain, if the cache's are.
  funding_amount_sats-IsAmount :
      (amounts amounts' : FundingAmounts) (scid sats : ℕ)
      → funding_amount_sats signed native chain amounts scid ≡ ok (sats, amounts')
      → IsFaithful chain amounts
      → IsAmount chain scid sats × IsFaithful chain amounts'
  unfolding funding_amount_sats
  funding_amount_sats-IsAmount amounts amounts' scid sats e faithful =
      elim (Option-cases (get_cached_funding_value amounts scid)) [
        | inl missing ↦
            let (p, retrieves, expects) =
              >>=_inv (retrieve_funding_value chain amounts scid) _ (sats, amounts')
                (rw (funding_amount_sats, missing) at e) in
            expect_amount-inv scid sats amounts amounts' p
              (retrieve_funding_value-Retrieves chain scid amounts p retrieves) expects faithful
        | inr (v, cached) ↦
            let same : (v, amounts) ≡ (sats, amounts') =
              ok-inj (rw (funding_amount_sats, cached) at e) in
            (
              get_cached_funding_value-IsAmount chain scid sats amounts faithful
                  (cached ∙ ap (λ q. some q.0) same),
              rw (← ap (λ q. q.1) same) faithful,
            )
      ]

  pub new_channel_announcement-Forwards :
      (router router' : GossipRouter signed native) (msg : ChannelAnnouncement)
      → new_channel_announcement signed native chain router msg ≡ ok router'
      → (sats : ℕ) × Forwards router (channel_announcement msg sats none) router'
  unfolding new_channel_announcement
  new_channel_announcement-Forwards router router' msg e =
      let ((sats, amounts'), funds, sends) =
        >>=_inv (funding_amount_sats signed native chain router.amounts (short_channel_id msg)) _
          router' e in
      (
        sats,
        counts_and_sends router router' amounts' (channel_announcement msg sats none)
            (λ faithful.
              let (is, faithful') =
                funding_amount_sats-IsAmount router.amounts amounts' (short_channel_id msg) sats
                  funds faithful in
              ((is, refl), faithful'))
            sends,
      )
