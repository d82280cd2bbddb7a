-- ===== src/Downloader/Handlers.antt =====
-- What a handler of src/downloader.rs does with a message that the native router rejects or accepts.
use rapid_gossip_sync_server.Prelude.{
  ℕ, Option, none, some, Result, ok, >>=_inv, ok-inj, ◌≡◌, ◌≢◌, refl, sym, ap, ◌∙◌, ◌⊎◌, inl, inr,
}
use rapid_gossip_sync_server.Types.{SignedMessages, channel_announcement}
use rapid_gossip_sync_server.Verifier.{Chain}
use rapid_gossip_sync_server.Downloader.{
  Answer, NativeRouter, GossipRouter, relay, handle_channel_announcement,
}
use rapid_gossip_sync_server.Downloader.Forwards.{Forwards, new_channel_announcement-Forwards}

module _ (signed : SignedMessages) (native : NativeRouter signed) (chain : Chain) where
  relay-cases :
      (answer : Answer) (router : GossipRouter signed native)
      (next : Result (GossipRouter signed native)) (p : Answer × GossipRouter signed native)
      → relay signed native chain answer router next ≡ ok p
      → (p.0 ≡ answer) × (((answer ≡ none) × (p.1 ≡ router)) ⊎ ((answer ≢ none) × (next ≡ ok p.1)))
  unfolding relay
  relay-cases none router next p e =
      (ap (λ q. q.0) (sym (ok-inj e)), inl (refl, ap (λ q. q.1) (sym (ok-inj e))))
  relay-cases (some changed) router next p e =
      let (router', returns, same) = >>=_inv next _ p e in
      (
        ap (λ q. q.0) (sym (ok-inj same)),
        inr (λ clash. cc, returns ∙ ap (λ q. ok q.1) (ok-inj same)),
      )

  -- A handler that returns gives the native router's answer. If that is an error, only the native
  -- router's state has changed; otherwise one message more has been counted and sent,
  -- with the amount of the funding output if the cache holds amounts of the chain.
  pub handle_channel_announcement-Forwards :
      (router : GossipRouter signed native) (peer : Option native.PublicKey)
      (msg : signed.ChannelAnnouncement) (p : Answer × GossipRouter signed native)
      → handle_channel_announcement signed native chain router peer msg ≡ ok p
      → let res = native.handle_channel_announcement router.native_router peer msg in
        let started = record router { native_router = res.1 } in
        (p.0 ≡ res.0)
        × (((res.0 ≡ none) × (p.1 ≡ started))
            ⊎ ((res.0 ≢ none)
                × (sats : ℕ) × Forwards signed native chain started
                    (channel_announcement msg sats none)
                    p.1))
  unfolding handle_channel_announcement
  handle_channel_announcement-Forwards router peer msg p e =
      let (same, cases) = relay-cases _ _ _ p e in
      (
        same,
        elim cases [
          | inl rejected ↦ inl rejected
          | inr (accepted, returns) ↦
              let (sats, f) =
                new_channel_announcement-Forwards signed native chain _ p.1 msg returns in
              inr (accepted, sats, f)
        ],
      )
