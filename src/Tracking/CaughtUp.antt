-- ===== src/Tracking/CaughtUp.antt =====
-- When the loop of src/tracking.rs finds that the server has caught up.
use rapid_gossip_sync_server.Prelude.{
  ℕ, ◌+◌, ◌-◌, ◌^◌, ◌≤◌, ◌<◌, List, true, false, ok, ◌≡◌, refl, arith, ◌↔◌, ◌⊎◌, inr,
}
use rapid_gossip_sync_server.Downloader.{GossipCounter}
use rapid_gossip_sync_server.Tracking.{
  Monitor, Line, checked_sub, total_message_count, new_message_count, is_caught_up, observe,
  log_lines, watch,
}

abbrev pub total : GossipCounter → ℕ
total counter = counter.channel_announcements + counter.channel_updates

-- The reading is not below the last one, and fits 64 bits.
pub record IsLater (counter : GossipCounter) (m : Monitor) : Type 0 where
  pub announcements_grow : m.previous_announcement_count ≤ counter.channel_announcements
  pub updates_grow : m.previous_update_count ≤ counter.channel_updates
  pub total_fits : total counter < 2 ^ 64

-- What is new since the last reading.
abbrev pub growth : GossipCounter → Monitor → ℕ
growth counter m = total counter - (m.previous_announcement_count + m.previous_update_count)

new_message_count-growth :
    (counter : GossipCounter) (m : Monitor)
    → IsLater counter m
    → new_message_count counter m ≡ ok (growth counter m)
unfolding new_message_count checked_sub total_message_count
new_message_count-growth counter m h =
    ground (arith, h.announcements_grow, h.updates_grow, h.total_fits)

-- What one round makes of the state.
pub record Watches (counter : GossipCounter) (m m' : Monitor) : Type 0 where
  pub announcements_noted : m'.previous_announcement_count ≡ counter.channel_announcements
  pub updates_noted : m'.previous_update_count ≡ counter.channel_updates
  pub caught_up_iff : (m'.is_caught_up_with_gossip ≡ true) ↔ (
      (growth counter m < 20) × (0 < m.previous_announcement_count) × (0 < m.previous_update_count))
  pub notifies_iff : (m'.needs_to_notify_persister ≡ true) ↔ (
      (m.needs_to_notify_persister ≡ true)
      ⊎ ((m'.is_caught_up_with_gossip ≡ true) × (m.is_caught_up_with_gossip ≡ false)))

observe-Watches :
    (now : ℕ) (counter : GossipCounter) (m : Monitor)
    → Watches counter m (observe now counter (growth counter m) m)
unfolding observe is_caught_up
observe-Watches now counter m = record {
  announcements_noted = refl;
  updates_noted = refl;
  caught_up_iff = (λ e. ground arith, λ h. ground (arith, h.0, h.1, h.2));
  notifies_iff = (λ e. ground arith, λ h. ground arith);
}

-- If the counters have not gone down since the last round and their sum fits 64 bits, a round does
-- not panic and notes them. The server then counts as caught up exactly if fewer than 20 messages
-- are new and both kinds had been seen before; and the persister is to be notified if it was
-- before or if the server was not caught up before and is now.
pub watch-Watches :
    (now : ℕ) (counter : GossipCounter) (m : Monitor)
    → IsLater counter m
    → (m' : Monitor) × (lines : List Line) × (watch now counter m ≡ ok (m', lines))
      × Watches counter m m'
unfolding watch
watch-Watches now counter m h =
    let m' = observe now counter (growth counter m) m in
    (
      m',
      log_lines now counter (growth counter m) m m',
      rw (watch, new_message_count-growth counter m h) refl,
      observe-Watches now counter m,
    )

-- If a round reads counters of both kinds above zero that are not below those of the round before,
-- and by the next round they have not gone down and fewer than 20 messages have been added, where
-- the sums fit 64 bits, then neither round panics and the server counts as caught up after the
-- second; and the persister is to be notified if the server did not count as caught up after the
-- first.
pub watch-caught_up :
    (now later : ℕ) (counter counter' : GossipCounter) (m : Monitor)
    → IsLater counter m
    → 0 < counter.channel_announcements
    → 0 < counter.channel_updates
    → counter.channel_announcements ≤ counter'.channel_announcements
    → counter.channel_updates ≤ counter'.channel_updates
    → total counter' < total counter + 20
    → total counter' < 2 ^ 64
    → (first second : Monitor) × (lines lines' : List Line) × (watch now counter m
        ≡ ok (first, lines))
      × (watch later counter' first ≡ ok (second, lines'))
      × (second.is_caught_up_with_gossip ≡ true)
      × (first.is_caught_up_with_gossip ≡ false → second.needs_to_notify_persister ≡ true)
watch-caught_up now later counter counter' m h announced updated more more' few fits =
    let (first, lines, e, w) = watch-Watches now counter m h in
    let (second, lines', e', w') = watch-Watches later counter' first (record {
      announcements_grow = omega (arith, w.announcements_noted, more);
      updates_grow = omega (arith, w.updates_noted, more');
      total_fits = fits;
    }) in
    let caught = w'.caught_up_iff.1 (
      omega (arith, w.announcements_noted, w.updates_noted, few),
      omega (arith, w.announcements_noted, announced),
      omega (arith, w.updates_noted, updated),
    ) in
    (first, second, lines, lines', e, e', caught, λ fresh. w'.notifies_iff.1 (inr (caught, fresh)))
