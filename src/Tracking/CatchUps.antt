-- ===== src/Tracking/CatchUps.antt =====
-- The notifications of the loop of src/tracking.rs, and the times that the server catches up.
use rapid_gossip_sync_server.Prelude.{
  ℕ, ◌+◌, ◌<◌, List, [], ◌∷◌, Bool, true, false, not, ◌&&◌, Bool-cases, inl, inr, ok, panic, ◌≡◌,
  ◌⊎◌, ◌↔◌, refl, arith,
}
use rapid_gossip_sync_server.Serialization.{one_if}
use rapid_gossip_sync_server.Tracking.{Monitor}
use rapid_gossip_sync_server.Tracking.Completion.{
  Loop, Event, round, start_sync_receives, notify, settle, receive, handle, start, run,
}
use rapid_gossip_sync_server.Tracking.CaughtUp.{watch-Watches}
use rapid_gossip_sync_server.Tracking.Blocked.{
  Grow, Grow-le, settle-counts, receive-monitor, handle-waiting, handle-watching, IsBlocked-keep,
}

-- Whether the server counts as caught up in `after` and did not in `before`.
abbrev pub rises : Monitor → Monitor → Bool
rises before after = not before.is_caught_up_with_gossip && after.is_caught_up_with_gossip

-- How often the server catches up in a run. What is sent, and whether, plays no part in it.
abbrev pub catch_ups : Loop → List Event → ℕ
catch_ups l [] = 0
catch_ups l (event ∷ events) = elim (handle l event) [
  | ok next ↦ one_if (rises l.monitor next.monitor) + catch_ups next events
  | panic cause ↦ 0
]

-- The notifications that were sent: the one in the channel, the one that waits for room, and the
-- one that `start_sync` has received.
abbrev pub notified : Loop → ℕ
notified l = one_if l.is_full + one_if l.is_waiting + one_if l.has_received

-- Between two events nothing is left to be sent, and the loop waits only for a full channel.
record IsSettled (l : Loop) : Type 0 where
  at_rest : l.monitor.needs_to_notify_persister ≡ false
  waits_full : l.is_waiting ≡ true → l.is_full ≡ true

settle-IsSettled :
    (l : Loop) (m : Monitor)
    → l.is_waiting ≡ false
    → ((m.needs_to_notify_persister ≡ true) ↔ (rises l.monitor m ≡ true))
    → let next = settle (record l { monitor = m }) in
      IsSettled next × (notified next ≡ one_if (rises l.monitor next.monitor) + notified l)
unfolding settle notify
settle-IsSettled l m free iff = (
  record { at_rest = ground (arith, free); waits_full = λ w. ground (arith, free) },
  ground (arith, free, iff),
)

receive-IsSettled :
    (l : Loop) → IsSettled l → IsSettled (receive l) × (notified (receive l) ≡ notified l)
unfolding receive
receive-IsSettled l h = (
  record { at_rest = ground (arith, h.at_rest); waits_full = λ w. ground (arith, h.waits_full) },
  ground (arith, h.waits_full),
)

catch_ups_step :
    (l next : Loop) (event : Event) (events : List Event)
    → handle l event ≡ ok next
    → catch_ups l (event ∷ events) ≡ one_if (rises l.monitor next.monitor) + catch_ups next events
catch_ups_step l next event events e = rw (catch_ups, e) refl

rises_same : (before after : Monitor) → after ≡ before → one_if (rises before after) ≡ 0
rises_same before after e = rw e (ground arith)

-- What a run returns: every time that the server catches up, one notification is sent.
notify_each :
    (l : Loop) (events : List Event)
    → Grow l.monitor.previous_announcement_count l.monitor.previous_update_count events
    → IsSettled l
    → (last : Loop) × (run l events ≡ ok last)
      × IsSettled last
      × (notified last ≡ catch_ups l events + notified l)
unfolding run handle
notify_each l [] h s = (l, refl, s, omega arith)
notify_each l (round now counter ∷ events) h s = elim (Bool-cases l.is_waiting) [
  | inl waits ↦
      let (last, e, s', sum) = notify_each l events (Grow-le _ _ _ _ events h.0 h.1 h.3) s in
      (
        last,
        rw (run, handle-waiting l now counter waits) e,
        s',
        omega (
          arith,
          sum,
          catch_ups_step l l (round now counter) events (handle-waiting l now counter waits),
          rises_same l.monitor l.monitor refl,
        ),
      )
  | inr free ↦
      let (m, lines, watches, w) =
        watch-Watches now counter l.monitor
          (record { announcements_grow = h.0; updates_grow = h.1; total_fits = h.2 }) in
      let next : Loop = settle (record l { monitor = m }) in
      let (same_a, same_u) = settle-counts (record l { monitor = m }) in
      let (settled, one) = settle-IsSettled l m free (ground (arith, w.notifies_iff, s.at_rest)) in
      let (last, e, s', sum) =
        notify_each next events
          (Grow-le _ _ _ _ events (omega (arith, same_a, w.announcements_noted))
            (omega (arith, same_u, w.updates_noted)) h.3)
          settled in
      (
        last,
        rw (run, handle-watching l now counter m lines free watches) e,
        s',
        omega (
          arith,
          sum,
          one,
          catch_ups_step l next (round now counter) events
              (handle-watching l now counter m lines free watches),
        ),
      )
]
notify_each l (start_sync_receives ∷ events) h s =
    let (settled, same) = receive-IsSettled l s in
    let (last, e, s', sum) = notify_each (receive l) events (rw (receive-monitor l) h) settled in
    (
      last,
      e,
      s',
      omega (
        arith,
        sum,
        same,
        catch_ups_step l (receive l) start_sync_receives events refl,
        rises_same l.monitor (receive l).monitor (receive-monitor l),
      ),
    )

notified-three :
    (l : Loop)
    → (l.is_full && (l.is_waiting && l.has_received) ≡ true → notified l ≡ 3)
      × (l.is_full && (l.is_waiting && l.has_received) ≡ false → notified l < 3)
notified-three l = (λ all. ground arith, λ some_not. ground arith)

-- From its start, whenever `start_sync` receives, and as long as the counters that the rounds read
-- do not go down and fit 64 bits, the loop does not panic and sends one notification each time that
-- the server catches up: as many as are in the channel, wait for room in it and have been received.
-- The server is seen to catch up three times at most: from the third time on the loop waits, and no
-- later event changes anything.
pub notified-catch_ups :
    (now : ℕ) (events later : List Event)
    → Grow 0 0 events
    → (l : Loop) × (run (start now) events ≡ ok l)
      × (notified l ≡ catch_ups (start now) events)
      × ((catch_ups (start now) events < 3)
          ⊎ ((catch_ups (start now) events ≡ 3) × (run l later ≡ ok l)))
notified-catch_ups now events later h =
    let (l, e, s, sum) =
      notify_each (start now) events h (record { at_rest = refl; waits_full = λ w. cc }) in
    let sum' : notified l ≡ catch_ups (start now) events = omega (arith, sum) in
    (
      l,
      e,
      sum',
      elim (Bool-cases (l.is_full && (l.is_waiting && l.has_received))) [
        | inl all ↦ inr (
          omega (arith, sum', (notified-three l).0 all),
          IsBlocked-keep l later (ground (arith, all)),
        )
        | inr some_not ↦ inl (omega (arith, sum', (notified-three l).1 some_not))
      ],
    )
