-- ===== src/Tracking/Blocked.antt =====
-- What the channel of capacity one means for the loop of src/tracking.rs.
use rapid_gossip_sync_server.Prelude.{
  ℕ, ◌≤◌, ◌<◌, ◌^◌, List, [], ◌∷◌, true, false, ok, ◌≡◌, refl, arith,
}
use rapid_gossip_sync_server.Downloader.{GossipCounter}
use rapid_gossip_sync_server.Tracking.{Monitor, watch, Line}
use rapid_gossip_sync_server.Tracking.Completion.{
  Loop, Event, round, start_sync_receives, notify, settle, receive, handle, run,
}
use rapid_gossip_sync_server.Tracking.CaughtUp.{total}

-- The counters that the rounds read do not go down, and fit 64 bits.
abbrev pub Grow : ℕ → ℕ → List Event → Type 0
Grow announcements updates [] = Unit
Grow announcements updates (round now counter ∷ events) =
    (announcements ≤ counter.channel_announcements)
    × (updates ≤ counter.channel_updates)
    × (total counter < 2 ^ 64)
    × Grow counter.channel_announcements counter.channel_updates events
Grow announcements updates (start_sync_receives ∷ events) = Grow announcements updates events

pub Grow-le :
    (a a' u u' : ℕ) (events : List Event) → a' ≤ a → u' ≤ u → Grow a u events → Grow a' u' events
Grow-le a a' u u' [] la lu h = tt
Grow-le a a' u u' (round now counter ∷ events) la lu h =
    (omega (arith, h.0, la), omega (arith, h.1, lu), h.2, h.3)
Grow-le a a' u u' (start_sync_receives ∷ events) la lu h = Grow-le a a' u u' events la lu h

-- Notifying does not touch what was read.
pub settle-counts :
    (l : Loop)
    → ((settle l).monitor.previous_announcement_count ≡ l.monitor.previous_announcement_count)
      × ((settle l).monitor.previous_update_count ≡ l.monitor.previous_update_count)
unfolding settle notify
settle-counts l = (ground arith, ground arith)

pub receive-monitor : (l : Loop) → (receive l).monitor ≡ l.monitor
unfolding receive
receive-monitor l = ground arith

pub handle-waiting :
    (l : Loop) (now : ℕ) (counter : GossipCounter)
    → l.is_waiting ≡ true
    → handle l (round now counter) ≡ ok l
unfolding handle
handle-waiting l now counter waits = ground (arith, waits)

pub handle-watching :
    (l : Loop) (now : ℕ) (counter : GossipCounter) (m : Monitor) (lines : List Line)
    → l.is_waiting ≡ false
    → watch now counter l.monitor ≡ ok (m, lines)
    → handle l (round now counter) ≡ ok (settle (record l { monitor = m }))
unfolding handle
handle-watching l now counter m lines free watches = rw (handle, free, watches) refl

receive-waiting : (l : Loop) → l.has_received ≡ true → receive l ≡ l
unfolding receive
receive-waiting l received = ground (arith, received)

-- A loop that waits after `start_sync` has received.
abbrev pub IsBlocked : Loop → Type 0
IsBlocked l = (l.is_full ≡ true) × (l.is_waiting ≡ true) × (l.has_received ≡ true)

pub IsBlocked-keep : (l : Loop) (events : List Event) → IsBlocked l → run l events ≡ ok l
unfolding run handle
IsBlocked-keep l [] h = refl
IsBlocked-keep l (round now counter ∷ events) h =
    rw (run, handle-waiting l now counter h.1) (IsBlocked-keep l events h)
IsBlocked-keep l (start_sync_receives ∷ events) h =
    rw (run, handle, receive-waiting l h.2) (IsBlocked-keep l events h)
