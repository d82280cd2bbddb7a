-- ===== src/Tracking/Completion.antt =====
-- The channel of capacity one on which the loop of src/tracking.rs tells `start_sync` of src/lib.rs
-- that the server has caught up. `start_sync` receives once, and keeps its end.
use rapid_gossip_sync_server.Prelude.{
  ℕ, List, [], ◌∷◌, Bool, true, false, not, ◌&&◌, if◌then◌else◌, Result, ok, ◌>>=◌,
}
use rapid_gossip_sync_server.Downloader.{GossipCounter}
use rapid_gossip_sync_server.Tracking.{Monitor, new_monitor, watch}

-- The monitor; whether a message is in the channel; whether the loop waits in `send`; and whether
-- `start_sync` has received.
pub record Loop : Type 0 where
  pub monitor : Monitor
  pub is_full : Bool
  pub is_waiting : Bool
  pub has_received : Bool

pub data Event : Type 0 where
  round : ℕ → GossipCounter → Event
  start_sync_receives : Event

-- `completion_sender.send(()).await`, with `needs_to_notify_persister` reset before.
unfoldable pub notify : Loop → Loop
notify l =
    let l' = record l { monitor = record l.monitor { needs_to_notify_persister = false } } in
    if l.is_full then record l' { is_waiting = true } else record l' { is_full = true }

unfoldable pub settle : Loop → Loop
settle l = if l.monitor.needs_to_notify_persister then notify l else l

-- The one `recv` of `start_sync`. It makes room for a sender that waits.
unfoldable pub receive : Loop → Loop
receive l =
    if l.is_full && not l.has_received
    then record l { is_full = l.is_waiting; is_waiting = false; has_received = true }
    else l

-- A loop that waits makes no round.
unfoldable pub handle : Loop → Event → Result Loop
handle l (round now counter) =
    if l.is_waiting
    then ok l
    else watch now counter l.monitor >>= (λ w. ok (settle (record l { monitor = w.0 })))
handle l start_sync_receives = ok (receive l)

-- The loop at the time `now`, with `start_sync` waiting.
abbrev pub start : ℕ → Loop
start now = record {
  monitor = new_monitor now;
  is_full = false;
  is_waiting = false;
  has_received = false;
}

unfoldable pub run : Loop → List Event → Result Loop
run l [] = ok l
run l (event ∷ events) = do l' ← handle l event; run l' events
