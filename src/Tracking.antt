-- ===== src/Tracking.antt =====
-- src/tracking.rs: connecting to the peers, and the loop that watches the router's counters and
-- says when the server has caught up with gossip.
pub mod Peers
pub mod Completion
pub mod CaughtUp
pub mod Blocked
pub mod CatchUps
use rapid_gossip_sync_server.Prelude.{
  ℕ, ◌+◌, ◌-◌, ◌%◌, ◌^◌, List, [], ◌∷◌, ◌++◌, Bool, true, false, not, ◌&&◌, ◌||◌, if◌then◌else◌,
  ltb, leb, Result, ok, panic, underflow, ◌>>=◌,
}
use rapid_gossip_sync_server.Downloader.{GossipCounter}

-- The lines that the loop logs.
pub data Line : Type 0 where
  gossip_count : ℕ → ℕ → ℕ → GossipCounter → Line
  monitoring caught_up new_messages nothing_new : Line

-- The variables of the loop, times in seconds.
pub record Monitor : Type 0 where
  pub previous_announcement_count : ℕ
  pub previous_update_count : ℕ
  pub is_caught_up_with_gossip : Bool
  pub i : ℕ
  pub latest_new_gossip_time : ℕ
  pub needs_to_notify_persister : Bool

abbrev pub new_monitor : ℕ → Monitor
new_monitor now = record {
  previous_announcement_count = 0;
  previous_update_count = 0;
  is_caught_up_with_gossip = false;
  i = 0;
  latest_new_gossip_time = now;
  needs_to_notify_persister = false;
}

-- `a - b` of `u64`s
unfoldable pub checked_sub : ℕ → ℕ → Result ℕ
checked_sub a b = if ltb a b then panic underflow else ok (a - b)

unfoldable pub total_message_count : GossipCounter → ℕ
total_message_count counter = (counter.channel_announcements + counter.channel_updates) % 2 ^ 64

unfoldable pub new_message_count : GossipCounter → Monitor → Result ℕ
new_message_count counter m = do
  above ← checked_sub (total_message_count counter) m.previous_announcement_count
  checked_sub above m.previous_update_count

unfoldable pub is_caught_up : ℕ → Monitor → Bool
is_caught_up new_count m =
    ltb new_count 20 && (ltb 0 m.previous_announcement_count && ltb 0 m.previous_update_count)

-- The variables after a round at the time `now`, given how many messages are new.
unfoldable pub observe : ℕ → GossipCounter → ℕ → Monitor → Monitor
observe now counter new_count m =
    let is_now = is_caught_up new_count m in
    record {
      previous_announcement_count = counter.channel_announcements;
      previous_update_count = counter.channel_updates;
      is_caught_up_with_gossip = is_now;
      i = (m.i + 1) % 2 ^ 32;
      latest_new_gossip_time = if ltb 0 new_count then now else m.latest_new_gossip_time;
      needs_to_notify_persister =
          if is_now && not m.is_caught_up_with_gossip then true else m.needs_to_notify_persister;
    }

-- What the round logs: `m` is the state before it, and `m'` the state after it.
unfoldable pub log_lines : ℕ → GossipCounter → ℕ → Monitor → Monitor → List Line
log_lines now counter new_count m m' =
    let is_now = m'.is_caught_up_with_gossip in
    let was = m.is_caught_up_with_gossip in
    let counts : List Line =
      if not is_now || not was
      then gossip_count m'.i (total_message_count counter) new_count counter ∷ []
      else monitoring ∷ [] in
    let turns : List Line =
      if is_now && not was
      then caught_up ∷ []
      else if not is_now && was
      then new_messages ∷ []
      else [] in
    let silence : List Line =
      if ltb 600 (now - m'.latest_new_gossip_time) then nothing_new ∷ [] else [] in
    counts ++ turns ++ silence

-- One round up to the notification.
unfoldable pub watch : ℕ → GossipCounter → Monitor → Result (Monitor × List Line)
watch now counter m = do
  new_count ← new_message_count counter m
  let m' = observe now counter new_count m
  ok (m', log_lines now counter new_count m m')
