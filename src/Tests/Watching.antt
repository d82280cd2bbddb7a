-- ===== src/Tests/Watching.antt =====
-- The loop of src/tracking.rs on a few readings, the upgrade of a database, and a list of peers.
use rapid_gossip_sync_server.Prelude.{
  ℕ, ◌<◌, ◌⊎◌, List, [], ◌∷◌, ◌++◌, take, Option, none, some, true, false, if◌then◌else◌, ◌==◌, ok,
  panic, unknown_schema, ◌≡◌, refl, arith,
}
use rapid_gossip_sync_server.Downloader.{GossipCounter, new_counter}
use rapid_gossip_sync_server.Tracking.{
  Monitor, new_monitor, Line, watch, new_message_count, checked_sub, total_message_count, observe,
  is_caught_up, log_lines,
}
use rapid_gossip_sync_server.Tracking.CaughtUp.{IsLater, watch-caught_up}
use rapid_gossip_sync_server.Tracking.Completion.{
  Loop, Event, round, start_sync_receives, handle, receive, settle, notify, start, run,
}
use rapid_gossip_sync_server.Tracking.Blocked.{Grow}
use rapid_gossip_sync_server.Tracking.CatchUps.{catch_ups, notified, notified-catch_ups}
use rapid_gossip_sync_server.Config.Texts.{characters}
use rapid_gossip_sync_server.Config.Peers.{Parsers, both, ln_peers, read_item, ln_peers-append}
use rapid_gossip_sync_server.Config.Upgrade.{
  upgrade_db, schema_after, autovacuum, upgrade_db-resume,
}
use rapid_gossip_sync_server.Config.Columns.{fill, fill_all, nulls, fill-fill_all}

abbrev reading : ℕ → ℕ → GossipCounter
reading announcements updates = record new_counter {
  channel_announcements = announcements;
  channel_updates = updates;
}

is_later : IsLater (reading 10 20) (new_monitor 0)
is_later = record {
  announcements_grow = omega arith;
  updates_grow = omega arith;
  total_fits = omega arith;
}

watch-caught_up_example :
    (first second : Monitor) × (lines lines' : List Line) × (watch 5 (reading 10 20) (new_monitor 0)
      ≡ ok (first, lines))
    × (watch 10 (reading 12 25) first ≡ ok (second, lines'))
    × (second.is_caught_up_with_gossip ≡ true)
    × (first.is_caught_up_with_gossip ≡ false → second.needs_to_notify_persister ≡ true)
watch-caught_up_example =
    watch-caught_up 5 10 (reading 10 20) (reading 12 25) (new_monitor 0) is_later (omega arith)
      (omega arith) (omega arith) (omega arith) (omega arith) (omega arith)

-- The server catches up, `start_sync` receives, and the server falls behind and catches up twice.
abbrev readings : List Event
readings =
    round 5 (reading 1 1)
    ∷ round 10 (reading 1 1)
    ∷ start_sync_receives
    ∷ round 15 (reading 100 100)
    ∷ round 20 (reading 100 100)
    ∷ round 25 (reading 200 200)
    ∷ round 30 (reading 200 200)
    ∷ []

catches_up_thrice : catch_ups (start 0) readings ≡ 3
unfolding handle receive settle notify watch new_message_count checked_sub total_message_count
    observe is_caught_up log_lines
catches_up_thrice = refl

readings-Grow : Grow 0 0 readings
readings-Grow = (
  omega arith,
  omega arith,
  omega arith,
  (
    omega arith,
    omega arith,
    omega arith,
    (
      omega arith,
      omega arith,
      omega arith,
      (
        omega arith,
        omega arith,
        omega arith,
        (omega arith, omega arith, omega arith, (omega arith, omega arith, omega arith, tt)),
      ),
    ),
  ),
)

-- The loop waits, and a fall behind is not noticed any more.
notified-catch_ups_example :
    (l : Loop) × (run (start 0) readings ≡ ok l)
    × (notified l ≡ catch_ups (start 0) readings)
    × ((catch_ups (start 0) readings < 3)
        ⊎ ((catch_ups (start 0) readings ≡ 3)
            × (run l (round 35 (reading 900 900) ∷ start_sync_receives ∷ []) ≡ ok l)))
notified-catch_ups_example =
    notified-catch_ups 0 readings (round 35 (reading 900 900) ∷ start_sync_receives ∷ [])
      readings-Grow

upgrade_db-resume_example :
    let first = take 4 (upgrade_db 3).committed in
    ((upgrade_db 3).committed ≡ first ++ (upgrade_db (schema_after 3 first)).committed)
    × (schema_after 3 (upgrade_db 3).committed ≡ 14)
    × ((upgrade_db 3).outcome ≡ (if ◌==◌ 3 1 then panic unknown_schema else ok autovacuum))
upgrade_db-resume_example = upgrade_db-resume 3 4 (omega arith) (omega arith)

abbrev three_rows : List (ℕ × Option ℕ)
three_rows = (1, none) ∷ (2, some 2) ∷ (3, none) ∷ (4, none) ∷ []

fill-fill_all_example :
    (fill {Value = ℕ} ok 3 2 three_rows ≡ fill_all ok three_rows)
    × ((rows' : List (ℕ × Option ℕ)) → fill ok 3 2 three_rows ≡ ok rows' → nulls ok rows' ≡ 0)
fill-fill_all_example = fill-fill_all ok 3 2 three_rows (omega arith) (omega arith)

abbrev toy_parsers : Parsers
toy_parsers = record {
  PublicKey = List ℕ;
  SocketAddr = List ℕ;
  trim = λ text. text;
  from_hex = λ text. some text;
  from_slice = λ bytes. some bytes;
  to_socket_addrs = λ text. some (text ∷ []);
}

ln_peers-append_example :
    (ln_peers toy_parsers
        (some (characters "02ab@one:9735" ++ (b',' ∷ characters ",03cd@two:9735,")))
      ≡ both toy_parsers
          (ln_peers toy_parsers (some (characters "02ab@one:9735")))
          (ln_peers toy_parsers (some (characters ",03cd@two:9735,"))))
    × (characters ",03cd@two:9735," ≡ []
        → read_item toy_parsers (characters ",03cd@two:9735,") ≡ ok [])
ln_peers-append_example =
    ln_peers-append toy_parsers (characters "02ab@one:9735") (characters ",03cd@two:9735,")
