-- ===== src/Lookup/Reminders.antt =====
-- `should_snapshot_include_reminders` of src/lookup.rs.
use rapid_gossip_sync_server.Prelude.{
  ℕ, ◌+◌, ◌-◌, ◌*◌, ◌/◌, ◌%◌, ◌<◌, Bool, true, ◌&&◌, ◌||◌, ltb, ◌==◌, ◌≡◌, ◌⊎◌, ◌↔◌, arith,
}

unfoldable pub should_snapshot_include_reminders : ℕ → ℕ → Bool
should_snapshot_include_reminders last_sync_timestamp current_timestamp =
    let current_hour = current_timestamp / 3600 in
    let current_day = current_timestamp / (24 * 3600) in
    let is_reminder_hour = current_hour % 24 == 0 in
    let is_reminder_day = current_day % 5 == 0 in
    let snapshot_scope = current_timestamp - last_sync_timestamp in
    let is_reminder_scope = ltb (50 * 3600) snapshot_scope in
    (is_reminder_hour && is_reminder_day) || is_reminder_scope

-- Reminders are included exactly in the first hour of every fifth day, counted from the epoch, and
-- for a client whose last sync lies more than fifty hours back.
pub should_snapshot_include_reminders_iff :
    (last_sync_timestamp current_timestamp : ℕ)
    → (should_snapshot_include_reminders last_sync_timestamp current_timestamp ≡ true) ↔ (
        (current_timestamp % (5 * 24 * 3600) < 3600)
        ⊎ (last_sync_timestamp + 50 * 3600 < current_timestamp))
unfolding should_snapshot_include_reminders
should_snapshot_include_reminders_iff last current = ground arith
