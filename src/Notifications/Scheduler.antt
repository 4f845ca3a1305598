-- ===== src/Notifications/Scheduler.antt =====
-- src/notifications/runtime.cpp: armScheduler.
pub mod Coverage
use nagi_shell.Prelude.{
  ℕ, ◌-◌, ◌^◌, min, Bool, not, Option, none, some, is_some, List, [], ◌∷◌, ltb, if◌then◌else◌,
}
use mathlib.Core.Bool.{xor}
use nagi_shell.Notifications.Types.{
  LiveAssociation, NotificationSnapshot, NotificationRuntime, World, active_timer_count_changed,
}

abbrev pub int_max : ℕ
int_max = 2 ^ 31 - 1

-- The update of `earliest` by one deadline; -1 is `none`.
unfoldable pub earlier : Option ℕ → ℕ → Option ℕ
earlier none deadline = some deadline
earlier (some earliest) deadline = if ltb deadline earliest then some deadline else some earliest

-- The first loop skips the associations that have no deadline.
unfoldable pub earliest_expiry : Option ℕ → List LiveAssociation → Option ℕ
unfolding earlier
earliest_expiry earliest [] = earliest
earliest_expiry earliest (a ∷ rest) =
    earliest_expiry
      (elim a.expiry_deadline_monotonic_ms [ none ↦ earliest | some d ↦ earlier earliest d ]) rest

unfoldable pub earliest_cutoff : Option ℕ → List NotificationSnapshot → Option ℕ
unfolding earlier
earliest_cutoff earliest [] = earliest
earliest_cutoff earliest (s ∷ rest) =
    earliest_cutoff (earlier earliest s.history_cutoff_monotonic_ms) rest

unfoldable pub next_interval : World → NotificationRuntime → Option ℕ
unfolding earliest_expiry earliest_cutoff
next_interval w r =
    elim (earliest_cutoff (earliest_expiry none r.live_associations) r.history_snapshots) [
      | none ↦ none
      | some earliest ↦ some (min (earliest - w.now) int_max)
    ]

unfoldable pub arm_scheduler : World → NotificationRuntime → NotificationRuntime
arm_scheduler w r = record r {
  timer = next_interval w r;
  signals =
      if xor (is_some r.timer) (is_some (next_interval w r))
      then active_timer_count_changed ∷ r.signals
      else r.signals;
}
