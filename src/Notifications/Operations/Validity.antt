-- ===== src/Notifications/Operations/Validity.antt =====
-- The invariant of the runtime, and that each shared operation keeps it.
use nagi_shell.Prelude.{
  ℕ, suc, ◌≤◌, ◌<◌, ◌≡◌, refl, inl, inr, Bool, none, some, List, if◌then◌else◌, length, Descending,
  Descending-mono, arith, Option-cases,
}
use nagi_shell.Notifications.Types.{
  World, NotificationRuntime, NotificationSnapshot, LiveAssociation, NormalizedNotification, Signal,
}
use nagi_shell.Notifications.History.{max_history, snapshot_index, remove_key, change_key, expired}
use nagi_shell.Notifications.History.Order.{
  sequence, length-remove_key, Descending-remove_key, length-change_key, Descending-change_key,
}
use nagi_shell.Notifications.History.Links.{
  knows, snapshot_index-knows, knows-remove_key, remove_key_unknown, knows-change_key,
}
use nagi_shell.Notifications.Live.Invariant.{
  LiveOk, LiveOk-mono, LiveOk-below, LiveOk-erase, LiveOk-clear,
}
use nagi_shell.Notifications.Scheduler.{arm_scheduler}
use nagi_shell.Notifications.Operations.{
  u64_max, emit_if, notify_history_reset, notify_history_reset_if, notify_live_count_if_changed,
  allocate_history_sequence, allocate_live_sequence, prune_history, remove_snapshot,
  mark_snapshot_expired, erase_association, report_invalid_timeout,
}
use nagi_shell.Notifications.Operations.Pruning.{
  prune_lists-LiveOk, length-prune_lists, Descending-prune_lists,
}

-- The numbers below which those allocated so far lie.
abbrev pub bound : ℕ → Bool → ℕ
bound next exhausted = if exhausted then suc next else next

pub record Valid (n : ℕ) (live : List LiveAssociation) (history : List NotificationSnapshot)
    (next_history : ℕ) (history_exhausted : Bool) (next_live : ℕ) (live_exhausted : Bool)
    : Type 0 where
  pub live_ok : LiveOk n (knows history) live
  pub few : length history ≤ max_history
  pub ordered : Descending sequence (bound next_history history_exhausted) history
  pub below : n ≤ bound next_live live_exhausted
  pub history_fits : next_history ≤ u64_max
  pub live_fits : next_live ≤ u64_max

-- The live sequence numbers lie below `n`.
abbrev pub ValidBelow : ℕ → NotificationRuntime → Type 0
ValidBelow n r =
    Valid n r.live_associations r.history_snapshots r.next_history_sequence
      r.history_sequence_exhausted r.next_live_sequence r.live_sequence_exhausted

abbrev pub live_bound : NotificationRuntime → ℕ
live_bound r = bound r.next_live_sequence r.live_sequence_exhausted

abbrev pub IsValid : NotificationRuntime → Type 0
IsValid r = ValidBelow (live_bound r) r

pub IsValid-of_below : (n : ℕ) (r : NotificationRuntime) → ValidBelow n r → IsValid r
IsValid-of_below n r v = record {
  live_ok = LiveOk-below n (live_bound r) _ r.live_associations v.below v.live_ok;
  few = v.few;
  ordered = v.ordered;
  below = omega arith;
  history_fits = v.history_fits;
  live_fits = v.live_fits;
}

module _ (n : ℕ) (r : NotificationRuntime) (v : ValidBelow n r) where
  pub emit_if-Valid : (b : Bool) (s : Signal) → ValidBelow n (emit_if b s r)
  unfolding emit_if
  emit_if-Valid b s = v

  pub notify_history_reset-Valid : ValidBelow n (notify_history_reset r)
  unfolding notify_history_reset
  notify_history_reset-Valid = v

  pub notify_history_reset_if-Valid : (b : Bool) → ValidBelow n (notify_history_reset_if b r)
  unfolding notify_history_reset_if
  notify_history_reset_if-Valid b = v

  pub notify_live_count-Valid : (k : ℕ) → ValidBelow n (notify_live_count_if_changed k r)
  unfolding notify_live_count_if_changed
  notify_live_count-Valid k = v

  pub arm_scheduler-Valid : (w : World) → ValidBelow n (arm_scheduler w r)
  unfolding arm_scheduler
  arm_scheduler-Valid w = v

  pub report_invalid_timeout-Valid :
      (p : NormalizedNotification) → ValidBelow n (report_invalid_timeout p r)
  unfolding report_invalid_timeout
  report_invalid_timeout-Valid p = v

  pub with_live :
      (l : List LiveAssociation)
      → LiveOk n (knows r.history_snapshots) l
      → ValidBelow n (record r { live_associations = l })
  with_live l ok = record {
    live_ok = ok;
    few = v.few;
    ordered = v.ordered;
    below = v.below;
    history_fits = v.history_fits;
    live_fits = v.live_fits;
  }

  pub erase_association-Valid : (id : ℕ) → ValidBelow n (erase_association id r)
  unfolding erase_association
  erase_association-Valid id = with_live _ (LiveOk-erase n _ id r.live_associations v.live_ok)

  pub prune_history-Valid : (now : ℕ) → ValidBelow n (prune_history now r)
  unfolding prune_history
  prune_history-Valid now = record {
    live_ok = prune_lists-LiveOk n now r.history_snapshots r.live_associations v.live_ok;
    few = length-prune_lists now r.history_snapshots r.live_associations;
    ordered = Descending-prune_lists now _ r.history_snapshots r.live_associations v.ordered;
    below = v.below;
    history_fits = v.history_fits;
    live_fits = v.live_fits;
  }

  pub change_key-Valid :
      (f : NotificationSnapshot → NotificationSnapshot)
      → ((s : NotificationSnapshot) → sequence (f s) ≡ sequence s)
      → (key : ℕ)
      → ValidBelow n (record r { history_snapshots = change_key key f r.history_snapshots })
  change_key-Valid f same key = record {
    live_ok =
        LiveOk-mono n _ _ r.live_associations
          (λ k e. rw (knows-change_key f same key k r.history_snapshots) e) v.live_ok;
    few = omega (arith, v.few, length-change_key f same key r.history_snapshots);
    ordered = Descending-change_key f same key _ r.history_snapshots v.ordered;
    below = v.below;
    history_fits = v.history_fits;
    live_fits = v.live_fits;
  }

  pub mark_snapshot_expired-Valid : (key : ℕ) → ValidBelow n (mark_snapshot_expired key r)
  unfolding mark_snapshot_expired
  mark_snapshot_expired-Valid = change_key-Valid expired (λ s. refl)

  remove_unknown :
      (key : ℕ)
      → snapshot_index key r.history_snapshots ≡ none
      → remove_key key r.history_snapshots ≡ r.history_snapshots
  remove_unknown key e =
      remove_key_unknown key r.history_snapshots
        (cc (snapshot_index-knows key r.history_snapshots, e))

  pub remove_snapshot-Valid : (key : ℕ) → ValidBelow n (remove_snapshot key r)
  unfolding remove_snapshot
  remove_snapshot-Valid key = elim (Option-cases (snapshot_index key r.history_snapshots)) [
    | inl e ↦ rw (e, remove_snapshot, remove_unknown key e) v
    | inr (i, e) ↦
        rw (e, remove_snapshot)
          record {
            live_ok =
                LiveOk-clear n _ _ key r.live_associations
                  (λ k p ne. knows-remove_key key k r.history_snapshots p ne) v.live_ok;
            few = omega (arith, v.few, length-remove_key key r.history_snapshots);
            ordered = Descending-remove_key key _ r.history_snapshots v.ordered;
            below = v.below;
            history_fits = v.history_fits;
            live_fits = v.live_fits;
          }
  ]

-- An allocation, and what it says of the number.
module _ (n : ℕ) (r : NotificationRuntime) (v : ValidBelow n r) where
  pub allocate_history-Valid : ValidBelow n (allocate_history_sequence r).1
  unfolding allocate_history_sequence
  allocate_history-Valid = record {
    live_ok = v.live_ok;
    few = v.few;
    ordered =
        Descending-mono sequence (bound r.next_history_sequence r.history_sequence_exhausted) _
          r.history_snapshots (ground arith) v.ordered;
    below = v.below;
    history_fits = ground (arith, v.history_fits);
    live_fits = v.live_fits;
  }

  pub allocate_history_above :
      {key : ℕ}
      → (allocate_history_sequence r).0 ≡ some key
      → Descending sequence key (allocate_history_sequence r).1.history_snapshots
        × (key
            < bound
                (allocate_history_sequence r).1.next_history_sequence
                (allocate_history_sequence r).1.history_sequence_exhausted)
  unfolding allocate_history_sequence
  allocate_history_above {key} e = (
    Descending-mono sequence (bound r.next_history_sequence r.history_sequence_exhausted) key
        r.history_snapshots (ground arith) v.ordered,
    ground arith,
  )

  pub allocate_live-Valid : ValidBelow n (allocate_live_sequence r).1
  unfolding allocate_live_sequence
  allocate_live-Valid = record {
    live_ok = v.live_ok;
    few = v.few;
    ordered = v.ordered;
    below = ground (arith, v.below);
    history_fits = v.history_fits;
    live_fits = ground (arith, v.live_fits);
  }

pub allocate_live_above :
    (r : NotificationRuntime) {s : ℕ}
    → (allocate_live_sequence r).0 ≡ some s
    → (live_bound r ≡ s) × (s < live_bound (allocate_live_sequence r).1)
unfolding allocate_live_sequence
allocate_live_above r e = (ground arith, ground arith)
