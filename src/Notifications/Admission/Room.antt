-- ===== src/Notifications/Admission/Room.antt =====
-- While a victim makes room for a newcomer, the newcomer's snapshot and sequence number stay good.
use nagi_shell.Prelude.{
  ℕ, suc, ◌<◌, ◌≡◌, refl, Bool, true, not, Option, none, some, List, [], ◌∷◌, ◌==◌, leb, All,
  Descending, Descending-mono, arith, if_ind, option_ind, Bool-cases, inl, inr,
}
use nagi_shell.Prelude.Int.{ℤ}
use nagi_shell.Notifications.Types.{
  World, Reaction, not_invoked, ignored, closes, NotificationRuntime, NotificationSnapshot,
  LiveAssociation, NormalizedNotification,
}
use nagi_shell.Notifications.History.{expired, max_history, has_key}
use nagi_shell.Notifications.History.Order.{sequence}
use nagi_shell.Notifications.History.Links.{
  knows, knows-remove_key, knows-change_key, Linked, LinkedEntry, LinkedEntry-mono,
  LinkedEntry-clear,
}
use nagi_shell.Notifications.Live.{find, refers_to}
use nagi_shell.Notifications.Live.Entries.{All-find}
use nagi_shell.Notifications.Scheduler.{arm_scheduler}
use nagi_shell.Notifications.Operations.{
  prune_due, prune_excess, prune_lists, prune_history, allocate_history_sequence, admit_snapshot,
  admit_history, remove_snapshot, mark_snapshot_expired, notify_history_reset,
  notify_live_count_if_changed, erase_association, close_record, close_association,
  close_notification, invoke, expire_notification, is_expiry,
}
use nagi_shell.Notifications.Operations.Validity.{bound, live_bound, ValidBelow}

abbrev pub other_than : ℕ → ℕ → Bool
other_than key k = not (k == key)

-- No association is linked to the key.
abbrev pub Unlinked : ℕ → List LiveAssociation → Type 0
Unlinked key = All (LinkedEntry (other_than key))

-- The key is in the history, and no association is linked to it.
abbrev pub Reserved : Option ℕ → NotificationRuntime → Type 0
Reserved none r = Unit
Reserved (some key) r = (knows r.history_snapshots key ≡ true) × Unlinked key r.live_associations

knows-lt :
    (k n : ℕ) (h : List NotificationSnapshot) → Descending sequence n h → knows h k ≡ true → k < n
knows-lt k n [] d e = absurd (cc)
knows-lt k n (s ∷ rest) d e = elim (Bool-cases (has_key k s)) [
  | inl here ↦ ground (arith, d.0)
  | inr there ↦ ground (arith, knows-lt k (sequence s) rest d.1, d.0)
]

prune_due-Unlinked :
    (P : ℕ → Bool) (now : ℕ) (h : List NotificationSnapshot) (l : List LiveAssociation)
    → All (LinkedEntry P) l
    → All (LinkedEntry P) (prune_due now h l).live
unfolding prune_due
prune_due-Unlinked P now [] l u = u
prune_due-Unlinked P now (s ∷ rest) l u =
    let ih = prune_due-Unlinked P now rest l u in
    elim (Bool-cases (leb s.history_cutoff_monotonic_ms now)) [
      | inl due ↦ rw due (LinkedEntry-clear P P (sequence s) _ (λ k e ne. e) ih)
      | inr kept ↦ rw kept ih
    ]

prune_excess-Unlinked :
    (P : ℕ → Bool) (room : ℕ) (h : List NotificationSnapshot) (l : List LiveAssociation)
    → All (LinkedEntry P) l
    → All (LinkedEntry P) (prune_excess room h l).live
unfolding prune_excess
prune_excess-Unlinked P room [] l u = u
prune_excess-Unlinked P ℕ.zero (s ∷ rest) l u =
    LinkedEntry-clear P P (sequence s) _ (λ k e ne. e) (prune_excess-Unlinked P 0 rest l u)
prune_excess-Unlinked P (suc room) (s ∷ rest) l u = prune_excess-Unlinked P room rest l u

pub prune_lists-Unlinked :
    (P : ℕ → Bool) (now : ℕ) (h : List NotificationSnapshot) (l : List LiveAssociation)
    → All (LinkedEntry P) l
    → All (LinkedEntry P) (prune_lists now h l).live
unfolding prune_lists
prune_lists-Unlinked P now h l u =
    prune_excess-Unlinked P max_history _ _ (prune_due-Unlinked P now h l u)

module _ (n : ℕ) (p : NormalizedNotification) (now : ℕ) where
  allocated-Unlinked :
      (r : NotificationRuntime) (key : ℕ)
      → ValidBelow n r
      → (allocate_history_sequence r).0 ≡ some key
      → Unlinked key (allocate_history_sequence r).1.live_associations
  unfolding allocate_history_sequence
  allocated-Unlinked r key v e =
      let d =
        Descending-mono sequence (bound r.next_history_sequence r.history_sequence_exhausted) key
          r.history_snapshots (ground arith) v.ordered in
      LinkedEntry-mono (knows r.history_snapshots) (other_than key) r.live_associations
        (λ j known. ground (arith, knows-lt j key r.history_snapshots d known)) v.live_ok.linked

  admit_allocated-Unlinked :
      (r : NotificationRuntime) (o : Option ℕ)
      → ValidBelow n r
      → (allocate_history_sequence r).0 ≡ o
      → (k : ℕ) → (admit_history p now r).0 ≡ some k
      → Unlinked k (admit_history p now r).1.live_associations
  unfolding admit_history admit_snapshot prune_history
  admit_allocated-Unlinked r none v e k h = absurd (ground arith)
  admit_allocated-Unlinked r (some key) v e k h =
      let r' = (allocate_history_sequence r).1 in
      let same : k ≡ key = ground arith in
      elim (Bool-cases p.transient) [
        | inl t ↦ absurd (ground arith)
        | inr t ↦
            rw (same, t, e, admit_history)
              (prune_lists-Unlinked (other_than key) now _ r'.live_associations
                (allocated-Unlinked r key v e))
      ]

  -- What admitHistory returns is reserved for the newcomer.
  pub admit_history-Reserved :
      (r : NotificationRuntime)
      → ValidBelow n r
      → Linked (knows (admit_history p now r).1.history_snapshots) (admit_history p now r).0
      → Reserved (admit_history p now r).0 (admit_history p now r).1
  admit_history-Reserved r v known = reserved (admit_history p now r).0 refl known
    where
      reserved :
          (o : Option ℕ)
          → (admit_history p now r).0 ≡ o
          → Linked (knows (admit_history p now r).1.history_snapshots) o
          → Reserved o (admit_history p now r).1
      reserved none e known = tt
      reserved (some k) e known = (known, admit_allocated-Unlinked r _ v refl k e)

-- Closing an association removes no other key than its own.
module _ (key : ℕ) where
  close_record-knows :
      (reason : ℤ) (o : Option ℕ) (r : NotificationRuntime)
      → Linked (other_than key) o
      → knows r.history_snapshots key ≡ true
      → knows (close_record reason o r).history_snapshots key ≡ true
  unfolding close_record notify_history_reset mark_snapshot_expired remove_snapshot
  close_record-knows reason none r u e = e
  close_record-knows reason (some k) r u e = elim (Bool-cases (is_expiry reason)) [
    | inl marked ↦
        rw (marked, close_record, knows-change_key expired (λ s. refl) k key r.history_snapshots) e
    | inr removed ↦
        rw (removed, close_record) (knows-remove_key k key r.history_snapshots e (ground arith))
  ]

  pub close_notification-knows :
      (w : World) (h : ℕ) (reason : ℤ) (r : NotificationRuntime)
      → Unlinked key r.live_associations
      → knows r.history_snapshots key ≡ true
      → knows (close_notification w h reason r).history_snapshots key ≡ true
  unfolding close_notification close_association erase_association arm_scheduler
      notify_live_count_if_changed
  close_notification-knows w h reason r u e =
      let K : NotificationRuntime → Type 0 = λ q. knows q.history_snapshots key ≡ true in
      option_ind K (find (w.properties h).protocol_id r.live_associations) (λ _. e)
        λ a found.
          if_ind K (refers_to w a h)
            (λ _.
              close_record-knows reason a.record_key r
                (All-find (LinkedEntry (other_than key)) _ r.live_associations found u) e)
            (λ _. e)

pub expire_notification-knows :
    (w : World) (h : ℕ) (o : Option ℕ) (r : NotificationRuntime)
    → Reserved o r
    → Linked (knows (expire_notification w h r).1.history_snapshots) o
unfolding expire_notification invoke
expire_notification-knows w h none r v = tt
expire_notification-knows w h (some key) r v = reacted (w.expire h)
  where
    reacted : (reaction : Reaction) → knows (invoke w h reaction r).1.history_snapshots key ≡ true
    reacted not_invoked = v.0
    reacted ignored = v.0
    reacted (closes reason) = close_notification-knows key w h reason r v.1 v.0

-- Closing allocates nothing.
close_record-live_bound :
    (reason : ℤ) (o : Option ℕ) (r : NotificationRuntime)
    → live_bound (close_record reason o r) ≡ live_bound r
unfolding close_record notify_history_reset mark_snapshot_expired remove_snapshot
close_record-live_bound reason none r = refl
close_record-live_bound reason (some k) r =
    if_ind (λ (q : NotificationRuntime). live_bound (notify_history_reset q) ≡ live_bound r)
      (is_expiry reason) (λ _. refl) (λ _. refl)

pub expire_notification-live_bound :
    (w : World) (h : ℕ) (r : NotificationRuntime)
    → live_bound (expire_notification w h r).1 ≡ live_bound r
unfolding expire_notification invoke close_notification close_association erase_association
    arm_scheduler notify_live_count_if_changed
expire_notification-live_bound w h r = reacted (w.expire h)
  where
    B : NotificationRuntime → Type 0
    B q = live_bound q ≡ live_bound r

    reacted : (reaction : Reaction) → B (invoke w h reaction r).1
    reacted not_invoked = refl
    reacted ignored = refl
    reacted (closes reason) =
        option_ind B (find (w.properties h).protocol_id r.live_associations) (λ _. refl)
          λ a _.
            if_ind B (refers_to w a h) (λ _. close_record-live_bound reason a.record_key r)
              (λ _. refl)
