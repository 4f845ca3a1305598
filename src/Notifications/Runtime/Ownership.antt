-- ===== src/Notifications/Runtime/Ownership.antt =====
-- The loss of the notification server.
use nagi_shell.Prelude.{
  ℕ, ◌≡◌, refl, true, false, List, [], ◌∷◌, ◌==◌, length, All, Descending, arith, ◌∙◌, if_ind,
}
use nagi_shell.Notifications.Types.{
  World, NotificationRuntime, NotificationSnapshot, LiveAssociation,
}
use nagi_shell.Notifications.History.Order.{sequence, Descending-remove_key}
use nagi_shell.Notifications.History.Links.{knows}
use nagi_shell.Notifications.History.Removal.{knows-remove_key_self, knows-remove_key-false}
use nagi_shell.Notifications.Scheduler.{arm_scheduler}
use nagi_shell.Notifications.Operations.{
  remove_snapshot, notify_history_reset, notify_live_count_if_changed, emit_if,
}
use nagi_shell.Notifications.Operations.Validity.{IsValid}
use nagi_shell.Notifications.Runtime.{
  linked_keys, remove_all, invalidate_all, drop_live, clear_live_state, set_server_owned,
}

abbrev pub Unknown : List NotificationSnapshot → ℕ → Type 0
Unknown h key = knows h key ≡ false

remove_all-Unknown :
    (n : ℕ) (keys : List ℕ) (r : NotificationRuntime)
    → Descending sequence n r.history_snapshots
    → All (Unknown (remove_all keys r).history_snapshots) keys
      × ((k : ℕ) → Unknown r.history_snapshots k → Unknown (remove_all keys r).history_snapshots k)
unfolding remove_all remove_snapshot
remove_all-Unknown n [] r d = (tt, λ k u. u)
remove_all-Unknown n (key ∷ rest) r d =
    let (gone, kept) =
      remove_all-Unknown n rest (remove_snapshot key r)
        (Descending-remove_key key n r.history_snapshots d) in
    (
      (kept key (knows-remove_key_self key n r.history_snapshots d), gone),
      λ k u. kept k (knows-remove_key-false key k r.history_snapshots u),
    )

owns-remove_all :
    (keys : List ℕ) (r : NotificationRuntime)
    → (remove_all keys r).owns_notification_server ≡ r.owns_notification_server
unfolding remove_all remove_snapshot
owns-remove_all [] r = refl
owns-remove_all (key ∷ rest) r = owns-remove_all rest (remove_snapshot key r)

-- What the loss leaves.
abbrev pub Cleared : List LiveAssociation → NotificationRuntime → Type 0
Cleared live q =
    (q.owns_notification_server ≡ false)
    × (q.live_associations ≡ [])
    × All (Unknown q.history_snapshots) (linked_keys live)

clear_empty :
    (l : List LiveAssociation) (r : NotificationRuntime)
    → r.live_associations ≡ l
    → r.owns_notification_server ≡ false
    → (length l == 0) ≡ true
    → Cleared l r
clear_empty [] r e lost z = (lost, e, tt)
clear_empty (a ∷ rest) r e lost z = absurd (ground arith)

clear_live_state-Cleared :
    (w : World) (n : ℕ) (r : NotificationRuntime)
    → Descending sequence n r.history_snapshots
    → r.owns_notification_server ≡ false
    → Cleared r.live_associations (clear_live_state w r)
unfolding clear_live_state drop_live arm_scheduler notify_live_count_if_changed notify_history_reset
clear_live_state-Cleared w n r d lost =
    let keys = linked_keys r.live_associations in
    let r1 = invalidate_all r in
    if_ind (Cleared r.live_associations) (length r.live_associations == 0)
      (λ z. clear_empty r.live_associations r refl lost z)
      λ _. (owns-remove_all keys r1 ∙ lost, refl, (remove_all-Unknown n keys r1 d).0)

-- Where a valid runtime loses the ownership of the notification server, no live notification is left,
-- and no snapshot that one of them was linked to.
pub set_server_owned-clears :
    (w : World) (r : NotificationRuntime)
    → IsValid r
    → r.owns_notification_server ≡ true
    → let q = set_server_owned w false r in
      (q.owns_notification_server ≡ false)
      × (q.live_associations ≡ [])
      × All (Unknown q.history_snapshots) (linked_keys r.live_associations)
unfolding set_server_owned emit_if
set_server_owned-clears w r v owned =
    rw (owned, set_server_owned)
      (clear_live_state-Cleared w _ (record r { owns_notification_server = false }) v.ordered refl)
