-- ===== src/Notifications/History.antt =====
-- src/notifications/runtime.cpp: the history list `historySnapshots`, newest first.
pub mod Order
pub mod Links
pub mod Removal
use nagi_shell.Prelude.{
  ℕ, zero, suc, ◌+◌, Bool, true, false, Option, none, some, List, [], ◌∷◌, ◌==◌, leb, if◌then◌else◌,
}
use nagi_shell.Notifications.Types.{NotificationSnapshot, NormalizedNotification}

abbrev pub max_history : ℕ
max_history = 50

abbrev pub history_lifetime_ms : ℕ
history_lifetime_ms = 86400000

abbrev pub has_key : ℕ → NotificationSnapshot → Bool
has_key key snapshot = snapshot.first_admission_sequence == key

-- snapshotIndex; -1 is `none`.
unfoldable pub snapshot_index : ℕ → List NotificationSnapshot → Option ℕ
snapshot_index key [] = none
snapshot_index key (snapshot ∷ rest) =
    let later = snapshot_index key rest in
    if has_key key snapshot then some 0 else elim later [ none ↦ none | some i ↦ some (i + 1) ]

-- historySnapshots.removeAt of the index that snapshotIndex finds; nothing changes without one.
unfoldable pub remove_key : ℕ → List NotificationSnapshot → List NotificationSnapshot
remove_key key [] = []
remove_key key (snapshot ∷ rest) =
    if has_key key snapshot then rest else snapshot ∷ remove_key key rest

-- historySnapshots[index] = ... at that index.
unfoldable pub change_key :
    ℕ
    → (NotificationSnapshot → NotificationSnapshot)
    → List NotificationSnapshot
    → List NotificationSnapshot
change_key key f [] = []
change_key key f (snapshot ∷ rest) =
    if has_key key snapshot then f snapshot ∷ rest else snapshot ∷ change_key key f rest

abbrev pub expired : NotificationSnapshot → NotificationSnapshot
expired snapshot = record snapshot { live = false }

-- makeSnapshot.
unfoldable pub make_snapshot : NormalizedNotification → ℕ → ℕ → NotificationSnapshot
make_snapshot n key admitted_at = record {
  first_admission_sequence = key;
  first_admitted_monotonic_ms = admitted_at;
  history_cutoff_monotonic_ms = admitted_at + history_lifetime_ms;
  live = true;
  app_name = n.app_name;
  summary = n.summary;
  body = n.body;
  urgency = n.urgency;
  desktop_entry = n.desktop_entry;
  app_icon_name = n.app_icon_name;
  resident = n.resident;
}

-- The replacement that processReplacement writes over a previous snapshot.
unfoldable pub replace_snapshot :
    NormalizedNotification → NotificationSnapshot → NotificationSnapshot
unfolding make_snapshot
replace_snapshot n previous =
    let replacement =
      make_snapshot n previous.first_admission_sequence previous.first_admitted_monotonic_ms in
    record replacement { history_cutoff_monotonic_ms = previous.history_cutoff_monotonic_ms }
