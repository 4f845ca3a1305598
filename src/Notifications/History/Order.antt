-- ===== src/Notifications/History/Order.antt =====
-- The history stays in falling order of its sequence numbers, whatever is removed.
use nagi_shell.Prelude.{
  ℕ, ◌≤◌, ◌≡◌, refl, List, [], ◌∷◌, length, Descending, Descending-mono, arith,
}
use nagi_shell.Notifications.Types.{NotificationSnapshot}
use nagi_shell.Notifications.History.{remove_key, change_key}

abbrev pub sequence : NotificationSnapshot → ℕ
sequence s = s.first_admission_sequence

pub length-remove_key :
    (key : ℕ) (h : List NotificationSnapshot) → length (remove_key key h) ≤ length h
unfolding remove_key
length-remove_key key [] = omega arith
length-remove_key key (s ∷ rest) = ground (arith, length-remove_key key rest)

pub Descending-remove_key :
    (key n : ℕ) (h : List NotificationSnapshot)
    → Descending sequence n h
    → Descending sequence n (remove_key key h)
unfolding remove_key
Descending-remove_key key n [] d = tt
Descending-remove_key key n (s ∷ rest) d = ground (
  arith,
  Descending-remove_key key (sequence s) rest d.1,
  Descending-mono sequence (sequence s) n rest,
)

module _ (f : NotificationSnapshot → NotificationSnapshot)
    (same : (s : NotificationSnapshot) → sequence (f s) ≡ sequence s) where
  pub length-change_key :
      (key : ℕ) (h : List NotificationSnapshot) → length (change_key key f h) ≡ length h
  unfolding change_key
  length-change_key key [] = refl
  length-change_key key (s ∷ rest) = ground (arith, length-change_key key rest)

  pub Descending-change_key :
      (key n : ℕ) (h : List NotificationSnapshot)
      → Descending sequence n h
      → Descending sequence n (change_key key f h)
  unfolding change_key
  Descending-change_key key n [] d = tt
  Descending-change_key key n (s ∷ rest) d =
      ground (arith, Descending-change_key key (sequence s) rest d.1, same s)
