-- ===== src/Notifications/History/Removal.antt =====
-- A removed key is gone, since the keys of the history are distinct.
use nagi_shell.Prelude.{ℕ, ◌≤◌, ◌≡◌, refl, false, List, [], ◌∷◌, Descending, arith}
use nagi_shell.Notifications.Types.{NotificationSnapshot}
use nagi_shell.Notifications.History.{remove_key}
use nagi_shell.Notifications.History.Order.{sequence}
use nagi_shell.Notifications.History.Links.{knows}

knows_above :
    (key n : ℕ) (h : List NotificationSnapshot)
    → Descending sequence n h
    → n ≤ key
    → knows h key ≡ false
knows_above key n [] d e = refl
knows_above key n (s ∷ rest) d e = ground (arith, knows_above key (sequence s) rest d.1)

pub knows-remove_key_self :
    (key n : ℕ) (h : List NotificationSnapshot)
    → Descending sequence n h
    → knows (remove_key key h) key ≡ false
unfolding remove_key
knows-remove_key_self key n [] d = refl
knows-remove_key_self key n (s ∷ rest) d =
    ground (
      arith,
      knows_above key (sequence s) rest d.1,
      knows-remove_key_self key (sequence s) rest d.1,
    )

pub knows-remove_key-false :
    (key k : ℕ) (h : List NotificationSnapshot)
    → knows h k ≡ false
    → knows (remove_key key h) k ≡ false
unfolding remove_key
knows-remove_key-false key k [] e = refl
knows-remove_key-false key k (s ∷ rest) e = ground (arith, knows-remove_key-false key k rest)
