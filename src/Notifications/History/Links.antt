-- ===== src/Notifications/History/Links.antt =====
-- Which keys the history knows, and the links of the associations to it.
use nagi_shell.Prelude.{
  ℕ, ◌≡◌, refl, inl, inr, Bool, true, false, Option, none, some, is_some, List, [], ◌∷◌, ◌==◌, any,
  All, arith, Bool-cases,
}
use nagi_shell.Notifications.Types.{NotificationSnapshot, LiveAssociation}
use nagi_shell.Notifications.History.{snapshot_index, remove_key, change_key, has_key}
use nagi_shell.Notifications.Live.{unlink_key, clear_record_link}
use nagi_shell.Notifications.History.Order.{sequence}

abbrev pub knows : List NotificationSnapshot → ℕ → Bool
knows h key = any (has_key key) h

pub snapshot_index-knows :
    (key : ℕ) (h : List NotificationSnapshot) → is_some (snapshot_index key h) ≡ knows h key
unfolding snapshot_index
snapshot_index-knows key [] = refl
snapshot_index-knows key (s ∷ rest) = ground (arith, snapshot_index-knows key rest)

pub knows-remove_key :
    (key k : ℕ) (h : List NotificationSnapshot)
    → knows h k ≡ true
    → (k == key) ≡ false
    → knows (remove_key key h) k ≡ true
unfolding remove_key
knows-remove_key key k [] e ne = cc
knows-remove_key key k (s ∷ rest) e ne = ground (arith, knows-remove_key key k rest)

pub remove_key_unknown :
    (key : ℕ) (h : List NotificationSnapshot) → knows h key ≡ false → remove_key key h ≡ h
unfolding remove_key
remove_key_unknown key [] e = refl
remove_key_unknown key (s ∷ rest) e = ground (arith, remove_key_unknown key rest)

pub knows-change_key :
    (f : NotificationSnapshot → NotificationSnapshot)
    → ((s : NotificationSnapshot) → sequence (f s) ≡ sequence s)
    → (key k : ℕ) (h : List NotificationSnapshot) → knows (change_key key f h) k ≡ knows h k
unfolding change_key
knows-change_key f same key k [] = refl
knows-change_key f same key k (s ∷ rest) =
    ground (arith, knows-change_key f same key k rest, same s)

-- A link is none, or to a key that `P` allows.
abbrev pub Linked : (ℕ → Bool) → Option ℕ → Type 0
Linked P none = Unit
Linked P (some key) = P key ≡ true

abbrev pub LinkedEntry : (ℕ → Bool) → LiveAssociation → Type 0
LinkedEntry P a = Linked P a.record_key

-- A link survives where the new history knows what the old one knew.
pub LinkedEntry-mono :
    (P Q : ℕ → Bool) (l : List LiveAssociation)
    → ((k : ℕ) → P k ≡ true → Q k ≡ true)
    → All (LinkedEntry P) l
    → All (LinkedEntry Q) l
LinkedEntry-mono P Q [] g h = tt
LinkedEntry-mono P Q (a ∷ rest) g h =
    (Linked-mono a.record_key h.0, LinkedEntry-mono P Q rest g h.1)
  where
    Linked-mono : (o : Option ℕ) → Linked P o → Linked Q o
    Linked-mono none x = tt
    Linked-mono (some k) x = g k x

Linked-unlink_key :
    (P Q : ℕ → Bool) (key : ℕ) (a : LiveAssociation) (o : Option ℕ)
    → ((k : ℕ) → P k ≡ true → (k == key) ≡ false → Q k ≡ true)
    → a.record_key ≡ o
    → Linked P o
    → LinkedEntry Q (unlink_key key a)
Linked-unlink_key P Q key a none g e h = rw e tt
Linked-unlink_key P Q key a (some k) g e h = elim (Bool-cases (k == key)) [
  | inl same ↦ rw (e, same) tt
  | inr other ↦ rw (e, other) (g k h other)
]

-- A key may go from what is known once the links to it are cleared.
pub LinkedEntry-clear :
    (P Q : ℕ → Bool) (key : ℕ) (l : List LiveAssociation)
    → ((k : ℕ) → P k ≡ true → (k == key) ≡ false → Q k ≡ true)
    → All (LinkedEntry P) l
    → All (LinkedEntry Q) (clear_record_link key l)
unfolding clear_record_link
LinkedEntry-clear P Q key [] g h = tt
LinkedEntry-clear P Q key (a ∷ rest) g h =
    (Linked-unlink_key P Q key a a.record_key g refl h.0, LinkedEntry-clear P Q key rest g h.1)
