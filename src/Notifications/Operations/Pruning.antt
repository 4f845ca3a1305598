-- ===== src/Notifications/Operations/Pruning.antt =====
-- pruneHistory: what stays of the history, and the links to it.
use nagi_shell.Prelude.{
  ℕ, zero, suc, ◌≤◌, ◌<◌, ◌≡◌, inl, inr, Bool, true, false, ◌||◌, List, [], ◌∷◌, leb, length, All,
  Descending, Descending-mono, arith, Bool-cases,
}
use nagi_shell.Notifications.Types.{NotificationSnapshot, LiveAssociation}
use nagi_shell.Notifications.History.{has_key, max_history}
use nagi_shell.Notifications.History.Order.{sequence}
use nagi_shell.Notifications.History.Links.{knows}
use nagi_shell.Notifications.Live.Invariant.{LiveOk, LiveOk-mono, LiveOk-clear}
use nagi_shell.Notifications.Operations.{prune_due, prune_excess, prune_lists}

length-prune_due :
    (now : ℕ) (h : List NotificationSnapshot) (l : List LiveAssociation)
    → length (prune_due now h l).history ≤ length h
unfolding prune_due
length-prune_due now [] l = omega arith
length-prune_due now (s ∷ rest) l = ground (arith, length-prune_due now rest l)

length-prune_excess :
    (room : ℕ) (h : List NotificationSnapshot) (l : List LiveAssociation)
    → length (prune_excess room h l).history ≤ room
unfolding prune_excess
length-prune_excess room [] l = omega arith
length-prune_excess zero (s ∷ rest) l = length-prune_excess zero rest l
length-prune_excess (suc room) (s ∷ rest) l = omega (arith, length-prune_excess room rest l)

Descending-prune_due :
    (now n : ℕ) (h : List NotificationSnapshot) (l : List LiveAssociation)
    → Descending sequence n h
    → Descending sequence n (prune_due now h l).history
unfolding prune_due
Descending-prune_due now n [] l d = tt
Descending-prune_due now n (s ∷ rest) l d = ground (
  arith,
  Descending-prune_due now (sequence s) rest l d.1,
  Descending-mono sequence (sequence s) n (prune_due now rest l).history,
)

Descending-prune_excess :
    (room n : ℕ) (h : List NotificationSnapshot) (l : List LiveAssociation)
    → Descending sequence n h
    → Descending sequence n (prune_excess room h l).history
unfolding prune_excess
Descending-prune_excess room n [] l d = tt
Descending-prune_excess zero n (s ∷ rest) l d =
    Descending-prune_excess zero n rest l
      (Descending-mono sequence (sequence s) n rest (omega arith) d.1)
Descending-prune_excess (suc room) n (s ∷ rest) l d =
    (d.0, Descending-prune_excess room (sequence s) rest l d.1)

-- No entry of the history is due any more.
abbrev pub IsFresh : ℕ → NotificationSnapshot → Type 0
IsFresh now s = now < s.history_cutoff_monotonic_ms

All-prune_due :
    (now : ℕ) (h : List NotificationSnapshot) (l : List LiveAssociation)
    → All (IsFresh now) (prune_due now h l).history
unfolding prune_due
All-prune_due now [] l = tt
All-prune_due now (s ∷ rest) l = ground (arith, All-prune_due now rest l)

All-prune_excess :
    (now room : ℕ) (h : List NotificationSnapshot) (l : List LiveAssociation)
    → All (IsFresh now) h
    → All (IsFresh now) (prune_excess room h l).history
unfolding prune_excess
All-prune_excess now room [] l f = tt
All-prune_excess now zero (s ∷ rest) l f = All-prune_excess now zero rest l f.1
All-prune_excess now (suc room) (s ∷ rest) l f = (f.0, All-prune_excess now room rest l f.1)

-- `p` stands for the entries above the list, which the loops have not come to.
module _ (n : ℕ) where
  prune_due-LiveOk :
      (now : ℕ) (p : ℕ → Bool) (h : List NotificationSnapshot) (l : List LiveAssociation)
      → LiveOk n (λ k. p k || knows h k) l
      → LiveOk n (λ k. p k || knows (prune_due now h l).history k) (prune_due now h l).live
  unfolding prune_due
  prune_due-LiveOk now p [] l v = v
  prune_due-LiveOk now p (s ∷ rest) l v =
      let above : ℕ → Bool = λ k. p k || has_key k s in
      let ih = prune_due-LiveOk now above rest l (
        LiveOk-mono n (λ k. p k || (has_key k s || knows rest k))
          (λ k. (p k || has_key k s) || knows rest k) l (λ k e. ground arith) v) in
      elim (Bool-cases (leb s.history_cutoff_monotonic_ms now)) [
        | inl due ↦ rw due (LiveOk-clear n _ _ (sequence s) _ (λ k e ne. ground arith) ih)
        | inr kept ↦ rw kept (LiveOk-mono n _ _ _ (λ k e. ground arith) ih)
      ]

  prune_excess-LiveOk :
      (room : ℕ) (p : ℕ → Bool) (h : List NotificationSnapshot) (l : List LiveAssociation)
      → LiveOk n (λ k. p k || knows h k) l
      → LiveOk n (λ k. p k || knows (prune_excess room h l).history k) (prune_excess room h l).live
  unfolding prune_excess
  prune_excess-LiveOk room p [] l v = v
  prune_excess-LiveOk zero p (s ∷ rest) l v =
      LiveOk-clear n _ _ (sequence s) _ (λ k e ne. ground arith)
        (prune_excess-LiveOk zero (λ k. p k || has_key k s) rest l
          (LiveOk-mono n _ _ l (λ k e. ground arith) v))
  prune_excess-LiveOk (suc room) p (s ∷ rest) l v =
      LiveOk-mono n _ _ _ (λ k e. ground arith)
        (prune_excess-LiveOk room (λ k. p k || has_key k s) rest l
          (LiveOk-mono n _ _ l (λ k e. ground arith) v))

-- pruneHistory keeps the links valid.
pub prune_lists-LiveOk :
    (n now : ℕ) (h : List NotificationSnapshot) (l : List LiveAssociation)
    → LiveOk n (knows h) l
    → LiveOk n (knows (prune_lists now h l).history) (prune_lists now h l).live
unfolding prune_lists
prune_lists-LiveOk n now h l v =
    let p = prune_due now h l in
    prune_excess-LiveOk n max_history (λ k. false) p.history p.live
      (prune_due-LiveOk n now (λ k. false) h l v)

pub length-prune_lists :
    (now : ℕ) (h : List NotificationSnapshot) (l : List LiveAssociation)
    → length (prune_lists now h l).history ≤ max_history
unfolding prune_lists
length-prune_lists now h l = length-prune_excess max_history _ _

pub Descending-prune_lists :
    (now n : ℕ) (h : List NotificationSnapshot) (l : List LiveAssociation)
    → Descending sequence n h
    → Descending sequence n (prune_lists now h l).history
unfolding prune_lists
Descending-prune_lists now n h l d =
    Descending-prune_excess max_history n _ _ (Descending-prune_due now n h l d)

pub All-prune_lists :
    (now : ℕ) (h : List NotificationSnapshot) (l : List LiveAssociation)
    → All (IsFresh now) (prune_lists now h l).history
unfolding prune_lists
All-prune_lists now h l = All-prune_excess now max_history _ _ (All-prune_due now h l)

-- Pruning takes the newest entry only if it is due itself.
pub prune_lists_head :
    (now : ℕ) (s : NotificationSnapshot) (h : List NotificationSnapshot) (l : List LiveAssociation)
    → now < s.history_cutoff_monotonic_ms
    → knows (prune_lists now (s ∷ h) l).history (sequence s) ≡ true
unfolding prune_lists prune_due prune_excess
prune_lists_head now s h l fresh = elim (Bool-cases (leb s.history_cutoff_monotonic_ms now)) [
  | inl due ↦ absurd (ground arith)
  | inr kept ↦ rw kept (ground arith)
]
