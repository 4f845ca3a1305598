-- ===== src/Notifications/Operations/Retention.antt =====
-- pruneHistory against its description: the fresh snapshots, at most 50 of them, the newest kept.
use nagi_shell.Prelude.{
  ℕ, zero, suc, ◌≡◌, refl, ap, ◌∙◌, List, [], ◌∷◌, leb, if◌then◌else◌, take, arith,
}
use nagi_shell.Notifications.Types.{NotificationSnapshot, NotificationRuntime, LiveAssociation}
use nagi_shell.Notifications.History.{max_history}
use nagi_shell.Notifications.Operations.{prune_due, prune_excess, prune_lists, prune_history}

abbrev pub fresh : ℕ → List NotificationSnapshot → List NotificationSnapshot
fresh now [] = []
fresh now (s ∷ rest) =
    if leb s.history_cutoff_monotonic_ms now then fresh now rest else s ∷ fresh now rest

prune_due-fresh :
    (now : ℕ) (h : List NotificationSnapshot) (l : List LiveAssociation)
    → (prune_due now h l).history ≡ fresh now h
unfolding prune_due
prune_due-fresh now [] l = refl
prune_due-fresh now (s ∷ rest) l = ground (arith, prune_due-fresh now rest l)

prune_excess-take :
    (room : ℕ) (h : List NotificationSnapshot) (l : List LiveAssociation)
    → (prune_excess room h l).history ≡ take room h
unfolding prune_excess
prune_excess-take zero [] l = refl
prune_excess-take (suc room) [] l = refl
prune_excess-take zero (s ∷ rest) l = prune_excess-take zero rest l
prune_excess-take (suc room) (s ∷ rest) l = ap (λ t. s ∷ t) (prune_excess-take room rest l)

-- The pruned history is the 50 newest of the snapshots whose cutoff lies after now, in their order.
pub prune_history-retains :
    (now : ℕ) (r : NotificationRuntime)
    → (prune_history now r).history_snapshots ≡ take max_history (fresh now r.history_snapshots)
unfolding prune_history prune_lists
prune_history-retains now r =
    prune_excess-take max_history _ _
    ∙ ap (take max_history) (prune_due-fresh now r.history_snapshots r.live_associations)
