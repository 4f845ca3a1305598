-- ===== src/Notifications/Replacement/Coalescing.antt =====
-- What a burst of calls of queueReplacement queues.
use nagi_shell.Prelude.{
  ℕ, ◌≡◌, refl, ap, ◌∙◌, Bool, true, false, not, ◌&&◌, Option, none, some, List, [], ◌∷◌, ◌++◌,
  ◌==◌, if◌then◌else◌, arith, Bool-cases, inl, inr,
}
use nagi_shell.Notifications.Types.{NotificationRuntime, LiveAssociation}
use nagi_shell.Notifications.Live.{find, modify}
use nagi_shell.Notifications.Replacement.{with_queued, modify_live, queue_replacement}

-- Updates, as the identifiers and the objects that send them.
abbrev pub Updates : Type 0
Updates = List (ℕ × ℕ)

-- The calls one after the other.
unfoldable pub queue_all : Updates → NotificationRuntime → NotificationRuntime
queue_all [] r = r
queue_all ((id, h) ∷ rest) r = queue_all rest (queue_replacement id h r)

-- The specification: of each identifier that is live and has no update queued, the first update.
abbrev pub awaits : Option LiveAssociation → Bool
awaits none = false
awaits (some a) = not a.update_queued

abbrev pub is_idle : ℕ → List LiveAssociation → Bool
is_idle id live = awaits (find id live)

unfoldable pub others : ℕ → Updates → Updates
others id [] = []
others id ((k, h) ∷ rest) = let later = others id rest in if k == id then later else (k, h) ∷ later

unfoldable pub firsts : Updates → List LiveAssociation → Updates
unfolding others
firsts [] live = []
firsts ((id, h) ∷ rest) live =
    let later = firsts rest live in if is_idle id live then (id, h) ∷ others id later else later

unfoldable pub marked : Updates → List LiveAssociation → List LiveAssociation
marked [] live = live
marked ((id, h) ∷ rest) live = marked rest (modify id (with_queued true) live)

-- An association is idle under the mark of another only.
is_idle-modify :
    (i j : ℕ) (l : List LiveAssociation)
    → is_idle i (modify j (with_queued true) l) ≡ (is_idle i l && not (i == j))
unfolding find modify
is_idle-modify i j [] = refl
is_idle-modify i j (a ∷ rest) = ground (arith, is_idle-modify i j rest)

others-others : (i j : ℕ) (us : Updates) → others i (others j us) ≡ others j (others i us)
unfolding others
others-others i j [] = refl
others-others i j ((k, h) ∷ rest) = ground (arith, others-others i j rest)

others-same : (i : ℕ) (us : Updates) → others i (others i us) ≡ others i us
unfolding others
others-same i [] = refl
others-same i ((k, h) ∷ rest) = ground (arith, others-same i rest)

firsts-modify :
    (j : ℕ) (us : Updates) (l : List LiveAssociation)
    → firsts us (modify j (with_queued true) l) ≡ others j (firsts us l)
unfolding firsts others
firsts-modify j [] l = refl
firsts-modify j ((i, h) ∷ rest) l = ground (
  arith,
  is_idle-modify i j l,
  firsts-modify j rest l,
  others-others i j (firsts rest l),
  others-same j (firsts rest l),
)

append_one : {A : Type 0} (xs : List A) (x : A) (ys : List A) → (xs ++ x ∷ []) ++ ys ≡ xs ++ x ∷ ys
append_one [] x ys = refl
append_one (z ∷ xs) x ys = ap (λ l. z ∷ l) (append_one xs x ys)

append_none : {A : Type 0} (xs : List A) → xs ≡ xs ++ []
append_none [] = refl
append_none (z ∷ xs) = ap (λ l. z ∷ l) (append_none xs)

queue_replacement-idle :
    (id h : ℕ) (r : NotificationRuntime)
    → is_idle id r.live_associations ≡ true
    → queue_replacement id h r ≡ record r {
      queued = r.queued ++ (id, h) ∷ [];
      live_associations = modify id (with_queued true) r.live_associations;
    }
unfolding queue_replacement modify_live
queue_replacement-idle id h r e = ground (arith, e)

queue_replacement-busy :
    (id h : ℕ) (r : NotificationRuntime)
    → is_idle id r.live_associations ≡ false
    → queue_replacement id h r ≡ r
unfolding queue_replacement
queue_replacement-busy id h r e = ground (arith, e)

-- What a list of updates that are queued makes of the runtime.
abbrev pub with_updates : Updates → NotificationRuntime → NotificationRuntime
with_updates us r = record r {
  queued = r.queued ++ us;
  live_associations = marked us r.live_associations;
}

-- A burst of calls of queueReplacement, with nothing else between them, queues one call for each
-- identifier that is live and has no update queued, that of its first update, in their order; it marks
-- the associations of these as queued, and changes nothing else.
pub queue_all-firsts :
    (us : Updates) (r : NotificationRuntime)
    → queue_all us r ≡ with_updates (firsts us r.live_associations) r
unfolding queue_all firsts marked
queue_all-firsts [] r = ap (λ q. record r { queued = q }) (append_none r.queued)
queue_all-firsts ((id, h) ∷ rest) r = elim (Bool-cases (is_idle id r.live_associations)) [
  | inl idle ↦
      let live = r.live_associations in
      let later = others id (firsts rest live) in
      let r1 = with_updates ((id, h) ∷ []) r in
      rw idle (
        ap (queue_all rest) (queue_replacement-idle id h r idle)
        ∙ queue_all-firsts rest r1
        ∙ ap (λ us. with_updates us r1) (firsts-modify id rest live)
        ∙ ap (λ q. record (with_updates ((id, h) ∷ later) r) { queued = q })
            (append_one r.queued (id, h) later))
  | inr busy ↦ rw (queue_replacement-busy id h r busy, busy) (queue_all-firsts rest r)
]
