-- ===== src/Notifications/Scheduler/Coverage.antt =====
-- The deadline timer covers every deadline.
use nagi_shell.Prelude.{
  ℕ, ◌-◌, ◌≤◌, ◌≡◌, subst, sym, min, Option, none, some, List, [], ◌∷◌, All, All-mono, arith,
}
use nagi_shell.Notifications.Types.{
  LiveAssociation, NotificationSnapshot, NotificationRuntime, World,
}
use nagi_shell.Notifications.Scheduler.{
  int_max, earlier, earliest_expiry, earliest_cutoff, next_interval, arm_scheduler,
}

-- The bound is not after the deadline; without a bound there is no deadline.
abbrev pub NotAfter : Option ℕ → Option ℕ → Type 0
NotAfter bound none = Unit
NotAfter none (some t) = ⊥
NotAfter (some e) (some t) = e ≤ t

NotAfter-trans : (a b c : Option ℕ) → NotAfter a b → NotAfter b c → NotAfter a c
NotAfter-trans a b none p q = tt
NotAfter-trans a none (some t) p q = absurd q
NotAfter-trans none (some u) (some t) p q = p
NotAfter-trans (some e) (some u) (some t) p q = omega arith

NotAfter-refl : (a : Option ℕ) → NotAfter a a
NotAfter-refl none = tt
NotAfter-refl (some e) = omega arith

earlier-NotAfter :
    (a : Option ℕ) (t : ℕ) → NotAfter (earlier a t) a × NotAfter (earlier a t) (some t)
unfolding earlier
earlier-NotAfter none t = (tt, omega arith)
earlier-NotAfter (some e) t = ground arith

expiry_step : Option ℕ → Option ℕ → Option ℕ
expiry_step acc none = acc
expiry_step acc (some t) = earlier acc t

expiry_step-NotAfter :
    (acc d : Option ℕ) → NotAfter (expiry_step acc d) acc × NotAfter (expiry_step acc d) d
unfolding expiry_step
expiry_step-NotAfter acc none = (NotAfter-refl acc, tt)
expiry_step-NotAfter acc (some t) = earlier-NotAfter acc t

abbrev pub ExpiryCovered : Option ℕ → LiveAssociation → Type 0
ExpiryCovered bound a = NotAfter bound a.expiry_deadline_monotonic_ms

abbrev pub CutoffCovered : Option ℕ → NotificationSnapshot → Type 0
CutoffCovered bound s = NotAfter bound (some s.history_cutoff_monotonic_ms)

earliest_expiry-eq :
    (acc : Option ℕ) (a : LiveAssociation) (rest : List LiveAssociation)
    → earliest_expiry acc (a ∷ rest)
      ≡ earliest_expiry (expiry_step acc a.expiry_deadline_monotonic_ms) rest
unfolding earliest_expiry expiry_step
earliest_expiry-eq acc a rest = ground arith

earliest_expiry-NotAfter :
    (acc : Option ℕ) (l : List LiveAssociation)
    → NotAfter (earliest_expiry acc l) acc × All (ExpiryCovered (earliest_expiry acc l)) l
earliest_expiry-NotAfter acc [] = (unfold earliest_expiry in NotAfter-refl acc, tt)
earliest_expiry-NotAfter acc (a ∷ rest) =
    let next = expiry_step acc a.expiry_deadline_monotonic_ms in
    let (first, others) = earliest_expiry-NotAfter next rest in
    let (old, new) = expiry_step-NotAfter acc a.expiry_deadline_monotonic_ms in
    subst (λ e. NotAfter e acc × All (ExpiryCovered e) (a ∷ rest))
      (sym (earliest_expiry-eq acc a rest))
      (NotAfter-trans _ next acc first old, (NotAfter-trans _ next _ first new, others))

earliest_cutoff-NotAfter :
    (acc : Option ℕ) (h : List NotificationSnapshot)
    → NotAfter (earliest_cutoff acc h) acc × All (CutoffCovered (earliest_cutoff acc h)) h
unfolding earliest_cutoff
earliest_cutoff-NotAfter acc [] = (NotAfter-refl acc, tt)
earliest_cutoff-NotAfter acc (s ∷ rest) =
    let next = earlier acc s.history_cutoff_monotonic_ms in
    let (first, others) = earliest_cutoff-NotAfter next rest in
    let (old, new) = earlier-NotAfter acc s.history_cutoff_monotonic_ms in
    (NotAfter-trans _ next acc first old, (NotAfter-trans _ next (some _) first new, others))

-- The timer fires by the deadline: it runs, and not longer than until the deadline.
abbrev pub FiresBy : ℕ → Option ℕ → Option ℕ → Type 0
FiresBy now timer none = Unit
FiresBy now none (some t) = ⊥
FiresBy now (some d) (some t) = d ≤ t - now

FiresBy-interval :
    (now : ℕ) (bound d : Option ℕ)
    → NotAfter bound d
    → FiresBy now (elim bound [ none ↦ none | some e ↦ some (min (e - now) int_max) ]) d
FiresBy-interval now bound none h = tt
FiresBy-interval now none (some t) h = h
FiresBy-interval now (some e) (some t) h = omega arith

-- Once armed, the timer fires by the expiry deadline of every live notification that has one, and by
-- the cutoff of every snapshot.
pub arm_scheduler-FiresBy :
    (w : World) (r : NotificationRuntime)
    → let q = arm_scheduler w r in
      All (λ a. FiresBy w.now q.timer a.expiry_deadline_monotonic_ms) q.live_associations
      × All (λ s. FiresBy w.now q.timer (some s.history_cutoff_monotonic_ms)) q.history_snapshots
unfolding arm_scheduler next_interval
arm_scheduler-FiresBy w r =
    let e = earliest_expiry none r.live_associations in
    let c = earliest_cutoff e r.history_snapshots in
    let (first, snapshots) = earliest_cutoff-NotAfter e r.history_snapshots in
    (
      All-mono (ExpiryCovered e) _ r.live_associations
          (λ a h.
            FiresBy-interval w.now c a.expiry_deadline_monotonic_ms
              (NotAfter-trans c e a.expiry_deadline_monotonic_ms first h))
          (earliest_expiry-NotAfter none r.live_associations).1,
      All-mono (CutoffCovered c) _ r.history_snapshots
          (λ s h. FiresBy-interval w.now c (some s.history_cutoff_monotonic_ms) h) snapshots,
    )
