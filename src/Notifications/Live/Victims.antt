-- ===== src/Notifications/Live/Victims.antt =====
-- The victim of a full hash is the least of all candidates.
use nagi_shell.Prelude.{
  ◌≤◌, ◌<◌, ◌≡◌, refl, ◌⊎◌, inl, inr, false, ◌&&◌, ◌||◌, List, [], ◌∷◌, ◌==◌, ltb, All, arith,
  Bool-cases,
}
use nagi_shell.Notifications.Types.{LiveAssociation, NotificationSnapshot}
use nagi_shell.Notifications.Live.{Victim, capacity_class, victim_step, select_victim}

-- Of a lower class, or older in the same class, or the same.
abbrev pub Precedes : Victim → Victim → Type 0
Precedes u v = (u.capacity < v.capacity) ⊎ ((u.capacity ≡ v.capacity) × (u.sequence ≤ v.sequence))

abbrev pub candidate : List NotificationSnapshot → LiveAssociation → Victim
candidate history a = record {
  provisional = false;
  id = a.protocol_id;
  capacity = capacity_class history a;
  sequence = a.live_admission_sequence;
}

Precedes-trans : (u v w : Victim) → Precedes u v → Precedes v w → Precedes u w
Precedes-trans u v w (inl p) (inl q) = inl (omega arith)
Precedes-trans u v w (inl p) (inr q) = inl (omega arith)
Precedes-trans u v w (inr p) (inl q) = inl (omega arith)
Precedes-trans u v w (inr p) (inr q) = inr (omega arith, omega arith)

victim_step-Precedes :
    (history : List NotificationSnapshot) (v : Victim) (a : LiveAssociation)
    → Precedes (victim_step history v a) v
      × Precedes (victim_step history v a) (candidate history a)
unfolding victim_step
victim_step-Precedes history v a = ground arith

select_victim-first :
    (history : List NotificationSnapshot) (v : Victim) (l : List LiveAssociation)
    → Precedes (select_victim history v l) v
unfolding select_victim
select_victim-first history v [] = inr (refl, omega arith)
select_victim-first history v (a ∷ rest) =
    Precedes-trans (select_victim history (victim_step history v a) rest) (victim_step history v a)
      v (select_victim-first history (victim_step history v a) rest)
      (victim_step-Precedes history v a).0

select_victim-All :
    (history : List NotificationSnapshot) (v : Victim) (l : List LiveAssociation)
    → All (λ a. Precedes (select_victim history v l) (candidate history a)) l
unfolding select_victim
select_victim-All history v [] = tt
select_victim-All history v (a ∷ rest) = (
  Precedes-trans (select_victim history (victim_step history v a) rest) (victim_step history v a)
      (candidate history a) (select_victim-first history (victim_step history v a) rest)
      (victim_step-Precedes history v a).1,
  select_victim-All history (victim_step history v a) rest,
)

abbrev pub IsCandidate : List NotificationSnapshot → Victim → List LiveAssociation → Type 0
IsCandidate history v [] = ⊥
IsCandidate history v (a ∷ rest) = (v ≡ candidate history a) ⊎ IsCandidate history v rest

victim_step-cases :
    (history : List NotificationSnapshot) (v : Victim) (a : LiveAssociation)
    → (victim_step history v a ≡ v) ⊎ (victim_step history v a ≡ candidate history a)
unfolding victim_step
victim_step-cases history v a =
    elim (Bool-cases (
      ltb (capacity_class history a) v.capacity
      || capacity_class history a == v.capacity && ltb a.live_admission_sequence v.sequence)) [
        | inl e ↦ inr (rw e)
        | inr e ↦ inl (rw e)
      ]

select_victim-from :
    (history : List NotificationSnapshot) (v : Victim) (l : List LiveAssociation)
    → (select_victim history v l ≡ v) ⊎ IsCandidate history (select_victim history v l) l
unfolding select_victim
select_victim-from history v [] = inl refl
select_victim-from history v (a ∷ rest) =
    joined (select_victim-from history (victim_step history v a) rest)
      (victim_step-cases history v a)
  where
    s : Victim
    s = select_victim history (victim_step history v a) rest

    joined :
        (s ≡ victim_step history v a) ⊎ IsCandidate history s rest
        → (victim_step history v a ≡ v) ⊎ (victim_step history v a ≡ candidate history a)
        → (s ≡ v) ⊎ ((s ≡ candidate history a) ⊎ IsCandidate history s rest)
    joined (inr c) q = inr (inr c)
    joined (inl e) (inl f) = inl (cc (e, f))
    joined (inl e) (inr f) = inr (inl (cc (e, f)))

-- At capacity the loop picks the newcomer or one of the live notifications, and no live notification
-- and not the newcomer is of a lower capacity class, or of the same class and older.
pub select_victim-least :
    (history : List NotificationSnapshot) (newcomer : Victim) (l : List LiveAssociation)
    → let v = select_victim history newcomer l in
      ((v ≡ newcomer) ⊎ IsCandidate history v l)
      × Precedes v newcomer
      × All (λ a. Precedes v (candidate history a)) l
select_victim-least history newcomer l = (
  select_victim-from history newcomer l,
  select_victim-first history newcomer l,
  select_victim-All history newcomer l,
)
