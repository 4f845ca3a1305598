-- ===== src/Brightness/Accounts/Snapshots.antt =====
-- refreshSnapshot: the requests that no longer fit, and those that are confirmed.
use nagi_shell.Prelude.{
  ℕ, ◌≡◌, refl, ◌∙◌, subst, inl, inr, Bool, true, false, not, Option, none, some, List, [], ◌∷◌,
  ◌++◌, ◌==◌, if◌then◌else◌, map, list_eq, take, arith, if_ind, option_ind, Bool-cases,
}
use nagi_shell.Brightness.{
  DisplayState, PendingRequest, ObservedChange, stale, Session, BrightnessBridge, maximum_displays,
  find_display, find_pending, remove_pending, is_empty,
}
use nagi_shell.Brightness.Requests.{
  publish_message, publish_state, publish_results, is_request, filter_requests, state_message,
}
use nagi_shell.Brightness.Snapshots.{
  is_brightness, is_self, still_fits, replaced, confirm_change, confirm_changes, publish_changes,
  publish_refresh, commit, read_displays, remove_duplicates, sort_names, refresh_names,
  refresh_snapshot,
}
use nagi_shell.Brightness.Accounts.{
  In, Loses, Tells, Accounts, Tells-trans, Loses-Accounts, remove_pending-Loses,
  filter_requests-Loses,
}
use nagi_shell.Brightness.Accounts.Operations.{
  publish_results-Tells, publish_changes-Tells, confirmed_ids,
}

module _ (w : Session) where
  -- A change that is confirmed takes the request that it is of, and prints nothing yet.
  abbrev Confirms : ObservedChange → BrightnessBridge → Bool × BrightnessBridge → Type 0
  Confirms o b r =
      (r.1.output ≡ b.output)
      × Loses b.pending_requests r.1.pending_requests (if r.0 then confirmed_ids w (o ∷ []) else [])

  confirm_change-Confirms :
      (o : ObservedChange) (b : BrightnessBridge) → Confirms o b (confirm_change w o b)
  unfolding confirm_change
  confirm_change-Confirms o b =
      if_ind (Confirms o b) (not (is_brightness o.brightness (find_display o.name b.displays)))
        (λ _. (refl, λ p h. inl h))
        λ _.
          if_ind (Confirms o b) (not (is_self o.origin)) (λ _. (refl, λ p h. inl h))
            λ own.
              if_ind (Confirms o b)
                (not (is_request o.request_id (find_pending o.name b.pending_requests)))
                (λ _. (refl, λ p h. inl h))
                λ found. (
                  refl,
                  by (find_pending o.name b.pending_requests) refl (mine (is_self o.origin) own) (
                      mine (is_request o.request_id (find_pending o.name b.pending_requests))
                        found),
                )
    where
      mine : (c : Bool) → not c ≡ false → c ≡ true
      mine c h = ground arith

      same_id : (m n : ℕ) → (m == n) ≡ true → m ≡ n
      same_id m n h = ground arith

      by :
          (r : Option PendingRequest)
          → find_pending o.name b.pending_requests ≡ r
          → is_self o.origin ≡ true
          → is_request o.request_id r ≡ true
          → Loses b.pending_requests
              (remove_pending o.name b.pending_requests)
              (confirmed_ids w (o ∷ []))
      by none f own h = absurd (cc)
      by (some q) f own h = rw own (
          subst (λ k. Loses b.pending_requests (remove_pending o.name b.pending_requests) (k ∷ []))
            (same_id q.request_id o.request_id h)
            (remove_pending-Loses o.name b.pending_requests q f))

  confirm_changes-Loses :
      (changes : List ObservedChange) (b : BrightnessBridge)
      → ((confirm_changes w changes b).1.output ≡ b.output)
        × Loses b.pending_requests
            (confirm_changes w changes b).1.pending_requests
            (confirmed_ids w (confirm_changes w changes b).0)
  unfolding confirm_changes
  confirm_changes-Loses [] b = (refl, λ p h. inl h)
  confirm_changes-Loses (o ∷ rest) b =
      let one = confirm_change w o b in
      let c = confirm_change-Confirms o b in
      let later = confirm_changes-Loses rest one.1 in
      (
        later.0 ∙ c.0,
        λ p h. elim (c.1 p h) [
          | inl i ↦ elim (later.1 p i) [
            | inl j ↦ inl j
            | inr j ↦ inr (then_in p.request_id one.0 (confirm_changes w rest one.1).0 j)
          ]
          | inr i ↦ inr (now_in p.request_id one.0 (confirm_changes w rest one.1).0 i)
        ],
      )
    where
      then_in :
          (id : ℕ) (c : Bool) (os : List ObservedChange)
          → In id (confirmed_ids w os)
          → In id (confirmed_ids w (if c then o ∷ os else os))
      then_in id false os h = h
      then_in id true os h = elim (Bool-cases (is_self o.origin)) [
        | inl own ↦ rw own (inr h)
        | inr other ↦ rw other h
      ]

      now_in :
          (id : ℕ) (c : Bool) (os : List ObservedChange)
          → In id (if c then confirmed_ids w (o ∷ []) else [])
          → In id (confirmed_ids w (if c then o ∷ os else os))
      now_in id false os h = absurd h
      now_in id true os h = elim (Bool-cases (is_self o.origin)) [
        | inl own ↦ elim (rw own at h) [ inl i ↦ rw own (inl i) | inr i ↦ absurd i ]
        | inr other ↦ absurd (rw other at h)
      ]

  publish_refresh-Tells :
      (ids : List ℕ) (changes : List ObservedChange) (b : BrightnessBridge)
      → Tells (ids ++ confirmed_ids w changes) b (publish_refresh w ids changes b)
  unfolding publish_refresh publish_state publish_message
  publish_refresh-Tells [] [] b =
      if_ind (Tells [] b) _ (λ _. ([], (refl, (λ id h. absurd h, refl))))
        (λ _. (state_message none none b ∷ [], (refl, (λ id h. absurd h, refl))))
  publish_refresh-Tells [] (o ∷ rest) b = publish_changes-Tells w (o ∷ rest) b
  publish_refresh-Tells (id ∷ ids) changes b =
      let b' = publish_results w (id ∷ ids) stale b in
      Tells-trans (id ∷ ids) (confirmed_ids w changes) b b' (publish_changes w changes b')
        (publish_results-Tells w (id ∷ ids) stale b refl) (publish_changes-Tells w changes b')

In-left : (id : ℕ) (xs ys : List ℕ) → In id xs → In id (xs ++ ys)
In-left id [] ys h = absurd h
In-left id (x ∷ xs) ys (inl h) = inl h
In-left id (x ∷ xs) ys (inr h) = inr (In-left id xs ys h)

In-right : (id : ℕ) (xs ys : List ℕ) → In id ys → In id (xs ++ ys)
In-right id [] ys h = h
In-right id (x ∷ xs) ys h = inr (In-right id xs ys h)

Loses-trans :
    (ps qs rs : List PendingRequest) (ids jds : List ℕ)
    → Loses ps qs ids
    → Loses qs rs jds
    → Loses ps rs (ids ++ jds)
Loses-trans ps qs rs ids jds f g p h = elim (f p h) [
  | inl i ↦ elim (g p i) [ inl j ↦ inl j | inr j ↦ inr (In-right p.request_id ids jds j) ]
  | inr i ↦ inr (In-left p.request_id ids jds i)
]

module _ (w : Session) where
  commit-Accounts :
      (refreshed_displays : List DisplayState) (b : BrightnessBridge)
      → Accounts b (commit w refreshed_displays b)
  unfolding commit
  commit-Accounts ds b =
      let ids =
        map (λ (p : PendingRequest). p.request_id)
          (filter_requests (λ p. not (still_fits ds p)) b.pending_requests) in
      let b0 = replaced w ds b in
      let settled = confirm_changes w b.observed_changes b0 in
      let b1 = record settled.1 { observed_changes = [] } in
      let confirms = confirm_changes-Loses w b.observed_changes b0 in
      Loses-Accounts (ids ++ confirmed_ids w settled.0) b b1 (publish_refresh w ids settled.0 b1)
        confirms.0
        (Loses-trans b.pending_requests b0.pending_requests b1.pending_requests ids
          (confirmed_ids w settled.0) (filter_requests-Loses (still_fits ds) b.pending_requests)
          confirms.1)
        (publish_refresh-Tells w ids settled.0 b1)

  pub refresh_snapshot-Accounts : (b : BrightnessBridge) → Accounts b (refresh_snapshot w b)
  unfolding refresh_snapshot refresh_names
  refresh_snapshot-Accounts b =
      let b' = record b { snapshot_scheduled = false } in
      if_ind (Accounts b) (is_empty b.active_owner) (λ _. ([], (refl, λ p h. inl h)))
        λ _.
          option_ind (Accounts b) w.display_names (λ _. ([], (refl, λ p h. inl h)))
            λ names _.
              let listed = take maximum_displays (sort_names (remove_duplicates [] names)) in
              if_ind (Accounts b) (list_eq w.service_owner b.active_owner)
                (λ _. commit-Accounts (read_displays w b.owner_generation listed []) b')
                (λ _. ([], (refl, λ p h. inl h)))
