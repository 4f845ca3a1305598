-- ===== src/Brightness/Accounts/Operations.antt =====
-- What is printed, and the requests that are made, answered and expired.
use nagi_shell.Prelude.{
  ℕ, ◌≡◌, refl, sym, ap, subst, inl, inr, Bool, true, false, not, Option, none, some, List, [], ◌∷◌,
  ◌++◌, ◌==◌, if◌then◌else◌, map, arith, option_ind, Bool-cases,
}
use nagi_shell.Notifications.Text.{QString}
use nagi_shell.Json.{Double}
use nagi_shell.Brightness.{
  PendingRequest, Outcome, ObservedChange, timeout, confirmed, Session, BrightnessBridge,
  find_pending, remove_pending, arm_request_timer, insert_failure,
}
use nagi_shell.Brightness.Requests.{
  publish_message, publish_state, publish_request_result, publish_results, request_brightness,
  settle, is_request, clear_pending, is_expired, filter_requests, timed_out, expire_requests,
  state_message,
}
use nagi_shell.Brightness.Snapshots.{is_self, publish_changes}
use nagi_shell.Brightness.Answers.{is_pending, Served, request_brightness-Served}
use nagi_shell.Brightness.Accounts.{
  Waits, Loses, Tells, Accounts, Tells-trans, Accounts-refl, Loses-Accounts, remove_pending-Loses,
  filter_requests-Loses,
}

module _ (w : Session) where
  pub publish_request_result-Tells :
      (id : ℕ) (outcome : Outcome) (b : BrightnessBridge)
      → is_pending outcome ≡ false
      → Tells (id ∷ []) b (publish_request_result w id outcome b)
  unfolding publish_request_result publish_state publish_message
  publish_request_result-Tells id outcome b e = (
    state_message none (some (id, outcome)) b ∷ [],
    (
      refl,
      (
        λ n h. elim h [
          | inl i ↦ inl (outcome, (ap (λ k. some (k, outcome)) i, e))
          | inr i ↦ absurd i
        ],
        refl,
      ),
    ),
  )

  pub publish_results-Tells :
      (ids : List ℕ) (outcome : Outcome) (b : BrightnessBridge)
      → is_pending outcome ≡ false
      → Tells ids b (publish_results w ids outcome b)
  unfolding publish_results
  publish_results-Tells [] outcome b e = ([], (refl, (λ id h. absurd h, refl)))
  publish_results-Tells (id ∷ ids) outcome b e =
      let b' = publish_request_result w id outcome b in
      Tells-trans (id ∷ []) ids b b' (publish_results w ids outcome b')
        (publish_request_result-Tells id outcome b e) (publish_results-Tells ids outcome b' e)

  -- The numbers that changes of the helper's own confirm.
  abbrev pub confirmed_ids : List ObservedChange → List ℕ
  confirmed_ids [] = []
  confirmed_ids (o ∷ rest) =
      let later = confirmed_ids rest in if is_self o.origin then o.request_id ∷ later else later

  one_change-Tells :
      (o : ObservedChange) (b : BrightnessBridge)
      → Tells (if is_self o.origin then o.request_id ∷ [] else []) b (
          publish_state w
            (some o)
            (if is_self o.origin then some (o.request_id, confirmed) else none)
            b)
  unfolding publish_state publish_message
  one_change-Tells o b = elim (Bool-cases (is_self o.origin)) [
    | inl own ↦ rw own (
      state_message (some o) (some (o.request_id, confirmed)) b ∷ [],
      (
        refl,
        (
          λ n h. elim h [
            | inl i ↦ inl (confirmed, (ap (λ k. some (k, confirmed)) i, refl))
            | inr i ↦ absurd i
          ],
          refl,
        ),
      ),
    )
    | inr other ↦ rw other (state_message (some o) none b ∷ [], (refl, (λ n h. absurd h, refl)))
  ]

  pub publish_changes-Tells :
      (changes : List ObservedChange) (b : BrightnessBridge)
      → Tells (confirmed_ids changes) b (publish_changes w changes b)
  unfolding publish_changes
  publish_changes-Tells [] b = ([], (refl, (λ id h. absurd h, refl)))
  publish_changes-Tells (o ∷ rest) b =
      let own = is_self o.origin in
      let b' = publish_state w (some o) (if own then some (o.request_id, confirmed) else none) b in
      subst (λ ids. Tells ids b (publish_changes w rest b'))
        (joined own o.request_id (confirmed_ids rest))
        (Tells-trans (if own then o.request_id ∷ [] else []) (confirmed_ids rest) b b'
          (publish_changes w rest b') (one_change-Tells o b) (publish_changes-Tells rest b'))
    where
      joined :
          (c : Bool) (id : ℕ) (ids : List ℕ)
          → (if c then id ∷ [] else []) ++ ids ≡ (if c then id ∷ ids else ids)
      joined true id ids = refl
      joined false id ids = refl

  -- What is printed besides costs no request.
  pub publish_request_result-Accounts :
      (id : ℕ) (outcome : Outcome) (b : BrightnessBridge)
      → Accounts b (publish_request_result w id outcome b)
  unfolding publish_request_result publish_state publish_message
  publish_request_result-Accounts id outcome b =
      (state_message none (some (id, outcome)) b ∷ [], (refl, λ p h. inl h))

  Served-Accounts :
      (id : ℕ) (key : QString) (ratio : Double) (b b' : BrightnessBridge)
      → Served w id key ratio b b'
      → Accounts b b'
  Served-Accounts id key ratio b b' (inl (a, (d, (n, (q, (c, s)))))) =
      (a.0 ∷ [], (a.1.0, λ p h. inl (subst (Waits p) (sym s.6) (inr h))))
  Served-Accounts id key ratio b b' (inr (outcome, (e, (a, u)))) =
      (a.0 ∷ [], (a.1.0, λ p h. inl (subst (Waits p) (sym u.0) h)))

  pub request_brightness-Accounts :
      (id : ℕ) (key : QString) (ratio : Double) (b : BrightnessBridge)
      → Accounts b (request_brightness w id key ratio b)
  request_brightness-Accounts id key ratio b =
      Served-Accounts id key ratio b (request_brightness w id key ratio b)
        (request_brightness-Served w id key ratio b)

  pub settle-Accounts :
      (name : QString) (id : ℕ) (outcome : Outcome) (b : BrightnessBridge)
      → is_pending outcome ≡ false
      → is_request id (find_pending name b.pending_requests) ≡ true
      → Accounts b (settle w name id outcome b)
  unfolding settle
  settle-Accounts name id outcome b e found = by (find_pending name b.pending_requests) refl found
    where
      b1 : BrightnessBridge
      b1 = arm_request_timer w (record b {
        pending_requests = remove_pending name b.pending_requests;
        display_failures = insert_failure name outcome b.display_failures;
      })

      same_id : (m n : ℕ) → (m == n) ≡ true → m ≡ n
      same_id m n h = ground arith

      by :
          (o : Option PendingRequest)
          → find_pending name b.pending_requests ≡ o
          → is_request id o ≡ true
          → Accounts b (publish_request_result w id outcome b1)
      by none f h = absurd (cc)
      by (some q) f h =
          Loses-Accounts (id ∷ []) b b1 (publish_request_result w id outcome b1) refl
            (subst (λ k. Loses b.pending_requests b1.pending_requests (k ∷ []))
              (same_id q.request_id id h) (remove_pending-Loses name b.pending_requests q f))
            (publish_request_result-Tells id outcome b1 e)

  pub clear_pending-Accounts :
      (name : QString) (outcome : Outcome) (b : BrightnessBridge)
      → is_pending outcome ≡ false
      → Accounts b (clear_pending w name outcome b)
  unfolding clear_pending
  clear_pending-Accounts name outcome b e =
      option_ind (Accounts b) (find_pending name b.pending_requests) (λ _. Accounts-refl b)
        λ q f.
          let b1 =
            arm_request_timer w
              (record b { pending_requests = remove_pending name b.pending_requests }) in
          Loses-Accounts (q.request_id ∷ []) b b1 (publish_request_result w q.request_id outcome b1)
            refl (remove_pending-Loses name b.pending_requests q f)
            (publish_request_result-Tells q.request_id outcome b1 e)

  pub expire_requests-Accounts : (b : BrightnessBridge) → Accounts b (expire_requests w b)
  unfolding expire_requests
  expire_requests-Accounts b =
      let expired = filter_requests (is_expired w.elapsed) b.pending_requests in
      let ids = map (λ (p : PendingRequest). p.request_id) expired in
      let b1 = arm_request_timer w (record b {
        pending_requests = filter_requests (λ p. not (is_expired w.elapsed p)) b.pending_requests;
        display_failures = timed_out expired b.display_failures;
      }) in
      Loses-Accounts ids b b1 (publish_results w ids timeout b1) refl (rest_of b.pending_requests)
        (publish_results-Tells ids timeout b1 refl)
    where
      twice : (c : Bool) → not (not c) ≡ c
      twice true = refl
      twice false = refl

      rest_of :
          (ps : List PendingRequest)
          → Loses ps
              (filter_requests (λ p. not (is_expired w.elapsed p)) ps)
              (map (λ p. p.request_id) (filter_requests (is_expired w.elapsed) ps))
      rest_of ps =
          subst
            (λ (f : PendingRequest → Bool).
              Loses ps (filter_requests (λ p. not (is_expired w.elapsed p)) ps)
                (map (λ p. p.request_id) (filter_requests f ps)))
            (λ i p. twice (is_expired w.elapsed p) i)
            (filter_requests-Loses (λ p. not (is_expired w.elapsed p)) ps)
