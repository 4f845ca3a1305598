-- ===== src/Brightness/Deadlines.antt =====
-- The timer of the requests, and what it leaves when it fires.
use nagi_shell.Prelude.{
  ℕ, ◌+◌, min, ◌≤◌, ◌<◌, ◌≡◌, refl, sym, subst, not, Option, none, some, List, [], ◌∷◌, map, All,
  arith, if_ind,
}
use nagi_shell.Brightness.{
  PendingRequest, Outcome, timeout, Session, BrightnessBridge, nearest_deadline, interval,
  timer_for, arm_request_timer,
}
use nagi_shell.Brightness.Requests.{
  publish_message, publish_state, publish_request_result, publish_results, is_expired,
  filter_requests, timed_out, expire_requests,
}

-- The timer fires at the latest at the deadline.
abbrev pub FiresBy : ℕ → Option (ℕ × ℕ) → Type 0
FiresBy deadline none = ⊥
FiresBy deadline (some (i, start)) = start + i ≤ deadline

nearest_deadline-le :
    (ps : List PendingRequest) (n : ℕ)
    → (nearest_deadline ps n ≤ n) × All (λ p. nearest_deadline ps n ≤ p.deadline_ms) ps
nearest_deadline-le [] n = (omega arith, tt)
nearest_deadline-le (p ∷ rest) n =
    let h = nearest_deadline-le rest (min n p.deadline_ms) in
    (omega (arith, h.0), (omega (arith, h.0), h.1))

-- Deadlines that are still to come.
abbrev Later : ℕ → List PendingRequest → Type 0
Later now ps = All (λ p. now < p.deadline_ms) ps

interval-le :
    (now : ℕ) (p q : PendingRequest) (rest : List PendingRequest)
    → now < q.deadline_ms
    → nearest_deadline rest p.deadline_ms ≤ q.deadline_ms
    → now + interval now p rest ≤ q.deadline_ms
unfolding interval
interval-le now p q rest later near = omega (arith, later, near)

timer_for-FiresBy :
    (now : ℕ) (ps : List PendingRequest)
    → Later now ps
    → All (λ p. (now < p.deadline_ms) × FiresBy p.deadline_ms (timer_for now ps)) ps
timer_for-FiresBy now [] later = tt
timer_for-FiresBy now (p ∷ rest) later =
    let h = nearest_deadline-le rest p.deadline_ms in
    ((later.0, interval-le now p p rest later.0 h.0), both rest later.1 h.1)
  where
    both :
        (qs : List PendingRequest)
        → Later now qs
        → All (λ q. nearest_deadline rest p.deadline_ms ≤ q.deadline_ms) qs
        → All (λ q. (now < q.deadline_ms) × (now + interval now p rest ≤ q.deadline_ms)) qs
    both [] later near = tt
    both (q ∷ qs) later near =
        ((later.0, interval-le now p q rest later.0 near.0), both qs later.1 near.1)

filter_requests-Later :
    (now : ℕ) (ps : List PendingRequest)
    → Later now (filter_requests (λ p. not (is_expired now p)) ps)
unfolding filter_requests
filter_requests-Later now [] = tt
filter_requests-Later now (p ∷ rest) =
    if_ind (Later now) (not (is_expired now p))
      (λ e. (ground (arith, e), filter_requests-Later now rest)) λ _. filter_requests-Later now rest

-- Publishing changes neither the requests nor the timer.
abbrev Same : BrightnessBridge → BrightnessBridge → Type 0
Same b b' = (b'.pending_requests ≡ b.pending_requests) × (b'.request_timer ≡ b.request_timer)

publish_results-Same :
    (w : Session) (ids : List ℕ) (outcome : Outcome) (b : BrightnessBridge)
    → Same b (publish_results w ids outcome b)
unfolding publish_results publish_request_result publish_state publish_message
publish_results-Same w [] outcome b = (refl, refl)
publish_results-Same w (id ∷ ids) outcome b =
    let later = publish_results-Same w ids outcome (publish_request_result w id outcome b) in
    (later.0, later.1)

-- After expireRequests no request is left whose deadline has passed, and the timer fires before the
-- deadline of every one that is left, or at it.
pub expire_requests-FiresBy :
    (w : Session) (b : BrightnessBridge)
    → All
        (λ p.
          (w.elapsed < p.deadline_ms) × FiresBy p.deadline_ms (expire_requests w b).request_timer)
        (expire_requests w b).pending_requests
unfolding expire_requests
expire_requests-FiresBy w b =
    let now = w.elapsed in
    let expired = filter_requests (is_expired now) b.pending_requests in
    let ps = filter_requests (λ p. not (is_expired now p)) b.pending_requests in
    let b1 = arm_request_timer w (record b {
      pending_requests = ps;
      display_failures = timed_out expired b.display_failures;
    }) in
    let same = publish_results-Same w (map (λ p. p.request_id) expired) timeout b1 in
    subst
      (λ t.
        All (λ (p : PendingRequest). (now < p.deadline_ms) × FiresBy p.deadline_ms t)
          (publish_results w (map (λ p. p.request_id) expired) timeout b1).pending_requests)
      (sym same.1)
      (subst
        (λ qs.
          All
            (λ (p : PendingRequest).
              (now < p.deadline_ms) × FiresBy p.deadline_ms (timer_for now ps))
            qs)
        (sym same.0) (timer_for-FiresBy now ps (filter_requests-Later now b.pending_requests)))
