-- ===== src/Brightness/Validity/Requests.antt =====
-- The requests of the brightness helper, and the displays it reads, keep its invariant.
use nagi_shell.Prelude.{
  ℕ, ◌≤◌, ◌≡◌, ap, ◌∙◌, Bool, true, false, not, ◌&&◌, ◌||◌, Option, none, some, is_some, List, [],
  ◌∷◌, ◌==◌, ltb, if◌then◌else◌, map, any, All, list_eq, arith, if_ind, option_ind,
}
use nagi_shell.Prelude.Int.{ℤ, pos, negsuc}
use nagi_shell.Notifications.Text.{QString}
use nagi_shell.Json.{Double}
use nagi_shell.Brightness.{
  DisplayState, PendingRequest, ObservedChange, Outcome, stale, busy, confirmed, noop, timeout,
  Properties, Session, BrightnessBridge, is_empty, valid_display_name, find_display, find_pending,
  remove_pending, remove_failure, insert_failure, arm_request_timer, pending,
}
use nagi_shell.Brightness.Requests.{
  publish_message, publish_state, publish_request_result, publish_results, publish_unavailable,
  find_key, clamped, new_request, send_request, request_for, request_brightness, settle, is_request,
  on_reply, clear_pending, is_expired, filter_requests, timed_out, expire_requests,
}
use nagi_shell.Brightness.Snapshots.{
  checked_display, read_display, insert_read, read_displays, has_maximum, is_self, publish_changes,
}
use nagi_shell.Brightness.Validity.{
  InRange, Fits, Apart, Named, IsCoherent, timer_for-timed, All-remove_pending,
  Apart-remove_pending, Apart-filter_requests, All-filter_requests, find_key-some,
  Named-insert_display, All-insert_display,
}

abbrev Read : Option DisplayState → Type 0
Read none = Unit
Read (some d) = InRange d

module _ (w : Session) where
  pub publish_state-IsCoherent :
      (change : Option ObservedChange) (r : Option (ℕ × Outcome)) (b : BrightnessBridge)
      → IsCoherent b
      → IsCoherent (publish_state w change r b)
  unfolding publish_state publish_message
  publish_state-IsCoherent change r b v =
      if_ind IsCoherent (not (is_some change || is_some r) && list_eq _ _) (λ _. v) (λ _. v)

  pub publish_request_result-IsCoherent :
      (id : ℕ) (outcome : Outcome) (b : BrightnessBridge)
      → IsCoherent b
      → IsCoherent (publish_request_result w id outcome b)
  unfolding publish_request_result
  publish_request_result-IsCoherent id outcome b v =
      publish_state-IsCoherent none (some (id, outcome)) b v

  pub publish_results-IsCoherent :
      (ids : List ℕ) (outcome : Outcome) (b : BrightnessBridge)
      → IsCoherent b
      → IsCoherent (publish_results w ids outcome b)
  unfolding publish_results
  publish_results-IsCoherent [] outcome b v = v
  publish_results-IsCoherent (id ∷ ids) outcome b v =
      publish_results-IsCoherent ids outcome (publish_request_result w id outcome b)
        (publish_request_result-IsCoherent id outcome b v)

  pub publish_changes-IsCoherent :
      (changes : List ObservedChange) (b : BrightnessBridge)
      → IsCoherent b
      → IsCoherent (publish_changes w changes b)
  unfolding publish_changes
  publish_changes-IsCoherent [] b v = v
  publish_changes-IsCoherent (o ∷ rest) b v =
      let r = if is_self o.origin then some (o.request_id, confirmed) else none in
      publish_changes-IsCoherent rest (publish_state w (some o) r b)
        (publish_state-IsCoherent (some o) r b v)

  pub publish_unavailable-IsCoherent :
      (b : BrightnessBridge) → IsCoherent b → IsCoherent (publish_unavailable w b)
  unfolding publish_unavailable publish_message
  publish_unavailable-IsCoherent b v = v

  -- Some of the requests are gone, and the timer is armed for those that are left.
  pub fewer_requests :
      (ps : List PendingRequest) (b : BrightnessBridge)
      → IsCoherent b
      → All (Fits b.displays) ps
      → Apart ps
      → IsCoherent (arm_request_timer w (record b { pending_requests = ps }))
  fewer_requests ps b v fit apart = record {
    ranged = v.ranged;
    named = v.named;
    fit = fit;
    apart = apart;
    few_changes = v.few_changes;
    timed = timer_for-timed w.elapsed ps;
    owned = v.owned;
  }

  pub removed-IsCoherent :
      (name : QString) (b : BrightnessBridge)
      → IsCoherent b
      → IsCoherent (
          arm_request_timer w
            (record b { pending_requests = remove_pending name b.pending_requests }))
  removed-IsCoherent name b v =
      fewer_requests (remove_pending name b.pending_requests) b v
        (All-remove_pending (Fits b.displays) name b.pending_requests v.fit)
        (Apart-remove_pending name b.pending_requests v.apart)

  pub settle-IsCoherent :
      (name : QString) (id : ℕ) (outcome : Outcome) (b : BrightnessBridge)
      → IsCoherent b
      → IsCoherent (settle w name id outcome b)
  unfolding settle
  settle-IsCoherent name id outcome b v =
      publish_request_result-IsCoherent id outcome
        (arm_request_timer w (record b {
          pending_requests = remove_pending name b.pending_requests;
          display_failures = insert_failure name outcome b.display_failures;
        }))
        (removed-IsCoherent name b v)

  pub on_reply-IsCoherent :
      (owner : QString) (generation : ℕ) (name : QString) (id : ℕ) (o : Option Outcome)
      (b : BrightnessBridge)
      → IsCoherent b
      → IsCoherent (on_reply w owner generation name id o b)
  unfolding on_reply
  on_reply-IsCoherent owner generation name id none b v = v
  on_reply-IsCoherent owner generation name id (some outcome) b v =
      if_ind IsCoherent
        (list_eq b.active_owner owner
          && b.owner_generation == generation
          && is_request id (find_pending name b.pending_requests))
        (λ _. settle-IsCoherent name id outcome b v) (λ _. v)

  pub clear_pending-IsCoherent :
      (name : QString) (outcome : Outcome) (b : BrightnessBridge)
      → IsCoherent b
      → IsCoherent (clear_pending w name outcome b)
  unfolding clear_pending
  clear_pending-IsCoherent name outcome b v =
      option_ind IsCoherent (find_pending name b.pending_requests) (λ _. v)
        λ p _.
          publish_request_result-IsCoherent p.request_id outcome
            (arm_request_timer w
              (record b { pending_requests = remove_pending name b.pending_requests }))
            (removed-IsCoherent name b v)

  pub expire_requests-IsCoherent :
      (b : BrightnessBridge) → IsCoherent b → IsCoherent (expire_requests w b)
  unfolding expire_requests
  expire_requests-IsCoherent b v =
      let f = λ (p : PendingRequest). not (is_expired w.elapsed p) in
      let expired = filter_requests (is_expired w.elapsed) b.pending_requests in
      publish_results-IsCoherent (map (λ p. p.request_id) expired) timeout
        (arm_request_timer w (record b {
          pending_requests = filter_requests f b.pending_requests;
          display_failures = timed_out expired b.display_failures;
        }))
        (fewer_requests (filter_requests f b.pending_requests) b v
          (All-filter_requests (Fits b.displays) (Fits b.displays) f b.pending_requests (λ p _ h. h)
            v.fit)
          (Apart-filter_requests f b.pending_requests v.apart))

  -- A request that is admitted, for a display that was found by its key.
  clamped-le : (z : ℤ) (maximum : ℕ) → clamped z maximum ≤ maximum
  clamped-le (negsuc n) maximum = omega arith
  clamped-le (pos n) maximum = omega arith

  pub send_request-IsCoherent :
      (id requested : ℕ) (d : DisplayState) (b : BrightnessBridge)
      → IsCoherent b
      → find_display d.name b.displays ≡ some d
      → requested ≤ d.maximum
      → find_pending d.name b.pending_requests ≡ none
      → IsCoherent (send_request w id requested d b)
  unfolding send_request
  send_request-IsCoherent id requested d b v there less free =
      let ps = new_request w id requested d b ∷ b.pending_requests in
      publish_request_result-IsCoherent id pending
        (arm_request_timer w (record b {
          pending_requests = ps;
          display_failures = remove_failure d.name b.display_failures;
        }))
        (fewer_requests ps b v ((ap (has_maximum d.maximum) there ∙ same d.maximum, less), v.fit)
          (free, v.apart))
    where
      same : (n : ℕ) → (n == n) ≡ true
      same n = ground arith

  pub request_for-IsCoherent :
      (id : ℕ) (ratio : Double) (d : DisplayState) (b : BrightnessBridge)
      → IsCoherent b
      → find_display d.name b.displays ≡ some d
      → IsCoherent (request_for w id ratio d b)
  unfolding request_for
  request_for-IsCoherent id ratio d b v there =
      let requested = clamped (w.scaled ratio d.maximum) d.maximum in
      if_ind IsCoherent
        (any (λ (p : PendingRequest). p.request_id == id) b.pending_requests
          || is_some (find_pending d.name b.pending_requests))
        (λ _. publish_request_result-IsCoherent id busy b v)
        λ e.
          if_ind IsCoherent (requested == d.brightness)
            (λ _.
              publish_request_result-IsCoherent id noop
                (record b { display_failures = remove_failure d.name b.display_failures }) v)
            λ _.
              send_request-IsCoherent id requested d b v there
                (clamped-le (w.scaled ratio d.maximum) d.maximum)
                (free (any (λ (p : PendingRequest). p.request_id == id) b.pending_requests)
                  (find_pending d.name b.pending_requests) e)
    where
      free : (a : Bool) (o : Option PendingRequest) → (a || is_some o) ≡ false → o ≡ none
      free a o h = ground arith

  pub request_brightness-IsCoherent :
      (id : ℕ) (key : QString) (ratio : Double) (b : BrightnessBridge)
      → IsCoherent b
      → IsCoherent (request_brightness w id key ratio b)
  unfolding request_brightness
  request_brightness-IsCoherent id key ratio b v =
      if_ind IsCoherent (is_empty b.active_owner)
        (λ _. publish_request_result-IsCoherent id stale b v)
        λ _.
          option_ind IsCoherent (find_key key b.displays)
            (λ _. publish_request_result-IsCoherent id stale b v)
            λ d e. request_for-IsCoherent id ratio d b v (find_key-some key b.displays d v.named e)

  -- The displays as they are read.
  checked_display-InRange :
      (generation : ℕ) (name : QString) (p : Properties) (maximum brightness : ℤ)
      → Read (checked_display w generation name p maximum brightness)
  checked_display-InRange generation name p (pos maximum) (pos brightness) =
      if_ind Read (maximum == 0 || ltb maximum brightness) (λ _. tt) λ e. ground (arith, e)
  checked_display-InRange generation name p (pos maximum) (negsuc brightness) = tt
  checked_display-InRange generation name p (negsuc maximum) brightness = tt

  read_display-InRange : (generation : ℕ) (name : QString) → Read (read_display w generation name)
  unfolding read_display
  read_display-InRange generation name =
      if_ind Read (not (valid_display_name name)) (λ _. tt)
        λ _.
          option_ind Read (w.properties name) (λ _. tt)
            λ p _. checked_display-InRange generation name p p.maximum p.brightness

  pub read_displays-InRange :
      (generation : ℕ) (names : List QString) (ds : List DisplayState)
      → All InRange ds × Named ds
      → All InRange (read_displays w generation names ds)
        × Named (read_displays w generation names ds)
  unfolding read_displays
  read_displays-InRange generation [] ds h = h
  read_displays-InRange generation (name ∷ names) ds h =
      read_displays-InRange generation names (insert_read (read_display w generation name) ds)
        (inserted (read_display w generation name) (read_display-InRange generation name))
    where
      inserted :
          (o : Option DisplayState)
          → Read o
          → All InRange (insert_read o ds) × Named (insert_read o ds)
      inserted none r = h
      inserted (some d) r = (All-insert_display InRange d ds r h.0, Named-insert_display d ds h.1)
