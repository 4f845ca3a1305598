-- ===== src/Brightness/Answers.antt =====
-- Every request is answered at once, with its own id.
use mathlib.Core.List.{Memᴰ}
use nagi_shell.Prelude.{
  ℕ, ◌+◌, ◌≤◌, ◌≡◌, ◌≢◌, ap, ◌∙◌, ◌⊎◌, inl, inr, refl, Bool, true, false, ◌||◌, Option, none, some,
  is_some, List, [], ◌∷◌, any, list_eq, list_eq_sound, list_eq_refl, All, sym, Bool-cases, arith,
  if_ind, option_ind, ◌==◌,
}
use nagi_shell.Prelude.Int.{ℤ, pos, negsuc}
use nagi_shell.Notifications.Text.{QString}
use nagi_shell.Json.{Double}
use nagi_shell.Brightness.{
  DisplayState, PendingRequest, Outcome, pending, stale, busy, noop, Message, state,
  state_unavailable, Call, Session, BrightnessBridge, is_empty, find_pending, request_timeout_ms,
}
use nagi_shell.Brightness.Requests.{
  publish_message, publish_state, publish_request_result, find_key, clamped, new_request,
  set_brightness, send_request, request_for, request_brightness,
}

abbrev pub request_of : Message → Option (ℕ × Outcome)
request_of state_unavailable = none
request_of (state available generation displays change request) = request

-- The message that is printed is the answer to a request.
abbrev pub Answers : ℕ → Outcome → BrightnessBridge → BrightnessBridge → Type 0
Answers id outcome b b' =
    (m : Message) × ((b'.output ≡ m ∷ b.output) × (request_of m ≡ some (id, outcome)))

-- The display that a key names, which has no request that waits.
abbrev pub Free : QString → DisplayState → BrightnessBridge → Type 0
Free key d b = Memᴰ d b.displays × (d.key ≡ key) × (find_pending d.name b.pending_requests ≡ none)

-- Why a request is not sent: there is no owner, or no display has the key; the id or the display waits
-- already; or the display has the brightness that is asked for.
abbrev pub Names : QString → DisplayState → BrightnessBridge → Type 0
Names key d b = Memᴰ d b.displays × (d.key ≡ key)

abbrev pub Cause : Session → ℕ → QString → Double → BrightnessBridge → Outcome → Type 0
Cause w id key ratio b stale = (b.active_owner ≡ []) ⊎ All (λ d. d.key ≢ key) b.displays
Cause w id key ratio b busy =
    (d : DisplayState) × (Names key d b
      × ((any (λ (p : PendingRequest). p.request_id == id) b.pending_requests ≡ true)
          ⊎ (is_some (find_pending d.name b.pending_requests) ≡ true)))
Cause w id key ratio b noop =
    (d : DisplayState) × (Names key d b
      × (clamped (w.scaled ratio d.maximum) d.maximum ≡ d.brightness))
Cause w id key ratio b _ = ⊥

-- What is asked of a display: its brightness, at most its maximum, under the request's own context.
abbrev pub IsFor : Session → ℕ → DisplayState → ℕ → BrightnessBridge → PendingRequest → Type 0
IsFor w id d requested b p =
    (p.request_id ≡ id)
    × (p.generation ≡ b.owner_generation)
    × (p.key ≡ d.key)
    × (p.name ≡ d.name)
    × (p.requested_brightness ≡ requested)
    × (p.maximum ≡ d.maximum)
    × (p.deadline_ms ≡ w.elapsed + request_timeout_ms)

abbrev pub IsCall : DisplayState → ℕ → QString → BrightnessBridge → Call → Type 0
IsCall d requested context b c =
    (c.owner ≡ b.active_owner)
    × (c.display_name ≡ d.name)
    × (c.value ≡ requested)
    × (c.call_context ≡ context)

-- The request waits, and the owner is called for the display.
abbrev pub Sent : Session → ℕ → QString → Double → BrightnessBridge → BrightnessBridge → Type 0
Sent w id key ratio b b' =
    (d : DisplayState) × ((requested : ℕ) × ((p : PendingRequest) × ((c : Call) × (Free key d b
            × (requested ≡ clamped (w.scaled ratio d.maximum) d.maximum)
            × (requested ≤ d.maximum)
            × (requested ≢ d.brightness)
            × IsFor w id d requested b p
            × IsCall d requested p.context b c
            × (b'.pending_requests ≡ p ∷ b.pending_requests)
            × (b'.calls ≡ c ∷ b.calls)))))

abbrev pub Unsent : BrightnessBridge → BrightnessBridge → Type 0
Unsent b b' = (b'.pending_requests ≡ b.pending_requests) × (b'.calls ≡ b.calls)

abbrev pub is_pending : Outcome → Bool
is_pending pending = true
is_pending _ = false

abbrev pub Served : Session → ℕ → QString → Double → BrightnessBridge → BrightnessBridge → Type 0
Served w id key ratio b b' =
    (Answers id pending b b' × Sent w id key ratio b b')
    ⊎ ((outcome : Outcome) × (Cause w id key ratio b outcome
          × (Answers id outcome b b' × Unsent b b')))

module _ (w : Session) (id : ℕ) (key : QString) (ratio : Double) where
  refused :
      (outcome : Outcome) (b : BrightnessBridge)
      → Cause w id key ratio b outcome
      → Served w id key ratio b (publish_request_result w id outcome b)
  unfolding publish_request_result publish_state publish_message
  refused outcome b e = inr (outcome, (e, ((_, (refl, refl)), (refl, refl))))

  clamped-le : (z : ℤ) (maximum : ℕ) → clamped z maximum ≤ maximum
  clamped-le (negsuc n) maximum = omega arith
  clamped-le (pos n) maximum = omega arith

  find_key-Mem :
      (ds : List DisplayState) (d : DisplayState)
      → find_key key ds ≡ some d
      → Memᴰ d ds × (d.key ≡ key)
  find_key-Mem [] d h = absurd (cc)
  find_key-Mem (e ∷ rest) d h = elim (Bool-cases (list_eq e.key key)) [
    | inl same ↦ (
      Memᴰ.head (found (ground (arith, same, h))),
      ap (λ (x : DisplayState). x.key) (found (ground (arith, same, h)))
          ∙ list_eq_sound e.key key same,
    )
    | inr other ↦
        let later = find_key-Mem rest d (ground (arith, other, h)) in (Memᴰ.tail later.0, later.1)
  ]
    where
      found : some e ≡ some d → d ≡ e
      found same = cc

  find_key-none : (ds : List DisplayState) → find_key key ds ≡ none → All (λ d. d.key ≢ key) ds
  find_key-none [] h = tt
  find_key-none (e ∷ rest) h = elim (Bool-cases (list_eq e.key key)) [
    | inl same ↦ absurd (ground (arith, same, h))
    | inr other ↦ (
      λ same. clash (sym other ∙ ap (λ k. list_eq k key) same ∙ list_eq_refl key),
      find_key-none rest (ground (arith, other, h)),
    )
  ]
    where
      clash : false ≡ true → ⊥
      clash h = cc

  request_for-Served :
      (d : DisplayState) (b : BrightnessBridge)
      → find_key key b.displays ≡ some d
      → Served w id key ratio b (request_for w id ratio d b)
  unfolding request_for send_request publish_request_result publish_state publish_message
  request_for-Served d b found =
      let named = find_key-Mem b.displays d found in
      let requested = clamped (w.scaled ratio d.maximum) d.maximum in
      if_ind (Served w id key ratio b)
        (any (λ (p : PendingRequest). p.request_id == id) b.pending_requests
          || is_some (find_pending d.name b.pending_requests))
        (λ e. refused busy b (d, (named, either e)))
        λ free.
          if_ind (Served w id key ratio b) (requested == d.brightness)
            (λ e. inr (
              noop,
              ((d, (named, equal requested d.brightness e)), ((_, (refl, refl)), (refl, refl))),
            ))
            λ other. inl (
              (_, (refl, refl)),
              (
                d,
                (
                  requested,
                  (
                    new_request w id requested d b,
                    (
                      set_brightness w id requested d b,
                      (
                        (named.0, named.1, is_free (find_pending d.name b.pending_requests) _ free),
                        refl,
                        clamped-le (w.scaled ratio d.maximum) d.maximum,
                        differs requested d.brightness other,
                        (refl, refl, refl, refl, refl, refl, refl),
                        (refl, refl, refl, refl),
                        refl,
                        refl,
                      ),
                    ),
                  ),
                ),
              ),
            )
    where
      is_free : (o : Option PendingRequest) (a : Bool) → (a || is_some o) ≡ false → o ≡ none
      is_free none a h = refl
      is_free (some p) a h = absurd (ground arith)

      either : {a c : Bool} → (a || c) ≡ true → (a ≡ true) ⊎ (c ≡ true)
      either {a} {c} h = ground (arith, h)

      equal : (n m : ℕ) → (n == m) ≡ true → n ≡ m
      equal n m h = ground (arith, h)

      differs : (n m : ℕ) → (n == m) ≡ false → n ≢ m
      differs n m h e = ground arith

  pub request_brightness-Served :
      (b : BrightnessBridge) → Served w id key ratio b (request_brightness w id key ratio b)
  unfolding request_brightness
  request_brightness-Served b =
      if_ind (Served w id key ratio b) (is_empty b.active_owner)
        (λ e. refused stale b (inl (no_owner b.active_owner e)))
        λ _.
          option_ind (Served w id key ratio b) (find_key key b.displays)
            (λ e. refused stale b (inr (find_key-none b.displays e)))
            λ d found. request_for-Served d b found
    where
      no_owner : (owner : QString) → is_empty owner ≡ true → owner ≡ []
      no_owner [] h = refl
      no_owner (c ∷ owner) h = absurd (cc)
