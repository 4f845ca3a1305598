-- ===== src/Brightness/Validity.antt =====
-- The invariant of the brightness helper: its displays, the requests that wait, and their timer.
pub mod Requests
pub mod Snapshots
pub mod Histories
use nagi_shell.Prelude.{
  ℕ, zero, suc, ◌+◌, ◌-◌, min, max, ◌≤◌, ◌<◌, ◌≡◌, ◌⊎◌, inl, inr, refl, sym, ap, ◌∙◌, subst, Bool,
  true, false, not, ◌&&◌, ◌||◌, Option, none, some, is_some, List, [], ◌∷◌, ◌++◌, ◌==◌, ltb, leb,
  if◌then◌else◌, length, map, any, All, All-mono, list_eq, list_eq_sound, list_eq_refl, list_eq_sym,
  arith, if_ind, option_ind, Bool-cases,
}
use nagi_shell.Notifications.Text.{QString}
use nagi_shell.Brightness.{
  DisplayState, PendingRequest, ObservedChange, Session, BrightnessBridge, is_empty, find_display,
  insert_display, find_pending, remove_pending, timer_for, arm_request_timer,
}
use nagi_shell.Brightness.Requests.{filter_requests, find_key}
use nagi_shell.Brightness.Snapshots.{has_maximum, still_fits}

-- A display's range, as it is read.
abbrev pub InRange : DisplayState → Type 0
InRange d = (0 < d.maximum) × (d.brightness ≤ d.maximum)

-- A request is for a display that is there, of its maximum, and does not ask for more.
abbrev pub Fits : List DisplayState → PendingRequest → Type 0
Fits displays p = (still_fits displays p ≡ true) × (p.requested_brightness ≤ p.maximum)

-- No two requests wait for one display.
abbrev pub Apart : List PendingRequest → Type 0
Apart [] = Unit
Apart (p ∷ rest) = (find_pending p.name rest ≡ none) × Apart rest

-- A name is there once.
abbrev pub Named : List DisplayState → Type 0
Named [] = Unit
Named (d ∷ rest) = (find_display d.name rest ≡ none) × Named rest

pub record Parts (owner : QString) (displays : List DisplayState) (requests : List PendingRequest)
    (changes : List ObservedChange) (timer : Option (ℕ × ℕ)) : Type 0 where
  pub ranged : All InRange displays
  pub named : Named displays
  pub fit : All (Fits displays) requests
  pub apart : Apart requests
  pub few_changes : length changes ≤ 32
  pub timed : is_some timer ≡ not (is_empty requests)
  pub owned : (is_empty owner && not (is_empty displays)) ≡ false

abbrev pub IsCoherent : BrightnessBridge → Type 0
IsCoherent b = Parts b.active_owner b.displays b.pending_requests b.observed_changes b.request_timer

pub timer_for-timed :
    (now : ℕ) (requests : List PendingRequest)
    → is_some (timer_for now requests) ≡ not (is_empty requests)
timer_for-timed now [] = refl
timer_for-timed now (p ∷ rest) = refl

-- A removal of one request, and of those that fail a test.
pub All-remove_pending :
    (P : PendingRequest → Type 0) (name : QString) (ps : List PendingRequest)
    → All P ps
    → All P (remove_pending name ps)
unfolding remove_pending
All-remove_pending P name [] h = tt
All-remove_pending P name (p ∷ rest) h =
    if_ind (All P) (list_eq p.name name) (λ _. h.1) λ _. (h.0, All-remove_pending P name rest h.1)

find_pending-remove_pending :
    (name k : QString) (ps : List PendingRequest)
    → find_pending k ps ≡ none
    → find_pending k (remove_pending name ps) ≡ none
unfolding remove_pending find_pending
find_pending-remove_pending name k [] h = refl
find_pending-remove_pending name k (p ∷ rest) h =
    ground (arith, h, find_pending-remove_pending name k rest)

pub Apart-remove_pending :
    (name : QString) (ps : List PendingRequest) → Apart ps → Apart (remove_pending name ps)
unfolding remove_pending
Apart-remove_pending name [] h = tt
Apart-remove_pending name (p ∷ rest) h =
    if_ind Apart (list_eq p.name name) (λ _. h.1)
      λ _. (find_pending-remove_pending name p.name rest h.0, Apart-remove_pending name rest h.1)

find_pending-filter_requests :
    (f : PendingRequest → Bool) (k : QString) (ps : List PendingRequest)
    → find_pending k ps ≡ none
    → find_pending k (filter_requests f ps) ≡ none
unfolding filter_requests find_pending
find_pending-filter_requests f k [] h = refl
find_pending-filter_requests f k (p ∷ rest) h =
    if_ind (λ qs. find_pending k qs ≡ none) (f p)
      (λ _. ground (arith, h, find_pending-filter_requests f k rest))
      λ _. ground (arith, h, find_pending-filter_requests f k rest)

pub Apart-filter_requests :
    (f : PendingRequest → Bool) (ps : List PendingRequest) → Apart ps → Apart (filter_requests f ps)
unfolding filter_requests
Apart-filter_requests f [] h = tt
Apart-filter_requests f (p ∷ rest) h =
    if_ind Apart (f p)
      (λ _. (find_pending-filter_requests f p.name rest h.0, Apart-filter_requests f rest h.1))
      λ _. Apart-filter_requests f rest h.1

-- What passes a test and held before.
pub All-filter_requests :
    (P Q : PendingRequest → Type 0) (f : PendingRequest → Bool) (ps : List PendingRequest)
    → ((p : PendingRequest) → f p ≡ true → P p → Q p)
    → All P ps
    → All Q (filter_requests f ps)
unfolding filter_requests
All-filter_requests P Q f [] gain h = tt
All-filter_requests P Q f (p ∷ rest) gain h =
    if_ind (All Q) (f p) (λ e. (gain p e h.0, All-filter_requests P Q f rest gain h.1))
      λ _. All-filter_requests P Q f rest gain h.1

-- The display of a key is the display of its name.
pub find_key-some :
    (key : QString) (ds : List DisplayState) (d : DisplayState)
    → Named ds
    → find_key key ds ≡ some d
    → find_display d.name ds ≡ some d
unfolding find_display
find_key-some key [] d named e = ground (arith, e)
find_key-some key (x ∷ rest) d named e = by (list_eq x.key key) e (find_key-some key rest d named.1)
  where
    clash : some d ≡ none → ⊥
    clash h = ground (arith, h)

    same : some x ≡ some d → x ≡ d
    same h = cc

    differs : true ≡ false → ⊥
    differs h = ground (arith, h)

    by :
        (b : Bool)
        → (if b then some x else find_key key rest) ≡ some d
        → (find_key key rest ≡ some d → find_display d.name rest ≡ some d)
        → (if list_eq x.name d.name then some x else find_display d.name rest) ≡ some d
    by true h later =
        subst (λ n. (if list_eq x.name n then some x else find_display n rest) ≡ some d)
          (ap (λ (t : DisplayState). t.name) (same h))
          (if_ind (λ t. t ≡ some d) (list_eq x.name x.name) (λ _. h)
            λ f. elim (differs (sym (list_eq_refl x.name) ∙ f)) [ ])
    by false h later =
        if_ind (λ t. t ≡ some d) (list_eq x.name d.name)
          (λ q.
            elim (clash (
              sym (later h)
              ∙ subst (λ n. find_display n rest ≡ none) (list_eq_sound x.name d.name q)
                  named.0)) [ ])
          λ _. later h

find_display-insert_display :
    (k : QString) (d : DisplayState) (ds : List DisplayState)
    → list_eq d.name k ≡ false
    → find_display k ds ≡ none
    → find_display k (insert_display d ds) ≡ none
unfolding find_display insert_display
find_display-insert_display k d [] other h = ground (arith, other)
find_display-insert_display k d (x ∷ rest) other h =
    if_ind (λ l. find_display k l ≡ none) (list_eq x.name d.name) (λ _. ground (arith, other, h))
      λ _. ground (arith, h, find_display-insert_display k d rest other)

pub Named-insert_display :
    (d : DisplayState) (ds : List DisplayState) → Named ds → Named (insert_display d ds)
unfolding insert_display find_display
Named-insert_display d [] h = (refl, tt)
Named-insert_display d (x ∷ rest) h =
    if_ind Named (list_eq x.name d.name)
      (λ e. (subst (λ n. find_display n rest ≡ none) (list_eq_sound x.name d.name e) h.0, h.1))
      λ e. (
        find_display-insert_display x.name d rest (list_eq_sym d.name x.name ∙ e) h.0,
        Named-insert_display d rest h.1,
      )

pub All-insert_display :
    (P : DisplayState → Type 0) (d : DisplayState) (ds : List DisplayState)
    → P d
    → All P ds
    → All P (insert_display d ds)
unfolding insert_display
All-insert_display P d [] one h = (one, tt)
All-insert_display P d (x ∷ rest) one h =
    if_ind (All P) (list_eq x.name d.name) (λ _. (one, h.1))
      λ _. (h.0, All-insert_display P d rest one h.1)
