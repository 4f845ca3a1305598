-- ===== src/Brightness/Accounts.antt =====
-- What becomes of the requests that wait: they wait still, or they were answered.
mod Operations
mod Snapshots
pub mod Histories
use nagi_shell.Prelude.{
  ℕ, ◌≡◌, refl, sym, ap, ◌∙◌, subst, ◌⊎◌, inl, inr, Bool, true, false, not, ◌&&◌, ◌||◌, Option,
  none, some, is_some, List, [], ◌∷◌, ◌++◌, ◌==◌, if◌then◌else◌, map, any, list_eq, arith, if_ind,
  option_ind, Bool-cases,
}
use nagi_shell.Notifications.Text.{QString}
use nagi_shell.Json.{Double}
use nagi_shell.Brightness.{
  PendingRequest, Outcome, ObservedChange, pending, stale, timeout, confirmed, Message, Session,
  BrightnessBridge, find_pending, remove_pending, is_empty, arm_request_timer, insert_failure,
}
use nagi_shell.Brightness.Requests.{
  publish_message, publish_state, publish_request_result, publish_results, find_key, request_for,
  send_request, request_brightness, settle, is_request, on_reply, clear_pending, is_expired,
  filter_requests, timed_out, expire_requests, state_message,
}
use nagi_shell.Brightness.Snapshots.{is_self, publish_changes}
use nagi_shell.Brightness.Answers.{request_of, is_pending}

abbrev pub Waits : PendingRequest → List PendingRequest → Type 0
Waits p [] = ⊥
Waits p (q ∷ rest) = (q ≡ p) ⊎ Waits p rest

abbrev pub In : ℕ → List ℕ → Type 0
In id [] = ⊥
In id (n ∷ rest) = (n ≡ id) ⊎ In id rest

-- A message answers a request, and not that it is pending.
abbrev pub Answer : ℕ → Message → Type 0
Answer id m = (o : Outcome) × ((request_of m ≡ some (id, o)) × (is_pending o ≡ false))

abbrev pub Told : ℕ → List Message → Type 0
Told id [] = ⊥
Told id (m ∷ rest) = Answer id m ⊎ Told id rest

-- Some requests wait still, and the others are those of the numbers.
abbrev pub Loses : List PendingRequest → List PendingRequest → List ℕ → Type 0
Loses ps qs ids = (p : PendingRequest) → Waits p ps → Waits p qs ⊎ In p.request_id ids

-- The messages that are new answer the requests of the numbers; the requests that wait are the same.
abbrev pub Tells : List ℕ → BrightnessBridge → BrightnessBridge → Type 0
Tells ids b b' =
    (new : List Message) × ((b'.output ≡ new ++ b.output)
      × ((((id : ℕ) → In id ids → Told id new)) × (b'.pending_requests ≡ b.pending_requests)))

-- A request that waited waits still, or a message that is new answers it.
abbrev pub Accounts : BrightnessBridge → BrightnessBridge → Type 0
Accounts b b' =
    (new : List Message) × ((b'.output ≡ new ++ b.output)
      × ((p : PendingRequest)
          → Waits p b.pending_requests
          → Waits p b'.pending_requests ⊎ Told p.request_id new))

append_assoc : (xs ys zs : List Message) → (xs ++ ys) ++ zs ≡ xs ++ (ys ++ zs)
append_assoc [] ys zs = refl
append_assoc (x ∷ xs) ys zs = ap (λ l. x ∷ l) (append_assoc xs ys zs)

Told-before : (id : ℕ) (xs ys : List Message) → Told id ys → Told id (xs ++ ys)
Told-before id [] ys h = h
Told-before id (x ∷ xs) ys h = inr (Told-before id xs ys h)

Told-after : (id : ℕ) (xs ys : List Message) → Told id xs → Told id (xs ++ ys)
Told-after id [] ys h = absurd h
Told-after id (x ∷ xs) ys (inl h) = inl h
Told-after id (x ∷ xs) ys (inr h) = inr (Told-after id xs ys h)

In-append : (id : ℕ) (xs ys : List ℕ) → In id (xs ++ ys) → In id xs ⊎ In id ys
In-append id [] ys h = inr h
In-append id (x ∷ xs) ys (inl h) = inl (inl h)
In-append id (x ∷ xs) ys (inr h) = elim (In-append id xs ys h) [
  | inl i ↦ inl (inr i)
  | inr i ↦ inr i
]

pub Tells-trans :
    (ids jds : List ℕ) (b1 b2 b3 : BrightnessBridge)
    → Tells ids b1 b2
    → Tells jds b2 b3
    → Tells (ids ++ jds) b1 b3
Tells-trans ids jds b1 b2 b3 (x, (ox, (tx, px))) (y, (oy, (ty, py))) = (
  y ++ x,
  (
    oy ∙ ap (λ l. y ++ l) ox ∙ sym (append_assoc y x b1.output),
    (
      λ id h. elim (In-append id ids jds h) [
        | inl i ↦ Told-before id y x (tx id i)
        | inr i ↦ Told-after id y x (ty id i)
      ],
      py ∙ px,
    ),
  ),
)

pub Accounts-refl : (b : BrightnessBridge) → Accounts b b
Accounts-refl b = ([], (refl, λ p h. inl h))

pub Accounts-trans :
    (b1 b2 b3 : BrightnessBridge) → Accounts b1 b2 → Accounts b2 b3 → Accounts b1 b3
Accounts-trans b1 b2 b3 (x, (ox, ax)) (y, (oy, ay)) = (
  y ++ x,
  (
    oy ∙ ap (λ l. y ++ l) ox ∙ sym (append_assoc y x b1.output),
    λ p h. elim (ax p h) [
      | inl i ↦ elim (ay p i) [ inl j ↦ inl j | inr j ↦ inr (Told-after p.request_id y x j) ]
      | inr i ↦ inr (Told-before p.request_id y x i)
    ],
  ),
)

-- The numbers of the requests that are lost are told.
pub Loses-Accounts :
    (ids : List ℕ) (b b1 b2 : BrightnessBridge)
    → b1.output ≡ b.output
    → Loses b.pending_requests b1.pending_requests ids
    → Tells ids b1 b2
    → Accounts b b2
Loses-Accounts ids b b1 b2 same lost (x, (o, (t, e))) = (
  x,
  (
    o ∙ ap (λ l. x ++ l) same,
    λ p h. elim (lost p h) [
      | inl i ↦ inl (subst (Waits p) (sym e) i)
      | inr i ↦ inr (t p.request_id i)
    ],
  ),
)

pub remove_pending-Loses :
    (name : QString) (ps : List PendingRequest) (q : PendingRequest)
    → find_pending name ps ≡ some q
    → Loses ps (remove_pending name ps) (q.request_id ∷ [])
unfolding find_pending remove_pending
remove_pending-Loses name [] q e p h = absurd h
remove_pending-Loses name (r ∷ rest) q e p h = elim (Bool-cases (list_eq r.name name)) [
  | inl same ↦ rw same (elim h [
    | inl i ↦
        let found : r ≡ q = ground (arith, e, same) in
        inr (inl (ap (λ (s : PendingRequest). s.request_id) (sym found ∙ i)))
    | inr i ↦ inl i
  ])
  | inr other ↦ rw other (elim h [
    | inl i ↦ inl (inl i)
    | inr i ↦ elim (remove_pending-Loses name rest q (ground (arith, e, other)) p i) [
      | inl j ↦ inl (inr j)
      | inr j ↦ inr j
    ]
  ])
]

pub filter_requests-Loses :
    (f : PendingRequest → Bool) (ps : List PendingRequest)
    → Loses ps
        (filter_requests f ps)
        (map (λ p. p.request_id) (filter_requests (λ p. not (f p)) ps))
unfolding filter_requests
filter_requests-Loses f [] p h = absurd h
filter_requests-Loses f (q ∷ rest) p h = elim (Bool-cases (f q)) [
  | inl kept ↦ rw kept (elim h [
    | inl i ↦ inl (inl i)
    | inr i ↦ elim (filter_requests-Loses f rest p i) [ inl j ↦ inl (inr j) | inr j ↦ inr j ]
  ])
  | inr lost ↦ rw lost (elim h [
    | inl i ↦ inr (inl (ap (λ (s : PendingRequest). s.request_id) i))
    | inr i ↦ elim (filter_requests-Loses f rest p i) [ inl j ↦ inl j | inr j ↦ inr (inr j) ]
  ])
]
