-- ===== src/Brightness/Accounts/Histories.antt =====
-- Every event but a change of the owner accounts for the requests that wait, and so does every history.
use nagi_shell.Prelude.{
  ℕ, ◌≡◌, refl, sym, subst, ◌⊎◌, inl, Bool, true, false, not, ◌&&◌, ◌||◌, Option, none, some, List,
  [], ◌∷◌, ◌++◌, ◌==◌, if◌then◌else◌, All, list_eq, length, ltb, ◌*◌, arith, if_ind,
}
use nagi_shell.Notifications.Text.{QString, literal}
use nagi_shell.Bytes.{Bytes, split_lines, chop_return}
use nagi_shell.Json.{Double, Json, object, Fields, value, size, string_of}
use nagi_shell.Brightness.{
  PendingRequest, Outcome, stale, invalid, Message, Session, BrightnessBridge,
  maximum_command_bytes, valid_display_name, find_pending, is_empty,
}
use nagi_shell.Brightness.Requests.{is_request, on_reply}
use nagi_shell.Brightness.Events.{
  on_brightness_changed, on_range_changed, on_display_listed, reject, is_setting, set_command,
  handle_command, handle_document, handle_line, handle_lines, read_commands, is_over, on_timeout,
  Event, initialized, refreshed, timer_fired, input_closed, owner_changed, range_changed,
  display_listed, brightness_changed, replied, bytes_read, step, run,
}
use nagi_shell.Brightness.Answers.{is_pending}
use nagi_shell.Brightness.Accounts.{Waits, Told, Accounts, Accounts-refl, Accounts-trans}
use nagi_shell.Brightness.Accounts.Operations.{
  publish_request_result-Accounts, request_brightness-Accounts, settle-Accounts,
  clear_pending-Accounts, expire_requests-Accounts,
}
use nagi_shell.Brightness.Accounts.Snapshots.{refresh_snapshot-Accounts}

-- An error's outcome is not that the request is pending.
abbrev pub IsFinal : Option Outcome → Type 0
IsFinal none = Unit
IsFinal (some o) = is_pending o ≡ false

-- The owner of the service stays, which initialize and a change of the owner do not promise.
abbrev pub KeepsOwner : Event → Type 0
KeepsOwner initialized = ⊥
KeepsOwner (owner_changed owner) = ⊥
KeepsOwner (replied owner generation name id o) = IsFinal o
KeepsOwner _ = Unit

module _ (w : Session) where
  -- What no request and no message depends on.
  unchanged :
      (b b' : BrightnessBridge)
      → b'.output ≡ b.output
      → b'.pending_requests ≡ b.pending_requests
      → Accounts b b'
  unchanged b b' o e = ([], (o, λ p h. inl (subst (Waits p) (sym e) h)))

  reject-Accounts : (id : Option ℕ) (b : BrightnessBridge) → Accounts b (reject w id b)
  unfolding reject
  reject-Accounts none b = Accounts-refl b
  reject-Accounts (some id) b = publish_request_result-Accounts w id invalid b

  set_command-Accounts :
      (o : Fields) (id : Option ℕ) (ratio : Option Double) (b : BrightnessBridge)
      → Accounts b (set_command w o id ratio b)
  unfolding set_command
  set_command-Accounts o (some id) (some ratio) b =
      if_ind (Accounts b) (is_setting o)
        (λ _. request_brightness-Accounts w id (string_of (value (literal "displayKey") o)) ratio b)
        λ _. reject-Accounts (some id) b
  set_command-Accounts o none ratio b = reject-Accounts none b
  set_command-Accounts o (some id) none b = reject-Accounts (some id) b

  handle_document-Accounts :
      (j : Option Json) (b : BrightnessBridge) → Accounts b (handle_document w j b)
  unfolding handle_command
  handle_document-Accounts (some (object o)) b =
      if_ind (Accounts b)
        (list_eq (string_of (value (literal "action") o)) (literal "shutdown") && size o == 1)
        (λ _. unchanged b (record b { running = false }) refl refl)
        λ _. set_command-Accounts o _ _ b
  handle_document-Accounts _ b = Accounts-refl b

  handle_lines-Accounts :
      (lines : List Bytes) (b : BrightnessBridge) → Accounts b (handle_lines w lines b)
  unfolding handle_lines handle_line
  handle_lines-Accounts [] b = Accounts-refl b
  handle_lines-Accounts (line ∷ lines) b =
      let line' = chop_return line in
      let b' = handle_line w line' b in
      Accounts-trans b b' (handle_lines w lines b')
        (if_ind (Accounts b) (is_empty line' || ltb maximum_command_bytes (length line'))
          (λ _. Accounts-refl b) λ _. handle_document-Accounts (w.from_json line') b)
        (handle_lines-Accounts lines b')

  on_reply-Accounts :
      (owner : QString) (generation : ℕ) (name : QString) (id : ℕ) (o : Option Outcome)
      (b : BrightnessBridge)
      → IsFinal o
      → Accounts b (on_reply w owner generation name id o b)
  unfolding on_reply
  on_reply-Accounts owner generation name id none b f = Accounts-refl b
  on_reply-Accounts owner generation name id (some outcome) b f =
      if_ind (Accounts b)
        (list_eq b.active_owner owner
          && b.owner_generation == generation
          && is_request id (find_pending name b.pending_requests))
        (λ e.
          settle-Accounts w name id outcome b f
            (third (list_eq b.active_owner owner) (b.owner_generation == generation) _ e))
        λ _. Accounts-refl b
    where
      third : (a b c : Bool) → (a && b && c) ≡ true → c ≡ true
      third a b c h = ground arith

  step-Accounts : (e : Event) (b : BrightnessBridge) → KeepsOwner e → Accounts b (step w e b)
  unfolding step on_timeout on_display_listed on_range_changed on_brightness_changed read_commands
  step-Accounts initialized b k = absurd k
  step-Accounts (owner_changed owner) b k = absurd k
  step-Accounts refreshed b k = refresh_snapshot-Accounts w b
  step-Accounts timer_fired b k =
      if_ind (Accounts b) (is_over w.elapsed b.request_timer)
        (λ _. expire_requests-Accounts w (record b { request_timer = none })) λ _. Accounts-refl b
  step-Accounts input_closed b k = unchanged b (record b { running = false }) refl refl
  step-Accounts (range_changed name) b k =
      if_ind (Accounts b) (not (valid_display_name name)) (λ _. Accounts-refl b)
        λ _. clear_pending-Accounts w name stale b refl
  step-Accounts (display_listed name) b k =
      if_ind (Accounts b) (not (valid_display_name name)) (λ _. Accounts-refl b)
        λ _. ([], (refl, λ p h. inl h))
  step-Accounts (brightness_changed name z source_name source_context) b k =
      if_ind (Accounts b) (not (valid_display_name name)) (λ _. Accounts-refl b)
        λ _. ([], (refl, λ p h. inl h))
  step-Accounts (replied owner generation name id o) b k =
      on_reply-Accounts owner generation name id o b k
  step-Accounts (bytes_read bytes) b k =
      let buffer = b.command_buffer ++ bytes in
      let found =
        split_lines (if ltb (maximum_command_bytes * 2) (length buffer) then [] else buffer) in
      handle_lines-Accounts found.lines (record b { command_buffer = found.rest })

run-Accounts :
    (history : List (Session × Event)) (b : BrightnessBridge)
    → All (λ p. KeepsOwner p.1) history
    → Accounts b (run history b)
unfolding run
run-Accounts [] b k = Accounts-refl b
run-Accounts ((w, e) ∷ rest) b k =
    Accounts-trans b (step w e b) (run rest (step w e b)) (step-Accounts w e b k.0)
      (run-Accounts rest (step w e b) k.1)

-- In any history in which the owner of the service does not change, and an error of D-Bus is never
-- answered by `pending`: a request that waited before waits still, or one of the messages printed since
-- answers it, with its id and another outcome than `pending`.
pub run-answers :
    (history : List (Session × Event)) (b : BrightnessBridge) (p : PendingRequest)
    → All (λ e. KeepsOwner e.1) history
    → Waits p b.pending_requests
    → (new : List Message) × (((run history b).output ≡ new ++ b.output)
        × (Waits p (run history b).pending_requests ⊎ Told p.request_id new))
run-answers history b p k waits = let a = run-Accounts history b k in (a.0, (a.1.0, a.1.1 p waits))
