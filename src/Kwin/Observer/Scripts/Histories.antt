-- ===== src/Kwin/Observer/Scripts/Histories.antt =====
-- Every event keeps account of the scripts in KWin, and so does every history.
use nagi_shell.Prelude.{
  ℕ, ◌≡◌, refl, ap, ◌∙◌, Bool, true, false, not, ◌&&◌, ◌||◌, Option, List, [], ◌∷◌, ◌++◌, All,
  list_eq, if◌then◌else◌, arith, if_ind, length, ltb, ◌==◌,
}
use nagi_shell.Prelude.Result.{Result, ok, err}
use nagi_shell.Notifications.Text.{QString}
use nagi_shell.Bytes.{Bytes, split_lines}
use nagi_shell.Kwin.Snapshot.{Error, canonicalize_script_snapshot}
use nagi_shell.Kwin.Observer.{
  Session, WorkspaceConsensusObserver, is_empty, retire_generation, detach_owner, publish_snapshot,
  unavailable,
}
use nagi_shell.Kwin.Observer.Commands.{
  maximum_command_length, is_shutdown, handle_frame, take_line, keep_rest, consume_lines,
  read_bytes,
}
use nagi_shell.Kwin.Observer.Events.{
  initial, is_authenticated, publish, attach_owner, on_service_owner_changed, announce, register,
  initialize, on_snapshot_timeout, input_fails, Event, initialized, timed_out, input_ended,
  input_failed, destroyed, owner_changed, published, input_read, step, run,
}
use nagi_shell.Kwin.Observer.Validity.{
  idle, watching, closed, IsOrderly, publish_snapshot-IsOrderly,
}
use nagi_shell.Kwin.Observer.Validity.Events.{initial-IsOrderly}
use nagi_shell.Kwin.Observer.Validity.Histories.{step-IsOrderly}
use nagi_shell.Kwin.Observer.Scripts.{
  open_at, live, Tidy, Clean, Clean-Tidy, retire_generation-Clean, detach_owner-Clean,
  shutdown-Tidy, fail-Tidy, publish_snapshot-Tidy, publish_snapshot-Clean, begin_generation-Tidy,
}

module _ (o : QString) (w : Session) (named : is_empty o ≡ false)
    (callable : w.callable o ≡ true) where
  -- Without an owner there is no script either.
  abbrev Ready : WorkspaceConsensusObserver → Type 0
  Ready s = Tidy o s × (is_empty s.active_owner ≡ true → Clean o s)

  Clean-Ready : (s : WorkspaceConsensusObserver) → Clean o s → Ready s
  Clean-Ready s c = (Clean-Tidy o s c, λ _. c)

  IsOrderly-Ready : (s : WorkspaceConsensusObserver) → Tidy o s → IsOrderly s → Ready s
  IsOrderly-Ready s t v = (t, λ e. by v e)
    where
      unnamed : s.plugin_name ≡ [] → Clean o s
      unnamed e = (t ∙ nothing s.plugin_name (list_eq s.active_owner o) e, e)
        where
          nothing :
              (plugin : QString) (b : Bool)
              → plugin ≡ []
              → (if b && not (is_empty plugin) then plugin ∷ [] else []) ≡ []
          nothing plugin true e = ap (λ p. if not (is_empty p) then p ∷ [] else []) e
          nothing plugin false e = refl

      by : IsOrderly s → is_empty s.active_owner ≡ true → Clean o s
      by (idle up r) e = unnamed r.no_plugin
      by (closed down c n r) e = unnamed r.no_plugin
      by (watching up h) e = absurd (ground (arith, e, h.has_owner))

  attach_owner-Tidy :
      (owner : QString) (s : WorkspaceConsensusObserver) → Ready s → Tidy o (attach_owner w owner s)
  unfolding attach_owner
  attach_owner-Tidy owner s r =
      let s1 = if is_empty s.active_owner then s else detach_owner w true s in
      let s2 = record s1 { active_owner = owner } in
      let c : Clean o s1 =
        if_ind (Clean o) (is_empty s.active_owner) r.1
          (λ _. detach_owner-Clean o w named callable s r.0) in
      if_ind (Tidy o) (s.shutting_down || is_empty owner || list_eq owner s.active_owner) (λ _. r.0)
        λ _.
          begin_generation-Tidy o w named callable (publish_snapshot w (unavailable w s2) s2)
            (publish_snapshot-Clean o w named callable (unavailable w s2) s2 c)

  on_service_owner_changed-Tidy :
      (owner : QString) (s : WorkspaceConsensusObserver)
      → Tidy o s
      → Tidy o (on_service_owner_changed w owner s)
  unfolding on_service_owner_changed
  on_service_owner_changed-Tidy owner s t =
      let s1 = detach_owner w true s in
      let s2 = publish_snapshot w (unavailable w s1) s1 in
      let c =
        publish_snapshot-Clean o w named callable (unavailable w s1) s1
          (detach_owner-Clean o w named callable s t) in
      if_ind (Tidy o) (s.shutting_down || list_eq owner s.active_owner) (λ _. t)
        λ _.
          if_ind (Tidy o) (is_empty owner) (λ _. Clean-Tidy o s2 c)
            λ _. attach_owner-Tidy owner s2 (Clean-Ready s2 c)

  announce-Tidy : (s : WorkspaceConsensusObserver) → Ready s → Tidy o (announce w s)
  unfolding announce
  announce-Tidy s r =
      if_ind (Tidy o) (not w.prints_ready) (λ _. fail-Tidy o w named callable s r.0)
        λ _.
          if_ind (Tidy o) (is_empty w.service_owner) (λ _. r.0)
            λ _. attach_owner-Tidy w.service_owner s r

  register-Tidy : (s : WorkspaceConsensusObserver) → Ready s → Tidy o (register w s)
  unfolding register
  register-Tidy s r =
      let s1 = record s { helper_destination = w.base_service } in
      if_ind (Tidy o) (not w.connected) (λ _. fail-Tidy o w named callable s r.0)
        λ _.
          if_ind (Tidy o) (is_empty w.base_service || not w.registers)
            (λ _. fail-Tidy o w named callable s1 r.0)
            λ _. announce-Tidy (record s1 { callback_registered = true }) r

  initialize-Tidy :
      (s : WorkspaceConsensusObserver) → Tidy o s → IsOrderly s → Tidy o (initialize w s)
  unfolding initialize
  initialize-Tidy s t v =
      let s' = publish_snapshot w (unavailable w s) s in
      let t' = publish_snapshot-Tidy o w named callable (unavailable w s) s t in
      if_ind (Tidy o) s.shutting_down (λ _. t)
        λ _.
          if_ind (Tidy o) s'.shutting_down (λ _. t')
            λ _.
              register-Tidy s'
                (IsOrderly-Ready s' t' (publish_snapshot-IsOrderly w (unavailable w s) s v))

  publish-Tidy :
      (sender : Option QString) (generation payload : QString) (s : WorkspaceConsensusObserver)
      → Tidy o s
      → Tidy o (publish w sender generation payload s)
  unfolding publish
  publish-Tidy sender generation payload s t =
      if_ind (Tidy o) (not (is_authenticated sender generation s)) (λ _. t)
        λ _. by (canonicalize_script_snapshot w.codec payload s.helper_epoch)
    where
      by :
          (r : Result Error (List ℕ))
          → Tidy o (elim r [
            | err e ↦ s
            | ok snapshot ↦
                publish_snapshot w snapshot
                  (record s { timer_active = false; received_first_snapshot = true })
          ])
      by (err e) = t
      by (ok snapshot) =
          publish_snapshot-Tidy o w named callable snapshot
            (record s { timer_active = false; received_first_snapshot = true }) t

  on_snapshot_timeout-Tidy :
      (s : WorkspaceConsensusObserver) → Tidy o s → Tidy o (on_snapshot_timeout w s)
  unfolding on_snapshot_timeout
  on_snapshot_timeout-Tidy s t =
      let s1 = record s { timer_active = false } in
      let s2 = retire_generation w true s1 in
      if_ind (Tidy o) (s.shutting_down || is_empty s.active_generation || s.received_first_snapshot)
        (λ _. t)
        λ _.
          publish_snapshot-Tidy o w named callable (unavailable w s2) s2
            (Clean-Tidy o s2 (retire_generation-Clean o w named callable s1 t))

  take_line-Tidy :
      (line : Bytes) (s : WorkspaceConsensusObserver) → Tidy o s → Tidy o (take_line w line s)
  unfolding take_line handle_frame
  take_line-Tidy line s t =
      if_ind (Tidy o) s.discarding_command (λ _. t)
        λ _.
          if_ind (Tidy o) (length line == 0 || ltb maximum_command_length (length line)) (λ _. t)
            λ _.
              if_ind (Tidy o) (is_shutdown w.codec line)
                (λ _. shutdown-Tidy o w named callable true s t) (λ _. t)

  consume_lines-Tidy :
      (lines : List Bytes) (rest : Bytes) (s : WorkspaceConsensusObserver)
      → Tidy o s
      → Tidy o (consume_lines w lines rest s)
  unfolding consume_lines keep_rest
  consume_lines-Tidy [] rest s t =
      if_ind (Tidy o) s.shutting_down (λ _. t)
        λ _.
          if_ind (Tidy o) s.discarding_command (λ _. t)
            λ _. if_ind (Tidy o) (ltb maximum_command_length (length rest)) (λ _. t) (λ _. t)
  consume_lines-Tidy (line ∷ lines) rest s t =
      if_ind (Tidy o) s.shutting_down (λ _. t)
        λ _. consume_lines-Tidy lines rest (take_line w line s) (take_line-Tidy line s t)

  step-Tidy :
      (e : Event) (s : WorkspaceConsensusObserver) → IsOrderly s → Tidy o s → Tidy o (step w e s)
  unfolding step input_fails read_bytes
  step-Tidy initialized s v t = initialize-Tidy s t v
  step-Tidy timed_out s v t =
      if_ind (Tidy o) s.timer_active (λ _. on_snapshot_timeout-Tidy s t) (λ _. t)
  step-Tidy input_ended s v t = shutdown-Tidy o w named callable true s t
  step-Tidy input_failed s v t =
      if_ind (Tidy o) s.shutting_down (λ _. t) (λ _. fail-Tidy o w named callable s t)
  step-Tidy destroyed s v t = shutdown-Tidy o w named callable false s t
  step-Tidy (owner_changed owner) s v t = on_service_owner_changed-Tidy owner s t
  step-Tidy (published sender generation payload) s v t = publish-Tidy sender generation payload s t
  step-Tidy (input_read bytes) s v t =
      let found = split_lines (s.command_buffer ++ bytes) in
      if_ind (Tidy o) s.shutting_down (λ _. t) λ _. consume_lines-Tidy found.lines found.rest s t

-- A random token is never empty, and the owner can be called.
abbrev pub CanCall : QString → Session → Type 0
CanCall o w = (is_empty w.token ≡ false) × (w.callable o ≡ true)

run-Tidy :
    (o : QString) (history : List (Session × Event)) (s : WorkspaceConsensusObserver)
    → is_empty o ≡ false
    → All (λ p. CanCall o p.0) history
    → IsOrderly s
    → Tidy o s
    → Tidy o (run history s)
unfolding run
run-Tidy o [] s named calls v t = t
run-Tidy o ((w, e) ∷ rest) s named calls v t =
    run-Tidy o rest (step w e s) named calls.1 (step-IsOrderly w e s calls.0.0 v)
      (step-Tidy o w named calls.0.1 e s v t)

-- From the start, in any history in which a random token is never empty and a certain owner, not the empty
-- name, can always be called: of the scripts that were loaded at this owner, all were unloaded again, but
-- the one of the observer's generation while it has one and this is its owner.
pub run-initial-Tidy :
    (o epoch : QString) (history : List (Session × Event))
    → is_empty o ≡ false
    → All (λ p. CanCall o p.0) history
    → open_at o (run history (initial epoch)).calls
      ≡ live o (run history (initial epoch)).active_owner (run history (initial epoch)).plugin_name
unfolding initial open_at
run-initial-Tidy o epoch history named calls =
    run-Tidy o history (initial epoch) named calls (initial-IsOrderly epoch)
      (Clean-Tidy o (initial epoch) (refl, refl))
