-- ===== src/Kwin/Observer/Validity/Histories.antt =====
-- Every event keeps the phases, and a shut down observer does nothing more.
use nagi_shell.Prelude.{◌≡◌, refl, ap, ◌∙◌, true, false, List, [], ◌∷◌, ◌++◌, All, if_ind}
use nagi_shell.Notifications.Text.{QString}
use nagi_shell.Bytes.{split_lines}
use nagi_shell.Kwin.Observer.{Session, WorkspaceConsensusObserver, is_empty, shutdown}
use nagi_shell.Kwin.Observer.Commands.{read_bytes}
use nagi_shell.Kwin.Observer.Events.{
  initial, publish, on_service_owner_changed, initialize, input_fails, Event, initialized,
  timed_out, input_ended, input_failed, destroyed, owner_changed, published, input_read, step, run,
}
use nagi_shell.Kwin.Observer.Validity.{
  idle, watching, closed, IsOrderly, shutdown-IsOrderly, fail-IsOrderly,
}
use nagi_shell.Kwin.Observer.Validity.Events.{
  Bool-clash, initial-IsOrderly, publish-IsOrderly, on_snapshot_timeout-IsOrderly,
  on_service_owner_changed-IsOrderly, initialize-IsOrderly, consume_lines-IsOrderly,
}

pub step-IsOrderly :
    (w : Session) (e : Event) (s : WorkspaceConsensusObserver)
    → is_empty w.token ≡ false
    → IsOrderly s
    → IsOrderly (step w e s)
unfolding step input_fails read_bytes
step-IsOrderly w initialized s token v = initialize-IsOrderly w token s v
step-IsOrderly w timed_out s token v =
    if_ind IsOrderly s.timer_active (λ _. on_snapshot_timeout-IsOrderly w s v) (λ _. v)
step-IsOrderly w input_ended s token v = shutdown-IsOrderly w s true v
step-IsOrderly w input_failed s token v =
    if_ind IsOrderly s.shutting_down (λ _. v) (λ _. fail-IsOrderly w s v)
step-IsOrderly w destroyed s token v = shutdown-IsOrderly w s false v
step-IsOrderly w (owner_changed owner) s token v =
    on_service_owner_changed-IsOrderly w token owner s v
step-IsOrderly w (published sender generation payload) s token v =
    publish-IsOrderly w s v sender generation payload
step-IsOrderly w (input_read bytes) s token v =
    let found = split_lines (s.command_buffer ++ bytes) in
    if_ind IsOrderly s.shutting_down (λ _. v)
      λ _. consume_lines-IsOrderly w found.lines found.rest s v

run-IsOrderly :
    (history : List (Session × Event)) (s : WorkspaceConsensusObserver)
    → All (λ p. is_empty p.0.token ≡ false) history
    → IsOrderly s
    → IsOrderly (run history s)
unfolding run
run-IsOrderly [] s tokens v = v
run-IsOrderly ((w, e) ∷ rest) s tokens v =
    run-IsOrderly rest (step w e s) tokens.1 (step-IsOrderly w e s tokens.0 v)

-- From the start, whatever the answers and events, where a random token is never empty: the observer is
-- in one of three phases. Idle, nothing of a generation is left: no script, plugin name, timer or flag.
-- Watching, KWin has an owner and runs a script of the generation, under the plugin name made from it,
-- its file exists, and the timer runs exactly until the first snapshot. Shut down, nothing of a
-- generation is left, there is no owner, and the callback is not registered.
pub run-initial-IsOrderly :
    (epoch : QString) (history : List (Session × Event))
    → All (λ p. is_empty p.0.token ≡ false) history
    → IsOrderly (run history (initial epoch))
run-initial-IsOrderly epoch history tokens =
    run-IsOrderly history (initial epoch) tokens (initial-IsOrderly epoch)

-- A shut down observer whose timer is off ignores every event.
step-closed :
    (w : Session) (e : Event) (s : WorkspaceConsensusObserver)
    → s.shutting_down ≡ true
    → s.timer_active ≡ false
    → step w e s ≡ s
unfolding step initialize shutdown input_fails on_service_owner_changed publish read_bytes
step-closed w initialized s down off = rw down refl
step-closed w timed_out s down off = rw off refl
step-closed w input_ended s down off = rw down refl
step-closed w input_failed s down off = rw down refl
step-closed w destroyed s down off = rw down refl
step-closed w (owner_changed owner) s down off = rw down refl
step-closed w (published sender generation payload) s down off = rw down refl
step-closed w (input_read bytes) s down off = rw down refl

run-closed :
    (history : List (Session × Event)) (s : WorkspaceConsensusObserver)
    → s.shutting_down ≡ true
    → s.timer_active ≡ false
    → run history s ≡ s
unfolding run
run-closed [] s down off = refl
run-closed ((w, e) ∷ rest) s down off =
    ap (run rest) (step-closed w e s down off) ∙ run-closed rest s down off

-- Once the observer is shut down after any history, where a random token is never empty, no later
-- history changes anything: no call of KWin, no output and no exit follows.
pub run-shutdown :
    (epoch : QString) (history later : List (Session × Event))
    → All (λ p. is_empty p.0.token ≡ false) history
    → (run history (initial epoch)).shutting_down ≡ true
    → run later (run history (initial epoch)) ≡ run history (initial epoch)
run-shutdown epoch history later tokens down =
    run-closed later (run history (initial epoch)) down
      (timer (run history (initial epoch)) down (run-initial-IsOrderly epoch history tokens))
  where
    timer :
        (s : WorkspaceConsensusObserver)
        → s.shutting_down ≡ true
        → IsOrderly s
        → s.timer_active ≡ false
    timer s down (idle up r) = r.timer_off
    timer s down (watching up h) = elim (Bool-clash s.shutting_down down up) [ ]
    timer s down (closed d c o r) = r.timer_off
