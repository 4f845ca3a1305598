-- ===== src/Kwin/Observer/Validity/Events.antt =====
-- The handlers of the events keep the phases.
use nagi_shell.Prelude.{
  ℕ, ◌≡◌, refl, sym, ap, ◌∙◌, Bool, true, false, not, ◌&&◌, ◌||◌, Option, List, [], ◌∷◌, list_eq,
  arith, if_ind, length, ltb, ◌==◌,
}
use nagi_shell.Prelude.Result.{Result, ok, err}
use nagi_shell.Notifications.Text.{QString}
use nagi_shell.Bytes.{Bytes}
use nagi_shell.Kwin.Snapshot.{Error, canonicalize_script_snapshot, unavailable_snapshot_json}
use nagi_shell.Kwin.Observer.{
  Session, WorkspaceConsensusObserver, is_empty, retire_generation, detach_owner, publish_snapshot,
  unavailable,
}
use nagi_shell.Kwin.Observer.Commands.{
  maximum_command_length, is_shutdown, handle_frame, take_line, keep_rest, consume_lines,
}
use nagi_shell.Kwin.Observer.Events.{
  initial, is_authenticated, is_sender, publish, on_service_owner_changed, announce, register,
  initialize, on_snapshot_timeout,
}
use nagi_shell.Kwin.Observer.Validity.{
  idle, watching, closed, IsOrderly, retired, shutdown-IsOrderly, fail-IsOrderly,
  publish_snapshot-IsOrderly, publish_snapshot-last, attach_owner-IsOrderly,
}

pub Bool-clash : (b : Bool) → b ≡ true → b ≡ false → ⊥
Bool-clash true h e = ground (arith, e)
Bool-clash false h e = ground (arith, h)

pub initial-IsOrderly : (epoch : QString) → IsOrderly (initial epoch)
unfolding initial
initial-IsOrderly epoch = idle refl retired

module _ (w : Session) (s : WorkspaceConsensusObserver) (v : IsOrderly s) where
  -- A snapshot of the script that runs.
  heard-IsOrderly :
      (sender : Option QString) (generation : QString)
      → is_authenticated sender generation s ≡ true
      → IsOrderly (record s { timer_active = false; received_first_snapshot = true })
  heard-IsOrderly sender generation e = by v
    where
      running : (a b c d e f : Bool) → (not a && not b && not c && d && e && f) ≡ true → d ≡ true
      running a b c d e f h = ground arith

      runs : s.script_running ≡ true
      runs =
          running s.shutting_down (is_empty s.active_owner) (is_empty s.active_generation)
            s.script_running (is_sender sender s.active_owner)
            (list_eq generation s.active_generation) e

      clash : s.script_running ≡ false → ⊥
      clash h = cc (runs)

      by :
          IsOrderly s
          → IsOrderly (record s { timer_active = false; received_first_snapshot = true })
      by (idle up r) = elim (clash r.not_running) [ ]
      by (closed down c o r) = elim (clash r.not_running) [ ]
      by (watching up h) = watching up (record {
        has_owner = h.has_owner;
        has_generation = h.has_generation;
        named = h.named;
        has_script = h.has_script;
        has_id = h.has_id;
        is_running = h.is_running;
        timed = refl;
      })

  pub publish-IsOrderly :
      (sender : Option QString) (generation payload : QString)
      → IsOrderly (publish w sender generation payload s)
  unfolding publish
  publish-IsOrderly sender generation payload =
      if_ind IsOrderly (not (is_authenticated sender generation s)) (λ _. v)
        λ e.
          by (canonicalize_script_snapshot w.codec payload s.helper_epoch)
            (heard-IsOrderly sender generation (ground (arith, e)))
    where
      by :
          (r : Result Error (List ℕ))
          → IsOrderly (record s { timer_active = false; received_first_snapshot = true })
          → IsOrderly (elim r [
            | err e ↦ s
            | ok snapshot ↦
                publish_snapshot w snapshot
                  (record s { timer_active = false; received_first_snapshot = true })
          ])
      by (err e) h = v
      by (ok snapshot) h = publish_snapshot-IsOrderly w snapshot _ h

  stopped-IsOrderly :
      (s.shutting_down || is_empty s.active_generation || s.received_first_snapshot) ≡ true
      → IsOrderly (record s { timer_active = false })
  stopped-IsOrderly e = by v
    where
      by : IsOrderly s → IsOrderly (record s { timer_active = false })
      by (idle up r) = idle up (record {
        no_generation = r.no_generation;
        no_plugin = r.no_plugin;
        no_script = r.no_script;
        no_id = r.no_id;
        not_running = r.not_running;
        not_received = r.not_received;
        timer_off = refl;
      })
      by (closed down c o r) = closed down c o (record {
        no_generation = r.no_generation;
        no_plugin = r.no_plugin;
        no_script = r.no_script;
        no_id = r.no_id;
        not_running = r.not_running;
        not_received = r.not_received;
        timer_off = refl;
      })
      by (watching up h) = watching up (record {
        has_owner = h.has_owner;
        has_generation = h.has_generation;
        named = h.named;
        has_script = h.has_script;
        has_id = h.has_id;
        is_running = h.is_running;
        timed = ground (arith, e, up, h.has_generation);
      })

  pub on_snapshot_timeout-IsOrderly : IsOrderly (on_snapshot_timeout w s)
  unfolding on_snapshot_timeout retire_generation
  on_snapshot_timeout-IsOrderly =
      let s2 = retire_generation w true (record s { timer_active = false }) in
      if_ind IsOrderly
        (s.shutting_down || is_empty s.active_generation || s.received_first_snapshot)
        stopped-IsOrderly
        λ e. publish_snapshot-IsOrderly w (unavailable w s2) s2 (idle (ground (arith, e)) retired)

  retired_owner :
      (owner : QString)
      → (s.shutting_down || list_eq owner s.active_owner) ≡ false
      → IsOrderly (detach_owner w true s)
  unfolding detach_owner retire_generation
  retired_owner owner e = idle (ground (arith, e)) retired

module _ (w : Session) (token : is_empty w.token ≡ false) where
  pub on_service_owner_changed-IsOrderly :
      (owner : QString) (s : WorkspaceConsensusObserver)
      → IsOrderly s
      → IsOrderly (on_service_owner_changed w owner s)
  unfolding on_service_owner_changed
  on_service_owner_changed-IsOrderly owner s v =
      let s1 = detach_owner w true s in
      let s2 = publish_snapshot w (unavailable w s1) s1 in
      let last = publish_snapshot-last w (unavailable w s1) s1 in
      if_ind IsOrderly (s.shutting_down || list_eq owner s.active_owner) (λ _. v)
        λ e.
          let v2 =
            publish_snapshot-IsOrderly w (unavailable w s1) s1 (retired_owner w s v owner e) in
          if_ind IsOrderly (is_empty owner) (λ _. v2)
            λ _.
              attach_owner-IsOrderly w token owner s2 v2
                (last.0 ∙ ap (unavailable_snapshot_json w.codec) (sym last.1))

  announce-IsOrderly :
      (s : WorkspaceConsensusObserver)
      → IsOrderly s
      → s.last_snapshot ≡ unavailable w s
      → IsOrderly (announce w s)
  unfolding announce
  announce-IsOrderly s v last =
      if_ind IsOrderly (not w.prints_ready) (λ _. fail-IsOrderly w s v)
        λ _.
          if_ind IsOrderly (is_empty w.service_owner) (λ _. v)
            λ _. attach_owner-IsOrderly w token w.service_owner s v last

  registered :
      (s : WorkspaceConsensusObserver)
      → IsOrderly s
      → s.shutting_down ≡ false
      → IsOrderly (record s { helper_destination = w.base_service; callback_registered = true })
  registered s (idle up r) e = idle up r
  registered s (watching up h) e = watching up h
  registered s (closed down c o r) e = elim (clash down) [ ]
    where
      clash : s.shutting_down ≡ true → ⊥
      clash h = Bool-clash s.shutting_down h e

  register-IsOrderly :
      (s : WorkspaceConsensusObserver)
      → IsOrderly s
      → s.shutting_down ≡ false
      → s.last_snapshot ≡ unavailable w s
      → IsOrderly (register w s)
  unfolding register
  register-IsOrderly s v up last =
      if_ind IsOrderly (not w.connected) (λ _. fail-IsOrderly w s v)
        λ _.
          if_ind IsOrderly (is_empty w.base_service || not w.registers)
            (λ _. fail-IsOrderly w (record s { helper_destination = w.base_service }) v)
            λ _.
              announce-IsOrderly
                (record s { helper_destination = w.base_service; callback_registered = true })
                (registered s v up) last

  pub initialize-IsOrderly :
      (s : WorkspaceConsensusObserver) → IsOrderly s → IsOrderly (initialize w s)
  unfolding initialize
  initialize-IsOrderly s v =
      let s' = publish_snapshot w (unavailable w s) s in
      let v' = publish_snapshot-IsOrderly w (unavailable w s) s v in
      let last = publish_snapshot-last w (unavailable w s) s in
      if_ind IsOrderly s.shutting_down (λ _. v)
        λ _.
          if_ind IsOrderly s'.shutting_down (λ _. v')
            λ up.
              register-IsOrderly s' v' up
                (last.0 ∙ ap (unavailable_snapshot_json w.codec) (sym last.1))

module _ (w : Session) where
  take_line-IsOrderly :
      (line : Bytes) (s : WorkspaceConsensusObserver) → IsOrderly s → IsOrderly (take_line w line s)
  unfolding take_line handle_frame
  take_line-IsOrderly line s v =
      if_ind IsOrderly s.discarding_command (λ _. v)
        λ _.
          if_ind IsOrderly (length line == 0 || ltb maximum_command_length (length line)) (λ _. v)
            λ _.
              if_ind IsOrderly (is_shutdown w.codec line) (λ _. shutdown-IsOrderly w s true v)
                (λ _. v)

  keep_rest-IsOrderly :
      (rest : Bytes) (s : WorkspaceConsensusObserver) → IsOrderly s → IsOrderly (keep_rest rest s)
  unfolding keep_rest
  keep_rest-IsOrderly rest s v =
      if_ind IsOrderly s.shutting_down (λ _. v)
        λ _.
          if_ind IsOrderly s.discarding_command (λ _. v)
            λ _. if_ind IsOrderly (ltb maximum_command_length (length rest)) (λ _. v) (λ _. v)

  pub consume_lines-IsOrderly :
      (lines : List Bytes) (rest : Bytes) (s : WorkspaceConsensusObserver)
      → IsOrderly s
      → IsOrderly (consume_lines w lines rest s)
  unfolding consume_lines
  consume_lines-IsOrderly [] rest s v = keep_rest-IsOrderly rest s v
  consume_lines-IsOrderly (line ∷ lines) rest s v =
      if_ind IsOrderly s.shutting_down (λ _. v)
        λ _. consume_lines-IsOrderly lines rest (take_line w line s) (take_line-IsOrderly line s v)
