-- ===== src/Kwin/Observer/Validity.antt =====
-- The phases of the observer: it watches a script, it has none, or it is shut down.
pub mod Events
pub mod Histories
use nagi_shell.Prelude.{
  ℕ, ◌≡◌, refl, sym, ap, ◌∙◌, subst, Bool, true, false, not, ◌&&◌, ◌||◌, Option, none, some,
  is_some, List, [], ◌∷◌, ◌++◌, list_eq, if◌then◌else◌, list_eq_sound, list_eq_refl, Bool-cases,
  inl, inr, arith, if_ind, option_ind,
}
use nagi_shell.Prelude.Int.{ℤ, pos, negsuc}
use nagi_shell.Notifications.Text.{QString}
use nagi_shell.Bytes.{Bytes}
use nagi_shell.Kwin.Snapshot.{should_publish, unavailable_snapshot_json}
use nagi_shell.Kwin.Observer.{
  Session, WorkspaceConsensusObserver, is_empty, render_script, retire_generation, detach_owner,
  shutdown, fail, publish_snapshot, unavailable, load_script,
}
use nagi_shell.Kwin.Observer.Events.{
  plugin_prefix, run_loaded, script_id_of, load_rendered, begin_generation, attach_owner,
}

-- Nothing of a generation is left.
pub record Retired (generation plugin : QString) (script : Option Bytes) (id : Option ℕ)
    (running received timer : Bool) : Type 0 where
  pub no_generation : generation ≡ []
  pub no_plugin : plugin ≡ []
  pub no_script : script ≡ none
  pub no_id : id ≡ none
  pub not_running : running ≡ false
  pub not_received : received ≡ false
  pub timer_off : timer ≡ false

-- A script of a generation runs in KWin, under the name made from the generation; the timer runs until the
-- first snapshot.
pub record Watching (owner generation plugin : QString) (script : Option Bytes) (id : Option ℕ)
    (running received timer : Bool) : Type 0 where
  pub has_owner : is_empty owner ≡ false
  pub has_generation : is_empty generation ≡ false
  pub named : plugin ≡ plugin_prefix ++ generation
  pub has_script : is_some script ≡ true
  pub has_id : is_some id ≡ true
  pub is_running : running ≡ true
  pub timed : timer ≡ not received

pub data Phase (down callback : Bool) (owner generation plugin : QString) (script : Option Bytes)
    (id : Option ℕ) (running received timer : Bool) : Type 0 where
  idle :
      down ≡ false
      → Retired generation plugin script id running received timer
      → Phase down callback owner generation plugin script id running received timer
  watching :
      down ≡ false
      → Watching owner generation plugin script id running received timer
      → Phase down callback owner generation plugin script id running received timer
  closed :
      down ≡ true
      → callback ≡ false
      → owner ≡ []
      → Retired generation plugin script id running received timer
      → Phase down callback owner generation plugin script id running received timer

abbrev pub IsOrderly : WorkspaceConsensusObserver → Type 0
IsOrderly s =
    Phase s.shutting_down s.callback_registered s.active_owner s.active_generation s.plugin_name
      s.temporary_script s.script_id s.script_running s.received_first_snapshot s.timer_active

pub retired : Retired [] [] none none false false false
retired = record {
  no_generation = refl;
  no_plugin = refl;
  no_script = refl;
  no_id = refl;
  not_running = refl;
  not_received = refl;
  timer_off = refl;
}

module _ (w : Session) (s : WorkspaceConsensusObserver) where
  pub retire_generation-IsOrderly :
      (cleanup : Bool) → s.shutting_down ≡ false → IsOrderly (retire_generation w cleanup s)
  unfolding retire_generation
  retire_generation-IsOrderly cleanup up = idle up retired

  pub detach_owner-IsOrderly :
      (cleanup : Bool) → s.shutting_down ≡ false → IsOrderly (detach_owner w cleanup s)
  unfolding detach_owner retire_generation
  detach_owner-IsOrderly cleanup up = idle up retired

  pub shutdown-IsOrderly : (quit : Bool) → IsOrderly s → IsOrderly (shutdown w quit s)
  unfolding shutdown detach_owner retire_generation
  shutdown-IsOrderly quit v =
      if_ind IsOrderly s.shutting_down (λ _. v) λ _. closed refl refl refl retired

  pub fail-IsOrderly : IsOrderly s → IsOrderly (fail w s)
  unfolding fail
  fail-IsOrderly v = shutdown-IsOrderly false v

module _ (w : Session) (snapshot : Bytes) (s : WorkspaceConsensusObserver) where
  pub publish_snapshot-IsOrderly : IsOrderly s → IsOrderly (publish_snapshot w snapshot s)
  unfolding publish_snapshot
  publish_snapshot-IsOrderly v =
      let p = should_publish s.last_snapshot snapshot in
      let s' = record s { last_snapshot = p.1 } in
      if_ind IsOrderly (not p.0) (λ _. v)
        λ _. if_ind IsOrderly w.prints (λ _. v) λ _. fail-IsOrderly w s' v

fail-keeps :
    (w : Session) (s : WorkspaceConsensusObserver)
    → ((fail w s).last_snapshot ≡ s.last_snapshot) × ((fail w s).helper_epoch ≡ s.helper_epoch)
unfolding fail shutdown detach_owner retire_generation
fail-keeps w s =
    if_ind
      (λ (t : WorkspaceConsensusObserver).
        (t.last_snapshot ≡ s.last_snapshot) × (t.helper_epoch ≡ s.helper_epoch))
      s.shutting_down (λ _. (refl, refl)) λ _. (refl, refl)

-- The same snapshot again is not published.
pub publish_snapshot-same :
    (w : Session) (snapshot : Bytes) (s : WorkspaceConsensusObserver)
    → list_eq snapshot s.last_snapshot ≡ true
    → publish_snapshot w snapshot s ≡ s
unfolding publish_snapshot should_publish
publish_snapshot-same w snapshot s e = rw e refl

-- What was last published is now the snapshot.
pub publish_snapshot-last :
    (w : Session) (snapshot : Bytes) (s : WorkspaceConsensusObserver)
    → ((publish_snapshot w snapshot s).last_snapshot ≡ snapshot)
      × ((publish_snapshot w snapshot s).helper_epoch ≡ s.helper_epoch)
unfolding publish_snapshot should_publish
publish_snapshot-last w snapshot s = elim (Bool-cases (list_eq snapshot s.last_snapshot)) [
  | inl e ↦ rw e (sym (list_eq_sound snapshot s.last_snapshot e), refl)
  | inr e ↦ rw e (
      if_ind
        (λ (t : WorkspaceConsensusObserver).
          (t.last_snapshot ≡ snapshot) × (t.helper_epoch ≡ s.helper_epoch))
        w.prints (λ _. (refl, refl)) (λ _. fail-keeps w (record s { last_snapshot = snapshot })))
]

module _ (w : Session) (token : is_empty w.token ≡ false) where
  run_loaded-IsOrderly :
      (id : ℕ) (s : WorkspaceConsensusObserver)
      → s.shutting_down ≡ false
      → is_empty s.active_owner ≡ false
      → s.active_generation ≡ w.token
      → s.plugin_name ≡ plugin_prefix ++ w.token
      → is_some s.temporary_script ≡ true
      → s.received_first_snapshot ≡ false
      → IsOrderly (run_loaded w id s)
  unfolding run_loaded retire_generation
  run_loaded-IsOrderly id s up owner generation plugin script fresh =
      if_ind IsOrderly w.runs
        (λ _. watching up (record {
          has_owner = owner;
          has_generation = ap is_empty generation ∙ token;
          named = plugin ∙ ap (λ g. plugin_prefix ++ g) (sym generation);
          has_script = script;
          has_id = refl;
          is_running = refl;
          timed = ap not (sym fresh);
        }))
        λ _. idle up retired

  begin_generation-IsOrderly :
      (s : WorkspaceConsensusObserver)
      → s.shutting_down ≡ false
      → is_empty s.active_owner ≡ false
      → IsOrderly (begin_generation w s)
  unfolding begin_generation load_rendered retire_generation
  begin_generation-IsOrderly s up owner =
      let s' = record s {
        active_generation = w.token;
        plugin_name = plugin_prefix ++ w.token;
        received_first_snapshot = false;
      } in
      option_ind IsOrderly (render_script w s') (λ _. idle up retired)
        λ script _.
          option_ind IsOrderly (script_id_of w.loads) (λ _. idle up retired)
            λ id _.
              run_loaded-IsOrderly id
                (record s' {
                  temporary_script = some script;
                  calls = load_script s.active_owner s'.plugin_name ∷ s.calls;
                })
                up owner refl refl refl refl

  -- The owner before is detached, if there is one.
  abbrev Kept : WorkspaceConsensusObserver → WorkspaceConsensusObserver → Type 0
  Kept s t =
      (t.last_snapshot ≡ s.last_snapshot)
      × (t.helper_epoch ≡ s.helper_epoch)
      × (t.shutting_down ≡ s.shutting_down)

  left_alone :
      (s : WorkspaceConsensusObserver)
      → Kept s (if is_empty s.active_owner then s else detach_owner w true s)
  unfolding detach_owner retire_generation
  left_alone s =
      if_ind (Kept s) (is_empty s.active_owner) (λ _. (refl, refl, refl)) (λ _. (refl, refl, refl))

  attached-IsOrderly :
      (owner : QString) (s s2 : WorkspaceConsensusObserver)
      → s.last_snapshot ≡ unavailable w s
      → Kept s s2
      → s.shutting_down ≡ false
      → s2.active_owner ≡ owner
      → is_empty owner ≡ false
      → IsOrderly (begin_generation w (publish_snapshot w (unavailable w s2) s2))
  attached-IsOrderly owner s s2 last kept up mine some_owner =
      let e : unavailable w s2 ≡ s2.last_snapshot =
        ap (unavailable_snapshot_json w.codec) kept.1 ∙ sym last ∙ sym kept.0 in
      subst (λ t. IsOrderly (begin_generation w t))
        (sym (
          publish_snapshot-same w (unavailable w s2) s2
            (ap (λ l. list_eq l s2.last_snapshot) e ∙ list_eq_refl s2.last_snapshot)))
        (begin_generation-IsOrderly s2 (kept.2 ∙ up) (ap is_empty mine ∙ some_owner))

  pub attach_owner-IsOrderly :
      (owner : QString) (s : WorkspaceConsensusObserver)
      → IsOrderly s
      → s.last_snapshot ≡ unavailable w s
      → IsOrderly (attach_owner w owner s)
  unfolding attach_owner
  attach_owner-IsOrderly owner s v last =
      let s1 = if is_empty s.active_owner then s else detach_owner w true s in
      if_ind IsOrderly (s.shutting_down || is_empty owner || list_eq owner s.active_owner) (λ _. v)
        λ e.
          attached-IsOrderly owner s (record s1 { active_owner = owner }) last (left_alone s)
            (first s.shutting_down (is_empty owner) (list_eq owner s.active_owner) e).0 refl
            (first s.shutting_down (is_empty owner) (list_eq owner s.active_owner) e).1
    where
      first : (a b c : Bool) → (a || b || c) ≡ false → (a ≡ false) × (b ≡ false)
      first a b c h = ground arith
