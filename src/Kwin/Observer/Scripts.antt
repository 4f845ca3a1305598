-- ===== src/Kwin/Observer/Scripts.antt =====
-- The scripts that the observer leaves in KWin.
pub mod Histories
use nagi_shell.Prelude.{
  ℕ, ◌≡◌, refl, sym, ap, ◌∙◌, subst, Bool, true, false, not, ◌&&◌, Option, none, some, List, [],
  ◌∷◌, ◌++◌, list_eq, list_eq_sound, list_eq_refl, if◌then◌else◌, Bool-cases, inl, inr, arith,
  if_ind, option_ind,
}
use nagi_shell.Notifications.Text.{QString}
use nagi_shell.Bytes.{Bytes}
use nagi_shell.Kwin.Snapshot.{should_publish}
use nagi_shell.Kwin.Observer.{
  Call, load_script, unload_script, run_script, stop_script, Session, WorkspaceConsensusObserver,
  is_empty, render_script, stop_calls, cleanup_calls, service_is_callable, retire_generation,
  detach_owner, shutdown, fail, publish_snapshot,
}
use nagi_shell.Kwin.Observer.Events.{
  plugin_prefix, run_loaded, script_id_of, load_rendered, begin_generation,
}

-- The plugins that were loaded at an owner and not unloaded there since.
abbrev pub remove_first : QString → List QString → List QString
remove_first name [] = []
remove_first name (x ∷ xs) =
    let rest = remove_first name xs in if list_eq x name then xs else x ∷ rest

unfoldable pub open_at : QString → List Call → List QString
open_at o [] = []
open_at o (load_script owner plugin ∷ calls) =
    let before = open_at o calls in if list_eq owner o then plugin ∷ before else before
open_at o (unload_script owner plugin ∷ calls) =
    let before = open_at o calls in if list_eq owner o then remove_first plugin before else before
open_at o (run_script owner id ∷ calls) = open_at o calls
open_at o (stop_script owner id ∷ calls) = open_at o calls

-- The plugin of the generation, at its owner.
abbrev pub live : QString → QString → QString → List QString
live o owner plugin = if list_eq owner o && not (is_empty plugin) then plugin ∷ [] else []

abbrev pub Tidy : QString → WorkspaceConsensusObserver → Type 0
Tidy o s = open_at o s.calls ≡ live o s.active_owner s.plugin_name

abbrev pub Clean : QString → WorkspaceConsensusObserver → Type 0
Clean o s = (open_at o s.calls ≡ []) × (s.plugin_name ≡ [])

module _ (o : QString) where
  pub Clean-Tidy : (s : WorkspaceConsensusObserver) → Clean o s → Tidy o s
  Clean-Tidy s c = c.0 ∙ sym (nothing s.plugin_name (list_eq s.active_owner o) c.1)
    where
      nothing :
          (plugin : QString) (b : Bool)
          → plugin ≡ []
          → (if b && not (is_empty plugin) then plugin ∷ [] else []) ≡ []
      nothing plugin true e = ap (λ p. if not (is_empty p) then p ∷ [] else []) e
      nothing plugin false e = refl

  open_at-stop_calls :
      (owner : QString) (id : Option ℕ) (calls : List Call)
      → open_at o (stop_calls owner id calls) ≡ open_at o calls
  unfolding open_at
  open_at-stop_calls owner none calls = refl
  open_at-stop_calls owner (some id) calls = refl

  -- At another owner nothing is loaded or unloaded; at this one the plugin is unloaded.
  open_at-cleanup_calls :
      (s : WorkspaceConsensusObserver) → Tidy o s → open_at o (cleanup_calls s) ≡ []
  unfolding open_at
  open_at-cleanup_calls s t =
      ground (
        arith,
        t,
        open_at-stop_calls s.active_owner s.script_id s.calls,
        list_eq_refl s.plugin_name,
      )

module _ (o : QString) (w : Session) (named : is_empty o ≡ false)
    (callable : w.callable o ≡ true) where
  pub retire_generation-Clean :
      (s : WorkspaceConsensusObserver) → Tidy o s → Clean o (retire_generation w true s)
  unfolding retire_generation
  retire_generation-Clean s t = (
    if_ind (λ calls. open_at o calls ≡ []) (service_is_callable w s.active_owner)
        (λ _. open_at-cleanup_calls o s t) (λ e. t ∙ elsewhere s.active_owner s.plugin_name e),
    refl,
  )
    where
      elsewhere :
          (owner plugin : QString) → service_is_callable w owner ≡ false → live o owner plugin ≡ []
      elsewhere owner plugin e = elim (Bool-cases (list_eq owner o)) [
        | inl same ↦ absurd (
            ground
              (arith, e, named, callable, ap (service_is_callable w) (list_eq_sound owner o same)))
        | inr other ↦ rw other refl
      ]

  pub detach_owner-Clean :
      (s : WorkspaceConsensusObserver) → Tidy o s → Clean o (detach_owner w true s)
  unfolding detach_owner
  detach_owner-Clean s t = retire_generation-Clean s t

  pub shutdown-Tidy :
      (quit : Bool) (s : WorkspaceConsensusObserver) → Tidy o s → Tidy o (shutdown w quit s)
  unfolding shutdown
  shutdown-Tidy quit s t =
      let s' = record s { shutting_down = true } in
      if_ind (Tidy o) s.shutting_down (λ _. t)
        λ _. Clean-Tidy o (detach_owner w true s') (detach_owner-Clean s' t)

  pub fail-Tidy : (s : WorkspaceConsensusObserver) → Tidy o s → Tidy o (fail w s)
  unfolding fail
  fail-Tidy s t = shutdown-Tidy false s t

  pub publish_snapshot-Tidy :
      (snapshot : Bytes) (s : WorkspaceConsensusObserver)
      → Tidy o s
      → Tidy o (publish_snapshot w snapshot s)
  unfolding publish_snapshot
  publish_snapshot-Tidy snapshot s t =
      let p = should_publish s.last_snapshot snapshot in
      if_ind (Tidy o) (not p.0) (λ _. t)
        λ _. if_ind (Tidy o) w.prints (λ _. t) λ _. fail-Tidy (record s { last_snapshot = p.1 }) t

  pub publish_snapshot-Clean :
      (snapshot : Bytes) (s : WorkspaceConsensusObserver)
      → Clean o s
      → Clean o (publish_snapshot w snapshot s)
  unfolding publish_snapshot fail shutdown
  publish_snapshot-Clean snapshot s c =
      let p = should_publish s.last_snapshot snapshot in
      let s' = record s { last_snapshot = p.1; shutting_down = true } in
      if_ind (Clean o) (not p.0) (λ _. c)
        λ _.
          if_ind (Clean o) w.prints (λ _. c)
            λ _.
              if_ind (Clean o) s.shutting_down (λ _. c)
                λ _. detach_owner-Clean s' (Clean-Tidy o s' c)

  -- The script that is loaded is the one that is live, unless it is unloaded at once.
  run_loaded-Tidy :
      (id : ℕ) (s : WorkspaceConsensusObserver) → Tidy o s → Tidy o (run_loaded w id s)
  unfolding run_loaded open_at
  run_loaded-Tidy id s t =
      let s' = record s {
        script_id = some id;
        script_running = true;
        calls = run_script s.active_owner id ∷ s.calls;
      } in
      if_ind (Tidy o) w.runs (λ _. t)
        λ _. Clean-Tidy o (retire_generation w true s') (retire_generation-Clean s' t)

  pub begin_generation-Tidy :
      (s : WorkspaceConsensusObserver) → Clean o s → Tidy o (begin_generation w s)
  unfolding begin_generation load_rendered retire_generation open_at
  begin_generation-Tidy s c =
      let s' = record s {
        active_generation = w.token;
        plugin_name = plugin_prefix ++ w.token;
        received_first_snapshot = false;
      } in
      option_ind (Tidy o) (render_script w s')
        (λ _. Clean-Tidy o (retire_generation w false s') (c.0, refl))
        λ script _.
          let s1 = record s' {
            temporary_script = some script;
            calls = load_script s.active_owner s'.plugin_name ∷ s.calls;
          } in
          let t : Tidy o s1 = ground (arith, c.0) in
          option_ind (Tidy o) (script_id_of w.loads)
            (λ _.
              let s2 = record s1 { script_id = none } in
              Clean-Tidy o (retire_generation w true s2) (retire_generation-Clean s2 t))
            λ id _. run_loaded-Tidy id s1 t
