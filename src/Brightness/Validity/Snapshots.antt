-- ===== src/Brightness/Validity/Snapshots.antt =====
-- refreshSnapshot keeps the invariant of the brightness helper.
use nagi_shell.Prelude.{
  ℕ, ◌≡◌, Bool, false, not, ◌&&◌, none, List, [], ◌∷◌, map, take, All, list_eq, arith, if_ind,
  option_ind,
}
use nagi_shell.Brightness.{
  DisplayState, ObservedChange, stale, Session, BrightnessBridge, is_empty, find_display,
  find_pending, maximum_displays,
}
use nagi_shell.Brightness.Requests.{publish_results, is_request, filter_requests}
use nagi_shell.Brightness.Snapshots.{
  read_displays, still_fits, is_brightness, is_self, confirm_change, confirm_changes,
  publish_refresh, replaced, commit, refresh_names, refresh_snapshot, sort_names, remove_duplicates,
}
use nagi_shell.Brightness.Validity.{
  InRange, Fits, Named, IsCoherent, timer_for-timed, Apart-filter_requests, All-filter_requests,
}
use nagi_shell.Brightness.Validity.Requests.{
  publish_state-IsCoherent, publish_results-IsCoherent, publish_changes-IsCoherent,
  removed-IsCoherent, read_displays-InRange,
}

module _ (w : Session) where
  replaced-IsCoherent :
      (displays : List DisplayState) (b : BrightnessBridge)
      → IsCoherent b
      → is_empty b.active_owner ≡ false
      → All InRange displays × Named displays
      → IsCoherent (replaced w displays b)
  replaced-IsCoherent displays b v owner read =
      let ps = filter_requests (still_fits displays) b.pending_requests in
      record {
        ranged = read.0;
        named = read.1;
        fit =
            All-filter_requests (Fits b.displays) (Fits displays) (still_fits displays)
              b.pending_requests (λ p e h. (e, h.1)) v.fit;
        apart = Apart-filter_requests (still_fits displays) b.pending_requests v.apart;
        few_changes = v.few_changes;
        timed = timer_for-timed w.elapsed ps;
        owned = ground (arith, owner);
      }

  confirm_change-IsCoherent :
      (o : ObservedChange) (b : BrightnessBridge)
      → IsCoherent b
      → IsCoherent (confirm_change w o b).1
  unfolding confirm_change
  confirm_change-IsCoherent o b v =
      if_ind (λ (p : Bool × BrightnessBridge). IsCoherent p.1)
        (not (is_brightness o.brightness (find_display o.name b.displays))) (λ _. v)
        λ _.
          if_ind (λ (p : Bool × BrightnessBridge). IsCoherent p.1) (not (is_self o.origin)) (λ _. v)
            λ _.
              if_ind (λ (p : Bool × BrightnessBridge). IsCoherent p.1)
                (not (is_request o.request_id (find_pending o.name b.pending_requests))) (λ _. v)
                λ _. removed-IsCoherent w o.name b v

  confirm_changes-IsCoherent :
      (changes : List ObservedChange) (b : BrightnessBridge)
      → IsCoherent b
      → IsCoherent (confirm_changes w changes b).1
  unfolding confirm_changes
  confirm_changes-IsCoherent [] b v = v
  confirm_changes-IsCoherent (o ∷ rest) b v =
      confirm_changes-IsCoherent rest (confirm_change w o b).1 (confirm_change-IsCoherent o b v)

  no_changes :
      (b : BrightnessBridge) → IsCoherent b → IsCoherent (record b { observed_changes = [] })
  no_changes b v = record {
    ranged = v.ranged;
    named = v.named;
    fit = v.fit;
    apart = v.apart;
    few_changes = omega arith;
    timed = v.timed;
    owned = v.owned;
  }

  publish_refresh-IsCoherent :
      (ids : List ℕ) (changes : List ObservedChange) (b : BrightnessBridge)
      → IsCoherent b
      → IsCoherent (publish_refresh w ids changes b)
  unfolding publish_refresh
  publish_refresh-IsCoherent ids changes b v =
      if_ind IsCoherent (is_empty ids && is_empty changes)
        (λ _. publish_state-IsCoherent w none none b v)
        λ _.
          publish_changes-IsCoherent w changes (publish_results w ids stale b)
            (publish_results-IsCoherent w ids stale b v)

  commit-IsCoherent :
      (displays : List DisplayState) (b : BrightnessBridge)
      → IsCoherent b
      → is_empty b.active_owner ≡ false
      → All InRange displays × Named displays
      → IsCoherent (commit w displays b)
  unfolding commit
  commit-IsCoherent displays b v owner read =
      let settled = confirm_changes w b.observed_changes (replaced w displays b) in
      publish_refresh-IsCoherent
        (map (λ p. p.request_id)
          (filter_requests (λ p. not (still_fits displays p)) b.pending_requests))
        settled.0 (record settled.1 { observed_changes = [] })
        (no_changes settled.1 (
          confirm_changes-IsCoherent b.observed_changes (replaced w displays b)
            (replaced-IsCoherent displays b v owner read)))

  pub refresh_snapshot-IsCoherent :
      (b : BrightnessBridge) → IsCoherent b → IsCoherent (refresh_snapshot w b)
  unfolding refresh_snapshot refresh_names
  refresh_snapshot-IsCoherent b v =
      let b' = record b { snapshot_scheduled = false } in
      if_ind IsCoherent (is_empty b.active_owner) (λ _. v)
        λ owner.
          option_ind IsCoherent w.display_names (λ _. v)
            λ names _.
              let listed = take maximum_displays (sort_names (remove_duplicates [] names)) in
              if_ind IsCoherent (list_eq w.service_owner b.active_owner)
                (λ _.
                  commit-IsCoherent (read_displays w b.owner_generation listed []) b' v owner
                    (read_displays-InRange w b.owner_generation listed [] (tt, tt)))
                (λ _. v)
