-- ===== src/Brightness/Snapshots.antt =====
-- src/brightness/main.cpp: refreshSnapshot, which reads the displays anew and confirms what was observed.
use nagi_shell.Prelude.{
  ℕ, Bool, true, false, not, ◌&&◌, ◌||◌, Option, none, some, List, [], ◌∷◌, ◌++◌, ◌==◌, ltb,
  if◌then◌else◌, map, any, take, list_eq,
}
use nagi_shell.Prelude.Int.{ℤ, pos}
use nagi_shell.Notifications.Text.{QString}
use nagi_shell.Brightness.{
  DisplayState, PendingRequest, Origin, self, ObservedChange, stale, confirmed, Properties, Session,
  BrightnessBridge, maximum_displays, maximum_label_length, is_empty, valid_display_name,
  find_display, insert_display, find_pending, remove_pending, remove_failure, arm_request_timer,
}
use nagi_shell.Brightness.Requests.{
  comes_before, publish_state, publish_results, is_request, filter_requests,
}

-- QStringList::removeDuplicates and std::sort.
abbrev pub contains : QString → List QString → Bool
contains name names = any (λ n. list_eq n name) names

abbrev pub remove_duplicates : List QString → List QString → List QString
remove_duplicates seen [] = []
remove_duplicates seen (n ∷ rest) =
    let later = remove_duplicates (n ∷ seen) rest in if contains n seen then later else n ∷ later

abbrev pub insert_name : QString → List QString → List QString
insert_name n [] = n ∷ []
insert_name n (m ∷ rest) =
    let later = insert_name n rest in if comes_before n m then n ∷ m ∷ rest else m ∷ later

abbrev pub sort_names : List QString → List QString
sort_names [] = []
sort_names (n ∷ rest) = insert_name n (sort_names rest)

-- readDisplay.
abbrev pub display_of : Session → ℕ → QString → Properties → ℕ → ℕ → DisplayState
display_of w generation name p maximum brightness = record {
  name = name;
  key = w.number generation ++ (b':' ∷ name);
  label = take maximum_label_length p.label;
  is_internal = p.is_internal;
  maximum = maximum;
  brightness = brightness;
}

abbrev pub checked_display : Session → ℕ → QString → Properties → ℤ → ℤ → Option DisplayState
checked_display w generation name p (pos maximum) (pos brightness) =
    if maximum == 0 || ltb maximum brightness
    then none
    else some (display_of w generation name p maximum brightness)
checked_display w generation name p _ _ = none

unfoldable pub read_display : Session → ℕ → QString → Option DisplayState
read_display w generation name =
    if not (valid_display_name name) then none else elim (w.properties name) [
      | none ↦ none
      | some p ↦ checked_display w generation name p p.maximum p.brightness
    ]

abbrev pub insert_read : Option DisplayState → List DisplayState → List DisplayState
insert_read none displays = displays
insert_read (some d) displays = insert_display d displays

unfoldable pub read_displays : Session → ℕ → List QString → List DisplayState → List DisplayState
unfolding read_display
read_displays w generation [] displays = displays
read_displays w generation (name ∷ names) displays =
    read_displays w generation names (insert_read (read_display w generation name) displays)

-- A request still fits the displays that were read.
abbrev pub has_maximum : ℕ → Option DisplayState → Bool
has_maximum maximum none = false
has_maximum maximum (some d) = d.maximum == maximum

abbrev pub still_fits : List DisplayState → PendingRequest → Bool
still_fits displays p = has_maximum p.maximum (find_display p.name displays)

-- The brightness that was observed is the one that was read.
abbrev pub is_brightness : ℤ → Option DisplayState → Bool
is_brightness (pos n) (some d) = d.brightness == n
is_brightness _ _ = false

abbrev pub is_self : Origin → Bool
is_self self = true
is_self _ = false

-- One round of the loop over the observed changes; whether the change is confirmed, and the state.
unfoldable pub confirm_change :
    Session → ObservedChange → BrightnessBridge → Bool × BrightnessBridge
confirm_change w o b =
    let b' = record b { display_failures = remove_failure o.name b.display_failures } in
    if not (is_brightness o.brightness (find_display o.name b.displays))
    then (false, b)
    else if not (is_self o.origin)
    then (true, b')
    else if not (is_request o.request_id (find_pending o.name b.pending_requests))
    then (false, b)
    else (
      true,
      arm_request_timer w
          (record b' { pending_requests = remove_pending o.name b.pending_requests }),
    )

unfoldable pub confirm_changes :
    Session → List ObservedChange → BrightnessBridge → List ObservedChange × BrightnessBridge
unfolding confirm_change
confirm_changes w [] b = ([], b)
confirm_changes w (o ∷ rest) b =
    let one = confirm_change w o b in
    let later = confirm_changes w rest one.1 in (if one.0 then o ∷ later.0 else later.0, later.1)

unfoldable pub publish_changes : Session → List ObservedChange → BrightnessBridge → BrightnessBridge
unfolding publish_state
publish_changes w [] b = b
publish_changes w (o ∷ rest) b =
    publish_changes w rest (
      publish_state w (some o) (if is_self o.origin then some (o.request_id, confirmed) else none)
        b)

-- The end of refreshSnapshot.
unfoldable pub publish_refresh :
    Session → List ℕ → List ObservedChange → BrightnessBridge → BrightnessBridge
unfolding publish_state publish_results publish_changes
publish_refresh w stale_ids changes b =
    if is_empty stale_ids && is_empty changes
    then publish_state w none none b
    else publish_changes w changes (publish_results w stale_ids stale b)

-- The requests that no longer fit are dropped, and the displays replaced.
abbrev pub replaced : Session → List DisplayState → BrightnessBridge → BrightnessBridge
replaced w refreshed b = arm_request_timer w (record b {
  displays = refreshed;
  pending_requests = filter_requests (still_fits refreshed) b.pending_requests;
})

unfoldable pub commit : Session → List DisplayState → BrightnessBridge → BrightnessBridge
unfolding confirm_changes publish_refresh filter_requests
commit w refreshed b =
    let stale_requests = filter_requests (λ p. not (still_fits refreshed p)) b.pending_requests in
    let settled = confirm_changes w b.observed_changes (replaced w refreshed b) in
    publish_refresh w (map (λ p. p.request_id) stale_requests) settled.0
      (record settled.1 { observed_changes = [] })

unfoldable pub refresh_names : Session → List QString → BrightnessBridge → BrightnessBridge
unfolding read_displays commit
refresh_names w names b =
    let listed = take maximum_displays (sort_names (remove_duplicates [] names)) in
    if list_eq w.service_owner b.active_owner
    then commit w (read_displays w b.owner_generation listed []) b
    else b

-- refreshSnapshot. The calls block, so that no event comes between them.
unfoldable pub refresh_snapshot : Session → BrightnessBridge → BrightnessBridge
unfolding refresh_names
refresh_snapshot w b =
    let b' = record b { snapshot_scheduled = false } in
    if is_empty b.active_owner
    then b'
    else elim w.display_names [ none ↦ b' | some names ↦ refresh_names w names b' ]
