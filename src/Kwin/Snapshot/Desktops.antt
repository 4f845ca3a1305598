-- ===== src/Kwin/Snapshot/Desktops.antt =====
-- What decodeDesktops accepts.
use nagi_shell.Prelude.{
  ℕ, ◌≤◌, ◌<◌, ◌≡◌, refl, sym, subst, ◌⊎◌, Bool, true, false, ◌||◌, List, [], ◌∷◌, ◌==◌, length,
  any, All, list_eq, arith,
}
use nagi_shell.Prelude.Int.{pos}
use nagi_shell.Prelude.Result.{Result, ok, err}
use nagi_shell.Notifications.Text.{literal}
use nagi_shell.Json.{Json, integral, double, string, object, Fields, value, string_of}
use nagi_shell.Kwin.Snapshot.{
  Desktop, Error, maximum_desktop_id_length, maximum_desktop_name_length, valid_bounded_string,
  decode_position, decode_desktop_object, decode_desktop,
}

pub record WellFormed (count : ℕ) (d : Desktop) : Type 0 where
  pub has_id : 0 < length d.id
  pub id_fits : length d.id ≤ maximum_desktop_id_length
  pub name_fits : length d.name ≤ maximum_desktop_name_length
  pub in_range : d.position < count

-- Neither the identifier nor the position is one that was read before.
abbrev pub Differ : Desktop → Desktop → Type 0
Differ d e = (list_eq e.id d.id ≡ false) × ((e.position == d.position) ≡ false)

abbrev pub IsNew : Desktop → List Desktop → Type 0
IsNew d = All (Differ d)

bounded-string :
    (j : Json) (maximum : ℕ) (allow_empty : Bool)
    → valid_bounded_string j maximum allow_empty ≡ true
    → (length (string_of j) ≤ maximum) × ((allow_empty ≡ true) ⊎ (0 < length (string_of j)))
unfolding valid_bounded_string
bounded-string (string s) maximum allow_empty h = (ground arith, ground arith)
bounded-string _ maximum allow_empty h = absurd (cc)

position-lt : (j : Json) (count n : ℕ) → decode_position j count ≡ ok n → n < count
unfolding decode_position
position-lt (double (integral (pos k))) count n h = ground arith
position-lt (double d) count n h = ground arith
position-lt _ count n h = absurd (cc)

any-IsNew :
    (d : Desktop) (read : List Desktop)
    → any (λ e. list_eq e.id d.id) read || any (λ e. e.position == d.position) read ≡ false
    → IsNew d read
any-IsNew d [] h = tt
any-IsNew d (e ∷ rest) h = ((ground arith, ground arith), any-IsNew d rest (ground arith))

-- The desktop that the checks let through.
abbrev made : Fields → ℕ → Desktop
made o position = record {
  id = string_of (value (literal "id") o);
  name = string_of (value (literal "name") o);
  position = position;
}

made-WellFormed :
    (o : Fields) (count : ℕ) (read : List Desktop) (q : Result Error ℕ) {d : Desktop}
    → decode_position (value (literal "position") o) count ≡ q
    → decode_desktop_object o count read ≡ ok d
    → (position : ℕ) × (d ≡ made o position)
      × WellFormed count (made o position)
      × IsNew (made o position) read
unfolding decode_desktop_object
made-WellFormed o count read (err e) {d} at h = absurd (ground arith)
made-WellFormed o count read (ok position) {d} at h =
    let id_json = value (literal "id") o in
    let name_json = value (literal "name") o in
    let id_fact = bounded-string id_json maximum_desktop_id_length false in
    let name_fact = bounded-string name_json maximum_desktop_name_length true in
    let fits = position-lt (value (literal "position") o) count position at in
    (
      position,
      ground arith,
      record {
        has_id = ground (arith, id_fact);
        id_fits = ground (arith, id_fact);
        name_fits = ground (arith, name_fact);
        in_range = fits;
      },
      any-IsNew (made o position) read (ground arith),
    )

pub decode_desktop-WellFormed :
    (j : Json) (count : ℕ) (read : List Desktop) {d : Desktop}
    → decode_desktop j count read ≡ ok d
    → WellFormed count d × IsNew d read
unfolding decode_desktop
decode_desktop-WellFormed (object o) count read {d} h =
    let (position, same, formed, new) = made-WellFormed o count read _ {d = d} refl h in
    (subst (WellFormed count) (sym same) formed, subst (λ x. IsNew x read) (sym same) new)
decode_desktop-WellFormed _ count read h = absurd (cc)
