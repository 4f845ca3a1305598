-- ===== src/Kwin/Snapshot/Outputs.antt =====
-- What decodeOutputs accepts.
use nagi_shell.Prelude.{
  ℕ, suc, ◌≤◌, ◌<◌, ◌≡◌, refl, ap, Bool, true, false, ◌&&◌, List, [], ◌∷◌, if◌then◌else◌, length,
  any, All, list_eq, arith,
}
use nagi_shell.Prelude.Result.{ok, guard-ok, bind-ok}
use nagi_shell.Notifications.Text.{QString}
use nagi_shell.Json.{Json, array, object, to_list}
use nagi_shell.Kwin.Snapshot.{
  Desktop, OutputProjection, decode_output_object, decode_output, decode_output_list, out_of_bounds,
  decode_outputs, maximum_output_count,
}

abbrev pub Resolves : List Desktop → OutputProjection → Type 0
Resolves desktops p = any (λ d. list_eq d.id p.current_id) desktops ≡ true

abbrev pub is_named : QString → OutputProjection → Bool
is_named name p = list_eq p.name name

-- How many outputs ask for feedback.
abbrev pub transients : List OutputProjection → ℕ
transients [] = 0
transients (p ∷ rest) = if p.show_transient then suc (transients rest) else transients rest

-- The name is new, and a second output does not ask for feedback.
abbrev pub Joins : OutputProjection → List OutputProjection → Type 0
Joins p read =
    (any (is_named p.name) read ≡ false)
    × (p.show_transient && any (λ q. q.show_transient) read ≡ false)

decode_output-Resolves :
    (j : Json) (desktops : List Desktop) (read : List OutputProjection) {p : OutputProjection}
    → decode_output j desktops read ≡ ok p
    → Resolves desktops p × Joins p read
unfolding decode_output decode_output_object
decode_output-Resolves (object o) desktops read {p} h = ground arith
decode_output-Resolves _ desktops read h = absurd (cc)

abbrev pub DistinctNames : List OutputProjection → Type 0
DistinctNames [] = Unit
DistinctNames (p ∷ rest) = All (λ q. list_eq p.name q.name ≡ false) rest × DistinctNames rest

abbrev AllJoin : List OutputProjection → List OutputProjection → Type 0
AllJoin [] read = Unit
AllJoin (p ∷ rest) read = Joins p read × AllJoin rest (p ∷ read)

decode_output_list-AllJoin :
    (js : List Json) (desktops : List Desktop) (read ps : List OutputProjection)
    → decode_output_list js desktops read ≡ ok ps
    → All (Resolves desktops) ps × AllJoin ps read × (length ps ≡ length js)
unfolding decode_output_list
decode_output_list-AllJoin [] desktops read ps h =
    let same : ps ≡ [] = cc in (rw same tt, rw same tt, rw same refl)
decode_output_list-AllJoin (j ∷ rest) desktops read ps h =
    let (p, first, h1) = bind-ok (decode_output j desktops read) _ h in
    let (ps', others, h2) = bind-ok (decode_output_list rest desktops (p ∷ read)) _ h1 in
    let same : ps ≡ p ∷ ps' = cc in
    let (resolves, joins) = decode_output-Resolves j desktops read {p = p} first in
    let (all_resolve, all_join, long) =
      decode_output_list-AllJoin rest desktops (p ∷ read) ps' others in
    (rw same (resolves, all_resolve), rw same (joins, all_join), rw same (ap suc long))

AllJoin-names :
    (p : OutputProjection) (ps read : List OutputProjection)
    → ((q : OutputProjection) → Joins q read → list_eq p.name q.name ≡ false)
    → AllJoin ps read
    → All (λ q. list_eq p.name q.name ≡ false) ps
AllJoin-names p [] read g h = tt
AllJoin-names p (q ∷ rest) read g h = (
  g q h.0,
  AllJoin-names p rest (q ∷ read) (λ x j. g x (ground (arith, j.0), ground (arith, j.1))) h.1,
)

AllJoin-DistinctNames : (ps read : List OutputProjection) → AllJoin ps read → DistinctNames ps
AllJoin-DistinctNames [] read h = tt
AllJoin-DistinctNames (p ∷ rest) read h = (
  AllJoin-names p rest (p ∷ read) (λ q j. ground (arith, j.0)) h.1,
  AllJoin-DistinctNames rest (p ∷ read) h.1,
)

AllJoin-transients :
    (ps read : List OutputProjection)
    → AllJoin ps read
    → transients ps ≤ (if any (λ q. q.show_transient) read then 0 else 1)
AllJoin-transients [] read h = omega arith
AllJoin-transients (p ∷ rest) read h = ground (arith, AllJoin-transients rest (p ∷ read) h.1, h.0.1)

pub record ValidOutputs (desktops : List Desktop) (ps : List OutputProjection) : Type 0 where
  pub some_output : 0 < length ps
  pub not_too_many : length ps ≤ maximum_output_count
  pub resolve : All (Resolves desktops) ps
  pub distinct : DistinctNames ps
  pub one_feedback : transients ps ≤ 1

-- The outputs that decodeOutputs returns number from 1 to 64 and have distinct names; the current
-- desktop of each is one of the desktops, and at most one asks for feedback.
pub decode_outputs-ValidOutputs :
    (j : Json) (desktops : List Desktop) (ps : List OutputProjection)
    → decode_outputs j desktops ≡ ok ps
    → ValidOutputs desktops ps
unfolding decode_outputs
decode_outputs-ValidOutputs (array items) desktops ps h =
    let entries = to_list items in
    let (bounds, h1) = guard-ok (out_of_bounds (length entries) maximum_output_count) _ _ h in
    let (resolve, join, long) = decode_output_list-AllJoin entries desktops [] ps h1 in
    record {
      some_output = ground (arith, bounds, long);
      not_too_many = ground (arith, bounds, long);
      resolve = resolve;
      distinct = AllJoin-DistinctNames ps [] join;
      one_feedback = AllJoin-transients ps [] join;
    }
decode_outputs-ValidOutputs _ desktops ps h = absurd (cc)
