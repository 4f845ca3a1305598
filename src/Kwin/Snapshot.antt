-- ===== src/Kwin/Snapshot.antt =====
-- src/kwin-virtual-desktops/desktop_snapshot.h and desktop_snapshot.cpp: the snapshot that the KWin
-- script sends, checked and brought to its canonical form. QJsonDocument::fromJson and toJson, and
-- QString::toUtf8, are parameters; each error message is a constructor.
pub mod Desktops
pub mod Publication
pub mod Outputs
pub mod RoundTrip
pub mod Canonical
use nagi_shell.Prelude.{
  ℕ, zero, suc, ◌+◌, ◌<◌, ◌^◌, Bool, true, false, not, ◌&&◌, ◌||◌, Option, none, some, List, [],
  ◌∷◌, ◌++◌, ltb, leb, ◌==◌, if◌then◌else◌, length, map, any, all, list_eq,
}
use nagi_shell.Prelude.Int.{ℤ, pos, negsuc}
use nagi_shell.Prelude.Result.{Result, ok, err, ◌>>=◌, guard}
use nagi_shell.Notifications.Text.{QString, literal}
use nagi_shell.Json.{
  Json, Double, integral, between, not_finite, undefined, bool, double, string, array, object,
  Items, Fields, nil, cons, end, field, to_list, of_list, value, has_exact_keys, is_bool, string_of,
  bool_of,
}

abbrev pub snapshot_protocol_version : ℕ
snapshot_protocol_version = 2

abbrev pub maximum_snapshot_length : ℕ
maximum_snapshot_length = 65536

abbrev pub maximum_desktop_count : ℕ
maximum_desktop_count = 256

abbrev pub maximum_desktop_id_length : ℕ
maximum_desktop_id_length = 1024

abbrev pub maximum_desktop_name_length : ℕ
maximum_desktop_name_length = 256

abbrev pub maximum_output_count : ℕ
maximum_output_count = 64

abbrev pub maximum_output_name_length : ℕ
maximum_output_name_length = 256

abbrev pub helper_epoch_length : ℕ
helper_epoch_length = 32

pub record Desktop : Type 0 where
  pub id : QString
  pub name : QString
  pub position : ℕ

pub record OutputProjection : Type 0 where
  pub name : QString
  pub current_id : QString
  pub show_transient : Bool

pub data Error : Type 0 where
  desktop_count desktop_entry_kind desktop_entry_schema desktop_id desktop_name : Error
  desktop_position desktop_position_bounds desktop_duplicated : Error
  output_count output_entry_kind output_entry_schema output_duplicated output_unresolved : Error
  output_feedback epoch_invalid snapshot_length snapshot_byte_length snapshot_json : Error
  snapshot_schema snapshot_not_canonical canonical_length not_an_array : Error

-- validBoundedString.
unfoldable pub valid_bounded_string : Json → ℕ → Bool → Bool
valid_bounded_string (string s) maximum allow_empty =
    (allow_empty || not (length s == 0)) && leb (length s) maximum
valid_bounded_string _ maximum allow_empty = false

-- The checks of a position, in the order of the code.
unfoldable pub decode_position : Json → ℕ → Result Error ℕ
decode_position (double (integral (pos n))) count =
    if ltb n count then ok n else err desktop_position_bounds
decode_position (double d) count = err desktop_position_bounds
decode_position _ count = err desktop_position

-- One round of the loop, on what was read before.
unfoldable pub decode_desktop_object : Fields → ℕ → List Desktop → Result Error Desktop
unfolding valid_bounded_string
decode_desktop_object o count read =
    guard (not (has_exact_keys o (literal "id" ∷ literal "name" ∷ literal "position" ∷ [])))
      desktop_entry_schema
      (guard (not (valid_bounded_string (value (literal "id") o) maximum_desktop_id_length false))
        desktop_id
        (guard
          (not (valid_bounded_string (value (literal "name") o) maximum_desktop_name_length true))
          desktop_name
          (do
            position ← decode_position (value (literal "position") o) count
            let id = string_of (value (literal "id") o)
            guard (any (λ d. list_eq d.id id) read || any (λ d. d.position == position) read)
                desktop_duplicated
                (ok (record {
                  id = id;
                  name = string_of (value (literal "name") o);
                  position = position;
                })))))

unfoldable pub decode_desktop : Json → ℕ → List Desktop → Result Error Desktop
unfolding decode_desktop_object
decode_desktop (object o) count read = decode_desktop_object o count read
decode_desktop _ count read = err desktop_entry_kind

-- The loop; `read` holds the desktops that were read, the newest first, for the two sets of the code.
unfoldable pub decode_desktop_list : List Json → ℕ → List Desktop → Result Error (List Desktop)
decode_desktop_list [] count read = ok []
decode_desktop_list (entry ∷ rest) count read = do
  d ← decode_desktop entry count read
  ds ← decode_desktop_list rest count (d ∷ read)
  ok (d ∷ ds)

-- std::sort by position.
unfoldable pub insert_desktop : Desktop → List Desktop → List Desktop
insert_desktop d [] = d ∷ []
insert_desktop d (e ∷ rest) =
    if ltb d.position e.position then d ∷ e ∷ rest else e ∷ insert_desktop d rest

unfoldable pub sort_desktops : List Desktop → List Desktop
unfolding insert_desktop
sort_desktops [] = []
sort_desktops (d ∷ rest) = insert_desktop d (sort_desktops rest)

abbrev pub out_of_bounds : ℕ → ℕ → Bool
out_of_bounds n maximum = n == 0 || ltb maximum n

-- decodeDesktops.
unfoldable pub decode_desktops : Json → Result Error (List Desktop)
unfolding decode_desktop_list sort_desktops
decode_desktops (array items) =
    let entries = to_list items in
    guard (out_of_bounds (length entries) maximum_desktop_count) desktop_count
      (do ds ← decode_desktop_list entries (length entries) []; ok (sort_desktops ds))
decode_desktops _ = err not_an_array

unfoldable pub decode_output_object :
    Fields → List Desktop → List OutputProjection → Result Error OutputProjection
unfolding valid_bounded_string
decode_output_object o desktops read =
    let name = string_of (value (literal "name") o) in
    let current_id = string_of (value (literal "currentId") o) in
    let show_transient = bool_of (value (literal "showTransient") o) in
    guard
      (not (has_exact_keys o (literal "name" ∷ literal "currentId" ∷ literal "showTransient" ∷ []))
        || not (valid_bounded_string (value (literal "name") o) maximum_output_name_length false)
        || not
            (valid_bounded_string (value (literal "currentId") o) maximum_desktop_id_length false)
        || not (is_bool (value (literal "showTransient") o)))
      output_entry_schema
      (guard (any (λ p. list_eq p.name name) read) output_duplicated (
        guard (not (any (λ d. list_eq d.id current_id) desktops)) output_unresolved (
          guard (show_transient && any (λ p. p.show_transient) read) output_feedback (
            ok
              (record { name = name; current_id = current_id; show_transient = show_transient })))))

unfoldable pub decode_output :
    Json → List Desktop → List OutputProjection → Result Error OutputProjection
unfolding decode_output_object
decode_output (object o) desktops read = decode_output_object o desktops read
decode_output _ desktops read = err output_entry_kind

-- `read` holds the outputs that were read, for the set of names and for `transientSeen`.
unfoldable pub decode_output_list :
    List Json → List Desktop → List OutputProjection → Result Error (List OutputProjection)
decode_output_list [] desktops read = ok []
decode_output_list (entry ∷ rest) desktops read = do
  p ← decode_output entry desktops read
  ps ← decode_output_list rest desktops (p ∷ read)
  ok (p ∷ ps)

-- decodeOutputs, with the set of desktop identifiers as the desktops.
unfoldable pub decode_outputs : Json → List Desktop → Result Error (List OutputProjection)
unfolding decode_output_list
decode_outputs (array items) desktops =
    let entries = to_list items in
    guard (out_of_bounds (length entries) maximum_output_count) output_count
      (decode_output_list entries desktops [])
decode_outputs _ desktops = err not_an_array

abbrev pub encode_number : ℕ → Json
encode_number n = double (integral (pos n))

unfoldable pub encode_desktop : Desktop → Json
encode_desktop d = object (
    field (literal "id") (string d.id) (
      field (literal "name") (string d.name)
        (field (literal "position") (encode_number d.position) end)))

-- encodeDesktops.
unfoldable pub encode_desktops : List Desktop → Json
unfolding encode_desktop
encode_desktops ds = array (of_list (map encode_desktop ds))

unfoldable pub encode_output : OutputProjection → Json
encode_output p = object (
    field (literal "name") (string p.name) (
      field (literal "currentId") (string p.current_id)
        (field (literal "showTransient") (bool p.show_transient) end)))

-- encodeOutputs.
unfoldable pub encode_outputs : List OutputProjection → Json
unfolding encode_output
encode_outputs ps = array (of_list (map encode_output ps))

-- The object of encodeWireSnapshot, before it is printed.
unfoldable pub wire_snapshot : QString → List Desktop → List OutputProjection → Json
unfolding encode_desktops encode_outputs
wire_snapshot epoch desktops outputs = object (
    field (literal "version") (encode_number snapshot_protocol_version) (
      field (literal "helperEpoch") (string epoch) (
        field (literal "desktops") (encode_desktops desktops)
          (field (literal "outputs") (encode_outputs outputs) end))))

abbrev pub is_epoch_character : ℕ → Bool
is_epoch_character c = leb b'0' c && leb c b'9' || leb b'a' c && leb c b'f'

-- isValidHelperEpoch.
unfoldable pub is_valid_helper_epoch : QString → Bool
is_valid_helper_epoch epoch = length epoch == helper_epoch_length && all is_epoch_character epoch

-- The parts of Qt that the canonical form goes through. `from_json` is `none` on a parse error.
pub record Codec : Type 0 where
  pub to_utf8 : QString → List ℕ
  pub from_json : List ℕ → Option Json
  pub to_json : Json → List ℕ

-- encodeWireSnapshot and unavailableSnapshotJson.
unfoldable pub encode_wire_snapshot :
    Codec → QString → List Desktop → List OutputProjection → List ℕ
unfolding wire_snapshot
encode_wire_snapshot c epoch desktops outputs = c.to_json (wire_snapshot epoch desktops outputs)

unfoldable pub unavailable_snapshot_json : Codec → QString → List ℕ
unfolding encode_wire_snapshot
unavailable_snapshot_json c epoch = encode_wire_snapshot c epoch [] []

-- The snapshot of two arrays that are not both empty.
unfoldable pub canonicalize_available : Codec → QString → Items → Items → Result Error (List ℕ)
unfolding encode_wire_snapshot
canonicalize_available c epoch desktop_items output_items = do
  desktops ← decode_desktops (array desktop_items)
  outputs ← decode_outputs (array output_items) desktops
  let snapshot = encode_wire_snapshot c epoch desktops outputs
  guard (ltb maximum_snapshot_length (length snapshot)) canonical_length (ok snapshot)

unfoldable pub canonicalize_arrays : Codec → QString → Json → Json → Result Error (List ℕ)
unfolding canonicalize_available unavailable_snapshot_json
canonicalize_arrays c epoch (array nil) (array nil) = ok (unavailable_snapshot_json c epoch)
canonicalize_arrays c epoch (array nil) (array (cons p ps)) = err snapshot_not_canonical
canonicalize_arrays c epoch (array (cons d ds)) (array nil) = err snapshot_not_canonical
canonicalize_arrays c epoch (array (cons d ds)) (array (cons p ps)) =
    canonicalize_available c epoch (cons d ds) (cons p ps)
canonicalize_arrays c epoch _ _ = err snapshot_schema

unfoldable pub canonicalize_document : Codec → QString → Option Json → Result Error (List ℕ)
unfolding canonicalize_arrays
canonicalize_document c epoch (some (object o)) =
    guard (not (has_exact_keys o (literal "desktops" ∷ literal "outputs" ∷ []))) snapshot_schema
      (canonicalize_arrays c epoch (value (literal "desktops") o) (value (literal "outputs") o))
canonicalize_document c epoch _ = err snapshot_json

-- canonicalizeScriptSnapshot.
unfoldable pub canonicalize_script_snapshot : Codec → QString → QString → Result Error (List ℕ)
unfolding canonicalize_document
canonicalize_script_snapshot c payload epoch =
    guard (not (is_valid_helper_epoch epoch)) epoch_invalid (
      guard (out_of_bounds (length payload) maximum_snapshot_length) snapshot_length (
        guard (ltb maximum_snapshot_length (length (c.to_utf8 payload))) snapshot_byte_length
          (canonicalize_document c epoch (c.from_json (c.to_utf8 payload)))))

-- SnapshotDeduplicator: the last snapshot, and shouldPublish.
unfoldable pub should_publish : List ℕ → List ℕ → Bool × List ℕ
should_publish last snapshot = if list_eq snapshot last then (false, last) else (true, snapshot)
