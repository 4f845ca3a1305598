-- ===== src/Kwin/Tests.antt =====
-- src/kwin-virtual-desktops/desktop_snapshot.cpp: the snapshot on small inputs.
use nagi_shell.Prelude.{ℕ, ◌≡◌, refl, true, false, some, List, [], ◌∷◌, list_eq}
use nagi_shell.Prelude.Result.{ok}
use nagi_shell.Notifications.Text.{QString, literal}
use nagi_shell.Json.{Json, string, array, object, field, end, nil, cons, value, has_exact_keys}
use nagi_shell.Kwin.Snapshot.{
  Codec, Desktop, OutputProjection, decode_desktop, decode_position, decode_output, should_publish,
  decode_desktops, encode_desktops, decode_outputs, encode_number, encode_outputs,
  canonicalize_script_snapshot, is_valid_helper_epoch,
}
use nagi_shell.Kwin.Snapshot.Canonical.{Canonical, decode_desktops-Canonical}
use nagi_shell.Kwin.Snapshot.RoundTrip.{decode_desktops-encode_desktops}
use nagi_shell.Kwin.Snapshot.Outputs.{ValidOutputs, decode_outputs-ValidOutputs}
use nagi_shell.Kwin.Snapshot.Publication.{
  IsSnapshot, canonicalize_script_snapshot-IsSnapshot, published, Changes, latest,
  published-Changes,
}

abbrev desktop_entry : QString → QString → ℕ → Json
desktop_entry id name position = object (
    field (literal "id") (string id) (
      field (literal "name") (string name)
        (field (literal "position") (encode_number position) end)))

-- The second desktop comes first.
abbrev desktop_entries : Json
desktop_entries = array (
    cons (desktop_entry (literal "b") [] 1)
      (cons (desktop_entry (literal "a") (literal "Mail") 0) nil))

abbrev two_desktops : List Desktop
two_desktops =
    record { id = literal "a"; name = literal "Mail"; position = 0 }
    ∷ record { id = literal "b"; name = []; position = 1 }
    ∷ []

two_desktops-decoded : decode_desktops desktop_entries ≡ ok two_desktops
unfolding decode_desktops decode_desktop has_exact_keys list_eq value decode_position
two_desktops-decoded = refl

two_desktops-Canonical : Canonical two_desktops
two_desktops-Canonical = decode_desktops-Canonical desktop_entries two_desktops two_desktops-decoded

decode_desktops-encode_desktops_example :
    decode_desktops (encode_desktops two_desktops) ≡ ok two_desktops
decode_desktops-encode_desktops_example =
    decode_desktops-encode_desktops two_desktops two_desktops-Canonical

abbrev two_outputs : List OutputProjection
two_outputs =
    record { name = literal "DP-1"; current_id = literal "a"; show_transient = true }
    ∷ record { name = literal "DP-2"; current_id = literal "b"; show_transient = false }
    ∷ []

two_outputs-decoded : decode_outputs (encode_outputs two_outputs) two_desktops ≡ ok two_outputs
unfolding decode_outputs encode_outputs decode_output has_exact_keys list_eq value
two_outputs-decoded = refl

two_outputs-ValidOutputs : ValidOutputs two_desktops two_outputs
two_outputs-ValidOutputs =
    decode_outputs-ValidOutputs (encode_outputs two_outputs) two_desktops two_outputs
      two_outputs-decoded

-- A parser that reads one document, and a printer.
abbrev codec : Codec
codec = record {
  to_utf8 = λ text. text;
  from_json = λ bytes. some (
      object (
        field (literal "desktops") desktop_entries
          (field (literal "outputs") (encode_outputs two_outputs) end)));
  to_json = λ document. literal "printed";
}

abbrev epoch : QString
epoch = literal "0123456789abcdef0123456789abcdef"

abbrev payload : QString
payload = literal "the two desktops"

payload-accepted : canonicalize_script_snapshot codec payload epoch ≡ ok (literal "printed")
unfolding canonicalize_script_snapshot is_valid_helper_epoch has_exact_keys list_eq value
    decode_desktops decode_desktop decode_position decode_outputs decode_output
payload-accepted = refl

canonicalize_script_snapshot-IsSnapshot_example :
    (is_valid_helper_epoch epoch ≡ true) × IsSnapshot codec epoch (literal "printed")
canonicalize_script_snapshot-IsSnapshot_example =
    canonicalize_script_snapshot-IsSnapshot codec payload epoch (literal "printed") payload-accepted

abbrev snapshots : List (List ℕ)
snapshots = literal "x" ∷ literal "x" ∷ literal "y" ∷ []

snapshots-published : published [] snapshots ≡ literal "x" ∷ literal "y" ∷ []
unfolding published should_publish list_eq
snapshots-published = refl

published-Changes_example :
    Changes [] (published [] snapshots) × (latest [] (published [] snapshots) ≡ latest [] snapshots)
published-Changes_example = published-Changes [] snapshots
