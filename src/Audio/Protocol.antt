-- ===== src/Audio/Protocol.antt =====
-- src/pipewire-audio/protocol.h and protocol.cpp: the commands that the helper reads, one JSON object
-- for each line, and the classification of the nodes of Easy Effects. QJsonDocument::fromJson is a
-- parameter, which is `none` on a parse error; each error message is a constructor.
pub mod Schema
pub mod Acceptance
pub mod RoundTrip
use nagi_shell.Prelude.{
  ℕ, zero, suc, ◌^◌, ◌-◌, Bool, true, false, not, ◌&&◌, ◌||◌, Option, none, some, List, [], ◌∷◌,
  ltb, leb, ◌==◌, if◌then◌else◌, length, list_eq,
}
use nagi_shell.Prelude.Int.{ℤ, pos, negsuc}
use nagi_shell.Prelude.Result.{Result, ok, err, ◌>>=◌, guard, require}
use nagi_shell.Notifications.Text.{QString, literal}
use nagi_shell.Json.{
  Json, Double, integral, between, not_finite, double, string, bool, object, Fields, value,
  has_exact_keys, is_bool, is_string, string_of, bool_of,
}

pub data Operation : Type 0 where
  track untrack set_volume set_mute shutdown : Operation

pub data Role : Type 0 where
  output input : Role

pub data EasyEffectsInternalRole : Type 0 where
  none_role output_role input_role : EasyEffectsInternalRole

pub record Command : Type 0 where
  pub operation : Operation
  pub role : Role
  pub node_id : ℕ
  pub generation : ℕ
  pub request_id : ℕ
  pub volume : Double
  pub muted : Bool
  pub final : Bool

-- The values of the fields where nothing is read.
abbrev pub zero_double : Double
zero_double = integral (pos 0)

abbrev pub default_command : Command
default_command = record {
  operation = shutdown;
  role = output;
  node_id = 0;
  generation = 0;
  request_id = 0;
  volume = zero_double;
  muted = false;
  final = false;
}

abbrev pub maximum_command_bytes : ℕ
maximum_command_bytes = 4096

abbrev pub int32_max : ℕ
int32_max = 2 ^ 31 - 1

pub data Error : Type 0 where
  command_length command_json operation_kind shutdown_schema role_or_generation : Error
  untrack_schema node_id_value track_schema request_id_value volume_schema volume_value : Error
  mute_schema operation_unsupported : Error

-- parseRole.
unfoldable pub parse_role : Json → Option Role
parse_role (string s) =
    if list_eq s (literal "output")
    then some output
    else if list_eq s (literal "input")
    then some input
    else none
parse_role _ = none

-- parseUnsigned.
unfoldable pub parse_unsigned : Json → Bool → Option ℕ
parse_unsigned (double (integral (pos n))) allow_zero =
    if not allow_zero && n == 0 || ltb int32_max n then none else some n
parse_unsigned _ allow_zero = none

-- A finite number that is not less than 0 and not greater than 1.
unfoldable pub is_volume : Double → Bool
is_volume (integral (pos n)) = leb n 1
is_volume (integral (negsuc n)) = false
is_volume (between (pos n) k) = n == 0
is_volume (between (negsuc n) k) = false
is_volume not_finite = false

abbrev pub is_double : Json → Bool
is_double (double d) = true
is_double _ = false

-- QJsonValue::toDouble, with Qt's default.
abbrev pub double_of : Json → Double
double_of (double d) = d
double_of _ = zero_double

-- The keys of each kind of command.
abbrev pub shutdown_keys : List QString
shutdown_keys = literal "op" ∷ []

abbrev pub untrack_keys : List QString
untrack_keys = literal "op" ∷ literal "role" ∷ literal "generation" ∷ []

abbrev pub track_keys : List QString
track_keys = literal "op" ∷ literal "role" ∷ literal "nodeId" ∷ literal "generation" ∷ []

abbrev pub volume_keys : List QString
volume_keys =
    literal "op"
    ∷ literal "role"
    ∷ literal "nodeId"
    ∷ literal "generation"
    ∷ literal "requestId"
    ∷ literal "value"
    ∷ literal "final"
    ∷ []

abbrev pub mute_keys : List QString
mute_keys =
    literal "op"
    ∷ literal "role"
    ∷ literal "nodeId"
    ∷ literal "generation"
    ∷ literal "requestId"
    ∷ literal "muted"
    ∷ []

-- The schema of a setVolume or of a setMute is refused.
abbrev pub bad_volume_schema : Fields → Bool
bad_volume_schema o =
    not (has_exact_keys o volume_keys)
    || not (is_double (value (literal "value") o))
    || not (is_bool (value (literal "final") o))

abbrev pub bad_mute_schema : Fields → Bool
bad_mute_schema o = not (has_exact_keys o mute_keys) || not (is_bool (value (literal "muted") o))

-- The branch of setVolume, on the command with what was read before.
unfoldable pub parse_volume : Fields → Command → Result Error Command
parse_volume o c = guard (bad_volume_schema o) volume_schema (
    guard (not (is_volume (double_of (value (literal "value") o)))) volume_value (
      ok (record c {
        operation = set_volume;
        volume = double_of (value (literal "value") o);
        final = bool_of (value (literal "final") o);
      })))

-- The branch of setMute.
unfoldable pub parse_mute : Fields → Command → Result Error Command
parse_mute o c =
    guard (bad_mute_schema o) mute_schema
      (ok (record c { operation = set_mute; muted = bool_of (value (literal "muted") o) }))

-- From the request identifier on.
unfoldable pub parse_request : QString → Fields → Command → Result Error Command
unfolding parse_volume parse_mute
parse_request operation o c = do
  request ← require (parse_unsigned (value (literal "requestId") o) false) request_id_value
  let c' = record c { request_id = request }
  if list_eq operation (literal "setVolume")
      then parse_volume o c'
      else if list_eq operation (literal "setMute")
      then parse_mute o c'
      else err operation_unsupported

-- From the node identifier on.
unfoldable pub parse_node : QString → Fields → Command → Result Error Command
unfolding parse_request
parse_node operation o c = do
  node ← require (parse_unsigned (value (literal "nodeId") o) true) node_id_value
  let c' = record c { node_id = node }
  if list_eq operation (literal "track")
      then guard (not (has_exact_keys o track_keys)) track_schema
          (ok (record c' { operation = track }))
      else parse_request operation o c'

-- From the role on; the code reads role and generation before it tests either.
unfoldable pub parse_targeted : QString → Fields → Result Error Command
unfolding parse_node
parse_targeted operation o = do
  role ← require (parse_role (value (literal "role") o)) role_or_generation
  generation ← require (parse_unsigned (value (literal "generation") o) false) role_or_generation
  let c = record default_command { role = role; generation = generation }
  if list_eq operation (literal "untrack")
      then guard (not (has_exact_keys o untrack_keys)) untrack_schema
          (ok (record c { operation = untrack }))
      else parse_node operation o c

unfoldable pub parse_object : Fields → Result Error Command
unfolding parse_targeted
parse_object o =
    let operation = string_of (value (literal "op") o) in
    guard (not (is_string (value (literal "op") o))) operation_kind (
      if list_eq operation (literal "shutdown")
      then guard (not (has_exact_keys o shutdown_keys)) shutdown_schema (ok default_command)
      else parse_targeted operation o)

unfoldable pub parse_document : Option Json → Result Error Command
unfolding parse_object
parse_document (some (object o)) = parse_object o
parse_document _ = err command_json

-- parseCommand.
unfoldable pub parse_command : (List ℕ → Option Json) → List ℕ → Result Error Command
unfolding parse_document
parse_command from_json line =
    guard (length line == 0 || ltb maximum_command_bytes (length line)) command_length
      (parse_document (from_json line))

-- roleName and operationName.
unfoldable pub role_name : Role → QString
role_name output = literal "output"
role_name input = literal "input"

unfoldable pub operation_name : Operation → QString
operation_name track = literal "track"
operation_name untrack = literal "untrack"
operation_name set_volume = literal "volume"
operation_name set_mute = literal "mute"
operation_name shutdown = literal "shutdown"

-- classifyEasyEffectsNode.
unfoldable pub classify_easy_effects_node :
    List ℕ → List ℕ → List ℕ → List ℕ → EasyEffectsInternalRole
classify_easy_effects_node name application_id virtual_value media_class =
    if not (list_eq application_id (literal "com.github.wwmm.easyeffects"))
      || not (list_eq virtual_value (literal "true"))
    then none_role
    else if list_eq name (literal "easyeffects_sink") && list_eq media_class (literal "Audio/Sink")
    then output_role
    else if list_eq name (literal "easyeffects_source")
        && list_eq media_class (literal "Audio/Source/Virtual")
    then input_role
    else none_role
