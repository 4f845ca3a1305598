-- ===== src/Audio/Protocol/Schema.antt =====
-- The requests of the audio protocol: their numbers, their objects, and the commands that they stand for;
-- and what the readers of single values accept.
use nagi_shell.Prelude.{
  ℕ, ◌≤◌, ◌<◌, ◌≡◌, refl, sym, ap, subst, ◌⊎◌, inl, inr, Bool, true, some, List, All, list_eq,
  list_eq_sound, arith, Bool-cases,
}
use nagi_shell.Prelude.Int.{pos}
use nagi_shell.Notifications.Text.{QString, literal}
use nagi_shell.Json.{
  Json, Double, integral, bool, double, string, Fields, end, field, value, has_exact_keys, is_bool,
  is_string, string_of, bool_of,
}
use nagi_shell.Audio.Protocol.{
  Role, output, input, Command, track, untrack, set_volume, set_mute, default_command, int32_max,
  parse_role, parse_unsigned, is_volume, is_double, double_of, shutdown_keys, untrack_keys,
  track_keys, volume_keys, mute_keys, role_name,
}

-- The requests of the shell.
pub data Request : Type 0 where
  shutdown_request : Request
  untrack_request : Role → ℕ → Request
  track_request : Role → ℕ → ℕ → Request
  volume_request : Role → ℕ → ℕ → ℕ → Double → Bool → Request
  mute_request : Role → ℕ → ℕ → ℕ → Bool → Request

abbrev pub IsId : ℕ → Type 0
IsId n = (0 < n) × (n ≤ int32_max)

-- Generations and request identifiers are positive, and all numbers have 31 bits.
abbrev pub InRange : Request → Type 0
InRange shutdown_request = Unit
InRange (untrack_request role generation) = IsId generation
InRange (track_request role generation node) = IsId generation × (node ≤ int32_max)
InRange (volume_request role generation node request volume final) =
    IsId generation × (node ≤ int32_max) × IsId request × (is_volume volume ≡ true)
InRange (mute_request role generation node request muted) =
    IsId generation × (node ≤ int32_max) × IsId request

abbrev pub to_command : Request → Command
to_command shutdown_request = default_command
to_command (untrack_request role generation) = record default_command {
  operation = untrack;
  role = role;
  generation = generation;
}
to_command (track_request role generation node) = record default_command {
  operation = track;
  role = role;
  generation = generation;
  node_id = node;
}
to_command (volume_request role generation node request volume final) = record default_command {
  operation = set_volume;
  role = role;
  generation = generation;
  node_id = node;
  request_id = request;
  volume = volume;
  final = final;
}
to_command (mute_request role generation node request muted) = record default_command {
  operation = set_mute;
  role = role;
  generation = generation;
  node_id = node;
  request_id = request;
  muted = muted;
}

abbrev pub number : ℕ → Json
number n = double (integral (pos n))

abbrev pub target_fields : QString → Role → ℕ → Fields → Fields
target_fields operation role generation rest = field (literal "op") (string operation) (
    field (literal "role") (string (role_name role))
      (field (literal "generation") (number generation) rest))

-- The object of a request.
abbrev pub to_fields : Request → Fields
to_fields shutdown_request = field (literal "op") (string (literal "shutdown")) end
to_fields (untrack_request role generation) = target_fields (literal "untrack") role generation end
to_fields (track_request role generation node) =
    target_fields (literal "track") role generation (field (literal "nodeId") (number node) end)
to_fields (volume_request role generation node request volume final) =
    target_fields (literal "setVolume") role generation (
      field (literal "nodeId") (number node) (
        field (literal "requestId") (number request)
          (field (literal "value") (double volume) (field (literal "final") (bool final) end))))
to_fields (mute_request role generation node request muted) =
    target_fields (literal "setMute") role generation (
      field (literal "nodeId") (number node)
        (field (literal "requestId") (number request) (field (literal "muted") (bool muted) end)))

abbrev pub keys_of : Request → List QString
keys_of shutdown_request = shutdown_keys
keys_of (untrack_request role generation) = untrack_keys
keys_of (track_request role generation node) = track_keys
keys_of (volume_request role generation node request volume final) = volume_keys
keys_of (mute_request role generation node request muted) = mute_keys

-- The object has the keys of the request, no others, and the values of the request under them.
abbrev pub Agrees : Fields → Request → Type 0
Agrees o q =
    (has_exact_keys o (keys_of q) ≡ true) × All (λ k. value k o ≡ value k (to_fields q)) (keys_of q)

-- The command is that of a request in range, which the object states.
abbrev pub Accepts : Fields → Command → Type 0
Accepts o c = (q : Request) × InRange q × Agrees o q × (c ≡ to_command q)

abbrev pub Allowed : Bool → ℕ → Type 0
Allowed allow_zero n = (n ≤ int32_max) × ((allow_zero ≡ true) ⊎ (0 < n))

pub parse_unsigned-ok :
    (j : Json) (allow_zero : Bool) {n : ℕ}
    → parse_unsigned j allow_zero ≡ some n
    → (j ≡ number n) × Allowed allow_zero n
unfolding parse_unsigned
parse_unsigned-ok (double (integral (pos m))) allow_zero {n} h =
    let same : m ≡ n = ground arith in (ap number same, (ground arith, ground arith))
parse_unsigned-ok _ allow_zero h = absurd (cc)

pub parse_role-ok : (j : Json) {r : Role} → parse_role j ≡ some r → j ≡ string (role_name r)
unfolding parse_role role_name
parse_role-ok (string s) {r} h = elim (Bool-cases (list_eq s (literal "output"))) [
  | inl e ↦
      let same : r ≡ output = ground arith in
      subst (λ t. string s ≡ string (role_name t)) (sym same) (ap string (list_eq_sound s _ e))
  | inr e ↦ elim (Bool-cases (list_eq s (literal "input"))) [
    | inl f ↦
        let same : r ≡ input = ground arith in
        subst (λ t. string s ≡ string (role_name t)) (sym same) (ap string (list_eq_sound s _ f))
    | inr f ↦ absurd (ground arith)
  ]
]
parse_role-ok _ h = absurd (cc)

pub is_string-string_of :
    (j : Json) (t : QString) → is_string j ≡ true → list_eq (string_of j) t ≡ true → j ≡ string t
is_string-string_of (string s) t h e = ap string (list_eq_sound s t e)
is_string-string_of _ t h e = absurd (cc)

pub is_double-double_of : (j : Json) → is_double j ≡ true → j ≡ double (double_of j)
is_double-double_of (double d) h = refl
is_double-double_of _ h = absurd (cc)

pub is_bool-bool_of : (j : Json) → is_bool j ≡ true → j ≡ bool (bool_of j)
is_bool-bool_of (bool b) h = refl
is_bool-bool_of _ h = absurd (cc)
