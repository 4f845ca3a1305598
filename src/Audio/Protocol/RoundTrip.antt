-- ===== src/Audio/Protocol/RoundTrip.antt =====
-- The object of a request is read as its command.
use nagi_shell.Prelude.{ℕ, ◌≤◌, ◌≡◌, refl, true, false, some, list_eq, arith}
use nagi_shell.Prelude.Result.{ok}
use nagi_shell.Json.{string, value, contains, has_exact_keys}
use nagi_shell.Audio.Protocol.{
  Role, output, input, int32_max, parse_role, parse_unsigned, parse_volume, parse_mute,
  parse_request, parse_node, parse_targeted, parse_object, role_name,
}
use nagi_shell.Audio.Protocol.Schema.{
  Request, shutdown_request, untrack_request, track_request, volume_request, mute_request, IsId,
  InRange, to_command, number, to_fields,
}

role-parsed : (r : Role) → parse_role (string (role_name r)) ≡ some r
unfolding parse_role role_name list_eq
role-parsed output = refl
role-parsed input = refl

id-parsed : (n : ℕ) → IsId n → parse_unsigned (number n) false ≡ some n
unfolding parse_unsigned
id-parsed n h = ground (arith, h)

number-parsed : (n : ℕ) → n ≤ int32_max → parse_unsigned (number n) true ≡ some n
unfolding parse_unsigned
number-parsed n h = ground (arith, h)

-- The object of every request in range is read as the command of the request.
pub parse_object-to_fields :
    (q : Request) → InRange q → parse_object (to_fields q) ≡ ok (to_command q)
unfolding parse_object parse_targeted parse_node parse_request parse_volume parse_mute value list_eq
    has_exact_keys contains
parse_object-to_fields shutdown_request r = refl
parse_object-to_fields (untrack_request role generation) r =
    rw (role-parsed role, id-parsed generation r) refl
parse_object-to_fields (track_request role generation node) r =
    rw (role-parsed role, id-parsed generation r.0, number-parsed node r.1) refl
parse_object-to_fields (volume_request role generation node request volume final) r =
    rw
      (
        role-parsed role,
        id-parsed generation r.0,
        number-parsed node r.1,
        id-parsed request r.2,
        r.3,
      )
      refl
parse_object-to_fields (mute_request role generation node request muted) r =
    rw (role-parsed role, id-parsed generation r.0, number-parsed node r.1, id-parsed request r.2)
      refl
