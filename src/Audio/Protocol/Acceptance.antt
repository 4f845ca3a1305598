-- ===== src/Audio/Protocol/Acceptance.antt =====
-- What parseCommand accepts, against the description of the requests.
use nagi_shell.Prelude.{
  ℕ, ◌≤◌, ◌<◌, ◌≡◌, refl, ap, ◌∙◌, inl, inr, true, false, not, ◌||◌, Option, some, List, ltb, ◌==◌,
  if◌then◌else◌, length, list_eq, list_eq_sound, list_eq_refl, arith,
}
use nagi_shell.Prelude.Result.{ok, err, guard, require, guard-ok, require-ok, bind-ok, if-ok}
use nagi_shell.Notifications.Text.{QString, literal}
use nagi_shell.Json.{
  Json, string, object, Fields, value, has_exact_keys, is_string, string_of, bool_of,
}
use nagi_shell.Audio.Protocol.{
  Role, Command, untrack, operation_unsupported, untrack_schema, request_id_value, node_id_value,
  role_or_generation, default_command, int32_max, maximum_command_bytes, parse_role, parse_unsigned,
  is_volume, double_of, shutdown_keys, untrack_keys, track_keys, bad_volume_schema, bad_mute_schema,
  parse_volume, parse_mute, parse_request, parse_node, parse_targeted, parse_object, parse_document,
  parse_command, role_name,
}
use nagi_shell.Audio.Protocol.Schema.{
  shutdown_request, untrack_request, track_request, volume_request, mute_request, IsId, number,
  Accepts, parse_unsigned-ok, parse_role-ok, is_string-string_of, is_double-double_of,
  is_bool-bool_of,
}

module _ (o : Fields) (role : Role) (generation : ℕ) where
  -- What was read of the target.
  abbrev ReadsTarget : Type 0
  ReadsTarget =
      (value (literal "role") o ≡ string (role_name role))
      × (value (literal "generation") o ≡ number generation)
      × IsId generation

  module _ (node : ℕ) where
    abbrev ReadsNode : Type 0
    ReadsNode = (value (literal "nodeId") o ≡ number node) × (node ≤ int32_max)

    abbrev targeting : Command
    targeting = record default_command { role = role; generation = generation; node_id = node }

    module _ (request : ℕ) where
      abbrev ReadsRequest : Type 0
      ReadsRequest = (value (literal "requestId") o ≡ number request) × IsId request

      abbrev requesting : Command
      requesting = record targeting { request_id = request }

      parse_volume-Accepts :
          {c : Command}
          → ReadsTarget
          → ReadsNode
          → ReadsRequest
          → value (literal "op") o ≡ string (literal "setVolume")
          → parse_volume o requesting ≡ ok c
          → Accepts o c
      unfolding parse_volume value list_eq
      parse_volume-Accepts {c} t n q op h =
          let volume = double_of (value (literal "value") o) in
          let (form, h1) = guard-ok (bad_volume_schema o) _ _ h in
          let (range, h2) = guard-ok (not (is_volume volume)) _ _ h1 in
          (
            volume_request role generation node request volume
                (bool_of (value (literal "final") o)),
            (t.2, n.1, q.1, ground (arith, range)),
            (
              ground (arith, form),
              (
                op,
                (
                  t.0,
                  (
                    n.0,
                    (
                      t.1,
                      (
                        q.0,
                        (
                          is_double-double_of _ (ground (arith, form)),
                          (is_bool-bool_of _ (ground (arith, form)), tt),
                        ),
                      ),
                    ),
                  ),
                ),
              ),
            ),
            cc,
          )

      parse_mute-Accepts :
          {c : Command}
          → ReadsTarget
          → ReadsNode
          → ReadsRequest
          → value (literal "op") o ≡ string (literal "setMute")
          → parse_mute o requesting ≡ ok c
          → Accepts o c
      unfolding parse_mute value list_eq
      parse_mute-Accepts {c} t n q op h =
          let (form, h1) = guard-ok (bad_mute_schema o) _ _ h in
          (
            mute_request role generation node request (bool_of (value (literal "muted") o)),
            (t.2, n.1, q.1),
            (
              ground (arith, form),
              (op, (t.0, (n.0, (t.1, (q.0, (is_bool-bool_of _ (ground (arith, form)), tt)))))),
            ),
            cc,
          )

      parse_operation-Accepts :
          {c : Command} (operation : QString)
          → value (literal "op") o ≡ string operation
          → ReadsTarget
          → ReadsNode
          → ReadsRequest
          → (if list_eq operation (literal "setVolume")
              then parse_volume o requesting
              else if list_eq operation (literal "setMute")
              then parse_mute o requesting
              else err operation_unsupported)
            ≡ ok c
          → Accepts o c
      parse_operation-Accepts operation op t n q h =
          elim (if-ok (list_eq operation (literal "setVolume")) _ _ h) [
            | inl (e, h1) ↦
                parse_volume-Accepts t n q (op ∙ ap string (list_eq_sound operation _ e)) h1
            | inr (f, h1) ↦ elim (if-ok (list_eq operation (literal "setMute")) _ _ h1) [
              | inl (e, h2) ↦
                  parse_mute-Accepts t n q (op ∙ ap string (list_eq_sound operation _ e)) h2
              | inr (g, h2) ↦ absurd (cc)
            ]
          ]

    parse_request-Accepts :
        {c : Command} (operation : QString)
        → value (literal "op") o ≡ string operation
        → ReadsTarget
        → ReadsNode
        → parse_request operation o targeting ≡ ok c
        → Accepts o c
    unfolding parse_request
    parse_request-Accepts operation op t n h =
        let j = value (literal "requestId") o in
        let (request, read, h1) = bind-ok (require (parse_unsigned j false) request_id_value) _ h in
        let (same, allowed) = parse_unsigned-ok j false (require-ok _ _ read) in
        parse_operation-Accepts request operation op t n (same, ground (arith, allowed)) h1

  parse_node-Accepts :
      {c : Command} (operation : QString)
      → value (literal "op") o ≡ string operation
      → ReadsTarget
      → parse_node operation o (record default_command { role = role; generation = generation })
        ≡ ok c
      → Accepts o c
  unfolding parse_node value list_eq
  parse_node-Accepts operation op t h =
      let j = value (literal "nodeId") o in
      let (node, read, h1) = bind-ok (require (parse_unsigned j true) node_id_value) _ h in
      let (same, allowed) = parse_unsigned-ok j true (require-ok _ _ read) in
      elim (if-ok (list_eq operation (literal "track")) _ _ h1) [
        | inl (e, h2) ↦
            let (form, h3) = guard-ok (not (has_exact_keys o track_keys)) _ _ h2 in
            (
              track_request role generation node,
              (t.2, allowed.0),
              (
                ground (arith, form),
                (op ∙ ap string (list_eq_sound operation _ e), (t.0, (same, (t.1, tt)))),
              ),
              cc,
            )
        | inr (f, h2) ↦ parse_request-Accepts node operation op t (same, allowed.0) h2
      ]

  parse_generation-Accepts :
      {c : Command} (operation : QString)
      → value (literal "op") o ≡ string operation
      → ReadsTarget
      → (if list_eq operation (literal "untrack")
          then guard (not (has_exact_keys o untrack_keys)) untrack_schema (
              ok (record default_command {
                operation = untrack;
                role = role;
                generation = generation;
              }))
          else parse_node operation o
              (record default_command { role = role; generation = generation }))
        ≡ ok c
      → Accepts o c
  unfolding value list_eq
  parse_generation-Accepts operation op t h =
      elim (if-ok (list_eq operation (literal "untrack")) _ _ h) [
        | inl (e, h1) ↦
            let (form, h2) = guard-ok (not (has_exact_keys o untrack_keys)) _ _ h1 in
            (
              untrack_request role generation,
              t.2,
              (
                ground (arith, form),
                (op ∙ ap string (list_eq_sound operation _ e), (t.0, (t.1, tt))),
              ),
              cc,
            )
        | inr (f, h1) ↦ parse_node-Accepts operation op t h1
      ]

parse_targeted-Accepts :
    (o : Fields) {c : Command} (operation : QString)
    → value (literal "op") o ≡ string operation
    → parse_targeted operation o ≡ ok c
    → Accepts o c
unfolding parse_targeted
parse_targeted-Accepts o operation op h =
    let r = value (literal "role") o in
    let g = value (literal "generation") o in
    let (role, read, h1) = bind-ok (require (parse_role r) role_or_generation) _ h in
    let (generation, counted, h2) =
      bind-ok (require (parse_unsigned g false) role_or_generation) _ h1 in
    let (same, allowed) = parse_unsigned-ok g false (require-ok _ _ counted) in
    parse_generation-Accepts o role generation operation op
      (parse_role-ok r (require-ok _ _ read), same, ground (arith, allowed)) h2

parse_object-Accepts : (o : Fields) {c : Command} → parse_object o ≡ ok c → Accepts o c
unfolding parse_object value list_eq
parse_object-Accepts o h =
    let op = value (literal "op") o in
    let (kind, h1) = guard-ok (not (is_string op)) _ _ h in
    elim (if-ok (list_eq (string_of op) (literal "shutdown")) _ _ h1) [
      | inl (e, h2) ↦
          let (form, h3) = guard-ok (not (has_exact_keys o shutdown_keys)) _ _ h2 in
          (
            shutdown_request,
            tt,
            (ground (arith, form), (is_string-string_of op _ (ground (arith, kind)) e, tt)),
            cc,
          )
      | inr (f, h2) ↦
          parse_targeted-Accepts o (string_of op)
            (is_string-string_of op (string_of op) (ground (arith, kind))
              (list_eq_refl (string_of op)))
            h2
    ]

parse_document-Accepts :
    (j : Option Json) {c : Command}
    → parse_document j ≡ ok c
    → (o : Fields) × (j ≡ some (object o)) × Accepts o c
unfolding parse_document
parse_document-Accepts (some (object o)) h = (o, refl, parse_object-Accepts o h)
parse_document-Accepts _ h = absurd (cc)

-- A line that parseCommand accepts has 1 to 4096 bytes and holds an object; the command is that of a
-- request with numbers in range, of whose keys and values the object consists.
pub parse_command-Accepts :
    (from_json : List ℕ → Option Json) (line : List ℕ) (c : Command)
    → parse_command from_json line ≡ ok c
    → (0 < length line)
      × (length line ≤ maximum_command_bytes)
      × ((o : Fields) × (from_json line ≡ some (object o)) × Accepts o c)
unfolding parse_command
parse_command-Accepts from_json line c h =
    let (bounds, h1) =
      guard-ok (length line == 0 || ltb maximum_command_bytes (length line)) _ _ h in
    (ground (arith, bounds), ground (arith, bounds), parse_document-Accepts (from_json line) h1)
