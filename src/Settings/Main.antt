-- ===== src/Settings/Main.antt =====
-- src/settings/main.cpp: the directory's own checks, the inspection, and the program as a whole. The
-- permissions of files are not part of the directory that is modelled, so securing a file is two calls.
pub mod Inspection
pub mod Success
use nagi_shell.Prelude.{
  ℕ, suc, Bool, true, false, not, ◌&&◌, ◌||◌, Option, none, some, List, [], ◌∷◌, ◌==◌, list_eq,
  if◌then◌else◌,
}
use nagi_shell.Notifications.Text.{QString, literal}
use nagi_shell.Settings.Disk.{
  Bytes, Name, settings, last_good, legacy, migration_backup, version2_backup, invalid_backup,
  PathKind, missing_kind, regular_kind, unsafe_kind, Disk, call,
}
use nagi_shell.Settings.Files.{path_kind}
use nagi_shell.Settings.Operations.{is_regular, perform_operation}
use nagi_shell.Settings.Input.{read_standard_input, parse_size}

-- What lstat tells of the directory, and the results of chmod and mkdir.
pub data Status : Type 0 where
  no_entry no_status : Status
  entry : Bool → Bool → Status

pub data Made : Type 0 where
  made exists refused : Made

pub record Attempt : Type 0 where
  pub status : Status
  pub changes_mode : Bool
  pub makes : Made

-- ensureDirectory, over what each of its rounds finds.
unfoldable pub ensure_directory : List Attempt → Bool
ensure_directory [] = false
ensure_directory (a ∷ later) =
    let again = ensure_directory later in
    elim a.status [
      | no_status ↦ false
      | entry is_directory is_own ↦ is_directory && is_own && a.changes_mode
      | no_entry ↦ elim a.makes [ made ↦ true | exists ↦ again | refused ↦ false ]
    ]

-- makePrivate, of a path of that kind.
abbrev pub secure : Disk → Bool × Disk
secure d = let (opened, d1) = call d in if opened then call d1 else (false, d1)

abbrev pub secure_kind : PathKind → Disk → Bool × Disk
secure_kind missing_kind d = (true, d)
secure_kind unsafe_kind d = (false, d)
secure_kind regular_kind d = secure d

unfoldable pub make_private : Name → Disk → Bool × Disk
unfolding path_kind call
make_private name d = let (kind, d1) = path_kind name d in secure_kind kind d1

-- The kinds of the names, in the order in which they are read.
unfoldable pub path_kinds : List Name → Disk → List (Name × PathKind) × Disk
unfolding path_kind
path_kinds [] d = ([], d)
path_kinds (name ∷ names) d =
    let (kind, d1) = path_kind name d in
    let (kinds, d2) = path_kinds names d1 in ((name, kind) ∷ kinds, d2)

-- The condition of `inspect`: the first regular file that cannot be secured ends it.
unfoldable pub secure_regular : List (Name × PathKind) → Disk → Bool × Disk
unfolding make_private
secure_regular [] d = (true, d)
secure_regular ((name, kind) ∷ rest) d =
    let private = if is_regular kind then make_private name d else (true, d) in
    let later = secure_regular rest private.1 in if private.0 then later else (false, private.1)

abbrev pub names : List Name
names = settings ∷ last_good ∷ legacy ∷ migration_backup ∷ version2_backup ∷ invalid_backup ∷ []

-- The exit status, what is printed, and the directory.
pub record Result : Type 0 where
  pub status : ℕ
  pub printed : Option (List (Name × PathKind))
  pub disk : Disk

unfoldable pub inspect : Disk → Result
unfolding path_kinds secure_regular
inspect d =
    let kinds = path_kinds names d in
    let secured = secure_regular kinds.0 kinds.1 in
    if secured.0
    then record { status = 0; printed = some kinds.0; disk = secured.1 }
    else record { status = 1; printed = none; disk = secured.1 }

-- main, with the arguments and what the environment answers: `reads` and `input` are the standard input.
pub record Invocation : Type 0 where
  pub operation : QString
  pub directory : Bytes
  pub byte_count : Option Bytes
  pub attempts : List Attempt
  pub opens : Bool
  pub stoull : Bytes → Option (ℕ × ℕ)
  pub reads : List ℕ
  pub input : Bytes
  pub renames : Bool

abbrev pub is_absolute : Bytes → Bool
is_absolute [] = false
is_absolute (c ∷ path) = c == b'/'

abbrev pub program_fails : Disk → Result
program_fails d = record { status = 1; printed = none; disk = d }

abbrev pub finished : Bool × Disk → Result
finished (success, d) = record { status = if success then 0 else 1; printed = none; disk = d }

unfoldable pub payload : Invocation → Option Bytes
unfolding parse_size read_standard_input
payload v = elim v.byte_count [
  | none ↦ none
  | some text ↦ elim (parse_size v.stoull text) [
    | none ↦ none
    | some count ↦ read_standard_input v.reads count v.input
  ]
]

unfoldable pub main : Invocation → Disk → Result
unfolding ensure_directory inspect payload perform_operation
main v d =
    if not (is_absolute v.directory) || not (ensure_directory v.attempts) || not v.opens
    then program_fails d
    else if list_eq v.operation (literal "inspect")
    then inspect d
    else elim (payload v) [
      | none ↦ program_fails d
      | some content ↦ finished (perform_operation v.renames v.operation content d)
    ]
