-- ===== src/Settings/Operations.antt =====
-- src/settings/main.cpp: the operations of the helper.
pub mod Frames
pub mod Backups
pub mod Preservation
pub mod Bundles
pub mod Success
use nagi_shell.Prelude.{
  ℕ, ◌*◌, Bool, true, false, not, ◌&&◌, ◌||◌, Option, none, some, is_some, List, [], ◌∷◌, ◌==◌, ltb,
  if◌then◌else◌, length, list_eq,
}
use nagi_shell.Notifications.Text.{QString, literal}
use nagi_shell.Settings.Disk.{
  Bytes, Name, settings, last_good, legacy, migration_backup, version2_backup, invalid_backup,
  Entry, missing, unsafe, regular, PathKind, missing_kind, regular_kind, unsafe_kind, Disk, put,
  call,
}
use nagi_shell.Settings.Files.{path_kind, kind_of, read_file, write_atomic}

abbrev pub maximum_settings_bytes : ℕ
maximum_settings_bytes = 32 * 1024

abbrev pub maximum_legacy_bytes : ℕ
maximum_legacy_bytes = 4 * 1024

-- unlinkat of a name.
unfoldable pub unlink : Name → Disk → Bool × Disk
unfolding call
unlink name d =
    let (done, d') = call d in
    (done, record d' { entries = if done then put name missing d'.entries else d'.entries })

-- restoreFile, whose result the code ignores.
unfoldable pub restore_file : Bool → Name → Option Bytes → Disk → Disk
unfolding write_atomic unlink
restore_file renames name none d = (unlink name d).1
restore_file renames name (some content) d = (write_atomic renames false name content d).1

-- writeBundle.
unfoldable pub write_bundle : Bool → Bool → Bytes → Disk → Bool × Disk
unfolding read_file write_atomic restore_file
write_bundle renames no_replace content d =
    let (old_settings, d1) = read_file settings maximum_settings_bytes d in
    let (old_last_good, d2) = read_file last_good maximum_settings_bytes d1 in
    let (written, d3) = write_atomic renames no_replace settings content d2 in
    let (kept, d4) = write_atomic renames false last_good content d3 in
    let d5 = restore_file renames settings old_settings d4 in
    if not written
    then (false, d3)
    else if kept
    then (true, d4)
    else (false, restore_file renames last_good old_last_good d5)

abbrev pub is_regular : PathKind → Bool
is_regular regular_kind = true
is_regular _ = false

-- A backup that is there must be the same.
abbrev pub is_same : Option Bytes → Bytes → Bool
is_same none content = false
is_same (some existing) content = list_eq existing content

-- backupExact, once the content of the source was read.
unfoldable pub backup_content : Bool → Bool → Name → ℕ → Bytes → Disk → Bool × Disk
unfolding path_kind read_file write_atomic
backup_content renames replace target maximum content d =
    let (kind, d1) = path_kind target d in
    let (existing, d2) = read_file target maximum d1 in
    if replace
    then write_atomic renames false target content d
    else if is_regular kind
    then (is_same existing content, d2)
    else write_atomic renames true target content d1

unfoldable pub backup_exact : Bool → Bool → Name → Name → ℕ → Disk → Bool × Disk
unfolding read_file backup_content
backup_exact renames replace source target maximum d =
    let (content, d') = read_file source maximum d in
    elim content [
      | none ↦ (false, d')
      | some bytes ↦ backup_content renames replace target maximum bytes d'
    ]

-- The operations of performOperation.
unfoldable pub remove_legacy : Disk → Bool × Disk
unfolding unlink call
remove_legacy d = let (unlinked, d1) = unlink legacy d in if unlinked then call d1 else (false, d1)

unfoldable pub migrate : Bool → Bytes → Disk → Bool × Disk
unfolding backup_exact write_bundle remove_legacy
migrate renames content d =
    let (saved, d1) = backup_exact renames false legacy migration_backup maximum_legacy_bytes d in
    let (written, d2) = write_bundle renames true content d1 in
    if not saved then (false, d1) else if not written then (false, d2) else remove_legacy d2

-- The settings are backed up under a name before they are written; upgrade and recover.
unfoldable pub rewrite : Bool → Bool → Name → Bytes → Disk → Bool × Disk
unfolding backup_exact write_bundle
rewrite renames replace target content d =
    let (saved, d1) = backup_exact renames replace settings target maximum_settings_bytes d in
    if saved then write_bundle renames false content d1 else (false, d1)

-- performOperation.
unfoldable pub perform_operation : Bool → QString → Bytes → Disk → Bool × Disk
unfolding write_bundle write_atomic migrate rewrite
perform_operation renames operation content d =
    if list_eq operation (literal "write")
    then write_bundle renames false content d
    else if list_eq operation (literal "create")
    then write_bundle renames true content d
    else if list_eq operation (literal "last-good")
    then write_atomic renames false last_good content d
    else if list_eq operation (literal "migrate")
    then migrate renames content d
    else if list_eq operation (literal "upgrade")
    then rewrite renames false version2_backup content d
    else if list_eq operation (literal "recover")
    then rewrite renames true invalid_backup content d
    else (false, d)
