-- ===== src/Settings/Operations/Success.antt =====
-- src/settings/main.cpp: what performOperation has done where it succeeds.
use nagi_shell.Prelude.{
  ℕ, ◌≡◌, ◌⊎◌, inl, inr, refl, Bool, true, false, not, list_eq, list_eq_sound, arith, if_ind,
  option_ind,
}
use nagi_shell.Notifications.Text.{QString, literal}
use nagi_shell.Settings.Disk.{
  Bytes, Name, settings, last_good, legacy, migration_backup, version2_backup, invalid_backup,
  Entries, missing, regular, Disk, put,
}
use nagi_shell.Settings.Files.{read_file}
use nagi_shell.Settings.Files.Atomic.{write_atomic-Writes}
use nagi_shell.Settings.Operations.{
  backup_exact, migrate, rewrite, perform_operation, maximum_legacy_bytes, maximum_settings_bytes,
}
use nagi_shell.Settings.Operations.Frames.{read_file-some, write_bundle-installed}
use nagi_shell.Settings.Operations.Preservation.{rewrite-moves, migrate-moves}

-- Both files have the content, beside a backup of what was there.
abbrev pub Replaced : Name → Bytes → Bytes → Entries → Type 0
Replaced backup old content e =
    (e backup ≡ regular old) × (e settings ≡ regular content) × (e last_good ≡ regular content)

-- What each operation is to do with a content, from the files before to the files after.
pub data Performs (content : Bytes) (before after : Entries) : QString → Type 0 where
  writes :
      {operation : QString}
      → (operation ≡ literal "write") ⊎ (operation ≡ literal "create")
      → after ≡ put last_good (regular content) (put settings (regular content) before)
      → Performs content before after operation
  keeps :
      {operation : QString}
      → operation ≡ literal "last-good"
      → after ≡ put last_good (regular content) before
      → Performs content before after operation
  migrates :
      {operation : QString}
      → (old : Bytes) → operation ≡ literal "migrate"
      → before legacy ≡ regular old
      → after legacy ≡ missing
      → Replaced migration_backup old content after
      → Performs content before after operation
  upgrades :
      {operation : QString}
      → (old : Bytes) → operation ≡ literal "upgrade"
      → before settings ≡ regular old
      → Replaced version2_backup old content after
      → Performs content before after operation
  recovers :
      {operation : QString}
      → (old : Bytes) → operation ≡ literal "recover"
      → before settings ≡ regular old
      → Replaced invalid_backup old content after
      → Performs content before after operation

abbrev HasFile : Name → Entries → Type 0
HasFile name e = (old : Bytes) × (e name ≡ regular old)

backup_exact-HasFile :
    (renames replace : Bool) (source target : Name) (maximum : ℕ) (d : Disk)
    → (backup_exact renames replace source target maximum d).0 ≡ true
    → HasFile source d.entries
unfolding backup_exact
backup_exact-HasFile renames replace source target maximum d =
    option_ind (λ (p : Bool × Disk). p.0 ≡ true → HasFile source d.entries)
      (read_file source maximum d).0 (λ e i. absurd (cc))
      λ b e i. (b, read_file-some source maximum d e)

migrate-HasFile :
    (renames : Bool) (content : Bytes) (d : Disk)
    → (migrate renames content d).0 ≡ true
    → HasFile legacy d.entries
unfolding migrate
migrate-HasFile renames content d =
    let saved = backup_exact renames false legacy migration_backup maximum_legacy_bytes d in
    if_ind (λ (p : Bool × Disk). p.0 ≡ true → HasFile legacy d.entries) (not saved.0)
      (λ e i. absurd (cc))
      λ e i.
        backup_exact-HasFile renames false legacy migration_backup maximum_legacy_bytes d
          (ground (arith, e))

rewrite-HasFile :
    (renames replace : Bool) (target : Name) (content : Bytes) (d : Disk)
    → (rewrite renames replace target content d).0 ≡ true
    → HasFile settings d.entries
unfolding rewrite
rewrite-HasFile renames replace target content d =
    let saved = backup_exact renames replace settings target maximum_settings_bytes d in
    if_ind (λ (p : Bool × Disk). p.0 ≡ true → HasFile settings d.entries) saved.0
      (λ e i. backup_exact-HasFile renames replace settings target maximum_settings_bytes d e)
      λ e i. absurd (cc)

-- Where an operation succeeds, it is one of the six, and has done what that one is to do: `write` and
-- `create` put the content in both files, `last-good` in the one, and `migrate`, `upgrade` and `recover`
-- put it in both where the file that they replace was there, and is in its backup.
pub perform_operation-Performs :
    (renames : Bool) (operation : QString) (content : Bytes) (d : Disk)
    → (perform_operation renames operation content d).0 ≡ true
    → Performs content d.entries (perform_operation renames operation content d).1.entries operation
unfolding perform_operation
perform_operation-Performs renames operation content d =
    let P = λ (p : Bool × Disk). p.0 ≡ true → Performs content d.entries p.1.entries operation in
    let is =
      λ (text : QString) (e : list_eq operation text ≡ true). list_eq_sound operation text e in
    if_ind P (list_eq operation (literal "write"))
      (λ e i. writes (inl (is _ e)) (write_bundle-installed renames false content d i))
      λ _.
        if_ind P (list_eq operation (literal "create"))
          (λ e i. writes (inr (is _ e)) (write_bundle-installed renames true content d i))
          λ _.
            if_ind P (list_eq operation (literal "last-good"))
              (λ e i. keeps (is _ e) ((write_atomic-Writes renames false last_good content d).1 i))
              λ _.
                if_ind P (list_eq operation (literal "migrate"))
                  (λ e i.
                    let (old, h) = migrate-HasFile renames content d i in
                    let moved = migrate-moves renames content old d h i in
                    migrates old (is _ e) h moved.0 (moved.1, moved.2, moved.3))
                  λ _.
                    if_ind P (list_eq operation (literal "upgrade"))
                      (λ e i.
                        let (old, h) = rewrite-HasFile renames false version2_backup content d i in
                        upgrades old (is _ e) h
                          (rewrite-moves renames false version2_backup content old d h refl refl i))
                      λ _.
                        if_ind P (list_eq operation (literal "recover"))
                          (λ e i.
                            let (old, h) =
                              rewrite-HasFile renames true invalid_backup content d i in
                            recovers old (is _ e) h (
                              rewrite-moves renames true invalid_backup content old d h refl refl
                                i))
                          λ _ i. absurd (cc)
