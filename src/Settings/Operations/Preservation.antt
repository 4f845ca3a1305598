-- ===== src/Settings/Operations/Preservation.antt =====
-- What the operations preserve, whatever fails, and what they have done where they succeed.
use nagi_shell.Prelude.{
  ◌≡◌, refl, sym, subst, ◌∙◌, inl, inr, Bool, true, false, list_eq, arith, if_ind,
}
use nagi_shell.Notifications.Text.{QString, literal}
use nagi_shell.Settings.Disk.{
  Bytes, Name, settings, last_good, legacy, migration_backup, version2_backup, invalid_backup,
  Entries, missing, regular, Disk, put,
}
use nagi_shell.Settings.Operations.{
  backup_exact, write_bundle, migrate, rewrite, perform_operation, maximum_settings_bytes,
}
use nagi_shell.Settings.Operations.Frames.{
  IsOther, put-other, write_atomic-other, write_bundle-other, write_bundle-installed,
}
use nagi_shell.Settings.Operations.Backups.{
  Saves, backup_exact-Saves, backup_exact-other, Holds, migrate-Holds, migrate-Migrated,
}

module _ (renames replace : Bool) (target : Name) (content : Bytes) (d : Disk) where
  abbrev saved : Bool × Disk
  saved = backup_exact renames replace settings target maximum_settings_bytes d

  rewrite-other :
      (n : Name)
      → IsOther n settings
      → IsOther n last_good
      → IsOther n target
      → (rewrite renames replace target content d).1.entries n ≡ d.entries n
  unfolding rewrite
  rewrite-other n s l t =
      let same = backup_exact-other renames replace settings target maximum_settings_bytes d n t in
      if_ind (λ (p : Bool × Disk). p.1.entries n ≡ d.entries n) saved.0
        (λ h. write_bundle-other renames false content saved.1 n s l ∙ same) λ h. same

  module _ (old : Bytes) (h : d.entries settings ≡ regular old) (s : IsOther target settings)
      (l : IsOther target last_good) where
    settings-Saves : Saves target old d.entries saved
    settings-Saves =
        backup_exact-Saves renames replace settings target maximum_settings_bytes old d h

    rewrite-Holds : Holds settings target old (rewrite renames replace target content d).1.entries
    unfolding rewrite
    rewrite-Holds =
        let H = λ (p : Bool × Disk). Holds settings target old p.1.entries in
        if_ind H saved.0
          (λ i.
            inr (write_bundle-other renames false content saved.1 target s l ∙ settings-Saves.1 i))
          λ i. inl (settings-Saves.0 settings (ground (arith, s)) ∙ h)

    -- The backup has the old content, and both files have the new one.
    abbrev pub Rewritten : Entries → Type 0
    Rewritten e =
        (e target ≡ regular old) × (e settings ≡ regular content) × (e last_good ≡ regular content)

    installed-Rewritten :
        (e f : Entries)
        → f target ≡ regular old
        → e ≡ put last_good (regular content) (put settings (regular content) f)
        → Rewritten e
    unfolding put
    installed-Rewritten e f k i = subst Rewritten (sym i) (
      put-other target last_good (regular content) (put settings (regular content) f) l
          ∙ put-other target settings (regular content) f s
          ∙ k,
      refl,
      refl,
    )

    rewrite-Rewritten :
        (rewrite renames replace target content d).0 ≡ true
        → Rewritten (rewrite renames replace target content d).1.entries
    unfolding rewrite
    rewrite-Rewritten =
        let R = λ (p : Bool × Disk). p.0 ≡ true → Rewritten p.1.entries in
        if_ind R saved.0
          (λ i j.
            installed-Rewritten (write_bundle renames false content saved.1).1.entries
              saved.1.entries (settings-Saves.1 i)
              (write_bundle-installed renames false content saved.1 j))
          λ i j. absurd (cc)

-- An upgrade or a recovery of a settings file, whose backup has a name of its own: whatever fails, the
-- old settings are in their file or in the backup.
pub rewrite-keeps :
    (renames replace : Bool) (target : Name) (content old : Bytes) (d : Disk)
    → d.entries settings ≡ regular old
    → IsOther target settings
    → IsOther target last_good
    → Holds settings target old (rewrite renames replace target content d).1.entries
rewrite-keeps renames replace target content old d h s l =
    rewrite-Holds renames replace target content d old h s l

-- Where an upgrade or a recovery of a settings file, whose backup has a name of its own, succeeds, the
-- backup has the old settings, and the settings and the last good settings have the new content.
pub rewrite-moves :
    (renames replace : Bool) (target : Name) (content old : Bytes) (d : Disk)
    → d.entries settings ≡ regular old
    → IsOther target settings
    → IsOther target last_good
    → (rewrite renames replace target content d).0 ≡ true
    → let e = (rewrite renames replace target content d).1.entries in
      (e target ≡ regular old) × (e settings ≡ regular content) × (e last_good ≡ regular content)
rewrite-moves renames replace target content old d h s l =
    rewrite-Rewritten renames replace target content d old h s l

-- Where the migration of a legacy file succeeds, the file is gone, the backup has its content, and the
-- settings and the last good settings have the new content.
pub migrate-moves :
    (renames : Bool) (content old : Bytes) (d : Disk)
    → d.entries legacy ≡ regular old
    → (migrate renames content d).0 ≡ true
    → let e = (migrate renames content d).1.entries in
      (e legacy ≡ missing)
      × (e migration_backup ≡ regular old)
      × (e settings ≡ regular content)
      × (e last_good ≡ regular content)
migrate-moves renames content old d h = migrate-Migrated renames content old d h

-- Whatever operation is asked for, and whichever system calls fail, the content of a legacy file is
-- still in the legacy file or in its backup.
pub perform_operation-Holds :
    (renames : Bool) (operation : QString) (content old : Bytes) (d : Disk)
    → d.entries legacy ≡ regular old
    → Holds legacy migration_backup old (perform_operation renames operation content d).1.entries
unfolding perform_operation
perform_operation-Holds renames operation content old d h =
    let H = λ (p : Bool × Disk). Holds legacy migration_backup old p.1.entries in
    if_ind H (list_eq operation (literal "write"))
      (λ i. inl (write_bundle-other renames false content d legacy refl refl ∙ h))
      λ i.
        if_ind H (list_eq operation (literal "create"))
          (λ j. inl (write_bundle-other renames true content d legacy refl refl ∙ h))
          λ j.
            if_ind H (list_eq operation (literal "last-good"))
              (λ k. inl (write_atomic-other renames false last_good content d legacy refl ∙ h))
              λ k.
                if_ind H (list_eq operation (literal "migrate"))
                  (λ l. migrate-Holds renames content old d h)
                  λ l.
                    if_ind H (list_eq operation (literal "upgrade"))
                      (λ m. inl (
                        rewrite-other renames false version2_backup content d legacy refl refl refl
                        ∙ h))
                      λ m.
                        if_ind H (list_eq operation (literal "recover"))
                          (λ n. inl (
                            rewrite-other renames true invalid_backup content d legacy refl refl
                              refl
                            ∙ h))
                          λ n. inl h
