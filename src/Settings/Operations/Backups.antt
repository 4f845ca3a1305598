-- ===== src/Settings/Operations/Backups.antt =====
-- The backups: what backupExact leaves, and what the operations that begin with it keep.
use nagi_shell.Prelude.{
  ℕ, ◌≡◌, refl, sym, ap, subst, ◌∙◌, ◌⊎◌, inl, inr, Bool, true, false, not, Option, none, some,
  list_eq_sound, arith, if_ind, option_ind,
}
use nagi_shell.Settings.Disk.{
  Bytes, Name, settings, last_good, legacy, migration_backup, Entry, Entries, missing, regular,
  Disk, put, call,
}
use nagi_shell.Settings.Files.{read_file, path_kind, write_atomic}
use nagi_shell.Settings.Files.Atomic.{write_atomic-Writes}
use nagi_shell.Settings.Operations.{
  is_regular, is_same, backup_content, backup_exact, write_bundle, remove_legacy, migrate, unlink,
  maximum_legacy_bytes,
}
use nagi_shell.Settings.Operations.Frames.{
  IsOther, write_atomic-other, read_file-entries, read_file-some, write_bundle-other,
  write_bundle-installed, not-false,
}

put_self : (name : Name) (x : Entry) (e : Entries) → put name x e name ≡ x
unfolding put
put_self name x e = ground arith

-- The backup is made, or the result says that it is not; the other files are the old ones.
abbrev pub Saves : Name → Bytes → Entries → Bool × Disk → Type 0
Saves target content e p =
    ((n : Name) → IsOther n target → p.1.entries n ≡ e n)
    × (p.0 ≡ true → p.1.entries target ≡ regular content)

write_atomic-Saves :
    (renames no_replace : Bool) (target : Name) (content : Bytes) (d : Disk)
    → Saves target content d.entries (write_atomic renames no_replace target content d)
write_atomic-Saves renames no_replace target content d = (
  write_atomic-other renames no_replace target content d,
  λ h.
      ap (λ g. g target) ((write_atomic-Writes renames no_replace target content d).1 h)
      ∙ put_self target (regular content) d.entries,
)

is_same-some : (o : Option Bytes) (content : Bytes) → is_same o content ≡ true → o ≡ some content
is_same-some none content h = absurd (cc)
is_same-some (some existing) content h = ap some (list_eq_sound existing content h)

backup_content-Saves :
    (renames replace : Bool) (target : Name) (maximum : ℕ) (content : Bytes) (d : Disk)
    → Saves target content d.entries (backup_content renames replace target maximum content d)
unfolding backup_content path_kind call
backup_content-Saves renames replace target maximum content d =
    let S = Saves target content d.entries in
    let (kind, d1) = path_kind target d in
    let (existing, d2) = read_file target maximum d1 in
    let same = read_file-entries target maximum d1 in
    if_ind S replace (λ h. write_atomic-Saves renames false target content d)
      λ h.
        if_ind S (is_regular kind)
          (λ i. (
            λ n other. ap (λ g. g n) same,
            λ j.
                ap (λ g. g target) same
                ∙ read_file-some target maximum d1 (is_same-some existing content j),
          ))
          λ i. write_atomic-Saves renames true target content d1

-- A source that is a file is the source still, and where the backup succeeds it is the target too.
pub backup_exact-Saves :
    (renames replace : Bool) (source target : Name) (maximum : ℕ) (content : Bytes) (d : Disk)
    → d.entries source ≡ regular content
    → Saves target content d.entries (backup_exact renames replace source target maximum d)
unfolding backup_exact
backup_exact-Saves renames replace source target maximum content d h =
    let r = read_file source maximum d in
    let S = Saves target content d.entries in
    let same = read_file-entries source maximum d in
    option_ind S r.0 (λ e. (λ n other. ap (λ g. g n) same, λ i. absurd (cc)))
      λ b e.
        let read : regular b ≡ regular content = sym (read_file-some source maximum d e) ∙ h in
        let p = backup_content renames replace target maximum b r.1 in
        subst (λ x. Saves target x d.entries p) (cc (read))
          (subst (λ x. Saves target b x p) same
            (backup_content-Saves renames replace target maximum b r.1))

pub backup_exact-other :
    (renames replace : Bool) (source target : Name) (maximum : ℕ) (d : Disk) (n : Name)
    → IsOther n target
    → (backup_exact renames replace source target maximum d).1.entries n ≡ d.entries n
unfolding backup_exact
backup_exact-other renames replace source target maximum d n other =
    let r = read_file source maximum d in
    let same = ap (λ g. g n) (read_file-entries source maximum d) in
    option_ind (λ (p : Bool × Disk). p.1.entries n ≡ d.entries n) r.0 (λ e. same)
      λ b e. (backup_content-Saves renames replace target maximum b r.1).0 n other ∙ same

-- The content is in one of the two files.
abbrev pub Holds : Name → Name → Bytes → Entries → Type 0
Holds n m content e = (e n ≡ regular content) ⊎ (e m ≡ regular content)

remove_legacy-other :
    (d : Disk) (n : Name) → IsOther n legacy → (remove_legacy d).1.entries n ≡ d.entries n
unfolding remove_legacy unlink call put
remove_legacy-other d n h = ground (arith, h)

remove_legacy-missing :
    (d : Disk)
    → (remove_legacy d).0 ≡ true
    → (remove_legacy d).1.entries ≡ put legacy missing d.entries
unfolding remove_legacy unlink call
remove_legacy-missing d h = ground arith

module _ (renames : Bool) (content old : Bytes) (d : Disk) where
  abbrev legacy_saved : Bool × Disk
  legacy_saved = backup_exact renames false legacy migration_backup maximum_legacy_bytes d

  abbrev migrated : Bool × Disk
  migrated = write_bundle renames true content legacy_saved.1

  legacy-Saves : d.entries legacy ≡ regular old → Saves migration_backup old d.entries legacy_saved
  legacy-Saves = backup_exact-Saves renames false legacy migration_backup maximum_legacy_bytes old d

  pub migrate-Holds :
      d.entries legacy ≡ regular old
      → Holds legacy migration_backup old (migrate renames content d).1.entries
  unfolding migrate
  migrate-Holds h =
      let H = λ (p : Bool × Disk). Holds legacy migration_backup old p.1.entries in
      let (others, done) = legacy-Saves h in
      if_ind H (not legacy_saved.0) (λ i. inl (others legacy refl ∙ h))
        λ i.
          let backup =
            write_bundle-other renames true content legacy_saved.1 migration_backup refl refl
            ∙ done (not-false legacy_saved.0 i) in
          if_ind H (not migrated.0) (λ j. inr backup)
            λ j. inr (remove_legacy-other migrated.1 migration_backup refl ∙ backup)

  -- Where the migration succeeds, the legacy file is gone, the backup has its content, and both new
  -- files have the new content.
  abbrev pub Migrated : Entries → Type 0
  Migrated e =
      (e legacy ≡ missing)
      × (e migration_backup ≡ regular old)
      × (e settings ≡ regular content)
      × (e last_good ≡ regular content)

  installed-Migrated :
      (e f g : Entries)
      → f migration_backup ≡ regular old
      → g ≡ put last_good (regular content) (put settings (regular content) f)
      → e ≡ put legacy missing g
      → Migrated e
  unfolding put
  installed-Migrated e f g h i j =
      subst Migrated (sym j)
        (subst (λ x. Migrated (put legacy missing x)) (sym i) (refl, h, refl, refl))

  pub migrate-Migrated :
      d.entries legacy ≡ regular old
      → (migrate renames content d).0 ≡ true
      → Migrated (migrate renames content d).1.entries
  unfolding migrate
  migrate-Migrated h =
      let M = λ (p : Bool × Disk). p.0 ≡ true → Migrated p.1.entries in
      let (others, done) = legacy-Saves h in
      if_ind M (not legacy_saved.0) (λ i k. absurd (cc))
        λ i.
          if_ind M (not migrated.0) (λ j k. absurd (cc))
            λ j k.
              installed-Migrated (remove_legacy migrated.1).1.entries legacy_saved.1.entries
                migrated.1.entries (done (not-false legacy_saved.0 i))
                (write_bundle-installed renames true content legacy_saved.1
                  (not-false migrated.0 j))
                (remove_legacy-missing migrated.1 k)
