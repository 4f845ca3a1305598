-- ===== src/Settings/Operations/Bundles.antt =====
-- src/settings/main.cpp: what writeBundle leaves of the two files that it replaces.
use nagi_shell.Prelude.{
  ◌≡◌, refl, ap, ◌∙◌, ◌⊎◌, inl, inr, Bool, false, not, Option, some, arith, if_ind,
}
use nagi_shell.Settings.Disk.{Bytes, Name, settings, last_good, regular, Disk, put}
use nagi_shell.Settings.Files.{read_file, write_atomic}
use nagi_shell.Settings.Files.Atomic.{Wrote, write_atomic-Wrote}
use nagi_shell.Settings.Operations.{restore_file, write_bundle, maximum_settings_bytes}
use nagi_shell.Settings.Operations.Frames.{
  write_atomic-other, read_file-entries, read_file-some, restore_file-other, first_read,
  second_read, first_write, second_write, reads-entries,
}

-- A file has one of two contents.
abbrev pub Either : Bytes → Bytes → Name → Disk → Type 0
Either old new name d = (d.entries name ≡ regular old) ⊎ (d.entries name ≡ regular new)

written-Either :
    (renames no_replace : Bool) (name : Name) (old new : Bytes) (d : Disk)
    → d.entries name ≡ regular old
    → Either old new name (write_atomic renames no_replace name new d).1
unfolding put
written-Either renames no_replace name old new d h =
    by (write_atomic-Wrote renames no_replace name new d)
  where
    by :
        Wrote name new d.entries (write_atomic renames no_replace name new d).1.entries
        → Either old new name (write_atomic renames no_replace name new d).1
    by (inl same) = inl (ap (λ g. g name) same ∙ h)
    by (inr new_entries) = inr (ap (λ g. g name) new_entries ∙ ground arith)

-- The old content is written again, or nothing is.
restored-Either :
    (renames : Bool) (name : Name) (old new : Bytes) (o : Option Bytes) (d : Disk)
    → o ≡ some old
    → Either old new name d
    → Either old new name (restore_file renames name o d)
unfolding restore_file put
restored-Either renames name old new o d e h =
    rw e (by (write_atomic-Wrote renames false name old d))
  where
    by :
        Wrote name old d.entries (write_atomic renames false name old d).1.entries
        → Either old new name (write_atomic renames false name old d).1
    by (inl same) = elim h [
      | inl i ↦ inl (ap (λ g. g name) same ∙ i)
      | inr i ↦ inr (ap (λ g. g name) same ∙ i)
    ]
    by (inr old_entries) = inl (ap (λ g. g name) old_entries ∙ ground arith)

same-Either :
    (old new : Bytes) (name : Name) (d d' : Disk)
    → d'.entries name ≡ d.entries name
    → Either old new name d
    → Either old new name d'
same-Either old new name d d' e (inl h) = inl (e ∙ h)
same-Either old new name d d' e (inr h) = inr (e ∙ h)

module _ (renames no_replace : Bool) (new old older : Bytes) (d : Disk)
    (first : (read_file settings maximum_settings_bytes d).0 ≡ some old)
    (second : (read_file last_good maximum_settings_bytes
        (read_file settings maximum_settings_bytes d).1).0
      ≡ some older) where
  settings-written : Either old new settings (first_write renames no_replace new d).1
  settings-written =
      written-Either renames no_replace settings old new (second_read renames no_replace new d).1 (
        ap (λ g. g settings) (reads-entries renames no_replace new d)
        ∙ read_file-some settings maximum_settings_bytes d first)

  last_good-old : (first_write renames no_replace new d).1.entries last_good ≡ regular older
  last_good-old =
      let d1 = (first_read renames no_replace new d).1 in
      write_atomic-other renames no_replace settings new (second_read renames no_replace new d).1
        last_good refl
      ∙ ap (λ g. g last_good) (read_file-entries last_good maximum_settings_bytes d1)
      ∙ read_file-some last_good maximum_settings_bytes d1 second

  last_good-written : Either older new last_good (second_write renames no_replace new d).1
  last_good-written =
      written-Either renames false last_good older new (first_write renames no_replace new d).1
        last_good-old

  -- Where both files could be read: whatever fails, and whatever is put back, each of them is the old one
  -- or has the new content; neither is missing or has a part.
  pub write_bundle-Either :
      Either old new settings (write_bundle renames no_replace new d).1
      × Either older new last_good (write_bundle renames no_replace new d).1
  unfolding write_bundle
  write_bundle-Either =
      let P = λ (p : Bool × Disk). Either old new settings p.1 × Either older new last_good p.1 in
      let w1 = first_write renames no_replace new d in
      let w2 = second_write renames no_replace new d in
      let d5 = restore_file renames settings (first_read renames no_replace new d).0 w2.1 in
      let o2 = (second_read renames no_replace new d).0 in
      let kept = write_atomic-other renames false last_good new w1.1 settings refl in
      let s2 = same-Either old new settings w1.1 w2.1 kept settings-written in
      if_ind P (not w1.0) (λ _. (settings-written, inl last_good-old))
        λ _.
          if_ind P w2.0 (λ _. (s2, last_good-written))
            λ _. (
              same-Either old new settings d5 (restore_file renames last_good o2 d5)
                  (restore_file-other renames last_good o2 d5 settings refl)
                  (restored-Either renames settings old new _ w2.1 first s2),
              restored-Either renames last_good older new o2 d5 second (
                  same-Either older new last_good w2.1 d5
                    (restore_file-other renames settings _ w2.1 last_good refl) last_good-written),
            )
