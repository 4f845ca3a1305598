-- ===== src/Settings/Operations/Frames.antt =====
-- Which files the parts of an operation leave alone, and what a read has found.
use nagi_shell.Prelude.{
  ℕ, ◌≡◌, refl, ap, ◌∙◌, inl, inr, Bool, true, false, not, Option, none, some, ◌==◌, arith,
  Bool-cases, if_ind,
}
use nagi_shell.Settings.Disk.{
  Bytes, Name, settings, last_good, index, Entry, Entries, missing, regular, Disk, put, call,
  succeeds, rest_of,
}
use nagi_shell.Settings.Disk.Transfers.{transfer-moved}
use nagi_shell.Settings.Files.{read_opened, read_entry, read_file, write_atomic}
use nagi_shell.Settings.Files.Atomic.{Wrote, write_atomic-Writes}
use nagi_shell.Settings.Operations.{unlink, restore_file, write_bundle, maximum_settings_bytes}

abbrev pub IsOther : Name → Name → Type 0
IsOther n name = (index n == index name) ≡ false

pub put-other : (n name : Name) (x : Entry) (e : Entries) → IsOther n name → put name x e n ≡ e n
unfolding put
put-other n name x e h = rw h refl

Wrote-other :
    (n name : Name) (content : Bytes) (e f : Entries)
    → Wrote name content e f
    → IsOther n name
    → f n ≡ e n
Wrote-other n name content e f (inl same) h = ap (λ g. g n) same
Wrote-other n name content e f (inr new) h =
    ap (λ g. g n) new ∙ put-other n name (regular content) e h

pub write_atomic-other :
    (renames no_replace : Bool) (name : Name) (content : Bytes) (d : Disk) (n : Name)
    → IsOther n name
    → (write_atomic renames no_replace name content d).1.entries n ≡ d.entries n
write_atomic-other renames no_replace name content d n h =
    Wrote-other n name content d.entries (write_atomic renames no_replace name content d).1.entries
      (write_atomic-Writes renames no_replace name content d).0 h

read_entry-entries :
    (maximum : ℕ) (e : Entry) (d : Disk) → (read_entry maximum e d).1.entries ≡ d.entries
unfolding read_entry read_opened call
read_entry-entries maximum (regular content) d = ground arith
read_entry-entries maximum _ d = refl

pub read_file-entries :
    (name : Name) (maximum : ℕ) (d : Disk) → (read_file name maximum d).1.entries ≡ d.entries
unfolding read_file call
read_file-entries name maximum d =
    if_ind (λ (p : Option Bytes × Disk). p.1.entries ≡ d.entries) (succeeds d.results)
      (λ k. read_entry-entries maximum (d.entries name) (record d { results = rest_of d.results }))
      λ k. refl

read_opened-some :
    (maximum : ℕ) (content : Bytes) (d : Disk) {c : Bytes}
    → (read_opened maximum content d).0 ≡ some c
    → content ≡ c
unfolding read_opened call
read_opened-some maximum content d {c} h =
    ground (arith, transfer-moved (rest_of (rest_of d.results)) content)

read_entry-some :
    (maximum : ℕ) (e : Entry) (d : Disk) {c : Bytes}
    → (read_entry maximum e d).0 ≡ some c
    → e ≡ regular c
unfolding read_entry
read_entry-some maximum (regular content) d h = ap regular (read_opened-some maximum content d h)
read_entry-some maximum _ d h = absurd (cc)

-- What was read is the content of the file.
pub read_file-some :
    (name : Name) (maximum : ℕ) (d : Disk) {c : Bytes}
    → (read_file name maximum d).0 ≡ some c
    → d.entries name ≡ regular c
unfolding read_file call
read_file-some name maximum d {c} h = elim (Bool-cases (succeeds d.results)) [
  | inl e ↦
      let rest = record d { results = rest_of d.results } in
      read_entry-some maximum (d.entries name) rest (ground (arith, e))
  | inr e ↦ absurd (ground arith)
]

pub restore_file-other :
    (renames : Bool) (name : Name) (o : Option Bytes) (d : Disk) (n : Name)
    → IsOther n name
    → (restore_file renames name o d).entries n ≡ d.entries n
unfolding restore_file unlink call
restore_file-other renames name none d n h =
    if_ind (λ (e : Entries). e n ≡ d.entries n) (succeeds d.results)
      (λ k. put-other n name missing d.entries h) λ k. refl
restore_file-other renames name (some content) d n h =
    write_atomic-other renames false name content d n h

pub not-false : (b : Bool) → not b ≡ false → b ≡ true
not-false true h = refl
not-false false h = absurd (cc)

module _ (renames no_replace : Bool) (content : Bytes) (d : Disk) where
  -- The disks between the steps of writeBundle.
  abbrev pub first_read : Option Bytes × Disk
  first_read = read_file settings maximum_settings_bytes d

  abbrev pub second_read : Option Bytes × Disk
  second_read = read_file last_good maximum_settings_bytes first_read.1

  abbrev pub first_write : Bool × Disk
  first_write = write_atomic renames no_replace settings content second_read.1

  abbrev pub second_write : Bool × Disk
  second_write = write_atomic renames false last_good content first_write.1

  pub reads-entries : second_read.1.entries ≡ d.entries
  reads-entries =
      read_file-entries last_good maximum_settings_bytes first_read.1
      ∙ read_file-entries settings maximum_settings_bytes d

  -- writeBundle leaves the other files alone, whether it succeeds or not.
  pub write_bundle-other :
      (n : Name)
      → IsOther n settings
      → IsOther n last_good
      → (write_bundle renames no_replace content d).1.entries n ≡ d.entries n
  unfolding write_bundle
  write_bundle-other n s l =
      let P = λ (p : Bool × Disk). p.1.entries n ≡ d.entries n in
      let d5 = restore_file renames settings first_read.0 second_write.1 in
      let k3 =
        write_atomic-other renames no_replace settings content second_read.1 n s
        ∙ ap (λ g. g n) reads-entries in
      let k4 = write_atomic-other renames false last_good content first_write.1 n l ∙ k3 in
      let k5 = restore_file-other renames settings first_read.0 second_write.1 n s ∙ k4 in
      if_ind P (not first_write.0) (λ h. k3)
        λ h.
          if_ind P second_write.0 (λ i. k4)
            λ i. restore_file-other renames last_good second_read.0 d5 n l ∙ k5

  -- Where it succeeds both files have the content.
  pub write_bundle-installed :
      (write_bundle renames no_replace content d).0 ≡ true
      → (write_bundle renames no_replace content d).1.entries
        ≡ put last_good (regular content) (put settings (regular content) d.entries)
  unfolding write_bundle
  write_bundle-installed =
      let P = λ (p : Bool × Disk).
        p.0 ≡ true
        → p.1.entries
          ≡ put last_good (regular content) (put settings (regular content) d.entries) in
      if_ind P (not first_write.0) (λ h i. absurd (cc))
        λ h.
          if_ind P second_write.0
            (λ i j.
              (write_atomic-Writes renames false last_good content first_write.1).1 i
              ∙ ap (put last_good (regular content)) (
                  (write_atomic-Writes renames no_replace settings content second_read.1).1
                    (not-false first_write.0 h)
                  ∙ ap (put settings (regular content)) reads-entries))
            λ i j. absurd (cc)
