-- ===== src/Settings/Main/Inspection.antt =====
-- src/settings/main.cpp: what the inspection prints, and that it changes the content of no file.
use nagi_shell.Prelude.{
  ◌≡◌, refl, ap, ◌∙◌, Bool, true, false, some, List, [], ◌∷◌, if◌then◌else◌, ◌⊎◌, inl, inr, map,
  All, if_ind, arith,
}
use nagi_shell.Settings.Disk.{
  Name, Entries, PathKind, missing_kind, regular_kind, unsafe_kind, Disk, call,
}
use nagi_shell.Settings.Files.{kind_of, path_kind}
use nagi_shell.Settings.Operations.{is_regular}
use nagi_shell.Settings.Main.{
  secure_kind, make_private, path_kinds, secure_regular, names, Result, inspect,
}

-- The contents are as before: of the files with a name, and of the staging files.
abbrev pub Unchanged : Disk → Disk → Type 0
Unchanged d d' = (d'.entries ≡ d.entries) × (d'.staged ≡ d.staged)

make_private-Unchanged : (name : Name) (d : Disk) → Unchanged d (make_private name d).1
unfolding make_private path_kind call
make_private-Unchanged name d = by (path_kind name d).0
  where
    secured :
        (b : Bool) (d1 : Disk) → Unchanged d d1 → Unchanged d (if b then call d1 else (false, d1)).1
    secured true d1 h = h
    secured false d1 h = h

    by : (k : PathKind) → Unchanged d (secure_kind k (path_kind name d).1).1
    by missing_kind = (refl, refl)
    by unsafe_kind = (refl, refl)
    by regular_kind = let c = call (path_kind name d).1 in secured c.0 c.1 (refl, refl)

path_kinds-Unchanged : (ns : List Name) (d : Disk) → Unchanged d (path_kinds ns d).1
unfolding path_kinds path_kind call
path_kinds-Unchanged [] d = (refl, refl)
path_kinds-Unchanged (n ∷ ns) d = path_kinds-Unchanged ns (path_kind n d).1

-- A kind that is read is that of the name's entry, or `unsafe` where the entry cannot be read.
abbrev pub Truthful : Disk → Name × PathKind → Type 0
Truthful d (name, kind) = (kind ≡ kind_of (d.entries name)) ⊎ (kind ≡ unsafe_kind)

path_kind-Truthful :
    (name : Name) (d d' : Disk) → d'.entries ≡ d.entries → Truthful d (name, (path_kind name d').0)
unfolding path_kind call
path_kind-Truthful name d d' same =
    if_ind (λ (k : PathKind). Truthful d (name, k)) (call d').0
      (λ _. inl (ap (λ (g : Entries). kind_of (g name)) same)) (λ _. inr refl)

path_kinds-Truthful :
    (ns : List Name) (d d' : Disk)
    → d'.entries ≡ d.entries
    → (map (λ (p : Name × PathKind). p.0) (path_kinds ns d').0 ≡ ns)
      × All (Truthful d) (path_kinds ns d').0
unfolding path_kinds path_kind call
path_kinds-Truthful [] d d' same = (refl, tt)
path_kinds-Truthful (n ∷ ns) d d' same =
    let later = path_kinds-Truthful ns d (path_kind n d').1 same in
    (ap (λ l. n ∷ l) later.0, (path_kind-Truthful n d d' same, later.1))

secure_regular-Unchanged :
    (kinds : List (Name × PathKind)) (d : Disk) → Unchanged d (secure_regular kinds d).1
unfolding secure_regular
secure_regular-Unchanged [] d = (refl, refl)
secure_regular-Unchanged ((name, kind) ∷ rest) d =
    let private = if is_regular kind then make_private name d else (true, d) in
    let one =
      if_ind (λ (p : Bool × Disk). Unchanged d p.1) (is_regular kind)
        (λ _. make_private-Unchanged name d) (λ _. (refl, refl)) in
    let later = secure_regular-Unchanged rest private.1 in
    if_ind (λ (p : Bool × Disk). Unchanged d p.1) private.0
      (λ _. (later.0 ∙ one.0, later.1 ∙ one.1)) (λ _. one)

-- An inspection that succeeds prints the kinds of the six names, in their order.
abbrev pub Inspected : Disk → Result → Type 0
Inspected d r =
    Unchanged d r.disk
    × ((kinds : List (Name × PathKind)) × (r.printed ≡ some kinds)
        × (map (λ (p : Name × PathKind). p.0) kinds ≡ names)
        × All (Truthful d) kinds)

pub inspect-Inspected : (d : Disk) → (inspect d).status ≡ 0 → Inspected d (inspect d)
unfolding inspect
inspect-Inspected d =
    let kinds = path_kinds names d in
    let secured = secure_regular kinds.0 kinds.1 in
    let one = path_kinds-Unchanged names d in
    let two = secure_regular-Unchanged kinds.0 kinds.1 in
    let told = path_kinds-Truthful names d d refl in
    if_ind (λ (r : Result). r.status ≡ 0 → Inspected d r) secured.0
      (λ _ _. ((two.0 ∙ one.0, two.1 ∙ one.1), (kinds.0, refl, told.0, told.1)))
      λ _ h. absurd (omega (arith, h))
