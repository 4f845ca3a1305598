-- ===== src/Settings/Files/Atomic.antt =====
-- What writeAtomic leaves: what was there, or the whole new content under the name.
use nagi_shell.Prelude.{
  ◌≡◌, refl, subst, ◌⊎◌, inl, Bool, true, false, not, ◌&&◌, ◌||◌, arith, if_ind,
}
use nagi_shell.Settings.Disk.{Bytes, Name, Entries, regular, Disk, put, call, rest_of}
use nagi_shell.Settings.Disk.Transfers.{transfer-moved}
use nagi_shell.Settings.Files.{
  stage, fill_staged, newest, unlink_staged, link_staged, install_no_replace, install, replace_file,
  write_atomic, path_kind, is_missing, is_unsafe,
}

-- The entries are the old ones, or one name has the content and the others are the old ones.
abbrev pub Wrote : Name → Bytes → Entries → Entries → Type 0
Wrote name content e f = (f ≡ e) ⊎ (f ≡ put name (regular content) e)

-- Where the write succeeds, the name has the content.
abbrev pub Writes : Name → Bytes → Entries → Bool × Disk → Type 0
Writes name content e p =
    Wrote name content e p.1.entries × (p.0 ≡ true → p.1.entries ≡ put name (regular content) e)

stage_complete :
    (content : Bytes) (d : Disk)
    → ((stage content d).2.entries ≡ d.entries)
      × ((stage content d).0 ≡ true → newest (stage content d).2.staged ≡ content)
unfolding stage fill_staged call
stage_complete content d = ground (arith, transfer-moved (rest_of d.results) content)

unlink_staged-entries :
    (created : Bool) (d : Disk) → (unlink_staged created d).1.entries ≡ d.entries
unfolding unlink_staged call
unlink_staged-entries created d = refl

install-Writes :
    (renames no_replace : Bool) (name : Name) (d : Disk)
    → Writes name (newest d.staged) d.entries (install renames no_replace name d)
unfolding install install_no_replace link_staged unlink_staged call
install-Writes renames no_replace name d = ground arith

-- A failure that keeps the entries, or that follows a write.
Writes-failed :
    (name : Name) (content : Bytes) (e : Entries) (q : Disk)
    → Wrote name content e q.entries
    → Writes name content e (false, q)
Writes-failed name content e q w = (w, λ h. absurd (cc))

replace_file-Writes :
    (renames no_replace : Bool) (name : Name) (content : Bytes) (d : Disk)
    → Writes name content d.entries (replace_file renames no_replace name content d)
unfolding replace_file call unlink_staged
replace_file-Writes renames no_replace name content d =
    let s = stage content d in
    let i = install renames no_replace name s.2 in
    let (same, complete) = stage_complete content d in
    if_ind (Writes name content d.entries) (not s.0)
      (λ h. Writes-failed name content d.entries (unlink_staged s.1 s.2).1 (inl same))
      λ h.
        let w : Writes name content d.entries i =
          subst (λ x. Writes name x d.entries i) (complete (ground (arith, h)))
            (subst (λ x. Writes name (newest s.2.staged) x i) same
              (install-Writes renames no_replace name s.2)) in
        if_ind (Writes name content d.entries) (not i.0)
          (λ k. Writes-failed name content d.entries (unlink_staged true i.1).1 w.0)
          λ k. (w.0, λ l. w.1 (ground (arith, k)))

pub write_atomic-Writes :
    (renames no_replace : Bool) (name : Name) (content : Bytes) (d : Disk)
    → Writes name content d.entries (write_atomic renames no_replace name content d)
unfolding write_atomic path_kind call
write_atomic-Writes renames no_replace name content d =
    let (kind, d1) = path_kind name d in
    if_ind (Writes name content d.entries) (is_unsafe kind || no_replace && not (is_missing kind))
      (λ h. Writes-failed name content d.entries d1 (inl refl))
      λ h. replace_file-Writes renames no_replace name content d1

-- Whatever fails, the file of the name is the old one or has the new content, all of it, and the other
-- files are the old ones.
pub write_atomic-Wrote :
    (renames no_replace : Bool) (name : Name) (content : Bytes) (d : Disk)
    → Wrote name content d.entries (write_atomic renames no_replace name content d).1.entries
write_atomic-Wrote renames no_replace name content d =
    (write_atomic-Writes renames no_replace name content d).0
