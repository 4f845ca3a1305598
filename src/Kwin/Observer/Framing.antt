-- ===== src/Kwin/Observer/Framing.antt =====
-- The commands that are obeyed do not depend on how the input is cut into chunks.
use nagi_shell.Prelude.{
  ◌<◌, ◌≡◌, ◌⊎◌, inl, inr, refl, sym, ap, ◌∙◌, subst, Bool, true, false, not, ◌&&◌, ◌||◌, List, [],
  ◌∷◌, ◌++◌, ◌==◌, ltb, any, length, length-append, if◌then◌else◌, arith, if_ind, if_true, if_false,
}
use mathlib.Core.List.{append_assoc}
use nagi_shell.Bytes.{Bytes, split_lines}
use nagi_shell.Bytes.Leads.{lead, split_lines-lead}
use nagi_shell.Bytes.Lines.{has_newline, split_lines-append, split_lines_lem}
use nagi_shell.Kwin.Snapshot.{Codec}
use nagi_shell.Kwin.Observer.{
  Session, WorkspaceConsensusObserver, shutdown, detach_owner, retire_generation,
}
use nagi_shell.Kwin.Observer.Commands.{
  maximum_command_length, is_shutdown, handle_frame, take_line, keep_rest, consume_lines,
  read_bytes,
}

-- A line that is obeyed: not empty, not too long, and the command.
abbrev pub obeys : Codec → Bytes → Bool
obeys c line =
    not (length line == 0 || ltb maximum_command_length (length line)) && is_shutdown c line

abbrev pub feed : Session → List Bytes → WorkspaceConsensusObserver → WorkspaceConsensusObserver
feed w [] s = s
feed w (chunk ∷ chunks) s = feed w chunks (read_bytes w chunk s)

abbrev pub concat : List Bytes → Bytes
concat [] = []
concat (chunk ∷ chunks) = chunk ++ concat chunks

-- The unfinished line of the input so far, as the observer keeps it: in the buffer, or, where it is too
-- long already, as a flag.
abbrev Keeps : WorkspaceConsensusObserver → Bytes → Type 0
Keeps s p =
    (s.shutting_down ≡ false)
    × (has_newline p ≡ false)
    × (((s.discarding_command ≡ false) × (s.command_buffer ≡ p))
        ⊎ ((s.discarding_command ≡ true)
            × (s.command_buffer ≡ [])
            × (maximum_command_length < length p)))

any-append : (f : Bytes → Bool) (xs ys : List Bytes) → any f (xs ++ ys) ≡ (any f xs || any f ys)
any-append f [] ys = refl
any-append f (x ∷ xs) ys = ground (arith, any-append f xs ys)

module _ (w : Session) where
  -- Whatever is read after the shutdown.
  consume_lines-down :
      (lines : List Bytes) (rest : Bytes) (s : WorkspaceConsensusObserver)
      → s.shutting_down ≡ true
      → (consume_lines w lines rest s).shutting_down ≡ true
  unfolding consume_lines keep_rest
  consume_lines-down [] rest s down =
      ap (λ (t : WorkspaceConsensusObserver). t.shutting_down) (if_true _ _ _ down) ∙ down
  consume_lines-down (line ∷ lines) rest s down =
      ap (λ (t : WorkspaceConsensusObserver). t.shutting_down) (if_true _ _ _ down) ∙ down

  read_bytes-down :
      (x : Bytes) (s : WorkspaceConsensusObserver) → s.shutting_down ≡ true → read_bytes w x s ≡ s
  unfolding read_bytes
  read_bytes-down x s down = if_true _ _ _ down

  feed-down :
      (chunks : List Bytes) (s : WorkspaceConsensusObserver)
      → s.shutting_down ≡ true
      → (feed w chunks s).shutting_down ≡ true
  feed-down [] s down = down
  feed-down (x ∷ chunks) s down =
      feed-down chunks (read_bytes w x s)
        (ap (λ t. t.shutting_down) (read_bytes-down x s down) ∙ down)

  -- The lines held the command, and the observer is shut down; or they did not, and it goes on.
  abbrev Consumed : List Bytes → Bytes → WorkspaceConsensusObserver → Type 0
  Consumed lines rest s =
      ((any (obeys w.codec) lines ≡ true) × (s.shutting_down ≡ true))
      ⊎ ((any (obeys w.codec) lines ≡ false) × Keeps s rest)

  shutdown-down :
      (s : WorkspaceConsensusObserver)
      → s.shutting_down ≡ false
      → (shutdown w true s).shutting_down ≡ true
  unfolding shutdown detach_owner retire_generation
  shutdown-down s up = ap (λ (t : WorkspaceConsensusObserver). t.shutting_down) (if_false _ _ _ up)

  keep_rest-Keeps :
      (rest : Bytes) (s : WorkspaceConsensusObserver)
      → s.shutting_down ≡ false
      → s.discarding_command ≡ false
      → has_newline rest ≡ false
      → Keeps (keep_rest rest s) rest
  unfolding keep_rest
  keep_rest-Keeps rest s up kept plain =
      subst (λ t. Keeps t rest) (sym (if_false _ _ _ up ∙ if_false _ _ _ kept))
        (if_ind (λ t. Keeps t rest) (ltb maximum_command_length (length rest))
          (λ e. (up, plain, inr (refl, refl, ground (arith, e))))
          λ e. (up, plain, inl (kept, refl)))

  -- One round, of an observer that is not shut down.
  consume_lines-round :
      (line : Bytes) (lines : List Bytes) (rest : Bytes) (s : WorkspaceConsensusObserver)
      → s.shutting_down ≡ false
      → consume_lines w (line ∷ lines) rest s ≡ consume_lines w lines rest (take_line w line s)
  unfolding consume_lines
  consume_lines-round line lines rest s up = if_false _ _ _ up

  take_line-discards :
      (line : Bytes) (s : WorkspaceConsensusObserver)
      → s.discarding_command ≡ true
      → take_line w line s ≡ record s { discarding_command = false }
  unfolding take_line
  take_line-discards line s discards = if_true _ _ _ discards

  take_line-kept :
      (line : Bytes) (s : WorkspaceConsensusObserver)
      → s.discarding_command ≡ false
      → take_line w line s ≡ (if obeys w.codec line then shutdown w true s else s)
  unfolding take_line handle_frame
  take_line-kept line s kept =
      if_false _ _ _ kept
      ∙ two (length line == 0 || ltb maximum_command_length (length line))
          (is_shutdown w.codec line) (shutdown w true s) s
    where
      two :
          (bad e : Bool) (x y : WorkspaceConsensusObserver)
          → (if bad then y else if e then x else y) ≡ (if not bad && e then x else y)
      two true e x y = refl
      two false e x y = refl

  consume_lines-Consumed :
      (lines : List Bytes) (rest : Bytes) (s : WorkspaceConsensusObserver)
      → s.shutting_down ≡ false
      → s.discarding_command ≡ false
      → has_newline rest ≡ false
      → Consumed lines rest (consume_lines w lines rest s)
  unfolding consume_lines
  consume_lines-Consumed [] rest s up kept plain = inr (refl, keep_rest-Keeps rest s up kept plain)
  consume_lines-Consumed (line ∷ lines) rest s up kept plain =
      subst (Consumed (line ∷ lines) rest)
        (sym (
          consume_lines-round line lines rest s up
          ∙ ap (consume_lines w lines rest) (take_line-kept line s kept)))
        (by (obeys w.codec line) (consume_lines-Consumed lines rest s up kept plain))
    where
      by :
          (b : Bool)
          → Consumed lines rest (consume_lines w lines rest s)
          → (((b || any (obeys w.codec) lines) ≡ true)
              × ((consume_lines w lines rest (if b then shutdown w true s else s)).shutting_down
                  ≡ true))
            ⊎ (((b || any (obeys w.codec) lines) ≡ false)
                × Keeps (consume_lines w lines rest (if b then shutdown w true s else s)) rest)
      by true later =
          inl (refl, consume_lines-down lines rest (shutdown w true s) (shutdown-down s up))
      by false later = later

  abbrev Whole : Bytes → WorkspaceConsensusObserver → Type 0
  Whole p s = Consumed (split_lines p).lines (split_lines p).rest s

  -- A line that is too long already is skipped up to its newline.
  skip :
      (p : Bytes) (lines : List Bytes) (rest : Bytes) (s : WorkspaceConsensusObserver)
      → s.shutting_down ≡ false
      → s.discarding_command ≡ true
      → maximum_command_length < length p
      → has_newline (lead p lines rest).rest ≡ false
      → Consumed (lead p lines rest).lines (lead p lines rest).rest (consume_lines w lines rest s)
  unfolding consume_lines keep_rest
  skip p [] rest s up discards long plain = inr (
    refl,
    subst (λ t. Keeps t (p ++ rest)) (sym (if_false _ _ _ up ∙ if_true _ _ _ discards))
        (up, plain, inr (discards, refl, omega (arith, long, length-append p rest))),
  )
  skip p (line ∷ lines) rest s up discards long plain =
      subst (Consumed ((p ++ line) ∷ lines) rest)
        (sym (
          consume_lines-round line lines rest s up
          ∙ ap (consume_lines w lines rest) (take_line-discards line s discards)))
        (subst
          (λ b.
            (((b || any (obeys w.codec) lines) ≡ true)
              × ((consume_lines w lines rest
                    (record s { discarding_command = false })).shutting_down
                  ≡ true))
            ⊎ (((b || any (obeys w.codec) lines) ≡ false)
                × Keeps (consume_lines w lines rest (record s { discarding_command = false }))
                    rest))
          (sym (too_long (p ++ line) (omega (arith, long, length-append p line))))
          (consume_lines-Consumed lines rest (record s { discarding_command = false }) up refl
            plain))
    where
      too_long : (l : Bytes) → maximum_command_length < length l → obeys w.codec l ≡ false
      too_long l h = ground (arith, h)

  read_bytes-Whole :
      (p x : Bytes) (s : WorkspaceConsensusObserver) → Keeps s p → Whole (p ++ x) (read_bytes w x s)
  unfolding read_bytes
  read_bytes-Whole p x s (up, plain, inl (kept, e)) =
      subst (Whole (p ++ x)) (sym (if_false _ _ _ up)) (
        subst
          (λ b.
            Whole (p ++ x)
              (consume_lines w (split_lines (b ++ x)).lines (split_lines (b ++ x)).rest s))
          (sym e)
          (consume_lines-Consumed (split_lines (p ++ x)).lines (split_lines (p ++ x)).rest s up kept
            (split_lines_lem (p ++ x)).1.1))
  read_bytes-Whole p x s (up, plain, inr (discards, e, long)) =
      let found = split_lines x in
      let led = split_lines-lead p x plain in
      subst (Whole (p ++ x)) (sym (if_false _ _ _ up)) (
        subst
          (λ b.
            Whole (p ++ x)
              (consume_lines w (split_lines (b ++ x)).lines (split_lines (b ++ x)).rest s))
          (sym e)
          (subst (λ t. Consumed t.lines t.rest (consume_lines w found.lines found.rest s)) (sym led)
            (skip p found.lines found.rest s up discards long
              (ap (λ t. has_newline t.rest) (sym led) ∙ (split_lines_lem (p ++ x)).1.1))))

  later_lines :
      (chunks : List Bytes) (p : Bytes) (s : WorkspaceConsensusObserver)
      → Whole p s
      → (Keeps s (split_lines p).rest
          → (feed w chunks s).shutting_down
            ≡ any (obeys w.codec) (split_lines ((split_lines p).rest ++ concat chunks)).lines)
      → (feed w chunks s).shutting_down
        ≡ any (obeys w.codec) (split_lines (p ++ concat chunks)).lines
  later_lines chunks p s whole ih =
      by whole
      ∙ sym (any-append (obeys w.codec) (split_lines p).lines (split_lines later).lines)
      ∙ ap (λ u. any (obeys w.codec) u.lines) (sym (split_lines-append p (concat chunks)))
    where
      later : Bytes
      later = (split_lines p).rest ++ concat chunks

      by :
          Whole p s
          → (feed w chunks s).shutting_down ≡ (
              any (obeys w.codec) (split_lines p).lines
              || any (obeys w.codec) (split_lines later).lines)
      by (inl (e, down)) =
          feed-down chunks s down
          ∙ sym (ap (λ b. b || any (obeys w.codec) (split_lines later).lines) e)
      by (inr (e, keeps)) =
          ih keeps ∙ sym (ap (λ b. b || any (obeys w.codec) (split_lines later).lines) e)

  feed-obeys :
      (chunks : List Bytes) (p : Bytes) (s : WorkspaceConsensusObserver)
      → Keeps s p
      → (feed w chunks s).shutting_down
        ≡ any (obeys w.codec) (split_lines (p ++ concat chunks)).lines
  unfolding split_lines
  feed-obeys [] p s (up, plain, h) =
      up ∙ ap (λ t. any (obeys w.codec) t.lines) (sym (split_lines-lead p [] plain))
  feed-obeys (x ∷ chunks) p s h =
      later_lines chunks (p ++ x) (read_bytes w x s) (read_bytes-Whole p x s h)
        (feed-obeys chunks (split_lines (p ++ x)).rest (read_bytes w x s))
      ∙ ap (λ l. any (obeys w.codec) (split_lines l).lines) (append_assoc p x (concat chunks))

  -- Of a fresh input: the observer is shut down exactly when some line of the whole input, of 1 to 4096
  -- bytes, is the command, however the input is cut into chunks.
  pub feed_lem :
      (chunks : List Bytes) (s : WorkspaceConsensusObserver)
      → s.shutting_down ≡ false
      → s.discarding_command ≡ false
      → s.command_buffer ≡ []
      → (feed w chunks s).shutting_down ≡ any (obeys w.codec) (split_lines (concat chunks)).lines
  feed_lem chunks s up kept e = feed-obeys chunks [] s (up, refl, inl (kept, e))
