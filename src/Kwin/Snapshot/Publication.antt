-- ===== src/Kwin/Snapshot/Publication.antt =====
-- What canonicalizeScriptSnapshot accepts, and what SnapshotDeduplicator lets through.
use nagi_shell.Prelude.{
  ℕ, ◌≤◌, ◌≡◌, refl, sym, subst, ap, ◌∙◌, ◌⊎◌, inl, inr, true, false, not, Option, some, List, [],
  ◌∷◌, ltb, if◌then◌else◌, length, list_eq, list_eq_sound, arith, Bool-cases,
}
use nagi_shell.Prelude.Result.{ok, guard-ok, bind-ok}
use nagi_shell.Notifications.Text.{QString, literal}
use nagi_shell.Json.{Json, array, object, Items, nil, cons, has_exact_keys}
use nagi_shell.Kwin.Snapshot.{
  Codec, Desktop, OutputProjection, decode_desktops, decode_outputs, encode_wire_snapshot,
  unavailable_snapshot_json, canonicalize_available, canonicalize_arrays, canonicalize_document,
  canonicalize_script_snapshot, is_valid_helper_epoch, out_of_bounds, maximum_snapshot_length,
  should_publish,
}
use nagi_shell.Kwin.Snapshot.Canonical.{Canonical, decode_desktops-Canonical}
use nagi_shell.Kwin.Snapshot.Outputs.{ValidOutputs, decode_outputs-ValidOutputs}

-- The snapshot says that there is nothing, or it is the encoding of canonical desktops with valid
-- outputs, within the limit.
abbrev pub IsSnapshot : Codec → QString → List ℕ → Type 0
IsSnapshot c epoch s =
    (s ≡ unavailable_snapshot_json c epoch)
    ⊎ ((ds : List Desktop) × (ps : List OutputProjection) × Canonical ds
        × ValidOutputs ds ps
        × (s ≡ encode_wire_snapshot c epoch ds ps)
        × (length s ≤ maximum_snapshot_length))

module _ (c : Codec) (epoch : QString) (s : List ℕ) where
  canonicalize_available-IsSnapshot :
      (d p : Items) → canonicalize_available c epoch d p ≡ ok s → IsSnapshot c epoch s
  unfolding canonicalize_available
  canonicalize_available-IsSnapshot d p h =
      let (ds, decoded, h1) = bind-ok (decode_desktops (array d)) _ h in
      let (ps, outputs, h2) = bind-ok (decode_outputs (array p) ds) _ h1 in
      let (fits, h3) =
        guard-ok (ltb maximum_snapshot_length (length (encode_wire_snapshot c epoch ds ps))) _ _
          h2 in
      let same : s ≡ encode_wire_snapshot c epoch ds ps = cc in
      inr (
        ds,
        ps,
        decode_desktops-Canonical (array d) ds decoded,
        decode_outputs-ValidOutputs (array p) ds ps outputs,
        same,
        subst (λ t. length t ≤ maximum_snapshot_length) (sym same) (ground (arith, fits)),
      )

  canonicalize_arrays-IsSnapshot :
      (a b : Json) → canonicalize_arrays c epoch a b ≡ ok s → IsSnapshot c epoch s
  unfolding canonicalize_arrays
  canonicalize_arrays-IsSnapshot (array nil) (array nil) h = inl (cc)
  canonicalize_arrays-IsSnapshot (array nil) (array (cons p ps)) h = absurd (cc)
  canonicalize_arrays-IsSnapshot (array (cons d ds)) (array nil) h = absurd (cc)
  canonicalize_arrays-IsSnapshot (array (cons d ds)) (array (cons p ps)) h =
      canonicalize_available-IsSnapshot (cons d ds) (cons p ps) h
  canonicalize_arrays-IsSnapshot _ _ h = absurd (cc)

  canonicalize_document-IsSnapshot :
      (o : Option Json) → canonicalize_document c epoch o ≡ ok s → IsSnapshot c epoch s
  unfolding canonicalize_document
  canonicalize_document-IsSnapshot (some (object o)) h =
      canonicalize_arrays-IsSnapshot _ _
        (guard-ok (not (has_exact_keys o (literal "desktops" ∷ literal "outputs" ∷ []))) _ _ h).1
  canonicalize_document-IsSnapshot _ h = absurd (cc)

-- Every snapshot that is passed on carries a valid helper epoch and is either the unavailable one or
-- the encoding, within the length limit, of canonical desktops and of outputs that are valid for them.
pub canonicalize_script_snapshot-IsSnapshot :
    (c : Codec) (payload epoch : QString) (s : List ℕ)
    → canonicalize_script_snapshot c payload epoch ≡ ok s
    → (is_valid_helper_epoch epoch ≡ true) × IsSnapshot c epoch s
unfolding canonicalize_script_snapshot
canonicalize_script_snapshot-IsSnapshot c payload epoch s h =
    let (valid, h1) = guard-ok (not (is_valid_helper_epoch epoch)) _ _ h in
    let (long, h2) = guard-ok (out_of_bounds (length payload) maximum_snapshot_length) _ _ h1 in
    let (bytes, h3) = guard-ok (ltb maximum_snapshot_length (length (c.to_utf8 payload))) _ _ h2 in
    (
      ground (arith, valid),
      canonicalize_document-IsSnapshot c epoch s (c.from_json (c.to_utf8 payload)) h3,
    )

-- The snapshots that are published of a sequence, from the last one published before.
unfoldable pub published : List ℕ → List (List ℕ) → List (List ℕ)
published last [] = []
published last (s ∷ rest) =
    let later = published (should_publish last s).1 rest in
    if (should_publish last s).0 then s ∷ later else later

-- Each differs from the one before it, the first one from `last`.
abbrev pub Changes : List ℕ → List (List ℕ) → Type 0
Changes last [] = Unit
Changes last (s ∷ rest) = (list_eq s last ≡ false) × Changes s rest

-- What a reader holds after a sequence.
abbrev pub latest : List ℕ → List (List ℕ) → List ℕ
latest last [] = last
latest last (s ∷ rest) = latest s rest

-- Of any sequence of snapshots those are published that differ from the one published before, and a
-- reader of the published ones ends with the same snapshot as a reader of all.
pub published-Changes :
    (last : List ℕ) (ss : List (List ℕ))
    → Changes last (published last ss) × (latest last (published last ss) ≡ latest last ss)
unfolding published should_publish
published-Changes last [] = (tt, refl)
published-Changes last (s ∷ rest) = elim (Bool-cases (list_eq s last)) [
  | inl same ↦
      let ih = published-Changes last rest in
      rw same ((ih.0, ih.1 ∙ ap (λ t. latest t rest) (sym (list_eq_sound s last same))))
  | inr other ↦ rw other ((other, (published-Changes s rest).0), (published-Changes s rest).1)
]
