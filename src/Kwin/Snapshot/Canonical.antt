-- ===== src/Kwin/Snapshot/Canonical.antt =====
-- The desktops of an accepted snapshot are canonical: their positions are 0, 1, 2 and so on.
use nagi_shell.Prelude.{
  ℕ, suc, ◌+◌, ◌≤◌, ◌<◌, ◌≡◌, ◌≢◌, refl, sym, subst, ap, ◌∙◌, inl, inr, true, false, List, [], ◌∷◌,
  ltb, length, All, list_eq, list_eq_refl, arith, Bool-cases,
}
use nagi_shell.Prelude.Result.{ok, guard-ok, bind-ok}
use nagi_shell.Json.{Json, array, to_list}
use nagi_shell.Kwin.Snapshot.{
  Desktop, decode_desktop, decode_desktop_list, insert_desktop, sort_desktops, out_of_bounds,
  decode_desktops, maximum_desktop_count,
}
use nagi_shell.Kwin.Snapshot.Desktops.{WellFormed, Differ, IsNew, decode_desktop-WellFormed}

-- Each is new when it is read.
abbrev AllNew : List Desktop → List Desktop → Type 0
AllNew [] read = Unit
AllNew (d ∷ rest) read = IsNew d read × AllNew rest (d ∷ read)

decode_desktop_list-WellFormed :
    (entries : List Json) (count : ℕ) (read : List Desktop) (ds : List Desktop)
    → decode_desktop_list entries count read ≡ ok ds
    → All (WellFormed count) ds × AllNew ds read × (length ds ≡ length entries)
unfolding decode_desktop_list
decode_desktop_list-WellFormed [] count read ds h =
    let same : ds ≡ [] = cc in (rw same tt, rw same tt, rw same refl)
decode_desktop_list-WellFormed (j ∷ rest) count read ds h =
    let (d, first, h1) = bind-ok (decode_desktop j count read) _ h in
    let (ds', others, h2) = bind-ok (decode_desktop_list rest count (d ∷ read)) _ h1 in
    let same : ds ≡ d ∷ ds' = cc in
    let (formed, new) = decode_desktop-WellFormed j count read {d = d} first in
    let (all_formed, all_new, long) =
      decode_desktop_list-WellFormed rest count (d ∷ read) ds' others in
    (rw same (formed, all_formed), rw same (new, all_new), rw same (ap suc long))

-- Two desktops with distinct identifiers and positions.
abbrev pub Apart : Desktop → Desktop → Type 0
Apart d e = (d.id ≢ e.id) × (d.position ≢ e.position)

abbrev pub PairwiseApart : List Desktop → Type 0
PairwiseApart [] = Unit
PairwiseApart (d ∷ rest) = All (Apart d) rest × PairwiseApart rest

Differ-Apart : (d e : Desktop) → Differ e d → Apart d e
Differ-Apart d e (ids, positions) = (
  λ same.
      absurd
        (true-false (sym (list_eq_refl e.id) ∙ (subst (λ t. list_eq t e.id ≡ false) same ids))),
  ground arith,
)
  where
    true-false : true ≡ false → ⊥
    true-false p = cc

AllNew-Apart :
    (d : Desktop) (ds read : List Desktop)
    → ((e : Desktop) → IsNew e read → Apart d e)
    → AllNew ds read
    → All (Apart d) ds
AllNew-Apart d [] read g n = tt
AllNew-Apart d (e ∷ rest) read g n =
    (g e n.0, AllNew-Apart d rest (e ∷ read) (λ x new. g x new.1) n.1)

AllNew-PairwiseApart : (ds read : List Desktop) → AllNew ds read → PairwiseApart ds
AllNew-PairwiseApart [] read n = tt
AllNew-PairwiseApart (d ∷ rest) read n = (
  AllNew-Apart d rest (d ∷ read) (λ e new. Differ-Apart d e new.0) n.1,
  AllNew-PairwiseApart rest (d ∷ read) n.1,
)

-- Sorting keeps what holds of each desktop, and of each two.
module _ (P : Desktop → Type 0) where
  All-insert : (d : Desktop) (ds : List Desktop) → P d → All P ds → All P (insert_desktop d ds)
  unfolding insert_desktop
  All-insert d [] p h = (p, tt)
  All-insert d (e ∷ rest) p h = elim (Bool-cases (ltb d.position e.position)) [
    | inl before ↦ rw before (p, h)
    | inr after ↦ rw after (h.0, All-insert d rest p h.1)
  ]

  All-sort : (ds : List Desktop) → All P ds → All P (sort_desktops ds)
  unfolding sort_desktops
  All-sort [] h = tt
  All-sort (d ∷ rest) h = All-insert d (sort_desktops rest) h.0 (All-sort rest h.1)

Apart-sym : (d e : Desktop) → Apart d e → Apart e d
Apart-sym d e (i, p) = ((λ s. i (sym s)), (λ s. p (sym s)))

PairwiseApart-insert :
    (d : Desktop) (ds : List Desktop)
    → All (Apart d) ds
    → PairwiseApart ds
    → PairwiseApart (insert_desktop d ds)
unfolding insert_desktop
PairwiseApart-insert d [] a p = (tt, tt)
PairwiseApart-insert d (e ∷ rest) a p = elim (Bool-cases (ltb d.position e.position)) [
  | inl before ↦ rw before (a, p)
  | inr after ↦
      rw after
        (All-insert (Apart e) d rest (Apart-sym d e a.0) p.0, PairwiseApart-insert d rest a.1 p.1)
]

PairwiseApart-sort : (ds : List Desktop) → PairwiseApart ds → PairwiseApart (sort_desktops ds)
unfolding sort_desktops
PairwiseApart-sort [] p = tt
PairwiseApart-sort (d ∷ rest) p =
    PairwiseApart-insert d (sort_desktops rest) (All-sort (Apart d) rest p.0)
      (PairwiseApart-sort rest p.1)

length-insert : (d : Desktop) (ds : List Desktop) → length (insert_desktop d ds) ≡ suc (length ds)
unfolding insert_desktop
length-insert d [] = refl
length-insert d (e ∷ rest) = ground (arith, length-insert d rest)

length-sort : (ds : List Desktop) → length (sort_desktops ds) ≡ length ds
unfolding sort_desktops
length-sort [] = refl
length-sort (d ∷ rest) = omega (arith, length-insert d (sort_desktops rest), length-sort rest)

abbrev Ascending : ℕ → List Desktop → Type 0
Ascending k [] = Unit
Ascending k (d ∷ rest) = (k ≤ d.position) × Ascending (suc d.position) rest

Ascending-insert :
    (d : Desktop) (k : ℕ) (ds : List Desktop)
    → k ≤ d.position
    → All (Apart d) ds
    → Ascending k ds
    → Ascending k (insert_desktop d ds)
unfolding insert_desktop
Ascending-insert d k [] h a s = (h, tt)
Ascending-insert d k (e ∷ rest) h a s = elim (Bool-cases (ltb d.position e.position)) [
  | inl before ↦ rw before (h, (ground arith, s.1))
  | inr after ↦
      rw after (s.0, Ascending-insert d (suc e.position) rest (ground (arith, a.0.1)) a.1 s.1)
]

Ascending-sort : (ds : List Desktop) → PairwiseApart ds → Ascending 0 (sort_desktops ds)
unfolding sort_desktops
Ascending-sort [] p = tt
Ascending-sort (d ∷ rest) p =
    Ascending-insert d 0 (sort_desktops rest) (omega arith) (All-sort (Apart d) rest p.0)
      (Ascending-sort rest p.1)

-- The positions are k, k + 1 and so on.
abbrev pub Consecutive : ℕ → List Desktop → Type 0
Consecutive k [] = Unit
Consecutive k (d ∷ rest) = (d.position ≡ k) × Consecutive (suc k) rest

Ascending-length :
    (n k : ℕ) (ds : List Desktop)
    → k ≤ n
    → All (WellFormed n) ds
    → Ascending k ds
    → k + length ds ≤ n
Ascending-length n k [] h w s = omega arith
Ascending-length n k (d ∷ rest) h w s =
    omega (arith, w.0.in_range, Ascending-length n (suc d.position) rest w.0.in_range w.1 s.1)

Ascending-Consecutive :
    (n k : ℕ) (ds : List Desktop)
    → k + length ds ≡ n
    → All (WellFormed n) ds
    → Ascending k ds
    → Consecutive k ds
Ascending-Consecutive n k [] h w s = tt
Ascending-Consecutive n k (d ∷ rest) h w s =
    let at : d.position ≡ k =
      omega (arith, Ascending-length n (suc d.position) rest w.0.in_range w.1 s.1) in
    (
      at,
      Ascending-Consecutive n (suc k) rest (omega arith) w.1
          (subst (λ t. Ascending (suc t) rest) at s.1),
    )

pub record Canonical (ds : List Desktop) : Type 0 where
  pub some_desktop : 0 < length ds
  pub not_too_many : length ds ≤ maximum_desktop_count
  pub formed : All (WellFormed (length ds)) ds
  pub apart : PairwiseApart ds
  pub consecutive : Consecutive 0 ds

sorted-Canonical :
    (ds : List Desktop)
    → out_of_bounds (length ds) maximum_desktop_count ≡ false
    → All (WellFormed (length ds)) ds
    → PairwiseApart ds
    → Canonical (sort_desktops ds)
sorted-Canonical ds b w p =
    let same = length-sort ds in
    let formed = All-sort (WellFormed (length ds)) ds w in
    record {
      some_desktop = ground (arith, same);
      not_too_many = ground (arith, same);
      formed = subst (λ n. All (WellFormed n) (sort_desktops ds)) (sym same) formed;
      apart = PairwiseApart-sort ds p;
      consecutive =
          Ascending-Consecutive (length ds) 0 (sort_desktops ds) (omega (arith, same)) formed
            (Ascending-sort ds p);
    }

-- The desktops that decodeDesktops returns number from 1 to 256, have distinct identifiers of bounded
-- length and names of bounded length, and their positions are 0, 1, 2 and so on in this order.
pub decode_desktops-Canonical :
    (j : Json) (ds : List Desktop) → decode_desktops j ≡ ok ds → Canonical ds
unfolding decode_desktops
decode_desktops-Canonical (array items) ds h =
    let entries = to_list items in
    let (bounds, h1) = guard-ok (out_of_bounds (length entries) maximum_desktop_count) _ _ h in
    let (read, decoded, h2) = bind-ok (decode_desktop_list entries (length entries) []) _ h1 in
    let (formed, new, long) =
      decode_desktop_list-WellFormed entries (length entries) [] read decoded in
    let same : ds ≡ sort_desktops read = cc in
    subst Canonical (sym same) (
      sorted-Canonical read (rw long bounds)
        (subst (λ n. All (WellFormed n) read) (sym long) formed) (AllNew-PairwiseApart read [] new))
decode_desktops-Canonical _ ds h = absurd (cc)
