-- ===== src/Kwin/Snapshot/RoundTrip.antt =====
-- What encodeDesktops writes decodeDesktops reads back.
use nagi_shell.Prelude.{
  ℕ, suc, ◌≡◌, ◌≢◌, refl, ap, inl, inr, false, ◌||◌, List, [], ◌∷◌, ◌==◌, length, map, any, All,
  list_eq, list_eq_sound, arith, Bool-cases, length-map,
}
use nagi_shell.Prelude.Result.{ok}
use nagi_shell.Json.{Json, to_list, of_list, value, contains, has_exact_keys}
use nagi_shell.Kwin.Snapshot.{
  Desktop, valid_bounded_string, decode_position, decode_desktop, decode_desktop_list,
  insert_desktop, sort_desktops, out_of_bounds, decode_desktops, encode_desktop, encode_desktops,
  maximum_desktop_count,
}
use nagi_shell.Kwin.Snapshot.Desktops.{WellFormed}
use nagi_shell.Kwin.Snapshot.Canonical.{Apart, PairwiseApart, Consecutive, Canonical}

to_list-of_list : (js : List Json) → to_list (of_list js) ≡ js
to_list-of_list [] = refl
to_list-of_list (j ∷ rest) = ap (λ t. j ∷ t) (to_list-of_list rest)

list_eq-false : (d e : Desktop) → d.id ≢ e.id → list_eq d.id e.id ≡ false
list_eq-false d e ne = elim (Bool-cases (list_eq d.id e.id)) [
  | inl same ↦ absurd (ne (list_eq_sound d.id e.id same))
  | inr other ↦ other
]

-- No desktop of the list has what the desktop has.
unmatched :
    (d : Desktop) (read : List Desktop)
    → All (λ e. Apart e d) read
    → any (λ e. list_eq e.id d.id) read || any (λ e. e.position == d.position) read ≡ false
unmatched d [] h = refl
unmatched d (e ∷ rest) h = ground (arith, list_eq-false e d h.0.0, h.0.1, unmatched d rest h.1)

decode_encode :
    (d : Desktop) (count : ℕ) (read : List Desktop)
    → WellFormed count d
    → All (λ e. Apart e d) read
    → decode_desktop (encode_desktop d) count read ≡ ok d
unfolding decode_desktop encode_desktop value has_exact_keys contains list_eq decode_position
    valid_bounded_string
decode_encode d count read w h =
    ground (arith, unmatched d read h, w.has_id, w.id_fits, w.name_fits, w.in_range)

-- Every desktop of the list is apart from every one that was read.
abbrev AllApart : List Desktop → List Desktop → Type 0
AllApart ds read = All (λ d. All (λ e. Apart e d) read) ds

AllApart-cons :
    (d : Desktop) (ds read : List Desktop)
    → All (Apart d) ds
    → AllApart ds read
    → AllApart ds (d ∷ read)
AllApart-cons d [] read a h = tt
AllApart-cons d (e ∷ rest) read a h = ((a.0, h.0), AllApart-cons d rest read a.1 h.1)

decode_encode_list :
    (ds : List Desktop) (count : ℕ) (read : List Desktop)
    → All (WellFormed count) ds
    → PairwiseApart ds
    → AllApart ds read
    → decode_desktop_list (map encode_desktop ds) count read ≡ ok ds
unfolding decode_desktop_list
decode_encode_list [] count read w p h = refl
decode_encode_list (d ∷ rest) count read w p h =
    rw (decode_encode d count read w.0 h.0)
      (rw (decode_encode_list rest count (d ∷ read) w.1 p.1 (AllApart-cons d rest read p.0 h.1)))

sort-Consecutive : (k : ℕ) (ds : List Desktop) → Consecutive k ds → sort_desktops ds ≡ ds
unfolding sort_desktops insert_desktop
sort-Consecutive k [] c = refl
sort-Consecutive k (d ∷ []) c = refl
sort-Consecutive k (d ∷ e ∷ rest) c =
    rw (sort-Consecutive (suc k) (e ∷ rest) c.1) (ground (arith, c.0, c.1.0))

AllApart-empty : (ds : List Desktop) → AllApart ds []
AllApart-empty [] = tt
AllApart-empty (d ∷ rest) = (tt, AllApart-empty rest)

-- Decoding what was encoded gives the desktops back, if they are canonical, which those that
-- decodeDesktops returns are.
pub decode_desktops-encode_desktops :
    (ds : List Desktop) → Canonical ds → decode_desktops (encode_desktops ds) ≡ ok ds
unfolding decode_desktops encode_desktops
decode_desktops-encode_desktops ds c =
    let long = length-map encode_desktop ds in
    let bounds : out_of_bounds (length ds) maximum_desktop_count ≡ false =
      ground (arith, c.some_desktop, c.not_too_many) in
    rw (to_list-of_list (map encode_desktop ds), long, bounds)
      (rw (decode_encode_list ds (length ds) [] c.formed c.apart (AllApart-empty ds))
        (ap ok (sort-Consecutive 0 ds c.consecutive)))
