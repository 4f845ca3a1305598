-- ===== src/Settings/Input/Reading.antt =====
-- What readStandardInput reads, and that it ends.
use nagi_shell.Prelude.{
  ℕ, zero, suc, ◌-◌, min, ◌≤◌, ◌<◌, ◌≡◌, refl, subst, ap, ◌∙◌, Bool, true, false, Option, none,
  some, List, [], ◌∷◌, ◌++◌, ◌==◌, ltb, if◌then◌else◌, length, length-append, take, All, arith,
  if_ind,
}
use nagi_shell.Settings.Disk.{Bytes, drop}
use nagi_shell.Settings.Operations.{maximum_settings_bytes}
use nagi_shell.Settings.Input.{put_before, read_loop, read_standard_input}

length-take-min : (n : ℕ) (xs : Bytes) → length (take n xs) ≡ min n (length xs)
length-take-min zero xs = omega arith
length-take-min (suc n) [] = omega arith
length-take-min (suc n) (x ∷ xs) = omega (arith, length-take-min n xs)

length-drop : (k : ℕ) (xs : Bytes) → length (drop k xs) ≡ length xs - k
length-drop zero xs = omega arith
length-drop (suc k) [] = omega arith
length-drop (suc k) (x ∷ xs) = omega (arith, length-drop k xs)

take-drop-take :
    (k n : ℕ) (xs : Bytes)
    → k ≤ n
    → take k xs ++ take (n - length (take k xs)) (drop (length (take k xs)) xs) ≡ take n xs
take-drop-take zero n xs h = ap (λ m. take m xs) (omega arith)
take-drop-take (suc k) zero xs h = elim (clash h) [ ]
  where
    clash : suc k ≤ zero → ⊥
    clash h = omega (arith, h)
take-drop-take (suc k) (suc n) [] h = ap (λ m. take m []) {x = suc n - 0} {y = suc n} (omega arith)
take-drop-take (suc k) (suc n) (x ∷ xs) h =
    ap (λ l. x ∷ l)
      (ap (λ m. take k xs ++ take m (drop (length (take k xs)) xs)) (omega arith)
        ∙ take-drop-take k n xs (omega (arith, h)))

-- The result of a loop: the first bytes of the input, as many as were asked for.
abbrev pub Reads : ℕ → Bytes → Bytes → Type 0
Reads n input content = (content ≡ take n input) × (length content ≡ n)

one_round :
    (m n : ℕ) (input l : Bytes)
    → m ≤ n
    → Reads (n - length (take m input)) (drop (length (take m input)) input) l
    → Reads n input (take m input ++ l)
one_round m n input l h later = (
  ap (λ t. take m input ++ t) later.0 ∙ take-drop-take m n input h,
  omega (arith, h, later.1, length-append (take m input) l, length-take-min m input),
)

read_loop-Reads :
    (results : List ℕ) (n : ℕ) (input content : Bytes)
    → read_loop results n input ≡ some content
    → Reads n input content
unfolding read_loop
read_loop-Reads results zero input content e = empty content e
  where
    empty : (c : Bytes) → some [] ≡ some c → Reads zero input c
    empty [] e = (refl, refl)
    empty (x ∷ c) e = ground (arith, e)
read_loop-Reads [] (suc n) input content e = ground (arith, e)
read_loop-Reads (k ∷ results) (suc n) input content e =
    let got = take (min k (suc n)) input in
    round (length got == 0) (read_loop results (suc n - length got) (drop (length got) input)) e
      λ l h. read_loop-Reads results (suc n - length got) (drop (length got) input) l h
  where
    clash : none ≡ some content → ⊥
    clash h = ground (arith, h)

    same : (l : Bytes) → some l ≡ some content → l ≡ content
    same l h = cc

    round :
        (b : Bool) (o : Option Bytes)
        → (if b then none else put_before (take (min k (suc n)) input) o) ≡ some content
        → ((l : Bytes)
            → o ≡ some l
            → Reads
                (suc n - length (take (min k (suc n)) input))
                (drop (length (take (min k (suc n)) input)) input)
                l)
        → Reads (suc n) input content
    round true o h later = elim (clash h) [ ]
    round false none h later = elim (clash h) [ ]
    round false (some l) h later =
        subst (Reads (suc n) input) (same (take (min k (suc n)) input ++ l) h)
          (one_round (min k (suc n)) (suc n) input l (omega arith) (later l refl))

read_loop-All :
    (results : List ℕ) (n : ℕ) (input : Bytes)
    → All (λ k. 0 < k) results
    → n ≤ length results
    → n ≤ length input
    → read_loop results n input ≡ some (take n input)
unfolding read_loop
read_loop-All results zero input works enough long = refl
read_loop-All [] (suc n) input works enough long = elim (clash enough) [ ]
  where
    clash : suc n ≤ 0 → ⊥
    clash h = omega (arith, h)
read_loop-All (k ∷ results) (suc n) input works enough long =
    let got = take (min k (suc n)) input in
    let size : length got ≡ min (min k (suc n)) (length input) =
      length-take-min (min k (suc n)) input in
    let positive : 0 < k = works.0 in
    let some_read : 0 < length got = omega (arith, size, positive, long) in
    if_ind (λ t. t ≡ some (take (suc n) input)) (length got == 0)
      (λ e. elim (clash (length got) some_read e) [ ])
      λ _.
        ap (put_before got) (
          read_loop-All results (suc n - length got) (drop (length got) input) works.1
            (omega (arith, enough, some_read))
            (omega (arith, long, length-drop (length got) input)))
        ∙ ap some (take-drop-take (min k (suc n)) (suc n) input (omega arith))
  where
    clash : (m : ℕ) → 0 < m → (m == 0) ≡ true → ⊥
    clash m h e = ground (arith, h, e)

-- What readStandardInput returns is the first bytes of the input, as many as were asked for, which are at
-- most 32768.
pub read_standard_input-Reads :
    (results : List ℕ) (byte_count : ℕ) (input content : Bytes)
    → read_standard_input results byte_count input ≡ some content
    → Reads byte_count input content × (byte_count ≤ 32768)
unfolding read_standard_input
read_standard_input-Reads results byte_count input content e =
    accepted (ltb maximum_settings_bytes byte_count) refl e
  where
    clash : none ≡ some content → ⊥
    clash h = ground (arith, h)

    within : (m : ℕ) → ltb maximum_settings_bytes m ≡ false → m ≤ 32768
    within m h = ground (arith, h)

    accepted :
        (b : Bool)
        → ltb maximum_settings_bytes byte_count ≡ b
        → (if b then none else read_loop results byte_count input) ≡ some content
        → Reads byte_count input content × (byte_count ≤ 32768)
    accepted true q h = elim (clash h) [ ]
    accepted false q h = (read_loop-Reads results byte_count input content h, within byte_count q)

-- Where every read moves a byte at least and the input holds as many bytes as are asked for, at most
-- 32768, the loop ends with a result after as many reads as there are bytes, or sooner.
pub read_standard_input-All :
    (results : List ℕ) (byte_count : ℕ) (input : Bytes)
    → All (λ k. 0 < k) results
    → byte_count ≤ length results
    → byte_count ≤ length input
    → byte_count ≤ 32768
    → read_standard_input results byte_count input ≡ some (take byte_count input)
unfolding read_standard_input
read_standard_input-All results byte_count input works enough long small =
    if_ind (λ t. t ≡ some (take byte_count input)) (ltb maximum_settings_bytes byte_count)
      (λ e. elim (clash byte_count small e) [ ])
      λ _. read_loop-All results byte_count input works enough long
  where
    clash : (m : ℕ) → m ≤ 32768 → ltb maximum_settings_bytes m ≡ true → ⊥
    clash m h e = ground (arith, h, e)
