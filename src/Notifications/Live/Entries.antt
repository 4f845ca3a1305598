-- ===== src/Notifications/Live/Entries.antt =====
-- The laws of the list that stands for `liveAssociations`.
use nagi_shell.Prelude.{
  ℕ, suc, ◌≤◌, ◌≡◌, refl, none, some, List, [], ◌∷◌, length, map, All, Descending, Descending-mono,
  arith,
}
use nagi_shell.Notifications.Types.{LiveAssociation}
use nagi_shell.Notifications.Live.{find, erase, modify}

abbrev pub sequence : LiveAssociation → ℕ
sequence a = a.live_admission_sequence

-- No two entries have one key.
abbrev pub DistinctKeys : List LiveAssociation → Type 0
DistinctKeys [] = Unit
DistinctKeys (a ∷ rest) = (find a.protocol_id rest ≡ none) × DistinctKeys rest

-- A change that keeps the key and the sequence number of an entry.
pub record KeepsEntry (f : LiveAssociation → LiveAssociation) : Type 0 where
  pub keeps_key : (a : LiveAssociation) → (f a).protocol_id ≡ a.protocol_id
  pub keeps_sequence : (a : LiveAssociation) → sequence (f a) ≡ sequence a

pub length-erase : (id : ℕ) (l : List LiveAssociation) → length (erase id l) ≤ length l
unfolding erase
length-erase id [] = omega arith
length-erase id (a ∷ rest) = ground (arith, length-erase id rest)

-- Where the key is there, one entry goes.
pub length-erase_found :
    (id : ℕ) (l : List LiveAssociation) {a : LiveAssociation}
    → find id l ≡ some a
    → suc (length (erase id l)) ≡ length l
unfolding find erase
length-erase_found id [] h = cc
length-erase_found id (b ∷ rest) {a} h = ground (arith, length-erase_found id rest {a = a})

pub length-modify :
    (id : ℕ) (f : LiveAssociation → LiveAssociation) (l : List LiveAssociation)
    → length (modify id f l) ≡ length l
unfolding modify
length-modify id f [] = refl
length-modify id f (a ∷ rest) = ground (arith, length-modify id f rest)

pub find-erase_ne :
    (i j : ℕ) (l : List LiveAssociation) → find i l ≡ none → find i (erase j l) ≡ none
unfolding find erase
find-erase_ne i j [] h = refl
find-erase_ne i j (a ∷ rest) h = ground (arith, find-erase_ne i j rest)

pub find-erase_self :
    (i : ℕ) (l : List LiveAssociation) → DistinctKeys l → find i (erase i l) ≡ none
unfolding find erase
find-erase_self i [] d = refl
find-erase_self i (a ∷ rest) d = ground (arith, find-erase_self i rest d.1)

pub DistinctKeys-erase :
    (i : ℕ) (l : List LiveAssociation) → DistinctKeys l → DistinctKeys (erase i l)
unfolding erase
DistinctKeys-erase i [] d = tt
DistinctKeys-erase i (a ∷ rest) d =
    ground (arith, DistinctKeys-erase i rest d.1, find-erase_ne a.protocol_id i rest d.0)

pub Descending-erase :
    (i n : ℕ) (l : List LiveAssociation)
    → Descending sequence n l
    → Descending sequence n (erase i l)
unfolding erase
Descending-erase i n [] d = tt
Descending-erase i n (a ∷ rest) d =
    ground (
      arith,
      Descending-erase i (sequence a) rest d.1,
      Descending-mono sequence (sequence a) n rest,
    )

pub All-erase :
    (P : LiveAssociation → Type 0) (i : ℕ) (l : List LiveAssociation) → All P l → All P (erase i l)
unfolding erase
All-erase P i [] h = tt
All-erase P i (a ∷ rest) h = ground (arith, All-erase P i rest h.1)

pub All-find :
    (P : LiveAssociation → Type 0) (i : ℕ) (l : List LiveAssociation) {a : LiveAssociation}
    → find i l ≡ some a
    → All P l
    → P a
unfolding find
All-find P i [] e h = absurd (cc)
All-find P i (b ∷ rest) {a} e h = ground (arith, h.0, All-find P i rest {a = a})

pub find_key :
    (i : ℕ) (l : List LiveAssociation) {a : LiveAssociation} → find i l ≡ some a → a.protocol_id ≡ i
unfolding find
find_key i [] e = cc
find_key i (b ∷ rest) {a} e = ground (arith, find_key i rest {a = a})

module _ (f : LiveAssociation → LiveAssociation) (k : KeepsEntry f) where
  pub find-modify-none :
      (i j : ℕ) (l : List LiveAssociation) → find i l ≡ none → find i (modify j f l) ≡ none
  unfolding find modify
  find-modify-none i j [] h = refl
  find-modify-none i j (a ∷ rest) h = ground (arith, find-modify-none i j rest, k.keeps_key a)

  pub DistinctKeys-modify :
      (j : ℕ) (l : List LiveAssociation) → DistinctKeys l → DistinctKeys (modify j f l)
  unfolding modify
  DistinctKeys-modify j [] d = tt
  DistinctKeys-modify j (a ∷ rest) d = ground (
    arith,
    DistinctKeys-modify j rest d.1,
    find-modify-none a.protocol_id j rest d.0,
    k.keeps_key a,
  )

  pub Descending-modify :
      (j n : ℕ) (l : List LiveAssociation)
      → Descending sequence n l
      → Descending sequence n (modify j f l)
  unfolding modify
  Descending-modify j n [] d = tt
  Descending-modify j n (a ∷ rest) d =
      ground (arith, Descending-modify j (sequence a) rest d.1, k.keeps_sequence a)

  pub All-modify :
      (P : LiveAssociation → Type 0) (j : ℕ) (l : List LiveAssociation)
      → ((a : LiveAssociation) → P a → P (f a))
      → All P l
      → All P (modify j f l)
  unfolding modify
  All-modify P j [] g h = tt
  All-modify P j (a ∷ rest) g h = ground (arith, All-modify P j rest g h.1, g a h.0)

  pub find-map-none : (i : ℕ) (l : List LiveAssociation) → find i l ≡ none → find i (map f l) ≡ none
  unfolding find
  find-map-none i [] h = refl
  find-map-none i (a ∷ rest) h = ground (arith, find-map-none i rest, k.keeps_key a)

  pub DistinctKeys-map : (l : List LiveAssociation) → DistinctKeys l → DistinctKeys (map f l)
  DistinctKeys-map [] d = tt
  DistinctKeys-map (a ∷ rest) d = (
    ground (arith, find-map-none a.protocol_id rest d.0, k.keeps_key a),
    DistinctKeys-map rest d.1,
  )
