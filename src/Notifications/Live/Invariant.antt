-- ===== src/Notifications/Live/Invariant.antt =====
-- What holds of `liveAssociations`, and of every write to it.
use nagi_shell.Prelude.{
  ℕ, ◌≤◌, ◌<◌, ◌≡◌, refl, Bool, true, false, List, [], ◌∷◌, ◌==◌, length, map, All, Descending,
  Descending-mono, Descending-map, length-map, arith, All-map,
}
use nagi_shell.Notifications.Types.{LiveAssociation}
use nagi_shell.Notifications.Live.{max_live, erase, modify, unlink_key, clear_record_link}
use nagi_shell.Notifications.Live.Entries.{
  sequence, DistinctKeys, KeepsEntry, length-erase, length-modify, DistinctKeys-erase,
  Descending-erase, All-erase, DistinctKeys-modify, Descending-modify, All-modify, DistinctKeys-map,
  find-erase_self,
}
use nagi_shell.Notifications.History.Links.{LinkedEntry, LinkedEntry-mono, LinkedEntry-clear}

-- At most `max_live` entries, one for each key, in falling order of sequence numbers below `n`, and
-- each linked to a key that `P` allows, or to none.
pub record LiveOk (n : ℕ) (P : ℕ → Bool) (l : List LiveAssociation) : Type 0 where
  pub within : length l ≤ max_live
  pub distinct : DistinctKeys l
  pub descending : Descending sequence n l
  pub linked : All (LinkedEntry P) l

pub LiveOk-empty : (n : ℕ) (P : ℕ → Bool) → LiveOk n P []
LiveOk-empty n P = record { within = omega arith; distinct = tt; descending = tt; linked = tt }

pub LiveOk-mono :
    (n : ℕ) (P Q : ℕ → Bool) (l : List LiveAssociation)
    → ((k : ℕ) → P k ≡ true → Q k ≡ true)
    → LiveOk n P l
    → LiveOk n Q l
LiveOk-mono n P Q l g v = record {
  within = v.within;
  distinct = v.distinct;
  descending = v.descending;
  linked = LinkedEntry-mono P Q l g v.linked;
}

pub LiveOk-below :
    (m n : ℕ) (P : ℕ → Bool) (l : List LiveAssociation) → m ≤ n → LiveOk m P l → LiveOk n P l
LiveOk-below m n P l h v = record {
  within = v.within;
  distinct = v.distinct;
  descending = Descending-mono sequence m n l h v.descending;
  linked = v.linked;
}

pub LiveOk-erase :
    (n : ℕ) (P : ℕ → Bool) (id : ℕ) (l : List LiveAssociation)
    → LiveOk n P l
    → LiveOk n P (erase id l)
LiveOk-erase n P id l v = record {
  within = omega (arith, length-erase id l);
  distinct = DistinctKeys-erase id l v.distinct;
  descending = Descending-erase id n l v.descending;
  linked = All-erase (LinkedEntry P) id l v.linked;
}

pub LiveOk-modify :
    (n : ℕ) (P : ℕ → Bool) (f : LiveAssociation → LiveAssociation) (id : ℕ)
    (l : List LiveAssociation)
    → KeepsEntry f
    → ((a : LiveAssociation) → LinkedEntry P a → LinkedEntry P (f a))
    → LiveOk n P l
    → LiveOk n P (modify id f l)
LiveOk-modify n P f id l k g v = record {
  within = omega (arith, length-modify id f l);
  distinct = DistinctKeys-modify f k id l v.distinct;
  descending = Descending-modify f k id n l v.descending;
  linked = All-modify f k (LinkedEntry P) id l g v.linked;
}

pub LiveOk-map :
    (n : ℕ) (P Q : ℕ → Bool) (f : LiveAssociation → LiveAssociation) (l : List LiveAssociation)
    → KeepsEntry f
    → ((a : LiveAssociation) → LinkedEntry P a → LinkedEntry Q (f a))
    → LiveOk n P l
    → LiveOk n Q (map f l)
LiveOk-map n P Q f l k g v = record {
  within = omega (arith, length-map f l);
  distinct = DistinctKeys-map f k l v.distinct;
  descending = Descending-map sequence f n l k.keeps_sequence v.descending;
  linked = All-map (LinkedEntry P) (LinkedEntry Q) f l g v.linked;
}

unlink_key-KeepsEntry : (key : ℕ) → KeepsEntry (unlink_key key)
unlink_key-KeepsEntry key = record { keeps_key = λ a. refl; keeps_sequence = λ a. refl }

pub LiveOk-clear :
    (n : ℕ) (P Q : ℕ → Bool) (key : ℕ) (l : List LiveAssociation)
    → ((k : ℕ) → P k ≡ true → (k == key) ≡ false → Q k ≡ true)
    → LiveOk n P l
    → LiveOk n Q (clear_record_link key l)
unfolding clear_record_link
LiveOk-clear n P Q key l g v = record {
  within = omega (arith, length-map (unlink_key key) l);
  distinct = DistinctKeys-map (unlink_key key) (unlink_key-KeepsEntry key) l v.distinct;
  descending = Descending-map sequence (unlink_key key) n l (λ a. refl) v.descending;
  linked = LinkedEntry-clear P Q key l g v.linked;
}

-- The insertion of an entry with a new, higher sequence number.
pub LiveOk-insert :
    (n : ℕ) (P : ℕ → Bool) (a : LiveAssociation) (l : List LiveAssociation)
    → LiveOk (sequence a) P l
    → sequence a < n
    → length l < max_live
    → LinkedEntry P a
    → LiveOk n P (a ∷ erase a.protocol_id l)
LiveOk-insert n P a l v below room link =
    let kept = LiveOk-erase (sequence a) P a.protocol_id l v in
    record {
      within = omega (arith, length-erase a.protocol_id l);
      distinct = (find-erase_self a.protocol_id l v.distinct, kept.distinct);
      descending = (below, kept.descending);
      linked = (link, kept.linked);
    }
