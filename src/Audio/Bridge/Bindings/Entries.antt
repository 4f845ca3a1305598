-- ===== src/Audio/Bridge/Bindings/Entries.antt =====
-- What adding, removing and changing a binding does to the map of bindings.
use nagi_shell.Prelude.{
  ℕ, ◌<◌, ◌≡◌, ◌≢◌, refl, sym, subst, ◌∙◌, Bool, true, Option, none, some, List, [], ◌∷◌, ◌==◌,
  if◌then◌else◌, ◌||◌, All, Descending, Descending-mono, arith, if_ind,
}
use nagi_shell.Audio.Bridge.{NodeBinding, RoleState}
use nagi_shell.Audio.Bridge.Bindings.{
  find_binding, at_handle, erase_binding, change_binding, is_node,
}

-- The address of the binding that the map has for a node.
unfoldable pub owner : ℕ → List NodeBinding → Option ℕ
owner id [] = none
owner id (n ∷ rest) = if n.id == id then some n.handle else owner id rest

-- A node has one binding.
abbrev pub Apart : List NodeBinding → Type 0
Apart [] = Unit
Apart (n ∷ rest) = (owner n.id rest ≡ none) × Apart rest

-- Every binding is for the node of a role.
abbrev pub is_used : RoleState → RoleState → NodeBinding → Bool
is_used o i n = is_node n.id o || is_node n.id i

abbrev pub Used : RoleState → RoleState → List NodeBinding → Type 0
Used o i bs = All (λ n. is_used o i n ≡ true) bs

pub owner-find_binding :
    (id : ℕ) (bs : List NodeBinding)
    → owner id bs ≡ elim (find_binding id bs) [ none ↦ none | some n ↦ some n.handle ]
unfolding owner find_binding
owner-find_binding id [] = refl
owner-find_binding id (n ∷ rest) = ground (arith, owner-find_binding id rest)

pub find_binding-id :
    (id : ℕ) (bs : List NodeBinding) (n : NodeBinding) → find_binding id bs ≡ some n → n.id ≡ id
unfolding find_binding
find_binding-id id [] n h = ground arith
find_binding-id id (m ∷ rest) n h = ground (arith, find_binding-id id rest n)

-- A removal leaves the other nodes' bindings, and none for its own.
pub owner-erase_binding :
    (id k : ℕ) (bs : List NodeBinding)
    → Apart bs
    → owner k (erase_binding id bs) ≡ (if k == id then none else owner k bs)
unfolding owner erase_binding
owner-erase_binding id k [] apart = ground arith
owner-erase_binding id k (n ∷ rest) apart =
    ground (arith, owner-erase_binding id k rest apart.1, apart.0)

pub Apart-erase_binding : (id : ℕ) (bs : List NodeBinding) → Apart bs → Apart (erase_binding id bs)
unfolding erase_binding
Apart-erase_binding id [] apart = tt
Apart-erase_binding id (n ∷ rest) apart =
    if_ind Apart (n.id == id) (λ _. apart.1)
      λ _. (
        ground (arith, owner-erase_binding id n.id rest apart.1, apart.0),
        Apart-erase_binding id rest apart.1,
      )

abbrev pub Below : ℕ → List NodeBinding → Type 0
Below bound bs = Descending (λ (n : NodeBinding). n.handle) bound bs

pub Below-erase_binding :
    (id bound : ℕ) (bs : List NodeBinding) → Below bound bs → Below bound (erase_binding id bs)
unfolding erase_binding
Below-erase_binding id bound [] d = tt
Below-erase_binding id bound (n ∷ rest) d =
    if_ind (Below bound) (n.id == id)
      (λ _.
        Descending-mono (λ (m : NodeBinding). m.handle) n.handle bound rest (omega (arith, d.0))
          d.1)
      λ _. (d.0, Below-erase_binding id n.handle rest d.1)

-- What holds of every binding but a node's holds of all where the node has none.
pub All-unbound :
    (P : NodeBinding → Type 0) (id : ℕ) (bs : List NodeBinding)
    → owner id bs ≡ none
    → All (λ n. n.id ≢ id → P n) bs
    → All P bs
unfolding owner
All-unbound P id [] e h = tt
All-unbound P id (n ∷ bs) e h =
    (h.0 (ground (arith, e)), All-unbound P id bs (ground (arith, e)) h.1)

-- So it holds of all that are left when that one is removed.
pub All-erase_binding :
    (P : NodeBinding → Type 0) (id : ℕ) (bs : List NodeBinding)
    → Apart bs
    → All (λ n. n.id ≢ id → P n) bs
    → All P (erase_binding id bs)
unfolding erase_binding
All-erase_binding P id [] apart h = tt
All-erase_binding P id (n ∷ rest) apart h =
    if_ind (All P) (n.id == id) (λ e. All-unbound P id rest (ground (arith, e, apart.0)) h.1)
      λ e. (h.0 (ground (arith, e)), All-erase_binding P id rest apart.1 h.1)

-- The handle of the binding for a node leads to that binding.
pub owner-Below :
    (bound id h : ℕ) (bs : List NodeBinding) → Below bound bs → owner id bs ≡ some h → h < bound
unfolding owner
owner-Below bound id h [] d e = ground arith
owner-Below bound id h (n ∷ rest) d e = ground (arith, owner-Below n.handle id h rest d.1)

pub at_handle-owner :
    (bound id h : ℕ) (bs : List NodeBinding)
    → Below bound bs
    → owner id bs ≡ some h
    → at_handle h bs ≡ find_binding id bs
unfolding owner at_handle find_binding
at_handle-owner bound id h [] d e = ground arith
at_handle-owner bound id h (n ∷ rest) d e =
    ground (arith, at_handle-owner n.handle id h rest d.1, owner-Below n.handle id h rest d.1)

-- A write through a pointer keeps what no write may change: the address and the node.
pub record Keeps (f : NodeBinding → NodeBinding) : Type 0 where
  pub keeps_handle : (n : NodeBinding) → (f n).handle ≡ n.handle
  pub keeps_id : (n : NodeBinding) → (f n).id ≡ n.id

module _ (h : ℕ) (f : NodeBinding → NodeBinding) (keeps : Keeps f) where
  pub owner-change_binding :
      (id : ℕ) (bs : List NodeBinding) → owner id (change_binding h f bs) ≡ owner id bs
  unfolding owner change_binding
  owner-change_binding id [] = refl
  owner-change_binding id (n ∷ rest) =
      ground (arith, owner-change_binding id rest, keeps.keeps_handle n, keeps.keeps_id n)

  pub Apart-change_binding : (bs : List NodeBinding) → Apart bs → Apart (change_binding h f bs)
  unfolding change_binding
  Apart-change_binding [] apart = tt
  Apart-change_binding (n ∷ rest) apart =
      if_ind Apart (n.handle == h)
        (λ _. (subst (λ id. owner id rest ≡ none) (sym (keeps.keeps_id n)) apart.0, apart.1))
        λ _. (owner-change_binding n.id rest ∙ apart.0, Apart-change_binding rest apart.1)

  pub Below-change_binding :
      (bound : ℕ) (bs : List NodeBinding) → Below bound bs → Below bound (change_binding h f bs)
  unfolding change_binding
  Below-change_binding bound [] d = tt
  Below-change_binding bound (n ∷ rest) d =
      if_ind (Below bound) (n.handle == h)
        (λ _. subst (λ k. (k < bound) × Below k rest) (sym (keeps.keeps_handle n)) d)
        λ _. (d.0, Below-change_binding n.handle rest d.1)

  pub Used-change_binding :
      (o i : RoleState) (bs : List NodeBinding) → Used o i bs → Used o i (change_binding h f bs)
  unfolding change_binding
  Used-change_binding o i [] used = tt
  Used-change_binding o i (n ∷ rest) used =
      if_ind (Used o i) (n.handle == h)
        (λ _. (
          subst (λ id. (is_node id o || is_node id i) ≡ true) (sym (keeps.keeps_id n)) used.0,
          used.1,
        ))
        λ _. (used.0, Used-change_binding o i rest used.1)
