-- ===== src/Text/Members.antt =====
-- What collecting keys into a set and sorting them does to a property of some key or of every key.
use go_nftables_portbridge.Prelude.{◌⊎◌, inl, inr, List, [], ◌∷◌, ◌++◌, All, Bool-cases}
use go_nftables_portbridge.Text.{Text, text_ltb}
use go_nftables_portbridge.Text.Sets.{has_key, add_key, insert_sorted, sort_texts}

abbrev pub Any {ℓ} : {A : Type ℓ} → (A → Type 0) → List A → Type 0
Any P [] = ⊥
Any P (x ∷ xs) = P x ⊎ Any P xs

module _ (P : Text → Type 0) where
  Any-snoc : (k : Text) (ks : List Text) → Any P (ks ++ k ∷ []) → Any P ks ⊎ P k
  Any-snoc k [] (inl p) = inr p
  Any-snoc k [] (inr p) = absurd p
  Any-snoc k (j ∷ ks) (inl p) = inl (inl p)
  Any-snoc k (j ∷ ks) (inr p) = elim (Any-snoc k ks p) [ inl q ↦ inl (inr q) | inr q ↦ inr q ]

  pub Any-add_key : (k : Text) (ks : List Text) → Any P (add_key k ks) → Any P ks ⊎ P k
  unfolding add_key
  Any-add_key k ks h = elim (Bool-cases (has_key k ks)) [
    | inl old ↦ inl (rw old at h)
    | inr new ↦ Any-snoc k ks (rw new at h)
  ]

  Any-insert : (k : Text) (ks : List Text) → Any P (insert_sorted k ks) → P k ⊎ Any P ks
  unfolding insert_sorted
  Any-insert k [] (inl p) = inl p
  Any-insert k [] (inr p) = absurd p
  Any-insert k (j ∷ ks) h = elim (Bool-cases (text_ltb j k)) [
    | inl less ↦
        let opened : P j ⊎ Any P (insert_sorted k ks) = (rw less at h) in
        elim opened [
          | inl p ↦ inr (inl p)
          | inr p ↦ elim (Any-insert k ks p) [ inl q ↦ inl q | inr q ↦ inr (inr q) ]
        ]
    | inr more ↦ rw more at h
  ]

  pub Any-sort : (ks : List Text) → Any P (sort_texts ks) → Any P ks
  unfolding sort_texts
  Any-sort [] h = h
  Any-sort (k ∷ ks) h = elim (Any-insert k (sort_texts ks) h) [
    | inl p ↦ inl p
    | inr p ↦ inr (Any-sort ks p)
  ]

  All-snoc : (k : Text) (ks : List Text) → All P ks → P k → All P (ks ++ k ∷ [])
  All-snoc k [] h p = (p, tt)
  All-snoc k (j ∷ ks) h p = (h.0, All-snoc k ks h.1 p)

  pub All-add_key : (k : Text) (ks : List Text) → All P ks → P k → All P (add_key k ks)
  unfolding add_key
  All-add_key k ks h p = elim (Bool-cases (has_key k ks)) [
    | inl old ↦ rw old h
    | inr new ↦ rw new (All-snoc k ks h p)
  ]

  All-insert : (k : Text) (ks : List Text) → P k → All P ks → All P (insert_sorted k ks)
  unfolding insert_sorted
  All-insert k [] p h = (p, tt)
  All-insert k (j ∷ ks) p h = elim (Bool-cases (text_ltb j k)) [
    | inl less ↦ rw less (h.0, All-insert k ks p h.1)
    | inr more ↦ rw more (p, h)
  ]

  pub All-sort : (ks : List Text) → All P ks → All P (sort_texts ks)
  unfolding sort_texts
  All-sort [] h = tt
  All-sort (k ∷ ks) h = All-insert k (sort_texts ks) h.0 (All-sort ks h.1)
