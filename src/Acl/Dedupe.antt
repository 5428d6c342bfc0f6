-- ===== src/Acl/Dedupe.antt =====
-- `dedupe` of internal/acl/acl.go, and the addresses that a list of prefixes contains.
use go_nftables_portbridge.Prelude.{
  ◌≡◌, refl, sym, ◌∙◌, ap, ◌⊎◌, inl, inr, Bool, ◌||◌, List, [], ◌∷◌, none, some, map, arith, All,
  Bool-cases,
}
use go_nftables_portbridge.Text.{Text, text_eq, text_eq_sound}
use go_nftables_portbridge.Text.Maps.{put_text}
use go_nftables_portbridge.Netip.{Addr, Prefix, PrefixFits, masked, contains}
use go_nftables_portbridge.Netip.Forms.{Forms, Documented}
use go_nftables_portbridge.Config.Targets.{any_contains}
use go_nftables_portbridge.Acl.{
  insert_entry, sort_entries, prefixes_of, collect_prefixes, dedupe, zero_prefix,
}

module _ (a : Addr) where
  insert_entry-contains :
      (k : Text) (p : Prefix) (m : List (Text × Prefix))
      → any_contains (prefixes_of (insert_entry (k, p) m)) a
        ≡ (contains p a || any_contains (prefixes_of m) a)
  unfolding any_contains
  insert_entry-contains k p [] = refl
  insert_entry-contains k p ((j, q) ∷ m) = ground (arith, insert_entry-contains k p m)

  sort_entries-contains :
      (m : List (Text × Prefix))
      → any_contains (prefixes_of (sort_entries m)) a ≡ any_contains (prefixes_of m) a
  unfolding any_contains
  sort_entries-contains [] = refl
  sort_entries-contains ((k, p) ∷ m) =
      insert_entry-contains k p (sort_entries m)
      ∙ ap (λ (b : Bool). contains p a || b) (sort_entries-contains m)

  -- A write where the key, if it is there, has the prefix already.
  put_text-contains :
      (k : Text) (p : Prefix) (m : List (Text × Prefix))
      → All (λ e. e.0 ≡ k → e.1 ≡ p) m
      → any_contains (prefixes_of (put_text k p m)) a
        ≡ (contains p a || any_contains (prefixes_of m) a)
  unfolding any_contains
  put_text-contains k p [] h = refl
  put_text-contains k p ((j, q) ∷ m) (h, rest) = elim (Bool-cases (text_eq j k)) [
    | inl same ↦ rw (same, h (text_eq_sound j k same)) (ground arith)
    | inr other ↦ rw other (ground (arith, put_text-contains k p m rest))
  ]

-- A prefix that the sources pass on: one that fits its family, or the zero prefix.
abbrev pub Given : Prefix → Type 0
Given p = PrefixFits p ⊎ (p ≡ zero_prefix)

module _ (forms : Forms) (laws : Documented forms) where
  open forms use {parse_prefix, format_prefix}

  -- What the text of a prefix says of it.
  abbrev Shown : Prefix → Type 0
  Shown p =
      (parse_prefix (format_prefix p) ≡ some p)
      ⊎ ((p ≡ zero_prefix) × (parse_prefix (format_prefix p) ≡ none))

  masked-Shown : (p : Prefix) → Given p → Shown (masked p)
  unfolding masked
  masked-Shown p (inl fits) = inl (laws.parse-format p fits)
  masked-Shown p (inr zero) = rw zero (inr (refl, laws.parse-zero))

  same_text : (p q : Prefix) → Shown p → Shown q → format_prefix p ≡ format_prefix q → p ≡ q
  same_text p q (inl e) (inl f) h = cc
  same_text p q (inl e) (inr (z, f)) h = cc
  same_text p q (inr (z, e)) (inl f) h = cc
  same_text p q (inr (z, e)) (inr (w, f)) h = z ∙ sym w

  abbrev Keyed : Text × Prefix → Type 0
  Keyed (k, p) = (k ≡ format_prefix p) × Shown p

  Keyed-same :
      (p : Prefix) (m : List (Text × Prefix))
      → Shown p
      → All Keyed m
      → All (λ e. e.0 ≡ format_prefix p → e.1 ≡ p) m
  Keyed-same p [] s h = tt
  Keyed-same p ((k, q) ∷ m) s ((e, t), rest) =
      (λ h. same_text q p t s (sym e ∙ h), Keyed-same p m s rest)

  put_text-Keyed :
      (p : Prefix) (m : List (Text × Prefix))
      → Shown p
      → All Keyed m
      → All Keyed (put_text (format_prefix p) p m)
  put_text-Keyed p [] s h = ((refl, s), tt)
  put_text-Keyed p ((k, q) ∷ m) s (h, rest) = elim (Bool-cases (text_eq k (format_prefix p))) [
    | inl same ↦ rw same ((refl, s), rest)
    | inr other ↦ rw other (h, put_text-Keyed p m s rest)
  ]

  module _ (a : Addr) where
    collect-contains :
        (ps : List Prefix) (m : List (Text × Prefix))
        → All Given ps
        → All Keyed m
        → any_contains (prefixes_of (collect_prefixes forms ps m)) a
          ≡ (any_contains (map masked ps) a || any_contains (prefixes_of m) a)
    unfolding any_contains
    collect-contains [] m g k = refl
    collect-contains (p ∷ ps) m (g, gs) k =
        let s = masked-Shown p g in
        let e =
          collect-contains ps (put_text (format_prefix (masked p)) (masked p) m) gs
            (put_text-Keyed (masked p) m s k) in
        let f =
          put_text-contains a (format_prefix (masked p)) (masked p) m
            (Keyed-same (masked p) m s k) in
        ground (arith, e, f)

    -- The prefixes that are left contain the addresses that the masked prefixes contain.
    pub dedupe-contains :
        (ps : List Prefix)
        → All Given ps
        → any_contains (dedupe forms ps) a ≡ any_contains (map masked ps) a
    unfolding dedupe any_contains
    dedupe-contains ps g =
        sort_entries-contains a (collect_prefixes forms ps [])
        ∙ ground (arith, collect-contains ps [] g tt)
