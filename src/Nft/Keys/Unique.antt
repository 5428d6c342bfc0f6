-- ===== src/Nft/Keys/Unique.antt =====
-- `uniqueNFTSpecs` of internal/proxy/nft_recovery.go drops no rule but one with the key of another.
use go_nftables_portbridge.Prelude.{
  ◌≡◌, refl, Bool, true, false, ◌||◌, List, [], ◌∷◌, map, All, any, arith, Bool-cases, inl, inr,
  sym, ◌∙◌, ap,
}
use go_nftables_portbridge.Text.{Text, text_eq, text_eq_sound, text_eq_refl, text_ltb}
use go_nftables_portbridge.Text.Sets.{sort_texts, insert_sorted}
use go_nftables_portbridge.Text.Members.{All-sort}
use go_nftables_portbridge.Text.Maps.{put_text}
use go_nftables_portbridge.Plan.{NftRuleSpec}
use go_nftables_portbridge.Nft.Keys.{
  KernelForms, by_key, at_key, unique_nft_specs, nft_retirement_key,
}

abbrev Seen : Type 0
Seen = List (Text × NftRuleSpec)

any-insert :
    (f : Text → Bool) (t : Text) (ts : List Text) → any f (insert_sorted t ts) ≡ (f t || any f ts)
unfolding insert_sorted
any-insert f t [] = refl
any-insert f t (u ∷ ts) = elim (Bool-cases (text_ltb u t)) [
  | inl less ↦ rw (less, any-insert f t ts) (ground arith)
  | inr more ↦ rw more
]

any-sort : (f : Text → Bool) (ts : List Text) → any f (sort_texts ts) ≡ any f ts
unfolding sort_texts
any-sort f [] = refl
any-sort f (t ∷ ts) = any-insert f t (sort_texts ts) ∙ ap (λ b. f t || b) (any-sort f ts)

module _ (k : KernelForms) where
  -- An entry stands under its rule's key, and its key is found, with a rule of that key.
  abbrev Keyed : (NftRuleSpec → Type 0) → Text × NftRuleSpec → Type 0
  Keyed P e = (nft_retirement_key k e.1 ≡ e.0) × P e.1

  put-Keyed :
      (P : NftRuleSpec → Type 0) (s : NftRuleSpec) (m : Seen)
      → P s
      → All (Keyed P) m
      → All (Keyed P) (put_text (nft_retirement_key k s) s m)
  put-Keyed P s [] p h = ((refl, p), tt)
  put-Keyed P s ((j, w) ∷ m) p (q, h) = elim (Bool-cases (text_eq j (nft_retirement_key k s))) [
    | inl same ↦ rw same ((refl, p), h)
    | inr other ↦ rw other (q, put-Keyed P s m p h)
  ]

  by_key-Keyed :
      (P : NftRuleSpec → Type 0) (specs : List NftRuleSpec) (m : Seen)
      → All P specs
      → All (Keyed P) m
      → All (Keyed P) (by_key k specs m)
  unfolding by_key
  by_key-Keyed P [] m h g = g
  by_key-Keyed P (s ∷ specs) m (p, h) g = by_key-Keyed P specs _ h (put-Keyed P s m p g)

  module _ (P : NftRuleSpec → Type 0) (f : NftRuleSpec → Bool)
      (respects : (r s : NftRuleSpec)
        → P r
        → P s
        → nft_retirement_key k r ≡ nft_retirement_key k s
        → f r ≡ f s) where
    any-put :
        (s : NftRuleSpec) (m : Seen)
        → P s
        → All (Keyed P) m
        → any (λ e. f e.1) (put_text (nft_retirement_key k s) s m) ≡ (f s || any (λ e. f e.1) m)
    any-put s [] p h = refl
    any-put s ((j, w) ∷ m) p ((q, r), h) = elim (Bool-cases (text_eq j (nft_retirement_key k s))) [
      | inl same ↦
          let eq : f w ≡ f s =
            respects w s r p (q ∙ text_eq_sound j (nft_retirement_key k s) same) in
          rw same (ground arith)
      | inr other ↦ rw (other, any-put s m p h) (ground arith)
    ]

    any-by_key :
        (specs : List NftRuleSpec) (m : Seen)
        → All P specs
        → All (Keyed P) m
        → any (λ e. f e.1) (by_key k specs m) ≡ (any f specs || any (λ e. f e.1) m)
    unfolding by_key
    any-by_key [] m h g = refl
    any-by_key (s ∷ specs) m (p, h) g =
        any-by_key specs _ h (put-Keyed P s m p g)
        ∙ regroup (any f specs) (f s) (any (λ e. f e.1) m) _ (any-put s m p g)
      where
        regroup : (a b c d : Bool) → d ≡ (b || c) → (a || d) ≡ ((b || a) || c)
        regroup a b c d e = ground arith

    -- What is found under the key of an entry is a rule with that key.
    abbrev IsFound : Seen → Text × NftRuleSpec → Type 0
    IsFound m e = P (at_key m e.0) × (f (at_key m e.0) ≡ f e.1)

    IsFound-after :
        (j : Text) (w : NftRuleSpec) (m rest : Seen)
        → Keyed P (j, w)
        → All (Keyed P) rest
        → All (IsFound m) rest
        → All (IsFound ((j, w) ∷ m)) rest
    IsFound-after j w m [] q g h = tt
    IsFound-after j w m ((i, v) ∷ rest) (q, r) ((e, p), g) (h, hs) =
        elim (Bool-cases (text_eq j i)) [
          | inl same ↦ (
            rw same (r, respects w v r p (q ∙ text_eq_sound j i same ∙ sym e)),
            IsFound-after j w m rest (q, r) g hs,
          )
          | inr other ↦ (rw other h, IsFound-after j w m rest (q, r) g hs)
        ]

    All-IsFound : (m : Seen) → All (Keyed P) m → All (IsFound m) m
    All-IsFound [] h = tt
    All-IsFound ((j, w) ∷ m) ((q, r), h) =
        (rw (text_eq_refl j) (r, refl), IsFound-after j w m m (q, r) h (All-IsFound m h))

    any-found :
        (m rest : Seen)
        → All (IsFound m) rest
        → any (λ key. f (at_key m key)) (map (λ e. e.0) rest) ≡ any (λ e. f e.1) rest
    any-found m [] h = refl
    any-found m ((i, v) ∷ rest) ((p, e), h) = rw (e, any-found m rest h)

    any-map : (g : Text → NftRuleSpec) (ts : List Text) → any f (map g ts) ≡ any (λ t. f (g t)) ts
    any-map g [] = refl
    any-map g (t ∷ ts) = rw (any-map g ts)

    -- A property of rules that their keys decide holds of one of the result exactly if it holds of
    -- one that was given.
    pub any_unique :
        (specs : List NftRuleSpec) → All P specs → any f (unique_nft_specs k specs) ≡ any f specs
    unfolding unique_nft_specs
    any_unique specs h =
        let m = by_key k specs [] in
        let keyed = by_key-Keyed P specs [] h tt in
        any-map (at_key m) (sort_texts (map (λ e. e.0) m))
        ∙ any-sort (λ key. f (at_key m key)) (map (λ e. e.0) m)
        ∙ any-found m m (All-IsFound m keyed)
        ∙ any-by_key specs [] h tt
        ∙ or_false (any f specs)
      where
        or_false : (b : Bool) → (b || false) ≡ b
        or_false true = refl
        or_false false = refl

  -- What holds of every rule that is given holds of every rule of the result.
  pub All-unique :
      (P : NftRuleSpec → Type 0) (specs : List NftRuleSpec)
      → All P specs
      → All P (unique_nft_specs k specs)
  unfolding unique_nft_specs
  All-unique P specs h =
      let m = by_key k specs [] in
      collect m (sort_texts (map (λ e. e.0) m)) (
        All-sort (λ key. P (at_key m key)) (map (λ e. e.0) m)
          (keys m m
            (All-IsFound P (λ s. true) (λ r s a b e. refl) m (by_key-Keyed P specs [] h tt))))
    where
      keys :
          (m rest : Seen)
          → All (IsFound P (λ s. true) (λ r s a b e. refl) m) rest
          → All (λ key. P (at_key m key)) (map (λ e. e.0) rest)
      keys m [] h = tt
      keys m (e ∷ rest) ((p, same), h) = (p, keys m rest h)

      collect :
          (m : Seen) (ts : List Text) → All (λ key. P (at_key m key)) ts → All P (map (at_key m) ts)
      collect m [] h = tt
      collect m (t ∷ ts) (p, h) = (p, collect m ts h)
