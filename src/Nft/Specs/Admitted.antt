-- ===== src/Nft/Specs/Admitted.antt =====
-- `previouslyAdmittedNFT` of internal/proxy/nft_reconcile.go admits nothing new.
use go_nftables_portbridge.Prelude.{
  ◌≡◌, refl, Bool, true, false, ◌&&◌, ◌||◌, not, List, [], ◌∷◌, All, All-append, any, any-append,
  arith, ◌∙◌, sym, Bool-cases, inl, inr,
}
use go_nftables_portbridge.Plan.{NftRuleSpec}
use go_nftables_portbridge.Nft.Keys.{KernelForms, KernelDocumented}
use go_nftables_portbridge.Nft.Keys.Fits.{Fits}
use go_nftables_portbridge.Nft.Keys.Unique.{All-unique}
use go_nftables_portbridge.Nft.Path.{KernelPath, carries}
use go_nftables_portbridge.Nft.Specs.{
  gate_nft_replacements, old_candidates, retired_nft_specs, admitted_parts, previously_admitted_nft,
}
use go_nftables_portbridge.Nft.Specs.Gated.{takes, takes_lem, gate_nft_replacements_exact}
use go_nftables_portbridge.Nft.Specs.Retired.{
  retired_nft_specs_exact, any_unique-Fits, carries-in_the_way,
}

-- An active rule carries the path, and is offloaded if the new one asks for it.
abbrev pub carried_before : KernelForms → KernelPath → List NftRuleSpec → NftRuleSpec → Bool
carried_before k p active next =
    carries k p next
    && any (λ old. carries k p old && (not next.enable_flowtable || old.enable_flowtable)) active

module _ (k : KernelForms) where
  candidates-any :
      (p : KernelPath) (next : NftRuleSpec) (active : List NftRuleSpec)
      → any (carries k p) (old_candidates next active)
        ≡ any (λ old. carries k p old && (not next.enable_flowtable || old.enable_flowtable)) active
  unfolding old_candidates
  candidates-any p next [] = refl
  candidates-any p next (old ∷ active) =
      elim (Bool-cases (not next.enable_flowtable || old.enable_flowtable)) [
        | inl kept ↦ rw (kept, candidates-any p next active) (with_true (carries k p old) _)
        | inr left_out ↦
            rw (left_out, candidates-any p next active) (with_false (carries k p old) _)
      ]
    where
      with_true : (a b : Bool) → (a || b) ≡ ((a && true) || b)
      with_true a b = ground arith

      with_false : (a b : Bool) → b ≡ ((a && false) || b)
      with_false a b = ground arith

  candidates-Fits :
      (next : NftRuleSpec) (active : List NftRuleSpec)
      → All (Fits k) active
      → All (Fits k) (old_candidates next active)
  unfolding old_candidates
  candidates-Fits next [] h = tt
  candidates-Fits next (old ∷ active) (f, h) =
      elim (Bool-cases (not next.enable_flowtable || old.enable_flowtable)) [
        | inl kept ↦ rw kept (f, candidates-Fits next active h)
        | inr left_out ↦ rw left_out (candidates-Fits next active h)
      ]

  -- A rule that carries a path is in the way of any other that does.
  any-takes :
      (p : KernelPath) (next : NftRuleSpec) (specs : List NftRuleSpec)
      → carries k p next ≡ true
      → any (carries k p) specs ≡ true
      → any (takes next p.port) specs ≡ true
  any-takes p next [] c h = cc
  any-takes p next (old ∷ specs) c h = elim (Bool-cases (carries k p old)) [
    | inl here ↦
        or_left _ _ (sym (takes_lem next p.port old) ∙ carries-in_the_way k p next old c here)
    | inr later ↦ or_right _ _ (any-takes p next specs c (rw later at h))
  ]
    where
      or_right : (a b : Bool) → b ≡ true → (a || b) ≡ true
      or_right a b e = ground arith

      or_left : (a b : Bool) → a ≡ true → (a || b) ≡ true
      or_left a b e = ground arith

  module _ (d : KernelDocumented k) where
    admitted_parts_lem :
        (p : KernelPath) (desired active : List NftRuleSpec)
        → All (Fits k) desired
        → All (Fits k) active
        → (any (carries k p) (admitted_parts k desired active) ≡ true
            → any (carried_before k p active) desired ≡ true)
          × All (Fits k) (admitted_parts k desired active)
    unfolding admitted_parts
    admitted_parts_lem p [] active h g = (λ e. e, tt)
    admitted_parts_lem p (next ∷ desired) active (f, h) g =
        let candidates = old_candidates next active in
        let missing = retired_nft_specs k (next ∷ []) candidates in
        let gated = gate_nft_replacements (next ∷ []) missing in
        let (retired, retired_fit) =
          retired_nft_specs_exact k d p (next ∷ []) candidates (f, tt)
            (candidates-Fits next active g) in
        let (exact, fits, clear) =
          gate_nft_replacements_exact k p (next ∷ []) missing (f, tt) retired_fit in
        let (rest, all) = admitted_parts_lem p desired active h g in
        (
          λ e.
              step (carries k p next) (any (takes next p.port) missing) (any (carries k p) missing)
                (any (carries k p) candidates) _ _ _ _ exact retired (candidates-any p next active)
                (any-takes p next missing) rest
                (sym (any-append (carries k p) gated (admitted_parts k desired active)) ∙ e),
          All-append (Fits k) gated (admitted_parts k desired active) fits all,
        )
      where
        step :
            (c taken missed old gated more before later : Bool)
            → gated ≡ ((c && not taken) || false)
            → missed ≡ ((c || false) && not old)
            → old ≡ before
            → (c ≡ true → missed ≡ true → taken ≡ true)
            → (more ≡ true → later ≡ true)
            → (gated || more) ≡ true
            → ((c && before) || later) ≡ true
        step true taken missed true gated more before later e f g h i j = ground arith
        step true true missed false gated more before later e f g h i j = ground (arith, i)
        step true false missed false gated more before later e f g h i j =
            let clash : false ≡ true = h refl (f) in cc
        step false taken missed old gated more before later e f g h i j = ground (arith, i)

    -- When nothing new may be admitted, each path that is still let in is one of a desired rule that
    -- an active rule forwards already, one that is offloaded if the desired rule is to be; and the
    -- rules let in fit.
    pub previously_admitted_nft_sound :
        (p : KernelPath) (desired active : List NftRuleSpec)
        → All (Fits k) desired
        → All (Fits k) active
        → (any (carries k p) (previously_admitted_nft k desired active) ≡ true
            → any (carried_before k p active) desired ≡ true)
          × All (Fits k) (previously_admitted_nft k desired active)
    unfolding previously_admitted_nft
    previously_admitted_nft_sound p desired active h g =
        let (sound, fits) = admitted_parts_lem p desired active h g in
        (
          λ e. sound (sym (any_unique-Fits k d p (admitted_parts k desired active) fits) ∙ e),
          All-unique k (Fits k) (admitted_parts k desired active) fits,
        )
