-- ===== src/Manager/Blocked.antt =====
-- What `goPathBlockedByNFT` of internal/proxy/manager_nft_state.go keeps apart.
use go_nftables_portbridge.Prelude.{
  ℕ, ◌≡◌, refl, Bool, true, false, ◌&&◌, ◌||◌, not, List, [], ◌∷◌, ◌++◌, some, any, any-append, All,
  All-append, ◌==◌, if◌then◌else◌, arith, ◌∙◌, sym,
}
use go_nftables_portbridge.Prelude.Int.{ℤ, pos, ltb_ℤ}
use go_nftables_portbridge.Text.{text_eq}
use go_nftables_portbridge.Netip.Forms.{Forms}
use go_nftables_portbridge.Config.{Rule, protocol_both}
use go_nftables_portbridge.Config.Normalize.{last_listen_port}
use go_nftables_portbridge.Plan.{ListenFamily, NftRuleSpec, listen_families}
use go_nftables_portbridge.Nft.Ports.{nft_last_port}
use go_nftables_portbridge.Nft.Keys.{KernelForms, KernelDocumented, unique_nft_specs}
use go_nftables_portbridge.Nft.Keys.Fits.{Fits}
use go_nftables_portbridge.Nft.Keys.Distinct.{SamePath, nft_retirement_key-SamePath}
use go_nftables_portbridge.Nft.Keys.Unique.{any_unique, All-unique}
use go_nftables_portbridge.Nft.Specs.Gated.{hosts_meet}
use go_nftables_portbridge.Nft.Backend.Replace.{RetirementState}
use go_nftables_portbridge.Manager.{
  go_rule_overlaps_nft, meets_family, potential, go_path_blocked_by_nft,
}

abbrev within_ℤ : ℕ → ℤ → ℤ → Bool
within_ℤ port first last = not (ltb_ℤ (pos port) first) && not (ltb_ℤ last (pos port))

abbrev pub listens_beside : NftRuleSpec → ListenFamily → Bool
listens_beside s l = l.family == s.family && hosts_meet l.host s.listen_host

-- The Go path and the kernel rule both take the port, for one transport, on a host that they may
-- share.
abbrev pub shares : Forms → Rule → ℕ → NftRuleSpec → Bool
shares forms rule port s =
    (text_eq rule.protocol protocol_both || text_eq rule.protocol s.protocol)
    && within_ℤ port rule.listen_port (last_listen_port rule)
    && within_ℤ port s.listen_port (nft_last_port s)
    && any (listens_beside s) (listen_families forms rule.listen_host)

meets_family-any :
    (s : NftRuleSpec) (families : List ListenFamily)
    → any (listens_beside s) families ≡ meets_family s families
meets_family-any s [] = refl
meets_family-any s (l ∷ families) = rw (meets_family-any s families) refl

apart :
    (port : ℕ) (a b c d : ℤ)
    → (ltb_ℤ b c || ltb_ℤ d a) ≡ true
    → (within_ℤ port a b && within_ℤ port c d) ≡ false
apart port a b c d h = ground arith

shares-overlaps :
    (forms : Forms) (rule : Rule) (port : ℕ) (s : NftRuleSpec)
    → go_rule_overlaps_nft forms rule s ≡ false
    → shares forms rule port s ≡ false
unfolding go_rule_overlaps_nft
shares-overlaps forms rule port s h =
    step _ _ _ _ _ _ (meets_family-any s (listen_families forms rule.listen_host)) h
      (apart port rule.listen_port (last_listen_port rule) s.listen_port (nft_last_port s))
  where
    step :
        (p o m n v w : Bool)
        → n ≡ m
        → (p && not o && m) ≡ false
        → (o ≡ true → (v && w) ≡ false)
        → (p && v && w && n) ≡ false
    step p true m n v w e h f = let g = f refl in ground (arith, g)
    step p false m n v w e h f = ground (arith, e)

any-shares :
    (forms : Forms) (rule : Rule) (port : ℕ) (specs : List NftRuleSpec)
    → any (go_rule_overlaps_nft forms rule) specs ≡ false
    → any (shares forms rule port) specs ≡ false
any-shares forms rule port [] h = refl
any-shares forms rule port (s ∷ specs) h =
    both _ _ (shares-overlaps forms rule port s (left _ _ h))
      (any-shares forms rule port specs (right _ _ h))
  where
    left : (a b : Bool) → (a || b) ≡ false → a ≡ false
    left a b h = ground arith

    right : (a b : Bool) → (a || b) ≡ false → b ≡ false
    right a b h = ground arith

    both : (a b : Bool) → a ≡ false → b ≡ false → (a || b) ≡ false
    both a b e f = ground arith

module _ (k : KernelForms) (d : KernelDocumented k) (forms : Forms) (rule : Rule) (port : ℕ) where
  shares-SamePath :
      (r s : NftRuleSpec) → SamePath k r s → shares forms rule port r ≡ shares forms rule port s
  shares-SamePath r s same =
      rw (same.family, same.listen, same.last, same.first, same.protocol) refl

  any-shares_unique :
      (specs : List NftRuleSpec)
      → All (Fits k) specs
      → any (shares forms rule port) (unique_nft_specs k specs) ≡ any (shares forms rule port) specs
  any-shares_unique =
      any_unique k (Fits k) (shares forms rule port)
        λ r s f g e. shares-SamePath r s (nft_retirement_key-SamePath k d r s f g e)

  -- A Go path that the kernel's state does not block, after the kernel rules could not be brought to
  -- the plan, shares no port of a host, for one transport, with a kernel rule that is pending or
  -- suspended, nor with an active one if the active rules are not verified; and that state is known.
  pub go_path_blocked_by_nft-NoneShared :
      (state : RetirementState) (inspection_failed : Bool)
      → All (Fits k) (state.pending ++ state.suspended)
      → All (Fits k) state.active
      → go_path_blocked_by_nft k forms (some state) rule true inspection_failed ≡ false
      → (state.unknown ≡ false)
        × (any (shares forms rule port) (state.pending ++ state.suspended) ≡ false)
        × ((not state.verified || inspection_failed) ≡ true
            → any (shares forms rule port) state.active ≡ false)
  unfolding go_path_blocked_by_nft potential
  go_path_blocked_by_nft-NoneShared state inspection_failed held_fit active_fit h =
      let (known, clear) = split state.unknown _ h in
      let (held, active) =
        cases (not state.verified || inspection_failed) (any-shares forms rule port _ clear) in
      (known, held, active)
    where
      split : (a b : Bool) → (a || b) ≡ false → (a ≡ false) × (b ≡ false)
      split a b h = ground arith

      held_shares :
          any (shares forms rule port) (unique_nft_specs k (state.pending ++ state.suspended))
          ≡ any (shares forms rule port) (state.pending ++ state.suspended)
      held_shares = any-shares_unique (state.pending ++ state.suspended) held_fit

      cases :
          (b : Bool)
          → any (shares forms rule port) (
              if b
              then unique_nft_specs k
                  (unique_nft_specs k (state.pending ++ state.suspended) ++ state.active)
              else unique_nft_specs k (state.pending ++ state.suspended))
            ≡ false
          → (any (shares forms rule port) (state.pending ++ state.suspended) ≡ false)
            × (b ≡ true → any (shares forms rule port) state.active ≡ false)
      cases false e = (sym held_shares ∙ e, λ t. absurd cc)
      cases true e =
          let held = unique_nft_specs k (state.pending ++ state.suspended) in
          let fits =
            All-append (Fits k) held state.active
              (All-unique k (Fits k) (state.pending ++ state.suspended) held_fit) active_fit in
          let (a, b) = split _ _ (
            sym (any-append (shares forms rule port) held state.active)
            ∙ sym (any-shares_unique (held ++ state.active) fits)
            ∙ e) in
          (sym held_shares ∙ a, λ t. b)
