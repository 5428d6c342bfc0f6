-- ===== src/Manager.antt =====
-- The manager, internal/proxy/manager.go and manager_nft_state.go: what the kernel may still forward,
-- and the steps that bring the kernel rules and the Go runners to a plan. A runner, and what starting
-- one or calling the nftables backend comes to, is behind the interface `ManagerIo`.
pub mod Runners
pub mod Blocked
pub mod Status
pub mod Tombstones
use go_nftables_portbridge.Prelude.{
  ℕ, Bool, true, false, ◌&&◌, ◌||◌, not, List, [], ◌∷◌, ◌++◌, Option, none, some, any, ◌==◌,
  if◌then◌else◌,
}
use go_nftables_portbridge.Prelude.Int.{ltb_ℤ}
use go_nftables_portbridge.Text.{Text, codes, text_eq}
use go_nftables_portbridge.Netip.{addr_eq, is_unspecified}
use go_nftables_portbridge.Netip.Forms.{Forms}
use go_nftables_portbridge.Config.{Rule, protocol_both}
use go_nftables_portbridge.Config.Normalize.{last_listen_port}
use go_nftables_portbridge.Plan.{ListenFamily, NftRuleSpec, listen_families}
use go_nftables_portbridge.Nft.Ports.{nft_last_port}
use go_nftables_portbridge.Nft.Keys.{
  KernelForms, nft_rule_identity, nft_retirement_key, unique_nft_specs, zero_spec, bool_eq,
}
use go_nftables_portbridge.Nft.Backend.Recover.{short_of}
use go_nftables_portbridge.Nft.Backend.Replace.{RetirementState}

abbrev pub meets_family : NftRuleSpec → List ListenFamily → Bool
meets_family s [] = false
meets_family s (l ∷ families) =
    l.family == s.family
      && (is_unspecified l.host || is_unspecified s.listen_host || addr_eq l.host s.listen_host)
    || meets_family s families

unfoldable pub go_rule_overlaps_nft : Forms → Rule → NftRuleSpec → Bool
unfolding listen_families is_unspecified addr_eq last_listen_port
go_rule_overlaps_nft forms rule s =
    (text_eq rule.protocol protocol_both || text_eq rule.protocol s.protocol)
    && not (ltb_ℤ (last_listen_port rule) s.listen_port || ltb_ℤ (nft_last_port s) rule.listen_port)
    && meets_family s (listen_families forms rule.listen_host)

pub data KernelState : Type 0 where
  not_reported retirement_pending admission_suspended active_verified : KernelState
  active_unverified unknown inactive_verified unverified : KernelState

module _ (k : KernelForms) where
  unfoldable pub nft_identity_matches_rule : NftRuleSpec → Text → Bool
  unfolding nft_rule_identity
  nft_identity_matches_rule s id =
      let want = nft_rule_identity k (record zero_spec { rule_id = id }) in
      let got = nft_rule_identity k s in text_eq want got || short_of want got

  unfoldable pub nft_spec_installed : NftRuleSpec → List NftRuleSpec → Bool
  unfolding nft_retirement_key
  nft_spec_installed s [] = false
  nft_spec_installed s (current ∷ active) =
      text_eq (nft_retirement_key k current) (nft_retirement_key k s)
        && bool_eq current.enable_flowtable s.enable_flowtable
      || nft_spec_installed s active

  -- What the kernel may forward: what is pending or suspended, and what is active if that is not
  -- verified.
  unfoldable pub potential : RetirementState → Bool → List NftRuleSpec
  unfolding unique_nft_specs
  potential state inspection_failed =
      let held = unique_nft_specs k (state.pending ++ state.suspended) in
      if not state.verified || inspection_failed
      then unique_nft_specs k (held ++ state.active)
      else held

  -- A backend that reports no retirement state is `none`.
  unfoldable pub go_path_blocked_by_nft : Forms → Option RetirementState → Rule → Bool → Bool → Bool
  unfolding potential go_rule_overlaps_nft
  go_path_blocked_by_nft forms reporter rule nft_failed inspection_failed =
      if not nft_failed then false else elim reporter [
        | none ↦ false
        | some state ↦
            state.unknown
            || any (go_rule_overlaps_nft forms rule) (potential state inspection_failed)
      ]

  abbrev pub some_matches : Text → List NftRuleSpec → Bool
  some_matches id = any (λ s. nft_identity_matches_rule s id)

  -- The second part says whether the kernel is known to hold the rule.
  unfoldable pub nft_rule_state : Option RetirementState → Text → KernelState × Bool
  unfolding nft_identity_matches_rule
  nft_rule_state none id = (not_reported, false)
  nft_rule_state (some state) id =
      if some_matches id state.pending
      then (retirement_pending, true)
      else if some_matches id state.suspended
      then (admission_suspended, true)
      else if some_matches id state.active
      then (
        if state.verified && not state.unknown then active_verified else active_unverified,
        true,
      )
      else if state.unknown
      then (unknown, false)
      else if state.verified
      then (inactive_verified, false)
      else (unverified, false)
