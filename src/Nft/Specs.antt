-- ===== src/Nft/Specs.antt =====
-- The rules that retire and the rules that may be installed meanwhile: `retiredNFTSpecs`,
-- `gateNFTReplacements` (nft_recovery.go) and `previouslyAdmittedNFT` (nft_reconcile.go) of
-- internal/proxy.
pub mod Slices
pub mod Retired
pub mod Gated
pub mod Admitted
use go_nftables_portbridge.Prelude.{
  ℕ, Bool, true, false, ◌&&◌, ◌||◌, not, List, [], ◌∷◌, ◌++◌, map, ◌==◌, if◌then◌else◌,
}
use go_nftables_portbridge.Prelude.Int.{◌-ℤ◌}
use go_nftables_portbridge.Text.{text_eq}
use go_nftables_portbridge.Netip.{addr_eq, is_unspecified}
use go_nftables_portbridge.Plan.{NftRuleSpec}
use go_nftables_portbridge.Nft.Ports.{
  PortInterval, interval, subtract_port_range, slice_ports, nft_last_port,
}
use go_nftables_portbridge.Nft.Keys.{KernelForms, nft_rule_identity, unique_nft_specs, equal_ℤ}

-- All ports of a rule.
abbrev pub whole : NftRuleSpec → List PortInterval
whole s = interval s.listen_port (nft_last_port s) ∷ []

-- A pending rule that a replacement may not overlap: its transport, on a host that it may share.
unfoldable pub in_the_way : NftRuleSpec → NftRuleSpec → Bool
unfolding is_unspecified addr_eq
in_the_way next old =
    old.family == next.family
    && text_eq old.protocol next.protocol
    && (is_unspecified old.listen_host
        || is_unspecified next.listen_host
        || addr_eq old.listen_host next.listen_host)

-- The parts of a range that are left when each rule that is in its way has taken its ports.
unfoldable pub remaining :
    (NftRuleSpec → Bool) → List NftRuleSpec → List PortInterval → List PortInterval
unfolding subtract_port_range
remaining taken [] parts = parts
remaining taken (s ∷ specs) parts =
    remaining taken specs
      (if taken s then subtract_port_range parts s.listen_port (nft_last_port s) else parts)

unfoldable pub gate_nft_replacements : List NftRuleSpec → List NftRuleSpec → List NftRuleSpec
unfolding remaining slice_ports in_the_way
gate_nft_replacements [] pending = []
gate_nft_replacements (next ∷ desired) pending =
    map (slice_ports next) (remaining (in_the_way next) pending (whole next))
    ++ gate_nft_replacements desired pending

-- `candidates`: an old rule that was not offloaded admits no rule that is.
unfoldable pub old_candidates : NftRuleSpec → List NftRuleSpec → List NftRuleSpec
old_candidates next [] = []
old_candidates next (old ∷ active) =
    (if not next.enable_flowtable || old.enable_flowtable then old ∷ [] else [])
    ++ old_candidates next active

module _ (k : KernelForms) where
  -- A rule that goes on with what another did: nothing but its ports may differ.
  unfoldable pub goes_on : NftRuleSpec → NftRuleSpec → Bool
  unfolding nft_rule_identity addr_eq ◌-ℤ◌
  goes_on previous next =
      text_eq (nft_rule_identity k previous) (nft_rule_identity k next)
      && previous.family == next.family
      && text_eq previous.protocol next.protocol
      && previous.conntrack_mark == next.conntrack_mark
      && addr_eq previous.listen_host next.listen_host
      && addr_eq previous.target_host next.target_host
      && equal_ℤ (previous.target_port -ℤ previous.listen_port)
          (next.target_port -ℤ next.listen_port)

  unfoldable pub retired_parts : List NftRuleSpec → List NftRuleSpec → List NftRuleSpec
  unfolding remaining slice_ports goes_on
  retired_parts [] desired = []
  retired_parts (previous ∷ old) desired =
      map (slice_ports previous) (remaining (goes_on previous) desired (whole previous))
      ++ retired_parts old desired

  unfoldable pub retired_nft_specs : List NftRuleSpec → List NftRuleSpec → List NftRuleSpec
  unfolding retired_parts unique_nft_specs
  retired_nft_specs old desired = unique_nft_specs k (retired_parts old desired)

  unfoldable pub admitted_parts : List NftRuleSpec → List NftRuleSpec → List NftRuleSpec
  unfolding retired_nft_specs gate_nft_replacements old_candidates
  admitted_parts [] active = []
  admitted_parts (next ∷ desired) active =
      gate_nft_replacements (next ∷ []) (retired_nft_specs (next ∷ []) (old_candidates next active))
      ++ admitted_parts desired active

  unfoldable pub previously_admitted_nft : List NftRuleSpec → List NftRuleSpec → List NftRuleSpec
  unfolding admitted_parts
  previously_admitted_nft desired active = unique_nft_specs k (admitted_parts desired active)
