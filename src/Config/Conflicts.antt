-- ===== src/Config/Conflicts.antt =====
-- `validateRuleConflicts` of internal/config/config.go and the tests that it makes on two rules.
pub mod Overlap
pub mod Disjoint
use go_nftables_portbridge.Prelude.{
  Bool, true, false, ◌&&◌, ◌||◌, not, List, [], ◌∷◌, map, Option, none, some, ◌==◌,
}
use go_nftables_portbridge.Prelude.Int.{ltb_ℤ}
use go_nftables_portbridge.Text.{Text, codes, text_eq}
use go_nftables_portbridge.Netip.{Addr, addr_eq, bit_length, is_unspecified}
use go_nftables_portbridge.Netip.Forms.{Forms}
use go_nftables_portbridge.Config.{Rule, protocol_both}
use go_nftables_portbridge.Config.Errors.{Result, ok, err, rule_conflict}
use go_nftables_portbridge.Config.Normalize.{normalize_rule, last_listen_port}

unfoldable pub protocols_overlap : Text → Text → Bool
protocols_overlap a b = text_eq a b || text_eq a protocol_both || text_eq b protocol_both

unfoldable pub port_ranges_overlap : Rule → Rule → Bool
port_ranges_overlap a b =
    not (ltb_ℤ (last_listen_port b) a.listen_port) && not (ltb_ℤ (last_listen_port a) b.listen_port)

-- The part of `listenHostsOverlap` behind the parsing.
unfoldable pub addrs_overlap : Addr → Addr → Bool
addrs_overlap a b =
    bit_length a == bit_length b && (addr_eq a b || is_unspecified a || is_unspecified b)

module _ (forms : Forms) where
  open forms use {parse_addr}

  abbrev overlap_parsed : Option Addr → Option Addr → Bool
  overlap_parsed (some a) (some b) = addrs_overlap a b
  overlap_parsed _ _ = false

  unfoldable pub listen_hosts_overlap : Text → Text → Bool
  unfolding addrs_overlap
  listen_hosts_overlap a b =
      text_eq a (codes "*") || text_eq b (codes "*") || overlap_parsed (parse_addr a) (parse_addr b)

  -- The test of the inner loop, on normalized rules of which `a` is enabled.
  unfoldable pub rules_conflict : Rule → Rule → Bool
  unfolding protocols_overlap port_ranges_overlap listen_hosts_overlap
  rules_conflict a b =
      b.enabled
      && protocols_overlap a.protocol b.protocol
      && port_ranges_overlap a b
      && listen_hosts_overlap a.listen_host b.listen_host

  -- The inner loop, over the rules behind `a`.
  unfoldable pub check_against : Rule → List Rule → Result (Unit {0})
  unfolding rules_conflict
  check_against a [] = ok tt
  check_against a (raw ∷ rules) = elim (rules_conflict a (normalize_rule forms raw)) [
    | true ↦ err rule_conflict
    | false ↦ check_against a rules
  ]

  unfoldable pub validate_rule_conflicts : List Rule → Result (Unit {0})
  unfolding check_against
  validate_rule_conflicts [] = ok tt
  validate_rule_conflicts (raw ∷ rules) = elim (normalize_rule forms raw).enabled [
    | false ↦ validate_rule_conflicts rules
    | true ↦ elim (check_against (normalize_rule forms raw) rules) [
      | err e ↦ err e
      | ok _ ↦ validate_rule_conflicts rules
    ]
  ]
