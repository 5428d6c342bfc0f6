-- ===== src/Config/Targets.antt =====
-- `ValidateTargetAddress` of internal/config/config.go: the policy for local and private targets.
pub mod Policy
use go_nftables_portbridge.Prelude.{
  Bool, true, false, ◌&&◌, ◌||◌, not, List, [], ◌∷◌, Option, none, some,
}
use go_nftables_portbridge.Text.{Text}
use go_nftables_portbridge.Netip.{
  Addr, v4, Prefix, is_valid, unmap, is_unspecified, is_multicast, is_global_unicast, is_loopback,
  is_link_local_unicast, is_link_local_multicast, is_private, contains,
}
use go_nftables_portbridge.Netip.Forms.{Forms}
use go_nftables_portbridge.Config.{Rule}
use go_nftables_portbridge.Config.Errors.{
  Result, ok, err, ◌>>=◌, ◌>>◌, reject_if, panicked, not_unicast, private_denied, private_outside,
}
use go_nftables_portbridge.Config.Prefixes.{normalize_target_cidrs}

-- 100.64.0.0/10 and 100.100.100.200/32
abbrev pub restricted_target_prefixes : List Prefix
restricted_target_prefixes =
    record { addr = v4 0x64400000; bits = 10 } ∷ record { addr = v4 0x646464c8; bits = 32 } ∷ []

unfoldable pub any_contains : List Prefix → Addr → Bool
any_contains [] a = false
any_contains (p ∷ ps) a = contains p a || any_contains ps a

unfoldable pub is_restricted : Addr → Bool
unfolding any_contains
is_restricted a =
    is_loopback a
    || is_link_local_unicast a
    || is_link_local_multicast a
    || is_private a
    || any_contains restricted_target_prefixes a

unfoldable pub not_a_target : Addr → Bool
not_a_target a =
    not (is_valid a)
    || is_unspecified a
    || is_multicast a
    || not (is_global_unicast a) && not (is_loopback a) && not (is_link_local_unicast a)

module _ (forms : Forms) where
  open forms use {parse_prefix}

  -- The loop over the normalized allowlist. `MustParsePrefix` panics on a text that is no prefix.
  unfoldable pub find_allowed : List Text → Addr → Result (Unit {0})
  find_allowed [] a = err private_outside
  find_allowed (raw ∷ allowlist) a = elim (parse_prefix raw) [
    | none ↦ err panicked
    | some p ↦ elim (contains p a) [ true ↦ ok tt | false ↦ find_allowed allowlist a ]
  ]

  -- What is left to do once the test for a restricted address is made.
  unfoldable pub check_restricted : Rule → Addr → Bool → Result (Unit {0})
  unfolding find_allowed
  check_restricted rule a false = ok tt
  check_restricted rule a true = do
    reject_if (not rule.allow_private_target) private_denied
    allowlist ← normalize_target_cidrs forms rule.target_cidr_allowlist
    find_allowed allowlist a

  unfoldable pub validate_target_address : Rule → Addr → Result (Unit {0})
  unfolding check_restricted
  validate_target_address rule address = do
    let a = unmap address
    reject_if (not_a_target a) not_unicast
    check_restricted rule a (is_restricted a)
