-- ===== src/Config/Validate.antt =====
-- `Validate` and `validateRules` of internal/config/config.go, whole.
use go_nftables_portbridge.Prelude.{
  ℕ, Bool, true, ◌&&◌, ◌||◌, not, List, [], ◌∷◌, ◌==◌, leb, ltb, length,
}
use go_nftables_portbridge.Prelude.Int.{pos, ltb_ℤ}
use go_nftables_portbridge.Text.{Text, is_empty}
use go_nftables_portbridge.Netip.Forms.{Forms}
use go_nftables_portbridge.Config.{Config, Rule, ResourceLimits, current_version, max_rules}
use go_nftables_portbridge.Config.Errors.{
  Result, ◌>>=◌, ◌>>◌, reject_if, unsupported_version, zero_mark, admin_token, monitor_token,
  too_many_rules,
}
use go_nftables_portbridge.Config.Prefixes.{normalize_dns_servers}
use go_nftables_portbridge.Config.Web.{validate_web, validate_limits}
use go_nftables_portbridge.Config.Rules.{check_rules}
use go_nftables_portbridge.Config.Conflicts.{validate_rule_conflicts}

is_hex : ℕ → Bool
is_hex c = leb b'0' c && leb c b'9' || leb b'a' c && leb c b'f' || leb b'A' c && leb c b'F'

all_hex : Text → Bool
unfolding is_hex
all_hex [] = true
all_hex (c ∷ s) = is_hex c && all_hex s

-- `hex.DecodeString` succeeds on an even number of hexadecimal digits; 32 bytes are 64 of them.
unfoldable pub token_hash_bad : Text → Bool
unfolding all_hex
token_hash_bad sha = not (is_empty sha) && not (all_hex sha && length sha == 64)

module _ (forms : Forms) where
  unfoldable pub validate_rules : List Rule → ResourceLimits → Result (Unit {0})
  unfolding check_rules validate_rule_conflicts
  validate_rules rules limits = do
    reject_if (ltb max_rules (length rules)) too_many_rules
    check_rules forms limits [] (pos 0) rules
    validate_rule_conflicts forms rules

  unfoldable pub validate : Config → Result (Unit {0})
  unfolding validate_web validate_limits token_hash_bad normalize_dns_servers validate_rules
  validate cfg = do
    reject_if (ltb_ℤ cfg.version current_version || ltb_ℤ current_version cfg.version)
        unsupported_version
    validate_web forms cfg.web
    validate_limits cfg.limits
    reject_if (cfg.nft.conntrack_mark == 0) zero_mark
    reject_if (token_hash_bad cfg.web.admin_token_sha) admin_token
    reject_if (token_hash_bad cfg.web.monitor_token_sha) monitor_token
    servers ← normalize_dns_servers forms cfg.web.dns_servers
    validate_rules cfg.rules cfg.limits
