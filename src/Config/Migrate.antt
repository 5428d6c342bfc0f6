-- ===== src/Config/Migrate.antt =====
-- `migrateV1` of internal/config/config.go and the steps with which `ReadOnly` of
-- internal/config/read_only.go completes a decoded configuration.
pub mod Caps
use go_nftables_portbridge.Prelude.{◌*◌, Bool, true, ◌&&◌, not, List, [], ◌∷◌, map, if◌then◌else◌}
use go_nftables_portbridge.Prelude.Int.{ℤ, pos, ltb_ℤ}
use go_nftables_portbridge.Text.{Text, codes, trim_space, is_empty}
use go_nftables_portbridge.Netip.Forms.{Forms}
use go_nftables_portbridge.Config.{
  Config, Rule, WebConfig, ResourceLimits, current_version, default_nft_conntrack_mark,
}
use go_nftables_portbridge.Config.Errors.{Result, ok, ◌>>=◌, ◌>>◌}
use go_nftables_portbridge.Config.Prefixes.{normalize_dns_servers}
use go_nftables_portbridge.Config.Normalize.{normalize_rule, apply_config_defaults, or_default}
use go_nftables_portbridge.Config.Web.{web_has_non_loopback_listener}
use go_nftables_portbridge.Config.Validate.{validate}

abbrev pub legacy_private_cidrs : List Text
legacy_private_cidrs =
    codes "10.0.0.0/8"
    ∷ codes "100.64.0.0/10"
    ∷ codes "127.0.0.0/8"
    ∷ codes "169.254.0.0/16"
    ∷ codes "172.16.0.0/12"
    ∷ codes "192.168.0.0/16"
    ∷ codes "::1/128"
    ∷ codes "fc00::/7"
    ∷ codes "fe80::/10"
    ∷ []

abbrev equal_ℤ : ℤ → ℤ → Bool
equal_ℤ a b = not (ltb_ℤ a b) && not (ltb_ℤ b a)

-- The old release defaults go back to 0, for the new defaults to take their place.
unfoldable pub clear_legacy_defaults : Rule → Rule
clear_legacy_defaults legacy = record legacy {
  max_udp_sessions =
      if equal_ℤ legacy.max_udp_sessions (pos 65536) then pos 0 else legacy.max_udp_sessions;
  udp_session_buffer_bytes =
      if equal_ℤ legacy.udp_session_buffer_bytes (pos (256 * 1024))
      then pos 0
      else legacy.udp_session_buffer_bytes;
}

-- `if v > max { v = max }`
unfoldable pub cap_at : ℤ → ℤ → ℤ
cap_at max v = if ltb_ℤ max v then max else v

abbrev or_legacy_cidrs : List Text → List Text
or_legacy_cidrs [] = legacy_private_cidrs
or_legacy_cidrs (x ∷ xs) = x ∷ xs

-- The caps on a normalized rule: the global limit first, then the rule's own.
unfoldable pub cap_rule : ResourceLimits → Rule → Rule
unfolding cap_at
cap_rule limits r = record r {
  max_tcp_connections = cap_at limits.max_tcp_connections r.max_tcp_connections;
  max_tcp_connections_per_ip =
      cap_at (cap_at limits.max_tcp_connections r.max_tcp_connections) r.max_tcp_connections_per_ip;
  max_udp_sessions = cap_at limits.max_udp_sessions r.max_udp_sessions;
  max_udp_sessions_per_ip =
      cap_at (cap_at limits.max_udp_sessions r.max_udp_sessions) r.max_udp_sessions_per_ip;
  allow_private_target = true;
  target_cidr_allowlist = or_legacy_cidrs r.target_cidr_allowlist;
}

module _ (forms : Forms) where
  unfoldable pub migrate_rule : ResourceLimits → Rule → Rule
  unfolding clear_legacy_defaults normalize_rule cap_rule
  migrate_rule limits legacy = cap_rule limits (normalize_rule forms (clear_legacy_defaults legacy))

  unfoldable pub migrate_web : WebConfig → WebConfig
  unfolding web_has_non_loopback_listener
  migrate_web web =
      if is_empty web.tls_cert_file
        && is_empty web.tls_key_file
        && web_has_non_loopback_listener forms web
      then record web { allow_insecure_http = true }
      else web

  unfoldable pub migrate_v1 : Config → Config
  unfolding migrate_web apply_config_defaults migrate_rule
  migrate_v1 cfg =
      let limits = (apply_config_defaults cfg).limits in
      record {
        version = current_version;
        web = migrate_web cfg.web;
        limits = limits;
        nft = record { conntrack_mark = default_nft_conntrack_mark; enable_flowtable = true };
        rules = map (migrate_rule limits) cfg.rules;
      }

  -- The addresses to listen on, where none is given.
  unfoldable pub complete_web : WebConfig → WebConfig
  unfolding or_default
  complete_web web =
      let unset = is_empty web.listen_ipv4 && is_empty web.listen_ipv6 in
      record web {
        port = or_default web.port (pos 9080);
        listen_ipv4 = if unset then codes "127.0.0.1" else web.listen_ipv4;
        listen_ipv6 = if unset then codes "::1" else web.listen_ipv6;
        tls_cert_file = trim_space web.tls_cert_file;
        tls_key_file = trim_space web.tls_key_file;
        tls_min_version = trim_space web.tls_min_version;
      }

  -- Versions 0 and 1 are migrated.
  unfoldable pub migrate_old : Config → Config
  unfolding migrate_v1
  migrate_old cfg =
      if not (ltb_ℤ cfg.version (pos 0)) && not (ltb_ℤ (pos 1) cfg.version)
      then migrate_v1 cfg
      else cfg

  -- `ReadOnly`, behind the reading and the decoding of the file.
  unfoldable pub read_only : Config → Result Config
  unfolding migrate_old complete_web apply_config_defaults normalize_dns_servers validate
  read_only decoded = do
    let cfg = migrate_old decoded
    let web = complete_web cfg.web
    servers ← normalize_dns_servers forms web.dns_servers
    let done = apply_config_defaults (record cfg { web = record web { dns_servers = servers } })
    validate forms done
    ok done
