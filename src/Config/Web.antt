-- ===== src/Config/Web.antt =====
-- `validateWeb`, `webHasNonLoopbackListener` and `validateLimits` of internal/config/config.go.
use go_nftables_portbridge.Prelude.{
  ◌*◌, ◌^◌, Bool, true, false, ◌&&◌, ◌||◌, not, List, [], ◌∷◌, none, some, ◌==◌,
}
use go_nftables_portbridge.Prelude.Int.{ℤ, pos, ltb_ℤ}
use go_nftables_portbridge.Text.{Text, codes, text_eq, trim_space, is_empty}
use go_nftables_portbridge.Netip.{is_loopback, is_multicast, is_unspecified}
use go_nftables_portbridge.Netip.Forms.{Forms}
use go_nftables_portbridge.Config.{WebConfig, ResourceLimits}
use go_nftables_portbridge.Config.Errors.{
  Error, Result, ok, err, ◌>>=◌, ◌>>◌, reject_if, panicked, web_port, web_listen_literal,
  web_listen_invalid, web_requires_tls, web_requires_https, web_tls_pair, web_tls_version,
  web_tls_path, web_all_addresses, strict_auto_lan, strict_empty, strict_no_tls,
  strict_all_addresses, limit_tcp, limit_udp, limit_udp_memory,
}
use go_nftables_portbridge.Config.Prefixes.{normalize_whitelist}

-- `v < lo || v > hi`
abbrev pub outside : ℤ → ℤ → ℤ → Bool
outside lo hi v = ltb_ℤ v lo || ltb_ℤ hi v

unfoldable pub validate_limits : ResourceLimits → Result (Unit {0})
validate_limits limits = do
  reject_if (outside (pos 1) (pos 1_000_000) limits.max_tcp_connections) limit_tcp
  reject_if (outside (pos 1) (pos 10_000_000) limits.max_udp_sessions) limit_udp
  reject_if (outside (pos (64 * 1024 * 1024)) (pos (2 ^ 40)) limits.max_udp_memory_bytes)
      limit_udp_memory
  ok tt

-- `filepath.IsAbs` on Linux.
abbrev is_absolute : Text → Bool
is_absolute [] = false
is_absolute (c ∷ s) = c == b'/'

-- The `switch` on `tls_min_version`.
abbrev tls_version_known : Text → Bool
tls_version_known v = is_empty v || text_eq v (codes "1.2") || text_eq v (codes "1.3")

module _ (forms : Forms) where
  open forms use {parse_addr, parse_prefix}

  unfoldable pub non_loopback : Text → Bool
  non_loopback raw = elim (is_empty raw) [
    | true ↦ false
    | false ↦ elim (parse_addr raw) [ none ↦ false | some ip ↦ not (is_loopback ip) ]
  ]

  unfoldable pub web_has_non_loopback_listener : WebConfig → Bool
  unfolding non_loopback
  web_has_non_loopback_listener web = non_loopback web.listen_ipv4 || non_loopback web.listen_ipv6

  -- One of the two listen addresses.
  unfoldable pub check_web_listener : Text → Result (Unit {0})
  check_web_listener host = elim (is_empty host) [
    | true ↦ ok tt
    | false ↦ elim (parse_addr host) [
      | none ↦ err web_listen_literal
      | some ip ↦
          reject_if
            (is_multicast ip
              || is_unspecified ip
                && not (text_eq host (codes "0.0.0.0"))
                && not (text_eq host (codes "::")))
            web_listen_invalid
    ]
  ]

  -- A loop over normalized prefixes that refuses the all-address ones, unless they are allowed.
  unfoldable pub check_all_addresses : Bool → Error → List Text → Result (Unit {0})
  check_all_addresses allowed e [] = ok tt
  check_all_addresses allowed e (raw ∷ rest) = elim (parse_prefix raw) [
    | none ↦ err panicked
    | some p ↦ elim (p.bits == 0 && not allowed) [
      | true ↦ err e
      | false ↦ check_all_addresses allowed e rest
    ]
  ]

  abbrev no_entries : List Text → Bool
  no_entries [] = true
  no_entries (x ∷ xs) = false

  unfoldable pub check_strict : WebConfig → Text → List Text → Result (Unit {0})
  unfolding check_all_addresses
  check_strict web cert_file whitelist = elim web.strict_ip_allowlist [
    | false ↦ ok tt
    | true ↦ do
      reject_if web.auto_lan_acl strict_auto_lan
      reject_if (no_entries whitelist) strict_empty
      reject_if (is_empty cert_file) strict_no_tls
      check_all_addresses false strict_all_addresses whitelist
  ]

  -- The TLS settings: both files or none, absolute paths, a known version.
  unfoldable pub check_tls : WebConfig → Text → Text → Result (Unit {0})
  check_tls web cert_file key_file = do
    reject_if
        (web.require_https && (is_empty cert_file || is_empty key_file || web.allow_insecure_http))
        web_requires_https
    reject_if
        (is_empty cert_file && not (is_empty key_file)
          || not (is_empty cert_file) && is_empty key_file)
        web_tls_pair
    reject_if (not (tls_version_known web.tls_min_version)) web_tls_version
    reject_if (not (is_empty cert_file) && not (is_absolute cert_file)) web_tls_path
    reject_if (not (is_empty key_file) && not (is_absolute key_file)) web_tls_path

  unfoldable pub validate_web : WebConfig → Result (Unit {0})
  unfolding web_has_non_loopback_listener check_web_listener check_tls check_all_addresses
      check_strict
  validate_web web = do
    reject_if (outside (pos 1) (pos 65535) web.port) web_port
    check_web_listener web.listen_ipv4
    check_web_listener web.listen_ipv6
    reject_if
        (is_empty web.tls_cert_file
          && is_empty web.tls_key_file
          && web_has_non_loopback_listener web
          && not web.allow_insecure_http)
        web_requires_tls
    whitelist ← normalize_whitelist forms web.whitelist
    check_tls web (trim_space web.tls_cert_file) (trim_space web.tls_key_file)
    check_all_addresses web.allow_unsafe_all_acl web_all_addresses whitelist
    check_strict web (trim_space web.tls_cert_file) whitelist
