-- ===== src/Config/Rules.antt =====
-- `validateRules` of internal/config/config.go. The body of its loop is a chain of groups of
-- checks, in the order of the source; each returns at the first check that fails.
pub mod Spec
pub mod Ports
pub mod Backup
pub mod Loop
use go_nftables_portbridge.Prelude.{
  ℕ, ◌+◌, ◌*◌, Bool, true, false, ◌&&◌, ◌||◌, not, List, [], ◌∷◌, Option, none, some, ltb, length,
  if◌then◌else◌,
}
use go_nftables_portbridge.Prelude.Int.{ℤ, pos, ltb_ℤ, nonzero, ◌+ℤ◌, ◌-ℤ◌}
use go_nftables_portbridge.Text.{Text, codes, text_eq, byte_length, is_empty}
use go_nftables_portbridge.Text.Sets.{has_key}
use go_nftables_portbridge.Netip.{Addr, is_multicast}
use go_nftables_portbridge.Netip.Forms.{Forms}
use go_nftables_portbridge.Config.{
  Rule, ResourceLimits, protocol_tcp, protocol_udp, protocol_both, rule_data_plane_nft,
  rule_data_plane_go, max_port_range_size,
}
use go_nftables_portbridge.Config.Errors.{
  Result, ok, err, ◌>>=◌, ◌>>◌, reject_if, empty_id, duplicate_id, empty_name, long_name, long_id,
  bad_protocol, bad_data_plane, port_range, listen_order, target_order, range_mismatch, range_size,
  empty_target, long_target, dns_ttl, backup_port_only, backup_plane, backup_range, health_config,
  health_endpoints, health_timeout, listen_literal, listen_multicast, connect_timeout, tcp_idle,
  tcp_max, tcp_per_source, udp_idle, udp_max, udp_global, udp_per_source, udp_new_rate,
  udp_packet_rate, udp_worker_count, udp_batch, udp_packet_buffer, udp_listener_buffer,
  udp_session_buffer, private_no_list,
}
use go_nftables_portbridge.Config.Prefixes.{normalize_target_cidrs}
use go_nftables_portbridge.Config.Normalize.{normalize_rule, last_listen_port, last_target_port}
use go_nftables_portbridge.Config.Targets.{validate_target_address}
use go_nftables_portbridge.Config.Web.{outside}

-- `a != b` on integers.
abbrev differ_ℤ : ℤ → ℤ → Bool
differ_ℤ a b = ltb_ℤ a b || ltb_ℤ b a

unfoldable pub check_identity : List Text → Rule → Result (Unit {0})
check_identity seen r = do
  reject_if (is_empty r.id) empty_id
  reject_if (has_key r.id seen) duplicate_id
  reject_if (is_empty r.name) empty_name
  reject_if (ltb 80 (byte_length r.name)) long_name
  reject_if (ltb 128 (byte_length r.id)) long_id

unfoldable pub check_planes : Rule → Result (Unit {0})
check_planes r = do
  reject_if
      (not (text_eq r.protocol protocol_tcp)
        && not (text_eq r.protocol protocol_udp)
        && not (text_eq r.protocol protocol_both))
      bad_protocol
  reject_if
      (not (text_eq r.data_plane rule_data_plane_nft)
        && not (text_eq r.data_plane rule_data_plane_go))
      bad_data_plane

-- `listenEnd-r.ListenPort != targetEnd-r.TargetPort` and the size of the range.
unfoldable pub check_port_values : ℤ → ℤ → ℤ → ℤ → Result (Unit {0})
check_port_values listen listen_end target target_end = do
  reject_if
      (outside (pos 1) (pos 65535) listen
        || outside (pos 1) (pos 65535) listen_end
        || outside (pos 1) (pos 65535) target
        || outside (pos 1) (pos 65535) target_end)
      port_range
  reject_if (ltb_ℤ listen_end listen) listen_order
  reject_if (ltb_ℤ target_end target) target_order
  reject_if (differ_ℤ (listen_end -ℤ listen) (target_end -ℤ target)) range_mismatch
  reject_if (ltb_ℤ (pos max_port_range_size) (listen_end -ℤ listen +ℤ pos 1)) range_size

unfoldable pub check_ports : Rule → Result (Unit {0})
unfolding check_port_values
check_ports r =
    check_port_values r.listen_port (last_listen_port r) r.target_port (last_target_port r)

unfoldable pub check_target_host : Rule → Result (Unit {0})
check_target_host r = do
  reject_if (is_empty r.target_host) empty_target
  reject_if (ltb 253 (byte_length r.target_host)) long_target
  reject_if (outside (pos 1) (pos 3600) r.dns_cache_ttl_seconds) dns_ttl

-- `r.BackupTargetPort < 1 || r.BackupTargetPort+listenEnd-r.ListenPort > 65535`, on 64-bit integers.
unfoldable pub backup_port_bad : ℤ → ℤ → ℤ → Bool
backup_port_bad backup listen_end listen =
    ltb_ℤ backup (pos 1) || ltb_ℤ (pos 65535) (backup +ℤ listen_end -ℤ listen)

unfoldable pub check_tcp_limits : ResourceLimits → Rule → Result (Unit {0})
check_tcp_limits limits r = do
  reject_if (outside (pos 1) (pos 300) r.connect_timeout_seconds) connect_timeout
  reject_if (outside (pos 5) (pos 86400) r.tcp_idle_timeout_seconds) tcp_idle
  reject_if (outside (pos 1) limits.max_tcp_connections r.max_tcp_connections) tcp_max
  reject_if (outside (pos 1) r.max_tcp_connections r.max_tcp_connections_per_ip) tcp_per_source

unfoldable pub check_udp_limits : ResourceLimits → Rule → Result (Unit {0})
check_udp_limits limits r = do
  reject_if (outside (pos 5) (pos 86400) r.udp_idle_timeout_seconds) udp_idle
  reject_if (outside (pos 1) (pos 10_000_000) r.max_udp_sessions) udp_max
  reject_if (ltb_ℤ limits.max_udp_sessions r.max_udp_sessions) udp_global
  reject_if (outside (pos 1) r.max_udp_sessions r.max_udp_sessions_per_ip) udp_per_source
  reject_if (outside (pos 1) (pos 10_000_000) r.udp_new_sessions_per_sec) udp_new_rate
  reject_if (outside (pos 1) (pos 100_000_000) r.udp_packets_per_sec) udp_packet_rate

unfoldable pub check_udp_buffers : Rule → Result (Unit {0})
check_udp_buffers r = do
  reject_if (outside (pos 0) (pos 128) r.udp_workers) udp_worker_count
  reject_if (outside (pos 1) (pos 256) r.udp_batch_size) udp_batch
  reject_if (outside (pos 512) (pos 65535) r.udp_packet_buffer_size) udp_packet_buffer
  reject_if (outside (pos (64 * 1024)) (pos (256 * 1024 * 1024)) r.udp_listener_buffer_bytes)
      udp_listener_buffer
  reject_if (outside (pos (64 * 1024)) (pos (16 * 1024 * 1024)) r.udp_session_buffer_bytes)
      udp_session_buffer

-- The endpoints that the TCP connect checks of a rule take, added to those so far.
unfoldable pub check_health : Rule → ℤ → Result ℤ
check_health r endpoints = elim (nonzero r.tcp_health_interval_seconds) [
  | true ↦ do
    reject_if
        (not (text_eq r.protocol protocol_tcp)
          || not (text_eq r.data_plane rule_data_plane_go)
          || outside (pos 5) (pos 3600) r.tcp_health_interval_seconds
          || outside (pos 1) (pos 30) r.tcp_health_timeout_seconds)
        health_config
    let ports = last_listen_port r -ℤ r.listen_port +ℤ pos 1
    let total = endpoints +ℤ (if text_eq r.listen_host (codes "*") then ports +ℤ ports else ports)
    reject_if (ltb_ℤ (pos 256) total) health_endpoints
    ok total
  | false ↦ do reject_if (nonzero r.tcp_health_timeout_seconds) health_timeout; ok endpoints
]

abbrev no_targets : List Text → Bool
no_targets [] = true
no_targets (x ∷ xs) = false

module _ (forms : Forms) where
  open forms use {parse_addr}

  -- An address literal is held to the target policy; a name is, once it is resolved.
  unfoldable pub check_literal : Rule → Text → Result (Unit {0})
  check_literal r host = elim (parse_addr host) [
    | none ↦ ok tt
    | some address ↦ validate_target_address forms r address
  ]

  unfoldable pub check_backup : Rule → Result (Unit {0})
  unfolding check_literal backup_port_bad
  check_backup r = elim (is_empty r.backup_target_host) [
    | true ↦ reject_if (nonzero r.backup_target_port) backup_port_only
    | false ↦ do
      reject_if
          (not (text_eq r.protocol protocol_tcp) || not (text_eq r.data_plane rule_data_plane_go))
          backup_plane
      reject_if
          (ltb 253 (byte_length r.backup_target_host)
            || backup_port_bad r.backup_target_port (last_listen_port r) r.listen_port)
          backup_range
      check_literal r r.backup_target_host
  ]

  unfoldable pub check_listen_host : Rule → Result (Unit {0})
  check_listen_host r = elim (text_eq r.listen_host (codes "*")) [
    | true ↦ ok tt
    | false ↦ elim (parse_addr r.listen_host) [
      | none ↦ err listen_literal
      | some ip ↦ reject_if (is_multicast ip) listen_multicast
    ]
  ]

  unfoldable pub check_targets : Rule → Result (Unit {0})
  unfolding check_literal
  check_targets r = do
    targets ← normalize_target_cidrs forms r.target_cidr_allowlist
    reject_if (r.allow_private_target && no_targets targets) private_no_list
    check_literal r r.target_host

  -- The body of the loop: the identifiers seen and the health endpoints come in, the endpoints go out.
  unfoldable pub check_rule : ResourceLimits → List Text → ℤ → Rule → Result ℤ
  unfolding check_identity check_planes check_ports check_target_host check_backup check_health
      check_listen_host check_tcp_limits check_udp_limits check_udp_buffers check_targets
  check_rule limits seen endpoints r = do
    check_identity seen r
    check_planes r
    check_ports r
    check_target_host r
    check_backup r
    total ← check_health r endpoints
    check_listen_host r
    check_tcp_limits limits r
    check_udp_limits limits r
    check_udp_buffers r
    check_targets r
    ok total

  unfoldable pub check_rules : ResourceLimits → List Text → ℤ → List Rule → Result (Unit {0})
  unfolding check_rule
  check_rules limits seen endpoints [] = ok tt
  check_rules limits seen endpoints (raw ∷ rules) =
      elim (check_rule limits seen endpoints (normalize_rule forms raw)) [
        | err e ↦ err e
        | ok total ↦ check_rules limits ((normalize_rule forms raw).id ∷ seen) total rules
      ]
