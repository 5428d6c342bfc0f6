-- ===== src/Config/Migrate/Caps.antt =====
-- `migrateV1` of internal/config/config.go: the limits of a migrated rule under the global ones.
use go_nftables_portbridge.Prelude.{arith}
use go_nftables_portbridge.Prelude.Int.{ℤ, pos, ◌≤ℤ◌}
use go_nftables_portbridge.Netip.Forms.{Forms}
use go_nftables_portbridge.Config.{Rule, ResourceLimits}
use go_nftables_portbridge.Config.Normalize.{normalize_rule}
use go_nftables_portbridge.Config.Rules.Spec.{Between}
use go_nftables_portbridge.Config.Migrate.{cap_at, cap_rule, migrate_rule, clear_legacy_defaults}

cap_at-Between : (max v : ℤ) → pos 1 ≤ℤ max → pos 1 ≤ℤ v → Between (pos 1) max (cap_at max v)
unfolding cap_at
cap_at-Between max v h k = ground arith

-- Limits that the validation asks for: positive, the rule's under the global ones, and those of a
-- source under the rule's.
pub record Capped (limits : ResourceLimits) (r : Rule) : Type 0 where
  pub tcp : Between (pos 1) limits.max_tcp_connections r.max_tcp_connections
  pub tcp_source : Between (pos 1) r.max_tcp_connections r.max_tcp_connections_per_ip
  pub udp : Between (pos 1) limits.max_udp_sessions r.max_udp_sessions
  pub udp_source : Between (pos 1) r.max_udp_sessions r.max_udp_sessions_per_ip

-- A rule's own limits are positive.
pub record Positive (r : Rule) : Type 0 where
  pub tcp : pos 1 ≤ℤ r.max_tcp_connections
  pub tcp_source : pos 1 ≤ℤ r.max_tcp_connections_per_ip
  pub udp : pos 1 ≤ℤ r.max_udp_sessions
  pub udp_source : pos 1 ≤ℤ r.max_udp_sessions_per_ip

-- Under positive global limits, a rule of version 1 whose limits are positive once the old defaults are
-- cleared and the rule is normalized comes out of the migration with its limits in the order that the
-- validation asks for, whatever their sizes were.
pub migrate_rule-Capped :
    (forms : Forms) (limits : ResourceLimits) (legacy : Rule)
    → pos 1 ≤ℤ limits.max_tcp_connections
    → pos 1 ≤ℤ limits.max_udp_sessions
    → Positive (normalize_rule forms (clear_legacy_defaults legacy))
    → Capped limits (migrate_rule forms limits legacy)
unfolding migrate_rule cap_rule
migrate_rule-Capped forms limits legacy h k p =
    let r = normalize_rule forms (clear_legacy_defaults legacy) in
    let tcp = cap_at-Between limits.max_tcp_connections r.max_tcp_connections h p.tcp in
    let udp = cap_at-Between limits.max_udp_sessions r.max_udp_sessions k p.udp in
    record {
      tcp = tcp;
      tcp_source = cap_at-Between _ r.max_tcp_connections_per_ip tcp.0 p.tcp_source;
      udp = udp;
      udp_source = cap_at-Between _ r.max_udp_sessions_per_ip udp.0 p.udp_source;
    }
