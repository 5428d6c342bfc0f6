-- ===== src/Examples/Rules.antt =====
-- Witnesses and tests on rules and on the policy of their targets.
use go_nftables_portbridge.Prelude.{
  ◌+◌, ◌≤◌, ◌<◌, ◌≡◌, refl, ◌↔◌, ◌⊎◌, true, false, [], ◌∷◌, arith, All,
}
use go_nftables_portbridge.Prelude.Int.{pos, ◌+ℤ◌, ◌-ℤ◌}
use go_nftables_portbridge.Text.{
  codes, text_eq, trim_space, to_lower, lower_code, is_space, text_ltb, trim_left, trim_right,
  byte_length,
}
use go_nftables_portbridge.Text.Sets.{sort_texts, add_key, has_key, insert_sorted}
use go_nftables_portbridge.Text.Members.{Any}
use go_nftables_portbridge.Netip.{
  v4, v6, unmap, is_global_unicast, is_link_local_multicast, masked, addr_eq, is_loopback,
  is_private, is_link_local_unicast, contains, is_unspecified, is_multicast,
}
use go_nftables_portbridge.Config.{Rule}
use go_nftables_portbridge.Config.Errors.{ok}
use go_nftables_portbridge.Config.Normalize.{
  normalize_rule, normalize_host, normalize_allowlist, or_default, or_text, normalize_backup_port,
  normalize_health_timeout, last_listen_port, last_target_port,
}
use go_nftables_portbridge.Config.Prefixes.{
  normalize_target_cidrs, collect_target_cidrs, target_cidr_key,
}
use go_nftables_portbridge.Config.Targets.{
  validate_target_address, not_a_target, is_restricted, any_contains, check_restricted,
  find_allowed,
}
use go_nftables_portbridge.Config.Targets.Policy.{validate_target_address_sound, Admits}
use go_nftables_portbridge.Config.Rules.{
  check_rules, check_rule, check_identity, check_planes, check_ports, check_port_values,
  check_target_host, check_backup, check_health, check_listen_host, check_tcp_limits,
  check_udp_limits, check_udp_buffers, check_targets, check_literal, backup_port_bad,
}
use go_nftables_portbridge.Config.Rules.Ports.{check_ports-PortsFit, PortsFit}
use go_nftables_portbridge.Config.Rules.Backup.{backup_port_wraps}
use go_nftables_portbridge.Config.Rules.Loop.{check_rules-RulesFit, RulesFit, health_total}
use go_nftables_portbridge.Config.Conflicts.{
  validate_rule_conflicts, check_against, rules_conflict, protocols_overlap, port_ranges_overlap,
  listen_hosts_overlap, addrs_overlap,
}
use go_nftables_portbridge.Config.Conflicts.Disjoint.{
  validate_rule_conflicts-AllDisjoint, AllDisjoint, PlainHost,
}
use go_nftables_portbridge.Config.Migrate.{migrate_rule, clear_legacy_defaults}
use go_nftables_portbridge.Config.Migrate.Caps.{Capped, Positive, migrate_rule-Capped}
use go_nftables_portbridge.Examples.{web_rule, two_rules, small_limits}
use go_nftables_portbridge.Examples.Forms.{sample_forms, sample_forms-Documented}

no_conflict : validate_rule_conflicts sample_forms two_rules ≡ ok tt
unfolding validate_rule_conflicts check_against rules_conflict protocols_overlap port_ranges_overlap
    listen_hosts_overlap addrs_overlap addr_eq normalize_rule to_lower lower_code normalize_host
    normalize_allowlist or_default or_text normalize_backup_port normalize_health_timeout
    last_listen_port last_target_port validate_target_address not_a_target unmap is_unspecified
    is_multicast is_global_unicast is_restricted is_loopback is_link_local_unicast
    is_link_local_multicast is_private normalize_target_cidrs trim_space text_eq masked sort_texts
    add_key contains collect_target_cidrs target_cidr_key any_contains check_restricted find_allowed
    has_key insert_sorted is_space text_ltb trim_left trim_right
no_conflict = refl

plain_hosts : All (PlainHost sample_forms) two_rules
unfolding normalize_rule normalize_host to_lower lower_code trim_space trim_left trim_right is_space
    text_eq
plain_hosts = (refl, (refl, tt))

validate_rule_conflicts-AllDisjoint_example : AllDisjoint sample_forms two_rules
validate_rule_conflicts-AllDisjoint_example =
    validate_rule_conflicts-AllDisjoint sample_forms two_rules plain_hosts no_conflict

private_passes : validate_target_address sample_forms web_rule (v6 0xffff0a000005 []) ≡ ok tt
unfolding validate_target_address not_a_target unmap is_unspecified is_multicast is_global_unicast
    is_restricted is_loopback is_link_local_unicast is_link_local_multicast is_private
    normalize_target_cidrs trim_space text_eq masked sort_texts add_key contains
    collect_target_cidrs target_cidr_key any_contains check_restricted find_allowed has_key
    insert_sorted is_space text_ltb trim_left trim_right
private_passes = refl

validate_target_address_sound_example :
    (not_a_target (unmap (v6 0xffff0a000005 [])) ≡ false)
    × ((is_restricted (unmap (v6 0xffff0a000005 [])) ≡ false)
        ⊎ ((true ≡ true)
            × Any (Admits sample_forms (unmap (v6 0xffff0a000005 []))) (codes "10.0.0.0/8" ∷ [])))
validate_target_address_sound_example =
    validate_target_address_sound sample_forms sample_forms-Documented web_rule
      (v6 0xffff0a000005 []) private_passes

rules_pass : check_rules sample_forms small_limits [] (pos 0) two_rules ≡ ok tt
unfolding check_rules check_rule check_identity check_planes check_ports check_port_values
    check_target_host check_backup check_health check_listen_host check_tcp_limits check_udp_limits
    check_udp_buffers check_targets check_literal backup_port_bad byte_length ◌+ℤ◌ ◌-ℤ◌
    normalize_rule to_lower lower_code normalize_host normalize_allowlist or_default or_text
    normalize_backup_port normalize_health_timeout last_listen_port last_target_port
    validate_target_address not_a_target unmap is_unspecified is_multicast is_global_unicast
    is_restricted is_loopback is_link_local_unicast is_link_local_multicast is_private
    normalize_target_cidrs trim_space text_eq masked sort_texts add_key contains
    collect_target_cidrs target_cidr_key any_contains check_restricted find_allowed has_key
    insert_sorted is_space text_ltb trim_left trim_right
rules_pass = refl

check_rules-RulesFit_example :
    RulesFit sample_forms small_limits [] two_rules
    × (0 + health_total sample_forms two_rules ≤ 256)
check_rules-RulesFit_example =
    check_rules-RulesFit sample_forms small_limits [] 0 two_rules (omega arith) rules_pass

check_ports-PortsFit_example :
    (check_ports web_rule ≡ ok tt)
    ↔ PortsFit (pos 8080) (last_listen_port web_rule) (pos 80) (last_target_port web_rule)
check_ports-PortsFit_example = check_ports-PortsFit web_rule

abbrev public_rule : Rule
public_rule = record web_rule { allow_private_target = false }

public_passes : validate_target_address sample_forms public_rule (v4 0x08080808) ≡ ok tt
unfolding validate_target_address not_a_target unmap is_unspecified is_multicast is_global_unicast
    is_restricted is_loopback is_link_local_unicast is_link_local_multicast is_private
    normalize_target_cidrs trim_space text_eq masked sort_texts add_key contains
    collect_target_cidrs target_cidr_key any_contains check_restricted find_allowed has_key
    insert_sorted is_space text_ltb trim_left trim_right
public_passes = refl

backup_port_wraps_example :
    (backup_port_bad (pos 9223372036854775807) (pos (8080 + 1)) (pos 8080) ≡ false)
    × (65535 < 9223372036854775807)
backup_port_wraps_example =
    backup_port_wraps 9223372036854775807 8080 1 (omega arith) (omega arith) (omega arith)
      (omega arith)

-- A rule of version 1 with the old default for its sessions and more connections than permitted.
abbrev legacy_rule : Rule
legacy_rule = record web_rule {
  max_tcp_connections = pos 5000;
  max_tcp_connections_per_ip = pos 2000;
  max_udp_sessions = pos 65536;
}

legacy-Positive : Positive (normalize_rule sample_forms (clear_legacy_defaults legacy_rule))
unfolding normalize_rule or_default clear_legacy_defaults
legacy-Positive = record {
  tcp = omega arith;
  tcp_source = omega arith;
  udp = omega arith;
  udp_source = omega arith;
}

migrate_rule-Capped_example :
    Capped small_limits (migrate_rule sample_forms small_limits legacy_rule)
migrate_rule-Capped_example =
    migrate_rule-Capped sample_forms small_limits legacy_rule (omega arith) (omega arith)
      legacy-Positive
