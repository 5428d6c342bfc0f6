-- ===== src/Examples.antt =====
-- Concrete data for the tests and the witnesses: text forms, rules and a configuration.
pub mod Forms
pub mod Rules
pub mod Budgets
pub mod Stores
pub mod Plans
pub mod Webs
pub mod Kernels
pub mod Nfts
pub mod Telemetries
pub mod Managers
use go_nftables_portbridge.Prelude.{true, false, List, [], ◌∷◌}
use go_nftables_portbridge.Prelude.Int.{pos}
use go_nftables_portbridge.Text.{Text, codes}
use go_nftables_portbridge.Config.{Rule, Config, WebConfig, ResourceLimits, current_version}

abbrev pub web_rule : Rule
web_rule = record {
  id = codes "web";
  name = codes "Web";
  protocol = codes "tcp";
  data_plane = codes "go";
  listen_host = codes "*";
  listen_port = pos 8080;
  listen_port_end = pos 8081;
  target_host = codes "10.0.0.5";
  target_port = pos 80;
  target_port_end = pos 81;
  backup_target_host = [];
  backup_target_port = pos 0;
  dns_cache_ttl_seconds = pos 300;
  tcp_health_interval_seconds = pos 5;
  tcp_health_timeout_seconds = pos 3;
  enabled = true;
  connect_timeout_seconds = pos 10;
  tcp_idle_timeout_seconds = pos 300;
  max_tcp_connections = pos 100;
  max_tcp_connections_per_ip = pos 10;
  udp_idle_timeout_seconds = pos 60;
  max_udp_sessions = pos 100;
  max_udp_sessions_per_ip = pos 10;
  udp_new_sessions_per_sec = pos 1000;
  udp_packets_per_sec = pos 1000;
  udp_workers = pos 0;
  udp_batch_size = pos 64;
  udp_packet_buffer_size = pos 2048;
  udp_listener_buffer_bytes = pos 65536;
  udp_session_buffer_bytes = pos 65536;
  allow_private_target = true;
  target_cidr_allowlist = codes "10.0.0.0/8" ∷ [];
}

abbrev pub dns_rule : Rule
dns_rule = record web_rule {
  id = codes "dns";
  name = codes "DNS";
  protocol = codes "udp";
  listen_host = codes "127.0.0.1";
  listen_port = pos 53;
  listen_port_end = pos 0;
  target_port = pos 5353;
  target_port_end = pos 0;
  tcp_health_interval_seconds = pos 0;
  tcp_health_timeout_seconds = pos 0;
}

abbrev pub two_rules : List Rule
two_rules = web_rule ∷ dns_rule ∷ []

abbrev pub small_limits : ResourceLimits
small_limits = record {
  max_tcp_connections = pos 1000;
  max_udp_sessions = pos 1000;
  max_udp_memory_bytes = pos 67108864;
}
