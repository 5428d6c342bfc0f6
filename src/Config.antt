-- ===== src/Config.antt =====
-- The configuration of internal/config/config.go: its records and constants. A Go `int`, `int64` or
-- `uint32` is an integer or a number, a string is a text.
pub mod Errors
pub mod Prefixes
pub mod Normalize
pub mod Targets
pub mod Web
pub mod Rules
pub mod Conflicts
pub mod Validate
pub mod Migrate
pub mod Store
use go_nftables_portbridge.Prelude.{ℕ, ◌*◌, Bool, true, false, List, [], ◌∷◌}
use go_nftables_portbridge.Prelude.Int.{ℤ, pos}
use go_nftables_portbridge.Text.{Text, codes}

abbrev pub current_version : ℤ
current_version = pos 2

abbrev pub max_whitelist_entries : ℕ
max_whitelist_entries = 1024

abbrev pub max_port_range_size : ℕ
max_port_range_size = 4096

abbrev pub max_rules : ℕ
max_rules = 1024

abbrev pub default_nft_conntrack_mark : ℕ
default_nft_conntrack_mark = 0x50420001

abbrev pub protocol_tcp : Text
protocol_tcp = codes "tcp"

abbrev pub protocol_udp : Text
protocol_udp = codes "udp"

abbrev pub protocol_both : Text
protocol_both = codes "both"

abbrev pub rule_data_plane_nft : Text
rule_data_plane_nft = codes "nftables"

abbrev pub rule_data_plane_go : Text
rule_data_plane_go = codes "go"

pub record WebConfig : Type 0 where
  pub port : ℤ
  pub listen_ipv4 : Text
  pub listen_ipv6 : Text
  pub auto_lan_acl : Bool
  pub strict_ip_allowlist : Bool
  pub allow_insecure_http : Bool
  pub require_https : Bool
  pub allow_unsafe_all_acl : Bool
  pub whitelist : List Text
  pub tls_cert_file : Text
  pub tls_key_file : Text
  pub tls_min_version : Text
  pub dns_servers : List Text
  pub admin_token_sha : Text
  pub monitor_token_sha : Text

pub record ResourceLimits : Type 0 where
  pub max_tcp_connections : ℤ
  pub max_udp_sessions : ℤ
  pub max_udp_memory_bytes : ℤ

pub record NftConfig : Type 0 where
  pub conntrack_mark : ℕ
  pub enable_flowtable : Bool

pub record Rule : Type 0 where
  pub id : Text
  pub name : Text
  pub protocol : Text
  pub data_plane : Text
  pub listen_host : Text
  pub listen_port : ℤ
  pub listen_port_end : ℤ
  pub target_host : Text
  pub target_port : ℤ
  pub target_port_end : ℤ
  pub backup_target_host : Text
  pub backup_target_port : ℤ
  pub dns_cache_ttl_seconds : ℤ
  pub tcp_health_interval_seconds : ℤ
  pub tcp_health_timeout_seconds : ℤ
  pub enabled : Bool
  pub connect_timeout_seconds : ℤ
  pub tcp_idle_timeout_seconds : ℤ
  pub max_tcp_connections : ℤ
  pub max_tcp_connections_per_ip : ℤ
  pub udp_idle_timeout_seconds : ℤ
  pub max_udp_sessions : ℤ
  pub max_udp_sessions_per_ip : ℤ
  pub udp_new_sessions_per_sec : ℤ
  pub udp_packets_per_sec : ℤ
  pub udp_workers : ℤ
  pub udp_batch_size : ℤ
  pub udp_packet_buffer_size : ℤ
  pub udp_listener_buffer_bytes : ℤ
  pub udp_session_buffer_bytes : ℤ
  pub allow_private_target : Bool
  pub target_cidr_allowlist : List Text

pub record Config : Type 0 where
  pub version : ℤ
  pub web : WebConfig
  pub limits : ResourceLimits
  pub nft : NftConfig
  pub rules : List Rule

unfoldable pub default : Config
default = record {
  version = current_version;
  web = record {
    port = pos 9080;
    listen_ipv4 = codes "127.0.0.1";
    listen_ipv6 = codes "::1";
    auto_lan_acl = false;
    strict_ip_allowlist = false;
    allow_insecure_http = false;
    require_https = false;
    allow_unsafe_all_acl = false;
    whitelist = [];
    tls_cert_file = [];
    tls_key_file = [];
    tls_min_version = [];
    dns_servers = [];
    admin_token_sha = [];
    monitor_token_sha = [];
  };
  limits = record {
    max_tcp_connections = pos 8192;
    max_udp_sessions = pos 16384;
    max_udp_memory_bytes = pos (1024 * 1024 * 1024);
  };
  nft = record { conntrack_mark = default_nft_conntrack_mark; enable_flowtable = true };
  rules = [];
}
