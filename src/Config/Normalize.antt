-- ===== src/Config/Normalize.antt =====
-- `NormalizeRule`, `normalizeHost`, `applyConfigDefaults` and the port ranges of
-- internal/config/config.go.
use go_nftables_portbridge.Prelude.{
  ◌*◌, ◌&&◌, not, List, [], ◌∷◌, map, Option, none, some, ◌==◌, if◌then◌else◌,
}
use go_nftables_portbridge.Prelude.Int.{ℤ, pos, ltb_ℤ, nonzero}
use go_nftables_portbridge.Text.{Text, codes, trim_space, to_lower, is_empty}
use go_nftables_portbridge.Netip.Forms.{Forms}
use go_nftables_portbridge.Config.{Config, Rule, rule_data_plane_nft, default_nft_conntrack_mark}
use go_nftables_portbridge.Config.Errors.{ok, err}
use go_nftables_portbridge.Config.Prefixes.{normalize_target_cidrs}

-- `if v == 0 { v = d }` and `if s == "" { s = d }`
unfoldable pub or_default : ℤ → ℤ → ℤ
or_default v d = if nonzero v then v else d

unfoldable pub or_text : Text → Text → Text
or_text s d = if is_empty s then d else s

-- What stands before a closing bracket at the end of the text.
abbrev before_bracket : Text → Option Text
before_bracket [] = none
before_bracket (c ∷ []) = if c == b']' then some [] else none
before_bracket (c ∷ d ∷ s) = elim (before_bracket (d ∷ s)) [ none ↦ none | some t ↦ some (c ∷ t) ]

-- `[host]` stands for `host`. Where both brackets are found the text has two bytes at least.
abbrev unbracket : Text → Text
unbracket [] = []
unbracket (c ∷ s) =
    if c == b'[' then elim (before_bracket s) [ none ↦ c ∷ s | some t ↦ trim_space t ] else c ∷ s

unfoldable pub normalize_host : Text → Text
normalize_host host = unbracket (trim_space host)

unfoldable pub last_listen_port : Rule → ℤ
last_listen_port r = if nonzero r.listen_port_end then r.listen_port_end else r.listen_port

unfoldable pub last_target_port : Rule → ℤ
last_target_port r = if nonzero r.target_port_end then r.target_port_end else r.target_port

unfoldable pub apply_config_defaults : Config → Config
unfolding or_default
apply_config_defaults cfg = record cfg {
  limits = record {
    max_tcp_connections = or_default cfg.limits.max_tcp_connections (pos 8192);
    max_udp_sessions = or_default cfg.limits.max_udp_sessions (pos 16384);
    max_udp_memory_bytes = or_default cfg.limits.max_udp_memory_bytes (pos (1024 * 1024 * 1024));
  };
  nft = record cfg.nft {
    conntrack_mark =
        if cfg.nft.conntrack_mark == 0 then default_nft_conntrack_mark else cfg.nft.conntrack_mark;
  };
}

-- The backup port follows the target port where only a backup host is given.
unfoldable pub normalize_backup_port : Text → ℤ → ℤ → ℤ
normalize_backup_port host port target =
    if not (is_empty host) && not (nonzero port) then target else port

unfoldable pub normalize_health_timeout : ℤ → ℤ → ℤ
normalize_health_timeout interval timeout =
    if ltb_ℤ (pos 0) interval && not (nonzero timeout) then pos 3 else timeout

module _ (forms : Forms) where
  -- The list stays as it is, trimmed, where it does not normalize.
  unfoldable pub normalize_allowlist : List Text → List Text
  unfolding normalize_target_cidrs
  normalize_allowlist items = elim (normalize_target_cidrs forms (map trim_space items)) [
    | ok normalized ↦ normalized
    | err e ↦ map trim_space items
  ]

  unfoldable pub normalize_rule : Rule → Rule
  unfolding or_default or_text normalize_host normalize_backup_port normalize_health_timeout
      normalize_allowlist
  normalize_rule r = record {
    id = r.id;
    name = trim_space r.name;
    protocol = to_lower (trim_space r.protocol);
    data_plane = or_text (to_lower (trim_space r.data_plane)) rule_data_plane_nft;
    listen_host = or_text (normalize_host r.listen_host) (codes "*");
    listen_port = r.listen_port;
    listen_port_end = r.listen_port_end;
    target_host = normalize_host r.target_host;
    target_port = r.target_port;
    target_port_end = r.target_port_end;
    backup_target_host = normalize_host r.backup_target_host;
    backup_target_port =
        normalize_backup_port (normalize_host r.backup_target_host) r.backup_target_port
          r.target_port;
    dns_cache_ttl_seconds = or_default r.dns_cache_ttl_seconds (pos 300);
    tcp_health_interval_seconds = r.tcp_health_interval_seconds;
    tcp_health_timeout_seconds =
        normalize_health_timeout r.tcp_health_interval_seconds r.tcp_health_timeout_seconds;
    enabled = r.enabled;
    connect_timeout_seconds = or_default r.connect_timeout_seconds (pos 10);
    tcp_idle_timeout_seconds = or_default r.tcp_idle_timeout_seconds (pos 300);
    max_tcp_connections = or_default r.max_tcp_connections (pos 2048);
    max_tcp_connections_per_ip = or_default r.max_tcp_connections_per_ip (pos 256);
    udp_idle_timeout_seconds = or_default r.udp_idle_timeout_seconds (pos 60);
    max_udp_sessions = or_default r.max_udp_sessions (pos 4096);
    max_udp_sessions_per_ip = or_default r.max_udp_sessions_per_ip (pos 512);
    udp_new_sessions_per_sec = or_default r.udp_new_sessions_per_sec (pos 1000);
    udp_packets_per_sec = or_default r.udp_packets_per_sec (pos 100000);
    udp_workers = r.udp_workers;
    udp_batch_size = or_default r.udp_batch_size (pos 64);
    udp_packet_buffer_size = or_default r.udp_packet_buffer_size (pos 2048);
    udp_listener_buffer_bytes = or_default r.udp_listener_buffer_bytes (pos (4 * 1024 * 1024));
    udp_session_buffer_bytes = or_default r.udp_session_buffer_bytes (pos (64 * 1024));
    allow_private_target = r.allow_private_target;
    target_cidr_allowlist = normalize_allowlist r.target_cidr_allowlist;
  }
