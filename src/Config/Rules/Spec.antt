-- ===== src/Config/Rules/Spec.antt =====
-- What an accepted rule should satisfy, stated on its numbers, and the groups of checks in
-- `validateRules` of internal/config/config.go.
use go_nftables_portbridge.Prelude.{◌≤◌, ◌≡◌, ◌↔◌, refl, Bool, true, false, arith, List}
use go_nftables_portbridge.Prelude.Int.{ℤ, pos, ◌≤ℤ◌, ltb_ℤ}
use go_nftables_portbridge.Text.{Text, is_empty, byte_length}
use go_nftables_portbridge.Text.Sets.{has_key}
use go_nftables_portbridge.Config.{Rule, ResourceLimits}
use go_nftables_portbridge.Config.Errors.{
  Error, Result, ok, ◌>>◌, reject_if, connect_timeout, tcp_idle, tcp_max, tcp_per_source, udp_idle,
  udp_max, udp_global, udp_per_source, udp_new_rate, udp_packet_rate, udp_worker_count, udp_batch,
  udp_packet_buffer, udp_listener_buffer, udp_session_buffer,
}
use go_nftables_portbridge.Config.Web.{outside}
use go_nftables_portbridge.Config.Rules.{
  check_identity, check_tcp_limits, check_udp_limits, check_udp_buffers,
}

abbrev pub Between : ℤ → ℤ → ℤ → Type 0
Between lo hi v = (lo ≤ℤ v) × (v ≤ℤ hi)

outside_iff : (lo hi v : ℤ) → (outside lo hi v ≡ false) ↔ Between lo hi v
outside_iff lo hi v = (λ h. ground arith, λ h. ground arith)

above_iff : (hi v : ℤ) → (ltb_ℤ hi v ≡ false) ↔ (v ≤ℤ hi)
above_iff hi v = (λ h. ground arith, λ h. ground arith)

-- A chain of checks passes exactly when each does.
then_iff :
    (b : Bool) (e : Error) (m : Result (Unit {0})) {P Q : Type 0}
    → (b ≡ false) ↔ P
    → (m ≡ ok tt) ↔ Q
    → ((reject_if b e >> m) ≡ ok tt) ↔ (P × Q)
then_iff true e m p q = (λ h. cc, λ h. cc (p.1 h.0))
then_iff false e m p q = (λ h. (p.0 refl, q.0 h), λ h. q.1 h.1)

last_iff : (b : Bool) (e : Error) {P : Type 0} → (b ≡ false) ↔ P → (reject_if b e ≡ ok tt) ↔ P
last_iff true e p = (λ h. cc, λ h. cc (p.1 h))
last_iff false e p = (λ h. p.0 refl, λ h. refl)

range_then :
    (lo hi v : ℤ) (e : Error) (m : Result (Unit {0})) {Q : Type 0}
    → (m ≡ ok tt) ↔ Q
    → ((reject_if (outside lo hi v) e >> m) ≡ ok tt) ↔ (Between lo hi v × Q)
range_then lo hi v e m = then_iff (outside lo hi v) e m (outside_iff lo hi v)

range_last : (lo hi v : ℤ) (e : Error) → (reject_if (outside lo hi v) e ≡ ok tt) ↔ Between lo hi v
range_last lo hi v e = last_iff (outside lo hi v) e (outside_iff lo hi v)

abbrev pub TcpFits : ResourceLimits → Rule → Type 0
TcpFits limits r =
    Between (pos 1) (pos 300) r.connect_timeout_seconds
    × (Between (pos 5) (pos 86400) r.tcp_idle_timeout_seconds
        × (Between (pos 1) limits.max_tcp_connections r.max_tcp_connections
            × Between (pos 1) r.max_tcp_connections r.max_tcp_connections_per_ip))

abbrev pub UdpFits : ResourceLimits → Rule → Type 0
UdpFits limits r =
    Between (pos 5) (pos 86400) r.udp_idle_timeout_seconds
    × (Between (pos 1) (pos 10_000_000) r.max_udp_sessions
        × ((r.max_udp_sessions ≤ℤ limits.max_udp_sessions)
            × (Between (pos 1) r.max_udp_sessions r.max_udp_sessions_per_ip
                × (Between (pos 1) (pos 10_000_000) r.udp_new_sessions_per_sec
                    × Between (pos 1) (pos 100_000_000) r.udp_packets_per_sec))))

abbrev pub BuffersFit : Rule → Type 0
BuffersFit r =
    Between (pos 0) (pos 128) r.udp_workers
    × (Between (pos 1) (pos 256) r.udp_batch_size
        × (Between (pos 512) (pos 65535) r.udp_packet_buffer_size
            × (Between (pos 65536) (pos 268435456) r.udp_listener_buffer_bytes
                × Between (pos 65536) (pos 16777216) r.udp_session_buffer_bytes)))

pub check_tcp_limits-TcpFits :
    (limits : ResourceLimits) (r : Rule) → (check_tcp_limits limits r ≡ ok tt) ↔ TcpFits limits r
unfolding check_tcp_limits
check_tcp_limits-TcpFits limits r =
    range_then (pos 1) (pos 300) r.connect_timeout_seconds connect_timeout _ (
      range_then (pos 5) (pos 86400) r.tcp_idle_timeout_seconds tcp_idle _ (
        range_then (pos 1) limits.max_tcp_connections r.max_tcp_connections tcp_max _
          (range_last (pos 1) r.max_tcp_connections r.max_tcp_connections_per_ip tcp_per_source)))

pub check_udp_limits-UdpFits :
    (limits : ResourceLimits) (r : Rule) → (check_udp_limits limits r ≡ ok tt) ↔ UdpFits limits r
unfolding check_udp_limits
check_udp_limits-UdpFits limits r =
    range_then (pos 5) (pos 86400) r.udp_idle_timeout_seconds udp_idle _ (
      range_then (pos 1) (pos 10_000_000) r.max_udp_sessions udp_max _ (
        then_iff (ltb_ℤ limits.max_udp_sessions r.max_udp_sessions) udp_global _
          (above_iff limits.max_udp_sessions r.max_udp_sessions)
          (range_then (pos 1) r.max_udp_sessions r.max_udp_sessions_per_ip udp_per_source _ (
            range_then (pos 1) (pos 10_000_000) r.udp_new_sessions_per_sec udp_new_rate _
              (range_last (pos 1) (pos 100_000_000) r.udp_packets_per_sec udp_packet_rate)))))

pub check_udp_buffers-BuffersFit : (r : Rule) → (check_udp_buffers r ≡ ok tt) ↔ BuffersFit r
unfolding check_udp_buffers
check_udp_buffers-BuffersFit r = range_then (pos 0) (pos 128) r.udp_workers udp_worker_count _ (
    range_then (pos 1) (pos 256) r.udp_batch_size udp_batch _ (
      range_then (pos 512) (pos 65535) r.udp_packet_buffer_size udp_packet_buffer _ (
        range_then (pos 65536) (pos 268435456) r.udp_listener_buffer_bytes udp_listener_buffer _
          (range_last (pos 65536) (pos 16777216) r.udp_session_buffer_bytes udp_session_buffer))))

abbrev pub IdentityFits : List Text → Rule → Type 0
IdentityFits seen r =
    (is_empty r.id ≡ false)
    × (has_key r.id seen ≡ false)
    × (is_empty r.name ≡ false)
    × (byte_length r.name ≤ 80)
    × (byte_length r.id ≤ 128)

pub check_identity-IdentityFits :
    (seen : List Text) (r : Rule) → check_identity seen r ≡ ok tt → IdentityFits seen r
unfolding check_identity
check_identity-IdentityFits seen r h = ground arith
