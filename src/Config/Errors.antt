-- ===== src/Config/Errors.antt =====
-- The errors of internal/config/config.go, one constructor for each message, and the chain of early
-- returns. The texts of the messages are left out.
use go_nftables_portbridge.Prelude.{◌≡◌, refl, Bool, true, false}

pub data Error : Type 0 where
  -- a `Must` function of netip gave up
  panicked : Error
  unsupported_version : Error
  web_port web_listen_literal web_listen_invalid web_requires_tls : Error
  web_requires_https web_tls_pair web_tls_version web_tls_path : Error
  web_all_addresses strict_auto_lan strict_empty strict_no_tls strict_all_addresses : Error
  limit_tcp limit_udp limit_udp_memory : Error
  zero_mark admin_token monitor_token : Error
  whitelist_entry whitelist_mapped whitelist_size : Error
  cidr_invalid cidr_mapped cidr_all cidr_size : Error
  dns_server dns_literal dns_port dns_count : Error
  not_unicast private_denied private_outside : Error
  too_many_rules empty_id duplicate_id empty_name long_name long_id : Error
  bad_protocol bad_data_plane port_range listen_order target_order range_mismatch range_size : Error
  empty_target long_target dns_ttl backup_port_only backup_plane backup_range : Error
  health_config health_endpoints health_timeout listen_literal listen_multicast : Error
  connect_timeout tcp_idle tcp_max tcp_per_source udp_idle udp_max udp_global : Error
  udp_per_source udp_new_rate udp_packet_rate udp_worker_count udp_batch udp_packet_buffer : Error
  udp_listener_buffer udp_session_buffer private_no_list : Error
  rule_conflict : Error
  save_failed callback_failed revision_conflict : Error

-- A check that returns early leaves its error; one that runs through leaves a value.
pub data Result {ℓ} (V : Type ℓ) : Type ℓ where
  err : Error → Result V
  ok : V → Result V

infixl 5 ◌>>◌ ◌>>=◌
abbrev pub ◌>>=◌ {ℓ κ} : {V : Type ℓ} {W : Type κ} → Result V → (V → Result W) → Result W
err stopped >>= next = err stopped
ok value >>= next = next value

abbrev pub ◌>>◌ {ℓ} : {W : Type ℓ} → Result (Unit {0}) → Result W → Result W
check >> next = check >>= λ passed. next

-- `if test { return err }`
abbrev pub reject_if : Bool → Error → Result (Unit {0})
reject_if true e = err e
reject_if false e = ok tt

-- What a chain that ran through says of its parts.
pub >>=-eq-ok {ℓ κ} :
    {V : Type ℓ} {W : Type κ} {w : W} (check : Result V) (next : V → Result W)
    → (check >>= next) ≡ ok w
    → (v : V) × (check ≡ ok v) × (next v ≡ ok w)
>>=-eq-ok (err stopped) next through = cc
>>=-eq-ok (ok value) next through = (value, refl, through)

pub reject_if-eq-ok : (b : Bool) (e : Error) {u : Unit {0}} → reject_if b e ≡ ok u → b ≡ false
reject_if-eq-ok true e h = cc
reject_if-eq-ok false e h = refl
