-- ===== src/Examples/Webs.antt =====
-- Witnesses on the decisions of the web server and of the TCP runner.
use go_nftables_portbridge.Prelude.{
  ℕ, ◌+◌, ◌-◌, ◌*◌, ◌≤◌, List, [], ◌∷◌, arith, length, Bool, true, false, ◌&&◌, ◌||◌, ◌==◌, ◌≡◌,
  refl, none, some, All, ◌⊎◌,
}
use go_nftables_portbridge.Text.{Text, codes, text_eq}
use go_nftables_portbridge.Text.Members.{Any}
use go_nftables_portbridge.Netip.{Addr, v4}
use go_nftables_portbridge.Config.{Rule}
use go_nftables_portbridge.Web.Auth.{
  token, AuthFailureLimiter, default_limits, new_auth_failure_limiter, empty_bucket, allow_failure,
  reset,
}
use go_nftables_portbridge.Web.Auth.Rate.{
  failures, failures_bound, history, AuthEvent, failed_at, logged_in,
}
use go_nftables_portbridge.Web.Auth.Room.{limiter_stays_bounded}
use go_nftables_portbridge.Tcp.{
  TcpTargetState, dial_tcp_backend, backend_connectivity, connectivity_of, priority, not_checked,
}
use go_nftables_portbridge.Tcp.Choice.{Honest, dial_tcp_backend-Honest, dial_tcp_backend_connects}
use go_nftables_portbridge.Tcp.Connectivity.{backend_connectivity_worst}

abbrev three_attempts : List (Addr × ℕ)
three_attempts = (v4 7, 5) ∷ (v4 8, 6) ∷ (v4 7, 1_000_000_000) ∷ []

-- Before the stretch two failures, of which one address then logs in.
abbrev earlier_events : List AuthEvent
earlier_events = failed_at (v4 7) 1 ∷ failed_at (v4 8) 2 ∷ logged_in (v4 7) ∷ []

failures_bound_example :
    (failures default_limits
        ((v4 7, 5) ∷ three_attempts)
        (history default_limits earlier_events new_auth_failure_limiter)).1
      * token
    ≤ 100 * token + (2_000_000_000 - 5) * 30
failures_bound_example =
    failures_bound default_limits 5 2_000_000_000 earlier_events (v4 7) three_attempts
      (omega arith, (omega arith, (tt, tt))) (omega arith)
      (omega arith, (omega arith, (omega arith, tt)))

abbrev one_client : AuthFailureLimiter
one_client = record new_auth_failure_limiter { per_ip = (v4 7, empty_bucket) ∷ [] }

limiter_stays_bounded_example :
    (length (allow_failure default_limits (v4 8) 9 one_client).0.per_ip ≤ 4096)
    × (length (reset (v4 8) one_client).per_ip ≤ 4096)
limiter_stays_bounded_example =
    limiter_stays_bounded default_limits (v4 8) 9 one_client (omega arith) (omega arith)

abbrev name_of : Rule → Text
name_of r = r.name

-- The second dial of any address succeeds, and the first of the backup.
abbrev sometimes_up : ℕ → Text → Bool
sometimes_up attempt address = attempt == 1 || text_eq address (codes "b")

dial_tcp_backend-Honest_example :
    Honest sometimes_up
      (codes "a")
      (codes "b")
      (dial_tcp_backend sometimes_up false (codes "a") (codes "b") none)
dial_tcp_backend-Honest_example =
    dial_tcp_backend-Honest sometimes_up false (codes "a") (codes "b") none

backup_up :
    ((sometimes_up 0 (codes "a") && sometimes_up 1 (codes "a"))
      || (sometimes_up 0 (codes "b") && sometimes_up 1 (codes "b")))
    ≡ true
unfolding text_eq
backup_up = refl

dial_tcp_backend_connects_example :
    (r : Text × Bool) × (dial_tcp_backend sometimes_up false (codes "a") (codes "b") none ≡ some r)
dial_tcp_backend_connects_example =
    dial_tcp_backend_connects sometimes_up (codes "a") (codes "b") none refl backup_up

abbrev two_states : List TcpTargetState
two_states =
    record { primary_reachable = true; backup_reachable = false; checked_unix_nano = 5 }
    ∷ record { primary_reachable = false; backup_reachable = true; checked_unix_nano = 6 }
    ∷ []

backend_connectivity_worst_example :
    let c = backend_connectivity two_states in
    All (λ s. priority (connectivity_of s).status ≤ priority c.status) two_states
    × ((c.status ≡ not_checked) ⊎ Any (λ s. c.status ≡ (connectivity_of s).status) two_states)
backend_connectivity_worst_example = backend_connectivity_worst two_states
