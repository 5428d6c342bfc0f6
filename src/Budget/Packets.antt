-- ===== src/Budget/Packets.antt =====
-- The UDP budgets of a source in internal/proxy/budget.go. A token of the source's `float64` is
-- `billion` units here, and a time is a number of nanoseconds, so that a refill is exact: where the
-- source multiplies seconds with a rate, the model multiplies nanoseconds with it. The limits come
-- from a validated rule and are not negative.
pub mod Rate
pub mod Counted
pub mod Sweep
use go_nftables_portbridge.Prelude.{
  ℕ, zero, suc, ◌+◌, ◌-◌, ◌*◌, ◌%◌, ◌/◌, ◌^◌, ◌≤◌, Bool, true, false, ◌&&◌, ◌||◌, not, List, [],
  ◌∷◌, Option, none, some, ltb, leb, ◌==◌, if◌then◌else◌,
}
use go_nftables_portbridge.Prelude.Int.{ℤ, pos, ◌-ℤ◌}
use go_nftables_portbridge.Netip.{Addr, unmap}
use go_nftables_portbridge.Budget.Shards.{
  Sharded, find, put, shard_of, set_shard, source_budget_shards,
}
use go_nftables_portbridge.Budget.{reserve_atomic}

abbrev pub billion : ℕ
billion = 1_000_000_000

abbrev pub udp_cleanup_shards_per_sweep : ℕ
udp_cleanup_shards_per_sweep = 4

abbrev pub udp_cleanup_entries_per_shard : ℕ
udp_cleanup_entries_per_shard = 256

pub record UdpSourceLimits : Type 0 where
  pub max_sessions : ℕ
  pub new_sessions_rate : ℕ
  pub packet_rate : ℕ
  pub max_tracked_source : ℕ

pub record UdpSourceState : Type 0 where
  pub active_sessions : ℕ
  pub new_tokens : ℕ
  pub packet_tokens : ℕ
  pub last_refill : ℕ
  pub last_seen : ℕ

-- `if tokens > maximum { tokens = maximum }`
abbrev pub capped : ℕ → ℕ → ℕ
capped maximum tokens = if ltb maximum tokens then maximum else tokens

-- A clock that does not advance refills nothing; both buckets are capped in any case.
unfoldable pub refill : UdpSourceLimits → ℕ → UdpSourceState → UdpSourceState
refill limits now s =
    let elapsed = now - s.last_refill in
    record s {
      new_tokens =
          capped (limits.new_sessions_rate * billion)
            (s.new_tokens + elapsed * limits.new_sessions_rate);
      packet_tokens =
          capped (limits.packet_rate * billion) (s.packet_tokens + elapsed * limits.packet_rate);
      last_refill = if ltb s.last_refill now then now else s.last_refill;
    }

unfoldable pub fresh_state : UdpSourceLimits → ℕ → UdpSourceState
fresh_state limits now = record {
  active_sessions = 0;
  new_tokens = limits.new_sessions_rate * billion;
  packet_tokens = limits.packet_rate * billion;
  last_refill = now;
  last_seen = now;
}

-- The tests and the charges of `reserveUDPPacket`, on a state that is up to date.
unfoldable pub admit : UdpSourceLimits → Bool → UdpSourceState → UdpSourceState × Bool
admit limits new_session s =
    if ltb s.packet_tokens billion
    then (s, false)
    else if new_session && (leb limits.max_sessions s.active_sessions || ltb s.new_tokens billion)
    then (s, false)
    else (
      record s {
        packet_tokens = s.packet_tokens - billion;
        active_sessions = if new_session then s.active_sessions + 1 else s.active_sessions;
        new_tokens = if new_session then s.new_tokens - billion else s.new_tokens;
      },
      true,
    )

-- A source that is known: its state is refilled and marked as seen.
unfoldable pub touch : UdpSourceLimits → ℕ → UdpSourceState → UdpSourceState
unfolding refill
touch limits now s = record (refill limits now s) { last_seen = now }

pub record UdpSources : Type 0 where
  pub states : Sharded UdpSourceState
  pub source_count : ℤ
  pub cleanup_cursor : ℕ
  pub next_cleanup : ℕ

abbrev pub store : Addr → UdpSourceState → UdpSources → UdpSources
store a s u = record u { states = set_shard a (put a s (shard_of a u.states)) u.states }

-- The state of the source changes in its place in the map, also where the packet is refused.
abbrev stored : Addr → UdpSources → UdpSourceState × Bool → UdpSources × Bool
stored a u (s, granted) = (store a s u, granted)

abbrev count_new : UdpSourceLimits → Bool → ℕ → Addr → UdpSources → ℤ × Bool → UdpSources × Bool
count_new limits new_session now a u (count, false) = (u, false)
count_new limits new_session now a u (count, true) =
    stored a (record u { source_count = count }) (admit limits new_session (fresh_state limits now))

abbrev reserve_found :
    UdpSourceLimits → Bool → ℕ → Addr → UdpSources → Option UdpSourceState → UdpSources × Bool
reserve_found limits new_session now a u (some s) =
    stored a u (admit limits new_session (touch limits now s))
reserve_found limits new_session now a u none =
    count_new limits new_session now a u
      (reserve_atomic u.source_count (pos limits.max_tracked_source))

unfoldable pub reserve_udp_packet :
    UdpSourceLimits → Addr → Bool → ℕ → UdpSources → UdpSources × Bool
unfolding admit touch fresh_state find shard_of
reserve_udp_packet limits source new_session now u =
    let a = unmap source in reserve_found limits new_session now a u (find a (shard_of a u.states))

unfoldable pub rollback_state : ℕ → UdpSourceState → UdpSourceState
rollback_state rate s = record s {
  active_sessions = if ltb 0 s.active_sessions then s.active_sessions - 1 else s.active_sessions;
  new_tokens = capped (rate * billion) (s.new_tokens + billion);
}

unfoldable pub release_state : ℕ → UdpSourceState → UdpSourceState
release_state now s = record s {
  active_sessions = if ltb 0 s.active_sessions then s.active_sessions - 1 else s.active_sessions;
  last_seen = now;
}

abbrev change_found :
    (UdpSourceState → UdpSourceState) → Addr → UdpSources → Option UdpSourceState → UdpSources
change_found f a u none = u
change_found f a u (some s) = store a (f s) u

unfoldable pub rollback_udp_source_session : Addr → ℕ → UdpSources → UdpSources
unfolding rollback_state find shard_of
rollback_udp_source_session source rate u =
    let a = unmap source in change_found (rollback_state rate) a u (find a (shard_of a u.states))

unfoldable pub release_udp_source_session : Addr → ℕ → UdpSources → UdpSources
unfolding release_state find shard_of
release_udp_source_session source now u =
    let a = unmap source in change_found (release_state now) a u (find a (shard_of a u.states))

-- One shard of a sweep: at most `rounds` entries, in the order in which the map hands them out; the
-- idle ones go. The entries left, how many were inspected, and how many deleted.
unfoldable pub sweep_shard :
    ℕ → ℕ → List (Addr × UdpSourceState) → List (Addr × UdpSourceState) × ℕ × ℕ
sweep_shard zero cutoff entries = (entries, 0, 0)
sweep_shard (suc rounds) cutoff [] = ([], 0, 0)
sweep_shard (suc rounds) cutoff ((a, s) ∷ entries) =
    let (left, inspected, deleted) = sweep_shard rounds cutoff entries in
    if s.active_sessions == 0 && leb s.last_seen cutoff
    then (left, inspected + 1, deleted + 1)
    else ((a, s) ∷ left, inspected + 1, deleted)

unfoldable pub set_index :
    ℕ → List (Addr × UdpSourceState) → Sharded UdpSourceState → Sharded UdpSourceState
set_index k m s = λ i. if i == k then m else s i

-- `offset` shards of a sweep from `start` on.
unfoldable pub sweep_shards : ℕ → ℕ → ℕ → UdpSources → UdpSources × ℕ
unfolding sweep_shard set_index
sweep_shards zero start cutoff u = (u, 0)
sweep_shards (suc offset) start cutoff u =
    let k = start % source_budget_shards in
    let (left, inspected, deleted) =
      sweep_shard udp_cleanup_entries_per_shard cutoff (u.states k) in
    let (u', total) = sweep_shards offset (start + 1) cutoff (record u {
      states = set_index k left u.states;
      source_count = u.source_count -ℤ pos deleted;
    }) in
    (u', inspected + total)

-- `maintainUDPSources`, for the worker that wins the second; the cursor is a `uint32`.
unfoldable pub maintain_udp_sources : ℕ → ℕ → UdpSources → UdpSources × ℕ
unfolding sweep_shards
maintain_udp_sources now idle u =
    if ltb (now / billion) u.next_cleanup
    then (u, 0)
    else sweep_shards udp_cleanup_shards_per_sweep (u.cleanup_cursor % source_budget_shards)
        (now - idle)
        (record u {
          next_cleanup = (now + billion) / billion;
          cleanup_cursor = (u.cleanup_cursor + udp_cleanup_shards_per_sweep) % 2 ^ 32;
        })
