-- ===== src/Budget.antt =====
-- internal/proxy/budget.go: the global budget of connections, sessions and memory, and the budgets
-- of one rule for each source. An `atomic.Int64` is an integer with its wrap-around.
pub mod Shards
pub mod Arith
pub mod Atomic
pub mod Tcp
pub mod Release
pub mod Udp
pub mod Packets
use go_nftables_portbridge.Prelude.{
  ℕ, ◌%◌, ◌/◌, ◌^◌, Bool, true, false, ◌||◌, not, List, [], ◌∷◌, ltb, ◌==◌, if◌then◌else◌,
}
use go_nftables_portbridge.Prelude.Int.{ℤ, pos, ltb_ℤ, ◌+ℤ◌, ◌-ℤ◌}
use go_nftables_portbridge.Netip.{Addr}
use go_nftables_portbridge.Budget.Shards.{
  Sharded, find_or, put, erase, source_shard, shard_of, set_shard,
}
use go_nftables_portbridge.Config.{ResourceLimits}

-- The test under which `reserveAtomicN` gives up on the value that it has read.
abbrev pub over_limit : ℤ → ℤ → ℤ → Bool
over_limit current amount maximum =
    ltb_ℤ amount (pos 1) || ltb_ℤ maximum (pos 1) || ltb_ℤ (maximum -ℤ amount) current

-- `reserveAtomicN` on a counter that no one else moves: the new value, and whether it was granted.
unfoldable pub reserve_atomic_n : ℤ → ℤ → ℤ → ℤ × Bool
reserve_atomic_n current amount maximum =
    if over_limit current amount maximum then (current, false) else (current +ℤ amount, true)

unfoldable pub reserve_atomic : ℤ → ℤ → ℤ × Bool
unfolding reserve_atomic_n
reserve_atomic current maximum = reserve_atomic_n current (pos 1) maximum

pub record ResourceBudget : Type 0 where
  pub max_tcp : ℤ
  pub max_udp : ℤ
  pub max_udp_memory : ℤ
  pub active_tcp : ℤ
  pub active_udp : ℤ
  pub udp_memory : ℤ

unfoldable pub set_limits : ResourceLimits → ResourceBudget → ResourceBudget
set_limits limits b = record b {
  max_tcp = limits.max_tcp_connections;
  max_udp = limits.max_udp_sessions;
  max_udp_memory = limits.max_udp_memory_bytes;
}

unfoldable pub new_resource_budget : ResourceLimits → ResourceBudget
unfolding set_limits
new_resource_budget limits = set_limits limits (record {
  max_tcp = pos 0;
  max_udp = pos 0;
  max_udp_memory = pos 0;
  active_tcp = pos 0;
  active_udp = pos 0;
  udp_memory = pos 0;
})

-- The TCP side of `ruleBudget`: its connections, and those of each source, in shards.
pub record RuleBudget : Type 0 where
  pub active_tcp : ℤ
  pub sources : Sharded ℤ

-- `shard.counts[source]`; a missing key reads as 0.
unfoldable pub source_count : RuleBudget → Addr → ℤ
unfolding shard_of find_or
source_count r source = find_or source (pos 0) (shard_of source r.sources)

abbrev set_count : Addr → ℤ → RuleBudget → RuleBudget
set_count source n r = record r {
  sources = set_shard source (put source n (shard_of source r.sources)) r.sources;
}

-- The last step of `reserveTCP`, with both counters raised.
unfoldable pub reserve_source :
    ResourceBudget → RuleBudget → Addr → ℤ → (ResourceBudget × RuleBudget) × Bool
unfolding source_count
reserve_source b r source source_max =
    if not (ltb_ℤ (source_count r source) source_max)
    then (
      (
        record b { active_tcp = b.active_tcp -ℤ pos 1 },
        record r { active_tcp = r.active_tcp -ℤ pos 1 },
      ),
      false,
    )
    else ((b, set_count source (source_count r source +ℤ pos 1) r), true)

-- The middle step, with the global counter raised.
unfoldable pub reserve_rule :
    ResourceBudget → RuleBudget → Addr → ℤ → ℤ → (ResourceBudget × RuleBudget) × Bool
unfolding reserve_atomic reserve_source
reserve_rule b r source rule_max source_max =
    let (active, granted) = reserve_atomic r.active_tcp rule_max in
    if granted
    then reserve_source b (record r { active_tcp = active }) source source_max
    else ((record b { active_tcp = b.active_tcp -ℤ pos 1 }, r), false)

unfoldable pub reserve_tcp :
    ResourceBudget → RuleBudget → Addr → ℤ → ℤ → (ResourceBudget × RuleBudget) × Bool
unfolding reserve_atomic reserve_rule
reserve_tcp b r source rule_max source_max =
    let (active, granted) = reserve_atomic b.active_tcp b.max_tcp in
    if granted
    then reserve_rule (record b { active_tcp = active }) r source rule_max source_max
    else ((b, r), false)

-- The count of a source goes down by one, and its key out of the map with its last connection.
unfoldable pub lower_source : Addr → ℤ → Sharded ℤ → Sharded ℤ
lower_source source count sources =
    if ltb_ℤ (pos 1) count
    then set_shard source (put source (count -ℤ pos 1) (shard_of source sources)) sources
    else set_shard source (erase source (shard_of source sources)) sources

unfoldable pub release_tcp : ResourceBudget → RuleBudget → Addr → ResourceBudget × RuleBudget
unfolding source_count lower_source
release_tcp b r source = (
  record b { active_tcp = b.active_tcp -ℤ pos 1 },
  record {
    active_tcp = r.active_tcp -ℤ pos 1;
    sources = lower_source source (source_count r source) r.sources;
  },
)

unfoldable pub reserve_udp_memory : ResourceBudget → ℤ → ResourceBudget × Bool
unfolding reserve_atomic_n
reserve_udp_memory b bytes =
    let (used, granted) = reserve_atomic_n b.udp_memory bytes b.max_udp_memory in
    (record b { udp_memory = used }, granted)

unfoldable pub reserve_udp : ResourceBudget → ℤ → ResourceBudget × Bool
unfolding reserve_atomic reserve_udp_memory
reserve_udp b bytes =
    let (active, granted) = reserve_atomic b.active_udp b.max_udp in
    if granted
    then (let (b', fits) = reserve_udp_memory (record b { active_udp = active }) bytes in
        if fits then (b', true) else (record b' { active_udp = b'.active_udp -ℤ pos 1 }, false))
    else (b, false)

unfoldable pub release_udp_memory : ResourceBudget → ℤ → ResourceBudget
release_udp_memory b bytes = record b { udp_memory = b.udp_memory -ℤ bytes }

unfoldable pub release_udp : ResourceBudget → ℤ → ResourceBudget
unfolding release_udp_memory
release_udp b bytes =
    let b' = release_udp_memory b bytes in record b' { active_udp = b'.active_udp -ℤ pos 1 }
