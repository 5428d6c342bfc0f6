-- ===== src/Examples/Budgets.antt =====
-- Witnesses on the budgets.
use go_nftables_portbridge.Prelude.{
  ℕ, ◌+◌, ◌-◌, ◌*◌, ◌≤◌, ◌≡◌, refl, Bool, true, false, List, [], ◌∷◌, arith, ◌==◌, if◌then◌else◌,
}
use go_nftables_portbridge.Prelude.Int.{pos}
use go_nftables_portbridge.Netip.{v4, addr_eq}
use go_nftables_portbridge.Budget.{
  ResourceBudget, RuleBudget, reserve_tcp, release_tcp, source_count,
}
use go_nftables_portbridge.Budget.Shards.{find_or, shard_of}
use go_nftables_portbridge.Budget.Tcp.{Represents, reserve_tcp-Refines, Refines}
use go_nftables_portbridge.Budget.Release.{release_tcp-Represents}
use go_nftables_portbridge.Budget.Atomic.{
  Worker, loading, run_schedule, run_schedule-Exact, Exact, held, AllReady,
}
use go_nftables_portbridge.Budget.Packets.{
  UdpSourceState, UdpSourceLimits, UdpSources, billion, fresh_state, reserve_udp_packet,
  maintain_udp_sources,
}
use go_nftables_portbridge.Budget.Packets.Rate.{packet_rate_bound, offers}
use go_nftables_portbridge.Budget.Packets.Counted.{IsCounted, total, reserve_udp_packet-IsCounted}
use go_nftables_portbridge.Budget.Packets.Sweep.{maintain_udp_sources-IsCounted}

abbrev empty_budget : ResourceBudget
empty_budget = record {
  max_tcp = pos 2;
  max_udp = pos 2;
  max_udp_memory = pos 4096;
  active_tcp = pos 0;
  active_udp = pos 0;
  udp_memory = pos 0;
}

abbrev empty_rule : RuleBudget
empty_rule = record { active_tcp = pos 0; sources = λ i. [] }

nothing_open : Represents empty_budget empty_rule [] 0
unfolding source_count find_or shard_of
nothing_open = record { global = refl; rule = refl; sources = λ a. refl; small = omega arith }

reserve_tcp-Refines_example :
    Refines empty_budget empty_rule
      (v4 7)
      []
      0
      2
      5
      3
      (reserve_tcp empty_budget empty_rule (v4 7) (pos 5) (pos 3))
      true
reserve_tcp-Refines_example =
    reserve_tcp-Refines empty_budget empty_rule (v4 7) [] 0 2 5 3 nothing_open refl (omega arith)
      (omega arith)

abbrev one_budget : ResourceBudget
one_budget = record empty_budget { active_tcp = pos 1 }

abbrev one_rule : RuleBudget
one_rule = record { active_tcp = pos 1; sources = λ i. (v4 7, pos 1) ∷ [] }

one_count : (b : Bool) → (if b then pos 1 else pos 0) ≡ pos (if b then 1 else 0)
one_count true = refl
one_count false = refl

one_open : Represents one_budget one_rule (v4 7 ∷ []) 0
unfolding source_count find_or shard_of
one_open = record {
  global = refl;
  rule = refl;
  sources = λ a. one_count (addr_eq (v4 7) a);
  small = omega arith;
}

release_tcp-Represents_example :
    let (b, r) = release_tcp one_budget one_rule (v4 7) in Represents b r [] 0
unfolding addr_eq
release_tcp-Represents_example =
    release_tcp-Represents one_budget one_rule (v4 7) (v4 7 ∷ []) 0 one_open (omega arith)

abbrev two_workers : List Worker
two_workers =
    record { amount = pos 1; stage = loading } ∷ record { amount = pos 1; stage = loading } ∷ []

at_rest : Exact 1 0 (pos 0, two_workers)
unfolding held AllReady
at_rest = (refl, omega arith, (omega arith, tt, (omega arith, tt, tt)))

run_schedule-Exact_example :
    Exact 1 0 (run_schedule (pos 1) (0 ∷ 1 ∷ 0 ∷ 1 ∷ 1 ∷ []) (pos 0) two_workers)
run_schedule-Exact_example =
    run_schedule-Exact 1 (0 ∷ 1 ∷ 0 ∷ 1 ∷ 1 ∷ []) (pos 0) two_workers (omega arith) at_rest

abbrev packet_limits : UdpSourceLimits
packet_limits = record {
  max_sessions = 2;
  new_sessions_rate = 2;
  packet_rate = 3;
  max_tracked_source = 8;
}

abbrev three_packets : List (ℕ × Bool)
three_packets = (0, true) ∷ (5, false) ∷ (1_000_000_000, true) ∷ []

-- A source whose bucket holds far more than one second's packets.
abbrev overfull_source : UdpSourceState
overfull_source = record (fresh_state packet_limits 0) { packet_tokens = 100 * billion }

packet_rate_bound_example :
    ((offers packet_limits ((9, false) ∷ three_packets) overfull_source).1 * billion
      ≤ 3 * billion + (2_000_000_000 - 9) * 3)
    × ((offers packet_limits three_packets (fresh_state packet_limits 9)).1 * billion
        ≤ 3 * billion + (2_000_000_000 - 9) * 3)
unfolding fresh_state
packet_rate_bound_example =
    packet_rate_bound packet_limits 9 2_000_000_000 false three_packets overfull_source
      (omega arith) (omega arith) (omega arith, (omega arith, (omega arith, tt)))

abbrev no_sources : UdpSources
no_sources = record { states = λ i. []; source_count = pos 0; cleanup_cursor = 0; next_cleanup = 0 }

no_sources-IsCounted : IsCounted no_sources
unfolding total
no_sources-IsCounted = record { count = refl; small = omega arith }

reserve_udp_packet-IsCounted_example :
    IsCounted (reserve_udp_packet packet_limits (v4 7) true 5 no_sources).0
reserve_udp_packet-IsCounted_example =
    reserve_udp_packet-IsCounted packet_limits (v4 7) true 5 no_sources (omega arith)
      no_sources-IsCounted

abbrev one_source : UdpSources
one_source = record no_sources {
  states = λ i. if i == 7 then (v4 7, fresh_state packet_limits 0) ∷ [] else [];
  source_count = pos 1;
}

one_source-IsCounted : IsCounted one_source
unfolding total
one_source-IsCounted = record { count = refl; small = omega arith }

maintain_udp_sources-IsCounted_example :
    let (u', inspected) = maintain_udp_sources 3_000_000_000 1_000_000_000 one_source in
    IsCounted u' × (inspected ≤ 4 * 256)
maintain_udp_sources-IsCounted_example =
    maintain_udp_sources-IsCounted 3_000_000_000 1_000_000_000 one_source one_source-IsCounted
