-- ===== src/Budget/Packets/Sweep.antt =====
-- `maintainUDPSources` of internal/proxy/budget.go: the sweeps of the tracked sources.
use go_nftables_portbridge.Prelude.{
  ℕ, zero, suc, ◌+◌, ◌-◌, ◌*◌, ◌%◌, ◌/◌, ◌^◌, ◌≤◌, ◌<◌, ◌≡◌, ◌∙◌, ap, inl, inr, List, [], ◌∷◌, ltb,
  arith, length, Bool-cases,
}
use go_nftables_portbridge.Prelude.Int.{ℤ, pos, ◌-ℤ◌, -ℤ-pos}
use go_nftables_portbridge.Netip.{Addr}
use go_nftables_portbridge.Budget.Shards.{source_budget_shards}
use go_nftables_portbridge.Budget.Packets.{
  UdpSourceState, UdpSources, sweep_shard, set_index, sweep_shards, maintain_udp_sources,
  udp_cleanup_entries_per_shard, udp_cleanup_shards_per_sweep, billion,
}
use go_nftables_portbridge.Budget.Packets.Counted.{total, total-set_index, IsCounted}

sweep_shard-length :
    (rounds cutoff : ℕ) (entries : List (Addr × UdpSourceState))
    → let (left, inspected, deleted) = sweep_shard rounds cutoff entries in
      (length left + deleted ≡ length entries) × (inspected ≤ rounds)
unfolding sweep_shard
sweep_shard-length zero cutoff entries = (omega arith, omega arith)
sweep_shard-length (suc rounds) cutoff [] = (omega arith, omega arith)
sweep_shard-length (suc rounds) cutoff ((a, s) ∷ entries) =
    ground (arith, sweep_shard-length rounds cutoff entries)

swept-IsCounted :
    (k rounds cutoff : ℕ) (u : UdpSources)
    → k < source_budget_shards
    → IsCounted u
    → let (left, inspected, deleted) = sweep_shard rounds cutoff (u.states k) in
      IsCounted (record u {
        states = set_index k left u.states;
        source_count = u.source_count -ℤ pos deleted;
      })
swept-IsCounted k rounds cutoff u h c =
    let (left, inspected, deleted) = sweep_shard rounds cutoff (u.states k) in
    let exact = (sweep_shard-length rounds cutoff (u.states k)).0 in
    let moved = total-set_index source_budget_shards k left u.states h in
    record {
      count =
          ap (λ (n : ℤ). n -ℤ pos deleted) c.count
          ∙ -ℤ-pos (total source_budget_shards u.states) deleted (omega (arith, c.small))
              (omega (arith, exact, moved))
          ∙ ap pos (omega (arith, exact, moved));
      small = omega (arith, exact, moved, c.small);
    }

sweep_shards-IsCounted :
    (offset start cutoff : ℕ) (u : UdpSources)
    → IsCounted u
    → let (u', inspected) = sweep_shards offset start cutoff u in
      IsCounted u' × (inspected ≤ offset * udp_cleanup_entries_per_shard)
unfolding sweep_shards
sweep_shards-IsCounted zero start cutoff u k = (k, omega arith)
sweep_shards-IsCounted (suc offset) start cutoff u k =
    let at = start % source_budget_shards in
    let (left, inspected, deleted) =
      sweep_shard udp_cleanup_entries_per_shard cutoff (u.states at) in
    let few = (sweep_shard-length udp_cleanup_entries_per_shard cutoff (u.states at)).1 in
    let (counted, bounded) =
      sweep_shards-IsCounted offset (start + 1) cutoff
        (record u {
          states = set_index at left u.states;
          source_count = u.source_count -ℤ pos deleted;
        })
        (swept-IsCounted at udp_cleanup_entries_per_shard cutoff u (omega arith) k) in
    (counted, omega (arith, few, bounded))

-- Where `udpSourceCount` is the number of the tracked sources, a sweep, also one that is not due yet,
-- keeps `udpSourceCount` the number of the
-- tracked sources and inspects at most 4 * 256 of them, however many there are.
pub maintain_udp_sources-IsCounted :
    (now idle : ℕ) (u : UdpSources)
    → IsCounted u
    → let (u', inspected) = maintain_udp_sources now idle u in
      IsCounted u' × (inspected ≤ udp_cleanup_shards_per_sweep * udp_cleanup_entries_per_shard)
unfolding maintain_udp_sources
maintain_udp_sources-IsCounted now idle u k =
    elim (Bool-cases (ltb (now / billion) u.next_cleanup)) [
      | inl early ↦ rw early (k, omega arith)
      | inr due ↦ rw due (
          sweep_shards-IsCounted udp_cleanup_shards_per_sweep
            (u.cleanup_cursor % source_budget_shards) (now - idle)
            (record u {
              next_cleanup = (now + billion) / billion;
              cleanup_cursor = (u.cleanup_cursor + udp_cleanup_shards_per_sweep) % 2 ^ 32;
            })
            (record { count = k.count; small = k.small }))
    ]
