-- ===== src/Budget/Release.antt =====
-- `releaseTCP` of internal/proxy/budget.go against the bag of connections of Budget/Tcp.
use go_nftables_portbridge.Prelude.{
  ℕ, zero, suc, ◌+◌, ◌-◌, ◌≤◌, ◌≡◌, ◌∙◌, ap, true, List, [], ◌∷◌, arith, length, if◌then◌else◌,
}
use go_nftables_portbridge.Prelude.Int.{ℤ, pos, ltb_ℤ, ◌-ℤ◌, half_range}
use go_nftables_portbridge.Netip.{Addr, addr_eq}
use go_nftables_portbridge.Netip.Facts.{addr_eq_iff}
use go_nftables_portbridge.Budget.Shards.{Sharded, shard_of, find_or, read-put, read-erase}
use go_nftables_portbridge.Budget.{
  ResourceBudget, RuleBudget, release_tcp, source_count, lower_source,
}
use go_nftables_portbridge.Budget.Tcp.{occurrences, remove, Represents, occurrences-le}

length-remove :
    (s : Addr) (L : List Addr) → 1 ≤ occurrences s L → length (remove s L) + 1 ≡ length L
length-remove s [] h = absurd (omega arith)
length-remove s (x ∷ L) h = ground (arith, length-remove s L)

occurrences-remove :
    (a s : Addr) (L : List Addr)
    → 1 ≤ occurrences s L
    → occurrences a (remove s L) ≡ (if addr_eq s a then occurrences a L - 1 else occurrences a L)
occurrences-remove a s [] h = absurd (omega arith)
occurrences-remove a s (x ∷ L) h =
    ground (arith, occurrences-remove a s L, addr_eq_iff s a, addr_eq_iff x a, addr_eq_iff x s)

down_to : (n k : ℕ) → n ≡ k + 1 → n + 2 ≤ half_range → pos n -ℤ pos 1 ≡ pos k
unfolding ◌-ℤ◌
down_to n k e h = ground arith

more_than_one : (n : ℕ) → ltb_ℤ (pos 1) (pos (suc (suc n))) ≡ true
more_than_one n = ground arith

lowered :
    (s a : Addr) (n : ℕ) (shards : Sharded ℤ)
    → n + 3 ≤ half_range
    → find_or a (pos 0) (shard_of a (lower_source s (pos (suc n)) shards))
      ≡ (if addr_eq s a then pos n else find_or a (pos 0) (shard_of a shards))
unfolding lower_source
lowered s a zero shards h = read-erase s a (pos 0) shards
lowered s a (suc n) shards h =
    rw (more_than_one n, down_to (suc (suc n)) (suc n) (omega arith) (omega arith))
      (read-put s a (pos (suc n)) (pos 0) shards)

released_counts :
    (r : RuleBudget) (s : Addr) (L : List Addr)
    → ((a : Addr) → source_count r a ≡ pos (occurrences a L))
    → 1 ≤ occurrences s L
    → length L + 2 ≤ half_range
    → (a : Addr)
    → find_or a (pos 0) (shard_of a (lower_source s (source_count r s) r.sources))
      ≡ pos (occurrences a (remove s L))
unfolding source_count
released_counts r s L counts held room a =
    ap (λ (x : ℤ). find_or a (pos 0) (shard_of a (lower_source s x r.sources)))
      (counts s ∙ ap pos (one_more (occurrences s L) held))
    ∙ lowered s a (occurrences s L - 1) r.sources (omega (arith, occurrences-le s L))
    ∙ chosen
  where
    one_more : (n : ℕ) → 1 ≤ n → n ≡ suc (n - 1)
    one_more n h = omega arith

    chosen :
        (if addr_eq s a
          then pos (occurrences s L - 1)
          else find_or a (pos 0) (shard_of a r.sources))
        ≡ pos (occurrences a (remove s L))
    chosen = ground (arith, occurrences-remove a s L held, counts a, addr_eq_iff s a)

-- Where the counters represent a bag of connections that holds one of the source: a release of that
-- source leaves them to represent the bag without it.
pub release_tcp-Represents :
    (b : ResourceBudget) (r : RuleBudget) (s : Addr) (L : List Addr) (others : ℕ)
    → Represents b r L others
    → 1 ≤ occurrences s L
    → let (b', r') = release_tcp b r s in Represents b' r' (remove s L) others
unfolding release_tcp source_count
release_tcp-Represents b r s L others rep held = record {
  global =
      ap (λ (x : ℤ). x -ℤ pos 1) rep.global
      ∙ down_to _ _ (omega (arith, length-remove s L held)) rep.small;
  rule =
      ap (λ (x : ℤ). x -ℤ pos 1) rep.rule
      ∙ down_to _ _ (omega (arith, length-remove s L held)) (omega (arith, rep.small));
  sources = released_counts r s L rep.sources held (omega (arith, rep.small));
  small = omega (arith, length-remove s L held, rep.small);
}
