-- ===== src/Budget/Arith.antt =====
-- `reserveAtomic` and `reserveAtomicN` on counters that are not negative.
use go_nftables_portbridge.Prelude.{
  ℕ, ◌+◌, ◌≤◌, ◌<◌, ◌≡◌, true, false, ltb, leb, ◌&&◌, arith, if◌then◌else◌,
}
use go_nftables_portbridge.Prelude.Int.{pos, ◌+ℤ◌, ◌-ℤ◌, +ℤ-pos, half_range}
use go_nftables_portbridge.Budget.{reserve_atomic_n, reserve_atomic}

-- A reservation is granted exactly when its amount is positive and fits under the maximum, and
-- then the counter has grown by the amount; a refused one leaves the counter.
pub reserve_atomic_n_exact :
    (c a m : ℕ)
    → m < half_range
    → a < half_range
    → reserve_atomic_n (pos c) (pos a) (pos m)
      ≡ (if ltb 0 a && leb (c + a) m then (pos (c + a), true) else (pos c, false))
unfolding reserve_atomic_n ◌+ℤ◌ ◌-ℤ◌
reserve_atomic_n_exact c a m h k = ground arith

pub reserve_atomic_exact :
    (c m : ℕ)
    → m < half_range
    → reserve_atomic (pos c) (pos m) ≡ (if ltb c m then (pos (c + 1), true) else (pos c, false))
unfolding reserve_atomic reserve_atomic_n ◌+ℤ◌ ◌-ℤ◌
reserve_atomic_exact c m h = ground arith

pub one_up : (n : ℕ) → n + 2 ≤ half_range → pos n +ℤ pos 1 ≡ pos (n + 1)
one_up n h = +ℤ-pos n 1 (omega arith)

pub one_down : (n : ℕ) → n + 2 ≤ half_range → pos (n + 1) -ℤ pos 1 ≡ pos n
unfolding ◌-ℤ◌
one_down n h = ground arith
