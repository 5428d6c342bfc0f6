-- ===== src/Budget/Udp.antt =====
-- `reserveUDP` and `releaseUDP` of internal/proxy/budget.go: the sessions and their memory.
use go_nftables_portbridge.Prelude.{
  ℕ, ◌+◌, ◌≤◌, ◌<◌, ◌≡◌, refl, true, false, ltb, leb, ◌&&◌, arith, if◌then◌else◌, Bool-cases, inl,
  inr, ap, ◌∙◌,
}
use go_nftables_portbridge.Prelude.Int.{ℤ, pos, half_range, -ℤ-pos}
use go_nftables_portbridge.Budget.Arith.{reserve_atomic_exact, reserve_atomic_n_exact, one_down}
use go_nftables_portbridge.Budget.{
  ResourceBudget, reserve_udp, reserve_udp_memory, release_udp, release_udp_memory, reserve_atomic,
  reserve_atomic_n,
}

-- A budget with n sessions that hold m bytes, and its limits.
abbrev pub holding : ResourceBudget → ℕ → ℕ → ℕ → ℕ → ResourceBudget
holding b max_sessions max_bytes n m = record b {
  max_udp = pos max_sessions;
  max_udp_memory = pos max_bytes;
  active_udp = pos n;
  udp_memory = pos m;
}

-- With fewer than 2 ^ 63 - 2 sessions and limits and sizes below 2 ^ 63: a session of some bytes is granted
-- exactly when there is a session left and the bytes, one at least, fit under the memory limit. It
-- then counts with its bytes; refused for either reason, it leaves both counters as they were.
pub reserve_udp_exact :
    (b : ResourceBudget) (max_sessions max_bytes n m bytes : ℕ)
    → n + 2 ≤ half_range
    → max_sessions < half_range
    → max_bytes < half_range
    → bytes < half_range
    → reserve_udp (holding b max_sessions max_bytes n m) (pos bytes) ≡ (
        if ltb n max_sessions && (ltb 0 bytes && leb (m + bytes) max_bytes)
        then (holding b max_sessions max_bytes (n + 1) (m + bytes), true)
        else (holding b max_sessions max_bytes n m, false))
unfolding reserve_udp reserve_udp_memory
reserve_udp_exact b max_sessions max_bytes n m bytes small h k l =
    let count = reserve_atomic_exact n max_sessions h in
    let memory = reserve_atomic_n_exact m bytes max_bytes k l in
    elim (Bool-cases (ltb n max_sessions)) [
      | inr full ↦
          let refused : reserve_atomic (pos n) (pos max_sessions) ≡ (pos n, false) =
            count ∙ (rw full refl) in
          rw (refused, full) refl
      | inl free ↦
          let granted : reserve_atomic (pos n) (pos max_sessions) ≡ (pos (n + 1), true) =
            count ∙ (rw free refl) in
          elim (Bool-cases (ltb 0 bytes && leb (m + bytes) max_bytes)) [
            | inl fits ↦
                let taken : reserve_atomic_n (pos m) (pos bytes) (pos max_bytes)
                    ≡ (pos (m + bytes), true) =
                  memory ∙ (rw fits refl) in
                rw (granted, taken, free, fits) refl
            | inr too_much ↦
                let kept : reserve_atomic_n (pos m) (pos bytes) (pos max_bytes) ≡ (pos m, false) =
                  memory ∙ (rw too_much refl) in
                rw (granted, kept, free, too_much)
                  (ap
                    (λ (x : ℤ).
                      (record (holding b max_sessions max_bytes n m) { active_udp = x }, false))
                    (one_down n small))
          ]
    ]

-- With fewer than 2 ^ 63 - 2 sessions and fewer than 2 ^ 63 - 1 bytes in use: the release of a session with
-- its bytes, of those in use, takes the two off the counters.
pub release_udp_exact :
    (b : ResourceBudget) (max_sessions max_bytes n m bytes : ℕ)
    → n + 2 ≤ half_range
    → m + bytes + 1 ≤ half_range
    → release_udp (holding b max_sessions max_bytes (n + 1) (m + bytes)) (pos bytes)
      ≡ holding b max_sessions max_bytes n m
unfolding release_udp release_udp_memory
release_udp_exact b max_sessions max_bytes n m bytes small fits =
    rw (one_down n small, -ℤ-pos (m + bytes) bytes fits (omega arith))
      (ap (λ (x : ℕ). holding b max_sessions max_bytes n x) (omega arith))
