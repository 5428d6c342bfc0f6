-- ===== src/Plan/Workers.antt =====
-- The UDP workers of internal/proxy: `effectiveUDPWorkers` (udp.go), `distributeUDPWorkers`
-- (manager.go), and the shares of `distributeGoUDPWorkers` (plan.go). The counts are those of a
-- validated rule, so they are natural numbers far from overflow.
use go_nftables_portbridge.Prelude.{
  ℕ, zero, suc, ◌+◌, ◌-◌, ◌*◌, ◌/◌, ◌%◌, ◌<◌, ◌≤◌, ◌≡◌, refl, List, [], ◌∷◌, ltb, ◌==◌, arith, sum,
  length, ap, ◌∙◌, ◌⊎◌, inl, inr, All, if◌then◌else◌,
}
use go_nftables_portbridge.Prelude.Int.{ℤ, pos}

abbrev pub max_automatic_udp_workers : ℕ
max_automatic_udp_workers = 16

-- `processors` is `runtime.GOMAXPROCS(0)`.
abbrev automatic_workers : ℕ → ℕ
automatic_workers processors =
    let workers = if ltb processors 1 then 1 else processors in
    if ltb max_automatic_udp_workers workers then max_automatic_udp_workers else workers

unfoldable pub effective_udp_workers : ℕ → ℤ → ℕ
effective_udp_workers processors (pos (suc n)) = suc n
effective_udp_workers processors _ = automatic_workers processors

-- `if total < minimum { total = minimum }`
abbrev pub at_least : ℕ → ℕ → ℕ
at_least minimum total = if ltb total minimum then minimum else total

-- The loop of `distributeUDPWorkers`, with the endpoints and the workers that remain.
unfoldable pub spread : ℕ → ℕ → List ℕ
spread zero workers = []
spread (suc rest) workers =
    let share = workers / suc rest + (if workers % suc rest == 0 then 0 else 1) in
    share ∷ spread rest (workers - share)

unfoldable pub distribute_udp_workers : ℕ → ℕ → List ℕ
unfolding spread
distribute_udp_workers budget endpoints = spread endpoints (at_least endpoints budget)

-- The workers of the path at place `i`: `base` for each, and one more for the first `more` paths.
abbrev pub share_at : ℕ → ℕ → ℕ → ℕ
share_at base more i = base + (if ltb i more then 1 else 0)

-- The workers of the path at place `i` of `paths` paths, each with as many endpoints.
unfoldable pub path_workers : ℕ → ℕ → ℕ → ℕ → ℕ
path_workers endpoints paths total i =
    let extra = at_least (endpoints * paths) total - endpoints * paths in
    share_at (endpoints + extra / paths) (extra % paths) i

abbrev shares_from : ℕ → ℕ → ℕ → ℕ → List ℕ
shares_from zero base more i = []
shares_from (suc rest) base more i = share_at base more i ∷ shares_from rest base more (i + 1)

-- The workers of the paths from place `i` on.
pub paths_from : ℕ → ℕ → ℕ → ℕ → ℕ → List ℕ
unfolding path_workers
paths_from zero endpoints paths total i = []
paths_from (suc rest) endpoints paths total i =
    path_workers endpoints paths total i ∷ paths_from rest endpoints paths total (i + 1)

zero_or_more : (q : ℕ) → (q ≡ 0) ⊎ (1 ≤ q)
zero_or_more zero = inl refl
zero_or_more (suc q) = inr (omega arith)

one_share : (n w : ℕ) → suc n ≤ w → 1 ≤ w / suc n
one_share n w h = elim (zero_or_more (w / suc n)) [
  | inr more ↦ more
  | inl none_left ↦
      let below : w % suc n < suc n = omega arith in
      let whole : suc n * (w / suc n) + w % suc n ≡ w = omega arith in
      let nothing : suc n * (w / suc n) ≡ 0 = ap (λ (q : ℕ). suc n * q) none_left ∙ omega arith in
      absurd (omega (arith, below, whole, nothing, h))
]

grow : (n q : ℕ) → 1 ≤ q → n ≤ n * q
grow n q h = grind arith

share_room : (n q r w : ℕ) → suc n * q + r ≡ w → n ≤ n * q → n + (q + (if r == 0 then 0 else 1)) ≤ w
share_room n q r w whole many =
    let split : suc n * q ≡ n * q + q = grind arith in ground (arith, split)

-- The rounded-up share leaves one worker at least for each endpoint that remains.
share_fits : (n w : ℕ) → suc n ≤ w → n + (w / suc n + (if w % suc n == 0 then 0 else 1)) ≤ w
share_fits n w h =
    let q = w / suc n in
    let r = w % suc n in
    let whole : suc n * q + r ≡ w = omega arith in
    let one : 1 ≤ q = one_share n w h in
    let many : n ≤ n * q = grow n q one in share_room n q r w whole many

spread-sum : (n w : ℕ) → n ≤ w → 1 ≤ n → sum (spread n w) ≡ w
unfolding spread
spread-sum zero w h k = absurd (omega arith)
spread-sum (suc zero) w h k = ground arith
spread-sum (suc (suc n)) w h k =
    let share = w / suc (suc n) + (if w % suc (suc n) == 0 then 0 else 1) in
    let fits : suc n + share ≤ w = share_fits (suc n) w h in
    omega (arith, spread-sum (suc n) (w - share) (omega (arith, fits)) (omega arith))

shares_sum :
    (rest base more i : ℕ)
    → sum (shares_from rest base more i) + (if ltb i more then i else more)
      ≡ rest * base + (if ltb (i + rest) more then i + rest else more)
shares_sum zero base more i = ground arith
shares_sum (suc rest) base more i = ground (arith, shares_sum rest base more (i + 1))

spread-All : (n w : ℕ) → n ≤ w → All (λ s. 1 ≤ s) (spread n w) × (length (spread n w) ≡ n)
unfolding spread
spread-All zero w h = (tt, refl)
spread-All (suc n) w h =
    let share = w / suc n + (if w % suc n == 0 then 0 else 1) in
    let fits : n + share ≤ w = share_fits n w h in
    let (all, same) = spread-All n (w - share) (omega (arith, fits)) in
    ((omega (arith, one_share n w h), all), ap suc same)

-- `distributeUDPWorkers` gives each endpoint one worker at least, and together they are the budget,
-- or one for each endpoint where the budget is smaller.
pub distribute_udp_workers-sum :
    (budget endpoints : ℕ)
    → 1 ≤ endpoints
    → let plan = distribute_udp_workers budget endpoints in
      (length plan ≡ endpoints) × All (λ s. 1 ≤ s) plan × (sum plan ≡ at_least endpoints budget)
unfolding distribute_udp_workers
distribute_udp_workers-sum budget endpoints h =
    let enough : endpoints ≤ at_least endpoints budget = ground arith in
    let (all, same) = spread-All endpoints (at_least endpoints budget) enough in
    (same, all, spread-sum endpoints (at_least endpoints budget) enough h)

paths_shares :
    (rest endpoints paths total i : ℕ)
    → let extra = at_least (endpoints * paths) total - endpoints * paths in
      paths_from rest endpoints paths total i
      ≡ shares_from rest (endpoints + extra / paths) (extra % paths) i
unfolding paths_from path_workers
paths_shares zero endpoints paths total i = refl
paths_shares (suc rest) endpoints paths total i =
    ap (λ (xs : List ℕ). path_workers endpoints paths total i ∷ xs)
      (paths_shares rest endpoints paths total (i + 1))

paths-All :
    (rest endpoints paths total i : ℕ)
    → All (λ s. endpoints ≤ s) (paths_from rest endpoints paths total i)
unfolding paths_from path_workers
paths-All zero endpoints paths total i = tt
paths-All (suc rest) endpoints paths total i =
    (omega arith, paths-All rest endpoints paths total (i + 1))

regroup :
    (paths endpoints q r extra total : ℕ)
    → paths * q + r ≡ extra
    → endpoints * paths + extra ≡ total
    → paths * (endpoints + q) + r ≡ total
regroup paths endpoints q r extra total h k = grind arith

-- The Go paths of a rule share its UDP workers: each gets one for each of its endpoints at least, and
-- together they are the rule's workers, or one for each endpoint where the rule has fewer.
pub paths_from-sum :
    (endpoints paths total : ℕ)
    → 1 ≤ paths
    → let shares = paths_from paths endpoints paths total 0 in
      All (λ s. endpoints ≤ s) shares × (sum shares ≡ at_least (endpoints * paths) total)
paths_from-sum endpoints paths total h =
    let all = at_least (endpoints * paths) total in
    let extra = all - endpoints * paths in
    let more = extra % paths in
    let fewer : more < paths = omega arith in
    let added = shares_sum paths (endpoints + extra / paths) more 0 in
    let whole : endpoints * paths + extra ≡ all = ground arith in
    let parts : paths * (extra / paths) + more ≡ extra = omega arith in
    (
      paths-All paths endpoints paths total 0,
      ap sum (paths_shares paths endpoints paths total 0)
          ∙ closed paths (endpoints + extra / paths) more
              (sum (shares_from paths (endpoints + extra / paths) more 0)) fewer added
          ∙ regroup paths endpoints (extra / paths) more extra all parts whole,
    )
  where
    closed :
        (paths base more s : ℕ)
        → more < paths
        → s + (if ltb 0 more then 0 else more)
          ≡ paths * base + (if ltb (0 + paths) more then 0 + paths else more)
        → s ≡ paths * base + more
    closed paths base more s fewer e = ground arith
