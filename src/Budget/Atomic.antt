-- ===== src/Budget/Atomic.antt =====
-- `reserveAtomicN` of internal/proxy/budget.go as the loop that it is: several goroutines reserve
-- and give back on one `atomic.Int64`, and a schedule says whose step is next.
use go_nftables_portbridge.Prelude.{
  ℕ, zero, suc, ◌+◌, ◌≤◌, ◌<◌, ◌≡◌, refl, Bool, true, false, List, [], ◌∷◌, ◌==◌, arith,
  if◌then◌else◌, inl, inr, Bool-cases, ==_iff, ◌∙◌, ap,
}
use go_nftables_portbridge.Prelude.Int.{ℤ, pos, negsuc, ◌+ℤ◌, ◌-ℤ◌, half_range}
use go_nftables_portbridge.Budget.{over_limit, reserve_atomic_n}

-- Where a goroutine stands: before the load, before the compare-and-swap with the value that it has
-- loaded, after its return, or after it has given the amount back.
pub data Stage : Type 0 where
  loading : Stage
  swapping : ℤ → Stage
  returned : Bool → Stage
  released : Stage

pub record Worker : Type 0 where
  pub amount : ℤ
  pub stage : Stage

abbrev pub equal_ℤ : ℤ → ℤ → Bool
equal_ℤ (pos a) (pos b) = a == b
equal_ℤ (negsuc a) (negsuc b) = a == b
equal_ℤ (pos a) (negsuc b) = false
equal_ℤ (negsuc a) (pos b) = false

-- One atomic step at the counter's value.
unfoldable pub advance : ℤ → ℤ → ℤ → Stage → ℤ × Stage
advance maximum amount value loading =
    (value, if over_limit value amount maximum then returned false else swapping value)
advance maximum amount value (swapping current) =
    if equal_ℤ value current then (value +ℤ amount, returned true) else (value, loading)
advance maximum amount value (returned true) = (value -ℤ amount, released)
advance maximum amount value (returned false) = (value, returned false)
advance maximum amount value released = (value, released)

-- The step of the worker at a place of the list.
unfoldable pub turn : ℤ → ℕ → ℤ → List Worker → ℤ × List Worker
unfolding advance
turn maximum k value [] = (value, [])
turn maximum zero value (w ∷ ws) =
    let (value', stage) = advance maximum w.amount value w.stage in
    (value', record w { stage = stage } ∷ ws)
turn maximum (suc k) value (w ∷ ws) =
    let (value', ws') = turn maximum k value ws in (value', w ∷ ws')

unfoldable pub run_schedule : ℤ → List ℕ → ℤ → List Worker → ℤ × List Worker
unfolding turn
run_schedule maximum [] value ws = (value, ws)
run_schedule maximum (k ∷ schedule) value ws =
    let (value', ws') = turn maximum k value ws in run_schedule maximum schedule value' ws'

abbrev pub holds : Stage → Bool
holds (returned true) = true
holds (returned false) = false
holds loading = false
holds (swapping c) = false
holds released = false

abbrev pub amount_of : ℤ → ℕ
amount_of (pos n) = n
amount_of (negsuc n) = 0

-- What the workers hold between them.
unfoldable pub held : List Worker → ℕ
held [] = 0
held (w ∷ ws) = (if holds w.stage then amount_of w.amount else 0) + held ws

-- A worker about to swap has seen a value that its amount fits on.
abbrev pub Prepared : ℕ → ℤ → Stage → Type 0
Prepared m amount (swapping (pos c)) = (0 < amount_of amount) × (c + amount_of amount ≤ m)
Prepared m amount (swapping (negsuc c)) = ⊥
Prepared m amount (returned b) = Unit
Prepared m amount loading = Unit
Prepared m amount released = Unit

-- Amounts are not negative, and small.
abbrev pub Asks : ℤ → Type 0
Asks (pos n) = n < half_range
Asks (negsuc n) = ⊥

unfoldable pub AllReady : ℕ → List Worker → Type 0
AllReady m [] = Unit
AllReady m (w ∷ ws) = Asks w.amount × Prepared m w.amount w.stage × AllReady m ws

-- From a counter that is not negative, the load and the swap of a goroutine with no step of another
-- between them leave the counter and the answer that `reserveAtomicN` has in one step.
pub advance-reserve_atomic_n :
    (maximum amount : ℤ) (n : ℕ)
    → let (value, stage) = advance maximum amount (pos n) loading in
      let (value', stage') = advance maximum amount value stage in
      (value', holds stage') ≡ reserve_atomic_n (pos n) amount maximum
unfolding advance reserve_atomic_n
advance-reserve_atomic_n maximum amount n = ground arith

over_limit-false :
    (c n m : ℕ)
    → m < half_range
    → n < half_range
    → over_limit (pos c) (pos n) (pos m) ≡ false
    → (0 < n) × (c + n ≤ m)
unfolding ◌-ℤ◌
over_limit-false c n m h k e = ground arith

exact_sum : (c n : ℕ) → c + n < half_range → pos c +ℤ pos n ≡ pos (c + n)
unfolding ◌+ℤ◌
exact_sum c n h = ground arith

exact_difference : (n h : ℕ) → n + h < half_range → pos (n + h) -ℤ pos n ≡ pos h
unfolding ◌-ℤ◌
exact_difference n h k = ground arith

-- The amount that a worker holds.
abbrev pub share : ℤ → Stage → ℕ
share amount s = if holds s then amount_of amount else 0

-- The step of a worker where the others hold h: the counter stays what is held.
abbrev Kept : ℕ → ℕ → ℕ → ℤ × Stage → Type 0
Kept m n h (value, s) =
    (value ≡ pos (share (pos n) s + h)) × (share (pos n) s + h ≤ m) × Prepared m (pos n) s

advance_ready :
    (m n h : ℕ) (s : Stage)
    → m < half_range
    → n < half_range
    → Prepared m (pos n) s
    → share (pos n) s + h ≤ m
    → Kept m n h (advance (pos m) (pos n) (pos (share (pos n) s + h)) s)
unfolding advance
advance_ready m n h loading hm hn p k =
    elim (Bool-cases (over_limit (pos (0 + h)) (pos n) (pos m))) [
      | inl full ↦ rw full (refl, k, tt)
      | inr room ↦ rw room (refl, k, over_limit-false (0 + h) n m hm hn room)
    ]
advance_ready m n h (swapping (pos c)) hm hn p k = elim (Bool-cases (0 + h == c)) [
  | inl same ↦
      let there : 0 + h ≡ c = (==_iff (0 + h) c).0 same in
      rw same (
        exact_sum (0 + h) n (omega (arith, p, there)) ∙ ap pos (omega arith),
        omega (arith, p, there),
        tt,
      )
  | inr moved ↦ rw moved (refl, k, tt)
]
advance_ready m n h (swapping (negsuc c)) hm hn p k = absurd p
advance_ready m n h (returned true) hm hn p k =
    (exact_difference n h (omega arith) ∙ ap pos (omega arith), omega arith, tt)
advance_ready m n h (returned false) hm hn p k = (refl, k, tt)
advance_ready m n h released hm hn p k = (refl, k, tt)

advance_kept :
    (m h : ℕ) (amount value : ℤ) (s : Stage)
    → m < half_range
    → Asks amount
    → Prepared m amount s
    → value ≡ pos (share amount s + h)
    → share amount s + h ≤ m
    → let (value', s') = advance (pos m) amount value s in
      (value' ≡ pos (share amount s' + h)) × (share amount s' + h ≤ m) × Prepared m amount s'
unfolding advance
advance_kept m h (pos n) value s hm asks ready at k = rw at (advance_ready m n h s hm asks ready k)
advance_kept m h (negsuc n) value s hm asks ready at k = absurd asks

-- The counter is what the workers of the list and the others hold, and no more than the maximum.
abbrev pub Exact : ℕ → ℕ → ℤ × List Worker → Type 0
Exact m h (value, ws) = (value ≡ pos (held ws + h)) × (held ws + h ≤ m) × AllReady m ws

turn-Exact :
    (m k h : ℕ) (value : ℤ) (ws : List Worker)
    → m < half_range
    → Exact m h (value, ws)
    → Exact m h (turn (pos m) k value ws)
unfolding turn held AllReady
turn-Exact m k h value [] hm e = e
turn-Exact m zero h value (w ∷ ws) hm (at, le, (asks, ready, rest)) =
    let (at', le', ready') =
      advance_kept m (held ws + h) w.amount value w.stage hm asks ready (at ∙ ap pos (omega arith))
        (omega (arith, le)) in
    (at' ∙ ap pos (omega arith), omega (arith, le'), (asks, ready', rest))
turn-Exact m (suc k) h value (w ∷ ws) hm (at, le, (asks, ready, rest)) =
    let (at', le', rest') =
      turn-Exact m k (share w.amount w.stage + h) value ws hm
        (at ∙ ap pos (omega arith), omega (arith, le), rest) in
    (at' ∙ ap pos (omega arith), omega (arith, le'), (asks, ready, rest'))

-- Under every interleaving of goroutines that reserve amounts and give them back, each in the steps
-- of the compare-and-swap loop, a counter that starts as the sum of the amounts held and within its
-- maximum stays that sum and within that maximum. Amounts and maximum are below 2 ^ 63 and not
-- negative.
pub run_schedule-Exact :
    (m : ℕ) (schedule : List ℕ) (value : ℤ) (ws : List Worker)
    → m < half_range
    → Exact m 0 (value, ws)
    → Exact m 0 (run_schedule (pos m) schedule value ws)
unfolding run_schedule
run_schedule-Exact m [] value ws hm e = e
run_schedule-Exact m (k ∷ schedule) value ws hm e =
    let (value', ws') = turn (pos m) k value ws in
    run_schedule-Exact m schedule value' ws' hm (turn-Exact m k 0 value ws hm e)
