-- ===== src/Budget/Packets/Rate.antt =====
-- The token buckets of `reserveUDPPacket` in internal/proxy/budget.go, over a stretch of time.
use go_nftables_portbridge.Prelude.{
  ℕ, ap, ◌+◌, ◌-◌, ◌*◌, ◌≤◌, ◌≡◌, Bool, true, false, List, [], ◌∷◌, ltb, arith, All, if◌then◌else◌,
}
use go_nftables_portbridge.Budget.Packets.{
  billion, UdpSourceLimits, UdpSourceState, fresh_state, admit, touch, capped,
}

-- One packet of a known source.
abbrev pub offer : UdpSourceLimits → ℕ × Bool → UdpSourceState → UdpSourceState × Bool
offer limits (now, new_session) s = admit limits new_session (touch limits now s)

-- The packets of a source, each with its time and whether it wants a new session: the state that is
-- left, and how many were let through.
pub offers : UdpSourceLimits → List (ℕ × Bool) → UdpSourceState → UdpSourceState × ℕ
offers limits [] s = (s, 0)
offers limits (p ∷ ps) s =
    let (s', granted) = offer limits p s in
    let (end, k) = offers limits ps s' in (end, if granted then k + 1 else k)

capped-le : (maximum t : ℕ) → capped maximum t ≤ t
capped-le maximum t = ground arith

clock_gap :
    (last now : ℕ)
    → (last ≤ (if ltb last now then now else last))
      × ((if ltb last now then now else last) - last ≡ now - last)
clock_gap last now = ground arith

-- What a refill does to the packet bucket, and how far the clock of the bucket moves.
refill_gain :
    (limits : UdpSourceLimits) (now : ℕ) (s : UdpSourceState)
    → let s' = touch limits now s in
      (s.last_refill ≤ s'.last_refill)
      × (s'.packet_tokens ≤ s.packet_tokens + (s'.last_refill - s.last_refill) * limits.packet_rate)
unfolding touch
refill_gain limits now s =
    let (later, gap) = clock_gap s.last_refill now in
    let bounded =
      capped-le (limits.packet_rate * billion)
        (s.packet_tokens + (now - s.last_refill) * limits.packet_rate) in
    (later, rw gap bounded)

admit_cost :
    (limits : UdpSourceLimits) (new_session : Bool) (s : UdpSourceState)
    → let (s', granted) = admit limits new_session s in
      (s'.last_refill ≡ s.last_refill)
      × (s'.packet_tokens + (if granted then billion else 0) ≡ s.packet_tokens)
unfolding admit
admit_cost limits new_session s = ground arith

-- The balance of a bucket: what is left and what was spent is at most what was there and came in.
abbrev Balanced : UdpSourceLimits → UdpSourceState → UdpSourceState → ℕ → Type 0
Balanced limits s s' spent =
    (s.last_refill ≤ s'.last_refill)
    × (s'.packet_tokens + spent
        ≤ s.packet_tokens + (s'.last_refill - s.last_refill) * limits.packet_rate)

offer-Balanced :
    (limits : UdpSourceLimits) (p : ℕ × Bool) (s : UdpSourceState)
    → let (s', granted) = offer limits p s in Balanced limits s s' (if granted then billion else 0)
offer-Balanced limits (now, new_session) s =
    let (later, gain) = refill_gain limits now s in
    let (same, cost) = admit_cost limits new_session (touch limits now s) in
    rw same (later, omega (arith, gain, cost))

pub add_gaps : (a b c r : ℕ) → a ≤ b → b ≤ c → (b - a) * r + (c - b) * r ≡ (c - a) * r
add_gaps a b c r h k =
    let gap : c - a ≡ (b - a) + (c - b) = omega arith in omega (arith, ap (λ (t : ℕ). t * r) gap)

Balanced-trans :
    (limits : UdpSourceLimits) (s t u : UdpSourceState) (x y : ℕ)
    → Balanced limits s t x
    → Balanced limits t u y
    → Balanced limits s u (x + y)
Balanced-trans limits s t u x y (h, e) (k, f) = (
  omega arith,
  omega (arith, add_gaps s.last_refill t.last_refill u.last_refill limits.packet_rate h k),
)

-- A packet from some state and the packets behind it, from the balance of each.
offers-Balanced_step :
    (limits : UdpSourceLimits) (s : UdpSourceState) (o : UdpSourceState × Bool)
    (q : UdpSourceState × ℕ)
    → Balanced limits s o.0 (if o.1 then billion else 0)
    → Balanced limits o.0 q.0 (q.1 * billion)
    → Balanced limits s q.0 ((if o.1 then q.1 + 1 else q.1) * billion)
offers-Balanced_step limits s (s', true) (t, k) b c =
    let (later, most) = Balanced-trans limits s s' t billion (k * billion) b c in
    (later, omega arith)
offers-Balanced_step limits s (s', false) (t, k) b c =
    let (later, most) = Balanced-trans limits s s' t 0 (k * billion) b c in (later, omega arith)

offers-Balanced :
    (limits : UdpSourceLimits) (ps : List (ℕ × Bool)) (s : UdpSourceState)
    → let (s', k) = offers limits ps s in Balanced limits s s' (k * billion)
unfolding offers
offers-Balanced limits [] s = (omega arith, omega arith)
offers-Balanced limits (p ∷ ps) s =
    offers-Balanced_step limits s (offer limits p s) (offers limits ps (offer limits p s).0)
      (offer-Balanced limits p s) (offers-Balanced limits ps (offer limits p s).0)

-- No packet is later than a time.
abbrev pub AllBy : ℕ → List (ℕ × Bool) → Type 0
AllBy until ps = All (λ p. p.0 ≤ until) ps

offer_by :
    (limits : UdpSourceLimits) (until now : ℕ) (new_session : Bool) (s : UdpSourceState)
    → s.last_refill ≤ until
    → now ≤ until
    → (offer limits (now, new_session) s).0.last_refill ≤ until
unfolding touch
offer_by limits until now new_session s h by =
    rw ((admit_cost limits new_session (touch limits now s)).0) (ground arith)

last_refill-le :
    (limits : UdpSourceLimits) (until : ℕ) (ps : List (ℕ × Bool)) (s : UdpSourceState)
    → s.last_refill ≤ until
    → AllBy until ps
    → (offers limits ps s).0.last_refill ≤ until
unfolding offers
last_refill-le limits until [] s h all = h
last_refill-le limits until ((now, new_session) ∷ ps) s h (by, rest) =
    last_refill-le limits until ps (offer limits (now, new_session) s).0
      (offer_by limits until now new_session s h by) rest

mul_mono : (a b r : ℕ) → a ≤ b → a * r ≤ b * r
mul_mono a b r h = grind arith

pub widen :
    (left spent start last first until r : ℕ)
    → last ≤ until
    → left + spent ≤ start + (last - first) * r
    → spent ≤ start + (until - first) * r
widen left spent start last first until r h most =
    omega (arith, mul_mono (last - first) (until - first) r (omega arith))

fresh_bound :
    (limits : UdpSourceLimits) (first until : ℕ) (ps : List (ℕ × Bool))
    → first ≤ until
    → AllBy until ps
    → (offers limits ps (fresh_state limits first)).1 * billion
      ≤ limits.packet_rate * billion + (until - first) * limits.packet_rate
unfolding fresh_state
fresh_bound limits first until ps h all =
    let s = fresh_state limits first in
    let (later, most) = offers-Balanced limits ps s in
    let by = last_refill-le limits until ps s h all in
    widen (offers limits ps s).0.packet_tokens _ _ (offers limits ps s).0.last_refill first until
      limits.packet_rate by most

-- However full a bucket was, it holds one second's packets at most after a refill.
touch_caps :
    (limits : UdpSourceLimits) (now : ℕ) (s : UdpSourceState)
    → s.last_refill ≤ now
    → let s' = touch limits now s in
      (s'.last_refill ≡ now) × (s'.packet_tokens ≤ limits.packet_rate * billion)
unfolding touch
touch_caps limits now s h = (ground arith, ground arith)

-- The balance of a packet and those behind it, from the state that the packet's refill leaves.
offers-Balanced-touch :
    (limits : UdpSourceLimits) (now : ℕ) (new_session : Bool) (ps : List (ℕ × Bool))
    (s : UdpSourceState)
    → let (s', k) = offers limits ((now, new_session) ∷ ps) s in
      Balanced limits (touch limits now s) s' (k * billion)
unfolding offers
offers-Balanced-touch limits now new_session ps s =
    let t = touch limits now s in
    let (same, cost) = admit_cost limits new_session t in
    offers-Balanced_step limits t (admit limits new_session t)
      (offers limits ps (admit limits new_session t).0) (omega arith, omega arith)
      (offers-Balanced limits ps (admit limits new_session t).0)

-- A source's packets from one at `first` until `until`, with whatever was in the buckets of the
-- source before, which were not filled later than `first`; the packets behind it may come in any order
-- and want whatever sessions. At most the burst of one second and the rate over the whole stretch are
-- let through, where a packet counts a billion units. The same holds of any packets until `until` that
-- are offered to the state which is made for a new source at `first`.
pub packet_rate_bound :
    (limits : UdpSourceLimits) (first until : ℕ) (new_session : Bool) (ps : List (ℕ × Bool))
    (s : UdpSourceState)
    → s.last_refill ≤ first
    → first ≤ until
    → AllBy until ps
    → let most = limits.packet_rate * billion + (until - first) * limits.packet_rate in
      ((offers limits ((first, new_session) ∷ ps) s).1 * billion ≤ most)
      × ((offers limits ps (fresh_state limits first)).1 * billion ≤ most)
packet_rate_bound limits first until new_session ps s idle h all =
    let q = offers limits ((first, new_session) ∷ ps) s in
    let t = touch limits first s in
    let (at, full) = touch_caps limits first s idle in
    let (later, most) = offers-Balanced-touch limits first new_session ps s in
    let by = last_refill-le limits until ((first, new_session) ∷ ps) s (omega arith) (h, all) in
    let since : (until - t.last_refill) * limits.packet_rate
        ≡ (until - first) * limits.packet_rate =
      ap (λ (x : ℕ). (until - x) * limits.packet_rate) at in
    let spent =
      widen q.0.packet_tokens (q.1 * billion) t.packet_tokens q.0.last_refill t.last_refill until
        limits.packet_rate by most in
    (omega (arith, spent, since, full), fresh_bound limits first until ps h all)
