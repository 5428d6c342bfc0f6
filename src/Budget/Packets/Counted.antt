-- ===== src/Budget/Packets/Counted.antt =====
-- `udpSourceCount` of internal/proxy/budget.go and the sources in the shards, across packets and the
-- ends of sessions.
use go_nftables_portbridge.Prelude.{
  ℕ, zero, suc, ◌+◌, ◌≤◌, ◌<◌, ◌≡◌, refl, sym, ◌∙◌, ap, inl, inr, Bool, true, false, List, Option,
  none, some, ltb, ◌==◌, arith, length, if◌then◌else◌, Bool-cases, ==_iff,
}
use go_nftables_portbridge.Prelude.Int.{ℤ, pos, half_range}
use go_nftables_portbridge.Netip.{Addr, unmap}
use go_nftables_portbridge.Budget.Shards.{
  length-put_new, length-put_old, Sharded, find, put, shard_of, set_shard, source_shard,
  source_shard-lt, source_budget_shards,
}
use go_nftables_portbridge.Budget.Arith.{reserve_atomic_exact}
use go_nftables_portbridge.Budget.{reserve_atomic}
use go_nftables_portbridge.Budget.Packets.{
  UdpSourceLimits, UdpSourceState, UdpSources, admit, touch, fresh_state, store, reserve_udp_packet,
  reserve_found, count_new, change_found, rollback_udp_source_session, release_udp_source_session,
  set_index, rollback_state, release_state,
}

-- The entries of the first n shards.
unfoldable pub total : ℕ → Sharded UdpSourceState → ℕ
total zero s = 0
total (suc n) s = length (s n) + total n s

total_same :
    (n k : ℕ) (m : List (Addr × UdpSourceState)) (s : Sharded UdpSourceState)
    → n ≤ k
    → total n (set_index k m s) ≡ total n s
unfolding total set_index
total_same zero k m s h = refl
total_same (suc n) k m s h = ground (arith, total_same n k m s)

at_index :
    (n k : ℕ) (m : List (Addr × UdpSourceState)) (s : Sharded UdpSourceState)
    → (n == k) ≡ true
    → set_index k m s n ≡ m
unfolding set_index
at_index n k m s e = rw e

off_index :
    (n k : ℕ) (m : List (Addr × UdpSourceState)) (s : Sharded UdpSourceState)
    → (n == k) ≡ false
    → set_index k m s n ≡ s n
unfolding set_index
off_index n k m s e = rw e

below : (n k : ℕ) → k < suc n → (n == k) ≡ false → k < n
below n k h e = ground arith

pub total-set_index :
    (n k : ℕ) (m : List (Addr × UdpSourceState)) (s : Sharded UdpSourceState)
    → k < n
    → total n (set_index k m s) + length (s k) ≡ total n s + length m
unfolding total
total-set_index zero k m s h = absurd (omega arith)
total-set_index (suc n) k m s h = elim (Bool-cases (n == k)) [
  | inl here ↦
      let same : n ≡ k = (==_iff n k).0 here in
      omega (
        arith,
        ap length (at_index n k m s here),
        total_same n k m s (omega arith),
        ap (λ (i : ℕ). length (s i)) same,
      )
  | inr away ↦
      omega (arith, ap length (off_index n k m s away), total-set_index n k m s (below n k h away))
]

-- The count of the tracked sources is the number of entries in the 64 shards, far from overflow.
pub record IsCounted (u : UdpSources) : Type 0 where
  pub count : u.source_count ≡ pos (total source_budget_shards u.states)
  pub small : total source_budget_shards u.states + 2 ≤ half_range

total-store_new :
    (a : Addr) (v : UdpSourceState) (s : Sharded UdpSourceState)
    → find a (shard_of a s) ≡ none
    → total source_budget_shards (set_shard a (put a v (shard_of a s)) s)
      ≡ total source_budget_shards s + 1
unfolding set_index set_shard shard_of
total-store_new a v s h = omega (
  arith,
  total-set_index source_budget_shards (source_shard a) (put a v (s (source_shard a))) s
      (source_shard-lt a),
  length-put_new a v (s (source_shard a)) h,
)

total-store_old :
    (a : Addr) (v w : UdpSourceState) (s : Sharded UdpSourceState)
    → find a (shard_of a s) ≡ some w
    → total source_budget_shards (set_shard a (put a v (shard_of a s)) s)
      ≡ total source_budget_shards s
unfolding set_index set_shard shard_of
total-store_old a v w s h = omega (
  arith,
  total-set_index source_budget_shards (source_shard a) (put a v (s (source_shard a))) s
      (source_shard-lt a),
  length-put_old a v w (s (source_shard a)) h,
)

store-IsCounted_old :
    (a : Addr) (v w : UdpSourceState) (u : UdpSources)
    → find a (shard_of a u.states) ≡ some w
    → IsCounted u
    → IsCounted (store a v u)
store-IsCounted_old a v w u h k =
    let same = total-store_old a v w u.states h in
    record { count = k.count ∙ ap pos (sym same); small = omega (arith, same, k.small) }

store-IsCounted_new :
    (a : Addr) (v : UdpSourceState) (u : UdpSources)
    → find a (shard_of a u.states) ≡ none
    → IsCounted u
    → total source_budget_shards u.states + 3 ≤ half_range
    → IsCounted
        (store a v (record u { source_count = pos (total source_budget_shards u.states + 1) }))
store-IsCounted_new a v u h k room =
    let more = total-store_new a v u.states h in
    record { count = ap pos (sym more); small = omega (arith, more, room) }

change_found-IsCounted :
    (f : UdpSourceState → UdpSourceState) (a : Addr) (u : UdpSources) (o : Option UdpSourceState)
    → find a (shard_of a u.states) ≡ o
    → IsCounted u
    → IsCounted (change_found f a u o)
change_found-IsCounted f a u none e k = k
change_found-IsCounted f a u (some s) e k = store-IsCounted_old a (f s) s u e k

count_new-IsCounted :
    (limits : UdpSourceLimits) (new_session : Bool) (now : ℕ) (a : Addr) (u : UdpSources)
    (granted : Bool)
    → find a (shard_of a u.states) ≡ none
    → IsCounted u
    → (granted ≡ true → total source_budget_shards u.states + 3 ≤ half_range)
    → let c = total source_budget_shards u.states in
      IsCounted
        (count_new limits new_session now a u
          (if granted then (pos (c + 1), true) else (pos c, false))).0
count_new-IsCounted limits new_session now a u true e k room =
    store-IsCounted_new a (admit limits new_session (fresh_state limits now)).0 u e k (room refl)
count_new-IsCounted limits new_session now a u false e k room = k

room_left :
    (limits : UdpSourceLimits) (c : ℕ)
    → limits.max_tracked_source + 2 ≤ half_range
    → ltb c limits.max_tracked_source ≡ true
    → c + 3 ≤ half_range
room_left limits c h e = ground arith

reserve_found-IsCounted :
    (limits : UdpSourceLimits) (new_session : Bool) (now : ℕ) (a : Addr) (u : UdpSources)
    (o : Option UdpSourceState)
    → limits.max_tracked_source + 2 ≤ half_range
    → find a (shard_of a u.states) ≡ o
    → IsCounted u
    → IsCounted (reserve_found limits new_session now a u o).0
reserve_found-IsCounted limits new_session now a u none h e k =
    let c = total source_budget_shards u.states in
    let granted =
      ap (λ (n : ℤ). reserve_atomic n (pos limits.max_tracked_source)) k.count
      ∙ reserve_atomic_exact c limits.max_tracked_source (omega (arith, h)) in
    rw granted (
      count_new-IsCounted limits new_session now a u (ltb c limits.max_tracked_source) e k
        (room_left limits c h))
reserve_found-IsCounted limits new_session now a u (some s) h e k =
    store-IsCounted_old a (admit limits new_session (touch limits now s)).0 s u e k

-- Where `udpSourceCount` is the number of the tracked sources, it is that again after a packet was
-- admitted or refused, for every limit on the tracked sources below 2 ^ 63 - 2.
pub reserve_udp_packet-IsCounted :
    (limits : UdpSourceLimits) (source : Addr) (new_session : Bool) (now : ℕ) (u : UdpSources)
    → limits.max_tracked_source + 2 ≤ half_range
    → IsCounted u
    → IsCounted (reserve_udp_packet limits source new_session now u).0
unfolding reserve_udp_packet
reserve_udp_packet-IsCounted limits source new_session now u h k =
    let a = unmap source in
    reserve_found-IsCounted limits new_session now a u (find a (shard_of a u.states)) h refl k

-- Where `udpSourceCount` is the number of the tracked sources, a session that ends and one whose
-- charge is taken back keep it that number.
pub session_end-IsCounted :
    (source : Addr) (rate now : ℕ) (u : UdpSources)
    → IsCounted u
    → IsCounted (rollback_udp_source_session source rate u)
      × IsCounted (release_udp_source_session source now u)
unfolding rollback_udp_source_session release_udp_source_session
session_end-IsCounted source rate now u k =
    let a = unmap source in
    (
      change_found-IsCounted (rollback_state rate) a u (find a (shard_of a u.states)) refl k,
      change_found-IsCounted (release_state now) a u (find a (shard_of a u.states)) refl k,
    )
