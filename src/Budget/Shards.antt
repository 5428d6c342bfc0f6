-- ===== src/Budget/Shards.antt =====
-- The sharded maps of internal/proxy/budget.go: 64 Go maps from an address, each an association
-- list, chosen by `sourceShard`.
use Prim.Native.Nat.{bit_xor}
use go_nftables_portbridge.Prelude.{
  length, ◌+◌, ◌≤◌, ℕ, ◌%◌, ◌/◌, ◌<◌, ◌≡◌, refl, sym, false, List, [], ◌∷◌, Option, none, some,
  arith, ◌==◌, if◌then◌else◌, Bool-cases, inl, inr, ap, ◌∙◌, ==_iff,
}
use go_nftables_portbridge.Netip.{Addr, zero_addr, v4, v6, addr_eq, unmap}
use go_nftables_portbridge.Netip.Facts.{addr_eq_iff}

abbrev pub source_budget_shards : ℕ
source_budget_shards = 64

-- The bytes of a number, folded with `^`: `rounds` of them from the lowest on.
unfoldable pub fold_bytes : ℕ → ℕ → ℕ
fold_bytes ℕ.zero a = 0
fold_bytes (ℕ.suc rounds) a = bit_xor (a % 256) (fold_bytes rounds (a / 256))

abbrev bytes_of : Addr → ℕ
bytes_of (v4 a) = fold_bytes 4 a
bytes_of (v6 a z) = fold_bytes 16 a
bytes_of zero_addr = 0

unfoldable pub source_shard : Addr → ℕ
unfolding unmap fold_bytes
source_shard address = bytes_of (unmap address) % source_budget_shards

pub source_shard-lt : (a : Addr) → source_shard a < source_budget_shards
unfolding source_shard
source_shard-lt a = omega arith

module _ {V : Type 0} where
  unfoldable pub find : Addr → List (Addr × V) → Option V
  find k [] = none
  find k ((j, v) ∷ m) = if addr_eq j k then some v else find k m

  unfoldable pub find_or : Addr → V → List (Addr × V) → V
  find_or k d [] = d
  find_or k d ((j, v) ∷ m) = if addr_eq j k then v else find_or k d m

  unfoldable pub put : Addr → V → List (Addr × V) → List (Addr × V)
  put k v [] = (k, v) ∷ []
  put k v ((j, w) ∷ m) = if addr_eq j k then (k, v) ∷ m else (j, w) ∷ put k v m

  -- `delete(m, k)`. A key stands in a Go map once; all its places go.
  unfoldable pub erase : Addr → List (Addr × V) → List (Addr × V)
  erase k [] = []
  erase k ((j, w) ∷ m) = let rest = erase k m in if addr_eq j k then rest else (j, w) ∷ rest

  pub length-put_new :
      (k : Addr) (v : V) (m : List (Addr × V)) → find k m ≡ none → length (put k v m) ≡ length m + 1
  unfolding find put
  length-put_new k v [] h = refl
  length-put_new k v ((j, w) ∷ m) h = ground (arith, length-put_new k v m)

  pub length-put_old :
      (k : Addr) (v w : V) (m : List (Addr × V)) → find k m ≡ some w → length (put k v m) ≡ length m
  unfolding find put
  length-put_old k v w [] h = cc
  length-put_old k v w ((j, x) ∷ m) h = ground (arith, length-put_old k v w m)

  pub length-put-le : (k : Addr) (v : V) (m : List (Addr × V)) → length (put k v m) ≤ length m + 1
  unfolding put
  length-put-le k v [] = omega arith
  length-put-le k v ((j, w) ∷ m) = ground (arith, length-put-le k v m)

  pub length-erase-le : (k : Addr) (m : List (Addr × V)) → length (erase k m) ≤ length m
  unfolding erase
  length-erase-le k [] = omega arith
  length-erase-le k ((j, w) ∷ m) = ground (arith, length-erase-le k m)

  pub find_or-put :
      (k j : Addr) (v d : V) (m : List (Addr × V))
      → find_or j d (put k v m) ≡ (if addr_eq k j then v else find_or j d m)
  unfolding find_or put
  find_or-put k j v d [] = refl
  find_or-put k j v d ((i, w) ∷ m) =
      ground (arith, addr_eq_iff k j, addr_eq_iff i k, addr_eq_iff i j, find_or-put k j v d m)

  pub find_or-erase :
      (k j : Addr) (d : V) (m : List (Addr × V))
      → find_or j d (erase k m) ≡ (if addr_eq k j then d else find_or j d m)
  unfolding find_or erase
  find_or-erase k j d [] = ground arith
  find_or-erase k j d ((i, w) ∷ m) =
      ground (arith, addr_eq_iff k j, addr_eq_iff i k, addr_eq_iff i j, find_or-erase k j d m)

abbrev pub Sharded : Type 0 → Type 0
Sharded V = ℕ → List (Addr × V)

module _ {V : Type 0} where
  unfoldable pub shard_of : Addr → Sharded V → List (Addr × V)
  shard_of a s = s (source_shard a)

  unfoldable pub set_shard : Addr → List (Addr × V) → Sharded V → Sharded V
  set_shard a m s = λ i. if i == source_shard a then m else s i

  -- A change of one shard by an operation on maps, read at an address.
  read-set_shard :
      (k j : Addr) (d w : V) (m : List (Addr × V)) (s : Sharded V)
      → find_or j d m ≡ (if addr_eq k j then w else find_or j d (shard_of k s))
      → find_or j d (shard_of j (set_shard k m s))
        ≡ (if addr_eq k j then w else find_or j d (shard_of j s))
  unfolding shard_of set_shard
  read-set_shard k j d w m s e = elim (Bool-cases (source_shard j == source_shard k)) [
    | inl together ↦ rw together (
        e
        ∙ ap (λ (i : ℕ). if addr_eq k j then w else find_or j d (s i))
            (sym ((==_iff (source_shard j) (source_shard k)).0 together)))
    | inr apart ↦ rw (apart, different k j apart) refl
  ]
    where
      different : (k j : Addr) → (source_shard j == source_shard k) ≡ false → addr_eq k j ≡ false
      different k j apart = ground (arith, addr_eq_iff k j, ap source_shard, apart)

  -- The shards read as one map: a write at one source is seen at that source only.
  pub read-put :
      (k j : Addr) (v d : V) (s : Sharded V)
      → find_or j d (shard_of j (set_shard k (put k v (shard_of k s)) s))
        ≡ (if addr_eq k j then v else find_or j d (shard_of j s))
  read-put k j v d s =
      read-set_shard k j d v (put k v (shard_of k s)) s (find_or-put k j v d (shard_of k s))

  pub read-erase :
      (k j : Addr) (d : V) (s : Sharded V)
      → find_or j d (shard_of j (set_shard k (erase k (shard_of k s)) s))
        ≡ (if addr_eq k j then d else find_or j d (shard_of j s))
  read-erase k j d s =
      read-set_shard k j d d (erase k (shard_of k s)) s (find_or-erase k j d (shard_of k s))
