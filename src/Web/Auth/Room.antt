-- ===== src/Web/Auth/Room.antt =====
-- The table of addresses of the limiter in internal/web/security.go.
use go_nftables_portbridge.Prelude.{
  ℕ, ◌+◌, ◌-◌, ◌*◌, ◌≤◌, ◌≡◌, refl, Bool, true, false, List, [], ◌∷◌, Option, none, some, ltb,
  arith, length, if◌then◌else◌, Bool-cases, inl, inr, ◌⊎◌, sym,
}
use go_nftables_portbridge.Netip.{Addr, unmap, is_valid}
use go_nftables_portbridge.Netip.Facts.{addr_eq_refl}
use go_nftables_portbridge.Budget.Shards.{
  find, put, erase, length-put-le, length-put_old, length-erase-le,
}
use go_nftables_portbridge.Web.Auth.{
  TokenBucket, AuthLimits, AuthFailureLimiter, keep_recent, oldest, drop_oldest, make_room,
  entry_for, allow_failure, reset, client_key,
}

-- The key stands in the list.
abbrev Stands : Addr → List (Addr × TokenBucket) → Type 0
Stands k [] = ⊥
Stands k ((a, e) ∷ m) = (a ≡ k) ⊎ Stands k m

keep_recent-length :
    (cutoff : ℕ) (m : List (Addr × TokenBucket)) → length (keep_recent cutoff m) ≤ length m
unfolding keep_recent
keep_recent-length cutoff [] = omega arith
keep_recent-length cutoff ((a, e) ∷ m) = ground (arith, keep_recent-length cutoff m)

erase-shorter :
    (k : Addr) (m : List (Addr × TokenBucket)) → Stands k m → length (erase k m) + 1 ≤ length m
unfolding erase
erase-shorter k [] h = absurd h
erase-shorter k ((a, e) ∷ m) (inl here) =
    rw (here, addr_eq_refl k) (omega (arith, length-erase-le k m))
erase-shorter k ((a, e) ∷ m) (inr later) =
    let fewer : length (erase k m) + 1 ≤ length m = erase-shorter k m later in ground (arith, fewer)

oldest-Stands :
    (a : Addr) (t : ℕ) (m : List (Addr × TokenBucket))
    → (oldest a t m ≡ a) ⊎ Stands (oldest a t m) m
unfolding oldest
oldest-Stands a t [] = inl refl
oldest-Stands a t ((b, e) ∷ m) =
    chosen (ltb e.last_seen t) _ _ (oldest-Stands b e.last_seen m) (oldest-Stands a t m)
  where
    chosen :
        (older : Bool) (x y : Addr)
        → (x ≡ b) ⊎ Stands x m
        → (y ≡ a) ⊎ Stands y m
        → ((if older then x else y) ≡ a)
          ⊎ ((b ≡ (if older then x else y)) ⊎ Stands (if older then x else y) m)
    chosen true x y (inl here) h = inr (inl (sym here))
    chosen true x y (inr later) h = inr (inr later)
    chosen false x y h (inl first) = inl first
    chosen false x y h (inr later) = inr (inr later)

drop_oldest-length :
    (m : List (Addr × TokenBucket)) (n : ℕ) → 1 ≤ n → length m ≤ n → length (drop_oldest m) + 1 ≤ n
unfolding drop_oldest
drop_oldest-length [] n h k = omega (arith, h)
drop_oldest-length ((a, e) ∷ m) n h k =
    let fewer =
      erase-shorter (oldest a e.last_seen m) ((a, e) ∷ m) (there (oldest-Stands a e.last_seen m)) in
    omega (arith, fewer, k)
  where
    there : {k : Addr} → (k ≡ a) ⊎ Stands k m → (a ≡ k) ⊎ Stands k m
    there (inl first) = inl (sym first)
    there (inr later) = inr later

make_room-length :
    (n now : ℕ) (m : List (Addr × TokenBucket))
    → 1 ≤ n
    → length m ≤ n
    → length (make_room n now m) + 1 ≤ n
unfolding make_room
make_room-length n now m h k =
    let recent = keep_recent (now - 15 * 60 * 1_000_000_000) m in
    let fewer : length recent ≤ length m = keep_recent-length _ m in
    elim (Bool-cases (ltb (length m) n)) [
      | inl free ↦ rw free (below (length m) free)
      | inr full ↦ elim (Bool-cases (ltb (length recent) n)) [
        | inl some_left ↦ rw (full, some_left) (below (length recent) some_left)
        | inr none_left ↦
            rw (full, none_left) (drop_oldest-length recent n h (omega (arith, fewer, k)))
      ]
    ]
  where
    below : (c : ℕ) → ltb c n ≡ true → c + 1 ≤ n
    below c e = ground arith

entry-length :
    (n now : ℕ) (key : Addr) (m : List (Addr × TokenBucket)) (o : Option TokenBucket)
    (v : TokenBucket)
    → 1 ≤ n
    → length m ≤ n
    → find key m ≡ o
    → length (put key v (entry_for n now m o).0) ≤ n
entry-length n now key m (some e) v h k at = omega (arith, length-put_old key v e m at, k)
entry-length n now key m none v h k at =
    omega (arith, length-put-le key v (make_room n now m), make_room-length n now m h k)

-- Failed logins, from whatever addresses and at whatever times, and logins that succeed keep the
-- table of addresses within its bound, if that is one at least.
pub limiter_stays_bounded :
    (limits : AuthLimits) (ip : Addr) (now : ℕ) (l : AuthFailureLimiter)
    → 1 ≤ limits.max_entries
    → length l.per_ip ≤ limits.max_entries
    → (length (allow_failure limits ip now l).0.per_ip ≤ limits.max_entries)
      × (length (reset ip l).per_ip ≤ limits.max_entries)
unfolding allow_failure reset
limiter_stays_bounded limits ip now l h k = (
  entry-length limits.max_entries now (client_key ip) l.per_ip (find (client_key ip) l.per_ip) _ h k
      refl,
  elim (Bool-cases (is_valid ip)) [
    | inl valid ↦ rw valid (omega (arith, length-erase-le (unmap ip) l.per_ip, k))
    | inr not_valid ↦ rw not_valid k
  ],
)
