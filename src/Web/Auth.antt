-- ===== src/Web/Auth.antt =====
-- The limiter of failed logins, `authFailureLimiter` of internal/web/security.go. A token is six
-- billion units and a time a number of nanoseconds, so that the rates of 1/6 and 5 tokens in a second
-- are 1 and 30 units in a nanosecond and a refill is exact.
pub mod Rate
pub mod Room
use go_nftables_portbridge.Prelude.{
  ℕ, ◌+◌, ◌-◌, ◌*◌, ◌≤◌, Bool, true, false, ◌&&◌, not, List, [], ◌∷◌, Option, none, some, ltb, leb,
  length, if◌then◌else◌,
}
use go_nftables_portbridge.Netip.{Addr, unmap, is_valid}
use go_nftables_portbridge.Budget.Shards.{find, put, erase}

abbrev pub token : ℕ
token = 6_000_000_000

-- `last` is `none` where it is the zero time.
pub record TokenBucket : Type 0 where
  pub tokens : ℕ
  pub last : Option ℕ
  pub last_seen : ℕ

pub record AuthLimits : Type 0 where
  pub per_ip_rate : ℕ
  pub per_ip_burst : ℕ
  pub global_rate : ℕ
  pub global_burst : ℕ
  pub max_entries : ℕ

pub record AuthFailureLimiter : Type 0 where
  pub per_ip : List (Addr × TokenBucket)
  pub global : TokenBucket

abbrev pub empty_bucket : TokenBucket
empty_bucket = record { tokens = 0; last = none; last_seen = 0 }

abbrev pub default_limits : AuthLimits
default_limits = record {
  per_ip_rate = 1;
  per_ip_burst = 10 * token;
  global_rate = 30;
  global_burst = 100 * token;
  max_entries = 4096;
}

abbrev pub new_auth_failure_limiter : AuthFailureLimiter
new_auth_failure_limiter = record { per_ip = []; global = empty_bucket }

abbrev pub capped_at : ℕ → ℕ → ℕ
capped_at burst tokens = if ltb burst tokens then burst else tokens

-- The refill of a bucket that was filled last at some time, or never.
abbrev pub refill_since : ℕ → ℕ → ℕ → TokenBucket → Option ℕ → TokenBucket
refill_since now rate burst b none = record b { tokens = burst; last = some now }
refill_since now rate burst b (some t) =
    if ltb t now
    then record b { tokens = capped_at burst (b.tokens + (now - t) * rate); last = some now }
    else b

unfoldable pub refill_bucket : ℕ → ℕ → ℕ → TokenBucket → TokenBucket
refill_bucket now rate burst b = refill_since now rate burst b b.last

-- The entries that were seen since the cutoff.
unfoldable pub keep_recent : ℕ → List (Addr × TokenBucket) → List (Addr × TokenBucket)
keep_recent cutoff [] = []
keep_recent cutoff ((a, b) ∷ m) =
    let rest = keep_recent cutoff m in if ltb b.last_seen cutoff then rest else (a, b) ∷ rest

-- The entry with the earliest time, the first of several, from one that stands before the rest.
unfoldable pub oldest : Addr → ℕ → List (Addr × TokenBucket) → Addr
oldest a t [] = a
oldest a t ((b, e) ∷ m) =
    let moved = oldest b e.last_seen m in
    let stayed = oldest a t m in if ltb e.last_seen t then moved else stayed

-- `delete` of the zero address from an empty map changes nothing.
unfoldable pub drop_oldest : List (Addr × TokenBucket) → List (Addr × TokenBucket)
unfolding erase oldest
drop_oldest [] = []
drop_oldest ((a, e) ∷ m) = erase (oldest a e.last_seen m) ((a, e) ∷ m)

unfoldable pub make_room : ℕ → ℕ → List (Addr × TokenBucket) → List (Addr × TokenBucket)
unfolding keep_recent drop_oldest
make_room max_entries now m =
    let recent = keep_recent (now - 15 * 60 * 1_000_000_000) m in
    if ltb (length m) max_entries
    then m
    else if ltb (length recent) max_entries
    then recent
    else drop_oldest recent

-- The bucket of an address, and the map that it is put back into.
abbrev pub entry_for :
    ℕ → ℕ → List (Addr × TokenBucket) → Option TokenBucket → List (Addr × TokenBucket) × TokenBucket
entry_for max_entries now m (some e) = (m, e)
entry_for max_entries now m none = (make_room max_entries now m, empty_bucket)

abbrev pub spend : TokenBucket → TokenBucket
spend b = if leb token b.tokens then record b { tokens = b.tokens - token } else b

abbrev pub client_key : Addr → Addr
client_key ip = if is_valid ip then unmap ip else ip

-- A failure is allowed where both buckets hold a token; each that holds one loses it in any case.
unfoldable pub allow_failure :
    AuthLimits → Addr → ℕ → AuthFailureLimiter → AuthFailureLimiter × Bool
unfolding refill_bucket find put make_room unmap
allow_failure limits ip now l =
    let key = client_key ip in
    let global = refill_bucket now limits.global_rate limits.global_burst l.global in
    let (m, e) = entry_for limits.max_entries now l.per_ip (find key l.per_ip) in
    let entry = record (refill_bucket now limits.per_ip_rate limits.per_ip_burst e) {
      last_seen = now;
    } in
    (
      record { per_ip = put key (spend entry) m; global = spend global },
      leb token global.tokens && leb token entry.tokens,
    )

unfoldable pub reset : Addr → AuthFailureLimiter → AuthFailureLimiter
unfolding erase unmap
reset ip l = if is_valid ip then record l { per_ip = erase (unmap ip) l.per_ip } else l
