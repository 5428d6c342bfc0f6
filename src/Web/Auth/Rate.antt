-- ===== src/Web/Auth/Rate.antt =====
-- The limiter of internal/web/security.go over a stretch of time, for all addresses together.
use go_nftables_portbridge.Prelude.{
  ℕ, ◌+◌, ◌-◌, ◌*◌, ◌≤◌, ◌≡◌, refl, Bool, true, false, ◌&&◌, List, [], ◌∷◌, Option, none, some, ltb,
  leb, arith, All, if◌then◌else◌, Bool-cases, inl, inr, subst, sym, ap, ◌∙◌,
}
use go_nftables_portbridge.Netip.{Addr, unmap, is_valid}
use go_nftables_portbridge.Budget.Shards.{erase}
use go_nftables_portbridge.Budget.Packets.Rate.{add_gaps, widen}
use go_nftables_portbridge.Web.Auth.{
  token, TokenBucket, AuthLimits, AuthFailureLimiter, refill_bucket, spend, allow_failure, reset,
  capped_at, refill_since, new_auth_failure_limiter,
}

-- Failed logins, each from an address at a time: the limiter that is left, and how many were allowed.
unfoldable pub failures : AuthLimits → List (Addr × ℕ) → AuthFailureLimiter → AuthFailureLimiter × ℕ
failures limits [] l = (l, 0)
failures limits ((ip, now) ∷ rest) l =
    let (l', granted) = allow_failure limits ip now l in
    let (end, k) = failures limits rest l' in (end, if granted then k + 1 else k)

-- The global bucket was last filled at a time up to `until`; its tokens and what was spent are
-- covered by what was there at `first` and came in since.
pub record Covered (limits : AuthLimits) (first until : ℕ) (b : TokenBucket) (spent start : ℕ)
    : Type 0 where
  pub at : ℕ
  pub filled : b.last ≡ some at
  pub begun : first ≤ at
  pub ended : at ≤ until
  pub balance : b.tokens + spent ≤ start + (at - first) * limits.global_rate

capped-le : (burst t : ℕ) → capped_at burst t ≤ t
capped-le burst t = ground arith

refill_since-Covered :
    (limits : AuthLimits) (first until now spent start : ℕ) (b : TokenBucket)
    (c : Covered limits first until b spent start)
    → now ≤ until
    → Covered limits first until
        (refill_since now limits.global_rate limits.global_burst b (some c.at))
        spent
        start
refill_since-Covered limits first until now spent start b c h = elim (Bool-cases (ltb c.at now)) [
  | inr early ↦ rw early c
  | inl late ↦
      let later : c.at ≤ now = ground arith in
      let gaps = add_gaps first c.at now limits.global_rate c.begun later in
      let capped = capped-le limits.global_burst (b.tokens + (now - c.at) * limits.global_rate) in
      rw late (record {
        at = now;
        filled = refl;
        begun = omega (arith, c.begun, later);
        ended = h;
        balance = omega (arith, c.balance, gaps, capped);
      })
]

refill-Covered :
    (limits : AuthLimits) (first until now spent start : ℕ) (b : TokenBucket)
    → now ≤ until
    → Covered limits first until b spent start
    → Covered limits first until
        (refill_bucket now limits.global_rate limits.global_burst b)
        spent
        start
unfolding refill_bucket
refill-Covered limits first until now spent start b h c =
    subst (λ (x : TokenBucket). Covered limits first until x spent start)
      (sym (ap (refill_since now limits.global_rate limits.global_burst b) c.filled))
      (refill_since-Covered limits first until now spent start b c h)

-- An allowed failure spends a token, any other at most one.
spend-Covered :
    (limits : AuthLimits) (first until spent start : ℕ) (b : TokenBucket) (entry : Bool)
    → Covered limits first until b spent start
    → Covered limits first until
        (spend b)
        (if leb token b.tokens && entry then spent + token else spent)
        start
spend-Covered limits first until spent start b entry c = elim (Bool-cases (leb token b.tokens)) [
  | inl full ↦ rw full (paid entry full)
  | inr short ↦ rw short c
]
  where
    paid :
        (entry : Bool)
        → leb token b.tokens ≡ true
        → Covered limits first until
            (record b { tokens = b.tokens - token })
            (if entry then spent + token else spent)
            start
    paid true full = record {
      at = c.at;
      filled = c.filled;
      begun = c.begun;
      ended = c.ended;
      balance = ground (arith, c.balance);
    }
    paid false full = record {
      at = c.at;
      filled = c.filled;
      begun = c.begun;
      ended = c.ended;
      balance = omega (arith, c.balance);
    }

failure-Covered :
    (limits : AuthLimits) (first until spent start : ℕ) (ip : Addr) (now : ℕ)
    (l : AuthFailureLimiter)
    → now ≤ until
    → Covered limits first until l.global spent start
    → let (l', granted) = allow_failure limits ip now l in
      Covered limits first until l'.global (if granted then spent + token else spent) start
unfolding allow_failure
failure-Covered limits first until spent start ip now l h c =
    spend-Covered limits first until spent start
      (refill_bucket now limits.global_rate limits.global_burst l.global) _
      (refill-Covered limits first until now spent start l.global h c)

-- No failure is later than a time.
abbrev pub AllUntil : ℕ → List (Addr × ℕ) → Type 0
AllUntil until attempts = All (λ x. x.1 ≤ until) attempts

-- One failure and those behind it, where those behind it are covered from what it leaves.
step-Covered :
    (limits : AuthLimits) (first until spent start : ℕ) (rest : List (Addr × ℕ))
    (o : AuthFailureLimiter × Bool)
    → Covered limits first until o.0.global (if o.1 then spent + token else spent) start
    → ((n : ℕ) (l : AuthFailureLimiter)
        → Covered limits first until l.global n start
        → let (end, k) = failures limits rest l in
          Covered limits first until end.global (n + k * token) start)
    → let (end, k) = failures limits rest o.0 in
      Covered limits first until end.global (spent + (if o.1 then k + 1 else k) * token) start
step-Covered limits first until spent start rest (l, true) c more =
    subst (λ (n : ℕ). Covered limits first until (failures limits rest l).0.global n start)
      (omega arith) (more (spent + token) l c)
step-Covered limits first until spent start rest (l, false) c more = more spent l c

failures-Covered :
    (limits : AuthLimits) (first until spent start : ℕ) (attempts : List (Addr × ℕ))
    (l : AuthFailureLimiter)
    → AllUntil until attempts
    → Covered limits first until l.global spent start
    → let (end, k) = failures limits attempts l in
      Covered limits first until end.global (spent + k * token) start
unfolding failures
failures-Covered limits first until spent start [] l h c =
    subst (λ (n : ℕ). Covered limits first until l.global n start) (omega arith) c
failures-Covered limits first until spent start ((ip, now) ∷ rest) l (by, h) c =
    step-Covered limits first until spent start rest (allow_failure limits ip now l)
      (failure-Covered limits first until spent start ip now l by c)
      (λ n l'. failures-Covered limits first until n start rest l' h)

drop_zero : (x y : ℕ) → 0 + x ≤ y → x ≤ y
drop_zero x y h = omega arith

-- What happens at a limiter: a failed login at a time, or a login that succeeds, which resets the
-- address.
pub data AuthEvent : Type 0 where
  failed_at : Addr → ℕ → AuthEvent
  logged_in : Addr → AuthEvent

unfoldable pub history : AuthLimits → List AuthEvent → AuthFailureLimiter → AuthFailureLimiter
history limits [] l = l
history limits (failed_at ip now ∷ events) l =
    history limits events (allow_failure limits ip now l).0
history limits (logged_in ip ∷ events) l = history limits events (reset ip l)

abbrev pub EventBy : ℕ → AuthEvent → Type 0
EventBy first (failed_at ip now) = now ≤ first
EventBy first (logged_in ip) = Unit {0}

abbrev pub LastBy : ℕ → Option ℕ → Type 0
LastBy first none = Unit {0}
LastBy first (some t) = t ≤ first

-- The global bucket holds at most its burst, and was not filled later than `first`.
abbrev pub IsWithin : AuthLimits → ℕ → TokenBucket → Type 0
IsWithin limits first b = (b.tokens ≤ limits.global_burst) × LastBy first b.last

capped-le_burst : (burst t : ℕ) → capped_at burst t ≤ burst
capped-le_burst burst t = ground arith

refill_since-IsWithin :
    (limits : AuthLimits) (first now : ℕ) (b : TokenBucket)
    → now ≤ first
    → IsWithin limits first b
    → IsWithin limits first (refill_since now limits.global_rate limits.global_burst b b.last)
refill_since-IsWithin limits first now b h within = filled b.last refl
  where
    filled :
        (o : Option ℕ)
        → b.last ≡ o
        → IsWithin limits first (refill_since now limits.global_rate limits.global_burst b o)
    filled none e = (omega arith, h)
    filled (some t) e = elim (Bool-cases (ltb t now)) [
      | inl late ↦ rw late (capped-le_burst _ _, h)
      | inr early ↦ rw early within
    ]

spend-IsWithin :
    (limits : AuthLimits) (first : ℕ) (b : TokenBucket)
    → IsWithin limits first b
    → IsWithin limits first (spend b)
spend-IsWithin limits first b (h, last) = elim (Bool-cases (leb token b.tokens)) [
  | inl full ↦ rw full (omega arith, last)
  | inr short ↦ rw short (h, last)
]

-- Whatever happens at a limiter, its global bucket stays within its burst.
history-IsWithin :
    (limits : AuthLimits) (first : ℕ) (events : List AuthEvent) (l : AuthFailureLimiter)
    → All (EventBy first) events
    → IsWithin limits first l.global
    → IsWithin limits first (history limits events l).global
unfolding history allow_failure refill_bucket reset
history-IsWithin limits first [] l h within = within
history-IsWithin limits first (failed_at ip now ∷ events) l (by, h) within =
    history-IsWithin limits first events (allow_failure limits ip now l).0 h
      (spend-IsWithin limits first _ (refill_since-IsWithin limits first now l.global by within))
history-IsWithin limits first (logged_in ip ∷ events) l (by, h) within =
    history-IsWithin limits first events (reset ip l) h (unmoved (is_valid ip))
  where
    unmoved :
        (b : Bool)
        → IsWithin limits first
            (if b then record l { per_ip = erase (unmap ip) l.per_ip } else l).global
    unmoved true = within
    unmoved false = within

-- The first failure of a stretch fills the bucket to its burst at most.
refill_since-Opened :
    (limits : AuthLimits) (first until : ℕ) (b : TokenBucket)
    → first ≤ until
    → IsWithin limits first b
    → Covered limits first until
        (refill_since first limits.global_rate limits.global_burst b b.last)
        0
        limits.global_burst
refill_since-Opened limits first until b h (full, by) = opened b.last refl by
  where
    at_first :
        (c : TokenBucket)
        → c.last ≡ some first
        → c.tokens ≤ limits.global_burst
        → Covered limits first until c 0 limits.global_burst
    at_first c e fits = record {
      at = first;
      filled = e;
      begun = omega arith;
      ended = h;
      balance = omega arith;
    }

    opened :
        (o : Option ℕ)
        → b.last ≡ o
        → LastBy first o
        → Covered limits first until
            (refill_since first limits.global_rate limits.global_burst b o)
            0
            limits.global_burst
    opened none e by = at_first _ refl (omega arith)
    opened (some t) e by = elim (Bool-cases (ltb t first)) [
      | inl late ↦ rw late (at_first _ refl (capped-le_burst _ _))
      | inr early ↦
          let same : t ≡ first = ground arith in rw early (at_first b (e ∙ ap some same) full)
    ]

-- In any stretch of time, whatever happened at a limiter before: of the failed logins from one at
-- `first` until a time, from whatever addresses and in whatever order, at most the global burst and the
-- global rate over the stretch are allowed.
pub failures_bound :
    (limits : AuthLimits) (first until : ℕ) (before : List AuthEvent) (ip : Addr)
    (attempts : List (Addr × ℕ))
    → All (EventBy first) before
    → first ≤ until
    → AllUntil until attempts
    → let l = history limits before new_auth_failure_limiter in
      (failures limits ((ip, first) ∷ attempts) l).1 * token
      ≤ limits.global_burst + (until - first) * limits.global_rate
unfolding failures allow_failure refill_bucket
failures_bound limits first until before ip attempts earlier h all =
    let l = history limits before new_auth_failure_limiter in
    let within =
      history-IsWithin limits first before new_auth_failure_limiter earlier (omega arith, tt) in
    let opened = refill_since-Opened limits first until l.global h within in
    let spent = spend-Covered limits first until 0 limits.global_burst _ _ opened in
    let covered =
      step-Covered limits first until 0 limits.global_burst attempts
        (allow_failure limits ip first l) spent
        (λ n l'. failures-Covered limits first until n limits.global_burst attempts l' all) in
    drop_zero _ _ (
      widen _ _ limits.global_burst covered.at first until limits.global_rate covered.ended
        covered.balance)
