-- ===== src/Plan/Resolve/Policy.antt =====
-- `resolveHost` of internal/proxy/plan.go against the target policy.
use go_nftables_portbridge.Prelude.{
  ℕ, ◌≤◌, ◌≡◌, refl, ◌⊎◌, inl, inr, Bool, true, false, ◌&&◌, not, List, [], ◌∷◌, Option, none, some,
  arith, All, length, if◌then◌else◌, Bool-cases, Option-cases, subst,
}
use go_nftables_portbridge.Text.{Text, text_eq}
use go_nftables_portbridge.Text.Maps.{find_text, put_text}
use go_nftables_portbridge.Netip.{Addr, unmap, is_valid}
use go_nftables_portbridge.Netip.Forms.{Forms}
use go_nftables_portbridge.Config.{Rule}
use go_nftables_portbridge.Config.Errors.{Result, ok, err}
use go_nftables_portbridge.Config.Targets.{validate_target_address}
use go_nftables_portbridge.Plan.Resolve.{
  ResolvedTarget, ResolveError, lookup_failed, Cache, insert_address, sort_addresses,
  collect_addresses, check_cached, keep_cached, from_cache, store_fresh, from_lookup, resolve_name,
  resolve_literal, resolve_host, no_addresses, address_less,
}

module _ (forms : Forms) (rule : Rule) where
  abbrev pub Passes : Addr → Type 0
  Passes a = validate_target_address forms rule a ≡ ok tt

  -- Addresses that passed, and one at least; or an error.
  abbrev pub Safe : ResolveError ⊎ List Addr → Type 0
  Safe (inl e) = Unit
  Safe (inr rest) = All Passes rest × (1 ≤ length rest)

  insert_address-All :
      (a : Addr) (rest : List Addr)
      → Passes a
      → All Passes rest
      → All Passes (insert_address a rest)
  insert_address-All a [] p h = (p, tt)
  insert_address-All a (b ∷ bs) p (q, h) = elim (Bool-cases (address_less b a)) [
    | inl less ↦ rw less (q, insert_address-All a bs p h)
    | inr other ↦ rw other (p, (q, h))
  ]

  sort_addresses-All :
      (m : List (Text × Addr)) → All (λ e. Passes e.1) m → All Passes (sort_addresses m)
  sort_addresses-All [] h = tt
  sort_addresses-All ((k, a) ∷ m) (p, h) =
      insert_address-All a (sort_addresses m) p (sort_addresses-All m h)

  put_text-All :
      (k : Text) (a : Addr) (m : List (Text × Addr))
      → Passes a
      → All (λ e. Passes e.1) m
      → All (λ e. Passes e.1) (put_text k a m)
  put_text-All k a [] p h = (p, tt)
  put_text-All k a ((j, b) ∷ m) p (q, h) = elim (Bool-cases (text_eq j k)) [
    | inl same ↦ rw same (p, h)
    | inr other ↦ rw other (q, put_text-All k a m p h)
  ]

  check_cached-All : (rest : List Addr) → check_cached forms rule rest ≡ ok tt → All Passes rest
  unfolding check_cached
  check_cached-All [] h = tt
  check_cached-All (a ∷ rest) h =
      go (validate_target_address forms rule a) refl (check_cached-All rest)
    where
      go :
          (r : Result (Unit {0}))
          → validate_target_address forms rule a ≡ r
          → (check_cached forms rule rest ≡ ok tt → All Passes rest)
          → Passes a × All Passes rest
      go (ok u) e ih = (e, ih (rw (e, check_cached) at h))
      go (err x) e ih = let stopped : err x ≡ ok tt = (rw (e, check_cached) at h) in cc stopped

  collect_addresses-All :
      (xs : List Addr) (m out : List (Text × Addr))
      → collect_addresses forms rule xs m ≡ ok out
      → All (λ e. Passes e.1) m
      → All (λ e. Passes e.1) out
  unfolding collect_addresses
  collect_addresses-All [] m out h k = subst (All (λ e. Passes e.1)) (cc h) k
  collect_addresses-All (x ∷ xs) m out h k =
      go (is_valid (unmap x)) refl (validate_target_address forms rule (unmap x)) refl
        (collect_addresses-All xs m out)
        (λ p e.
          collect_addresses-All xs (put_text (forms.format_addr (unmap x)) (unmap x) m) out e
            (put_text-All (forms.format_addr (unmap x)) (unmap x) m p k))
    where
      go :
          (v : Bool)
          → is_valid (unmap x) ≡ v
          → (r : Result (Unit {0})) → validate_target_address forms rule (unmap x) ≡ r
          → (collect_addresses forms rule xs m ≡ ok out
              → All (λ e. Passes e.1) m
              → All (λ e. Passes e.1) out)
          → (Passes (unmap x)
              → collect_addresses forms rule xs (put_text (forms.format_addr (unmap x)) (unmap x) m)
                ≡ ok out
              → All (λ e. Passes e.1) out)
          → All (λ e. Passes e.1) out
      go false v r e skip take = skip (rw (v, collect_addresses) at h) k
      go true v (ok u) e skip take = take e (rw (v, e, collect_addresses) at h)
      go true v (err y) e skip take =
          let stopped : err y ≡ ok out = (rw (v, e, collect_addresses) at h) in cc stopped

  keep_cached-Safe :
      (a : Addr) (rest : List Addr) (r : Result (Unit {0}))
      → check_cached forms rule (a ∷ rest) ≡ r
      → Safe (keep_cached forms (a ∷ rest) r)
  keep_cached-Safe a rest (ok u) e = (check_cached-All (a ∷ rest) e, omega arith)
  keep_cached-Safe a rest (err x) e = tt

  from_cache-Safe :
      (allow_cached : Bool) (now : ℕ) (host : Text) (o : Option ResolvedTarget)
      → Safe (from_cache forms allow_cached now rule host o)
  from_cache-Safe allow_cached now host none = tt
  from_cache-Safe allow_cached now host (some c) = go c.addrs allow_cached (text_eq c.host host) _
    where
      go :
          (addrs : List Addr) (a b d : Bool)
          → Safe (
              if a && b && not (no_addresses addrs) && d
              then keep_cached forms addrs (check_cached forms rule addrs)
              else inl lookup_failed)
      go addrs false b d = tt
      go addrs true false d = tt
      go [] true true d = tt
      go (x ∷ xs) true true false = tt
      go (x ∷ xs) true true true = keep_cached-Safe x xs (check_cached forms rule (x ∷ xs)) refl

  from_lookup-Safe :
      (now : ℕ) (host key : Text) (cache : Cache) (xs : List Addr) (r : Result (List (Text × Addr)))
      → collect_addresses forms rule xs [] ≡ r
      → Safe (from_lookup forms now host key cache r).1
  from_lookup-Safe now host key cache xs (err x) e = tt
  from_lookup-Safe now host key cache xs (ok m) e =
      go (sort_addresses m) (sort_addresses-All m (collect_addresses-All xs [] m e tt))
    where
      go : (out : List Addr) → All Passes out → Safe (store_fresh forms now host key cache out).1
      go [] h = tt
      go (a ∷ rest) h = (h, omega arith)

  resolve_name-Safe :
      (allow_cached : Bool) (now : ℕ) (host key : Text) (cache : Cache)
      (answer : Option (List Addr))
      → Safe (resolve_name forms allow_cached now rule host key cache answer).1
  resolve_name-Safe allow_cached now host key cache none =
      from_cache-Safe allow_cached now host (find_text key cache)
  resolve_name-Safe allow_cached now host key cache (some []) =
      from_cache-Safe allow_cached now host (find_text key cache)
  resolve_name-Safe allow_cached now host key cache (some (x ∷ xs)) =
      from_lookup-Safe now host key cache (x ∷ xs) (collect_addresses forms rule (x ∷ xs) []) refl

  resolve_literal-Safe :
      (a : Addr) (r : Result (Unit {0}))
      → validate_target_address forms rule a ≡ r
      → Safe (resolve_literal forms a r)
  resolve_literal-Safe a (err x) e = tt
  resolve_literal-Safe a (ok u) e = ((e, tt), omega arith)

  -- Whatever the resolver answers and whatever the cache holds, a host is resolved to an error, or
  -- to one address at least, each of which has passed `ValidateTargetAddress` for the rule: a literal,
  -- a fresh answer, and a cached one alike.
  pub resolve_host-Safe :
      (lookup : Text → Option (List Addr)) (allow_cached : Bool) (now : ℕ) (host key : Text)
      (cache : Cache)
      → Safe (resolve_host forms lookup allow_cached now rule host key cache).1
  unfolding resolve_host
  resolve_host-Safe lookup allow_cached now host key cache =
      elim (Option-cases (forms.parse_addr host)) [
        | inl name ↦
            rw (name, resolve_host)
              (resolve_name-Safe allow_cached now host key cache (lookup host))
        | inr (a, literal) ↦
            rw (literal, resolve_host)
              (resolve_literal-Safe (unmap a) (validate_target_address forms rule (unmap a)) refl)
      ]
