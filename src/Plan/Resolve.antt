-- ===== src/Plan/Resolve.antt =====
-- `resolveHost` of internal/proxy/plan.go. `lookup` is the resolver's answer to a name, `none` an
-- error; a time is a number of nanoseconds. A rule's cache validity is not negative.
pub mod Policy
use go_nftables_portbridge.Prelude.{
  ℕ, ◌-◌, ◌*◌, Bool, true, false, ◌&&◌, ◌||◌, not, List, [], ◌∷◌, Option, none, some, ltb, leb,
  ◌==◌, ◌⊎◌, inl, inr, if◌then◌else◌,
}
use go_nftables_portbridge.Prelude.Int.{pos_part}
use go_nftables_portbridge.Text.{Text, text_eq, text_ltb}
use go_nftables_portbridge.Text.Maps.{find_text, put_text}
use go_nftables_portbridge.Netip.{Addr, zero_addr, v4, v6, unmap, is_valid, bit_length, zone}
use go_nftables_portbridge.Netip.Forms.{Forms}
use go_nftables_portbridge.Config.{Rule}
use go_nftables_portbridge.Config.Errors.{Error, Result, ok, err}
use go_nftables_portbridge.Config.Targets.{validate_target_address}

-- `fetchedAt` is `none` where it is the zero time.
pub record ResolvedTarget : Type 0 where
  pub host : Text
  pub addrs : List Addr
  pub fetched_at : Option ℕ

pub data ResolveError : Type 0 where
  denied cached_denied : Error → ResolveError
  lookup_failed no_usable_address : ResolveError

abbrev pub Cache : Type 0
Cache = List (Text × ResolvedTarget)

-- `Addr.Less` on addresses of one length.
abbrev value_less : Addr → Addr → Bool
value_less (v4 a) (v4 b) = ltb a b
value_less (v6 a z) (v6 b w) = ltb a b || a == b && text_ltb z w
value_less _ _ = false

-- The order of the resolved addresses: IPv4 first.
abbrev address_less : Addr → Addr → Bool
address_less a b =
    ltb (bit_length a) (bit_length b) || bit_length a == bit_length b && value_less a b

abbrev pub insert_address : Addr → List Addr → List Addr
insert_address a [] = a ∷ []
insert_address a (b ∷ bs) = if address_less b a then b ∷ insert_address a bs else a ∷ b ∷ bs

abbrev pub sort_addresses : List (Text × Addr) → List Addr
sort_addresses [] = []
sort_addresses ((k, a) ∷ m) = insert_address a (sort_addresses m)

abbrev no_addresses : List Addr → Bool
no_addresses [] = true
no_addresses (a ∷ rest) = false

abbrev young_enough : ℕ → ℕ → Option ℕ → Bool
young_enough now validity none = false
young_enough now validity (some t) = leb (now - t) validity

module _ (forms : Forms) where
  open forms use {parse_addr, format_addr}

  -- The loop over the addresses of a fresh answer, with the map so far. `String` names an address.
  unfoldable pub collect_addresses :
      Rule → List Addr → List (Text × Addr) → Result (List (Text × Addr))
  collect_addresses rule [] m = ok m
  collect_addresses rule (x ∷ xs) m = elim (is_valid (unmap x)) [
    | false ↦ collect_addresses rule xs m
    | true ↦ elim (validate_target_address forms rule (unmap x)) [
      | err e ↦ err e
      | ok _ ↦ collect_addresses rule xs (put_text (format_addr (unmap x)) (unmap x) m)
    ]
  ]

  -- The loop over the addresses of a cached answer.
  unfoldable pub check_cached : Rule → List Addr → Result (Unit {0})
  check_cached rule [] = ok tt
  check_cached rule (a ∷ rest) = elim (validate_target_address forms rule a) [
    | err e ↦ err e
    | ok _ ↦ check_cached rule rest
  ]

  abbrev pub keep_cached : List Addr → Result (Unit {0}) → ResolveError ⊎ List Addr
  keep_cached rest (err e) = inl (cached_denied e)
  keep_cached rest (ok _) = inr rest

  -- The lookup failed or was empty.
  abbrev pub from_cache : Bool → ℕ → Rule → Text → Option ResolvedTarget → ResolveError ⊎ List Addr
  from_cache allow_cached now rule host none = inl lookup_failed
  from_cache allow_cached now rule host (some c) =
      if allow_cached
        && text_eq c.host host
        && not (no_addresses c.addrs)
        && young_enough now (pos_part rule.dns_cache_ttl_seconds * 1_000_000_000) c.fetched_at
      then keep_cached c.addrs (check_cached rule c.addrs)
      else inl lookup_failed

  -- The lookup gave addresses: they go into the cache, unless none is usable.
  abbrev pub store_fresh : ℕ → Text → Text → Cache → List Addr → Cache × (ResolveError ⊎ List Addr)
  store_fresh now host key cache [] = (cache, inl no_usable_address)
  store_fresh now host key cache (a ∷ rest) = (
    put_text key (record { host = host; addrs = a ∷ rest; fetched_at = some now }) cache,
    inr (a ∷ rest),
  )

  abbrev pub from_lookup :
      ℕ → Text → Text → Cache → Result (List (Text × Addr)) → Cache × (ResolveError ⊎ List Addr)
  from_lookup now host key cache (err e) = (cache, inl (denied e))
  from_lookup now host key cache (ok m) = store_fresh now host key cache (sort_addresses m)

  abbrev pub resolve_name :
      Bool
      → ℕ
      → Rule
      → Text
      → Text
      → Cache
      → Option (List Addr)
      → Cache × (ResolveError ⊎ List Addr)
  resolve_name allow_cached now rule host key cache none =
      (cache, from_cache allow_cached now rule host (find_text key cache))
  resolve_name allow_cached now rule host key cache (some []) =
      (cache, from_cache allow_cached now rule host (find_text key cache))
  resolve_name allow_cached now rule host key cache (some (x ∷ xs)) =
      from_lookup now host key cache (collect_addresses rule (x ∷ xs) [])

  abbrev pub resolve_literal : Addr → Result (Unit {0}) → ResolveError ⊎ List Addr
  resolve_literal a (err e) = inl (denied e)
  resolve_literal a (ok _) = inr (a ∷ [])

  unfoldable pub resolve_host :
      (Text → Option (List Addr))
      → Bool
      → ℕ
      → Rule
      → Text
      → Text
      → Cache
      → Cache × (ResolveError ⊎ List Addr)
  unfolding check_cached collect_addresses validate_target_address
  resolve_host lookup allow_cached now rule host key cache = elim (parse_addr host) [
    | some address ↦ (
      cache,
      resolve_literal (unmap address) (validate_target_address forms rule (unmap address)),
    )
    | none ↦ resolve_name allow_cached now rule host key cache (lookup host)
  ]
