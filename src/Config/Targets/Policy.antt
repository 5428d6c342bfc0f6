-- ===== src/Config/Targets/Policy.antt =====
-- `ValidateTargetAddress` of internal/config/config.go: the addresses that pass.
use go_nftables_portbridge.Prelude.{
  ◌≤◌, ◌≡◌, ◌≢◌, refl, sym, ◌∙◌, ap, ◌⊎◌, inl, inr, Bool, true, false, not, List, [], ◌∷◌, Option,
  none, some, All, Bool-cases, arith,
}
use go_nftables_portbridge.Text.{Text, trim_space}
use go_nftables_portbridge.Text.Members.{Any}
use go_nftables_portbridge.Netip.{
  v4, Addr, Prefix, masked, contains, unmap, is_loopback, is_private, is_link_local_unicast,
  is_unspecified, is_multicast, loopback_of, private_of, link_local_unicast_of, multicast_of,
}
use go_nftables_portbridge.Netip.Facts.{unmap_idem}
use go_nftables_portbridge.Netip.Forms.{Forms, Documented}
use go_nftables_portbridge.Config.{Rule}
use go_nftables_portbridge.Config.Errors.{
  Result, ok, err, ◌>>◌, reject_if, >>=-eq-ok, reject_if-eq-ok, panicked, not_unicast,
  private_denied,
}
use go_nftables_portbridge.Config.Prefixes.{normalize_target_cidrs}
use go_nftables_portbridge.Config.Prefixes.Allowlist.{
  KeyOf, From, normalize_target_cidrs-Any, normalize_target_cidrs-All,
  normalize_target_cidrs-ne-panicked,
}
use go_nftables_portbridge.Config.Targets.{
  any_contains, is_restricted, not_a_target, check_restricted, find_allowed,
  validate_target_address,
}

-- 100.64.0.0/10
abbrev pub shared_space : Prefix
shared_space = record { addr = v4 0x64400000; bits = 10 }

unrestricted :
    (a : Addr)
    → is_restricted a ≡ false
    → (is_loopback a ≡ false)
      × (is_link_local_unicast a ≡ false)
      × (is_private a ≡ false)
      × (contains shared_space a ≡ false)
unfolding is_restricted any_contains
unrestricted a h = ground arith

unicast_target :
    (a : Addr) → not_a_target a ≡ false → (is_unspecified a ≡ false) × (is_multicast a ≡ false)
unfolding not_a_target
unicast_target a h = ground arith

-- The predicates of `netip` see through the IPv6 mapping themselves.
unmapped :
    (a : Addr)
    → (is_loopback (unmap a) ≡ is_loopback a)
      × (is_private (unmap a) ≡ is_private a)
      × (is_link_local_unicast (unmap a) ≡ is_link_local_unicast a)
      × (is_multicast (unmap a) ≡ is_multicast a)
unfolding is_loopback is_private is_link_local_unicast is_multicast
unmapped a =
    let e = unmap_idem a in
    (ap loopback_of e, ap private_of e, ap link_local_unicast_of e, ap multicast_of e)

module _ (forms : Forms) where
  open forms use {parse_prefix, format_prefix}

  -- Some text of a list is the form of a prefix that contains the address.
  abbrev Holds : Addr → Text → Type 0
  Holds a raw = (p : Prefix) × (parse_prefix raw ≡ some p) × (contains p a ≡ true)

  find_allowed-Any :
      (a : Addr) (allowlist : List Text)
      → find_allowed forms allowlist a ≡ ok tt
      → Any (Holds a) allowlist
  unfolding find_allowed
  find_allowed-Any a [] h = cc
  find_allowed-Any a (raw ∷ allowlist) h = go (parse_prefix raw) refl (find_allowed-Any a allowlist)
    where
      go :
          (o : Option Prefix)
          → parse_prefix raw ≡ o
          → (find_allowed forms allowlist a ≡ ok tt → Any (Holds a) allowlist)
          → Any (Holds a) (raw ∷ allowlist)
      go none e ih = let stopped : err panicked ≡ ok tt = (rw (e, find_allowed) at h) in cc stopped
      go (some p) e ih = elim (Bool-cases (contains p a)) [
        | inl hit ↦ inl (p, e, hit)
        | inr miss ↦ inr (ih (rw (e, miss, find_allowed) at h))
      ]

  find_allowed-ne-panicked :
      (a : Addr) (allowlist : List Text)
      → All (λ raw. (p : Prefix) × (parse_prefix raw ≡ some p)) allowlist
      → find_allowed forms allowlist a ≢ err panicked
  unfolding find_allowed
  find_allowed-ne-panicked a [] h e = cc
  find_allowed-ne-panicked a (raw ∷ allowlist) ((p, e), rest) h = elim (Bool-cases (contains p a)) [
    | inl hit ↦ let passed : ok tt ≡ err panicked = (rw (e, hit, find_allowed) at h) in cc passed
    | inr miss ↦ find_allowed-ne-panicked a allowlist rest (rw (e, miss, find_allowed) at h)
  ]

  -- The two ways to pass the test for a restricted address.
  abbrev Cleared : Rule → Addr → Bool → Type 0
  Cleared r a restricted =
      (restricted ≡ false)
      ⊎ ((r.allow_private_target ≡ true)
          × ((allowlist : List Text) × (normalize_target_cidrs forms r.target_cidr_allowlist
                ≡ ok allowlist)
              × (find_allowed forms allowlist a ≡ ok tt)))

  check_restricted-Cleared :
      (r : Rule) (a : Addr) (restricted : Bool)
      → check_restricted forms r a restricted ≡ ok tt
      → Cleared r a restricted
  unfolding check_restricted
  check_restricted-Cleared r a false h = inl refl
  check_restricted-Cleared r a true h =
      let (_, allowed, rest) =
        >>=-eq-ok (reject_if (not r.allow_private_target) private_denied) _ h in
      inr (
        ground (arith, reject_if-eq-ok _ _ allowed),
        >>=-eq-ok (normalize_target_cidrs forms r.target_cidr_allowlist) _ rest,
      )

  validate-Cleared :
      (r : Rule) (address : Addr)
      → validate_target_address forms r address ≡ ok tt
      → (not_a_target (unmap address) ≡ false)
        × Cleared r (unmap address) (is_restricted (unmap address))
  unfolding validate_target_address
  validate-Cleared r address h =
      let (_, unicast, rest) =
        >>=-eq-ok (reject_if (not_a_target (unmap address)) not_unicast) _ h in
      (reject_if-eq-ok _ _ unicast, check_restricted-Cleared r (unmap address) _ rest)

  -- An entry of an allowlist whose masked prefix contains an address.
  abbrev pub Admits : Addr → Text → Type 0
  Admits a raw =
      (p : Prefix) × (parse_prefix (trim_space raw) ≡ some p)
      × (1 ≤ p.bits)
      × (contains (masked p) a ≡ true)

  Any-map :
      {P Q : Text → Type 0}
      → ((s : Text) → P s → Q s)
      → (items : List Text) → Any P items
      → Any Q items
  Any-map f [] h = elim h [ ]
  Any-map f (s ∷ items) (inl p) = inl (f s p)
  Any-map f (s ∷ items) (inr h) = inr (Any-map f items h)

  -- Without the permission for private targets no address passes that is local, private,
  -- link-local or shared (100.64.0.0/10), in its plain form or mapped into IPv6.
  pub private_denied_by_default :
      (r : Rule) (address : Addr)
      → r.allow_private_target ≡ false
      → validate_target_address forms r address ≡ ok tt
      → (is_loopback address ≡ false)
        × (is_private address ≡ false)
        × (is_link_local_unicast address ≡ false)
        × (contains shared_space (unmap address) ≡ false)
        × (is_unspecified (unmap address) ≡ false)
        × (is_multicast address ≡ false)
  private_denied_by_default r address off h =
      let (unicast, cleared) = validate-Cleared r address h in
      elim cleared [
        | inr (allowed, _) ↦ let clash : true ≡ false = sym allowed ∙ off in cc clash
        | inl free ↦
            let (loopback, link_local, private, shared) = unrestricted (unmap address) free in
            let (unspecified, multicast) = unicast_target (unmap address) unicast in
            let (e, f, g, k) = unmapped address in
            (
              sym e ∙ loopback,
              sym f ∙ private,
              sym g ∙ link_local,
              shared,
              unspecified,
              sym k ∙ multicast,
            )
      ]

  not_panicked :
      (a : Addr) (m : Result (Unit {0}))
      → m ≢ err panicked
      → (reject_if (not_a_target a) not_unicast >> m) ≢ err panicked
  not_panicked a m fine h = ground arith

  module _ (laws : Documented forms) where
    same_prefix :
        (p q : Prefix) (key s : Text)
        → parse_prefix s ≡ some p
        → key ≡ format_prefix (masked p)
        → parse_prefix key ≡ some q
        → masked p ≡ q
    same_prefix p q key s e same f = cc (laws.parse-format p (laws.parse_fits s p e))

    From-Admits : (a : Addr) (raw : Text) → From forms (Holds a) raw → Admits a raw
    From-Admits a raw (key, (p, e, same, _, narrow), (q, f, hit)) =
        (p, e, narrow, rw (same_prefix p q key (trim_space raw) e same f) hit)

    key_parses : (s key : Text) → KeyOf forms s key → (p : Prefix) × (parse_prefix key ≡ some p)
    key_parses s key (p, e, same, _, _) =
        (masked p, rw same (laws.parse-format p (laws.parse_fits s p e)))

    -- Where the text forms behave as documented: an address that passes is a unicast address, taken out of its IPv6 mapping, and either no
    -- restricted one, or the rule permits private targets and an entry of its allowlist, wider than
    -- no prefix at all, has a masked prefix that contains the address.
    pub validate_target_address_sound :
        (r : Rule) (address : Addr)
        → validate_target_address forms r address ≡ ok tt
        → (not_a_target (unmap address) ≡ false)
          × ((is_restricted (unmap address) ≡ false)
              ⊎ ((r.allow_private_target ≡ true)
                  × Any (Admits (unmap address)) r.target_cidr_allowlist))
    validate_target_address_sound r address h =
        let (unicast, cleared) = validate-Cleared r address h in
        (
          unicast,
          elim cleared [
            | inl open_address ↦ inl open_address
            | inr (allowed, (allowlist, normal, hit)) ↦ inr (
              allowed,
              Any-map (From-Admits (unmap address)) r.target_cidr_allowlist (
                  normalize_target_cidrs-Any forms (Holds (unmap address)) r.target_cidr_allowlist
                    allowlist normal (find_allowed-Any (unmap address) allowlist hit)),
            )
          ],
        )

    check_restricted-ne-panicked :
        (r : Rule) (a : Addr) (restricted : Bool)
        → check_restricted forms r a restricted ≢ err panicked
    unfolding check_restricted
    check_restricted-ne-panicked r a false h = cc
    check_restricted-ne-panicked r a true h =
        go (normalize_target_cidrs forms r.target_cidr_allowlist) refl
      where
        go : (n : Result (List Text)) → normalize_target_cidrs forms r.target_cidr_allowlist ≡ n → ⊥
        go (err x) e =
            ground (arith, normalize_target_cidrs-ne-panicked forms r.target_cidr_allowlist)
        go (ok allowlist) e = ground (
          arith,
          find_allowed-ne-panicked a allowlist
              (normalize_target_cidrs-All forms _ key_parses r.target_cidr_allowlist allowlist e),
        )

    -- Where the text forms behave as documented: `MustParsePrefix` is called on texts that `NormalizeTargetCIDRs` made, and never panics.
    pub validate_target_address-ne-panicked :
        (r : Rule) (address : Addr) → validate_target_address forms r address ≢ err panicked
    unfolding validate_target_address
    validate_target_address-ne-panicked r address h =
        not_panicked (unmap address) (check_restricted forms r (unmap address) _)
          (check_restricted-ne-panicked r (unmap address) _) h
