-- ===== src/Acl/Access.antt =====
-- `Refresh` and `Allowed` of internal/acl/acl.go: who may reach the web server.
use go_nftables_portbridge.Prelude.{
  ℕ, ◌+◌, ◌*◌, ◌^◌, ◌/◌, ◌%◌, ◌<◌, ◌≡◌, refl, ap, ◌⊎◌, inl, inr, Bool, true, false, ◌&&◌, ◌||◌, not,
  List, [], ◌∷◌, ◌++◌, Option, none, some, arith, All, if◌then◌else◌, ◌==◌, subst,
}
use go_nftables_portbridge.Text.{Text}
use go_nftables_portbridge.Netip.{Addr, v4, v6, Prefix, masked, unmap}
use go_nftables_portbridge.Netip.Forms.{Forms, Documented}
use go_nftables_portbridge.Config.Errors.{Result, ok, err}
use go_nftables_portbridge.Config.Targets.{any_contains}
use go_nftables_portbridge.Acl.{
  Snapshot, AclError, Interface, loopback_prefixes, no_prefixes, check_strict_mode, with_parsed,
  publish, refresh, allowed, plain, dedupe, parse_prefixes,
}
use go_nftables_portbridge.Acl.Dedupe.{Given, dedupe-contains}

published :
    (s : Option Snapshot) (x : AclError ⊎ Snapshot) (n : Option Snapshot)
    → publish s x ≡ (n, none)
    → (next : Snapshot) × (x ≡ inr next) × (n ≡ some next)
published s (inl e) n h = cc
published s (inr next) n h = (next, refl, ground arith)

-- A refresh that fails, in a list, in the rules of strict mode or at the interfaces, leaves the
-- access list as it was; one that succeeds leaves one in force.
pub refresh_keeps :
    (forms : Forms) (auto_lan strict : Bool) (whitelist bootstrap : List Text)
    (interfaces : Option (List Interface)) (s : Option Snapshot)
    → let (s', e) = refresh forms auto_lan strict whitelist bootstrap interfaces s in
      ((e ≡ none) × ((n : Snapshot) × (s' ≡ some n))) ⊎ ((s' ≡ s) × ((x : AclError) × (e ≡ some x)))
unfolding refresh
refresh_keeps forms auto_lan strict whitelist bootstrap interfaces s = go (
    with_parsed forms auto_lan strict interfaces (parse_prefixes forms whitelist)
      (parse_prefixes forms bootstrap))
  where
    go :
        (x : AclError ⊎ Snapshot)
        → let (s', e) = publish s x in
          ((e ≡ none) × ((n : Snapshot) × (s' ≡ some n)))
          ⊎ ((s' ≡ s) × ((x : AclError) × (e ≡ some x)))
    go (inl x) = inr (refl, (x, refl))
    go (inr n) = inl (refl, (n, refl))

plain_mapped : (n : ℕ) (z : Text) → n < 2 ^ 32 → plain (v6 (0xffff * 2 ^ 32 + n) z) ≡ v4 n
unfolding unmap
plain_mapped n z h =
    let high : ((0xffff * 2 ^ 32 + n) / 2 ^ 32 == 0xffff) ≡ true = ground arith in
    let low : (0xffff * 2 ^ 32 + n) % 2 ^ 32 ≡ n = omega arith in rw (high, low) refl

-- An IPv4 client is allowed in its plain form exactly when it is allowed mapped into IPv6, with
-- whatever zone, before the first snapshot and after.
pub allowed_mapped :
    (s : Option Snapshot) (n : ℕ) (z : Text)
    → n < 2 ^ 32
    → allowed s (v6 (0xffff * 2 ^ 32 + n) z) ≡ allowed s (v4 n)
unfolding allowed unmap
allowed_mapped none n z h = refl
allowed_mapped (some s) n z h =
    let e : plain (v6 (0xffff * 2 ^ 32 + n) z) ≡ v4 n = plain_mapped n z h in
    ap
      (λ (a : Addr).
        any_contains s.auto a || any_contains s.whitelist a || any_contains s.bootstrap a)
      e

-- What a snapshot allows, without automatic LAN access.
abbrev pub Allows : Bool → List Prefix → List Prefix → Snapshot → Addr → Type 0
Allows strict white boot n addr =
    let a = plain addr in
    allowed (some n) addr ≡ (
      any_contains loopback_prefixes a
      || any_contains white a
      || (not strict && any_contains boot a))

loopback-Given : All Given loopback_prefixes
loopback-Given = (inl (refl, omega arith), (inl (refl, omega arith), tt))

module _ (forms : Forms) (laws : Documented forms) where
  loopback-contains :
      (a : Addr)
      → any_contains (dedupe forms (loopback_prefixes ++ [])) a ≡ any_contains loopback_prefixes a
  unfolding masked
  loopback-contains a = dedupe-contains forms laws a loopback_prefixes loopback-Given

  -- The snapshot of a successful refresh without automatic LAN access.
  abbrev Built : Bool → List Prefix → List Prefix → Snapshot
  Built strict white boot = record {
    auto = dedupe forms (loopback_prefixes ++ []);
    whitelist = white;
    bootstrap = if strict then [] else boot;
    strict = strict;
  }

  Built-Allows :
      (strict : Bool) (white boot : List Prefix) (n : Snapshot) (addr : Addr)
      → ◌≡◌ {A = AclError ⊎ Snapshot} (inr (Built strict white boot)) (inr n)
      → Allows strict white boot n addr
  unfolding allowed
  Built-Allows strict white boot n addr h =
      let same : Built strict white boot ≡ n = cc h in
      subst (λ (t : Snapshot). Allows strict white boot t addr) same (shape strict)
    where
      shape : (b : Bool) → Allows b white boot (Built b white boot) addr
      shape true = rw (loopback-contains (plain addr)) refl
      shape false = rw (loopback-contains (plain addr)) refl

  strict_mode-Allows :
      (auto_lan strict : Bool) (white boot : List Prefix) (interfaces : Option (List Interface))
      (n : Snapshot) (addr : Addr)
      → (auto_lan && not strict) ≡ false
      → check_strict_mode forms auto_lan strict white boot interfaces ≡ inr n
      → Allows strict white boot n addr × ((strict && no_prefixes white) ≡ false)
  unfolding allowed
  strict_mode-Allows true true white boot interfaces n addr off h = cc
  strict_mode-Allows true false white boot interfaces n addr off h = cc
  strict_mode-Allows false true [] boot interfaces n addr off h = cc
  strict_mode-Allows false true (p ∷ white) boot interfaces n addr off h =
      (Built-Allows true (p ∷ white) boot n addr h, refl)
  strict_mode-Allows false false white boot interfaces n addr off h =
      (Built-Allows false white boot n addr h, refl)

  parsed-Allows :
      (auto_lan strict : Bool) (interfaces : Option (List Interface)) (w b : Result (List Prefix))
      (n : Snapshot) (addr : Addr)
      → (auto_lan && not strict) ≡ false
      → with_parsed forms auto_lan strict interfaces w b ≡ inr n
      → (white : List Prefix) × (boot : List Prefix) × (w ≡ ok white)
        × (b ≡ ok boot)
        × Allows strict white boot n addr
        × ((strict && no_prefixes white) ≡ false)
  parsed-Allows auto_lan strict interfaces (err x) b n addr off h = cc
  parsed-Allows auto_lan strict interfaces (ok white) (err x) n addr off h = cc
  parsed-Allows auto_lan strict interfaces (ok white) (ok boot) n addr off h =
      let (allows, filled) =
        strict_mode-Allows auto_lan strict white boot interfaces n addr off h in
      (white, boot, refl, refl, allows, filled)

  -- Where the text forms behave as documented: after a successful refresh without automatic LAN
  -- access, or in strict mode, an address is
  -- allowed exactly when, taken out of its IPv6 mapping, it is in 127.0.0.0/8 or ::1/128 or in a
  -- prefix of the parsed whitelist or, outside strict mode only, of the parsed bootstrap list. In
  -- strict mode the whitelist is not empty.
  pub refresh-Allows :
      (auto_lan strict : Bool) (whitelist bootstrap : List Text)
      (interfaces : Option (List Interface)) (s s' : Option Snapshot) (addr : Addr)
      → (auto_lan && not strict) ≡ false
      → refresh forms auto_lan strict whitelist bootstrap interfaces s ≡ (s', none)
      → (white : List Prefix) × (boot : List Prefix) × (n : Snapshot) × (s' ≡ some n)
        × (parse_prefixes forms whitelist ≡ ok white)
        × (parse_prefixes forms bootstrap ≡ ok boot)
        × Allows strict white boot n addr
        × ((strict && no_prefixes white) ≡ false)
  unfolding refresh
  refresh-Allows auto_lan strict whitelist bootstrap interfaces s s' addr off h =
      let (n, built, e) = published s _ s' h in
      let (white, boot, w, b, allows, filled) =
        parsed-Allows auto_lan strict interfaces _ _ n addr off built in
      (white, boot, n, e, w, b, allows, filled)
