-- ===== src/Acl.antt =====
-- The access list of internal/acl/acl.go: the prefixes that may reach the web server. The
-- interfaces of the host are an argument.
pub mod Dedupe
pub mod Access
use go_nftables_portbridge.Prelude.{
  ℕ, ◌-◌, Bool, true, false, ◌&&◌, ◌||◌, not, List, [], ◌∷◌, ◌++◌, Option, none, some, ltb,
  if◌then◌else◌, ◌⊎◌, inl, inr,
}
use go_nftables_portbridge.Text.{Text, text_eq, text_ltb}
use go_nftables_portbridge.Text.Maps.{put_text}
use go_nftables_portbridge.Netip.{
  Addr, zero_addr, v4, v6, Prefix, prefix_from, masked, contains, unmap, is_4_in_6, is_loopback,
  is_private, is_link_local_unicast,
}
use go_nftables_portbridge.Netip.Forms.{Forms}
use go_nftables_portbridge.Config.Errors.{Error, Result, ok, err, ◌>>=◌, whitelist_entry}
use go_nftables_portbridge.Config.Prefixes.{normalize_whitelist}
use go_nftables_portbridge.Config.Targets.{any_contains}

pub record Snapshot : Type 0 where
  pub auto : List Prefix
  pub whitelist : List Prefix
  pub bootstrap : List Prefix
  pub strict : Bool

pub data AclError : Type 0 where
  bad_whitelist bad_bootstrap : Error → AclError
  strict_with_auto_lan strict_without_whitelist no_interfaces : AclError

-- One entry of `net.Interfaces`; its addresses are `none` where they cannot be read.
pub record Interface : Type 0 where
  pub up : Bool
  pub addrs : Option (List Text)

abbrev pub zero_prefix : Prefix
zero_prefix = record { addr = zero_addr; bits = 0 }

-- 127.0.0.0/8 and ::1/128
abbrev pub loopback_prefixes : List Prefix
loopback_prefixes =
    record { addr = v4 0x7f000000; bits = 8 } ∷ record { addr = v6 1 []; bits = 128 } ∷ []

-- An address mapped into IPv6 loses 96 bits of its prefix; with fewer there is no valid prefix left.
abbrev plain_prefix : Prefix → Prefix
plain_prefix p =
    if is_4_in_6 p.addr
    then if ltb p.bits 96 then zero_prefix else prefix_from (unmap p.addr) (p.bits - 96)
    else p

-- `ip` is the unmapped address also where the prefix is not valid.
abbrev is_lan : Prefix → Bool
is_lan p = let ip = unmap p.addr in is_loopback ip || is_private ip || is_link_local_unicast ip

abbrev insert_entry : Text × Prefix → List (Text × Prefix) → List (Text × Prefix)
insert_entry e [] = e ∷ []
insert_entry (k, p) ((j, q) ∷ m) =
    if text_ltb k j then (k, p) ∷ (j, q) ∷ m else (j, q) ∷ insert_entry (k, p) m

abbrev sort_entries : List (Text × Prefix) → List (Text × Prefix)
sort_entries [] = []
sort_entries (e ∷ m) = insert_entry e (sort_entries m)

abbrev prefixes_of : List (Text × Prefix) → List Prefix
prefixes_of [] = []
prefixes_of ((k, p) ∷ m) = p ∷ prefixes_of m

abbrev pub no_prefixes : List Prefix → Bool
no_prefixes [] = true
no_prefixes (p ∷ ps) = false

-- An error leaves the snapshot as it was.
abbrev publish : Option Snapshot → AclError ⊎ Snapshot → Option Snapshot × Option AclError
publish s (inl e) = (s, some e)
publish s (inr next) = (some next, none)

module _ (forms : Forms) where
  open forms use {parse_prefix, format_prefix}

  -- The map from the text of a masked prefix to that prefix.
  abbrev collect_prefixes : List Prefix → List (Text × Prefix) → List (Text × Prefix)
  collect_prefixes [] m = m
  collect_prefixes (p ∷ ps) m =
      collect_prefixes ps (put_text (format_prefix (masked p)) (masked p) m)

  unfoldable pub dedupe : List Prefix → List Prefix
  dedupe ps = prefixes_of (sort_entries (collect_prefixes ps []))

  -- The prefixes of one interface's addresses that are local.
  abbrev lan_prefixes : List Text → List Prefix
  lan_prefixes [] = []
  lan_prefixes (raw ∷ rest) = elim (parse_prefix raw) [
    | none ↦ lan_prefixes rest
    | some p ↦ if is_lan p then masked (plain_prefix p) ∷ lan_prefixes rest else lan_prefixes rest
  ]

  abbrev interface_prefixes : Interface → List Prefix
  interface_prefixes i =
      if i.up then (elim i.addrs [ none ↦ [] | some raws ↦ lan_prefixes raws ]) else []

  abbrev all_interfaces : List Interface → List Prefix
  all_interfaces [] = []
  all_interfaces (i ∷ is) = interface_prefixes i ++ all_interfaces is

  -- `none` is a host whose interfaces cannot be listed.
  unfoldable pub detect_lan_prefixes : Option (List Interface) → Option (List Prefix)
  unfolding dedupe
  detect_lan_prefixes none = none
  detect_lan_prefixes (some is) = some (dedupe (all_interfaces is))

  abbrev parse_each : List Text → Result (List Prefix)
  parse_each [] = ok []
  parse_each (s ∷ rest) = elim (parse_prefix s) [
    | none ↦ err whitelist_entry
    | some p ↦ parse_each rest >>= λ ps. ok (p ∷ ps)
  ]

  unfoldable pub parse_prefixes : List Text → Result (List Prefix)
  unfolding normalize_whitelist
  parse_prefixes items = normalize_whitelist forms items >>= parse_each

  -- `none` where the interfaces cannot be listed; without automatic LAN access they are not looked at.
  abbrev lan_part : Bool → Option (List Interface) → Option (List Prefix)
  lan_part false interfaces = some []
  lan_part true interfaces = detect_lan_prefixes interfaces

  -- The snapshot, once the lists have been parsed and the tests on strict mode made.
  abbrev snapshot_of : Bool → List Prefix → List Prefix → Option (List Prefix) → AclError ⊎ Snapshot
  snapshot_of strict white boot none = inl no_interfaces
  snapshot_of strict white boot (some lan) = inr (record {
    auto = dedupe (loopback_prefixes ++ lan);
    whitelist = white;
    bootstrap = if strict then [] else boot;
    strict = strict;
  })

  abbrev check_strict_mode :
      Bool → Bool → List Prefix → List Prefix → Option (List Interface) → AclError ⊎ Snapshot
  check_strict_mode auto_lan strict white boot interfaces =
      if strict && auto_lan
      then inl strict_with_auto_lan
      else if strict && no_prefixes white
      then inl strict_without_whitelist
      else snapshot_of strict white boot (lan_part (auto_lan && not strict) interfaces)

  abbrev with_parsed :
      Bool
      → Bool
      → Option (List Interface)
      → Result (List Prefix)
      → Result (List Prefix)
      → AclError ⊎ Snapshot
  with_parsed auto_lan strict interfaces (err e) boot = inl (bad_whitelist e)
  with_parsed auto_lan strict interfaces (ok white) (err e) = inl (bad_bootstrap e)
  with_parsed auto_lan strict interfaces (ok white) (ok boot) =
      check_strict_mode auto_lan strict white boot interfaces

  unfoldable pub refresh :
      Bool
      → Bool
      → List Text
      → List Text
      → Option (List Interface)
      → Option Snapshot
      → Option Snapshot × Option AclError
  unfolding parse_prefixes detect_lan_prefixes dedupe
  refresh auto_lan strict whitelist bootstrap interfaces s =
      publish s (
        with_parsed auto_lan strict interfaces (parse_prefixes whitelist)
          (parse_prefixes bootstrap))

abbrev plain : Addr → Addr
plain a = if is_4_in_6 a then unmap a else a

-- Before the first snapshot nothing is allowed.
unfoldable pub allowed : Option Snapshot → Addr → Bool
unfolding any_contains unmap
allowed none addr = false
allowed (some s) addr =
    let a = plain addr in
    any_contains s.auto a || any_contains s.whitelist a || any_contains s.bootstrap a
