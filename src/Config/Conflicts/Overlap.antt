-- ===== src/Config/Conflicts/Overlap.antt =====
-- What the tests of `validateRuleConflicts` mean for the endpoints of two rules.
use go_nftables_portbridge.Prelude.{
  ℕ, ◌≡◌, refl, ◌⊎◌, inl, inr, Bool, true, false, none, some, arith, subst, ◌&&◌,
}
use go_nftables_portbridge.Prelude.Int.{ℤ, pos, ◌≤ℤ◌, ltb_ℤ}
use go_nftables_portbridge.Text.{Text, codes, text_eq_refl}
use go_nftables_portbridge.Netip.{Addr, bit_length, is_unspecified, unmap, is_4_in_6}
use go_nftables_portbridge.Netip.Facts.{addr_eq_refl, unmap_plain}
use go_nftables_portbridge.Netip.Forms.{Forms}
use go_nftables_portbridge.Config.{Rule, protocol_both}
use go_nftables_portbridge.Config.Normalize.{last_listen_port}
use go_nftables_portbridge.Config.Conflicts.{
  protocols_overlap, port_ranges_overlap, addrs_overlap, listen_hosts_overlap, rules_conflict,
}

all_true : {a b c d : Bool} → a ≡ true → b ≡ true → c ≡ true → d ≡ true → (a && b && c && d) ≡ true
all_true e f g h = rw (e, f, g, h) refl

-- A rule's protocol takes in one transport.
abbrev pub Carries : Text → Text → Type 0
Carries protocol transport = (protocol ≡ transport) ⊎ (protocol ≡ protocol_both)

-- A listen address takes connections for an address: itself, or any of its family.
abbrev pub Covers : Addr → Addr → Type 0
Covers listen a =
    (listen ≡ a) ⊎ ((is_unspecified listen ≡ true) × (bit_length listen ≡ bit_length a))

Carries-overlap :
    (p q transport : Text)
    → Carries p transport
    → Carries q transport
    → protocols_overlap p q ≡ true
unfolding protocols_overlap
Carries-overlap p q t (inl e) (inl f) = rw (e, f, text_eq_refl t)
Carries-overlap p q t (inr e) g = rw (e, text_eq_refl protocol_both) (ground arith)
Carries-overlap p q t g (inr e) = rw (e, text_eq_refl protocol_both) (ground arith)

not_below :
    (first last : ℤ) (port : ℕ) → first ≤ℤ pos port → pos port ≤ℤ last → ltb_ℤ last first ≡ false
not_below first last port h i = ground arith

ports-overlap :
    (a b : Rule) (port : ℕ)
    → a.listen_port ≤ℤ pos port
    → pos port ≤ℤ last_listen_port a
    → b.listen_port ≤ℤ pos port
    → pos port ≤ℤ last_listen_port b
    → port_ranges_overlap a b ≡ true
unfolding port_ranges_overlap
ports-overlap a b port h i j k =
    rw (not_below a.listen_port (last_listen_port b) port h k)
      (rw (not_below b.listen_port (last_listen_port a) port j i) refl)

Covers-overlap : (x y a : Addr) → Covers x a → Covers y a → addrs_overlap x y ≡ true
unfolding addrs_overlap
Covers-overlap x y a (inl e) (inl f) = rw (e, f, addr_eq_refl a) (ground arith)
Covers-overlap x y a (inl e) (inr (u, l)) = rw (e, u) (ground arith)
Covers-overlap x y a (inr (u, l)) (inl f) = rw (f, u) (ground arith)
Covers-overlap x y a (inr (u, l)) (inr (v, m)) = rw u (ground arith)

module _ (forms : Forms) where
  open forms use {parse_addr}

  -- A listen host takes connections for an address. The program listens on the host's address after an
  -- `Unmap`: on the IPv4 address where the host is one that is mapped into IPv6.
  abbrev pub HostCovers : Text → Addr → Type 0
  HostCovers host a =
      (host ≡ codes "*") ⊎ ((x : Addr) × (parse_addr host ≡ some x) × Covers (unmap x) a)

  -- A listen host is an IPv4 address that is mapped into IPv6.
  abbrev pub mapped_host : Text → Bool
  mapped_host host = elim (parse_addr host) [ none ↦ false | some x ↦ is_4_in_6 x ]

  plain-Covers :
      (h : Text) (x a : Addr)
      → mapped_host h ≡ false
      → parse_addr h ≡ some x
      → Covers (unmap x) a
      → Covers x a
  plain-Covers h x a plain e c =
      let unmapped : is_4_in_6 x ≡ false = (rw (e, mapped_host) at plain) in
      subst (λ (y : Addr). Covers y a) (unmap_plain x unmapped) c

  hosts-overlap :
      (h k : Text) (a : Addr)
      → mapped_host h ≡ false
      → mapped_host k ≡ false
      → HostCovers h a
      → HostCovers k a
      → listen_hosts_overlap forms h k ≡ true
  unfolding listen_hosts_overlap
  hosts-overlap h k a m n (inl e) g = rw (e, text_eq_refl (codes "*")) refl
  hosts-overlap h k a m n g (inl e) = rw (e, text_eq_refl (codes "*")) (ground arith)
  hosts-overlap h k a m n (inr (x, e, c)) (inr (y, f, d)) =
      rw (e, f, Covers-overlap x y a (plain-Covers h x a m e c) (plain-Covers k y a n f d))
        (ground arith)

  -- A rule is enabled and listens for one transport on one port at one address.
  pub record Listens (r : Rule) (transport : Text) (port : ℕ) (a : Addr) : Type 0 where
    pub enabled : r.enabled ≡ true
    pub carries : Carries r.protocol transport
    pub from_first : r.listen_port ≤ℤ pos port
    pub to_last : pos port ≤ℤ last_listen_port r
    pub covers : HostCovers r.listen_host a

  -- Two rules that listen on one endpoint are in conflict, where neither listen host is a mapped one.
  pub Listens-conflict :
      (r q : Rule) (transport : Text) (port : ℕ) (a : Addr)
      → mapped_host r.listen_host ≡ false
      → mapped_host q.listen_host ≡ false
      → Listens r transport port a
      → Listens q transport port a
      → rules_conflict forms r q ≡ true
  unfolding rules_conflict
  Listens-conflict r q transport port a u v l m =
      all_true m.enabled (Carries-overlap r.protocol q.protocol transport l.carries m.carries)
        (ports-overlap r q port l.from_first l.to_last m.from_first m.to_last)
        (hosts-overlap r.listen_host q.listen_host a u v l.covers m.covers)
