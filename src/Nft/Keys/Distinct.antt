-- ===== src/Nft/Keys/Distinct.antt =====
-- `nftRetirementKey` of internal/proxy/nft_recovery.go tells apart the rules that differ in what they
-- forward: its fields are read back at the bars between them.
use go_nftables_portbridge.Prelude.{
  ℕ, ◌≡◌, refl, Bool, true, false, ◌&&◌, ◌||◌, [], ◌∷◌, ◌++◌, arith, sym, ap, subst,
}
use go_nftables_portbridge.Prelude.Int.{ℤ, pos}
use go_nftables_portbridge.Text.{Text, codes, text_eq, text_eq_sound}
use go_nftables_portbridge.Plan.{NftRuleSpec}
use go_nftables_portbridge.Nft.Ports.{end_or}
use go_nftables_portbridge.Nft.Keys.{
  KernelForms, KernelDocumented, Free, bar, dash, port_key, nft_rule_identity, nft_retirement_key,
  protocol_fits,
}
use go_nftables_portbridge.Nft.Keys.Fits.{Fits, InRange, in_range}

-- Two texts that agree up to a code point that neither field holds have equal fields and rests.
split_at :
    (c : ℕ) (xs ys : Text) {r s : Text}
    → Free c xs
    → Free c ys
    → xs ++ c ∷ r ≡ ys ++ c ∷ s
    → (xs ≡ ys) × (r ≡ s)
split_at c [] [] h k e = (refl, cc)
split_at c [] (y ∷ ys) h (p, k) e = ground arith
split_at c (x ∷ xs) [] (p, h) k e = ground arith
split_at c (x ∷ xs) (y ∷ ys) {r} {s} (p, h) (q, k) e =
    let inner : xs ++ c ∷ r ≡ ys ++ c ∷ s = cc in
    let (same, rest) = split_at c xs ys h k inner in (cc (same), rest)

Free-append : (c : ℕ) (xs ys : Text) → Free c xs → Free c ys → Free c (xs ++ ys)
Free-append c [] ys h k = k
Free-append c (x ∷ xs) ys (p, h) k = (p, Free-append c xs ys h k)

-- The rules forward the same ports of the same host, for the same rule, to the same target.
pub record SamePath (k : KernelForms) (r s : NftRuleSpec) : Type 0 where
  pub identity : nft_rule_identity k r ≡ nft_rule_identity k s
  pub family : r.family ≡ s.family
  pub listen : r.listen_host ≡ s.listen_host
  pub first : r.listen_port ≡ s.listen_port
  pub last : end_or r.listen_port_end r.listen_port ≡ end_or s.listen_port_end s.listen_port
  pub target : r.target_host ≡ s.target_host
  pub target_first : r.target_port ≡ s.target_port
  pub protocol : r.protocol ≡ s.protocol
  pub mark : r.conntrack_mark ≡ s.conntrack_mark

module _ (k : KernelForms) (d : KernelDocumented k) where
  open k use {format_int, format_hex, format_addr}

  port_key-Free : (a b : ℕ) → Free bar (port_key k (pos a) (pos b))
  port_key-Free a b =
      Free-append bar (format_int (pos a)) _ (d.int_free a).0 (refl, (d.int_free b).0)

  -- The texts of two ranges agree only if the ranges do.
  port_key_distinct :
      {a b t u a' b' t' u' : ℤ}
      → InRange a b t u
      → InRange a' b' t' u'
      → (port_key k a b ≡ port_key k a' b' → (a ≡ a') × (b ≡ b'))
        × (port_key k t u ≡ port_key k t' u' → t ≡ t')
        × Free bar (port_key k a b)
        × Free bar (port_key k a' b')
        × Free bar (port_key k t u)
        × Free bar (port_key k t' u')
  port_key_distinct (in_range a b t u _ _ _ _ _ _) (in_range a' b' t' u' _ _ _ _ _ _) = (
    λ e.
        let (same, rest) =
          split_at dash (format_int (pos a)) (format_int (pos a')) (d.int_free a).1
            (d.int_free a').1 e in
        (ap pos (d.int_distinct a a' same), ap pos (d.int_distinct b b' rest)),
    λ e.
        let (same, rest) =
          split_at dash (format_int (pos t)) (format_int (pos t')) (d.int_free t).1
            (d.int_free t').1 e in
        ap pos (d.int_distinct t t' same),
    port_key-Free a b,
    port_key-Free a' b',
    port_key-Free t u,
    port_key-Free t' u',
  )

  protocol-Free : (p : Text) → protocol_fits p ≡ true → Free bar p
  protocol-Free p h = either (text_eq p (codes "tcp")) (text_eq p (codes "udp")) refl refl h
    where
      either :
          (a b : Bool)
          → text_eq p (codes "tcp") ≡ a
          → text_eq p (codes "udp") ≡ b
          → (a || b) ≡ true
          → Free bar p
      either true b e f h =
          subst (Free bar) (sym (text_eq_sound p (codes "tcp") e)) (refl, (refl, (refl, tt)))
      either false true e f h =
          subst (Free bar) (sym (text_eq_sound p (codes "udp") f)) (refl, (refl, (refl, tt)))
      either false false e f h = cc

  pub nft_retirement_key-SamePath :
      (r s : NftRuleSpec)
      → Fits k r
      → Fits k s
      → nft_retirement_key k r ≡ nft_retirement_key k s
      → SamePath k r s
  unfolding nft_retirement_key
  nft_retirement_key-SamePath r s f g e =
      let (range, targets, clear_r, clear_s, clear_tr, clear_ts) =
        port_key_distinct f.ports g.ports in
      let (identity, e1) = split_at bar _ _ f.identity g.identity e in
      let (family, e2) = split_at bar _ _ (d.int_free r.family).0 (d.int_free s.family).0 e1 in
      let (listen, e3) =
        split_at bar _ _ (d.addr_free r.listen_host (zoned _ _ f.listen))
          (d.addr_free s.listen_host (zoned _ _ g.listen)) e2 in
      let (ports, e4) = split_at bar _ _ clear_r clear_s e3 in
      let (target, e5) =
        split_at bar _ _ (d.addr_free r.target_host (zoned _ _ f.target))
          (d.addr_free s.target_host (zoned _ _ g.target)) e4 in
      let (target_ports, e6) = split_at bar _ _ clear_tr clear_ts e5 in
      let (protocol, mark) =
        split_at bar _ _ (protocol-Free r.protocol f.transport)
          (protocol-Free s.protocol g.transport) e6 in
      record {
        identity = identity;
        family = d.int_distinct r.family s.family family;
        listen = d.addr_distinct r.listen_host s.listen_host f.listen g.listen listen;
        first = (range ports).0;
        last = (range ports).1;
        target = d.addr_distinct r.target_host s.target_host f.target g.target target;
        target_first = targets target_ports;
        protocol = protocol;
        mark = d.hex_distinct r.conntrack_mark s.conntrack_mark mark;
      }
    where
      zoned : (a b : Bool) → (a && b) ≡ true → b ≡ true
      zoned a b h = ground arith
