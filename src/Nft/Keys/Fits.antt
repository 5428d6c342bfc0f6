-- ===== src/Nft/Keys/Fits.antt =====
-- What `validateRetirementSpec` of internal/proxy/nft_conntrack.go lets through, in numbers.
use go_nftables_portbridge.Prelude.{ℕ, ◌+◌, ◌≤◌, ◌≡◌, refl, Bool, true, false, ◌&&◌, not, arith}
use go_nftables_portbridge.Prelude.Int.{ℤ, pos, negsuc, ltb_ℤ, ◌-ℤ◌}
use go_nftables_portbridge.Text.{is_empty}
use go_nftables_portbridge.Netip.{is_valid, zone}
use go_nftables_portbridge.Plan.{NftRuleSpec}
use go_nftables_portbridge.Nft.Ports.{end_or}
use go_nftables_portbridge.Nft.Keys.{
  KernelForms, Free, bar, valid_retirement_spec, port_fits, protocol_fits, nft_rule_identity,
}

-- Ports in range: as many targets as ports, none of them past the last port.
pub data InRange : ℤ → ℤ → ℤ → ℤ → Type 0 where
  in_range :
      (a b t u : ℕ)
      → 1 ≤ a
      → a ≤ b
      → b ≤ 65535
      → 1 ≤ t
      → u ≤ 65535
      → u + a ≡ t + b
      → InRange (pos a) (pos b) (pos t) (pos u)

module _ (k : KernelForms) where
  pub record Fits (s : NftRuleSpec) : Type 0 where
    pub ports :
        InRange s.listen_port
          (end_or s.listen_port_end s.listen_port)
          s.target_port
          (end_or s.target_port_end s.target_port)
    pub listen : (is_valid s.listen_host && is_empty (zone s.listen_host)) ≡ true
    pub target : (is_valid s.target_host && is_empty (zone s.target_host)) ≡ true
    pub transport : protocol_fits s.protocol ≡ true
    pub identity : Free bar (nft_rule_identity k s)

and_left : (a b : Bool) → (a && b) ≡ true → a ≡ true
and_left true b h = refl
and_left false b h = cc

and_right : (a b : Bool) → (a && b) ≡ true → b ≡ true
and_right true b h = h
and_right false b h = cc

ports_InRange :
    (p q t u : ℤ)
    → port_fits p q ≡ true
    → port_fits t u ≡ true
    → (not (ltb_ℤ (q -ℤ p) (u -ℤ t)) && not (ltb_ℤ (u -ℤ t) (q -ℤ p))) ≡ true
    → InRange p q t u
unfolding ◌-ℤ◌
ports_InRange (pos a) (pos b) (pos t) (pos u) h k e =
    in_range a b t u (ground arith) (ground arith) (ground arith) (ground arith) (ground arith)
      (ground arith)
ports_InRange (negsuc a) q t u h k e = ground arith
ports_InRange (pos a) (negsuc b) t u h k e = ground arith
ports_InRange (pos a) (pos b) (negsuc t) u h k e = ground arith
ports_InRange (pos a) (pos b) (pos t) (negsuc u) h k e = ground arith

module _ (k : KernelForms) where
  -- A rule that passes, and whose identity holds no bar, fits.
  pub valid-Fits :
      (s : NftRuleSpec)
      → valid_retirement_spec s ≡ true
      → Free bar (nft_rule_identity k s)
      → Fits k s
  unfolding valid_retirement_spec
  valid-Fits s h free =
      let h8 = and_left _ _ h in
      let h7 = and_left _ _ h8 in
      let h6 = and_left _ _ h7 in
      let h5 = and_left _ _ h6 in
      let h4 = and_left _ _ h5 in
      let h3 = and_left _ _ h4 in
      let h2 = and_left _ _ h3 in
      record {
        ports =
            ports_InRange s.listen_port (end_or s.listen_port_end s.listen_port) s.target_port
              (end_or s.target_port_end s.target_port) (and_right _ _ h6) (and_right _ _ h7)
              (and_right _ _ h8);
        listen = and_left _ _ (and_right _ _ h4);
        target = and_left _ _ (and_right _ _ h5);
        transport = and_right _ _ h2;
        identity = free;
      }
