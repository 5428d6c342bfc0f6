-- ===== src/Nft/Path.antt =====
-- What a kernel rule of internal/proxy/nft.go forwards, port by port: the abstract view by which its
-- sets are compared.
use go_nftables_portbridge.Prelude.{ℕ, ◌+◌, ◌≡◌, Bool, ◌&&◌, ◌==◌}
use go_nftables_portbridge.Prelude.Int.{pos_part}
use go_nftables_portbridge.Text.{Text, text_eq}
use go_nftables_portbridge.Netip.{Addr, addr_eq}
use go_nftables_portbridge.Plan.{NftRuleSpec}
use go_nftables_portbridge.Nft.Ports.{nft_last_port}
use go_nftables_portbridge.Nft.Ports.Subtract.{within}
use go_nftables_portbridge.Nft.Keys.{KernelForms, nft_rule_identity}
use go_nftables_portbridge.Nft.Keys.Distinct.{SamePath}

-- One port of one host that goes to one port of one target, for one forwarding rule.
pub record KernelPath : Type 0 where
  pub identity : Text
  pub family : ℕ
  pub protocol : Text
  pub mark : ℕ
  pub listen : Addr
  pub port : ℕ
  pub target : Addr
  pub target_port : ℕ

module _ (k : KernelForms) where
  -- The path agrees with the rule but for its port; the ports keep their distance.
  abbrev pub in_lane : KernelPath → NftRuleSpec → Bool
  in_lane p s =
      text_eq (nft_rule_identity k s) p.identity
      && s.family == p.family
      && text_eq s.protocol p.protocol
      && s.conntrack_mark == p.mark
      && addr_eq s.listen_host p.listen
      && addr_eq s.target_host p.target
      && pos_part s.target_port + p.port == p.target_port + pos_part s.listen_port

  unfoldable pub carries : KernelPath → NftRuleSpec → Bool
  carries p s = in_lane p s && within p.port s.listen_port (nft_last_port s)

  pub carries-SamePath :
      (p : KernelPath) (r s : NftRuleSpec) → SamePath k r s → carries p r ≡ carries p s
  unfolding carries
  carries-SamePath p r s same = rw (
    same.identity, same.family, same.listen, same.last, same.first, same.target, same.target_first,
    same.protocol, same.mark,
  )
