-- ===== src/Nft/Specs/Gated.antt =====
-- `gateNFTReplacements` of internal/proxy/nft_recovery.go: what it lets in beside pending rules.
use go_nftables_portbridge.Prelude.{
  ℕ, ◌==◌, ◌≡◌, refl, Bool, true, false, ◌&&◌, ◌||◌, not, List, [], ◌∷◌, map, All, All-append, any,
  any-append, arith, ◌∙◌, sym,
}
use go_nftables_portbridge.Text.{text_eq}
use go_nftables_portbridge.Netip.{Addr, is_unspecified, addr_eq}
use go_nftables_portbridge.Plan.{NftRuleSpec}
use go_nftables_portbridge.Nft.Ports.{PortInterval, slice_ports, nft_last_port}
use go_nftables_portbridge.Nft.Ports.Subtract.{within, any_within, IsPart}
use go_nftables_portbridge.Nft.Keys.{KernelForms}
use go_nftables_portbridge.Nft.Keys.Fits.{Fits}
use go_nftables_portbridge.Nft.Path.{KernelPath, carries}
use go_nftables_portbridge.Nft.Specs.{in_the_way, gate_nft_replacements, remaining, whole}
use go_nftables_portbridge.Nft.Specs.Slices.{
  sliced_exact, remaining-IsPart, remaining_exact, whole-IsPart, low_port, high_port, IsRange-end,
}

-- Some address may belong to both hosts.
abbrev pub hosts_meet : Addr → Addr → Bool
hosts_meet a b = is_unspecified a || is_unspecified b || addr_eq a b

-- A pending rule takes a port from another one, for the same transport, on a host that both may
-- listen on.
abbrev pub takes : NftRuleSpec → ℕ → NftRuleSpec → Bool
takes next port old =
    old.family == next.family
    && text_eq old.protocol next.protocol
    && hosts_meet old.listen_host next.listen_host
    && within port old.listen_port (nft_last_port old)

pub takes_lem :
    (next : NftRuleSpec) (port : ℕ) (old : NftRuleSpec)
    → (in_the_way next old && within port old.listen_port (nft_last_port old)) ≡ takes next port old
unfolding in_the_way
takes_lem next port old =
    regroup (old.family == next.family) (text_eq old.protocol next.protocol)
      (hosts_meet old.listen_host next.listen_host)
      (within port old.listen_port (nft_last_port old))
  where
    regroup : (a b c w : Bool) → ((a && b && c) && w) ≡ (a && b && c && w)
    regroup a b c w = ground arith

any-takes_lem :
    (next : NftRuleSpec) (port : ℕ) (specs : List NftRuleSpec)
    → any (λ old. in_the_way next old && within port old.listen_port (nft_last_port old)) specs
      ≡ any (takes next port) specs
any-takes_lem next port [] = refl
any-takes_lem next port (old ∷ specs) =
    both _ _ _ _ (takes_lem next port old) (any-takes_lem next port specs)
  where
    both : (a b x y : Bool) → a ≡ b → x ≡ y → (a || x) ≡ (b || y)
    both a b x y e h = rw (e, h) refl

-- The rule does not take a port that a pending rule, for the same transport on a host that they may
-- share, takes too.
abbrev pub KeepsClear : List NftRuleSpec → NftRuleSpec → Type 0
KeepsClear pending s =
    (port : ℕ)
    → within port s.listen_port (nft_last_port s) ≡ true
    → any (takes s port) pending ≡ false

module _ (k : KernelForms) where
  slices-KeepsClear :
      (s : NftRuleSpec) (low high : ℕ) (pending : List NftRuleSpec) (parts : List PortInterval)
      → All (IsPart low high) parts
      → ((port : ℕ) → any_within port parts ≡ true → any (takes s port) pending ≡ false)
      → All (KeepsClear pending) (map (slice_ports s) parts)
  unfolding slice_ports
  slices-KeepsClear s low high pending [] r h = tt
  slices-KeepsClear s low high pending (part ∷ parts) (q, r) h = (
    λ port inside. h port (here _ _ (sym (IsRange-end port q) ∙ inside)),
    slices-KeepsClear s low high pending parts r (λ port inside. h port (there _ _ inside)),
  )
    where
      here : (a b : Bool) → a ≡ true → (a || b) ≡ true
      here a b e = ground arith

      there : (a b : Bool) → b ≡ true → (a || b) ≡ true
      there a b e = ground arith

  -- The rules that are let in beside pending ones forward exactly the paths of the desired rules at
  -- the ports that no pending rule takes from them, they fit, and none takes a port, for one
  -- transport and on a host that they may share, that a pending rule takes.
  pub gate_nft_replacements_exact :
      (p : KernelPath) (desired pending : List NftRuleSpec)
      → All (Fits k) desired
      → All (Fits k) pending
      → (any (carries k p) (gate_nft_replacements desired pending)
          ≡ any (λ n. carries k p n && not (any (takes n p.port) pending)) desired)
        × All (Fits k) (gate_nft_replacements desired pending)
        × All (KeepsClear pending) (gate_nft_replacements desired pending)
  unfolding gate_nft_replacements
  gate_nft_replacements_exact p [] pending f g = (refl, tt, tt)
  gate_nft_replacements_exact p (n ∷ desired) pending (f, h) g =
      let (one, fits) = sliced_exact k (in_the_way n) p n pending f g in
      let (rest, all, clear) = gate_nft_replacements_exact p desired pending h g in
      let left = remaining (in_the_way n) pending (whole n) in
      let parts = map (slice_ports n) left in
      let later = gate_nft_replacements desired pending in
      let ranges = whole-IsPart k n f in
      (
        any-append (carries k p) parts later ∙ rw (one, rest, any-takes_lem n p.port pending),
        All-append (Fits k) parts later fits all,
        All-append (KeepsClear pending) parts later
            (slices-KeepsClear n (low_port n) (high_port n) pending left
              (remaining-IsPart k (in_the_way n) (low_port n) (high_port n) pending (whole n) g
                ranges)
              (λ port inside.
                sym (any-takes_lem n port pending)
                ∙ second _ _ (
                    sym (
                      remaining_exact k (in_the_way n) port (low_port n) (high_port n) pending
                        (whole n) g ranges)
                    ∙ inside)))
            clear,
      )
    where
      second : (a b : Bool) → (a && not b) ≡ true → b ≡ false
      second a b e = ground arith
