-- ===== src/Nft/Ports.antt =====
-- Ranges of ports of kernel rules: `nftSubtractPortRange`, `nftSlicePorts` and `nftLastPort` of
-- internal/proxy/nft_recovery.go.
pub mod Subtract
use go_nftables_portbridge.Prelude.{
  ℕ, Bool, true, false, ◌&&◌, ◌||◌, List, [], ◌∷◌, ◌++◌, if◌then◌else◌, leb,
}
use go_nftables_portbridge.Prelude.Int.{ℤ, pos, pos_part, ltb_ℤ, nonzero, ◌+ℤ◌, ◌-ℤ◌}
use go_nftables_portbridge.Plan.{NftRuleSpec}

pub record PortInterval : Type 0 where
  pub first : ℤ
  pub last : ℤ

abbrev pub interval : ℤ → ℤ → PortInterval
interval first last = record { first = first; last = last }

-- What is left of one range.
unfoldable pub cut_part : PortInterval → ℤ → ℤ → List PortInterval
unfolding ◌+ℤ◌ ◌-ℤ◌
cut_part part first last =
    if ltb_ℤ last part.first || ltb_ℤ part.last first
    then part ∷ []
    else (if ltb_ℤ part.first first then interval part.first (first -ℤ pos 1) ∷ [] else [])
      ++ (if ltb_ℤ last part.last then interval (last +ℤ pos 1) part.last ∷ [] else [])

unfoldable pub subtract_port_range : List PortInterval → ℤ → ℤ → List PortInterval
unfolding cut_part
subtract_port_range [] first last = []
subtract_port_range (part ∷ parts) first last =
    cut_part part first last ++ subtract_port_range parts first last

-- The end of a range, which may be left out.
abbrev pub end_or : ℤ → ℤ → ℤ
end_or end first = if nonzero end then end else first

abbrev pub nft_last_port : NftRuleSpec → ℤ
nft_last_port s = end_or s.listen_port_end s.listen_port

unfoldable pub slice_ports : NftRuleSpec → PortInterval → NftRuleSpec
unfolding ◌+ℤ◌ ◌-ℤ◌
slice_ports s part =
    let target = s.target_port +ℤ part.first -ℤ s.listen_port in
    record s {
      listen_port = part.first;
      listen_port_end = part.last;
      target_port = target;
      target_port_end = target +ℤ part.last -ℤ part.first;
    }
