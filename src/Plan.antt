-- ===== src/Plan.antt =====
-- The forwarding plan of internal/proxy/plan.go: which rules the kernel forwards and which the
-- process does, on which addresses.
pub mod Resolve
pub mod Workers
pub mod Listeners
pub mod Build
pub mod Kernel
pub mod Targets
use go_nftables_portbridge.Prelude.{
  ℕ, ◌+◌, Bool, true, false, ◌&&◌, ◌||◌, not, List, [], ◌∷◌, Option, none, some, ◌==◌,
  if◌then◌else◌,
}
use go_nftables_portbridge.Prelude.Int.{ℤ, pos, pos_part, ◌+ℤ◌, ◌-ℤ◌}
use go_nftables_portbridge.Text.{Text, codes, text_eq, trim_space}
use go_nftables_portbridge.Netip.{Addr, zero_addr, v4, v6, unmap, is_4, is_6}
use go_nftables_portbridge.Netip.Forms.{Forms}
use go_nftables_portbridge.Config.{Rule}
use go_nftables_portbridge.Plan.Resolve.{ResolveError}

pub data DataPlane : Type 0 where
  disabled nftables go_proxy hybrid : DataPlane

pub record ListenFamily : Type 0 where
  pub family : ℕ
  pub host : Addr

pub record GoPath : Type 0 where
  pub rule_id : Text
  pub rule : Rule

-- `nftRuleSpec` of internal/proxy/nft.go.
pub record NftRuleSpec : Type 0 where
  pub rule_id : Text
  pub family : ℕ
  pub listen_host : Addr
  pub listen_port : ℤ
  pub listen_port_end : ℤ
  pub target_host : Addr
  pub target_port : ℤ
  pub target_port_end : ℤ
  pub protocol : Text
  pub conntrack_mark : ℕ
  pub enable_flowtable : Bool
  pub rule_identity : Text

pub data PlanError : Type 0 where
  unresolved backup_unresolved : ResolveError → PlanError
  no_usable_family : ℕ → PlanError

-- The maps are association lists; the sets of rules are lists of their identifiers.
pub record ForwardingPlan : Type 0 where
  pub nft_specs : List NftRuleSpec
  pub go_rules : List (Text × GoPath)
  pub data_planes : List (Text × DataPlane)
  pub errors : List (Text × PlanError)
  pub uses_nft : List Text
  pub uses_go : List Text

abbrev pub empty_plan : ForwardingPlan
empty_plan = record {
  nft_specs = [];
  go_rules = [];
  data_planes = [];
  errors = [];
  uses_nft = [];
  uses_go = [];
}

abbrev pub in_family : ℕ → Addr → Bool
in_family family a = family == 4 && is_4 a || family == 6 && is_6 a

-- The first address of a family; `none` is the zero address that the source returns with `false`.
unfoldable pub first_address_for_family : List Addr → ℕ → Option Addr
first_address_for_family [] family = none
first_address_for_family (a ∷ addresses) family =
    if in_family family a then some a else first_address_for_family addresses family

unfoldable pub first_address_for_other_family : List Addr → ℕ → Option Addr
unfolding first_address_for_family
first_address_for_other_family addresses family =
    first_address_for_family addresses (if family == 4 then 6 else 4)

-- The address of the family, and else one of the other family.
abbrev pub any_family : List Addr → ℕ → Option Addr → Option Addr
any_family addresses family (some a) = some a
any_family addresses family none = first_address_for_other_family addresses family

abbrev pub family_of : Addr → ListenFamily
family_of a = if is_4 a then record { family = 4; host = a } else record { family = 6; host = a }

module _ (forms : Forms) where
  open forms use {parse_addr}

  -- An address that does not parse is the zero address.
  abbrev pub parse_or_zero : Text → Addr
  parse_or_zero s = elim (parse_addr s) [ none ↦ zero_addr | some a ↦ a ]

  unfoldable pub listen_families : Text → List ListenFamily
  unfolding unmap
  listen_families host =
      if text_eq host (codes "*")
      then record { family = 4; host = v4 0 } ∷ record { family = 6; host = v6 0 [] } ∷ []
      else family_of (unmap (parse_or_zero (trim_space host))) ∷ []
