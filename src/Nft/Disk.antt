-- ===== src/Nft/Disk.antt =====
-- The rules in the recovery file, internal/proxy/nft_disk_linux.go: `diskNFTPaths`,
-- `diskNFTSnapshot`, `specs` of a snapshot and `sameNFTDiskSnapshot`.
pub mod RoundTrip
use go_nftables_portbridge.Prelude.{Bool, true, false, ◌&&◌, List, [], ◌∷◌, ◌++◌, map, ◌==◌}
use go_nftables_portbridge.Text.{Text, codes, text_eq}
use go_nftables_portbridge.Netip.{addr_eq}
use go_nftables_portbridge.Plan.{NftRuleSpec}
use go_nftables_portbridge.Nft.Keys.{
  KernelForms, nft_rule_identity, unique_nft_specs, equal_ℤ, bool_eq,
}

pub record DiskPath : Type 0 where
  pub identity : Text
  pub spec : NftRuleSpec

pub record DiskSnapshot : Type 0 where
  pub active : List DiskPath
  pub pending : List DiskPath
  pub suspended : List DiskPath

abbrev pub empty_snapshot : DiskSnapshot
empty_snapshot = record { active = []; pending = []; suspended = [] }

-- A path of the file as a rule.
abbrev pub spec_of : DiskPath → NftRuleSpec
spec_of p = record p.spec { rule_identity = p.identity; rule_id = codes "kernel-" ++ p.identity }

unfoldable pub specs_of : List DiskPath → List NftRuleSpec
specs_of = map spec_of

-- The JSON texts of two paths agree.
unfoldable pub same_path : DiskPath → DiskPath → Bool
unfolding addr_eq
same_path p q =
    text_eq p.identity q.identity
    && text_eq p.spec.rule_id q.spec.rule_id
    && p.spec.family == q.spec.family
    && addr_eq p.spec.listen_host q.spec.listen_host
    && equal_ℤ p.spec.listen_port q.spec.listen_port
    && equal_ℤ p.spec.listen_port_end q.spec.listen_port_end
    && addr_eq p.spec.target_host q.spec.target_host
    && equal_ℤ p.spec.target_port q.spec.target_port
    && equal_ℤ p.spec.target_port_end q.spec.target_port_end
    && text_eq p.spec.protocol q.spec.protocol
    && p.spec.conntrack_mark == q.spec.conntrack_mark
    && bool_eq p.spec.enable_flowtable q.spec.enable_flowtable

unfoldable pub same_paths : List DiskPath → List DiskPath → Bool
unfolding same_path
same_paths [] [] = true
same_paths (p ∷ ps) (q ∷ qs) = same_path p q && same_paths ps qs
same_paths _ _ = false

unfoldable pub same_disk_snapshot : DiskSnapshot → DiskSnapshot → Bool
unfolding same_paths
same_disk_snapshot a b =
    same_paths a.active b.active
    && same_paths a.pending b.pending
    && same_paths a.suspended b.suspended

module _ (k : KernelForms) where
  abbrev pub path_of : NftRuleSpec → DiskPath
  path_of s = record {
    identity = nft_rule_identity k s;
    spec = record s { rule_id = []; rule_identity = [] };
  }

  unfoldable pub disk_paths : List NftRuleSpec → List DiskPath
  unfolding unique_nft_specs nft_rule_identity
  disk_paths specs = map path_of (unique_nft_specs k specs)

  unfoldable pub disk_snapshot :
      List NftRuleSpec → List NftRuleSpec → List NftRuleSpec → DiskSnapshot
  unfolding disk_paths
  disk_snapshot active pending suspended = record {
    active = disk_paths active;
    pending = disk_paths pending;
    suspended = disk_paths suspended;
  }
