-- ===== src/Nft/Backend.antt =====
-- The nftables backend, `commandNFTBackend` of internal/proxy/nft.go: its state, the keys by which it
-- compares plans, the scope of a policy rejection (nft_firewall.go, nft_selective_acl_linux.go), and
-- the chain of its steps. What it reads of the kernel and of its recovery file is behind `BackendIo`.
pub mod Install
pub mod Recover
pub mod Replace
pub mod Healthy
pub mod Chain
pub mod Installed
pub mod Written
pub mod Applied
pub mod Emptied
pub mod Carried
pub mod Revoked
use go_nftables_portbridge.Prelude.{
  ℕ, ◌+◌, Bool, true, false, ◌&&◌, ◌||◌, not, List, [], ◌∷◌, ◌++◌, map, Option, none, some, any,
  ◌==◌, if◌then◌else◌,
}
use go_nftables_portbridge.Prelude.Int.{ℤ, pos, ltb_ℤ, ◌-ℤ◌}
use go_nftables_portbridge.Text.{Text, codes, text_eq}
use go_nftables_portbridge.Text.Sets.{sort_texts}
use go_nftables_portbridge.Netip.{Addr, addr_eq}
use go_nftables_portbridge.Plan.{NftRuleSpec}
use go_nftables_portbridge.Nft.Ports.{nft_last_port}
use go_nftables_portbridge.Nft.Keys.{KernelForms, nft_rule_identity, equal_ℤ, bar, dash}
use go_nftables_portbridge.Nft.Disk.{DiskSnapshot}
use go_nftables_portbridge.Nft.Conntrack.{ConntrackIo, ConntrackEntry}

-- The two bits of a `uint8` mask of address families.
pub record Families : Type 0 where
  pub ip4 : Bool
  pub ip6 : Bool

abbrev pub no_families : Families
no_families = record { ip4 = false; ip6 = false }

-- `a & ^b != 0`
abbrev pub beyond : Families → Families → Bool
beyond a b = a.ip4 && not b.ip4 || a.ip6 && not b.ip6

-- `nftAdmissionError`
pub record Admission : Type 0 where
  pub families : Families
  pub permitted : List NftRuleSpec

pub record NftDevice : Type 0 where
  pub name : Text
  pub index : ℤ

pub record NftTopology : Type 0 where
  pub devices : List NftDevice
  pub failed : Bool

abbrev pub no_topology : NftTopology
no_topology = record { devices = []; failed = false }

pub record Backend : Type 0 where
  pub initialized : Bool
  pub recovered : Bool
  pub unknown_state : Bool
  pub clean_verified : Bool
  pub init_failed : Bool
  pub config_failed : Bool
  pub owner_marker : Text
  pub devices_key : Text
  pub fingerprint : Text
  pub applied_spec_key : Text
  pub applied_active_key : Text
  pub disk_binding : Text
  pub disk_session : Bool
  pub pending_topology : NftTopology
  pub topology_ready : Bool
  pub active_specs : List NftRuleSpec
  pub pending_specs : List NftRuleSpec
  pub suspended_specs : List NftRuleSpec
  pub policy_families : Families
  pub metrics_epoch : ℕ

pub record RenderState : Type 0 where
  pub retired : List NftRuleSpec
  pub suspended : List NftRuleSpec
  pub binding : Text
  pub keep_flowtable : Bool

-- What a script is written from: all objects of the table, its journal alone, its rules and journal,
-- or its removal. The text of a script is not modelled.
pub data Script : Type 0 where
  whole_table : List NftRuleSpec → Bool → List Text → RenderState → Script
  journal_only : List NftRuleSpec → List NftRuleSpec → List NftRuleSpec → Text → Script
  chain_refresh : List NftRuleSpec → List NftRuleSpec → List NftRuleSpec → Text → Script
  delete_table : Script

pub record Journal : Type 0 where
  pub active : List NftRuleSpec
  pub retired : List NftRuleSpec
  pub suspended : List NftRuleSpec
  pub binding : Text

pub record Observed (Objects : Type 0) : Type 0 where
  pub exists : Bool
  pub owned : Bool
  pub fingerprint : Text
  pub objects : Objects

-- The record of the recovery file that belongs to the current lifecycle: what it confirms, and
-- whether it is a checkpoint.
pub record DiskRecord : Type 0 where
  pub confirmed : DiskSnapshot
  pub checkpoint : Bool
  pub binding : Text

pub data AdmissionCheck : Type 0 where
  admitted : AdmissionCheck
  rejected : Admission → AdmissionCheck
  unreadable : AdmissionCheck

-- `parse_hex` reads a `uint32` in base 16. The kernel, as nft_state.go, nft_journal.go and nft_recovery.go read it, and the recovery file.
pub record BackendIo : Type 1 where
  pub conntrack : ConntrackIo
  pub Objects : Type 0
  pub observe : conntrack.World → conntrack.World × Option (Observed Objects)
  pub decode_journal : Objects → Text → Option Journal
  pub recover_legacy : Objects → Text → Option (List NftRuleSpec)
  pub has_flowtable : Objects → Bool
  pub state_agrees : Objects → List NftRuleSpec → List Text → Text → RenderState → Bool
  pub apply : Script → conntrack.World → conntrack.World × Bool
  pub collect_topology : conntrack.World → conntrack.World × NftTopology
  pub check_admission : List NftRuleSpec → conntrack.World → conntrack.World × AdmissionCheck
  pub parse_hex : Text → Option ℕ
  pub list_owned : ℕ → conntrack.World → conntrack.World × Option (List ConntrackEntry)
  pub clean_probe : conntrack.World → conntrack.World × Bool
  pub has_store : Bool
  pub check_existing : conntrack.World → conntrack.World × Bool
  pub begin_session : conntrack.World → conntrack.World × Option Bool
  pub disk_record : conntrack.World → Option DiskRecord
  pub bind_session : Text → conntrack.World → conntrack.World × Option Text
  pub prepare : DiskSnapshot → DiskSnapshot → conntrack.World → conntrack.World × Bool
  pub checkpoint : DiskSnapshot → conntrack.World → conntrack.World × Bool

pub data BackendError : Type 0 where
  not_observed foreign_table mismatched_mark invalid_spec no_devices topology_failed : BackendError
  bad_journal intent_refused intent_failed apply_failed not_deleted changed_meanwhile : BackendError
  state_differs checkpoint_failed config_error store_failed recover_failed unbound : BackendError
  recovery_limit not_empty no_conntrack unattributable pending_limit admission_unreadable :
      BackendError
  revocation_incomplete invalid_owner invalid_mark : BackendError
  suspended_admission : Admission → Bool → BackendError

pub data Fallible {ℓ} (A : Type ℓ) : Type ℓ where
  failed : BackendError → Fallible A
  done : A → Fallible A

abbrev pub specs_use_flowtable : List NftRuleSpec → Bool
specs_use_flowtable = any (λ s. s.enable_flowtable)

abbrev pub is_nil : List NftRuleSpec → Bool
is_nil [] = true
is_nil (s ∷ specs) = false

abbrev pub family_in : NftRuleSpec → Families → Bool
family_in s f = if s.family == 6 then f.ip6 else f.ip4

unfoldable pub join : ℕ → List Text → Text
join sep [] = []
join sep (t ∷ []) = t
join sep (t ∷ u ∷ ts) = t ++ sep ∷ join sep (u ∷ ts)

abbrev pub newline : ℕ
newline = 10

abbrev pub owner_prefix : Text
owner_prefix = codes "Go-nftables-portbridge:managed:v1"

abbrev pub device_names : NftTopology → List Text
device_names t = map (λ d. d.name) t.devices

module _ (k : KernelForms) where
  open k use {format_int, format_hex, format_addr}

  abbrev pub owner_marker_for : ℕ → Text
  owner_marker_for mark = owner_prefix ++ b':' ∷ format_hex mark

  unfoldable pub topology_key : NftTopology → Text
  unfolding join
  topology_key t = join 0 (map (λ d. d.name ++ b'#' ∷ format_int d.index) t.devices)

  -- `key` of a rule: unlike the retirement key it has the rule's own identifier and its offload.
  unfoldable pub spec_key : NftRuleSpec → Text
  spec_key s = join bar (
      s.rule_id
      ∷ format_int (pos s.family)
      ∷ format_addr s.listen_host
      ∷ (format_int s.listen_port ++ dash ∷ format_int s.listen_port_end)
      ∷ format_addr s.target_host
      ∷ (format_int s.target_port ++ dash ∷ format_int s.target_port_end)
      ∷ s.protocol
      ∷ format_hex s.conntrack_mark
      ∷ codes (if s.enable_flowtable then "true" else "false")
      ∷ [])

  unfoldable pub nft_specs_key : List NftRuleSpec → Text
  unfolding spec_key join
  nft_specs_key specs = join newline (sort_texts (map spec_key specs))

  unfoldable pub applied_state_key :
      List NftRuleSpec → List NftRuleSpec → List NftRuleSpec → Bool → Text → Text
  unfolding nft_specs_key
  applied_state_key active retired suspended keep_flowtable binding =
      nft_specs_key active
      ++ (codes "\nretired:"
          ++ (nft_specs_key retired
              ++ (codes "\nsuspended:"
                  ++ (nft_specs_key suspended
                      ++ (codes "\nkeep-flowtable:"
                          ++ (codes (if keep_flowtable then "true" else "false")
                              ++ (codes "\nbinding:" ++ binding)))))))

  unfoldable pub selective_scope_covers : NftRuleSpec → NftRuleSpec → Bool
  unfolding nft_rule_identity addr_eq ◌-ℤ◌
  selective_scope_covers allowed actual =
      allowed.enable_flowtable
      && text_eq (nft_rule_identity k allowed) (nft_rule_identity k actual)
      && allowed.family == actual.family
      && text_eq allowed.protocol actual.protocol
      && allowed.conntrack_mark == actual.conntrack_mark
      && addr_eq allowed.listen_host actual.listen_host
      && addr_eq allowed.target_host actual.target_host
      && not (ltb_ℤ actual.listen_port allowed.listen_port)
      && not (ltb_ℤ (nft_last_port allowed) (nft_last_port actual))
      && equal_ℤ (allowed.target_port -ℤ allowed.listen_port)
          (actual.target_port -ℤ actual.listen_port)

  -- A rejection reaches an offloaded rule of its families that no proof permits.
  unfoldable pub affects : Admission → NftRuleSpec → Bool
  unfolding selective_scope_covers
  affects a s =
      s.enable_flowtable
      && family_in s a.families
      && not (any (λ allowed. selective_scope_covers allowed s) a.permitted)

unfoldable pub clear_applied_state : Backend → Backend
clear_applied_state b = record b {
  initialized = false;
  devices_key = [];
  fingerprint = [];
  metrics_epoch = b.metrics_epoch + 1;
  applied_spec_key = [];
  applied_active_key = [];
  active_specs = [];
  pending_specs = [];
  suspended_specs = [];
  topology_ready = false;
}
