-- ===== src/Nft/Backend/Install.antt =====
-- `replaceObjects`, `topologyForFlowtable` of internal/proxy/nft.go: one transaction on the kernel's
-- table, between an intent and a checkpoint in the recovery file.
use go_nftables_portbridge.Prelude.{
  ◌+◌, Bool, true, false, ◌&&◌, ◌||◌, not, List, [], ◌∷◌, ◌++◌, Option, none, some, ◌==◌,
  if◌then◌else◌,
}
use go_nftables_portbridge.Text.{Text, text_eq}
use go_nftables_portbridge.Plan.{NftRuleSpec}
use go_nftables_portbridge.Nft.Keys.{KernelForms, unique_nft_specs, valid_retirement_spec}
use go_nftables_portbridge.Nft.Specs.{
  gate_nft_replacements, retired_nft_specs, previously_admitted_nft,
}
use go_nftables_portbridge.Nft.Disk.{DiskSnapshot, empty_snapshot, disk_snapshot}
use go_nftables_portbridge.Nft.Backend.{
  Backend, BackendIo, not_observed, foreign_table, mismatched_mark, invalid_spec, no_devices,
  topology_failed, bad_journal, intent_refused, intent_failed, apply_failed, not_deleted,
  changed_meanwhile, state_differs, checkpoint_failed, Observed, NftDevice, NftTopology,
  no_topology, RenderState, Script, whole_table, journal_only, chain_refresh, delete_table, is_nil,
  specs_use_flowtable, owner_marker_for, topology_key, nft_specs_key, applied_state_key,
  clear_applied_state, device_names,
}
use go_nftables_portbridge.Nft.Backend.Chain.{
  M, ◌>>=◌, ◌>>◌, pure, fail, get, set, reject_if, call, or_fail,
}

-- What is to be installed, and how it compares with what is.
pub record Goal : Type 0 where
  pub specs : List NftRuleSpec
  pub retired : List NftRuleSpec
  pub suspended : List NftRuleSpec
  pub keep_flowtable : Bool
  pub topology : NftTopology
  pub key : Text
  pub can_refresh : Bool
  pub intent_lost : Bool

abbrev pub nothing_to_install : Goal → Bool
nothing_to_install g = is_nil g.specs && is_nil g.retired && is_nil g.suspended

abbrev pub holds_nothing : Backend → Bool
holds_nothing b = is_nil b.active_specs && is_nil b.pending_specs && is_nil b.suspended_specs

abbrev pub not_initialized : Backend → Backend
not_initialized b = record b { initialized = false }

abbrev pub topology_used : Backend → Backend
topology_used b = record b { topology_ready = false }

abbrev pub render_of : Backend → Goal → RenderState
render_of b g = record {
  retired = g.retired;
  suspended = g.suspended;
  binding = b.disk_binding;
  keep_flowtable = g.keep_flowtable;
}

-- The objects that are installed are those that the backend knows of.
abbrev pub refreshable : Backend → Bool → Text → Text → Text → Bool
refreshable b exists key fingerprint binding =
    exists
    && b.initialized
    && text_eq b.devices_key key
    && text_eq fingerprint b.fingerprint
    && text_eq binding b.disk_binding

abbrev pub first_goal :
    List NftRuleSpec → List NftRuleSpec → List NftRuleSpec → Bool → NftTopology → Text → Bool → Goal
first_goal specs retired suspended keep t key can_refresh = record {
  specs = specs;
  retired = retired;
  suspended = suspended;
  keep_flowtable = keep;
  topology = t;
  key = key;
  can_refresh = can_refresh;
  intent_lost = false;
}

abbrev pub has_no_device : List NftDevice → Bool
has_no_device [] = true
has_no_device (d ∷ devices) = false

abbrev pub collected : NftTopology → Backend → Backend
collected t b = record b { pending_topology = t; topology_ready = true }

module _ (k : KernelForms) (io : BackendIo) where
  open io use {conntrack, Objects}
  open conntrack use {World}

  abbrev pub confirmed_of : Backend → DiskSnapshot
  confirmed_of b = disk_snapshot k b.active_specs b.pending_specs b.suspended_specs

  abbrev pub target_of : Goal → DiskSnapshot
  target_of g = disk_snapshot k g.specs g.retired g.suspended

  unfoldable pub topology_for : Bool → M World NftTopology
  topology_for false = pure no_topology
  topology_for true = do
    b ← get
    if b.topology_ready
        then pure b.pending_topology
        else do t ← call io.collect_topology; set (collected t); pure t

  -- The rules have the mark of the instance and are valid ones.
  unfoldable pub check_specs : List NftRuleSpec → M World (Unit {0})
  unfolding valid_retirement_spec
  check_specs [] = pure tt
  check_specs (s ∷ specs) = do
    b ← get
    reject_if
        (s.conntrack_mark == 0
          || not (text_eq (owner_marker_for k s.conntrack_mark) b.owner_marker))
        mismatched_mark
    reject_if (not (valid_retirement_spec s)) invalid_spec
    check_specs specs

  unfoldable pub observed_now : M World (Observed Objects)
  observed_now = do o ← call io.observe; or_fail not_observed o

  -- A reading after a change: where it fails, the state is no longer known.
  unfoldable pub on_reading : Option (Observed Objects) → M World (Observed Objects)
  on_reading none = set not_initialized >> fail not_observed
  on_reading (some s) = pure s

  unfoldable pub observed_again : M World (Observed Objects)
  unfolding on_reading
  observed_again = call io.observe >>= on_reading

  unfoldable pub devices_for : Bool → M World NftTopology
  unfolding topology_for
  devices_for needed = do
    t ← topology_for needed
    set topology_used
    reject_if t.failed topology_failed
    reject_if (needed && has_no_device t.devices) no_devices
    pure t

  -- The intent could not be written: nothing new is admitted, and all that was pending stays so.
  unfoldable pub without_intent : Goal → M World Goal
  unfolding topology_for previously_admitted_nft unique_nft_specs retired_nft_specs
      gate_nft_replacements topology_key applied_state_key
  without_intent g = do
    b ← get
    let specs = previously_admitted_nft k g.specs b.active_specs
    let retired =
        unique_nft_specs k
          (b.pending_specs ++ (g.retired ++ retired_nft_specs k b.active_specs specs))
    let suspended = gate_nft_replacements g.suspended retired
    let keep = specs_use_flowtable specs
    t ← topology_for keep
    set topology_used
    reject_if t.failed topology_failed
    reject_if (holds_nothing b) intent_refused
    pure (record {
      specs = specs;
      retired = retired;
      suspended = suspended;
      keep_flowtable = keep;
      topology = t;
      key = applied_state_key k specs retired suspended keep b.disk_binding;
      can_refresh = g.can_refresh && text_eq b.devices_key (topology_key k t);
      intent_lost = true;
    })

  unfoldable pub with_intent : Goal → M World Goal
  unfolding without_intent disk_snapshot
  with_intent g = do
    b ← get
    if not b.disk_session then pure g else do
      written ← call (io.prepare (confirmed_of b) (target_of g))
      if written then pure g else without_intent g

  -- The checkpoint; a lost intent is the error that is left in its place.
  unfoldable pub confirm : Goal → DiskSnapshot → (Backend → Backend) → M World (Unit {0})
  confirm g snapshot unconfirmed = do
    reject_if g.intent_lost intent_failed
    b ← get
    if not b.disk_session then pure tt else do
      written ← call (io.checkpoint snapshot)
      if written then pure tt else (set unconfirmed >> fail checkpoint_failed)

  unfoldable pub delete_owned : Bool → M World (Unit {0})
  unfolding observed_again
  delete_owned false = pure tt
  delete_owned true = do
    applied ← call (io.apply delete_table)
    reject_if (not applied) apply_failed
    o ← observed_again
    if o.exists then (set not_initialized >> fail not_deleted) else pure tt

  unfoldable pub remove_all : Goal → Bool → M World (Unit {0})
  unfolding delete_owned confirm clear_applied_state
  remove_all g exists = do
    delete_owned exists
    set clear_applied_state
    confirm g empty_snapshot (λ b. b)

  unfoldable pub script_for : Backend → Goal → Bool → Script
  unfolding nft_specs_key
  script_for b g exists =
      if g.can_refresh
      then (if text_eq b.applied_active_key (nft_specs_key k g.specs)
          then journal_only g.specs g.retired g.suspended b.disk_binding
          else chain_refresh g.specs g.retired g.suspended b.disk_binding)
      else whole_table g.specs exists (device_names g.topology) (render_of b g)

  unfoldable pub installed : Goal → Text → Backend → Backend
  unfolding topology_key nft_specs_key
  installed g fingerprint b = record b {
    initialized = true;
    devices_key = topology_key k g.topology;
    fingerprint = fingerprint;
    metrics_epoch = b.metrics_epoch + 1;
    applied_spec_key = g.key;
    applied_active_key = nft_specs_key k g.specs;
    active_specs = g.specs;
    pending_specs = g.retired;
    suspended_specs = g.suspended;
  }

  unfoldable pub install : Goal → Bool → M World (Unit {0})
  unfolding script_for installed observed_again confirm disk_snapshot
  install g exists = do
    b ← get
    applied ← call (io.apply (script_for b g exists))
    reject_if (not applied) apply_failed
    o ← observed_again
    if o.exists && o.owned then pure tt else (set not_initialized >> fail changed_meanwhile)
    if io.state_agrees o.objects g.specs (device_names g.topology) b.owner_marker (render_of b g)
        then pure tt
        else (set not_initialized >> fail state_differs)
    set (installed g o.fingerprint)
    confirm g (target_of g) not_initialized

  unfoldable pub carry_out : Goal → Bool → M World (Unit {0})
  unfolding with_intent remove_all install
  carry_out goal exists = do
    g ← with_intent goal
    if nothing_to_install g then remove_all g exists else install g exists

  -- Nothing to do, nothing to clear in the kernel, or a transaction.
  unfoldable pub act : Goal → Bool → Backend → M World (Unit {0})
  unfolding carry_out clear_applied_state
  act goal exists b =
      if goal.can_refresh && text_eq goal.key b.applied_spec_key
      then pure tt
      else if not exists && nothing_to_install goal && not b.disk_session
      then set clear_applied_state
      else carry_out goal exists

  unfoldable pub replace_objects :
      List NftRuleSpec → List NftRuleSpec → Bool → List NftRuleSpec → M World (Unit {0})
  unfolding observed_now check_specs devices_for unique_nft_specs topology_key applied_state_key act
  replace_objects specs retired keep suspended = do
    state ← observed_now
    reject_if (state.exists && not state.owned) foreign_table
    check_specs (unique_nft_specs k (specs ++ (retired ++ suspended)))
    t ← devices_for (specs_use_flowtable specs || keep)
    b ← get
    journal ← or_fail bad_journal (io.decode_journal state.objects b.owner_marker)
    let key = applied_state_key k specs retired suspended keep b.disk_binding
    let can_refresh =
        refreshable b state.exists (topology_key k t) state.fingerprint journal.binding
    let goal = first_goal specs retired suspended keep t key can_refresh
    act goal state.exists b
