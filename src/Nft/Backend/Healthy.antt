-- ===== src/Nft/Backend/Healthy.antt =====
-- `Healthy` of internal/proxy/nft.go: whether the kernel's table is the one that was installed.
use go_nftables_portbridge.Prelude.{
  Bool, true, false, ◌&&◌, ◌||◌, not, List, none, some, if◌then◌else◌,
}
use go_nftables_portbridge.Text.{text_eq}
use go_nftables_portbridge.Plan.{NftRuleSpec}
use go_nftables_portbridge.Nft.Keys.{KernelForms}
use go_nftables_portbridge.Nft.Backend.{
  BackendIo, AdmissionCheck, admitted, rejected, unreadable, specs_use_flowtable, is_nil,
  config_error, admission_unreadable, suspended_admission, topology_key, nft_specs_key, Observed,
  not_observed, foreign_table, topology_failed,
}
use go_nftables_portbridge.Nft.Backend.Chain.{M, ◌>>=◌, ◌>>◌, pure, fail, get, set, reject_if, call}
use go_nftables_portbridge.Nft.Backend.Install.{topology_for, topology_used}
use go_nftables_portbridge.Nft.Backend.Replace.{still_unknown, verify_empty}

module _ (k : KernelForms) where
  module _ (io : BackendIo) where
    open io use {conntrack, Objects}
    open conntrack use {World}

    -- The tests on the state that is read, and the comparison with the applied plan.
    unfoldable pub same_as_applied : List NftRuleSpec → Observed Objects → M World Bool
    unfolding topology_for topology_key nft_specs_key
    same_as_applied specs state = do
      t ← topology_for k io (specs_use_flowtable specs)
      reject_if t.failed topology_failed
      b ← get
      let healthy =
          state.exists
          && b.initialized
          && text_eq b.applied_active_key (nft_specs_key k specs)
          && text_eq b.devices_key (topology_key k t)
          && text_eq b.fingerprint state.fingerprint
      set (λ c. if healthy then topology_used c else c)
      pure healthy

    abbrev pub on_check : AdmissionCheck → M World (Unit {0})
    on_check admitted = pure tt
    on_check (rejected a) = fail (suspended_admission a false)
    on_check unreadable = set still_unknown >> fail admission_unreadable

    unfoldable pub healthy_installed : List NftRuleSpec → M World Bool
    unfolding same_as_applied
    healthy_installed specs = do
      set (λ b. record b { clean_verified = false })
      o ← call io.observe
      state ← (elim o [ none ↦ set still_unknown >> fail not_observed | some x ↦ pure x ])
      if state.exists && not state.owned then set still_unknown >> fail foreign_table else pure tt
      if specs_use_flowtable specs then call (io.check_admission specs) >>= on_check else pure tt
      b ← get
      if not b.recovered
            || not (is_nil b.pending_specs)
            || not (is_nil b.suspended_specs)
            || b.unknown_state
          then pure false
          else if is_nil specs
          then set topology_used >> pure (not state.exists)
          else same_as_applied specs state

    unfoldable pub healthy : List NftRuleSpec → M World Bool
    unfolding healthy_installed verify_empty
    healthy specs = do
      b ← get
      reject_if b.config_failed config_error
      if b.init_failed && is_nil specs
          then (if b.clean_verified then verify_empty k io >> pure true else pure false)
          else healthy_installed specs
