-- ===== src/Nft/Backend/Replace.antt =====
-- `Replace`, `retirementState` and their helpers, internal/proxy/nft.go and
-- nft_reconcile.go: the kernel's rules are replaced, and the connections of those that retire are
-- revoked, in an order that leaves no retired path open meanwhile.
use go_nftables_portbridge.Prelude.{
  Bool, true, false, ◌&&◌, ◌||◌, not, List, [], ◌∷◌, ◌++◌, Option, none, some, any, length, ltb,
  if◌then◌else◌,
}
use go_nftables_portbridge.Plan.{NftRuleSpec}
use go_nftables_portbridge.Nft.Keys.{KernelForms, unique_nft_specs}
use go_nftables_portbridge.Nft.Specs.{
  gate_nft_replacements, retired_nft_specs, previously_admitted_nft,
}
use go_nftables_portbridge.Nft.Conntrack.{revoke_nft_connections}
use go_nftables_portbridge.Nft.Backend.{
  Backend, BackendIo, BackendError, Families, no_families, beyond, Admission, AdmissionCheck,
  admitted, rejected, unreadable, affects, specs_use_flowtable, is_nil, config_error, not_empty,
  store_failed, recover_failed, pending_limit, admission_unreadable, no_conntrack,
  revocation_incomplete, suspended_admission, clear_applied_state, Fallible, failed, done,
}
use go_nftables_portbridge.Nft.Backend.Chain.{
  State, M, ◌>>=◌, ◌>>◌, pure, fail, get, set, reject_if, call,
}
use go_nftables_portbridge.Nft.Backend.Install.{replace_objects}
use go_nftables_portbridge.Nft.Backend.Recover.{recover_kernel_state, max_retired_specs}

-- What is let in, what is held back, and why.
pub record Decision : Type 0 where
  pub next : List NftRuleSpec
  pub suspended : List NftRuleSpec
  pub admission : Option Admission

abbrev pub now_unknown : Backend → Backend
now_unknown b = record b { initialized = false; unknown_state = true }

abbrev pub still_unknown : Backend → Backend
still_unknown b = record b { unknown_state = true }

abbrev pub with_pending : List NftRuleSpec → Backend → Backend
with_pending pending b = record b { pending_specs = pending }

abbrev pub policy_of : Option Admission → Families
policy_of none = no_families
policy_of (some a) = a.families

abbrev pub with_policy : Option Admission → Backend → Backend
with_policy admission b = record b { policy_families = policy_of admission }

-- A new lifecycle of the kernel: what an earlier one held is no evidence.
abbrev pub rolled : Backend → Backend
rolled b = record (clear_applied_state b) {
  recovered = false;
  unknown_state = false;
  disk_binding = [];
  policy_families = no_families;
}

abbrev pub verified_empty : Backend → Backend
verified_empty b = record (clear_applied_state b) {
  recovered = true;
  unknown_state = false;
  clean_verified = true;
}

module _ (k : KernelForms) where
  unfoldable pub without_affected : Admission → List NftRuleSpec → List NftRuleSpec
  unfolding affects
  without_affected a [] = []
  without_affected a (s ∷ specs) =
      (if affects k a s then [] else s ∷ []) ++ without_affected a specs

  unfoldable pub only_affected : Admission → List NftRuleSpec → List NftRuleSpec
  unfolding affects
  only_affected a [] = []
  only_affected a (s ∷ specs) = (if affects k a s then s ∷ [] else []) ++ only_affected a specs

  -- The paths of the rules that the plan keeps.
  abbrev pub kept_of : List NftRuleSpec → List NftRuleSpec → List NftRuleSpec
  kept_of old specs = gate_nft_replacements old (retired_nft_specs k old specs)

  -- A rejection that reaches a family or an active rule anew evicts what is offloaded: the objects
  -- are rebuilt.
  abbrev pub evict : Admission → List NftRuleSpec → Backend → Backend
  evict a specs b = record b {
    initialized =
        b.initialized
        && not (beyond a.families b.policy_families)
        && not (any (affects k a) (kept_of b.active_specs specs));
  }

  module _ (io : BackendIo) where
    open io use {conntrack, Objects}
    open conntrack use {World}

    unfoldable pub on_admission :
        List NftRuleSpec → List NftRuleSpec → AdmissionCheck → M World Decision
    unfolding without_affected only_affected gate_nft_replacements retired_nft_specs
    on_admission specs history admitted =
        pure (record { next = specs; suspended = []; admission = none })
    on_admission specs history unreadable = fail admission_unreadable
    on_admission specs history (rejected a) =
        set (evict a specs)
        >> pure (record {
          next = without_affected a specs;
          suspended = only_affected a (kept_of history specs);
          admission = some a;
        })

    unfoldable pub decide : List NftRuleSpec → List NftRuleSpec → M World Decision
    unfolding on_admission
    decide specs history =
        if specs_use_flowtable specs
        then call (io.check_admission specs) >>= on_admission specs history
        else pure (record { next = specs; suspended = []; admission = none })

    -- The gate, then the revocation. Rules that are let in keep clear of the pending ones.
    unfoldable pub stage_retirement :
        List NftRuleSpec → List NftRuleSpec → Bool → Decision → M World (Unit {0})
    unfolding replace_objects gate_nft_replacements revoke_nft_connections
    stage_retirement next [] keep d = pure tt
    stage_retirement next (p ∷ pending) keep d = do
      replace_objects k io (gate_nft_replacements next (p ∷ pending)) (p ∷ pending) keep d.suspended
      set (with_policy d.admission)
      revoked ← call (revoke_nft_connections conntrack (p ∷ pending))
      reject_if (not revoked) revocation_incomplete

    abbrev pub settled : Bool → Option Admission → Backend → Backend
    settled dependency_missing admission b = record b {
      pending_specs = [];
      unknown_state = dependency_missing;
      policy_families = policy_of admission;
    }

    unfoldable pub conclude : Bool → Option Admission → M World (Unit {0})
    conclude dependency_missing none = reject_if dependency_missing no_conntrack
    conclude dependency_missing (some a) = fail (suspended_admission a dependency_missing)

    unfoldable pub reject_limit : List NftRuleSpec → M World (Unit {0})
    reject_limit pending =
        if ltb max_retired_specs (length pending)
        then set (with_pending pending) >> fail pending_limit
        else pure tt

    -- Everything from the decision on what retires, given the state that was recovered.
    unfoldable pub retire_and_install :
        List NftRuleSpec → List NftRuleSpec → List NftRuleSpec → M World (Unit {0})
    unfolding decide stage_retirement replace_objects previously_admitted_nft reject_limit conclude
    retire_and_install specs history pending = do
      reject_limit pending
      d ← decide specs history
      ready ← call (λ w. (w, conntrack.available w))
      b ← get
      let next = if ready then d.next else previously_admitted_nft k d.next b.active_specs
      reject_if (not ready && is_nil history && is_nil pending) no_conntrack
      set (with_pending pending)
      let keep = specs_use_flowtable next
      stage_retirement next pending keep d
      replace_objects k io next [] keep d.suspended
      set (settled (not ready) d.admission)
      conclude (not ready) d.admission

    unfoldable pub replace_known : List NftRuleSpec → M World (Unit {0})
    unfolding retire_and_install unique_nft_specs retired_nft_specs
    replace_known specs = do
      b ← get
      let history = unique_nft_specs k (b.active_specs ++ b.suspended_specs)
      retire_and_install specs history
          (unique_nft_specs k (b.pending_specs ++ retired_nft_specs k history specs))

    -- An error of a step, under another name and with the state no longer known.
    abbrev pub or_unknown :
        BackendError → State World × Fallible (Unit {0}) → State World × Fallible (Unit {0})
    or_unknown e ((b, w), failed x) = ((now_unknown b, w), failed e)
    or_unknown e (s, done u) = (s, done u)

    unfoldable pub recover_first : List NftRuleSpec → M World (Unit {0})
    unfolding recover_kernel_state
    recover_first specs s = or_unknown recover_failed (recover_kernel_state k io specs s)

    unfoldable pub open_session : M World (Unit {0})
    open_session = if not io.has_store then pure tt else do
      o ← call io.begin_session
      elim o [
        | none ↦ set now_unknown >> fail store_failed
        | some new_boot ↦
            set (λ b. record (if new_boot then rolled b else b) { disk_session = true })
      ]

    -- Without the nft tool an empty plan needs an independent proof that nothing is left.
    unfoldable pub verify_empty : M World (Unit {0})
    unfolding clear_applied_state
    verify_empty = do
      set (λ b. record b { clean_verified = false })
      known ← call (if io.has_store then io.check_existing else λ w. (w, true))
      if known then pure tt else (set still_unknown >> fail store_failed)
      empty ← call io.clean_probe
      if empty
          then set verified_empty
          else (set (λ b. record b { unknown_state = true; recovered = false }) >> fail not_empty)

    -- `defer`: the session is closed however the step ends.
    abbrev pub close_session : State World × Fallible (Unit {0}) → State World × Fallible (Unit {0})
    close_session ((b, w), r) = ((record b { disk_session = false }, w), r)

    unfoldable pub replace : List NftRuleSpec → M World (Unit {0})
    unfolding open_session recover_first replace_known verify_empty
    replace specs s =
        (get >>= λ b.
        if b.config_failed && not (is_nil specs)
        then fail config_error
        else if b.init_failed && is_nil specs
        then verify_empty
        else set (λ c. record c { clean_verified = false }) >> λ t.
            close_session ((open_session >> (recover_first specs >> replace_known specs)) t))
          s

    abbrev pub delete_all : M World (Unit {0})
    delete_all = replace []

-- `retirementState`
pub record RetirementState : Type 0 where
  pub active : List NftRuleSpec
  pub pending : List NftRuleSpec
  pub suspended : List NftRuleSpec
  pub verified : Bool
  pub unknown : Bool

unfoldable pub retirement_state : Backend → RetirementState
retirement_state b = record {
  active = b.active_specs;
  pending = b.pending_specs;
  suspended = b.suspended_specs;
  verified = b.initialized || b.clean_verified;
  unknown = b.unknown_state || not b.recovered;
}
