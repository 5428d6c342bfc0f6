-- ===== src/Nft/Backend/Recover.antt =====
-- `resolveNFTIdentities` (nft_recovery.go) and `recoverKernelState` (nft_reconcile.go) of
-- internal/proxy: what the backend takes over of what it or another process left in the kernel.
use go_nftables_portbridge.Prelude.{
  ℕ, zero, suc, ◌+◌, Bool, true, false, ◌&&◌, ◌||◌, not, List, [], ◌∷◌, ◌++◌, map, Option, none,
  some, any, length, ltb, ◌==◌, if◌then◌else◌,
}
use go_nftables_portbridge.Text.{Text, text_eq, is_empty}
use go_nftables_portbridge.Text.Maps.{find_text}
use go_nftables_portbridge.Plan.{NftRuleSpec}
use go_nftables_portbridge.Nft.Keys.{KernelForms, nft_rule_identity, unique_nft_specs}
use go_nftables_portbridge.Nft.Conntrack.{ConntrackEntry, conntrack_matches_spec}
use go_nftables_portbridge.Nft.Disk.{specs_of, disk_snapshot, same_disk_snapshot}
use go_nftables_portbridge.Nft.Backend.{
  Backend, BackendIo, Observed, DiskRecord, Families, RenderState, foreign_table, bad_journal,
  unbound, recovery_limit, no_conntrack, unattributable, device_names, topology_key, nft_specs_key,
  applied_state_key, is_nil, owner_prefix, invalid_owner, invalid_mark,
}
use go_nftables_portbridge.Nft.Backend.Chain.{
  M, ◌>>=◌, ◌>>◌, pure, fail, get, set, reject_if, call, or_fail,
}
use go_nftables_portbridge.Nft.Backend.Install.{observed_now, topology_for, topology_used}

-- `maxNFTRetiredSpecs`
abbrev pub max_retired_specs : ℕ
max_retired_specs = 16384

abbrev pub starts_with : Text → Text → Bool
starts_with s [] = true
starts_with [] (d ∷ t) = false
starts_with (c ∷ s) (d ∷ t) = c == d && starts_with s t

-- What stands behind a prefix that a text starts with.
abbrev trim_prefix : Text → Text → Text
trim_prefix [] s = s
trim_prefix (d ∷ prefix) [] = []
trim_prefix (d ∷ prefix) (c ∷ s) = trim_prefix prefix s

-- A short identity of 13 characters, the letter l and the start of a full one.
abbrev pub short_of : Text → Text → Bool
short_of full [] = false
short_of full (c ∷ rest) = length (c ∷ rest) == 13 && c == b'l' && starts_with full rest

abbrev pub text_or_empty : Option Text → Text
text_or_empty none = []
text_or_empty (some t) = t

abbrev pub is_none {ℓ} : {A : Type ℓ} → Option A → Bool
is_none none = true
is_none (some a) = false

-- The rules a process knows: those that it holds, those on disk and those of the kernel's journal.
pub record Known : Type 0 where
  pub active : List NftRuleSpec
  pub pending : List NftRuleSpec
  pub suspended : List NftRuleSpec
  pub known : List NftRuleSpec
  pub binding : Text

abbrev pub names_nothing : Known → Bool
names_nothing n = is_nil n.active && is_nil n.pending && is_nil n.suspended

abbrev pub taken_over : Bool → Known → Backend → Backend
taken_over unknown n b = record b {
  active_specs = n.active;
  pending_specs = n.pending;
  suspended_specs = n.suspended;
  recovered = true;
  unknown_state = unknown;
  initialized = false;
}

unfoldable pub families_of : List NftRuleSpec → Families → Families
families_of [] f = f
families_of (s ∷ specs) f = families_of specs (
    if s.family == 4
    then record f { ip4 = true }
    else if s.family == 6
    then record f { ip6 = true }
    else f)

-- Each connection that carries the mark belongs to a rule.
unfoldable pub all_attributed : List ConntrackEntry → List NftRuleSpec → Bool
unfolding conntrack_matches_spec
all_attributed [] history = true
all_attributed (e ∷ entries) history =
    any (conntrack_matches_spec e) history && all_attributed entries history

module _ (k : KernelForms) where
  -- The full identities that an identity may stand for, each with the first rule that has it.
  unfoldable pub candidates_for : Text → List NftRuleSpec → List (Text × Text) → List (Text × Text)
  unfolding nft_rule_identity
  candidates_for id [] found = found
  candidates_for id (want ∷ desired) found =
      let full = nft_rule_identity k want in
      let fresh : Bool = elim (find_text full found) [ none ↦ true | some r ↦ false ] in
      candidates_for id desired (
        if (text_eq full id || short_of full id) && fresh
        then found ++ (full, want.rule_id) ∷ []
        else found)

  abbrev pub named_by : NftRuleSpec → List (Text × Text) → NftRuleSpec
  named_by s ((full, raw) ∷ []) = record s { rule_id = raw; rule_identity = full }
  named_by s _ = s

  unfoldable pub resolve_identities : List NftRuleSpec → List NftRuleSpec → List NftRuleSpec
  unfolding candidates_for
  resolve_identities specs desired =
      map (λ s. named_by s (candidates_for (nft_rule_identity k s) desired [])) specs

  module _ (io : BackendIo) where
    open io use {conntrack, Objects}
    open conntrack use {World}

    -- Nothing has changed since the state was taken over.
    unfoldable pub nothing_changed : Backend → Observed Objects → Option DiskRecord → Bool
    nothing_changed b state disk =
        b.recovered
        && b.initialized
        && state.exists
        && text_eq state.fingerprint b.fingerprint
        && (not b.disk_session
            || elim disk [ none ↦ false | some r ↦ text_eq b.disk_binding r.binding ])

    -- An intent on disk is no evidence: only what its record confirms is taken over.
    unfoldable pub from_disk : List NftRuleSpec → Backend → Option DiskRecord → Known
    unfolding unique_nft_specs specs_of
    from_disk desired b none = record {
      active = unique_nft_specs k b.active_specs;
      pending = unique_nft_specs k b.pending_specs;
      suspended = unique_nft_specs k b.suspended_specs;
      known = desired ++ (b.active_specs ++ b.suspended_specs);
      binding = [];
    }
    from_disk desired b (some r) =
        let active = specs_of r.confirmed.active in
        let pending = specs_of r.confirmed.pending in
        let suspended = specs_of r.confirmed.suspended in
        record {
          active = unique_nft_specs k (unique_nft_specs k b.active_specs ++ active);
          pending = unique_nft_specs k (unique_nft_specs k b.pending_specs ++ pending);
          suspended = unique_nft_specs k (unique_nft_specs k b.suspended_specs ++ suspended);
          known =
              desired
              ++ (b.active_specs ++ (b.suspended_specs ++ (active ++ (pending ++ suspended))));
          binding = [];
        }

    unfoldable pub from_kernel : Observed Objects → Known → M World Known
    unfolding resolve_identities unique_nft_specs
    from_kernel state n = if not state.exists then pure n else do
      b ← get
      journal ← or_fail bad_journal (io.decode_journal state.objects b.owner_marker)
      legacy ← or_fail bad_journal (io.recover_legacy state.objects b.owner_marker)
      let known = n.known ++ journal.active
      pure (record {
        active = unique_nft_specs k (
            n.active
            ++ (resolve_identities journal.active known ++ resolve_identities legacy known));
        pending = unique_nft_specs k (n.pending ++ resolve_identities journal.retired known);
        suspended = unique_nft_specs k (n.suspended ++ resolve_identities journal.suspended known);
        known = known;
        binding = journal.binding;
      })

    abbrev pub resolved : Known → Known
    resolved n = record n {
      active = resolve_identities n.active n.known;
      pending = resolve_identities n.pending n.known;
      suspended = resolve_identities n.suspended n.known;
    }

    unfoldable pub bind : Text → M World (Unit {0})
    bind binding = do
      b ← get
      if b.disk_session
          then (call (io.bind_session binding) >>= λ o.
              set (λ c. record c { disk_binding = text_or_empty o })
              >> reject_if (is_none o) unbound)
          else reject_if (not (is_empty binding)) unbound

    -- The mark behind the prefix of an owner's marker.
    abbrev pub nonzero_mark : Option ℕ → M World ℕ
    nonzero_mark none = fail invalid_mark
    nonzero_mark (some zero) = fail invalid_mark
    nonzero_mark (some (suc mark)) = pure (suc mark)

    unfoldable pub configured_mark : M World ℕ
    configured_mark = do
      b ← get
      let prefix = owner_prefix ++ b':' ∷ []
      reject_if (not (starts_with b.owner_marker prefix)) invalid_owner
      nonzero_mark (io.parse_hex (trim_prefix prefix b.owner_marker))

    -- The connections of the instance's mark all belong to a rule that is known.
    unfoldable pub attribute : Known → M World (Unit {0})
    unfolding configured_mark all_attributed unique_nft_specs
    attribute n = do
      mark ← configured_mark
      o ← call (io.list_owned mark)
      entries ← or_fail unattributable o
      reject_if
          (not
            (all_attributed entries (unique_nft_specs k (n.active ++ (n.pending ++ n.suspended)))))
          unattributable

    -- A table that agrees with a durable checkpoint is adopted as it stands.
    unfoldable pub adopt : Observed Objects → Known → Option DiskRecord → M World (Unit {0})
    unfolding topology_for nft_specs_key applied_state_key topology_key families_of
        same_disk_snapshot disk_snapshot
    adopt state n disk = do
      b ← get
      let durable = not b.disk_session || elim disk [
        | none ↦ false
        | some r ↦
            r.checkpoint
            && same_disk_snapshot r.confirmed (disk_snapshot k n.active n.pending n.suspended)
      ]
      if not (state.exists && durable) then pure tt else do
        let flow = io.has_flowtable state.objects
        t ← topology_for k io flow
        set topology_used
        c ← get
        let expected : RenderState = record {
          retired = n.pending;
          suspended = n.suspended;
          binding = c.disk_binding;
          keep_flowtable = flow;
        }
        if not t.failed
              && io.state_agrees state.objects n.active (device_names t) c.owner_marker expected
            then set (λ d. record d {
              initialized = true;
              fingerprint = state.fingerprint;
              devices_key = topology_key k t;
              applied_active_key = nft_specs_key k n.active;
              applied_spec_key =
                  applied_state_key k n.active n.pending n.suspended flow c.disk_binding;
              policy_families = families_of n.suspended d.policy_families;
            })
            else pure tt

    -- Without the conntrack tool old rules are taken over as unknown, and none of them is only if a
    -- probe of the kernel finds it empty.
    unfoldable pub take_over : Observed Objects → Known → Option DiskRecord → M World (Unit {0})
    unfolding attribute adopt
    take_over state n disk s =
        if conntrack.available s.1
        then (attribute n >> (set (taken_over false n) >> adopt state n disk)) s
        else if names_nothing n
        then (call io.clean_probe >>= λ empty.
              reject_if (not empty) no_conntrack
              >> (set (taken_over false n) >> adopt state n disk))
            s
        else set (taken_over true n) s

    unfoldable pub recover_kernel_state : List NftRuleSpec → M World (Unit {0})
    unfolding observed_now nothing_changed from_disk from_kernel bind take_over resolve_identities
    recover_kernel_state desired s =
        let disk = io.disk_record s.1 in
        (observed_now k io >>= λ state.
        reject_if (state.exists && not state.owned) foreign_table
        >> (get >>= λ b.
            if nothing_changed b state disk
            then pure tt
            else (from_kernel state (from_disk desired b disk) >>= λ n.
                bind n.binding
                >> (let r = resolved n in
                    reject_if
                      (ltb max_retired_specs
                        (length r.active + length r.pending + length r.suspended))
                      recovery_limit
                    >> take_over state r disk))))
          s
