-- ===== src/Plan/Targets.antt =====
-- `buildPlan` of internal/proxy/plan.go: the kernel rules of a whole plan and where they forward to.
use go_nftables_portbridge.Prelude.{
  ◌≡◌, refl, ◌⊎◌, inl, inr, Bool, true, false, not, List, [], ◌∷◌, All, if◌then◌else◌, Bool-cases,
}
use go_nftables_portbridge.Text.{Text, is_empty}
use go_nftables_portbridge.Netip.{Addr}
use go_nftables_portbridge.Netip.Forms.{Forms}
use go_nftables_portbridge.Config.{Rule}
use go_nftables_portbridge.Config.Normalize.{normalize_rule, last_listen_port, last_target_port}
use go_nftables_portbridge.Config.Targets.{validate_target_address}
use go_nftables_portbridge.Plan.Resolve.{Cache, ResolveError}
use go_nftables_portbridge.Plan.Resolve.Policy.{Passes, Safe, resolve_host-Safe}
use go_nftables_portbridge.Plan.{NftRuleSpec, ForwardingPlan, empty_plan}
use go_nftables_portbridge.Plan.Build.{
  Context, with_backup, with_target, plan_rule, plan_rules, build_plan,
}
use go_nftables_portbridge.Plan.Kernel.{Forwards, plan_resolved-Fine}

module _ (forms : Forms) where
  -- The backup's address in the rule changes nothing for the policy.
  abbrev with_backup_host : Text → Rule → Rule
  with_backup_host b r = record r { backup_target_host = b }

  Passes-backup :
      (b : Text) (r : Rule) (addresses : List Addr)
      → All (Passes forms r) addresses
      → All (Passes forms (with_backup_host b r)) addresses
  unfolding validate_target_address
  Passes-backup b r [] h = tt
  Passes-backup b r (a ∷ addresses) (p, h) = (p, Passes-backup b r addresses h)

  Forwards-backup :
      (b : Text) (r : Rule) (s : NftRuleSpec)
      → Forwards forms (with_backup_host b r) s
      → Forwards forms r s
  unfolding validate_target_address last_listen_port last_target_port
  Forwards-backup b r s f = record {
    same_rule = f.same_rule;
    same_port = f.same_port;
    passes = f.passes;
    one_family = f.one_family;
    no_zone = f.no_zone;
    not_loopback = f.not_loopback;
    listens = f.listens;
    same_ports = f.same_ports;
    protocol = f.protocol;
  }

  module _ (context : Context) (P : NftRuleSpec → Type 0) where
    with_backup-Fine :
        (r : Rule) (addresses : List Addr) (p : ForwardingPlan)
        (x : Cache × (ResolveError ⊎ List Addr))
        → ((s : NftRuleSpec) → Forwards forms r s → P s)
        → All (Passes forms r) addresses
        → All P p.nft_specs
        → All P (with_backup forms context r addresses p x).1.nft_specs
    with_backup-Fine r addresses p (cache, inl e) good all h = h
    with_backup-Fine r addresses p (cache, inr []) good all h =
        plan_resolved-Fine forms context r P good addresses p all h
    with_backup-Fine r addresses p (cache, inr (b ∷ rest)) good all h =
        plan_resolved-Fine forms context (with_backup_host (forms.format_addr b) r) P
          (λ s f. good s (Forwards-backup (forms.format_addr b) r s f)) addresses p
          (Passes-backup (forms.format_addr b) r addresses all) h

    with_target-Fine :
        (r : Rule) (p : ForwardingPlan) (x : Cache × (ResolveError ⊎ List Addr))
        → ((s : NftRuleSpec) → Forwards forms r s → P s)
        → Safe forms r x.1
        → All P p.nft_specs
        → All P (with_target forms context r p x).1.nft_specs
    with_target-Fine r p (cache, inl e) good safe h = h
    with_target-Fine r p (cache, inr addresses) good (all, some_left) h =
        elim (Bool-cases (is_empty r.backup_target_host)) [
          | inl alone ↦ rw alone (plan_resolved-Fine forms context r P good addresses p all h)
          | inr backed ↦ rw backed (with_backup-Fine r addresses p _ good all h)
        ]

    plan_rule-Fine :
        (r : Rule) (s : Cache × ForwardingPlan)
        → (r.enabled ≡ true → (t : NftRuleSpec) → Forwards forms r t → P t)
        → All P s.1.nft_specs
        → All P (plan_rule forms context r s).1.nft_specs
    unfolding plan_rule
    plan_rule-Fine r (cache, p) good h = chosen r.enabled _ _ h (λ on.
        with_target-Fine r p _ (good on)
          (resolve_host-Safe forms r context.lookup context.allow_cached_dns context.now
            r.target_host r.id cache)
          h)
      where
        chosen :
            (b : Bool) (x y : Cache × ForwardingPlan)
            → All P x.1.nft_specs
            → (b ≡ true → All P y.1.nft_specs)
            → All P (if not b then x else y).1.nft_specs
        chosen true x y h k = k refl
        chosen false x y h k = h

    plan_rules-Fine :
        (Q : Rule → Type 0) (rules : List Rule) (s : Cache × ForwardingPlan)
        → ((raw : Rule)
            → Q raw
            → (normalize_rule forms raw).enabled ≡ true
            → (t : NftRuleSpec) → Forwards forms (normalize_rule forms raw) t
            → P t)
        → All Q rules
        → All P s.1.nft_specs
        → All P (plan_rules forms context rules s).1.nft_specs
    unfolding plan_rules
    plan_rules-Fine Q [] s good qs h = h
    plan_rules-Fine Q (raw ∷ rules) s good (q, qs) h =
        plan_rules-Fine Q rules (plan_rule forms context (normalize_rule forms raw) s) good qs
          (plan_rule-Fine (normalize_rule forms raw) s (good raw q) h)

  -- A spec that an enabled rule with the property Q accounts for.
  abbrev pub ComesFrom : (Rule → Type 0) → NftRuleSpec → Type 0
  ComesFrom Q s =
      (raw : Rule) × Q raw
      × ((normalize_rule forms raw).enabled ≡ true)
      × Forwards forms (normalize_rule forms raw) s

  -- Whatever the resolver answers and the cache holds: each kernel rule that `buildPlan` asks for
  -- belongs to an enabled rule of the list, one with any property Q that all of them have. It has that
  -- rule's identifier, ports and transport. It listens where that rule's listen host says, in the
  -- family of that address, which is no loopback one, and sends to a target of the same family that passed
  -- `ValidateTargetAddress` for that rule and has no zone.
  pub build_plan-ComesFrom :
      (context : Context) (Q : Rule → Type 0) (rules : List Rule) (cache : Cache)
      → All Q rules
      → All (ComesFrom Q) (build_plan forms context rules cache).1.nft_specs
  unfolding build_plan
  build_plan-ComesFrom context Q rules cache qs =
      plan_rules-Fine context (ComesFrom Q) Q rules (cache, empty_plan)
        (λ raw q on t f. (raw, q, on, f)) qs tt
