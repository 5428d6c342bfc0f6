-- ===== src/Plan/Build.antt =====
-- `buildPlan`, `addGoPath` and `distributeGoUDPWorkers` of internal/proxy/plan.go. The resolver and
-- the clock are arguments, as are the mark and the flowtable setting of the manager.
use go_nftables_portbridge.Prelude.{
  ℕ, ◌+◌, Bool, true, false, ◌&&◌, ◌||◌, not, List, [], ◌∷◌, ◌++◌, map, Option, none, some, ◌==◌,
  length, inl, inr, ◌⊎◌, if◌then◌else◌,
}
use go_nftables_portbridge.Prelude.Int.{pos, pos_part, ◌+ℤ◌, ◌-ℤ◌}
use go_nftables_portbridge.Text.{Text, codes, text_eq, is_empty}
use go_nftables_portbridge.Text.Sets.{add_key, sort_texts}
use go_nftables_portbridge.Text.Maps.{find_text, put_text}
use go_nftables_portbridge.Netip.{Addr, v4, v6, is_loopback, is_unspecified, zone}
use go_nftables_portbridge.Netip.Forms.{Forms}
use go_nftables_portbridge.Config.{
  Rule, protocol_tcp, protocol_udp, protocol_both, rule_data_plane_go,
}
use go_nftables_portbridge.Config.Normalize.{normalize_rule, last_listen_port, last_target_port}
use go_nftables_portbridge.Plan.Resolve.{resolve_host, Cache, ResolveError}
use go_nftables_portbridge.Plan.Workers.{effective_udp_workers, path_workers}
use go_nftables_portbridge.Plan.{
  ListenFamily, GoPath, NftRuleSpec, ForwardingPlan, DataPlane, disabled, nftables, go_proxy,
  hybrid, PlanError, unresolved, backup_unresolved, no_usable_family, empty_plan,
  first_address_for_family, any_family, listen_families,
}

-- What the manager brings to a plan.
pub record Context : Type 0 where
  pub lookup : Text → Option (List Addr)
  pub allow_cached_dns : Bool
  pub now : ℕ
  pub nft_mark : ℕ
  pub nft_flowtable : Bool
  pub processors : ℕ

-- The plan and what the loop over the listeners of a rule has seen of the two data planes.
pub record Progress : Type 0 where
  pub plan : ForwardingPlan
  pub has_nft : Bool
  pub has_go : Bool

abbrev pub loopback_for : ℕ → Addr
loopback_for family = if family == 4 then v4 0x7f000001 else v6 1 []

abbrev pub protocols_of : Rule → List Text
protocols_of r =
    if text_eq r.protocol protocol_both then protocol_tcp ∷ protocol_udp ∷ [] else r.protocol ∷ []

abbrev pub spec_for : Context → Rule → ListenFamily → Addr → Text → NftRuleSpec
spec_for context r listener target protocol = record {
  rule_id = r.id;
  family = listener.family;
  listen_host = listener.host;
  listen_port = r.listen_port;
  listen_port_end = last_listen_port r;
  target_host = target;
  target_port = r.target_port;
  target_port_end = last_target_port r;
  protocol = protocol;
  conntrack_mark = context.nft_mark;
  enable_flowtable = context.nft_flowtable;
  rule_identity = [];
}

abbrev pub set_data_plane : Text → DataPlane → ForwardingPlan → ForwardingPlan
set_data_plane id plane p = record p { data_planes = put_text id plane p.data_planes }

abbrev pub set_error : Text → PlanError → ForwardingPlan → ForwardingPlan
set_error id e p = record p { errors = put_text id e p.errors }

abbrev pub plane_of : Bool → Bool → DataPlane
plane_of true true = hybrid
plane_of true false = nftables
plane_of false true = go_proxy
plane_of false false = disabled

module _ (forms : Forms) where
  open forms use {format_addr}

  abbrev path_key : Rule → Text → Addr → Addr → Text
  path_key r kind listen target =
      r.id ++ b'|' ∷ kind ++ b'|' ∷ format_addr listen ++ b'|' ∷ format_addr target

  unfoldable pub add_go_path : Rule → Addr → Addr → Text → ForwardingPlan → ForwardingPlan
  add_go_path r listen target kind p = record p {
    go_rules =
        put_text (path_key r kind listen target)
          (record {
            rule_id = r.id;
            rule = record r { listen_host = format_addr listen; target_host = format_addr target };
          })
          p.go_rules;
    uses_go = add_key r.id p.uses_go;
  }

  -- The target of the family or else of the other one, through the process.
  abbrev pub through_go : Rule → ListenFamily → Option Addr → Text → Progress → Progress
  through_go r listener none kind s = record s {
    plan = set_error r.id (no_usable_family listener.family) s.plan;
  }
  through_go r listener (some target) kind s = record s {
    plan = add_go_path r listener.host target kind s.plan;
    has_go = true;
  }

  -- The target of the family, through the kernel; the host's own loopback through the process.
  abbrev pub through_nft : Context → Rule → ListenFamily → Addr → Progress → Progress
  through_nft context r listener target s =
      let p = record s.plan {
        nft_specs = s.plan.nft_specs ++ map (spec_for context r listener target) (protocols_of r);
        uses_nft = add_key r.id s.plan.uses_nft;
      } in
      if is_unspecified listener.host
      then record {
        plan = add_go_path r (loopback_for listener.family) target (codes "loopback") p;
        has_nft = true;
        has_go = true;
      }
      else record s { plan = p; has_nft = true }

  -- A rule of the kernel's data plane: the kernel forwards within one family, without a zone, and not
  -- for a loopback listener.
  abbrev pub plan_kernel :
      Context → Rule → List Addr → ListenFamily → Option Addr → Progress → Progress
  plan_kernel context r addresses listener none s =
      through_go r listener (any_family addresses listener.family none) (codes "proxy") s
  plan_kernel context r addresses listener (some target) s =
      if is_empty (zone target) && not (is_loopback listener.host)
      then through_nft context r listener target s
      else through_go r listener (some target) (codes "proxy") s

  unfoldable pub plan_listener : Context → Rule → List Addr → ListenFamily → Progress → Progress
  unfolding first_address_for_family add_go_path
  plan_listener context r addresses listener s =
      let target = first_address_for_family addresses listener.family in
      if text_eq r.data_plane rule_data_plane_go
      then through_go r listener (any_family addresses listener.family target) (codes "forced") s
      else plan_kernel context r addresses listener target s

  unfoldable pub plan_listeners :
      Context → Rule → List Addr → List ListenFamily → Progress → Progress
  unfolding plan_listener
  plan_listeners context r addresses [] s = s
  plan_listeners context r addresses (l ∷ listeners) s =
      plan_listeners context r addresses listeners (plan_listener context r addresses l s)

  -- A rule whose hosts have been resolved.
  unfoldable pub plan_resolved : Context → Rule → List Addr → ForwardingPlan → ForwardingPlan
  unfolding plan_listeners listen_families
  plan_resolved context r addresses p =
      let s =
        plan_listeners context r addresses (listen_families forms r.listen_host)
          (record { plan = p; has_nft = false; has_go = false }) in
      set_data_plane r.id (plane_of s.has_nft s.has_go) s.plan

  abbrev pub with_backup :
      Context
      → Rule
      → List Addr
      → ForwardingPlan
      → Cache × (ResolveError ⊎ List Addr)
      → Cache × ForwardingPlan
  with_backup context r addresses p (cache, inl e) = (cache, set_error r.id (backup_unresolved e) p)
  with_backup context r addresses p (cache, inr []) = (cache, plan_resolved context r addresses p)
  with_backup context r addresses p (cache, inr (b ∷ rest)) =
      (cache, plan_resolved context (record r { backup_target_host = format_addr b }) addresses p)

  abbrev pub with_target :
      Context → Rule → ForwardingPlan → Cache × (ResolveError ⊎ List Addr) → Cache × ForwardingPlan
  with_target context r p (cache, inl e) = (cache, set_error r.id (unresolved e) p)
  with_target context r p (cache, inr addresses) =
      if is_empty r.backup_target_host
      then (cache, plan_resolved context r addresses p)
      else with_backup context r addresses p (
          resolve_host forms context.lookup context.allow_cached_dns context.now r
            r.backup_target_host (r.id ++ codes ":backup") cache)

  -- The body of the loop of `buildPlan`, on a normalized rule.
  unfoldable pub plan_rule : Context → Rule → Cache × ForwardingPlan → Cache × ForwardingPlan
  unfolding plan_resolved resolve_host
  plan_rule context r (cache, p) =
      if not r.enabled
      then (cache, set_data_plane r.id disabled p)
      else with_target context r p (
          resolve_host forms context.lookup context.allow_cached_dns context.now r r.target_host
            r.id cache)

  unfoldable pub plan_rules : Context → List Rule → Cache × ForwardingPlan → Cache × ForwardingPlan
  unfolding plan_rule normalize_rule
  plan_rules context [] s = s
  plan_rules context (raw ∷ rules) s =
      plan_rules context rules (plan_rule context (normalize_rule forms raw) s)

-- The keys of the Go paths of a rule.
abbrev keys_of : Text → List (Text × GoPath) → List Text
keys_of id [] = []
keys_of id ((k, path) ∷ m) = if text_eq path.rule_id id then k ∷ keys_of id m else keys_of id m

abbrev set_workers : ℕ → GoPath → GoPath
set_workers workers path = record path { rule = record path.rule { udp_workers = pos workers } }

abbrev change_path : Text → ℕ → List (Text × GoPath) → Option GoPath → List (Text × GoPath)
change_path key workers m none = m
change_path key workers m (some path) = put_text key (set_workers workers path) m

-- The loop over the keys from place `i` on.
abbrev share_workers : ℕ → ℕ → ℕ → ℕ → List Text → List (Text × GoPath) → List (Text × GoPath)
share_workers endpoints paths total i [] m = m
share_workers endpoints paths total i (key ∷ keys) m =
    share_workers endpoints paths total (i + 1) keys
      (change_path key (path_workers endpoints paths total i) m (find_text key m))

abbrev carries_udp : Rule → Bool
carries_udp r = text_eq r.protocol protocol_udp || text_eq r.protocol protocol_both

-- The ports of a rule; those of a validated rule are in order.
abbrev endpoints_per_path : Rule → ℕ
endpoints_per_path r = pos_part (last_listen_port r -ℤ r.listen_port +ℤ pos 1)

unfoldable pub distribute_go_udp_workers :
    Forms → ℕ → List Rule → List (Text × GoPath) → List (Text × GoPath)
unfolding path_workers effective_udp_workers normalize_rule sort_texts
distribute_go_udp_workers forms processors [] m = m
distribute_go_udp_workers forms processors (raw ∷ rules) m =
    let r = normalize_rule forms raw in
    let keys = sort_texts (keys_of r.id m) in
    distribute_go_udp_workers forms processors rules (
      if carries_udp r
      then share_workers (endpoints_per_path r) (length keys)
          (effective_udp_workers processors r.udp_workers) 0 keys m
      else m)

unfoldable pub build_plan : Forms → Context → List Rule → Cache → Cache × ForwardingPlan
unfolding plan_rules distribute_go_udp_workers
build_plan forms context rules cache =
    let (cache', p) = plan_rules forms context rules (cache, empty_plan) in
    (
      cache',
      record p { go_rules = distribute_go_udp_workers forms context.processors rules p.go_rules },
    )
