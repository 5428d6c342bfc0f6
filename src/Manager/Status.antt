-- ===== src/Manager/Status.antt =====
-- `updateRuleStates` and `retireRemovedRules` of internal/proxy/manager.go: the data plane and the
-- state that the manager shows of each rule. The text of a message is a constructor.
pub mod Honest
use go_nftables_portbridge.Prelude.{
  Bool, true, false, ◌&&◌, ◌||◌, not, List, [], ◌∷◌, ◌++◌, map, Option, none, some, any,
  if◌then◌else◌,
}
use go_nftables_portbridge.Text.{Text, text_eq}
use go_nftables_portbridge.Text.Sets.{has_key}
use go_nftables_portbridge.Text.Maps.{find_text, put_text}
use go_nftables_portbridge.Text.Finds.{has_text}
use go_nftables_portbridge.Config.{Rule}
use go_nftables_portbridge.Plan.{
  DataPlane, disabled, nftables, go_proxy, hybrid, ForwardingPlan, GoPath,
}
use go_nftables_portbridge.Manager.{KernelState, admission_suspended}
use go_nftables_portbridge.Manager.Runners.{Runner, GoError}

pub data Failure : Type 0 where
  plan_failure nft_failure path_not_running : Failure
  go_failure : GoError → Failure

pub data Notice : Type 0 where
  no_notice admission_held may_forward not_disabled not_removed no_path : Notice
  go_not_running : KernelState → Notice
  failing : List Failure → Notice

-- What `setRunning` sets.
pub record Shown : Type 0 where
  pub running : Bool
  pub notice : Notice

abbrev pub stopped : Notice → Shown
stopped n = record { running = false; notice = n }

abbrev pub going : Notice → Shown
going n = record { running = true; notice = n }

-- The entries of `rules`, `dataPlanes` and `stats` for one identifier.
pub record RuleRow : Type 0 where
  pub rule : Rule
  pub plane : Option DataPlane
  pub shown : Shown

-- What the steps before have come to.
pub record Outcome : Type 0 where
  pub plan : ForwardingPlan
  pub runners : List (Text × Runner)
  pub go_errors : List (Text × List GoError)
  pub blocked : Text → Bool
  pub verified : Text → Bool
  pub kernel : Text → KernelState × Bool
  pub nft_failed : Bool
  pub cleanup_failed : Bool

abbrev pub data_plane_uses_nft : Option DataPlane → Bool
data_plane_uses_nft (some nftables) = true
data_plane_uses_nft (some hybrid) = true
data_plane_uses_nft _ = false

abbrev pub errors_of : Option (List GoError) → List GoError
errors_of none = []
errors_of (some es) = es

abbrev pub no_errors : List GoError → Bool
no_errors [] = true
no_errors (e ∷ es) = false

abbrev pub go_errors_of : Outcome → Text → List GoError
go_errors_of o id = errors_of (find_text id o.go_errors)

unfoldable pub paths_down : Outcome → Text → List (Text × GoPath) → List Failure
paths_down o id [] = []
paths_down o id ((key, path) ∷ paths) =
    (if text_eq path.rule_id id && not (has_text key o.runners) && no_errors (go_errors_of o id)
      then path_not_running ∷ []
      else [])
    ++ paths_down o id paths

unfoldable pub failures_of : Outcome → Text → List Failure
unfolding paths_down has_key
failures_of o id =
    (if has_text id o.plan.errors then plan_failure ∷ [] else [])
    ++ ((if has_key id o.plan.uses_nft && o.nft_failed && not (o.verified id)
          then nft_failure ∷ []
          else [])
        ++ (map go_failure (go_errors_of o id) ++ paths_down o id o.plan.go_rules))

abbrev pub held_plane : Outcome → Text → Option DataPlane → Option DataPlane
held_plane o id previous =
    if any (λ r. text_eq r.1.rule.id id) o.runners
    then some hybrid
    else if data_plane_uses_nft previous
    then previous
    else some nftables

abbrev pub held_notice : KernelState → Notice
held_notice admission_suspended = admission_held
held_notice _ = may_forward

-- A rule that the kernel blocks.
unfoldable pub blocked_row : Outcome → Text → Rule → Option DataPlane → RuleRow
unfolding has_key
blocked_row o id r previous =
    if not (o.kernel id).1 && not (data_plane_uses_nft previous) && has_key id o.plan.uses_go
    then record {
      rule = r;
      plane = find_text id o.plan.data_planes;
      shown = stopped (go_not_running (o.kernel id).0);
    }
    else (record {
      rule = r;
      plane = held_plane o id previous;
      shown = going (held_notice (o.kernel id).0);
    })

abbrev pub has_path : Outcome → Text → Bool
has_path o id = has_key id o.plan.uses_nft || has_key id o.plan.uses_go

abbrev pub shown_for : List Failure → Bool → Shown
shown_for [] true = going no_notice
shown_for [] false = stopped no_path
shown_for (f ∷ failures) path = stopped (failing (f ∷ failures))

unfoldable pub rule_row : Outcome → Text → Rule → Option DataPlane → RuleRow
unfolding blocked_row failures_of has_key
rule_row o id r previous =
    if o.blocked id
    then blocked_row o id r previous
    else if not r.enabled
    then (if o.cleanup_failed && data_plane_uses_nft previous
        then record { rule = r; plane = previous; shown = going not_disabled }
        else (record {
          rule = r;
          plane = find_text id o.plan.data_planes;
          shown = stopped no_notice;
        }))
    else (record {
      rule = r;
      plane = find_text id o.plan.data_planes;
      shown = shown_for (failures_of o id) (has_path o id);
    })

abbrev pub plane_of : Option RuleRow → Option DataPlane
plane_of none = none
plane_of (some row) = row.plane

unfoldable pub update_rule_states :
    Outcome → List (Text × Rule) → List (Text × RuleRow) → List (Text × RuleRow)
unfolding rule_row
update_rule_states o [] rows = rows
update_rule_states o ((id, r) ∷ desired) rows =
    update_rule_states o desired (put_text id (rule_row o id r (plane_of (find_text id rows))) rows)

-- What is left of a rule that is no longer desired.
abbrev pub removed_row : Outcome → Text → RuleRow → Option RuleRow
removed_row o id row =
    if o.blocked id
    then some (record row { shown = going may_forward })
    else if o.cleanup_failed && data_plane_uses_nft row.plane
    then some (record row { shown = going not_removed })
    else none

unfoldable pub retire_removed_rules :
    Outcome → List (Text × Rule) → List (Text × RuleRow) → List (Text × RuleRow)
retire_removed_rules o desired [] = []
retire_removed_rules o desired ((id, row) ∷ rows) =
    let rest = retire_removed_rules o desired rows in
    elim (if has_text id desired then some row else removed_row o id row) [
      | some kept ↦ (id, kept) ∷ rest
      | none ↦ rest
    ]
