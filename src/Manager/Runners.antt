-- ===== src/Manager/Runners.antt =====
-- `stopChangedRunners`, `decideNFTAction`, `reconcileNFT` and `reconcileRunners` of
-- internal/proxy/manager.go.
pub mod Stops
pub mod Grows
pub mod Reconciled
use go_nftables_portbridge.Prelude.{
  ℕ, Bool, true, false, ◌&&◌, ◌||◌, not, List, [], ◌∷◌, ◌++◌, Option, none, some, any, ◌==◌,
  if◌then◌else◌,
}
use go_nftables_portbridge.Text.{Text, codes, text_eq}
use go_nftables_portbridge.Text.Maps.{find_text, put_text}
use go_nftables_portbridge.Config.{Rule}
use go_nftables_portbridge.Plan.{NftRuleSpec, GoPath}
use go_nftables_portbridge.Nft.Keys.{KernelForms}
use go_nftables_portbridge.Nft.Backend.{nft_specs_key, specs_use_flowtable}

-- A runner as the manager sees it: its rule, and the name that it shows.
pub record Runner : Type 0 where
  pub rule : Rule
  pub display_name : Text

pub data Health : Type 0 where
  no_checker sound not_sound not_admitted uninspected : Health

-- The runners and the nftables backend of the manager.
pub record ManagerIo : Type 1 where
  pub World : Type 0
  pub rule_key : Rule → Text
  pub start : Rule → World → World × Bool
  pub stop : Runner → World → World
  pub topology_key : World → World × Text
  pub healthy : List NftRuleSpec → World → World × Health
  pub replace : List NftRuleSpec → World → World × Bool
  pub delete : World → World × Bool
  pub reports_retirement : Bool

pub record NftReconcileResult : Type 0 where
  pub failed : Bool
  pub cleanup_failed : Bool
  pub inspection_failed : Bool

pub record NftKnown : Type 0 where
  pub initialized : Bool
  pub key : Text

pub data GoError : Type 0 where
  awaits_revocation not_started : GoError

-- A key without what follows its last bar.
abbrev pub cut_at_bar : Text → Option Text
cut_at_bar [] = none
cut_at_bar (c ∷ s) = elim (cut_at_bar s) [
  | some head ↦ some (c ∷ head)
  | none ↦ if c == b'|' then some [] else none
]

abbrev pub text_or : Text → Option Text → Text
text_or t none = t
text_or t (some s) = s

unfoldable pub go_path_slot_key : Text → Text
go_path_slot_key key = text_or key (cut_at_bar key)

abbrev pub desired_slots : List (Text × GoPath) → List (Text × GoPath) → List (Text × GoPath)
desired_slots [] slots = slots
desired_slots ((key, path) ∷ paths) slots =
    desired_slots paths (put_text (go_path_slot_key key) path slots)

abbrev pub path_or_slot : Option GoPath → Option GoPath → Option GoPath
path_or_slot none slot = slot
path_or_slot (some path) slot = some path

abbrev pub no_failure : NftReconcileResult
no_failure = record { failed = false; cleanup_failed = false; inspection_failed = false }

abbrev pub add_error : Text → GoError → List (Text × List GoError) → List (Text × List GoError)
add_error id e errors = elim (find_text id errors) [
  | none ↦ put_text id (e ∷ []) errors
  | some es ↦ put_text id (es ++ e ∷ []) errors
]

module _ (k : KernelForms) (io : ManagerIo) where
  open io use {World, rule_key, start, stop}

  -- What becomes of a runner, given the path that is wanted in its place.
  unfoldable pub kept_runner : Option GoPath → Runner → Option Runner
  kept_runner none r = none
  kept_runner (some path) r =
      if not (text_eq (rule_key path.rule) (rule_key r.rule))
      then none
      else some (record r { display_name = path.rule.name })

  unfoldable pub stop_changed :
      List (Text × GoPath) → List (Text × Runner) → World → List (Text × Runner) × World
  unfolding kept_runner go_path_slot_key
  stop_changed paths [] w = ([], w)
  stop_changed paths ((key, r) ∷ runners) w =
      let wanted =
        path_or_slot (find_text key paths)
          (find_text (go_path_slot_key key) (desired_slots paths [])) in
      elim (kept_runner wanted r) [
        | none ↦ stop_changed paths runners (stop r w)
        | some kept ↦ let rest = stop_changed paths runners w in ((key, kept) ∷ rest.0, rest.1)
      ]

  -- Whether the kernel rules have to be replaced, and what is wrong.
  abbrev pub on_health : Bool → Health → Bool × NftReconcileResult
  on_health needed no_checker = (needed, no_failure)
  on_health needed sound = (needed, no_failure)
  on_health needed not_sound = (true, no_failure)
  on_health needed not_admitted = (true, no_failure)
  on_health needed uninspected =
      (needed, record { failed = true; cleanup_failed = true; inspection_failed = true })

  unfoldable pub decide_nft_action :
      NftKnown → List NftRuleSpec → Text → World → World × (Bool × NftReconcileResult)
  decide_nft_action known specs key w =
      let r = io.healthy specs w in
      (r.0, on_health (not known.initialized || not (text_eq key known.key)) r.1)

  abbrev pub forgotten : NftKnown
  forgotten = record { initialized = false; key = [] }

  -- A replacement that failed. A backend that reports its retirement state keeps what it can.
  unfoldable pub after_failure : NftKnown → World → (NftKnown × World) × NftReconcileResult
  after_failure known w =
      if io.reports_retirement
      then ((forgotten, w), record no_failure { failed = true })
      else (let d = io.delete w in
          if d.1
          then ((forgotten, d.0), record no_failure { failed = true })
          else ((known, d.0), record no_failure { failed = true; cleanup_failed = true }))

  abbrev pub new_key : List NftRuleSpec → World → World × Text
  new_key specs w =
      if specs_use_flowtable specs
      then (let t = io.topology_key w in
          (t.0, nft_specs_key k specs ++ (codes "\nflowtable-devices:" ++ t.1)))
      else (w, nft_specs_key k specs)

  unfoldable pub reconcile_nft :
      List NftRuleSpec → NftKnown → World → (NftKnown × World) × NftReconcileResult
  unfolding decide_nft_action after_failure nft_specs_key
  reconcile_nft specs known w =
      let key = new_key specs w in
      let d = decide_nft_action known specs key.1 key.0 in
      if not d.1.1.failed && d.1.0
      then (let r = io.replace specs d.0 in
          if r.1
          then ((record { initialized = true; key = key.1 }, r.0), no_failure)
          else after_failure known r.0)
      else ((known, d.0), d.1.1)

  abbrev pub is_blocked : List (Text × Bool) → Text → Bool
  is_blocked blocked key = elim (find_text key blocked) [ none ↦ false | some b ↦ b ]

  abbrev pub blocked_paths : (GoPath → Bool) → List (Text × GoPath) → List (Text × Bool)
  blocked_paths f [] = []
  blocked_paths f ((key, path) ∷ paths) = (key, f path) ∷ blocked_paths f paths

  abbrev pub stop_where :
      (Text → Bool) → List (Text × Runner) → World → List (Text × Runner) × World
  stop_where f [] w = ([], w)
  stop_where f ((key, r) ∷ runners) w = elim (f key) [
    | true ↦ stop_where f runners (stop r w)
    | false ↦ let rest = stop_where f runners w in ((key, r) ∷ rest.0, rest.1)
  ]

  pub record Started : Type 0 where
    pub runners : List (Text × Runner)
    pub errors : List (Text × List GoError)
    pub world : World

  abbrev pub attempt : Text → GoPath → Started → World × Bool → Started
  attempt key path st (w, true) = record st {
    runners = put_text key (record { rule = path.rule; display_name = path.rule.name }) st.runners;
    world = w;
  }
  attempt key path st (w, false) = record st {
    errors = add_error path.rule_id not_started st.errors;
    world = w;
  }

  abbrev pub unless_blocked : Bool → Text → GoPath → Started → Started
  unless_blocked true key path st = record st {
    errors = add_error path.rule_id awaits_revocation st.errors;
  }
  unless_blocked false key path st = attempt key path st (start path.rule st.world)

  abbrev pub unless_running : Option Runner → Bool → Text → GoPath → Started → Started
  unless_running none blocks key path st = unless_blocked blocks key path st
  unless_running (some r) blocks key path st = st

  -- One path of the plan, in the middle loop.
  unfoldable pub start_path : List (Text × Bool) → Text → GoPath → Started → Started
  start_path blocked key path st =
      unless_running (find_text key st.runners) (is_blocked blocked key) key path st

  unfoldable pub start_paths : List (Text × Bool) → List (Text × GoPath) → Started → Started
  unfolding start_path
  start_paths blocked [] st = st
  start_paths blocked ((key, path) ∷ paths) st =
      start_paths blocked paths (start_path blocked key path st)

  abbrev pub not_wanted : List (Text × GoPath) → Text → Bool
  not_wanted paths key = elim (find_text key paths) [ none ↦ true | some p ↦ false ]

  unfoldable pub reconcile_runners :
      (GoPath → Bool) → List (Text × GoPath) → List (Text × Runner) → World → Started
  unfolding start_paths
  reconcile_runners blocks paths runners w =
      let blocked = blocked_paths blocks paths in
      let stopped = stop_where (is_blocked blocked) runners w in
      let st =
        start_paths blocked paths
          (record { runners = stopped.0; errors = []; world = stopped.1 }) in
      let left = stop_where (not_wanted paths) st.runners st.world in
      record { runners = left.0; errors = st.errors; world = left.1 }
