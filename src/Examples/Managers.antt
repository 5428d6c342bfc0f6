-- ===== src/Examples/Managers.antt =====
-- Witnesses on the manager: a plan with a path that the kernel blocks and one that starts.
use go_nftables_portbridge.Prelude.{
  ℕ, ◌+◌, ◌≡◌, refl, Bool, true, false, ◌||◌, not, List, [], ◌∷◌, ◌++◌, none, some, any, All, ◌⊎◌,
}
use go_nftables_portbridge.Text.{Text, codes, text_eq}
use go_nftables_portbridge.Text.Maps.{find_text, put_text}
use go_nftables_portbridge.Text.Sets.{sort_texts, has_key}
use go_nftables_portbridge.Plan.{GoPath, ForwardingPlan, empty_plan, hybrid}
use go_nftables_portbridge.Nft.Keys.{nft_retirement_key, nft_rule_identity}
use go_nftables_portbridge.Nft.Backend.Replace.{RetirementState}
use go_nftables_portbridge.Manager.{go_path_blocked_by_nft, active_verified}
use go_nftables_portbridge.Manager.Tombstones.{is_free, nft_tombstone_id}
use go_nftables_portbridge.Manager.Tombstones.Enough.{nft_tombstone_id-Found}
use go_nftables_portbridge.Manager.Status.{Outcome, rule_row}
use go_nftables_portbridge.Manager.Status.Honest.{IsRunning, rule_row-IsRunning}
use go_nftables_portbridge.Manager.Blocked.{shares, go_path_blocked_by_nft-NoneShared}
use go_nftables_portbridge.Manager.Runners.{Runner, ManagerIo, reconcile_runners, no_checker}
use go_nftables_portbridge.Manager.Runners.Grows.{settled_path}
use go_nftables_portbridge.Manager.Runners.Reconciled.{reconcile_runners-Settled}
use go_nftables_portbridge.Examples.{web_rule, dns_rule}
use go_nftables_portbridge.Examples.Forms.{sample_forms}
use go_nftables_portbridge.Examples.Kernels.{
  sample_kernel, sample_kernel-KernelDocumented, web_spec, web_spec-Fits, strokes,
}

-- The world counts what was started and stopped; each runner starts.
abbrev sample_manager : ManagerIo
sample_manager = record {
  World = ℕ;
  rule_key = λ r. r.id;
  start = λ r w. (w + 1, true);
  stop = λ r w. w + 1;
  topology_key = λ w. (w, []);
  healthy = λ specs w. (w, no_checker);
  replace = λ specs w. (w, true);
  delete = λ w. (w, true);
  reports_retirement = true;
}

abbrev web_go_path : GoPath
web_go_path = record { rule_id = codes "web"; rule = web_rule }

abbrev dns_go_path : GoPath
dns_go_path = record { rule_id = codes "dns"; rule = dns_rule }

abbrev two_paths : List (Text × GoPath)
two_paths = (codes "w|proxy|a", web_go_path) ∷ (codes "d|proxy|b", dns_go_path) ∷ []

abbrev old_runners : List (Text × Runner)
old_runners =
    (codes "w|proxy|a", record { rule = web_rule; display_name = codes "Web" })
    ∷ (codes "o|proxy|c", record { rule = web_rule; display_name = codes "Old" })
    ∷ []

abbrev web_blocked : GoPath → Bool
web_blocked path = text_eq path.rule_id (codes "web")

reconcile_runners-Settled_example :
    ((key : Text)
      → (find_text key
            (reconcile_runners sample_kernel sample_manager web_blocked two_paths old_runners
              0).runners
          ≡ none)
        ⊎ ((path : GoPath) × (find_text key two_paths ≡ some path) × (web_blocked path ≡ false)))
    × All
        (λ p.
          settled_path sample_kernel sample_manager p.0 p.1
            (reconcile_runners sample_kernel sample_manager web_blocked two_paths old_runners
              0).runners
            (reconcile_runners sample_kernel sample_manager web_blocked two_paths old_runners
              0).errors
          ≡ true)
        two_paths
reconcile_runners-Settled_example =
    reconcile_runners-Settled sample_kernel sample_manager web_blocked two_paths old_runners 0

abbrev held_state : RetirementState
held_state = record {
  active = web_spec ∷ [];
  pending = web_spec ∷ [];
  suspended = [];
  verified = false;
  unknown = false;
}

go_path_blocked_by_nft-NoneShared_example :
    (false ≡ false)
    × (any (shares sample_forms dns_rule 53) (held_state.pending ++ held_state.suspended) ≡ false)
    × ((not held_state.verified || false) ≡ true
        → any (shares sample_forms dns_rule 53) held_state.active ≡ false)
unfolding go_path_blocked_by_nft sort_texts text_eq nft_retirement_key nft_rule_identity strokes
go_path_blocked_by_nft-NoneShared_example =
    go_path_blocked_by_nft-NoneShared sample_kernel sample_kernel-KernelDocumented sample_forms
      dns_rule 53 held_state false (web_spec-Fits, tt) (web_spec-Fits, tt) unblocked
  where
    unblocked :
        go_path_blocked_by_nft sample_kernel sample_forms (some held_state) dns_rule true false
        ≡ false
    unblocked = refl

-- The Go path of the web rule runs, beside its kernel rules.
abbrev sample_plan : ForwardingPlan
sample_plan = record empty_plan {
  go_rules = (codes "w|proxy|a", web_go_path) ∷ [];
  data_planes = (codes "web", hybrid) ∷ [];
  uses_nft = codes "web" ∷ [];
  uses_go = codes "web" ∷ [];
}

abbrev sample_outcome : Outcome
sample_outcome = record {
  plan = sample_plan;
  runners = old_runners;
  go_errors = [];
  blocked = λ id. false;
  verified = λ id. false;
  kernel = λ id. (active_verified, true);
  nft_failed = false;
  cleanup_failed = false;
}

rule_row-IsRunning_example : IsRunning sample_outcome (codes "web") web_rule
unfolding rule_row text_eq has_key
rule_row-IsRunning_example = rule_row-IsRunning sample_outcome (codes "web") web_rule none refl

-- A desired rule has the name, and so has a tombstone of another identity.
nft_tombstone_id-Found_example :
    (id : Text) × (nft_tombstone_id sample_kernel
        (codes "k")
        (codes "w")
        ((codes "k", web_rule) ∷ [])
        ((codes "k-1", dns_rule) ∷ [])
        ((codes "k-1", codes "v") ∷ [])
      ≡ some (id, put_text id (codes "w") ((codes "k-1", codes "v") ∷ [])))
    × (is_free
          (codes "w")
          ((codes "k", web_rule) ∷ [])
          ((codes "k-1", dns_rule) ∷ [])
          ((codes "k-1", codes "v") ∷ [])
          id
        ≡ true)
nft_tombstone_id-Found_example =
    nft_tombstone_id-Found sample_kernel sample_kernel-KernelDocumented (codes "k") (codes "w")
      ((codes "k", web_rule) ∷ []) ((codes "k-1", dns_rule) ∷ []) ((codes "k-1", codes "v") ∷ [])
