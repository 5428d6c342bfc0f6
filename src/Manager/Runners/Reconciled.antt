-- ===== src/Manager/Runners/Reconciled.antt =====
-- The runners that `reconcileRunners` of internal/proxy/manager.go leaves.
use go_nftables_portbridge.Prelude.{
  ◌≡◌, refl, Bool, true, false, ◌||◌, List, [], ◌∷◌, Option, none, some, All, if◌then◌else◌, ◌∙◌,
  ap, Bool-cases, Option-cases, ◌⊎◌, inl, inr,
}
use go_nftables_portbridge.Text.{Text}
use go_nftables_portbridge.Text.Maps.{find_text}
use go_nftables_portbridge.Text.Finds.{is_some, has_text}
use go_nftables_portbridge.Plan.{GoPath}
use go_nftables_portbridge.Nft.Keys.{KernelForms}
use go_nftables_portbridge.Manager.Runners.{
  Runner, ManagerIo, Started, is_blocked, blocked_paths, stop_where, start_paths, not_wanted,
  reconcile_runners,
}
use go_nftables_portbridge.Manager.Runners.Stops.{
  stop_where-find, blocked-find, NoneBlocked, start_paths-NoneBlocked,
}
use go_nftables_portbridge.Manager.Runners.Grows.{settled_path, start_paths-grows, All-wanted}

module _ (k : KernelForms) (io : ManagerIo) where
  open io use {World}

  module _ (blocks : GoPath → Bool) (paths : List (Text × GoPath)) where
    -- After the runners have been reconciled, each of them stands for a path of the plan that nothing
    -- of the kernel's blocks, and each path of the plan has a runner or there is an error for its
    -- rule, so that no path is dropped without a word.
    pub reconcile_runners-Settled :
        (runners : List (Text × Runner)) (w : World)
        → ((key : Text)
            → (find_text key (reconcile_runners k io blocks paths runners w).runners ≡ none)
              ⊎ ((path : GoPath) × (find_text key paths ≡ some path) × (blocks path ≡ false)))
          × All
              (λ p.
                settled_path k io p.0 p.1
                  (reconcile_runners k io blocks paths runners w).runners
                  (reconcile_runners k io blocks paths runners w).errors
                ≡ true)
              paths
    unfolding reconcile_runners
    reconcile_runners-Settled runners w =
        let st = start_paths k io blocked paths first in
        let (runs, fails, all) = start_paths-grows k io blocked paths first in
        (safe, complete paths (All-wanted k io paths) all)
      where
        blocked : List (Text × Bool)
        blocked = blocked_paths k io blocks paths

        stopped : List (Text × Runner) × World
        stopped = stop_where k io (is_blocked k io blocked) runners w

        first : Started k io
        first = record { runners = stopped.0; errors = []; world = stopped.1 }

        second : Started k io
        second = start_paths k io blocked paths first

        left : List (Text × Runner)
        left = (stop_where k io (not_wanted k io paths) second.runners second.world).0

        none_blocked : NoneBlocked k io blocked second.runners
        none_blocked = start_paths-NoneBlocked k io blocked paths first λ key blocks.
            stop_where-find k io (is_blocked k io blocked) key runners w ∙ rw blocks refl

        found :
            (key : Text)
            → find_text key left
              ≡ (if not_wanted k io paths key then none else find_text key second.runners)
        found key = stop_where-find k io (not_wanted k io paths) key second.runners second.world

        never : (b : Bool) {o : Option Runner} → o ≡ none → (if b then none else o) ≡ none
        never true e = refl
        never false e = e

        safe :
            (key : Text)
            → (find_text key left ≡ none)
              ⊎ ((path : GoPath) × (find_text key paths ≡ some path) × (blocks path ≡ false))
        safe key = elim (Option-cases (find_text key paths)) [
          | inl unknown ↦ inl (
              found key
              ∙ ap
                  (λ (o : Option GoPath).
                    if (elim o as (λ _. Bool) [ none ↦ true | some q ↦ false ])
                    then none
                    else find_text key second.runners)
                  unknown)
          | inr (path, known) ↦ elim (Bool-cases (blocks path)) [
            | inl stops ↦ inl (
                found key
                ∙ never (not_wanted k io paths key)
                    (none_blocked key (blocked-find k io blocks key paths path known ∙ stops)))
            | inr free ↦ inr (path, known, free)
          ]
        ]

        complete :
            (some_paths : List (Text × GoPath))
            → All (λ p. not_wanted k io paths p.0 ≡ false) some_paths
            → All (λ p. settled_path k io p.0 p.1 second.runners second.errors ≡ true) some_paths
            → All (λ p. settled_path k io p.0 p.1 left second.errors ≡ true) some_paths
        complete [] f g = tt
        complete (p ∷ rest) (f, fs) (g, gs) =
            let same : find_text p.0 left ≡ find_text p.0 second.runners = found p.0 ∙ rw f refl in
            (
              ap (λ o. is_some o || has_text p.1.rule_id second.errors) same ∙ g,
              complete rest fs gs,
            )
