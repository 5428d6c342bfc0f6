-- ===== src/Manager/Status/Honest.antt =====
-- What a rule that internal/proxy/manager.go shows as running, without a notice, is.
use go_nftables_portbridge.Prelude.{
  ◌≡◌, refl, Bool, true, false, ◌&&◌, not, List, [], ◌∷◌, ◌++◌, map, Option, All, if◌then◌else◌,
  arith, ap,
}
use go_nftables_portbridge.Text.{Text, text_eq}
use go_nftables_portbridge.Text.Sets.{has_key}
use go_nftables_portbridge.Text.Maps.{find_text}
use go_nftables_portbridge.Text.Finds.{has_text}
use go_nftables_portbridge.Config.{Rule}
use go_nftables_portbridge.Plan.{DataPlane, GoPath}
use go_nftables_portbridge.Manager.Runners.{GoError}
use go_nftables_portbridge.Manager.{
  KernelState, not_reported, retirement_pending, admission_suspended, active_verified,
  active_unverified, unknown, inactive_verified, unverified,
}
use go_nftables_portbridge.Manager.Status.{
  Outcome, RuleRow, Shown, no_notice, going, stopped, Failure, path_not_running, plan_failure,
  nft_failure, go_failure, not_disabled, go_not_running, held_plane, shown_for, failures_of,
  paths_down, rule_row, blocked_row, go_errors_of, has_path, no_errors, held_notice,
  data_plane_uses_nft,
}

-- The rule is enabled and not blocked, its kernel rules are in place if it has any, and each of its
-- Go paths has a runner.
pub record IsRunning (o : Outcome) (id : Text) (r : Rule) : Type 0 where
  pub enabled : r.enabled ≡ true
  pub not_blocked : o.blocked id ≡ false
  pub planned : has_text id o.plan.errors ≡ false
  pub has_one : has_path o id ≡ true
  pub in_kernel : (has_key id o.plan.uses_nft && o.nft_failed && not (o.verified id)) ≡ false
  pub no_go_errors : go_errors_of o id ≡ []
  pub paths_run :
      All (λ p. (text_eq p.1.rule_id id && not (has_text p.0 o.runners)) ≡ false) o.plan.go_rules

split_one :
    (b : Bool) (f : Failure) (rest : List Failure)
    → ((if b then f ∷ [] else []) ++ rest) ≡ []
    → (b ≡ false) × (rest ≡ [])
split_one true f rest h = ground arith
split_one false f rest h = (refl, h)

split_go :
    (es : List GoError) (rest : List Failure)
    → (map go_failure es ++ rest) ≡ []
    → (es ≡ []) × (rest ≡ [])
split_go [] rest h = (refl, h)
split_go (e ∷ es) rest h = absurd (filled (go_failure e) (map go_failure es ++ rest) h)
  where
    filled : (f : Failure) (fs : List Failure) → f ∷ fs ≡ [] → ⊥
    filled f fs h = ground arith

shows_it : (s t : Shown) → s ≡ t → s.running ≡ t.running
shows_it s t e = ap (λ x. x.running) e

notices_it : (s t : Shown) → s ≡ t → s.notice ≡ t.notice
notices_it s t e = ap (λ x. x.notice) e

held_notice-some : (s : KernelState) → held_notice s ≡ no_notice → ⊥
held_notice-some not_reported h = ground arith
held_notice-some retirement_pending h = ground arith
held_notice-some admission_suspended h = ground arith
held_notice-some active_verified h = ground arith
held_notice-some active_unverified h = ground arith
held_notice-some unknown h = ground arith
held_notice-some inactive_verified h = ground arith
held_notice-some unverified h = ground arith

shown_for-clean :
    (fs : List Failure) (p : Bool) → shown_for fs p ≡ going no_notice → (fs ≡ []) × (p ≡ true)
shown_for-clean [] true h = (refl, refl)
shown_for-clean [] false h = absurd (clash (shows_it _ _ h))
  where
    clash : false ≡ true → ⊥
    clash e = cc
shown_for-clean (f ∷ fs) p h = absurd (clash (shows_it _ _ h))
  where
    clash : false ≡ true → ⊥
    clash e = cc

abbrev shown_of : RuleRow → Shown
shown_of row = row.shown

paths_down-none :
    (o : Outcome) (id : Text) (paths : List (Text × GoPath))
    → go_errors_of o id ≡ []
    → paths_down o id paths ≡ []
    → All (λ p. (text_eq p.1.rule_id id && not (has_text p.0 o.runners)) ≡ false) paths
unfolding paths_down
paths_down-none o id [] e h = tt
paths_down-none o id ((key, path) ∷ paths) e h =
    let (up, rest) = split_one _ path_not_running (paths_down o id paths) h in
    (
      apart (text_eq path.rule_id id) (not (has_text key o.runners)) _ (ap no_errors e) up,
      paths_down-none o id paths e rest,
    )
  where
    apart : (a b c : Bool) → c ≡ true → (a && b && c) ≡ false → (a && b) ≡ false
    apart a b c e h = ground arith

-- A rule that is shown as running without a notice is enabled, nothing blocks it, it was planned
-- without an error and has a path, its kernel rules, if it has any, are in place or verified, and
-- each of its Go paths has a runner.
pub rule_row-IsRunning :
    (o : Outcome) (id : Text) (r : Rule) (previous : Option DataPlane)
    → (rule_row o id r previous).shown ≡ going no_notice
    → IsRunning o id r
unfolding rule_row blocked_row failures_of
rule_row-IsRunning o id r previous h = on_blocked (o.blocked id) refl h
  where
    clash : {A : Type 0} → false ≡ true → A
    clash e = absurd cc

    planned_row : RuleRow
    planned_row = record {
      rule = r;
      plane = find_text id o.plan.data_planes;
      shown = shown_for (failures_of o id) (has_path o id);
    }

    disabled_row : RuleRow
    disabled_row =
        if o.cleanup_failed && data_plane_uses_nft previous
        then record { rule = r; plane = previous; shown = going not_disabled }
        else (record {
          rule = r;
          plane = find_text id o.plan.data_planes;
          shown = stopped no_notice;
        })

    not_shown :
        (b : Bool)
        → shown_of (
            if b
            then record { rule = r; plane = previous; shown = going not_disabled }
            else (record {
              rule = r;
              plane = find_text id o.plan.data_planes;
              shown = stopped no_notice;
            }))
          ≡ going no_notice
        → IsRunning o id r
    not_shown true e = absurd (noticed (notices_it _ _ e))
      where
        noticed : not_disabled ≡ no_notice → ⊥
        noticed e = ground arith
    not_shown false e = clash (shows_it _ _ e)

    on_enabled :
        (b : Bool)
        → r.enabled ≡ b
        → o.blocked id ≡ false
        → shown_of (if not b then disabled_row else planned_row) ≡ going no_notice
        → IsRunning o id r
    on_enabled false e free h = not_shown (o.cleanup_failed && data_plane_uses_nft previous) h
    on_enabled true e free h =
        let (none_failed, path) = shown_for-clean (failures_of o id) (has_path o id) h in
        let (planned, rest) = split_one _ plan_failure _ none_failed in
        let (in_kernel, more) = split_one _ nft_failure _ rest in
        let (no_go, down) = split_go (go_errors_of o id) _ more in
        record {
          enabled = e;
          not_blocked = free;
          planned = planned;
          has_one = path;
          in_kernel = in_kernel;
          no_go_errors = no_go;
          paths_run = paths_down-none o id o.plan.go_rules no_go down;
        }

    not_held :
        (b : Bool)
        → shown_of (
            if b
            then record {
              rule = r;
              plane = find_text id o.plan.data_planes;
              shown = stopped (go_not_running (o.kernel id).0);
            }
            else (record {
              rule = r;
              plane = held_plane o id previous;
              shown = going (held_notice (o.kernel id).0);
            }))
          ≡ going no_notice
        → IsRunning o id r
    not_held true e = clash (shows_it _ _ e)
    not_held false e = absurd (held_notice-some (o.kernel id).0 (notices_it _ _ e))

    on_blocked :
        (b : Bool)
        → o.blocked id ≡ b
        → shown_of (
            if b
            then blocked_row o id r previous
            else if not r.enabled
            then disabled_row
            else planned_row)
          ≡ going no_notice
        → IsRunning o id r
    on_blocked true e h =
        not_held
          (not (o.kernel id).1 && not (data_plane_uses_nft previous) && has_key id o.plan.uses_go) h
    on_blocked false e h = on_enabled r.enabled refl e h
