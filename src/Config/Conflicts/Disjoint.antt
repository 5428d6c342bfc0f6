-- ===== src/Config/Conflicts/Disjoint.antt =====
-- `validateRuleConflicts` of internal/config/config.go against the endpoints of the rules.
use go_nftables_portbridge.Prelude.{ℕ, ◌≡◌, refl, sym, ◌∙◌, Bool, true, false, List, [], ◌∷◌, All}
use go_nftables_portbridge.Text.{Text}
use go_nftables_portbridge.Netip.{Addr}
use go_nftables_portbridge.Netip.Forms.{Forms}
use go_nftables_portbridge.Config.{Rule}
use go_nftables_portbridge.Config.Errors.{Result, ok, err, rule_conflict}
use go_nftables_portbridge.Config.Normalize.{normalize_rule}
use go_nftables_portbridge.Config.Conflicts.{rules_conflict, check_against, validate_rule_conflicts}
use go_nftables_portbridge.Config.Conflicts.Overlap.{Listens, Listens-conflict, mapped_host}

module _ (forms : Forms) where
  -- The listen host of a rule, once it is normalized, is no IPv4 address that is mapped into IPv6.
  abbrev pub PlainHost : Rule → Type 0
  PlainHost raw = mapped_host forms (normalize_rule forms raw).listen_host ≡ false

  -- No endpoint is taken by both rules, once they are normalized.
  abbrev pub Disjoint : Rule → Rule → Type 0
  Disjoint raw raw' =
      (transport : Text) (port : ℕ) (a : Addr)
      → Listens forms (normalize_rule forms raw) transport port a
      → ¬ Listens forms (normalize_rule forms raw') transport port a

  -- Each rule is disjoint from those behind it.
  abbrev pub AllDisjoint : List Rule → Type 0
  AllDisjoint [] = Unit
  AllDisjoint (raw ∷ rules) = All (Disjoint raw) rules × AllDisjoint rules

  -- The inner loop passed over a rule: it is not in conflict, and the loop went on.
  passed_over :
      (a next : Rule) (rules : List Rule) (b : Bool)
      → rules_conflict forms a (normalize_rule forms next) ≡ b
      → check_against forms a (next ∷ rules) ≡ ok tt
      → (rules_conflict forms a (normalize_rule forms next) ≡ false)
        × (check_against forms a rules ≡ ok tt)
  unfolding check_against
  passed_over a next rules true e h =
      let stopped : err rule_conflict ≡ ok tt = (rw (e, check_against) at h) in cc stopped
  passed_over a next rules false e h = (e, (rw (e, check_against) at h))

  no_conflict-Disjoint :
      (raw next : Rule)
      → PlainHost raw
      → PlainHost next
      → rules_conflict forms (normalize_rule forms raw) (normalize_rule forms next) ≡ false
      → Disjoint raw next
  no_conflict-Disjoint raw next u v e transport port a l m =
      let clash : true ≡ false = sym (Listens-conflict forms _ _ transport port a u v l m) ∙ e in
      cc clash

  check_against-All :
      (raw : Rule) (rules : List Rule)
      → PlainHost raw
      → All PlainHost rules
      → check_against forms (normalize_rule forms raw) rules ≡ ok tt
      → All (Disjoint raw) rules
  check_against-All raw [] u plain h = tt
  check_against-All raw (next ∷ rules) u (v, plain) h =
      let (free, rest) = passed_over _ next rules _ refl h in
      (no_conflict-Disjoint raw next u v free, check_against-All raw rules u plain rest)

  disabled-All :
      (raw : Rule) (rules : List Rule)
      → (normalize_rule forms raw).enabled ≡ false
      → All (Disjoint raw) rules
  disabled-All raw [] off = tt
  disabled-All raw (next ∷ rules) off = (
    λ transport port a l m. let clash : true ≡ false = sym l.enabled ∙ off in cc clash,
    disabled-All raw rules off,
  )

  -- The outer loop at one rule: it is off, or was checked against those behind it.
  first_checked :
      (raw : Rule) (rules : List Rule) (on : Bool) (r : Result (Unit {0}))
      → PlainHost raw
      → All PlainHost rules
      → (normalize_rule forms raw).enabled ≡ on
      → check_against forms (normalize_rule forms raw) rules ≡ r
      → validate_rule_conflicts forms (raw ∷ rules) ≡ ok tt
      → All (Disjoint raw) rules × (validate_rule_conflicts forms rules ≡ ok tt)
  unfolding validate_rule_conflicts
  first_checked raw rules false r u plain off e h =
      (disabled-All raw rules off, (rw (off, validate_rule_conflicts) at h))
  first_checked raw rules true (ok done) u plain on e h =
      (check_against-All raw rules u plain e, (rw (on, e, validate_rule_conflicts) at h))
  first_checked raw rules true (err x) u plain on e h =
      let stopped : err x ≡ ok tt = (rw (on, e, validate_rule_conflicts) at h) in cc stopped

  -- Rules that pass the conflict check and of which no listen host is an IPv4 address mapped into IPv6:
  -- no two of them, at different places in the list, both listen for the same transport, on the same
  -- port, at the same address, where a wildcard host listens at every address, an unspecified address at
  -- every address of its family, and any other host at its address as the plan takes it.
  pub validate_rule_conflicts-AllDisjoint :
      (rules : List Rule)
      → All PlainHost rules
      → validate_rule_conflicts forms rules ≡ ok tt
      → AllDisjoint rules
  validate_rule_conflicts-AllDisjoint [] plain h = tt
  validate_rule_conflicts-AllDisjoint (raw ∷ rules) (u, plain) h =
      let (apart, rest) = first_checked raw rules _ _ u plain refl refl h in
      (apart, validate_rule_conflicts-AllDisjoint rules plain rest)
