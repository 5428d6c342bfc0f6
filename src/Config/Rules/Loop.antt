-- ===== src/Config/Rules/Loop.antt =====
-- The loop over the rules in `validateRules` of internal/config/config.go.
use go_nftables_portbridge.Prelude.{
  ℕ, ◌+◌, ◌-◌, ◌*◌, ◌≤◌, ◌<◌, ◌≡◌, refl, ◌∙◌, ap, inl, inr, Bool, true, false, arith, List, [], ◌∷◌,
  some, Bool-cases, if◌then◌else◌,
}
use go_nftables_portbridge.Prelude.Int.{
  ℤ, pos, nonzero, ltb_ℤ, pos_part, ◌+ℤ◌, ◌-ℤ◌, +ℤ-pos, -ℤ-pos,
}
use go_nftables_portbridge.Text.{Text, codes, text_eq}
use go_nftables_portbridge.Netip.{Addr}
use go_nftables_portbridge.Netip.Forms.{Forms}
use go_nftables_portbridge.Config.{Rule, ResourceLimits}
use go_nftables_portbridge.Config.Errors.{
  Result, ok, err, ◌>>◌, reject_if, >>=-eq-ok, health_endpoints,
}
use go_nftables_portbridge.Config.Normalize.{normalize_rule, last_listen_port, last_target_port}
use go_nftables_portbridge.Config.Targets.{validate_target_address}
use go_nftables_portbridge.Config.Prefixes.{normalize_target_cidrs}
use go_nftables_portbridge.Config.Rules.Spec.{
  TcpFits, UdpFits, BuffersFit, IdentityFits, check_tcp_limits-TcpFits, check_udp_limits-UdpFits,
  check_udp_buffers-BuffersFit, check_identity-IdentityFits,
}
use go_nftables_portbridge.Config.Rules.Ports.{PortsFit, check_ports-PortsFit}
use go_nftables_portbridge.Config.Rules.{
  check_identity, check_planes, check_ports, check_target_host, check_backup, check_health,
  check_listen_host, check_tcp_limits, check_udp_limits, check_udp_buffers, check_targets,
  check_rule, check_rules, check_literal,
}

-- A chain whose first part returns nothing.
seq-eq-ok {ℓ} :
    {A : Type ℓ} (m : Result (Unit {0})) (k : Result A) {a : A}
    → (m >> k) ≡ ok a
    → (m ≡ ok tt) × (k ≡ ok a)
seq-eq-ok (ok u) k h = (refl, h)
seq-eq-ok (err e) k h = cc

-- The health endpoints of a rule with its ports: two listeners for each port behind `*`.
abbrev health_count : Bool → ℤ → ℤ → ℕ
health_count star first last = (pos_part last - pos_part first + 1) * (if star then 2 else 1)

abbrev pub health_ports : Rule → ℕ
health_ports r =
    if nonzero r.tcp_health_interval_seconds
    then health_count (text_eq r.listen_host (codes "*")) r.listen_port (last_listen_port r)
    else 0

range_ports : (l n : ℕ) → l + n ≤ 65535 → pos (l + n) -ℤ pos l +ℤ pos 1 ≡ pos (n + 1)
range_ports l n h = ground (arith, -ℤ-pos (l + n) l, +ℤ-pos (l + n - l) 1)

-- The sum of the source, for a rule on n + 1 ports.
added_endpoints :
    (star : Bool) (n k : ℕ)
    → n < 65536
    → k ≤ 256
    → (pos k +ℤ (if star then pos (n + 1) +ℤ pos (n + 1) else pos (n + 1)))
      ≡ pos (k + (n + 1) * (if star then 2 else 1))
added_endpoints true n k h j = ground (arith, +ℤ-pos (n + 1) (n + 1), +ℤ-pos k (n + 1 + (n + 1)))
added_endpoints false n k h j = ground (arith, +ℤ-pos k (n + 1))

within_256 :
    (total t : ℤ) (x : ℕ)
    → total ≡ pos x
    → (reject_if (ltb_ℤ (pos 256) total) health_endpoints >> ok total) ≡ ok t
    → (t ≡ pos x) × (x ≤ 256)
within_256 total t x e h = ground arith

total_eq :
    (star : Bool) (first last ports : ℤ) (l n k : ℕ)
    → first ≡ pos l
    → last ≡ pos (l + n)
    → ports ≡ last -ℤ first +ℤ pos 1
    → l + n ≤ 65535
    → k ≤ 256
    → (pos k +ℤ (if star then ports +ℤ ports else ports)) ≡ pos (k + health_count star first last)
total_eq star first last ports l n k p q e fits small =
    rw (e, p, q, range_ports l n fits)
      (added_endpoints star n k (omega arith) small
        ∙ ap (λ (x : ℕ). pos (k + (x + 1) * (if star then 2 else 1))) (omega arith))

check_health_total :
    (r : Rule) (l n k : ℕ) (t : ℤ)
    → r.listen_port ≡ pos l
    → last_listen_port r ≡ pos (l + n)
    → l + n ≤ 65535
    → k ≤ 256
    → check_health r (pos k) ≡ ok t
    → (t ≡ pos (k + health_ports r)) × (k + health_ports r ≤ 256)
unfolding check_health
check_health_total r l n k t p q fits small h =
    elim (Bool-cases (nonzero r.tcp_health_interval_seconds)) [
      | inr off ↦ rw off (ground (arith, (rw (off, check_health) at h)))
      | inl on ↦ rw on (
          within_256 _ t _
            (total_eq (text_eq r.listen_host (codes "*")) _ _ _ l n k p q refl fits small)
            (seq-eq-ok _ _ (rw (on, check_health) at h)).1)
    ]

counted :
    (r : Rule) (k : ℕ) (t : ℤ)
    → k ≤ 256
    → PortsFit r.listen_port (last_listen_port r) r.target_port (last_target_port r)
    → check_health r (pos k) ≡ ok t
    → (t ≡ pos (k + health_ports r)) × (k + health_ports r ≤ 256)
counted r k t small (l, _, n, p, q, _, _, _, top, _, _, _) =
    check_health_total r l n k t p q top small

module _ (forms : Forms) where
  open forms use {parse_addr}

  -- What the loop guarantees of one normalized rule, next to the identifiers before it.
  pub record RuleFits (limits : ResourceLimits) (seen : List Text) (r : Rule) : Type 0 where
    pub identity : IdentityFits seen r
    pub ports : PortsFit r.listen_port (last_listen_port r) r.target_port (last_target_port r)
    pub tcp : TcpFits limits r
    pub udp : UdpFits limits r
    pub buffers : BuffersFit r
    pub target :
        (a : Addr) → parse_addr r.target_host ≡ some a → validate_target_address forms r a ≡ ok tt

  literal_target :
      (r : Rule) (a : Addr)
      → parse_addr r.target_host ≡ some a
      → check_targets forms r ≡ ok tt
      → validate_target_address forms r a ≡ ok tt
  unfolding check_targets check_literal
  literal_target r a e h =
      let (targets, _, rest) =
        >>=-eq-ok (normalize_target_cidrs forms r.target_cidr_allowlist) _ h in
      let literal : check_literal forms r r.target_host ≡ ok tt = (seq-eq-ok _ _ rest).1 in
      rw (e, check_literal) at literal

  check_rule-RuleFits :
      (limits : ResourceLimits) (seen : List Text) (k : ℕ) (r : Rule) (t : ℤ)
      → k ≤ 256
      → check_rule forms limits seen (pos k) r ≡ ok t
      → RuleFits limits seen r × (t ≡ pos (k + health_ports r)) × (k + health_ports r ≤ 256)
  unfolding check_rule
  check_rule-RuleFits limits seen k r t small h =
      let (identity, h₁) = seq-eq-ok (check_identity seen r) _ h in
      let (planes, h₂) = seq-eq-ok (check_planes r) _ h₁ in
      let (ports, h₃) = seq-eq-ok (check_ports r) _ h₂ in
      let (host, h₄) = seq-eq-ok (check_target_host r) _ h₃ in
      let (backup, h₅) = seq-eq-ok (check_backup forms r) _ h₄ in
      let (total, health, h₆) = >>=-eq-ok (check_health r (pos k)) _ h₅ in
      let (listen, h₇) = seq-eq-ok (check_listen_host forms r) _ h₆ in
      let (tcp, h₈) = seq-eq-ok (check_tcp_limits limits r) _ h₇ in
      let (udp, h₉) = seq-eq-ok (check_udp_limits limits r) _ h₈ in
      let (buffers, h₁₀) = seq-eq-ok (check_udp_buffers r) _ h₉ in
      let (targets, done) = seq-eq-ok (check_targets forms r) _ h₁₀ in
      let fits = (check_ports-PortsFit r).0 ports in
      let (same, bound) = counted r k total small fits health in
      (
        record {
          identity = check_identity-IdentityFits seen r identity;
          ports = fits;
          tcp = (check_tcp_limits-TcpFits limits r).0 tcp;
          udp = (check_udp_limits-UdpFits limits r).0 udp;
          buffers = (check_udp_buffers-BuffersFit r).0 buffers;
          target = λ a e. literal_target r a e targets;
        },
        ground (arith, done),
        bound,
      )

  -- Each rule fits, with the identifiers of the rules before it in `seen`.
  abbrev pub RulesFit : ResourceLimits → List Text → List Rule → Type 0
  RulesFit limits seen [] = Unit
  RulesFit limits seen (raw ∷ rules) =
      RuleFits limits seen (normalize_rule forms raw)
      × RulesFit limits ((normalize_rule forms raw).id ∷ seen) rules

  abbrev pub health_total : List Rule → ℕ
  health_total [] = 0
  health_total (raw ∷ rules) = health_ports (normalize_rule forms raw) + health_total rules

  step_over :
      (limits : ResourceLimits) (seen : List Text) (k : ℕ) (raw : Rule) (rules : List Rule)
      (step : Result ℤ)
      → check_rule forms limits seen (pos k) (normalize_rule forms raw) ≡ step
      → check_rules forms limits seen (pos k) (raw ∷ rules) ≡ ok tt
      → (t : ℤ) × (check_rule forms limits seen (pos k) (normalize_rule forms raw) ≡ ok t)
        × (check_rules forms limits ((normalize_rule forms raw).id ∷ seen) t rules ≡ ok tt)
  unfolding check_rules
  step_over limits seen k raw rules (ok t) e h = (t, e, (rw (e, check_rules) at h))
  step_over limits seen k raw rules (err x) e h =
      let stopped : err x ≡ ok tt = (rw (e, check_rules) at h) in cc stopped

  -- Rules that the loop of `validateRules` lets through, with the identifiers `seen` and `k` health
  -- endpoints before them, `k` at most 256. Each rule, once normalized, has an identifier that is not
  -- empty and was not seen, a name, ports that fit, TCP and UDP limits within the global ones and
  -- buffers within their bounds; where its target is an address, the target policy lets it through.
  -- The health endpoints of all rules, with the `k`, are at most 256.
  pub check_rules-RulesFit :
      (limits : ResourceLimits) (seen : List Text) (k : ℕ) (rules : List Rule)
      → k ≤ 256
      → check_rules forms limits seen (pos k) rules ≡ ok tt
      → RulesFit limits seen rules × (k + health_total rules ≤ 256)
  check_rules-RulesFit limits seen k [] small h = (tt, omega arith)
  check_rules-RulesFit limits seen k (raw ∷ rules) small h =
      let (t, passed, rest) = step_over limits seen k raw rules _ refl h in
      let (fits, same, bound) = check_rule-RuleFits limits seen k _ t small passed in
      let (others, total) =
        check_rules-RulesFit limits ((normalize_rule forms raw).id ∷ seen)
          (k + health_ports (normalize_rule forms raw)) rules bound (rw same at rest) in
      ((fits, others), omega arith)
