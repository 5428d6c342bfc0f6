-- ===== src/Plan/Kernel.antt =====
-- One rule's part of `buildPlan` in internal/proxy/plan.go: the kernel rules that it adds.
use go_nftables_portbridge.Prelude.{
  ℕ, ◌≡◌, refl, ◌∙◌, ap, arith, ◌⊎◌, inl, inr, true, false, List, [], ◌∷◌, ◌++◌, map, Option, none,
  some, All, Bool-cases, subst,
}
use go_nftables_portbridge.Text.{Text, codes, text_eq, text_eq_sound, trim_space, is_empty}
use go_nftables_portbridge.Netip.{Addr, v4, v6, zero_addr, unmap, is_loopback, is_unspecified, zone}
use go_nftables_portbridge.Netip.Forms.{Forms}
use go_nftables_portbridge.Config.{
  Rule, protocol_both, protocol_tcp, protocol_udp, rule_data_plane_go,
}
use go_nftables_portbridge.Config.Normalize.{last_listen_port, last_target_port}
use go_nftables_portbridge.Config.Errors.{ok}
use go_nftables_portbridge.Config.Targets.{validate_target_address}
use go_nftables_portbridge.Plan.Resolve.Policy.{Passes}
use go_nftables_portbridge.Plan.{
  ListenFamily, NftRuleSpec, ForwardingPlan, in_family, first_address_for_family, any_family,
  listen_families, family_of, parse_or_zero,
}
use go_nftables_portbridge.Plan.Build.{
  Context, Progress, spec_for, protocols_of, add_go_path, through_go, through_nft, plan_kernel,
  plan_listener, plan_listeners, plan_resolved,
}

All-append :
    (P : NftRuleSpec → Type 0) (xs ys : List NftRuleSpec) → All P xs → All P ys → All P (xs ++ ys)
All-append P [] ys h k = k
All-append P (x ∷ xs) ys (p, h) k = (p, All-append P xs ys h k)

module _ (forms : Forms) where
  -- An address at which a listen host listens, and its family: the unspecified address of either
  -- family for the wildcard, otherwise the host's own address, an IPv4 one where it is mapped into
  -- IPv6. A host that does not parse has the zero address, in family 6.
  pub data ListensFor (host : Text) : ℕ → Addr → Type 0 where
    any_4 : host ≡ codes "*" → ListensFor host 4 (v4 0)
    any_6 : host ≡ codes "*" → ListensFor host 6 (v6 0 [])
    one_4 :
        (a : Addr) (n : ℕ)
        → forms.parse_addr (trim_space host) ≡ some a
        → unmap a ≡ v4 n
        → ListensFor host 4 (v4 n)
    one_6 :
        (a : Addr) (n : ℕ) (z : Text)
        → forms.parse_addr (trim_space host) ≡ some a
        → unmap a ≡ v6 n z
        → ListensFor host 6 (v6 n z)
    unparsed : forms.parse_addr (trim_space host) ≡ none → ListensFor host 6 zero_addr
    zero : forms.parse_addr (trim_space host) ≡ some zero_addr → ListensFor host 6 zero_addr

  -- A transport of a rule: its own one, or either where it has both.
  abbrev pub ProtocolOf : Rule → Text → Type 0
  ProtocolOf r t =
      (t ≡ r.protocol) ⊎ ((r.protocol ≡ protocol_both) × ((t ≡ protocol_tcp) ⊎ (t ≡ protocol_udp)))

  -- What the kernel's rule says of the forwarding rule that it comes from.
  pub record Forwards (r : Rule) (s : NftRuleSpec) : Type 0 where
    pub same_rule : s.rule_id ≡ r.id
    pub same_port : s.listen_port ≡ r.listen_port
    pub passes : validate_target_address forms r s.target_host ≡ ok tt
    pub one_family : in_family s.family s.target_host ≡ true
    pub no_zone : is_empty (zone s.target_host) ≡ true
    pub not_loopback : is_loopback s.listen_host ≡ false
    pub listens : ListensFor r.listen_host s.family s.listen_host
    pub same_ports :
        (s.listen_port_end ≡ last_listen_port r)
        × (s.target_port ≡ r.target_port)
        × (s.target_port_end ≡ last_target_port r)
    pub protocol : ProtocolOf r s.protocol

  -- Where the listeners of a rule listen.
  abbrev WellPlaced : Text → ListenFamily → Type 0
  WellPlaced host l = ListensFor host l.family l.host

  unmap_zero : (b : Addr) → unmap b ≡ zero_addr → b ≡ zero_addr
  unfolding unmap
  unmap_zero zero_addr f = refl
  unmap_zero (v4 n) f = cc
  unmap_zero (v6 n z) f = ground arith

  one-WellPlaced :
      (host : Text) (a : Addr)
      → forms.parse_addr (trim_space host) ≡ some a
      → WellPlaced host (family_of (unmap a))
  one-WellPlaced host a e = placed (unmap a) refl
    where
      placed : (b : Addr) → unmap a ≡ b → WellPlaced host (family_of b)
      placed (v4 n) f = one_4 a n e f
      placed (v6 n z) f = one_6 a n z e f
      placed zero_addr f = zero (e ∙ ap some (unmap_zero a f))

  listen_families-WellPlaced : (host : Text) → All (WellPlaced host) (listen_families forms host)
  unfolding listen_families unmap
  listen_families-WellPlaced host = elim (Bool-cases (text_eq host (codes "*"))) [
    | inl star ↦
        let any : host ≡ codes "*" = text_eq_sound host (codes "*") star in
        rw star (any_4 any, (any_6 any, tt))
    | inr other ↦ rw other (parsed (forms.parse_addr (trim_space host)) refl, tt)
  ]
    where
      parsed :
          (o : Option Addr)
          → forms.parse_addr (trim_space host) ≡ o
          → WellPlaced host (family_of (unmap (parse_or_zero forms (trim_space host))))
      parsed none e = rw (e, parse_or_zero) (unparsed e)
      parsed (some a) e = rw (e, parse_or_zero) (one-WellPlaced host a e)

  first-Passes :
      (r : Rule) (family : ℕ) (xs : List Addr) (a : Addr)
      → All (Passes forms r) xs
      → first_address_for_family xs family ≡ some a
      → Passes forms r a × (in_family family a ≡ true)
  unfolding first_address_for_family
  first-Passes r family [] a h e = cc
  first-Passes r family (x ∷ xs) a (p, h) e = elim (Bool-cases (in_family family x)) [
    | inl here ↦
        let same : some x ≡ some a = (rw (here, first_address_for_family) at e) in
        let eq : x ≡ a = cc same in
        (subst (Passes forms r) eq p, subst (λ (b : Addr). in_family family b ≡ true) eq here)
    | inr later ↦ first-Passes r family xs a h (rw (later, first_address_for_family) at e)
  ]

  module _ (context : Context) (r : Rule) (P : NftRuleSpec → Type 0)
      (good : (s : NftRuleSpec) → Forwards r s → P s) where
    abbrev Fine : Progress → Type 0
    Fine s = All P s.plan.nft_specs

    through_go-Fine :
        (listener : ListenFamily) (o : Option Addr) (kind : Text) (s : Progress)
        → Fine s
        → Fine (through_go forms r listener o kind s)
    unfolding add_go_path
    through_go-Fine listener none kind s h = h
    through_go-Fine listener (some a) kind s h = h

    spec_for-All :
        (listener : ListenFamily) (target : Addr) (protocols : List Text)
        → Passes forms r target
        → in_family listener.family target ≡ true
        → is_empty (zone target) ≡ true
        → is_loopback listener.host ≡ false
        → WellPlaced r.listen_host listener
        → All (ProtocolOf r) protocols
        → All P (map (spec_for context r listener target) protocols)
    spec_for-All listener target [] p f z l placed ts = tt
    spec_for-All listener target (t ∷ protocols) p f z l placed (own, ts) = (
      good (spec_for context r listener target t) (record {
        same_rule = refl;
        same_port = refl;
        passes = p;
        one_family = f;
        no_zone = z;
        not_loopback = l;
        listens = placed;
        same_ports = (refl, refl, refl);
        protocol = own;
      }),
      spec_for-All listener target protocols p f z l placed ts,
    )

    protocols_of-All : All (ProtocolOf r) (protocols_of r)
    protocols_of-All = elim (Bool-cases (text_eq r.protocol protocol_both)) [
      | inl both ↦
          let two : r.protocol ≡ protocol_both = text_eq_sound r.protocol protocol_both both in
          rw both (inr (two, inl refl), (inr (two, inr refl), tt))
      | inr one ↦ rw one (inl refl, tt)
    ]

    through_nft-Fine :
        (listener : ListenFamily) (target : Addr) (s : Progress)
        → Passes forms r target
        → in_family listener.family target ≡ true
        → is_empty (zone target) ≡ true
        → is_loopback listener.host ≡ false
        → WellPlaced r.listen_host listener
        → Fine s
        → Fine (through_nft forms context r listener target s)
    unfolding add_go_path
    through_nft-Fine listener target s p f z l placed h =
        let all =
          All-append P s.plan.nft_specs _ h
            (spec_for-All listener target (protocols_of r) p f z l placed protocols_of-All) in
        elim (Bool-cases (is_unspecified listener.host)) [
          | inl any ↦ rw any all
          | inr one ↦ rw one all
        ]

    plan_kernel-Fine :
        (addresses : List Addr) (listener : ListenFamily) (o : Option Addr) (s : Progress)
        → ((a : Addr) → o ≡ some a → Passes forms r a × (in_family listener.family a ≡ true))
        → WellPlaced r.listen_host listener
        → Fine s
        → Fine (plan_kernel forms context r addresses listener o s)
    plan_kernel-Fine addresses listener none s found placed h =
        through_go-Fine listener (any_family addresses listener.family none) (codes "proxy") s h
    plan_kernel-Fine addresses listener (some a) s found placed h =
        elim (Bool-cases (is_empty (zone a))) [
          | inr zoned ↦ rw zoned (through_go-Fine listener (some a) (codes "proxy") s h)
          | inl plain ↦ elim (Bool-cases (is_loopback listener.host)) [
            | inl local ↦ rw (plain, local) (through_go-Fine listener (some a) (codes "proxy") s h)
            | inr open_host ↦
                rw (plain, open_host)
                  (through_nft-Fine listener a s (found a refl).0 (found a refl).1 plain open_host
                    placed h)
          ]
        ]

    plan_listener-Fine :
        (addresses : List Addr) (listener : ListenFamily) (s : Progress)
        → All (Passes forms r) addresses
        → WellPlaced r.listen_host listener
        → Fine s
        → Fine (plan_listener forms context r addresses listener s)
    unfolding plan_listener
    plan_listener-Fine addresses listener s all placed h =
        elim (Bool-cases (text_eq r.data_plane rule_data_plane_go)) [
          | inl go ↦ rw go (
              through_go-Fine listener
                (any_family addresses listener.family
                  (first_address_for_family addresses listener.family))
                (codes "forced") s h)
          | inr kernel ↦ rw kernel (
              plan_kernel-Fine addresses listener
                (first_address_for_family addresses listener.family) s
                (λ a e. first-Passes r listener.family addresses a all e) placed h)
        ]

    plan_listeners-Fine :
        (addresses : List Addr) (listeners : List ListenFamily) (s : Progress)
        → All (Passes forms r) addresses
        → All (WellPlaced r.listen_host) listeners
        → Fine s
        → Fine (plan_listeners forms context r addresses listeners s)
    unfolding plan_listeners
    plan_listeners-Fine addresses [] s all ps h = h
    plan_listeners-Fine addresses (l ∷ listeners) s all (placed, ps) h =
        plan_listeners-Fine addresses listeners (plan_listener forms context r addresses l s) all ps
          (plan_listener-Fine addresses l s all placed h)

    pub plan_resolved-Fine :
        (addresses : List Addr) (p : ForwardingPlan)
        → All (Passes forms r) addresses
        → All P p.nft_specs
        → All P (plan_resolved forms context r addresses p).nft_specs
    unfolding plan_resolved
    plan_resolved-Fine addresses p all h =
        plan_listeners-Fine addresses (listen_families forms r.listen_host)
          (record { plan = p; has_nft = false; has_go = false }) all
          (listen_families-WellPlaced r.listen_host) h
