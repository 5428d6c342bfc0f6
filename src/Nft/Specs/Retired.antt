-- ===== src/Nft/Specs/Retired.antt =====
-- `retiredNFTSpecs` and `previouslyAdmittedNFT` of internal/proxy, port by port.
use go_nftables_portbridge.Prelude.{
  ℕ, ◌+◌, ◌≡◌, refl, Bool, true, false, ◌&&◌, ◌||◌, not, List, [], ◌∷◌, map, All, All-append, any,
  any-append, arith, ◌∙◌, sym, ◌==◌,
}
use go_nftables_portbridge.Prelude.Int.{ℤ, pos_part, ◌-ℤ◌}
use go_nftables_portbridge.Text.{Text, text_eq, text_eq_iff}
use go_nftables_portbridge.Netip.{Addr, addr_eq, is_unspecified}
use go_nftables_portbridge.Netip.Facts.{addr_eq_iff}
use go_nftables_portbridge.Plan.{NftRuleSpec}
use go_nftables_portbridge.Nft.Ports.{slice_ports, nft_last_port}
use go_nftables_portbridge.Nft.Ports.Subtract.{within}
use go_nftables_portbridge.Nft.Keys.{
  KernelForms, KernelDocumented, nft_rule_identity, unique_nft_specs, equal_ℤ,
}
use go_nftables_portbridge.Nft.Keys.Fits.{Fits, InRange, in_range}
use go_nftables_portbridge.Nft.Keys.Distinct.{nft_retirement_key-SamePath}
use go_nftables_portbridge.Nft.Keys.Unique.{any_unique, All-unique}
use go_nftables_portbridge.Nft.Path.{KernelPath, carries, carries-SamePath, in_lane}
use go_nftables_portbridge.Nft.Specs.{
  in_the_way, goes_on, remaining, whole, retired_parts, retired_nft_specs,
}
use go_nftables_portbridge.Nft.Specs.Slices.{sliced_exact}

iff_eq : (a b : Bool) → (a ≡ true → b ≡ true) → (b ≡ true → a ≡ true) → a ≡ b
iff_eq true b f g = sym (f refl)
iff_eq false true f g = g refl
iff_eq false false f g = refl

-- The distances of two ranges agree exactly when the ports that they send a port to do.
same_distance :
    (port target : ℕ) {a b t u c d v w : ℤ}
    → InRange a b t u
    → InRange c d v w
    → (pos_part t + port == target + pos_part a) ≡ true
    → equal_ℤ (t -ℤ a) (v -ℤ c) ≡ (pos_part v + port == target + pos_part c)
unfolding ◌-ℤ◌
same_distance port target (in_range a b t u h i j l m e) (in_range c d v w h' i' j' l' m' e') same =
    ground arith

module _ (k : KernelForms) where
  -- What a rule that carries a path says of the path.
  seven :
      (a b c d e f g : Bool)
      → (a && b && c && d && e && f && g) ≡ true
      → (a ≡ true) × (b ≡ true) × (c ≡ true) × (d ≡ true) × (e ≡ true) × (f ≡ true) × (g ≡ true)
  seven true true true true true true true h = (refl, refl, refl, refl, refl, refl, refl)
  seven true true true true true true false h = cc
  seven true true true true true false g h = cc
  seven true true true true false f g h = cc
  seven true true true false e f g h = cc
  seven true true false d e f g h = cc
  seven true false c d e f g h = cc
  seven false b c d e f g h = cc

  together :
      (a b c d e f g a' b' c' d' e' f' g' : Bool)
      → a ≡ a'
      → b ≡ b'
      → c ≡ c'
      → d ≡ d'
      → e ≡ e'
      → f ≡ f'
      → g ≡ g'
      → (a && b && c && d && e && f && g) ≡ (a' && b' && c' && d' && e' && f' && g')
  together a b c d e f g a' b' c' d' e' f' g' p q r s t u v = rw (p, q, r, s, t, u, v)

  text_flip : (s t u : Text) → text_eq s t ≡ true → text_eq s u ≡ text_eq u t
  text_flip s t u h =
      let same : s ≡ t = (text_eq_iff s t).0 h in
      iff_eq (text_eq s u) (text_eq u t)
        (λ e. (text_eq_iff u t).1 (sym ((text_eq_iff s u).0 e) ∙ same))
        (λ e. (text_eq_iff s u).1 (same ∙ sym ((text_eq_iff u t).0 e)))

  number_flip : (s t u : ℕ) → (s == t) ≡ true → (s == u) ≡ (u == t)
  number_flip s t u h = ground arith

  goes_on-in_lane :
      (p : KernelPath) (s n : NftRuleSpec)
      → Fits k s
      → Fits k n
      → in_lane k p s ≡ true
      → goes_on k s n ≡ in_lane k p n
  unfolding goes_on
  goes_on-in_lane p s n f g h =
      let (a, b, c, d, e, t, o) = seven _ _ _ _ _ _ _ h in
      together _ _ _ _ _ _ _ _ _ _ _ _ _ _
        (text_flip (nft_rule_identity k s) p.identity (nft_rule_identity k n) a)
        (number_flip s.family p.family n.family b) (text_flip s.protocol p.protocol n.protocol c)
        (number_flip s.conntrack_mark p.mark n.conntrack_mark d)
        (host s.listen_host p.listen n.listen_host e) (host s.target_host p.target n.target_host t)
        (same_distance p.port p.target_port f.ports g.ports o)
    where
      host : (x y z : Addr) → addr_eq x y ≡ true → addr_eq x z ≡ addr_eq z y
      host x y z h =
          let same : x ≡ y = (addr_eq_iff x y).0 h in
          iff_eq (addr_eq x z) (addr_eq z y)
            (λ e. (addr_eq_iff z y).1 (sym ((addr_eq_iff x z).0 e) ∙ same))
            (λ e. (addr_eq_iff x z).1 (same ∙ sym ((addr_eq_iff z y).0 e)))

  lane :
      (p : KernelPath) (s : NftRuleSpec)
      → carries k p s ≡ true
      → (text_eq (nft_rule_identity k s) p.identity ≡ true)
        × ((s.family == p.family) ≡ true)
        × (text_eq s.protocol p.protocol ≡ true)
        × ((s.conntrack_mark == p.mark) ≡ true)
        × (addr_eq s.listen_host p.listen ≡ true)
        × (addr_eq s.target_host p.target ≡ true)
        × ((pos_part s.target_port + p.port == p.target_port + pos_part s.listen_port) ≡ true)
  unfolding carries
  lane p s c =
      seven (text_eq (nft_rule_identity k s) p.identity) (s.family == p.family)
        (text_eq s.protocol p.protocol) (s.conntrack_mark == p.mark)
        (addr_eq s.listen_host p.listen) (addr_eq s.target_host p.target)
        (pos_part s.target_port + p.port == p.target_port + pos_part s.listen_port)
        (first (in_lane k p s) (within p.port s.listen_port (nft_last_port s)) c)
    where
      first : (a b : Bool) → (a && b) ≡ true → a ≡ true
      first true b h = refl
      first false b h = cc

  -- Two rules that carry one path share its transport, its host and its port.
  pub carries-in_the_way :
      (p : KernelPath) (s n : NftRuleSpec)
      → carries k p s ≡ true
      → carries k p n ≡ true
      → (in_the_way s n && within p.port n.listen_port (nft_last_port n)) ≡ true
  unfolding carries in_the_way
  carries-in_the_way p s n c e =
      let (a, b, t, m, l, h, o) = lane p s c in
      let (a', b', t', m', l', h', o') = lane p n e in
      let same_family : (n.family == s.family) ≡ true = equal n.family s.family p.family b' b in
      let same_protocol : text_eq n.protocol s.protocol ≡ true =
        (text_eq_iff n.protocol s.protocol).1 (
          (text_eq_iff n.protocol p.protocol).0 t'
          ∙ sym ((text_eq_iff s.protocol p.protocol).0 t)) in
      let same_host : addr_eq n.listen_host s.listen_host ≡ true =
        (addr_eq_iff n.listen_host s.listen_host).1 (
          (addr_eq_iff n.listen_host p.listen).0 l'
          ∙ sym ((addr_eq_iff s.listen_host p.listen).0 l)) in
      let inside : within p.port n.listen_port (nft_last_port n) ≡ true =
        second (in_lane k p n) (within p.port n.listen_port (nft_last_port n)) e in
      rw (same_family, same_protocol, same_host, inside)
        (last (is_unspecified n.listen_host) (is_unspecified s.listen_host))
    where
      second : (a b : Bool) → (a && b) ≡ true → b ≡ true
      second a b h = ground arith

      equal : (x y z : ℕ) → (x == z) ≡ true → (y == z) ≡ true → (x == y) ≡ true
      equal x y z h g = ground arith

      last : (a b : Bool) → ((a || b || true) && true) ≡ true
      last a b = ground arith

  -- Among rules that fit, those that go on with a rule at a path are those that carry the path.
  any-goes_on :
      (p : KernelPath) (s : NftRuleSpec) (desired : List NftRuleSpec)
      → Fits k s
      → All (Fits k) desired
      → carries k p s ≡ true
      → any (λ n. goes_on k s n && within p.port n.listen_port (nft_last_port n)) desired
        ≡ any (carries k p) desired
  unfolding carries
  any-goes_on p s [] f h c = refl
  any-goes_on p s (n ∷ desired) f (g, h) c =
      rw (goes_on-in_lane p s n f g (first _ _ c), any-goes_on p s desired f h c)
    where
      first : (a b : Bool) → (a && b) ≡ true → a ≡ true
      first true b h = refl
      first false b h = cc

  pub retired_parts_exact :
      (p : KernelPath) (old desired : List NftRuleSpec)
      → All (Fits k) old
      → All (Fits k) desired
      → (any (carries k p) (retired_parts k old desired)
          ≡ (any (carries k p) old && not (any (carries k p) desired)))
        × All (Fits k) (retired_parts k old desired)
  unfolding retired_parts
  retired_parts_exact p [] desired f g = (refl, tt)
  retired_parts_exact p (s ∷ old) desired (f, h) g =
      let (one, fits) = sliced_exact k (goes_on k s) p s desired f g in
      let (rest, all) = retired_parts_exact p old desired h g in
      let parts = map (slice_ports s) (remaining (goes_on k s) desired (whole s)) in
      (
        any-append (carries k p) parts (retired_parts k old desired)
            ∙ split (carries k p s) (any (carries k p) old) (any (carries k p) desired) _ _ _ one
                rest (any-goes_on p s desired f g),
        All-append (Fits k) parts (retired_parts k old desired) fits all,
      )
    where
      split :
          (a b c taken x y : Bool)
          → x ≡ (a && not taken)
          → y ≡ (b && not c)
          → (a ≡ true → taken ≡ c)
          → (x || y) ≡ ((a || b) && not c)
      split true b c taken x y e f h = let same : taken ≡ c = h refl in ground arith
      split false b c taken x y e f h = ground arith

  module _ (d : KernelDocumented k) where
    pub any_unique-Fits :
        (p : KernelPath) (specs : List NftRuleSpec)
        → All (Fits k) specs
        → any (carries k p) (unique_nft_specs k specs) ≡ any (carries k p) specs
    any_unique-Fits p specs h =
        any_unique k (Fits k) (carries k p)
          (λ r s f g e. carries-SamePath k p r s (nft_retirement_key-SamePath k d r s f g e)) specs
          h

    -- What retires, when some rules take the place of others, is port by port what the old rules
    -- forward and the new ones do not forward for the same rule to the same target, and every rule
    -- of it fits again.
    pub retired_nft_specs_exact :
        (p : KernelPath) (old desired : List NftRuleSpec)
        → All (Fits k) old
        → All (Fits k) desired
        → (any (carries k p) (retired_nft_specs k old desired)
            ≡ (any (carries k p) old && not (any (carries k p) desired)))
          × All (Fits k) (retired_nft_specs k old desired)
    unfolding retired_nft_specs
    retired_nft_specs_exact p old desired f g =
        let (exact, fits) = retired_parts_exact p old desired f g in
        (
          any_unique-Fits p (retired_parts k old desired) fits ∙ exact,
          All-unique k (Fits k) (retired_parts k old desired) fits,
        )
