-- ===== src/Nft/Specs/Slices.antt =====
-- The slices that `retiredNFTSpecs` and `gateNFTReplacements` of internal/proxy/nft_recovery.go cut
-- from a rule, port by port.
use go_nftables_portbridge.Prelude.{
  ℕ, ◌+◌, ◌-◌, ◌≤◌, ◌≡◌, refl, Bool, true, false, ◌&&◌, ◌||◌, not, List, [], ◌∷◌, map, All, any,
  arith, Bool-cases, inl, inr, ◌∙◌, ap, ◌==◌,
}
use go_nftables_portbridge.Prelude.Int.{ℤ, pos, pos_part, ◌+ℤ◌, ◌-ℤ◌, +ℤ-pos, -ℤ-pos}
use go_nftables_portbridge.Plan.{NftRuleSpec}
use go_nftables_portbridge.Nft.Ports.{PortInterval, interval, slice_ports, nft_last_port, end_or}
use go_nftables_portbridge.Nft.Ports.Subtract.{
  within, any_within, IsRange, range, IsPart, subtract-IsPart, subtract_exact,
}
use go_nftables_portbridge.Nft.Keys.{KernelForms, nft_rule_identity}
use go_nftables_portbridge.Nft.Keys.Fits.{Fits, InRange, in_range}
use go_nftables_portbridge.Nft.Path.{KernelPath, carries, in_lane}
use go_nftables_portbridge.Nft.Specs.{remaining, whole}

pub low_port : NftRuleSpec → ℕ
low_port s = pos_part s.listen_port

pub high_port : NftRuleSpec → ℕ
high_port s = pos_part (nft_last_port s)

ports-IsRange :
    {a b t u : ℤ} → InRange a b t u → IsRange 1 65535 a b × IsRange (pos_part a) (pos_part b) a b
ports-IsRange (in_range a b t u h k l m n e) =
    (range a b h h k l l, range a b h (omega arith) k (omega arith) l)

-- The end of a range that is written out is its end.
pub IsRange-end :
    (port : ℕ) {low high : ℕ} {v w : ℤ}
    → IsRange low high v w
    → within port v (end_or w v) ≡ within port v w
IsRange-end port (range a b h i j l m) = ground arith

module _ (k : KernelForms) where
  pub whole-IsPart :
      (s : NftRuleSpec) → Fits k s → All (IsPart (low_port s) (high_port s)) (whole s)
  unfolding low_port high_port
  whole-IsPart s f = ((ports-IsRange f.ports).1, tt)

  module _ (taken : NftRuleSpec → Bool) where
    pub remaining-IsPart :
        (low high : ℕ) (specs : List NftRuleSpec) (parts : List PortInterval)
        → All (Fits k) specs
        → All (IsPart low high) parts
        → All (IsPart low high) (remaining taken specs parts)
    unfolding remaining
    remaining-IsPart low high [] parts h p = p
    remaining-IsPart low high (s ∷ specs) parts (f, h) p = elim (Bool-cases (taken s)) [
      | inl off ↦ rw off (
          remaining-IsPart low high specs _ h
            (subtract-IsPart low high parts p (ports-IsRange f.ports).0))
      | inr kept ↦ rw kept (remaining-IsPart low high specs parts h p)
    ]

    -- The ports that are left are those of the parts that no rule takes.
    pub remaining_exact :
        (port low high : ℕ) (specs : List NftRuleSpec) (parts : List PortInterval)
        → All (Fits k) specs
        → All (IsPart low high) parts
        → any_within port (remaining taken specs parts) ≡ (
            any_within port parts
            && not (any (λ s. taken s && within port s.listen_port (nft_last_port s)) specs))
    unfolding remaining
    remaining_exact port low high [] parts h p = no_more (any_within port parts)
      where
        no_more : (b : Bool) → b ≡ (b && true)
        no_more true = refl
        no_more false = refl
    remaining_exact port low high (s ∷ specs) parts (f, h) p = elim (Bool-cases (taken s)) [
      | inl off ↦
          let r = (ports-IsRange f.ports).0 in
          rw off (
            remaining_exact port low high specs _ h (subtract-IsPart low high parts p r)
            ∙ shared (any_within port parts) (within port s.listen_port (nft_last_port s)) _ _
                (subtract_exact port low high parts p r))
      | inr kept ↦ rw kept (remaining_exact port low high specs parts h p)
    ]
      where
        shared : (a b c d : Bool) → d ≡ (a && not b) → (d && not c) ≡ (a && not (b || c))
        shared a b c d e = ground arith

  slice_at :
      (s : NftRuleSpec) (a t x y : ℕ)
      → s.listen_port ≡ pos a
      → s.target_port ≡ pos t
      → a ≤ x
      → x ≤ y
      → y ≤ 65535
      → t ≤ 65535
      → slice_ports s (interval (pos x) (pos y)) ≡ record s {
        listen_port = pos x;
        listen_port_end = pos y;
        target_port = pos (t + x - a);
        target_port_end = pos (t + y - a);
      }
  unfolding slice_ports
  slice_at s a t x y ea et h i j l =
      let first : s.target_port +ℤ pos x -ℤ s.listen_port ≡ pos (t + x - a) =
        rw (ea, et, +ℤ-pos t x (omega arith)) (-ℤ-pos (t + x) a (omega arith) (omega arith)) in
      let last : pos (t + x - a) +ℤ pos y -ℤ pos x ≡ pos (t + y - a) =
        rw (+ℤ-pos (t + x - a) y (omega arith))
          (-ℤ-pos (t + x - a + y) x (omega arith) (omega arith) ∙ ap pos (omega arith)) in
      rw (first, last)

  tail_of_slice :
      (p : KernelPath) (s : NftRuleSpec) (a t x y : ℕ)
      → s.listen_port ≡ pos a
      → s.target_port ≡ pos t
      → 1 ≤ a
      → a ≤ x
      → x ≤ y
      → (pos_part (pos (t + x - a)) + p.port == p.target_port + pos_part (pos x))
        ≡ (pos_part s.target_port + p.port == p.target_port + pos_part s.listen_port)
  tail_of_slice p s a t x y ea et h i j = rw (ea, et) (ground arith)

  slice_ends :
      (port x y : ℕ)
      → 1 ≤ x
      → x ≤ y
      → within port (pos x) (end_or (pos y) (pos x)) ≡ within port (pos x) (pos y)
  slice_ends port x y h i = ground arith

  carries-slice_at :
      (p : KernelPath) (s : NftRuleSpec) (a t x y : ℕ)
      → s.listen_port ≡ pos a
      → s.target_port ≡ pos t
      → 1 ≤ a
      → a ≤ x
      → x ≤ y
      → y ≤ 65535
      → t ≤ 65535
      → carries k p (slice_ports s (interval (pos x) (pos y)))
        ≡ (in_lane k p s && within p.port (pos x) (pos y))
  unfolding carries nft_rule_identity
  carries-slice_at p s a t x y ea et h i j l m = rw (
    slice_at s a t x y ea et i j l m,
    tail_of_slice p s a t x y ea et h i j,
    slice_ends p.port x y (omega arith) j,
  )

  Fits-slice_at :
      (s : NftRuleSpec) (a b t u x y : ℕ)
      → s.listen_port ≡ pos a
      → s.target_port ≡ pos t
      → Fits k s
      → 1 ≤ a
      → a ≤ x
      → x ≤ y
      → y ≤ b
      → b ≤ 65535
      → 1 ≤ t
      → u ≤ 65535
      → u + a ≡ t + b
      → Fits k (slice_ports s (interval (pos x) (pos y)))
  unfolding nft_rule_identity
  Fits-slice_at s a b t u x y ea et f h i j v l m n e =
      rw (slice_at s a t x y ea et i j (omega arith) (omega arith)) (record {
        ports = ends (t + x - a) (t + y - a) (omega arith) (omega arith);
        listen = f.listen;
        target = f.target;
        transport = f.transport;
        identity = f.identity;
      })
    where
      same_end : (p q : ℕ) → 1 ≤ q → end_or (pos q) (pos p) ≡ pos q
      same_end p q h = ground arith

      ends :
          (p q : ℕ)
          → 1 ≤ p
          → (1 ≤ q) × (q ≤ 65535) × (q + x ≡ p + y)
          → InRange (pos x) (end_or (pos y) (pos x)) (pos p) (end_or (pos q) (pos p))
      ends p q g (r, o, w) =
          rw (same_end x y (omega arith), same_end p q r)
            (in_range x y p q (omega arith) j (omega arith) g o w)

  -- A slice of a rule carries the paths of the rule at the ports of the slice, and fits.
  slice_lem :
      (p : KernelPath) (s : NftRuleSpec) {a b t u v w : ℤ}
      → s.listen_port ≡ a
      → s.target_port ≡ t
      → Fits k s
      → InRange a b t u
      → IsRange (pos_part a) (pos_part b) v w
      → (carries k p (slice_ports s (interval v w)) ≡ (in_lane k p s && within p.port v w))
        × Fits k (slice_ports s (interval v w))
  slice_lem p s ea et f (in_range a b t u h i j l m e) (range x y _ low o high q) = (
    carries-slice_at p s a t x y ea et h low o q (omega arith),
    Fits-slice_at s a b t u x y ea et f h low o high j l m e,
  )

  slices_lem :
      (p : KernelPath) (s : NftRuleSpec) (parts : List PortInterval)
      → Fits k s
      → All (IsPart (low_port s) (high_port s)) parts
      → (any (carries k p) (map (slice_ports s) parts) ≡ (in_lane k p s && any_within p.port parts))
        × All (Fits k) (map (slice_ports s) parts)
  unfolding low_port high_port
  slices_lem p s [] f h = (none_left (in_lane k p s), tt)
    where
      none_left : (b : Bool) → false ≡ (b && false)
      none_left true = refl
      none_left false = refl
  slices_lem p s (part ∷ parts) f (r, h) =
      let (one, fits) = slice_lem p s {v = part.first} {w = part.last} refl refl f f.ports r in
      let (rest, all) = slices_lem p s parts f h in
      (
        rw (one, rest)
            (both (in_lane k p s) (within p.port part.first part.last) (any_within p.port parts)),
        (fits, all),
      )
    where
      both : (a b c : Bool) → ((a && b) || (a && c)) ≡ (a && (b || c))
      both true b c = refl
      both false b c = refl

  -- What is left of a rule when rules have taken their ports carries the paths of the rule at the
  -- ports that none of them took.
  pub sliced_exact :
      (taken : NftRuleSpec → Bool) (p : KernelPath) (s : NftRuleSpec) (specs : List NftRuleSpec)
      → Fits k s
      → All (Fits k) specs
      → (any (carries k p) (map (slice_ports s) (remaining taken specs (whole s))) ≡ (
          carries k p s
          && not (any (λ n. taken n && within p.port n.listen_port (nft_last_port n)) specs)))
        × All (Fits k) (map (slice_ports s) (remaining taken specs (whole s)))
  unfolding carries
  sliced_exact taken p s specs f h =
      let parts = whole-IsPart s f in
      let (exact, fits) =
        slices_lem p s (remaining taken specs (whole s)) f
          (remaining-IsPart taken (low_port s) (high_port s) specs (whole s) h parts) in
      (
        exact
            ∙ regroup (in_lane k p s) (within p.port s.listen_port (nft_last_port s)) _ _
                (remaining_exact taken p.port (low_port s) (high_port s) specs (whole s) h parts),
        fits,
      )
    where
      regroup : (a b c d : Bool) → d ≡ ((b || false) && not c) → (a && d) ≡ ((a && b) && not c)
      regroup a b c d e = ground arith
