-- ===== src/Nft/Ports/Subtract.antt =====
-- What `nftSubtractPortRange` of internal/proxy/nft_recovery.go leaves of ranges of ports.
use go_nftables_portbridge.Prelude.{
  ℕ, ◌+◌, ◌≤◌, ◌≡◌, refl, Bool, true, false, ◌&&◌, ◌||◌, not, List, [], ◌∷◌, ◌++◌, leb, arith, All,
  All-append, if◌then◌else◌, Bool-cases, inl, inr, ◌-◌, ◌∙◌,
}
use go_nftables_portbridge.Prelude.Int.{ℤ, pos, pos_part, ltb_ℤ, ◌+ℤ◌, ◌-ℤ◌, +ℤ-pos, -ℤ-pos}
use go_nftables_portbridge.Nft.Ports.{PortInterval, interval, cut_part, subtract_port_range}

-- A port of a range.
abbrev pub within : ℕ → ℤ → ℤ → Bool
within port first last = leb (pos_part first) port && leb port (pos_part last)

abbrev pub any_within : ℕ → List PortInterval → Bool
any_within port [] = false
any_within port (part ∷ parts) = within port part.first part.last || any_within port parts

-- A range of ports between `low` and `high`.
pub data IsRange (low high : ℕ) : ℤ → ℤ → Type 0 where
  range :
      (a b : ℕ) → 1 ≤ a → low ≤ a → a ≤ b → b ≤ high → b ≤ 65535 → IsRange low high (pos a) (pos b)

abbrev pub IsPart : ℕ → ℕ → PortInterval → Type 0
IsPart low high part = IsRange low high part.first part.last

cut_range :
    (port : ℕ) {low high : ℕ} {x y first last : ℤ}
    → IsRange low high x y
    → IsRange 1 65535 first last
    → (any_within port (cut_part (interval x y) first last)
        ≡ within port x y && not (within port first last))
unfolding cut_part ◌+ℤ◌ ◌-ℤ◌
cut_range port (range a b g h k j l) (range c d f m n i o) = ground arith

any_within-append :
    (port : ℕ) (xs ys : List PortInterval)
    → any_within port (xs ++ ys) ≡ (any_within port xs || any_within port ys)
any_within-append port [] ys = refl
any_within-append port (x ∷ xs) ys = ground (arith, any_within-append port xs ys)

cut_part-IsPart :
    {low high : ℕ} {x y first last : ℤ}
    → IsRange low high x y
    → IsRange 1 65535 first last
    → All (IsPart low high) (cut_part (interval x y) first last)
unfolding cut_part
cut_part-IsPart {low} {high} (range a b g h k j l) (range c d f m n i o) =
    elim (Bool-cases (ltb_ℤ (pos d) (pos a) || ltb_ℤ (pos b) (pos c))) [
      | inl apart ↦ rw apart (range a b g h k j l, tt)
      | inr meets ↦ rw meets (
          All-append (IsPart low high)
            (if ltb_ℤ (pos a) (pos c) then interval (pos a) (pos c -ℤ pos 1) ∷ [] else []) _
            (before (ltb_ℤ (pos a) (pos c)) refl meets) (behind (ltb_ℤ (pos d) (pos b)) refl meets))
    ]
  where
    before :
        (t : Bool)
        → ltb_ℤ (pos a) (pos c) ≡ t
        → (ltb_ℤ (pos d) (pos a) || ltb_ℤ (pos b) (pos c)) ≡ false
        → All (IsPart low high) (if t then interval (pos a) (pos c -ℤ pos 1) ∷ [] else [])
    before true e m' = (
      rw (-ℤ-pos c 1 (omega arith) m)
          (range a (c - 1) g h (ground arith) (ground arith) (omega arith)),
      tt,
    )
    before false e m' = tt

    behind :
        (t : Bool)
        → ltb_ℤ (pos d) (pos b) ≡ t
        → (ltb_ℤ (pos d) (pos a) || ltb_ℤ (pos b) (pos c)) ≡ false
        → All (IsPart low high) (if t then interval (pos d +ℤ pos 1) (pos b) ∷ [] else [])
    behind true e m' = (
      rw (+ℤ-pos d 1 (omega arith))
          (range (d + 1) b (omega arith) (ground arith) (ground arith) j l),
      tt,
    )
    behind false e m' = tt

pub subtract-IsPart :
    (low high : ℕ) (parts : List PortInterval) {first last : ℤ}
    → All (IsPart low high) parts
    → IsRange 1 65535 first last
    → All (IsPart low high) (subtract_port_range parts first last)
unfolding subtract_port_range
subtract-IsPart low high [] h r = tt
subtract-IsPart low high (part ∷ parts) {first} {last} (p, h) r =
    All-append (IsPart low high) (cut_part part first last) _ (cut_part-IsPart p r)
      (subtract-IsPart low high parts h r)

-- A port is left of some ranges exactly when one of them has it and the range taken off does not.
pub subtract_exact :
    (port : ℕ) (low high : ℕ) (parts : List PortInterval) {first last : ℤ}
    → All (IsPart low high) parts
    → IsRange 1 65535 first last
    → any_within port (subtract_port_range parts first last)
      ≡ (any_within port parts && not (within port first last))
unfolding subtract_port_range
subtract_exact port low high [] h r = refl
subtract_exact port low high (part ∷ parts) {first} {last} (p, h) r =
    any_within-append port (cut_part part first last) (subtract_port_range parts first last)
    ∙ shared (within port part.first part.last) (any_within port parts) (within port first last) _ _
        (cut_range port p r) (subtract_exact port low high parts h r)
  where
    shared :
        (here there off cut rest : Bool)
        → cut ≡ (here && not off)
        → rest ≡ (there && not off)
        → (cut || rest) ≡ ((here || there) && not off)
    shared here there off cut rest e f = ground arith
