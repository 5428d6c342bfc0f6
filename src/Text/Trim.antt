-- ===== src/Text/Trim.antt =====
-- `strings.TrimSpace` and `strings.ToLower`, applied twice and to each other's results.
use go_nftables_portbridge.Prelude.{
  ℕ, ◌≡◌, refl, ap, ◌∙◌, inl, inr, false, [], ◌∷◌, arith, Bool-cases,
}
use go_nftables_portbridge.Text.{
  Text, is_space, trim_left, keep_unless_last_space, trim_right, trim_space, lower_code, to_lower,
}

lower_code_idem : (c : ℕ) → lower_code (lower_code c) ≡ lower_code c
unfolding lower_code
lower_code_idem c = ground arith

is_space-lower_code : (c : ℕ) → is_space (lower_code c) ≡ is_space c
unfolding is_space lower_code
is_space-lower_code c = ground arith

pub to_lower_idem : (s : Text) → to_lower (to_lower s) ≡ to_lower s
unfolding to_lower
to_lower_idem [] = refl
to_lower_idem (c ∷ s) = cc (lower_code_idem c, to_lower_idem s)

-- No space stands in front.
abbrev FrontClear : Text → Type 0
FrontClear [] = Unit
FrontClear (c ∷ s) = is_space c ≡ false

trim_left-FrontClear : (s : Text) → FrontClear (trim_left s)
unfolding trim_left
trim_left-FrontClear [] = tt
trim_left-FrontClear (c ∷ s) = elim (Bool-cases (is_space c)) [
  | inl space ↦ rw (space, trim_left) (trim_left-FrontClear s)
  | inr other ↦ rw (other, trim_left) other
]

trim_left_clear : (s : Text) → FrontClear s → trim_left s ≡ s
unfolding trim_left
trim_left_clear [] h = refl
trim_left_clear (c ∷ s) h = rw h

keep-FrontClear : (c : ℕ) (s : Text) → is_space c ≡ false → FrontClear (keep_unless_last_space c s)
keep-FrontClear c [] h = rw (h, keep_unless_last_space) h
keep-FrontClear c (d ∷ s) h = h

trim_right-FrontClear : (s : Text) → FrontClear s → FrontClear (trim_right s)
unfolding trim_right
trim_right-FrontClear [] h = tt
trim_right-FrontClear (c ∷ s) h = keep-FrontClear c (trim_right s) h

keep_unless_last_space-trim_right :
    (c : ℕ) (s : Text)
    → trim_right s ≡ s
    → trim_right (keep_unless_last_space c s) ≡ keep_unless_last_space c s
unfolding trim_right
keep_unless_last_space-trim_right c [] h = ground arith
keep_unless_last_space-trim_right c (d ∷ s) h = ground arith

trim_right_idem : (s : Text) → trim_right (trim_right s) ≡ trim_right s
unfolding trim_right
trim_right_idem [] = refl
trim_right_idem (c ∷ s) = keep_unless_last_space-trim_right c (trim_right s) (trim_right_idem s)

pub trim_space_idem : (s : Text) → trim_space (trim_space s) ≡ trim_space s
unfolding trim_space
trim_space_idem s =
    ap trim_right (trim_left_clear _ (trim_right-FrontClear _ (trim_left-FrontClear s)))
    ∙ trim_right_idem (trim_left s)

trim_left-to_lower : (s : Text) → trim_left (to_lower s) ≡ to_lower (trim_left s)
unfolding trim_left to_lower
trim_left-to_lower [] = refl
trim_left-to_lower (c ∷ s) = ground (arith, is_space-lower_code c, trim_left-to_lower s)

keep-to_lower :
    (c : ℕ) (s : Text)
    → keep_unless_last_space (lower_code c) (to_lower s) ≡ to_lower (keep_unless_last_space c s)
unfolding to_lower
keep-to_lower c [] = ground (arith, is_space-lower_code c)
keep-to_lower c (d ∷ s) = refl

trim_right-to_lower : (s : Text) → trim_right (to_lower s) ≡ to_lower (trim_right s)
unfolding trim_right to_lower
trim_right-to_lower [] = refl
trim_right-to_lower (c ∷ s) =
    ap (keep_unless_last_space (lower_code c)) (trim_right-to_lower s)
    ∙ keep-to_lower c (trim_right s)

trim_space-to_lower : (s : Text) → trim_space (to_lower s) ≡ to_lower (trim_space s)
unfolding trim_space
trim_space-to_lower s = ap trim_right (trim_left-to_lower s) ∙ trim_right-to_lower (trim_left s)

-- What `NormalizeRule` does to a keyword, done twice, is what it does once.
pub to_lower-trim_space_idem :
    (s : Text) → to_lower (trim_space (to_lower (trim_space s))) ≡ to_lower (trim_space s)
to_lower-trim_space_idem s =
    rw (trim_space-to_lower (trim_space s), trim_space_idem s) (to_lower_idem (trim_space s))
