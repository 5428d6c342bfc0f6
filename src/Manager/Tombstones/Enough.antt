-- ===== src/Manager/Tombstones/Enough.antt =====
-- The loop of `nftTombstoneID` of internal/proxy/manager_nft_state.go always finds an identifier.
use Prim.Native.Nat.{suc, zero}
use go_nftables_portbridge.Prelude.{
  ℕ, ◌+◌, ◌≤◌, ◌<◌, ◌≡◌, refl, Bool, true, false, ◌&&◌, ◌||◌, not, List, [], ◌∷◌, ◌++◌, map, Option,
  none, some, length, length-append, ◌==◌, ==_iff, if◌then◌else◌, arith, ◌∙◌, sym, ap, Bool-cases,
  inl, inr,
}
use go_nftables_portbridge.Prelude.Int.{pos}
use go_nftables_portbridge.Text.{Text, text_eq, text_eq_sound}
use go_nftables_portbridge.Text.Sets.{has_key}
use go_nftables_portbridge.Text.Maps.{find_text, put_text}
use go_nftables_portbridge.Text.Finds.{has_text, is_some}
use go_nftables_portbridge.Config.{Rule}
use go_nftables_portbridge.Nft.Keys.{KernelForms, KernelDocumented, dash}
use go_nftables_portbridge.Manager.Tombstones.{
  is_free, first_free, numbered, with_tombstone, nft_tombstone_id,
}

abbrev bit : Bool → ℕ
bit true = 1
bit false = 0

bit_le : (b : Bool) → bit b ≤ 1
bit_le true = omega arith
bit_le false = omega arith

-- Different numbers give different identifiers.
module _ (id : ℕ → Text) (distinct : (i j : ℕ) → id i ≡ id j → i ≡ j) where
  -- How many of the `m` identifiers from the `i`th on are the text, or are in the list.
  one : Text → ℕ → ℕ → ℕ
  one t zero i = 0
  one t (suc m) i = bit (text_eq t (id i)) + one t m (i + 1)

  hits : List Text → ℕ → ℕ → ℕ
  hits ts zero i = 0
  hits ts (suc m) i = bit (has_key (id i) ts) + hits ts m (i + 1)

  one-later : (j m i : ℕ) → j < i → one (id j) m i ≡ 0
  unfolding one
  one-later j zero i h = refl
  one-later j (suc m) i h = elim (Bool-cases (text_eq (id j) (id i))) [
    | inl same ↦
        let e : j ≡ i = distinct j i (text_eq_sound (id j) (id i) same) in absurd (omega arith)
    | inr other ↦ let rest = one-later j m (i + 1) (omega arith) in rw (other, rest) (omega arith)
  ]

  one-le : (t : Text) (m i : ℕ) → one t m i ≤ 1
  unfolding one
  one-le t zero i = omega arith
  one-le t (suc m) i = elim (Bool-cases (text_eq t (id i))) [
    | inl same ↦
        let e : t ≡ id i = text_eq_sound t (id i) same in
        let rest : one t m (i + 1) ≡ 0 = rw e (one-later i m (i + 1) (omega arith)) in
        rw (same, rest) (omega arith)
    | inr other ↦ let rest = one-le t m (i + 1) in rw other (omega arith)
  ]

  hits-cons : (t : Text) (ts : List Text) (m i : ℕ) → hits (t ∷ ts) m i ≤ one t m i + hits ts m i
  unfolding one hits has_key
  hits-cons t ts zero i = omega arith
  hits-cons t ts (suc m) i =
      step (text_eq t (id i)) (has_key (id i) ts) _ _ _ (hits-cons t ts m (i + 1))
    where
      step :
          (a b : Bool) (x y z : ℕ)
          → x ≤ y + z
          → bit (if a then true else b) + x ≤ bit a + y + (bit b + z)
      step true b x y z h = omega arith
      step false b x y z h = omega arith

  hits-length : (ts : List Text) (m i : ℕ) → hits ts m i ≤ length ts
  unfolding hits has_key
  hits-length [] zero i = omega arith
  hits-length [] (suc m) i = let rest = hits-length [] m (i + 1) in omega arith
  hits-length (t ∷ ts) m i = sum_le _ _ _ _ (hits-cons t ts m i) (one-le t m i) (hits-length ts m i)
    where
      sum_le : (x y z n : ℕ) → x ≤ y + z → y ≤ 1 → z ≤ n → x ≤ suc n
      sum_le x y z n a b c = omega arith

  -- Where the loop finds none, all that it tried are taken.
  all_taken :
      (free : Text → Bool) (ts : List Text)
      → ((t : Text) → free t ≡ false → has_key t ts ≡ true)
      → (m i : ℕ) → first_free free id m i ≡ none
      → m ≤ hits ts m i
  unfolding first_free hits
  all_taken free ts taken zero i h = omega arith
  all_taken free ts taken (suc m) i h =
      step (free (id i)) refl h (all_taken free ts taken m (i + 1))
    where
      step :
          (b : Bool)
          → free (id i) ≡ b
          → (elim b as (λ _. Option Text) [
            | true ↦ some (id i)
            | false ↦ first_free free id m (i + 1)
          ])
            ≡ none
          → (first_free free id m (i + 1) ≡ none → m ≤ hits ts m (i + 1))
          → suc m ≤ bit (has_key (id i) ts) + hits ts m (i + 1)
      step true e h rest = absurd cc
      step false e h rest =
          let own : has_key (id i) ts ≡ true = taken (id i) e in
          let later = rest h in rw own (omega arith)

  found_free :
      (free : Text → Bool) (m i : ℕ) (t : Text) → first_free free id m i ≡ some t → free t ≡ true
  unfolding first_free
  found_free free zero i t h = absurd cc
  found_free free (suc m) i t h = step (free (id i)) refl h (found_free free m (i + 1) t)
    where
      same : ◌≡◌ {A = Option Text} (some (id i)) (some t) → id i ≡ t
      same e = cc

      step :
          (b : Bool)
          → free (id i) ≡ b
          → (elim b as (λ _. Option Text) [
            | true ↦ some (id i)
            | false ↦ first_free free id m (i + 1)
          ])
            ≡ some t
          → (first_free free id m (i + 1) ≡ some t → free t ≡ true)
          → free t ≡ true
      step true e h rest = sym (ap free (same h)) ∙ e
      step false e h rest = rest h

cancel : (base s t : Text) → base ++ s ≡ base ++ t → s ≡ t
cancel [] s t e = e
cancel (c ∷ base) s t e = cancel base s t (tails c (base ++ s) (base ++ t) e)
  where
    tails : (c : ℕ) (s t : Text) → c ∷ s ≡ c ∷ t → s ≡ t
    tails c s t e = cc

no_longer : (base : Text) (c : ℕ) (s : Text) → base ≡ base ++ c ∷ s → ⊥
no_longer base c s e =
    let lengths : length base ≡ length base + length (c ∷ s) =
      ap length e ∙ length-append base (c ∷ s) in
    omega arith

has_text-keys : (t : Text) (m : List (Text × Rule)) → has_text t m ≡ has_key t (map (λ e. e.0) m)
unfolding has_key
has_text-keys t [] = refl
has_text-keys t ((j, r) ∷ m) = step (text_eq j t) (has_text-keys t m)
  where
    step :
        (b : Bool)
        → has_text t m ≡ has_key t (map (λ e. e.0) m)
        → is_some (if b then some r else find_text t m)
          ≡ (if b then true else has_key t (map (λ e. e.0) m))
    step true e = refl
    step false e = e

has_key-append :
    (t : Text) (xs ys : List Text) → has_key t (xs ++ ys) ≡ (has_key t xs || has_key t ys)
unfolding has_key
has_key-append t [] ys = refl
has_key-append t (x ∷ xs) ys = step (text_eq x t) _ _ _ (has_key-append t xs ys)
  where
    step :
        (b p q r : Bool) → p ≡ (q || r) → (if b then true else p) ≡ ((if b then true else q) || r)
    step true p q r e = refl
    step false p q r e = e

length-keys : (m : List (Text × Rule)) → length (map (λ e. e.0) m) ≡ length m
length-keys [] = refl
length-keys (e ∷ m) = ap suc (length-keys m)

module _ (k : KernelForms) (d : KernelDocumented k) where
  numbered-distinct : (base : Text) (i j : ℕ) → numbered k base i ≡ numbered k base j → i ≡ j
  numbered-distinct base i j e = step (i == 0) (j == 0) refl refl e
    where
      step :
          (a b : Bool)
          → (i == 0) ≡ a
          → (j == 0) ≡ b
          → (if a then base else base ++ dash ∷ k.format_int (pos i))
            ≡ (if b then base else base ++ dash ∷ k.format_int (pos j))
          → i ≡ j
      step true true p q e = (==_iff i 0).0 p ∙ sym ((==_iff j 0).0 q)
      step true false p q e = absurd (no_longer base dash _ e)
      step false true p q e = absurd (no_longer base dash _ (sym e))
      step false false p q e = d.int_distinct i j (rest _ _ (cancel base _ _ e))
        where
          rest : (s t : Text) → dash ∷ s ≡ dash ∷ t → s ≡ t
          rest s t e = cc

  -- The search for the identifier of a tombstone never exhausts its numbers: it ends with one that no
  -- desired rule has, and no rule that is shown but a tombstone of the same kernel path.
  pub nft_tombstone_id-Found :
      (base identity : Text) (desired rules : List (Text × Rule)) (tombstones : List (Text × Text))
      → (id : Text) × (nft_tombstone_id k base identity desired rules tombstones
          ≡ some (id, put_text id identity tombstones))
        × (is_free identity desired rules tombstones id ≡ true)
  unfolding nft_tombstone_id is_free
  nft_tombstone_id-Found base identity desired rules tombstones =
      ends (first_free free (numbered k base) tries 0) refl
    where
      free : Text → Bool
      free = is_free identity desired rules tombstones

      tries : ℕ
      tries = length rules + length desired + 1

      keys : List Text
      keys = map (λ e. e.0) desired ++ map (λ e. e.0) rules

      size : length keys ≡ length desired + length rules
      size =
          length-append (map (λ e. e.0) desired) (map (λ e. e.0) rules)
          ∙ rw (length-keys desired, length-keys rules) refl

      taken : (t : Text) → free t ≡ false → has_key t keys ≡ true
      taken t h =
          has_key-append t (map (λ e. e.0) desired) (map (λ e. e.0) rules)
          ∙ either _ _ _ _ _ (has_text-keys t desired) (has_text-keys t rules) h
        where
          either :
              (a b c p q : Bool) → a ≡ p → b ≡ q → (not a && not (b && c)) ≡ false → (p || q) ≡ true
          either a b c p q e f h = ground (arith, e, f, h)

      ends :
          (o : Option Text)
          → first_free free (numbered k base) tries 0 ≡ o
          → (id : Text) × (with_tombstone k identity tombstones o
              ≡ some (id, put_text id identity tombstones))
            × (free id ≡ true)
      ends (some id) e =
          (id, refl, found_free (numbered k base) (numbered-distinct base) free tries 0 id e)
      ends none e =
          let all =
            all_taken (numbered k base) (numbered-distinct base) free keys taken tries 0 e in
          let most = hits-length (numbered k base) (numbered-distinct base) keys tries 0 in
          absurd (too_many _ _ _ _ all most size)
        where
          too_many : (m n a b : ℕ) → b + a + 1 ≤ m → m ≤ n → n ≡ a + b → ⊥
          too_many m n a b e f g = omega arith
