-- ===== src/Config/Prefixes/Allowlist.antt =====
-- `NormalizeTargetCIDRs` of internal/config/config.go: its result against the entries.
use go_nftables_portbridge.Prelude.{
  ◌≤◌, ◌≡◌, ◌≢◌, refl, ◌⊎◌, inl, inr, Bool, true, false, List, [], ◌∷◌, some, All, arith, ◌==◌,
  length, ltb, Option-cases,
}
use go_nftables_portbridge.Text.{Text, trim_space, is_empty}
use go_nftables_portbridge.Text.Sets.{add_key, sort_texts}
use go_nftables_portbridge.Text.Members.{Any, Any-add_key, Any-sort, All-add_key, All-sort}
use go_nftables_portbridge.Netip.{Prefix, masked, is_4_in_6}
use go_nftables_portbridge.Netip.Forms.{Forms}
use go_nftables_portbridge.Config.Errors.{
  Result, ok, err, ◌>>◌, reject_if, >>=-eq-ok, reject_if-eq-ok, panicked, cidr_invalid, cidr_mapped,
  cidr_all, cidr_size,
}
use go_nftables_portbridge.Config.Prefixes.{
  target_cidr_key, collect_target_cidrs, normalize_target_cidrs, max_target_cidrs,
}

module _ (forms : Forms) where
  open forms use {parse_prefix, format_prefix}

  -- A text of the result, and the prefix of an entry that it stands for.
  abbrev pub KeyOf : Text → Text → Type 0
  KeyOf s key =
      (p : Prefix) × (parse_prefix s ≡ some p)
      × (key ≡ format_prefix (masked p))
      × (is_4_in_6 p.addr ≡ false)
      × (1 ≤ p.bits)

  some_key :
      (p : Prefix) (key : Text)
      → (do
        reject_if (is_4_in_6 p.addr) cidr_mapped
        reject_if ((masked p).bits == 0) cidr_all
        ok (format_prefix (masked p)))
        ≡ ok key
      → (key ≡ format_prefix (masked p)) × (is_4_in_6 p.addr ≡ false) × (1 ≤ p.bits)
  unfolding masked
  some_key p key h =
      let (_, plain, rest) = >>=-eq-ok (reject_if (is_4_in_6 p.addr) cidr_mapped) _ h in
      let (_, narrow, done) = >>=-eq-ok (reject_if ((masked p).bits == 0) cidr_all) _ rest in
      (ground (arith, done), reject_if-eq-ok _ _ plain, ground (arith, reject_if-eq-ok _ _ narrow))

  target_cidr_key-KeyOf : (s key : Text) → target_cidr_key forms s ≡ ok key → KeyOf s key
  unfolding target_cidr_key
  target_cidr_key-KeyOf s key h = elim (Option-cases (parse_prefix s)) [
    | inl e ↦ let stopped : err cidr_invalid ≡ ok key = (rw (e, target_cidr_key) at h) in cc stopped
    | inr (p, e) ↦
        let (same, plain, narrow) = some_key p key (rw (e, target_cidr_key) at h) in
        (p, e, same, plain, narrow)
  ]

  -- One step of the loop, whatever the entry was.
  collect_step :
      (raw : Text) (items set out : List Text)
      → collect_target_cidrs forms (raw ∷ items) set ≡ ok out
      → (collect_target_cidrs forms items set ≡ ok out)
        ⊎ ((key : Text) × (target_cidr_key forms (trim_space raw) ≡ ok key)
            × (collect_target_cidrs forms items (add_key key set) ≡ ok out))
  unfolding collect_target_cidrs
  collect_step raw items set out h =
      go (is_empty (trim_space raw)) (target_cidr_key forms (trim_space raw)) refl refl
    where
      go :
          (b : Bool) (r : Result Text)
          → is_empty (trim_space raw) ≡ b
          → target_cidr_key forms (trim_space raw) ≡ r
          → (collect_target_cidrs forms items set ≡ ok out)
            ⊎ ((key : Text) × (target_cidr_key forms (trim_space raw) ≡ ok key)
                × (collect_target_cidrs forms items (add_key key set) ≡ ok out))
      go true r blank e = inl (rw (blank, collect_target_cidrs) at h)
      go false (ok key) given e = inr (key, e, (rw (given, e, collect_target_cidrs) at h))
      go false (err x) given e =
          let stopped : err x ≡ ok out = (rw (given, e, collect_target_cidrs) at h) in cc stopped

  -- An entry of the given list stands behind a key with a property.
  abbrev pub From : (Text → Type 0) → Text → Type 0
  From P raw = (key : Text) × KeyOf (trim_space raw) key × P key

  nothing_left : (set out : List Text) → collect_target_cidrs forms [] set ≡ ok out → out ≡ set
  unfolding collect_target_cidrs
  nothing_left set out h = cc

  collect_target_cidrs-Any :
      (P : Text → Type 0) (items set out : List Text)
      → collect_target_cidrs forms items set ≡ ok out
      → Any P out
      → Any P set ⊎ Any (From P) items
  collect_target_cidrs-Any P [] set out h some_out = inl (rw (nothing_left set out h) at some_out)
  collect_target_cidrs-Any P (raw ∷ items) set out h some_out =
      elim (collect_step raw items set out h) [
        | inl rest ↦ elim (collect_target_cidrs-Any P items set out rest some_out) [
          | inl old ↦ inl old
          | inr found ↦ inr (inr found)
        ]
        | inr (key, e, rest) ↦
            elim (collect_target_cidrs-Any P items (add_key key set) out rest some_out) [
              | inr found ↦ inr (inr found)
              | inl new ↦ elim (Any-add_key P key set new) [
                | inl old ↦ inl old
                | inr p ↦ inr (inl (key, target_cidr_key-KeyOf (trim_space raw) key e, p))
              ]
            ]
      ]

  collect_target_cidrs-All :
      (P : Text → Type 0)
      → ((s key : Text) → KeyOf s key → P key)
      → (items set out : List Text) → collect_target_cidrs forms items set ≡ ok out
      → All P set
      → All P out
  collect_target_cidrs-All P each [] set out h ps = rw (nothing_left set out h) ps
  collect_target_cidrs-All P each (raw ∷ items) set out h ps =
      elim (collect_step raw items set out h) [
        | inl rest ↦ collect_target_cidrs-All P each items set out rest ps
        | inr (key, e, rest) ↦
            collect_target_cidrs-All P each items (add_key key set) out rest
              (All-add_key P key set ps (each _ key (target_cidr_key-KeyOf (trim_space raw) key e)))
      ]

  normalize_parts :
      (items out : List Text)
      → normalize_target_cidrs forms items ≡ ok out
      → (set : List Text) × (collect_target_cidrs forms items [] ≡ ok set)
        × (out ≡ sort_texts set)
        × (length out ≤ max_target_cidrs)
  unfolding normalize_target_cidrs
  normalize_parts items out h =
      let (set, collected, rest) = >>=-eq-ok (collect_target_cidrs forms items []) _ h in
      let (_, small, done) =
        >>=-eq-ok (reject_if (ltb max_target_cidrs (length (sort_texts set))) cidr_size) _ rest in
      (set, collected, ground (arith, done), ground (arith, done, reject_if-eq-ok _ _ small))

  pub normalize_target_cidrs-Any :
      (P : Text → Type 0) (items out : List Text)
      → normalize_target_cidrs forms items ≡ ok out
      → Any P out
      → Any (From P) items
  normalize_target_cidrs-Any P items out h some_out =
      let (set, collected, sorted, _) = normalize_parts items out h in
      elim (collect_target_cidrs-Any P items [] set collected
        (Any-sort P set (rw sorted at some_out))) [
          | inl nothing ↦ absurd nothing
          | inr found ↦ found
        ]

  pub normalize_target_cidrs-All :
      (P : Text → Type 0)
      → ((s key : Text) → KeyOf s key → P key)
      → (items out : List Text) → normalize_target_cidrs forms items ≡ ok out
      → All P out
  normalize_target_cidrs-All P each items out h =
      let (set, collected, sorted, _) = normalize_parts items out h in
      rw sorted (All-sort P set (collect_target_cidrs-All P each items [] set collected tt))

  target_cidr_key-ne-panicked : (s : Text) → target_cidr_key forms s ≢ err panicked
  unfolding target_cidr_key
  target_cidr_key-ne-panicked s h = ground arith

  step-ne-panicked :
      (blank : Bool) (r : Result Text) (m : Result (List Text)) (k : Text → Result (List Text))
      → r ≢ err panicked
      → m ≢ err panicked
      → ((key : Text) → k key ≢ err panicked)
      → (elim blank [ true ↦ m | false ↦ elim r [ err e ↦ err e | ok key ↦ k key ] ]) ≢ err panicked
  step-ne-panicked true r m k f g h = g
  step-ne-panicked false (ok key) m k f g h = h key
  step-ne-panicked false (err e) m k f g h = λ same. f (cc same)

  collect_target_cidrs-ne-panicked :
      (items set : List Text) → collect_target_cidrs forms items set ≢ err panicked
  unfolding collect_target_cidrs
  collect_target_cidrs-ne-panicked [] set = λ h. cc
  collect_target_cidrs-ne-panicked (raw ∷ items) set =
      step-ne-panicked (is_empty (trim_space raw)) (target_cidr_key forms (trim_space raw)) _ _
        (target_cidr_key-ne-panicked (trim_space raw)) (collect_target_cidrs-ne-panicked items set)
        (λ key. collect_target_cidrs-ne-panicked items (add_key key set))

  pub normalize_target_cidrs-ne-panicked :
      (items : List Text) → normalize_target_cidrs forms items ≢ err panicked
  unfolding normalize_target_cidrs
  normalize_target_cidrs-ne-panicked items h =
      ground (arith, collect_target_cidrs-ne-panicked items [])
