-- ===== src/Budget/Tcp.antt =====
-- `reserveTCP` of internal/proxy/budget.go against a bag of connections: each holds its source, and
-- the three counters are read off the bag.
use go_nftables_portbridge.Prelude.{
  ℕ, suc, ◌+◌, ◌≤◌, ◌<◌, ◌≡◌, refl, ◌∙◌, ap, Bool, true, false, ◌&&◌, List, [], ◌∷◌, arith, ltb,
  length, if◌then◌else◌, ltb→lt,
}
use go_nftables_portbridge.Prelude.Int.{ℤ, pos, ltb_ℤ, ◌+ℤ◌, ◌-ℤ◌, half_range}
use go_nftables_portbridge.Netip.{Addr, addr_eq}
use go_nftables_portbridge.Netip.Facts.{addr_eq_sound}
use go_nftables_portbridge.Budget.Shards.{set_shard, put, shard_of, read-put}
use go_nftables_portbridge.Budget.Arith.{reserve_atomic_exact, one_up, one_down}
use go_nftables_portbridge.Budget.{
  ResourceBudget, RuleBudget, reserve_atomic, reserve_source, reserve_rule, reserve_tcp,
  source_count,
}

abbrev pub occurrences : Addr → List Addr → ℕ
occurrences a [] = 0
occurrences a (s ∷ L) = if addr_eq s a then suc (occurrences a L) else occurrences a L

-- The first connection of a source is gone.
abbrev pub remove : Addr → List Addr → List Addr
remove a [] = []
remove a (s ∷ L) = if addr_eq s a then L else s ∷ remove a L

-- The counters hold the rule's connections `L` and `others` of the other rules, far from overflow.
pub record Represents (b : ResourceBudget) (r : RuleBudget) (L : List Addr) (others : ℕ)
    : Type 0 where
  pub global : b.active_tcp ≡ pos (length L + others)
  pub rule : r.active_tcp ≡ pos (length L)
  pub sources : (a : Addr) → source_count r a ≡ pos (occurrences a L)
  pub small : length L + others + 2 ≤ half_range

-- The four ways through `reserveTCP`.
module _ (b : ResourceBudget) (r : RuleBudget) (s : Addr) (rule_max source_max : ℤ) where
  global_full :
      (x : ℤ)
      → reserve_atomic b.active_tcp b.max_tcp ≡ (x, false)
      → reserve_tcp b r s rule_max source_max ≡ ((b, r), false)
  unfolding reserve_tcp
  global_full x e = rw (e, reserve_tcp)

  rule_full :
      (x y : ℤ)
      → reserve_atomic b.active_tcp b.max_tcp ≡ (x, true)
      → reserve_atomic r.active_tcp rule_max ≡ (y, false)
      → reserve_tcp b r s rule_max source_max ≡ ((record b { active_tcp = x -ℤ pos 1 }, r), false)
  unfolding reserve_tcp reserve_rule
  rule_full x y e f = rw (e, f, reserve_tcp)

  source_full :
      (x y : ℤ)
      → reserve_atomic b.active_tcp b.max_tcp ≡ (x, true)
      → reserve_atomic r.active_tcp rule_max ≡ (y, true)
      → ltb_ℤ (source_count r s) source_max ≡ false
      → reserve_tcp b r s rule_max source_max
        ≡ ((record b { active_tcp = x -ℤ pos 1 }, record r { active_tcp = y -ℤ pos 1 }), false)
  unfolding reserve_tcp reserve_rule reserve_source source_count
  source_full x y e f g = rw (e, f) (rw g refl)

  all_free :
      (x y : ℤ)
      → reserve_atomic b.active_tcp b.max_tcp ≡ (x, true)
      → reserve_atomic r.active_tcp rule_max ≡ (y, true)
      → ltb_ℤ (source_count r s) source_max ≡ true
      → reserve_tcp b r s rule_max source_max ≡ (
        (
          record b { active_tcp = x },
          record {
            active_tcp = y;
            sources =
                set_shard s (put s (source_count r s +ℤ pos 1) (shard_of s r.sources)) r.sources;
          },
        ),
        true,
      )
  unfolding reserve_tcp reserve_rule reserve_source source_count
  all_free x y e f g = rw (e, f) (rw g refl)

below_source : (n m : ℕ) → ltb_ℤ (pos n) (pos m) ≡ ltb n m
below_source n m = ground arith

pub occurrences-le : (a : Addr) (L : List Addr) → occurrences a L ≤ length L
occurrences-le a [] = omega arith
occurrences-le a (s ∷ L) = ground (arith, occurrences-le a L)

-- The counts of the sources, with one connection of `s` more.
counted_up :
    (r : RuleBudget) (L : List Addr) (s : Addr) (y : ℤ)
    → ((a : Addr) → source_count r a ≡ pos (occurrences a L))
    → length L + 2 ≤ half_range
    → (a : Addr)
    → source_count
        (record {
          active_tcp = y;
          sources =
              set_shard s (put s (source_count r s +ℤ pos 1) (shard_of s r.sources)) r.sources;
        })
        a
      ≡ pos (occurrences a (s ∷ L))
unfolding source_count
counted_up r L s y counts room a =
    read-put s a (source_count r s +ℤ pos 1) (pos 0) r.sources
    ∙ chosen (addr_eq s a) (addr_eq_sound s a) (counts a)
  where
    chosen :
        (same : Bool)
        → (same ≡ true → s ≡ a)
        → source_count r a ≡ pos (occurrences a L)
        → (if same then source_count r s +ℤ pos 1 else source_count r a)
          ≡ pos (if same then suc (occurrences a L) else occurrences a L)
    chosen true e c = rw (e refl) (up c)
      where
        up :
            source_count r a ≡ pos (occurrences a L)
            → source_count r a +ℤ pos 1 ≡ pos (suc (occurrences a L))
        up c = rw c (ground (arith, one_up (occurrences a L), occurrences-le a L))
    chosen false e c = c

module _ (b : ResourceBudget) (r : RuleBudget) (s : Addr) (L : List Addr) (others M rm sm : ℕ) where
  -- A reservation is granted exactly when each of the three counts is below its limit.
  abbrev pub has_room : Bool
  has_room = ltb (length L + others) M && ltb (length L) rm && ltb (occurrences s L) sm

  pub record Refines (x : (ResourceBudget × RuleBudget) × Bool) (room : Bool) : Type 0 where
    pub granted : x.1 ≡ room
    pub counters : Represents x.0.0 x.0.1 (if room then s ∷ L else L) others

  module _ (rep : Represents b r L others) (max_tcp : b.max_tcp ≡ pos M)
      (M_small : M + 2 ≤ half_range) (rm_small : rm < half_range) where
    global_step : reserve_atomic b.active_tcp b.max_tcp ≡ (
        if ltb (length L + others) M
        then (pos (length L + others + 1), true)
        else (pos (length L + others), false))
    global_step =
        ap (λ (x : ℤ). reserve_atomic x b.max_tcp) rep.global
        ∙ ap (reserve_atomic (pos (length L + others))) max_tcp
        ∙ reserve_atomic_exact (length L + others) M (omega arith)

    rule_step :
        reserve_atomic r.active_tcp (pos rm)
        ≡ (if ltb (length L) rm then (pos (length L + 1), true) else (pos (length L), false))
    rule_step =
        ap (λ (x : ℤ). reserve_atomic x (pos rm)) rep.rule
        ∙ reserve_atomic_exact (length L) rm (omega arith)

    source_step : ltb_ℤ (source_count r s) (pos sm) ≡ ltb (occurrences s L) sm
    source_step =
        ap (λ (x : ℤ). ltb_ℤ x (pos sm)) (rep.sources s) ∙ below_source (occurrences s L) sm

    reserve-Refines :
        (g h k : Bool)
        → ltb (length L + others) M ≡ g
        → ltb (length L) rm ≡ h
        → ltb (occurrences s L) sm ≡ k
        → Refines (reserve_tcp b r s (pos rm) (pos sm)) (g && h && k)
    unfolding source_count
    reserve-Refines false h k eg eh ek =
        rw
          (global_full b r s (pos rm) (pos sm) (pos (length L + others))
            (global_step ∙ (rw eg refl)))
          (record { granted = refl; counters = rep })
    reserve-Refines true false k eg eh ek =
        rw
          (rule_full b r s (pos rm) (pos sm) (pos (length L + others + 1)) (pos (length L))
            (global_step ∙ (rw eg refl)) (rule_step ∙ (rw eh refl)))
          (record {
            granted = refl;
            counters = record {
              global = one_down (length L + others) rep.small;
              rule = rep.rule;
              sources = rep.sources;
              small = rep.small;
            };
          })
    reserve-Refines true true false eg eh ek =
        rw
          (source_full b r s (pos rm) (pos sm) (pos (length L + others + 1)) (pos (length L + 1))
            (global_step ∙ (rw eg refl)) (rule_step ∙ (rw eh refl)) (source_step ∙ ek))
          (record {
            granted = refl;
            counters = record {
              global = one_down (length L + others) rep.small;
              rule = one_down (length L) (omega (arith, rep.small));
              sources = rep.sources;
              small = rep.small;
            };
          })
    reserve-Refines true true true eg eh ek =
        rw
          (all_free b r s (pos rm) (pos sm) (pos (length L + others + 1)) (pos (length L + 1))
            (global_step ∙ (rw eg refl)) (rule_step ∙ (rw eh refl)) (source_step ∙ ek))
          (record {
            granted = refl;
            counters = record {
              global = ap pos (omega arith);
              rule = ap pos (omega arith);
              sources =
                  counted_up r L s (pos (length L + 1)) rep.sources (omega (arith, rep.small));
              small = omega (arith, ltb→lt (length L + others) M eg);
            };
          })

    -- Where the counters represent a bag of connections of the rule, beside `others` of other rules, and
    -- the limits are far below 2 ^ 63: `reserveTCP` grants a connection exactly when the global count, the rule's count and the
    -- source's count are each below their limit. Granted, the counters represent the bag with the
    -- connection in it; refused at any of the three, they represent the bag as it was.
    pub reserve_tcp-Refines : Refines (reserve_tcp b r s (pos rm) (pos sm)) has_room
    reserve_tcp-Refines = reserve-Refines _ _ _ refl refl refl
