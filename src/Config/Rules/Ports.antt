-- ===== src/Config/Rules/Ports.antt =====
-- The port checks of `validateRules`, on any 64-bit integers.
use go_nftables_portbridge.Prelude.{ℕ, ◌+◌, ◌-◌, ◌≤◌, ◌<◌, ◌≡◌, refl, sym, ◌∙◌, ap, ◌↔◌, arith}
use go_nftables_portbridge.Prelude.Int.{ℤ, pos, negsuc, -ℤ-pos, +ℤ-pos}
use go_nftables_portbridge.Config.{Rule}
use go_nftables_portbridge.Config.Errors.{ok}
use go_nftables_portbridge.Config.Normalize.{last_listen_port, last_target_port}
use go_nftables_portbridge.Config.Rules.{check_ports, check_port_values}

-- Two ranges of n + 1 ports each, at most 4096, within 1 to 65535.
abbrev pub PortsFit : ℤ → ℤ → ℤ → ℤ → Type 0
PortsFit listen listen_end target target_end =
    (l t n : ℕ) × (listen ≡ pos l)
    × (listen_end ≡ pos (l + n))
    × (target ≡ pos t)
    × (target_end ≡ pos (t + n))
    × (1 ≤ l)
    × (l + n ≤ 65535)
    × (1 ≤ t)
    × (t + n ≤ 65535)
    × (n < 4096)

-- The checks on ports that are natural numbers, as inequalities.
check_pos :
    (l e t f : ℕ)
    → check_port_values (pos l) (pos e) (pos t) (pos f) ≡ ok tt
    → (1 ≤ l)
      × (l ≤ e)
      × (e ≤ 65535)
      × (1 ≤ t)
      × (t ≤ f)
      × (f ≤ 65535)
      × (e - l ≡ f - t)
      × (e - l < 4096)
unfolding check_port_values
check_pos l e t f h = ground (arith, -ℤ-pos e l, -ℤ-pos f t, +ℤ-pos (e - l) 1)

check_fit :
    (l t n : ℕ)
    → 1 ≤ l
    → l + n ≤ 65535
    → 1 ≤ t
    → t + n ≤ 65535
    → n < 4096
    → check_port_values (pos l) (pos (l + n)) (pos t) (pos (t + n)) ≡ ok tt
unfolding check_port_values
check_fit l t n a b c d e = ground (arith, -ℤ-pos (l + n) l, -ℤ-pos (t + n) t, +ℤ-pos (l + n - l) 1)

sub_split : (e l : ℕ) → l ≤ e → e ≡ l + (e - l)
sub_split e l h = omega arith

check_sound :
    (listen listen_end target target_end : ℤ)
    → check_port_values listen listen_end target target_end ≡ ok tt
    → PortsFit listen listen_end target target_end
unfolding check_port_values
check_sound (pos l) (pos e) (pos t) (pos f) h =
    let (a, b, c, d, k, m, same, n) = check_pos l e t f h in
    (
      l,
      t,
      e - l,
      refl,
      ap pos (sub_split e l b),
      refl,
      ap pos (sub_split f t k ∙ ap (λ (x : ℕ). t + x) (sym same)),
      a,
      omega arith,
      d,
      omega arith,
      n,
    )
check_sound (negsuc l) e t f h = ground arith
check_sound (pos l) (negsuc e) t f h = ground arith
check_sound (pos l) (pos e) (negsuc t) f h = ground arith
check_sound (pos l) (pos e) (pos t) (negsuc f) h = ground arith

check_complete :
    (listen listen_end target target_end : ℤ)
    → PortsFit listen listen_end target target_end
    → check_port_values listen listen_end target target_end ≡ ok tt
check_complete listen listen_end target target_end (l, t, n, p, q, r, s, a, b, c, d, e) =
    rw (p, q, r, s) (check_fit l t n a b c d e)

-- A rule passes the port checks exactly when its listen and its target ports are two ranges of the
-- same size, of at most 4096 ports, within 1 to 65535.
pub check_ports-PortsFit :
    (r : Rule)
    → (check_ports r ≡ ok tt)
      ↔ PortsFit r.listen_port (last_listen_port r) r.target_port (last_target_port r)
unfolding check_ports
check_ports-PortsFit r = (check_sound _ _ _ _, check_complete _ _ _ _)
