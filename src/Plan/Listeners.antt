-- ===== src/Plan/Listeners.antt =====
-- `listenFamilies` of internal/proxy/plan.go against `listenHostsOverlap` of
-- internal/config/config.go.
use go_nftables_portbridge.Prelude.{
  ℕ, ◌+◌, ◌*◌, ◌^◌, ◌/◌, ◌%◌, ◌<◌, ◌≡◌, refl, ap, ◌∙◌, sym, true, false, [], ◌∷◌, some, arith, ◌==◌,
}
use go_nftables_portbridge.Text.{Text, codes, text_eq, trim_space}
use go_nftables_portbridge.Netip.{Addr, v4, v6, unmap}
use go_nftables_portbridge.Netip.Forms.{Forms}
use go_nftables_portbridge.Config.Conflicts.{listen_hosts_overlap, addrs_overlap}
use go_nftables_portbridge.Plan.{listen_families, family_of, parse_or_zero}

mapped_unmap : (n : ℕ) → n < 2 ^ 32 → unmap (v6 (0xffff * 2 ^ 32 + n) []) ≡ v4 n
unfolding unmap
mapped_unmap n h =
    let high : ((0xffff * 2 ^ 32 + n) / 2 ^ 32 == 0xffff) ≡ true = ground arith in
    let low : (0xffff * 2 ^ 32 + n) % 2 ^ 32 ≡ n = omega arith in rw (high, low) refl

module _ (forms : Forms) where
  open forms use {parse_addr}

  parsed : (host : Text) (a : Addr) → parse_addr host ≡ some a → parse_or_zero forms host ≡ a
  parsed host a e = rw (e, parse_or_zero)

  one_listener :
      (host : Text) (a : Addr)
      → text_eq host (codes "*") ≡ false
      → trim_space host ≡ host
      → parse_addr host ≡ some a
      → listen_families forms host ≡ family_of (unmap a) ∷ []
  unfolding listen_families
  one_listener host a star trimmed e = rw star (
      ap (λ (s : Text). family_of (unmap (parse_or_zero forms s)) ∷ []) trimmed
      ∙ ap (λ (b : Addr). family_of (unmap b) ∷ []) (parsed host a e))

  -- Two trimmed listen hosts of which one is an IPv4 address and the other the same address mapped into
  -- IPv6: the conflict check finds no overlap, and the plan has the two listen on the same address.
  pub mapped_hosts_missed :
      (host mapped : Text) (n : ℕ)
      → n < 2 ^ 32
      → text_eq host (codes "*") ≡ false
      → text_eq mapped (codes "*") ≡ false
      → trim_space host ≡ host
      → trim_space mapped ≡ mapped
      → parse_addr host ≡ some (v4 n)
      → parse_addr mapped ≡ some (v6 (0xffff * 2 ^ 32 + n) [])
      → (listen_hosts_overlap forms host mapped ≡ false)
        × (listen_families forms host ≡ listen_families forms mapped)
  unfolding listen_hosts_overlap addrs_overlap unmap
  mapped_hosts_missed host mapped n h star star' trimmed trimmed' e e' = (
    rw (star, star', e, e') refl,
    one_listener host (v4 n) star trimmed e
        ∙ ap (λ (a : Addr). family_of a ∷ []) (sym (mapped_unmap n h))
        ∙ sym (one_listener mapped (v6 (0xffff * 2 ^ 32 + n) []) star' trimmed' e'),
  )
