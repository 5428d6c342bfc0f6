-- ===== src/Netip/Facts.antt =====
-- Facts of `net/netip` that the policy and the access list rest on.
use go_nftables_portbridge.Prelude.{◌≡◌, ◌↔◌, refl, true, false, arith}
use go_nftables_portbridge.Text.{text_eq_refl, text_eq_iff}
use go_nftables_portbridge.Netip.{addr_eq, Addr, zero_addr, v4, v6, unmap, is_4_in_6}

pub unmap_plain : (a : Addr) → is_4_in_6 a ≡ false → unmap a ≡ a
unfolding unmap
unmap_plain zero_addr h = refl
unmap_plain (v4 a) h = refl
unmap_plain (v6 a z) h = rw h

pub is_4_in_6-unmap : (a : Addr) → is_4_in_6 (unmap a) ≡ false
unfolding unmap
is_4_in_6-unmap zero_addr = refl
is_4_in_6-unmap (v4 a) = refl
is_4_in_6-unmap (v6 a z) = ground arith

pub unmap_idem : (a : Addr) → unmap (unmap a) ≡ unmap a
unmap_idem a = unmap_plain (unmap a) (is_4_in_6-unmap a)

pub addr_eq_refl : (a : Addr) → addr_eq a a ≡ true
unfolding addr_eq
addr_eq_refl zero_addr = refl
addr_eq_refl (v4 a) = ground arith
addr_eq_refl (v6 a z) = ground (arith, text_eq_refl z)

pub addr_eq_sound : (a b : Addr) → addr_eq a b ≡ true → a ≡ b
unfolding addr_eq
addr_eq_sound zero_addr zero_addr h = refl
addr_eq_sound (v4 a) (v4 b) h = ground arith
addr_eq_sound (v6 a z) (v6 b w) h = ground (arith, text_eq_iff z w)
addr_eq_sound zero_addr (v4 b) h = cc
addr_eq_sound zero_addr (v6 b w) h = cc
addr_eq_sound (v4 a) zero_addr h = cc
addr_eq_sound (v4 a) (v6 b w) h = cc
addr_eq_sound (v6 a z) zero_addr h = cc
addr_eq_sound (v6 a z) (v4 b) h = cc

pub addr_eq_iff : (a b : Addr) → (addr_eq a b ≡ true) ↔ (a ≡ b)
addr_eq_iff a b = (addr_eq_sound a b, λ e. rw e (addr_eq_refl b))
