-- ===== src/Netip.antt =====
-- Go's `net/netip`, as far as the sources use it: addresses with their zone, the predicates on them,
-- prefixes, and the text forms of both.
pub mod Facts
pub mod Forms
use go_nftables_portbridge.Prelude.{
  ℕ, ◌+◌, ◌-◌, ◌*◌, ◌/◌, ◌%◌, ◌^◌, ◌≤◌, ◌<◌, ◌≡◌, Bool, true, false, ◌&&◌, ◌||◌, not, List, [], ◌∷◌,
  Option, none, some, ◌==◌, ltb, if◌then◌else◌,
}
use go_nftables_portbridge.Text.{Text, text_eq, is_empty}

-- `netip.Addr`: the zero value, an IPv4 address of 32 bits, an IPv6 address of 128 bits and a zone.
pub data Addr : Type 0 where
  zero_addr : Addr
  v4 : ℕ → Addr
  v6 : ℕ → Text → Addr

unfoldable pub addr_eq : Addr → Addr → Bool
addr_eq zero_addr zero_addr = true
addr_eq (v4 a) (v4 b) = a == b
addr_eq (v6 a z) (v6 b w) = a == b && text_eq z w
addr_eq _ _ = false

abbrev pub is_valid : Addr → Bool
is_valid zero_addr = false
is_valid _ = true

abbrev pub is_4 : Addr → Bool
is_4 (v4 a) = true
is_4 _ = false

abbrev pub is_6 : Addr → Bool
is_6 (v6 a z) = true
is_6 _ = false

-- ::ffff:a.b.c.d
abbrev pub is_4_in_6 : Addr → Bool
is_4_in_6 (v6 a z) = a / 2 ^ 32 == 0xffff
is_4_in_6 _ = false

unfoldable pub unmap : Addr → Addr
unmap (v6 a z) = if a / 2 ^ 32 == 0xffff then v4 (a % 2 ^ 32) else v6 a z
unmap a = a

abbrev pub bit_length : Addr → ℕ
bit_length zero_addr = 0
bit_length (v4 a) = 32
bit_length (v6 a z) = 128

abbrev pub zone : Addr → Text
zone (v6 a z) = z
zone _ = []

unfoldable pub is_unspecified : Addr → Bool
is_unspecified (v4 a) = a == 0
is_unspecified (v6 a z) = a == 0 && is_empty z
is_unspecified zero_addr = false

-- The predicates of `netip` first take an IPv4-mapped address for the IPv4 address in it.
abbrev pub loopback_of : Addr → Bool
loopback_of (v4 a) = a / 2 ^ 24 == 127
loopback_of (v6 a z) = a == 1
loopback_of zero_addr = false

unfoldable pub is_loopback : Addr → Bool
unfolding unmap
is_loopback a = loopback_of (unmap a)

abbrev pub multicast_of : Addr → Bool
multicast_of (v4 a) = a / 2 ^ 28 == 0xe
multicast_of (v6 a z) = a / 2 ^ 120 == 0xff
multicast_of zero_addr = false

unfoldable pub is_multicast : Addr → Bool
unfolding unmap
is_multicast a = multicast_of (unmap a)

abbrev pub link_local_unicast_of : Addr → Bool
link_local_unicast_of (v4 a) = a / 2 ^ 16 == 0xa9fe
link_local_unicast_of (v6 a z) = a / 2 ^ 118 == 0x3fa
link_local_unicast_of zero_addr = false

unfoldable pub is_link_local_unicast : Addr → Bool
unfolding unmap
is_link_local_unicast a = link_local_unicast_of (unmap a)

abbrev pub link_local_multicast_of : Addr → Bool
link_local_multicast_of (v4 a) = a / 2 ^ 8 == 0xe00000
link_local_multicast_of (v6 a z) = a / 2 ^ 120 == 0xff && a / 2 ^ 112 % 16 == 2
link_local_multicast_of zero_addr = false

unfoldable pub is_link_local_multicast : Addr → Bool
unfolding unmap
is_link_local_multicast a = link_local_multicast_of (unmap a)

-- 10/8, 172.16/12, 192.168/16, fc00::/7
abbrev pub private_of : Addr → Bool
private_of (v4 a) = a / 2 ^ 24 == 10 || a / 2 ^ 20 == 0xac1 || a / 2 ^ 16 == 0xc0a8
private_of (v6 a z) = a / 2 ^ 121 == 0x7e
private_of zero_addr = false

unfoldable pub is_private : Addr → Bool
unfolding unmap
is_private a = private_of (unmap a)

abbrev pub global_unicast_of : Addr → Bool
global_unicast_of zero_addr = false
global_unicast_of (v4 a) =
    not (a == 0)
    && not (a == 0xffffffff)
    && not (loopback_of (v4 a))
    && not (multicast_of (v4 a))
    && not (link_local_unicast_of (v4 a))
global_unicast_of (v6 a z) =
    not (is_unspecified (v6 a z))
    && not (loopback_of (v6 a z))
    && not (multicast_of (v6 a z))
    && not (link_local_unicast_of (v6 a z))

unfoldable pub is_global_unicast : Addr → Bool
unfolding unmap is_unspecified
is_global_unicast a = global_unicast_of (unmap a)

-- `netip.Prefix`
pub record Prefix : Type 0 where
  pub addr : Addr
  pub bits : ℕ

-- The addresses of a prefix agree with it on its leading bits; an address with a zone is in none.
abbrev pub contains_of : Addr → ℕ → Addr → Bool
contains_of (v4 p) bits (v4 a) = a / 2 ^ (32 - bits) == p / 2 ^ (32 - bits)
contains_of (v6 p w) bits (v6 a z) = is_empty z && a / 2 ^ (128 - bits) == p / 2 ^ (128 - bits)
contains_of _ bits _ = false

unfoldable pub contains : Prefix → Addr → Bool
contains p a = contains_of p.addr p.bits a

abbrev pub masked_of : Addr → ℕ → Addr
masked_of (v4 p) bits = v4 (p / 2 ^ (32 - bits) * 2 ^ (32 - bits))
masked_of (v6 p z) bits = v6 (p / 2 ^ (128 - bits) * 2 ^ (128 - bits)) []
masked_of zero_addr bits = zero_addr

unfoldable pub masked : Prefix → Prefix
masked p = record p { addr = masked_of p.addr p.bits }

abbrev without_zone : Addr → Addr
without_zone (v6 a z) = v6 a []
without_zone a = a

-- `netip.PrefixFrom`
abbrev pub prefix_from : Addr → ℕ → Prefix
prefix_from a bits = record { addr = without_zone a; bits = bits }

-- A prefix that `ParsePrefix` can return: its bits fit its family.
abbrev pub PrefixFits : Prefix → Type 0
PrefixFits p = (is_valid p.addr ≡ true) × (p.bits ≤ bit_length p.addr)
