-- ===== src/Examples/Kernels.antt =====
-- Kernel rules and the texts of their numbers, for the tests and the witnesses.
use Prim.Native.Nat.{suc, zero}
use go_nftables_portbridge.Prelude.{ℕ, ◌≡◌, refl, true, false, ◌&&◌, [], ◌∷◌, ◌++◌, arith, ◌==◌}
use go_nftables_portbridge.Prelude.Int.{ℤ, pos, negsuc, ◌+ℤ◌, ◌-ℤ◌}
use go_nftables_portbridge.Text.{Text, codes, is_empty, text_eq}
use go_nftables_portbridge.Netip.{Addr, zero_addr, v4, v6, is_valid, zone}
use go_nftables_portbridge.Plan.{NftRuleSpec}
use go_nftables_portbridge.Nft.Keys.{
  KernelForms, KernelDocumented, Free, nft_rule_identity, bar, dash, valid_retirement_spec,
}
use go_nftables_portbridge.Nft.Keys.Fits.{Fits, valid-Fits}
use go_nftables_portbridge.Nft.Path.{KernelPath}

-- A number as so many strokes.
unfoldable pub strokes : ℕ → Text
strokes zero = []
strokes (suc n) = 49 ∷ strokes n

abbrev pub sample_int : ℤ → Text
sample_int (pos n) = strokes n
sample_int (negsuc n) = 45 ∷ strokes (suc n)

abbrev pub sample_addr : Addr → Text
sample_addr zero_addr = []
sample_addr (v4 a) = 46 ∷ strokes a
sample_addr (v6 a z) = 58 ∷ strokes a ++ z

abbrev pub sample_kernel : KernelForms
sample_kernel = record {
  format_int = sample_int;
  format_hex = strokes;
  format_addr = sample_addr;
  rule_hash = λ s. 97 ∷ [];
}

strokes-Free : (c n : ℕ) → (49 == c) ≡ false → Free c (strokes n)
unfolding strokes
strokes-Free c zero h = tt
strokes-Free c (suc n) h = (h, strokes-Free c n h)

strokes_distinct : (m n : ℕ) → strokes m ≡ strokes n → m ≡ n
unfolding strokes
strokes_distinct zero zero e = refl
strokes_distinct zero (suc n) e = absurd cc
strokes_distinct (suc m) zero e = absurd cc
strokes_distinct (suc m) (suc n) e = let same : m ≡ n = strokes_distinct m n cc in rw same refl

addr-Free : (a : Addr) → is_empty (zone a) ≡ true → Free bar (sample_addr a)
addr-Free zero_addr h = tt
addr-Free (v4 a) h = (refl, strokes-Free bar a refl)
addr-Free (v6 a []) h = (refl, no_zone (strokes a) (strokes-Free bar a refl))
  where
    no_zone : (s : Text) → Free bar s → Free bar (s ++ [])
    no_zone [] f = tt
    no_zone (c ∷ s) (f, g) = (f, no_zone s g)
addr-Free (v6 a (c ∷ z)) h = absurd cc

no_tail : (s t : Text) → s ++ [] ≡ t ++ [] → s ≡ t
no_tail [] [] e = refl
no_tail [] (c ∷ t) e = absurd cc
no_tail (c ∷ s) [] e = absurd cc
no_tail (c ∷ s) (d ∷ t) e =
    let tails : s ≡ t = no_tail s t cc in let heads : c ≡ d = cc in rw (heads, tails) refl

addr_distinct :
    (a b : Addr)
    → (is_valid a && is_empty (zone a)) ≡ true
    → (is_valid b && is_empty (zone b)) ≡ true
    → sample_addr a ≡ sample_addr b
    → a ≡ b
addr_distinct zero_addr b h g e = absurd cc
addr_distinct a zero_addr h g e = absurd cc
addr_distinct (v4 a) (v4 b) h g e = let same : a ≡ b = strokes_distinct a b cc in rw same refl
addr_distinct (v4 a) (v6 b z) h g e = absurd (heads (strokes a) (strokes b ++ z) e)
  where
    heads : (s t : Text) → ◌≡◌ {A = Text} (46 ∷ s) (58 ∷ t) → ⊥
    heads s t e = ground arith
addr_distinct (v6 a z) (v4 b) h g e = absurd (heads (strokes a ++ z) (strokes b) e)
  where
    heads : (s t : Text) → ◌≡◌ {A = Text} (58 ∷ s) (46 ∷ t) → ⊥
    heads s t e = ground arith
addr_distinct (v6 a []) (v6 b []) h g e =
    let same : a ≡ b = strokes_distinct a b (no_tail (strokes a) (strokes b) cc) in rw same refl
addr_distinct (v6 a (c ∷ z)) b h g e = absurd cc
addr_distinct a (v6 b (c ∷ z)) h g e = absurd cc

pub sample_kernel-KernelDocumented : KernelDocumented sample_kernel
sample_kernel-KernelDocumented = record {
  int_free = λ n. (strokes-Free bar n refl, strokes-Free dash n refl);
  int_distinct = strokes_distinct;
  hex_distinct = strokes_distinct;
  addr_free = addr-Free;
  addr_distinct = addr_distinct;
  hash_free = λ s. (refl, tt);
  hash_nonempty = λ s. refl;
}

-- Ports 2 to 4 of each host, sent on to a host, and the first two of them to another.
abbrev pub web_spec : NftRuleSpec
web_spec = record {
  rule_id = codes "web";
  family = 4;
  listen_host = v4 0;
  listen_port = pos 2;
  listen_port_end = pos 4;
  target_host = v4 2;
  target_port = pos 5;
  target_port_end = pos 7;
  protocol = codes "tcp";
  conntrack_mark = 1;
  enable_flowtable = false;
  rule_identity = codes "w";
}

abbrev pub moved_spec : NftRuleSpec
moved_spec = record web_spec {
  listen_port_end = pos 3;
  target_host = v4 1;
  target_port_end = pos 6;
}

pub web_spec-Fits : Fits sample_kernel web_spec
unfolding valid_retirement_spec nft_rule_identity text_eq ◌-ℤ◌ ◌+ℤ◌
web_spec-Fits = valid-Fits sample_kernel web_spec refl (refl, tt)

pub moved_spec-Fits : Fits sample_kernel moved_spec
unfolding valid_retirement_spec nft_rule_identity text_eq ◌-ℤ◌ ◌+ℤ◌
moved_spec-Fits = valid-Fits sample_kernel moved_spec refl (refl, tt)

abbrev pub web_path : KernelPath
web_path = record {
  identity = codes "w";
  family = 4;
  protocol = codes "tcp";
  mark = 1;
  listen = v4 0;
  port = 3;
  target = v4 2;
  target_port = 6;
}
