-- ===== src/Netip/Forms.antt =====
-- The text forms of `net/netip` and `net`: what `ParseAddr`, `ParsePrefix`, `String`,
-- `SplitHostPort`, `JoinHostPort` and `strconv.Atoi` do is a parameter of the model.
use go_nftables_portbridge.Prelude.{◌≡◌, true, false, Option, none, some}
use go_nftables_portbridge.Prelude.Int.{ℤ}
use go_nftables_portbridge.Text.{Text, is_empty, trim_space}
use go_nftables_portbridge.Netip.{Addr, zero_addr, Prefix, PrefixFits, masked, is_valid}

pub record Forms : Type 0 where
  pub parse_addr : Text → Option Addr
  pub format_addr : Addr → Text
  pub parse_prefix : Text → Option Prefix
  pub format_prefix : Prefix → Text
  pub split_host_port : Text → Option (Text × Text)
  pub join_host_port : Text → ℤ → Text
  pub parse_int : Text → Option ℤ

-- Documented behaviour: `ParsePrefix` returns a prefix that fits its family, `String` writes a form
-- that `ParsePrefix` reads back and that no space surrounds, `ParseAddr` returns no zero value, and the text of the zero prefix is that
-- of no prefix.
pub record Documented (f : Forms) : Type 0 where
  pub parse-format :
      (p : Prefix) → PrefixFits p → f.parse_prefix (f.format_prefix (masked p)) ≡ some (masked p)
  pub parse_fits : (s : Text) (p : Prefix) → f.parse_prefix s ≡ some p → PrefixFits p
  pub format_trimmed : (p : Prefix) → trim_space (f.format_prefix p) ≡ f.format_prefix p
  pub format_nonempty : (p : Prefix) → is_empty (f.format_prefix p) ≡ false
  pub parse_valid : (s : Text) (a : Addr) → f.parse_addr s ≡ some a → is_valid a ≡ true
  pub parse-zero : f.parse_prefix (f.format_prefix (record { addr = zero_addr; bits = 0 })) ≡ none
