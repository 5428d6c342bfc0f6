-- ===== src/Examples/Forms.antt =====
-- Text forms that satisfy the documented behaviour: a few literals, and an encoding of any prefix
-- between angle brackets.
use go_nftables_portbridge.Prelude.{
  ℕ, ◌+◌, ◌*◌, ◌^◌, ◌≤◌, ◌≡◌, refl, true, false, [], ◌∷◌, Option, none, some, leb, ◌==◌,
  if◌then◌else◌, arith, Bool-cases, inl, inr,
}
use go_nftables_portbridge.Text.{Text, codes, text_eq, trim_space, is_empty}
use go_nftables_portbridge.Netip.{
  Addr, zero_addr, v4, v6, Prefix, PrefixFits, masked, is_valid, masked_of, bit_length,
}
use go_nftables_portbridge.Netip.Forms.{Forms, Documented}

abbrev pub sample_parse_addr : Text → Option Addr
sample_parse_addr s =
    if text_eq s (codes "127.0.0.1")
    then some (v4 0x7f000001)
    else if text_eq s (codes "10.0.0.5")
    then some (v4 0x0a000005)
    else if text_eq s (codes "::ffff:10.0.0.5")
    then some (v6 (0xffff * 2 ^ 32 + 0x0a000005) [])
    else if text_eq s (codes "::1")
    then some (v6 1 [])
    else none

abbrev fitting : ℕ → ℕ → Addr → Option Prefix
fitting bits width a = if leb bits width then some (record { addr = a; bits = bits }) else none

abbrev decode_prefix : Text → Option Prefix
decode_prefix (open_mark ∷ family ∷ a ∷ bits ∷ rest) =
    if family == 4 then fitting bits 32 (v4 a) else fitting bits 128 (v6 a [])
decode_prefix _ = none

abbrev pub sample_parse_prefix : Text → Option Prefix
sample_parse_prefix s =
    if text_eq s (codes "10.0.0.0/8")
    then some (record { addr = v4 0x0a000000; bits = 8 })
    else decode_prefix s

abbrev encode_prefix : Addr → ℕ → Text
encode_prefix zero_addr bits = b'<' ∷ b'>' ∷ []
encode_prefix (v4 a) bits = b'<' ∷ 4 ∷ a ∷ bits ∷ b'>' ∷ []
encode_prefix (v6 a z) bits = b'<' ∷ 6 ∷ a ∷ bits ∷ b'>' ∷ []

abbrev pub sample_forms : Forms
sample_forms = record {
  parse_addr = sample_parse_addr;
  format_addr = λ a. encode_prefix a 0;
  parse_prefix = sample_parse_prefix;
  format_prefix = λ p. encode_prefix p.addr p.bits;
  split_host_port = λ s. none;
  join_host_port = λ host port. host;
  parse_int = λ s. none;
}

parse-masked :
    (a : Addr) (bits : ℕ)
    → is_valid a ≡ true
    → bits ≤ bit_length a
    → sample_parse_prefix (encode_prefix (masked_of a bits) bits)
      ≡ some (record { addr = masked_of a bits; bits = bits })
unfolding text_eq
parse-masked zero_addr bits h k = cc
parse-masked (v4 a) bits h k = ground arith
parse-masked (v6 a z) bits h k = ground arith

fitting-fits :
    (bits width : ℕ) (a : Addr) (p : Prefix)
    → is_valid a ≡ true
    → bit_length a ≡ width
    → fitting bits width a ≡ some p
    → PrefixFits p
fitting-fits bits width a p h k e = ground arith

decoded_fits : (s : Text) (p : Prefix) → decode_prefix s ≡ some p → PrefixFits p
decoded_fits [] p e = cc
decoded_fits (a ∷ []) p e = cc
decoded_fits (a ∷ b ∷ []) p e = cc
decoded_fits (a ∷ b ∷ c ∷ []) p e = cc
decoded_fits (open_mark ∷ family ∷ a ∷ bits ∷ rest) p e = elim (Bool-cases (family == 4)) [
  | inl four ↦ fitting-fits bits 32 (v4 a) p refl refl (rw four at e)
  | inr six ↦ fitting-fits bits 128 (v6 a []) p refl refl (rw six at e)
]

parsed_fits : (s : Text) (p : Prefix) → sample_parse_prefix s ≡ some p → PrefixFits p
parsed_fits s p e = elim (Bool-cases (text_eq s (codes "10.0.0.0/8"))) [
  | inl literal ↦ ground (arith, (rw literal at e))
  | inr other ↦ decoded_fits s p (rw other at e)
]

encoded_trimmed : (a : Addr) (bits : ℕ) → trim_space (encode_prefix a bits) ≡ encode_prefix a bits
unfolding trim_space
encoded_trimmed zero_addr bits = refl
encoded_trimmed (v4 a) bits = refl
encoded_trimmed (v6 a z) bits = refl

encoded_nonempty : (a : Addr) (bits : ℕ) → is_empty (encode_prefix a bits) ≡ false
encoded_nonempty zero_addr bits = refl
encoded_nonempty (v4 a) bits = refl
encoded_nonempty (v6 a z) bits = refl

parsed_valid : (s : Text) (a : Addr) → sample_parse_addr s ≡ some a → is_valid a ≡ true
parsed_valid s a e = ground arith

pub sample_forms-Documented : Documented sample_forms
unfolding masked text_eq
sample_forms-Documented = record {
  parse-format = λ p (valid, fits). parse-masked p.addr p.bits valid fits;
  parse_fits = parsed_fits;
  format_trimmed = λ p. encoded_trimmed p.addr p.bits;
  format_nonempty = λ p. encoded_nonempty p.addr p.bits;
  parse_valid = parsed_valid;
  parse-zero = refl;
}
