-- ===== src/Nft/Keys.antt =====
-- What tells kernel rules apart: `nftRuleIdentity` (nft_journal.go), `validateRetirementSpec`
-- (nft_conntrack.go), `nftRetirementKey` and `uniqueNFTSpecs` (nft_recovery.go), all in
-- internal/proxy. The texts of numbers and the hash are a parameter.
pub mod Fits
pub mod Distinct
pub mod Unique
use go_nftables_portbridge.Prelude.{
  ℕ, ◌+◌, ◌≤◌, ◌≡◌, Bool, true, false, ◌&&◌, ◌||◌, not, List, [], ◌∷◌, ◌++◌, map, Option, none,
  some, All, length, ◌==◌, if◌then◌else◌,
}
use go_nftables_portbridge.Prelude.Int.{ℤ, pos, ltb_ℤ, ◌+ℤ◌, ◌-ℤ◌}
use go_nftables_portbridge.Text.{Text, codes, text_eq, is_empty}
use go_nftables_portbridge.Text.Sets.{sort_texts}
use go_nftables_portbridge.Text.Maps.{find_text, put_text}
use go_nftables_portbridge.Netip.{Addr, zero_addr, is_valid, is_4, zone}
use go_nftables_portbridge.Plan.{NftRuleSpec}
use go_nftables_portbridge.Nft.Ports.{end_or, nft_last_port}

-- `%d` of `fmt`, `%08x`, `String` of an address, and the hexadecimal text of a SHA-256 hash.
pub record KernelForms : Type 0 where
  pub format_int : ℤ → Text
  pub format_hex : ℕ → Text
  pub format_addr : Addr → Text
  pub rule_hash : Text → Text

abbrev pub bar : ℕ
bar = b'|'

abbrev pub dash : ℕ
dash = b'-'

-- The text does not hold the code point.
abbrev pub Free : ℕ → Text → Type 0
Free c = All (λ d. (d == c) ≡ false)

-- Documented behaviour: numbers that are not negative are written in digits, addresses in digits,
-- letters, dots and colons, hashes in digits and letters; different numbers and different addresses
-- without a zone have different texts.
pub record KernelDocumented (k : KernelForms) : Type 0 where
  pub int_free : (n : ℕ) → Free bar (k.format_int (pos n)) × Free dash (k.format_int (pos n))
  pub int_distinct : (m n : ℕ) → k.format_int (pos m) ≡ k.format_int (pos n) → m ≡ n
  pub hex_distinct : (m n : ℕ) → k.format_hex m ≡ k.format_hex n → m ≡ n
  pub addr_free : (a : Addr) → is_empty (zone a) ≡ true → Free bar (k.format_addr a)
  pub addr_distinct :
      (a b : Addr)
      → (is_valid a && is_empty (zone a)) ≡ true
      → (is_valid b && is_empty (zone b)) ≡ true
      → k.format_addr a ≡ k.format_addr b
      → a ≡ b
  pub hash_free : (s : Text) → Free bar (k.rule_hash s)
  pub hash_nonempty : (s : Text) → is_empty (k.rule_hash s) ≡ false

abbrev pub bool_eq : Bool → Bool → Bool
bool_eq true b = b
bool_eq false b = not b

-- The tests on one end of a rule, and the whole of the tests; the error is one text.
abbrev pub host_fits : ℕ → Addr → Bool
host_fits family a = is_valid a && is_empty (zone a) && bool_eq (is_4 a) (family == 4)

abbrev pub port_fits : ℤ → ℤ → Bool
port_fits first last =
    not (ltb_ℤ first (pos 1)) && not (ltb_ℤ (pos 65535) last) && not (ltb_ℤ last first)

abbrev pub protocol_fits : Text → Bool
protocol_fits p = text_eq p (codes "tcp") || text_eq p (codes "udp")

abbrev pub equal_ℤ : ℤ → ℤ → Bool
equal_ℤ a b = not (ltb_ℤ a b) && not (ltb_ℤ b a)

unfoldable pub valid_retirement_spec : NftRuleSpec → Bool
valid_retirement_spec s =
    let end = end_or s.listen_port_end s.listen_port in
    let target_end = end_or s.target_port_end s.target_port in
    (s.family == 4 || s.family == 6)
    && protocol_fits s.protocol
    && not (s.conntrack_mark == 0)
    && host_fits s.family s.listen_host
    && host_fits s.family s.target_host
    && port_fits s.listen_port end
    && port_fits s.target_port target_end
    && equal_ℤ (end -ℤ s.listen_port) (target_end -ℤ s.target_port)
    && not (ltb_ℤ (pos 4096) (end -ℤ s.listen_port +ℤ pos 1))

-- The zero value that a map hands out for a missing key.
abbrev pub zero_spec : NftRuleSpec
zero_spec = record {
  rule_id = [];
  family = 0;
  listen_host = zero_addr;
  listen_port = pos 0;
  listen_port_end = pos 0;
  target_host = zero_addr;
  target_port = pos 0;
  target_port_end = pos 0;
  protocol = [];
  conntrack_mark = 0;
  enable_flowtable = false;
  rule_identity = [];
}

abbrev pub value_or_zero : Option NftRuleSpec → NftRuleSpec
value_or_zero none = zero_spec
value_or_zero (some s) = s

abbrev pub at_key : List (Text × NftRuleSpec) → Text → NftRuleSpec
at_key seen key = value_or_zero (find_text key seen)

module _ (k : KernelForms) where
  open k use {format_int, format_hex, format_addr, rule_hash}

  unfoldable pub nft_rule_identity : NftRuleSpec → Text
  nft_rule_identity s = if is_empty s.rule_identity then rule_hash s.rule_id else s.rule_identity

  abbrev pub port_key : ℤ → ℤ → Text
  port_key first last = format_int first ++ dash ∷ format_int last

  unfoldable pub nft_retirement_key : NftRuleSpec → Text
  nft_retirement_key s =
      nft_rule_identity s
      ++ (bar
          ∷ (format_int (pos s.family)
              ++ (bar
                  ∷ (format_addr s.listen_host
                      ++ (bar
                          ∷ (port_key s.listen_port (end_or s.listen_port_end s.listen_port)
                              ++ (bar
                                  ∷ (format_addr s.target_host
                                      ++ (bar
                                          ∷ (port_key s.target_port
                                                (end_or s.target_port_end s.target_port)
                                              ++ (bar
                                                  ∷ (s.protocol
                                                      ++ (bar
                                                          ∷ format_hex s.conntrack_mark)))))))))))))

  -- `seen[key] = spec` for each rule in turn: a later rule takes the place of one with its key.
  unfoldable pub by_key : List NftRuleSpec → List (Text × NftRuleSpec) → List (Text × NftRuleSpec)
  by_key [] seen = seen
  by_key (s ∷ specs) seen = by_key specs (put_text (nft_retirement_key s) s seen)

  -- The groups are given as one list.
  unfoldable pub unique_nft_specs : List NftRuleSpec → List NftRuleSpec
  unfolding by_key
  unique_nft_specs specs =
      let seen = by_key specs [] in map (at_key seen) (sort_texts (map (λ e. e.0) seen))
