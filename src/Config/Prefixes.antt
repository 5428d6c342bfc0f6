-- ===== src/Config/Prefixes.antt =====
-- Allowlists and DNS servers of internal/config/config.go: `NormalizeWhitelist`,
-- `NormalizeTargetCIDRs`, `NormalizeDNSServers`. A Go map used as a set is the list of its keys.
pub mod Allowlist
use go_nftables_portbridge.Prelude.{
  ℕ, Bool, true, false, ◌||◌, List, [], ◌∷◌, ◌++◌, Option, none, some, ltb, ◌==◌, length,
  if◌then◌else◌,
}
use go_nftables_portbridge.Prelude.Int.{ℤ, pos, ltb_ℤ}
use go_nftables_portbridge.Text.{Text, codes, trim_space, is_empty}
use go_nftables_portbridge.Text.Sets.{add_key, has_key, sort_texts}
use go_nftables_portbridge.Netip.{
  Addr, Prefix, unmap, is_4, is_4_in_6, masked, prefix_from, bit_length,
}
use go_nftables_portbridge.Netip.Forms.{Forms}
use go_nftables_portbridge.Config.{max_whitelist_entries}
use go_nftables_portbridge.Config.Errors.{
  Result, ok, err, ◌>>=◌, ◌>>◌, reject_if, whitelist_entry, whitelist_mapped, whitelist_size,
  cidr_invalid, cidr_mapped, cidr_all, cidr_size, dns_server, dns_literal, dns_port, dns_count,
}

abbrev pub max_target_cidrs : ℕ
max_target_cidrs = 64

abbrev pub max_dns_servers : ℕ
max_dns_servers = 8

module _ (forms : Forms) where
  open forms use {
    parse_addr, format_addr, parse_prefix, format_prefix, split_host_port, join_host_port,
    parse_int,
  }

  -- One entry of a target CIDR allowlist, trimmed and not empty: its key in the set.
  unfoldable pub target_cidr_key : Text → Result Text
  target_cidr_key s = elim (parse_prefix s) [
    | none ↦ err cidr_invalid
    | some prefix ↦ do
      reject_if (is_4_in_6 prefix.addr) cidr_mapped
      reject_if ((masked prefix).bits == 0) cidr_all
      ok (format_prefix (masked prefix))
  ]

  -- The loop over the entries, with the set so far.
  unfoldable pub collect_target_cidrs : List Text → List Text → Result (List Text)
  unfolding target_cidr_key
  collect_target_cidrs [] set = ok set
  collect_target_cidrs (raw ∷ items) set = elim (is_empty (trim_space raw)) [
    | true ↦ collect_target_cidrs items set
    | false ↦ elim (target_cidr_key (trim_space raw)) [
      | err e ↦ err e
      | ok key ↦ collect_target_cidrs items (add_key key set)
    ]
  ]

  unfoldable pub normalize_target_cidrs : List Text → Result (List Text)
  unfolding collect_target_cidrs
  normalize_target_cidrs items = do
    set ← collect_target_cidrs items []
    let out = sort_texts set
    reject_if (ltb max_target_cidrs (length out)) cidr_size
    ok out

  -- One whitelist entry: an address stands for the prefix of its full length.
  unfoldable pub whitelist_key : Text → Result Text
  whitelist_key s = elim (parse_addr s) [
    | some ip ↦ ok (format_prefix (prefix_from (unmap ip) (if is_4 (unmap ip) then 32 else 128)))
    | none ↦ elim (parse_prefix s) [
      | none ↦ err whitelist_entry
      | some prefix ↦ do
        reject_if (is_4_in_6 prefix.addr) whitelist_mapped
        ok (format_prefix (masked prefix))
    ]
  ]

  unfoldable pub collect_whitelist : List Text → List Text → Result (List Text)
  unfolding whitelist_key
  collect_whitelist [] set = ok set
  collect_whitelist (raw ∷ items) set = elim (is_empty (trim_space raw)) [
    | true ↦ collect_whitelist items set
    | false ↦ elim (whitelist_key (trim_space raw)) [
      | err e ↦ err e
      | ok key ↦ collect_whitelist items (add_key key set)
    ]
  ]

  unfoldable pub normalize_whitelist : List Text → Result (List Text)
  unfolding collect_whitelist
  normalize_whitelist items = do
    set ← collect_whitelist items []
    let out = sort_texts set
    reject_if (ltb max_whitelist_entries (length out)) whitelist_size
    ok out

  -- The host and the port of a DNS server, the port's text still unread.
  unfoldable pub dns_host_port : Text → Result (Text × Text)
  dns_host_port s = elim (parse_addr s) [
    | some ip ↦ ok (format_addr (unmap ip), codes "53")
    | none ↦ elim (split_host_port s) [
      | none ↦ err dns_server
      | some (host, port) ↦ elim (parse_addr host) [
        | none ↦ err dns_literal
        | some ip ↦ ok (format_addr (unmap ip), port)
      ]
    ]
  ]

  unfoldable pub dns_port_number : Text → Result ℤ
  dns_port_number port = elim (parse_int port) [
    | none ↦ err dns_port
    | some number ↦ do
      reject_if (ltb_ℤ number (pos 1) || ltb_ℤ (pos 65535) number) dns_port
      ok number
  ]

  unfoldable pub dns_endpoint : Text → Result Text
  unfolding dns_host_port dns_port_number
  dns_endpoint s = do
    (host, port) ← dns_host_port s
    number ← dns_port_number port
    ok (join_host_port host number)

  -- The loop keeps the order of the servers; `out` holds exactly the endpoints seen.
  unfoldable pub collect_dns_servers : List Text → List Text → Result (List Text)
  unfolding dns_endpoint
  collect_dns_servers [] out = ok out
  collect_dns_servers (raw ∷ items) out = elim (is_empty (trim_space raw)) [
    | true ↦ collect_dns_servers items out
    | false ↦ elim (dns_endpoint (trim_space raw)) [
      | err e ↦ err e
      | ok endpoint ↦ elim (has_key endpoint out) [
        | true ↦ collect_dns_servers items out
        | false ↦ elim (ltb max_dns_servers (length (out ++ endpoint ∷ []))) [
          | true ↦ err dns_count
          | false ↦ collect_dns_servers items (out ++ endpoint ∷ [])
        ]
      ]
    ]
  ]

  unfoldable pub normalize_dns_servers : List Text → Result (List Text)
  unfolding collect_dns_servers
  normalize_dns_servers items = collect_dns_servers items []
