-- ===== src/Examples/Plans.antt =====
-- Witnesses on the forwarding plan and on the access list.
use go_nftables_portbridge.Prelude.{
  ◌+◌, ◌*◌, ◌^◌, ◌≤◌, ◌≡◌, refl, true, false, ◌&&◌, List, [], ◌∷◌, Option, none, some, arith, All,
  sum,
}
use go_nftables_portbridge.Prelude.Int.{pos}
use go_nftables_portbridge.Text.{Text, codes, text_eq, trim_space}
use go_nftables_portbridge.Netip.{Addr, v4, v6, Prefix, masked}
use go_nftables_portbridge.Text.Sets.{sort_texts, add_key}
use go_nftables_portbridge.Config.{Rule}
use go_nftables_portbridge.Config.Errors.{ok}
use go_nftables_portbridge.Config.Conflicts.{listen_hosts_overlap}
use go_nftables_portbridge.Plan.{listen_families}
use go_nftables_portbridge.Plan.Listeners.{mapped_hosts_missed}
use go_nftables_portbridge.Plan.Resolve.{resolve_host}
use go_nftables_portbridge.Plan.Resolve.Policy.{Safe, resolve_host-Safe}
use go_nftables_portbridge.Plan.Build.{Context, build_plan}
use go_nftables_portbridge.Plan.Targets.{ComesFrom, build_plan-ComesFrom}
use go_nftables_portbridge.Plan.Workers.{paths_from, paths_from-sum}
use go_nftables_portbridge.Acl.{Snapshot, AclError, refresh, parse_prefixes, no_prefixes}
use go_nftables_portbridge.Acl.Access.{refresh-Allows, Allows}
use go_nftables_portbridge.Examples.{web_rule}
use go_nftables_portbridge.Examples.Forms.{sample_forms, sample_forms-Documented}

-- The resolver answers each name with a public address and one mapped into IPv6.
abbrev two_answers : Text → Option (List Addr)
two_answers name = some (v4 0x08080808 ∷ v6 (0xffff * 2 ^ 32 + 0x08080404) [] ∷ [])

resolve_host-Safe_example :
    Safe sample_forms web_rule
      (resolve_host sample_forms two_answers true 7 web_rule
        (codes "example.org")
        (codes "web")
        []).1
resolve_host-Safe_example =
    resolve_host-Safe sample_forms web_rule two_answers true 7 (codes "example.org") (codes "web")
      []

abbrev kernel_rule : Rule
kernel_rule = record web_rule {
  data_plane = codes "nftables";
  target_host = codes "example.org";
  tcp_health_interval_seconds = pos 0;
  tcp_health_timeout_seconds = pos 0;
}

abbrev sample_context : Context
sample_context = record {
  lookup = two_answers;
  allow_cached_dns = false;
  now = 7;
  nft_mark = 0x50420001;
  nft_flowtable = true;
  processors = 4;
}

abbrev FromPort8080 : Rule → Type 0
FromPort8080 r = r.listen_port ≡ pos 8080

build_plan-ComesFrom_example :
    All
      (ComesFrom sample_forms FromPort8080)
      (build_plan sample_forms sample_context (kernel_rule ∷ []) []).1.nft_specs
build_plan-ComesFrom_example =
    build_plan-ComesFrom sample_forms sample_context FromPort8080 (kernel_rule ∷ []) [] (refl, tt)

paths_from-sum_example : All (λ s. 2 ≤ s) (paths_from 2 2 2 7 0) × (sum (paths_from 2 2 2 7 0) ≡ 7)
paths_from-sum_example = paths_from-sum 2 2 7 (omega arith)

not_starred : text_eq (codes "10.0.0.5") (codes "*") ≡ false
unfolding text_eq
not_starred = refl

mapped_not_starred : text_eq (codes "::ffff:10.0.0.5") (codes "*") ≡ false
unfolding text_eq
mapped_not_starred = refl

plain_trimmed : trim_space (codes "10.0.0.5") ≡ codes "10.0.0.5"
unfolding trim_space
plain_trimmed = refl

mapped_trimmed : trim_space (codes "::ffff:10.0.0.5") ≡ codes "::ffff:10.0.0.5"
unfolding trim_space
mapped_trimmed = refl

plain_parsed : sample_forms.parse_addr (codes "10.0.0.5") ≡ some (v4 0x0a000005)
unfolding text_eq
plain_parsed = refl

mapped_parsed :
    sample_forms.parse_addr (codes "::ffff:10.0.0.5") ≡ some (v6 (0xffff * 2 ^ 32 + 0x0a000005) [])
unfolding text_eq
mapped_parsed = refl

mapped_hosts_missed_example :
    (listen_hosts_overlap sample_forms (codes "10.0.0.5") (codes "::ffff:10.0.0.5") ≡ false)
    × (listen_families sample_forms (codes "10.0.0.5")
        ≡ listen_families sample_forms (codes "::ffff:10.0.0.5"))
mapped_hosts_missed_example =
    mapped_hosts_missed sample_forms (codes "10.0.0.5") (codes "::ffff:10.0.0.5") 0x0a000005
      (omega arith) not_starred mapped_not_starred plain_trimmed mapped_trimmed plain_parsed
      mapped_parsed

abbrev some_snapshot : Snapshot
some_snapshot = record {
  auto = [];
  whitelist = record { addr = v4 0x0a000000; bits = 8 } ∷ [];
  bootstrap = [];
  strict = false;
}

abbrev strict_result : Option Snapshot × Option AclError
strict_result =
    refresh sample_forms false true (codes "10.0.0.0/8" ∷ []) (codes "10.0.0.0/8" ∷ []) none none

refresh_succeeds : strict_result ≡ (strict_result.0, none)
unfolding refresh text_eq trim_space sort_texts add_key masked
refresh_succeeds = refl

refresh-Allows_example :
    (white : List Prefix) × (boot : List Prefix) × (n : Snapshot) × (strict_result.0 ≡ some n)
    × (parse_prefixes sample_forms (codes "10.0.0.0/8" ∷ []) ≡ ok white)
    × (parse_prefixes sample_forms (codes "10.0.0.0/8" ∷ []) ≡ ok boot)
    × Allows true white boot n (v4 0x0a000005)
    × ((true && no_prefixes white) ≡ false)
refresh-Allows_example =
    refresh-Allows sample_forms sample_forms-Documented false true (codes "10.0.0.0/8" ∷ [])
      (codes "10.0.0.0/8" ∷ []) none none strict_result.0 (v4 0x0a000005) refl refresh_succeeds
