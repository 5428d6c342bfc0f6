-- ===== src/Examples/Stores.antt =====
-- Witnesses on the store and on the rotation of its token.
use go_nftables_portbridge.Prelude.{◌≡◌, ◌≢◌, refl, true, false, some, arith, ◌++◌, if◌then◌else◌}
use go_nftables_portbridge.Prelude.Int.{pos}
use go_nftables_portbridge.Text.{Text, codes, text_eq, trim_space}
use go_nftables_portbridge.Text.Sets.{sort_texts}
use go_nftables_portbridge.Netip.{is_multicast, is_unspecified, is_loopback}
use go_nftables_portbridge.Config.Prefixes.{normalize_whitelist}
use go_nftables_portbridge.Config.{Config, default}
use go_nftables_portbridge.Config.Errors.{Result, ok, err, revision_conflict, save_failed}
use go_nftables_portbridge.Config.Validate.{validate}
use go_nftables_portbridge.Config.Store.{
  Store, World, Outcomes, update_locked, update_if_revision, rotate_admin_token, rolled_back,
  commit, save_locked, roll_back, token_file_consistent,
}
use go_nftables_portbridge.Config.Store.Updates.{Outcome, update_locked-Outcome, no_lost_update}
use go_nftables_portbridge.Config.Store.Rotation.{Left, Consistent, rotate_admin_token-Left}
use go_nftables_portbridge.Examples.Forms.{sample_forms}

abbrev first_config : Config
first_config = record default { limits = record default.limits { max_tcp_connections = pos 100 } }

abbrev first_store : Store
first_store = record { cfg = first_config; file = first_config }

first_valid : validate sample_forms first_config ≡ ok tt
unfolding validate default text_eq is_multicast is_unspecified is_loopback normalize_whitelist
    sort_texts trim_space
first_valid = refl

-- The insecure listener is switched on.
abbrev allow_http : Config → Result Config
allow_http c = ok (record c { web = record c.web { allow_insecure_http = true } })

update_locked-Outcome_example :
    Outcome sample_forms allow_http first_store
      (update_locked sample_forms false allow_http first_store)
update_locked-Outcome_example = update_locked-Outcome sample_forms false allow_http first_store

-- A stand-in for the digest of the encoded configuration.
abbrev sample_revision : Config → Text
sample_revision c = if c.web.allow_insecure_http then codes "second" else codes "first"

abbrev second_config : Config
second_config = record first_config { web = record first_config.web { allow_insecure_http = true } }

abbrev second_store : Store
second_store = record { cfg = second_config; file = second_config }

first_update :
    update_if_revision sample_forms sample_revision true (codes "first") allow_http first_store
    ≡ (second_store, ok second_config)
unfolding update_if_revision update_locked commit save_locked validate default text_eq is_multicast
    is_unspecified is_loopback normalize_whitelist sort_texts trim_space
first_update = refl

other_revision : sample_revision second_config ≢ codes "first"
other_revision h = ground arith

no_lost_update_example :
    (update_if_revision sample_forms sample_revision true (codes "first") allow_http second_store
      ≡ (second_store, err revision_conflict))
    × (second_config ≡ second_config)
    × (second_config ≡ second_config)
no_lost_update_example =
    no_lost_update sample_forms sample_revision allow_http allow_http true true (codes "first")
      first_store second_store second_config refl first_update other_revision

-- A stand-in for the hash of a token, of 64 hexadecimal digits.
abbrev sample_hash : Text → Text
sample_hash token =
    if text_eq token (codes "old")
    then codes "aaaaaaaaaaaaaaaaaaaaaaaaaaaaaaaaaaaaaaaaaaaaaaaaaaaaaaaaaaaaaaaa"
    else codes "bbbbbbbbbbbbbbbbbbbbbbbbbbbbbbbbbbbbbbbbbbbbbbbbbbbbbbbbbbbbbbbb"

abbrev old_config : Config
old_config = record first_config {
  web = record first_config.web { admin_token_sha = sample_hash (codes "old") };
}

abbrev old_world : World
old_world = record {
  store = record { cfg = old_config; file = old_config };
  token_file = some (codes "old\n");
}

-- The save fails, and the roll-back works.
abbrev save_fails : Outcomes
save_fails = record { readable = true; token_written = true; saved = false; restored = true }

rotate_admin_token-Left_example :
    Left sample_forms sample_hash
      (codes "new")
      old_world
      (rotate_admin_token sample_forms sample_hash save_fails (codes "new") old_world)
rotate_admin_token-Left_example =
    rotate_admin_token-Left sample_forms sample_hash save_fails (codes "new") old_world

old-Consistent : Consistent sample_forms sample_hash old_world
unfolding token_file_consistent text_eq trim_space
old-Consistent = refl

new_trimmed : trim_space (codes "new" ++ codes "\n") ≡ codes "new"
unfolding trim_space
new_trimmed = refl

rolled_back_here :
    (rotate_admin_token sample_forms sample_hash save_fails (codes "new") old_world).1
    ≡ rolled_back save_failed
unfolding rotate_admin_token update_locked commit save_locked roll_back validate default text_eq
    is_multicast is_unspecified is_loopback normalize_whitelist sort_texts trim_space
rolled_back_here = refl
