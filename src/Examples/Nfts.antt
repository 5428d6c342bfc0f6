-- ===== src/Examples/Nfts.antt =====
-- Witnesses on the kernel rules: a kernel that keeps a table of tracked connections, and rules in it.
use go_nftables_portbridge.Prelude.{
  ℕ, ◌≡◌, refl, Bool, true, false, ◌&&◌, ◌||◌, not, List, [], ◌∷◌, Option, none, some, any, All,
  arith, ◌==◌, if◌then◌else◌, subst, sym, length,
}
use go_nftables_portbridge.Text.{Text, codes, text_eq, trim_space}
use go_nftables_portbridge.Text.Sets.{sort_texts}
use go_nftables_portbridge.Netip.{Addr, zero_addr, v4, v6, is_valid}
use go_nftables_portbridge.Nft.Keys.{nft_retirement_key}
use go_nftables_portbridge.Nft.Keys.Fits.{Fits}
use go_nftables_portbridge.Nft.Path.{carries}
use go_nftables_portbridge.Nft.Specs.{
  retired_nft_specs, gate_nft_replacements, previously_admitted_nft,
}
use go_nftables_portbridge.Nft.Specs.Retired.{retired_nft_specs_exact}
use go_nftables_portbridge.Nft.Specs.Gated.{gate_nft_replacements_exact, takes, KeepsClear}
use go_nftables_portbridge.Nft.Specs.Admitted.{previously_admitted_nft_sound, carried_before}
use go_nftables_portbridge.Nft.Disk.{disk_paths, specs_of}
use go_nftables_portbridge.Nft.Disk.RoundTrip.{disk_round_trip}
use go_nftables_portbridge.Nft.Conntrack.{
  ConntrackEntry, ConntrackXmlMeta, ConntrackIo, deleted, decode_conntrack_flow, deletable,
  revoke_nft_connections, matching,
}
use go_nftables_portbridge.Nft.Conntrack.Revoke.{
  ConntrackLaws, RevokesAll, revoke_nft_connections_complete,
}
use go_nftables_portbridge.Nft.Backend.{
  Backend, BackendIo, Script, delete_table, no_topology, admitted, no_families, Fallible, done,
  owner_marker_for,
}
use go_nftables_portbridge.Nft.Backend.Chain.{
  State, Gives, ◌>>=◌, ◌>>◌, get, pure, call, reject_if, set, or_fail,
}
use go_nftables_portbridge.Nft.Backend.Replace.{replace_known}
use go_nftables_portbridge.Nft.Backend.Revoked.{IsClean, retiring, replace_known_revokes}
use go_nftables_portbridge.Nft.Conntrack.Tuples.{decode_conntrack_flow-deletable}
use go_nftables_portbridge.Examples.Kernels.{
  strokes, sample_kernel, sample_kernel-KernelDocumented, web_spec, moved_spec, web_spec-Fits,
  moved_spec-Fits, web_path,
}

-- One client of port 3.
abbrev web_connection : ConntrackEntry
web_connection = record {
  family = 4;
  protocol = codes "tcp";
  original = record { source = v4 3; destination = v4 1; source_port = 9; destination_port = 3 };
  reply = record { source = v4 2; destination = v4 3; source_port = 6; destination_port = 9 };
  mark = 1;
  zone_id = 0;
}

abbrev same_flow : ConntrackEntry → ConntrackEntry → Bool
same_flow a b =
    a.mark == b.mark
    && a.original.source_port == b.original.source_port
    && a.original.destination_port == b.original.destination_port

-- What is left of a table when some connections are deleted.
abbrev drop_flows : List ConntrackEntry → List ConntrackEntry → List ConntrackEntry
drop_flows chosen [] = []
drop_flows chosen (e ∷ entries) =
    let rest = drop_flows chosen entries in if any (same_flow e) chosen then rest else e ∷ rest

drop_flows-any :
    (f : ConntrackEntry → Bool) (chosen entries : List ConntrackEntry)
    → any f entries ≡ false
    → any f (drop_flows chosen entries) ≡ false
drop_flows-any f chosen [] h = refl
drop_flows-any f chosen (e ∷ entries) h =
    step (any (same_flow e) chosen) (drop_flows chosen entries) (left (f e) _ h)
      (drop_flows-any f chosen entries (right (f e) _ h))
  where
    left : (a b : Bool) → (a || b) ≡ false → a ≡ false
    left a b h = ground arith

    right : (a b : Bool) → (a || b) ≡ false → b ≡ false
    right a b h = ground arith

    step :
        (gone : Bool) (rest : List ConntrackEntry)
        → f e ≡ false
        → any f rest ≡ false
        → any f (if gone then rest else e ∷ rest) ≡ false
    step true rest here later = later
    step false rest here later = rw (here, later) refl

-- The kernel's rules are there or not, and some connections are tracked.
abbrev SampleWorld : Type 0
SampleWorld = Bool × List ConntrackEntry

abbrev sample_conntrack : ConntrackIo
sample_conntrack = record {
  World = SampleWorld;
  table = λ w. w.1;
  available = λ w. true;
  expired = λ w. false;
  list_entries = λ s w. (w, some w.1);
  delete_entries = λ chosen w. ((w.0, drop_flows chosen w.1), deleted);
}

listed :
    (table entries : List ConntrackEntry)
    → ◌≡◌ {A = Option (List ConntrackEntry)} (some table) (some entries)
    → table ≡ entries
listed table entries e = cc

sample_conntrack-ConntrackLaws : ConntrackLaws sample_conntrack
sample_conntrack-ConntrackLaws = record {
  list_adds_none = λ f s w h. h;
  list_complete = λ s w entries e h.
      subst (λ (t : List ConntrackEntry). any (matching s) t ≡ false) (sym (listed w.1 entries e))
        h;
  delete_adds_none = λ f chosen w h. drop_flows-any f chosen w.1 h;
}

abbrev run_script : Script → Bool
run_script delete_table = false
run_script _ = true

abbrev sample_backend_io : BackendIo
sample_backend_io = record {
  conntrack = sample_conntrack;
  Objects = Unit {0};
  observe =
      λ w. (w, some (record { exists = w.0; owned = true; fingerprint = codes "f"; objects = tt }));
  decode_journal = λ o m. some (record { active = []; retired = []; suspended = []; binding = [] });
  recover_legacy = λ o m. none;
  has_flowtable = λ o. false;
  state_agrees = λ o specs devices m r. true;
  apply = λ script w. ((run_script script, w.1), true);
  collect_topology = λ w. (w, no_topology);
  check_admission = λ specs w. (w, admitted);
  parse_hex = λ t. some (length t);
  list_owned = λ mark w. (w, some w.1);
  clean_probe = λ w. (w, not w.0);
  has_store = false;
  check_existing = λ w. (w, true);
  begin_session = λ w. (w, some false);
  disk_record = λ w. none;
  bind_session = λ t w. (w, some t);
  prepare = λ a b w. (w, true);
  checkpoint = λ a w. (w, true);
}

-- The web rule is installed, with one client.
abbrev sample_backend : Backend
sample_backend = record {
  initialized = true;
  recovered = true;
  unknown_state = false;
  clean_verified = false;
  init_failed = false;
  config_failed = false;
  owner_marker = owner_marker_for sample_kernel 1;
  devices_key = [];
  fingerprint = codes "f";
  applied_spec_key = [];
  applied_active_key = [];
  disk_binding = [];
  disk_session = false;
  pending_topology = no_topology;
  topology_ready = false;
  active_specs = web_spec ∷ [];
  pending_specs = [];
  suspended_specs = [];
  policy_families = no_families;
  metrics_epoch = 1;
}

abbrev sample_state : State SampleWorld
sample_state = (sample_backend, (true, web_connection ∷ []))

abbrev after_move : State SampleWorld × Fallible (Unit {0})
after_move = replace_known sample_kernel sample_backend_io (moved_spec ∷ []) sample_state

retired_nft_specs_exact_example :
    (any
        (carries sample_kernel web_path)
        (retired_nft_specs sample_kernel (web_spec ∷ []) (moved_spec ∷ []))
      ≡ (any (carries sample_kernel web_path) (web_spec ∷ [])
          && not (any (carries sample_kernel web_path) (moved_spec ∷ []))))
    × All (Fits sample_kernel) (retired_nft_specs sample_kernel (web_spec ∷ []) (moved_spec ∷ []))
retired_nft_specs_exact_example =
    retired_nft_specs_exact sample_kernel sample_kernel-KernelDocumented web_path (web_spec ∷ [])
      (moved_spec ∷ []) (web_spec-Fits, tt) (moved_spec-Fits, tt)

gate_nft_replacements_exact_example :
    (any (carries sample_kernel web_path) (gate_nft_replacements (moved_spec ∷ []) (web_spec ∷ []))
      ≡ any
          (λ n. carries sample_kernel web_path n && not (any (takes n 3) (web_spec ∷ [])))
          (moved_spec ∷ []))
    × All (Fits sample_kernel) (gate_nft_replacements (moved_spec ∷ []) (web_spec ∷ []))
    × All (KeepsClear (web_spec ∷ [])) (gate_nft_replacements (moved_spec ∷ []) (web_spec ∷ []))
gate_nft_replacements_exact_example =
    gate_nft_replacements_exact sample_kernel web_path (moved_spec ∷ []) (web_spec ∷ [])
      (moved_spec-Fits, tt) (web_spec-Fits, tt)

previously_admitted_nft_sound_example :
    (any
          (carries sample_kernel web_path)
          (previously_admitted_nft sample_kernel (moved_spec ∷ []) (web_spec ∷ []))
        ≡ true
      → any (carried_before sample_kernel web_path (web_spec ∷ [])) (moved_spec ∷ []) ≡ true)
    × All
        (Fits sample_kernel)
        (previously_admitted_nft sample_kernel (moved_spec ∷ []) (web_spec ∷ []))
previously_admitted_nft_sound_example =
    previously_admitted_nft_sound sample_kernel sample_kernel-KernelDocumented web_path
      (moved_spec ∷ []) (web_spec ∷ []) (moved_spec-Fits, tt) (web_spec-Fits, tt)

disk_round_trip_example :
    (any
        (carries sample_kernel web_path)
        (specs_of (disk_paths sample_kernel (web_spec ∷ moved_spec ∷ [])))
      ≡ any (carries sample_kernel web_path) (web_spec ∷ moved_spec ∷ []))
    × All (Fits sample_kernel) (specs_of (disk_paths sample_kernel (web_spec ∷ moved_spec ∷ [])))
disk_round_trip_example =
    disk_round_trip sample_kernel sample_kernel-KernelDocumented web_path
      (web_spec ∷ moved_spec ∷ []) (web_spec-Fits, (moved_spec-Fits, tt))

revoke_nft_connections_complete_example :
    RevokesAll sample_conntrack sample_conntrack-ConntrackLaws
      (web_spec ∷ [])
      (true, web_connection ∷ [])
      (revoke_nft_connections sample_conntrack (web_spec ∷ []) (true, web_connection ∷ []))
revoke_nft_connections_complete_example =
    revoke_nft_connections_complete sample_conntrack sample_conntrack-ConntrackLaws (web_spec ∷ [])
      (true, web_connection ∷ [])

replace_known_revokes_example :
    Gives
      (replace_known sample_kernel sample_backend_io (moved_spec ∷ []))
      (λ s' _.
        IsClean sample_kernel sample_backend_io
          (moved_spec ∷ [])
          (retiring sample_kernel sample_backend_io sample_conntrack-ConntrackLaws
            (moved_spec ∷ [])
            sample_backend)
          s')
      sample_state
replace_known_revokes_example =
    replace_known_revokes sample_kernel sample_backend_io sample_conntrack-ConntrackLaws
      (moved_spec ∷ []) sample_state

-- The connection goes, the table stays.
sample_replace_done : (after_move.1 ≡ done tt) × (after_move.0.1 ≡ (true, []))
unfolding replace_known ◌>>=◌ ◌>>◌ get sort_texts text_eq nft_retirement_key strokes pure call
    reject_if set or_fail
sample_replace_done = (refl, refl)

-- Addresses and numbers are written in strokes here.
abbrev read_addr : Text → Option Addr
read_addr s = some (v4 (length s))

abbrev read_uint : ℕ → Text → Option ℕ
read_uint bits s = some (length s)

read_addr_valid : (s : Text) (a : Addr) → read_addr s ≡ some a → is_valid a ≡ true
read_addr_valid s zero_addr e = absurd (wrong (length s) e)
  where
    wrong : (n : ℕ) → ◌≡◌ {A = Option Addr} (some (v4 n)) (some zero_addr) → ⊥
    wrong n e = ground arith
read_addr_valid s (v4 a) e = refl
read_addr_valid s (v6 a z) e = refl

abbrev original_meta : ConntrackXmlMeta
original_meta = record {
  direction = codes "original";
  layer3 = codes "ipv4";
  source = codes "111";
  destination = codes "1";
  layer4 = codes "tcp";
  source_port = codes "111111111";
  destination_port = codes "111";
  mark = [];
  zone_text = [];
}

abbrev reply_meta : ConntrackXmlMeta
reply_meta = record original_meta {
  direction = codes "reply";
  source = codes "11";
  destination = codes "111";
  source_port = codes "111111";
  destination_port = codes "111111111";
}

abbrev independent_meta : ConntrackXmlMeta
independent_meta = record original_meta { direction = codes "independent"; mark = codes "1" }

decode_conntrack_flow-deletable_example : deletable web_connection ≡ true
unfolding decode_conntrack_flow trim_space text_eq
decode_conntrack_flow-deletable_example =
    decode_conntrack_flow-deletable read_addr read_uint read_addr_valid
      (original_meta ∷ reply_meta ∷ independent_meta ∷ []) web_connection refl refl
