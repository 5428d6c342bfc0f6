-- ===== src/Nft/Backend/Written.antt =====
-- What the kernel and the backend of internal/proxy/nft.go are known to hold after `replaceObjects`.
use go_nftables_portbridge.Prelude.{◌≡◌, Bool, true, false, ◌&&◌, List, [], some, ◌⊎◌}
use go_nftables_portbridge.Plan.{NftRuleSpec}
use go_nftables_portbridge.Nft.Keys.{KernelForms}
use go_nftables_portbridge.Nft.Disk.{DiskSnapshot, empty_snapshot, disk_snapshot}
use go_nftables_portbridge.Nft.Backend.{
  BackendIo, Observed, NftTopology, Script, whole_table, journal_only, chain_refresh, delete_table,
  device_names, applied_state_key, is_nil,
}
use go_nftables_portbridge.Nft.Backend.Chain.{State}

-- What a script writes: the rules that it lets in, and those that its journal has as retired and as
-- suspended.
abbrev pub Writes : Script → List NftRuleSpec → List NftRuleSpec → List NftRuleSpec → Type 0
Writes (whole_table active exists devices r) specs retired suspended =
    (active ≡ specs) × (r.retired ≡ retired) × (r.suspended ≡ suspended)
Writes (journal_only active pending held binding) specs retired suspended =
    (active ≡ specs) × (pending ≡ retired) × (held ≡ suspended)
Writes (chain_refresh active pending held binding) specs retired suspended =
    (active ≡ specs) × (pending ≡ retired) × (held ≡ suspended)
Writes delete_table specs retired suspended = ⊥

module _ (k : KernelForms) (io : BackendIo) where
  open io use {conntrack, Objects}
  open conntrack use {World}

  -- The last reading of the kernel's table: since then the devices were collected and the recovery
  -- file was written at most, and no script was run.
  pub data LastRead (o : Observed Objects) : World → Type 0 where
    just_read : (v w : World) → io.observe v ≡ (w, some o) → LastRead o w
    then_collected :
        (v w : World) (t : NftTopology)
        → io.collect_topology v ≡ (w, t)
        → LastRead o v
        → LastRead o w
    then_prepared :
        (a b : DiskSnapshot) (v w : World) (r : Bool)
        → io.prepare a b v ≡ (w, r)
        → LastRead o v
        → LastRead o w
    then_confirmed :
        (a : DiskSnapshot) (v w : World) (r : Bool)
        → io.checkpoint a v ≡ (w, r)
        → LastRead o v
        → LastRead o w

  -- The recovery file has the checkpoint of a snapshot, where there is a session with it.
  abbrev pub Saved : DiskSnapshot → World → State World → Type 0
  Saved snapshot v s =
      ((s.0.disk_session ≡ false) × (s.1 ≡ v)) ⊎ (io.checkpoint snapshot v ≡ (s.1, true))

  module _ (specs retired suspended : List NftRuleSpec) (keep : Bool) (s : State World) where
    abbrev pub HasKey : Type 0
    HasKey =
        s.0.applied_spec_key ≡ applied_state_key k specs retired suspended keep s.0.disk_binding

    -- The table is there and read as the one that the backend confirmed for this very plan.
    pub record Unchanged : Type 0 where
      pub reading : Observed Objects
      pub read : LastRead reading s.1
      pub there : (reading.exists ≡ true) × (reading.owned ≡ true)
      pub fingerprint : reading.fingerprint ≡ s.0.fingerprint
      pub initialized : s.0.initialized ≡ true
      pub key : HasKey

    -- Nothing was asked for; the table is read as gone, and the backend holds nothing.
    pub record Removed : Type 0 where
      pub nothing : (is_nil specs && is_nil retired && is_nil suspended) ≡ true
      pub reading : Observed Objects
      pub read : LastRead reading s.1
      pub gone : reading.exists ≡ false
      pub initialized : s.0.initialized ≡ false
      pub holds_none :
          (s.0.active_specs ≡ []) × (s.0.pending_specs ≡ []) × (s.0.suspended_specs ≡ [])
      pub saved : (s.0.disk_session ≡ false) ⊎ ((v : World) × Saved empty_snapshot v s)

    -- A script that writes the plan was run; the reading after it agrees with the plan, and the backend
    -- and the recovery file have what was written.
    pub record Applied : Type 0 where
      pub script : Script
      pub writes : Writes script specs retired suspended
      pub before : World
      pub after : World
      pub ran : io.apply script before ≡ (after, true)
      pub reading : Observed Objects
      pub at : World
      pub read : io.observe after ≡ (at, some reading)
      pub there : (reading.exists ≡ true) × (reading.owned ≡ true)
      pub topology : NftTopology
      pub agrees :
          io.state_agrees reading.objects specs (device_names topology) s.0.owner_marker (record {
            retired = retired;
            suspended = suspended;
            binding = s.0.disk_binding;
            keep_flowtable = keep;
          })
          ≡ true
      pub fingerprint : s.0.fingerprint ≡ reading.fingerprint
      pub initialized : s.0.initialized ≡ true
      pub holds :
          (s.0.active_specs ≡ specs)
          × (s.0.pending_specs ≡ retired)
          × (s.0.suspended_specs ≡ suspended)
      pub key : HasKey
      pub saved : Saved (disk_snapshot k specs retired suspended) at s

  -- What the kernel's table is known to be after a success.
  abbrev pub IsInstalled :
      List NftRuleSpec → List NftRuleSpec → List NftRuleSpec → Bool → State World → Type 0
  IsInstalled specs retired suspended keep s =
      Unchanged specs retired suspended keep s
      ⊎ (Removed specs retired suspended keep s ⊎ Applied specs retired suspended keep s)
