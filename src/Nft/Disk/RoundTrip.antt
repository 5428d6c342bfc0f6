-- ===== src/Nft/Disk/RoundTrip.antt =====
-- What the recovery file of internal/proxy/nft_disk_linux.go gives back of the rules written to it.
use go_nftables_portbridge.Prelude.{
  ◌≡◌, refl, false, List, [], ◌∷◌, map, any, All, ◌∙◌, Bool-cases, inl, inr,
}
use go_nftables_portbridge.Text.{Text, is_empty}
use go_nftables_portbridge.Plan.{NftRuleSpec}
use go_nftables_portbridge.Nft.Keys.{
  KernelForms, KernelDocumented, nft_rule_identity, unique_nft_specs,
}
use go_nftables_portbridge.Nft.Keys.Fits.{Fits}
use go_nftables_portbridge.Nft.Keys.Unique.{All-unique}
use go_nftables_portbridge.Nft.Path.{KernelPath, carries}
use go_nftables_portbridge.Nft.Specs.Retired.{any_unique-Fits}
use go_nftables_portbridge.Nft.Disk.{path_of, spec_of, specs_of, disk_paths}

module _ (k : KernelForms) where
  abbrev HashNonempty : Type 0
  HashNonempty = (s : Text) → is_empty (k.rule_hash s) ≡ false

  identity_kept :
      HashNonempty
      → (s : NftRuleSpec) → nft_rule_identity k (spec_of (path_of k s)) ≡ nft_rule_identity k s
  unfolding nft_rule_identity
  identity_kept h s = elim (Bool-cases (is_empty s.rule_identity)) [
    | inl hashed ↦ rw (hashed, h s.rule_id) refl
    | inr named ↦ rw (named, named) refl
  ]

  spec_of-path_of :
      HashNonempty
      → (p : KernelPath) (s : NftRuleSpec) → Fits k s
      → (carries k p (spec_of (path_of k s)) ≡ carries k p s) × Fits k (spec_of (path_of k s))
  unfolding carries
  spec_of-path_of h p s f = (
    rw (identity_kept h s),
    record {
      ports = f.ports;
      listen = f.listen;
      target = f.target;
      transport = f.transport;
      identity = rw (identity_kept h s) f.identity;
    },
  )

  specs_back :
      HashNonempty
      → (p : KernelPath) (specs : List NftRuleSpec) → All (Fits k) specs
      → (any (carries k p) (specs_of (map (path_of k) specs)) ≡ any (carries k p) specs)
        × All (Fits k) (specs_of (map (path_of k) specs))
  unfolding specs_of
  specs_back h p [] f = (refl, tt)
  specs_back h p (s ∷ specs) (f, fs) =
      let (same, fits) = spec_of-path_of h p s f in
      let (rest, all) = specs_back h p specs fs in (rw (same, rest), (fits, all))

  -- The rules that are read back from the recovery file forward exactly the paths of the rules that
  -- were written to it, under the same identities, and fit.
  pub disk_round_trip :
      KernelDocumented k
      → (p : KernelPath) (specs : List NftRuleSpec) → All (Fits k) specs
      → (any (carries k p) (specs_of (disk_paths k specs)) ≡ any (carries k p) specs)
        × All (Fits k) (specs_of (disk_paths k specs))
  unfolding disk_paths
  disk_round_trip d p specs f =
      let (back, fits) =
        specs_back d.hash_nonempty p (unique_nft_specs k specs) (All-unique k (Fits k) specs f) in
      (back ∙ any_unique-Fits k d p specs f, fits)
