-- ===== src/Nft/Conntrack/Revoke.antt =====
-- What `revokeNFTConnections` of internal/proxy/nft_conntrack.go leaves in the table of tracked
-- connections.
use go_nftables_portbridge.Prelude.{
  ◌≡◌, refl, Bool, true, false, not, List, [], ◌∷◌, Option, none, some, All, any, arith, Bool-cases,
  inl, inr, if◌then◌else◌,
}
use go_nftables_portbridge.Plan.{NftRuleSpec}
use go_nftables_portbridge.Nft.Conntrack.{
  ConntrackEntry, ConntrackIo, Deletion, deleted, exited_one, not_deleted, conntrack_matches_spec,
  verify, after_deletion, delete_selected, on_list, matching, select_matching, revoke_one,
  revoke_each, revoke_nft_connections,
}

-- Documented behaviour: reading and deleting bring in no connection, and a reading for a rule that
-- succeeds holds each connection of the table that the rule owns.
pub record ConntrackLaws (io : ConntrackIo) : Type 0 where
  pub list_adds_none :
      (f : ConntrackEntry → Bool) (s : NftRuleSpec) (w : io.World)
      → any f (io.table w) ≡ false
      → any f (io.table (io.list_entries s w).0) ≡ false
  pub list_complete :
      (s : NftRuleSpec) (w : io.World) (entries : List ConntrackEntry)
      → (io.list_entries s w).1 ≡ some entries
      → any (matching s) entries ≡ false
      → any (matching s) (io.table (io.list_entries s w).0) ≡ false
  pub delete_adds_none :
      (f : ConntrackEntry → Bool) (entries : List ConntrackEntry) (w : io.World)
      → any f (io.table w) ≡ false
      → any f (io.table (io.delete_entries entries w).0) ≡ false

none_selected :
    (s : NftRuleSpec) (entries : List ConntrackEntry)
    → select_matching s entries ≡ []
    → any (matching s) entries ≡ false
unfolding select_matching
none_selected s [] e = refl
none_selected s (x ∷ entries) e = elim (Bool-cases (conntrack_matches_spec x s)) [
  | inl own ↦ absurd (nonempty x (select_matching s entries) (rw own at e))
  | inr foreign ↦ rw (foreign, none_selected s entries (rw foreign at e)) refl
]
  where
    nonempty : (x : ConntrackEntry) (xs : List ConntrackEntry) → x ∷ xs ≡ [] → ⊥
    nonempty x xs e = ground arith

module _ (io : ConntrackIo) (laws : ConntrackLaws io) where
  open io use {World, table, expired, list_entries, delete_entries}

  -- No connection of the kind is in the table.
  abbrev Gone : (ConntrackEntry → Bool) → World → Type 0
  Gone f w = any f (table w) ≡ false

  -- The step brings in nothing, and where it succeeds it leaves none that the rule owns.
  abbrev Revokes : NftRuleSpec → World → World × Bool → Type 0
  Revokes s w r =
      ((f : ConntrackEntry → Bool) → Gone f w → Gone f r.0) × (r.1 ≡ true → Gone (matching s) r.0)

  verify-Revokes : (s : NftRuleSpec) (w : World) → Revokes s w (verify io s (list_entries s w))
  verify-Revokes s w = from (list_entries s w) refl
    where
      flip : (b : Bool) → not b ≡ true → b ≡ false
      flip b h = ground arith

      from :
          (r : World × Option (List ConntrackEntry))
          → list_entries s w ≡ r
          → Revokes s w (verify io s r)
      from (v, none) e = (λ f h. rw e at (laws.list_adds_none f s w h), λ t. cc)
      from (v, some left) e = (
        λ f h. rw e at (laws.list_adds_none f s w h),
        λ t.
            let listed : (list_entries s w).1 ≡ some left = rw e in
            rw e at (laws.list_complete s w left listed (flip (any (matching s) left) t)),
      )

  chain :
      (s : NftRuleSpec) (w v : World) (r : World × Bool)
      → ((f : ConntrackEntry → Bool) → Gone f w → Gone f v)
      → Revokes s v r
      → Revokes s w r
  chain s w v r kept later = (λ f h. later.0 f (kept f h), later.1)

  after_deletion-Revokes :
      (s : NftRuleSpec) (w : World) (e : ConntrackEntry) (selected : List ConntrackEntry)
      → Revokes s w (after_deletion io s (delete_entries (e ∷ selected) w))
  after_deletion-Revokes s w e selected = from (delete_entries (e ∷ selected) w) refl
    where
      from :
          (r : World × Deletion)
          → delete_entries (e ∷ selected) w ≡ r
          → Revokes s w (after_deletion io s r)
      from (v, not_deleted) eq =
          (λ f h. rw eq at (laws.delete_adds_none f (e ∷ selected) w h), λ t. cc)
      from (v, deleted) eq =
          chain s w v _ (λ f h. rw eq at (laws.delete_adds_none f (e ∷ selected) w h))
            (verify-Revokes s v)
      from (v, exited_one) eq =
          chain s w v _ (λ f h. rw eq at (laws.delete_adds_none f (e ∷ selected) w h))
            (verify-Revokes s v)

  on_list-Revokes : (s : NftRuleSpec) (w : World) → Revokes s w (on_list io s (list_entries s w))
  on_list-Revokes s w = from (list_entries s w) refl
    where
      kept :
          (r : World × Option (List ConntrackEntry))
          → list_entries s w ≡ r
          → (f : ConntrackEntry → Bool) → Gone f w
          → Gone f r.0
      kept r e f h = rw e at (laws.list_adds_none f s w h)

      selected :
          (v : World) (entries chosen : List ConntrackEntry)
          → list_entries s w ≡ (v, some entries)
          → select_matching s entries ≡ chosen
          → Revokes s w (delete_selected io s v chosen)
      selected v entries [] e c = (
        kept (v, some entries) e,
        λ t.
            let listed : (list_entries s w).1 ≡ some entries = rw e in
            rw e at (laws.list_complete s w entries listed (none_selected s entries c)),
      )
      selected v entries (x ∷ chosen) e c =
          chain s w v _ (kept (v, some entries) e) (after_deletion-Revokes s v x chosen)

      from :
          (r : World × Option (List ConntrackEntry))
          → list_entries s w ≡ r
          → Revokes s w (on_list io s r)
      from (v, none) e = (kept (v, none) e, λ t. cc)
      from (v, some entries) e = selected v entries (select_matching s entries) e refl

  revoke_one-Revokes : (s : NftRuleSpec) (w : World) → Revokes s w (revoke_one io s w)
  unfolding revoke_one
  revoke_one-Revokes s w = early (expired w)
    where
      early : (b : Bool) → Revokes s w (if b then (w, false) else on_list io s (list_entries s w))
      early true = (λ f h. h, λ t. cc)
      early false = on_list-Revokes s w

  abbrev pub RevokesAll : List NftRuleSpec → World → World × Bool → Type 0
  RevokesAll specs w r =
      ((f : ConntrackEntry → Bool) → any f (table w) ≡ false → any f (table r.0) ≡ false)
      × (r.1 ≡ true → All (λ s. any (matching s) (table r.0) ≡ false) specs)

  revoke_each-RevokesAll :
      (specs : List NftRuleSpec) (w : World) → RevokesAll specs w (revoke_each io specs w)
  unfolding revoke_each
  revoke_each-RevokesAll [] w = (λ f h. h, λ t. tt)
  revoke_each-RevokesAll (s ∷ specs) w =
      go (revoke_one io s w) (revoke_one-Revokes s w)
        (revoke_each-RevokesAll specs (revoke_one io s w).0)
    where
      go :
          (r : World × Bool)
          → Revokes s w r
          → RevokesAll specs r.0 (revoke_each io specs r.0)
          → RevokesAll
              (s ∷ specs)
              w
              (elim r.1 [ true ↦ revoke_each io specs r.0 | false ↦ (r.0, false) ])
      go (v, true) (kept, gone) (kept', gone') =
          (λ f h. kept' f (kept f h), λ t. (kept' (matching s) (gone refl), gone' t))
      go (v, false) (kept, gone) later = (kept, λ t. cc)

  -- Revoking brings no tracked connection in, and where it reports success none is left, of
  -- whatever rule it was to revoke, that the rule owns: the deletions of one rule undo nothing of
  -- the others, and an early end, a failed reading, a failed deletion and a leftover are reported.
  pub revoke_nft_connections_complete :
      (specs : List NftRuleSpec) (w : World)
      → RevokesAll specs w (revoke_nft_connections io specs w)
  unfolding revoke_nft_connections
  revoke_nft_connections_complete [] w = (λ f h. h, λ t. tt)
  revoke_nft_connections_complete (s ∷ specs) w = ready (io.available w)
    where
      ready :
          (b : Bool)
          → RevokesAll (s ∷ specs) w (if b then revoke_each io (s ∷ specs) w else (w, false))
      ready true = revoke_each-RevokesAll (s ∷ specs) w
      ready false = (λ f h. h, λ t. cc)
