-- ===== src/Nft/Backend/Revoked.antt =====
-- What a success of `Replace` of internal/proxy/nft_reconcile.go means for the tracked connections of
-- the rules that retire.
use go_nftables_portbridge.Prelude.{
  ◌≡◌, refl, Bool, true, false, ◌&&◌, not, List, [], ◌∷◌, ◌++◌, Option, none, any, All, ap, sym,
  ◌∙◌, if◌then◌else◌, arith, subst, inl, inr, ◌⊎◌,
}
use go_nftables_portbridge.Plan.{NftRuleSpec}
use go_nftables_portbridge.Nft.Keys.{KernelForms, unique_nft_specs}
use go_nftables_portbridge.Nft.Specs.{
  gate_nft_replacements, retired_nft_specs, previously_admitted_nft,
}
use go_nftables_portbridge.Nft.Conntrack.{matching, revoke_nft_connections}
use go_nftables_portbridge.Nft.Conntrack.Revoke.{ConntrackLaws, revoke_nft_connections_complete}
use go_nftables_portbridge.Nft.Backend.{
  Backend, BackendIo, Fallible, done, Admission, is_nil, specs_use_flowtable, no_conntrack,
  revocation_incomplete,
}
use go_nftables_portbridge.Nft.Backend.Chain.{
  State, ◌>>=◌, ◌>>◌, pure, fail, call, set, reject_if, Gives, then-Gives, pure-Gives, Gives-mono,
  via-Gives, then_via-Gives, call-Gives, get-Gives, set-Gives, reject-Gives,
}
use go_nftables_portbridge.Nft.Backend.Install.{replace_objects}
use go_nftables_portbridge.Nft.Backend.Written.{IsInstalled}
use go_nftables_portbridge.Nft.Backend.Installed.{replace_objects-IsInstalled}
use go_nftables_portbridge.Nft.Backend.Replace.{
  Decision, decide, on_admission, stage_retirement, reject_limit, retire_and_install, replace_known,
  conclude, with_pending, settled, with_policy,
}

injective : (a b : Bool) → ◌≡◌ {A = Fallible Bool} (done a) (done b) → a ≡ b
injective a b e = cc

passed_test :
    {W : Type 0} (t : Bool) (s s' : State W) (u : Unit {0})
    → reject_if (not t) revocation_incomplete s ≡ (s', done u)
    → (t ≡ true) × (s ≡ s')
unfolding reject_if pure fail
passed_test true s s' u e = (refl, ap (λ r. r.0) e)
passed_test false s s' u e = ground arith

module _ (k : KernelForms) (io : BackendIo) where
  abbrev W : Type 0
  W = io.conntrack.World

  -- No tracked connection belongs to one of the rules.
  abbrev pub NoneLeft : List NftRuleSpec → W → Type 0
  NoneLeft specs w = All (λ s. any (matching s) (io.conntrack.table w) ≡ false) specs

  decide-Gives :
      (specs history : List NftRuleSpec) (s : State W)
      → Gives
          (decide k io specs history)
          (λ s' d. d.admission ≡ none → (d.next ≡ specs) × (d.suspended ≡ []))
          s
  unfolding decide on_admission ◌>>=◌ ◌>>◌ pure fail call set
  decide-Gives specs history (b, w) = record { result = λ s' d e. ground arith }

  conclude-Gives :
      (missing : Bool) (a : Option Admission) (s : State W)
      → Gives (conclude k io missing a) (λ s' u. (missing ≡ false) × (a ≡ none) × (s' ≡ s)) s
  unfolding conclude reject_if pure fail
  conclude-Gives missing a s = record { result = λ s' u e. ground arith }

  -- The gate and the revocation behind it. The table had a gate, in which no rule takes a port of a rule
  -- that retires, and a journal of those; only then were the connections revoked, without an error,
  -- and none is left.
  pub record Revocation (next pending suspended : List NftRuleSpec) (keep : Bool) (s : State W)
      : Type 0 where
    pub gated : State W
    pub gate_stands :
        IsInstalled k io (gate_nft_replacements next pending) pending suspended keep gated
    pub revoked : revoke_nft_connections io.conntrack pending gated.1 ≡ (s.1, true)
    pub none_left : NoneLeft pending s.1

  -- What a replacement that succeeds establishes: there is a state in which the connections of all that
  -- retires had been revoked behind a gate, from which the desired rules were installed.
  pub record IsClean (specs pending : List NftRuleSpec) (s : State W) : Type 0 where
    pub before : State W
    pub revoked : (pending ≡ []) ⊎ Revocation specs pending [] (specs_use_flowtable specs) before
    pub replaced : (replace_objects k io specs [] (specs_use_flowtable specs) [] before).0.1 ≡ s.1
    pub none_pending : s.0.pending_specs ≡ []
    pub known : s.0.unknown_state ≡ false
    pub in_place : IsInstalled k io specs [] [] (specs_use_flowtable specs) s

  settled-IsInstalled :
      (specs : List NftRuleSpec) (keep missing : Bool) (a : Option Admission) (s : State W)
      → IsInstalled k io specs [] [] keep s
      → IsInstalled k io specs [] [] keep (settled k io missing a s.0, s.1)
  settled-IsInstalled specs keep missing a s (inl h) = inl (record {
    reading = h.reading;
    read = h.read;
    there = h.there;
    fingerprint = h.fingerprint;
    initialized = h.initialized;
    key = h.key;
  })
  settled-IsInstalled specs keep missing a s (inr (inl h)) = inr (
      inl (record {
        nothing = h.nothing;
        reading = h.reading;
        read = h.read;
        gone = h.gone;
        initialized = h.initialized;
        holds_none = (h.holds_none.0, refl, h.holds_none.2);
        saved = h.saved;
      }))
  settled-IsInstalled specs keep missing a s (inr (inr h)) = inr (
      inr (record {
        script = h.script;
        writes = h.writes;
        before = h.before;
        after = h.after;
        ran = h.ran;
        reading = h.reading;
        at = h.at;
        read = h.read;
        there = h.there;
        topology = h.topology;
        agrees = h.agrees;
        fingerprint = h.fingerprint;
        initialized = h.initialized;
        holds = (h.holds.0, refl, h.holds.2);
        key = h.key;
        saved = h.saved;
      }))

  module _ (laws : ConntrackLaws io.conntrack) where
    stage_retirement-Gives :
        (next pending : List NftRuleSpec) (keep : Bool) (d : Decision) (s : State W)
        → Gives
            (stage_retirement k io next pending keep d)
            (λ s' _. (pending ≡ []) ⊎ Revocation next pending d.suspended keep s')
            s
    unfolding stage_retirement
    stage_retirement-Gives next [] keep d s = pure-Gives _ tt s (inl refl)
    stage_retirement-Gives next (p ∷ pending) keep d s =
        then_via-Gives P _
          (replace_objects k io (gate_nft_replacements next (p ∷ pending)) (p ∷ pending) keep
            d.suspended)
          _ s
          (replace_objects-IsInstalled k io (gate_nft_replacements next (p ∷ pending)) (p ∷ pending)
            keep d.suspended s)
          λ s1 u1 gate. set-Gives P (with_policy d.admission) _ s1 (
            call-Gives P (revoke_nft_connections io.conntrack (p ∷ pending)) _ _ λ w revoked e.
              record { result = λ s' u passed. all_gone s1 gate w revoked e s' u passed })
      where
        P : State W → Unit {0} → Type 0
        P s' u = (p ∷ pending ≡ []) ⊎ Revocation next (p ∷ pending) d.suspended keep s'

        all_gone :
            (s1 : State W)
            → IsInstalled k io
                (gate_nft_replacements next (p ∷ pending))
                (p ∷ pending)
                d.suspended
                keep
                s1
            → (w : W) (revoked : Bool)
            → revoke_nft_connections io.conntrack (p ∷ pending) s1.1 ≡ (w, revoked)
            → (s' : State W) (u : Unit {0})
            → reject_if (not revoked) revocation_incomplete (with_policy d.admission s1.0, w)
              ≡ (s', done u)
            → P s' u
        all_gone s1 gate w revoked e s' u passed =
            let (passes, stays) = passed_test revoked _ s' u passed in
            let there : w ≡ s'.1 = ap (λ (x : State W). x.1) stays in
            let ran : revoke_nft_connections io.conntrack (p ∷ pending) s1.1 ≡ (s'.1, true) =
              e ∙ (rw (passes, there) refl) in
            let all = (revoke_nft_connections_complete io.conntrack laws (p ∷ pending) s1.1).1 in
            inr (record {
              gated = s1;
              gate_stands = gate;
              revoked = ran;
              none_left =
                  subst (NoneLeft (p ∷ pending)) (ap (λ (x : W × Bool). x.0) ran)
                    (all (ap (λ (x : W × Bool). x.1) ran));
            })

    module _ (specs pending : List NftRuleSpec) where
      abbrev P : State W → Unit {0} → Type 0
      P s u = IsClean specs pending s

      abbrev Staged : List NftRuleSpec → List NftRuleSpec → State W → Type 0
      Staged next suspended s =
          (pending ≡ []) ⊎ Revocation next pending suspended (specs_use_flowtable next) s

      finish-Gives :
          (next suspended : List NftRuleSpec) (missing : Bool) (a : Option Admission) (s : State W)
          → (missing ≡ false → a ≡ none → (next ≡ specs) × (suspended ≡ []))
          → Staged next suspended s
          → Gives
              (replace_objects k io next [] (specs_use_flowtable next) suspended
                >> (set (settled k io missing a) >> conclude k io missing a))
              P
              s
      finish-Gives next suspended missing a s asked staged =
          then-Gives P (replace_objects k io next [] (specs_use_flowtable next) suspended) _ s
            λ s1 u1 e1. set-Gives P (settled k io missing a) _ s1 (
              Gives-mono (conclude-Gives missing a (settled k io missing a s1.0, s1.1))
                λ s3 u3 (known, no_admission, stays). subst (IsClean specs pending) (sym stays) (
                  as_asked next suspended s1 u1 (asked known no_admission).0
                    (asked known no_admission).1 e1 staged known))
        where
          as_asked :
              (next suspended : List NftRuleSpec) (s1 : State W) (u : Unit {0})
              → next ≡ specs
              → suspended ≡ []
              → replace_objects k io next [] (specs_use_flowtable next) suspended s ≡ (s1, done u)
              → Staged next suspended s
              → missing ≡ false
              → IsClean specs pending (settled k io missing a s1.0, s1.1)
          as_asked next suspended s1 u e none_held ran staged known =
              let ran_specs : replace_objects k io specs [] (specs_use_flowtable specs) [] s
                  ≡ (s1, done u) =
                subst
                  (λ (x : List NftRuleSpec).
                    replace_objects k io x [] (specs_use_flowtable x) [] s ≡ (s1, done u))
                  e
                  (subst
                    (λ (h : List NftRuleSpec).
                      replace_objects k io next [] (specs_use_flowtable next) h s ≡ (s1, done u))
                    none_held ran) in
              record {
                before = s;
                revoked =
                    subst (λ (x : List NftRuleSpec). Staged x [] s) e
                      (subst (λ (h : List NftRuleSpec). Staged next h s) none_held staged);
                replaced = ap (λ r. r.0.1) ran_specs;
                none_pending = refl;
                known = known;
                in_place = settled-IsInstalled specs (specs_use_flowtable specs) missing a s1 (
                    (replace_objects-IsInstalled k io specs [] (specs_use_flowtable specs) []
                        s).result
                      s1 u ran_specs);
              }

      -- The steps from the decision on.
      retire_and_install-Gives :
          (history : List NftRuleSpec) (s : State W)
          → Gives (retire_and_install k io specs history pending) P s
      unfolding retire_and_install
      retire_and_install-Gives history s = then-Gives P (reject_limit k io pending) _ s λ s1 u1 e1.
          via-Gives P _ (decide k io specs history) _ s1 (decide-Gives specs history s1)
            λ s2 d decided.
              call-Gives P (λ w. (w, io.conntrack.available w)) _ s2
                λ w ready e3.
                  get-Gives P _ (s2.0, w)
                    (reject-Gives P (not ready && is_nil history && is_nil pending) no_conntrack _
                      (s2.0, w)
                      λ some_left.
                        let next =
                          if ready
                          then d.next
                          else previously_admitted_nft k d.next s2.0.active_specs in
                        set-Gives P (with_pending pending) _ (s2.0, w)
                          (then_via-Gives P _
                            (stage_retirement k io next pending (specs_use_flowtable next) d) _ _
                            (stage_retirement-Gives next pending (specs_use_flowtable next) d _)
                            λ s7 u7 staged.
                              finish-Gives next d.suspended (not ready) d.admission s7
                                (λ known none_rejected.
                                  asked_for ready d
                                    (previously_admitted_nft k d.next s2.0.active_specs)
                                    (decided none_rejected) known)
                                staged))
        where
          asked_for :
              (ready : Bool) (d : Decision) (other : List NftRuleSpec)
              → (d.next ≡ specs) × (d.suspended ≡ [])
              → not ready ≡ false
              → ((if ready then d.next else other) ≡ specs) × (d.suspended ≡ [])
          asked_for true d other r known = r
          asked_for false d other r known = absurd cc

    -- The rules whose connections a replacement revokes: those that an earlier one left pending, and
    -- the applied and suspended ones, as far as the desired ones do not carry their paths.
    abbrev pub retiring : List NftRuleSpec → Backend → List NftRuleSpec
    retiring specs b = unique_nft_specs k (
        b.pending_specs
        ++ retired_nft_specs k (unique_nft_specs k (b.active_specs ++ b.suspended_specs)) specs)

    -- Where replacing the rules succeeds, the order was kept. If anything retires, the table first had a
    -- gate without its ports and a journal of it; behind that gate its connections were revoked, and
    -- none was left tracked. From there the desired rules were installed, nothing is pending, the state is
    -- known, and the table and the backend have exactly the desired rules: if the conntrack tool lists and
    -- deletes as documented.
    pub replace_known_revokes :
        (specs : List NftRuleSpec) (s : State W)
        → Gives (replace_known k io specs) (λ s' _. IsClean specs (retiring specs s.0) s') s
    unfolding replace_known
    replace_known_revokes specs s =
        get-Gives (λ s' u. IsClean specs (retiring specs s.0) s') _ s
          (retire_and_install-Gives specs (retiring specs s.0)
            (unique_nft_specs k (s.0.active_specs ++ s.0.suspended_specs)) s)
