-- ===== src/Nft/Backend/Installed.antt =====
-- What a success of `replaceObjects` of internal/proxy/nft.go says of the kernel's table and of the
-- backend.
use go_nftables_portbridge.Prelude.{
  ◌≡◌, refl, Bool, true, false, ◌&&◌, ◌||◌, not, List, [], ◌∷◌, ◌++◌, Option, none, some, inl, inr,
  ap, sym, ◌∙◌, if◌then◌else◌, arith, subst,
}
use go_nftables_portbridge.Text.{Text, text_eq, text_eq_sound}
use go_nftables_portbridge.Plan.{NftRuleSpec}
use go_nftables_portbridge.Nft.Keys.{KernelForms, unique_nft_specs}
use go_nftables_portbridge.Nft.Backend.{
  Backend, BackendIo, BackendError, Fallible, done, applied_state_key, topology_key,
  clear_applied_state, specs_use_flowtable, foreign_table, bad_journal, Observed, NftTopology,
  no_topology, mismatched_mark, invalid_spec, topology_failed, no_devices, not_observed,
}
use go_nftables_portbridge.Nft.Backend.Chain.{
  State, pure, or_fail, set, Gives, if-Gives, pure-Gives, call-Gives, or_fail-Gives, via-Gives,
  get-Gives, set-Gives, reject-Gives, then_via-Gives,
}
use go_nftables_portbridge.Nft.Backend.Install.{
  Goal, replace_objects, carry_out, act, first_goal, refreshable, nothing_to_install, topology_for,
  observed_now, check_specs, devices_for, collected, topology_used,
}
use go_nftables_portbridge.Nft.Backend.Written.{
  LastRead, just_read, then_collected, IsInstalled, Unchanged, Removed,
}
use go_nftables_portbridge.Nft.Backend.Applied.{KeyFits, and_left, and_right}
use go_nftables_portbridge.Nft.Backend.Carried.{Reached, carry_out-Gives}

module _ (k : KernelForms) (io : BackendIo) where
  abbrev W : Type 0
  W = io.conntrack.World

  set-done :
      (s s' : State W) (f : Backend → Backend) (u : Unit {0})
      → set f s ≡ (s', done u)
      → s' ≡ (f s.0, s.1)
  unfolding set
  set-done s s' f u e = sym (ap (λ r. r.0) e)

  or_fail-done :
      {A : Type 0} (x : BackendError) (o : Option A) (s s' : State W) (a : A)
      → or_fail x o s ≡ (s', done a)
      → (s' ≡ s) × (o ≡ some a)
  unfolding or_fail
  or_fail-done x none s s' a e = absurd cc
  or_fail-done {A = A} x (some v) s s' a e =
      let same : ◌≡◌ {A = Fallible A} (done v) (done a) = ap (λ r. r.1) e in
      (sym (ap (λ r. r.0) e), cc)

  act-Gives :
      (goal : Goal) (s : State W) (o : Observed io.Objects)
      → goal.intent_lost ≡ false
      → KeyFits k io goal s.0
      → LastRead k io o s.1
      → (o.exists && not o.owned) ≡ false
      → (goal.can_refresh ≡ true
          → (o.exists ≡ true) × (s.0.initialized ≡ true) × (o.fingerprint ≡ s.0.fingerprint))
      → Gives (act k io goal o.exists s.0) (Reached k io goal) s
  unfolding act clear_applied_state
  act-Gives goal s o kept key read own ready =
      if-Gives (Reached k io goal) (goal.can_refresh && text_eq goal.key s.0.applied_spec_key)
        (pure tt)
        (if not o.exists && nothing_to_install goal && not s.0.disk_session
          then set clear_applied_state
          else carry_out k io goal o.exists)
        s (λ same. pure-Gives (Reached k io goal) tt s (inl (unchanged same)))
        λ other.
          if-Gives (Reached k io goal)
            (not o.exists && nothing_to_install goal && not s.0.disk_session)
            (set clear_applied_state) (carry_out k io goal o.exists) s
            (λ empty. record { result = λ s' u e. inr (inl (cleared s' u empty e)) })
            λ filled. carry_out-Gives k io goal o.exists s o kept key refl read
    where
      owned : (a b : Bool) → a ≡ true → (a && not b) ≡ false → b ≡ true
      owned a b h g = ground arith

      unchanged :
          (goal.can_refresh && text_eq goal.key s.0.applied_spec_key) ≡ true
          → Unchanged k io goal.specs goal.retired goal.suspended goal.keep_flowtable s
      unchanged same =
          let (there, on, print) =
            ready (and_left goal.can_refresh (text_eq goal.key s.0.applied_spec_key) same) in
          let found =
            text_eq_sound goal.key s.0.applied_spec_key
              (and_right goal.can_refresh (text_eq goal.key s.0.applied_spec_key) same) in
          record {
            reading = o;
            read = read;
            there = (there, owned o.exists o.owned there own);
            fingerprint = print;
            initialized = on;
            key = sym found ∙ key;
          }

      three : (a b c : Bool) → (not a && b && not c) ≡ true → (a ≡ false) × (b ≡ true) × (c ≡ false)
      three a b c h = ground arith

      cleared :
          (s' : State W) (u : Unit {0})
          → (not o.exists && nothing_to_install goal && not s.0.disk_session) ≡ true
          → set clear_applied_state s ≡ (s', done u)
          → Removed k io goal.specs goal.retired goal.suspended goal.keep_flowtable s'
      cleared s' u empty e =
          let moved = (set-done s s' clear_applied_state u e) in
          let (gone, asked, closed) =
            three o.exists (nothing_to_install goal) s.0.disk_session empty in
          subst (Removed k io goal.specs goal.retired goal.suspended goal.keep_flowtable)
            (sym moved)
            (record {
              nothing = asked;
              reading = o;
              read = read;
              gone = gone;
              initialized = refl;
              holds_none = (refl, refl, refl);
              saved = inl closed;
            })

  observed_now-Gives : (s : State W) → Gives (observed_now k io) (λ s' o. LastRead k io o s'.1) s
  unfolding observed_now
  observed_now-Gives s = call-Gives P io.observe _ s λ w o e. read w o e
    where
      P : State W → Observed io.Objects → Type 0
      P s' o = LastRead k io o s'.1

      read :
          (w : W) (o : Option (Observed io.Objects))
          → io.observe s.1 ≡ (w, o)
          → Gives (or_fail not_observed o) P (s.0, w)
      read w o e = record { result = λ s' x h. found w o e s' x h }
        where
          found :
              (w : W) (o : Option (Observed io.Objects))
              → io.observe s.1 ≡ (w, o)
              → (s' : State W) (x : Observed io.Objects)
              → or_fail not_observed o (s.0, w) ≡ (s', done x)
              → P s' x
          found w o e s' x h =
              let (same, there) = or_fail-done not_observed o (s.0, w) s' x h in
              subst (λ (t : State W). P t x) (sym same)
                (just_read s.1 w (e ∙ ap (λ (a : Option (Observed io.Objects)). (w, a)) there))

  check_specs-Gives :
      (specs : List NftRuleSpec) (s : State W) → Gives (check_specs k io specs) (λ s' _. s' ≡ s) s
  unfolding check_specs
  check_specs-Gives [] s = pure-Gives _ tt s refl
  check_specs-Gives (x ∷ specs) s =
      get-Gives (λ s' u. s' ≡ s) _ s
        (reject-Gives (λ s' u. s' ≡ s) _ mismatched_mark _ s
          λ marked.
            reject-Gives (λ s' u. s' ≡ s) _ invalid_spec _ s λ fine. check_specs-Gives specs s)

  -- Only the devices are collected meanwhile.
  devices_for-Gives :
      (needed : Bool) (s : State W) (o : Observed io.Objects)
      → LastRead k io o s.1
      → Gives (devices_for k io needed) (λ s' t. LastRead k io o s'.1) s
  unfolding devices_for
  devices_for-Gives needed s o read =
      via-Gives P _ (topology_for k io needed) _ s (topology_for-Gives needed) λ s1 t still.
        set-Gives P topology_used _ s1 (
          reject-Gives P t.failed topology_failed _ _
            λ fine. reject-Gives P _ no_devices _ _ λ some_there. pure-Gives P t _ still)
    where
      P : State W → NftTopology → Type 0
      P s' t = LastRead k io o s'.1

      topology_for-Gives : (b : Bool) → Gives (topology_for k io b) P s
      topology_for-Gives false = pure-Gives P no_topology s read
      topology_for-Gives true = get-Gives P _ s (
          if-Gives P s.0.topology_ready (pure s.0.pending_topology) _ s
            (λ ready. pure-Gives P s.0.pending_topology s read)
            λ fresh. call-Gives P io.collect_topology _ s λ w t e.
              set-Gives P (collected t) (pure t) (s.0, w)
                (pure-Gives P t _ (then_collected s.1 w t e read)))

  pub replace_objects-IsInstalled :
      (specs retired : List NftRuleSpec) (keep : Bool) (suspended : List NftRuleSpec) (s : State W)
      → Gives
          (replace_objects k io specs retired keep suspended)
          (λ s' _. IsInstalled k io specs retired suspended keep s')
          s
  unfolding replace_objects clear_applied_state
  replace_objects-IsInstalled specs retired keep suspended s =
      via-Gives P _ (observed_now k io) _ s (observed_now-Gives s) λ s1 o read.
        reject-Gives P (o.exists && not o.owned) foreign_table _ s1 λ own.
          then_via-Gives P _
            (check_specs k io (unique_nft_specs k (specs ++ (retired ++ suspended)))) _ s1
            (check_specs-Gives (unique_nft_specs k (specs ++ (retired ++ suspended))) s1)
            λ s2 u2 same.
              via-Gives P _ (devices_for k io (specs_use_flowtable specs || keep)) _ s2
                (devices_for-Gives (specs_use_flowtable specs || keep) s2 o
                  (subst (λ (t : State W). LastRead k io o t.1) (sym same) read))
                λ s3 t still. get-Gives P _ s3 (
                  or_fail-Gives P bad_journal (io.decode_journal o.objects s3.0.owner_marker) _ s3
                    λ journal e.
                      act-Gives
                        (first_goal specs retired suspended keep t
                          (applied_state_key k specs retired suspended keep s3.0.disk_binding)
                          (refreshable s3.0 o.exists (topology_key k t) o.fingerprint
                            journal.binding))
                        s3 o refl refl still own
                        (λ ready. known s3.0 (topology_key k t) journal.binding o ready))
    where
      P : State W → Unit {0} → Type 0
      P s' u = IsInstalled k io specs retired suspended keep s'

      parts :
          (a i c d e : Bool) → (a && i && c && d && e) ≡ true → (a ≡ true) × (i ≡ true) × (d ≡ true)
      parts a i c d e h = ground arith

      known :
          (b : Backend) (key binding : Text) (o : Observed io.Objects)
          → refreshable b o.exists key o.fingerprint binding ≡ true
          → (o.exists ≡ true) × (b.initialized ≡ true) × (o.fingerprint ≡ b.fingerprint)
      known b key binding o h =
          let (there, on, print) =
            parts o.exists b.initialized (text_eq b.devices_key key)
              (text_eq o.fingerprint b.fingerprint) (text_eq binding b.disk_binding) h in
          (there, on, text_eq_sound o.fingerprint b.fingerprint print)
