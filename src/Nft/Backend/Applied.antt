-- ===== src/Nft/Backend/Applied.antt =====
-- `install` and `confirm`, parts of `replaceObjects` of internal/proxy/nft.go: what a success of them
-- says.
use go_nftables_portbridge.Prelude.{
  ◌≡◌, refl, Bool, true, false, ◌&&◌, not, Option, none, some, inl, inr, ap, ◌∙◌, if◌then◌else◌,
  arith, Bool-cases,
}
use go_nftables_portbridge.Text.{text_eq}
use go_nftables_portbridge.Nft.Keys.{KernelForms}
use go_nftables_portbridge.Nft.Disk.{DiskSnapshot}
use go_nftables_portbridge.Nft.Backend.{
  Backend, BackendIo, applied_state_key, Observed, Script, apply_failed, changed_meanwhile,
  state_differs, checkpoint_failed, intent_failed, device_names, nft_specs_key, not_observed,
}
use go_nftables_portbridge.Nft.Backend.Chain.{
  State, ◌>>=◌, ◌>>◌, pure, fail, call, or_fail, set, reject_if, get, Gives, Gives-mono, if-Gives,
  pure-Gives, call-Gives, via-Gives, get-Gives, set-Gives, reject-Gives, fail-Gives, guard-Gives,
}
use go_nftables_portbridge.Nft.Backend.Install.{
  Goal, install, confirm, installed, target_of, observed_again, not_initialized, script_for,
  render_of, on_reading,
}
use go_nftables_portbridge.Nft.Backend.Written.{Writes, Saved, Applied}

pub and_left : (a b : Bool) → (a && b) ≡ true → a ≡ true
and_left true b h = refl
and_left false b h = cc

pub and_right : (a b : Bool) → (a && b) ≡ true → b ≡ true
and_right true b h = h
and_right false b h = cc

module _ (k : KernelForms) (io : BackendIo) where
  abbrev W : Type 0
  W = io.conntrack.World

  -- A checkpoint that is made leaves the backend alone, and means that the intent was written.
  pub confirm-Gives :
      (g : Goal) (snapshot : DiskSnapshot) (f : Backend → Backend) (s : State W)
      → Gives
          (confirm k io g snapshot f)
          (λ s' _. (g.intent_lost ≡ false) × (s'.0 ≡ s.0) × Saved k io snapshot s.1 s')
          s
  unfolding confirm
  confirm-Gives g snapshot f s = reject-Gives P g.intent_lost intent_failed _ s λ intact.
      get-Gives P _ s (
        if-Gives P (not s.0.disk_session) (pure tt) _ s
          (λ none_open. pure-Gives P tt s (intact, refl, inl (ground arith, refl)))
          λ open_file.
            call-Gives P (io.checkpoint snapshot) _ s
              λ w written e. written_or_not intact w written e)
    where
      P : State W → Unit {0} → Type 0
      P s' u = (g.intent_lost ≡ false) × (s'.0 ≡ s.0) × Saved k io snapshot s.1 s'

      written_or_not :
          g.intent_lost ≡ false
          → (w : W) (written : Bool) → io.checkpoint snapshot s.1 ≡ (w, written)
          → Gives (if written then pure tt else (set f >> fail checkpoint_failed)) P (s.0, w)
      written_or_not intact w true e = pure-Gives P tt (s.0, w) (intact, refl, inr e)
      written_or_not intact w false e = fail-Gives P f checkpoint_failed (s.0, w)

  pub observed_again-Gives :
      (s : State W)
      → Gives (observed_again k io) (λ s' o. (s'.0 ≡ s.0) × (io.observe s.1 ≡ (s'.1, some o))) s
  unfolding observed_again on_reading
  observed_again-Gives s = call-Gives P io.observe _ s read
    where
      P : State W → Observed io.Objects → Type 0
      P s' o = (s'.0 ≡ s.0) × (io.observe s.1 ≡ (s'.1, some o))

      read :
          (w : W) (o : Option (Observed io.Objects))
          → io.observe s.1 ≡ (w, o)
          → Gives (on_reading k io o) P (s.0, w)
      read w none e = fail-Gives P not_initialized not_observed (s.0, w)
      read w (some o) e = pure-Gives P o (s.0, w) (refl, e)

  -- The key of the goal is that of its parts, with the binding that the backend has.
  abbrev pub KeyFits : Goal → Backend → Type 0
  KeyFits g b =
      g.key ≡ applied_state_key k g.specs g.retired g.suspended g.keep_flowtable b.disk_binding

  script_for-Writes :
      (b : Backend) (g : Goal) (exists : Bool)
      → Writes (script_for k io b g exists) g.specs g.retired g.suspended
  unfolding script_for
  script_for-Writes b g exists = elim (Bool-cases g.can_refresh) [
    | inr whole ↦ rw whole (refl, refl, refl)
    | inl part ↦ elim (Bool-cases (text_eq b.applied_active_key (nft_specs_key k g.specs))) [
      | inl same ↦ rw (part, same) (refl, refl, refl)
      | inr other ↦ rw (part, other) (refl, refl, refl)
    ]
  ]

  pub install-Gives :
      (g : Goal) (exists : Bool) (s : State W)
      → KeyFits g s.0
      → Gives
          (install k io g exists)
          (λ s' _.
            (g.intent_lost ≡ false)
            × Applied k io g.specs g.retired g.suspended g.keep_flowtable s')
          s
  unfolding install installed
  install-Gives g exists s key = get-Gives P _ s (
      call-Gives P (io.apply script) _ s λ w ran e.
        reject-Gives P (not ran) apply_failed _ (s.0, w)
          λ did.
            via-Gives P _ (observed_again k io) _ (s.0, w) (observed_again-Gives (s.0, w))
              λ s1 o (same, read).
                guard-Gives P (o.exists && o.owned) not_initialized changed_meanwhile _ s1 λ there.
                  guard-Gives P
                    (io.state_agrees o.objects g.specs (device_names g.topology) s.0.owner_marker
                      (render_of s.0 g))
                    not_initialized state_differs _ s1
                    λ agrees. set-Gives P (installed k io g o.fingerprint) _ s1 (
                      Gives-mono
                        (confirm-Gives g (target_of k io g) not_initialized
                          (installed k io g o.fingerprint s1.0, s1.1))
                        λ s2 u (intact, now, saved).
                          (intact, at_end w ran e did s1 o same read there agrees s2 now saved)))
    where
      P : State W → Unit {0} → Type 0
      P s' u =
          (g.intent_lost ≡ false) × Applied k io g.specs g.retired g.suspended g.keep_flowtable s'

      script : Script
      script = script_for k io s.0 g exists

      at_end :
          (w : W) (ran : Bool)
          → io.apply script s.1 ≡ (w, ran)
          → not ran ≡ false
          → (s1 : State W) (o : Observed io.Objects) → s1.0 ≡ s.0
          → io.observe w ≡ (s1.1, some o)
          → (o.exists && o.owned) ≡ true
          → io.state_agrees o.objects g.specs
              (device_names g.topology)
              s.0.owner_marker
              (render_of s.0 g)
            ≡ true
          → (s2 : State W) → s2.0 ≡ installed k io g o.fingerprint s1.0
          → Saved k io (target_of k io g) s1.1 s2
          → Applied k io g.specs g.retired g.suspended g.keep_flowtable s2
      at_end w ran e did s1 o same read there agrees s2 now saved =
          let placed : s2.0 ≡ installed k io g o.fingerprint s.0 =
            now ∙ ap (installed k io g o.fingerprint) same in
          let succeeded : ran ≡ true = ground arith in
          let marker : s2.0.owner_marker ≡ s.0.owner_marker =
            ap (λ (c : Backend). c.owner_marker) placed in
          let binding : s2.0.disk_binding ≡ s.0.disk_binding =
            ap (λ (c : Backend). c.disk_binding) placed in
          record {
            script = script;
            writes = script_for-Writes s.0 g exists;
            before = s.1;
            after = w;
            ran = e ∙ ap (λ (r : Bool). (w, r)) succeeded;
            reading = o;
            at = s1.1;
            read = read;
            there = (and_left o.exists o.owned there, and_right o.exists o.owned there);
            topology = g.topology;
            agrees = rw (marker, binding) agrees;
            fingerprint = ap (λ (c : Backend). c.fingerprint) placed;
            initialized = ap (λ (c : Backend). c.initialized) placed;
            holds = (
              ap (λ (c : Backend). c.active_specs) placed,
              ap (λ (c : Backend). c.pending_specs) placed,
              ap (λ (c : Backend). c.suspended_specs) placed,
            );
            key = rw (ap (λ (c : Backend). c.applied_spec_key) placed, binding) key;
            saved = saved;
          }

  -- With a lost intent the installation does not succeed.
  pub install-intact :
      (g : Goal) (exists : Bool) (s : State W)
      → Gives (install k io g exists) (λ s' _. g.intent_lost ≡ false) s
  unfolding install installed observed_again confirm ◌>>=◌ ◌>>◌ pure fail get set call reject_if
      or_fail
  install-intact g exists (b, w) = record { result = λ s' a e. ground arith }
