-- ===== src/Config/Store/Updates.antt =====
-- `updateLocked` and `UpdateIfRevision` of internal/config: memory, disk and revisions.
use go_nftables_portbridge.Prelude.{
  ◌≡◌, ◌≢◌, refl, sym, ◌∙◌, ap, inl, inr, Bool, true, false, not, ◌&&◌, Bool-cases, subst,
}
use go_nftables_portbridge.Text.{Text, is_empty, text_eq, text_eq_sound}
use go_nftables_portbridge.Netip.Forms.{Forms}
use go_nftables_portbridge.Config.{Config}
use go_nftables_portbridge.Config.Errors.{Result, ok, err, revision_conflict}
use go_nftables_portbridge.Config.Validate.{validate}
use go_nftables_portbridge.Config.Store.{Store, stamp, commit, update_locked, update_if_revision}

module _ (forms : Forms) where
  pub record IsPersisted (s : Store) : Type 0 where
    pub on_disk : s.file ≡ s.cfg
    pub valid : validate forms s.cfg ≡ ok tt

  -- What one update may do: nothing, with an error, or all that its callback asks for, with the
  -- current version put in.
  abbrev pub Outcome : (Config → Result Config) → Store → Store × Result Config → Type 0
  Outcome fn s (s', ok c) =
      (s' ≡ record { cfg = c; file = c })
      × (validate forms c ≡ ok tt)
      × ((d : Config) × (fn s.cfg ≡ ok d) × (c ≡ stamp d))
  Outcome fn s (s', err e) = s' ≡ s

  commit-Outcome :
      (written : Bool) (fn : Config → Result Config) (c : Config) (s : Store)
      (r : Result (Unit {0}))
      → fn s.cfg ≡ ok c
      → validate forms (stamp c) ≡ r
      → Outcome fn s (commit forms written (stamp c) s)
  unfolding commit
  commit-Outcome true fn c s (ok u) e h = rw (h, commit) (refl, h, (c, e, refl))
  commit-Outcome false fn c s (ok u) e h = rw (h, commit) refl
  commit-Outcome written fn c s (err x) e h = rw (h, commit) refl

  -- An update that fails, in the callback, in the validation or in the writing of the file, leaves
  -- memory and disk as they were. One that succeeds leaves what the callback made of the old
  -- configuration, with the current version, in memory and on disk; it validates and is returned.
  pub update_locked-Outcome :
      (written : Bool) (fn : Config → Result Config) (s : Store)
      → Outcome fn s (update_locked forms written fn s)
  unfolding update_locked
  update_locked-Outcome written fn s = go (fn s.cfg) refl
    where
      go : (r : Result Config) → fn s.cfg ≡ r → Outcome fn s (update_locked forms written fn s)
      go (ok c) e = rw (e, update_locked) (commit-Outcome written fn c s _ e refl)
      go (err x) e = rw (e, update_locked) refl

  Outcome-IsPersisted :
      (fn : Config → Result Config) (s : Store) (r : Store × Result Config)
      → Outcome fn s r
      → IsPersisted s
      → IsPersisted r.0
  Outcome-IsPersisted fn s (s', ok c) (e, v, _) p =
      subst IsPersisted (sym e) (record { on_disk = refl; valid = v })
  Outcome-IsPersisted fn s (s', err x) e p = subst IsPersisted (sym e) p

  -- Whatever the callback and the outcome of the write, a store whose file holds its configuration
  -- and whose configuration validates is such a store after an update.
  pub update_locked-IsPersisted :
      (written : Bool) (fn : Config → Result Config) (s : Store)
      → IsPersisted s
      → IsPersisted (update_locked forms written fn s).0
  update_locked-IsPersisted written fn s =
      Outcome-IsPersisted fn s _ (update_locked-Outcome written fn s)

  module _ (revision : Config → Text) where
    pub update_if_revision-Outcome :
        (written : Bool) (expected : Text) (fn : Config → Result Config) (s : Store)
        → Outcome fn s (update_if_revision forms revision written expected fn s)
    unfolding update_if_revision
    update_if_revision-Outcome written expected fn s =
        elim (Bool-cases (not (is_empty expected) && not (text_eq expected (revision s.cfg)))) [
          | inl stale ↦ rw (stale, update_if_revision) refl
          | inr fresh ↦ rw (fresh, update_if_revision) (update_locked-Outcome written fn s)
        ]

    stale_refused :
        (written : Bool) (expected : Text) (fn : Config → Result Config) (s : Store)
        → is_empty expected ≡ false
        → revision s.cfg ≢ expected
        → update_if_revision forms revision written expected fn s ≡ (s, err revision_conflict)
    unfolding update_if_revision
    stale_refused written expected fn s given differ =
        rw (given, other (text_eq expected (revision s.cfg)) refl, update_if_revision)
      where
        other :
            (b : Bool)
            → text_eq expected (revision s.cfg) ≡ b
            → text_eq expected (revision s.cfg) ≡ false
        other true e = absurd (differ (sym (text_eq_sound expected _ e)))
        other false e = e

    -- Two clients read the configuration at the same revision and both send it along. Where the
    -- first update succeeds and changes the revision, the second is refused with the conflict,
    -- whatever its callback, and memory and disk stay at what the first one wrote.
    pub no_lost_update :
        (first second : Config → Result Config) (written written' : Bool) (expected : Text)
        (s s' : Store) (c : Config)
        → is_empty expected ≡ false
        → update_if_revision forms revision written expected first s ≡ (s', ok c)
        → revision c ≢ expected
        → (update_if_revision forms revision written' expected second s'
            ≡ (s', err revision_conflict))
          × (s'.cfg ≡ c)
          × (s'.file ≡ c)
    no_lost_update first second written written' expected s s' c given done changed = (
      stale_refused written' expected second s' given (λ e. changed (sym (ap revision here) ∙ e)),
      here,
      ap (λ (t : Store). t.file) stored.0,
    )
      where
        stored : Outcome first s (s', ok c)
        stored = subst (Outcome first s) done (update_if_revision-Outcome written expected first s)

        here : s'.cfg ≡ c
        here = ap (λ (t : Store). t.cfg) stored.0
