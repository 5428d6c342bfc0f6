-- ===== src/Config/Store/Rotation.antt =====
-- `RotateAdminToken` of internal/config/config.go: the token file and the hash in the configuration.
use go_nftables_portbridge.Prelude.{
  ◌≡◌, refl, sym, ◌∙◌, ap, inl, inr, Bool, true, false, some, arith, subst, Bool-cases,
}
use go_nftables_portbridge.Text.{Text, trim_space, text_eq_refl}
use go_nftables_portbridge.Netip.Forms.{Forms}
use go_nftables_portbridge.Config.{Config}
use go_nftables_portbridge.Config.Errors.{Result, ok, err}
use go_nftables_portbridge.Config.Store.{
  Store, World, Outcomes, RotateResult, rotated, read_failed, write_failed, rolled_back,
  rollback_failed, rotate_admin_token, set_admin_sha, stamp, file_text, finish_rotation, roll_back,
  token_file_consistent,
}
use go_nftables_portbridge.Config.Store.Updates.{Outcome, update_locked-Outcome}

module _ (forms : Forms) (hash : Text → Text) where
  -- What each result says of the world that is left.
  abbrev pub Left : Text → World → World × RotateResult → Type 0
  Left token w (w', rotated t) =
      (t ≡ token)
      × (w'.token_file ≡ some (file_text token))
      × (w'.store.cfg.web.admin_token_sha ≡ hash token)
      × (w'.store.file ≡ w'.store.cfg)
  Left token w (w', rollback_failed e) =
      (w'.store ≡ w.store) × (w'.token_file ≡ some (file_text token))
  Left token w (w', _) = w' ≡ w

  sha_set :
      (token : Text) (old c d : Config)
      → set_admin_sha (hash token) old ≡ ok d
      → c ≡ stamp d
      → c.web.admin_token_sha ≡ hash token
  sha_set token old c d e made = ground arith

  finish_rotation-Left :
      (restored : Bool) (token : Text) (w : World) (r : Store × Result Config)
      → Outcome forms (set_admin_sha (hash token)) w.store r
      → Left token w (finish_rotation restored w.token_file token (some (file_text token)) r)
  unfolding roll_back
  finish_rotation-Left restored token w (s, ok c) (stored, _, (d, e, made)) = (
    refl,
    refl,
    ap (λ (t : Store). t.cfg.web.admin_token_sha) stored ∙ sha_set token w.store.cfg c d e made,
    rw stored,
  )
  finish_rotation-Left true token w (s, err x) e = ground arith
  finish_rotation-Left false token w (s, err x) e = (e, refl)

  -- A rotation that reports success has written the token to the token file and its hash to the
  -- configuration, in memory and on disk. One that fails leaves the token file and the store as they
  -- were; only where the roll-back failed too does the new token stay in the file, and then the result
  -- says so and the store is as it was.
  pub rotate_admin_token-Left :
      (out : Outcomes) (token : Text) (w : World)
      → Left token w (rotate_admin_token forms hash out token w)
  unfolding rotate_admin_token
  rotate_admin_token-Left out token w = elim (Bool-cases out.readable) [
    | inr unread ↦ rw (unread, rotate_admin_token) refl
    | inl seen ↦ elim (Bool-cases out.token_written) [
      | inr lost ↦ rw (seen, lost, rotate_admin_token) refl
      | inl put ↦
          rw (seen, put, rotate_admin_token)
            (finish_rotation-Left out.restored token w _
              (update_locked-Outcome forms out.saved (set_admin_sha (hash token)) w.store))
    ]
  ]

  -- The token file and the hash in memory fit.
  abbrev pub Consistent : World → Type 0
  Consistent w = token_file_consistent hash w.token_file w.store.cfg.web.admin_token_sha ≡ true

  abbrev RollbackWorked : RotateResult → Type 0
  RollbackWorked (rollback_failed e) = ⊥
  RollbackWorked _ = Unit

  Left-Consistent :
      (token : Text) (w : World) (r : World × RotateResult)
      → trim_space (file_text token) ≡ token
      → Left token w r
      → RollbackWorked r.1
      → Consistent w
      → Consistent r.0
  unfolding token_file_consistent
  Left-Consistent token w (w', rotated t) clean (_, f, sha, _) k c =
      rw (f, sha) (rw clean (text_eq_refl (hash token)))
  Left-Consistent token w (w', rollback_failed x) clean l k c = absurd k
  Left-Consistent token w (w', read_failed) clean l k c = subst Consistent (sym l) c
  Left-Consistent token w (w', write_failed) clean l k c = subst Consistent (sym l) c
  Left-Consistent token w (w', rolled_back x) clean l k c = subst Consistent (sym l) c

  -- A token file that fits the configured hash fits it after a rotation, whatever failed, unless the
  -- roll-back itself failed. The new token has no space around it, as a hexadecimal one has none.
  pub rotate_admin_token-Consistent :
      (out : Outcomes) (token : Text) (w : World)
      → trim_space (file_text token) ≡ token
      → RollbackWorked (rotate_admin_token forms hash out token w).1
      → Consistent w
      → Consistent (rotate_admin_token forms hash out token w).0
  rotate_admin_token-Consistent out token w clean =
      Left-Consistent token w _ clean (rotate_admin_token-Left out token w)
