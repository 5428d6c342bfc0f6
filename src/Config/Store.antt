-- ===== src/Config/Store.antt =====
-- `Store` of internal/config/config.go and `UpdateIfRevision` of internal/config/revision.go. The
-- lock makes each method one step. `file` is what stands on disk under the store's path; a write
-- replaces it whole or leaves it (`writeFileAtomic` renames a finished file into place), and its
-- outcome is an argument.
pub mod Updates
pub mod Rotation
use go_nftables_portbridge.Prelude.{
  Bool, true, false, ◌&&◌, not, List, [], ◌∷◌, ◌++◌, Option, none, some,
}
use go_nftables_portbridge.Text.{Text, codes, text_eq, trim_space, is_empty}
use go_nftables_portbridge.Netip.Forms.{Forms}
use go_nftables_portbridge.Config.{Config, WebConfig, current_version}
use go_nftables_portbridge.Config.Errors.{Error, Result, ok, err, save_failed, revision_conflict}
use go_nftables_portbridge.Config.Validate.{validate}

pub record Store : Type 0 where
  pub cfg : Config
  pub file : Config

-- `saveLocked`: `written` says whether the file was replaced.
unfoldable pub save_locked : Bool → Store → Store × Result (Unit {0})
save_locked true s = (record s { file = s.cfg }, ok tt)
save_locked false s = (s, err save_failed)

abbrev stamp : Config → Config
stamp candidate = record candidate { version = current_version }

-- The end of `updateLocked`: the save, and the old configuration back where it failed.
abbrev keep_or_restore : Config → Config → Store × Result (Unit {0}) → Store × Result Config
keep_or_restore old candidate (s, ok _) = (s, ok candidate)
keep_or_restore old candidate (s, err e) = (record s { cfg = old }, err e)

module _ (forms : Forms) where
  -- The callback has run, and the candidate has its version.
  unfoldable pub commit : Bool → Config → Store → Store × Result Config
  unfolding save_locked
  commit written candidate s = elim (validate forms candidate) [
    | err e ↦ (s, err e)
    | ok _ ↦ keep_or_restore s.cfg candidate (save_locked written (record s { cfg = candidate }))
  ]

  unfoldable pub update_locked : Bool → (Config → Result Config) → Store → Store × Result Config
  unfolding commit
  update_locked written fn s = elim (fn s.cfg) [
    | err e ↦ (s, err e)
    | ok candidate ↦ commit written (stamp candidate) s
  ]

  -- `revision` is the digest of the encoded configuration.
  unfoldable pub update_if_revision :
      (Config → Text) → Bool → Text → (Config → Result Config) → Store → Store × Result Config
  unfolding update_locked
  update_if_revision revision written expected fn s =
      elim (not (is_empty expected) && not (text_eq expected (revision s.cfg))) [
        | true ↦ (s, err revision_conflict)
        | false ↦ update_locked written fn s
      ]

abbrev set_admin_sha : Text → Config → Result Config
set_admin_sha sha c = ok (record c { web = record c.web { admin_token_sha = sha } })

abbrev set_monitor_sha : Text → Config → Result Config
set_monitor_sha sha c = ok (record c { web = record c.web { monitor_token_sha = sha } })

-- The store and the token file beside it; `none` is a file that does not exist.
pub record World : Type 0 where
  pub store : Store
  pub token_file : Option Text

-- What the outside does to one rotation: the reading of the old token file, the writing of the new
-- one, the save of the configuration, and the roll-back.
pub record Outcomes : Type 0 where
  pub readable : Bool
  pub token_written : Bool
  pub saved : Bool
  pub restored : Bool

pub data RotateResult : Type 0 where
  rotated : Text → RotateResult
  read_failed write_failed : RotateResult
  rolled_back : Error → RotateResult
  rollback_failed : Error → RotateResult

abbrev file_text : Text → Text
file_text token = token ++ codes "\n"

-- The configuration was not updated: the old token file comes back, if the roll-back works.
unfoldable pub roll_back : Bool → Option Text → Error → World → World × RotateResult
roll_back true old e w = (record w { token_file = old }, rolled_back e)
roll_back false old e w = (w, rollback_failed e)

abbrev finish_rotation :
    Bool → Option Text → Text → Option Text → Store × Result Config → World × RotateResult
finish_rotation restored old token published (s, ok _) =
    (record { store = s; token_file = published }, rotated token)
finish_rotation restored old token published (s, err e) =
    roll_back restored old e (record { store = s; token_file = published })

-- `TokenFileConsistent` at a path and a hash that are not empty.
unfoldable pub token_file_consistent : (Text → Text) → Option Text → Text → Bool
token_file_consistent hash none sha = false
token_file_consistent hash (some content) sha = text_eq (hash (trim_space content)) sha

module _ (forms : Forms) (hash : Text → Text) where
  -- `RotateAdminToken` with a token file, for a token that was generated. A file that does not exist
  -- reads without an error.
  unfoldable pub rotate_admin_token : Outcomes → Text → World → World × RotateResult
  unfolding roll_back update_locked
  rotate_admin_token out token w = elim out.readable [
    | false ↦ (w, read_failed)
    | true ↦ elim out.token_written [
      | false ↦ (w, write_failed)
      | true ↦
          finish_rotation out.restored w.token_file token (some (file_text token))
            (update_locked forms out.saved (set_admin_sha (hash token)) w.store)
    ]
  ]

  unfoldable pub rotate_monitor_token : Bool → Text → Store → Store × Result Config
  unfolding update_locked
  rotate_monitor_token saved token s = update_locked forms saved (set_monitor_sha (hash token)) s

  unfoldable pub revoke_monitor_token : Bool → Store → Store × Result Config
  unfolding update_locked
  revoke_monitor_token saved s = update_locked forms saved (set_monitor_sha []) s
