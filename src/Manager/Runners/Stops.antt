-- ===== src/Manager/Runners/Stops.antt =====
-- The loops of `reconcileRunners` of internal/proxy/manager.go that stop runners, and what the loop
-- that starts them leaves stopped.
use go_nftables_portbridge.Prelude.{
  ◌≡◌, refl, Bool, true, false, List, [], ◌∷◌, Option, none, some, if◌then◌else◌, ◌∙◌, sym, ap,
  Bool-cases, inl, inr,
}
use go_nftables_portbridge.Text.{Text, text_eq, text_eq_sound}
use go_nftables_portbridge.Text.Maps.{find_text}
use go_nftables_portbridge.Text.Finds.{find-put_other}
use go_nftables_portbridge.Plan.{GoPath}
use go_nftables_portbridge.Nft.Keys.{KernelForms}
use go_nftables_portbridge.Manager.Runners.{
  Runner, ManagerIo, Started, is_blocked, blocked_paths, stop_where, start_path, start_paths,
  attempt, unless_running,
}

module _ (k : KernelForms) (io : ManagerIo) where
  open io use {World}

  pub stop_where-find :
      (f : Text → Bool) (key : Text) (runners : List (Text × Runner)) (w : World)
      → find_text key (stop_where k io f runners w).0
        ≡ (if f key then none else find_text key runners)
  stop_where-find f key [] w = nothing (f key)
    where
      nothing : (b : Bool) → ◌≡◌ {A = Option Runner} none (if b then none else none)
      nothing true = refl
      nothing false = refl
  stop_where-find f key ((j, r) ∷ runners) w =
      cases (f j) refl (stop_where-find f key runners (io.stop r w))
        (stop_where-find f key runners w)
    where
      moved : text_eq j key ≡ true → f j ≡ f key
      moved e = ap f (text_eq_sound j key e)

      skip :
          (b : Bool)
          → text_eq j key ≡ b
          → f j ≡ true
          → (if f key then none else find_text key runners)
            ≡ (if f key then none else if b then some r else find_text key runners)
      skip true e h = rw (sym (moved e) ∙ h) refl
      skip false e h = refl

      keep :
          (b c : Bool)
          → text_eq j key ≡ b
          → f j ≡ false
          → f key ≡ c
          → (if b then some r else if c then none else find_text key runners)
            ≡ (if c then none else if b then some r else find_text key runners)
      keep true true e h g = absurd (clash (moved e))
        where
          clash : f j ≡ f key → ⊥
          clash m = cc
      keep true false e h g = refl
      keep false c e h g = refl

      cases :
          (b : Bool)
          → f j ≡ b
          → find_text key (stop_where k io f runners (io.stop r w)).0
            ≡ (if f key then none else find_text key runners)
          → find_text key (stop_where k io f runners w).0
            ≡ (if f key then none else find_text key runners)
          → find_text key
              (elim b as (λ _. List (Text × Runner) × World) [
                | true ↦ stop_where k io f runners (io.stop r w)
                | false ↦
                    ((j, r) ∷ (stop_where k io f runners w).0, (stop_where k io f runners w).1)
              ]).0
            ≡ (if f key then none else find_text key ((j, r) ∷ runners))
      cases true stops one other = one ∙ skip (text_eq j key) refl stops
      cases false stays one other =
          ap (λ o. if text_eq j key then some r else o) other
          ∙ keep (text_eq j key) (f key) refl stays refl

  module _ (blocks : GoPath → Bool) where
    pub blocked-find :
        (key : Text) (paths : List (Text × GoPath)) (path : GoPath)
        → find_text key paths ≡ some path
        → is_blocked k io (blocked_paths k io blocks paths) key ≡ blocks path
    blocked-find key [] path h = absurd cc
    blocked-find key ((j, p) ∷ paths) path h = elim (Bool-cases (text_eq j key)) [
      | inl same ↦ rw (is_blocked, same) (ap blocks (found p path (rw same at h)))
      | inr other ↦ rw (is_blocked, other) (blocked-find key paths path (rw other at h))
    ]
      where
        found : (p q : GoPath) → ◌≡◌ {A = Option GoPath} (some p) (some q) → p ≡ q
        found p q e = cc

  -- A path that is blocked has no runner.
  abbrev pub NoneBlocked : List (Text × Bool) → List (Text × Runner) → Type 0
  NoneBlocked blocked runners =
      (key : Text) → is_blocked k io blocked key ≡ true → find_text key runners ≡ none

  start_path-NoneBlocked :
      (blocked : List (Text × Bool)) (key : Text) (path : GoPath) (st : Started k io)
      → NoneBlocked blocked st.runners
      → NoneBlocked blocked (start_path k io blocked key path st).runners
  unfolding start_path
  start_path-NoneBlocked blocked key path st h =
      unless_running-NoneBlocked (find_text key st.runners) (is_blocked k io blocked key) refl
    where
      attempt-NoneBlocked :
          (s : World × Bool)
          → is_blocked k io blocked key ≡ false
          → NoneBlocked blocked (attempt k io key path st s).runners
      attempt-NoneBlocked (w, true) free l blocks = elim (Bool-cases (text_eq key l)) [
        | inl same ↦ absurd (clash (ap (is_blocked k io blocked) (text_eq_sound key l same)))
        | inr other ↦ find-put_other key l _ st.runners other ∙ h l blocks
      ]
        where
          clash : is_blocked k io blocked key ≡ is_blocked k io blocked l → ⊥
          clash e = cc
      attempt-NoneBlocked (w, false) free l blocks = h l blocks

      unless_running-NoneBlocked :
          (o : Option Runner) (b : Bool)
          → is_blocked k io blocked key ≡ b
          → NoneBlocked blocked (unless_running k io o b key path st).runners
      unless_running-NoneBlocked (some r) b e = h
      unless_running-NoneBlocked none true e = h
      unless_running-NoneBlocked none false e = attempt-NoneBlocked (io.start path.rule st.world) e

  pub start_paths-NoneBlocked :
      (blocked : List (Text × Bool)) (paths : List (Text × GoPath)) (st : Started k io)
      → NoneBlocked blocked st.runners
      → NoneBlocked blocked (start_paths k io blocked paths st).runners
  unfolding start_paths
  start_paths-NoneBlocked blocked [] st h = h
  start_paths-NoneBlocked blocked ((key, path) ∷ paths) st h =
      start_paths-NoneBlocked blocked paths (start_path k io blocked key path st)
        (start_path-NoneBlocked blocked key path st h)
