-- ===== src/Manager/Runners/Grows.antt =====
-- The loop of `reconcileRunners` of internal/proxy/manager.go that starts runners settles each path.
use go_nftables_portbridge.Prelude.{
  ◌≡◌, refl, Bool, true, false, ◌||◌, List, [], ◌∷◌, ◌++◌, Option, none, some, All, if◌then◌else◌,
  arith, ◌∙◌, ap,
}
use go_nftables_portbridge.Text.{Text, text_eq, text_eq_refl}
use go_nftables_portbridge.Text.Maps.{find_text, put_text}
use go_nftables_portbridge.Text.Finds.{is_some, has_text, has-put}
use go_nftables_portbridge.Plan.{GoPath}
use go_nftables_portbridge.Nft.Keys.{KernelForms}
use go_nftables_portbridge.Manager.Runners.{
  Runner, ManagerIo, GoError, Started, is_blocked, start_path, start_paths, attempt, unless_running,
  not_wanted, add_error, awaits_revocation, not_started,
}

module _ (k : KernelForms) (io : ManagerIo) where
  open io use {World}

  -- A path runs, or there is an error for its rule.
  abbrev pub settled_path : Text → GoPath → List (Text × Runner) → List (Text × List GoError) → Bool
  settled_path key path runners errors = has_text key runners || has_text path.rule_id errors

  has-add_error :
      (id l : Text) (e : GoError) (errors : List (Text × List GoError))
      → has_text l (add_error id e errors) ≡ (text_eq id l || has_text l errors)
  has-add_error id l e errors = cases (find_text id errors)
    where
      cases :
          (o : Option (List GoError))
          → has_text l (elim o as (λ _. List (Text × List GoError)) [
            | none ↦ put_text id (e ∷ []) errors
            | some es ↦ put_text id (es ++ e ∷ []) errors
          ])
            ≡ (text_eq id l || has_text l errors)
      cases none = has-put id l (e ∷ []) errors
      cases (some es) = has-put id l (es ++ e ∷ []) errors

  -- The middle loop keeps what runs and what went wrong, and settles its path.
  start_path-grows :
      (blocked : List (Text × Bool)) (key : Text) (path : GoPath) (st : Started k io)
      → ((l : Text)
          → has_text l st.runners ≡ true
          → has_text l (start_path k io blocked key path st).runners ≡ true)
        × ((l : Text)
            → has_text l st.errors ≡ true
            → has_text l (start_path k io blocked key path st).errors ≡ true)
        × (settled_path key path
              (start_path k io blocked key path st).runners
              (start_path k io blocked key path st).errors
            ≡ true)
  unfolding start_path
  start_path-grows blocked key path st =
      running (find_text key st.runners) (is_blocked k io blocked key) refl
    where
      Grows : Started k io → Type 0
      Grows t =
          ((l : Text) → has_text l st.runners ≡ true → has_text l t.runners ≡ true)
          × ((l : Text) → has_text l st.errors ≡ true → has_text l t.errors ≡ true)
          × (settled_path key path t.runners t.errors ≡ true)

      here : (a b : Bool) → a ≡ true → (a || b) ≡ true
      here a b e = ground arith

      there : (a b : Bool) → b ≡ true → (a || b) ≡ true
      there a b e = ground arith

      runs :
          (v : Runner) (l : Text)
          → has_text l st.runners ≡ true
          → has_text l (put_text key v st.runners) ≡ true
      runs v l h = has-put key l v st.runners ∙ there _ _ h

      starts : (v : Runner) → has_text key (put_text key v st.runners) ≡ true
      starts v = has-put key key v st.runners ∙ here _ _ (text_eq_refl key)

      fails :
          (e : GoError) (l : Text)
          → has_text l st.errors ≡ true
          → has_text l (add_error path.rule_id e st.errors) ≡ true
      fails e l h = has-add_error path.rule_id l e st.errors ∙ there _ _ h

      told : (e : GoError) → has_text path.rule_id (add_error path.rule_id e st.errors) ≡ true
      told e =
          has-add_error path.rule_id path.rule_id e st.errors ∙ here _ _ (text_eq_refl path.rule_id)

      tried : (s : World × Bool) → Grows (attempt k io key path st s)
      tried (w, true) = (runs _, (λ l h. h), here _ _ (starts _))
      tried (w, false) = ((λ l h. h), fails not_started, there _ _ (told not_started))

      running :
          (o : Option Runner) (b : Bool)
          → find_text key st.runners ≡ o
          → Grows (unless_running k io o b key path st)
      running (some r) b e = ((λ l h. h), (λ l h. h), here _ _ (ap is_some e))
      running none true e =
          ((λ l h. h), fails awaits_revocation, there _ _ (told awaits_revocation))
      running none false e = tried (io.start path.rule st.world)

  pub start_paths-grows :
      (blocked : List (Text × Bool)) (paths : List (Text × GoPath)) (st : Started k io)
      → ((l : Text)
          → has_text l st.runners ≡ true
          → has_text l (start_paths k io blocked paths st).runners ≡ true)
        × ((l : Text)
            → has_text l st.errors ≡ true
            → has_text l (start_paths k io blocked paths st).errors ≡ true)
        × All
            (λ p.
              settled_path p.0 p.1
                (start_paths k io blocked paths st).runners
                (start_paths k io blocked paths st).errors
              ≡ true)
            paths
  unfolding start_paths
  start_paths-grows blocked [] st = ((λ l h. h), (λ l h. h), tt)
  start_paths-grows blocked ((key, path) ∷ paths) st =
      let one = start_path k io blocked key path st in
      let (runs, fails, settled) = start_path-grows blocked key path st in
      let (runs', fails', all) = start_paths-grows blocked paths one in
      (
        λ l h. runs' l (runs l h),
        λ l h. fails' l (fails l h),
        (
          either (has_text key one.runners) (has_text path.rule_id one.errors) _ _ (runs' key)
              (fails' path.rule_id) settled,
          all,
        ),
      )
    where
      either :
          (a b c d : Bool)
          → (a ≡ true → c ≡ true)
          → (b ≡ true → d ≡ true)
          → (a || b) ≡ true
          → (c || d) ≡ true
      either true b c d f g h = rw (f refl) refl
      either false true c d f g h = rw (g refl) (or_true c)
        where
          or_true : (c : Bool) → (c || true) ≡ true
          or_true c = ground arith
      either false false c d f g h = absurd cc

  wanted_later :
      (key : Text) (path : GoPath) (paths some_paths : List (Text × GoPath))
      → All (λ p. not_wanted k io paths p.0 ≡ false) some_paths
      → All (λ p. not_wanted k io ((key, path) ∷ paths) p.0 ≡ false) some_paths
  wanted_later key path paths [] h = tt
  wanted_later key path paths (p ∷ rest) (h, g) =
      (here (text_eq key p.0) (find_text p.0 paths) h, wanted_later key path paths rest g)
    where
      here :
          (b : Bool) (o : Option GoPath)
          → (elim o as (λ _. Bool) [ none ↦ true | some q ↦ false ]) ≡ false
          → (elim (if b then some path else o) as (λ _. Bool) [ none ↦ true | some q ↦ false ])
            ≡ false
      here true o h = refl
      here false o h = h

  pub All-wanted :
      (paths : List (Text × GoPath)) → All (λ p. not_wanted k io paths p.0 ≡ false) paths
  All-wanted [] = tt
  All-wanted ((key, path) ∷ paths) =
      (rw (not_wanted, text_eq_refl key) refl, wanted_later key path paths paths (All-wanted paths))
