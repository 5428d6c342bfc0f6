-- ===== src/Nft/Backend/Carried.antt =====
-- The intent of `replaceObjects` of internal/proxy/nft.go and what is carried out after it.
use go_nftables_portbridge.Prelude.{
  ◌≡◌, refl, Bool, true, false, not, ◌⊎◌, inl, inr, sym, ◌∙◌, if◌then◌else◌, arith, subst,
}
use go_nftables_portbridge.Nft.Keys.{KernelForms}
use go_nftables_portbridge.Nft.Backend.{BackendIo, Fallible, Observed}
use go_nftables_portbridge.Nft.Backend.Chain.{
  State, ◌>>=◌, ◌>>◌, pure, fail, call, or_fail, set, reject_if, get, Gives, Gives-mono, if-Gives,
  pure-Gives, call-Gives, via-Gives, get-Gives,
}
use go_nftables_portbridge.Nft.Backend.Install.{
  Goal, carry_out, with_intent, without_intent, remove_all, install, nothing_to_install,
  topology_for, confirmed_of, target_of,
}
use go_nftables_portbridge.Nft.Backend.Written.{LastRead, then_prepared, IsInstalled}
use go_nftables_portbridge.Nft.Backend.Applied.{KeyFits, install-Gives, install-intact}
use go_nftables_portbridge.Nft.Backend.Emptied.{remove_all-Gives, remove_all-intact}

module _ (k : KernelForms) (io : BackendIo) where
  abbrev W : Type 0
  W = io.conntrack.World

  without_intent-Gives :
      (g : Goal) (s : State W) → Gives (without_intent k io g) (λ s' g'. g'.intent_lost ≡ true) s
  unfolding without_intent topology_for ◌>>=◌ ◌>>◌ pure fail get set call reject_if or_fail
  without_intent-Gives g (b, w) = record { result = λ s' a e. ground arith }

  -- The goal as it was, with the last reading still the last; or another one, with its intent lost.
  with_intent-Gives :
      (g : Goal) (s : State W) (o : Observed io.Objects)
      → LastRead k io o s.1
      → Gives
          (with_intent k io g)
          (λ s' g'. ((g' ≡ g) × (s'.0 ≡ s.0) × LastRead k io o s'.1) ⊎ (g'.intent_lost ≡ true))
          s
  unfolding with_intent
  with_intent-Gives g s o read = get-Gives P _ s (
      if-Gives P (not s.0.disk_session) (pure g) _ s
        (λ none_open. pure-Gives P g s (inl (refl, refl, read)))
        λ open_file.
          call-Gives P (io.prepare (confirmed_of k io s.0) (target_of k io g)) _ s
            λ w written e. written_or_not w written e)
    where
      P : State W → Goal → Type 0
      P s' g' = ((g' ≡ g) × (s'.0 ≡ s.0) × LastRead k io o s'.1) ⊎ (g'.intent_lost ≡ true)

      written_or_not :
          (w : W) (written : Bool)
          → io.prepare (confirmed_of k io s.0) (target_of k io g) s.1 ≡ (w, written)
          → Gives (if written then pure g else without_intent k io g) P (s.0, w)
      written_or_not w true e =
          pure-Gives P g (s.0, w)
            (inl (
              refl,
              refl,
              then_prepared (confirmed_of k io s.0) (target_of k io g) s.1 w true e read,
            ))
      written_or_not w false e =
          Gives-mono (without_intent-Gives g (s.0, w)) (λ s' g' lost. inr lost)

  -- What a success means for a goal.
  abbrev pub Reached : Goal → State W → Unit {0} → Type 0
  Reached g s' u = IsInstalled k io g.specs g.retired g.suspended g.keep_flowtable s'

  clash : (g : Goal) → g.intent_lost ≡ true → g.intent_lost ≡ false → ⊥
  clash g a b = let wrong : true ≡ false = sym a ∙ b in ground arith

  pub carry_out-Gives :
      (goal : Goal) (exists : Bool) (s : State W) (o : Observed io.Objects)
      → goal.intent_lost ≡ false
      → KeyFits k io goal s.0
      → o.exists ≡ exists
      → LastRead k io o s.1
      → Gives (carry_out k io goal exists) (Reached goal) s
  unfolding carry_out
  carry_out-Gives goal exists s o kept key e read =
      via-Gives (Reached goal) _ (with_intent k io goal) _ s (with_intent-Gives goal s o read)
        λ s1 g r. elim r [
          | inl (same, unmoved, still) ↦
              subst (λ (x : Goal). Gives (rest x) (Reached goal) s1) (sym same)
                (intact s1 still (subst (KeyFits k io goal) (sym unmoved) key))
          | inr lost ↦ spoilt g lost s1
        ]
    where
      rest : Goal → State W → State W × Fallible (Unit {0})
      rest g = if nothing_to_install g then remove_all k io g exists else install k io g exists

      intact :
          (s1 : State W)
          → LastRead k io o s1.1
          → KeyFits k io goal s1.0
          → Gives (rest goal) (Reached goal) s1
      intact s1 still fits =
          if-Gives (Reached goal) (nothing_to_install goal) (remove_all k io goal exists)
            (install k io goal exists) s1
            (λ empty.
              Gives-mono (remove_all-Gives k io goal exists s1 o empty e still)
                (λ s' u r. inr (inl r.1)))
            (λ filled.
              Gives-mono (install-Gives k io goal exists s1 fits) (λ s' u r. inr (inr r.1)))

      spoilt : (g : Goal) → g.intent_lost ≡ true → (s1 : State W) → Gives (rest g) (Reached goal) s1
      spoilt g lost s1 =
          if-Gives (Reached goal) (nothing_to_install g) (remove_all k io g exists)
            (install k io g exists) s1
            (λ empty. record {
              result = λ s' u e.
                  absurd (clash g lost ((remove_all-intact k io g exists s1).result s' u e));
            })
            (λ filled. record {
              result =
                  λ s' u e. absurd (clash g lost ((install-intact k io g exists s1).result s' u e));
            })
