-- ===== src/Nft/Backend/Emptied.antt =====
-- The removal of the kernel's table in `replaceObjects` of internal/proxy/nft.go: what a success of
-- it says.
use go_nftables_portbridge.Prelude.{
  ◌≡◌, refl, Bool, true, false, not, some, inl, inr, ap, sym, if◌then◌else◌, arith, subst,
}
use go_nftables_portbridge.Nft.Keys.{KernelForms}
use go_nftables_portbridge.Nft.Disk.{empty_snapshot}
use go_nftables_portbridge.Nft.Backend.{
  Backend, BackendIo, clear_applied_state, Observed, delete_table, apply_failed, not_deleted,
}
use go_nftables_portbridge.Nft.Backend.Chain.{
  State, ◌>>=◌, ◌>>◌, pure, fail, call, or_fail, set, reject_if, get, Gives, Gives-mono, pure-Gives,
  call-Gives, via-Gives, set-Gives, reject-Gives, fail-Gives, then_via-Gives,
}
use go_nftables_portbridge.Nft.Backend.Install.{
  Goal, remove_all, confirm, nothing_to_install, observed_again, delete_owned, not_initialized,
}
use go_nftables_portbridge.Nft.Backend.Written.{LastRead, just_read, then_confirmed, Saved, Removed}
use go_nftables_portbridge.Nft.Backend.Applied.{confirm-Gives, observed_again-Gives}

module _ (k : KernelForms) (io : BackendIo) where
  abbrev W : Type 0
  W = io.conntrack.World

  -- The table is read as gone, where it was there after its removal.
  delete_owned-Gives :
      (exists : Bool) (s : State W) (o : Observed io.Objects)
      → o.exists ≡ exists
      → LastRead k io o s.1
      → Gives
          (delete_owned k io exists)
          (λ s' _.
            (s'.0 ≡ s.0) × ((x : Observed io.Objects) × (x.exists ≡ false) × LastRead k io x s'.1))
          s
  unfolding delete_owned
  delete_owned-Gives false s o e read = pure-Gives _ tt s (refl, (o, e, read))
  delete_owned-Gives true s o e read = call-Gives P (io.apply delete_table) _ s λ w ran done_so.
      reject-Gives P (not ran) apply_failed _ (s.0, w)
        λ did.
          via-Gives P _ (observed_again k io) _ (s.0, w) (observed_again-Gives k io (s.0, w))
            λ s1 x (same, again). still_there s1 x w same again x.exists refl
    where
      P : State W → Unit {0} → Type 0
      P s' u =
          (s'.0 ≡ s.0) × ((x : Observed io.Objects) × (x.exists ≡ false) × LastRead k io x s'.1)

      still_there :
          (s1 : State W) (x : Observed io.Objects) (w : W)
          → s1.0 ≡ s.0
          → io.observe w ≡ (s1.1, some x)
          → (b : Bool) → x.exists ≡ b
          → Gives (if b then (set not_initialized >> fail not_deleted) else pure tt) P s1
      still_there s1 x w same again true there = fail-Gives P not_initialized not_deleted s1
      still_there s1 x w same again false there =
          pure-Gives P tt s1 (same, (x, there, just_read w s1.1 again))

  pub remove_all-Gives :
      (g : Goal) (exists : Bool) (s : State W) (o : Observed io.Objects)
      → nothing_to_install g ≡ true
      → o.exists ≡ exists
      → LastRead k io o s.1
      → Gives
          (remove_all k io g exists)
          (λ s' _.
            (g.intent_lost ≡ false)
            × Removed k io g.specs g.retired g.suspended g.keep_flowtable s')
          s
  unfolding remove_all clear_applied_state
  remove_all-Gives g exists s o empty e read =
      then_via-Gives P _ (delete_owned k io exists) _ s (delete_owned-Gives exists s o e read)
        λ s1 u (same, (x, gone, again)). set-Gives P clear_applied_state _ s1 (
          Gives-mono (confirm-Gives k io g empty_snapshot (λ b. b) (clear_applied_state s1.0, s1.1))
            λ s2 v (intact, now, saved). (intact, at_end s1 x gone again s2 now saved))
    where
      P : State W → Unit {0} → Type 0
      P s' u =
          (g.intent_lost ≡ false) × Removed k io g.specs g.retired g.suspended g.keep_flowtable s'

      since :
          (s1 s2 : State W) (x : Observed io.Objects)
          → LastRead k io x s1.1
          → Saved k io empty_snapshot s1.1 s2
          → LastRead k io x s2.1
      since s1 s2 x again (inl (closed, same)) = subst (LastRead k io x) (sym same) again
      since s1 s2 x again (inr written) = then_confirmed empty_snapshot s1.1 s2.1 true written again

      at_end :
          (s1 : State W) (x : Observed io.Objects)
          → x.exists ≡ false
          → LastRead k io x s1.1
          → (s2 : State W) → s2.0 ≡ clear_applied_state s1.0
          → Saved k io empty_snapshot s1.1 s2
          → Removed k io g.specs g.retired g.suspended g.keep_flowtable s2
      at_end s1 x gone again s2 now saved = record {
        nothing = empty;
        reading = x;
        read = since s1 s2 x again saved;
        gone = gone;
        initialized = ap (λ (c : Backend). c.initialized) now;
        holds_none = (
          ap (λ (c : Backend). c.active_specs) now,
          ap (λ (c : Backend). c.pending_specs) now,
          ap (λ (c : Backend). c.suspended_specs) now,
        );
        saved = inr (s1.1, saved);
      }

  pub remove_all-intact :
      (g : Goal) (exists : Bool) (s : State W)
      → Gives (remove_all k io g exists) (λ s' _. g.intent_lost ≡ false) s
  unfolding remove_all delete_owned observed_again confirm clear_applied_state ◌>>=◌ ◌>>◌ pure fail
      get set call reject_if or_fail
  remove_all-intact g exists (b, w) = record { result = λ s' a e. ground arith }
