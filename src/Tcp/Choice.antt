-- ===== src/Tcp/Choice.antt =====
-- `dialTCPBackend` of internal/proxy/tcp.go: the targets that it connects to.
use go_nftables_portbridge.Prelude.{
  ℕ, ◌≡◌, refl, Bool, true, false, ◌&&◌, ◌||◌, not, Option, none, some, arith, if◌then◌else◌, ◌⊎◌,
  inl, inr, Bool-cases,
}
use go_nftables_portbridge.Text.{Text, text_eq, is_empty}
use go_nftables_portbridge.Tcp.{TcpTargetState, backup_first, dial_pair, dial_tcp_backend}

-- What a result says of the two targets.
abbrev pub Honest : (ℕ → Text → Bool) → Text → Text → Option (Text × Bool) → Type 0
Honest dial primary backup none = (dial 0 primary ≡ false) ⊎ (dial 0 backup ≡ false)
Honest dial primary backup (some (a, fallback)) =
    ((a ≡ primary) ⊎ (a ≡ backup))
    × ((dial 0 a || dial 1 a) ≡ true)
    × (fallback ≡ (not (is_empty backup) && text_eq a backup))

-- The same of two dials in turn.
abbrev Fair : (ℕ → Text → Bool) → Text → Text → Text → Option (Text × Bool) → Type 0
Fair dial backup first second none = dial 0 first ≡ false
Fair dial backup first second (some (a, fallback)) =
    ((a ≡ first) ⊎ (a ≡ second)) × ((dial 0 a || dial 1 a) ≡ true) × (fallback ≡ text_eq a backup)

dial_pair-Fair :
    (dial : ℕ → Text → Bool) (cancelled : Bool) (backup first second : Text)
    → Fair dial backup first second (dial_pair dial cancelled backup first second)
dial_pair-Fair dial cancelled backup first second = elim (Bool-cases (dial 0 first)) [
  | inl up ↦ rw up (inl refl, (rw up refl), refl)
  | inr down ↦ rw down (second_dial cancelled (dial 1 second) refl down)
]
  where
    second_dial :
        (cancelled up : Bool)
        → dial 1 second ≡ up
        → dial 0 first ≡ false
        → Fair dial backup first second (
            if cancelled then none else (if up then some (second, text_eq second backup) else none))
    second_dial true up e down = down
    second_dial false true e down = (inr refl, ground (arith, e), refl)
    second_dial false false e down = down

-- With a backup given, two dials in either order are honest.
Fair-Honest :
    (dial : ℕ → Text → Bool) (primary backup : Text) (r : Option (Text × Bool))
    → is_empty backup ≡ false
    → Fair dial backup primary backup r ⊎ Fair dial backup backup primary r
    → Honest dial primary backup r
Fair-Honest dial primary backup none given (inl f) = inl f
Fair-Honest dial primary backup none given (inr f) = inr f
Fair-Honest dial primary backup (some (a, fallback)) given (inl (place, up, same)) =
    (place, up, rw given same)
Fair-Honest dial primary backup (some (a, fallback)) given (inr (inl e, up, same)) =
    (inr e, up, rw given same)
Fair-Honest dial primary backup (some (a, fallback)) given (inr (inr e, up, same)) =
    (inl e, up, rw given same)

-- `dialTCPBackend` connects to the primary or the backup target, an address that was dialled with
-- success, and says it is the backup exactly when a backup is given and its address is the backup's;
-- where it fails, the first dial of one of the two has failed.
pub dial_tcp_backend-Honest :
    (dial : ℕ → Text → Bool) (cancelled : Bool) (primary backup : Text)
    (health : Option TcpTargetState)
    → Honest dial primary backup (dial_tcp_backend dial cancelled primary backup health)
unfolding dial_tcp_backend
dial_tcp_backend-Honest dial cancelled primary backup health = elim (Bool-cases (is_empty backup)) [
  | inl alone ↦ elim (Bool-cases (dial 0 primary)) [
    | inl up ↦ rw (alone, up) (inl refl, (rw up refl), (rw alone refl))
    | inr down ↦ rw (alone, down) (inl down)
  ]
  | inr backed ↦ rw backed (either (backup_first health) backed)
]
  where
    either :
        (swap : Bool)
        → is_empty backup ≡ false
        → Honest dial primary backup (
            if swap
            then dial_pair dial cancelled backup backup primary
            else dial_pair dial cancelled backup primary backup)
    either true e =
        Fair-Honest dial primary backup _ e
          (inr (dial_pair-Fair dial cancelled backup backup primary))
    either false e =
        Fair-Honest dial primary backup _ e
          (inl (dial_pair-Fair dial cancelled backup primary backup))

dial_pair_connects :
    (dial : ℕ → Text → Bool) (backup first second : Text)
    → (dial 0 first || dial 1 second) ≡ true
    → (r : Text × Bool) × (dial_pair dial false backup first second ≡ some r)
dial_pair_connects dial backup first second up = elim (Bool-cases (dial 0 first)) [
  | inl at_once ↦ rw at_once ((first, text_eq first backup), refl)
  | inr later ↦
      let then_up : dial 1 second ≡ true = ground (arith, up, later) in
      rw (later, then_up) ((second, text_eq second backup), refl)
]

-- Where the context is not cancelled and each dial of one of the two targets succeeds, with a backup
-- given, a connection is made.
pub dial_tcp_backend_connects :
    (dial : ℕ → Text → Bool) (primary backup : Text) (health : Option TcpTargetState)
    → is_empty backup ≡ false
    → ((dial 0 primary && dial 1 primary) || (dial 0 backup && dial 1 backup)) ≡ true
    → (r : Text × Bool) × (dial_tcp_backend dial false primary backup health ≡ some r)
unfolding dial_tcp_backend
dial_tcp_backend_connects dial primary backup health given up =
    rw given (either (backup_first health))
  where
    either :
        (swap : Bool)
        → (r : Text × Bool) × ((if swap
              then dial_pair dial false backup backup primary
              else dial_pair dial false backup primary backup)
            ≡ some r)
    either true = dial_pair_connects dial backup backup primary (ground (arith, up))
    either false = dial_pair_connects dial backup primary backup (ground (arith, up))
