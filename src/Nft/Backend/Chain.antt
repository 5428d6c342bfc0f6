-- ===== src/Nft/Backend/Chain.antt =====
-- Steps of the nftables backend of internal/proxy that read and write its state and the kernel's, and
-- that may fail; what a chain of them establishes if it
-- succeeds.
use go_nftables_portbridge.Prelude.{
  ◌≡◌, refl, Bool, true, false, Option, none, some, if◌then◌else◌, ap, subst,
}
use go_nftables_portbridge.Nft.Backend.{Backend, BackendError, Fallible, failed, done}

-- The backend and the world outside it.
abbrev pub State : Type 0 → Type 0
State W = Backend × W

abbrev pub M : Type 0 → Type 0 → Type 0
M W A = State W → State W × Fallible A

abbrev pub and_then : {W A B : Type 0} → (A → M W B) → State W × Fallible A → State W × Fallible B
and_then f (s, failed e) = (s, failed e)
and_then f (s, done a) = f a s

infixl 5 ◌>>=◌ ◌>>◌
unfoldable pub ◌>>=◌ : {W A B : Type 0} → M W A → (A → M W B) → M W B
◌>>=◌ m f s = and_then f (m s)

unfoldable pub ◌>>◌ : {W B : Type 0} → M W (Unit {0}) → M W B → M W B
unfolding ◌>>=◌
m >> n = m >>= λ _. n

unfoldable pub pure : {W A : Type 0} → A → M W A
pure a s = (s, done a)

unfoldable pub fail : {W A : Type 0} → BackendError → M W A
fail e s = (s, failed e)

unfoldable pub get : {W : Type 0} → M W Backend
get s = (s, done s.0)

unfoldable pub set : {W : Type 0} → (Backend → Backend) → M W (Unit {0})
set f s = ((f s.0, s.1), done tt)

unfoldable pub reject_if : {W : Type 0} → Bool → BackendError → M W (Unit {0})
unfolding pure fail
reject_if true e = fail e
reject_if false e = pure tt

-- A call of the kernel or of the recovery file.
unfoldable pub call : {W A : Type 0} → (W → W × A) → M W A
call f s = ((s.0, (f s.1).0), done (f s.1).1)

unfoldable pub or_fail : {W A : Type 0} → BackendError → Option A → M W A
unfolding pure fail
or_fail e none = fail e
or_fail e (some a) = pure a

-- What holds after a step that succeeds.
pub record Gives {W A : Type 0} (m : M W A) (P : State W → A → Type 0) (s : State W) : Type 0 where
  pub result : (s' : State W) (a : A) → m s ≡ (s', done a) → P s' a

module _ {W A B : Type 0} (P : State W → B → Type 0) where
  bind-Gives :
      (m : M W A) (f : A → M W B) (s : State W)
      → ((s' : State W) (a : A) → m s ≡ (s', done a) → Gives (f a) P s')
      → Gives (m >>= f) P s
  unfolding ◌>>=◌
  bind-Gives m f s h = record { result = λ s' b e. go s' b (m s) refl e }
    where
      go :
          (s' : State W) (b : B) (r : State W × Fallible A)
          → m s ≡ r
          → and_then f r ≡ (s', done b)
          → P s' b
      go s' b (t, failed x) eq e' = absurd (not_done s' b t x e')
        where
          not_done :
              (s' : State W) (b : B) (t : State W) (x : BackendError)
              → ◌≡◌ {A = State W × Fallible B} (t, failed x) (s', done b)
              → ⊥
          not_done s' b t x e' = cc
      go s' b (t, done a) eq e' = (h t a eq).result s' b e'

module _ {W B : Type 0} (P : State W → B → Type 0) where
  pub then-Gives :
      (m : M W (Unit {0})) (n : M W B) (s : State W)
      → ((s' : State W) (u : Unit {0}) → m s ≡ (s', done u) → Gives n P s')
      → Gives (m >> n) P s
  unfolding ◌>>◌
  then-Gives m n s h = bind-Gives P m (λ _. n) s h

module _ {W A : Type 0} (P : State W → A → Type 0) where
  pub if-Gives :
      (t : Bool) (m n : M W A) (s : State W)
      → (t ≡ true → Gives m P s)
      → (t ≡ false → Gives n P s)
      → Gives (if t then m else n) P s
  if-Gives true m n s h g = h refl
  if-Gives false m n s h g = g refl

  pub pure-Gives : (a : A) (s : State W) → P s a → Gives (pure a) P s
  unfolding pure
  pure-Gives a s p = record {
    result = λ s' b e.
        let e1 : s ≡ s' = ap (λ r. r.0) e in
        let e2 : ◌≡◌ {A = Fallible A} (done a) (done b) = ap (λ r. r.1) e in
        let e3 : a ≡ b = cc in subst (λ (t : State W). P t b) e1 (subst (P s) e3 p);
  }

pub Gives-mono :
    {W A : Type 0} {m : M W A} {P Q : State W → A → Type 0} {s : State W}
    → Gives m P s
    → ((s' : State W) (a : A) → P s' a → Q s' a)
    → Gives m Q s
Gives-mono g h = record { result = λ s' a e. h s' a (g.result s' a e) }

never :
    {W A : Type 0} (s t : State W) (e : BackendError) (a : A)
    → ◌≡◌ {A = State W × Fallible A} (s, failed e) (t, done a)
    → ⊥
never s t e a h = cc

-- A chain that begins with a given step, from what the rest of it establishes.
module _ {W A B : Type 0} (P : State W → B → Type 0) where
  pub call-Gives :
      (f : W → W × A) (n : A → M W B) (s : State W)
      → ((w : W) (a : A) → f s.1 ≡ (w, a) → Gives (n a) P (s.0, w))
      → Gives (call f >>= n) P s
  unfolding call ◌>>=◌
  call-Gives f n s h = record { result = λ s' b e. (h (f s.1).0 (f s.1).1 refl).result s' b e }

  pub or_fail-Gives :
      (x : BackendError) (o : Option A) (n : A → M W B) (s : State W)
      → ((a : A) → o ≡ some a → Gives (n a) P s)
      → Gives (or_fail x o >>= n) P s
  unfolding or_fail ◌>>=◌
  or_fail-Gives x none n s h = record { result = λ s' b e. absurd (never s s' x b e) }
  or_fail-Gives x (some a) n s h = record { result = λ s' b e. (h a refl).result s' b e }

  pub via-Gives :
      (Q : State W → A → Type 0) (m : M W A) (n : A → M W B) (s : State W)
      → Gives m Q s
      → ((s' : State W) (a : A) → Q s' a → Gives (n a) P s')
      → Gives (m >>= n) P s
  via-Gives Q m n s g h = bind-Gives P m n s (λ s' a e. h s' a (g.result s' a e))

module _ {W B : Type 0} (P : State W → B → Type 0) where
  pub get-Gives : (n : Backend → M W B) (s : State W) → Gives (n s.0) P s → Gives (get >>= n) P s
  unfolding get ◌>>=◌
  get-Gives n s h = record { result = λ s' b e. h.result s' b e }

  pub set-Gives :
      (f : Backend → Backend) (n : M W B) (s : State W)
      → Gives n P (f s.0, s.1)
      → Gives (set f >> n) P s
  unfolding set ◌>>◌
  set-Gives f n s h = record { result = λ s' b e. h.result s' b e }

  pub reject-Gives :
      (t : Bool) (x : BackendError) (n : M W B) (s : State W)
      → (t ≡ false → Gives n P s)
      → Gives (reject_if t x >> n) P s
  unfolding reject_if ◌>>◌
  reject-Gives true x n s h = record { result = λ s' b e. absurd (never s s' x b e) }
  reject-Gives false x n s h = record { result = λ s' b e. (h refl).result s' b e }

  pub fail-Gives :
      (f : Backend → Backend) (x : BackendError) (s : State W) → Gives (set f >> fail x) P s
  unfolding set ◌>>◌ fail
  fail-Gives f x s = record { result = λ s' b e. absurd (never _ s' x b e) }

  pub guard-Gives :
      (t : Bool) (f : Backend → Backend) (x : BackendError) (n : M W B) (s : State W)
      → (t ≡ true → Gives n P s)
      → Gives ((if t then pure tt else (set f >> fail x)) >> n) P s
  unfolding set ◌>>◌ fail pure
  guard-Gives true f x n s h = record { result = λ s' b e. (h refl).result s' b e }
  guard-Gives false f x n s h = record { result = λ s' b e. absurd (never _ s' x b e) }

  pub then_via-Gives :
      (Q : State W → Unit {0} → Type 0) (m : M W (Unit {0})) (n : M W B) (s : State W)
      → Gives m Q s
      → ((s' : State W) (u : Unit {0}) → Q s' u → Gives n P s')
      → Gives (m >> n) P s
  then_via-Gives Q m n s g h = then-Gives P m n s (λ s' u e. h s' u (g.result s' u e))
