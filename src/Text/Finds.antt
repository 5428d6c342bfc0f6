-- ===== src/Text/Finds.antt =====
-- What a Go map with string keys hands out after a key has been set.
use go_nftables_portbridge.Prelude.{
  ◌≡◌, refl, Bool, true, false, ◌||◌, List, [], ◌∷◌, Option, none, some, if◌then◌else◌, Bool-cases,
  inl, inr,
}
use go_nftables_portbridge.Text.{Text, text_eq, text_eq_sound, text_eq_refl}
use go_nftables_portbridge.Text.Maps.{find_text, put_text}

abbrev pub is_some {ℓ} : {A : Type ℓ} → Option A → Bool
is_some none = false
is_some (some a) = true

module _ {V : Type 0} where
  pub find-put : (k : Text) (v : V) (m : List (Text × V)) → find_text k (put_text k v m) ≡ some v
  find-put k v [] = rw (text_eq_refl k) refl
  find-put k v ((j, w) ∷ m) = elim (Bool-cases (text_eq j k)) [
    | inl same ↦ rw (same, text_eq_refl k) refl
    | inr other ↦ rw (other, other) (find-put k v m)
  ]

  pub find-put_other :
      (k l : Text) (v : V) (m : List (Text × V))
      → text_eq k l ≡ false
      → find_text l (put_text k v m) ≡ find_text l m
  find-put_other k l v [] h = rw h refl
  find-put_other k l v ((j, w) ∷ m) h = elim (Bool-cases (text_eq j k)) [
    | inl same ↦
        let e : j ≡ k = text_eq_sound j k same in
        let away : text_eq j l ≡ false = rw e h in rw (same, h, away) refl
    | inr other ↦ rw other (again (text_eq j l) (find-put_other k l v m h))
  ]
    where
      again :
          (b : Bool) {x y : Option V}
          → x ≡ y
          → (if b then some w else x) ≡ (if b then some w else y)
      again b e = rw e refl

  abbrev pub has_text : Text → List (Text × V) → Bool
  has_text k m = is_some (find_text k m)

  pub has-put :
      (k l : Text) (v : V) (m : List (Text × V))
      → has_text l (put_text k v m) ≡ (text_eq k l || has_text l m)
  has-put k l v m = elim (Bool-cases (text_eq k l)) [
    | inl same ↦
        let e : k ≡ l = text_eq_sound k l same in
        let there : has_text k (put_text k v m) ≡ true = rw (find-put k v m) refl in
        rw same (rw (← e) there)
    | inr other ↦ rw (find-put_other k l v m other, other) refl
  ]
