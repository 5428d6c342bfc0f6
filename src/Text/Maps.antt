-- ===== src/Text/Maps.antt =====
-- A Go map with string keys: an association list in which a key stands once.
use go_nftables_portbridge.Prelude.{List, [], ◌∷◌, Option, none, some, if◌then◌else◌}
use go_nftables_portbridge.Text.{Text, text_eq}

module _ {ℓ} {V : Type ℓ} where
  abbrev pub find_text : Text → List (Text × V) → Option V
  find_text k [] = none
  find_text k ((j, v) ∷ m) = if text_eq j k then some v else find_text k m

  abbrev pub put_text : Text → V → List (Text × V) → List (Text × V)
  put_text k v [] = (k, v) ∷ []
  put_text k v ((j, w) ∷ m) = if text_eq j k then (k, v) ∷ m else (j, w) ∷ put_text k v m
