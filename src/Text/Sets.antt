-- ===== src/Text/Sets.antt =====
-- A Go `map[string]struct{}` that is collected into a slice and sorted with `sort.Strings`.
use go_nftables_portbridge.Prelude.{Bool, true, false, List, [], ◌∷◌, ◌++◌, if◌then◌else◌}
use go_nftables_portbridge.Text.{Text, text_eq, text_ltb}

unfoldable pub has_key : Text → List Text → Bool
has_key k [] = false
has_key k (j ∷ ks) = if text_eq j k then true else has_key k ks

-- `set[k] = struct{}{}`
unfoldable pub add_key : Text → List Text → List Text
unfolding has_key
add_key k ks = if has_key k ks then ks else ks ++ k ∷ []

unfoldable pub insert_sorted : Text → List Text → List Text
insert_sorted k [] = k ∷ []
insert_sorted k (j ∷ ks) = if text_ltb j k then j ∷ insert_sorted k ks else k ∷ j ∷ ks

unfoldable pub sort_texts : List Text → List Text
unfolding insert_sorted
sort_texts [] = []
sort_texts (k ∷ ks) = insert_sorted k (sort_texts ks)
