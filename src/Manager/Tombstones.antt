-- ===== src/Manager/Tombstones.antt =====
-- `nftTombstoneID` of internal/proxy/manager_nft_state.go: the identifier under which the manager
-- shows a kernel path that no rule has any more.
pub mod Enough
use Prim.Native.Nat.{suc, zero}
use go_nftables_portbridge.Prelude.{
  ℕ, ◌+◌, Bool, true, false, ◌&&◌, ◌||◌, not, List, [], ◌∷◌, ◌++◌, Option, none, some, length, ◌==◌,
  if◌then◌else◌,
}
use go_nftables_portbridge.Prelude.Int.{pos}
use go_nftables_portbridge.Text.{Text, text_eq}
use go_nftables_portbridge.Text.Maps.{find_text, put_text}
use go_nftables_portbridge.Text.Finds.{has_text}
use go_nftables_portbridge.Config.{Rule}
use go_nftables_portbridge.Nft.Keys.{KernelForms, dash}

abbrev pub identity_or_empty : Option Text → Text
identity_or_empty none = []
identity_or_empty (some t) = t

-- The identifier can be taken: no desired rule has it, and no rule that is shown but a tombstone of
-- the same identity.
unfoldable pub is_free :
    Text → List (Text × Rule) → List (Text × Rule) → List (Text × Text) → Text → Bool
is_free identity desired rules tombstones id =
    not (has_text id desired)
    && not
        (has_text id rules && not (text_eq (identity_or_empty (find_text id tombstones)) identity))

-- The loop, over as many numbers as it tries.
unfoldable pub first_free : (Text → Bool) → (ℕ → Text) → ℕ → ℕ → Option Text
first_free free id zero i = none
first_free free id (suc m) i = elim (free (id i)) [
  | true ↦ some (id i)
  | false ↦ first_free free id m (i + 1)
]

module _ (k : KernelForms) where
  abbrev pub numbered : Text → ℕ → Text
  numbered base i = if i == 0 then base else base ++ dash ∷ k.format_int (pos i)

  abbrev pub with_tombstone :
      Text → List (Text × Text) → Option Text → Option (Text × List (Text × Text))
  with_tombstone identity tombstones none = none
  with_tombstone identity tombstones (some id) = some (id, put_text id identity tombstones)

  -- `none` is the panic. The tombstones are returned.
  unfoldable pub nft_tombstone_id :
      Text
      → Text
      → List (Text × Rule)
      → List (Text × Rule)
      → List (Text × Text)
      → Option (Text × List (Text × Text))
  unfolding is_free first_free
  nft_tombstone_id base identity desired rules tombstones = with_tombstone identity tombstones (
      first_free (is_free identity desired rules tombstones) (numbered base)
        (length rules + length desired + 1) 0)
