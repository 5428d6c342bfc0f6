-- ===== src/Web/Changes.antt =====
-- `ruleChanges` of internal/web/rule_batch.go: what a new set of rules changes. `encode` is the JSON
-- text of a rule.
pub mod Partition
use go_nftables_portbridge.Prelude.{
  suc, ◌+◌, ◌≡◌, refl, sym, ◌∙◌, ap, Bool, true, false, ◌&&◌, ◌||◌, not, List, [], ◌∷◌, Option,
  none, some, arith, length, if◌then◌else◌, Bool-cases, inl, inr,
}
use go_nftables_portbridge.Text.{Text, text_eq, text_eq_iff}
use go_nftables_portbridge.Text.Sets.{has_key, sort_texts, insert_sorted}
use go_nftables_portbridge.Text.Maps.{find_text, put_text}
use go_nftables_portbridge.Config.{Rule}

pub record Changes : Type 0 where
  pub added : List Text
  pub updated : List Text
  pub removed : List Text
  pub unchanged : List Text

abbrev pub ids_of : List Rule → List Text
ids_of [] = []
ids_of (r ∷ rules) = r.id ∷ ids_of rules

-- `old[rule.ID] = rule` for each rule in turn.
abbrev index_rules : List Rule → List (Text × Rule) → List (Text × Rule)
index_rules [] m = m
index_rules (r ∷ rules) m = index_rules rules (put_text r.id r m)

abbrev pub is_some : Option Rule → Bool
is_some none = false
is_some (some r) = true

module _ (encode : Rule → Text) where
  abbrev pub place : Rule → Option Rule → Changes → Changes
  place r none c = record c { added = r.id ∷ c.added }
  place r (some previous) c =
      if text_eq (encode previous) (encode r)
      then record c { unchanged = r.id ∷ c.unchanged }
      else record c { updated = r.id ∷ c.updated }

  -- The loop over the new rules, on the old ones by identifier.
  abbrev compare_rules : List (Text × Rule) → List Rule → Changes
  compare_rules old [] = record { added = []; updated = []; removed = []; unchanged = [] }
  compare_rules old (r ∷ after) = place r (find_text r.id old) (compare_rules old after)

  -- The loop over the old rules, on the new ones by identifier.
  abbrev removed_rules : List (Text × Rule) → List Rule → List Text
  removed_rules next [] = []
  removed_rules next (r ∷ before) =
      if is_some (find_text r.id next)
      then removed_rules next before
      else r.id ∷ removed_rules next before

  unfoldable pub rule_changes : List Rule → List Rule → Changes
  unfolding sort_texts
  rule_changes before after =
      let c = compare_rules (index_rules before []) after in
      record {
        added = sort_texts c.added;
        updated = sort_texts c.updated;
        removed = sort_texts (removed_rules (index_rules after []) before);
        unchanged = sort_texts c.unchanged;
      }
