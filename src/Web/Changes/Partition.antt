-- ===== src/Web/Changes/Partition.antt =====
-- The four lists of `ruleChanges` in internal/web/rule_batch.go.
use go_nftables_portbridge.Prelude.{
  suc, ◌+◌, ◌≡◌, refl, sym, ◌∙◌, ap, Bool, true, ◌&&◌, ◌||◌, not, List, [], ◌∷◌, Option, none, some,
  arith, length, Bool-cases, inl, inr,
}
use go_nftables_portbridge.Text.{Text, text_eq, text_eq_iff}
use go_nftables_portbridge.Text.Sets.{has_key, sort_texts, insert_sorted}
use go_nftables_portbridge.Text.Maps.{find_text, put_text}
use go_nftables_portbridge.Config.{Rule}
use go_nftables_portbridge.Web.Changes.{
  Changes, ids_of, index_rules, is_some, place, compare_rules, removed_rules, rule_changes,
}

insert-key :
    (k j : Text) (ks : List Text) → has_key k (insert_sorted j ks) ≡ (text_eq j k || has_key k ks)
unfolding has_key insert_sorted
insert-key k j [] = ground arith
insert-key k j (i ∷ ks) = ground (arith, insert-key k j ks)

sort-key : (k : Text) (ks : List Text) → has_key k (sort_texts ks) ≡ has_key k ks
unfolding has_key sort_texts
sort-key k [] = refl
sort-key k (j ∷ ks) = insert-key k j (sort_texts ks) ∙ ground (arith, sort-key k ks)

put-found :
    (k j : Text) (r : Rule) (m : List (Text × Rule))
    → is_some (find_text k (put_text j r m)) ≡ (text_eq j k || is_some (find_text k m))
put-found k j r [] = ground arith
put-found k j r ((i, q) ∷ m) =
    ground (arith, put-found k j r m, text_eq_iff i j, text_eq_iff i k, text_eq_iff j k)

index-found :
    (k : Text) (rules : List Rule) (m : List (Text × Rule))
    → is_some (find_text k (index_rules rules m))
      ≡ (has_key k (ids_of rules) || is_some (find_text k m))
unfolding has_key
index-found k [] m = refl
index-found k (r ∷ rules) m =
    index-found k rules (put_text r.id r m) ∙ ground (arith, put-found k r.id r m)

sort-length : (ks : List Text) → length (sort_texts ks) ≡ length ks
unfolding sort_texts insert_sorted
sort-length [] = refl
sort-length (k ∷ ks) = insert-length k (sort_texts ks) ∙ ground (arith, sort-length ks)
  where
    insert-length : (k : Text) (ks : List Text) → length (insert_sorted k ks) ≡ length ks + 1
    insert-length k [] = refl
    insert-length k (j ∷ ks) = ground (arith, insert-length k ks)

module _ (encode : Rule → Text) where
  -- Where the identifiers of the new rules go.
  pub record Placed (k : Text) (old : Bool) (after : List Text) (c : Changes) : Type 0 where
    pub in_added : has_key k c.added ≡ (has_key k after && not old)
    pub in_kept : (has_key k c.updated || has_key k c.unchanged) ≡ (has_key k after && old)

  found_at :
      (k : Text) (old : List (Text × Rule)) (r : Rule) (o : Option Rule)
      → find_text r.id old ≡ o
      → text_eq r.id k ≡ true
      → is_some (find_text k old) ≡ is_some o
  found_at k old r o e same =
      ap (λ (x : Text). is_some (find_text x old)) (sym ((text_eq_iff r.id k).0 same))
      ∙ ap is_some e

  place-Placed :
      (k : Text) (old : List (Text × Rule)) (r : Rule) (after : List Text) (o : Option Rule)
      (c : Changes)
      → find_text r.id old ≡ o
      → Placed k (is_some (find_text k old)) after c
      → Placed k (is_some (find_text k old)) (r.id ∷ after) (place encode r o c)
  unfolding has_key
  place-Placed k old r after none c e p =
      let known = found_at k old r none e in
      record {
        in_added = ground (arith, p.in_added, known);
        in_kept = ground (arith, p.in_kept, known);
      }
  place-Placed k old r after (some q) c e p =
      let known = found_at k old r (some q) e in
      elim (Bool-cases (text_eq (encode q) (encode r))) [
        | inl same ↦ rw same (record {
          in_added = ground (arith, p.in_added, known);
          in_kept = ground (arith, p.in_kept, known);
        })
        | inr other ↦ rw other (record {
          in_added = ground (arith, p.in_added, known);
          in_kept = ground (arith, p.in_kept, known);
        })
      ]

  compare-Placed :
      (k : Text) (old : List (Text × Rule)) (after : List Rule)
      → Placed k (is_some (find_text k old)) (ids_of after) (compare_rules encode old after)
  unfolding has_key
  compare-Placed k old [] = record { in_added = refl; in_kept = refl }
  compare-Placed k old (r ∷ after) =
      place-Placed k old r (ids_of after) (find_text r.id old) (compare_rules encode old after) refl
        (compare-Placed k old after)

  compare-length :
      (old : List (Text × Rule)) (after : List Rule)
      → let c = compare_rules encode old after in
        length c.added + length c.updated + length c.unchanged ≡ length after
  compare-length old [] = refl
  compare-length old (r ∷ after) =
      placed (find_text r.id old) (compare_rules encode old after) (compare-length old after)
    where
      placed :
          (o : Option Rule) (c : Changes)
          → length c.added + length c.updated + length c.unchanged ≡ length after
          → let d = place encode r o c in
            length d.added + length d.updated + length d.unchanged ≡ suc (length after)
      placed none c h = omega (arith, h)
      placed (some q) c h = elim (Bool-cases (text_eq (encode q) (encode r))) [
        | inl same ↦ rw same (omega (arith, h))
        | inr other ↦ rw other (omega (arith, h))
      ]

  removed-key :
      (k : Text) (next : List (Text × Rule)) (before : List Rule)
      → has_key k (removed_rules encode next before)
        ≡ (has_key k (ids_of before) && not (is_some (find_text k next)))
  unfolding has_key
  removed-key k next [] = refl
  removed-key k next (r ∷ before) =
      let known = found_at k next r (find_text r.id next) refl in
      elim (Bool-cases (is_some (find_text r.id next))) [
        | inl there ↦ rw there (ground (arith, removed-key k next before, known, there))
        | inr gone ↦ rw gone (ground (arith, removed-key k next before, known, gone))
      ]

  -- What the four lists say: an identifier is added, removed, or in one of the other two lists as it is
  -- in the new rules only, the old rules only, or both; and each new rule is counted once.
  pub record Sorted (k : Text) (before after : List Rule) (c : Changes) : Type 0 where
    pub added_key :
        has_key k c.added ≡ (has_key k (ids_of after) && not (has_key k (ids_of before)))
    pub removed_key :
        has_key k c.removed ≡ (has_key k (ids_of before) && not (has_key k (ids_of after)))
    pub kept_key :
        (has_key k c.updated || has_key k c.unchanged)
        ≡ (has_key k (ids_of after) && has_key k (ids_of before))
    pub counted : length c.added + length c.updated + length c.unchanged ≡ length after

  -- `ruleChanges` lists an identifier as added exactly when only the new rules have it, as removed
  -- exactly when only the old ones have it, and as updated or unchanged exactly when both have it; every
  -- new rule is listed once as added, updated or unchanged.
  pub rule_changes-Sorted :
      (k : Text) (before after : List Rule)
      → Sorted k before after (rule_changes encode before after)
  unfolding rule_changes
  rule_changes-Sorted k before after =
      let old = index_rules before [] in
      let c = compare_rules encode old after in
      let in_old : is_some (find_text k old) ≡ has_key k (ids_of before) =
        index-found k before [] ∙ ground arith in
      let in_new : is_some (find_text k (index_rules after [])) ≡ has_key k (ids_of after) =
        index-found k after [] ∙ ground arith in
      let placed = compare-Placed k old after in
      record {
        added_key =
            sort-key k c.added
            ∙ placed.in_added
            ∙ ap (λ (b : Bool). has_key k (ids_of after) && not b) in_old;
        removed_key =
            sort-key k (removed_rules encode (index_rules after []) before)
            ∙ removed-key k (index_rules after []) before
            ∙ ap (λ (b : Bool). has_key k (ids_of before) && not b) in_new;
        kept_key =
            ap (λ (b : Bool). b || has_key k (sort_texts c.unchanged)) (sort-key k c.updated)
            ∙ ap (λ (b : Bool). has_key k c.updated || b) (sort-key k c.unchanged)
            ∙ placed.in_kept
            ∙ ap (λ (b : Bool). has_key k (ids_of after) && b) in_old;
        counted = omega (
          arith,
          compare-length old after,
          sort-length c.added,
          sort-length c.updated,
          sort-length c.unchanged,
        );
      }
