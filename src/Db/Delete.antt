-- ===== src/Db/Delete.antt =====
-- Deleting from a table over any lawful store, and freeing it.
use sfptpd.Prelude.{
  ℤ, ◌≤◌, length, ◌≡◌, ◌≢◌, refl, ap, ◌∙◌, false, not, none, some, List, [], ◌∷◌, map, ◌>>=◌, arith,
}
use sfptpd.Sorting.Checked.{CheckedSorting}
use sfptpd.Db.Fields.{IsFilterable, passes}
use sfptpd.Db.Store.{StoreOps, IsStore}
use sfptpd.Db.Selection.{Filter, max_fields, Selection, TableDef, selection_matches, matches_all}
use sfptpd.Db.Spelling.{spell, build_selection-spell}
use sfptpd.Db.Table.{delete_refs, table_delete, table_free}
use sfptpd.Db.Visit.{entries, delete_refs-contents}
use sfptpd.Db.Query.{IsBounded, unsorted, query_refs-entries}

module _ {Record Value : Type 0} (ops : StoreOps Record) (I : IsStore ops) (S : CheckedSorting)
    (def : TableDef Value Record) where
  open ops use {State, RecordRef}

  table_delete-delete_refs :
      (filters : List (Filter Value)) (s : State)
      → length filters ≤ max_fields
      → IsFilterable def filters
      → I.IsValid s
      → table_delete ops S def (spell (unsorted filters)) s
        ≡ delete_refs ops
            (map (λ y. y.0) (entries ops I (passes def (unsorted filters)) (I.contents s)))
            s
  unfolding table_delete
  table_delete-delete_refs filters s b f v =
      rw
        (
          build_selection-spell (unsorted filters) b (omega arith) tt,
          query_refs-entries ops I S def (unsorted filters) s f v,
        )
        refl

  -- A deletion with at most ten filters, on fields with a function to compare keys, and no sort
  -- fields succeeds, and leaves exactly the records
  -- that do not match, in their order and under their references.
  pub table_delete_lem :
      (filters : List (Filter Value)) (s : State)
      → length filters ≤ max_fields
      → IsFilterable def filters
      → I.IsValid s
      → (s' : State) × (table_delete ops S def (spell (unsorted filters)) s ≡ some s')
        × I.IsValid s'
        × (I.contents s'
            ≡ entries ops I (λ r. not (passes def (unsorted filters) r)) (I.contents s))
  table_delete_lem filters s b f v =
      let (s', d, v', e) =
        delete_refs-contents ops I (passes def (unsorted filters)) s [] (I.contents s) v refl in
      (s', table_delete-delete_refs filters s b f v ∙ d, v', e)

  -- A deletion with bounded arguments, on fields with a function to compare keys, that name a sort
  -- field fails an assertion, whatever the valid
  -- state of a store that keeps its promises.
  pub table_delete_sorted :
      (selection : Selection Value) (s : State)
      → IsBounded selection
      → IsFilterable def selection.filters
      → I.IsValid s
      → selection.sort_fields ≢ []
      → table_delete ops S def (spell selection) s ≡ none
  unfolding table_delete
  table_delete_sorted selection s b f v h =
      rw
        (
          build_selection-spell selection b.0 b.1 b.2,
          query_refs-entries ops I S def selection s f v,
        )
        (sorted selection.sort_fields _ h)
    where
      sorted :
          (fields : List ℤ) (refs : List RecordRef)
          → fields ≢ []
          → (elim fields [ [] ↦ some refs | _ ↦ none ] >>= λ found. delete_refs ops found s) ≡ none
      sorted [] refs h = absurd (h refl)
      sorted (field ∷ fields) refs h = refl

  entries-false : (l : List (RecordRef × Record)) → entries ops I (λ r. false) l ≡ []
  entries-false [] = refl
  entries-false (x ∷ l) = entries-false l

  -- Freeing a table succeeds: the store is empty when its turn comes.
  pub table_free_lem :
      (s : State) → I.IsValid s → table_free ops S def (spell (unsorted [])) s ≡ some tt
  unfolding table_free selection_matches matches_all
  table_free_lem s v =
      let (s', d, v', e) = table_delete_lem [] s (omega arith) tt v in
      ap (λ m. m >>= ops.free) d ∙ I.free-contents s' v' (e ∙ entries-false (I.contents s))
