-- ===== src/Db/Stores.antt =====
-- The two stores of sfptpd_db.c from the creation of a table to its end.
use sfptpd.Prelude.{map, ◌≡◌, refl, ap, ◌∙◌, some, List, []}
use sfptpd.Sorting.{IsConsistent}
use sfptpd.Sorting.Checked.{CheckedSorting, IsCheckedSorting}
use sfptpd.Db.Fields.{IsFilterable, IsSortable, passes, order_by}
use sfptpd.Db.Store.{StoreOps, IsStore}
use sfptpd.Db.Selection.{Selection, TableDef}
use sfptpd.Db.Spelling.{spell}
use sfptpd.Db.Table.{table_query, table_free}
use sfptpd.Db.Query.{IsBounded, unsorted}
use sfptpd.Db.Delete.{table_free_lem}
use sfptpd.Db.Refine.{bag_of, TableOp, IsScript, replay, keep, run, run-replay, table_query-keep}
use sfptpd.Db.Linked.{Malloc, table_new_linked, linked_ops}
use sfptpd.Db.Linked.Laws.{IsFresh, linked-IsStore}

module _ {Record Value : Type 0} (S : CheckedSorting) (def : TableDef Value Record)
    (sorting : IsCheckedSorting S) where
  run-query :
      (ops : StoreOps Record) (I : IsStore ops) (script : List (TableOp Value Record))
      (selection : Selection Value) (s : ops.State)
      → IsScript def script
      → IsBounded selection
      → IsFilterable def selection.filters
      → IsSortable def selection.sort_fields
      → ((l : List Record) → IsConsistent (order_by def selection.sort_fields) l)
      → I.IsValid s
      → I.contents s ≡ []
      → (s' : ops.State) × (result : List Record) × (run ops S def script s ≡ some s')
        × (table_query ops S def (spell selection) s' ≡ some result)
        × (bag_of result ≡ keep (passes def selection) (replay def script (bag_of [])))
        × (table_free ops S def (spell (unsorted [])) s' ≡ some tt)
  run-query ops I script selection s h b u o c v e =
      let (s', f, v', g) = run-replay ops S def I script s h v in
      let (result, q, k) = table_query-keep ops S def I selection s' sorting b u o c v' in
      (
        s',
        result,
        f,
        q,
        k
            ∙ ap (keep (passes def selection))
                (g ∙ ap (λ l. replay def script (bag_of (map (λ x. x.1) l))) e),
        table_free_lem ops I S def s' v',
      )

  -- On a new table of the linked-list store, with a malloc that gives fresh addresses and a qsort_r
  -- that sorts by every comparison that is consistent and fails no assertion, a script of
  -- insertions, and of deletions with at most ten filters each and no sort fields, runs to its end
  -- without a failed assertion; a query then returns the matching records of the script on a bag of
  -- records, each as often; and freeing the table succeeds. The filters of the deletions and of the
  -- query are on fields with a function to compare keys. The query has at most ten filters, and at
  -- most ten sort fields, none of them SFPTPD_DB_SEL_END; each has a function to compare records,
  -- and by them records compare consistently.
  pub linked_run-query :
      (malloc : Malloc) (script : List (TableOp Value Record)) (selection : Selection Value)
      → IsFresh malloc
      → IsScript def script
      → IsBounded selection
      → IsFilterable def selection.filters
      → IsSortable def selection.sort_fields
      → ((l : List Record) → IsConsistent (order_by def selection.sort_fields) l)
      → (s' : (linked_ops malloc Record).State) × (result : List Record) × (run
            (linked_ops malloc Record)
            S
            def
            script
            (table_new_linked malloc Record)
          ≡ some s')
        × (table_query (linked_ops malloc Record) S def (spell selection) s' ≡ some result)
        × (bag_of result ≡ keep (passes def selection) (replay def script (bag_of [])))
        × (table_free (linked_ops malloc Record) S def (spell (unsorted [])) s' ≡ some tt)
  unfolding table_new_linked linked_ops linked-IsStore
  linked_run-query malloc script selection fresh h b u o c =
      run-query (linked_ops malloc Record) (linked-IsStore malloc Record fresh) script selection
        (table_new_linked malloc Record) h b u o c tt refl
