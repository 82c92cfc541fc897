-- ===== src/Db/Table.antt =====
-- sfptpd_db.c: the operations on a table, over any store. The variadic arguments of an operation
-- are a list.
use sfptpd.Prelude.{
  ℕ, ℤ, Bool, Option, none, some, List, [], ◌∷◌, if◌then◌else◌, ◌>>=◌, ◌>>◌, assert, leb, length,
}
use sfptpd.Sorting.Checked.{CheckedSorting}
use sfptpd.Db.Store.{StoreOps}
use sfptpd.Db.Selection.{Arg, Selection, TableDef, selection_matches, compare_by, build_selection}

module _ {Record : Type 0} where
  -- The records of a list that pass a test, which can fail.
  unfoldable pub filter_matching : (Record → Option Bool) → List Record → Option (List Record)
  filter_matching test [] = some []
  filter_matching test (r ∷ rs) = do
    match ← test r
    rest ← filter_matching test rs
    some (if match then r ∷ rest else rest)

module _ {Record : Type 0} (ops : StoreOps Record) where
  open ops use {State, RecordRef}

  -- What `deref_fn` hands to its callback, for each reference.
  unfoldable pub deref_all : List RecordRef → State → Option (List Record)
  deref_all [] s = some []
  deref_all (ref ∷ refs) s = do r ← ops.get_data ref s; rs ← deref_all refs s; some (r ∷ rs)

  -- `sfptpd_db_table_foreach_impl` with no selection.
  unfoldable pub foreach_record : State → Option (List Record)
  unfolding deref_all
  foreach_record s = do refs ← ops.foreach s; deref_all refs s

  -- The references whose records pass the test: the second pass of `table_query_refs`.
  unfoldable pub select_refs :
      (Record → Option Bool) → List RecordRef → State → Option (List RecordRef)
  select_refs p [] s = some []
  select_refs p (ref ∷ refs) s = do
    r ← ops.get_data ref s
    match ← p r
    rest ← select_refs p refs s
    some (if match then ref ∷ rest else rest)

  -- The loop of `table_delete`.
  unfoldable pub delete_refs : List RecordRef → State → Option State
  delete_refs [] s = some s
  delete_refs (ref ∷ refs) s = do s' ← ops.delete ref s; delete_refs refs s'

  -- `sfptpd_db_record_get_data` and `sfptpd_db_record_update` on a valid reference.
  unfoldable pub record_get_data : RecordRef → State → Option Record
  record_get_data ref s = ops.get_data ref s

  unfoldable pub record_update : RecordRef → Record → State → Option State
  record_update ref r s = ops.set_data ref r s

  -- `sfptpd_db_table_insert`.
  unfoldable pub table_insert : Record → State → Option (RecordRef × State)
  table_insert r s = ops.insert r s

module _ {Record Value : Type 0} (ops : StoreOps Record) (S : CheckedSorting)
    (def : TableDef Value Record) where
  open ops use {State, RecordRef}

  -- `sfptpd_db_table_find_impl`; the inner `none` is an invalid reference.
  unfoldable pub table_find : List (Arg Value) → State → Option (Option RecordRef)
  unfolding build_selection
  table_find args s = do
    selection ← build_selection args
    ops.find (selection_matches def selection) s

  -- `sfptpd_db_table_count_impl`.
  unfoldable pub table_count : List (Arg Value) → State → Option ℕ
  unfolding build_selection foreach_record filter_matching
  table_count args s = do
    selection ← build_selection args
    records ← foreach_record ops s
    counted ← filter_matching (selection_matches def selection) records
    some (length counted)

  -- The end of `table_query`: a sort where there are sort fields.
  unfoldable pub sort_result : List ℤ → List Record → Option (List Record)
  sort_result [] result = some result
  sort_result (field ∷ fields) result = S.qsort_r Record (compare_by def (field ∷ fields)) result

  -- `table_query`. The first pass counts the records that match, and the second writes them to an
  -- array of that size.
  unfoldable pub query : Selection Value → State → Option (List Record)
  unfolding foreach_record filter_matching sort_result
  query selection s = do
    records ← foreach_record ops s
    counted ← filter_matching (selection_matches def selection) records
    records' ← foreach_record ops s
    result ← filter_matching (selection_matches def selection) records'
    assert (leb (length result) (length counted))
    sort_result selection.sort_fields result

  -- `sfptpd_db_table_query_impl`.
  unfoldable pub table_query : List (Arg Value) → State → Option (List Record)
  unfolding build_selection query
  table_query args s = do selection ← build_selection args; query selection s

  -- `sfptpd_db_table_foreach_impl`: the records that the callback is called on.
  unfoldable pub table_foreach : List (Arg Value) → State → Option (List Record)
  unfolding build_selection query foreach_record
  table_foreach args s = do
    selection ← build_selection args
    elim selection.filters [
      | [] ↦ elim selection.sort_fields [ [] ↦ foreach_record ops s | _ ↦ query selection s ]
      | _ ↦ query selection s
    ]

  -- `table_query_refs`, which allows no sort fields.
  unfoldable pub query_refs : Selection Value → State → Option (List RecordRef)
  unfolding foreach_record filter_matching select_refs
  query_refs selection s = do
    records ← foreach_record ops s
    counted ← filter_matching (selection_matches def selection) records
    refs ← ops.foreach s
    result ← select_refs ops (selection_matches def selection) refs s
    assert (leb (length result) (length counted))
    elim selection.sort_fields [ [] ↦ some result | _ ↦ none ]

  -- `sfptpd_db_table_delete_impl`.
  unfoldable pub table_delete : List (Arg Value) → State → Option State
  unfolding build_selection query_refs delete_refs
  table_delete args s = do
    selection ← build_selection args
    refs ← query_refs selection s
    delete_refs ops refs s

  -- `sfptpd_db_table_free`, which deletes every record first.
  unfoldable pub table_free : List (Arg Value) → State → Option (Unit {0})
  unfolding table_delete
  table_free no_selection s = do s' ← table_delete no_selection s; ops.free s'
