-- ===== src/Db/Tests.antt =====
-- Tables of pairs of numbers, and the theorems at them.
use sfptpd.Prelude.{
  ℕ, suc, ◌+◌, ◌≤◌, ◌<◌, ◌≡◌, ◌≢◌, refl, ◌⊎◌, true, false, Option, none, some, List, [], ◌∷◌,
  if◌then◌else◌, ltb, ℤ, pos, negsuc, arith,
}
use mathlib.Core.List.{Permᴰ}
use sfptpd.Sorting.{IsConsistent, All, AllPairs, may_precede}
use sfptpd.Sorting.Checked.{checked_insertion, checked_insertion-IsCheckedSorting}
use sfptpd.Db.Fields.{passes, order_by}
use sfptpd.Db.Selection.{
  Filter, Selection, Field, TableDef, build_selection, selection_matches, compare_by,
}
use sfptpd.Db.Store.{IsStore}
use sfptpd.Db.Table.{table_insert, table_query, table_free, table_find, table_count, table_delete}
use sfptpd.Db.Spelling.{spell, build_selection-spell}
use sfptpd.Db.Query.{IsBounded, unsorted, selected, table_query_lem, table_find-table_count}
use sfptpd.Db.Refine.{IsScript, TableOp, bag_of, replay, keep, run}
use sfptpd.Db.Stores.{linked_run-query}
use sfptpd.Db.Array.{Slot, table_new_array, array_ops}
use sfptpd.Db.Linked.{Malloc, table_new_linked, linked_ops}
use sfptpd.Db.Linked.Laws.{IsFresh, linked-IsStore}

abbrev three_way : ℕ → ℕ → ℤ
three_way a b = if ltb a b then negsuc 0 else if ltb b a then pos 1 else pos 0

abbrev by_number : (ℕ × ℕ → ℕ) → Field ℕ (ℕ × ℕ)
by_number column = record {
  compare_key = some (λ value r. three_way value (column r));
  compare_record = some (λ a b. three_way (column a) (column b));
}

-- Field 0 is the first number, field 1 the second, and field 2 is there without functions.
abbrev pairs : TableDef ℕ (ℕ × ℕ)
pairs = record {
  num_fields = 2;
  fields =
      by_number (λ r. r.0)
      ∷ by_number (λ r. r.1)
      ∷ (record { compare_key = none; compare_record = none })
      ∷ [];
  record_size = 8;
}

-- The address after all that are in use.
abbrev total : List ℕ → ℕ
total [] = 0
total (a ∷ used) = a + total used

abbrev bump : Malloc
bump used = suc (total used)

bump-IsFresh : IsFresh bump
bump-IsFresh used = above used (suc (total used)) (omega arith)
  where
    above : (used : List ℕ) (a : ℕ) → total used < a → All (λ b. a ≢ b) used
    above [] a h = tt
    above (b ∷ used) a h = ((λ e. omega (arith, e, h)), above used a (omega (arith, h)))

abbrev blank : Slot (ℕ × ℕ)
blank = record { has_magic = false; populated = false; next_freed = 0; payload = (0, 0) }

-- The second numbers equal to 1, by the first number; the first numbers other than 3.
abbrev ones : Selection ℕ
ones = record {
  filters = (record { field = 1; value = 1; invert = false }) ∷ [];
  sort_fields = pos 0 ∷ [];
}

abbrev not_three : List (Filter ℕ)
not_three = (record { field = 0; value = 3; invert = true }) ∷ []

abbrev script : List (TableOp ℕ (ℕ × ℕ))
script =
    TableOp.insert (3, 1)
    ∷ TableOp.insert (2, 1)
    ∷ TableOp.insert (5, 0)
    ∷ TableOp.delete not_three
    ∷ TableOp.insert (1, 1)
    ∷ []

build_selection-spell_example : build_selection (spell ones) ≡ some ones
build_selection-spell_example =
    build_selection-spell ones (omega arith) (omega arith) ((λ e. cc), tt)

ones-IsBounded : IsBounded ones
ones-IsBounded = (omega arith, omega arith, ((λ e. cc), tt))

script-IsScript : IsScript pairs script
script-IsScript = (omega arith, ((_, refl), tt), tt)

order_by_le : (a b : ℕ × ℕ) → may_precede (order_by pairs (pos 0 ∷ []) a b) ≡ true → a.0 ≤ b.0
unfolding compare_by
order_by_le a b h = ground arith

order_by_gt : (a b : ℕ × ℕ) → may_precede (order_by pairs (pos 0 ∷ []) a b) ≡ false → b.0 ≤ a.0
unfolding compare_by
order_by_gt a b h = ground arith

le_order_by : (a b : ℕ × ℕ) → a.0 ≤ b.0 → may_precede (order_by pairs (pos 0 ∷ []) a b) ≡ true
unfolding compare_by
le_order_by a b h = ground arith

consistent : (l : List (ℕ × ℕ)) → IsConsistent (order_by pairs (pos 0 ∷ [])) l
consistent l = record {
  total = λ x y hx hy h. le_order_by y x (order_by_gt x y h);
  trans =
      λ x y z hx hy hz h k. le_order_by x z (omega (arith, order_by_le x y h, order_by_le y z k));
}

linked_run-query_example :
    (s' : (linked_ops bump (ℕ × ℕ)).State) × (result : List (ℕ × ℕ)) × (run
        (linked_ops bump (ℕ × ℕ))
        checked_insertion
        pairs
        script
        (table_new_linked bump (ℕ × ℕ))
      ≡ some s')
    × (table_query (linked_ops bump (ℕ × ℕ)) checked_insertion pairs (spell ones) s' ≡ some result)
    × (bag_of result ≡ keep (passes pairs ones) (replay pairs script (bag_of [])))
    × (table_free (linked_ops bump (ℕ × ℕ)) checked_insertion pairs (spell (unsorted [])) s'
        ≡ some tt)
linked_run-query_example =
    linked_run-query checked_insertion pairs checked_insertion-IsCheckedSorting bump script ones
      bump-IsFresh script-IsScript ones-IsBounded ((_, refl), tt) ((_, refl), tt) consistent

-- A linked list of three records.
abbrev Pairs : Type 0
Pairs = (linked_ops bump (ℕ × ℕ)).State

unfoldable three : Pairs
unfolding linked_ops
three = (9, (4, 1)) ∷ (7, (3, 0)) ∷ (5, (2, 1)) ∷ []

abbrev lawful : IsStore (linked_ops bump (ℕ × ℕ))
lawful = linked-IsStore bump (ℕ × ℕ) bump-IsFresh

three-IsValid : lawful.IsValid three
unfolding three linked_ops linked-IsStore
three-IsValid = (
  ((λ e. omega (arith, e)), ((λ e. omega (arith, e)), tt)),
  (((λ e. omega (arith, e)), tt), (tt, tt)),
)

table_query_lem_example :
    (result : List (ℕ × ℕ)) × (table_query
        (linked_ops bump (ℕ × ℕ))
        checked_insertion
        pairs
        (spell ones)
        three
      ≡ some result)
    × Permᴰ (selected (linked_ops bump (ℕ × ℕ)) lawful checked_insertion pairs ones three) result
    × AllPairs (λ a b. may_precede (order_by pairs (pos 0 ∷ []) a b) ≡ true) result
table_query_lem_example =
    table_query_lem (linked_ops bump (ℕ × ℕ)) lawful checked_insertion pairs ones three
      checked_insertion-IsCheckedSorting ones-IsBounded ((_, refl), tt) ((_, refl), tt)
      three-IsValid (consistent _)

table_find-table_count_example :
    ((table_find (linked_ops bump (ℕ × ℕ)) checked_insertion pairs (spell ones) three ≡ some none)
      × (table_count (linked_ops bump (ℕ × ℕ)) checked_insertion pairs (spell ones) three ≡ some 0))
    ⊎ ((ref : (linked_ops bump (ℕ × ℕ)).RecordRef) × (r : ℕ × ℕ) × (table_find
            (linked_ops bump (ℕ × ℕ))
            checked_insertion
            pairs
            (spell ones)
            three
          ≡ some (some ref))
        × ((linked_ops bump (ℕ × ℕ)).get_data ref three ≡ some r)
        × (selection_matches pairs ones r ≡ some true)
        × (n : ℕ) × (table_count
              (linked_ops bump (ℕ × ℕ))
              checked_insertion
              pairs
              (spell ones)
              three
            ≡ some (suc n)))
table_find-table_count_example =
    table_find-table_count (linked_ops bump (ℕ × ℕ)) lawful checked_insertion pairs ones three
      ones-IsBounded ((_, refl), tt) three-IsValid

-- The two nodes that match, the one with the smaller number first.
query_three :
    table_query (linked_ops bump (ℕ × ℕ)) checked_insertion pairs (spell ones) three
    ≡ some ((2, 1) ∷ (4, 1) ∷ [])
unfolding table_query three linked_ops checked_insertion spell selection_matches compare_by
query_three = refl

-- The array store after the script and one more checked_insertion: the script freed the second and the third
-- element, its last checked_insertion took the second again, and this one the third.
churn : Option (List ℕ)
unfolding array_ops run table_insert table_new_array
churn = elim (run (array_ops blank) checked_insertion pairs script (table_new_array blank 8)) [
  | none ↦ none
  | some s ↦ elim (table_insert (array_ops blank) (8, 8) s) [
    | none ↦ none
    | some p ↦ (array_ops blank).foreach p.1
  ]
]

churn_refs : churn ≡ some (0 ∷ 1 ∷ 2 ∷ [])
unfolding churn checked_insertion spell selection_matches compare_by table_delete table_insert
churn_refs = refl

-- By the field without functions, the sort of two records fails its assertion, and the sort of one
-- record does not look at it.
query_unsortable :
    table_query
      (linked_ops bump (ℕ × ℕ))
      checked_insertion
      pairs
      (spell (record { filters = []; sort_fields = pos 2 ∷ [] }))
      three
    ≡ none
unfolding table_query three linked_ops checked_insertion spell selection_matches compare_by
query_unsortable = refl

query_one :
    table_query
      (linked_ops bump (ℕ × ℕ))
      checked_insertion
      pairs
      (spell (record {
        filters = (record { field = 1; value = 0; invert = false }) ∷ [];
        sort_fields = pos 2 ∷ [];
      }))
      three
    ≡ some ((3, 0) ∷ [])
unfolding table_query three linked_ops checked_insertion spell selection_matches compare_by
query_one = refl
