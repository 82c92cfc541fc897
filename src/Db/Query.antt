-- ===== src/Db/Query.antt =====
-- The operations on a table over any lawful store: what a query returns, what a search finds and what
-- a deletion leaves.
use mathlib.Core.List.{Permᴰ}
use mathlib.Core.List.Permᴰ
use sfptpd.Prelude.{
  ℤ, ℕ, suc, ◌≤◌, ◌≡◌, refl, sym, ap, ◌∙◌, Bool, true, none, some, List, [], ◌∷◌, ◌++◌, map, filter,
  length, le→leb, inl, inr, ◌⊎◌, Bool-cases, arith,
}
use sfptpd.Sorting.{IsConsistent, AllPairs, All-of_Memᴰ, may_precede}
use sfptpd.Sorting.Checked.{CheckedSorting, IsCheckedSorting}
use sfptpd.Db.Fields.{
  IsFilterable, IsSortable, passes, order_by, selection_matches-passes, compare_by-order_by,
}
use sfptpd.Db.Store.{StoreOps, IsStore, first_where}
use sfptpd.Db.Selection.{Filter, Selection, TableDef, selection_matches, compare_by, max_fields}
use sfptpd.Db.Spelling.{NoneEnds, spell, build_selection-spell}
use sfptpd.Db.Table.{table_find, table_count, sort_result, query, table_query, query_refs}
use sfptpd.Db.Visit.{
  records, entries, filter_matching_lem, foreach_record-contents, select_refs-contents, map-entries,
}

-- A selection within the bounds of the arrays of `struct selection`, and none of its sort fields is
-- the one that ends them.
abbrev pub IsBounded : {Value : Type 0} → Selection Value → Type 0
IsBounded selection =
    (length selection.filters ≤ max_fields)
    × (length selection.sort_fields ≤ max_fields)
    × NoneEnds selection.sort_fields

-- A selection with no sort fields.
abbrev pub unsorted : {Value : Type 0} → List (Filter Value) → Selection Value
unsorted filters = record { filters = filters; sort_fields = [] }

module _ {A : Type 0} where
  all_pairs : (R : A → A → Type 0) (l : List A) → ((x y : A) → R x y) → AllPairs R l
  all_pairs R [] h = tt
  all_pairs R (x ∷ l) h = (All-of_Memᴰ (R x) l (λ y m. h x y), all_pairs R l h)

  length-map {κ} : {B : Type κ} (f : A → B) (l : List A) → length (map f l) ≡ length l
  length-map f [] = refl
  length-map f (x ∷ l) = ap suc (length-map f l)

module _ {Record Value : Type 0} (ops : StoreOps Record) (I : IsStore ops) (S : CheckedSorting)
    (def : TableDef Value Record) where
  open ops use {State, RecordRef}

  -- The records that a selection is of.
  abbrev pub selected : Selection Value → State → List Record
  selected selection s = filter (passes def selection) (records ops I s)

  pub query-selected :
      (selection : Selection Value) (s : State)
      → IsFilterable def selection.filters
      → I.IsValid s
      → query ops S def selection s
        ≡ sort_result ops S def selection.sort_fields (selected selection s)
  unfolding query
  query-selected selection s f v =
      rw
        (
          foreach_record-contents ops I s v,
          filter_matching_lem (selection_matches def selection) (passes def selection)
              (records ops I s) (λ r. selection_matches-passes def selection r f),
          le→leb (length (selected selection s)) (length (selected selection s)) (omega arith),
        )
        refl

  pub sort_result_lem :
      (fields : List ℤ) (l : List Record)
      → IsCheckedSorting S
      → IsSortable def fields
      → IsConsistent (order_by def fields) l
      → (m : List Record) × (sort_result ops S def fields l ≡ some m)
        × Permᴰ l m
        × AllPairs (λ a b. may_precede (order_by def fields a b) ≡ true) m
  unfolding compare_by sort_result
  sort_result_lem [] l sorting o c = (l, refl, Permᴰ.refl l, all_pairs _ l (λ a b. refl))
  sort_result_lem (field ∷ fields) l sorting o c =
      sorting.sorts Record (compare_by def (field ∷ fields)) (order_by def (field ∷ fields)) l
        (λ x y. compare_by-order_by def (field ∷ fields) x y o) c

  -- On any store that keeps the promises of a store, and in a valid state of it, a query returns
  -- the matching records, each as often as the table holds it, in the order of the sort fields,
  -- where qsort_r sorts by every comparison that is consistent and fails no assertion. The query
  -- has at most ten filters, on fields with a function to compare keys, and at most ten sort
  -- fields, none of them SFPTPD_DB_SEL_END; each has a function to compare records, and by them the
  -- matching records compare consistently.
  pub table_query_lem :
      (selection : Selection Value) (s : State)
      → IsCheckedSorting S
      → IsBounded selection
      → IsFilterable def selection.filters
      → IsSortable def selection.sort_fields
      → I.IsValid s
      → IsConsistent (order_by def selection.sort_fields) (selected selection s)
      → (result : List Record) × (table_query ops S def (spell selection) s ≡ some result)
        × Permᴰ (selected selection s) result
        × AllPairs (λ a b. may_precede (order_by def selection.sort_fields a b) ≡ true) result
  unfolding table_query
  table_query_lem selection s sorting b f o v c =
      let (result, e, p, sorted) =
        sort_result_lem selection.sort_fields (selected selection s) sorting o c in
      (
        result,
        rw (build_selection-spell selection b.0 b.1 b.2) (query-selected selection s f v ∙ e),
        p,
        sorted,
      )

  pub table_count_lem :
      (selection : Selection Value) (s : State)
      → IsBounded selection
      → IsFilterable def selection.filters
      → I.IsValid s
      → table_count ops S def (spell selection) s ≡ some (length (selected selection s))
  unfolding table_count
  table_count_lem selection s b f v =
      rw
        (
          build_selection-spell selection b.0 b.1 b.2,
          foreach_record-contents ops I s v,
          filter_matching_lem (selection_matches def selection) (passes def selection)
              (records ops I s) (λ r. selection_matches-passes def selection r f),
        )
        refl

  table_find-contents :
      (selection : Selection Value) (s : State)
      → IsBounded selection
      → IsFilterable def selection.filters
      → I.IsValid s
      → table_find ops S def (spell selection) s
        ≡ some (first_where (passes def selection) (I.contents s))
  unfolding table_find
  table_find-contents selection s b f v = rw (build_selection-spell selection b.0 b.1 b.2) (
      I.find-contents (selection_matches def selection) (passes def selection) s
        (λ r. selection_matches-passes def selection r f) v)

  pub query_refs-entries :
      (selection : Selection Value) (s : State)
      → IsFilterable def selection.filters
      → I.IsValid s
      → query_refs ops S def selection s ≡ elim selection.sort_fields [
        | [] ↦ some (map (λ y. y.0) (entries ops I (passes def selection) (I.contents s)))
        | _ ↦ none
      ]
  unfolding query_refs
  query_refs-entries selection s f v =
      let p = passes def selection in
      let n =
        length-map (λ y. y.0) (entries ops I p (I.contents s))
        ∙ sym (length-map (λ y. y.1) (entries ops I p (I.contents s)))
        ∙ ap length (map-entries ops I p (I.contents s)) in
      rw
        (
          foreach_record-contents ops I s v,
          filter_matching_lem (selection_matches def selection) p (records ops I s)
              (λ r. selection_matches-passes def selection r f),
          I.foreach-contents s v,
          select_refs-contents ops I (selection_matches def selection) p s [] (I.contents s)
              (λ r. selection_matches-passes def selection r f) v refl,
          le→leb (length (map (λ y. y.0) (entries ops I p (I.contents s))))
              (length (selected selection s)) (omega (arith, n)),
        )
        refl

  first_where-cases :
      (p : Record → Bool) (l : List (RecordRef × Record))
      → ((first_where p l ≡ none) × (filter p (map (λ x. x.1) l) ≡ []))
        ⊎ ((ref : RecordRef) × (r : Record) × (xs : List (RecordRef × Record)) × (ys : List
              (RecordRef × Record))
            × (l ≡ xs ++ (ref, r) ∷ ys)
            × (first_where p l ≡ some ref)
            × (p r ≡ true)
            × (n : ℕ) × (length (filter p (map (λ x. x.1) l)) ≡ suc n))
  first_where-cases p [] = inl (refl, refl)
  first_where-cases p ((ref, r) ∷ l) = elim (Bool-cases (p r)) [
    | inl h ↦
        inr (ref, r, [], l, refl, rw h refl, h, length (filter p (map (λ x. x.1) l)), rw h refl)
    | inr h ↦ elim (first_where-cases p l) [
      | inl n ↦ inl (rw h n.0, rw h n.1)
      | inr f ↦
          let (ref', r', xs, ys, e, g, m, n, c) = f in
          inr (ref', r', (ref, r) ∷ xs, ys, ap (λ k. (ref, r) ∷ k) e, rw h g, m, n, rw h c)
    ]
  ]

  -- In a valid state of a store that keeps the promises of a store, a search finds nothing and the
  -- count for the same arguments is zero, or it gives a reference to a record that matches and the
  -- count is positive. The arguments spell at most ten filters, on fields with a function to
  -- compare keys, and at most ten sort fields, none of them SFPTPD_DB_SEL_END.
  pub table_find-table_count :
      (selection : Selection Value) (s : State)
      → IsBounded selection
      → IsFilterable def selection.filters
      → I.IsValid s
      → ((table_find ops S def (spell selection) s ≡ some none)
          × (table_count ops S def (spell selection) s ≡ some 0))
        ⊎ ((ref : RecordRef) × (r : Record) × (table_find ops S def (spell selection) s
              ≡ some (some ref))
            × (ops.get_data ref s ≡ some r)
            × (selection_matches def selection r ≡ some true)
            × (n : ℕ) × (table_count ops S def (spell selection) s ≡ some (suc n)))
  table_find-table_count selection s b f v =
      elim (first_where-cases (passes def selection) (I.contents s)) [
        | inl n ↦ inl (
          table_find-contents selection s b f v ∙ ap some n.0,
          table_count_lem selection s b f v ∙ ap (λ l. some (length l)) n.1,
        )
        | inr found ↦
            let (ref, r, xs, ys, e, g, m, n, c) = found in
            inr (
              ref,
              r,
              table_find-contents selection s b f v ∙ ap some g,
              I.get_data-contents ref r s xs ys v e,
              selection_matches-passes def selection r f ∙ ap some m,
              n,
              table_count_lem selection s b f v ∙ ap some c,
            )
      ]
