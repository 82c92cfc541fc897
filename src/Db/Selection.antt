-- ===== src/Db/Selection.antt =====
-- sfptpd_db.c: the selection of records by keys, and the list of arguments that spells it.
use sfptpd.Prelude.{
  ℕ, zero, suc, Bool, true, false, not, Option, none, some, List, [], ◌∷◌, if◌then◌else◌, ltb, ℤ,
  pos, negsuc, get_elem?, ◌>>=◌,
}

-- MAX_FIELDS.
abbrev pub max_fields : ℕ
max_fields = 10

-- One key of `struct selection` that filters.
pub record Filter (Value : Type 0) : Type 0 where
  pub field : ℕ
  pub value : Value
  pub invert : Bool

-- `struct selection`.
pub record Selection (Value : Type 0) : Type 0 where
  pub filters : List (Filter Value)
  pub sort_fields : List ℤ

-- `struct sfptpd_db_field`, by its comparison functions, where `none` is NULL.
pub record Field (Value Record : Type 0) : Type 0 where
  pub compare_key : Option (Value → Record → ℤ)
  pub compare_record : Option (Record → Record → ℤ)

-- `struct sfptpd_db_table_def`. `fields` is the array, which can be longer than `num_fields`.
pub record TableDef (Value Record : Type 0) : Type 0 where
  pub num_fields : ℕ
  pub fields : List (Field Value Record)
  pub record_size : ℕ

abbrev pub is_zero_ℤ : ℤ → Bool
is_zero_ℤ (pos zero) = true
is_zero_ℤ (pos (suc n)) = false
is_zero_ℤ (negsuc n) = false

module _ {Value Record : Type 0} where
  -- The function to compare a key of a field, and the one to compare records by a field: `none` is
  -- a read outside the array of fields, the call of NULL, or the failed assertion that it is not.
  abbrev pub key_of : TableDef Value Record → ℕ → Option (Value → Record → ℤ)
  key_of def field = do f ← get_elem? def.fields field; f.compare_key

  abbrev pub order_of : TableDef Value Record → ℤ → Option (Record → Record → ℤ)
  order_of def (pos field) = do f ← get_elem? def.fields field; f.compare_record
  order_of def (negsuc n) = none

  -- The loop of `check_selection_matches`: whether it runs to its end.
  unfoldable pub matches_all : TableDef Value Record → List (Filter Value) → Record → Option Bool
  matches_all def [] r = some true
  matches_all def (f ∷ fs) r =
      let rest = matches_all def fs r in
      elim (key_of def f.field) [
        | none ↦ none
        | some key ↦
            let match = is_zero_ℤ (key f.value r) in
            if (if f.invert then match else not match) then some false else rest
      ]

  -- `check_selection_matches`.
  unfoldable pub selection_matches : TableDef Value Record → Selection Value → Record → Option Bool
  unfolding matches_all
  selection_matches def selection r = matches_all def selection.filters r

  -- `query_compare_fn` over the sort fields.
  unfoldable pub compare_by : TableDef Value Record → List ℤ → Record → Record → Option ℤ
  compare_by def [] a b = some (pos 0)
  compare_by def (field ∷ fields) a b =
      let rest = compare_by def fields a b in
      elim (order_of def field) [
        | none ↦ none
        | some order ↦ let cmp = order a b in if is_zero_ℤ cmp then rest else some cmp
      ]

-- The arguments of a variadic call: integers and pointers to values.
pub data Arg (Value : Type 0) : Type 0 where
  int : ℤ → Arg Value
  ptr : Value → Arg Value

-- SFPTPD_DB_SEL_END, SFPTPD_DB_SEL_ORDER_BY and SFPTPD_DB_SEL_NOT.
abbrev pub sel_end : ℤ
sel_end = negsuc 0

abbrev pub sel_order_by : ℤ
sel_order_by = negsuc 1

abbrev pub sel_not : ℤ
sel_not = negsuc 2

module _ {Value : Type 0} where
  -- The loop over the sort fields of `build_selection_params`, `count` of which are read. `none` is a
  -- failed assertion, an argument of another type, or a read past the last argument.
  unfoldable pub build_sort : ℕ → List (Arg Value) → Option (List ℤ)
  build_sort count [] = none
  build_sort count (ptr v ∷ args) = none
  build_sort count (int (negsuc zero) ∷ args) = some []
  build_sort count (int key ∷ args) =
      let rest = build_sort (suc count) args in
      if ltb count max_fields
      then elim rest [ none ↦ none | some fields ↦ some (key ∷ fields) ]
      else none

  -- What follows the loop over the filters, where it ends at a negative key.
  unfoldable pub build_end : ℤ → List (Arg Value) → Option (Selection Value)
  unfolding build_sort
  build_end (negsuc (suc zero)) args = elim (build_sort 0 args) [
    | none ↦ none
    | some fields ↦ some (record { filters = []; sort_fields = fields })
  ]
  build_end key args = some (record { filters = []; sort_fields = [] })

  -- A filter before those that are read after it, the `index`th.
  abbrev add_filter : ℕ → ℕ → Value → Bool → Option (Selection Value) → Option (Selection Value)
  add_filter index field value invert rest =
      if ltb index max_fields
      then elim rest [
        | none ↦ none
        | some s ↦ some (record s {
          filters = (record { field = field; value = value; invert = invert }) ∷ s.filters;
        })
      ]
      else none

  -- The loop over the filters, `index` of which are read, and what follows it.
  unfoldable pub build_filters : ℕ → List (Arg Value) → Option (Selection Value)
  unfolding build_end
  build_filters index (int (pos field) ∷ ptr v ∷ args) =
      let rest = build_filters (suc index) args in add_filter index field v false rest
  build_filters index (int (negsuc (suc (suc zero))) ∷ int (pos field) ∷ ptr v ∷ args) =
      let rest = build_filters (suc index) args in add_filter index field v true rest
  build_filters index (int (negsuc (suc (suc zero))) ∷ int (negsuc k) ∷ args) =
      build_end (negsuc k) args
  build_filters index (int (negsuc (suc (suc zero))) ∷ args) = none
  build_filters index (int (negsuc k) ∷ args) = build_end (negsuc k) args
  build_filters index args = none

  -- `build_selection_params`.
  unfoldable pub build_selection : List (Arg Value) → Option (Selection Value)
  unfolding build_filters
  build_selection args = build_filters 0 args
