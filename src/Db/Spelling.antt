-- ===== src/Db/Spelling.antt =====
-- The arguments that spell a selection, and what `build_selection_params` reads back.
use sfptpd.Prelude.{
  ℕ, suc, ◌+◌, ◌≤◌, ◌<◌, ◌≡◌, refl, Bool, true, false, some, List, [], ◌∷◌, if◌then◌else◌, lt→ltb,
  ℤ, zero, ◌≢◌, negsuc, pos, length, arith,
}
use sfptpd.Sorting.{All}
use sfptpd.Db.Selection.{
  Arg, int, ptr, Filter, Selection, max_fields, sel_end, sel_order_by, sel_not, build_sort,
  build_end, build_filters, build_selection,
}

module _ {Value : Type 0} where
  -- The sort fields, to the end of the arguments.
  unfoldable pub spell_sort : List ℤ → List (Arg Value)
  spell_sort [] = int sel_end ∷ []
  spell_sort (field ∷ fields) = int field ∷ spell_sort fields

  unfoldable pub spell_filters : List (Filter Value) → List (Arg Value) → List (Arg Value)
  spell_filters [] rest = rest
  spell_filters (f ∷ fs) rest =
      if f.invert
      then int sel_not ∷ int (pos f.field) ∷ ptr f.value ∷ spell_filters fs rest
      else int (pos f.field) ∷ ptr f.value ∷ spell_filters fs rest

  -- A selection as the arguments of a call.
  unfoldable pub spell : Selection Value → List (Arg Value)
  unfolding spell_filters spell_sort
  spell s = spell_filters s.filters (int sel_order_by ∷ spell_sort s.sort_fields)

-- No sort field is SFPTPD_DB_SEL_END, which would end them.
abbrev pub NoneEnds : List ℤ → Type 0
NoneEnds = All (λ field. field ≢ sel_end)

module _ (Value : Type 0) where
  build_sort-step :
      (count : ℕ) (field : ℤ) (fields : List ℤ) (args : List (Arg Value))
      → field ≢ sel_end
      → count < max_fields
      → build_sort (suc count) args ≡ some fields
      → build_sort count (int field ∷ args) ≡ some (field ∷ fields)
  unfolding build_sort
  build_sort-step count (pos n) fields args ne lt e = rw (lt→ltb count max_fields lt, e) refl
  build_sort-step count (negsuc zero) fields args ne lt e = absurd (ne refl)
  build_sort-step count (negsuc (suc n)) fields args ne lt e =
      rw (lt→ltb count max_fields lt, e) refl

  build_sort-spell :
      (count : ℕ) (fields : List ℤ)
      → NoneEnds fields
      → count + length fields ≤ max_fields
      → build_sort {Value = Value} count (spell_sort {Value = Value} fields) ≡ some fields
  unfolding build_sort spell_sort
  build_sort-spell count [] n h = refl
  build_sort-spell count (field ∷ fields) n h =
      build_sort-step count field fields (spell_sort fields) n.0 (omega (arith, h))
        (build_sort-spell (suc count) fields n.1 (omega (arith, h)))

module _ {Value : Type 0} where
  build_filters-invert :
      (index field : ℕ) (v : Value) (invert : Bool) (args : List (Arg Value)) (s : Selection Value)
      → index < max_fields
      → build_filters (suc index) args ≡ some s
      → build_filters index (
          if invert
          then int sel_not ∷ int (pos field) ∷ ptr v ∷ args
          else int (pos field) ∷ ptr v ∷ args)
        ≡ some (record s {
          filters = (record { field = field; value = v; invert = invert }) ∷ s.filters;
        })
  unfolding build_filters
  build_filters-invert index field v true args s h e =
      let room = lt→ltb index max_fields h in rw (room, e) refl
  build_filters-invert index field v false args s h e =
      let room = lt→ltb index max_fields h in rw (room, e) refl

  build_filters-spell :
      (index : ℕ) (fs : List (Filter Value)) (fields : List ℤ)
      → NoneEnds fields
      → index + length fs ≤ max_fields
      → length fields ≤ max_fields
      → build_filters index (spell_filters fs (int sel_order_by ∷ spell_sort fields))
        ≡ some (record { filters = fs; sort_fields = fields })
  unfolding build_filters spell_filters
  build_filters-spell index [] fields n h k =
      rw (build_end, build_sort-spell Value 0 fields n (omega (arith, k))) refl
  build_filters-spell index (f ∷ fs) fields n h k =
      build_filters-invert index f.field f.value f.invert
        (spell_filters fs (int sel_order_by ∷ spell_sort fields))
        (record { filters = fs; sort_fields = fields }) (omega (arith, h))
        (build_filters-spell (suc index) fs fields n (omega (arith, h)) k)

  -- build_selection_params reads a selection of at most ten filters and at most ten sort fields,
  -- none of them SFPTPD_DB_SEL_END, back from the arguments that spell it.
  pub build_selection-spell :
      (s : Selection Value)
      → length s.filters ≤ max_fields
      → length s.sort_fields ≤ max_fields
      → NoneEnds s.sort_fields
      → build_selection (spell s) ≡ some s
  unfolding build_selection spell
  build_selection-spell s h k n =
      build_filters-spell 0 s.filters s.sort_fields n (omega (arith, h)) k
