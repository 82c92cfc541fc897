-- ===== src/Db/Fields.antt =====
-- Selections whose fields a table has: what the tests and the comparisons of sfptpd_db.c answer.
use sfptpd.Prelude.{
  ◌≡◌, ◌∙◌, sym, ap, refl, Bool, true, false, not, Option, none, some, List, [], ◌∷◌, if◌then◌else◌,
  ℤ, pos, Bool-cases, inl, inr,
}
use sfptpd.Sorting.{All}
use sfptpd.Db.Selection.{
  Filter, Selection, TableDef, is_zero_ℤ, key_of, order_of, matches_all, selection_matches,
  compare_by,
}

module _ {ℓ} {A : Type ℓ} where
  abbrev pub value_or : A → Option A → A
  value_or default none = default
  value_or default (some x) = x

  some-value_or : (default : A) {o : Option A} {x : A} → o ≡ some x → o ≡ some (value_or default o)
  some-value_or default e = e ∙ sym (ap (λ q. some (value_or default q)) e)

module _ {Value Record : Type 0} (def : TableDef Value Record) where
  -- Each field has a function to compare a key.
  abbrev pub IsFilterable : List (Filter Value) → Type 0
  IsFilterable = All (λ f. (key : Value → Record → ℤ) × (key_of def f.field ≡ some key))

  -- Each field has a function to compare records.
  abbrev pub IsSortable : List ℤ → Type 0
  IsSortable = All (λ field. (order : Record → Record → ℤ) × (order_of def field ≡ some order))

  -- Whether a record passes, and how two records compare.
  abbrev pub passes : Selection Value → Record → Bool
  passes selection r = value_or false (selection_matches def selection r)

  abbrev pub order_by : List ℤ → Record → Record → ℤ
  order_by fields a b = value_or (pos 0) (compare_by def fields a b)

  matches_all-some :
      (fs : List (Filter Value)) (r : Record)
      → IsFilterable fs
      → (b : Bool) × (matches_all def fs r ≡ some b)
  unfolding matches_all
  matches_all-some [] r h = (true, refl)
  matches_all-some (f ∷ fs) r h =
      let (b, e) = matches_all-some fs r h.1 in
      let match = is_zero_ℤ (h.0.0 f.value r) in
      (
        if (if f.invert then match else not match) then false else b,
        rw (matches_all, h.0.1, e)
            (elim (Bool-cases (if f.invert then match else not match)) [
              | inl y ↦ rw y refl
              | inr n ↦ rw n refl
            ]),
      )

  pub selection_matches-passes :
      (selection : Selection Value) (r : Record)
      → IsFilterable selection.filters
      → selection_matches def selection r ≡ some (passes selection r)
  unfolding selection_matches
  selection_matches-passes selection r h =
      let (b, e) = matches_all-some selection.filters r h in some-value_or false e

  compare_by-some :
      (fields : List ℤ) (x y : Record)
      → IsSortable fields
      → (c : ℤ) × (compare_by def fields x y ≡ some c)
  unfolding compare_by
  compare_by-some [] x y h = (pos 0, refl)
  compare_by-some (field ∷ fields) x y h =
      let (c, e) = compare_by-some fields x y h.1 in
      let cmp = h.0.0 x y in
      (
        if is_zero_ℤ cmp then c else cmp,
        rw (compare_by, h.0.1, e)
            (elim (Bool-cases (is_zero_ℤ cmp)) [ inl z ↦ rw z refl | inr n ↦ rw n refl ]),
      )

  pub compare_by-order_by :
      (fields : List ℤ) (x y : Record)
      → IsSortable fields
      → compare_by def fields x y ≡ some (order_by fields x y)
  compare_by-order_by fields x y h =
      let (c, e) = compare_by-some fields x y h in some-value_or (pos 0) e
