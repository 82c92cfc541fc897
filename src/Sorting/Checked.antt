-- ===== src/Sorting/Checked.antt =====
-- The sorting function of the C library with a comparison that can fail an assertion.
use mathlib.Core.List.{Permᴰ}
use sfptpd.Prelude.{
  ◌≡◌, refl, inl, inr, Option, none, some, List, [], ◌∷◌, if◌then◌else◌, Bool-cases, ℤ,
}
use sfptpd.Sorting.{
  may_precede, IsConsistent, IsInOrder, insert, insertion_sort, insertion_sort-perm,
  insertion_sort-IsInOrder,
}

-- `qsort_r`; `none` is a failed assertion in a call of `compar`, which ends the program.
pub record CheckedSorting : Type 1 where
  pub qsort_r : (A : Type 0) → (A → A → Option ℤ) → List A → Option (List A)

-- Where the comparison fails no assertion and is consistent, the array is rearranged and in order.
pub record IsCheckedSorting (S : CheckedSorting) : Type 1 where
  pub sorts :
      (A : Type 0) (compar : A → A → Option ℤ) (cmp : A → A → ℤ) (l : List A)
      → ((x y : A) → compar x y ≡ some (cmp x y))
      → IsConsistent cmp l
      → (m : List A) × (S.qsort_r A compar l ≡ some m) × Permᴰ l m × IsInOrder cmp m

module _ {A : Type 0} where
  unfoldable checked_insert : (A → A → Option ℤ) → A → List A → Option (List A)
  checked_insert compar x [] = some (x ∷ [])
  checked_insert compar x (y ∷ l) =
      let rest = checked_insert compar x l in
      elim (compar x y) [
        | none ↦ none
        | some c ↦
            if may_precede c
            then some (x ∷ y ∷ l)
            else elim rest [ none ↦ none | some m ↦ some (y ∷ m) ]
      ]

  unfoldable pub checked_sort : (A → A → Option ℤ) → List A → Option (List A)
  unfolding checked_insert
  checked_sort compar [] = some []
  checked_sort compar (x ∷ l) = elim (checked_sort compar l) [
    | none ↦ none
    | some m ↦ checked_insert compar x m
  ]

  module _ (compar : A → A → Option ℤ) (cmp : A → A → ℤ)
      (h : (x y : A) → compar x y ≡ some (cmp x y)) where
    checked_insert_lem : (x : A) (l : List A) → checked_insert compar x l ≡ some (insert cmp x l)
    unfolding checked_insert insert
    checked_insert_lem x [] = refl
    checked_insert_lem x (y ∷ l) = elim (Bool-cases (may_precede (cmp x y))) [
      | inl e ↦ rw (checked_insert, h x y, e) refl
      | inr e ↦ rw (checked_insert, h x y, e, checked_insert_lem x l) refl
    ]

    checked_sort_lem : (l : List A) → checked_sort compar l ≡ some (insertion_sort cmp l)
    unfolding checked_sort insertion_sort
    checked_sort_lem [] = refl
    checked_sort_lem (x ∷ l) =
        rw (checked_sort, checked_sort_lem l) (checked_insert_lem x (insertion_sort cmp l))

unfoldable pub checked_insertion : CheckedSorting
unfolding checked_sort
checked_insertion = record { qsort_r = λ A compar l. checked_sort compar l }

pub checked_insertion-IsCheckedSorting : IsCheckedSorting checked_insertion
unfolding checked_insertion
checked_insertion-IsCheckedSorting = record {
  sorts = λ A compar cmp l h c. (
    insertion_sort cmp l,
    checked_sort_lem compar cmp h l,
    insertion_sort-perm cmp l,
    insertion_sort-IsInOrder cmp l c,
  );
}
