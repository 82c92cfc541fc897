-- ===== src/Bic/Choose.antt =====
-- sfptpd_bic.c: the choice among the instances of the engine's array, and the manual selection.
use sfptpd.Prelude.{
  ℕ, zero, suc, ◌+◌, false, Option, none, some, List, [], ◌∷◌, ◌==◌, if◌then◌else◌, ℤ, pos, negsuc,
}
use sfptpd.Sorting.{Sorting}
use sfptpd.Bic.Defs.{Floats, Rule, Instance, Ref, select}

module _ (F : Floats) where
  -- `&instance_records[i]`, `&instance_records[i + 1]`, and so on.
  unfoldable pub refs : ℕ → List (Instance F) → List (Ref F)
  refs i [] = []
  refs i (r ∷ rs) = (record { index = i; instance_record = r }) ∷ refs (suc i) rs

  -- `ordered_instance_compar`. The comparison fails only where the rules have no end.
  unfoldable pub compar : List Rule → Ref F → Ref F → ℤ
  compar rules a b = elim (select F rules a b) [
    | none ↦ pos 1
    | some choice ↦ if choice.0.index == a.index then negsuc 0 else pos 1
  ]

  -- `instance_records[index].rank = rank`.
  unfoldable pub set_rank : List (Instance F) → ℕ → ℕ → List (Instance F)
  set_rank [] index rank = []
  set_rank (r ∷ rs) zero rank = (record r { rank = rank }) ∷ rs
  set_rank (r ∷ rs) (suc index) rank = r ∷ set_rank rs index rank

  -- The loop under "Fill in decisive rules", and the rank of the last instance after it: the
  -- decisive rules of the neighbours in the sorted list, and the array with the ranks.
  unfoldable pub fill_ranks :
      List Rule → ℕ → List (Ref F) → List (Instance F) → Option (List ℕ × List (Instance F))
  unfolding set_rank
  fill_ranks rules i [] records = some ([], records)
  fill_ranks rules i (a ∷ []) records = some ([], set_rank records a.index (i + 1))
  fill_ranks rules i (a ∷ b ∷ list) records =
      let rest = fill_ranks rules (i + 1) (b ∷ list) (set_rank records a.index (i + 1)) in
      elim (select F rules a b) [
        | none ↦ none
        | some choice ↦ elim rest [
          | none ↦ none
          | some filled ↦ some (choice.1 ∷ filled.0, filled.1)
        ]
      ]

  -- The part of `sfptpd_bic_choose` after the sort: the index of the result, and the array with the
  -- ranks. `none` is a read past the end of the rules or of the list.
  unfoldable pub rank_sorted :
      List Rule → List (Ref F) → List (Instance F) → Option (Option ℕ × List (Instance F))
  rank_sorted rules list records = elim (fill_ranks rules 0 list records) [
    | none ↦ none
    | some filled ↦ elim list [ [] ↦ none | first ∷ others ↦ some (some first.index, filled.1) ]
  ]

  -- `sfptpd_bic_choose`; its result NULL is `some (none, …)`. `old_candidate` only serves the log.
  unfoldable pub choose :
      Sorting → List Rule → List (Instance F) → Option (Option ℕ × List (Instance F))
  choose S rules [] = some (none, [])
  choose S rules (r ∷ []) = some (some 0, r ∷ [])
  choose S rules (r ∷ s ∷ records) =
      rank_sorted rules (S.qsort_r (Ref F) (compar rules) (refs 0 (r ∷ s ∷ records)))
        (r ∷ s ∷ records)

  -- `sfptpd_bic_select_instance`, from index `i` on; `none` is a pointer into no element.
  unfoldable pub select_instance_from : ℕ → List (Instance F) → Option ℕ → List (Instance F)
  select_instance_from i [] chosen = []
  select_instance_from i (r ∷ rs) chosen =
      (record r { selected = elim chosen [ none ↦ false | some c ↦ c == i ] })
      ∷ select_instance_from (suc i) rs chosen

  unfoldable pub select_instance : List (Instance F) → Option ℕ → List (Instance F)
  unfolding select_instance_from
  select_instance records chosen = select_instance_from 0 records chosen
