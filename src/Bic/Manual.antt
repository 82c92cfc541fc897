-- ===== src/Bic/Manual.antt =====
-- `sfptpd_bic_select_instance`: the manual selection, and that the next choice obeys it.
use mathlib.Core.Option
use mathlib.Core.Option.{some-injective}
use sfptpd.Prelude.{
  ℕ, zero, suc, ◌+◌, ◌≡◌, refl, sym, ap, ◌∙◌, Bool, true, false, Option, none, some, List, [], ◌∷◌,
  arith, get_elem?, ◌==◌,
}
use sfptpd.Sorting.{Sorting, IsSorting}
use sfptpd.Bic.Defs.{Floats, Rule, Instance, manual}
use sfptpd.Bic.Order.{NoNan, has_tie_break}
use sfptpd.Bic.Choose.{choose, select_instance_from, select_instance}
use sfptpd.Bic.Best.{AtMostOne}
use sfptpd.Bic.Policy.{choose-manual}

abbrev pub is_chosen : Option ℕ → ℕ → Bool
is_chosen chosen i = elim chosen [ none ↦ false | some c ↦ c == i ]

module _ (F : Floats) where
  -- What the selection makes of the record at index `i`.
  abbrev pub mark : Option ℕ → ℕ → Instance F → Instance F
  mark chosen i r = record r { selected = is_chosen chosen i }

  get_elem?-select_from :
      (start : ℕ) (records : List (Instance F)) (chosen : Option ℕ) (i : ℕ)
      → get_elem? (select_instance_from F start records chosen) i
        ≡ Option.map (mark chosen (start + i)) (get_elem? records i)
  unfolding select_instance_from
  get_elem?-select_from start [] chosen i = refl
  get_elem?-select_from start (r ∷ records) chosen zero =
      ap (λ n. some (mark chosen n r)) (omega arith)
  get_elem?-select_from start (r ∷ records) chosen (suc i) =
      get_elem?-select_from (suc start) records chosen i
      ∙ ap (λ n. Option.map (mark chosen n) (get_elem? records i)) (omega arith)

  -- The manual selection marks the chosen instance and no other, and leaves the rest of each record
  -- as it was.
  pub get_elem?-select_instance :
      (records : List (Instance F)) (chosen : Option ℕ) (i : ℕ)
      → get_elem? (select_instance F records chosen) i
        ≡ Option.map (mark chosen i) (get_elem? records i)
  unfolding select_instance
  get_elem?-select_instance records chosen i =
      get_elem?-select_from 0 records chosen i
      ∙ ap (λ n. Option.map (mark chosen n) (get_elem? records i)) (omega arith)

  chosen_of_selected :
      (records : List (Instance F)) (chosen : Option ℕ) (i : ℕ) (r : Instance F)
      → get_elem? (select_instance F records chosen) i ≡ some r
      → r.selected ≡ true
      → is_chosen chosen i ≡ true
  chosen_of_selected records chosen i r e h =
      go (get_elem? records i) (sym (get_elem?-select_instance records chosen i) ∙ e)
    where
      go :
          (o : Option (Instance F))
          → Option.map (mark chosen i) o ≡ some r
          → is_chosen chosen i ≡ true
      go none p = cc
      go (some s) p = ap (λ (q : Instance F). q.selected) (some-injective _ _ p) ∙ h

  pub select_instance-AtMostOne :
      (records : List (Instance F)) (chosen : Option ℕ)
      → AtMostOne F (select_instance F records chosen)
  select_instance-AtMostOne records none i j r s ei ej hi hj =
      cc (chosen_of_selected records none i r ei hi)
  select_instance-AtMostOne records (some c) i j r s ei ej hi hj = ground (
    arith,
    chosen_of_selected records (some c) i r ei hi,
    chosen_of_selected records (some c) j s ej hj,
  )

  -- After sfptpd_bic_select_instance has marked an instance of the array, sfptpd_bic_choose with a
  -- policy that looks at the manual selection first returns that instance, where the rules after it
  -- have the tie break, no value compared is a NaN and qsort_r sorts.
  pub choose-select_instance :
      NoNan F
      → (S : Sorting) → IsSorting S
      → (rules : List Rule) → has_tie_break rules ≡ true
      → (records : List (Instance F)) (i : ℕ) (r : Instance F) → get_elem? records i ≡ some r
      → (out : List (Instance F)) × (choose F S
            (manual ∷ rules)
            (select_instance F records (some i))
          ≡ some (some i, out))
  choose-select_instance nan S sorting rules tie records i r e =
      choose-manual F nan S sorting rules tie (select_instance F records (some i))
        (select_instance-AtMostOne records (some i)) i (mark (some i) i r)
        (get_elem?-select_instance records (some i) i ∙ ap (Option.map (mark (some i) i)) e)
        (ground arith)
