-- ===== src/Bic/Best.antt =====
-- `sfptpd_bic_choose` yields the instance that beats all others.
use mathlib.Core.Path.{subst}
use mathlib.Core.List.{Memᴰ}
use mathlib.Core.List.Permᴰ
use mathlib.Core.Option.{some-injective}
use sfptpd.Prelude.{
  ℕ, zero, suc, ◌+◌, ◌<◌, ◌≡◌, ◌≢◌, refl, sym, ap, ◌∙◌, ◌⊎◌, inl, inr, Bool, true, false, ◌||◌,
  Option, some, List, [], ◌∷◌, arith, get_elem?, get_elem?_in, length, ◌==◌, Bool-cases,
}
use native.Mathlib.Nat.{add-zero}
use sfptpd.Sorting.{
  Sorting, IsSorting, IsConsistent, may_precede, All, AllPairs, Permᴰ-Memᴰ, All-Memᴰ,
}
use sfptpd.Bic.Defs.{Floats, Rule, Instance, Ref}
use sfptpd.Bic.Order.{NoNan, has_tie_break, beats, beats_order, beats_total}
use sfptpd.Bic.Compare.{NotBoth, select-beats, select_total}
use sfptpd.Bic.Choose.{refs, compar, fill_ranks, set_rank, rank_sorted, choose}

module _ (F : Floats) where
  -- Only one instance of the array is selected by hand.
  abbrev pub AtMostOne : List (Instance F) → Type 0
  AtMostOne records =
      (i j : ℕ) (r s : Instance F)
      → get_elem? records i ≡ some r
      → get_elem? records j ≡ some s
      → r.selected ≡ true
      → s.selected ≡ true
      → i ≡ j

  -- `&records[i]`.
  abbrev pub ref : ℕ → Instance F → Ref F
  ref i r = record { index = i; instance_record = r }

  Memᴰ-refs :
      (i : ℕ) (records : List (Instance F)) (a : Ref F)
      → Memᴰ a (refs F i records)
      → (k : ℕ) × (a.index ≡ i + k) × (get_elem? records k ≡ some a.instance_record)
  unfolding refs
  Memᴰ-refs i [] a m = elim m [ ]
  Memᴰ-refs i (r ∷ rs) a (Memᴰ.head e) = (0, cc (add-zero i), cc)
  Memᴰ-refs i (r ∷ rs) a (Memᴰ.tail m) =
      let ih = Memᴰ-refs (suc i) rs a m in (suc ih.0, omega (arith, ih.1), ih.2)

  Memᴰ-refs_at :
      (i k : ℕ) (records : List (Instance F)) (r : Instance F)
      → get_elem? records k ≡ some r
      → Memᴰ (ref (i + k) r) (refs F i records)
  unfolding refs
  Memᴰ-refs_at i k [] r e = cc
  Memᴰ-refs_at i zero (s ∷ rs) r e = Memᴰ.head (cc (add-zero i))
  Memᴰ-refs_at i (suc k) (s ∷ rs) r e = Memᴰ.tail (
      subst (λ n. Memᴰ (ref n r) (refs F (suc i) rs)) (omega arith) (Memᴰ-refs_at (suc i) k rs r e))

  -- What `sfptpd_bic_choose` leaves: an instance of the array, which beats every other.
  abbrev pub IsBest : List Rule → List (Instance F) → Option (Option ℕ × List (Instance F)) → Type 0
  IsBest rules records result =
      (best : ℕ) × (r : Instance F) × (out : List (Instance F)) × (result ≡ some (some best, out))
      × (get_elem? records best ≡ some r)
      × ((j : ℕ) (s : Instance F)
          → get_elem? records j ≡ some s
          → j ≢ best
          → beats F rules (ref best r) (ref j s) ≡ true)

  module _ (nan : NoNan F) (rules : List Rule) (tie : has_tie_break rules ≡ true) where
    -- Two instances at one place are one; otherwise at most one of them is selected by hand.
    abbrev Apart : Ref F → Ref F → Type 0
    Apart a b = (a ≡ b) ⊎ ((a.index ≢ b.index) × NotBoth F a b)

    abbrev le : Ref F → Ref F → Bool
    le a b = a.index == b.index || beats F rules a b

    same_place :
        (records : List (Instance F)) {k l : ℕ} (a b : Ref F)
        → (a.index ≡ b.index) × (k ≡ l)
        → get_elem? records k ≡ some a.instance_record
        → get_elem? records l ≡ some b.instance_record
        → a ≡ b
    same_place records a b e ga gb = λ i. record {
      index = e.0 i;
      instance_record = some-injective _ _ (sym ga ∙ ap (get_elem? records) e.1 ∙ gb) i;
    }

    not_both :
        (a b : Ref F)
        → (a.instance_record.selected ≡ true → b.instance_record.selected ≡ true → ⊥)
        → NotBoth F a b
    not_both a b h = ground arith

    may_precede-compar : (a b : Ref F) → Apart a b → may_precede (compar F rules a b) ≡ le a b
    unfolding compar
    may_precede-compar a b (inl e) =
        let s = select_total F rules a b tie in rw (s.2, compar) (ground (arith, s.3, e))
    may_precede-compar a b (inr h) =
        let s = select-beats F rules a b tie h.1 in rw (s.1, compar) (ground (arith, h.0))

    le_total : (a b : Ref F) → Apart a b → le a b ≡ false → le b a ≡ true
    le_total a b (inl e) h = ground (arith, e)
    le_total a b (inr d) h = ground (arith, beats_total F rules tie a b)

    le_trans :
        (a b c : Ref F) → Apart a b → Apart b c → le a b ≡ true → le b c ≡ true → le a c ≡ true
    le_trans a b c (inl e) _ h k = subst (λ x. le x c ≡ true) (sym e) k
    le_trans a b c (inr d) (inl e) h k = subst (λ x. le a x ≡ true) e h
    le_trans a b c (inr d) (inr d') h k =
        let o = beats_order F nan rules in ground (arith, d.0, d'.0, o.asym b c, o.compare a b c)

    le-beats :
        (a : Ref F) (j : ℕ) (s : Instance F)
        → j ≢ a.index
        → le a (ref j s) ≡ true
        → beats F rules a (ref j s) ≡ true
    le-beats a j s ne h = ground arith

    fill_ranks_total :
        (i : ℕ) (list : List (Ref F)) (records : List (Instance F))
        → (out : List ℕ × List (Instance F)) × (fill_ranks F rules i list records ≡ some out)
    unfolding fill_ranks
    fill_ranks_total i [] records = (_, refl)
    fill_ranks_total i (a ∷ []) records = (_, refl)
    fill_ranks_total i (a ∷ b ∷ list) records =
        let s = select_total F rules a b tie in
        let ih = fill_ranks_total (i + 1) (b ∷ list) (set_rank F records a.index (i + 1)) in
        ((s.1 ∷ ih.0.0, ih.0.1), rw (s.2, fill_ranks) (rw (ih.1, fill_ranks)))

    module _ (records : List (Instance F)) (one : AtMostOne records) where
      Apart-of_Memᴰ :
          (a b : Ref F) → Memᴰ a (refs F 0 records) → Memᴰ b (refs F 0 records) → Apart a b
      Apart-of_Memᴰ a b ma mb =
          let (k, ek, ga) = Memᴰ-refs 0 records a ma in
          let (l, el, gb) = Memᴰ-refs 0 records b mb in
          elim (Bool-cases (a.index == b.index)) [
            | inl same ↦ inl (same_place records a b (ground (arith, same, ek, el)) ga gb)
            | inr apart ↦ inr (
              ground (arith, apart),
              not_both a b (λ p q. ground (arith, one k l _ _ ga gb p q, ek, el, apart)),
            )
          ]

      agree :
          (x y : Ref F)
          → Memᴰ x (refs F 0 records)
          → Memᴰ y (refs F 0 records)
          → may_precede (compar F rules x y) ≡ le x y
      agree x y mx my = may_precede-compar x y (Apart-of_Memᴰ x y mx my)

      compar-IsConsistent : IsConsistent (compar F rules) (refs F 0 records)
      compar-IsConsistent = record {
        total = λ x y mx my.
            rw (agree x y mx my, agree y x my mx) (le_total x y (Apart-of_Memᴰ x y mx my));
        trans = λ x y z mx my mz.
            rw (agree x y mx my, agree y z my mz, agree x z mx mz)
              (le_trans x y z (Apart-of_Memᴰ x y mx my) (Apart-of_Memᴰ y z my mz));
      }

      -- The first of a list of pointers that is in order and holds all instances beats the others.
      first_beats :
          (first : Ref F) (others : List (Ref F))
          → ((x : Ref F) → Memᴰ x (refs F 0 records) → Memᴰ x (first ∷ others))
          → ((x : Ref F) → Memᴰ x (first ∷ others) → Memᴰ x (refs F 0 records))
          → All (λ y. may_precede (compar F rules first y) ≡ true) others
          → (j : ℕ) (s : Instance F) → get_elem? records j ≡ some s
          → j ≢ first.index
          → beats F rules first (ref j s) ≡ true
      first_beats first others into back sorted j s e ne = elim (into (ref j s) here) [
        | Memᴰ.head same ↦ absurd (ne (ap (λ (r : Ref F). r.index) same))
        | Memᴰ.tail later ↦ le-beats first j s ne (
            sym (agree first (ref j s) (back first (Memᴰ.head refl)) here)
            ∙ All-Memᴰ _ others sorted (ref j s) later)
      ]
        where
          here : Memᴰ (ref j s) (refs F 0 records)
          here =
              subst (λ n. Memᴰ (ref n s) (refs F 0 records)) (omega arith)
                (Memᴰ-refs_at 0 j records s e)

      -- The part of `sfptpd_bic_choose` after the sort, on a sorted list that holds all pointers.
      sorted-IsBest :
          (list : List (Ref F))
          → 0 < length records
          → ((x : Ref F) → Memᴰ x (refs F 0 records) → Memᴰ x list)
          → ((x : Ref F) → Memᴰ x list → Memᴰ x (refs F 0 records))
          → AllPairs (λ x y. may_precede (compar F rules x y) ≡ true) list
          → IsBest rules records (rank_sorted F rules list records)
      unfolding rank_sorted
      sorted-IsBest [] h into back sorted =
          let (r, e) = get_elem?_in records 0 h in
          elim (into (ref 0 r) (Memᴰ-refs_at 0 0 records r e)) [ ]
      sorted-IsBest (first ∷ others) h into back sorted =
          let (out, e) = fill_ranks_total 0 (first ∷ others) records in
          let (k, ek, g) = Memᴰ-refs 0 records first (back first (Memᴰ.head refl)) in
          (
            first.index,
            first.instance_record,
            out.1,
            rw (e, rank_sorted),
            ap (get_elem? records) (omega (arith, ek)) ∙ g,
            first_beats first others into back sorted.0,
          )

  only_one_best :
      (rules : List Rule) (r : Instance F) (j : ℕ) (s : Instance F)
      → get_elem? (r ∷ []) j ≡ some s
      → j ≢ 0
      → beats F rules (ref 0 r) (ref j s) ≡ true
  only_one_best rules r zero s e ne = absurd (ne refl)
  only_one_best rules r (suc j) s e ne = cc

  -- `sfptpd_bic_choose` returns an instance of a non-empty array that beats every other one by the
  -- rules of the policy. The rules have the tie break among them, at most one instance is selected
  -- by hand, the values that the rules compare are no NaN, and `qsort_r` sorts.
  pub choose-IsBest :
      NoNan F
      → (S : Sorting) → IsSorting S
      → (rules : List Rule) → has_tie_break rules ≡ true
      → (records : List (Instance F)) → AtMostOne records
      → 0 < length records
      → IsBest rules records (choose F S rules records)
  unfolding choose
  choose-IsBest nan S sorting rules tie [] one h = absurd (omega arith)
  choose-IsBest nan S sorting rules tie (r ∷ []) one h =
      (0, r, r ∷ [], refl, refl, only_one_best rules r)
  choose-IsBest nan S sorting rules tie (r ∷ s ∷ rest) one h =
      let all = r ∷ s ∷ rest in
      let consistent = compar-IsConsistent nan rules tie all one in
      let p = sorting.permutes (Ref F) (compar F rules) (refs F 0 all) consistent in
      sorted-IsBest nan rules tie all one (S.qsort_r (Ref F) (compar F rules) (refs F 0 all)) h
        (Permᴰ-Memᴰ p) (Permᴰ-Memᴰ (Permᴰ.symm p))
        (sorting.sorts (Ref F) (compar F rules) (refs F 0 all) consistent)
