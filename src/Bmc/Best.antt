-- ===== src/Bmc/Best.antt =====
-- The search of `bmc` finds the best of the qualified records.
use sfptpd.Prelude.{
  ℕ, zero, suc, ◌+◌, ◌≡◌, inl, inr, refl, sym, ap, Bool, true, false, ◌||◌, some, none, List, [],
  ◌∷◌, get_elem?, ◌==◌, if◌then◌else◌, Bool-cases, arith,
}
use mathlib.Core.Path.{subst}
use sfptpd.Sorting.{All, AllPairs}
use sfptpd.Foreign.Defs.{ForeignMaster}
use sfptpd.Bmc.Defs.{
  TimeFloats, Context, Search, is_qualified, is_by_discriminator, qualification, compete,
  search_from, best_record,
}
use sfptpd.Bmc.Rounds.{Differ, IsBest, Decides, Winner, compete_lem}

module _ (F : TimeFloats) (c : Context F) where
  -- What the search of records from index `i` on finds.
  record Found (i : ℕ) (records : List (ForeignMaster F.Time)) (result : Search) : Type 0 where
    best : ForeignMaster F.Time
    offset : ℕ
    besti_eq : result.besti ≡ i + offset
    here : get_elem? records offset ≡ some best
    is_best : IsBest F c best records
    decides : Decides F c result

  Found-first :
      (i : ℕ) (r : ForeignMaster F.Time) (rs : List (ForeignMaster F.Time)) (result : Search)
      → Winner F c (suc i) i r rs result
      → Found i (r ∷ rs) result
  Found-first i r rs result w = elim w.place [
    | inl (at, same) ↦ found 0 (omega (arith, at)) (ap some (sym same))
    | inr (k, at, here) ↦ found (suc k) (omega (arith, at)) here
  ]
    where
      found :
          (k : ℕ)
          → result.besti ≡ i + k
          → get_elem? (r ∷ rs) k ≡ some w.winner
          → Found i (r ∷ rs) result
      found k at here = record {
        best = w.winner;
        offset = k;
        besti_eq = at;
        here = here;
        is_best = record {
          best_qualified = w.is_best.best_qualified;
          none_before = (λ q. w.not_before, w.is_best.none_before);
        };
        decides = w.decides;
      }

  Found-later :
      (i : ℕ) (r : ForeignMaster F.Time) (rs : List (ForeignMaster F.Time)) (result : Search)
      → is_qualified (qualification F c r) ≡ false
      → Found (suc i) rs result
      → Found i (r ∷ rs) result
  Found-later i r rs result n f = record {
    best = f.best;
    offset = suc f.offset;
    besti_eq = omega (arith, f.besti_eq);
    here = f.here;
    is_best = record {
      best_qualified = f.is_best.best_qualified;
      none_before = (λ q. cc, f.is_best.none_before);
    };
    decides = f.decides;
  }

  search_from-qualified :
      (r : ForeignMaster F.Time) (rs : List (ForeignMaster F.Time)) (i : ℕ) (disqual : Bool)
      → is_qualified (qualification F c r) ≡ true
      → (s : Search) × (s.besti ≡ i)
        × (s.number_records ≡ 1)
        × (search_from F c i (r ∷ rs) disqual ≡ compete F c (suc i) r rs s)
  unfolding search_from
  search_from-qualified r rs i disqual q = (
    record { besti = i; number_records = 1; had_result = false; discriminator_disqual = disqual },
    refl,
    refl,
    rw q refl,
  )

  search_from-not :
      (r : ForeignMaster F.Time) (rs : List (ForeignMaster F.Time)) (i : ℕ) (disqual : Bool)
      → is_qualified (qualification F c r) ≡ false
      → (d : Bool) × (search_from F c i (r ∷ rs) disqual ≡ search_from F c (suc i) rs d)
  unfolding search_from
  search_from-not r rs i disqual q =
      (disqual || is_by_discriminator (qualification F c r), rw q refl)

  search_from_lem :
      (records : List (ForeignMaster F.Time)) (i : ℕ) (disqual : Bool)
      → AllPairs (Differ F c) records
      → (k : ℕ) (r : ForeignMaster F.Time) → get_elem? records k ≡ some r
      → is_qualified (qualification F c r) ≡ true
      → Found i records (search_from F c i records disqual)
  search_from_lem [] i disqual p k r e q = cc
  search_from_lem (r0 ∷ rs) i disqual p k r e q =
      elim (Bool-cases (is_qualified (qualification F c r0))) [
        | inl q0 ↦
            let (s, at, one, step) = search_from-qualified r0 rs i disqual q0 in
            subst (Found i (r0 ∷ rs)) (sym step) (
              Found-first i r0 rs _ (
                subst (λ b. Winner F c (suc i) b r0 rs (compete F c (suc i) r0 rs s)) at
                  (compete_lem F c rs (suc i) r0 s q0 (inl one) p.0 p.1)))
        | inr n0 ↦
            let (d, step) = search_from-not r0 rs i disqual n0 in
            let (k', e') = behind r0 rs k r e q n0 in
            subst (Found i (r0 ∷ rs)) (sym step)
              (Found-later i r0 rs _ n0 (search_from_lem rs (suc i) d p.1 k' r e' q))
      ]
    where
      behind :
          (r0 : ForeignMaster F.Time) (rs : List (ForeignMaster F.Time)) (k : ℕ)
          (r : ForeignMaster F.Time)
          → get_elem? (r0 ∷ rs) k ≡ some r
          → is_qualified (qualification F c r) ≡ true
          → is_qualified (qualification F c r0) ≡ false
          → (k' : ℕ) × (get_elem? rs k' ≡ some r)
      behind r0 rs zero r e q n = cc
      behind r0 rs (suc k) r e q n = (k, e)

  outcome :
      (s : Search) (o : ℕ)
      → Decides F c s
      → s.besti ≡ 0 + o
      → (if s.had_result || (s.number_records == 1) then some s.besti else none) ≡ some o
  outcome s o d e = ground arith

  -- Where the records announce different grandmasters and one of them is qualified, the search
  -- makes the best index that of a qualified record that no qualified record comes before, in the
  -- order of priority 1, the valid UTC offset where that is preferred, clock class, accuracy,
  -- variance, priority 2 and identity.
  pub best_record-IsBest :
      (records : List (ForeignMaster F.Time)) (k : ℕ) (r : ForeignMaster F.Time)
      → AllPairs (Differ F c) records
      → get_elem? records k ≡ some r
      → is_qualified (qualification F c r) ≡ true
      → (besti : ℕ) × (best : ForeignMaster F.Time) × (best_record F c records ≡ some besti)
        × (get_elem? records besti ≡ some best)
        × IsBest F c best records
  unfolding best_record
  best_record-IsBest records k r p e q =
      let f = search_from_lem records 0 false p k r e q in
      (
        f.offset,
        f.best,
        outcome (search_from F c 0 records false) f.offset f.decides f.besti_eq,
        f.here,
        f.is_best,
      )

  search_from-none :
      (records : List (ForeignMaster F.Time)) (i : ℕ) (disqual : Bool)
      → All (λ r. is_qualified (qualification F c r) ≡ false) records
      → ((search_from F c i records disqual).had_result ≡ false)
        × ((search_from F c i records disqual).number_records ≡ 0)
  unfolding search_from
  search_from-none [] i disqual h = (refl, refl)
  search_from-none (r ∷ rs) i disqual h =
      let (d, step) = search_from-not r rs i disqual h.0 in
      subst (λ s. (s.had_result ≡ false) × (s.number_records ≡ 0)) (sym step)
        (search_from-none rs (suc i) d h.1)

  -- Where no record is qualified, the search finds no best one.
  pub best_record-none :
      (records : List (ForeignMaster F.Time))
      → All (λ r. is_qualified (qualification F c r) ≡ false) records
      → best_record F c records ≡ none
  unfolding best_record
  best_record-none records h = let (a, b) = search_from-none records 0 false h in ground arith
