-- ===== src/Bmc/Rounds.antt =====
-- The rounds of the pairwise comparison of `bmc` keep the best of the records they have seen.
use sfptpd.Prelude.{
  ℕ, suc, ◌+◌, ◌≡◌, ◌≢◌, ◌⊎◌, inl, inr, refl, sym, ap, ◌∙◌, true, false, some, List, [], ◌∷◌,
  get_elem?, Bool-cases, arith,
}
use mathlib.Core.Path.{subst}
use sfptpd.Sorting.{All, AllPairs}
use sfptpd.Foreign.Defs.{ForeignMaster}
use sfptpd.Bmc.Defs.{TimeFloats, Context, Search, is_qualified, qualification, wins, round, compete}
use sfptpd.Bmc.Order.{gm_beats, gm_order, compare_records_lt, compare_records_ne}

module _ (F : TimeFloats) (c : Context F) where
  -- Two records announce different grandmasters.
  abbrev pub Differ : ForeignMaster F.Time → ForeignMaster F.Time → Type 0
  Differ r s = r.announce.grandmaster_identity ≢ s.announce.grandmaster_identity

  -- A record is qualified, and no qualified record of the list comes before it.
  pub record IsBest (best : ForeignMaster F.Time) (records : List (ForeignMaster F.Time))
      : Type 0 where
    pub best_qualified : is_qualified (qualification F c best) ≡ true
    pub none_before :
        All
          (λ r.
            is_qualified (qualification F c r) ≡ true → gm_beats c.prefer_utc_valid r best ≡ false)
          records

  -- The search of `bmc` has an outcome that it acts on.
  abbrev pub Decides : Search → Type 0
  Decides s = (s.number_records ≡ 1) ⊎ (s.had_result ≡ true)

  -- The winner of the rounds for `rs`, from index `i` on, against `best` at `besti`.
  pub record Winner (i : ℕ) (besti : ℕ) (best : ForeignMaster F.Time)
      (rs : List (ForeignMaster F.Time)) (result : Search) : Type 0 where
    pub winner : ForeignMaster F.Time
    pub place :
        ((result.besti ≡ besti) × (winner ≡ best))
        ⊎ ((k : ℕ) × (result.besti ≡ i + k) × (get_elem? rs k ≡ some winner))
    pub is_best : IsBest winner rs
    pub not_before : gm_beats c.prefer_utc_valid best winner ≡ false
    pub decides : Decides result

  beats_irrefl : (r : ForeignMaster F.Time) → gm_beats c.prefer_utc_valid r r ≡ false
  beats_irrefl r = elim (Bool-cases (gm_beats c.prefer_utc_valid r r)) [
    | inl e ↦ (gm_order c.prefer_utc_valid).asym r r e
    | inr e ↦ e
  ]

  -- What does not come before `b`, which does not come before `d`, does not come before `d`.
  not_before_trans :
      (a b d : ForeignMaster F.Time)
      → gm_beats c.prefer_utc_valid a b ≡ false
      → gm_beats c.prefer_utc_valid b d ≡ false
      → gm_beats c.prefer_utc_valid a d ≡ false
  not_before_trans a b d h k = elim (Bool-cases (gm_beats c.prefer_utc_valid a d)) [
    | inl e ↦ cc ((gm_order c.prefer_utc_valid).compare a d b e k)
    | inr e ↦ e
  ]

  compete-win :
      (i : ℕ) (best r : ForeignMaster F.Time) (rs : List (ForeignMaster F.Time)) (s : Search)
      → wins F c best r ≡ true
      → (compete F c i best (r ∷ rs) s ≡ compete F c (suc i) r rs (round F c i best r s))
        × ((round F c i best r s).besti ≡ i)
  unfolding compete round
  compete-win i best r rs s w = (rw w refl, rw w refl)

  compete-keep :
      (i : ℕ) (best r : ForeignMaster F.Time) (rs : List (ForeignMaster F.Time)) (s : Search)
      → wins F c best r ≡ false
      → (compete F c i best (r ∷ rs) s ≡ compete F c (suc i) best rs (round F c i best r s))
        × ((round F c i best r s).besti ≡ s.besti)
  unfolding compete round
  compete-keep i best r rs s w = (rw w refl, rw w refl)

  -- A round leaves the search with an outcome: a second qualified record gives a result.
  round-Decides :
      (i : ℕ) (best r : ForeignMaster F.Time) (s : Search)
      → Differ best r
      → Decides s
      → Decides (round F c i best r s)
  unfolding round
  round-Decides i best r s d dec =
      let ne = compare_records_ne F c r best (λ e. d (sym e)) in ground arith

  won :
      (i : ℕ) (best r : ForeignMaster F.Time) (rs : List (ForeignMaster F.Time)) (b besti : ℕ)
      (result : Search)
      → b ≡ i
      → gm_beats c.prefer_utc_valid best r ≡ false
      → Winner (suc i) b r rs result
      → Winner i besti best (r ∷ rs) result
  won i best r rs b besti result e lt ih = record {
    winner = ih.winner;
    place = elim ih.place [
      | inl (at, same) ↦ inr (0, omega (arith, at, e), ap some (sym same))
      | inr (k, at, here) ↦ inr (suc k, omega (arith, at), here)
    ];
    is_best = record {
      best_qualified = ih.is_best.best_qualified;
      none_before = (λ q. ih.not_before, ih.is_best.none_before);
    };
    not_before = not_before_trans best r ih.winner lt ih.not_before;
    decides = ih.decides;
  }

  kept :
      (i : ℕ) (best r : ForeignMaster F.Time) (rs : List (ForeignMaster F.Time)) (b besti : ℕ)
      (result : Search)
      → b ≡ besti
      → (is_qualified (qualification F c r) ≡ true → gm_beats c.prefer_utc_valid r best ≡ false)
      → Winner (suc i) b best rs result
      → Winner i besti best (r ∷ rs) result
  kept i best r rs b besti result e lt ih = record {
    winner = ih.winner;
    place = elim ih.place [
      | inl (at, same) ↦ inl (at ∙ e, same)
      | inr (k, at, here) ↦ inr (suc k, omega (arith, at), here)
    ];
    is_best = record {
      best_qualified = ih.is_best.best_qualified;
      none_before =
          (λ q. not_before_trans r best ih.winner (lt q) ih.not_before, ih.is_best.none_before);
    };
    not_before = ih.not_before;
    decides = ih.decides;
  }

  -- What a record that wins, and one that does not, is to the best one so far.
  wins-order :
      (best r : ForeignMaster F.Time)
      → Differ best r
      → wins F c best r ≡ true
      → (is_qualified (qualification F c r) ≡ true) × (gm_beats c.prefer_utc_valid best r ≡ false)
  unfolding wins
  wins-order best r d w =
      let e = compare_records_lt F c r best (λ p. d (sym p)) in
      (ground arith, (gm_order c.prefer_utc_valid).asym r best (sym e ∙ ground arith))

  loses-order :
      (best r : ForeignMaster F.Time)
      → Differ best r
      → wins F c best r ≡ false
      → is_qualified (qualification F c r) ≡ true
      → gm_beats c.prefer_utc_valid r best ≡ false
  unfolding wins
  loses-order best r d w q = sym (compare_records_lt F c r best (λ p. d (sym p))) ∙ ground arith

  pub compete_lem :
      (rs : List (ForeignMaster F.Time)) (i : ℕ) (best : ForeignMaster F.Time) (s : Search)
      → is_qualified (qualification F c best) ≡ true
      → Decides s
      → All (Differ best) rs
      → AllPairs Differ rs
      → Winner i s.besti best rs (compete F c i best rs s)
  unfolding compete
  compete_lem [] i best s q dec d p = record {
    winner = best;
    place = inl (refl, refl);
    is_best = record { best_qualified = q; none_before = tt };
    not_before = beats_irrefl best;
    decides = dec;
  }
  compete_lem (r ∷ rs) i best s q dec d p =
      let dec' = round-Decides i best r s d.0 dec in
      elim (Bool-cases (wins F c best r)) [
        | inl w ↦
            let (e, b) = compete-win i best r rs s w in
            let (qr, lt) = wins-order best r d.0 w in
            subst (Winner i s.besti best (r ∷ rs)) (sym e) (
              won i best r rs _ s.besti _ b lt
                (compete_lem rs (suc i) r (round F c i best r s) qr dec' p.0 p.1))
        | inr w ↦
            let (e, b) = compete-keep i best r rs s w in
            subst (Winner i s.besti best (r ∷ rs)) (sym e) (
              kept i best r rs _ s.besti _ b (loses-order best r d.0 w)
                (compete_lem rs (suc i) best (round F c i best r s) q dec' d.1 p.1))
      ]
