-- ===== src/Bmc/Outcome.antt =====
-- ptp/ptpd2/bmc.c: what `bmc` makes of the parent of a port that chooses between masters.
use sfptpd.Prelude.{
  ℕ, zero, suc, ◌≤◌, ◌<◌, ◌≡◌, refl, ap, ◌∙◌, arith, Bool, true, false, ◌||◌, Option, some, none,
  List, [], ◌∷◌, take, get_elem?, length, ◌==◌, if◌then◌else◌,
}
use sfptpd.Sorting.{AllPairs}
use sfptpd.Time.Defs.{Timespec}
use sfptpd.Foreign.Defs.{MsgHeader, MsgAnnounce, ForeignMaster, DataSet}
use sfptpd.Bmc.Defs.{TimeFloats, Context, is_qualified, qualification, best_record}
use sfptpd.Bmc.Clock.{PortState, RunTimeOpts, Clock, state_decision}
use sfptpd.Bmc.Decision.{HasParent, state_decision-HasParent}
use sfptpd.Bmc.Rounds.{Differ, IsBest}
use sfptpd.Bmc.Best.{best_record-IsBest}
use sfptpd.Bmc.Parent.{delete_unselected-best}
use sfptpd.Bmc.Whole.{context_of, decide_best, bmc}

get_elem?-take {ℓ} :
    {A : Type ℓ} (n : ℕ) (xs : List A) (k : ℕ) (x : A)
    → get_elem? (take n xs) k ≡ some x
    → (k < n) × (get_elem? xs k ≡ some x)
get_elem?-take zero xs k x e = cc
get_elem?-take (suc n) [] k x e = cc
get_elem?-take (suc n) (y ∷ xs) zero x e = (omega arith, e)
get_elem?-take (suc n) (y ∷ xs) (suc k) x e =
    let (lt, e') = get_elem?-take n xs k x e in (omega arith, e')

chosen {ℓ} :
    {A : Type ℓ} (decides : Bool) (s i : ℕ) (f : ℕ → Option A) (z : Option A)
    → (if decides then some s else none) ≡ some i
    → (if decides then f s else z) ≡ f i
chosen true s i f z e = ap f (cc)
chosen false s i f z e = cc

admitted {ℓ} :
    {A : Type ℓ} (n : ℕ) (master_only : Bool) (y z : A)
    → 0 < n
    → master_only ≡ false
    → (if (n == 0) || master_only then y else z) ≡ z
admitted n m y z lt e = ground arith

module _ (F : TimeFloats) (offset discriminator_threshold : F.Time)
    (threshold later_threshold : Timespec) (opts : RunTimeOpts) (h : MsgHeader) (a : MsgAnnounce)
    (ds : DataSet F.Time) (c : Clock) where
  -- What the search for the best record and the deletion read.
  abbrev pub search : Context F
  search = context_of F offset discriminator_threshold opts c threshold

  abbrev pub deletion : Context F
  deletion = context_of F offset discriminator_threshold opts c later_threshold

  -- A port, its data set and its clock after `bmc`, which has made `best` the best record.
  pub record HasChosen (best : ForeignMaster F.Time) : Type 0 where
    pub state : PortState
    pub after : DataSet F.Time
    pub clock : Clock
    pub runs :
        bmc F offset discriminator_threshold threshold later_threshold opts h a ds c
        ≡ some (state, after, clock)
    pub at_best_index : get_elem? after.records after.best_index ≡ some best
    pub has_parent : HasParent best opts after.number_records h a c state clock

  decide_best-HasParent :
      (best : ForeignMaster F.Time) (besti : ℕ)
      → is_qualified (qualification F deletion best) ≡ true
      → get_elem? ds.records besti ≡ some best
      → besti < ds.number_records
      → ds.number_records ≤ length ds.records
      → bmc F offset discriminator_threshold threshold later_threshold opts h a ds c
        ≡ decide_best F deletion opts h a besti ds c
      → HasChosen best
  unfolding decide_best
  decide_best-HasParent best besti q e lt le run =
      let (ds', deleted, here) =
        delete_unselected-best F deletion best (record ds { best_index = besti }) q e lt le in
      let decision = state_decision best opts ds'.number_records h a c in
      record {
        state = decision.0;
        after = ds';
        clock = decision.1;
        runs = run ∙ rw deleted (rw here refl);
        at_best_index = here;
        has_parent = state_decision-HasParent best opts ds'.number_records h a c;
      }

  bmc-decides :
      (besti : ℕ)
      → 0 < ds.number_records
      → c.master_only ≡ false
      → best_record F search (take ds.number_records ds.records) ≡ some besti
      → bmc F offset discriminator_threshold threshold later_threshold opts h a ds c
        ≡ decide_best F deletion opts h a besti ds c
  unfolding bmc best_record
  bmc-decides besti lt m e =
      admitted ds.number_records c.master_only _ _ lt m
      ∙ chosen _ _ besti (λ i. decide_best F deletion opts h a i ds c) _ e

  -- Where the port is not master-only, the records in use are in the table and announce different
  -- grandmasters, one of them is qualified, and none of them that is qualified in the search is
  -- disqualified by the time of the deletion, bmc succeeds. There is a qualified record that no
  -- qualified record comes before; it is at the best index of the data set afterwards, and the port
  -- has the parent that belongs to the state returned: that record's port and grandmaster for a
  -- slave and a passive port, the clock itself for a master, and the parent before otherwise.
  pub bmc-HasParent :
      (k : ℕ) (r : ForeignMaster F.Time)
      → ds.number_records ≤ length ds.records
      → c.master_only ≡ false
      → AllPairs (Differ F search) (take ds.number_records ds.records)
      → get_elem? (take ds.number_records ds.records) k ≡ some r
      → is_qualified (qualification F search r) ≡ true
      → ((j : ℕ) (q : ForeignMaster F.Time)
          → get_elem? (take ds.number_records ds.records) j ≡ some q
          → is_qualified (qualification F search q) ≡ true
          → is_qualified (qualification F deletion q) ≡ true)
      → (best : ForeignMaster F.Time) × IsBest F search best (take ds.number_records ds.records)
        × HasChosen best
  bmc-HasParent k r le m p e q still =
      let (besti, best, found, at, is_best) =
        best_record-IsBest F search (take ds.number_records ds.records) k r p e q in
      let (lt, here) = get_elem?-take ds.number_records ds.records besti best at in
      (
        best,
        is_best,
        decide_best-HasParent best besti (still besti best at is_best.best_qualified) here lt le
            (bmc-decides besti (omega (arith, lt)) m found),
      )
