-- ===== src/Bmc/Parent.antt =====
-- The parent that a port has after `bmc` of ptp/ptpd2/bmc.c.
use sfptpd.Prelude.{
  ℕ, zero, suc, ◌+◌, ◌≤◌, ◌<◌, ◌≡◌, ◌≢◌, refl, ap, sym, ◌∙◌, arith, true, false, Option, some, none,
  get_elem?, get_elem?_in, get_elem?-set_self, get_elem?-set_ne, set, length, length-set, ◌==◌,
  Bool-cases, inl, inr,
}
use sfptpd.Foreign.Defs.{ForeignMaster, DataSet}
use sfptpd.Bmc.Defs.{TimeFloats, Context, is_qualified, qualification}
use sfptpd.Bmc.Delete.{Deletion, delete_round, delete_from, delete_unselected}

module _ (F : TimeFloats) (c : Context F) (best : ForeignMaster F.Time) where
  -- The best record is at the best index, which the loop has passed.
  record IsPassed (d : Deletion F.Time) : Type 0 where
    written : d.best < d.write
    here : get_elem? d.records d.best ≡ some best

  delete_round-qualified :
      (read : ℕ) (r : ForeignMaster F.Time) (d : Deletion F.Time)
      → is_qualified (qualification F c r) ≡ true
      → read ≢ d.best
      → delete_round F c read r d ≡ d
  unfolding delete_round
  delete_round-qualified read r d q n = ground arith

  delete_round-kept :
      (read : ℕ) (r : ForeignMaster F.Time) (d : Deletion F.Time)
      → is_qualified (qualification F c r) ≡ false
      → delete_round F c read r d
        ≡ record { write = suc d.write; best = d.best; records = set d.records d.write r }
  unfolding delete_round
  delete_round-kept read r d q = ground arith

  delete_round-best :
      (read : ℕ) (r : ForeignMaster F.Time) (d : Deletion F.Time)
      → is_qualified (qualification F c r) ≡ true
      → read ≡ d.best
      → delete_round F c read r d
        ≡ record { write = suc d.write; best = d.write; records = set d.records d.write r }
  unfolding delete_round
  delete_round-best read r d q e = ground arith

  delete_from-step :
      (left read : ℕ) (r : ForeignMaster F.Time) (d d' : Deletion F.Time)
      → get_elem? d.records read ≡ some r
      → delete_round F c read r d ≡ d'
      → delete_from F c (suc left) read d ≡ delete_from F c left (suc read) d'
  unfolding delete_from
  delete_from-step left read r d d' e e' =
      ap
        (λ o. elim o as (λ x. Option (Deletion F.Time)) [
          | none ↦ none
          | some q ↦ delete_from F c left (suc read) (delete_round F c read q d)
        ])
        e
      ∙ ap (delete_from F c left (suc read)) e'

  Result : ℕ → ℕ → Deletion F.Time → Type 0
  Result left read d =
      (d' : Deletion F.Time) × (delete_from F c left read d ≡ some d')
      × (get_elem? d'.records d'.best ≡ some best)

  passed :
      (left read : ℕ) (d : Deletion F.Time)
      → IsPassed d
      → d.write ≤ read
      → read + left ≤ length d.records
      → Result left read d
  unfolding delete_from Result
  passed zero read d p w l = (d, refl, p.here)
  passed (suc left) read d p w l =
      let (r, e) = get_elem?_in d.records read (omega arith) in
      elim (Bool-cases (is_qualified (qualification F c r))) [
        | inl q ↦
            let (d', e', h) = passed left (suc read) d p (omega arith) (omega arith) in
            (
              d',
              delete_from-step left read r d d e
                    (delete_round-qualified read r d q (λ b. omega (arith, b, p.written)))
                  ∙ e',
              h,
            )
        | inr n ↦
            let kept : Deletion F.Time = record {
              write = suc d.write;
              best = d.best;
              records = set d.records d.write r;
            } in
            let (d', e', h) =
              passed left (suc read) kept
                (record {
                  written = omega (arith, p.written);
                  here = get_elem?-set_ne d.records r (λ b. omega (arith, b, p.written)) ∙ p.here;
                })
                (omega arith) (omega (arith, length-set d.records d.write r)) in
            (d', delete_from-step left read r d kept e (delete_round-kept read r d n) ∙ e', h)
      ]

  coming :
      (left read : ℕ) (d : Deletion F.Time)
      → is_qualified (qualification F c best) ≡ true
      → get_elem? d.records d.best ≡ some best
      → read ≤ d.best
      → d.best < read + left
      → d.write ≤ read
      → read + left ≤ length d.records
      → Result left read d
  unfolding Result
  coming zero read d q b lo hi w l = absurd (omega arith)
  coming (suc left) read d q b lo hi w l =
      let (r, e) = get_elem?_in d.records read (omega arith) in
      elim (Bool-cases (read == d.best)) [
        | inl at ↦
            let here : d.best ≡ read = ground (arith, at) in
            let now : Deletion F.Time = record {
              write = suc d.write;
              best = d.write;
              records = set d.records d.write best;
            } in
            let (d', e', h) =
              passed left (suc read) now
                (record {
                  written = omega arith;
                  here = get_elem?-set_self d.records d.write best (omega arith);
                })
                (omega arith) (omega (arith, length-set d.records d.write best)) in
            (
              d',
              delete_from-step left read best d now (ap (get_elem? d.records) (sym here) ∙ b)
                    (delete_round-best read best d q (sym here))
                  ∙ e',
              h,
            )
        | inr before ↦
            let apart : read ≢ d.best = ground (arith, before) in
            elim (Bool-cases (is_qualified (qualification F c r))) [
              | inl q' ↦
                  let (d', e', h) =
                    coming left (suc read) d q b (omega (arith, apart)) (omega arith) (omega arith)
                      (omega arith) in
                  (
                    d',
                    delete_from-step left read r d d e (delete_round-qualified read r d q' apart)
                        ∙ e',
                    h,
                  )
              | inr n ↦
                  let kept : Deletion F.Time = record {
                    write = suc d.write;
                    best = d.best;
                    records = set d.records d.write r;
                  } in
                  let (d', e', h) =
                    coming left (suc read) kept q
                      (get_elem?-set_ne d.records r (λ s. omega (arith, s, apart)) ∙ b)
                      (omega (arith, apart)) (omega arith) (omega arith)
                      (omega (arith, length-set d.records d.write r)) in
                  (d', delete_from-step left read r d kept e (delete_round-kept read r d n) ∙ e', h)
            ]
      ]

  -- The best record is still at the best index after the deletion, where it is still qualified.
  pub delete_unselected-best :
      (ds : DataSet F.Time)
      → is_qualified (qualification F c best) ≡ true
      → get_elem? ds.records ds.best_index ≡ some best
      → ds.best_index < ds.number_records
      → ds.number_records ≤ length ds.records
      → (ds' : DataSet F.Time) × (delete_unselected F c ds ≡ some ds')
        × (get_elem? ds'.records ds'.best_index ≡ some best)
  unfolding delete_unselected Result
  delete_unselected-best ds q b lt le =
      let (d', e, h) =
        coming ds.number_records 0
          (record { write = 0; best = ds.best_index; records = ds.records }) q b (omega arith)
          (omega (arith, lt)) (omega arith) (omega (arith, le)) in
      (
        record ds {
          records = d'.records;
          number_records = d'.write;
          write_index = d'.write;
          best_index = d'.best;
        },
        ap
            (λ (o : Option (Deletion F.Time)). elim o as (λ x. Option (DataSet F.Time)) [
              | none ↦ none
              | some d ↦ some (record ds {
                records = d.records;
                number_records = d.write;
                write_index = d.write;
                best_index = d.best;
              })
            ])
            e,
        h,
      )
