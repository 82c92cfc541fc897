-- ===== src/Bmc/Delete.antt =====
-- ptp/ptpd2/bmc.c: `deleteUnselectedMasters`, on the array of foreign masters.
use sfptpd.Prelude.{
  ℕ, zero, suc, ◌==◌, Option, none, some, List, get_elem?, set, if◌then◌else◌, ◌||◌, not,
}
use sfptpd.Foreign.Defs.{ForeignMaster, DataSet}
use sfptpd.Bmc.Defs.{TimeFloats, Context, is_qualified, qualification}

-- The variables of the loop: the write index, the best index and the array.
pub record Deletion (Time : Type 0) : Type 0 where
  pub write : ℕ
  pub best : ℕ
  pub records : List (ForeignMaster Time)

module _ (F : TimeFloats) where
  -- One round: the record `r` at `read` stays where it is not qualified or is the best one.
  unfoldable pub delete_round :
      Context F → ℕ → ForeignMaster F.Time → Deletion F.Time → Deletion F.Time
  delete_round c read r d =
      let q = is_qualified (qualification F c r) in
      let is_best = read == d.best in
      if not q || is_best
      then record {
        write = suc d.write;
        best = if q then d.write else d.best;
        records = set d.records d.write r;
      }
      else d

  -- The loop with `left` rounds to go; `none` is a read past the array.
  unfoldable pub delete_from : Context F → ℕ → ℕ → Deletion F.Time → Option (Deletion F.Time)
  unfolding delete_round
  delete_from c zero read d = some d
  delete_from c (suc left) read d = elim (get_elem? d.records read) [
    | none ↦ none
    | some r ↦ delete_from c left (suc read) (delete_round c read r d)
  ]

  -- `deleteUnselectedMasters`, where `c.threshold` is what it reads for itself.
  unfoldable pub delete_unselected : Context F → DataSet F.Time → Option (DataSet F.Time)
  unfolding delete_from
  delete_unselected c ds =
      elim (delete_from c ds.number_records 0
        (record { write = 0; best = ds.best_index; records = ds.records })) [
          | none ↦ none
          | some d ↦ some (record ds {
            records = d.records;
            number_records = d.write;
            write_index = d.write;
            best_index = d.best;
          })
        ]
