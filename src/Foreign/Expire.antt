-- ===== src/Foreign/Expire.antt =====
-- ptp/ptpd2/foreign.c: `expireForeignMasterRecords`.
use sfptpd.Prelude.{
  ℕ, zero, suc, ◌-◌, true, false, Option, none, some, List, [], ◌∷◌, ltb, get_elem?, if◌then◌else◌,
  ◌>>=◌,
}
use sfptpd.Time.Defs.{Timespec}
use sfptpd.Foreign.Defs.{ForeignMaster, DataSet, latest_announce_qualifies}

-- The call of `memmove` from the record at `i` + 1 to the one at `i`. Its length is
-- `sizeof *record * number_records - i - 1` octets: `full` = `number_records` - 1 whole records and
-- all but `i` + 1 octets of the next. What such a part of a record leaves of the record that it is
-- written to depends on the layout of the structure: `splice` is given the two, after the `i` that
-- it is for. `none` is a read past the array.
module _ {Time : Type 0}
    (splice : ForeignMaster Time → ForeignMaster Time → ForeignMaster Time) where
  unfoldable pub move_down : ℕ → List (ForeignMaster Time) → Option (List (ForeignMaster Time))
  move_down full [] = none
  move_down full (x ∷ []) = none
  move_down zero (x ∷ y ∷ l) = some (splice x y ∷ y ∷ l)
  move_down (suc full) (x ∷ y ∷ l) = do l' ← move_down full (y ∷ l); some (y ∷ l')

  unfoldable pub move_at : ℕ → ℕ → List (ForeignMaster Time) → Option (List (ForeignMaster Time))
  unfolding move_down
  move_at zero full l = move_down full l
  move_at (suc i) full [] = none
  move_at (suc i) full (x ∷ l) = do l' ← move_at i full l; some (x ∷ l')

module _ {Time : Type 0}
    (splice : ℕ → ForeignMaster Time → ForeignMaster Time → ForeignMaster Time) where
  -- The data set without the record at `i`.
  unfoldable pub remove_record : ℕ → DataSet Time → Option (DataSet Time)
  unfolding move_at
  remove_record i ds = do
    l ← move_at (splice i) i (ds.number_records - 1) ds.records
    some (record ds {
      records = l;
      number_records = ds.number_records - 1;
      write_index = if ltb i ds.write_index then ds.write_index - 1 else ds.write_index;
      best_index = if ltb i ds.best_index then ds.best_index - 1 else ds.best_index;
    })

  -- The loop at the index `i`, with `left` = `number_records` - `i` records to go: a round either
  -- removes a record or goes on to the next.
  unfoldable pub expire_from : Timespec → ℕ → ℕ → DataSet Time → Option (DataSet Time)
  unfolding remove_record
  expire_from threshold zero i ds = some ds
  expire_from threshold (suc left) i ds = elim (get_elem? ds.records i) [
    | none ↦ none
    | some r ↦ elim (latest_announce_qualifies r threshold) [
      | true ↦ expire_from threshold left (suc i) ds
      | false ↦ remove_record i ds >>= expire_from threshold left i
    ]
  ]

  -- `expireForeignMasterRecords`.
  unfoldable pub expire : Timespec → DataSet Time → Option (DataSet Time)
  unfolding expire_from
  expire threshold ds = expire_from threshold ds.number_records 0 ds
