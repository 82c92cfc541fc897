-- ===== src/Bmc/Full.antt =====
-- A full table of foreign masters from which `deleteUnselectedMasters` deletes nothing: the write
-- index that it leaves.
use sfptpd.Prelude.{
  ℕ, zero, suc, ◌+◌, ◌≤◌, ◌≡◌, ◌⊎◌, inl, inr, refl, ap, ◌∙◌, true, false, none, some, List,
  get_elem?, get_elem?_in, get_elem?_out, set_same, length, arith, ◌==◌, Bool-cases,
}
use mathlib.Core.Path.{subst}
use sfptpd.Time.Defs.{Timespec}
use sfptpd.Foreign.Defs.{
  MsgHeader, MsgAnnounce, CommCaps, ForeignMaster, DataSet, find_record, new_index, insert_new,
  insert,
}
use sfptpd.Foreign.Find.{IsWellFormed, IsNotOf, find_record_lem}
use sfptpd.Bmc.Defs.{TimeFloats, Context, is_qualified, qualification}
use sfptpd.Bmc.Delete.{delete_round, delete_from, delete_unselected}

eq_self : (i : ℕ) → (i == i) ≡ true
eq_self i = ground arith

new_index_eq :
    {Time : Type 0} (ds : DataSet Time)
    → ds.write_index ≡ ds.number_records
    → new_index ds ≡ ds.write_index
unfolding new_index
new_index_eq ds w = ground arith

zero_plus : (n : ℕ) → 0 + n ≡ n
zero_plus n = omega arith

module _ (F : TimeFloats) (c : Context F) where
  -- No record in use but the best one is qualified.
  abbrev pub NoneQualifiedBut : DataSet F.Time → Type 0
  NoneQualifiedBut ds =
      (i : ℕ) (r : ForeignMaster F.Time)
      → get_elem? ds.records i ≡ some r
      → (is_qualified (qualification F c r) ≡ false) ⊎ (i ≡ ds.best_index)

  delete_round-stays :
      (i best : ℕ) (records : List (ForeignMaster F.Time)) (r : ForeignMaster F.Time)
      → get_elem? records i ≡ some r
      → (is_qualified (qualification F c r) ≡ false) ⊎ (i ≡ best)
      → delete_round F c i r (record { write = i; best = best; records = records })
        ≡ record { write = suc i; best = best; records = records }
  unfolding delete_round
  delete_round-stays i best records r e (inl n) = rw (n, set_same records i r e) refl
  delete_round-stays i best records r e (inr b) =
      subst
        (λ m.
          delete_round F c i r (record { write = i; best = m; records = records })
          ≡ record { write = suc i; best = m; records = records })
        b
        (elim (Bool-cases (is_qualified (qualification F c r))) [
          | inl q ↦ rw (q, eq_self i, set_same records i r e) refl
          | inr n ↦ rw (n, set_same records i r e) refl
        ])

  delete_from-stays :
      (ds : DataSet F.Time)
      → NoneQualifiedBut ds
      → (left read : ℕ) → read + left ≤ length ds.records
      → delete_from F c left read
          (record { write = read; best = ds.best_index; records = ds.records })
        ≡ some (record { write = read + left; best = ds.best_index; records = ds.records })
  unfolding delete_from
  delete_from-stays ds none_else zero read h =
      ap (λ n. some (record { write = n; best = ds.best_index; records = ds.records }))
        (omega arith)
  delete_from-stays ds none_else (suc left) read h =
      let (r, e) = get_elem?_in ds.records read (omega (arith, h)) in
      step ds left read r e
      ∙ ap (λ d. delete_from F c left (suc read) d)
          (delete_round-stays read ds.best_index ds.records r e (none_else read r e))
      ∙ delete_from-stays ds none_else left (suc read) (omega (arith, h))
      ∙ ap (λ n. some (record { write = n; best = ds.best_index; records = ds.records }))
          (omega arith)
    where
      step :
          (ds : DataSet F.Time) (left read : ℕ) (r : ForeignMaster F.Time)
          → get_elem? ds.records read ≡ some r
          → delete_from F c
              (suc left)
              read
              (record { write = read; best = ds.best_index; records = ds.records })
            ≡ delete_from F c left (suc read) (
                delete_round F c read r
                  (record { write = read; best = ds.best_index; records = ds.records }))
      step ds left read r e = rw (delete_from, e) refl

  -- What is left of a data set all of whose records stay.
  delete_unselected-stays :
      (ds : DataSet F.Time)
      → NoneQualifiedBut ds
      → ds.number_records ≤ length ds.records
      → delete_unselected F c ds ≡ some (record ds { write_index = ds.number_records })
  unfolding delete_unselected
  delete_unselected-stays ds none_else h =
      rw
        (
          delete_unselected,
          delete_from-stays ds none_else ds.number_records 0 (omega (arith, h)),
          zero_plus ds.number_records,
        )
        refl

  find_record-none :
      (ds : DataSet F.Time) (header : MsgHeader)
      → IsWellFormed ds
      → ((i : ℕ) → IsNotOf header.source_port_identity ds.records i)
      → find_record header ds ≡ some none
  find_record-none ds header wf absent = elim (find_record_lem header ds wf) [
    | inl (f, a) ↦ f
    | inr (i, lt, f, of) ↦ cc (absent i of.found of.here, of.same)
  ]

  -- A data set whose write index is past the table has no place for a new record.
  insert-past :
      (ds : DataSet F.Time) (now : Timespec) (header : MsgHeader) (announce : MsgAnnounce)
      (caps : CommCaps) (address : List ℕ)
      → find_record header ds ≡ some none
      → ds.write_index ≡ ds.number_records
      → length ds.records ≤ ds.write_index
      → insert now header announce caps address ds ≡ none
  unfolding insert insert_new
  insert-past ds now header announce caps address f w l =
      let e : new_index ds ≡ ds.write_index = new_index_eq ds w in
      let out : get_elem? ds.records (new_index ds) ≡ none =
        rw e (get_elem?_out ds.records ds.write_index l) in
      rw (insert, f, insert_new, out) refl

  -- Where the table is full and well formed, and every record of it but the best one is not
  -- qualified, `deleteUnselectedMasters` leaves a write index past the table: the insertion of a
  -- master that the table does not hold then writes outside it.
  pub insert-after_delete :
      (ds : DataSet F.Time) (now : Timespec) (header : MsgHeader) (announce : MsgAnnounce)
      (caps : CommCaps) (address : List ℕ)
      → IsWellFormed ds
      → ds.number_records ≡ ds.max_records
      → NoneQualifiedBut ds
      → ((i : ℕ) → IsNotOf header.source_port_identity ds.records i)
      → (ds' : DataSet F.Time) × (delete_unselected F c ds ≡ some ds')
        × (ds'.write_index ≡ ds.max_records)
        × (insert now header announce caps address ds' ≡ none)
  unfolding find_record
  insert-after_delete ds now header announce caps address wf full none_else absent = (
    record ds { write_index = ds.number_records },
    delete_unselected-stays ds none_else (omega (arith, wf.length_records, wf.number_le)),
    full,
    insert-past (record ds { write_index = ds.number_records }) now header announce caps address
        (find_record-none ds header wf absent) refl (omega (arith, wf.length_records, full)),
  )
