-- ===== src/Foreign/Insert.antt =====
-- What `insertIntoForeignMasterDS` does to the table of foreign masters.
use sfptpd.Prelude.{
  ℕ, ◌<◌, ◌≡◌, ◌≢◌, ◌⊎◌, inl, inr, refl, sym, ap, ◌∙◌, true, false, Option, none, some, List,
  get_elem?, get_elem?_in, get_elem?-set_ne, length-set, set, arith,
}
use mathlib.Core.Path.{subst}
use sfptpd.Time.Defs.{Timespec}
use sfptpd.Foreign.Defs.{
  PortIdentity, MsgHeader, MsgAnnounce, CommCaps, ForeignMaster, DataSet, same_port, update_record,
  record_announce, new_index, place_new, insert_new, insert_known, insert,
}
use sfptpd.Foreign.Index.{mod_next, mod_next_lt}
use sfptpd.Foreign.Find.{IsWellFormed, IsOf, IsNotOf, find_record_lem}

same_port_self : (p : PortIdentity) → same_port p p ≡ true
same_port_self p = ground arith

module _ {Time : Type 0} where
  -- The index of a new record is in the table, and is the first free one while there is one.
  pub new_index_lt : (ds : DataSet Time) → IsWellFormed ds → new_index ds < ds.max_records
  unfolding new_index
  new_index_lt ds wf = ground (arith, mod_next_lt ds.write_index ds.max_records wf.write_lt)

  new_index_free :
      (ds : DataSet Time)
      → IsWellFormed ds
      → ds.number_records < ds.max_records
      → new_index ds ≡ ds.number_records
  unfolding new_index
  new_index_free ds wf h = ground (arith, wf.write_eq h)

  -- In a table of two places or more, a new record leaves the best one alone.
  new_index_ne_best :
      (ds : DataSet Time)
      → IsWellFormed ds
      → 1 < ds.max_records
      → 0 < ds.number_records
      → new_index ds ≢ ds.best_index
  unfolding new_index
  new_index_ne_best ds wf h k = ground (arith, mod_next ds.write_index ds.max_records wf.write_lt)

  -- What an insertion leaves: the record of the port stands at the index with the message, every other record is as it was, and the data set is well formed.
  pub record IsInserted (header : MsgHeader) (announce : MsgAnnounce) (ds : DataSet Time) (i : ℕ)
      (ds' : DataSet Time) : Type 0 where
    pub written : ForeignMaster Time
    pub records_eq : ds'.records ≡ set ds.records i written
    pub port_eq : same_port header.source_port_identity written.port_identity ≡ true
    pub header_eq : written.header ≡ header
    pub announce_eq : written.announce ≡ announce
    pub index_lt : i < ds'.number_records
    pub best_eq : ds'.best_index ≡ ds.best_index
    pub well_formed : IsWellFormed ds'

  place_new-IsWellFormed :
      (ds : DataSet Time) (r : ForeignMaster Time)
      → IsWellFormed ds
      → IsWellFormed (place_new (new_index ds) r ds)
  unfolding place_new
  place_new-IsWellFormed ds r wf =
      let lt = new_index_lt ds wf in
      let free = new_index_free ds wf in
      let next = mod_next (new_index ds) ds.max_records lt in
      record {
        length_records = length-set ds.records (new_index ds) r ∙ wf.length_records;
        max_pos = wf.max_pos;
        number_le = ground arith;
        write_lt = mod_next_lt (new_index ds) ds.max_records lt;
        write_eq = λ h. ground arith;
        best_le = ground arith;
      }

  other_place :
      {port : PortIdentity} (records : List (ForeignMaster Time)) (i j : ℕ)
      (best : ForeignMaster Time)
      → IsOf port records i
      → get_elem? records j ≡ some best
      → same_port port best.port_identity ≡ false
      → i ≢ j
  other_place {port} records i j best of b other = λ q.
      let e : some of.found ≡ some best = sym of.here ∙ ap (get_elem? records) q ∙ b in
      let t : same_port port best.port_identity ≡ true =
        subst
          (λ (o : Option (ForeignMaster Time)). elim o [
            | none ↦ ⊥
            | some r ↦ same_port port r.port_identity ≡ true
          ])
          e of.same in
      cc

  inserted_elsewhere :
      (header : MsgHeader) (announce : MsgAnnounce) (ds : DataSet Time) (i : ℕ) (ds' : DataSet Time)
      → IsInserted header announce ds i ds'
      → i ≢ ds.best_index
      → get_elem? ds'.records ds'.best_index ≡ get_elem? ds.records ds.best_index
  inserted_elsewhere header announce ds i ds' post ne =
      rw (post.best_eq, post.records_eq) (get_elem?-set_ne ds.records post.written ne)

  module _ (header : MsgHeader) (announce : MsgAnnounce) (ds : DataSet Time) where
    place_new-IsInserted :
        (r : ForeignMaster Time)
        → IsWellFormed ds
        → same_port header.source_port_identity r.port_identity ≡ true
        → r.header ≡ header
        → r.announce ≡ announce
        → IsInserted header announce ds (new_index ds) (place_new (new_index ds) r ds)
    unfolding place_new
    place_new-IsInserted r wf p h a =
        let free = new_index_free ds wf in
        let lt = new_index_lt ds wf in
        record {
          written = r;
          records_eq = refl;
          port_eq = p;
          header_eq = h;
          announce_eq = a;
          index_lt = ground arith;
          best_eq = refl;
          well_formed = place_new-IsWellFormed ds r wf;
        }

    known-IsInserted :
        (i : ℕ) (r : ForeignMaster Time)
        → IsWellFormed ds
        → i < ds.number_records
        → same_port header.source_port_identity r.port_identity ≡ true
        → r.header ≡ header
        → r.announce ≡ announce
        → IsInserted header announce ds i (record ds { records = set ds.records i r })
    known-IsInserted i r wf lt p h a = record {
      written = r;
      records_eq = refl;
      port_eq = p;
      header_eq = h;
      announce_eq = a;
      index_lt = lt;
      best_eq = refl;
      well_formed = record {
        length_records = length-set ds.records i r ∙ wf.length_records;
        max_pos = wf.max_pos;
        number_le = wf.number_le;
        write_lt = wf.write_lt;
        write_eq = wf.write_eq;
        best_le = wf.best_le;
      };
    }

  module _ (now : Timespec) (header : MsgHeader) (announce : MsgAnnounce) (caps : CommCaps)
      (address : List ℕ) where
    -- A new master: the record is written at the new index.
    insert_new-IsInserted :
        (ds : DataSet Time)
        → IsWellFormed ds
        → (ds' : DataSet Time) × (insert_new now header announce caps address ds
            ≡ some (new_index ds, ds'))
          × IsInserted header announce ds (new_index ds) ds'
    unfolding insert_new update_record record_announce
    insert_new-IsInserted ds wf =
        let lt = new_index_lt ds wf in
        let (r, e) =
          get_elem?_in ds.records (new_index ds) (omega (arith, wf.length_records, lt)) in
        let fresh : ForeignMaster Time = record r {
          announce_times_write_idx = 0;
          announce_times_count = 0;
          port_identity = header.source_port_identity;
        } in
        let w = update_record now header announce caps address fresh in
        (
          place_new (new_index ds) w ds,
          rw (insert_new, e) refl,
          place_new-IsInserted header announce ds w wf (same_port_self header.source_port_identity)
              refl refl,
        )

    -- A known master: its record is written over.
    insert_known-IsInserted :
        (ds : DataSet Time) (i : ℕ)
        → IsWellFormed ds
        → i < ds.number_records
        → IsOf header.source_port_identity ds.records i
        → (ds' : DataSet Time) × (insert_known now header announce caps address ds i
            ≡ some (i, ds'))
          × IsInserted header announce ds i ds'
    unfolding insert_known update_record record_announce
    insert_known-IsInserted ds i wf lt of =
        let w = update_record now header announce caps address of.found in
        (
          record ds { records = set ds.records i w },
          rw (insert_known, of.here) refl,
          known-IsInserted header announce ds i w wf lt of.same refl refl,
        )

    -- Where the master of the message has no record in use, the insertion is that of a new one, and
    -- otherwise it writes over the record that the search found.
    pub insert_cases :
        (ds : DataSet Time)
        → IsWellFormed ds
        → ((insert now header announce caps address ds
              ≡ insert_new now header announce caps address ds)
            × ((i : ℕ) → i < ds.number_records → IsNotOf header.source_port_identity ds.records i))
          ⊎ ((i : ℕ) × (i < ds.number_records)
              × (insert now header announce caps address ds
                  ≡ insert_known now header announce caps address ds i)
              × IsOf header.source_port_identity ds.records i)
    unfolding insert
    insert_cases ds wf = elim (find_record_lem header ds wf) [
      | inl (f, absent) ↦ inl (rw (insert, f) refl, absent)
      | inr (i, lt, f, of) ↦ inr (i, lt, rw (insert, f) refl, of)
    ]

    -- An insertion into a well-formed data set stays inside the table and succeeds: the record at
    -- the index it returns is in use and has the port, the header and the announcement of the
    -- message, the other records and the best index are as they were, and the data set is
    -- well formed.
    pub insert-IsInserted :
        (ds : DataSet Time)
        → IsWellFormed ds
        → (i : ℕ) × (ds' : DataSet Time) × (insert now header announce caps address ds
            ≡ some (i, ds'))
          × IsInserted header announce ds i ds'
    insert-IsInserted ds wf = elim (insert_cases ds wf) [
      | inl (f, absent) ↦
          let (ds', e, post) = insert_new-IsInserted ds wf in (new_index ds, ds', f ∙ e, post)
      | inr (i, lt, f, of) ↦
          let (ds', e, post) = insert_known-IsInserted ds i wf lt of in (i, ds', f ∙ e, post)
    ]

    -- An insertion into a well-formed data set with a record in use and a table of two places or
    -- more leaves the best record alone where the message is of another port.
    pub insert-keeps_best :
        (ds : DataSet Time) (best : ForeignMaster Time)
        → IsWellFormed ds
        → 1 < ds.max_records
        → 0 < ds.number_records
        → get_elem? ds.records ds.best_index ≡ some best
        → same_port header.source_port_identity best.port_identity ≡ false
        → (i : ℕ) × (ds' : DataSet Time) × (insert now header announce caps address ds
            ≡ some (i, ds'))
          × (get_elem? ds'.records ds'.best_index ≡ some best)
    insert-keeps_best ds best wf h k b other = elim (insert_cases ds wf) [
      | inl (f, absent) ↦
          let (ds', e, post) = insert_new-IsInserted ds wf in
          (
            new_index ds,
            ds',
            f ∙ e,
            inserted_elsewhere header announce ds (new_index ds) ds' post
                  (new_index_ne_best ds wf h k)
                ∙ b,
          )
      | inr (i, lt, f, of) ↦
          let (ds', e, post) = insert_known-IsInserted ds i wf lt of in
          (
            i,
            ds',
            f ∙ e,
            inserted_elsewhere header announce ds i ds' post
                  (other_place ds.records i ds.best_index best of b other)
                ∙ b,
          )
    ]
