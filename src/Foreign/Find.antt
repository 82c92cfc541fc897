-- ===== src/Foreign/Find.antt =====
-- The search of `findForeignMasterRecord` visits every record in use, from the best one on.
use sfptpd.Prelude.{
  ℕ, zero, suc, ◌+◌, ◌-◌, ◌%◌, ◌<◌, ◌≤◌, ◌≡◌, ◌⊎◌, inl, inr, refl, sym, ◌∙◌, true, false, Option,
  none, some, List, get_elem?, get_elem?_in, length, arith, Bool-cases,
}
use mathlib.Core.Path.{subst}
use sfptpd.Foreign.Defs.{
  PortIdentity, MsgHeader, ForeignMaster, DataSet, same_port, find_from, find_record,
}
use sfptpd.Foreign.Index.{mod_next_lt, around, around-here, around-next, around_onto}

module _ {Time : Type 0} where
  -- The data set is one that its operations leave: the indices are in the table, and a table that
  -- is not full is filled from the front.
  pub record IsWellFormed (ds : DataSet Time) : Type 0 where
    pub length_records : length ds.records ≡ ds.max_records
    pub max_pos : 0 < ds.max_records
    pub number_le : ds.number_records ≤ ds.max_records
    pub write_lt : ds.write_index < ds.max_records
    pub write_eq : ds.number_records < ds.max_records → ds.write_index ≡ ds.number_records
    pub best_le : ds.best_index ≤ ds.number_records - 1

  -- The record at an index is of the port, or is of another one.
  pub record IsOf (port : PortIdentity) (records : List (ForeignMaster Time)) (i : ℕ) : Type 0 where
    pub found : ForeignMaster Time
    pub here : get_elem? records i ≡ some found
    pub same : same_port port found.port_identity ≡ true

  abbrev pub IsNotOf : PortIdentity → List (ForeignMaster Time) → ℕ → Type 0
  IsNotOf port records i =
      (r : ForeignMaster Time)
      → get_elem? records i ≡ some r
      → same_port port r.port_identity ≡ false

  -- What a search reports of `number` records: the index of a record of the port, or that there is
  -- none among the places that `visited` tells.
  abbrev pub Reports :
      PortIdentity → List (ForeignMaster Time) → ℕ → (ℕ → Type 0) → Option (Option ℕ) → Type 0
  Reports port records number visited result =
      ((result ≡ some none) × ((i : ℕ) → visited i → IsNotOf port records i))
      ⊎ ((i : ℕ) × (i < number) × (result ≡ some (some i)) × IsOf port records i)

  module _ (port : PortIdentity) (records : List (ForeignMaster Time)) where
    find_from-here :
        (number left j : ℕ) (r : ForeignMaster Time)
        → get_elem? records j ≡ some r
        → same_port port r.port_identity ≡ true
        → find_from port records number (suc left) j ≡ some (some j)
    unfolding find_from
    find_from-here number left j r e s = ground arith

    find_from-next :
        (number left j : ℕ) (r : ForeignMaster Time)
        → get_elem? records j ≡ some r
        → same_port port r.port_identity ≡ false
        → find_from port records number (suc left) j
          ≡ find_from port records number left ((j + 1) % number)
    unfolding find_from
    find_from-next number left j r e s = ground arith

    -- The places of one round and of the rounds after it.
    IsNotOf-step :
        (number left j : ℕ) (r : ForeignMaster Time)
        → j < number
        → suc left ≤ number
        → get_elem? records j ≡ some r
        → same_port port r.port_identity ≡ false
        → ((i : ℕ)
            → (d : ℕ) × (d < left) × (around number ((j + 1) % number) d ≡ i)
            → IsNotOf port records i)
        → (d : ℕ) → d < suc left
        → IsNotOf port records (around number j d)
    IsNotOf-step number left j r h l e s absent zero k =
        subst (λ i. IsNotOf port records i) (sym (around-here number j h)) (λ r' e'. cc)
    IsNotOf-step number left j r h l e s absent (suc d) k =
        absent _ (d, omega arith, around-next number j d h (omega arith))

    find_from_lem :
        (number left j : ℕ)
        → j < number
        → number ≤ length records
        → left ≤ number
        → Reports port records number
            (λ i. (d : ℕ) × (d < left) × (around number j d ≡ i))
            (find_from port records number left j)
    unfolding find_from
    find_from_lem number zero j h k l = inl (refl, λ i v. absurd (omega (arith, v.1)))
    find_from_lem number (suc left) j h k l =
        let (r, e) = get_elem?_in records j (omega arith) in
        let next_lt : (j + 1) % number < number = mod_next_lt j number h in
        let ih = find_from_lem number left ((j + 1) % number) next_lt k (omega arith) in
        elim (Bool-cases (same_port port r.port_identity)) [
          | inl s ↦
              inr
                (j, h, find_from-here number left j r e s, record { found = r; here = e; same = s })
          | inr s ↦ elim ih [
            | inl (f, absent) ↦ inl (
              find_from-next number left j r e s ∙ f,
              λ i v.
                  subst (λ m. IsNotOf port records m) v.2
                    (IsNotOf-step number left j r h l e s absent v.0 v.1),
            )
            | inr (i, lt, f, of) ↦ inr (i, lt, find_from-next number left j r e s ∙ f, of)
          ]
        ]

  -- A search of the whole table, from any place in it.
  find_cases :
      (port : PortIdentity) (records : List (ForeignMaster Time)) (number j : ℕ)
      → j ≤ number - 1
      → number ≤ length records
      → Reports port records number (λ i. i < number) (find_from port records number number j)
  unfolding find_from
  find_cases port records zero j h k = inl (refl, λ i v. absurd (omega (arith, v)))
  find_cases port records (suc n) j h k =
      elim (find_from_lem port records (suc n) (suc n) j (omega arith) k (omega arith)) [
        | inl (f, absent) ↦ inl (f, λ i v. absent i (around_onto (suc n) j i (omega arith) v))
        | inr found ↦ inr found
      ]

  -- The search ends inside the table: it reports the index of a record in use that is of the port
  -- of the message, or there is no such record. The data set is well formed.
  pub find_record_lem :
      (header : MsgHeader) (ds : DataSet Time)
      → IsWellFormed ds
      → Reports header.source_port_identity ds.records ds.number_records
          (λ i. i < ds.number_records)
          (find_record header ds)
  unfolding find_record
  find_record_lem header ds wf =
      elim (find_cases header.source_port_identity ds.records ds.number_records ds.best_index
        (omega (arith, wf.best_le)) (omega (arith, wf.length_records, wf.number_le))) [
          | inl (f, absent) ↦ inl (f, absent)
          | inr found ↦ inr found
        ]
