-- ===== src/Foreign/Expiry.antt =====
-- What `expireForeignMasterRecords` leaves of a data set, and where its `memmove` leaves the array.
use sfptpd.Prelude.{
  ℕ, zero, suc, ◌+◌, ◌-◌, ◌≤◌, ◌≡◌, refl, sym, ap, ◌∙◌, arith, Bool, true, false, none, some, List,
  [], ◌∷◌, ◌++◌, length, take, filter, get_elem?, length-append, ltb, if◌then◌else◌, ◌>>=◌,
  Bool-cases, inl, inr,
}
use mathlib.Core.List.{append_assoc, append-nil}
use sfptpd.Time.Defs.{Timespec}
use sfptpd.Foreign.Defs.{ForeignMaster, DataSet, latest_announce_qualifies}
use sfptpd.Foreign.Expire.{move_at, remove_record, expire_from, expire}
use sfptpd.Foreign.Moves.{
  get_elem?-append_mid, take-length_append, length-snoc, take-shorter, move_down_lem,
  move_down_short, move_at-append, move_at-append_none, move_at_cong,
}

-- The records in use are those that are kept.
pub record IsExpired {Time : Type 0} (kept : List (ForeignMaster Time)) (ds : DataSet Time)
    : Type 0 where
  pub in_use : take ds.number_records ds.records ≡ kept
  pub number : ds.number_records ≡ length kept

module _ {Time : Type 0}
    (splice : ℕ → ForeignMaster Time → ForeignMaster Time → ForeignMaster Time) where
  abbrev current : Timespec → ForeignMaster Time → Bool
  current threshold r = latest_announce_qualifies r threshold

  abbrev without : ℕ → List (ForeignMaster Time) → DataSet Time → DataSet Time
  without i l ds = record ds {
    records = l;
    number_records = ds.number_records - 1;
    write_index = if ltb i ds.write_index then ds.write_index - 1 else ds.write_index;
    best_index = if ltb i ds.best_index then ds.best_index - 1 else ds.best_index;
  }

  remove_record-some :
      (i : ℕ) (ds : DataSet Time) (l : List (ForeignMaster Time))
      → move_at (splice i) i (ds.number_records - 1) ds.records ≡ some l
      → remove_record splice i ds ≡ some (without i l ds)
  unfolding remove_record
  remove_record-some i ds l e = ground (arith, e)

  remove_record-none :
      (i : ℕ) (ds : DataSet Time)
      → move_at (splice i) i (ds.number_records - 1) ds.records ≡ none
      → remove_record splice i ds ≡ none
  unfolding remove_record
  remove_record-none i ds e = ground (arith, e)

  -- A round of the loop, by the record at the index.
  expire_from_kept :
      (threshold : Timespec) (left i : ℕ) (x : ForeignMaster Time) (ds : DataSet Time)
      → get_elem? ds.records i ≡ some x
      → latest_announce_qualifies x threshold ≡ true
      → expire_from splice threshold (suc left) i ds ≡ expire_from splice threshold left (suc i) ds
  unfolding expire_from
  expire_from_kept threshold left i x ds e q = rw (expire_from, e, q) refl

  expire_from_stale :
      (threshold : Timespec) (left i : ℕ) (x : ForeignMaster Time) (ds : DataSet Time)
      → get_elem? ds.records i ≡ some x
      → latest_announce_qualifies x threshold ≡ false
      → expire_from splice threshold (suc left) i ds
        ≡ (remove_record splice i ds >>= expire_from splice threshold left i)
  unfolding expire_from
  expire_from_stale threshold left i x ds e q = rw (expire_from, e, q) refl

  filter_cons :
      (p : ForeignMaster Time → Bool) (x : ForeignMaster Time) (pre l : List (ForeignMaster Time))
      → p x ≡ true
      → (pre ++ (x ∷ [])) ++ filter p l ≡ pre ++ filter p (x ∷ l)
  filter_cons p x pre l q = append_assoc pre (x ∷ []) (filter p l) ∙ rw q

  filter_skip :
      (p : ForeignMaster Time → Bool) (x : ForeignMaster Time) (l : List (ForeignMaster Time))
      → p x ≡ false
      → filter p l ≡ filter p (x ∷ l)
  filter_skip p x l q = rw q

  ended :
      (pre l : List (ForeignMaster Time)) (ds : DataSet Time)
      → ds.records ≡ pre ++ l
      → ds.number_records ≡ length pre
      → IsExpired (pre ++ []) ds
  ended pre l ds e n = record {
    in_use =
        ap (λ k. take k ds.records) n
        ∙ ap (take (length pre)) e
        ∙ take-length_append pre l
        ∙ sym (append-nil pre);
    number = omega (arith, n, ap length (append-nil pre));
  }

  IsExpired-of :
      (ds : DataSet Time) (kept kept' : List (ForeignMaster Time))
      → kept ≡ kept'
      → IsExpired kept ds
      → IsExpired kept' ds
  IsExpired-of ds kept kept' e k = record { in_use = k.in_use ∙ e; number = k.number ∙ ap length e }

  expire_from_lem :
      (threshold : Timespec) (left : ℕ) (pre l : List (ForeignMaster Time)) (ds : DataSet Time)
      → ds.records ≡ pre ++ l
      → ds.number_records ≡ length pre + left
      → length pre + left + left ≤ length l
      → (ds' : DataSet Time) × (expire_from splice threshold left (length pre) ds ≡ some ds')
        × IsExpired (pre ++ filter (current threshold) (take left l)) ds'
  unfolding expire_from
  expire_from_lem threshold zero pre l ds e n h = (ds, refl, ended pre l ds e (omega arith))
  expire_from_lem threshold (suc left) pre [] ds e n h = absurd (omega arith)
  expire_from_lem threshold (suc left) pre (x ∷ l) ds e n h =
      let here = ap (λ m. get_elem? m (length pre)) e ∙ get_elem?-append_mid pre x l in
      elim (Bool-cases (latest_announce_qualifies x threshold)) [
        | inl q ↦
            let (ds', e', k) =
              expire_from_lem threshold left (pre ++ (x ∷ [])) l ds
                (e ∙ sym (append_assoc pre (x ∷ []) l)) (omega (arith, length-append pre (x ∷ [])))
                (omega (arith, length-append pre (x ∷ []))) in
            (
              ds',
              expire_from_kept threshold left (length pre) x ds here q
                  ∙ ap (λ i. expire_from splice threshold left i ds) (length-snoc pre x)
                  ∙ e',
              IsExpired-of ds' _ _ (filter_cons (current threshold) x pre (take left l) q) k,
            )
        | inr q ↦
            let (l', m, moved) =
              move_down_lem (splice (length pre)) (length pre + left) x l (omega arith) in
            let at =
              move_at_cong (splice (length pre)) (length pre) _ (length pre + left) ds.records
                (pre ++ (x ∷ l)) (omega arith) e
              ∙ move_at-append (splice (length pre)) pre (length pre + left) (x ∷ l) l' m in
            let (ds', e', k) =
              expire_from_lem threshold left pre l' (without (length pre) (pre ++ l') ds) refl
                (omega arith) (omega (arith, moved.same_length)) in
            (
              ds',
              expire_from_stale threshold left (length pre) x ds here q
                  ∙ ap (λ o. o >>= expire_from splice threshold left (length pre))
                      (remove_record-some (length pre) ds (pre ++ l') at)
                  ∙ e',
              IsExpired-of ds' _ _
                  (ap (λ t. pre ++ filter (current threshold) t)
                      (take-shorter (length pre) left l' l moved.same_take)
                    ∙ ap (λ t. pre ++ t) (filter_skip (current threshold) x (take left l) q))
                  k,
            )
      ]

  expire_from-full_here :
      (threshold : Timespec) (x : ForeignMaster Time) (l pre : List (ForeignMaster Time))
      (ds : DataSet Time)
      → ds.records ≡ pre ++ (x ∷ l)
      → ds.number_records ≡ length pre + suc (length l)
      → latest_announce_qualifies x threshold ≡ false
      → expire_from splice threshold (suc (length l)) (length pre) ds ≡ none
  expire_from-full_here threshold x l pre ds e n q =
      let short =
        move_at_cong (splice (length pre)) (length pre) _ (length pre + length l) ds.records
          (pre ++ (x ∷ l)) (omega arith) e
        ∙ move_at-append_none (splice (length pre)) pre (length pre + length l) (x ∷ l)
            (move_down_short (splice (length pre)) (length pre + length l) (x ∷ l) (omega arith)) in
      expire_from_stale threshold (length l) (length pre) x ds
        (ap (λ m. get_elem? m (length pre)) e ∙ get_elem?-append_mid pre x l) q
      ∙ ap (λ o. o >>= expire_from splice threshold (length l) (length pre))
          (remove_record-none (length pre) ds short)

  expire_from-full :
      (threshold : Timespec) (l pre : List (ForeignMaster Time)) (j : ℕ) (r : ForeignMaster Time)
      (ds : DataSet Time)
      → ds.records ≡ pre ++ l
      → ds.number_records ≡ length pre + length l
      → get_elem? l j ≡ some r
      → latest_announce_qualifies r threshold ≡ false
      → expire_from splice threshold (length l) (length pre) ds ≡ none
  expire_from-full threshold [] pre j r ds e n g q = absurd (cc)
  expire_from-full threshold (x ∷ l) pre zero r ds e n g q =
      expire_from-full_here threshold x l pre ds e n
        (ap (λ o. elim o [ none ↦ false | some y ↦ latest_announce_qualifies y threshold ]) g ∙ q)
  expire_from-full threshold (x ∷ l) pre (suc j) r ds e n g q =
      elim (Bool-cases (latest_announce_qualifies x threshold)) [
        | inl p ↦
            expire_from_kept threshold (length l) (length pre) x ds
              (ap (λ m. get_elem? m (length pre)) e ∙ get_elem?-append_mid pre x l) p
            ∙ ap (λ i. expire_from splice threshold (length l) i ds) (length-snoc pre x)
            ∙ expire_from-full threshold l (pre ++ (x ∷ [])) j r ds
                (e ∙ sym (append_assoc pre (x ∷ []) l)) (omega (arith, length-append pre (x ∷ [])))
                g q
        | inr p ↦ expire_from-full_here threshold x l pre ds e n p
      ]

-- Where the array of foreign masters is at least twice as long as the number of records in use,
-- expireForeignMasterRecords does not leave the array, and the records in use afterwards are those
-- that were in use and have an announcement after the threshold, in their order.
pub expire-filter :
    {Time : Type 0} (splice : ℕ → ForeignMaster Time → ForeignMaster Time → ForeignMaster Time)
    (threshold : Timespec) (ds : DataSet Time)
    → ds.number_records + ds.number_records ≤ length ds.records
    → (ds' : DataSet Time) × (expire splice threshold ds ≡ some ds')
      × IsExpired
          (filter (λ r. latest_announce_qualifies r threshold) (take ds.number_records ds.records))
          ds'
unfolding expire
expire-filter splice threshold ds h =
    expire_from_lem splice threshold ds.number_records [] ds.records ds refl (omega arith)
      (omega arith)

-- Where every record of the array of foreign masters is in use and one of them has no announcement
-- after the threshold, expireForeignMasterRecords reads past the array.
pub expire-none :
    {Time : Type 0} (splice : ℕ → ForeignMaster Time → ForeignMaster Time → ForeignMaster Time)
    (threshold : Timespec) (ds : DataSet Time) (i : ℕ) (r : ForeignMaster Time)
    → ds.number_records ≡ length ds.records
    → get_elem? ds.records i ≡ some r
    → latest_announce_qualifies r threshold ≡ false
    → expire splice threshold ds ≡ none
unfolding expire
expire-none splice threshold ds i r n g q =
    ap (λ k. expire_from splice threshold k 0 ds) n
    ∙ expire_from-full splice threshold ds.records [] i r ds refl (omega arith) g q
