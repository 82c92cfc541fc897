-- ===== src/Db/Array/Delete.antt =====
-- A deletion from an array store: `array_delete` lowers the high water mark or frees the element.
use mathlib.Core.Path.{subst}
use sfptpd.Prelude.{
  ℕ, suc, ◌+◌, ◌-◌, ◌<◌, ◌≡◌, ◌≢◌, refl, sym, ap, ◌∙◌, true, false, some, List, [], ◌∷◌, ◌++◌,
  length, length-set, get_elem?, set, set-set, get_elem?-set_self, get_elem?_lt, arith, ◌==◌,
  if_cases,
}
use sfptpd.Sorting.{All}
use sfptpd.Db.Array.{Slot, ArrayStore, release, array_delete}
use sfptpd.Db.Array.Live.{live, live-set, live-set_outside, live-Position}
use sfptpd.Db.Array.Free.{
  IsChain, IsArray, HasMagic, IsChain-set, IsChain-populated, HasMagic-set, All-strengthen,
}
use sfptpd.Db.Array.Insert.{get_header-eq, magic_of, length_middle}

module _ {Record : Type 0} where
  -- What is left after a deletion.
  record Leaves (xs ys : List (ℕ × Record)) (ar' : ArrayStore Record) : Type 0 where
    is_array : IsArray ar'
    live_eq : live ar'.slots ar'.hwm 0 ≡ xs ++ ys

  module _ (ar : ArrayStore Record) (j after : ℕ) (r : Record) (old : Slot Record) (v : IsArray ar)
      (hwm_eq : ar.hwm ≡ j + suc after) (here : get_elem? ar.slots j ≡ some old)
      (populated : old.populated ≡ true)
      (all_live : live ar.slots ar.hwm 0
        ≡ live ar.slots j 0 ++ (j, r) ∷ live ar.slots after (suc j)) where
    abbrev marked : Slot Record
    marked = record old { populated = false }

    abbrev before_count : ArrayStore Record
    before_count = record ar { slots = set ar.slots j marked; count = ar.count - 1 }

    in_slots : j < length ar.slots
    in_slots = get_elem?_lt ar.slots j old here

    has_magic : old.has_magic ≡ true
    has_magic = magic_of ar.slots j old here (v.magic j (omega (arith, hwm_eq)))

    count_rest : ar.count ≡ suc (length (live ar.slots j 0 ++ live ar.slots after (suc j)))
    count_rest =
        v.count_eq
        ∙ ap length all_live
        ∙ length_middle (live ar.slots j 0) (live ar.slots after (suc j)) (j, r)

    not_freed : All (λ k. k ≢ j) v.freed
    not_freed = IsChain-populated ar.slots ar.first_freed v.freed j old here populated v.chain

    -- The last record: the array starts again.
    release-last :
        ar.count - 1 ≡ 0
        → Leaves (live ar.slots j 0) (live ar.slots after (suc j)) (record before_count { hwm = 0 })
    unfolding live
    release-last e = record {
      is_array = record {
        capacity_pos = v.capacity_pos;
        length_eq = length-set ar.slots j marked ∙ v.length_eq;
        hwm_le = omega arith;
        magic = λ i l. absurd (omega (arith, l));
        count_eq = e;
        freed = [];
        chain = tt;
        freed_lt = tt;
        freed_count = omega (arith, e);
      };
      live_eq = empty_list _ (omega (arith, count_rest, e));
    }
      where
        empty_list : (l : List (ℕ × Record)) → length l ≡ 0 → [] ≡ l
        empty_list [] h = refl
        empty_list (x ∷ l) h = absurd (omega (arith, h))

    -- The record below the high water mark, which is lowered.
    release-top :
        j + 1 ≡ ar.hwm
        → Leaves
            (live ar.slots j 0)
            (live ar.slots after (suc j))
            (record before_count { hwm = ar.hwm - 1 })
    unfolding live
    release-top e =
        let top : ar.hwm - 1 ≡ j = omega (arith, e) in
        let kept : live (set ar.slots j marked) (ar.hwm - 1) 0
            ≡ live ar.slots j 0 ++ live ar.slots after (suc j) =
          ap (λ n. live (set ar.slots j marked) n 0) top
          ∙ live-set_outside ar.slots j j marked (omega arith)
          ∙ sym (append_nil (live ar.slots j 0))
          ∙ ap (λ n. live ar.slots j 0 ++ live ar.slots n (suc j)) (none_after e) in
        record {
          is_array = record {
            capacity_pos = v.capacity_pos;
            length_eq = length-set ar.slots j marked ∙ v.length_eq;
            hwm_le = omega (arith, v.hwm_le);
            magic = λ i l.
                HasMagic-set ar.slots i j marked has_magic in_slots
                  (λ _. v.magic i (omega (arith, l)));
            count_eq = omega (arith, count_rest, ap length kept);
            freed = v.freed;
            chain = IsChain-set ar.slots ar.first_freed v.freed j marked not_freed v.chain;
            freed_lt =
                subst (λ n. All (λ k. k < n) v.freed) (sym top)
                  (All-strengthen j v.freed
                    (subst (λ n. All (λ k. k < n) v.freed) (suc_top e) v.freed_lt) not_freed);
            freed_count = omega (arith, v.freed_count, count_rest, e);
          };
          live_eq = kept;
        }
      where
        append_nil : (l : List (ℕ × Record)) → l ++ [] ≡ l
        append_nil [] = refl
        append_nil (x ∷ l) = ap (λ m. x ∷ m) (append_nil l)

        none_after : j + 1 ≡ ar.hwm → 0 ≡ after
        none_after e = omega (arith, e, hwm_eq)

        suc_top : j + 1 ≡ ar.hwm → ar.hwm ≡ suc j
        suc_top e = omega (arith, e)

    abbrev linked : Slot Record
    linked = record marked { next_freed = ar.first_freed }

    -- Any other record, whose element becomes the first freed one.
    release-inner :
        Leaves
          (live ar.slots j 0)
          (live ar.slots after (suc j))
          (record before_count { slots = set (set ar.slots j marked) j linked; first_freed = j })
    release-inner =
        let twice = set-set ar.slots j marked linked in
        let kept : live (set (set ar.slots j marked) j linked) ar.hwm 0
            ≡ live ar.slots j 0 ++ live ar.slots after (suc j) =
          ap (λ l. live l ar.hwm 0) twice
          ∙ ap (λ n. live (set ar.slots j linked) n 0) hwm_eq
          ∙ live-set ar.slots j after linked in_slots in
        record {
          is_array = record {
            capacity_pos = v.capacity_pos;
            length_eq = ap length twice ∙ length-set ar.slots j linked ∙ v.length_eq;
            hwm_le = v.hwm_le;
            magic = λ i l.
                subst (λ s. HasMagic s i) (sym twice)
                  (HasMagic-set ar.slots i j linked has_magic in_slots (λ _. v.magic i l));
            count_eq = omega (arith, count_rest, ap length kept);
            freed = j ∷ v.freed;
            chain =
                subst (λ s. IsChain s j (j ∷ v.freed)) (sym twice)
                  (
                    refl,
                    not_freed,
                    linked,
                    get_elem?-set_self ar.slots j linked in_slots,
                    refl,
                    IsChain-set ar.slots ar.first_freed v.freed j linked not_freed v.chain,
                  );
            freed_lt = (omega (arith, hwm_eq), v.freed_lt);
            freed_count = omega (arith, v.freed_count, count_rest);
          };
          live_eq = kept;
        }

    release-Leaves :
        Leaves (live ar.slots j 0) (live ar.slots after (suc j)) (release j marked before_count)
    unfolding release
    release-Leaves =
        if_cases (Leaves (live ar.slots j 0) (live ar.slots after (suc j))) (ar.count - 1 == 0) _ _
          (λ e. release-last (eq_of _ _ e))
          (λ _.
            if_cases (Leaves (live ar.slots j 0) (live ar.slots after (suc j))) (j + 1 == ar.hwm) _
              _ (λ e. release-top (eq_of _ _ e)) (λ _. release-inner))
      where
        eq_of : (a b : ℕ) → (a == b) ≡ true → a ≡ b
        eq_of a b e = ground arith

    delete-eq : array_delete j ar ≡ some (release j marked before_count)
    unfolding array_delete
    delete-eq =
        rw (array_delete, get_header-eq ar j old (omega (arith, hwm_eq)) here has_magic) refl

  -- A deletion takes out the record at the index.
  pub array_delete_lem :
      (ar : ArrayStore Record) (j : ℕ) (r : Record) (xs ys : List (ℕ × Record))
      → IsArray ar
      → live ar.slots ar.hwm 0 ≡ xs ++ (j, r) ∷ ys
      → (ar' : ArrayStore Record) × (array_delete j ar ≡ some ar')
        × IsArray ar'
        × (live ar'.slots ar'.hwm 0 ≡ xs ++ ys)
  array_delete_lem ar j r xs ys v e =
      let p = live-Position ar.slots ar.hwm 0 j r xs ys e in
      let at : j ≡ p.before = omega (arith, p.index_eq) in
      let hwm_eq : ar.hwm ≡ j + suc p.after = omega (arith, p.left_eq, at) in
      let xs_eq : xs ≡ live ar.slots j 0 = p.xs_eq ∙ ap (λ n. live ar.slots n 0) (sym at) in
      let all_live : live ar.slots ar.hwm 0
          ≡ live ar.slots j 0 ++ (j, r) ∷ live ar.slots p.after (suc j) =
        e ∙ ap (λ l. l ++ (j, r) ∷ ys) xs_eq ∙ ap (λ l. live ar.slots j 0 ++ (j, r) ∷ l) p.ys_eq in
      let left = release-Leaves ar j p.after r p.slot v hwm_eq p.here p.populated_eq all_live in
      (
        _,
        delete-eq ar j p.after r p.slot v hwm_eq p.here p.populated_eq all_live,
        left.is_array,
        left.live_eq
            ∙ ap (λ l. l ++ live ar.slots p.after (suc j)) (sym xs_eq)
            ∙ ap (λ l. xs ++ l) (sym p.ys_eq),
      )
