-- ===== src/Db/Array/Laws.antt =====
-- The array store keeps the promises of a store.

use sfptpd.Prelude.{
  Option, ℕ, zero, suc, ◌+◌, ◌≤◌, ◌<◌, ◌≡◌, inl, inr, refl, sym, ap, ◌∙◌, Bool, true, some, List,
  [], ◌∷◌, ◌++◌, map, length, length-set, length-replicate, get_elem?, set, get_elem?_lt, arith,
  leb, Bool-cases,
}
use sfptpd.Db.Store.{IsStore, first_where}
use sfptpd.Db.Array.{
  Slot, ArrayStore, array_create, foreach_from, array_foreach, find_from, array_find,
  array_get_data, array_set_data, array_ops,
}
use sfptpd.Db.Array.Live.{live, live-set, live-Position, entry, entry_at_eq}
use sfptpd.Db.Array.Free.{IsArray, HasMagic-set, IsChain-set, IsChain-populated}
use sfptpd.Db.Array.Insert.{get_header-eq, magic_of, length_middle, array_insert_lem}
use sfptpd.Db.Array.Delete.{array_delete_lem}

module _ {Record : Type 0} where
  -- `array_create` leaves an empty store.
  pub array_create-IsArray :
      (blank : Slot Record) (capacity : ℕ) → 0 < capacity → IsArray (array_create blank capacity)
  unfolding array_create live
  array_create-IsArray blank capacity lt = record {
    capacity_pos = lt;
    length_eq = length-replicate capacity blank;
    hwm_le = omega arith;
    magic = λ i l. absurd (omega (arith, l));
    count_eq = refl;
    freed = [];
    chain = tt;
    freed_lt = tt;
    freed_count = omega arith;
  }

  abbrev refs : List (ℕ × Record) → List ℕ
  refs l = map (λ p. p.0) l

  foreach_from-step :
      (ar : ArrayStore Record) (left index : ℕ) (h : Slot Record) (l : List (ℕ × Record))
      → index < ar.hwm
      → get_elem? ar.slots index ≡ some h
      → h.has_magic ≡ true
      → foreach_from ar left (suc index) ≡ some (refs l)
      → foreach_from ar (suc left) index ≡ some (refs (entry index h ++ l))
  unfolding foreach_from
  foreach_from-step ar left index h l lt e m rest = elim (Bool-cases h.populated) [
    | inl p ↦ ground arith
    | inr p ↦ ground arith
  ]

  find_from-step :
      (test : Record → Option Bool) (p : Record → Bool) (ar : ArrayStore Record) (left index : ℕ)
      (h : Slot Record) (l : List (ℕ × Record))
      → ((r : Record) → test r ≡ some (p r))
      → index < ar.hwm
      → get_elem? ar.slots index ≡ some h
      → h.has_magic ≡ true
      → find_from test ar left (suc index) ≡ some (first_where p l)
      → find_from test ar (suc left) index ≡ some (first_where p (entry index h ++ l))
  unfolding find_from
  find_from-step test p ar left index h l t lt e m rest = elim (Bool-cases h.populated) [
    | inl q ↦ elim (Bool-cases (p h.payload)) [
      | inl y ↦ ground (arith, t h.payload)
      | inr n ↦ ground (arith, t h.payload)
    ]
    | inr q ↦ ground arith
  ]

  foreach_from-live :
      (ar : ArrayStore Record) (left index : ℕ)
      → IsArray ar
      → index + left ≤ ar.hwm
      → foreach_from ar left index ≡ some (refs (live ar.slots left index))
  unfolding foreach_from live
  foreach_from-live ar zero index v le = refl
  foreach_from-live ar (suc left) index v le =
      let lt : index < ar.hwm = omega (arith, le) in
      let (h, e, m) = v.magic index lt in
      let rest = foreach_from-live ar left (suc index) v (omega (arith, le)) in
      foreach_from-step ar left index h (live ar.slots left (suc index)) lt e m rest
      ∙ ap (λ l. some (refs (l ++ live ar.slots left (suc index))))
          (sym (entry_at_eq ar.slots index h e))

  find_from-live :
      (test : Record → Option Bool) (p : Record → Bool) (ar : ArrayStore Record) (left index : ℕ)
      → ((r : Record) → test r ≡ some (p r))
      → IsArray ar
      → index + left ≤ ar.hwm
      → find_from test ar left index ≡ some (first_where p (live ar.slots left index))
  unfolding find_from live
  find_from-live test p ar zero index t v le = refl
  find_from-live test p ar (suc left) index t v le =
      let lt : index < ar.hwm = omega (arith, le) in
      let (h, e, m) = v.magic index lt in
      let rest = find_from-live test p ar left (suc index) t v (omega (arith, le)) in
      find_from-step test p ar left index h (live ar.slots left (suc index)) t lt e m rest
      ∙ ap (λ l. some (first_where p (l ++ live ar.slots left (suc index))))
          (sym (entry_at_eq ar.slots index h e))

  length-refs : (l : List (ℕ × Record)) → length (refs l) ≡ length l
  length-refs [] = refl
  length-refs (x ∷ l) = ap suc (length-refs l)

  pub array_foreach_lem :
      (ar : ArrayStore Record)
      → IsArray ar
      → array_foreach ar ≡ some (refs (live ar.slots ar.hwm 0))
  unfolding array_foreach
  array_foreach_lem ar v =
      let visited = foreach_from-live ar ar.hwm 0 v (omega arith) in
      let counted : length (refs (live ar.slots ar.hwm 0)) ≡ ar.count =
        omega (arith, length-refs (live ar.slots ar.hwm 0), v.count_eq) in
      ends ar (refs (live ar.slots ar.hwm 0)) v.hwm_le visited counted
    where
      ends :
          (ar : ArrayStore Record) (l : List ℕ)
          → ar.hwm ≤ ar.capacity
          → foreach_from ar ar.hwm 0 ≡ some l
          → length l ≡ ar.count
          → array_foreach ar ≡ some l
      ends ar l le e c = ground arith

  pub array_find_lem :
      (test : Record → Option Bool) (p : Record → Bool) (ar : ArrayStore Record)
      → ((r : Record) → test r ≡ some (p r))
      → IsArray ar
      → array_find test ar ≡ some (first_where p (live ar.slots ar.hwm 0))
  unfolding array_find
  array_find_lem test p ar t v =
      let fits : leb ar.hwm ar.capacity ≡ true = ground (arith, v.hwm_le) in
      rw (array_find, fits) (find_from-live test p ar ar.hwm 0 t v (omega arith))

  pub array_get_data_lem :
      (ar : ArrayStore Record) (j : ℕ) (r : Record) (xs ys : List (ℕ × Record))
      → IsArray ar
      → live ar.slots ar.hwm 0 ≡ xs ++ (j, r) ∷ ys
      → array_get_data j ar ≡ some r
  unfolding array_get_data
  array_get_data_lem ar j r xs ys v e =
      let p = live-Position ar.slots ar.hwm 0 j r xs ys e in
      let lt : j < ar.hwm = omega (arith, p.left_eq, p.index_eq) in
      let m = magic_of ar.slots j p.slot p.here (v.magic j lt) in
      rw (array_get_data, get_header-eq ar j p.slot lt p.here m) (ap some p.payload_eq)

  -- A write to a record in place.
  pub array_set_data_lem :
      (ar : ArrayStore Record) (j : ℕ) (r r' : Record) (xs ys : List (ℕ × Record))
      → IsArray ar
      → live ar.slots ar.hwm 0 ≡ xs ++ (j, r) ∷ ys
      → (ar' : ArrayStore Record) × (array_set_data j r' ar ≡ some ar')
        × IsArray ar'
        × (live ar'.slots ar'.hwm 0 ≡ xs ++ (j, r') ∷ ys)
  unfolding array_set_data
  array_set_data_lem ar j r r' xs ys v e =
      let p = live-Position ar.slots ar.hwm 0 j r xs ys e in
      let at : j ≡ p.before = omega (arith, p.index_eq) in
      let lt : j < ar.hwm = omega (arith, p.left_eq, p.index_eq) in
      let hwm_eq : ar.hwm ≡ j + suc p.after = omega (arith, p.left_eq, at) in
      let m = magic_of ar.slots j p.slot p.here (v.magic j lt) in
      let in_slots = get_elem?_lt ar.slots j p.slot p.here in
      let new : Slot Record = record (p.slot) { payload = r' } in
      let xs_eq : xs ≡ live ar.slots j 0 = p.xs_eq ∙ ap (λ n. live ar.slots n 0) (sym at) in
      let one : entry j new ≡ (j, r') ∷ [] = entry_full j new p.populated_eq in
      let written : live (set ar.slots j new) ar.hwm 0 ≡ xs ++ (j, r') ∷ ys =
        ap (λ n. live (set ar.slots j new) n 0) hwm_eq
        ∙ live-set ar.slots j p.after new in_slots
        ∙ ap (λ l. live ar.slots j 0 ++ (l ++ live ar.slots p.after (suc j))) one
        ∙ ap (λ l. l ++ (j, r') ∷ live ar.slots p.after (suc j)) (sym xs_eq)
        ∙ ap (λ l. xs ++ (j, r') ∷ l) (sym p.ys_eq) in
      (
        record ar { slots = set ar.slots j new },
        rw (array_set_data, get_header-eq ar j p.slot lt p.here m) refl,
        record {
          capacity_pos = v.capacity_pos;
          length_eq = length-set ar.slots j new ∙ v.length_eq;
          hwm_le = v.hwm_le;
          magic = λ i l. HasMagic-set ar.slots i j new m in_slots (λ _. v.magic i l);
          count_eq = omega (
            arith,
            v.count_eq,
            ap length e,
            ap length written,
            length_middle xs ys (j, r),
            length_middle xs ys (j, r'),
          );
          freed = v.freed;
          chain =
              IsChain-set ar.slots ar.first_freed v.freed j new
                (IsChain-populated ar.slots ar.first_freed v.freed j p.slot p.here p.populated_eq
                  v.chain)
                v.chain;
          freed_lt = v.freed_lt;
          freed_count = v.freed_count;
        },
        written,
      )
    where
      entry_full : (j : ℕ) (h : Slot Record) → h.populated ≡ true → entry j h ≡ (j, h.payload) ∷ []
      entry_full j h p = rw (entry, p) refl

  -- The array store is a store: no assertion of it fails, and its contents are the populated
  -- elements below the high water mark.
  unfoldable pub array-IsStore : (blank : Slot Record) → IsStore (array_ops blank)
  unfolding array_ops
  array-IsStore blank = record {
    IsValid = IsArray;
    contents = λ ar. live ar.slots ar.hwm 0;
    insert-contents = λ r ar v. array_insert_lem blank r ar v;
    delete-contents = λ ref r ar xs ys v e. array_delete_lem ar ref r xs ys v e;
    foreach-contents = λ ar v. array_foreach_lem ar v;
    free-contents = λ ar v e. refl;
    find-contents = λ test p ar t v. array_find_lem test p ar t v;
    get_data-contents = λ ref r ar xs ys v e. array_get_data_lem ar ref r xs ys v e;
    set_data-contents = λ ref r r' ar xs ys v e. array_set_data_lem ar ref r r' xs ys v e;
  }
