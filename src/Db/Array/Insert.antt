-- ===== src/Db/Array/Insert.antt =====
-- An insertion into an array store: `array_insert` appends or uses a freed element again.
use mathlib.Core.Path.{subst}
use sfptpd.Prelude.{
  ℕ, suc, ◌+◌, ◌-◌, ◌*◌, ◌≤◌, ◌<◌, ◌≡◌, ◌≢◌, inl, inr, refl, sym, ap, ◌∙◌, true, false, some, List,
  [], ◌∷◌, ◌++◌, length, length-append, length-set, length-replicate, get_elem?, set, replicate,
  get_elem?_in, get_elem?-append, arith, ◌==◌, leb, Bool-cases, if_cases,
}
use sfptpd.Sorting.{All}
use sfptpd.Db.Array.{
  Slot, ArrayStore, get_header, put_slot, filled, append_record, reuse_freed, grow, array_insert,
}
use sfptpd.Db.Array.Live.{live, live_around, live-set, live_congr, entry}
use sfptpd.Db.Array.Free.{
  IsChain, IsArray, HasMagic, IsChain-set, IsChain-append, HasMagic-set, HasMagic-append,
}

-- The window of an array at one of its elements.
pub hwm_around : (j hwm : ℕ) → j < hwm → (b : ℕ) × (hwm ≡ j + suc b)
hwm_around j hwm lt = (hwm - suc j, omega arith)

module _ {Record : Type 0} where
  pub get_header-eq :
      (ar : ArrayStore Record) (i : ℕ) (h : Slot Record)
      → i < ar.hwm
      → get_elem? ar.slots i ≡ some h
      → h.has_magic ≡ true
      → get_header ar i ≡ some h
  unfolding get_header
  get_header-eq ar i h lt e m = ground arith

  put_slot-eq :
      (i : ℕ) (h : Slot Record) (slots : List (Slot Record))
      → i < length slots
      → put_slot i h slots ≡ some (set slots i h)
  unfolding put_slot
  put_slot-eq i h slots lt = ground arith

  live_end :
      (slots : List (Slot Record)) (n : ℕ) (next : ℕ) (r : Record)
      → n < length slots
      → live (set slots n (filled next r)) (n + 1) 0 ≡ live slots n 0 ++ (n, r) ∷ []
  unfolding live
  live_end slots n next r lt = live-set slots n 0 (filled next r) lt

  -- The element past the high water mark is filled.
  append_record-IsArray :
      (r : Record) (ar : ArrayStore Record)
      → IsArray ar
      → ar.count ≡ ar.hwm
      → ar.hwm < ar.capacity
      → (ar' : ArrayStore Record) × (append_record r ar ≡ some (ar.hwm, ar'))
        × IsArray ar'
        × (live ar'.slots ar'.hwm 0 ≡ live ar.slots ar.hwm 0 ++ (ar.hwm, r) ∷ [])
  unfolding append_record
  append_record-IsArray r ar v full lt =
      let in_slots : ar.hwm < length ar.slots = omega (arith, v.length_eq) in
      let (old, at) = get_elem?_in ar.slots ar.hwm in_slots in
      let new = filled old.next_freed r in
      let ends = live_end ar.slots ar.hwm old.next_freed r in_slots in
      (
        record ar { slots = set ar.slots ar.hwm new; hwm = ar.hwm + 1; count = ar.count + 1 },
        rw (append_record, at, put_slot-eq ar.hwm new ar.slots in_slots) refl,
        record {
          capacity_pos = v.capacity_pos;
          length_eq = length-set ar.slots ar.hwm new ∙ v.length_eq;
          hwm_le = omega arith;
          magic = λ i l.
              HasMagic-set ar.slots i ar.hwm new refl in_slots
                (λ ne. v.magic i (below i ar.hwm l ne));
          count_eq = omega (
            arith,
            v.count_eq,
            ap length ends,
            length-append (live ar.slots ar.hwm 0) ((ar.hwm, r) ∷ []),
          );
          freed = [];
          chain = tt;
          freed_lt = tt;
          freed_count = omega (arith, full);
        },
        ends,
      )
    where
      below : (i n : ℕ) → i < n + 1 → i ≢ n → i < n
      below i n l ne = ground arith

  pub magic_of :
      (slots : List (Slot Record)) (i : ℕ) (h : Slot Record)
      → get_elem? slots i ≡ some h
      → HasMagic slots i
      → h.has_magic ≡ true
  magic_of slots i h e (g, at, m) = cc

  pub length_middle :
      (xs ys : List (ℕ × Record)) (x : ℕ × Record) → length (xs ++ x ∷ ys) ≡ suc (length (xs ++ ys))
  length_middle xs ys x = omega (arith, length-append xs (x ∷ ys), length-append xs ys)

  -- A freed element is filled again.
  abbrev Reuses : Record → ArrayStore Record → Type 0
  Reuses r ar =
      (ar' : ArrayStore Record) × (xs : List (ℕ × Record)) × (ys : List (ℕ × Record)) × (reuse_freed
          r ar
        ≡ some (ar.first_freed, ar'))
      × IsArray ar'
      × (live ar.slots ar.hwm 0 ≡ xs ++ ys)
      × (live ar'.slots ar'.hwm 0 ≡ xs ++ (ar.first_freed, r) ∷ ys)

  reuse_first :
      (r : Record) (ar : ArrayStore Record) (i : ℕ) (is : List ℕ)
      → IsArray ar
      → IsChain ar.slots ar.first_freed (i ∷ is)
      → All (λ k. k < ar.hwm) (i ∷ is)
      → length (i ∷ is) + ar.count ≡ ar.hwm
      → Reuses r ar
  unfolding reuse_freed
  reuse_first r ar i is v (e, distinct, h, at, empty, chain) lts cnt =
      let j = ar.first_freed in
      let lt : j < ar.hwm = omega (arith, lts.0, e) in
      let in_slots : j < length ar.slots = omega (arith, v.length_eq, v.hwm_le) in
      let here : get_elem? ar.slots j ≡ some h = ap (get_elem? ar.slots) e ∙ at in
      let m = magic_of ar.slots j h here (v.magic j lt) in
      let new = filled h.next_freed r in
      let (b, hwm_eq) = hwm_around j ar.hwm lt in
      let xs = live ar.slots j 0 in
      let ys = live ar.slots b (suc j) in
      let old_live : live ar.slots ar.hwm 0 ≡ xs ++ ys =
        ap (λ n. live ar.slots n 0) hwm_eq
        ∙ live_around ar.slots j b h here
        ∙ ap (λ l. xs ++ (l ++ ys)) (entry_empty j h empty) in
      let new_live : live (set ar.slots j new) ar.hwm 0 ≡ xs ++ (j, r) ∷ ys =
        ap (λ n. live (set ar.slots j new) n 0) hwm_eq ∙ live-set ar.slots j b new in_slots in
      (
        record ar { slots = set ar.slots j new; first_freed = h.next_freed; count = ar.count + 1 },
        xs,
        ys,
        rw (reuse_freed, get_header-eq ar j h lt here m, empty, put_slot-eq j new ar.slots in_slots)
            refl,
        record {
          capacity_pos = v.capacity_pos;
          length_eq = length-set ar.slots j new ∙ v.length_eq;
          hwm_le = v.hwm_le;
          magic = λ k l. HasMagic-set ar.slots k j new refl in_slots (λ _. v.magic k l);
          count_eq = omega (
            arith,
            v.count_eq,
            ap length old_live,
            ap length new_live,
            length_middle xs ys (j, r),
          );
          freed = is;
          chain =
              IsChain-set ar.slots h.next_freed is j new
                (subst (λ k. All (λ m. m ≢ k) is) (sym e) distinct) chain;
          freed_lt = lts.1;
          freed_count = omega (arith, cnt);
        },
        old_live,
        new_live,
      )
    where
      entry_empty : (j : ℕ) (h : Slot Record) → h.populated ≡ false → entry j h ≡ []
      entry_empty j h p = rw (entry, p) refl

  reuse_from :
      (r : Record) (ar : ArrayStore Record) (is : List ℕ)
      → IsArray ar
      → ar.count ≢ ar.hwm
      → IsChain ar.slots ar.first_freed is
      → All (λ k. k < ar.hwm) is
      → length is + ar.count ≡ ar.hwm
      → Reuses r ar
  reuse_from r ar [] v ne c lts cnt = absurd (ne (omega (arith, cnt)))
  reuse_from r ar (i ∷ is) v ne c lts cnt = reuse_first r ar i is v c lts cnt

  -- What a larger memory keeps.
  record Grows (ar ar' : ArrayStore Record) : Type 0 where
    is_array : IsArray ar'
    hwm_eq : ar'.hwm ≡ ar.hwm
    count_eq : ar'.count ≡ ar.count
    room : ar.hwm < ar'.capacity
    live_eq : live ar'.slots ar'.hwm 0 ≡ live ar.slots ar.hwm 0

  grow-Grows :
      (blank : Slot Record) (ar : ArrayStore Record)
      → IsArray ar
      → ar.count ≡ ar.hwm
      → Grows ar (grow blank ar)
  unfolding grow
  grow-Grows blank ar v full =
      if_cases (Grows ar) (ar.count == ar.capacity) _ _ (λ _. doubled)
        (λ n. record {
          is_array = v;
          hwm_eq = refl;
          count_eq = refl;
          room = room_left n;
          live_eq = refl;
        })
    where
      room_left : (ar.count == ar.capacity) ≡ false → ar.hwm < ar.capacity
      room_left n = ground (arith, v.hwm_le, full)

      more : List (Slot Record)
      more = replicate ar.capacity blank

      same_live : live (ar.slots ++ more) ar.hwm 0 ≡ live ar.slots ar.hwm 0
      same_live =
          live_congr ar.slots (ar.slots ++ more) ar.hwm 0
            (λ j p q. get_elem?-append ar.slots more j (omega (arith, v.length_eq, v.hwm_le)))

      doubled : Grows ar (record ar { slots = ar.slots ++ more; capacity = ar.capacity * 2 })
      doubled = record {
        is_array = record {
          capacity_pos = omega (arith, v.capacity_pos);
          length_eq =
              omega (
                arith,
                length-append ar.slots more,
                length-replicate ar.capacity blank,
                v.length_eq,
              );
          hwm_le = omega (arith, v.hwm_le);
          magic = λ i l. HasMagic-append ar.slots more i (v.magic i l);
          count_eq = v.count_eq ∙ ap length (sym same_live);
          freed = v.freed;
          chain = IsChain-append ar.slots more ar.first_freed v.freed v.chain;
          freed_lt = v.freed_lt;
          freed_count = v.freed_count;
        };
        hwm_eq = refl;
        count_eq = refl;
        room = omega (arith, v.hwm_le, v.capacity_pos);
        live_eq = same_live;
      }

  array_insert-full :
      (blank : Slot Record) (r : Record) (ar : ArrayStore Record)
      → ar.hwm ≤ ar.capacity
      → (ar.count == ar.hwm) ≡ true
      → array_insert blank r ar ≡ append_record r (grow blank ar)
  unfolding array_insert
  array_insert-full blank r ar le full =
      let fits : leb ar.hwm ar.capacity ≡ true = ground arith in rw (array_insert, fits, full) refl

  array_insert-part :
      (blank : Slot Record) (r : Record) (ar : ArrayStore Record)
      → ar.hwm ≤ ar.capacity
      → (ar.count == ar.hwm) ≡ false
      → array_insert blank r ar ≡ reuse_freed r ar
  unfolding array_insert
  array_insert-part blank r ar le part =
      let fits : leb ar.hwm ar.capacity ≡ true = ground arith in rw (array_insert, fits, part) refl

  -- What an insertion does: the record is put at an index, among those that were there.
  abbrev pub Inserts : Slot Record → Record → ArrayStore Record → Type 0
  Inserts blank r ar =
      (i : ℕ) × (ar' : ArrayStore Record) × (xs : List (ℕ × Record)) × (ys : List (ℕ × Record))
      × (array_insert blank r ar ≡ some (i, ar'))
      × IsArray ar'
      × (live ar.slots ar.hwm 0 ≡ xs ++ ys)
      × (live ar'.slots ar'.hwm 0 ≡ xs ++ (i, r) ∷ ys)

  pub array_insert_lem :
      (blank : Slot Record) (r : Record) (ar : ArrayStore Record) → IsArray ar → Inserts blank r ar
  array_insert_lem blank r ar v = elim (Bool-cases (ar.count == ar.hwm)) [
    | inl full ↦
        let g = grow-Grows blank ar v (eq_of full) in
        let (ar', e, v', l) =
          append_record-IsArray r (grow blank ar) g.is_array
            (g.count_eq ∙ eq_of full ∙ sym g.hwm_eq) (omega (arith, g.room, g.hwm_eq)) in
        (
          (grow blank ar).hwm,
          ar',
          live ar.slots ar.hwm 0,
          [],
          array_insert-full blank r ar v.hwm_le full ∙ e,
          v',
          sym (append_nil (live ar.slots ar.hwm 0)),
          l ∙ ap (λ k. k ++ ((grow blank ar).hwm, r) ∷ []) g.live_eq,
        )
    | inr part ↦
        let (ar', xs, ys, e, v', l, l') =
          reuse_from r ar v.freed v (ne_of part) v.chain v.freed_lt v.freed_count in
        (ar.first_freed, ar', xs, ys, array_insert-part blank r ar v.hwm_le part ∙ e, v', l, l')
  ]
    where
      eq_of : (ar.count == ar.hwm) ≡ true → ar.count ≡ ar.hwm
      eq_of e = ground arith

      ne_of : (ar.count == ar.hwm) ≡ false → ar.count ≢ ar.hwm
      ne_of e = ground arith

      append_nil : (l : List (ℕ × Record)) → l ++ [] ≡ l
      append_nil [] = refl
      append_nil (x ∷ l) = ap (λ m. x ∷ m) (append_nil l)
