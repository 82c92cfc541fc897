-- ===== src/Db/Array/Live.antt =====
-- The records of an array store: those of the populated elements of a window, with their indices.
use mathlib.Core.Path.{subst}
use sfptpd.Prelude.{
  ℕ, zero, suc, ◌+◌, ◌≤◌, ◌<◌, ◌≡◌, ◌⊎◌, inl, inr, refl, sym, ap, ◌∙◌, true, Option, none, some,
  List, [], ◌∷◌, ◌++◌, if◌then◌else◌, length, get_elem?, set, get_elem?-set_ne, get_elem?-set_self,
  arith, Bool-cases, Option-cases,
}
use sfptpd.Db.Array.{Slot}

zero_plus : (n : ℕ) → 0 + n ≡ n
zero_plus n = omega arith

plus_zero : (n : ℕ) → n + 0 ≡ n
plus_zero n = omega arith

suc_plus : (a b : ℕ) → suc a + b ≡ suc (a + b)
suc_plus a b = omega arith

step : (i a : ℕ) → suc i + a ≡ i + suc a
step i a = omega arith

module _ {Record : Type 0} where
  -- What one element adds.
  abbrev pub entry : ℕ → Slot Record → List (ℕ × Record)
  entry i h = if h.populated then (i, h.payload) ∷ [] else []

  abbrev pub entry_at : List (Slot Record) → ℕ → List (ℕ × Record)
  entry_at slots i = elim (get_elem? slots i) [ none ↦ [] | some h ↦ entry i h ]

  -- The records of `left` elements from index `i` on.
  unfoldable pub live : List (Slot Record) → ℕ → ℕ → List (ℕ × Record)
  live slots zero i = []
  live slots (suc left) i = entry_at slots i ++ live slots left (suc i)

  append_assoc : (xs ys zs : List (ℕ × Record)) → (xs ++ ys) ++ zs ≡ xs ++ (ys ++ zs)
  append_assoc [] ys zs = refl
  append_assoc (x ∷ xs) ys zs = ap (λ l. x ∷ l) (append_assoc xs ys zs)

  pub entry_at_eq :
      (slots : List (Slot Record)) (i : ℕ) (h : Slot Record)
      → get_elem? slots i ≡ some h
      → entry_at slots i ≡ entry i h
  entry_at_eq slots i h e = rw (entry_at, e) refl

  live-add :
      (slots : List (Slot Record)) (a b i : ℕ)
      → live slots (a + b) i ≡ live slots a i ++ live slots b (i + a)
  unfolding live
  live-add slots zero b i =
      ap (λ n. live slots n i) (zero_plus b) ∙ ap (λ k. live slots b k) (sym (plus_zero i))
  live-add slots (suc a) b i =
      ap (λ n. live slots n i) (suc_plus a b)
      ∙ ap (λ l. entry_at slots i ++ l)
          (live-add slots a b (suc i) ∙ ap (λ k. live slots a (suc i) ++ live slots b k) (step i a))
      ∙ sym (append_assoc (entry_at slots i) (live slots a (suc i)) (live slots b (i + suc a)))

  -- Two memories that agree on a window hold the same records there.
  pub live_congr :
      (slots slots' : List (Slot Record)) (left i : ℕ)
      → ((j : ℕ) → i ≤ j → j < i + left → get_elem? slots' j ≡ get_elem? slots j)
      → live slots' left i ≡ live slots left i
  unfolding live
  live_congr slots slots' zero i h = refl
  live_congr slots slots' (suc left) i h =
      ap
        (λ (o : Option (Slot Record)).
          elim o [ none ↦ [] | some r ↦ entry i r ] ++ live slots' left (suc i))
        (h i (omega arith) (omega arith))
      ∙ ap (λ l. entry_at slots i ++ l)
          (live_congr slots slots' left (suc i) (λ j p q. h j (omega arith) (omega arith)))

  -- A window around an element.
  pub live_around :
      (slots : List (Slot Record)) (j b : ℕ) (h : Slot Record)
      → get_elem? slots j ≡ some h
      → live slots (j + suc b) 0 ≡ live slots j 0 ++ (entry j h ++ live slots b (suc j))
  unfolding live
  live_around slots j b h e =
      live-add slots j (suc b) 0
      ∙ ap (λ k. live slots j 0 ++ live slots (suc b) k) (zero_plus j)
      ∙ ap (λ l. live slots j 0 ++ (l ++ live slots b (suc j))) (entry_at_eq slots j h e)

  -- The window around an element that is written: what is on both sides of it stays.
  pub live-set :
      (slots : List (Slot Record)) (j b : ℕ) (h : Slot Record)
      → j < length slots
      → live (set slots j h) (j + suc b) 0 ≡ live slots j 0 ++ (entry j h ++ live slots b (suc j))
  live-set slots j b h lt =
      live_around (set slots j h) j b h (get_elem?-set_self slots j h lt)
      ∙ ap (λ l. l ++ (entry j h ++ live (set slots j h) b (suc j)))
          (live_congr slots (set slots j h) j 0
            (λ k p q. get_elem?-set_ne slots h (λ e. absurd (omega (arith, e)))))
      ∙ ap (λ l. live slots j 0 ++ (entry j h ++ l))
          (live_congr slots (set slots j h) b (suc j)
            (λ k p q. get_elem?-set_ne slots h (λ e. absurd (omega (arith, e)))))

  -- A window that ends before an element that is written.
  pub live-set_outside :
      (slots : List (Slot Record)) (j left : ℕ) (h : Slot Record)
      → left ≤ j
      → live (set slots j h) left 0 ≡ live slots left 0
  live-set_outside slots j left h le =
      live_congr slots (set slots j h) left 0
        (λ k p q. get_elem?-set_ne slots h (λ e. absurd (omega (arith, e))))

  -- Where a record stands in a window: its element, and the records on both sides.
  pub record Position (slots : List (Slot Record)) (left i j : ℕ) (r : Record)
      (xs ys : List (ℕ × Record)) : Type 0 where
    pub before : ℕ
    pub after : ℕ
    pub left_eq : left ≡ before + suc after
    pub index_eq : j ≡ i + before
    pub slot : Slot Record
    pub here : get_elem? slots j ≡ some slot
    pub populated_eq : slot.populated ≡ true
    pub payload_eq : slot.payload ≡ r
    pub xs_eq : xs ≡ live slots before i
    pub ys_eq : ys ≡ live slots after (suc j)

  entry_cases :
      (slots : List (Slot Record)) (i : ℕ)
      → (entry_at slots i ≡ [])
        ⊎ ((h : Slot Record) × (get_elem? slots i ≡ some h)
            × (h.populated ≡ true)
            × (entry_at slots i ≡ (i, h.payload) ∷ []))
  entry_cases slots i = elim (Option-cases (get_elem? slots i)) [
    | inl e ↦ inl (rw (entry_at, e) refl)
    | inr (h, e) ↦ elim (Bool-cases h.populated) [
      | inl p ↦ inr (h, e, p, rw (entry_at, e, p) refl)
      | inr p ↦ inl (rw (entry_at, e, p) refl)
    ]
  ]

  Position-later :
      (slots : List (Slot Record)) (left i j : ℕ) (r : Record) (xs ys : List (ℕ × Record))
      → Position slots left (suc i) j r xs ys
      → Position slots (suc left) i j r (entry_at slots i ++ xs) ys
  unfolding live
  Position-later slots left i j r xs ys p = record {
    before = suc p.before;
    after = p.after;
    left_eq = omega (arith, p.left_eq);
    index_eq = omega (arith, p.index_eq);
    slot = p.slot;
    here = p.here;
    populated_eq = p.populated_eq;
    payload_eq = p.payload_eq;
    xs_eq = ap (λ l. entry_at slots i ++ l) p.xs_eq;
    ys_eq = p.ys_eq;
  }

  cons_append_inv :
      {x y : ℕ × Record} {l ys : List (ℕ × Record)} (xs : List (ℕ × Record))
      → x ∷ l ≡ xs ++ y ∷ ys
      → ((xs ≡ []) × (x ≡ y) × (l ≡ ys))
        ⊎ ((xs' : List (ℕ × Record)) × (xs ≡ x ∷ xs') × (l ≡ xs' ++ y ∷ ys))
  cons_append_inv [] e = inl (refl, cc, cc)
  cons_append_inv (z ∷ xs) e = inr (xs, cc, cc)

  pub live-Position :
      (slots : List (Slot Record)) (left i j : ℕ) (r : Record) (xs ys : List (ℕ × Record))
      → live slots left i ≡ xs ++ (j, r) ∷ ys
      → Position slots left i j r xs ys
  unfolding live
  live-Position slots zero i j r [] ys e = cc
  live-Position slots zero i j r (x ∷ xs) ys e = cc
  live-Position slots (suc left) i j r xs ys e = elim (entry_cases slots i) [
    | inl none_here ↦
        let e' : live slots left (suc i) ≡ xs ++ (j, r) ∷ ys =
          ap (λ l. l ++ live slots left (suc i)) (sym none_here) ∙ e in
        subst (λ l. Position slots (suc left) i j r l ys) (ap (λ l. l ++ xs) none_here)
          (Position-later slots left i j r xs ys (live-Position slots left (suc i) j r xs ys e'))
    | inr (h, here, p, one) ↦
        let e' : (i, h.payload) ∷ live slots left (suc i) ≡ xs ++ (j, r) ∷ ys =
          ap (λ l. l ++ live slots left (suc i)) (sym one) ∙ e in
        elim (cons_append_inv xs e') [
          | inl (nil, at, rest) ↦ record {
            before = 0;
            after = left;
            left_eq = omega arith;
            index_eq = omega (arith, ap (λ q. q.0) at);
            slot = h;
            here = sym (ap (λ q. get_elem? slots q.0) at) ∙ here;
            populated_eq = p;
            payload_eq = ap (λ q. q.1) at;
            xs_eq = nil;
            ys_eq = sym rest ∙ ap (λ q. live slots left (suc q.0)) at;
          }
          | inr (xs', more, rest) ↦
              subst (λ l. Position slots (suc left) i j r l ys) (ap (λ l. l ++ xs') one ∙ sym more)
                (Position-later slots left i j r xs' ys
                  (live-Position slots left (suc i) j r xs' ys rest))
        ]
  ]
