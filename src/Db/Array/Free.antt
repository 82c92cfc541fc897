-- ===== src/Db/Array/Free.antt =====
-- The chain of freed elements of an array store, and the states that the store's operations leave.
use mathlib.Core.Path.{subst}
use sfptpd.Prelude.{
  ℕ, suc, ◌+◌, ◌≤◌, ◌<◌, ◌≡◌, ◌≢◌, inl, inr, sym, ap, ◌∙◌, true, false, some, List, [], ◌∷◌, ◌++◌,
  length, get_elem?, set, get_elem?-set_ne, get_elem?-set_self, get_elem?-append, get_elem?_lt,
  arith, ◌==◌, Bool-cases,
}
use sfptpd.Sorting.{All}
use sfptpd.Db.Array.{Slot, ArrayStore}
use sfptpd.Db.Array.Live.{live}

pub All-weaken : (m n : ℕ) (is : List ℕ) → m ≤ n → All (λ i. i < m) is → All (λ i. i < n) is
All-weaken m n [] le a = tt
All-weaken m n (i ∷ is) le a = (omega (arith, a.0), All-weaken m n is le a.1)

pub All-strengthen :
    (n : ℕ) (is : List ℕ) → All (λ i. i < suc n) is → All (λ i. i ≢ n) is → All (λ i. i < n) is
All-strengthen n [] a d = tt
All-strengthen n (i ∷ is) a d = (lt_of i n a.0 d.0, All-strengthen n is a.1 d.1)
  where
    lt_of : (i n : ℕ) → i < suc n → i ≢ n → i < n
    lt_of i n h ne = ground arith

module _ {Record : Type 0} where
  -- The freed elements, the one freed last first: each holds the index of the next.
  abbrev pub IsChain : List (Slot Record) → ℕ → List ℕ → Type 0
  IsChain slots start [] = Unit
  IsChain slots start (i ∷ is) =
      (start ≡ i)
      × All (λ k. k ≢ i) is
      × (h : Slot Record) × (get_elem? slots i ≡ some h)
      × (h.populated ≡ false)
      × IsChain slots h.next_freed is

  -- An element below the high water mark has been initialised.
  abbrev pub HasMagic : List (Slot Record) → ℕ → Type 0
  HasMagic slots i = (h : Slot Record) × (get_elem? slots i ≡ some h) × (h.has_magic ≡ true)

  pub record IsArray (ar : ArrayStore Record) : Type 0 where
    pub capacity_pos : 0 < ar.capacity
    pub length_eq : length ar.slots ≡ ar.capacity
    pub hwm_le : ar.hwm ≤ ar.capacity
    pub magic : (i : ℕ) → i < ar.hwm → HasMagic ar.slots i
    pub count_eq : ar.count ≡ length (live ar.slots ar.hwm 0)
    pub freed : List ℕ
    pub chain : IsChain ar.slots ar.first_freed freed
    pub freed_lt : All (λ i. i < ar.hwm) freed
    pub freed_count : length freed + ar.count ≡ ar.hwm

  pub IsChain-set :
      (slots : List (Slot Record)) (start : ℕ) (is : List ℕ) (j : ℕ) (v : Slot Record)
      → All (λ k. k ≢ j) is
      → IsChain slots start is
      → IsChain (set slots j v) start is
  IsChain-set slots start [] j v d c = tt
  IsChain-set slots start (i ∷ is) j v d (e, u, h, at, p, c) = (
    e,
    u,
    h,
    get_elem?-set_ne slots v (λ q. d.0 (sym q)) ∙ at,
    p,
    IsChain-set slots h.next_freed is j v d.1 c,
  )

  pub IsChain-append :
      (slots more : List (Slot Record)) (start : ℕ) (is : List ℕ)
      → IsChain slots start is
      → IsChain (slots ++ more) start is
  IsChain-append slots more start [] c = tt
  IsChain-append slots more start (i ∷ is) (e, u, h, at, p, c) = (
    e,
    u,
    h,
    get_elem?-append slots more i (get_elem?_lt slots i h at) ∙ at,
    p,
    IsChain-append slots more h.next_freed is c,
  )

  -- A populated element is not in the chain.
  pub IsChain-populated :
      (slots : List (Slot Record)) (start : ℕ) (is : List ℕ) (j : ℕ) (h : Slot Record)
      → get_elem? slots j ≡ some h
      → h.populated ≡ true
      → IsChain slots start is
      → All (λ k. k ≢ j) is
  IsChain-populated slots start [] j h at p c = tt
  IsChain-populated slots start (i ∷ is) j h at p (e, u, h', at', p', c) =
      (λ q. cc (ap (get_elem? slots) q), IsChain-populated slots h'.next_freed is j h at p c)

  pub HasMagic-set :
      (slots : List (Slot Record)) (i j : ℕ) (v : Slot Record)
      → v.has_magic ≡ true
      → j < length slots
      → (i ≢ j → HasMagic slots i)
      → HasMagic (set slots j v) i
  HasMagic-set slots i j v m lt h = elim (Bool-cases (i == j)) [
    | inl e ↦
        subst (HasMagic (set slots j v)) (sym (eq_of e)) (v, get_elem?-set_self slots j v lt, m)
    | inr n ↦
        let (g, at, mg) = h (ne_of n) in
        (g, get_elem?-set_ne slots v (λ q. ne_of n (sym q)) ∙ at, mg)
  ]
    where
      eq_of : (i == j) ≡ true → i ≡ j
      eq_of e = ground arith

      ne_of : (i == j) ≡ false → i ≢ j
      ne_of e = ground arith

  pub HasMagic-append :
      (slots more : List (Slot Record)) (i : ℕ) → HasMagic slots i → HasMagic (slots ++ more) i
  HasMagic-append slots more i (h, at, m) =
      (h, get_elem?-append slots more i (get_elem?_lt slots i h at) ∙ at, m)
