-- ===== src/Sorting.antt =====
-- The sorting function of the C library, as the program uses it: an interface, what the C standard
-- promises of it, and insertion sort as a function that keeps the promise.
pub mod Checked
use mathlib.Core.List.Permᴰ
use mathlib.Core.List.{Permᴰ, Memᴰ}
use mathlib.Core.Path.{subst}
use sfptpd.Prelude.{
  ◌≡◌, refl, sym, ◌∙◌, inl, inr, Bool, true, false, List, [], ◌∷◌, if◌then◌else◌, Bool-cases, ℤ,
  pos, negsuc, zero, suc,
}

-- `qsort_r`, on arrays of any type; `compar` holds the context too.
pub record Sorting : Type 1 where
  pub qsort_r : (A : Type 0) → (A → A → ℤ) → List A → List A

-- The result of a comparison is not positive: the first argument may stand first.
abbrev pub may_precede : ℤ → Bool
may_precede (pos zero) = true
may_precede (pos (suc n)) = false
may_precede (negsuc n) = true

abbrev pub All {ℓ κ} : {A : Type ℓ} → (A → Type κ) → List A → Type κ
All P [] = Unit
All P (x ∷ xs) = P x × All P xs

abbrev pub AllPairs {ℓ κ} : {A : Type ℓ} → (A → A → Type κ) → List A → Type κ
AllPairs R [] = Unit
AllPairs R (x ∷ xs) = All (R x) xs × AllPairs R xs

-- The comparison is consistent on the elements of an array: a total preorder.
pub record IsConsistent {A : Type 0} (cmp : A → A → ℤ) (l : List A) : Type 0 where
  pub total :
      (x y : A) → Memᴰ x l → Memᴰ y l → may_precede (cmp x y) ≡ false → may_precede (cmp y x) ≡ true
  pub trans :
      (x y z : A)
      → Memᴰ x l
      → Memᴰ y l
      → Memᴰ z l
      → may_precede (cmp x y) ≡ true
      → may_precede (cmp y z) ≡ true
      → may_precede (cmp x z) ≡ true

-- By a consistent comparison the array is rearranged, and it is in order.
pub record IsSorting (S : Sorting) : Type 1 where
  pub permutes :
      (A : Type 0) (cmp : A → A → ℤ) (l : List A) → IsConsistent cmp l → Permᴰ l (S.qsort_r A cmp l)
  pub sorts :
      (A : Type 0) (cmp : A → A → ℤ) (l : List A)
      → IsConsistent cmp l
      → AllPairs (λ x y. may_precede (cmp x y) ≡ true) (S.qsort_r A cmp l)

module _ {A : Type 0} where
  pub Permᴰ-Memᴰ : {l m : List A} → Permᴰ l m → (x : A) → Memᴰ x l → Memᴰ x m
  Permᴰ-Memᴰ Permᴰ.nil x h = h
  Permᴰ-Memᴰ (Permᴰ.cons e p) x (Memᴰ.head h) = Memᴰ.head (h ∙ e)
  Permᴰ-Memᴰ (Permᴰ.cons e p) x (Memᴰ.tail h) = Memᴰ.tail (Permᴰ-Memᴰ p x h)
  Permᴰ-Memᴰ (Permᴰ.swap e f) x (Memᴰ.head h) = Memᴰ.tail (Memᴰ.head (h ∙ e))
  Permᴰ-Memᴰ (Permᴰ.swap e f) x (Memᴰ.tail (Memᴰ.head h)) = Memᴰ.head (h ∙ f)
  Permᴰ-Memᴰ (Permᴰ.swap e f) x (Memᴰ.tail (Memᴰ.tail h)) = Memᴰ.tail (Memᴰ.tail h)
  Permᴰ-Memᴰ (Permᴰ.trans p q) x h = Permᴰ-Memᴰ q x (Permᴰ-Memᴰ p x h)

  pub All-Memᴰ {κ} : (P : A → Type κ) (l : List A) → All P l → (x : A) → Memᴰ x l → P x
  All-Memᴰ P [] a x h = elim h [ ]
  All-Memᴰ P (y ∷ l) a x (Memᴰ.head e) = subst P (sym e) a.0
  All-Memᴰ P (y ∷ l) a x (Memᴰ.tail h) = All-Memᴰ P l a.1 x h

  pub All-of_Memᴰ {κ} : (P : A → Type κ) (l : List A) → ((x : A) → Memᴰ x l → P x) → All P l
  All-of_Memᴰ P [] h = tt
  All-of_Memᴰ P (y ∷ l) h = (h y (Memᴰ.head refl), All-of_Memᴰ P l (λ x m. h x (Memᴰ.tail m)))

  unfoldable pub insert : (A → A → ℤ) → A → List A → List A
  insert cmp x [] = x ∷ []
  insert cmp x (y ∷ l) =
      let rest = insert cmp x l in if may_precede (cmp x y) then x ∷ y ∷ l else y ∷ rest

  unfoldable pub insertion_sort : (A → A → ℤ) → List A → List A
  unfolding insert
  insertion_sort cmp [] = []
  insertion_sort cmp (x ∷ l) = insert cmp x (insertion_sort cmp l)

  insert-perm : (cmp : A → A → ℤ) (x : A) (l : List A) → Permᴰ (x ∷ l) (insert cmp x l)
  unfolding insert
  insert-perm cmp x [] = Permᴰ.cons refl Permᴰ.nil
  insert-perm cmp x (y ∷ l) = elim (Bool-cases (may_precede (cmp x y))) [
    | inl e ↦ rw e (Permᴰ.refl _)
    | inr e ↦ rw e (Permᴰ.trans (Permᴰ.swap refl refl) (Permᴰ.cons refl (insert-perm cmp x l)))
  ]

  pub insertion_sort-perm : (cmp : A → A → ℤ) (l : List A) → Permᴰ l (insertion_sort cmp l)
  unfolding insertion_sort
  insertion_sort-perm cmp [] = Permᴰ.nil
  insertion_sort-perm cmp (x ∷ l) =
      Permᴰ.trans (Permᴰ.cons refl (insertion_sort-perm cmp l))
        (insert-perm cmp x (insertion_sort cmp l))

  abbrev pub IsInOrder : (A → A → ℤ) → List A → Type 0
  IsInOrder cmp = AllPairs (λ x y. may_precede (cmp x y) ≡ true)

  IsConsistent-sub :
      {cmp : A → A → ℤ} (l m : List A)
      → ((x : A) → Memᴰ x m → Memᴰ x l)
      → IsConsistent cmp l
      → IsConsistent cmp m
  IsConsistent-sub l m f c = record {
    total = λ x y hx hy. c.total x y (f x hx) (f y hy);
    trans = λ x y z hx hy hz. c.trans x y z (f x hx) (f y hy) (f z hz);
  }

  insert-IsInOrder :
      (cmp : A → A → ℤ) (x : A) (l : List A)
      → IsConsistent cmp (x ∷ l)
      → IsInOrder cmp l
      → IsInOrder cmp (insert cmp x l)
  unfolding insert
  insert-IsInOrder cmp x [] c o = (tt, tt)
  insert-IsInOrder cmp x (y ∷ l) c o = elim (Bool-cases (may_precede (cmp x y))) [
    | inl e ↦ rw e (
      (
        e,
        All-of_Memᴰ _ l (λ z m.
            c.trans x y z (Memᴰ.head refl) (Memᴰ.tail (Memᴰ.head refl)) (Memᴰ.tail (Memᴰ.tail m)) e
              (All-Memᴰ _ l o.0 z m)),
      ),
      o,
    )
    | inr e ↦ rw e (
      All-of_Memᴰ _ _ (λ z m. first_le e z (Permᴰ-Memᴰ (Permᴰ.symm (insert-perm cmp x l)) z m)),
      insert-IsInOrder cmp x l (IsConsistent-sub _ _ skip c) o.1,
    )
  ]
    where
      first_le :
          may_precede (cmp x y) ≡ false → (z : A) → Memᴰ z (x ∷ l) → may_precede (cmp y z) ≡ true
      first_le e z (Memᴰ.head h) =
          rw h (c.total x y (Memᴰ.head refl) (Memᴰ.tail (Memᴰ.head refl)) e)
      first_le e z (Memᴰ.tail m) = All-Memᴰ _ l o.0 z m

      skip : (z : A) → Memᴰ z (x ∷ l) → Memᴰ z (x ∷ y ∷ l)
      skip z (Memᴰ.head h) = Memᴰ.head h
      skip z (Memᴰ.tail m) = Memᴰ.tail (Memᴰ.tail m)

  pub insertion_sort-IsInOrder :
      (cmp : A → A → ℤ) (l : List A) → IsConsistent cmp l → IsInOrder cmp (insertion_sort cmp l)
  unfolding insertion_sort
  insertion_sort-IsInOrder cmp [] c = tt
  insertion_sort-IsInOrder cmp (x ∷ l) c =
      insert-IsInOrder cmp x (insertion_sort cmp l)
        (IsConsistent-sub _ _
          (Permᴰ-Memᴰ (Permᴰ.symm (Permᴰ.cons refl (insertion_sort-perm cmp l)))) c)
        (insertion_sort-IsInOrder cmp l (IsConsistent-sub _ _ (λ z m. Memᴰ.tail m) c))

unfoldable pub insertion : Sorting
unfolding insertion_sort
insertion = record { qsort_r = λ A cmp l. insertion_sort cmp l }

pub insertion-IsSorting : IsSorting insertion
unfolding insertion
insertion-IsSorting = record {
  permutes = λ A cmp l c. insertion_sort-perm cmp l;
  sorts = λ A cmp l c. insertion_sort-IsInOrder cmp l c;
}
