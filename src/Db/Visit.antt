-- ===== src/Db/Visit.antt =====
-- Visiting the records of a table over any lawful store: what the loops of sfptpd_db.c see, and what
-- deleting the references that were found leaves.
use mathlib.Core.List.{append_assoc}
use sfptpd.Prelude.{
  ◌≡◌, refl, sym, ap, ◌∙◌, Bool, not, Option, some, List, [], ◌∷◌, ◌++◌, map, ◌>>=◌, filter, inl,
  inr, Bool-cases,
}
use sfptpd.Db.Store.{StoreOps, IsStore}
use sfptpd.Db.Table.{deref_all, foreach_record, filter_matching, select_refs, delete_refs}

-- The elements before a cons, with the one after them.
pub append-snoc :
    {A : Type 0} (xs : List A) (y : A) (ys : List A) → xs ++ y ∷ ys ≡ (xs ++ y ∷ []) ++ ys
append-snoc xs y ys = sym (append_assoc xs (y ∷ []) ys)

module _ {Record : Type 0} where
  pub filter_matching_lem :
      (test : Record → Option Bool) (p : Record → Bool) (l : List Record)
      → ((r : Record) → test r ≡ some (p r))
      → filter_matching test l ≡ some (filter p l)
  unfolding filter_matching
  filter_matching_lem test p [] t = refl
  filter_matching_lem test p (r ∷ l) t = elim (Bool-cases (p r)) [
    | inl h ↦ rw (t r, filter_matching_lem test p l t, h) refl
    | inr h ↦ rw (t r, filter_matching_lem test p l t, h) refl
  ]

module _ {Record : Type 0} (ops : StoreOps Record) (I : IsStore ops) where
  open ops use {State, RecordRef}

  -- The records of a table, in the order of the store.
  abbrev pub records : State → List Record
  records s = map (λ x. x.1) (I.contents s)

  deref_all-contents :
      (s : State) (xs ys : List (RecordRef × Record))
      → I.IsValid s
      → I.contents s ≡ xs ++ ys
      → deref_all ops (map (λ y. y.0) ys) s ≡ some (map (λ y. y.1) ys)
  unfolding deref_all
  deref_all-contents s xs [] v e = refl
  deref_all-contents s xs ((ref, r) ∷ ys) v e =
      rw
        (
          I.get_data-contents ref r s xs ys v e,
          deref_all-contents s (xs ++ (ref, r) ∷ []) ys v (e ∙ append-snoc xs (ref, r) ys),
        )
        refl

  pub foreach_record-contents : (s : State) → I.IsValid s → foreach_record ops s ≡ some (records s)
  unfolding foreach_record
  foreach_record-contents s v =
      rw (I.foreach-contents s v) (deref_all-contents s [] (I.contents s) v refl)

  -- The entries whose records pass a test.
  abbrev pub entries : (Record → Bool) → List (RecordRef × Record) → List (RecordRef × Record)
  entries p ys = filter (λ y. p y.1) ys

  pub select_refs-contents :
      (test : Record → Option Bool) (p : Record → Bool) (s : State)
      (xs ys : List (RecordRef × Record))
      → ((r : Record) → test r ≡ some (p r))
      → I.IsValid s
      → I.contents s ≡ xs ++ ys
      → select_refs ops test (map (λ y. y.0) ys) s ≡ some (map (λ y. y.0) (entries p ys))
  unfolding select_refs
  select_refs-contents test p s xs [] t v e = refl
  select_refs-contents test p s xs ((ref, r) ∷ ys) t v e =
      let got = I.get_data-contents ref r s xs ys v e in
      let rest =
        select_refs-contents test p s (xs ++ (ref, r) ∷ []) ys t v
          (e ∙ append-snoc xs (ref, r) ys) in
      elim (Bool-cases (p r)) [
        | inl h ↦ rw (got, t r, rest, h) refl
        | inr h ↦ rw (got, t r, rest, h) refl
      ]

  -- Deleting the references of the entries that pass a test leaves the others, in order.
  pub delete_refs-contents :
      (p : Record → Bool) (s : State) (xs ys : List (RecordRef × Record))
      → I.IsValid s
      → I.contents s ≡ xs ++ ys
      → (s' : State) × (delete_refs ops (map (λ y. y.0) (entries p ys)) s ≡ some s')
        × I.IsValid s'
        × (I.contents s' ≡ xs ++ entries (λ r. not (p r)) ys)
  unfolding delete_refs
  delete_refs-contents p s xs [] v e = (s, refl, v, e)
  delete_refs-contents p s xs ((ref, r) ∷ ys) v e = elim (Bool-cases (p r)) [
    | inl h ↦
        let (s', d, v', e') = I.delete-contents ref r s xs ys v e in
        let (t, f, w, g) = delete_refs-contents p s' xs ys v' e' in
        rw h (t, ap (λ m. m >>= delete_refs ops (map (λ y. y.0) (entries p ys))) d ∙ f, w, g)
    | inr h ↦
        let (t, f, w, g) =
          delete_refs-contents p s (xs ++ (ref, r) ∷ []) ys v (e ∙ append-snoc xs (ref, r) ys) in
        rw h (t, f, w, g ∙ sym (append-snoc xs (ref, r) (entries (λ q. not (p q)) ys)))
  ]

  pub map-entries :
      (p : Record → Bool) (ys : List (RecordRef × Record))
      → map (λ y. y.1) (entries p ys) ≡ filter p (map (λ y. y.1) ys)
  map-entries p [] = refl
  map-entries p ((ref, r) ∷ ys) = elim (Bool-cases (p r)) [
    | inl h ↦ rw h (ap (λ l. r ∷ l) (map-entries p ys))
    | inr h ↦ rw h (map-entries p ys)
  ]
