-- ===== src/Db/Linked/Laws.antt =====
-- The linked-list store keeps the promises of a store.
use mathlib.Core.Path.{subst}
use sfptpd.Prelude.{
  Option, ℕ, ◌≡◌, ◌≢◌, refl, ap, ◌∙◌, Bool, true, false, some, List, [], ◌∷◌, ◌++◌, ◌==◌, arith,
}
use sfptpd.Sorting.{All, AllPairs}
use sfptpd.Db.Store.{IsStore, first_where}
use sfptpd.Db.Linked.{
  Malloc, addresses, linked_delete, linked_find, linked_get_data, linked_set_data, linked_free,
  linked_ops,
}

-- An allocation gives an address that is not in use.
abbrev pub IsFresh : Malloc → Type 0
IsFresh malloc = (used : List ℕ) → All (λ a. malloc used ≢ a) used

ne_test : (a b : ℕ) → a ≢ b → (a == b) ≡ false
ne_test a b h = ground arith

self_test : (a : ℕ) → (a == a) ≡ true
self_test a = ground arith

module _ {Record : Type 0} where
  -- No two nodes have one address.
  abbrev pub IsLinked : List (ℕ × Record) → Type 0
  IsLinked nodes = AllPairs (λ a b. a ≢ b) (addresses nodes)

  -- The nodes before one have other addresses.
  distinct_before :
      (x : ℕ × Record) (xs : List (ℕ × Record)) (ref : ℕ) (r : Record) (ys : List (ℕ × Record))
      → All (λ a. x.0 ≢ a) (addresses (xs ++ (ref, r) ∷ ys))
      → (x.0 == ref) ≡ false
  distinct_before x [] ref r ys d = ne_test x.0 ref d.0
  distinct_before x (y ∷ xs) ref r ys d = distinct_before x xs ref r ys d.1

  All-remove :
      (P : ℕ → Type 0) (xs : List (ℕ × Record)) (ref : ℕ) (r : Record) (ys : List (ℕ × Record))
      → All P (addresses (xs ++ (ref, r) ∷ ys))
      → All P (addresses (xs ++ ys))
  All-remove P [] ref r ys a = a.1
  All-remove P (x ∷ xs) ref r ys a = (a.0, All-remove P xs ref r ys a.1)

  All-replace :
      (P : ℕ → Type 0) (xs : List (ℕ × Record)) (ref : ℕ) (r r' : Record) (ys : List (ℕ × Record))
      → All P (addresses (xs ++ (ref, r) ∷ ys))
      → All P (addresses (xs ++ (ref, r') ∷ ys))
  All-replace P [] ref r r' ys a = a
  All-replace P (x ∷ xs) ref r r' ys a = (a.0, All-replace P xs ref r r' ys a.1)

  pub linked_delete_lem :
      (ref : ℕ) (r : Record) (xs ys : List (ℕ × Record))
      → IsLinked (xs ++ (ref, r) ∷ ys)
      → (linked_delete ref (xs ++ (ref, r) ∷ ys) ≡ some (xs ++ ys)) × IsLinked (xs ++ ys)
  unfolding linked_delete
  linked_delete_lem ref r [] ys v = (rw (self_test ref) refl, v.1)
  linked_delete_lem ref r (x ∷ xs) ys v =
      let (e, d) = linked_delete_lem ref r xs ys v.1 in
      (
        rw (linked_delete, distinct_before x xs ref r ys v.0, e) refl,
        (All-remove (λ a. x.0 ≢ a) xs ref r ys v.0, d),
      )

  pub linked_find_lem :
      (test : Record → Option Bool) (p : Record → Bool) (nodes : List (ℕ × Record))
      → ((r : Record) → test r ≡ some (p r))
      → linked_find test nodes ≡ some (first_where p nodes)
  unfolding linked_find
  linked_find_lem test p [] t = refl
  linked_find_lem test p ((a, r) ∷ nodes) t = ground (arith, t r, linked_find_lem test p nodes t)

  pub linked_get_data_lem :
      (ref : ℕ) (r : Record) (xs ys : List (ℕ × Record))
      → IsLinked (xs ++ (ref, r) ∷ ys)
      → linked_get_data ref (xs ++ (ref, r) ∷ ys) ≡ some r
  unfolding linked_get_data
  linked_get_data_lem ref r [] ys v = rw (self_test ref) refl
  linked_get_data_lem ref r (x ∷ xs) ys v =
      rw (linked_get_data, distinct_before x xs ref r ys v.0) (linked_get_data_lem ref r xs ys v.1)

  pub linked_set_data_lem :
      (ref : ℕ) (r r' : Record) (xs ys : List (ℕ × Record))
      → IsLinked (xs ++ (ref, r) ∷ ys)
      → (linked_set_data ref r' (xs ++ (ref, r) ∷ ys) ≡ some (xs ++ (ref, r') ∷ ys))
        × IsLinked (xs ++ (ref, r') ∷ ys)
  unfolding linked_set_data
  linked_set_data_lem ref r r' [] ys v = (rw (self_test ref) refl, v)
  linked_set_data_lem ref r r' (x ∷ xs) ys v =
      let (e, d) = linked_set_data_lem ref r r' xs ys v.1 in
      (
        rw (linked_set_data, distinct_before x xs ref r ys v.0, e) refl,
        (All-replace (λ a. x.0 ≢ a) xs ref r r' ys v.0, d),
      )

  pub free_nil : (nodes : List (ℕ × Record)) → nodes ≡ [] → linked_free nodes ≡ some tt
  unfolding linked_free
  free_nil [] e = refl
  free_nil (x ∷ nodes) e = cc

-- The linked-list store is a store, where `malloc` gives fresh addresses.
unfoldable pub linked-IsStore :
    (malloc : Malloc) (Record : Type 0) → IsFresh malloc → IsStore (linked_ops malloc Record)
unfolding linked_ops
linked-IsStore malloc Record fresh = record {
  IsValid = IsLinked;
  contents = λ nodes. nodes;
  insert-contents = λ r nodes v. (
    malloc (addresses nodes),
    (malloc (addresses nodes), r) ∷ nodes,
    [],
    nodes,
    refl,
    (fresh (addresses nodes), v),
    refl,
    refl,
  );
  delete-contents = λ ref r nodes xs ys v e.
      let (d, v') = linked_delete_lem ref r xs ys (subst IsLinked e v) in
      (xs ++ ys, ap (linked_delete ref) e ∙ d, v', refl);
  foreach-contents = λ nodes v. refl;
  free-contents = λ nodes v e. free_nil nodes e;
  find-contents = λ test p nodes t v. linked_find_lem test p nodes t;
  get_data-contents = λ ref r nodes xs ys v e.
      ap (linked_get_data ref) e ∙ linked_get_data_lem ref r xs ys (subst IsLinked e v);
  set_data-contents = λ ref r r' nodes xs ys v e.
      let (d, v') = linked_set_data_lem ref r r' xs ys (subst IsLinked e v) in
      (xs ++ (ref, r') ∷ ys, ap (linked_set_data ref r') e ∙ d, v', refl);
}
