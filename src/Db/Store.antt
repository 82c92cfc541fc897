-- ===== src/Db/Store.antt =====
-- sfptpd_db.c: `struct store_ops`, what a table asks of its store, and what the two stores promise.
use sfptpd.Prelude.{◌≡◌, Bool, Option, none, some, List, [], ◌∷◌, ◌++◌, map, if◌then◌else◌}

-- `struct store_ops` for records of type `Record`. A reference is the
-- `store_element` of a valid `struct sfptpd_db_record_ref`. `foreach` lists the references that its
-- callback is called on, in order, `find` has the outcome of the selection on each record as a test
-- that can fail, and `set_data` writes where `get_data` points. `none` is a failed assertion or an access outside
-- the store.
pub record StoreOps (Record : Type 0) : Type 1 where
  pub State : Type 0
  pub RecordRef : Type 0
  pub insert : Record → State → Option (RecordRef × State)
  pub delete : RecordRef → State → Option State
  pub foreach : State → Option (List RecordRef)
  pub find : (Record → Option Bool) → State → Option (Option RecordRef)
  pub get_data : RecordRef → State → Option Record
  pub set_data : RecordRef → Record → State → Option State
  pub free : State → Option (Unit {0})

-- The first reference whose record passes a test.
abbrev pub first_where {ℓ κ} : {A : Type ℓ} {B : Type κ} → (B → Bool) → List (A × B) → Option A
first_where p [] = none
first_where p ((a, b) ∷ l) = if p b then some a else first_where p l

-- What a store promises: in a state that its operations leave, it holds records in an order, each
-- under a reference of its own. An insertion puts the record somewhere and moves nothing else, a
-- deletion takes out one record.
pub record IsStore {Record : Type 0} (ops : StoreOps Record) : Type 1 where
  pub IsValid : ops.State → Type 0
  pub contents : ops.State → List (ops.RecordRef × Record)
  pub insert-contents :
      (r : Record) (s : ops.State)
      → IsValid s
      → (ref : ops.RecordRef) × (s' : ops.State) × (xs : List (ops.RecordRef × Record)) × (ys : List
          (ops.RecordRef × Record))
        × (ops.insert r s ≡ some (ref, s'))
        × IsValid s'
        × (contents s ≡ xs ++ ys)
        × (contents s' ≡ xs ++ (ref, r) ∷ ys)
  pub delete-contents :
      (ref : ops.RecordRef) (r : Record) (s : ops.State) (xs ys : List (ops.RecordRef × Record))
      → IsValid s
      → contents s ≡ xs ++ (ref, r) ∷ ys
      → (s' : ops.State) × (ops.delete ref s ≡ some s') × IsValid s' × (contents s' ≡ xs ++ ys)
  pub foreach-contents :
      (s : ops.State) → IsValid s → ops.foreach s ≡ some (map (λ p. p.0) (contents s))
  pub free-contents : (s : ops.State) → IsValid s → contents s ≡ [] → ops.free s ≡ some tt
  pub find-contents :
      (test : Record → Option Bool) (p : Record → Bool) (s : ops.State)
      → ((r : Record) → test r ≡ some (p r))
      → IsValid s
      → ops.find test s ≡ some (first_where p (contents s))
  pub get_data-contents :
      (ref : ops.RecordRef) (r : Record) (s : ops.State) (xs ys : List (ops.RecordRef × Record))
      → IsValid s
      → contents s ≡ xs ++ (ref, r) ∷ ys
      → ops.get_data ref s ≡ some r
  pub set_data-contents :
      (ref : ops.RecordRef) (r r' : Record) (s : ops.State) (xs ys : List (ops.RecordRef × Record))
      → IsValid s
      → contents s ≡ xs ++ (ref, r) ∷ ys
      → (s' : ops.State) × (ops.set_data ref r' s ≡ some s')
        × IsValid s'
        × (contents s' ≡ xs ++ (ref, r') ∷ ys)
