-- ===== src/Db/Linked.antt =====
-- sfptpd_db.c: the linked-list store. A node is its address with the record after its header, and
-- the list is the chain of `next` pointers from `head` on.
pub mod Laws
use sfptpd.Prelude.{ℕ, Bool, Option, none, some, List, [], ◌∷◌, ◌==◌, if◌then◌else◌, map}
use sfptpd.Db.Store.{StoreOps}

-- `malloc` for a node, given the addresses of the nodes that there are.
abbrev pub Malloc : Type 0
Malloc = List ℕ → ℕ

module _ {Record : Type 0} where
  abbrev pub addresses : List (ℕ × Record) → List ℕ
  addresses nodes = map (λ n. n.0) nodes

  -- `linked_list_insert`.
  unfoldable pub linked_insert :
      Malloc → Record → List (ℕ × Record) → Option (ℕ × List (ℕ × Record))
  linked_insert malloc r nodes =
      let header = malloc (addresses nodes) in some (header, (header, r) ∷ nodes)

  -- `linked_list_delete`; `none` is the failed assertion that the node is in the list.
  unfoldable pub linked_delete : ℕ → List (ℕ × Record) → Option (List (ℕ × Record))
  linked_delete ref [] = none
  linked_delete ref (node ∷ nodes) =
      let rest = linked_delete ref nodes in
      if node.0 == ref
      then some nodes
      else elim rest [ none ↦ none | some left ↦ some (node ∷ left) ]

  -- `linked_list_foreach`.
  unfoldable pub linked_foreach : List (ℕ × Record) → Option (List ℕ)
  linked_foreach nodes = some (addresses nodes)

  -- The loop of `linked_list_find`, and the reference after it.
  unfoldable pub linked_find : (Record → Option Bool) → List (ℕ × Record) → Option (Option ℕ)
  linked_find p [] = some none
  linked_find p (node ∷ nodes) =
      let rest = linked_find p nodes in
      elim (p node.1) [ none ↦ none | some match ↦ if match then some (some node.0) else rest ]

  -- `linked_list_get_data`, and a write to where it points; `none` is a dangling pointer.
  unfoldable pub linked_get_data : ℕ → List (ℕ × Record) → Option Record
  linked_get_data ref [] = none
  linked_get_data ref (node ∷ nodes) =
      let rest = linked_get_data ref nodes in if node.0 == ref then some node.1 else rest

  unfoldable pub linked_set_data : ℕ → Record → List (ℕ × Record) → Option (List (ℕ × Record))
  linked_set_data ref r [] = none
  linked_set_data ref r (node ∷ nodes) =
      let rest = linked_set_data ref r nodes in
      if node.0 == ref
      then some ((ref, r) ∷ nodes)
      else elim rest [ none ↦ none | some left ↦ some (node ∷ left) ]

  -- `linked_list_free`, which asserts that the list is empty.
  unfoldable pub linked_free : List (ℕ × Record) → Option (Unit {0})
  linked_free [] = some tt
  linked_free (node ∷ nodes) = none

-- `linked_list_ops`.
unfoldable pub linked_ops : Malloc → (Record : Type 0) → StoreOps Record
unfolding linked_insert linked_delete linked_foreach linked_find linked_get_data linked_set_data
    linked_free
linked_ops malloc Record = record {
  State = List (ℕ × Record);
  RecordRef = ℕ;
  insert = linked_insert malloc;
  delete = linked_delete;
  foreach = linked_foreach;
  find = linked_find;
  get_data = linked_get_data;
  set_data = linked_set_data;
  free = linked_free;
}

-- `sfptpd_db_table_new` with STORE_LINKED_LIST, by `linked_list_create`.
unfoldable pub table_new_linked :
    (malloc : Malloc) (Record : Type 0) → (linked_ops malloc Record).State
unfolding linked_ops
table_new_linked malloc Record = []
