-- ===== src/Db/Array.antt =====
-- sfptpd_db.c: the array store, where a freed element holds the index of the one freed before it.
pub mod Live
pub mod Free
pub mod Insert
pub mod Delete
pub mod Laws
use sfptpd.Prelude.{
  ℕ, zero, suc, ◌+◌, ◌-◌, ◌*◌, ◌/◌, Bool, true, false, not, ◌&&◌, Option, none, some, List, [], ◌∷◌,
  ◌++◌, ◌==◌, ltb, leb, if◌then◌else◌, ◌>>=◌, ◌>>◌, assert, length, get_elem?, set, replicate,
}
use sfptpd.Db.Store.{StoreOps}

-- An element: `struct array_header` with the record after it. `has_magic` is that the header holds
-- MAGIC_AR_HDR.
pub record Slot (Record : Type 0) : Type 0 where
  pub has_magic : Bool
  pub populated : Bool
  pub next_freed : ℕ
  pub payload : Record

-- `struct array`; `slots` is the memory behind `data`, `capacity` elements of it.
pub record ArrayStore (Record : Type 0) : Type 0 where
  pub slots : List (Slot Record)
  pub capacity : ℕ
  pub hwm : ℕ
  pub count : ℕ
  pub first_freed : ℕ

module _ {Record : Type 0} where
  -- `array_create`; `blank` is what the memory holds.
  unfoldable pub array_create : Slot Record → ℕ → ArrayStore Record
  array_create blank initial_capacity = record {
    slots = replicate initial_capacity blank;
    capacity = initial_capacity;
    hwm = 0;
    count = 0;
    first_freed = 0;
  }

  -- `get_array_header` of an element that is not new.
  unfoldable pub get_header : ArrayStore Record → ℕ → Option (Slot Record)
  get_header ar index = do
    assert (ltb index ar.hwm)
    h ← get_elem? ar.slots index
    assert h.has_magic
    some h

  -- The write of an element; `none` is one outside the memory.
  unfoldable pub put_slot : ℕ → Slot Record → List (Slot Record) → Option (List (Slot Record))
  put_slot index h slots = if ltb index (length slots) then some (set slots index h) else none

  -- The element that `array_insert` fills.
  abbrev pub filled : ℕ → Record → Slot Record
  filled next r = record { has_magic = true; populated = true; next_freed = next; payload = r }

  -- The branch of `array_insert` that appends, after the memory has grown if need be. A new element
  -- keeps the `next_freed` that its memory holds.
  unfoldable pub append_record : Record → ArrayStore Record → Option (ℕ × ArrayStore Record)
  unfolding put_slot
  append_record r ar = do
    old ← get_elem? ar.slots ar.hwm
    slots ← put_slot ar.hwm (filled old.next_freed r) ar.slots
    some (ar.hwm, record ar { slots = slots; hwm = ar.hwm + 1; count = ar.count + 1 })

  -- The branch of `array_insert` that uses a freed element again.
  unfoldable pub reuse_freed : Record → ArrayStore Record → Option (ℕ × ArrayStore Record)
  unfolding get_header put_slot
  reuse_freed r ar = do
    h ← get_header ar ar.first_freed
    assert (not h.populated)
    slots ← put_slot ar.first_freed (filled h.next_freed r) ar.slots
    some (
      ar.first_freed,
      record ar { slots = slots; first_freed = h.next_freed; count = ar.count + 1 },
    )

  -- The doubling of the memory in `array_insert`; `realloc` leaves `blank` in what it adds.
  unfoldable pub grow : Slot Record → ArrayStore Record → ArrayStore Record
  grow blank ar =
      if ar.count == ar.capacity
      then record ar { slots = ar.slots ++ replicate ar.capacity blank; capacity = ar.capacity * 2 }
      else ar

  -- `array_insert`.
  unfoldable pub array_insert :
      Slot Record → Record → ArrayStore Record → Option (ℕ × ArrayStore Record)
  unfolding append_record reuse_freed grow
  array_insert blank r ar = do
    assert (leb ar.hwm ar.capacity)
    if ar.count == ar.hwm then append_record r (grow blank ar) else reuse_freed r ar

  -- The end of `array_delete`, for an element that is marked as not populated.
  unfoldable pub release : ℕ → Slot Record → ArrayStore Record → ArrayStore Record
  release index h ar =
      if ar.count == 0
      then record ar { hwm = 0 }
      else if index + 1 == ar.hwm
      then record ar { hwm = ar.hwm - 1 }
      else record ar {
        slots = set ar.slots index (record h { next_freed = ar.first_freed });
        first_freed = index;
      }

  -- `array_delete`.
  unfoldable pub array_delete : ℕ → ArrayStore Record → Option (ArrayStore Record)
  unfolding get_header release
  array_delete index ar = do
    old ← get_header ar index
    let h = record old { populated = false }
    some (release index h (record ar { slots = set ar.slots index h; count = ar.count - 1 }))

  -- The loop of `array_foreach` with `left` elements to go.
  unfoldable pub foreach_from : ArrayStore Record → ℕ → ℕ → Option (List ℕ)
  unfolding get_header
  foreach_from ar zero index = some []
  foreach_from ar (suc left) index = do
    h ← get_header ar index
    rest ← foreach_from ar left (suc index)
    some (if h.populated then index ∷ rest else rest)

  -- `array_foreach`.
  unfoldable pub array_foreach : ArrayStore Record → Option (List ℕ)
  unfolding foreach_from
  array_foreach ar = do
    assert (leb ar.hwm ar.capacity)
    visited ← foreach_from ar ar.hwm 0
    assert (length visited == ar.count)
    some visited

  -- The loop of `array_find` with `left` elements to go.
  unfoldable pub find_from : (Record → Option Bool) → ArrayStore Record → ℕ → ℕ → Option (Option ℕ)
  unfolding get_header
  find_from p ar zero index = some none
  find_from p ar (suc left) index =
      let rest = find_from p ar left (suc index) in
      elim (get_header ar index) [
        | none ↦ none
        | some h ↦
            if h.populated
            then elim (p h.payload) [
              | none ↦ none
              | some match ↦ if match then some (some index) else rest
            ]
            else rest
      ]

  -- `array_find`.
  unfoldable pub array_find : (Record → Option Bool) → ArrayStore Record → Option (Option ℕ)
  unfolding find_from
  array_find p ar = do assert (leb ar.hwm ar.capacity); find_from p ar ar.hwm 0

  -- `array_get_data`, and a write to where it points.
  unfoldable pub array_get_data : ℕ → ArrayStore Record → Option Record
  unfolding get_header
  array_get_data index ar = do h ← get_header ar index; some h.payload

  unfoldable pub array_set_data : ℕ → Record → ArrayStore Record → Option (ArrayStore Record)
  unfolding get_header
  array_set_data index r ar = do
    h ← get_header ar index
    some (record ar { slots = set ar.slots index (record h { payload = r }) })

  -- `array_free` frees the memory whatever it holds.
  unfoldable pub array_free : ArrayStore Record → Option (Unit {0})
  array_free ar = some tt

  -- `array_ops`.
  unfoldable pub array_ops : Slot Record → StoreOps Record
  unfolding array_insert array_delete array_foreach array_find array_get_data array_set_data
      array_free
  array_ops blank = record {
    State = ArrayStore Record;
    RecordRef = ℕ;
    insert = array_insert blank;
    delete = array_delete;
    foreach = array_foreach;
    find = array_find;
    get_data = array_get_data;
    set_data = array_set_data;
    free = array_free;
  }

  -- `sfptpd_db_table_new` with STORE_ARRAY: ARRAY_INITIAL_SIZE_BYTES is 4096.
  unfoldable pub table_new_array : (blank : Slot Record) → ℕ → (array_ops blank).State
  unfolding array_ops array_create
  table_new_array blank record_size = array_create blank (4096 / record_size)
