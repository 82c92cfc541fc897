-- ===== src/Db/Refine.antt =====
-- What a table is to its users, whichever store it stands on: a bag of records, with no order. Its
-- operations on the bag, and scripts of them run on a table.
use mathlib.Core.List.{Permᴰ}
use mathlib.Core.List.Permᴰ
use mathlib.Core.Path.{subst}
use mathlib.Core.Quot
use mathlib.Core.Quot.{Quot, Quot-set}
use native.Mathlib.Nat.{ℕ_set}
use sfptpd.Prelude.{
  ℕ, suc, ◌≤◌, length, ◌≡◌, refl, sym, ap, ◌∙◌, Bool, not, Option, some, List, [], ◌∷◌, ◌++◌, map,
  ◌>>=◌, filter, inl, inr, Bool-cases,
}
use sfptpd.Sorting.{IsConsistent}
use sfptpd.Sorting.Checked.{CheckedSorting, IsCheckedSorting}
use sfptpd.Db.Fields.{IsFilterable, IsSortable, passes, order_by}
use sfptpd.Db.Store.{StoreOps, IsStore}
use sfptpd.Db.Selection.{Filter, max_fields, Selection, TableDef}
use sfptpd.Db.Spelling.{spell}
use sfptpd.Db.Table.{table_insert, table_delete, table_count, table_query}
use sfptpd.Db.Visit.{records, map-entries}
use sfptpd.Db.Query.{IsBounded, unsorted, table_count_lem, table_query_lem}
use sfptpd.Db.Delete.{table_delete_lem}

-- A table as its users see it.
abbrev pub Bag : Type 0 → Type 0
Bag Record = Quot {α = List Record} Permᴰ

-- The bag of the records of a list.
abbrev pub bag_of : {Record : Type 0} → List Record → Bag Record
bag_of l = Quot.mk l

module _ {Record : Type 0} where
  pub filter-Permᴰ :
      (p : Record → Bool) {l m : List Record} → Permᴰ l m → Permᴰ (filter p l) (filter p m)
  filter-Permᴰ p Permᴰ.nil = Permᴰ.nil
  filter-Permᴰ p (Permᴰ.cons {a = a} {l₁ = l} {l₂ = m} e d) =
      subst (λ b. Permᴰ (filter p (a ∷ l)) (filter p (b ∷ m))) e
        (elim (Bool-cases (p a)) [
          | inl h ↦ rw h (Permᴰ.cons refl (filter-Permᴰ p d))
          | inr h ↦ rw h (filter-Permᴰ p d)
        ])
  filter-Permᴰ p (Permᴰ.swap {a = a} {b = b} {a' = c} {l = l} e f) =
      subst (λ b'. Permᴰ (filter p (a ∷ b ∷ l)) (filter p (c ∷ b' ∷ l))) e
        (subst (λ a'. Permᴰ (filter p (a ∷ b ∷ l)) (filter p (a' ∷ a ∷ l))) f
          (elim (Bool-cases (p a)) [
            | inl h ↦ elim (Bool-cases (p b)) [
              | inl k ↦ rw (h, k) (Permᴰ.swap refl refl)
              | inr k ↦ rw (h, k) (Permᴰ.refl _)
            ]
            | inr h ↦ elim (Bool-cases (p b)) [
              | inl k ↦ rw (h, k) (Permᴰ.refl _)
              | inr k ↦ rw (h, k) (Permᴰ.refl _)
            ]
          ]))
  filter-Permᴰ p (Permᴰ.trans d e) = Permᴰ.trans (filter-Permᴰ p d) (filter-Permᴰ p e)

  pub length-Permᴰ : {l m : List Record} → Permᴰ l m → length l ≡ length m
  length-Permᴰ Permᴰ.nil = refl
  length-Permᴰ (Permᴰ.cons e d) = ap suc (length-Permᴰ d)
  length-Permᴰ (Permᴰ.swap e f) = refl
  length-Permᴰ (Permᴰ.trans d e) = length-Permᴰ d ∙ length-Permᴰ e

  -- A record more, and only the records that pass a test.
  abbrev pub put : Record → Bag Record → Bag Record
  put r = Quot.lift Quot-set (λ l. Quot.mk (r ∷ l)) (λ l m d. Quot.sound (Permᴰ.cons refl d))

  abbrev pub keep : (Record → Bool) → Bag Record → Bag Record
  keep p = Quot.lift Quot-set (λ l. Quot.mk (filter p l)) (λ l m d. Quot.sound (filter-Permᴰ p d))

  -- How many records pass a test.
  abbrev pub how_many : (Record → Bool) → Bag Record → ℕ
  how_many p = Quot.lift ℕ_set (λ l. length (filter p l)) (λ l m d. length-Permᴰ (filter-Permᴰ p d))

-- The operations on a table that change which records it holds.
pub data TableOp (Value Record : Type 0) : Type 0 where
  insert : Record → TableOp Value Record
  delete : List (Filter Value) → TableOp Value Record

module _ {Value Record : Type 0} where
  -- The deletions have room for their filters, on fields with a function to compare keys.
  abbrev pub IsScript : TableDef Value Record → List (TableOp Value Record) → Type 0
  IsScript def [] = Unit
  IsScript def (TableOp.insert r ∷ script) = IsScript def script
  IsScript def (TableOp.delete filters ∷ script) =
      (length filters ≤ max_fields) × IsFilterable def filters × IsScript def script

  -- The script on the bag.
  abbrev pub replay : TableDef Value Record → List (TableOp Value Record) → Bag Record → Bag Record
  replay def [] bag = bag
  replay def (TableOp.insert r ∷ script) bag = replay def script (put r bag)
  replay def (TableOp.delete filters ∷ script) bag =
      replay def script (keep (λ r. not (passes def (unsorted filters) r)) bag)

module _ {Record Value : Type 0} (ops : StoreOps Record) (S : CheckedSorting)
    (def : TableDef Value Record) where
  -- The script on a table.
  unfoldable pub run : List (TableOp Value Record) → ops.State → Option ops.State
  run [] s = some s
  run (TableOp.insert r ∷ script) s = do (ref, s') ← table_insert ops r s; run script s'
  run (TableOp.delete filters ∷ script) s = do
    s' ← table_delete ops S def (spell (unsorted filters)) s
    run script s'

  module _ (I : IsStore ops) where
    -- The records of a table, with their order forgotten.
    abbrev pub view : ops.State → Bag Record
    view s = bag_of (records ops I s)

    view-insert :
        (r : Record) (s s' : ops.State) (xs ys : List (ops.RecordRef × Record))
        (ref : ops.RecordRef)
        → I.contents s ≡ xs ++ ys
        → I.contents s' ≡ xs ++ (ref, r) ∷ ys
        → view s' ≡ put r (view s)
    view-insert r s s' xs ys ref e e' =
        rw (e, e') (Quot.sound (Permᴰ.map (λ x. x.1) (Permᴰ.middle (ref, r) xs ys)))

    -- A script whose deletions have room for their filters, on fields with a function to compare keys,
    -- runs to its end on a valid state of a lawful store, and the table it leaves has the records of
    -- the script on the bag.
    pub run-replay :
        (script : List (TableOp Value Record)) (s : ops.State)
        → IsScript def script
        → I.IsValid s
        → (s' : ops.State) × (run script s ≡ some s')
          × I.IsValid s'
          × (view s' ≡ replay def script (view s))
    unfolding run table_insert
    run-replay [] s h v = (s, refl, v, refl)
    run-replay (TableOp.insert r ∷ script) s h v =
        let (ref, s', xs, ys, i, v', e, e') = I.insert-contents r s v in
        let (t, f, w, g) = run-replay script s' h v' in
        (
          t,
          ap (λ m. m >>= λ x. run script x.1) i ∙ f,
          w,
          g ∙ ap (replay def script) (view-insert r s s' xs ys ref e e'),
        )
    run-replay (TableOp.delete filters ∷ script) s h v =
        let (s', d, v', e) = table_delete_lem ops I S def filters s h.0 h.1 v in
        let (t, f, w, g) = run-replay script s' h.2 v' in
        (
          t,
          ap (λ m. m >>= run script) d ∙ f,
          w,
          g
              ∙ ap (λ l. replay def script (Quot.mk l))
                  (ap (map (λ x. x.1)) e
                    ∙ map-entries ops I (λ r. not (passes def (unsorted filters) r))
                        (I.contents s)),
        )

    table_count-how_many :
        (selection : Selection Value) (s : ops.State)
        → IsBounded selection
        → IsFilterable def selection.filters
        → I.IsValid s
        → table_count ops S def (spell selection) s
          ≡ some (how_many (passes def selection) (view s))
    table_count-how_many selection s b f v = table_count_lem ops I S def selection s b f v

    -- What a query returns, with its order forgotten.
    pub table_query-keep :
        (selection : Selection Value) (s : ops.State)
        → IsCheckedSorting S
        → IsBounded selection
        → IsFilterable def selection.filters
        → IsSortable def selection.sort_fields
        → ((l : List Record) → IsConsistent (order_by def selection.sort_fields) l)
        → I.IsValid s
        → (result : List Record) × (table_query ops S def (spell selection) s ≡ some result)
          × (bag_of result ≡ keep (passes def selection) (view s))
    table_query-keep selection s sorting b f o c v =
        let (result, q, p, _) = table_query_lem ops I S def selection s sorting b f o v (c _) in
        (result, q, sym (Quot.sound p))

module _ {Record Value : Type 0} (ops other : StoreOps Record) (S : CheckedSorting)
    (def : TableDef Value Record) where
  -- Two lawful stores are interchangeable: a script run on tables that hold the same records, in
  -- whatever order, succeeds on both, and afterwards every count with bounded arguments is the same.
  -- All filters are on fields with a function to compare keys.
  pub run_agree :
      (I : IsStore ops) (J : IsStore other) (script : List (TableOp Value Record))
      (selection : Selection Value) (s : ops.State) (t : other.State)
      → IsScript def script
      → IsBounded selection
      → IsFilterable def selection.filters
      → I.IsValid s
      → J.IsValid t
      → view ops S def I s ≡ view other S def J t
      → (s' : ops.State) × (t' : other.State) × (n : ℕ) × (run ops S def script s ≡ some s')
        × (run other S def script t ≡ some t')
        × (table_count ops S def (spell selection) s' ≡ some n)
        × (table_count other S def (spell selection) t' ≡ some n)
  run_agree I J script selection s t h b u v w e =
      let (s', f, v', g) = run-replay ops S def I script s h v in
      let (t', f', w', g') = run-replay other S def J script t h w in
      (
        s',
        t',
        how_many (passes def selection) (view ops S def I s'),
        f,
        f',
        table_count-how_many ops S def I selection s' b u v',
        table_count-how_many other S def J selection t' b u w'
            ∙ ap (λ bag. some (how_many (passes def selection) bag))
                (g' ∙ ap (replay def script) (sym e) ∙ sym g),
      )
