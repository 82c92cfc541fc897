-- ===== src/Engine/Change.antt =====
-- The engine's array of instances when the status of one of them changes, and when the choice writes
-- to it.
use sfptpd.Prelude.{
  ℕ, zero, suc, ◌+◌, ◌<◌, ◌≤◌, ◌≡◌, refl, sym, ap, ◌∙◌, Bool, true, Option, none, some, List, [],
  ◌∷◌, map, set, length, get_elem?, arith, ==_iff,
}
use sfptpd.Bic.Defs.{Floats, Status, Instance}
use sfptpd.Bic.Best.{AtMostOne}
use sfptpd.Engine.Defs.{points_at, SyncInstance, Engine, find_handle, write_back}

module _ (F : Floats) where
  abbrev pub instances : List (SyncInstance F) → List (Instance F)
  instances l = map (λ q. q.bic) l

  -- The instances with a new status of the `i`th.
  abbrev pub with_status : List (Instance F) → ℕ → Status F → List (Instance F)
  with_status [] i status = []
  with_status (r ∷ rs) zero status = (record r { status = status }) ∷ rs
  with_status (r ∷ rs) (suc i) status = r ∷ with_status rs i status

  -- The instance that the engine will have selected when the hold-off interval is over.
  abbrev pub pending : Engine F → Option ℕ
  pending e = elim e.candidate [ none ↦ e.selected | some c ↦ some c ]

  pub instances-set :
      (l : List (SyncInstance F)) (i clock : ℕ) (status : Status F) (r : SyncInstance F)
      → get_elem? l i ≡ some r
      → instances (set l i (record r { clock = clock; bic = record (r.bic) { status = status } }))
        ≡ with_status (instances l) i status
  instances-set [] i clock status r e = refl
  instances-set (q ∷ l) zero clock status r e =
      let same : q ≡ r = ground (arith, e) in
      ap (λ x. (record (x.bic) { status = status }) ∷ instances l) (sym same)
  instances-set (q ∷ l) (suc i) clock status r e =
      ap (λ k. q.bic ∷ k) (instances-set l i clock status r e)

  pub with_status-selected :
      (l : List (Instance F)) (i : ℕ) (status : Status F) (j : ℕ) (r : Instance F)
      → get_elem? (with_status l i status) j ≡ some r
      → (q : Instance F) × (get_elem? l j ≡ some q) × (r.selected ≡ q.selected)
  with_status-selected [] i status j r e = absurd (cc e)
  with_status-selected (q ∷ l) zero status zero r e =
      (q, refl, ap (λ o. elim o as (λ x. Bool) [ none ↦ q.selected | some x ↦ x.selected ]) (sym e))
  with_status-selected (q ∷ l) zero status (suc j) r e = (r, e, refl)
  with_status-selected (q ∷ l) (suc i) status zero r e = (r, e, refl)
  with_status-selected (q ∷ l) (suc i) status (suc j) r e = with_status-selected l i status j r e

  pub with_status-AtMostOne :
      (l : List (Instance F)) (i : ℕ) (status : Status F)
      → AtMostOne F l
      → AtMostOne F (with_status l i status)
  with_status-AtMostOne l i status one j k r s er es hr hs =
      let (q, eq, hq) = with_status-selected l i status j r er in
      let (t, et, ht) = with_status-selected l i status k s es in
      one j k q t eq et (sym hq ∙ hr) (sym ht ∙ hs)

  pub length-with_status :
      (l : List (Instance F)) (i : ℕ) (status : Status F)
      → length (with_status l i status) ≡ length l
  length-with_status [] i status = refl
  length-with_status (r ∷ l) zero status = refl
  length-with_status (r ∷ l) (suc i) status = ap suc (length-with_status l i status)

  pub length-write_back :
      (l : List (SyncInstance F)) (written : List (Instance F))
      → length (write_back F l written) ≡ length l
  length-write_back [] written = refl
  length-write_back (r ∷ l) [] = refl
  length-write_back (r ∷ l) (w ∷ written) = ap suc (length-write_back l written)

  pub length-instances : (l : List (SyncInstance F)) → length (instances l) ≡ length l
  length-instances [] = refl
  length-instances (r ∷ l) = ap suc (length-instances l)

  pub find_handle-lt :
      (handle k i : ℕ) (l : List (SyncInstance F))
      → find_handle F handle k l ≡ some i
      → (k ≤ i) × (i < k + length l)
  unfolding find_handle
  find_handle-lt handle k i [] e = absurd (cc e)
  find_handle-lt handle k i (r ∷ l) e = ground (arith, e, find_handle-lt handle (suc k) i l)

  pub points_at_eq : (o : Option ℕ) (i : ℕ) → points_at o i ≡ true → o ≡ some i
  points_at_eq none i h = cc
  points_at_eq (some j) i h = ap some ((==_iff j i).0 h)
