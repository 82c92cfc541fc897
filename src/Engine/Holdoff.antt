-- ===== src/Engine/Holdoff.antt =====
-- A change of state and the end of the hold-off interval after it: the engine ends on the best instance.

use sfptpd.Prelude.{
  ℕ, ◌<◌, ◌≡◌, ◌≢◌, refl, sym, ap, ◌∙◌, Bool, true, false, not, ◌&&◌, ◌||◌, Option, none, some,
  List, set, ◌==◌, if◌then◌else◌, length, get_elem?, get_elem?_in, get_elem?_lt, length-set, arith,
  inl, inr, Bool-cases, Option-cases, ◌>>=◌,
}
use sfptpd.Sorting.{Sorting, IsSorting}
use sfptpd.Bic.Defs.{Floats, Rule, Status, Instance}
use sfptpd.Bic.Order.{NoNan, beats, has_tie_break}
use sfptpd.Bic.Choose.{choose}
use sfptpd.Bic.Best.{AtMostOne, ref, choose-IsBest}
use sfptpd.Engine.Defs.{
  points_at, is_none, SyncInstance, Engine, find_handle, select_sync_instance, write_back, propose,
  on_state_changed, on_timer,
}
use sfptpd.Engine.Control.{IsExclusive, select_sync_instance-IsExclusive}
use sfptpd.Engine.Change.{
  instances, with_status, pending, instances-set, with_status-AtMostOne, length-with_status,
  length-write_back, length-instances, find_handle-lt, points_at_eq,
}

module _ (F : Floats) (S : Sorting) (rules : List Rule) (manual : Bool) (holdoff : ℕ) where
  -- What a proposal of a candidate leaves while the hold-off interval runs.
  abbrev Proposes : ℕ → Engine F → Engine F → Type 0
  Proposes new e e' =
      (e'.selected ≡ e.selected)
      × (e'.controls ≡ e.controls)
      × (e'.sync_instances ≡ e.sync_instances)
      × (pending F e' ≡ some new)

  pending_selected :
      (e : Engine F) (new : ℕ)
      → (points_at e.selected new && is_none e.candidate) ≡ true
      → pending F e ≡ some new
  pending_selected e new h = go e.candidate h
    where
      go :
          (c : Option ℕ)
          → (points_at e.selected new && is_none c) ≡ true
          → elim c as (λ x. Option ℕ) [ none ↦ e.selected | some i ↦ some i ] ≡ some new
      go none h = points_at_eq F e.selected new (ground (arith, h))
      go (some i) h = ground (arith, h)

  propose_lem :
      (rcs : ℕ × ℕ) (new : ℕ) (e : Engine F)
      → holdoff ≢ 0
      → (e' : Engine F) × (propose F S rules manual holdoff rcs new e ≡ some e') × Proposes new e e'
  unfolding propose
  propose_lem rcs new e h = elim (Bool-cases (points_at e.selected new && is_none e.candidate)) [
    | inl b ↦ (e, rw b refl, (refl, refl, refl, pending_selected e new b))
    | inr b ↦ elim (Bool-cases (points_at e.candidate new)) [
      | inl c ↦ (
        e,
        rw (b, c) refl,
        (
          refl,
          refl,
          refl,
          ap (λ o. elim o as (λ x. Option ℕ) [ none ↦ e.selected | some i ↦ some i ])
              (points_at_eq F e.candidate new c),
        ),
      )
      | inr c ↦ (
        record e {
          candidate = some new;
          timer = if is_none e.candidate || points_at e.selected new then true else e.timer;
        },
        rw (b, c, interval holdoff h) refl,
        (refl, refl, refl, refl),
      )
    ]
  ]
    where
      interval : (n : ℕ) → n ≢ 0 → (n == 0) ≡ false
      interval n h = ground (arith, h)

  on_timer_lem :
      (new : ℕ) (e : Engine F)
      → new < length e.sync_instances
      → IsExclusive F e
      → pending F e ≡ some new
      → (e' : Engine F) × (on_timer F S rules manual holdoff (0, 0) e ≡ some e')
        × IsExclusive F e'
        × (e'.selected ≡ some new)
  unfolding on_timer
  on_timer_lem new e lt ex p = elim (Option-cases e.candidate) [
    | inl n ↦ (record e { timer = false }, ap expire n, ex, sym (ap target n) ∙ p)
    | inr q ↦
        let at : e.candidate ≡ some new = q.1 ∙ (sym (ap target q.1) ∙ p) in
        let (out, f, w) = select_sync_instance-IsExclusive F (0, 0) new e lt ex in
        (
          record (out.1) { candidate = none; timer = false },
          ap expire at ∙ ap (λ m. m >>= finish) f,
          w.0,
          elim w.2 [
            | inl ok ↦ ok.1
            | inr bad ↦ elim bad [ inl b ↦ absurd (b.1 b.0) | inr b ↦ absurd (b.1 b.0) ]
          ],
        )
  ]
    where
      target : Option ℕ → Option ℕ
      target none = e.selected
      target (some c) = some c

      finish : ℕ × Engine F → Option (Engine F)
      finish out = some (record (out.1) { candidate = none; timer = false })

      expire : Option ℕ → Option (Engine F)
      expire none = some (record e { timer = false })
      expire (some i) = select_sync_instance F (0, 0) i e >>= finish

  on_state_changed-eq :
      (rcs : ℕ × ℕ) (handle : ℕ) (status : Status F) (clock : ℕ) (e : Engine F) (i new : ℕ)
      (r : SyncInstance F) (written : List (Instance F))
      → find_handle F handle 0 e.sync_instances ≡ some i
      → get_elem? e.sync_instances i ≡ some r
      → let changed =
          set e.sync_instances i
            (record r { clock = clock; bic = record (r.bic) { status = status } }) in
        choose F S rules (instances F changed) ≡ some (some new, written)
        → on_state_changed F S rules manual holdoff rcs handle status clock e
          ≡ propose F S rules manual holdoff rcs new (record e {
            sync_instances = write_back F changed written;
            lrc = if points_at e.selected i && not (clock == e.lrc) then clock else e.lrc;
          })
  unfolding on_state_changed
  on_state_changed-eq rcs handle status clock e i new r written f g c = rw (f, g, c) refl

  -- Where the hold-off interval is not 0, a change of the state of an instance of the array does not
  -- change which instance is selected, nor which has control of the clock; and where the interval then
  -- ends, with sync modules that answer without an error, the instance that is selected beats every
  -- other one by the rules of the policy, and no other has control. The rules have the tie break among
  -- them, at most one instance is selected by hand, no instance but the selected one has control
  -- before, the values that the rules compare are no NaN, and `qsort_r` sorts.
  pub state_changed-on_timer :
      (rcs : ℕ × ℕ) (handle : ℕ) (status : Status F) (clock : ℕ) (e : Engine F) (i : ℕ)
      → NoNan F
      → IsSorting S
      → has_tie_break rules ≡ true
      → holdoff ≢ 0
      → find_handle F handle 0 e.sync_instances ≡ some i
      → AtMostOne F (instances F e.sync_instances)
      → IsExclusive F e
      → (e' : Engine F) × (e'' : Engine F) × (best : ℕ) × (r : Instance F) × (on_state_changed F S
            rules manual holdoff rcs handle status clock e
          ≡ some e')
        × (e'.selected ≡ e.selected)
        × (e'.controls ≡ e.controls)
        × (on_timer F S rules manual holdoff (0, 0) e' ≡ some e'')
        × IsExclusive F e''
        × (e''.selected ≡ some best)
        × (get_elem? (with_status F (instances F e.sync_instances) i status) best ≡ some r)
        × ((j : ℕ) (s : Instance F)
            → get_elem? (with_status F (instances F e.sync_instances) i status) j ≡ some s
            → j ≢ best
            → beats F rules (ref F best r) (ref F j s) ≡ true)
  state_changed-on_timer rcs handle status clock e i nan sorting tie h f one ex =
      let lt : i < length e.sync_instances =
        omega (arith, (find_handle-lt F handle 0 i e.sync_instances f).1) in
      let (r, g) = get_elem?_in e.sync_instances i lt in
      let n : length (with_status F (instances F e.sync_instances) i status)
          ≡ length e.sync_instances =
        length-with_status F (instances F e.sync_instances) i status
        ∙ length-instances F e.sync_instances in
      let (best, b, written, c, at, wins) =
        choose-IsBest F nan S sorting rules tie
          (with_status F (instances F e.sync_instances) i status)
          (with_status-AtMostOne F (instances F e.sync_instances) i status one)
          (omega (arith, lt, n)) in
      let below : best < length e.sync_instances = omega (
        arith,
        get_elem?_lt (with_status F (instances F e.sync_instances) i status) best b at,
        n,
      ) in
      let changed : List (SyncInstance F) =
        set e.sync_instances i
          (record r { clock = clock; bic = record (r.bic) { status = status } }) in
      let chosen : choose F S rules (instances F changed) ≡ some (some best, written) =
        ap (choose F S rules) (instances-set F e.sync_instances i clock status r g) ∙ c in
      let (e', q, (sel, con, mem, target)) =
        propose_lem rcs best
          (record e {
            sync_instances = write_back F changed written;
            lrc = if points_at e.selected i && not (clock == e.lrc) then clock else e.lrc;
          })
          h in
      let same_length : length e'.sync_instances ≡ length e.sync_instances =
        ap length mem ∙ length-write_back F changed written ∙ length-set e.sync_instances i _ in
      let (e'', t, ex', sel') =
        on_timer_lem best e' (omega (arith, below, same_length))
          (λ j k. sel ∙ ex j (ap (λ u. u j) (sym con) ∙ k)) target in
      (
        e',
        e'',
        best,
        b,
        on_state_changed-eq rcs handle status clock e i best r written f g chosen ∙ q,
        sel,
        con,
        t,
        ex',
        sel',
        at,
        wins,
      )
