-- ===== src/Engine/Defs.antt =====
-- sfptpd_engine.c: the selection of a sync instance, at once or after a hold-off interval. An instance
-- is its index in the engine's array. What the sync modules answer is an argument of each event, as
-- the pair of the return codes that `sfptpd_sync_module_control` gives for the old and the new instance.
use sfptpd.Prelude.{
  ℕ, suc, Bool, true, false, not, ◌&&◌, ◌||◌, Option, none, some, List, [], ◌∷◌, ◌==◌,
  if◌then◌else◌, ◌>>=◌, map, get_elem?, set,
}
use sfptpd.Sorting.{Sorting}
use sfptpd.Bic.Defs.{Floats, Rule, Status, Instance}
use sfptpd.Bic.Choose.{choose, select_instance}

-- Whether an optional index is this one.
abbrev pub points_at : Option ℕ → ℕ → Bool
points_at none i = false
points_at (some j) i = j == i

abbrev pub is_none : Option ℕ → Bool
is_none none = true
is_none (some i) = false

module _ (F : Floats) where
  -- `struct sync_instance_record`: the handle and the name of `info`, the clock of `status`, and what
  -- the choice of an instance reads and writes. A handle is an address, a clock too, and a name is the
  -- number that its octets spell.
  pub record SyncInstance : Type 0 where
    pub handle : ℕ
    pub name : ℕ
    pub clock : ℕ
    pub bic : Instance F

  -- `struct sfptpd_engine`, as far as the selection uses it. `controls` are the instances that have
  -- SYNC_MODULE_CLOCK_CTRL by the calls that succeeded, `timer` whether the hold-off timer runs.
  pub record Engine : Type 0 where
    pub sync_instances : List SyncInstance
    pub selected : Option ℕ
    pub candidate : Option ℕ
    pub lrc : ℕ
    pub controls : ℕ → Bool
    pub timer : Bool

  -- `get_sync_instance_record_by_handle` and `get_sync_instance_record_by_name`, from index `i` on.
  unfoldable pub find_handle : ℕ → ℕ → List SyncInstance → Option ℕ
  find_handle handle i [] = none
  find_handle handle i (r ∷ rs) =
      let rest = find_handle handle (suc i) rs in if r.handle == handle then some i else rest

  unfoldable pub find_name : ℕ → ℕ → List SyncInstance → Option ℕ
  find_name name i [] = none
  find_name name i (r ∷ rs) =
      let rest = find_name name (suc i) rs in if r.name == name then some i else rest

  -- The control of an instance that succeeded.
  abbrev pub control : ℕ → Bool → Engine → Engine
  control i on e = record e { controls = λ j. if j == i then on else e.controls j }

  -- `select_sync_instance` from the change of the engine's record on; `none` is a pointer into no
  -- element of the array.
  unfoldable pub start_instance : ℕ → ℕ → Engine → Option (ℕ × Engine)
  start_instance rc new e = do
    r ← get_elem? e.sync_instances new
    if not (rc == 0)
        then some (rc, record e { selected = some new })
        else some (
          0,
          record (control new true e) {
            selected = some new;
            lrc = if r.clock == e.lrc then e.lrc else r.clock;
          },
        )

  -- `select_sync_instance`.
  unfoldable pub select_sync_instance : ℕ × ℕ → ℕ → Engine → Option (ℕ × Engine)
  unfolding start_instance
  select_sync_instance rcs new e = elim e.selected [
    | none ↦ start_instance rcs.1 new e
    | some old ↦
        if old == new
        then some (0, e)
        else if not (rcs.0 == 0)
        then some (rcs.0, e)
        else start_instance rcs.1 new (control old false e)
  ]

  -- The records with what the choice wrote to them.
  abbrev pub write_back : List SyncInstance → List (Instance F) → List SyncInstance
  write_back [] written = []
  write_back (r ∷ rs) [] = r ∷ rs
  write_back (r ∷ rs) (w ∷ ws) = (record r { bic = w }) ∷ write_back rs ws

module _ (F : Floats) (S : Sorting) (rules : List Rule) (manual : Bool) (holdoff : ℕ) where
  -- `on_sync_instance_state_changed` from the choice of a new candidate on. The message it ends with
  -- names the selected instance, which there is from the start of the engine on: the message is left
  -- out.
  unfoldable pub propose : ℕ × ℕ → ℕ → Engine F → Option (Engine F)
  unfolding select_sync_instance
  propose rcs new e =
      if points_at e.selected new && is_none e.candidate
      then some e
      else if points_at e.candidate new
      then some e
      else if holdoff == 0
      then elim (select_sync_instance F rcs new e) [ none ↦ none | some out ↦ some out.1 ]
      else some (record e {
        candidate = some new;
        timer = if is_none e.candidate || points_at e.selected new then true else e.timer;
      })

  -- `on_sync_instance_state_changed`. `none` is a failed assertion, or a read past the end of the
  -- rules.
  unfoldable pub on_state_changed : ℕ × ℕ → ℕ → Status F → ℕ → Engine F → Option (Engine F)
  unfolding find_handle choose propose
  on_state_changed rcs handle status clock e = do
    i ← find_handle F handle 0 e.sync_instances
    r ← get_elem? e.sync_instances i
    let changed =
        set e.sync_instances i
          (record r { clock = clock; bic = record (r.bic) { status = status } })
    chosen ← choose F S rules (map (λ q. q.bic) changed)
    new ← chosen.0
    propose rcs new (record e {
      sync_instances = write_back F changed chosen.1;
      lrc = if points_at e.selected i && not (clock == e.lrc) then clock else e.lrc;
    })

  -- `on_selection_holdoff_timer`, when the timer has run out.
  unfoldable pub on_timer : ℕ × ℕ → Engine F → Option (Engine F)
  unfolding select_sync_instance
  on_timer rcs e = elim e.candidate [
    | none ↦ some (record e { timer = false })
    | some new ↦ do
      out ← select_sync_instance F rcs new e
      some (record (out.1) { candidate = none; timer = false })
  ]

  -- `on_select_instance`.
  unfoldable pub on_select_instance : ℕ × ℕ → ℕ → Engine F → Option (Engine F)
  unfolding select_sync_instance find_name select_instance
  on_select_instance rcs name e =
      if manual
      then elim (find_name F name 0 e.sync_instances) [
        | none ↦ some e
        | some i ↦ do
          out ← select_sync_instance F rcs i (record e {
            sync_instances =
                write_back F e.sync_instances
                  (select_instance F (map (λ q. q.bic) e.sync_instances) (some i));
          })
          some out.1
      ]
      else some e

  -- What happens to the engine, with the answers of the sync modules.
  pub data Event : Type 0 where
    state_changed : ℕ × ℕ → (handle : ℕ) → Status F → (clock : ℕ) → Event
    holdoff_over : ℕ × ℕ → Event
    select : ℕ × ℕ → (name : ℕ) → Event

  unfoldable pub step : Event → Engine F → Option (Engine F)
  unfolding on_state_changed on_timer on_select_instance
  step (state_changed rcs handle status clock) e = on_state_changed rcs handle status clock e
  step (holdoff_over rcs) e = on_timer rcs e
  step (select rcs name) e = on_select_instance rcs name e

  unfoldable pub run_events : List Event → Engine F → Option (Engine F)
  unfolding step
  run_events [] e = some e
  run_events (event ∷ events) e = do e' ← step event e; run_events events e'
