-- ===== src/Engine/Tests.antt =====
-- Three sync instances, and the theorems at them.
use sfptpd.Prelude.{
  ℕ, ◌≡◌, ◌≢◌, refl, true, false, none, some, [], ◌∷◌, arith, get_elem?, ◌==◌, ◌+◌, ◌>>=◌,
}
use sfptpd.Sorting.{insertion, insertion-IsSorting}
use sfptpd.Bic.Defs.{Instance, default_rules}
use sfptpd.Bic.Order.{beats}
use sfptpd.Bic.Best.{AtMostOne, ref}
use sfptpd.Bic.Tests.{whole, whole-NoNan, ntp, ptp, pps}
use sfptpd.Engine.Defs.{
  SyncInstance, Engine, find_handle, select_sync_instance, on_state_changed, on_timer,
  state_changed, holdoff_over, select, run_events,
}
use sfptpd.Engine.Control.{IsExclusive, Selects, select_sync_instance-IsExclusive}
use sfptpd.Engine.Change.{instances, with_status}
use sfptpd.Engine.Holdoff.{state_changed-on_timer}

abbrev member : ℕ → Instance whole → SyncInstance whole
member name bic = record { handle = 100 + name; name = name; clock = 9; bic = bic }

-- The first is selected and has control of the clock.
abbrev engine : Engine whole
engine = record {
  sync_instances = member 1 ntp ∷ member 2 ptp ∷ member 3 pps ∷ [];
  selected = some 0;
  candidate = none;
  lrc = 9;
  controls = λ i. i == 0;
  timer = false;
}

engine-IsExclusive : IsExclusive whole engine
engine-IsExclusive i c = ground (arith, c)

-- The old instance gives the clock up, and the new one refuses to start.
select_sync_instance-IsExclusive_example :
    (out : ℕ × Engine whole) × (select_sync_instance whole (0, 5) 2 engine ≡ some out)
    × Selects whole (0, 5) 2 engine out
select_sync_instance-IsExclusive_example =
    select_sync_instance-IsExclusive whole (0, 5) 2 engine (omega arith) engine-IsExclusive

handle_102 : find_handle whole 102 0 engine.sync_instances ≡ some 1
unfolding find_handle
handle_102 = refl

free :
    (i : ℕ) (r : Instance whole)
    → get_elem? (instances whole engine.sync_instances) i ≡ some r
    → r.selected ≡ false
free i r e = ground arith

at_most_one : AtMostOne whole (instances whole engine.sync_instances)
at_most_one i j r s ei ej hi hj = cc (free i r ei)

state_changed-on_timer_example :
    (e' : Engine whole) × (e'' : Engine whole) × (best : ℕ) × (r : Instance whole)
    × (on_state_changed whole insertion default_rules true 10 (0, 0) 102 ptp.status 9 engine
        ≡ some e')
    × (e'.selected ≡ some 0)
    × (e'.controls ≡ engine.controls)
    × (on_timer whole insertion default_rules true 10 (0, 0) e' ≡ some e'')
    × IsExclusive whole e''
    × (e''.selected ≡ some best)
    × (get_elem? (with_status whole (instances whole engine.sync_instances) 1 ptp.status) best
        ≡ some r)
    × ((j : ℕ) (s : Instance whole)
        → get_elem? (with_status whole (instances whole engine.sync_instances) 1 ptp.status) j
          ≡ some s
        → j ≢ best
        → beats whole default_rules (ref whole best r) (ref whole j s) ≡ true)
state_changed-on_timer_example =
    state_changed-on_timer whole insertion default_rules true 10 (0, 0) 102 ptp.status 9 engine 1
      whole-NoNan insertion-IsSorting refl (λ e. omega (arith, e)) handle_102 at_most_one
      engine-IsExclusive

-- The second instance becomes the candidate, the third is then selected by hand, and the end of the
-- hold-off interval selects the second all the same.
by_hand_undone :
    run_events whole insertion default_rules true 10
        (state_changed (0, 0) 102 ptp.status 9 ∷ select (0, 0) 3 ∷ holdoff_over (0, 0) ∷ [])
        engine
      >>= (λ e. e.selected)
    ≡ some 1
unfolding run_events insertion sfptpd.Bic.Choose.rank_sorted sfptpd.Bic.Choose.fill_ranks
    sfptpd.Bic.Choose.refs sfptpd.Bic.Choose.compar sfptpd.Bic.Defs.select
    sfptpd.Bic.Defs.apply_rule
by_hand_undone = refl
