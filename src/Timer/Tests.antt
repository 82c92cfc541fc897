-- ===== src/Timer/Tests.antt =====
-- The timers of a port where none runs, and the theorems at them.
use sfptpd.Prelude.{◌≡◌, List, [], ◌∷◌, true, false, pos, replicate, refl, arith}
use sfptpd.Timer.Defs.{
  IntervalTimer, timer_expired, timer_stop, timer_start, run, start, tick_all, ask,
}
use sfptpd.Timer.Expiry.{timer_expired-run, timer_expired-timer_stop}

abbrev idle : IntervalTimer
idle = record { interval = pos 0; left = pos 0; expire = false }

abbrev itimer : List IntervalTimer
itimer = replicate 12 idle

timer_expired-run_example :
    (timer_expired 9
      (run (tick_all ∷ start 6 (pos 1) ∷ tick_all ∷ ask 6 ∷ []) (timer_start 9 (pos 2) itimer))).0
    ≡ true
timer_expired-run_example =
    timer_expired-run 9 2 (tick_all ∷ start 6 (pos 1) ∷ tick_all ∷ ask 6 ∷ []) itimer (omega arith)
      refl (tt, ((λ e. omega (arith, e)), (tt, ((λ e. omega (arith, e)), tt))))

timer_expired-timer_stop_example :
    (timer_expired 4 (timer_stop 4 (run (tick_all ∷ []) (timer_start 4 (pos 1) itimer)))).0
    ≡ (timer_expired 4 (run (tick_all ∷ []) (timer_start 4 (pos 1) itimer))).0
timer_expired-timer_stop_example =
    timer_expired-timer_stop 4 4 (run (tick_all ∷ []) (timer_start 4 (pos 1) itimer))
