-- ===== src/Timer/Defs.antt =====
-- ptp/ptpd2/dep/timer.c and the type IntervalTimer of ptp/ptpd2/datatypes.h: the timers that run the
-- state machine of a PTP port. The array is a list of TIMER_ARRAY_SIZE timers. The number of ticks
-- that a time in seconds comes to is computed in floating point, so `timer_start` takes that number.
use sfptpd.Prelude.{
  ℕ, zero, suc, ◌+◌, ◌%◌, Bool, true, false, not, ◌&&◌, none, some, List, [], ◌∷◌, map, leb,
  if◌then◌else◌, get_elem?, ℤ, pos, ◌-ℤ◌, ltb_ℤ,
}

-- TIMER_ARRAY_SIZE.
abbrev pub timer_array_size : ℕ
timer_array_size = 12

-- `IntervalTimer`.
pub record IntervalTimer : Type 0 where
  pub interval : ℤ
  pub left : ℤ
  pub expire : Bool

-- The body of the loop of `timerTick`.
unfoldable pub tick : IntervalTimer → IntervalTimer
unfolding ◌-ℤ◌
tick t =
    if ltb_ℤ (pos 0) t.interval
    then (if ltb_ℤ (pos 0) (t.left -ℤ pos 1)
        then record t { left = t.left -ℤ pos 1 }
        else record t { left = t.interval; expire = true })
    else t

-- `timerTick`: the counter `timer_ticks` and the timers.
unfoldable pub timer_tick : ℕ × List IntervalTimer → ℕ × List IntervalTimer
unfolding tick
timer_tick (ticks, itimer) = ((ticks + 1) % 4294967296, map tick itimer)

-- A write to `itimer[index]`.
abbrev pub modify : List IntervalTimer → ℕ → (IntervalTimer → IntervalTimer) → List IntervalTimer
modify [] i f = []
modify (t ∷ l) zero f = f t ∷ l
modify (t ∷ l) (suc i) f = t ∷ modify l i f

-- A write that is skipped where the index is TIMER_ARRAY_SIZE or more.
abbrev pub change : ℕ → (IntervalTimer → IntervalTimer) → List IntervalTimer → List IntervalTimer
change index f itimer = if leb timer_array_size index then itimer else modify itimer index f

-- `timerStop`.
unfoldable pub timer_stop : ℕ → List IntervalTimer → List IntervalTimer
timer_stop index itimer = change index (λ t. record t { interval = pos 0 }) itimer

-- The ticks of a timer in `timerStart`, where the time comes to `n` ticks.
abbrev pub at_least_one : ℤ → ℤ
at_least_one (pos zero) = pos 1
at_least_one other = other

-- `timerStart`.
unfoldable pub timer_start : ℕ → ℤ → List IntervalTimer → List IntervalTimer
timer_start index n itimer =
    change index (λ t. record { interval = at_least_one n; left = at_least_one n; expire = false })
      itimer

-- `timerExpired`: the answer, and the timers with the expiry taken back.
unfoldable pub timer_expired : ℕ → List IntervalTimer → Bool × List IntervalTimer
timer_expired index itimer =
    if leb timer_array_size index then (false, itimer) else elim (get_elem? itimer index) [
      | none ↦ (false, itimer)
      | some t ↦
          if t.expire
          then (true, modify itimer index (λ t. record t { expire = false }))
          else (false, itimer)
    ]

abbrev pub is_zero : ℤ → Bool
is_zero (pos zero) = true
is_zero other = false

-- `timerStopped`.
unfoldable pub timer_stopped : ℕ → List IntervalTimer → Bool
timer_stopped index itimer =
    if leb timer_array_size index
    then false
    else elim (get_elem? itimer index) [ none ↦ false | some t ↦ is_zero t.interval ]

-- `timerRunning`.
unfoldable pub timer_running : ℕ → List IntervalTimer → Bool
timer_running index itimer =
    if leb timer_array_size index then false else elim (get_elem? itimer index) [
      | none ↦ false
      | some t ↦ not (is_zero t.interval) && not t.expire
    ]

-- What the protocol does with its timers, one call at a time.
pub data Call : Type 0 where
  tick_all : Call
  start : ℕ → ℤ → Call
  stop : ℕ → Call
  ask : ℕ → Call

unfoldable pub perform : Call → List IntervalTimer → List IntervalTimer
unfolding timer_tick timer_start timer_stop timer_expired
perform tick_all itimer = (timer_tick (0, itimer)).1
perform (start j n) itimer = timer_start j n itimer
perform (stop j) itimer = timer_stop j itimer
perform (ask j) itimer = (timer_expired j itimer).1

-- The timers after a sequence of calls.
unfoldable pub run : List Call → List IntervalTimer → List IntervalTimer
unfolding perform
run [] itimer = itimer
run (c ∷ calls) itimer = run calls (perform c itimer)

-- The ticks in a sequence of calls.
abbrev pub ticks_in : List Call → ℕ
ticks_in [] = 0
ticks_in (tick_all ∷ calls) = suc (ticks_in calls)
ticks_in (other ∷ calls) = ticks_in calls
