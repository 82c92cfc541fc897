-- ===== src/Timer/Expiry.antt =====
-- When a timer of ptp/ptpd2/dep/timer.c is seen to have expired, whatever calls on the other timers
-- come in between.
use sfptpd.Prelude.{
  ℕ, zero, suc, ◌+◌, ◌<◌, ◌≡◌, ◌≢◌, refl, sym, ◌∙◌, arith, Bool, false, none, some, List, [], ◌∷◌,
  map, ltb, leb, if_cases, if◌then◌else◌, ap, ◌-◌, get_elem?, length, pos, ◌-ℤ◌,
}
use sfptpd.Timer.Defs.{
  timer_array_size, IntervalTimer, tick, timer_start, timer_stop, timer_expired, Call, tick_all,
  start, stop, ask, perform, run, ticks_in, modify, at_least_one,
}

-- A call that neither starts, stops nor asks for the timer at `i`.
abbrev pub LeavesAlone : ℕ → Call → Type 0
LeavesAlone i tick_all = Unit {0}
LeavesAlone i (start j n) = j ≢ i
LeavesAlone i (stop j) = j ≢ i
LeavesAlone i (ask j) = j ≢ i

abbrev pub AllLeaveAlone : ℕ → List Call → Type 0
AllLeaveAlone i [] = Unit {0}
AllLeaveAlone i (c ∷ calls) = LeavesAlone i c × AllLeaveAlone i calls

-- A timer that was started with `n` ticks and has seen `k` ticks since.
record Counts (n k : ℕ) (t : IntervalTimer) : Type 0 where
  interval : t.interval ≡ pos n
  left : ℕ
  positive : 0 < left
  left_eq : t.left ≡ pos left
  expire : t.expire ≡ leb n k
  counted : k < n → left + k ≡ n

tick-Counts : (n k : ℕ) (t : IntervalTimer) → 0 < n → Counts n k t → Counts n (suc k) (tick t)
unfolding tick ◌-ℤ◌
tick-Counts n k t h c = record {
  interval = ground arith;
  left = if ltb 1 c.left then c.left - 1 else n;
  positive = ground arith;
  left_eq = ground arith;
  expire = ground arith;
  counted = ground arith;
}

get_elem?-map :
    (f : IntervalTimer → IntervalTimer) (l : List IntervalTimer) (i : ℕ) (t : IntervalTimer)
    → get_elem? l i ≡ some t
    → get_elem? (map f l) i ≡ some (f t)
get_elem?-map f [] i t h = cc
get_elem?-map f (x ∷ l) zero t h = ground arith
get_elem?-map f (x ∷ l) (suc i) t h = get_elem?-map f l i t h

get_elem?-modify_ne :
    (l : List IntervalTimer) (j i : ℕ) (f : IntervalTimer → IntervalTimer)
    → j ≢ i
    → get_elem? (modify l j f) i ≡ get_elem? l i
get_elem?-modify_ne [] j i f h = refl
get_elem?-modify_ne (t ∷ l) zero zero f h = absurd (h refl)
get_elem?-modify_ne (t ∷ l) zero (suc i) f h = refl
get_elem?-modify_ne (t ∷ l) (suc j) zero f h = refl
get_elem?-modify_ne (t ∷ l) (suc j) (suc i) f h = get_elem?-modify_ne l j i f (λ e. h (ap suc e))

get_elem?-modify :
    (l : List IntervalTimer) (i : ℕ) (f : IntervalTimer → IntervalTimer)
    → i < length l
    → (t : IntervalTimer) × (get_elem? (modify l i f) i ≡ some (f t))
get_elem?-modify [] i f h = elim h [ ]
get_elem?-modify (t ∷ l) zero f h = (t, refl)
get_elem?-modify (t ∷ l) (suc i) f h = get_elem?-modify l i f (omega arith)

-- A call that leaves the timer at `i` alone, and one tick.
get_elem?-perform :
    (i : ℕ) (c : Call) (l : List IntervalTimer)
    → LeavesAlone i c
    → ticks_in (c ∷ []) ≡ 0
    → get_elem? (perform c l) i ≡ get_elem? l i
unfolding perform timer_start timer_stop timer_expired
get_elem?-perform i tick_all l h e = absurd (omega (arith, e))
get_elem?-perform i (start j n) l h e = ground (
  arith,
  get_elem?-modify_ne l j i
      (λ (t : IntervalTimer). record {
        interval = at_least_one n;
        left = at_least_one n;
        expire = false;
      })
      h,
)
get_elem?-perform i (stop j) l h e =
    ground
      (arith, get_elem?-modify_ne l j i (λ (t : IntervalTimer). record t { interval = pos 0 }) h)
get_elem?-perform i (ask j) l h e =
    ground (arith, get_elem?-modify_ne l j i (λ (t : IntervalTimer). record t { expire = false }) h)

Counts-same : (n k k' : ℕ) (t : IntervalTimer) → k ≡ k' → Counts n k t → Counts n k' t
Counts-same n k k' t e c = rw (← e) c

-- Any sequence of calls that leave the timer at `i` alone.
run-Counts :
    (n k i : ℕ) (calls : List Call) (l : List IntervalTimer) (t : IntervalTimer)
    → 0 < n
    → AllLeaveAlone i calls
    → get_elem? l i ≡ some t
    → Counts n k t
    → (u : IntervalTimer) × (get_elem? (run calls l) i ≡ some u) × Counts n (k + ticks_in calls) u
unfolding run
run-Counts n k i [] l t p a e c = (t, e, Counts-same n k _ t (omega arith) c)
run-Counts n k i (tick_all ∷ calls) l t p a e c =
    let (u, e', c') =
      run-Counts n (suc k) i calls (perform tick_all l) (tick t) p a.1 (get_elem?-map tick l i t e)
        (tick-Counts n k t p c) in
    (u, e', Counts-same n (suc k + ticks_in calls) _ u (omega arith) c')
run-Counts n k i (start j m ∷ calls) l t p a e c =
    run-Counts n k i calls (perform (start j m) l) t p a.1
      (get_elem?-perform i (start j m) l a.0 refl ∙ e) c
run-Counts n k i (stop j ∷ calls) l t p a e c =
    run-Counts n k i calls (perform (stop j) l) t p a.1
      (get_elem?-perform i (stop j) l a.0 refl ∙ e) c
run-Counts n k i (ask j ∷ calls) l t p a e c =
    run-Counts n k i calls (perform (ask j) l) t p a.1 (get_elem?-perform i (ask j) l a.0 refl ∙ e)
      c

-- The ticks that a timer started with `m` takes.
abbrev pub ticks_of : ℕ → ℕ
ticks_of zero = 1
ticks_of (suc m) = suc m

ticks_of_pos : (m : ℕ) → 0 < ticks_of m
ticks_of_pos zero = omega arith
ticks_of_pos (suc m) = omega arith

start-Counts :
    (m : ℕ)
    → Counts
        (ticks_of m)
        0
        (record { interval = at_least_one (pos m); left = at_least_one (pos m); expire = false })
start-Counts zero = record {
  interval = refl;
  left = 1;
  positive = omega arith;
  left_eq = refl;
  expire = refl;
  counted = λ _. omega arith;
}
start-Counts (suc m) = record {
  interval = refl;
  left = suc m;
  positive = omega arith;
  left_eq = refl;
  expire = ground arith;
  counted = λ _. omega arith;
}

get_elem?-timer_start :
    (i m : ℕ) (l : List IntervalTimer)
    → i < timer_array_size
    → length l ≡ timer_array_size
    → get_elem? (timer_start i (pos m) l) i
      ≡ some
          (record { interval = at_least_one (pos m); left = at_least_one (pos m); expire = false })
unfolding timer_start
get_elem?-timer_start i m l h e =
    let written =
      get_elem?-modify l i
        (λ (t : IntervalTimer). record {
          interval = at_least_one (pos m);
          left = at_least_one (pos m);
          expire = false;
        })
        (omega arith) in
    ground (arith, written.1)

timer_expired-get_elem? :
    (i : ℕ) (l : List IntervalTimer) (t : IntervalTimer)
    → i < timer_array_size
    → get_elem? l i ≡ some t
    → (timer_expired i l).0 ≡ t.expire
unfolding timer_expired
timer_expired-get_elem? i l t h e = ground arith

-- A timer of the array that is started with a number of ticks is seen to have expired after any
-- sequence of ticks and of calls on the other timers exactly where it has at least that many ticks,
-- and at least one.
pub timer_expired-run :
    (i m : ℕ) (calls : List Call) (itimer : List IntervalTimer)
    → i < timer_array_size
    → length itimer ≡ timer_array_size
    → AllLeaveAlone i calls
    → (timer_expired i (run calls (timer_start i (pos m) itimer))).0
      ≡ leb (ticks_of m) (ticks_in calls)
timer_expired-run i m calls itimer h e a =
    let fresh : IntervalTimer = record {
      interval = at_least_one (pos m);
      left = at_least_one (pos m);
      expire = false;
    } in
    let (u, e', c) =
      run-Counts (ticks_of m) 0 i calls (timer_start i (pos m) itimer) fresh (ticks_of_pos m) a
        (get_elem?-timer_start i m itimer h e) (start-Counts m) in
    timer_expired-get_elem? i _ u h e' ∙ c.expire ∙ ap (leb (ticks_of m)) (omega arith)

-- Whether the expiry of the timer at `i` is latched.
abbrev latched : List IntervalTimer → ℕ → Bool
latched [] i = false
latched (t ∷ l) zero = t.expire
latched (t ∷ l) (suc i) = latched l i

latched-modify :
    (l : List IntervalTimer) (j i : ℕ)
    → latched (modify l j (λ t. record t { interval = pos 0 })) i ≡ latched l i
latched-modify [] j i = refl
latched-modify (t ∷ l) zero zero = refl
latched-modify (t ∷ l) zero (suc i) = refl
latched-modify (t ∷ l) (suc j) zero = refl
latched-modify (t ∷ l) (suc j) (suc i) = latched-modify l j i

latched-get_elem? :
    (l : List IntervalTimer) (i : ℕ)
    → latched l i ≡ elim (get_elem? l i) [ none ↦ false | some t ↦ t.expire ]
latched-get_elem? [] i = refl
latched-get_elem? (t ∷ l) zero = refl
latched-get_elem? (t ∷ l) (suc i) = latched-get_elem? l i

timer_expired-latched :
    (i : ℕ) (l : List IntervalTimer)
    → (timer_expired i l).0 ≡ (if leb timer_array_size i then false else latched l i)
unfolding timer_expired
timer_expired-latched i l = ground (arith, latched-get_elem? l i)

latched-timer_stop : (i j : ℕ) (l : List IntervalTimer) → latched (timer_stop j l) i ≡ latched l i
unfolding timer_stop
latched-timer_stop i j l =
    if_cases (λ m. latched m i ≡ latched l i) (leb timer_array_size j) _ _ (λ _. refl)
      (λ _. latched-modify l j i)

-- timerStop takes no expiry back: timerExpired answers afterwards as it would have before, of the
-- timer that is stopped and of any other.
pub timer_expired-timer_stop :
    (i j : ℕ) (itimer : List IntervalTimer)
    → (timer_expired i (timer_stop j itimer)).0 ≡ (timer_expired i itimer).0
timer_expired-timer_stop i j itimer =
    timer_expired-latched i (timer_stop j itimer)
    ∙ ap (λ b. if leb timer_array_size i then false else b) (latched-timer_stop i j itimer)
    ∙ sym (timer_expired-latched i itimer)
