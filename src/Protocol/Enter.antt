-- ===== src/Protocol/Enter.antt =====
-- What `toState` of ptp/ptpd2/protocol.c does, and the timeouts that follow from the timers that it
-- starts.
use sfptpd.Prelude.{
  ℕ, zero, suc, ◌+◌, ◌≡◌, refl, ap, sym, ◌∙◌, arith, Bool, true, false, not, ◌&&◌, some, List, [],
  ◌∷◌, ◌++◌, get_elem?, length, leb, if◌then◌else◌, if_cases, ℤ, pos, ◌>>=◌,
}
use sfptpd.Foreign.Defs.{ForeignMaster}
use sfptpd.Bmc.Clock.{PortState, faulty, listening, passive, slave}
use sfptpd.Bmc.Interval.{update_announce_interval}
use sfptpd.Timer.Defs.{
  IntervalTimer, timer_array_size, modify, change, timer_stop, timer_start, timer_running,
  timer_expired, Call, tick_all, start, stop, ask, perform, run, ticks_in,
}
use sfptpd.Timer.Expiry.{AllLeaveAlone, ticks_of, timer_expired-run}
use sfptpd.Protocol.Defs.{
  LongDouble, PortOpts, PtpPort, stop_timers, protocol_timers, peer_timers, start_pdelayreq, leave,
  enter_listening, enter_passive, enter_slave, enter, settle, to_state, is_known,
}

length-modify :
    (l : List IntervalTimer) (i : ℕ) (f : IntervalTimer → IntervalTimer)
    → length (modify l i f) ≡ length l
length-modify [] i f = refl
length-modify (t ∷ l) zero f = refl
length-modify (t ∷ l) (suc i) f = ap suc (length-modify l i f)

length-change :
    (i : ℕ) (f : IntervalTimer → IntervalTimer) (l : List IntervalTimer)
    → length (change i f l) ≡ length l
length-change i f l =
    if_cases (λ m. length m ≡ length l) (leb timer_array_size i) _ _ (λ _. refl)
      (λ _. length-modify l i f)

length-timer_stop : (i : ℕ) (l : List IntervalTimer) → length (timer_stop i l) ≡ length l
unfolding timer_stop
length-timer_stop i l = length-change i _ l

length-timer_start :
    (i : ℕ) (n : ℤ) (l : List IntervalTimer) → length (timer_start i n l) ≡ length l
unfolding timer_start
length-timer_start i n l = length-change i _ l

length-stop_timers : (is : List ℕ) (l : List IntervalTimer) → length (stop_timers is l) ≡ length l
length-stop_timers [] l = refl
length-stop_timers (i ∷ is) l = length-stop_timers is (timer_stop i l) ∙ length-timer_stop i l

run-append : (xs ys : List Call) (l : List IntervalTimer) → run (xs ++ ys) l ≡ run ys (run xs l)
unfolding run
run-append [] ys l = refl
run-append (c ∷ xs) ys l = run-append xs ys (perform c l)

AllLeaveAlone-append :
    (i : ℕ) (xs ys : List Call)
    → AllLeaveAlone i xs
    → AllLeaveAlone i ys
    → AllLeaveAlone i (xs ++ ys)
AllLeaveAlone-append i [] ys h k = k
AllLeaveAlone-append i (c ∷ xs) ys h k = (h.0, AllLeaveAlone-append i xs ys h.1 k)

ticks_in-append : (xs ys : List Call) → ticks_in (xs ++ ys) ≡ ticks_in xs + ticks_in ys
ticks_in-append [] ys = omega arith
ticks_in-append (tick_all ∷ xs) ys = omega (arith, ticks_in-append xs ys)
ticks_in-append (start j n ∷ xs) ys = ticks_in-append xs ys
ticks_in-append (stop j ∷ xs) ys = ticks_in-append xs ys
ticks_in-append (ask j ∷ xs) ys = ticks_in-append xs ys

-- Calls other than ticks that leave a timer alone.
record IsQuiet (i : ℕ) (calls : List Call) : Type 0 where
  alone : AllLeaveAlone i calls
  no_ticks : ticks_in calls ≡ 0

-- The states in which a port waits for announcements.
abbrev pub awaits_announce : PortState → Bool
awaits_announce listening = true
awaits_announce passive = true
awaits_announce slave = true
awaits_announce other = false

-- The announce receipt timeout of a port whose timers are those after quiet calls since the start
-- of that timer.
receipt_timeout :
    (n : ℕ) (z : ℤ) (since calls : List Call) (l itimer : List IntervalTimer)
    → length l ≡ timer_array_size
    → z ≡ pos n
    → IsQuiet 6 since
    → AllLeaveAlone 6 calls
    → itimer ≡ run since (timer_start 6 z l)
    → (timer_expired 6 (run calls itimer)).0 ≡ leb (ticks_of n) (ticks_in calls)
receipt_timeout n z since calls l itimer h t q a e =
    ap (λ m. (timer_expired 6 (run calls m)).0) (e ∙ ap (λ y. run since (timer_start 6 y l)) t)
    ∙ ap (λ m. (timer_expired 6 m).0) (sym (run-append since calls (timer_start 6 (pos n) l)))
    ∙ timer_expired-run 6 n (since ++ calls) l (omega arith) h
        (AllLeaveAlone-append 6 since calls q.alone a)
    ∙ ap (leb (ticks_of n)) (ticks_in-append since calls ∙ (omega (arith, q.no_ticks)))

IsQuiet-append : (xs ys : List Call) → IsQuiet 6 xs → IsQuiet 6 ys → IsQuiet 6 (xs ++ ys)
IsQuiet-append xs ys h k = record {
  alone = AllLeaveAlone-append 6 xs ys h.alone k.alone;
  no_ticks = ticks_in-append xs ys ∙ (omega (arith, h.no_ticks, k.no_ticks));
}

module _ (F : LongDouble) {Time : Type 0} where
  pdelay_calls : PtpPort F Time → List IntervalTimer → List Call
  pdelay_calls p l =
      if p.p2p && not (timer_running 0 l)
      then start 0 (F.ticks (F.seconds 1 p.log_min_pdelay_req_interval)) ∷ []
      else []

  -- Starting the timer of peer delay requests is a call on it, or none.
  start_pdelayreq-run :
      (p : PtpPort F Time) (l : List IntervalTimer)
      → start_pdelayreq F p l ≡ run (pdelay_calls p l) l
  unfolding start_pdelayreq pdelay_calls run perform
  start_pdelayreq-run p l =
      elim (p.p2p && not (timer_running 0 l))
        as (λ b.
          (if b then timer_start 0 (F.ticks (F.seconds 1 p.log_min_pdelay_req_interval)) l else l)
          ≡ run
              (if b then start 0 (F.ticks (F.seconds 1 p.log_min_pdelay_req_interval)) ∷ [] else [])
              l) [ true ↦ refl | false ↦ refl ]

  pdelay_calls-IsQuiet :
      (p : PtpPort F Time) (l : List IntervalTimer) → IsQuiet 6 (pdelay_calls p l)
  unfolding pdelay_calls
  pdelay_calls-IsQuiet p l =
      if_cases (IsQuiet 6) (p.p2p && not (timer_running 0 l)) _ _
        (λ _. record { alone = ((λ e. omega (arith, e)), tt); no_ticks = refl })
        (λ _. record { alone = tt; no_ticks = refl })

  -- The same where the timer of peer delay requests is started among these calls.
  waiting_timeout :
      (p : PtpPort F Time) (n : ℕ) (z : ℤ) (before after calls : List Call) (l : List IntervalTimer)
      → length l ≡ timer_array_size
      → z ≡ pos n
      → IsQuiet 6 before
      → IsQuiet 6 after
      → AllLeaveAlone 6 calls
      → (timer_expired 6
          (run calls (run after (start_pdelayreq F p (run before (timer_start 6 z l)))))).0
        ≡ leb (ticks_of n) (ticks_in calls)
  waiting_timeout p n z before after calls l h t q q' a =
      let m = run before (timer_start 6 z l) in
      let pd = pdelay_calls p m in
      receipt_timeout n z (before ++ (pd ++ after)) calls l (run after (start_pdelayreq F p m)) h t
        (IsQuiet-append before (pd ++ after) q
          (IsQuiet-append pd after (pdelay_calls-IsQuiet p m) q'))
        a
        (ap (run after) (start_pdelayreq-run p m)
          ∙ sym (run-append pd after m)
          ∙ sym (run-append before (pd ++ after) (timer_start 6 z l)))

  length-left :
      (opts : PortOpts) (p : PtpPort F Time) → length (leave F opts p).itimer ≡ length p.itimer
  unfolding leave
  length-left opts p = length-stop_timers protocol_timers p.itimer

  -- A port with twelve timers that toState makes faulty is seen to be due for its restart after any
  -- sequence of ticks and of calls on the other timers exactly where it has as many ticks as five
  -- seconds come to, and at least one. No time comes to a negative number of ticks.
  pub fault_restart :
      (opts : PortOpts) (p : PtpPort F Time) (n : ℕ → ℤ → ℕ) (calls : List Call)
      → length p.itimer ≡ timer_array_size
      → ((k : ℕ) (e : ℤ) → F.ticks (F.seconds k e) ≡ pos (n k e))
      → AllLeaveAlone 9 calls
      → (p' : PtpPort F Time) × (to_state F faulty opts p ≡ some p')
        × (p'.clock.port_state ≡ faulty)
        × ((timer_expired 9 (run calls p'.itimer)).0
            ≡ leb (ticks_of (n 5 (pos 0))) (ticks_in calls))
  unfolding to_state enter leave is_known
  fault_restart opts p n calls l t a = (
    _,
    refl,
    refl,
    ap
          (λ z.
            (timer_expired 9 (
              run calls (
                timer_start 9 z
                  (stop_timers peer_timers (stop_timers protocol_timers p.itimer))))).0)
          (t 5 (pos 0))
        ∙ timer_expired-run 9 (n 5 (pos 0)) calls _ (omega arith)
            (length-stop_timers peer_timers (stop_timers protocol_timers p.itimer)
              ∙ length-stop_timers protocol_timers p.itimer
              ∙ l)
            a,
  )

  -- A port that toState makes listening, passive or slave, with the best index in its table and
  -- twelve timers, is seen to have timed out for announcements after any sequence of ticks and of
  -- calls on the other timers exactly where it has as many ticks as announceReceiptTimeout times
  -- two to the announce interval comes to, and at least one; the state is the one asked for. No
  -- time comes to a negative number of ticks.
  pub announce_timeout :
      (state : PortState) (opts : PortOpts) (p : PtpPort F Time) (best : ForeignMaster Time)
      (n : ℕ → ℤ → ℕ) (calls : List Call)
      → awaits_announce state ≡ true
      → length p.itimer ≡ timer_array_size
      → get_elem? p.foreign.records p.foreign.best_index ≡ some best
      → ((k : ℕ) (e : ℤ) → F.ticks (F.seconds k e) ≡ pos (n k e))
      → AllLeaveAlone 6 calls
      → (p' : PtpPort F Time) × (to_state F state opts p ≡ some p')
        × (p'.clock.port_state ≡ state)
        × ((timer_expired 6 (run calls p'.itimer)).0
            ≡ leb
                (ticks_of (n p'.announce_receipt_timeout p'.clock.log_announce_interval))
                (ticks_in calls))
  unfolding to_state enter leave is_known enter_listening enter_passive enter_slave
      update_announce_interval run perform
  announce_timeout listening opts p best n calls k l b t a =
      let q = enter_listening F opts (leave F opts p) in
      let e = q.clock.log_announce_interval in
      (
        settle F listening q,
        refl,
        refl,
        waiting_timeout q (n p.announce_receipt_timeout e)
            (F.ticks (F.seconds p.announce_receipt_timeout e))
            (start 10 (F.ticks (F.seconds 1 e)) ∷ []) (stop 11 ∷ []) calls (leave F opts p).itimer
            (length-left opts p ∙ l) (t p.announce_receipt_timeout e)
            (record { alone = ((λ e. omega (arith, e)), tt); no_ticks = refl })
            (record { alone = ((λ e. omega (arith, e)), tt); no_ticks = refl }) a,
      )
  announce_timeout passive opts p best n calls k l b t a =
      let q = leave F opts p in
      let e = p.clock.log_announce_interval in
      (
        settle F passive (enter_passive F q),
        refl,
        refl,
        waiting_timeout q (n p.announce_receipt_timeout e)
            (F.ticks (F.seconds p.announce_receipt_timeout e))
            (start 10 (F.ticks (F.seconds 1 e)) ∷ start 11 (F.ticks (F.seconds 10 (pos 0))) ∷ []) []
            calls q.itimer (length-left opts p ∙ l) (t p.announce_receipt_timeout e)
            (record {
              alone = ((λ e. omega (arith, e)), ((λ e. omega (arith, e)), tt));
              no_ticks = refl;
            })
            (record { alone = tt; no_ticks = refl }) a,
      )
  announce_timeout slave opts p best n calls k l b t a =
      let q = leave F opts p in
      let e = p.clock.log_announce_interval in
      let operator = timer_start 8 (F.ticks (F.seconds 300 (pos 0))) q.itimer in
      (
        settle F slave (enter_slave F opts best q),
        ap (λ o. (o >>= λ r. some (enter_slave F opts r q)) >>= λ c. some (settle F slave c)) b,
        refl,
        waiting_timeout q (n p.announce_receipt_timeout e)
            (F.ticks (F.seconds p.announce_receipt_timeout e))
            (start 10 (F.ticks (F.seconds 1 e))
              ∷ start 11 (F.ticks (F.seconds 10 (pos 0)))
              ∷ start 4 (F.ticks (F.seconds p.sync_receipt_timeout p.log_sync_interval))
              ∷ [])
            [] calls operator
            (length-timer_start 8 (F.ticks (F.seconds 300 (pos 0))) q.itimer
              ∙ length-left opts p
              ∙ l)
            (t p.announce_receipt_timeout e)
            (record {
              alone = (
                (λ e. omega (arith, e)),
                ((λ e. omega (arith, e)), ((λ e. omega (arith, e)), tt)),
              );
              no_ticks = refl;
            })
            (record { alone = tt; no_ticks = refl }) a,
      )
  announce_timeout other opts p best n calls k l b t a = cc
