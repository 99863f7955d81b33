-- ===== src/Lifecycle/Phases.antt =====
-- When the server listens, and that a shutdown ends.
use smartmeet_backend.Prelude.{
  ℕ, ◌+◌, ◌≤◌, ◌<◌, ◌≡◌, refl, true, false, none, some, List, [], ◌∷◌, any, leb, is_some, arith, ok,
  err, ◌⊎◌, inl, inr, All,
}
use smartmeet_backend.Errors.{Failure}
use smartmeet_backend.Config.{Env}
use smartmeet_backend.Lifecycle.{
  Process, Surroundings, connect_redis, start, ProcessEvent, signal, drained, tick,
  force_exit_after, on_event, run_event, run,
}

-- a process that has just begun
pub record IsNew (p : Process) : Type 0 where
  pub redis : p.is_redis_connected ≡ false
  pub deaf : p.listening ≡ none
  pub alive : p.exit_code ≡ none

-- A new process in which PostgreSQL and Redis answer listens on its port, with its Socket.io server
-- for the controllers, whatever becomes of mediasoup's workers. If one of the two fails, it exits
-- with the code 1 and has not listened.
pub start_listens :
    (env : Env) (w : Surroundings) (p : Process)
    → IsNew p
    → ((w.database ≡ ok tt)
        → (w.redis ≡ ok tt)
        → ((start env w p).listening ≡ some env.port)
          × ((start env w p).has_io ≡ true)
          × ((start env w p).exit_code ≡ none))
      × ((e : Failure)
          → (w.database ≡ err e) ⊎ (w.redis ≡ err e)
          → ((start env w p).listening ≡ none) × ((start env w p).exit_code ≡ some 1))
unfolding start connect_redis
start_listens env w p new = ((λ d r. ground arith), (λ e h. ground arith))

-- A process that has been told to end will: it has ended, or a timer is due at the time.
abbrev IsDoomed : ℕ → Process → Type 0
IsDoomed now p = (is_some p.exit_code ≡ true) ⊎ (any (λ due. leb due now) p.deadlines ≡ true)

on_event-IsDoomed :
    (now : ℕ) (e : ProcessEvent) (p : Process) → IsDoomed now p → IsDoomed now (on_event e p)
unfolding on_event
on_event-IsDoomed now (signal t) p h = ground arith
on_event-IsDoomed now drained p h = ground arith
on_event-IsDoomed now (tick t) p h = ground arith

run-IsDoomed :
    (now : ℕ) (es : List ProcessEvent) (p : Process) → IsDoomed now p → IsDoomed now (run es p)
run-IsDoomed now [] p h = h
run-IsDoomed now (e ∷ es) p h = run-IsDoomed now es (on_event e p) (on_event-IsDoomed now e p h)

-- what may happen before the shutdown of time `t` is over: more signals, and the clock
abbrev pub IsEarly : ℕ → ProcessEvent → Type 0
IsEarly t (signal now) = t ≤ now
IsEarly t drained = Unit
IsEarly t (tick now) = now < t + force_exit_after

-- A process that closes without hurry, or has ended well.
abbrev IsCalm : ℕ → Process → Type 0
IsCalm t p =
    (p.exit_code ≡ some 0)
    ⊎ ((p.exit_code ≡ none)
        × (p.is_closing ≡ true)
        × All (λ due. t + force_exit_after ≤ due) p.deadlines)

not_due :
    (t now : ℕ) (ds : List ℕ)
    → All (λ due. t ≤ due) ds
    → now < t
    → any (λ due. leb due now) ds ≡ false
not_due t now [] h lt = refl
not_due t now (d ∷ ds) h lt = ground (arith, not_due t now ds h.1 lt)

over_stays : (e : ProcessEvent) (p : Process) (c : ℕ) → p.exit_code ≡ some c → on_event e p ≡ p
unfolding on_event
over_stays e p c over = ground arith

running : (e : ProcessEvent) (p : Process) → p.exit_code ≡ none → on_event e p ≡ run_event e p
unfolding on_event
running e p alive = ground arith

on_event-IsCalm :
    (t : ℕ) (e : ProcessEvent) (p : Process) → IsEarly t e → IsCalm t p → IsCalm t (on_event e p)
on_event-IsCalm t e p early (inl over) = rw (over_stays e p 0 over) (inl over)
on_event-IsCalm t (signal now) p early (inr (alive, closing, late)) =
    rw (running (signal now) p alive) (inr (alive, refl, (omega arith, late)))
on_event-IsCalm t drained p early (inr (alive, closing, late)) =
    rw (running drained p alive, closing) (inl refl)
on_event-IsCalm t (tick now) p early (inr (alive, closing, late)) =
    rw (running (tick now) p alive, not_due (t + force_exit_after) now p.deadlines late early)
      (inr (alive, closing, late))

run-IsCalm :
    (t : ℕ) (es : List ProcessEvent) (p : Process)
    → All (IsEarly t) es
    → IsCalm t p
    → IsCalm t (run es p)
run-IsCalm t [] p early h = h
run-IsCalm t (e ∷ es) p early h =
    run-IsCalm t es (on_event e p) early.1 (on_event-IsCalm t e p early.0 h)

doomed_ends :
    (now : ℕ) (p : Process) → IsDoomed now p → is_some (on_event (tick now) p).exit_code ≡ true
unfolding on_event
doomed_ends now p h = ground arith

-- A running process that is told to end at a time `t` has ended by the first tick of the clock that
-- is ten seconds later or more, whatever came in between. If its last connection ends before, the
-- exit code is 0.
pub shutdown_ends :
    (t : ℕ) (p : Process) (es : List ProcessEvent)
    → p.exit_code ≡ none
    → p.deadlines ≡ []
    → ((now : ℕ)
        → t + force_exit_after ≤ now
        → is_some (on_event (tick now) (run es (on_event (signal t) p))).exit_code ≡ true)
      × (All (IsEarly t) es
          → (on_event drained (run es (on_event (signal t) p))).exit_code ≡ some 0)
shutdown_ends t p es alive clear = (
  (λ now late. doomed_ends now (run es (on_event (signal t) p)) (
      run-IsDoomed now es (on_event (signal t) p)
        (rw (running (signal t) p alive) (inr (ground arith))))),
  (λ early. drained_well _ (
      run-IsCalm t es (on_event (signal t) p) early
        (rw (running (signal t) p alive) (inr (alive, refl, (omega arith, rw clear tt)))))),
)
  where
    drained_well : (q : Process) → IsCalm t q → (on_event drained q).exit_code ≡ some 0
    drained_well q (inl over) = rw (over_stays drained q 0 over) over
    drained_well q (inr (alive', closing, late)) = rw (running drained q alive', closing) refl
