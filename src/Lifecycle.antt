-- ===== src/Lifecycle.antt =====
-- The start and the end of the process (src/server.js), with the connections that it waits for
-- (`connectDatabase` of src/config/database.js and `connectRedis` of src/config/redis.js). The
-- answers of PostgreSQL, Redis and mediasoup are arguments. Redis's reconnections and the log are
-- left out, and so is what Node.js does where the port is taken.
pub mod Phases
use smartmeet_backend.Prelude.{
  ℕ, ◌+◌, Bool, true, false, Option, none, some, List, [], ◌∷◌, any, leb, is_some, if◌then◌else◌,
  Action, Result, ok, err, pure, modify, ◌>>=◌, ◌>>◌,
}
use smartmeet_backend.Config.{ℤ, Env}
use smartmeet_backend.SfuService.{Sfu}
use smartmeet_backend.SfuService.Startup.{init}

pub record Process : Type 0 where
  -- the flag `connected` of redis.js
  pub is_redis_connected : Bool
  pub sfu : Sfu
  -- `app.set('io', io)` has run
  pub has_io : Bool
  -- the port that the HTTP server listens on
  pub listening : Option ℤ
  -- whether `httpServer.close` has been called: the server takes no new connection
  pub is_closing : Bool
  -- when the timers of `shutdown` are due
  pub deadlines : List ℕ
  pub exit_code : Option ℕ

-- what the services answer while the process starts
pub record Surroundings : Type 0 where
  pub database : Result (Unit {0})
  pub redis : Result (Unit {0})
  pub worker : ℕ → Result ℕ

abbrev answer_of : Result (Unit {0}) → Action Process (Unit {0})
answer_of r p = (r, p)

abbrev connect_database : Surroundings → Action Process (Unit {0})
connect_database w = answer_of w.database

unfoldable pub connect_redis : Surroundings → Action Process (Unit {0})
connect_redis w p =
    if p.is_redis_connected
    then (ok tt, p)
    else (do answer_of w.redis; modify (λ q. record q { is_redis_connected = true })) p

-- `try { await sfuService.init() } catch`
abbrev pub start_sfu : Env → Surroundings → Process → Process
start_sfu env w p = record p { sfu = (init env.mediasoup.num_workers w.worker p.sfu).1 }

abbrev pub listen : Env → Process → Process
listen env p = record p { has_io = true; listening = some env.port }

abbrev exit : ℕ → Process → Process
exit code p = record p { exit_code = some code }

-- the `catch` around the whole start
abbrev or_exit : Result (Unit {0}) × Process → Process
or_exit (ok _, p) = p
or_exit (err _, p) = exit 1 p

unfoldable pub start : Env → Surroundings → Process → Process
unfolding connect_redis
start env w p =
    or_exit
      ((do connect_database w; connect_redis w; modify (start_sfu env w); modify (listen env)) p)

-- what happens to a process that runs: SIGTERM or SIGINT, the end of its last connection after a
-- call of `close`, and the clock
pub data ProcessEvent : Type 0 where
  signal : (now : ℕ) → ProcessEvent
  drained : ProcessEvent
  tick : (now : ℕ) → ProcessEvent

-- the time that a graceful shutdown may take, in milliseconds
abbrev pub force_exit_after : ℕ
force_exit_after = 10000

abbrev shutdown : ℕ → Process → Process
shutdown now p = record p { is_closing = true; deadlines = (now + force_exit_after) ∷ p.deadlines }

abbrev run_event : ProcessEvent → Process → Process
run_event (signal now) p = shutdown now p
run_event drained p = if p.is_closing then exit 0 p else p
run_event (tick now) p = if any (λ due. leb due now) p.deadlines then exit 1 p else p

-- Nothing happens in a process that has ended.
unfoldable pub on_event : ProcessEvent → Process → Process
on_event e p = if is_some p.exit_code then p else run_event e p

abbrev pub run : List ProcessEvent → Process → Process
run [] p = p
run (e ∷ es) p = run es (on_event e p)
