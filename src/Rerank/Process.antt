-- ===== src/Rerank/Process.antt =====
-- `QwenWorkerReranker` of inference/retrieval_reranker.py: a worker process that scores, which is started on
-- demand and stopped on a failure. A call is given how the start and the exchange go, where they take place.
-- A process that is killed is dead: what `join` after `kill` waits for is not modelled. During the startup
-- `poll` raises nothing and `recv` nothing but an EOFError.
use ledgermind_local.Prelude.{
  ℕ, ◌+◌, ◌-◌, Bool, true, false, Option, none, some, List, [], ◌∷◌, ◌==◌, if◌then◌else◌,
}

pub data Startup : Type 0 where
  start_fails silent hangs_up refuses ready : Startup

pub data Scoring (P : Type 0) : Type 0 where
  send_breaks times_out recv_breaks answers_error : Scoring P
  answers : P → Scoring P

pub data Error : Type 0 where
  not_started startup_timeout exited_during_startup startup_failed : Error
  scoring_timeout process_exited scoring_failed : Error

pub data Outcome (P : Type 0) : Type 0 where
  returned : P → Outcome P
  raised : Error → Outcome P

-- The process that the object holds, with its connection; the processes that are alive; how many messages
-- of the held one are still to come; and how many were started, which numbers them.
pub record State : Type 0 where
  pub held : Option ℕ
  pub alive : List ℕ
  pub owed : ℕ
  pub started : ℕ

unfoldable pub is_alive : List ℕ → ℕ → Bool
is_alive [] id = false
is_alive (x ∷ xs) id = if x == id then true else is_alive xs id

unfoldable pub without : ℕ → List ℕ → List ℕ
without id [] = []
without id (x ∷ xs) = let rest = without id xs in if x == id then rest else x ∷ rest

-- `_stop`
abbrev pub stop_held : Option ℕ → State → State
stop_held none s = record s { held = none; owed = 0 }
stop_held (some id) s = record s { held = none; owed = 0; alive = without id s.alive }

unfoldable pub stop : State → State
unfolding without
stop s = stop_held s.held s

-- The process is started and held, and is to say whether it is ready.
abbrev pub spawned : State → State
spawned s = record s {
  held = some s.started;
  alive = s.started ∷ s.alive;
  owed = 1;
  started = s.started + 1;
}

abbrev pub received : State → State
received s = record s { owed = s.owed - 1 }

-- The rest of `_ensure_started` after its `_stop`: `none` where it returns the connection.
unfoldable pub start : Startup → State → Option Error × State
unfolding stop
start start_fails s = (some not_started, s)
start silent s = (some startup_timeout, stop (spawned s))
start hangs_up s = (some exited_during_startup, stop (spawned s))
start refuses s = (some startup_failed, stop (received (spawned s)))
start ready s = (none, received (spawned s))

abbrev pub holds_alive : Option ℕ → List ℕ → Bool
holds_alive none alive = false
holds_alive (some id) alive = is_alive alive id

unfoldable pub ensure_started : Startup → State → Option Error × State
unfolding is_alive start stop
ensure_started f s = if holds_alive s.held s.alive then (none, s) else start f (stop s)

abbrev pub sent : State → State
sent s = record s { owed = s.owed + 1 }

-- The exchange of `score`.
unfoldable pub exchange : {P : Type 0} → Scoring P → State → Outcome P × State
unfolding stop
exchange send_breaks s = (raised process_exited, stop s)
exchange times_out s = (raised scoring_timeout, stop (sent s))
exchange recv_breaks s = (raised process_exited, stop (sent s))
exchange answers_error s = (raised scoring_failed, received (sent s))
exchange (answers p) s = (returned p, received (sent s))

abbrev pub after_start : {P : Type 0} → Scoring P → Option Error × State → Outcome P × State
after_start g (some e, s) = (raised e, s)
after_start g (none, s) = exchange g s

unfoldable pub score : {P : Type 0} → Startup → Scoring P → State → Outcome P × State
unfolding ensure_started exchange
score f g s = after_start g (ensure_started f s)

-- `close`
unfoldable pub close : State → State
close s = stop s

-- A process may also die by itself, at any time between two calls.
unfoldable pub dies : ℕ → State → State
unfolding without
dies id s = record s { alive = without id s.alive }
