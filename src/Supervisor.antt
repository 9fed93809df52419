-- ===== src/Supervisor.antt =====
-- core_gateway/supervisor.py: the owner of the Core's process and of its stream of requests. A run is
-- given scripts: how each start of a process ends, and how each exchange of a request goes. The lock is
-- held for a whole operation, so operations do not interleave. The sandbox's plan and the reading of a frame
-- piece by piece are left out; SUPPORTED_PROTOCOL_MAX is the protocol package's, a field of the state.
pub mod InStep
use ledgermind_local.Prelude.{
  ℕ, Bool, true, false, Option, none, some, List, [], ◌∷◌, ◌==◌, ◌&&◌, ◌||◌, not, if◌then◌else◌,
}

-- The exceptions, with the classes that `request` and `close` tell apart.
pub data Fault : Type 0 where
  timed_out busy crashed supervisor_error : Fault
  remote_error : ℕ → Fault
  frame_error value_error os_error : Fault  -- FrameError is a ValueError
  key_error : Fault  -- KeyError, TypeError

-- How one exchange goes; a script that has ended gives no answer. `refused_envelope` raises before anything is written.
pub data Exchange : Type 0 where
  refused_envelope write_fails no_answer closed_stdout oversized malformed foreign_id : Exchange
  misshapen : Exchange  -- an answer read in full, whose use is a KeyError or a TypeError
  error_response : ℕ → Exchange
  answers : (result : ℕ) → Exchange

pub data Spawn : Type 0 where
  unavailable popen_fails spawned : Spawn

-- A process: whether it runs, whether a request stands on its stream that has no answer read in full, and
-- whether its handshake is done.
pub record Process : Type 0 where
  pub alive : Bool
  pub unanswered : Bool
  pub shaken : Bool

-- An exchange, and whether the process has ended after it.
pub record Turn : Type 0 where
  pub exchange : Exchange
  pub ends : Bool

pub record State : Type 0 where
  pub spawns : List Spawn
  pub turns : List Turn
  pub process : Option Process
  pub handshake_result : Option ℕ
  pub supported_protocol_max : ℕ

pub data Run (A : Type 0) : Type 0 where
  returned : A → Run A
  raised : Fault → Run A

abbrev pub is_alive : Option Process → Bool
is_alive none = false
is_alive (some p) = p.alive

-- `_is_running_locked`
abbrev pub is_running : State → Bool
is_running s = is_alive s.process

-- `_terminate_locked`
unfoldable pub terminate : State → State
terminate s = record s { process = none }

abbrev pub next_spawn : List Spawn → Spawn
next_spawn [] = spawned
next_spawn (x ∷ xs) = x

abbrev pub later_spawns : List Spawn → List Spawn
later_spawns [] = []
later_spawns (x ∷ xs) = xs

abbrev pub next_turn : List Turn → Turn
next_turn [] = record { exchange = no_answer; ends = false }
next_turn (x ∷ xs) = x

abbrev pub later_turns : List Turn → List Turn
later_turns [] = []
later_turns (x ∷ xs) = xs

abbrev pub spawn_as : Spawn → State → Run (Unit {0}) × State
spawn_as unavailable s = (raised supervisor_error, s)
spawn_as popen_fails s = (raised crashed, s)
spawn_as spawned s = (
  returned tt,
  record s { process = some (record { alive = true; unanswered = false; shaken = false }) },
)

-- `_spawn_locked`
unfoldable pub spawn : State → Run (Unit {0}) × State
spawn s = spawn_as (next_spawn s.spawns) (record s { spawns = later_spawns s.spawns })

-- What an exchange leaves of the stream.
abbrev pub leaves_unanswered : Exchange → Bool → Bool
leaves_unanswered refused_envelope before = before
leaves_unanswered malformed before = before
leaves_unanswered misshapen before = before
leaves_unanswered (error_response c) before = before
leaves_unanswered (answers r) before = before
leaves_unanswered write_fails before = true
leaves_unanswered no_answer before = true
leaves_unanswered closed_stdout before = true
leaves_unanswered oversized before = true
leaves_unanswered foreign_id before = true

abbrev pub outcome_of : Exchange → Run ℕ
outcome_of refused_envelope = raised value_error
outcome_of write_fails = raised os_error
outcome_of no_answer = raised timed_out
outcome_of closed_stdout = raised crashed
outcome_of oversized = raised frame_error
outcome_of malformed = raised value_error
outcome_of misshapen = raised key_error
outcome_of foreign_id = raised supervisor_error
outcome_of (error_response c) = raised (remote_error c)
outcome_of (answers r) = returned r

abbrev pub after_turn : Turn → Process → Process
after_turn t p = record p {
  alive = p.alive && not t.ends;
  unanswered = leaves_unanswered t.exchange p.unanswered;
}

abbrev pub exchange_with : Option Process → State → Run ℕ × State
exchange_with none s = (raised crashed, s)
exchange_with (some p) s = (
  outcome_of (next_turn s.turns).exchange,
  record s { process = some (after_turn (next_turn s.turns) p); turns = later_turns s.turns },
)

-- `_exchange_locked`
unfoldable pub exchange : State → Run ℕ × State
exchange s = exchange_with s.process s

abbrev pub shake : Option Process → Option Process
shake none = none
shake (some p) = some (record p { shaken = true })

-- The rest of `start` after the handshake's exchange.
unfoldable pub accept_handshake : Run ℕ × State → Run (Unit {0}) × State
unfolding terminate
accept_handshake (raised e, s) = (raised e, terminate s)
accept_handshake (returned version, s) =
    if version == s.supported_protocol_max
    then (returned tt, record s { handshake_result = some version; process = shake s.process })
    else (raised supervisor_error, terminate s)

unfoldable pub after_spawn : Run (Unit {0}) × State → Run (Unit {0}) × State
unfolding exchange accept_handshake
after_spawn (raised e, s) = (raised e, s)
after_spawn (returned u, s) = accept_handshake (exchange s)

unfoldable pub start : State → Run (Unit {0}) × State
unfolding spawn after_spawn
start s = if is_running s then (returned tt, s) else after_spawn (spawn s)

-- The handlers of `request`, in their order: a FrameError is caught as a ValueError.
unfoldable pub handle_fault : Fault → State → Run ℕ × State
unfolding terminate
handle_fault timed_out s = (raised timed_out, terminate s)
handle_fault (remote_error c) s = (raised (remote_error c), s)
handle_fault frame_error s = (raised supervisor_error, terminate s)
handle_fault value_error s = (raised supervisor_error, terminate s)
handle_fault key_error s = (raised supervisor_error, terminate s)
handle_fault busy s = (raised busy, terminate s)
handle_fault crashed s = (raised crashed, terminate s)
handle_fault supervisor_error s = (raised supervisor_error, terminate s)
handle_fault os_error s = (raised crashed, terminate s)

unfoldable pub handle_exchange : Run ℕ × State → Run ℕ × State
unfolding handle_fault
handle_exchange (returned r, s) = (returned r, s)
handle_exchange (raised e, s) = handle_fault e s

unfoldable pub after_start : Run (Unit {0}) × State → Run ℕ × State
unfolding exchange handle_exchange
after_start (raised e, s) = (raised e, s)
after_start (returned u, s) = handle_exchange (exchange s)

unfoldable pub request : State → Run ℕ × State
unfolding start after_start
request s = after_start (start s)

-- `try_request`, told whether it gets the lock in time
unfoldable pub try_request : (acquired : Bool) → State → Run ℕ × State
unfolding request
try_request acquired s = if acquired then request s else (raised busy, s)

-- The faults that the handler of `close` catches.
abbrev pub is_caught : Fault → Bool
is_caught key_error = false
is_caught _ = true

unfoldable pub after_shutdown : Run ℕ × State → Run (Unit {0}) × State
unfolding terminate
after_shutdown (returned r, s) = (returned tt, terminate s)
after_shutdown (raised e, s) =
    if is_caught e then (returned tt, terminate (terminate s)) else (raised e, s)

unfoldable pub close : State → Run (Unit {0}) × State
unfolding exchange terminate after_shutdown
close s = if is_running s then after_shutdown (exchange s) else (returned tt, terminate s)

unfoldable pub restart : State → Run (Unit {0}) × State
unfolding start terminate
restart s = start (terminate s)
