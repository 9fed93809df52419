-- ===== src/Supervisor/InStep.antt =====
-- The stream of core_gateway/supervisor.py stays in step, whatever the processes do.
use ledgermind_local.Prelude.{
  ℕ, Bool, true, false, Option, none, some, List, [], ◌∷◌, ◌≡◌, refl, ◌⊎◌, inl, inr, ◌==◌, ◌&&◌,
  not, if◌then◌else◌, if-both,
}
use ledgermind_local.Supervisor.{
  Fault, timed_out, busy, crashed, supervisor_error, remote_error, frame_error, value_error,
  os_error, key_error, misshapen, after_shutdown, Exchange, refused_envelope, write_fails,
  no_answer, closed_stdout, oversized, malformed, foreign_id, error_response, answers, Spawn,
  unavailable, popen_fails, spawned, Process, State, Run, returned, raised, is_running, terminate,
  next_spawn, later_spawns, next_turn, later_turns, spawn_as, spawn, leaves_unanswered, outcome_of,
  exchange_with, exchange, shake, accept_handshake, after_spawn, start, handle_fault,
  handle_exchange, after_start, request, try_request, close, restart,
}

-- A process that runs has shaken hands and owes no answer.
abbrev pub Settled : Process → Type 0
Settled p = (p.alive ≡ false) ⊎ ((p.unanswered ≡ false) × (p.shaken ≡ true))

abbrev pub Holds : Option Process → Type 0
Holds none = Unit {0}
Holds (some p) = Settled p

abbrev pub InStep : State → Type 0
InStep s = Holds s.process

-- A process that has just been started owes no answer.
abbrev Fresh : Option Process → Type 0
Fresh none = Unit {0}
Fresh (some p) = p.unanswered ≡ false

-- After an operation: in step; and where it raised, the fault is the Core's own answer or there is no
-- process that runs.
abbrev pub Answered : {A : Type 0} → Run A × State → Type 0
Answered (returned a, s) = InStep s
Answered (raised (remote_error c), s) = InStep s
Answered (raised timed_out, s) = InStep s × (is_running s ≡ false)
Answered (raised busy, s) = InStep s × (is_running s ≡ false)
Answered (raised crashed, s) = InStep s × (is_running s ≡ false)
Answered (raised supervisor_error, s) = InStep s × (is_running s ≡ false)
Answered (raised frame_error, s) = InStep s × (is_running s ≡ false)
Answered (raised value_error, s) = InStep s × (is_running s ≡ false)
Answered (raised os_error, s) = InStep s × (is_running s ≡ false)
Answered (raised key_error, s) = InStep s × (is_running s ≡ false)

idle-Answered :
    (e : Fault) (s : State)
    → InStep s
    → is_running s ≡ false
    → Answered {A = Unit {0}} (raised e, s)
idle-Answered timed_out s h i = (h, i)
idle-Answered busy s h i = (h, i)
idle-Answered crashed s h i = (h, i)
idle-Answered supervisor_error s h i = (h, i)
idle-Answered (remote_error c) s h i = h
idle-Answered frame_error s h i = (h, i)
idle-Answered value_error s h i = (h, i)
idle-Answered os_error s h i = (h, i)
idle-Answered key_error s h i = (h, i)

-- What a handshake's exchange leaves.
abbrev Shakable : Run ℕ × State → Type 0
Shakable (returned r, s) = Fresh s.process
Shakable (raised e, s) = Unit {0}

exchange_with-Shakable : (o : Option Process) (s : State) → Fresh o → Shakable (exchange_with o s)
exchange_with-Shakable none s h = tt
exchange_with-Shakable (some p) s h = turn (next_turn s.turns).exchange
  where
    turn :
        (x : Exchange)
        → Shakable (
          outcome_of x,
          record s {
            process = some (record p {
              alive = p.alive && not (next_turn s.turns).ends;
              unanswered = leaves_unanswered x p.unanswered;
            });
            turns = later_turns s.turns;
          },
        )
    turn refused_envelope = tt
    turn write_fails = tt
    turn no_answer = tt
    turn closed_stdout = tt
    turn oversized = tt
    turn malformed = tt
    turn misshapen = tt
    turn foreign_id = tt
    turn (error_response c) = tt
    turn (answers r) = h

shake-Holds : (o : Option Process) → Fresh o → Holds (shake o)
shake-Holds none h = tt
shake-Holds (some p) h = inr (h, refl)

accept_handshake-Answered : (x : Run ℕ × State) → Shakable x → Answered (accept_handshake x)
unfolding accept_handshake terminate
accept_handshake-Answered (raised e, s) h = idle-Answered e (record s { process = none }) tt refl
accept_handshake-Answered (returned r, s) h =
    if-both Answered (r == s.supported_protocol_max)
      {x = (returned tt, record s { handshake_result = some r; process = shake s.process })}
      {y = (raised supervisor_error, record s { process = none })} (shake-Holds s.process h)
      (tt, refl)

spawned-Answered :
    (x : Spawn) (s : State)
    → InStep s
    → is_running s ≡ false
    → Answered (after_spawn (spawn_as x s))
unfolding after_spawn exchange
spawned-Answered unavailable s h i = (h, i)
spawned-Answered popen_fails s h i = (h, i)
spawned-Answered spawned s h i =
    let p : Process = record { alive = true; unanswered = false; shaken = false } in
    accept_handshake-Answered (exchange_with (some p) (record s { process = some p }))
      (exchange_with-Shakable (some p) (record s { process = some p }) refl)

if_then :
    (P : Run (Unit {0}) × State → Type 0) (b : Bool) (x y : Run (Unit {0}) × State)
    → P x
    → (b ≡ false → P y)
    → P (if b then x else y)
if_then P true x y h k = h
if_then P false x y h k = k refl

start-Answered : (s : State) → InStep s → Answered (start s)
unfolding start spawn
start-Answered s h =
    if_then Answered (is_running s) (returned tt, s) (after_spawn (spawn s)) h
      (λ i.
        spawned-Answered (next_spawn s.spawns) (record s { spawns = later_spawns s.spawns }) h i)

and_false : (b c : Bool) → b ≡ false → (b && c) ≡ false
and_false true c h = absurd (cc h)
and_false false c h = refl

-- An exchange whose answer is read in full leaves a process as it should be.
turned :
    (p : Process) (ends : Bool) → Settled p → Settled (record p { alive = p.alive && not ends })
turned p ends (inl h) = inl (and_false p.alive (not ends) h)
turned p ends (inr h) = inr h

handle-Answered :
    (x : Exchange) (p : Process) (ends : Bool) (s : State)
    → Settled p
    → Answered (
        handle_exchange (
          outcome_of x,
          record s {
            process = some (record p {
              alive = p.alive && not ends;
              unanswered = leaves_unanswered x p.unanswered;
            });
          },
        ))
unfolding handle_exchange handle_fault terminate
handle-Answered refused_envelope p ends s h = (tt, refl)
handle-Answered write_fails p ends s h = (tt, refl)
handle-Answered no_answer p ends s h = (tt, refl)
handle-Answered closed_stdout p ends s h = (tt, refl)
handle-Answered oversized p ends s h = (tt, refl)
handle-Answered malformed p ends s h = (tt, refl)
handle-Answered misshapen p ends s h = (tt, refl)
handle-Answered foreign_id p ends s h = (tt, refl)
handle-Answered (error_response c) p ends s h = turned p ends h
handle-Answered (answers r) p ends s h = turned p ends h

exchanged-Answered :
    (o : Option Process) (s : State) → Holds o → Answered (handle_exchange (exchange_with o s))
unfolding handle_exchange handle_fault terminate
exchanged-Answered none s h = (tt, refl)
exchanged-Answered (some p) s h =
    handle-Answered (next_turn s.turns).exchange p (next_turn s.turns).ends
      (record s { turns = later_turns s.turns }) h

after_start-Answered : (x : Run (Unit {0}) × State) → Answered x → Answered (after_start x)
unfolding after_start exchange
after_start-Answered (returned u, s) h = exchanged-Answered s.process s h
after_start-Answered (raised timed_out, s) h = h
after_start-Answered (raised busy, s) h = h
after_start-Answered (raised crashed, s) h = h
after_start-Answered (raised supervisor_error, s) h = h
after_start-Answered (raised (remote_error c), s) h = h
after_start-Answered (raised frame_error, s) h = h
after_start-Answered (raised value_error, s) h = h
after_start-Answered (raised os_error, s) h = h
after_start-Answered (raised key_error, s) h = h

-- From a state in step, whatever the processes and their answers do, a request ends in a state in step,
-- and when it raises anything but an error that the Core answered, no process runs afterwards.
pub request-Answered : (s : State) → InStep s → Answered (request s)
unfolding request
request-Answered s h = after_start-Answered (start s) (start-Answered s h)

-- The operations, of which each is given what it is told by the outside.
pub data Operation : Type 0 where
  start_op request_op close_op restart_op : Operation
  try_request_op : (acquired : Bool) → Operation

unfoldable pub perform : Operation → State → State
unfolding start request try_request close restart
perform start_op s = (start s).1
perform request_op s = (request s).1
perform close_op s = (close s).1
perform restart_op s = (restart s).1
perform (try_request_op acquired) s = (try_request acquired s).1

unfoldable pub perform_all : List Operation → State → State
unfolding perform
perform_all [] s = s
perform_all (x ∷ xs) s = perform_all xs (perform x s)

Answered-InStep : {A : Type 0} (x : Run A × State) → Answered x → InStep x.1
Answered-InStep (returned a, s) h = h
Answered-InStep (raised timed_out, s) h = h.0
Answered-InStep (raised busy, s) h = h.0
Answered-InStep (raised crashed, s) h = h.0
Answered-InStep (raised supervisor_error, s) h = h.0
Answered-InStep (raised (remote_error c), s) h = h
Answered-InStep (raised frame_error, s) h = h.0
Answered-InStep (raised value_error, s) h = h.0
Answered-InStep (raised os_error, s) h = h.0
Answered-InStep (raised key_error, s) h = h.0

shut-InStep :
    (x : Exchange) (p : Process) (ends : Bool) (s : State)
    → Settled p
    → InStep
        (after_shutdown (
          outcome_of x,
          record s {
            process = some (record p {
              alive = p.alive && not ends;
              unanswered = leaves_unanswered x p.unanswered;
            });
          },
        )).1
unfolding after_shutdown terminate
shut-InStep refused_envelope p ends s h = tt
shut-InStep write_fails p ends s h = tt
shut-InStep no_answer p ends s h = tt
shut-InStep closed_stdout p ends s h = tt
shut-InStep oversized p ends s h = tt
shut-InStep malformed p ends s h = tt
shut-InStep misshapen p ends s h = turned p ends h
shut-InStep foreign_id p ends s h = tt
shut-InStep (error_response c) p ends s h = tt
shut-InStep (answers r) p ends s h = tt

exchanged-InStep :
    (o : Option Process) (s : State) → Holds o → InStep (after_shutdown (exchange_with o s)).1
unfolding after_shutdown terminate
exchanged-InStep none s h = tt
exchanged-InStep (some p) s h =
    shut-InStep (next_turn s.turns).exchange p (next_turn s.turns).ends
      (record s { turns = later_turns s.turns }) h

close-InStep : (s : State) → InStep s → InStep (close s).1
unfolding close exchange terminate
close-InStep s h =
    if-both (λ (x : Run (Unit {0}) × State). InStep x.1) (is_running s)
      {x = after_shutdown (exchange_with s.process s)}
      {y = (returned tt, record s { process = none })} (exchanged-InStep s.process s h) tt

perform-InStep : (x : Operation) (s : State) → InStep s → InStep (perform x s)
unfolding perform try_request close restart terminate
perform-InStep start_op s h = Answered-InStep (start s) (start-Answered s h)
perform-InStep request_op s h = Answered-InStep (request s) (request-Answered s h)
perform-InStep close_op s h = close-InStep s h
perform-InStep restart_op s h =
    Answered-InStep (start (record s { process = none }))
      (start-Answered (record s { process = none }) tt)
perform-InStep (try_request_op true) s h = Answered-InStep (request s) (request-Answered s h)
perform-InStep (try_request_op false) s h = h

-- After any operations on a supervisor without a process, whatever the processes and their answers do, a
-- process that runs has shaken hands and owes no answer to an earlier request.
pub perform_all-InStep :
    (xs : List Operation) (s : State) → s.process ≡ none → InStep (perform_all xs s)
unfolding perform_all
perform_all-InStep xs s e = every xs s (idle s.process e)
  where
    idle : (o : Option Process) → o ≡ none → Holds o
    idle none e = tt
    idle (some p) e = absurd (cc e)

    every : (xs : List Operation) (s : State) → InStep s → InStep (perform_all xs s)
    every [] s h = h
    every (x ∷ xs) s h = every xs (perform x s) (perform-InStep x s h)
