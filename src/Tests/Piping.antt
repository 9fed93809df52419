-- ===== src/Tests/Piping.antt =====
-- Runs of core_gateway/supervisor.py on concrete scripts.
use ledgermind_local.Prelude.{ℕ, true, false, none, some, [], ◌∷◌, ◌≡◌, refl, inr}
use ledgermind_local.Supervisor.{
  supervisor_error, key_error, misshapen, close, after_shutdown, terminate, Turn, answers,
  oversized, error_response, State, returned, raised, spawn, exchange, accept_handshake,
  after_spawn, start, handle_fault, handle_exchange, after_start, request,
}
use ledgermind_local.Supervisor.InStep.{
  InStep, Answered, request-Answered, request_op, restart_op, try_request_op, perform_all,
  perform_all-InStep,
}

abbrev turn : ℕ → Turn
turn n = record { exchange = answers n; ends = false }

-- A handshake, an answer, an error of the Core, and a frame that is too long.
abbrev idle : State
idle = record {
  spawns = [];
  turns =
      turn 1
      ∷ turn 7
      ∷ record { exchange = error_response 4; ends = false }
      ∷ record { exchange = oversized; ends = false }
      ∷ [];
  process = none;
  handshake_result = none;
  supported_protocol_max = 1;
}

answered : (request idle).0 ≡ returned 7
unfolding request start spawn after_spawn exchange accept_handshake after_start handle_exchange
answered = refl

abbrev running : State
running = record idle {
  process = some (record { alive = true; unanswered = false; shaken = true });
  turns = record { exchange = oversized; ends = false } ∷ [];
}

-- A frame that is too long is reported as an invalid response, not as a broken stream.
long_frame : (request running).0 ≡ raised supervisor_error
unfolding request start after_start exchange handle_exchange handle_fault
long_frame = refl

request-Answered_example : Answered (request running)
request-Answered_example = request-Answered running (inr (refl, refl))

perform_all-InStep_example :
    InStep (perform_all (request_op ∷ request_op ∷ restart_op ∷ try_request_op true ∷ []) idle)
perform_all-InStep_example =
    perform_all-InStep (request_op ∷ request_op ∷ restart_op ∷ try_request_op true ∷ []) idle refl

-- An answer to the shutdown whose use is a KeyError or a TypeError leaves the process to run.
left_open :
    (close (record running { turns = record { exchange = misshapen; ends = false } ∷ [] }))
    ≡ (raised key_error, record running { turns = [] })
unfolding close exchange after_shutdown terminate
left_open = refl
