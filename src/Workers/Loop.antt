-- ===== src/Workers/Loop.antt =====
-- scheduler/guarded_loop.py: the loop that runs a worker, with times in milliseconds. A run is given
-- by its turns: what `process_once` did, what the observer did, and whether a stop was seen in the
-- wait; the loop's own test sees a stop where the turns end.
use ledgermind_local.Prelude.{
  ℕ, ◌*◌, min, max, Bool, true, false, Option, none, some, List, [], ◌∷◌, ◌++◌, String, ltb,
  if◌then◌else◌,
}
use ledgermind_local.Prelude.Text.{is_empty}
use ledgermind_local.Workers.{
  WorkerState, Item, mark_started, publish_result, mark_error, mark_stopped, mark_stopping,
  mark_shutdown_timed_out,
}

pub record Settings : Type 0 where
  pub poll_interval : ℕ
  pub initial_backoff : ℕ
  pub max_backoff : ℕ

-- `__init__`
unfoldable pub new_settings : (poll initial maximum : ℕ) → Settings
new_settings poll initial maximum = record {
  poll_interval = poll;
  initial_backoff = min initial maximum;
  max_backoff = maximum;
}

pub data Pass : Type 0 where
  returned : Option Item → Pass
  raised : String → Pass  -- the exception's type name

pub record Turn : Type 0 where
  pub pass : Pass
  pub started_at : ℕ
  pub done_at : ℕ
  pub progress_at : ℕ
  pub observe : Option Item → WorkerState → WorkerState
  pub stop_seen : Bool

abbrev nonempty : Option String → Option String
nonempty none = none
nonempty (some s) = if is_empty s then none else some s

abbrev first_of : Option String → Option String → Option String
first_of none b = b
first_of (some a) b = some a

-- `_result_item_id`
unfoldable pub result_item_id : Option Item → Option String
result_item_id none = none
result_item_id (some i) = first_of (nonempty i.command_id) (nonempty i.item_id)

-- `_result_degraded`
unfoldable pub result_degraded : Option Item → Bool
result_degraded none = false
result_degraded (some i) = i.degraded

abbrev is_some : Option Item → Bool
is_some none = false
is_some (some i) = true

unfoldable pub next_backoff : Settings → ℕ → ℕ
next_backoff c backoff =
    if ltb 0 backoff then min c.max_backoff (max (backoff * 2) c.initial_backoff) else backoff

abbrev or_same : WorkerState → Option WorkerState → WorkerState
or_same s none = s
or_same s (some t) = t

-- The loop's variables, and the waits that it has made.
pub record LoopState : Type 0 where
  pub state : WorkerState
  pub backoff : ℕ
  pub waits : List ℕ

-- What follows a pass, up to the end of its wait. The name of an exception's type is never blank.
unfoldable pub after_pass : Settings → Turn → Pass → LoopState → LoopState
unfolding next_backoff result_item_id result_degraded
after_pass c t (raised code) l = record {
  state = or_same l.state (mark_error t.done_at code none none l.state);
  backoff = if t.stop_seen then l.backoff else next_backoff c l.backoff;
  waits = l.waits ++ l.backoff ∷ [];
}
after_pass c t (returned r) l = record {
  state = t.observe r (
      publish_result t.done_at t.progress_at r (result_item_id r) (is_some r) (result_degraded r)
        l.state);
  backoff = c.initial_backoff;
  waits = l.waits ++ c.poll_interval ∷ [];
}

unfoldable pub turn : Settings → Turn → LoopState → LoopState
turn c t l = after_pass c t t.pass (record l { state = mark_started t.started_at none l.state })

unfoldable pub turns : Settings → List Turn → LoopState → LoopState
turns c [] l = l
turns c (t ∷ ts) l = let rest = turns c ts (turn c t l) in if t.stop_seen then turn c t l else rest

-- `run`, with its `finally`.
unfoldable pub run : Settings → List Turn → WorkerState → LoopState
run c ts s =
    let l = turns c ts (record { state = s; backoff = c.initial_backoff; waits = [] }) in
    record l { state = mark_stopped l.state }

pub record WorkerShutdownResult : Type 0 where
  pub stopped : Bool
  pub timed_out : Bool
  pub current_item_id : Option String

-- `shutdown`, its `request_stop` included: without a thread, or with one that is alive after the join
-- or not.
unfoldable pub shutdown : (thread : Option Bool) → WorkerState → WorkerState × WorkerShutdownResult
shutdown none s = (
  mark_stopped (mark_stopping s),
  record { stopped = true; timed_out = false; current_item_id = none },
)
shutdown (some true) s =
    let s' = mark_shutdown_timed_out (mark_stopping s) in
    (
      s',
      record { stopped = false; timed_out = true; current_item_id = s'.snapshot.current_item_id },
    )
shutdown (some false) s =
    let s' = mark_stopped (mark_stopping s) in
    (
      s',
      record { stopped = true; timed_out = false; current_item_id = s'.snapshot.current_item_id },
    )
