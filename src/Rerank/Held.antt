-- ===== src/Rerank/Held.antt =====
-- Which processes of `QwenWorkerReranker` live, and which messages are to come.
use ledgermind_local.Prelude.{
  ℕ, ◌+◌, Option, none, some, List, [], ◌∷◌, ◌≡◌, refl, ◌==◌, ==_refl, if-both,
}
use ledgermind_local.Rerank.Process.{
  Startup, start_fails, silent, hangs_up, refuses, ready, Scoring, send_breaks, times_out,
  recv_breaks, answers_error, answers, Error, scoring_failed, not_started, startup_timeout,
  exited_during_startup, startup_failed, scoring_timeout, process_exited, Outcome, returned, raised,
  State, is_alive, without, stop, start, ensure_started, exchange, after_start, score, close, dies,
}

-- Between two calls: no process but the held one is alive, and it owes no message.
pub data IsKept : State → Type 0 where
  nothing_held : {n : ℕ} → IsKept (record { held = none; alive = []; owed = 0; started = n })
  dead_held : {id n : ℕ} → IsKept (record { held = some id; alive = []; owed = 0; started = n })
  one_held : {id n : ℕ} → IsKept (record { held = some id; alive = id ∷ []; owed = 0; started = n })

-- Nothing is alive and nothing held.
abbrev pub IsStopped : State → Type 0
IsStopped s = (s.held ≡ none) × (s.alive ≡ [])

stop-IsStopped : (s : State) → IsKept s → IsStopped (stop s) × IsKept (stop s)
unfolding stop without
stop-IsStopped s nothing_held = ((refl, refl), nothing_held)
stop-IsStopped s dead_held = ((refl, refl), nothing_held)
stop-IsStopped s (one_held {id} {n}) = rw (==_refl id) ((refl, refl), nothing_held)

dies-IsKept : (id : ℕ) (s : State) → IsKept s → IsKept (dies id s)
unfolding dies without
dies-IsKept id s nothing_held = nothing_held
dies-IsKept id s dead_held = dead_held
dies-IsKept id s (one_held {id = k} {n}) =
    if-both (λ (xs : List ℕ). IsKept (record { held = some k; alive = xs; owed = 0; started = n }))
      (k == id) dead_held one_held

-- How a start and a call of `score` leave the object.
abbrev Started : Option Error × State → Type 0
Started (some e, s) = IsStopped s × IsKept s
Started (none, s) =
    (id : ℕ) × (n : ℕ) × (s ≡ record { held = some id; alive = id ∷ []; owed = 0; started = n })

start-Started :
    (f : Startup) (n : ℕ)
    → Started (start f (record { held = none; alive = []; owed = 0; started = n }))
unfolding start stop without
start-Started start_fails n = ((refl, refl), nothing_held)
start-Started silent n = rw (==_refl n) ((refl, refl), nothing_held)
start-Started hangs_up n = rw (==_refl n) ((refl, refl), nothing_held)
start-Started refuses n = rw (==_refl n) ((refl, refl), nothing_held)
start-Started ready n = (n, n + 1, refl)

ensure_started-Started : (f : Startup) (s : State) → IsKept s → Started (ensure_started f s)
unfolding ensure_started is_alive stop without
ensure_started-Started f s (nothing_held {n}) = start-Started f n
ensure_started-Started f s (dead_held {id} {n}) = start-Started f n
ensure_started-Started f s (one_held {id} {n}) = rw (==_refl id) (id, n, refl)

-- After scores came back, and after the worker reported an error, its process is held and owes nothing; after
-- any other failure no process is alive.
abbrev pub Leaves : {P : Type 0} → Outcome P × State → Type 0
Leaves (returned p, s) = IsKept s
Leaves (raised scoring_failed, s) = IsKept s
Leaves (raised _, s) = IsStopped s × IsKept s

exchange-Leaves :
    {P : Type 0} (g : Scoring P) (id n : ℕ)
    → Leaves (exchange g (record { held = some id; alive = id ∷ []; owed = 0; started = n }))
unfolding exchange stop without
exchange-Leaves send_breaks id n = rw (==_refl id) ((refl, refl), nothing_held)
exchange-Leaves times_out id n = rw (==_refl id) ((refl, refl), nothing_held)
exchange-Leaves recv_breaks id n = rw (==_refl id) ((refl, refl), nothing_held)
exchange-Leaves answers_error id n = one_held
exchange-Leaves (answers p) id n = one_held

after_start-Leaves :
    {P : Type 0} (g : Scoring P) (x : Option Error × State) → Started x → Leaves (after_start g x)
after_start-Leaves g (none, s) (id, n, e) = rw e (exchange-Leaves g id n)
after_start-Leaves g (some not_started, s) h = h
after_start-Leaves g (some startup_timeout, s) h = h
after_start-Leaves g (some exited_during_startup, s) h = h
after_start-Leaves g (some startup_failed, s) h = h
after_start-Leaves g (some scoring_timeout, s) h = h
after_start-Leaves g (some process_exited, s) h = h
after_start-Leaves g (some scoring_failed, s) h = h.1

score-Leaves :
    {P : Type 0} (f : Startup) (g : Scoring P) (s : State) → IsKept s → Leaves (score f g s)
unfolding score
score-Leaves f g s h = after_start-Leaves g (ensure_started f s) (ensure_started-Started f s h)

Leaves-IsKept : {P : Type 0} (x : Outcome P × State) → Leaves x → IsKept x.1
Leaves-IsKept (returned p, s) h = h
Leaves-IsKept (raised not_started, s) h = h.1
Leaves-IsKept (raised startup_timeout, s) h = h.1
Leaves-IsKept (raised exited_during_startup, s) h = h.1
Leaves-IsKept (raised startup_failed, s) h = h.1
Leaves-IsKept (raised scoring_timeout, s) h = h.1
Leaves-IsKept (raised process_exited, s) h = h.1
Leaves-IsKept (raised scoring_failed, s) h = h

-- What may happen to the object and to its processes.
pub data Event (P : Type 0) : Type 0 where
  scores : Startup → Scoring P → Event P
  closes : Event P
  process_dies : ℕ → Event P

abbrev pub perform : {P : Type 0} → Event P → State → State
perform (scores f g) s = (score f g s).1
perform closes s = close s
perform (process_dies id) s = dies id s

unfoldable pub perform_all : {P : Type 0} → List (Event P) → State → State
unfolding score close dies
perform_all [] s = s
perform_all (e ∷ es) s = perform_all es (perform e s)

abbrev pub initial : State
initial = record { held = none; alive = []; owed = 0; started = 0 }

perform-IsKept : {P : Type 0} (e : Event P) (s : State) → IsKept s → IsKept (perform e s)
unfolding close
perform-IsKept (scores f g) s h = Leaves-IsKept (score f g s) (score-Leaves f g s h)
perform-IsKept closes s h = (stop-IsStopped s h).1
perform-IsKept (process_dies id) s h = dies-IsKept id s h

perform_all-IsKept :
    {P : Type 0} (es : List (Event P)) (s : State) → IsKept s → IsKept (perform_all es s)
unfolding perform_all
perform_all-IsKept [] s h = h
perform_all-IsKept (e ∷ es) s h = perform_all-IsKept es (perform e s) (perform-IsKept e s h)

-- After any sequence of calls and of deaths of processes, no process is alive but the one that the object
-- holds, and that one owes no message, so that an answer is to the request just sent. A further call that
-- does not give scores leaves no process alive, unless the worker itself reported an error; and after
-- `close` none is alive.
pub score-Leaves_after :
    {P : Type 0} (es : List (Event P)) (f : Startup) (g : Scoring P)
    → IsKept (perform_all es initial)
      × Leaves (score f g (perform_all es initial))
      × IsStopped (close (perform_all es initial))
unfolding close
score-Leaves_after es f g =
    let k = perform_all-IsKept es initial nothing_held in
    (k, score-Leaves f g (perform_all es initial) k, (stop-IsStopped (perform_all es initial) k).0)
