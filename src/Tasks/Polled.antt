-- ===== src/Tasks/Polled.antt =====
-- Which memory spaces a pass of scheduler/core_execution_task_worker.py polls.
use ledgermind_local.Prelude.{
  ℕ, Bool, true, false, List, [], ◌∷◌, String, ◌≡◌, refl, ap, ◌⊎◌, inl, inr, if◌then◌else◌,
}
use ledgermind_local.Tasks.{RawTask, Run, returned, raised, State, M, first_of, rest_of}
use ledgermind_local.Tasks.Rules.{Ends, Ends-follow}
use ledgermind_local.Tasks.Worker.{process_tasks}
use ledgermind_local.Prelude.{◌+◌, length}
use ledgermind_local.Tasks.Worker.{
  poll_execution_tasks, unless_open, after_poll, process_spaces, process_once,
}
use ledgermind_local.Tasks.Kept.{Stable, process_tasks-Keeps}

-- The log of the polls after these spaces, one by one.
abbrev pub push_all : List String → List String → List String
push_all [] log = log
push_all (space ∷ spaces) log = push_all spaces (space ∷ log)

polled-Stable : (log : List String) → Stable (λ s. s.polled ≡ log)
polled-Stable log = record {
  steady = record {
    by_batch = λ s i. i;
    by_submission = λ s i. i;
    by_failure_report = λ s i. i;
    by_connection = λ s i. i;
    by_settling = λ r s i. i;
    by_opening = λ s i. i;
  };
  by_execution = λ id s i. i;
}

module _ (lower : String → String) where
  -- The circuit is open, or every space has been polled.
  abbrev pub Covered : List String → ℕ → State → Type 0
  Covered log n t = (t.provider_circuit_open ≡ true) ⊎ (t.polled ≡ log)

  abbrev Any : State → Type 0
  Any t = Unit {0}

  abbrev Covers : List String → M ℕ → List String → Type 0
  Covers log m from = (s : State) → s.polled ≡ from → Ends (Covered log) Any (m s)

  if_then :
      (P : Run ℕ × State → Type 0) (b : Bool) (x y : Run ℕ × State)
      → (b ≡ true → P x)
      → (b ≡ false → P y)
      → P (if b then x else y)
  if_then P true x y h k = h refl
  if_then P false x y h k = k refl

  unless_open-Covered :
      (log from : List String) (rest : M ℕ) (n : ℕ)
      → Covers log rest from
      → Covers log (unless_open lower rest n) from
  unless_open-Covered log from rest n h s e =
      if_then (Ends (Covered log) Any) s.provider_circuit_open (returned n, s) (rest s) (λ y. inl y)
        (λ f. h s e)

  anyhow :
      (from : List String) (x : Run (Unit {0}) × State)
      → Ends (λ u t. t.polled ≡ from) (λ t. t.polled ≡ from) x
      → Ends (λ u t. t.polled ≡ from) Any x
  anyhow from (raised e, s) h = tt
  anyhow from (returned u, s) h = h

  after_poll-Covered :
      (log from : List String) (rest : ℕ → M ℕ) (n : ℕ) (x : Run (List RawTask)) (s : State)
      → ((m : ℕ) → Covers log (rest m) from)
      → s.polled ≡ from
      → Ends (Covered log) Any (after_poll lower rest n (x, s))
  unfolding after_poll
  after_poll-Covered log from rest n (raised e) s h p = h n s p
  after_poll-Covered log from rest n (returned raws) s h p =
      Ends-follow (λ u t. t.polled ≡ from) (Covered log) Any (process_tasks lower raws s)
        (λ u. unless_open lower (rest (n + length raws)) (n + length raws))
        (anyhow from (process_tasks lower raws s)
          (process_tasks-Keeps (λ t. t.polled ≡ from) (polled-Stable from) lower raws s p))
        (λ u t i.
          unless_open-Covered log from (rest (n + length raws)) (n + length raws)
            (h (n + length raws)) t i)

  process_spaces-Covered :
      (spaces : List String) (n : ℕ) (from : List String)
      → Covers (push_all spaces from) (process_spaces lower spaces n) from
  unfolding process_spaces poll_execution_tasks
  process_spaces-Covered [] n from s e = inr e
  process_spaces-Covered (space ∷ spaces) n from s e =
      after_poll-Covered (push_all spaces (space ∷ from)) (space ∷ from)
        (process_spaces lower spaces) n (first_of (returned []) s.polls)
        (record s { polls = rest_of s.polls; polled = space ∷ s.polled })
        (λ m. process_spaces-Covered spaces m (space ∷ from)) (ap (λ log. space ∷ log) e)

  -- A pass of an open worker that returns has polled every memory space, once and in order, unless the
  -- provider's circuit is open at its end.
  pub process_once-Covered :
      (spaces : List String) (s : State)
      → Ends (Covered (push_all spaces s.polled)) Any (process_once lower false spaces s)
  unfolding process_once
  process_once-Covered spaces s =
      if_then (Ends (Covered (push_all spaces s.polled)) Any) s.provider_circuit_open
        (returned 0, s) (process_spaces lower spaces 0 s) (λ y. inl y)
        (λ f. process_spaces-Covered spaces 0 s.polled s refl)
