-- ===== src/Tasks/Answered.antt =====
-- When the handling of a poll's tasks returns, in scheduler/core_execution_task_worker.py.
use ledgermind_local.Prelude.{
  ℕ, true, Option, none, some, List, [], ◌∷◌, String, text_eq, ◌≡◌, refl, ap, if-both,
}
use ledgermind_local.Tasks.{
  Exn, ExecutionFailureClassification, ExecutionResult, GenericExecutionTask, RawTask, Run,
  returned, raised, State, M, ◌>>◌, pure, try_except, first_of, rest_of,
}
use ledgermind_local.Tasks.Policy.{classify_execution_error}
use ledgermind_local.Tasks.Rules.{Ends, Ends-follow, Ends-rescue, Ends-weaken}
use ledgermind_local.Tasks.Worker.{
  execute_batch, opens_circuit, open_provider_circuit_on_failure, settle_failure,
  fail_execution_task, deliver_result_with_structured_retry, fail_task, converted, convert_one,
  convert_tasks, fail_all, deliver_one, deliver_all, after_batch, process_converted, process_tasks,
}
use ledgermind_local.Prelude.{length, suc, arith, All, text_eq_refl}
use ledgermind_local.Tasks.Kept.{Stable, deliver-Keeps}
use ledgermind_local.Tasks.Settled.{is_reported}
use ledgermind_local.Tasks.Returned.{has_raw, process_tasks-Reports}

-- The Core answers every report of a failure.
abbrev pub Calm : State → Type 0
Calm s = s.failure_reports ≡ []

abbrev pub Never : State → Type 0
Never s = ⊥

Calm-Stable : Stable Calm
Calm-Stable = record {
  steady = record {
    by_batch = λ s i. i;
    by_submission = λ s i. i;
    by_failure_report = λ s i. ap rest_of i;
    by_connection = λ s i. i;
    by_settling = λ r s i. i;
    by_opening = λ s i. i;
  };
  by_execution = λ id s i. i;
}

abbrev Sure : {A : Type 0} → M A → Type 0
Sure {A} m = (s : State) → Calm s → Ends (λ (a : A) t. Calm t) Never (m s)

Sure->> : {A B : Type 0} (m : M A) (k : M B) → Sure m → Sure k → Sure (m >> k)
Sure->> m k h g s c =
    Ends-follow (λ a t. Calm t) (λ b t. Calm t) Never (m s) (λ a. k) (h s c) (λ a t i. g t i)

-- The conversions leave the batches of the executor as they are.
abbrev Same : List (Run (List ExecutionResult)) → State → Type 0
Same b t = Calm t × (t.batches ≡ b)

settle_failure-Same :
    (b : List (Run (List ExecutionResult))) (id : String) (c : ExecutionFailureClassification)
    (x : Option Exn) (s : State)
    → x ≡ none
    → Same b s
    → Ends (λ u t. Same b t) Never (settle_failure id c x s)
settle_failure-Same b id c none s e h = h
settle_failure-Same b id c (some x) s e h = absurd (cc e)

first_none : (xs : List (Option Exn)) → xs ≡ [] → first_of none xs ≡ none
first_none xs e = ap (first_of none) e

module _ (lower : String → String) where
  fail_task-Same :
      (b : List (Run (List ExecutionResult))) (id : String) (e : Exn) (s : State)
      → Same b s
      → Ends (λ u t. Same b t) Never (fail_task lower id e s)
  unfolding fail_task fail_execution_task
  fail_task-Same b id e s h =
      settle_failure-Same b id (classify_execution_error lower e) (first_of none s.failure_reports)
        (record s { failure_reports = rest_of s.failure_reports })
        (first_none s.failure_reports h.0) (ap rest_of h.0, h.1)

  fail_task-Sure : (id : String) (e : Exn) → Sure (fail_task lower id e)
  fail_task-Sure id e s c =
      Ends-weaken (λ u t. Same s.batches t) (λ u t. Calm t) Never Never (fail_task lower id e s)
        (fail_task-Same s.batches id e s (c, refl)) (λ u t i. i.0) (λ t i. i)

  fail_all-Sure : (tasks : List GenericExecutionTask) (e : Exn) → Sure (fail_all lower tasks e)
  unfolding fail_all
  fail_all-Sure [] e = λ s c. c
  fail_all-Sure (task ∷ tasks) e =
      Sure->> (fail_task lower task.task_id e) (fail_all lower tasks e)
        (fail_task-Sure task.task_id e) (fail_all-Sure tasks e)

  open_circuit-Sure : (x : ExecutionResult) → Sure (open_provider_circuit_on_failure x)
  unfolding open_provider_circuit_on_failure
  open_circuit-Sure x s c =
      if-both (λ (z : Run (Unit {0}) × State). Ends (λ u t. Calm t) Never z) (opens_circuit x)
        {x = (returned tt, record s { provider_circuit_open = true })} {y = (returned tt, s)} c c

  deliver_one-Sure :
      (task : GenericExecutionTask) (x : ExecutionResult) → Sure (deliver_one lower task x)
  unfolding deliver_one
  deliver_one-Sure task x =
      Sure->> (open_provider_circuit_on_failure x)
        (try_except (deliver_result_with_structured_retry task x) (fail_task lower task.task_id))
        (open_circuit-Sure x)
        (λ s c.
          Ends-rescue (λ u t. Calm t) Calm Never (deliver_result_with_structured_retry task x s)
            (fail_task lower task.task_id) (deliver-Keeps Calm Calm-Stable task x s c)
            (λ e t i. fail_task-Sure task.task_id e t i))

  deliver_all-Sure :
      (tasks : List GenericExecutionTask) (xs : List ExecutionResult)
      → length xs ≡ length tasks
      → Sure (deliver_all lower tasks xs)
  unfolding deliver_all
  deliver_all-Sure [] [] h = λ s c. c
  deliver_all-Sure [] (x ∷ xs) h = absurd (omega (arith, h))
  deliver_all-Sure (task ∷ tasks) [] h = absurd (omega (arith, h))
  deliver_all-Sure (task ∷ tasks) (x ∷ xs) h =
      Sure->> (deliver_one lower task x) (deliver_all lower tasks xs) (deliver_one-Sure task x)
        (deliver_all-Sure tasks xs (omega (arith, h)))

  -- The executor raises, or gives a result for each of so many tasks.
  abbrev pub Fits : ℕ → Run (List ExecutionResult) → Type 0
  Fits n (raised e) = Unit {0}
  Fits n (returned xs) = length xs ≡ n

  after_batch-Sure :
      (tasks : List GenericExecutionTask) (x : Run (List ExecutionResult)) (s : State)
      → Calm s
      → Fits (length tasks) x
      → Ends (λ u t. Calm t) Never (after_batch lower tasks (x, s))
  after_batch-Sure tasks (raised e) s c f = fail_all-Sure tasks e s c
  after_batch-Sure tasks (returned xs) s c f = deliver_all-Sure tasks xs f s c

  process_converted-Sure :
      (tasks : List GenericExecutionTask) (s : State)
      → Calm s
      → Fits (length tasks) (first_of (returned []) s.batches)
      → Ends (λ u t. Calm t) Never (process_converted lower tasks s)
  unfolding process_converted execute_batch
  process_converted-Sure [] s c f = c
  process_converted-Sure (task ∷ tasks) s c f =
      after_batch-Sure (task ∷ tasks) (first_of (returned []) s.batches)
        (record s { batches = rest_of s.batches }) c f

  abbrev pub count_one : Option Exn → ℕ → ℕ
  count_one none n = suc n
  count_one (some e) n = n

  -- How many of the tasks are well formed.
  unfoldable pub count_converted : List RawTask → ℕ
  count_converted [] = 0
  count_converted (raw ∷ raws) = let rest = count_converted raws in count_one raw.problem rest

  abbrev Converts :
      List (Run (List ExecutionResult)) → ℕ → List GenericExecutionTask → State → Type 0
  Converts b n ts t = Same b t × (length ts ≡ n)

  convert_one-Sure :
      (b : List (Run (List ExecutionResult))) (n : ℕ) (rest : M (List GenericExecutionTask))
      (raw : RawTask) (o : Option Exn) (s : State)
      → Same b s
      → ((t : State) → Same b t → Ends (Converts b n) Never (rest t))
      → Ends (Converts b (count_one o n)) Never (convert_one lower rest raw o s)
  unfolding convert_one
  convert_one-Sure b n rest raw none s h g =
      Ends-follow (Converts b n) (Converts b (suc n)) Never (rest s)
        (λ ts. pure (converted lower raw ∷ ts)) (g s h) (λ ts t i. (i.0, omega (arith, i.1)))
  convert_one-Sure b n rest raw (some e) s h g =
      Ends-follow (λ u t. Same b t) (Converts b n) Never (fail_task lower raw.task_id e s)
        (λ u. rest) (fail_task-Same b raw.task_id e s h) (λ u t i. g t i)

  convert_tasks-Sure :
      (b : List (Run (List ExecutionResult))) (raws : List RawTask) (s : State)
      → Same b s
      → Ends (Converts b (count_converted raws)) Never (convert_tasks lower raws s)
  unfolding convert_tasks count_converted
  convert_tasks-Sure b [] s h = (h, refl)
  convert_tasks-Sure b (raw ∷ raws) s h =
      convert_one-Sure b (count_converted raws) (convert_tasks lower raws) raw raw.problem s h
        (λ t i. convert_tasks-Sure b raws t i)

  process_tasks-Sure :
      (raws : List RawTask) (s : State)
      → Calm s
      → Fits (count_converted raws) (first_of (returned []) s.batches)
      → Ends (λ u t. Calm t) Never (process_tasks lower raws s)
  unfolding process_tasks
  process_tasks-Sure raws s c f =
      Ends-follow (Converts s.batches (count_converted raws)) (λ u t. Calm t) Never
        (convert_tasks lower raws s) (process_converted lower)
        (convert_tasks-Sure s.batches raws s (c, refl))
        (λ ts t i. process_converted-Sure ts t i.0.0 (rw (i.0.1, i.1) f))

  All-has_raw :
      (P : String → Type 0) (raws : List RawTask)
      → ((k : String) → has_raw k raws ≡ true → P k)
      → All (λ (raw : RawTask). P raw.task_id) raws
  unfolding has_raw
  All-has_raw P [] f = tt
  All-has_raw P (raw ∷ raws) f = (
    f raw.task_id (rw (text_eq_refl raw.task_id) refl),
    All-has_raw P raws (λ k h. f k (if-both (λ b. b ≡ true) (text_eq raw.task_id k) refl h)),
  )

  collect :
      (raws : List RawTask) (x : Run (Unit {0}) × State)
      → Ends (λ u t. Calm t) Never x
      → ((k : String)
          → has_raw k raws ≡ true
          → Ends (λ u t. is_reported k t.settled ≡ true) (λ t. Unit {0}) x)
      → Ends (λ u t. All (λ (raw : RawTask). is_reported raw.task_id t.settled ≡ true) raws) Never x
  collect raws (raised e, s) h f = h
  collect raws (returned u, s) h f = All-has_raw (λ k. is_reported k s.settled ≡ true) raws f

  -- When the Core answers every report of a failure and the executor's batch either raises or gives a
  -- result for each task that could be converted, the handling of a poll's tasks returns, and the Core took a
  -- result or a failure of every one of them.
  pub process_tasks-is_reported :
      (raws : List RawTask) (s : State)
      → s.failure_reports ≡ []
      → Fits (count_converted raws) (first_of (returned []) s.batches)
      → Ends
          (λ u t. All (λ (raw : RawTask). is_reported raw.task_id t.settled ≡ true) raws)
          Never
          (process_tasks lower raws s)
  process_tasks-is_reported raws s c f =
      collect raws (process_tasks lower raws s) (process_tasks-Sure raws s c f)
        (λ k h. process_tasks-Reports lower k raws h s)
