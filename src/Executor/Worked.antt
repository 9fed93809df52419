-- ===== src/Executor/Worked.antt =====
-- The executor of inference/core_task_executor.py under the worker of
-- scheduler/core_execution_task_worker.py.
use ledgermind_local.Prelude.{
  Bool, true, false, List, [], ◌∷◌, map, String, ◌≡◌, refl, length, All, arith,
}
use ledgermind_local.Tasks.{ExecutionResult, RawTask, Run, State, first_of}
use ledgermind_local.Tasks.Rules.{Ends}
use ledgermind_local.Tasks.Settled.{is_reported}
use ledgermind_local.Tasks.Worker.{process_tasks}
use ledgermind_local.Tasks.Answered.{Never, Fits, count_converted, process_tasks-is_reported}
use ledgermind_local.Executor.{Exn, Attempt, returned, raised, GenericExecutionTask, Token}
use ledgermind_local.Executor.Results.{GenericExecutionResult}
use ledgermind_local.Executor.Single.{Services}
use ledgermind_local.Executor.Batch.{execute_batch}
use ledgermind_local.Executor.Answers.{IsFor, Paired}
use ledgermind_local.Executor.Zipped.{Answers}
use ledgermind_local.Executor.Batched.{breaks, execute_batch-Answers}

module _ (view : GenericExecutionResult → ExecutionResult)
    (blame : Exn → ledgermind_local.Tasks.Exn) where
  -- What the worker sees of a batch: `view` and `blame` say what it reads of a result and an exception.
  abbrev pub answer_of : Attempt (List GenericExecutionResult) → Run (List ExecutionResult)
  answer_of (returned rs) = Run.returned (map view rs)
  answer_of (raised e) = Run.raised (blame e)

  length-Paired :
      (tasks : List GenericExecutionTask) (rs : List GenericExecutionResult)
      → Paired IsFor tasks rs
      → length (map view rs) ≡ length tasks
  length-Paired [] [] h = refl
  length-Paired [] (r ∷ rs) h = absurd h
  length-Paired (task ∷ tasks) [] h = absurd h
  length-Paired (task ∷ tasks) (r ∷ rs) h = omega (arith, length-Paired tasks rs h.1)

  answer_of-Fits :
      (lower : String → String) (b : Bool) (tasks : List GenericExecutionTask)
      (x : Attempt (List GenericExecutionResult))
      → Answers b tasks x
      → Fits lower (length tasks) (answer_of x)
  answer_of-Fits lower b tasks (raised e) h = tt
  answer_of-Fits lower true tasks (returned rs) h = absurd (cc h)
  answer_of-Fits lower false tasks (returned rs) h = length-Paired tasks rs h

  -- When the executor's answer to the worker is that of `execute_batch` on as many tasks as could be
  -- converted, and the Core answers every report of a failure, the handling of a poll's tasks returns, and
  -- the Core took a result or a failure of each of them: whatever the providers do, and also where
  -- `execute_batch` raises.
  pub process_tasks-execute_batch :
      (lower : String → String) (services : Services) (token : Token)
      (tasks : List GenericExecutionTask) (raws : List RawTask) (s : State)
      → s.failure_reports ≡ []
      → length tasks ≡ count_converted lower raws
      → first_of (Run.returned []) s.batches ≡ answer_of (execute_batch services token tasks).0
      → Ends
          (λ u t. All (λ (raw : RawTask). is_reported raw.task_id t.settled ≡ true) raws)
          Never
          (process_tasks lower raws s)
  process_tasks-execute_batch lower services token tasks raws s c n e =
      process_tasks-is_reported lower raws s c (
        rw (e, ← n)
          (answer_of-Fits lower (breaks services tasks) tasks (execute_batch services token tasks).0
            (execute_batch-Answers services token tasks)))
