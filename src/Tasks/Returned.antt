-- ===== src/Tasks/Returned.antt =====
-- What a pass of scheduler/core_execution_task_worker.py has done with the tasks of one poll when it returns,
-- and when it does return.
use ledgermind_local.Prelude.{
  Bool, true, false, Option, none, some, List, [], ◌∷◌, String, text_eq, ◌≡◌, refl, ◌⊎◌, inl, inr,
  if◌then◌else◌, Bool-cases,
}
use ledgermind_local.Tasks.{
  Exn, GenericExecutionTask, RawTask, Run, returned, raised, State, M, ◌>>◌, pure,
}
use ledgermind_local.Tasks.Rules.{Ends, Ends-follow, Ends-weaken}
use ledgermind_local.Tasks.Worker.{
  fail_task, converted, convert_one, convert_tasks, process_converted, process_tasks,
}
use ledgermind_local.Tasks.Kept.{Keeps, process_converted-Keeps, convert_tasks-Keeps}
use ledgermind_local.Tasks.Settled.{
  Reported, Reports, Reported-Stable, Any, Keeps-Reports, Reports-first, process_converted-Reports,
  fail_task-Reports, later, has_task,
}

unfoldable pub has_raw : String → List RawTask → Bool
has_raw k [] = false
has_raw k (raw ∷ raws) = let rest = has_raw k raws in if text_eq raw.task_id k then true else rest

module _ (lower : String → String) where
  module _ (k : String) where
    anyhow : {A : Type 0} (x : Run A × State) → Ends (λ (a : A) t. Unit {0}) (Any k) x
    anyhow (raised e, s) = tt
    anyhow (returned a, s) = tt

    abbrev Found : List GenericExecutionTask → State → Type 0
    Found ts t = (has_task k lower ts ≡ true) ⊎ Reported k t

    -- The task itself: it is converted or reported at once.
    converted-Found :
        (rest : M (List GenericExecutionTask)) (raw : RawTask) (o : Option Exn) (s : State)
        → text_eq raw.task_id k ≡ true
        → Keeps (Reported k) rest
        → Ends Found (Any k) (convert_one lower rest raw o s)
    unfolding convert_one
    converted-Found rest raw none s y h =
        Ends-follow (λ ts t. Unit {0}) Found (Any k) (rest s)
          (λ ts. pure (converted lower raw ∷ ts)) (anyhow (rest s)) (λ ts t i. inl (rw y refl))
    converted-Found rest raw (some e) s y h =
        Ends-weaken (λ ts t. Reported k t) Found (Any k) (Any k)
          ((fail_task lower raw.task_id e >> rest) s)
          (Reports-first k (fail_task lower raw.task_id e) (λ u. rest)
            (fail_task-Reports k lower raw.task_id e y) (λ u. h) s)
          (λ ts t i. inr i) (λ t i. tt)

    -- Another task.
    passed-Found :
        (rest : M (List GenericExecutionTask)) (raw : RawTask) (o : Option Exn) (s : State)
        → text_eq raw.task_id k ≡ false
        → ((t : State) → Ends Found (Any k) (rest t))
        → Ends Found (Any k) (convert_one lower rest raw o s)
    unfolding convert_one
    passed-Found rest raw none s n h =
        Ends-follow Found Found (Any k) (rest s) (λ ts. pure (converted lower raw ∷ ts)) (h s)
          (λ ts t i. longer ts t i)
      where
        longer :
            (ts : List GenericExecutionTask) (t : State)
            → Found ts t
            → Found (converted lower raw ∷ ts) t
        longer ts t (inl e) = inl (rw n e)
        longer ts t (inr e) = inr e
    passed-Found rest raw (some e) s n h =
        Ends-follow (λ u t. Unit {0}) Found (Any k) (fail_task lower raw.task_id e s) (λ u. rest)
          (anyhow (fail_task lower raw.task_id e s)) (λ u t i. h t)

    found :
        (ts : List GenericExecutionTask) (t : State)
        → Found ts t
        → Ends (λ u x. Reported k x) (Any k) (process_converted lower ts t)
    found ts t (inl e) = process_converted-Reports k lower ts e t
    found ts t (inr e) =
        Keeps-Reports k (process_converted lower ts) t
          (process_converted-Keeps (Reported k) (Reported-Stable k) lower ts) e

    convert_tasks-Found :
        (raws : List RawTask) (s : State)
        → has_raw k raws ≡ true
        → Ends Found (Any k) (convert_tasks lower raws s)
    unfolding convert_tasks has_raw
    convert_tasks-Found [] s h = absurd (cc h)
    convert_tasks-Found (raw ∷ raws) s h = elim (Bool-cases (text_eq raw.task_id k)) [
      | inl y ↦
          converted-Found (convert_tasks lower raws) raw raw.problem s y
            (convert_tasks-Keeps (Reported k) (Reported-Stable k) lower raws)
      | inr n ↦
          passed-Found (convert_tasks lower raws) raw raw.problem s n
            (λ t. convert_tasks-Found raws t (later k lower raw.task_id (has_raw k raws) n h))
    ]

    -- When the handling of a poll's tasks returns, the Core took a result or a failure of each of the tasks,
    -- whatever the executor, the conversions and the other calls did.
    pub process_tasks-Reports :
        (raws : List RawTask) → has_raw k raws ≡ true → Reports k (process_tasks lower raws)
    unfolding process_tasks
    process_tasks-Reports raws h s =
        Ends-follow Found (λ u t. Reported k t) (Any k) (convert_tasks lower raws s)
          (process_converted lower) (convert_tasks-Found raws s h) (λ ts t i. found ts t i)
