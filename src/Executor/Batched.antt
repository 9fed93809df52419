-- ===== src/Executor/Batched.antt =====
-- When `execute_batch` of inference/core_task_executor.py gives a result for each task, and when it raises.
use ledgermind_local.Prelude.{
  Bool, true, false, ◌&&◌, ◌||◌, not, Option, none, some, List, [], ◌∷◌, map, ◌≡◌, refl, length,
  ◌<◌, arith, subst, if-both, if◌then◌else◌,
}
use ledgermind_local.Executor.{
  Exn, Attempt, returned, raised, GenericExecutionTask, InferenceProfile, Token,
}
use ledgermind_local.Executor.Results.{GenericExecutionResult, failed, failed_result}
use ledgermind_local.Executor.Single.{Services, memory_space_id, execute}
use ledgermind_local.Executor.Batch.{
  Pair, specs_of, all_embed, keep_profile, profiles_or_none, resolve_profiles, execute_each,
  embed_resolved, execute_embed_texts_batch, execute_batch, compatible,
}
use ledgermind_local.Executor.Answers.{IsFor, Paired, failed_result-IsFor, execute-IsFor}
use ledgermind_local.Executor.Zipped.{
  Answers, tasks_of, specs_of-tasks_of, fail_pairs-Answers, fail_pairs_short, length-map,
  after_embed_many-Answers,
}

abbrev pub resolves : Attempt InferenceProfile → Bool
resolves (raised e) = false
resolves (returned p) = true

abbrev pub is_some : {A : Type 0} → Option A → Bool
is_some none = false
is_some (some a) = true

module _ (s : Services) where
  abbrev pub has_profile : GenericExecutionTask → Bool
  has_profile task = resolves (s.resolve_profile (memory_space_id task) task.profile_slot)

  unfoldable pub one_lacks_profile : List GenericExecutionTask → Bool
  one_lacks_profile [] = false
  one_lacks_profile (task ∷ tasks) = not (has_profile task) || one_lacks_profile tasks

  -- The profile of the first task is found and that of a later one is not.
  unfoldable pub stops_late : List GenericExecutionTask → Bool
  unfolding one_lacks_profile
  stops_late [] = false
  stops_late (task ∷ tasks) = has_profile task && one_lacks_profile tasks

  -- Every task is to be embedded and has its request, and the profiles stop late.
  unfoldable pub breaks : List GenericExecutionTask → Bool
  unfolding stops_late all_embed specs_of
  breaks tasks = all_embed tasks && (is_some (specs_of tasks) && stops_late tasks)

  execute_each-Paired :
      (token : Token) (tasks : List GenericExecutionTask)
      → Paired IsFor tasks (execute_each s token tasks).0
  unfolding execute_each
  execute_each-Paired token [] = tt
  execute_each-Paired token (task ∷ tasks) =
      (execute-IsFor s token false task, execute_each-Paired (execute s token false task).1 tasks)

  abbrev Stops : Bool → List Pair → Option Exn × List InferenceProfile → Type 0
  Stops true xs (none, ps) = ⊥
  Stops true xs (some e, ps) = length ps < length xs
  Stops false xs (none, ps) = length ps ≡ length xs
  Stops false xs (some e, ps) = ⊥

  keep_profile-Stops :
      (u : Bool) (a : Attempt InferenceProfile) (x : Pair) (xs : List Pair)
      (r : Option Exn × List InferenceProfile)
      → Stops u xs r
      → Stops (not (resolves a) || u) (x ∷ xs) (keep_profile a r)
  keep_profile-Stops u (raised e) x xs r h = omega arith
  keep_profile-Stops true (returned p) x xs (none, ps) h = absurd h
  keep_profile-Stops true (returned p) x xs (some e, ps) h = omega (arith, h)
  keep_profile-Stops false (returned p) x xs (none, ps) h = omega (arith, h)
  keep_profile-Stops false (returned p) x xs (some e, ps) h = absurd h

  resolve_profiles-Stops :
      (xs : List Pair) → Stops (one_lacks_profile (tasks_of xs)) xs (resolve_profiles s xs)
  unfolding resolve_profiles one_lacks_profile
  resolve_profiles-Stops [] = refl
  resolve_profiles-Stops ((task, spec) ∷ xs) =
      keep_profile-Stops (one_lacks_profile (tasks_of xs))
        (s.resolve_profile (memory_space_id task) task.profile_slot) (task, spec) xs
        (resolve_profiles s xs) (resolve_profiles-Stops xs)

  module _ (token : Token) where
    all_resolved-Answers :
        (xs : List Pair) (ps : List InferenceProfile)
        → length ps ≡ length xs
        → Answers false (tasks_of xs) (embed_resolved s token (tasks_of xs) xs (none, ps)).0
    unfolding embed_resolved
    all_resolved-Answers xs ps h =
        if-both
          (λ (z : Attempt (List GenericExecutionResult) × Token). Answers false (tasks_of xs) z.0)
          (compatible xs ps) (after_embed_many-Answers xs ps _ h)
          (execute_each-Paired token (tasks_of xs))

    embed_resolved-Answers :
        (u : Bool) (a : Attempt InferenceProfile) (x : Pair) (xs : List Pair)
        (r : Option Exn × List InferenceProfile)
        → Stops u xs r
        → Answers
            (resolves a && u)
            (tasks_of (x ∷ xs))
            (embed_resolved s token (tasks_of (x ∷ xs)) (x ∷ xs) (keep_profile a r)).0
    unfolding embed_resolved
    embed_resolved-Answers u (raised e) x xs r h =
        fail_pairs-Answers e (x ∷ xs) (profiles_or_none (x ∷ xs) [])
          (length-map (λ y. none) (x ∷ xs))
    embed_resolved-Answers true (returned p) x xs (none, ps) h = absurd h
    embed_resolved-Answers true (returned p) x xs (some e, ps) h =
        fail_pairs_short e (x ∷ xs) (some p ∷ map (λ q. some q) ps)
          (omega (arith, h, length-map {B = Option InferenceProfile} (λ q. some q) ps))
    embed_resolved-Answers false (returned p) x xs (none, ps) h =
        all_resolved-Answers (x ∷ xs) (p ∷ ps) (omega (arith, h))
    embed_resolved-Answers false (returned p) x xs (some e, ps) h = absurd h

    embed_all-Answers :
        (xs : List Pair)
        → Answers
            (stops_late (tasks_of xs))
            (tasks_of xs)
            (embed_resolved s token (tasks_of xs) xs (resolve_profiles s xs)).0
    unfolding stops_late resolve_profiles
    embed_all-Answers [] = all_resolved-Answers [] [] refl
    embed_all-Answers ((task, spec) ∷ xs) =
        embed_resolved-Answers (one_lacks_profile (tasks_of xs))
          (s.resolve_profile (memory_space_id task) task.profile_slot) (task, spec) xs
          (resolve_profiles s xs) (resolve_profiles-Stops xs)

    refuse_all-Paired :
        (tasks : List GenericExecutionTask)
        → Paired IsFor tasks
            (map (λ task. failed_result task "invalid_request" 0 none failed) tasks)
    refuse_all-Paired [] = tt
    refuse_all-Paired (task ∷ tasks) = (
      failed_result-IsFor task "invalid_request" 0 none failed (λ e. cc e),
      refuse_all-Paired tasks,
    )

    embed_batch-Answers :
        (tasks : List GenericExecutionTask) (o : Option (List Pair))
        → specs_of tasks ≡ o
        → Answers
            (is_some o && stops_late tasks)
            tasks
            (execute_embed_texts_batch s token tasks o).0
    unfolding execute_embed_texts_batch
    embed_batch-Answers tasks none e = refuse_all-Paired tasks
    embed_batch-Answers tasks (some xs) e =
        subst
          (λ (ts : List GenericExecutionTask).
            Answers (stops_late ts) ts (embed_resolved s token ts xs (resolve_profiles s xs)).0)
          (specs_of-tasks_of tasks xs e) (embed_all-Answers xs)

    by_kinds :
        (b c : Bool) (tasks : List GenericExecutionTask)
        (x y : Attempt (List GenericExecutionResult) × Token)
        → Answers c tasks x.0
        → Answers false tasks y.0
        → Answers (b && c) tasks (if b then x else y).0
    by_kinds true c tasks x y h k = h
    by_kinds false c tasks x y h k = k

    -- `execute_batch` gives one result for each task, in the order of the tasks: with the task's
    -- identifiers, an audit of the same status, and an error code exactly where it is not completed, in
    -- which case the audit counts no output. The one exception: when all tasks are embeddings with their
    -- requests, the first one's profile is found and a later one's is not, the `zip` of the handler raises
    -- a ValueError.
    pub execute_batch-Answers :
        (tasks : List GenericExecutionTask)
        → Answers (breaks tasks) tasks (execute_batch s token tasks).0
    unfolding execute_batch breaks
    execute_batch-Answers [] = tt
    execute_batch-Answers (task ∷ tasks) =
        by_kinds (all_embed (task ∷ tasks))
          (is_some (specs_of (task ∷ tasks)) && stops_late (task ∷ tasks)) (task ∷ tasks) _ _
          (embed_batch-Answers (task ∷ tasks) (specs_of (task ∷ tasks)) refl)
          (execute_each-Paired token (task ∷ tasks))
