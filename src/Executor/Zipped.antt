-- ===== src/Executor/Zipped.antt =====
-- What the strict `zip`s of `_execute_embed_texts_batch` in inference/core_task_executor.py make.
use ledgermind_local.Prelude.{
  Bool, true, false, Option, none, some, List, [], ◌∷◌, map, ◌≡◌, refl, length, ap, ◌<◌, arith,
}
use ledgermind_local.Executor.{
  Exn, Attempt, returned, raised, EmbeddingRequestSpec, GenericExecutionTask, InferenceProfile,
  EmbeddingBatch, Token,
}
use ledgermind_local.Executor.Results.{GenericExecutionResult, texts_bytes}
use ledgermind_local.Executor.Batch.{
  Pair, specs_of, profiles_or_none, id_of, fail_pairs, embed_pairs, value_error, with_spec, or_fail,
  after_embed_many, cons_attempt,
}
use ledgermind_local.Executor.Answers.{IsFor, Paired, failure_result-IsFor, embedded-IsFor}

-- A result for each task, or the ValueError of a strict `zip`.
abbrev pub Answers :
    Bool → List GenericExecutionTask → Attempt (List GenericExecutionResult) → Type 0
Answers true tasks x = x ≡ raised value_error
Answers false tasks (raised e) = ⊥
Answers false tasks (returned rs) = Paired IsFor tasks rs

abbrev pub tasks_of : List Pair → List GenericExecutionTask
tasks_of [] = []
tasks_of ((task, spec) ∷ xs) = task ∷ tasks_of xs

with_spec-tasks_of :
    (task : GenericExecutionTask) (tasks : List GenericExecutionTask)
    (o : Option EmbeddingRequestSpec) (rest : Option (List Pair)) (xs : List Pair)
    → ((ys : List Pair) → rest ≡ some ys → tasks_of ys ≡ tasks)
    → with_spec task o rest ≡ some xs
    → tasks_of xs ≡ task ∷ tasks
with_spec-tasks_of task tasks none rest xs h e = absurd (cc e)
with_spec-tasks_of task tasks (some spec) none xs h e = absurd (cc e)
with_spec-tasks_of task tasks (some spec) (some ys) [] h e = absurd (cc e)
with_spec-tasks_of task tasks (some spec) (some ys) (x ∷ xs) h e = cc (e, h ys refl)

pub specs_of-tasks_of :
    (tasks : List GenericExecutionTask) (xs : List Pair)
    → specs_of tasks ≡ some xs
    → tasks_of xs ≡ tasks
unfolding specs_of
specs_of-tasks_of [] [] e = refl
specs_of-tasks_of [] (x ∷ xs) e = absurd (cc e)
specs_of-tasks_of (task ∷ tasks) xs e =
    with_spec-tasks_of task tasks task.embedding_request (specs_of tasks) xs
      (λ ys h. specs_of-tasks_of tasks ys h) e

cons-Answers :
    (task : GenericExecutionTask) (tasks : List GenericExecutionTask) (r : GenericExecutionResult)
    (x : Attempt (List GenericExecutionResult))
    → IsFor task r
    → Answers false tasks x
    → Answers false (task ∷ tasks) (cons_attempt r x)
cons-Answers task tasks r (raised e) f h = absurd h
cons-Answers task tasks r (returned rs) f h = (f, h)

-- The handler, with as many profiles as tasks, and with fewer.
pub fail_pairs-Answers :
    (e : Exn) (xs : List Pair) (ps : List (Option InferenceProfile))
    → length ps ≡ length xs
    → Answers false (tasks_of xs) (fail_pairs e xs ps)
unfolding fail_pairs
fail_pairs-Answers e [] [] h = tt
fail_pairs-Answers e [] (p ∷ ps) h = absurd (omega (arith, h))
fail_pairs-Answers e (x ∷ xs) [] h = absurd (omega (arith, h))
fail_pairs-Answers e ((task, spec) ∷ xs) (p ∷ ps) h =
    cons-Answers task (tasks_of xs) _ (fail_pairs e xs ps)
      (failure_result-IsFor task e (texts_bytes spec.texts) (id_of p))
      (fail_pairs-Answers e xs ps (omega (arith, h)))

pub fail_pairs_short :
    (e : Exn) (xs : List Pair) (ps : List (Option InferenceProfile))
    → length ps < length xs
    → fail_pairs e xs ps ≡ raised value_error
unfolding fail_pairs
fail_pairs_short e [] ps h = absurd (omega (arith, h))
fail_pairs_short e (x ∷ xs) [] h = refl
fail_pairs_short e ((task, spec) ∷ xs) (p ∷ ps) h =
    ap (cons_attempt _) (fail_pairs_short e xs ps (omega (arith, h)))

pub length-map : {A B : Type 0} (f : A → B) (xs : List A) → length (map f xs) ≡ length xs
length-map f [] = refl
length-map f (x ∷ xs) = omega (arith, length-map f xs)

length-profiles_or_none :
    (xs : List Pair) (ps : List InferenceProfile)
    → length ps ≡ length xs
    → length (profiles_or_none xs ps) ≡ length xs
length-profiles_or_none xs [] h = length-map (λ x. none) xs
length-profiles_or_none xs (p ∷ ps) h =
    omega (arith, h, length-map {B = Option InferenceProfile} (λ q. some q) ps)

or_fail-Answers :
    (xs : List Pair) (ps : List InferenceProfile) (e : Exn)
    → length ps ≡ length xs
    → Answers false (tasks_of xs) (or_fail xs ps (raised e))
or_fail-Answers xs ps e h =
    fail_pairs-Answers e xs (profiles_or_none xs ps) (length-profiles_or_none xs ps h)

-- What the strict `zip` of the results makes: a result for each task, or an exception.
abbrev Perhaps : List GenericExecutionTask → Attempt (List GenericExecutionResult) → Type 0
Perhaps tasks (raised e) = Unit {0}
Perhaps tasks (returned rs) = Paired IsFor tasks rs

cons-Perhaps :
    (task : GenericExecutionTask) (tasks : List GenericExecutionTask) (r : GenericExecutionResult)
    (x : Attempt (List GenericExecutionResult))
    → IsFor task r
    → Perhaps tasks x
    → Perhaps (task ∷ tasks) (cons_attempt r x)
cons-Perhaps task tasks r (raised e) f h = tt
cons-Perhaps task tasks r (returned rs) f h = (f, h)

embed_pairs-Perhaps :
    (xs : List Pair) (ps : List InferenceProfile) (bs : List EmbeddingBatch)
    → Perhaps (tasks_of xs) (embed_pairs xs ps bs)
unfolding embed_pairs
embed_pairs-Perhaps [] [] [] = tt
embed_pairs-Perhaps [] [] (b ∷ bs) = tt
embed_pairs-Perhaps [] (p ∷ ps) bs = tt
embed_pairs-Perhaps (x ∷ xs) [] bs = tt
embed_pairs-Perhaps (x ∷ xs) (p ∷ ps) [] = tt
embed_pairs-Perhaps ((task, spec) ∷ xs) (p ∷ ps) (b ∷ bs) =
    cons-Perhaps task (tasks_of xs) _ (embed_pairs xs ps bs) (embedded-IsFor task spec p b)
      (embed_pairs-Perhaps xs ps bs)

or_fail-of_Perhaps :
    (xs : List Pair) (ps : List InferenceProfile) (x : Attempt (List GenericExecutionResult))
    → length ps ≡ length xs
    → Perhaps (tasks_of xs) x
    → Answers false (tasks_of xs) (or_fail xs ps x)
or_fail-of_Perhaps xs ps (raised e) h k = or_fail-Answers xs ps e h
or_fail-of_Perhaps xs ps (returned rs) h k = k

pub after_embed_many-Answers :
    (xs : List Pair) (ps : List InferenceProfile) (x : Attempt (List EmbeddingBatch) × Token)
    → length ps ≡ length xs
    → Answers false (tasks_of xs) (after_embed_many xs ps x).0
unfolding after_embed_many
after_embed_many-Answers xs ps (raised e, token) h = or_fail-Answers xs ps e h
after_embed_many-Answers xs ps (returned bs, token) h =
    or_fail-of_Perhaps xs ps (embed_pairs xs ps bs) h (embed_pairs-Perhaps xs ps bs)
