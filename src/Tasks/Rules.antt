-- ===== src/Tasks/Rules.antt =====
-- Rules for what a run of scheduler/core_execution_task_worker.py ends in: a condition where it returns,
-- and one where it raises.
use ledgermind_local.Tasks.{Exn, Run, returned, raised, State, M, follow, rescue}

abbrev pub Ends : {A : Type 0} → (A → State → Type 0) → (State → Type 0) → Run A × State → Type 0
Ends Q E (returned a, s) = Q a s
Ends Q E (raised e, s) = E s

pub Ends-follow :
    {A B : Type 0} (R : A → State → Type 0) (Q : B → State → Type 0) (E : State → Type 0)
    (x : Run A × State) (k : A → M B)
    → Ends R E x
    → ((a : A) (t : State) → R a t → Ends Q E (k a t))
    → Ends Q E (follow x k)
Ends-follow R Q E (raised e, s) k h f = h
Ends-follow R Q E (returned a, s) k h f = f a s h

pub Ends-rescue :
    {A : Type 0} (Q : A → State → Type 0) (D E : State → Type 0) (x : Run A × State) (k : Exn → M A)
    → Ends Q D x
    → ((e : Exn) (t : State) → D t → Ends Q E (k e t))
    → Ends Q E (rescue x k)
Ends-rescue Q D E (raised e, s) k h f = f e s h
Ends-rescue Q D E (returned a, s) k h f = h

pub Ends-weaken :
    {A : Type 0} (R Q : A → State → Type 0) (D E : State → Type 0) (x : Run A × State)
    → Ends R D x
    → ((a : A) (t : State) → R a t → Q a t)
    → ((t : State) → D t → E t)
    → Ends Q E x
Ends-weaken R Q D E (raised e, s) h f g = g s h
Ends-weaken R Q D E (returned a, s) h f g = f a s h

pub Ends-both :
    {A : Type 0} (R Q : A → State → Type 0) (D E : State → Type 0) (x : Run A × State)
    → Ends R D x
    → Ends Q E x
    → Ends (λ a t. R a t × Q a t) (λ t. D t × E t) x
Ends-both R Q D E (raised e, s) h k = (h, k)
Ends-both R Q D E (returned a, s) h k = (h, k)

pub Ends-answer :
    {A : Type 0} (Q : A → State → Type 0) (E : State → Type 0) (x : Run A) (s : State)
    → ((a : A) → Q a s)
    → E s
    → Ends Q E (x, s)
Ends-answer Q E (returned a) s f e = f a
Ends-answer Q E (raised x) s f e = e
