-- ===== src/Executor/Waiting.antt =====
-- How the bounded wait of inference/core_task_executor.py ends.
use ledgermind_local.Prelude.{
  ℕ, zero, suc, ◌+◌, ◌≤◌, none, some, ◌≡◌, ◌≢◌, refl, arith, true, false, if◌then◌else◌, Bool,
}
use ledgermind_local.Executor.{
  Work, Token, is_cancelled, cancel, Attempt, raised, plain, execution_timeout, finished, timed_out,
  waiting, wait_loop, after_wait, run_bounded,
}

if_then :
    {A : Type 0} (P : A → Type 0) (b : Bool) (x y : A)
    → (b ≡ true → P x)
    → (b ≡ false → P y)
    → P (if b then x else y)
if_then P true x y h k = h refl
if_then P false x y h k = k refl

-- Nobody cancels the work.
abbrev pub IsOpen : {A : Type 0} → Token → Work A → Type 0
IsOpen token w = (now : ℕ) → is_cancelled token w.cancelled_at now ≡ false

module _ {A : Type 0} (token : Token) (w : Work A) (deadline : ℕ) where
  -- With more turns than there are milliseconds left, the loop comes to an end.
  pub wait_loop-ends :
      (n now : ℕ) → deadline ≤ now + n → wait_loop (suc n) token w deadline now ≢ waiting
  unfolding wait_loop
  wait_loop-ends zero now h = ground (arith, h)
  wait_loop-ends (suc n) now h =
      let later : wait_loop (suc n) token w deadline (now + 10 + w.lag now) ≢ waiting =
        wait_loop-ends n (now + 10 + w.lag now) (omega (arith, h)) in
      ground (arith, later)

  module _ (open_token : IsOpen token w) where
    wait_never :
        w.done_at ≡ none
        → (n now : ℕ) → deadline ≤ now + n
        → wait_loop (suc n) token w deadline now ≡ timed_out
    unfolding wait_loop
    wait_never e zero now h = ground (arith, h, e, open_token now)
    wait_never e (suc n) now h =
        let later : wait_loop (suc n) token w deadline (now + 10 + w.lag now) ≡ timed_out =
          wait_never e n (now + 10 + w.lag now) (omega (arith, h)) in
        ground (arith, later, e, open_token now)

    wait_in_time :
        (t : ℕ)
        → w.done_at ≡ some t
        → t ≤ deadline
        → (n now : ℕ) → deadline ≤ now + n
        → wait_loop (suc n) token w deadline now ≡ finished
    unfolding wait_loop
    wait_in_time t e k zero now h = ground (arith, h, k, e, open_token now)
    wait_in_time t e k (suc n) now h =
        let later : wait_loop (suc n) token w deadline (now + 10 + w.lag now) ≡ finished =
          wait_in_time t e k n (now + 10 + w.lag now) (omega (arith, h)) in
        ground (arith, later, k, e, open_token now)

  -- What uncancelled work with a bound of so many milliseconds comes to.
  abbrev pub Bounded : Attempt A × Token → Type 0
  Bounded x =
      (w.done_at ≡ none → x ≡ (raised (plain execution_timeout), cancel token))
      × ((t : ℕ) → w.done_at ≡ some t → t ≤ deadline → x ≡ (w.outcome, token))

-- Where nobody cancels the token: the wait of `_run_bounded` ends; work that never ends is a timeout that
-- cancels the token; and of work that ends within the bound its outcome comes back, be it a value or an
-- exception, with the token as it was, however long the sleeps of the wait take.
pub run_bounded-Bounded :
    {A : Type 0} (timeout : ℕ) (token : Token) (w : Work A)
    → IsOpen token w
    → (wait_loop (suc timeout) token w timeout 0 ≢ waiting)
      × Bounded token w timeout (run_bounded timeout token w)
unfolding run_bounded after_wait
run_bounded-Bounded timeout token w o = (
  wait_loop-ends token w timeout timeout 0 (omega arith),
  (
    λ e. rw (o 0, wait_never token w timeout o e timeout 0 (omega arith)) refl,
    λ t e k. rw (o 0, wait_in_time token w timeout o t e k timeout 0 (omega arith)) refl,
  ),
)
