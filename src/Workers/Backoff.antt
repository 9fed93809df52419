-- ===== src/Workers/Backoff.antt =====
-- scheduler/guarded_loop.py: the waits that a run makes.
use mathlib.Core.List.{append-nil, append_assoc}
use native.Mathlib.Nat.{pow-suc}
use ledgermind_local.Prelude.{
  ℕ, zero, suc, ◌*◌, ◌^◌, ◌≤◌, ◌<◌, min, max, ◌≡◌, refl, ◌∙◌, ap, sym, true, false, List, [], ◌∷◌,
  ◌++◌, String, arith, All, All-append, if◌then◌else◌, if-both, if_false, length, ltb,
}
use ledgermind_local.Workers.{WorkerState, mark_stopped}
use ledgermind_local.Workers.Loop.{
  Settings, new_settings, Pass, returned, raised, Turn, LoopState, next_backoff, after_pass, turn,
  turns, run,
}

abbrev pub IsSettings : Settings → Type 0
IsSettings c = c.initial_backoff ≤ c.max_backoff

new_settings-IsSettings :
    (poll initial maximum : ℕ) → IsSettings (new_settings poll initial maximum)
unfolding new_settings
new_settings-IsSettings poll initial maximum = omega arith

-- The wait after the k-th failure in a row.
pub backoff_after : Settings → ℕ → ℕ
backoff_after c zero = c.initial_backoff
backoff_after c (suc k) = next_backoff c (backoff_after c k)

initial-le-doubled : (i k : ℕ) → i ≤ i * 2 ^ k
initial-le-doubled i zero = omega arith
initial-le-doubled i (suc k) = grind (arith, initial-le-doubled i k, pow-suc 2 k)

ltb-true : (a b : ℕ) → a < b → ltb a b ≡ true
ltb-true a b h = ground arith

step :
    (I M x : ℕ)
    → I ≤ M
    → 0 < I
    → I ≤ x
    → (if ltb 0 (min M x) then min M (max (min M x * 2) I) else min M x) ≡ min M (x * 2)
step I M x h pos le = rw (ltb-true 0 (min M x) (omega arith)) (omega arith)

mul_assoc-pow : (i k : ℕ) → i * 2 ^ suc k ≡ i * 2 ^ k * 2
mul_assoc-pow i k = rw (pow-suc 2 k) (omega arith)

-- The wait after the k-th failure in a row is the initial one times 2 ^ k, cut at the maximum, where
-- the initial wait is positive and at most the maximum.
pub backoff_doubles :
    (c : Settings) (k : ℕ)
    → IsSettings c
    → 0 < c.initial_backoff
    → backoff_after c k ≡ min c.max_backoff (c.initial_backoff * 2 ^ k)
unfolding backoff_after next_backoff
backoff_doubles c zero h pos = omega arith
backoff_doubles c (suc k) h pos = rw (backoff_doubles c k h pos) (
    step c.initial_backoff c.max_backoff (c.initial_backoff * 2 ^ k) h pos
      (initial-le-doubled c.initial_backoff k)
    ∙ ap (λ x. min c.max_backoff x) (sym (mul_assoc-pow c.initial_backoff k)))

next_backoff-le : (c : Settings) (b : ℕ) → b ≤ c.max_backoff → next_backoff c b ≤ c.max_backoff
unfolding next_backoff
next_backoff-le c b h = ground arith

abbrev pub IsWait : Settings → ℕ → Type 0
IsWait c w = w ≤ max c.poll_interval c.max_backoff

record IsBounded (c : Settings) (l : LoopState) : Type 0 where
  backoff_bounded : l.backoff ≤ c.max_backoff
  waits_bounded : All (IsWait c) l.waits

le-max : {a b : ℕ} (c : ℕ) → a ≤ b → a ≤ max c b
le-max c h = omega arith

after_pass-IsBounded :
    (c : Settings) (t : Turn) (p : Pass) (l : LoopState)
    → IsSettings c
    → IsBounded c l
    → IsBounded c (after_pass c t p l)
unfolding after_pass
after_pass-IsBounded c t (raised code) l h b = record {
  backoff_bounded =
      if-both (λ x. x ≤ c.max_backoff) t.stop_seen b.backoff_bounded
        (next_backoff-le c l.backoff b.backoff_bounded);
  waits_bounded =
      All-append (IsWait c) l.waits _ b.waits_bounded
        (le-max c.poll_interval b.backoff_bounded, tt);
}
after_pass-IsBounded c t (returned r) l h b = record {
  backoff_bounded = h;
  waits_bounded = All-append (IsWait c) l.waits _ b.waits_bounded (omega arith, tt);
}

turn-IsBounded :
    (c : Settings) (t : Turn) (l : LoopState)
    → IsSettings c
    → IsBounded c l
    → IsBounded c (turn c t l)
unfolding turn
turn-IsBounded c t l h b =
    after_pass-IsBounded c t t.pass _ h
      (record { backoff_bounded = b.backoff_bounded; waits_bounded = b.waits_bounded })

turns-IsBounded :
    (c : Settings) (ts : List Turn) (l : LoopState)
    → IsSettings c
    → IsBounded c l
    → IsBounded c (turns c ts l)
unfolding turns
turns-IsBounded c [] l h b = b
turns-IsBounded c (t ∷ ts) l h b =
    let here = turn-IsBounded c t l h b in
    if-both (IsBounded c) t.stop_seen here (turns-IsBounded c ts (turn c t l) h here)

-- Where the initial backoff is at most the maximum, every wait of a run is at most the larger of the
-- poll interval and the maximum backoff, and the worker is marked stopped at its end.
pub run-waits :
    (c : Settings) (ts : List Turn) (s : WorkerState)
    → IsSettings c
    → All (IsWait c) (run c ts s).waits × ((run c ts s).state.snapshot.running ≡ false)
unfolding run mark_stopped
run-waits c ts s h = (
  (turns-IsBounded c ts _ h (record { backoff_bounded = h; waits_bounded = tt })).waits_bounded,
  refl,
)

-- A pass that raises, with no stop seen in the wait after it.
abbrev pub IsFailing : Turn → Type 0
IsFailing t = (t.stop_seen ≡ false) × ((code : String) × (t.pass ≡ raised code))

-- The waits after n failures in a row, of which the first is the k-th.
abbrev pub waits_from : Settings → (k n : ℕ) → List ℕ
waits_from c k zero = []
waits_from c k (suc n) = min c.max_backoff (c.initial_backoff * 2 ^ k) ∷ waits_from c (suc k) n

turn-raised :
    (c : Settings) (t : Turn) (l : LoopState)
    → IsFailing t
    → ((turn c t l).waits ≡ l.waits ++ l.backoff ∷ [])
      × ((turn c t l).backoff ≡ next_backoff c l.backoff)
unfolding turn after_pass
turn-raised c t l (going, (code, e)) = (rw e refl, rw e (if_false t.stop_seen _ _ going))

turns-waits :
    (c : Settings) (ts : List Turn) (k : ℕ) (l : LoopState)
    → IsSettings c
    → 0 < c.initial_backoff
    → All IsFailing ts
    → l.backoff ≡ backoff_after c k
    → (turns c ts l).waits ≡ l.waits ++ waits_from c k (length ts)
unfolding turns backoff_after
turns-waits c [] k l h pos f e = sym (append-nil l.waits)
turns-waits c (t ∷ ts) k l h pos (ft, fs) e =
    let (w, b) = turn-raised c t l ft in
    rw (if_false t.stop_seen (turn c t l) (turns c ts (turn c t l)) ft.0) (
      turns-waits c ts (suc k) (turn c t l) h pos fs (b ∙ ap (λ x. next_backoff c x) e)
      ∙ ap (λ ws. ws ++ waits_from c (suc k) (length ts)) w
      ∙ append_assoc l.waits (l.backoff ∷ []) (waits_from c (suc k) (length ts))
      ∙ ap (λ x. l.waits ++ x ∷ waits_from c (suc k) (length ts)) (e ∙ backoff_doubles c k h pos))

-- A run of n passes that all raise, with no stop seen in between, waits min(maximum, initial * 2 ^ k)
-- after its k-th one, where the initial backoff is positive and at most the maximum.
pub failing_run_waits :
    (c : Settings) (ts : List Turn) (s : WorkerState)
    → IsSettings c
    → 0 < c.initial_backoff
    → All IsFailing ts
    → (run c ts s).waits ≡ waits_from c 0 (length ts)
unfolding run backoff_after
failing_run_waits c ts s h pos f = turns-waits c ts 0 _ h pos f refl
