-- ===== src/Rerank.antt =====
-- inference/retrieval_reranker.py: the scores that a ranking API answers, the ranking of the Core's
-- candidates and the choice of those that are injected. The type of finite floats is a parameter. The child
-- Process is about the worker process of the local model.
pub mod Scores
pub mod Added
pub mod Scored
pub mod Ranking
pub mod Ranked
pub mod Packed
pub mod Process
pub mod Held
use ledgermind_local.Prelude.{ℕ, ◌≡◌, refl}

pub data Problem : Type 0 where
  request_failed invalid_response invalid_result invalid_index out_of_range_or_duplicated : Problem
  invalid_score not_finite incomplete_scores duplicate_id scorer_failed : Problem
  invalid_policy incomplete_legend : Problem

pub data Result {ℓ} (A : Type ℓ) : Type ℓ where
  ok : A → Result A
  err : Problem → Result A

infixl 5 ◌>>=◌
abbrev pub ◌>>=◌ {ℓ κ} : {A : Type ℓ} {B : Type κ} → Result A → (A → Result B) → Result B
ok a >>= f = f a
err p >>= f = err p

-- The values that a JSON answer may hold for a score and for an index. An integer too large for a float,
-- where `float` itself raises, counts as infinite.
pub data Score (F : Type 0) : Type 0 where
  number : F → Score F
  infinite_or_nan not_a_number : Score F

pub data Index : Type 0 where
  at : ℕ → Index
  negative not_an_int : Index

pub data Row (F : Type 0) : Type 0 where
  result : Index → Score F → Row F
  not_a_mapping : Row F

-- A chain that ends well: its first step did, and so did the rest from there.
pub bind-eq-ok {ℓ κ} :
    {A : Type ℓ} {B : Type κ} {last : B} (first : Result A) (next : A → Result B)
    → first >>= next ≡ ok last
    → (middle : A) × (first ≡ ok middle) × (next middle ≡ ok last)
bind-eq-ok (err p) next e = absurd (cc e)
bind-eq-ok (ok middle) next e = (middle, refl, e)
