-- ===== src/Rerank/Scores.antt =====
-- `ApiReranker.score` of inference/retrieval_reranker.py, after the body of the answer is decoded.
use ledgermind_local.Prelude.{
  ℕ, zero, suc, Bool, true, false, Option, none, some, List, [], ◌∷◌, if◌then◌else◌,
}
use ledgermind_local.Rerank.{
  Result, ok, err, ◌>>=◌, Score, number, infinite_or_nan, not_a_number, at, negative, not_an_int,
  Row, result, not_a_mapping, request_failed, invalid_response, invalid_result, invalid_index,
  out_of_range_or_duplicated, invalid_score, not_finite, incomplete_scores,
}

-- What the request comes to: it fails, or answers something that is no object with a list of rows, or rows.
pub data Answer (F : Type 0) : Type 0 where
  failed unreadable : Answer F
  rows : List (Row F) → Answer F

module _ {F : Type 0} where
  -- `[None] * len(documents)`
  unfoldable pub no_scores : ℕ → List (Option F)
  no_scores zero = []
  no_scores (suc n) = none ∷ no_scores n

  -- `0 <= index < len(scores) and scores[index] is None`
  unfoldable pub is_free : List (Option F) → ℕ → Bool
  is_free [] i = false
  is_free (none ∷ xs) zero = true
  is_free (some f ∷ xs) zero = false
  is_free (x ∷ xs) (suc i) = is_free xs i

  unfoldable pub set_score : List (Option F) → ℕ → F → List (Option F)
  set_score [] i f = []
  set_score (x ∷ xs) zero f = some f ∷ xs
  set_score (x ∷ xs) (suc i) f = x ∷ set_score xs i f

  abbrev pub place : List (Option F) → ℕ → Score F → Result (List (Option F))
  place scores i not_a_number = err invalid_score
  place scores i infinite_or_nan = err not_finite
  place scores i (number f) = ok (set_score scores i f)

  -- One turn of the loop.
  unfoldable pub add_row : Row F → List (Option F) → Result (List (Option F))
  unfolding is_free set_score
  add_row not_a_mapping scores = err invalid_result
  add_row (result not_an_int s) scores = err invalid_index
  add_row (result negative s) scores = err out_of_range_or_duplicated
  add_row (result (at i) s) scores =
      if is_free scores i then place scores i s else err out_of_range_or_duplicated

  unfoldable pub add_rows : List (Row F) → List (Option F) → Result (List (Option F))
  unfolding add_row
  add_rows [] scores = ok scores
  add_rows (r ∷ rs) scores = do scores' ← add_row r scores; add_rows rs scores'

  abbrev pub keep_score : Option F → Result (List F) → Result (List F)
  keep_score none rest = err incomplete_scores
  keep_score (some f) (ok fs) = ok (f ∷ fs)
  keep_score (some f) (err p) = err p

  unfoldable pub complete : List (Option F) → Result (List F)
  complete [] = ok []
  complete (o ∷ os) = keep_score o (complete os)

  abbrev pub read_answer : ℕ → Answer F → Result (List F)
  read_answer n failed = err request_failed
  read_answer n unreadable = err invalid_response
  read_answer n (rows rs) = do scores ← add_rows rs (no_scores n); complete scores

  -- `score`: no request is made for no documents.
  unfoldable pub score_answer : ℕ → Answer F → Result (List F)
  unfolding add_rows complete no_scores
  score_answer zero a = ok []
  score_answer (suc n) a = read_answer (suc n) a
