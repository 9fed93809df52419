-- ===== src/Tests/Reranking.antt =====
-- Runs of inference/retrieval_reranker.py, with natural numbers for the floats.
use ledgermind_local.Prelude.{
  ℕ, false, Option, some, List, [], ◌∷◌, map, String, text_eq, ◌≡◌, refl, ltb, take, drop, ◌⊎◌, ◌≤◌,
  arith,
}
use ledgermind_local.Prelude.Tables.{any, insert_by, order_by, IsOrder}
use ledgermind_local.Rerank.{
  Result, ok, err, Score, number, at, Row, result, out_of_range_or_duplicated,
}
use ledgermind_local.Rerank.Scores.{
  Answer, rows, no_scores, is_free, set_score, add_row, add_rows, complete, score_answer,
}
use ledgermind_local.Rerank.Scored.{IsScored, score_answer-IsScored}
use ledgermind_local.Rerank.Ranking.{
  finite_scores, entries, has_duplicate, before, rank_scores, rank_items, pack_loop, pack_items,
}
use ledgermind_local.Rerank.Ranked.{IsRanking, rank_items-IsRanking}
use ledgermind_local.Rerank.Packed.{Packs, pack_items-Packs}
use ledgermind_local.Rerank.Process.{
  ready, silent, answers, times_out, score, close, stop, without, is_alive, ensure_started, start,
  exchange, dies,
}
use ledgermind_local.Rerank.Held.{
  IsKept, Leaves, IsStopped, Event, scores, process_dies, perform_all, initial, score-Leaves_after,
}

abbrev row : ℕ → ℕ → Row ℕ
row i f = result (at i) (number f)

abbrev swapped : Answer ℕ
swapped = rows (row 1 20 ∷ row 0 10 ∷ [])

swapped_scores : score_answer 2 swapped ≡ ok (10 ∷ 20 ∷ [])
unfolding score_answer add_rows add_row is_free set_score no_scores complete
swapped_scores = refl

twice : score_answer 2 (rows (row 1 20 ∷ row 1 10 ∷ [])) ≡ err out_of_range_or_duplicated
unfolding score_answer add_rows add_row is_free set_score no_scores complete
twice = refl

score_answer-IsScored_example : IsScored 2 swapped (10 ∷ 20 ∷ [])
score_answer-IsScored_example = score_answer-IsScored 1 swapped (10 ∷ 20 ∷ []) swapped_scores

less-IsOrder : IsOrder ltb
less-IsOrder = record {
  asym = λ a b h. ground (arith, h);
  not_before_trans = λ a b c h k. ground (arith, h, k);
}

abbrev same : String → String
same s = s

abbrev scorer : List String → Result (List (Score ℕ))
scorer documents = ok (number 5 ∷ number 7 ∷ number 5 ∷ [])

abbrev candidates : List String
candidates = "a" ∷ "b" ∷ "c" ∷ []

ranked : rank_items ltb same same scorer candidates ≡ ok ("b" ∷ "a" ∷ "c" ∷ [])
unfolding rank_items has_duplicate any text_eq rank_scores finite_scores entries order_by insert_by
    before
ranked = refl

rank_items-IsRanking_example :
    (has_duplicate (map same candidates) ≡ false)
    × ((ss : List (Score ℕ)) × (scorer (map same candidates) ≡ ok ss)
        × IsRanking ltb candidates ss ("b" ∷ "a" ∷ "c" ∷ []))
rank_items-IsRanking_example =
    rank_items-IsRanking ltb less-IsOrder same same scorer candidates ("b" ∷ "a" ∷ "c" ∷ []) ranked

-- Ten tokens for each item; the last one is over the budget.
abbrev tokens : List String → Option ℕ
tokens [] = some 0
tokens (x ∷ []) = some 10
tokens (x ∷ y ∷ []) = some 20
tokens (x ∷ y ∷ z ∷ xs) = some 30

packed : pack_items tokens 1 25 candidates ≡ ok ("a" ∷ "b" ∷ [], 20)
unfolding pack_items pack_loop
packed = refl

pack_items-Packs_example :
    Packs tokens 25 (take 1 candidates) (drop 1 candidates) ("a" ∷ "b" ∷ [])
    × (tokens ("a" ∷ "b" ∷ []) ≡ some 20)
    × (1 ≤ 1)
    × (1 ≤ 25)
    × (("a" ∷ "b" ∷ [] ≡ take 1 candidates) ⊎ (20 ≤ 25))
pack_items-Packs_example = pack_items-Packs tokens 1 25 candidates ("a" ∷ "b" ∷ []) 20 packed

abbrev events : List (Event ℕ)
events = scores ready (answers 1) ∷ process_dies 0 ∷ scores ready (answers 2) ∷ []

-- The second worker, after the first one died.
held : perform_all events initial ≡ record { held = some 1; alive = 1 ∷ []; owed = 0; started = 2 }
unfolding perform_all score ensure_started is_alive start stop without exchange dies
held = refl

score-Leaves_after_example :
    IsKept (perform_all events initial)
    × Leaves {P = ℕ} (score silent times_out (perform_all events initial))
    × IsStopped (close (perform_all events initial))
score-Leaves_after_example = score-Leaves_after events silent times_out
