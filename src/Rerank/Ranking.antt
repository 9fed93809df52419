-- ===== src/Rerank/Ranking.antt =====
-- `rank_items` and `pack_items` of inference/retrieval_reranker.py. The scorer, the document of a candidate,
-- the order of the floats, and the tokens of a rendered injection, are parameters.
use ledgermind_local.Prelude.{
  ℕ, ◌+◌, Bool, false, not, ◌&&◌, ◌||◌, Option, none, some, List, [], ◌∷◌, ◌++◌, map, String,
  text_eq, length, take, drop, ltb, leb, ◌==◌, if◌then◌else◌,
}
use ledgermind_local.Prelude.Tables.{any, order_by}
use ledgermind_local.Rerank.{
  Result, ok, err, ◌>>=◌, Score, number, infinite_or_nan, not_a_number, duplicate_id,
  incomplete_scores, invalid_policy, incomplete_legend,
}

-- An index with the item and the score that are read at it.
pub record Entry (A F : Type 0) : Type 0 where
  pub index : ℕ
  pub item : A
  pub score : F

abbrev pub finite_cons : {F : Type 0} → Score F → Result (List F) → Result (List F)
finite_cons (number f) (ok fs) = ok (f ∷ fs)
finite_cons (number f) (err p) = err p
finite_cons infinite_or_nan rest = err incomplete_scores
finite_cons not_a_number rest = err incomplete_scores

-- The scores as numbers, if all of them are.
unfoldable pub finite_scores : {F : Type 0} → List (Score F) → Result (List F)
finite_scores [] = ok []
finite_scores (s ∷ ss) = finite_cons s (finite_scores ss)

unfoldable pub entries : {A F : Type 0} → ℕ → List A → List F → List (Entry A F)
entries i (x ∷ xs) (f ∷ fs) = record { index = i; item = x; score = f } ∷ entries (i + 1) xs fs
entries i _ _ = []

-- `len(ids) != len(set(ids))`
unfoldable pub has_duplicate : List String → Bool
has_duplicate [] = false
has_duplicate (x ∷ xs) = any (text_eq x) xs || has_duplicate xs

abbrev pub items_of : {A F : Type 0} → List (Entry A F) → List A
items_of [] = []
items_of (e ∷ es) = e.item ∷ items_of es

module _ {A F : Type 0} (less : F → F → Bool) where
  -- The order of the keys `(-score, index)`.
  unfoldable pub before : Entry A F → Entry A F → Bool
  before a b = less b.score a.score || (not (less a.score b.score) && ltb a.index b.index)

  unfoldable pub rank_scores : List A → List (Score F) → Result (List A)
  unfolding finite_scores entries before
  rank_scores items scores =
      if length scores == length items
      then (do fs ← finite_scores scores; ok (items_of (order_by before (entries 0 items fs))))
      else err incomplete_scores

  -- `rank_items`; the scorer may raise itself.
  unfoldable pub rank_items :
      (value_id document : A → String)
      → (List String → Result (List (Score F)))
      → List A
      → Result (List A)
  unfolding has_duplicate rank_scores
  rank_items value_id document scorer items =
      if has_duplicate (map value_id items)
      then err duplicate_id
      else (do scores ← scorer (map document items); rank_scores items scores)

module _ {A : Type 0} (tokens : List A → Option ℕ) where
  -- The loop: a further item is taken where the injection with it is within the budget. `render_injection`
  -- may raise.
  abbrev pub try_item : ℕ → List A → A → (List A → Result (List A)) → Option ℕ → Result (List A)
  try_item budget selected item next none = err incomplete_legend
  try_item budget selected item next (some n) =
      if leb n budget then next (selected ++ item ∷ []) else next selected

  unfoldable pub pack_loop : ℕ → List A → List A → Result (List A)
  pack_loop budget selected [] = ok selected
  pack_loop budget selected (item ∷ items) =
      let next = λ (chosen : List A). pack_loop budget chosen items in
      try_item budget selected item next (tokens (selected ++ item ∷ []))

  abbrev pub with_count : List A → Option ℕ → Result (List A × ℕ)
  with_count selected none = err incomplete_legend
  with_count selected (some n) = ok (selected, n)

  unfoldable pub pack_items : (min_k soft_budget : ℕ) → List A → Result (List A × ℕ)
  unfolding pack_loop
  pack_items min_k soft_budget items =
      if ltb min_k 1 || ltb soft_budget 1 then err invalid_policy else (do
        selected ← pack_loop soft_budget (take min_k items) (drop min_k items)
        with_count selected (tokens selected))
