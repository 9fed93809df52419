-- ===== src/Rerank/Scored.antt =====
-- What the scores that inference/retrieval_reranker.py takes from an answer are.
use ledgermind_local.Prelude.{
  ℕ, zero, suc, Option, none, some, List, [], ◌∷◌, ◌≡◌, refl, length, All, All-map, arith, inl, inr,
  ◌⊎◌,
}
use ledgermind_local.Prelude.Tables.{Elem}
use ledgermind_local.Rerank.{
  Result, ok, err, bind-eq-ok, number, infinite_or_nan, not_a_number, at, negative, not_an_int, Row,
  result, not_a_mapping,
}
use ledgermind_local.Rerank.Scores.{
  Answer, failed, unreadable, rows, no_scores, add_rows, keep_score, complete, score_answer,
}
use ledgermind_local.Rerank.Added.{get_elem?, Placed, count, add_rows-AddsAll}

module _ {F : Type 0} where
  keep_score-eq-ok :
      (o : Option F) (m : Result (List F)) (fs : List F)
      → keep_score o m ≡ ok fs
      → (f : F) × (gs : List F) × (o ≡ some f) × (m ≡ ok gs) × (f ∷ gs ≡ fs)
  keep_score-eq-ok none m fs e = absurd (cc e)
  keep_score-eq-ok (some f) (err p) fs e = absurd (cc e)
  keep_score-eq-ok (some f) (ok gs) fs e = (f, gs, refl, refl, cc e)

  -- The scores are as many as the places, all taken, and each stands at its place.
  record Completes (os : List (Option F)) (fs : List F) : Type 0 where
    taken : count os ≡ length os
    as_many : length fs ≡ length os
    at_place : (i : ℕ) (f : F) → get_elem? os i ≡ some (some f) → get_elem? fs i ≡ some f
    from_place : (i : ℕ) (f : F) → get_elem? fs i ≡ some f → get_elem? os i ≡ some (some f)

  Completes-cons :
      (f : F) (os : List (Option F)) (gs : List F)
      → Completes os gs
      → Completes (some f ∷ os) (f ∷ gs)
  unfolding count get_elem?
  Completes-cons f os gs c = record {
    taken = omega (arith, c.taken);
    as_many = omega (arith, c.as_many);
    at_place = at_cons;
    from_place = from_cons;
  }
    where
      at_cons :
          (i : ℕ) (g : F)
          → get_elem? (some f ∷ os) i ≡ some (some g)
          → get_elem? (f ∷ gs) i ≡ some g
      at_cons zero g e = cc e
      at_cons (suc i) g e = c.at_place i g e

      from_cons :
          (i : ℕ) (g : F)
          → get_elem? (f ∷ gs) i ≡ some g
          → get_elem? (some f ∷ os) i ≡ some (some g)
      from_cons zero g e = cc e
      from_cons (suc i) g e = c.from_place i g e

  complete-Completes : (os : List (Option F)) (fs : List F) → complete os ≡ ok fs → Completes os fs
  unfolding complete count get_elem?
  complete-Completes [] fs e =
      let same : [] ≡ fs = cc e in
      rw (← same) (record {
        taken = refl;
        as_many = refl;
        at_place = λ i f h. absurd (cc h);
        from_place = λ i f h. absurd (cc h);
      })
  complete-Completes (o ∷ os) fs e =
      let (f, gs, p, q, r) = keep_score-eq-ok o (complete os) fs e in
      rw (p, ← r) (Completes-cons f os gs (complete-Completes os gs q))

  count-no_scores :
      (n : ℕ) (os : List (Option F)) → os ≡ no_scores n → (count os ≡ 0) × (length os ≡ n)
  unfolding count no_scores
  count-no_scores zero [] e = (refl, refl)
  count-no_scores zero (o ∷ os) e = absurd (cc e)
  count-no_scores (suc n) [] e = absurd (cc e)
  count-no_scores (suc n) (o ∷ os) e =
      let (c, l) = count-no_scores n os (cc e) in
      let o-none : o ≡ none = cc e in rw o-none (omega (arith, c), omega (arith, l))

  no_scores-get : (n i : ℕ) (f : F) → get_elem? (no_scores n) i ≡ some (some f) → ⊥
  unfolding no_scores get_elem?
  no_scores-get zero i f e = cc e
  no_scores-get (suc n) zero f e = cc e
  no_scores-get (suc n) (suc i) f e = no_scores-get n i f e

  only_rows : (n i : ℕ) (f : F) {T : Type 0} → (get_elem? (no_scores n) i ≡ some (some f)) ⊎ T → T
  only_rows n i f (inl h) = absurd (no_scores-get n i f h)
  only_rows n i f (inr t) = t

  -- The row holds the score of this list at its index.
  abbrev pub IsIn : List F → Row F → Type 0
  IsIn fs (result (at i) (number f)) = get_elem? fs i ≡ some f
  IsIn fs _ = ⊥

  Placed-IsIn :
      (os : List (Option F)) (fs : List F) (r : Row F)
      → complete os ≡ ok fs
      → Placed os r
      → IsIn fs r
  Placed-IsIn os fs (result (at i) (number f)) e h = (complete-Completes os fs e).at_place i f h
  Placed-IsIn os fs (result (at i) infinite_or_nan) e h = absurd h
  Placed-IsIn os fs (result (at i) not_a_number) e h = absurd h
  Placed-IsIn os fs (result negative s) e h = absurd h
  Placed-IsIn os fs (result not_an_int s) e h = absurd h
  Placed-IsIn os fs not_a_mapping e h = absurd h

  -- As many scores as documents and as rows; each row's score stands at its index, and each score there is
  -- comes from a row with its index.
  abbrev pub IsScored : ℕ → Answer F → List F → Type 0
  IsScored n (rows rs) fs =
      (length fs ≡ n)
      × (length rs ≡ n)
      × All (IsIn fs) rs
      × ((i : ℕ) (f : F) → get_elem? fs i ≡ some f → Elem (result (at i) (number f)) rs)
  IsScored n _ fs = ⊥

  -- For one document or more, scores come back only from an answer with as many rows as documents, and there
  -- are as many scores. The score at an index is that of a row with this index, so each index has its row;
  -- and every row has an index and a finite score, which stands there.
  pub score_answer-IsScored :
      (n : ℕ) (a : Answer F) (fs : List F) → score_answer (suc n) a ≡ ok fs → IsScored (suc n) a fs
  unfolding score_answer
  score_answer-IsScored n failed fs e = absurd (cc e)
  score_answer-IsScored n unreadable fs e = absurd (cc e)
  score_answer-IsScored n (rows rs) fs e =
      let (os, h, k) = bind-eq-ok (add_rows rs (no_scores (suc n))) complete e in
      let a = add_rows-AddsAll rs (no_scores (suc n)) os h in
      let (c, l) = count-no_scores (suc n) (no_scores (suc n)) refl in
      let d = complete-Completes os fs k in
      (
        omega (arith, d.as_many, a.all_length, l),
        omega (arith, d.taken, a.all_counted, a.all_length, c, l),
        All-map (λ r i. Placed-IsIn os fs r k i) rs a.all_placed,
        λ i f g. only_rows (suc n) i f (a.all_only i f (d.from_place i f g)),
      )
