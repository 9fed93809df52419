-- ===== src/Rerank/Packed.antt =====
-- What `pack_items` of inference/retrieval_reranker.py selects.
use mathlib.Core.List.{append_assoc, append-nil}
use ledgermind_local.Prelude.{
  ℕ, ◌≤◌, true, ◌||◌, Option, none, some, List, [], ◌∷◌, ◌++◌, ◌≡◌, refl, ◌∙◌, ◌⊎◌, inl, inr, ltb,
  leb, leb→le, take, drop, Bool-cases, sym, arith,
}
use ledgermind_local.Rerank.{ok, bind-eq-ok}
use ledgermind_local.Rerank.Ranking.{try_item, pack_loop, with_count, pack_items}

-- Some of the elements, in their order.
pub data Sub {A : Type 0} : List A → List A → Type 0 where
  end : Sub [] []
  keep : {x : A} {xs ys : List A} → Sub xs ys → Sub (x ∷ xs) (x ∷ ys)
  skip : {x : A} {xs ys : List A} → Sub xs ys → Sub xs (x ∷ ys)

module _ {A : Type 0} (tokens : List A → Option ℕ) where
  -- The first items, then some of the others; beyond the first ones only within the budget.
  pub record Packs (budget : ℕ) (first others selected : List A) : Type 0 where
    pub added : List A
    pub splits : selected ≡ first ++ added
    pub from_others : Sub added others
    pub within : (selected ≡ first) ⊎ ((n : ℕ) × (tokens selected ≡ some n) × (n ≤ budget))

  Packs-cons :
      (budget : ℕ) (first : List A) (item : A) (items selected : List A) (n : ℕ)
      → tokens (first ++ item ∷ []) ≡ some n
      → leb n budget ≡ true
      → Packs budget (first ++ item ∷ []) items selected
      → Packs budget first (item ∷ items) selected
  Packs-cons budget first item items selected n t b p = record {
    added = item ∷ p.added;
    splits = p.splits ∙ append_assoc first (item ∷ []) p.added;
    from_others = keep p.from_others;
    within = inr (by_last p.within);
  }
    where
      by_last :
          (selected ≡ first ++ item ∷ []) ⊎ ((m : ℕ) × (tokens selected ≡ some m) × (m ≤ budget))
          → (m : ℕ) × (tokens selected ≡ some m) × (m ≤ budget)
      by_last (inl e) = (n, rw e t, leb→le n budget b)
      by_last (inr w) = w

  try_item-Packs :
      (budget : ℕ) (first : List A) (item : A) (items selected : List A)
      → ((chosen : List A)
          → pack_loop tokens budget chosen items ≡ ok selected
          → Packs budget chosen items selected)
      → (o : Option ℕ) → tokens (first ++ item ∷ []) ≡ o
      → try_item tokens budget first item (λ chosen. pack_loop tokens budget chosen items) o
        ≡ ok selected
      → Packs budget first (item ∷ items) selected
  try_item-Packs budget first item items selected later none t e = absurd (cc e)
  try_item-Packs budget first item items selected later (some n) t e =
      elim (Bool-cases (leb n budget)) [
        | inl y ↦
            Packs-cons budget first item items selected n t y
              (later (first ++ item ∷ []) (rw y at e))
        | inr f ↦ Packs_skip (later first (rw f at e))
      ]
    where
      Packs_skip : Packs budget first items selected → Packs budget first (item ∷ items) selected
      Packs_skip p = record {
        added = p.added;
        splits = p.splits;
        from_others = skip p.from_others;
        within = p.within;
      }

  pack_loop-Packs :
      (budget : ℕ) (first items selected : List A)
      → pack_loop tokens budget first items ≡ ok selected
      → Packs budget first items selected
  unfolding pack_loop
  pack_loop-Packs budget first [] selected e =
      let same : first ≡ selected = cc e in
      record {
        added = [];
        splits = sym same ∙ sym (append-nil first);
        from_others = end;
        within = inl (sym same);
      }
  pack_loop-Packs budget first (item ∷ items) selected e =
      try_item-Packs budget first item items selected
        (λ chosen h. pack_loop-Packs budget chosen items selected h) (tokens (first ++ item ∷ []))
        refl e

  with_count-eq-ok :
      (xs selected : List A) (o : Option ℕ) (n : ℕ)
      → with_count tokens xs o ≡ ok (selected, n)
      → (xs ≡ selected) × (o ≡ some n)
  with_count-eq-ok xs selected none n e = absurd (cc e)
  with_count-eq-ok xs selected (some m) n e = (cc e, cc e)

  -- What `pack_items` selects is the first `min_k` items and then some of the others, in their order; the
  -- count that comes with it is that of the injection of exactly these items, and it is within the budget
  -- unless nothing was taken beyond the first items. The two bounds are at least 1.
  pub pack_items-Packs :
      (min_k budget : ℕ) (items selected : List A) (n : ℕ)
      → pack_items tokens min_k budget items ≡ ok (selected, n)
      → Packs budget (take min_k items) (drop min_k items) selected
        × (tokens selected ≡ some n)
        × (1 ≤ min_k)
        × (1 ≤ budget)
        × ((selected ≡ take min_k items) ⊎ (n ≤ budget))
  unfolding pack_items
  pack_items-Packs min_k budget items selected n e =
      elim (Bool-cases (ltb min_k 1 || ltb budget 1)) [
        | inl y ↦ absurd (cc (rw y at e))
        | inr f ↦
            let (xs, h, k) =
              bind-eq-ok (pack_loop tokens budget (take min_k items) (drop min_k items))
                (λ xs. with_count tokens xs (tokens xs)) (rw f at e) in
            let (same, t) = with_count-eq-ok xs selected (tokens xs) n k in
            let t' : tokens selected ≡ some n = rw (← same) t in
            let p =
              pack_loop-Packs budget (take min_k items) (drop min_k items) selected
                (rw (← same) h) in
            (p, t', ground (arith, f), ground (arith, f), counted t' p.within)
      ]
    where
      counted :
          tokens selected ≡ some n
          → (selected ≡ take min_k items) ⊎ ((m : ℕ) × (tokens selected ≡ some m) × (m ≤ budget))
          → (selected ≡ take min_k items) ⊎ (n ≤ budget)
      counted t (inl h) = inl h
      counted t (inr (m, h, k)) = let same : m ≡ n = cc (h, t) in inr (rw (← same) k)
