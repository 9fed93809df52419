-- ===== src/Rerank/Ranked.antt =====
-- What `rank_items` of inference/retrieval_reranker.py gives back.
use mathlib.Core.List.{Perm}
use ledgermind_local.Prelude.{
  ℕ, ◌+◌, Bool, false, List, [], ◌∷◌, map, String, ◌≡◌, refl, length, ◌==◌, ap, All, All-map, ◌≤◌,
  Bool-cases, inl, inr, ==_iff, arith,
}
use ledgermind_local.Prelude.Tables.{order_by, IsOrder, IsSorted, order_by-Perm, order_by-IsSorted}
use ledgermind_local.Rerank.{Result, ok, err, bind-eq-ok, Score, number}
use ledgermind_local.Rerank.Ranking.{
  Entry, finite_scores, finite_cons, entries, has_duplicate, items_of, before, rank_scores,
  rank_items,
}

-- The scores, all finite.
abbrev pub numbers : {F : Type 0} → List F → List (Score F)
numbers [] = []
numbers (f ∷ fs) = number f ∷ numbers fs

module _ {F : Type 0} where
  finite_cons-eq-ok :
      (s : Score F) (m : Result (List F)) (fs : List F)
      → finite_cons s m ≡ ok fs
      → (f : F) × (gs : List F) × (s ≡ number f) × (m ≡ ok gs) × (fs ≡ f ∷ gs)
  finite_cons-eq-ok (number f) (ok gs) fs e = (f, gs, refl, refl, cc e)
  finite_cons-eq-ok (number f) (err p) fs e = absurd (cc e)
  finite_cons-eq-ok Score.infinite_or_nan m fs e = absurd (cc e)
  finite_cons-eq-ok Score.not_a_number m fs e = absurd (cc e)

  finite_scores-eq-ok :
      (ss : List (Score F)) (fs : List F) → finite_scores ss ≡ ok fs → ss ≡ numbers fs
  unfolding finite_scores
  finite_scores-eq-ok [] fs e = let same : [] ≡ fs = cc e in rw (← same) refl
  finite_scores-eq-ok (s ∷ ss) fs e =
      let (f, gs, p, q, r) = finite_cons-eq-ok s (finite_scores ss) fs e in
      rw (r, p, finite_scores-eq-ok ss gs q) refl

  length-numbers : (fs : List F) → length (numbers fs) ≡ length fs
  length-numbers [] = refl
  length-numbers (f ∷ fs) = omega (arith, length-numbers fs)

module _ {A F : Type 0} where
  items_of-entries :
      (i : ℕ) (xs : List A) (fs : List F) → length fs ≡ length xs → items_of (entries i xs fs) ≡ xs
  unfolding entries
  items_of-entries i [] fs h = refl
  items_of-entries i (x ∷ xs) [] h = absurd (omega (arith, h))
  items_of-entries i (x ∷ xs) (f ∷ fs) h =
      rw (items_of-entries (i + 1) xs fs (omega (arith, h))) refl

  -- The score of the first entry is not the smaller one, and of equal ones the first has the lower index.
  abbrev pub InOrder : (F → F → Bool) → Entry A F → Entry A F → Type 0
  InOrder less d e =
      (less d.score e.score ≡ false) × (less e.score d.score ≡ false → d.index ≤ e.index)

  abbrev pub IsOrdered : (F → F → Bool) → List (Entry A F) → Type 0
  IsOrdered less [] = Unit {0}
  IsOrdered less (e ∷ es) = All (InOrder less e) es × IsOrdered less es

  IsSorted-IsOrdered :
      (less : F → F → Bool) (es : List (Entry A F)) → IsSorted (before less) es → IsOrdered less es
  unfolding before
  IsSorted-IsOrdered less [] h = tt
  IsSorted-IsOrdered less (e ∷ es) h = (
    All-map (λ z k. (ground (arith, k), λ n. ground (arith, k, n))) es h.0,
    IsSorted-IsOrdered less es h.1,
  )

  -- The items of the sorted entries: those of a list of finite scores for the items, each entry with the
  -- item, the score and the index of the same place, sorted by falling score and, among equal ones, by index.
  pub record IsRanking (less : F → F → Bool) (xs : List A) (ss : List (Score F)) (out : List A)
      : Type 0 where
    pub scores : List F
    pub finite : ss ≡ numbers scores
    pub as_many : length scores ≡ length xs
    pub ranked : List (Entry A F)
    pub same_entries : Perm (entries 0 xs scores) ranked
    pub same_items : items_of (entries 0 xs scores) ≡ xs
    pub ordered : IsOrdered less ranked
    pub out_is : out ≡ items_of ranked

  module _ (less : F → F → Bool) (ord : IsOrder less) where
    before-IsOrder : IsOrder (before {A = A} less)
    unfolding before
    before-IsOrder = record {
      asym = λ a b h.
          let (s, t) : F × F = (a.score, b.score) in ground (arith, h, ord.asym s t, ord.asym t s);
      not_before_trans = λ a b c h k.
          let (s, t, u) : F × F × F = (a.score, b.score, c.score) in
          ground (
            arith,
            h,
            k,
            ord.not_before_trans u t s,
            ord.not_before_trans s u t,
            ord.not_before_trans t s u,
          );
    }

    rank_scores-IsRanking :
        (xs : List A) (ss : List (Score F)) (out : List A)
        → rank_scores less xs ss ≡ ok out
        → IsRanking less xs ss out
    unfolding rank_scores
    rank_scores-IsRanking xs ss out e = elim (Bool-cases (length ss == length xs)) [
      | inr f ↦ absurd (cc (rw f at e))
      | inl y ↦
          let (fs, h, k) =
            bind-eq-ok (finite_scores ss)
              (λ fs. ok (items_of (order_by (before less) (entries 0 xs fs)))) (rw y at e) in
          let p = finite_scores-eq-ok ss fs h in
          let n : length fs ≡ length xs = omega (
            arith,
            length-numbers fs,
            ap (λ (zs : List (Score F)). length zs) p,
            (==_iff (length ss) (length xs)).0 y,
          ) in
          record {
            scores = fs;
            finite = p;
            as_many = n;
            ranked = order_by (before less) (entries 0 xs fs);
            same_entries = order_by-Perm (before less) (entries 0 xs fs);
            same_items = items_of-entries 0 xs fs n;
            ordered =
                IsSorted-IsOrdered less (order_by (before less) (entries 0 xs fs))
                  (order_by-IsSorted (before less) before-IsOrder (entries 0 xs fs));
            out_is = cc k;
          }
    ]

    -- When a ranking comes back, the identifiers of the candidates differ, the scorer gave for their
    -- documents, in their order, one finite score each, and what comes back are the candidates, each
    -- exactly once, by falling score, and in their old order among equal scores. The condition: the order
    -- of the floats is a strict weak order, as it is on finite ones.
    pub rank_items-IsRanking :
        (value_id document : A → String) (scorer : List String → Result (List (Score F)))
        (xs out : List A)
        → rank_items less value_id document scorer xs ≡ ok out
        → (has_duplicate (map value_id xs) ≡ false)
          × ((ss : List (Score F)) × (scorer (map document xs) ≡ ok ss) × IsRanking less xs ss out)
    unfolding rank_items
    rank_items-IsRanking value_id document scorer xs out e =
        elim (Bool-cases (has_duplicate (map value_id xs))) [
          | inl y ↦ absurd (cc (rw y at e))
          | inr f ↦
              let (ss, h, k) =
                bind-eq-ok (scorer (map document xs)) (rank_scores less xs) (rw f at e) in
              (f, (ss, h, rank_scores-IsRanking xs ss out k))
        ]
