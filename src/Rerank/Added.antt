-- ===== src/Rerank/Added.antt =====
-- What the loop of `ApiReranker.score` in inference/retrieval_reranker.py puts where.
use ledgermind_local.Prelude.{
  ℕ, zero, suc, ◌+◌, true, Option, none, some, List, [], ◌∷◌, ◌≡◌, refl, length, All, arith,
  Bool-cases, inl, inr, ◌⊎◌, sym,
}
use ledgermind_local.Prelude.Tables.{Elem, here, there}
use ledgermind_local.Rerank.{
  ok, bind-eq-ok, Score, number, infinite_or_nan, not_a_number, at, negative, not_an_int, Row,
  result, not_a_mapping,
}
use ledgermind_local.Rerank.Scores.{is_free, set_score, place, add_row, add_rows}

unfoldable pub get_elem? {ℓ} : {A : Type ℓ} → List A → ℕ → Option A
get_elem? [] i = none
get_elem? (x ∷ xs) zero = some x
get_elem? (x ∷ xs) (suc i) = get_elem? xs i

next_place :
    {F : Type 0} (i j : ℕ) (f g : F) (T : Type 0)
    → T ⊎ ((j ≡ i) × (f ≡ g))
    → T ⊎ ((suc j ≡ suc i) × (f ≡ g))
next_place i j f g T (inl t) = inl t
next_place i j f g T (inr (p, q)) = inr (omega (arith, p), q)

module _ {F : Type 0} where
  -- The row's score is among the scores so far, at its index.
  abbrev pub Placed : List (Option F) → Row F → Type 0
  Placed os (result (at i) (number f)) = get_elem? os i ≡ some (some f)
  Placed os _ = ⊥

  -- How many scores there are.
  abbrev pub one : Option F → ℕ
  one none = 0
  one (some f) = 1

  unfoldable pub count : List (Option F) → ℕ
  count [] = 0
  count (o ∷ os) = one o + count os

  -- Scores stay where they are.
  unfoldable pub Grows : List (Option F) → List (Option F) → Type 0
  Grows os qs = (i : ℕ) (f : F) → get_elem? os i ≡ some (some f) → get_elem? qs i ≡ some (some f)

  set_score-get :
      (os : List (Option F)) (i : ℕ) (f : F)
      → is_free os i ≡ true
      → get_elem? (set_score os i f) i ≡ some (some f)
  unfolding is_free set_score get_elem?
  set_score-get [] i f h = absurd (cc h)
  set_score-get (none ∷ os) zero f h = refl
  set_score-get (some g ∷ os) zero f h = absurd (cc h)
  set_score-get (none ∷ os) (suc i) f h = set_score-get os i f h
  set_score-get (some g ∷ os) (suc i) f h = set_score-get os i f h

  set_score-Grows :
      (os : List (Option F)) (i : ℕ) (f : F) → is_free os i ≡ true → Grows os (set_score os i f)
  unfolding is_free set_score get_elem? Grows
  set_score-Grows [] i f h j g e = absurd (cc h)
  set_score-Grows (none ∷ os) zero f h zero g e = absurd (cc e)
  set_score-Grows (none ∷ os) zero f h (suc j) g e = e
  set_score-Grows (some k ∷ os) zero f h j g e = absurd (cc h)
  set_score-Grows (o ∷ os) (suc i) f h zero g e = e
  set_score-Grows (none ∷ os) (suc i) f h (suc j) g e = set_score-Grows os i f h j g e
  set_score-Grows (some k ∷ os) (suc i) f h (suc j) g e = set_score-Grows os i f h j g e

  set_score_counts :
      (os : List (Option F)) (i : ℕ) (f : F)
      → is_free os i ≡ true
      → (count (set_score os i f) ≡ suc (count os)) × (length (set_score os i f) ≡ length os)
  unfolding is_free set_score count
  set_score_counts [] i f h = absurd (cc h)
  set_score_counts (none ∷ os) zero f h = (omega arith, refl)
  set_score_counts (some k ∷ os) zero f h = absurd (cc h)
  set_score_counts (none ∷ os) (suc i) f h =
      let (c, l) = set_score_counts os i f h in (omega (arith, c), omega (arith, l))
  set_score_counts (some k ∷ os) (suc i) f h =
      let (c, l) = set_score_counts os i f h in (omega (arith, c), omega (arith, l))

  -- A score that is there was there before, or is that of the row.
  Only : Row F → List (Option F) → List (Option F) → Type 0
  Only r os qs =
      (i : ℕ) (f : F)
      → get_elem? qs i ≡ some (some f)
      → (get_elem? os i ≡ some (some f)) ⊎ (r ≡ result (at i) (number f))

  set_score-Only :
      (os : List (Option F)) (i : ℕ) (f : F)
      → is_free os i ≡ true
      → (j : ℕ) (g : F) → get_elem? (set_score os i f) j ≡ some (some g)
      → (get_elem? os j ≡ some (some g)) ⊎ ((j ≡ i) × (f ≡ g))
  unfolding is_free set_score get_elem?
  set_score-Only [] i f h j g e = absurd (cc h)
  set_score-Only (none ∷ os) zero f h zero g e = inr (refl, cc e)
  set_score-Only (none ∷ os) zero f h (suc j) g e = inl e
  set_score-Only (some k ∷ os) zero f h j g e = absurd (cc h)
  set_score-Only (o ∷ os) (suc i) f h zero g e = inl e
  set_score-Only (none ∷ os) (suc i) f h (suc j) g e =
      next_place i j f g (get_elem? os j ≡ some (some g)) (set_score-Only os i f h j g e)
  set_score-Only (some k ∷ os) (suc i) f h (suc j) g e =
      next_place i j f g (get_elem? os j ≡ some (some g)) (set_score-Only os i f h j g e)

  -- What a turn of the loop that goes on has done.
  record Adds (r : Row F) (os qs : List (Option F)) : Type 0 where
    placed : Placed qs r
    only : Only r os qs
    grows : Grows os qs
    counted : count qs ≡ suc (count os)
    same_length : length qs ≡ length os

  of_row :
      {T : Type 0} {i j : ℕ} {f g : F}
      → T ⊎ ((j ≡ i) × (f ≡ g))
      → T ⊎ (◌≡◌ {A = Row F} (result (at i) (number f)) (result (at j) (number g)))
  of_row (inl t) = inl t
  of_row (inr (p, q)) = inr (rw (p, q) refl)

  place-Adds :
      (i : ℕ) (s : Score F) (os qs : List (Option F))
      → is_free os i ≡ true
      → place os i s ≡ ok qs
      → Adds (result (at i) s) os qs
  unfolding Only
  place-Adds i (number f) os qs h e =
      let same : set_score os i f ≡ qs = cc e in
      rw (← same) (record {
        placed = set_score-get os i f h;
        only = λ j g k. of_row (set_score-Only os i f h j g k);
        grows = set_score-Grows os i f h;
        counted = (set_score_counts os i f h).0;
        same_length = (set_score_counts os i f h).1;
      })
  place-Adds i infinite_or_nan os qs h e = absurd (cc e)
  place-Adds i not_a_number os qs h e = absurd (cc e)

  add_row-Adds : (r : Row F) (os qs : List (Option F)) → add_row r os ≡ ok qs → Adds r os qs
  unfolding add_row
  add_row-Adds not_a_mapping os qs e = absurd (cc e)
  add_row-Adds (result not_an_int s) os qs e = absurd (cc e)
  add_row-Adds (result negative s) os qs e = absurd (cc e)
  add_row-Adds (result (at i) s) os qs e = elim (Bool-cases (is_free os i)) [
    | inl y ↦ place-Adds i s os qs y (rw y at e)
    | inr n ↦ absurd (cc (rw n at e))
  ]

  Placed-Grows : (r : Row F) (os qs : List (Option F)) → Grows os qs → Placed os r → Placed qs r
  unfolding Grows
  Placed-Grows (result (at i) (number f)) os qs g h = g i f h
  Placed-Grows (result (at i) infinite_or_nan) os qs g h = absurd h
  Placed-Grows (result (at i) not_a_number) os qs g h = absurd h
  Placed-Grows (result negative s) os qs g h = absurd h
  Placed-Grows (result not_an_int s) os qs g h = absurd h
  Placed-Grows not_a_mapping os qs g h = absurd h

  -- What the whole loop has done.
  pub record AddsAll (rs : List (Row F)) (os qs : List (Option F)) : Type 0 where
    pub all_placed : All (Placed qs) rs
    pub all_grow : Grows os qs
    pub all_only :
        (i : ℕ) (f : F)
        → get_elem? qs i ≡ some (some f)
        → (get_elem? os i ≡ some (some f)) ⊎ Elem (result (at i) (number f)) rs
    pub all_counted : count qs ≡ count os + length rs
    pub all_length : length qs ≡ length os

  later :
      (r : Row F) (rs : List (Row F)) (os ps : List (Option F)) (i : ℕ) (f : F)
      → Only r os ps
      → (get_elem? ps i ≡ some (some f)) ⊎ Elem (result (at i) (number f)) rs
      → (get_elem? os i ≡ some (some f)) ⊎ Elem (result (at i) (number f)) (r ∷ rs)
  unfolding Only
  later r rs os ps i f only (inr m) = inr (there m)
  later r rs os ps i f only (inl h) = elim (only i f h) [
    | inl before ↦ inl before
    | inr same ↦ inr (here (sym same))
  ]

  add_rows-step :
      (r : Row F) (rs : List (Row F)) (os ps qs : List (Option F))
      → Adds r os ps
      → AddsAll rs ps qs
      → AddsAll (r ∷ rs) os qs
  unfolding Grows Only
  add_rows-step r rs os ps qs a b = record {
    all_placed = (Placed-Grows r ps qs b.all_grow a.placed, b.all_placed);
    all_grow = λ i f h. b.all_grow i f (a.grows i f h);
    all_only = λ i f h. later r rs os ps i f a.only (b.all_only i f h);
    all_counted = omega (arith, a.counted, b.all_counted);
    all_length = omega (arith, a.same_length, b.all_length);
  }

  pub add_rows-AddsAll :
      (rs : List (Row F)) (os qs : List (Option F)) → add_rows rs os ≡ ok qs → AddsAll rs os qs
  unfolding add_rows Grows
  add_rows-AddsAll [] os qs e =
      let same : os ≡ qs = cc e in
      rw (← same) (record {
        all_placed = tt;
        all_grow = λ i f h. h;
        all_only = λ i f h. inl h;
        all_counted = omega arith;
        all_length = refl;
      })
  add_rows-AddsAll (r ∷ rs) os qs e =
      let (ps, h, k) = bind-eq-ok (add_row r os) (add_rows rs) e in
      add_rows-step r rs os ps qs (add_row-Adds r os ps h) (add_rows-AddsAll rs ps qs k)
