-- ===== src/Prelude/Tables/First.antt =====
-- SELECT ... WHERE ... ORDER BY ... LIMIT 1: the row that comes back.
use mathlib.Core.Path.{◌≡◌, refl}
use mathlib.Core.Bool.{Bool, true, false}
use mathlib.Core.Option.{none, some}
use mathlib.Core.Logic.{inl, inr}
use mathlib.Core.List.{List, [], ◌∷◌}
use ledgermind_local.Prelude.Tests.{Bool-cases}
use ledgermind_local.Prelude.Lists.{All}
use ledgermind_local.Prelude.Tables.Defs.{select, order_by, fetchone}
use ledgermind_local.Prelude.Tables.Keys.{Elem, All-Elem, All-select_inv, All-select_test}
use ledgermind_local.Prelude.Tables.Update.{All-select}
use ledgermind_local.Prelude.Tables.Order.{
  IsOrder, FirstLeast, FirstLeast-order_by, All-order_by, All-order_by_inv,
}

-- The row is in the table, passes the test, and no row that passes comes before it.
pub record IsFirst {ℓ} {A : Type ℓ} (before : A → A → Bool) (p : A → Bool) (rows : List A) (c : A)
    : Type ℓ where
  pub member : Elem c rows
  pub passes : p c ≡ true
  pub least : All (λ d. p d ≡ true → before d c ≡ false) rows

module _ {ℓ} {A : Type ℓ} (before : A → A → Bool) (ord : IsOrder before) (p : A → Bool)
    (rows : List A) where
  not_before_self : (c : A) → before c c ≡ false
  not_before_self c = elim (Bool-cases (before c c)) [ inl y ↦ ord.asym c c y | inr n ↦ n ]

  IsFirst-cons :
      (c : A) (rest : List A) → order_by before (select p rows) ≡ c ∷ rest → IsFirst before p rows c
  IsFirst-cons c rest e =
      let found = select p rows in
      let members : All (λ d. Elem d rows) (order_by before found) =
        All-order_by (λ d. Elem d rows) before found
          (All-select (λ d. Elem d rows) p rows (All-Elem rows)) in
      let passing : All (λ d. p d ≡ true) (order_by before found) =
        All-order_by (λ d. p d ≡ true) before found (All-select_test p rows) in
      let firsts : FirstLeast before (order_by before found) =
        FirstLeast-order_by before ord found in
      let members' : All (λ d. Elem d rows) (c ∷ rest) = rw e at members in
      let passing' : All (λ d. p d ≡ true) (c ∷ rest) = rw e at passing in
      let firsts' : FirstLeast before (c ∷ rest) = rw e at firsts in
      let sorted : All (λ d. before d c ≡ false) (order_by before found) =
        rw e (not_before_self c, firsts') in
      record {
        member = members'.0;
        passes = passing'.0;
        least =
            All-select_inv (λ d. before d c ≡ false) p rows
              (All-order_by_inv (λ d. before d c ≡ false) before found sorted);
      }

  pub IsFirst-fetchone :
      (c : A) → fetchone (order_by before (select p rows)) ≡ some c → IsFirst before p rows c
  unfolding fetchone
  IsFirst-fetchone c e = go (order_by before (select p rows)) refl e
    where
      go :
          (sorted : List A)
          → order_by before (select p rows) ≡ sorted
          → fetchone sorted ≡ some c
          → IsFirst before p rows c
      go [] s e = absurd (cc e)
      go (d ∷ rest) s e = let q : d ≡ c = cc e in rw (← q) (IsFirst-cons d rest s)

  none-cons : order_by before (select p rows) ≡ [] → All (λ d. p d ≡ true → ⊥) rows
  none-cons e =
      let empty : All (λ d. ⊥) (order_by before (select p rows)) = rw e tt in
      All-select_inv (λ d. ⊥) p rows (All-order_by_inv (λ d. ⊥) before (select p rows) empty)

  -- Nothing comes back only where no row passes.
  pub none-fetchone :
      fetchone (order_by before (select p rows)) ≡ none → All (λ d. p d ≡ true → ⊥) rows
  unfolding fetchone
  none-fetchone e = go (order_by before (select p rows)) refl e
    where
      go :
          (sorted : List A)
          → order_by before (select p rows) ≡ sorted
          → fetchone sorted ≡ none
          → All (λ d. p d ≡ true → ⊥) rows
      go [] s e = none-cons s
      go (d ∷ rest) s e = absurd (cc e)
