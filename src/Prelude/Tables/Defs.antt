-- ===== src/Prelude/Tables/Defs.antt =====
-- The operations on tables.
use Prim.Native.Nat.{ℕ, suc}
use mathlib.Core.Path.{◌≡◌}
use mathlib.Core.Bool.{Bool, false, ◌||◌}
use mathlib.Core.Option.{Option, none, some}
use mathlib.Core.List.{List, [], ◌∷◌, ◌++◌}
use ledgermind_local.Prelude.Tests.{if◌then◌else◌}
use ledgermind_local.Prelude.Lists.{All}

module _ {ℓ} {A : Type ℓ} where
  unfoldable pub find : (A → Bool) → List A → Option A
  find p [] = none
  find p (x ∷ xs) = if p x then some x else find p xs

  unfoldable pub any : (A → Bool) → List A → Bool
  any p [] = false
  any p (x ∷ xs) = p x || any p xs

  unfoldable pub select : (A → Bool) → List A → List A
  select p [] = []
  select p (x ∷ xs) = let rest = select p xs in if p x then x ∷ rest else rest

  unfoldable pub update_where : (A → Bool) → (A → A) → List A → List A
  update_where p f [] = []
  update_where p f (x ∷ xs) = (if p x then f x else x) ∷ update_where p f xs

  unfoldable pub rowcount : (A → Bool) → List A → ℕ
  rowcount p [] = 0
  rowcount p (x ∷ xs) = let rest = rowcount p xs in if p x then suc rest else rest

  -- `same` tells whether two rows collide on a key; a colliding insert is an IntegrityError.
  unfoldable pub insert_unique : (A → A → Bool) → A → List A → Option (List A)
  insert_unique same row rows = if any (same row) rows then none else some (rows ++ row ∷ [])

  -- No row collides with a later one.
  abbrev pub Distinct : (A → A → Bool) → List A → Type 0
  Distinct same [] = Unit
  Distinct same (x ∷ xs) = All (λ y. same x y ≡ false) xs × Distinct same xs

  unfoldable pub insert_by : (A → A → Bool) → A → List A → List A
  insert_by before x [] = x ∷ []
  insert_by before x (y ∷ ys) = if before y x then y ∷ insert_by before x ys else x ∷ y ∷ ys

  unfoldable pub order_by : (A → A → Bool) → List A → List A
  order_by before [] = []
  order_by before (x ∷ xs) = insert_by before x (order_by before xs)

  -- `cursor.fetchone()` on the rows of a SELECT.
  unfoldable pub fetchone : List A → Option A
  fetchone [] = none
  fetchone (x ∷ xs) = some x
