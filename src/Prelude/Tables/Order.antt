-- ===== src/Prelude/Tables/Order.antt =====
-- ORDER BY: the sorted rows are the rows, and the first of them comes before all others.
use mathlib.Core.Path.{◌≡◌}
use mathlib.Core.Bool.{Bool, true, false}
use mathlib.Core.Logic.{inl, inr}
use mathlib.Core.List.{List, [], ◌∷◌, Perm}
use mathlib.Core.List.Perm
use ledgermind_local.Prelude.Tests.{Bool-cases, if-both}
use ledgermind_local.Prelude.Lists.{All, All-map}
use ledgermind_local.Prelude.Tables.Defs.{insert_by, order_by}

module _ {ℓ κ} {A : Type ℓ} (P : A → Type κ) (before : A → A → Bool) where
  All-insert_by : (x : A) (xs : List A) → P x → All P xs → All P (insert_by before x xs)
  unfolding insert_by
  All-insert_by x [] px h = (px, tt)
  All-insert_by x (y ∷ ys) px h = elim (Bool-cases (before y x)) [
    | inl b ↦ rw b (h.0, All-insert_by x ys px h.1)
    | inr b ↦ rw b (px, h)
  ]

  pub All-order_by : (xs : List A) → All P xs → All P (order_by before xs)
  unfolding order_by
  All-order_by [] h = tt
  All-order_by (x ∷ xs) h = All-insert_by x (order_by before xs) h.0 (All-order_by xs h.1)

  All-insert_by_inv : (x : A) (xs : List A) → All P (insert_by before x xs) → P x × All P xs
  unfolding insert_by
  All-insert_by_inv x [] h = (h.0, tt)
  All-insert_by_inv x (y ∷ ys) h = elim (Bool-cases (before y x)) [
    | inl b ↦
        let k : All P (y ∷ insert_by before x ys) = rw b at h in
        ((All-insert_by_inv x ys k.1).0, (k.0, (All-insert_by_inv x ys k.1).1))
    | inr b ↦ let k : All P (x ∷ y ∷ ys) = rw b at h in (k.0, k.1)
  ]

  pub All-order_by_inv : (xs : List A) → All P (order_by before xs) → All P xs
  unfolding order_by
  All-order_by_inv [] h = tt
  All-order_by_inv (x ∷ xs) h =
      let k = All-insert_by_inv x (order_by before xs) h in (k.0, All-order_by_inv xs k.1)

-- `before` is the strict order of an ORDER BY clause.
pub record IsOrder {ℓ} {A : Type ℓ} (before : A → A → Bool) : Type ℓ where
  pub asym : (a b : A) → before a b ≡ true → before b a ≡ false
  pub not_before_trans : (a b c : A) → before b a ≡ false → before c b ≡ false → before c a ≡ false

-- No later row comes before the first.
abbrev pub FirstLeast {ℓ} : {A : Type ℓ} → (A → A → Bool) → List A → Type 0
FirstLeast before [] = Unit
FirstLeast before (y ∷ ys) = All (λ z. before z y ≡ false) ys

module _ {ℓ} {A : Type ℓ} (before : A → A → Bool) (ord : IsOrder before) where
  FirstLeast-insert_by :
      (x : A) (xs : List A) → FirstLeast before xs → FirstLeast before (insert_by before x xs)
  unfolding insert_by
  FirstLeast-insert_by x [] h = tt
  FirstLeast-insert_by x (y ∷ ys) h = elim (Bool-cases (before y x)) [
    | inl b ↦ rw b (All-insert_by (λ z. before z y ≡ false) before x ys (ord.asym y x b) h)
    | inr b ↦ rw b (b, All-map (λ z k. ord.not_before_trans x y z b k) ys h)
  ]

  pub FirstLeast-order_by : (xs : List A) → FirstLeast before (order_by before xs)
  unfolding order_by
  FirstLeast-order_by [] = tt
  FirstLeast-order_by (x ∷ xs) =
      FirstLeast-insert_by x (order_by before xs) (FirstLeast-order_by xs)

-- Every row comes before none of the rows above it.
abbrev pub IsSorted {ℓ} : {A : Type ℓ} → (A → A → Bool) → List A → Type 0
IsSorted before [] = Unit
IsSorted before (y ∷ ys) = All (λ z. before z y ≡ false) ys × IsSorted before ys

module _ {ℓ} {A : Type ℓ} (before : A → A → Bool) where
  insert_by-Perm : (x : A) (xs : List A) → Perm (x ∷ xs) (insert_by before x xs)
  unfolding insert_by
  insert_by-Perm x [] = Perm.refl (x ∷ [])
  insert_by-Perm x (y ∷ ys) =
      if-both (Perm (x ∷ y ∷ ys)) (before y x)
        (Perm.trans (Perm.swap y x ys) (Perm.cons y (insert_by-Perm x ys))) (Perm.refl (x ∷ y ∷ ys))

  pub order_by-Perm : (xs : List A) → Perm xs (order_by before xs)
  unfolding order_by
  order_by-Perm [] = Perm.refl []
  order_by-Perm (x ∷ xs) =
      Perm.trans (Perm.cons x (order_by-Perm xs)) (insert_by-Perm x (order_by before xs))

  module _ (ord : IsOrder before) where
    insert_by-IsSorted :
        (x : A) (xs : List A) → IsSorted before xs → IsSorted before (insert_by before x xs)
    unfolding insert_by
    insert_by-IsSorted x [] h = (tt, tt)
    insert_by-IsSorted x (y ∷ ys) h = elim (Bool-cases (before y x)) [
      | inl b ↦ rw b (
        All-insert_by (λ z. before z y ≡ false) before x ys (ord.asym y x b) h.0,
        insert_by-IsSorted x ys h.1,
      )
      | inr b ↦ rw b ((b, All-map (λ z k. ord.not_before_trans x y z b k) ys h.0), h)
    ]

    pub order_by-IsSorted : (xs : List A) → IsSorted before (order_by before xs)
    unfolding order_by
    order_by-IsSorted [] = tt
    order_by-IsSorted (x ∷ xs) = insert_by-IsSorted x (order_by before xs) (order_by-IsSorted xs)
