-- ===== src/Prelude/Tables/Keys.antt =====
-- Rows under a key: at most one row has it, `find` finds that row, and an UPDATE counts it.
use Prim.Native.Nat.{◌≤◌}
use mathlib.Core.Path.{◌∙◌, ◌≡◌, refl, sym, subst}
use mathlib.Core.Logic.{inl, inr}
use mathlib.Core.Bool.{Bool, true, false}
use mathlib.Core.Option.{none, some}
use mathlib.Core.List.{◌++◌, List, [], ◌∷◌}
use native.Mathlib.Omega.{arith}
use ledgermind_local.Prelude.Tests.{Bool-cases}
use ledgermind_local.Prelude.Lists.{All, All-map}
use ledgermind_local.Prelude.Tables.Update.{
  any-false, find-none_of_All, find-append_none, find-append_some,
}
use ledgermind_local.Prelude.Tables.Defs.{any, insert_unique, find, rowcount, select, Distinct}

module _ {ℓ} {A : Type ℓ} where
  -- The row stands in the table.
  pub data Elem (a : A) : List A → Type ℓ where
    here : {x : A} {xs : List A} → a ≡ x → Elem a (x ∷ xs)
    there : {x : A} {xs : List A} → Elem a xs → Elem a (x ∷ xs)

  pub All-Elem : (xs : List A) → All (λ a. Elem a xs) xs
  All-Elem [] = tt
  All-Elem (x ∷ xs) = (here refl, All-map (λ a e. there e) xs (All-Elem xs))

  pub Elem-All {κ} : (P : A → Type κ) (a : A) {xs : List A} → Elem a xs → All P xs → P a
  Elem-All P a (here e) h = subst P (sym e) h.0
  Elem-All P a (there e) h = Elem-All P a e h.1

  pub find-Elem : (p : A → Bool) (xs : List A) {a : A} → find p xs ≡ some a → Elem a xs
  unfolding find
  find-Elem p [] h = absurd (cc h)
  find-Elem p (x ∷ xs) {a} h = elim (Bool-cases (p x)) [
    | inl y ↦ here (ground arith)
    | inr n ↦ there (find-Elem p xs (ground arith))
  ]

  pub All-select_inv {κ} :
      (P : A → Type κ) (p : A → Bool) (xs : List A)
      → All P (select p xs)
      → All (λ x. p x ≡ true → P x) xs
  unfolding select
  All-select_inv P p [] h = tt
  All-select_inv P p (x ∷ xs) h = elim (Bool-cases (p x)) [
    | inl y ↦ let k : All P (x ∷ select p xs) = rw y at h in (λ _. k.0, All-select_inv P p xs k.1)
    | inr n ↦
        let k : All P (select p xs) = rw n at h in
        (λ e. absurd (cc (n, e)), All-select_inv P p xs k)
  ]

  pub All-select_test : (p : A → Bool) (xs : List A) → All (λ x. p x ≡ true) (select p xs)
  unfolding select
  All-select_test p [] = tt
  All-select_test p (x ∷ xs) = elim (Bool-cases (p x)) [
    | inl y ↦ rw y (y, All-select_test p xs)
    | inr n ↦ rw n (All-select_test p xs)
  ]

  pub rowcount-zero : (p : A → Bool) (xs : List A) → All (λ x. p x ≡ false) xs → rowcount p xs ≡ 0
  unfolding rowcount
  rowcount-zero p [] h = refl
  rowcount-zero p (x ∷ xs) h = ground (arith, rowcount-zero p xs h.1)

-- `key` tests for one key of the rows that `same` keeps apart.
module _ {ℓ} {A : Type ℓ} (same : A → A → Bool) (key : A → Bool)
    (collide : (a b : A) → key a ≡ true → key b ≡ true → same a b ≡ true) where
  others :
      (a : A) (xs : List A)
      → key a ≡ true
      → All (λ y. same a y ≡ false) xs
      → All (λ y. key y ≡ false) xs
  others a xs k =
      All-map
        (λ y d. elim (Bool-cases (key y)) [ inl e ↦ absurd (cc (collide a y k e, d)) | inr n ↦ n ])
        xs

  not_later :
      (x a : A) {xs : List A}
      → key x ≡ true
      → key a ≡ true
      → All (λ y. same x y ≡ false) xs
      → Elem a xs
      → ⊥
  not_later x a kx ka d e = cc (Elem-All (λ y. same x y ≡ false) a e d, collide x a kx ka)

  -- The row under the key is the one that `find` returns.
  pub find-of_Elem :
      (a : A) {xs : List A} → Distinct same xs → Elem a xs → key a ≡ true → find key xs ≡ some a
  unfolding find
  find-of_Elem a d (here e) k = ground arith
  find-of_Elem a d (there {x = x} {xs = xs} e) k = elim (Bool-cases (key x)) [
    | inl y ↦ absurd (not_later x a y k d.0 e)
    | inr n ↦ rw n (find-of_Elem a d.1 e k)
  ]

  -- No other row has the key.
  pub All-key :
      (a : A) {xs : List A}
      → Distinct same xs
      → Elem a xs
      → key a ≡ true
      → All (λ y. key y ≡ true → y ≡ a) xs
  All-key a d (here {x = x} {xs = xs} e) k =
      (λ _. sym e, All-map (λ y n h. absurd (cc (n, h))) xs (others x xs (ground arith) d.0))
  All-key a d (there {x = x} {xs = xs} e) k =
      (λ y. absurd (not_later x a y k d.0 e), All-key a d.1 e k)

  -- An UPDATE under the key changes at most one row, and the row under the key if its test holds.
  pub rowcount-key :
      (p : A → Bool)
      → ((b : A) → p b ≡ true → key b ≡ true)
      → (xs : List A) → Distinct same xs
      → rowcount p xs ≤ 1
  unfolding rowcount
  rowcount-key p sub [] d = omega arith
  rowcount-key p sub (x ∷ xs) d = elim (Bool-cases (p x)) [
    | inl y ↦
        let z : rowcount p xs ≡ 0 = rowcount-zero p xs (
          All-map (λ b n. elim (Bool-cases (p b)) [ inl e ↦ absurd (cc (sub b e, n)) | inr f ↦ f ])
            xs (others x xs (sub x y) d.0)) in
        ground arith
    | inr n ↦ ground (arith, rowcount-key p sub xs d.1)
  ]

  pub rowcount-of_Elem :
      (p : A → Bool)
      → ((b : A) → p b ≡ true → key b ≡ true)
      → (a : A) {xs : List A} → Distinct same xs
      → Elem a xs
      → p a ≡ true
      → rowcount p xs ≡ 1
  unfolding rowcount
  rowcount-of_Elem p sub a d (here {x = x} {xs = xs} e) k =
      ground (arith, rowcount-key p sub (x ∷ xs) d)
  rowcount-of_Elem p sub a d (there {x = x} {xs = xs} e) k =
      ground (arith, rowcount-of_Elem p sub a d.1 e k, rowcount-key p sub (x ∷ xs) d)

-- `find` after an accepted insert.
module _ {ℓ} {A : Type ℓ} (same : A → A → Bool) (row : A) (xs : List A) {ys : List A}
    (accepted : insert_unique same row xs ≡ some ys) where
  pub insert_unique-eq : (ys ≡ xs ++ row ∷ []) × (any (same row) xs ≡ false)
  unfolding insert_unique
  insert_unique-eq = ground arith

  pub find-insert_unique_none :
      (q : A → Bool) → find q xs ≡ none → q row ≡ true → find q ys ≡ some row
  find-insert_unique_none q e k =
      rw insert_unique-eq.0 (find-append_none q xs (row ∷ []) e ∙ unfold find in ground (arith, k))

  pub find-insert_unique_some : (q : A → Bool) (a : A) → find q xs ≡ some a → find q ys ≡ some a
  find-insert_unique_some q a e = rw insert_unique-eq.0 (find-append_some q xs (row ∷ []) e)

  -- The inserted row is found under its key, which no other row has.
  pub find-insert_unique :
      (q : A → Bool)
      → ((x : A) → q x ≡ true → same row x ≡ true)
      → q row ≡ true
      → find q ys ≡ some row
  find-insert_unique q key k =
      find-insert_unique_none q
        (find-none_of_All q xs (
          All-map (λ x d. elim (Bool-cases (q x)) [ inl y ↦ absurd (cc (key x y, d)) | inr n ↦ n ])
            xs (any-false (same row) xs insert_unique-eq.1)))
        k
