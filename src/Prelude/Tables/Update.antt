-- ===== src/Prelude/Tables/Update.antt =====
-- Laws of find, update and insert.
use mathlib.Core.Path.{◌≡◌, refl, ◌∙◌}
use mathlib.Core.Logic.{inl, inr}
use mathlib.Core.Bool.{Bool, true, false}
use mathlib.Core.Option.{none, some}
use mathlib.Core.List.{List, [], ◌∷◌, ◌++◌}
use native.Mathlib.Omega.{arith}
use ledgermind_local.Prelude.Tests.{if◌then◌else◌, Bool-cases}
use ledgermind_local.Prelude.Lists.{All, All-append}
use ledgermind_local.Prelude.Tables.Defs.{
  find, any, update_where, rowcount, insert_unique, Distinct, select,
}

module _ {ℓ} {A : Type ℓ} where
  -- What `find` returns passes the test.
  pub find_sound : (p : A → Bool) (xs : List A) {a : A} → find p xs ≡ some a → p a ≡ true
  unfolding find
  find_sound p [] h = cc
  find_sound p (x ∷ xs) {a} h = ground (arith, find_sound p xs {a = a})

  pub find-any : (p : A → Bool) (xs : List A) {a : A} → find p xs ≡ some a → any p xs ≡ true
  unfolding find any
  find-any p [] h = cc
  find-any p (x ∷ xs) {a} h = ground (arith, find-any p xs {a = a})

  pub any-false : (p : A → Bool) (xs : List A) → any p xs ≡ false → All (λ x. p x ≡ false) xs
  unfolding any
  any-false p [] h = tt
  any-false p (x ∷ xs) h = (ground arith, any-false p xs (ground arith))

  pub find-none : (p : A → Bool) (xs : List A) → find p xs ≡ none → All (λ x. p x ≡ false) xs
  unfolding find
  find-none p [] h = tt
  find-none p (x ∷ xs) h = (ground arith, find-none p xs (ground arith))

  pub find-none_of_All : (p : A → Bool) (xs : List A) → All (λ x. p x ≡ false) xs → find p xs ≡ none
  unfolding find
  find-none_of_All p [] h = refl
  find-none_of_All p (x ∷ xs) h = ground (arith, h.0, find-none_of_All p xs h.1)

  pub find-append_none :
      (p : A → Bool) (xs ys : List A) → find p xs ≡ none → find p (xs ++ ys) ≡ find p ys
  unfolding find
  find-append_none p [] ys h = refl
  find-append_none p (x ∷ xs) ys h = ground (arith, find-append_none p xs ys)

  pub find-append_some :
      (p : A → Bool) (xs ys : List A) {a : A} → find p xs ≡ some a → find p (xs ++ ys) ≡ some a
  unfolding find
  find-append_some p [] ys h = cc
  find-append_some p (x ∷ xs) ys {a} h = ground (arith, find-append_some p xs ys {a = a})

  -- An update that no row passes changes nothing.
  pub update_where_unchanged :
      (p : A → Bool) (f : A → A) (xs : List A) → rowcount p xs ≡ 0 → update_where p f xs ≡ xs
  unfolding update_where rowcount
  update_where_unchanged p f [] h = refl
  update_where_unchanged p f (x ∷ xs) h = ground (arith, update_where_unchanged p f xs)

  pub any-update_where :
      (q p : A → Bool) (f : A → A) (xs : List A)
      → ((a : A) → q (f a) ≡ q a)
      → any q (update_where p f xs) ≡ any q xs
  unfolding any update_where
  any-update_where q p f [] k = refl
  any-update_where q p f (x ∷ xs) k = ground (arith, any-update_where q p f xs k, k x)

  -- Where the update leaves the test of `find` alone, what is found is the updated row.
  pub find-update_where :
      (q p : A → Bool) (f : A → A) (xs : List A)
      → ((a : A) → q (f a) ≡ q a)
      → find q (update_where p f xs)
        ≡ elim (find q xs) [ none ↦ none | some a ↦ some (if p a then f a else a) ]
  unfolding find update_where
  find-update_where q p f [] k = refl
  find-update_where q p f (x ∷ xs) k = ground (arith, find-update_where q p f xs k, k x)

  pub find-updated :
      (q p : A → Bool) (f : A → A) (xs : List A) {a : A}
      → ((x : A) → q (f x) ≡ q x)
      → find q xs ≡ some a
      → p a ≡ true
      → find q (update_where p f xs) ≡ some (f a)
  find-updated q p f xs k found test = simp (find-update_where q p f xs k, found, test)

  -- An update of other rows.
  pub find-update_where_other :
      (q p : A → Bool) (f : A → A) (xs : List A)
      → ((x : A) → q (f x) ≡ q x)
      → ((x : A) → q x ≡ true → p x ≡ false)
      → find q (update_where p f xs) ≡ find q xs
  unfolding find update_where
  find-update_where_other q p f [] k o = refl
  find-update_where_other q p f (x ∷ xs) k o =
      ground (arith, find-update_where_other q p f xs k o, k x, o x)

module _ {ℓ κ} {A : Type ℓ} (P : A → Type κ) where
  pub All-find : (p : A → Bool) (xs : List A) {a : A} → All P xs → find p xs ≡ some a → P a
  unfolding find
  All-find p [] h e = absurd (cc e)
  All-find p (x ∷ xs) {a} h e = elim (Bool-cases (p x)) [
    | inl y ↦ let q : x ≡ a = ground arith in rw (← q) h.0
    | inr n ↦ All-find p xs h.1 (ground arith)
  ]

  pub All-insert_unique :
      (same : A → A → Bool) (row : A) (xs : List A) {ys : List A}
      → P row
      → All P xs
      → insert_unique same row xs ≡ some ys
      → All P ys
  unfolding insert_unique
  All-insert_unique same row xs {ys} p h e = elim (Bool-cases (any (same row) xs)) [
    | inl y ↦ absurd (ground arith)
    | inr n ↦
        let q : xs ++ row ∷ [] ≡ ys = ground arith in
        rw (← q) (All-append P xs (row ∷ []) h (p, tt))
  ]

  pub All-select : (p : A → Bool) (xs : List A) → All P xs → All P (select p xs)
  unfolding select
  All-select p [] h = tt
  All-select p (x ∷ xs) h = elim (Bool-cases (p x)) [
    | inl y ↦ rw y (h.0, All-select p xs h.1)
    | inr n ↦ rw n (All-select p xs h.1)
  ]

module _ {ℓ} {A : Type ℓ} (same : A → A → Bool) (symmetric : (a b : A) → same a b ≡ same b a) where
  Distinct-append :
      (row : A) (xs : List A)
      → All (λ y. same row y ≡ false) xs
      → Distinct same xs
      → Distinct same (xs ++ row ∷ [])
  Distinct-append row [] h d = (tt, tt)
  Distinct-append row (x ∷ xs) h d = (
    All-append (λ y. same x y ≡ false) xs (row ∷ []) d.0 (symmetric x row ∙ h.0, tt),
    Distinct-append row xs h.1 d.1,
  )

  -- An accepted insert keeps the rows distinct.
  pub Distinct-insert_unique :
      (row : A) (xs : List A) {ys : List A}
      → Distinct same xs
      → insert_unique same row xs ≡ some ys
      → Distinct same ys
  unfolding insert_unique
  Distinct-insert_unique row xs {ys} d h = elim (Bool-cases (any (same row) xs)) [
    | inl y ↦ absurd (ground arith)
    | inr n ↦
        let e : xs ++ row ∷ [] ≡ ys = ground arith in
        rw (← e) (Distinct-append row xs (any-false (same row) xs n) d)
  ]

module _ {ℓ} {A : Type ℓ} (same : A → A → Bool) (p : A → Bool) (f : A → A)
    (keeps : (a b : A) → (same (f a) b ≡ same a b) × (same a (f b) ≡ same a b)) where
  same-update :
      (x : A) (xs : List A)
      → All (λ y. same x y ≡ false) xs
      → All (λ y. same (if p x then f x else x) y ≡ false) (update_where p f xs)
  unfolding update_where
  same-update x [] h = tt
  same-update x (y ∷ ys) h = (ground (arith, keeps x y, keeps x (f y)), same-update x ys h.1)

  -- An update that leaves the key alone keeps the rows distinct.
  pub Distinct-update_where : (xs : List A) → Distinct same xs → Distinct same (update_where p f xs)
  unfolding update_where
  Distinct-update_where [] d = tt
  Distinct-update_where (x ∷ xs) d = (same-update x xs d.0, Distinct-update_where xs d.1)

module _ {ℓ κ ρ} {A : Type ℓ} (P : A → Type κ) (Q : A → Type ρ) where
  -- What the updated rows and the others come to satisfy.
  pub All-update_where :
      (p : A → Bool) (f : A → A) (xs : List A)
      → ((a : A) → p a ≡ true → P a → Q (f a))
      → ((a : A) → p a ≡ false → P a → Q a)
      → All P xs
      → All Q (update_where p f xs)
  unfolding update_where
  All-update_where p f [] k l h = tt
  All-update_where p f (x ∷ xs) k l h = elim (Bool-cases (p x)) [
    | inl y ↦ rw y (k x y h.0, All-update_where p f xs k l h.1)
    | inr n ↦ rw n (l x n h.0, All-update_where p f xs k l h.1)
  ]
