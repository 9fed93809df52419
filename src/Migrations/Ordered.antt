-- ===== src/Migrations/Ordered.antt =====
-- Migrations in the order of their versions, as persistence/migrations.py loads them.
use ledgermind_local.Prelude.{
  ℕ, ◌≤◌, ◌<◌, true, false, not, some, List, [], ◌∷◌, ◌++◌, map, ltb, leb, ◌==◌, ◌≡◌, refl, ◌∙◌, ap,
  arith, All, All-both, All-map, ==_refl, if_false,
}
use ledgermind_local.Migrations.{
  Migration, Applied, Database, insert_by, sort_by, keep, has_version, has_duplicate, find_version,
  is_some, last_or, same_versions, have_checksums, versions_of, check_unknown, check_history,
  check_applied, is_pending, validate_applied_state, load_migrations, returned,
}

-- In strictly ascending order of a key, all above a bound.
abbrev pub Ascending {ℓ} : {A : Type ℓ} → (A → ℕ) → ℕ → List A → Type 0
Ascending key n [] = Unit
Ascending key n (x ∷ xs) = (n < key x) × Ascending key (key x) xs

leb-true : (a b : ℕ) → a ≤ b → leb a b ≡ true
leb-true a b h = ground (arith, h)

leb-false : (a b : ℕ) → b < a → leb a b ≡ false
leb-false a b h = ground (arith, h)

ltb-true : (a b : ℕ) → a < b → ltb a b ≡ true
ltb-true a b h = ground (arith, h)

ltb-false : (a b : ℕ) → b ≤ a → ltb a b ≡ false
ltb-false a b h = ground (arith, h)

==-false : (a b : ℕ) → a < b → (a == b) ≡ false
==-false a b h = ground (arith, h)

insert_by-Ascending {ℓ} :
    {A : Type ℓ} (key : A → ℕ) (x : A) (ys : List A)
    → Ascending key (key x) ys
    → insert_by key x ys ≡ x ∷ ys
insert_by-Ascending key x [] i = refl
insert_by-Ascending key x (y ∷ ys) i = rw (leb-true (key x) (key y) (omega (arith, i.0))) refl

pub sort_by-Ascending {ℓ} :
    {A : Type ℓ} (key : A → ℕ) (n : ℕ) (xs : List A) → Ascending key n xs → sort_by key xs ≡ xs
sort_by-Ascending key n [] h = refl
sort_by-Ascending key n (x ∷ xs) h =
    ap (insert_by key x) (sort_by-Ascending key (key x) xs h.1) ∙ insert_by-Ascending key x xs h.1

abbrev pub row : Migration → Applied
row m = record { version = m.version; checksum = m.checksum }

abbrev pub InOrder : ℕ → List Migration → Type 0
InOrder n ms = Ascending (λ (m : Migration). m.version) n ms

rows-Ascending :
    (n : ℕ) (ms rest : List Migration)
    → InOrder n (ms ++ rest)
    → Ascending (λ (r : Applied). r.version) n (map row ms)
rows-Ascending n [] rest h = tt
rows-Ascending n (m ∷ ms) rest h = (h.0, rows-Ascending m.version ms rest h.1)

last_or_le :
    (n : ℕ) (ms rest : List Migration) → InOrder n (ms ++ rest) → n ≤ last_or n (versions_of ms)
last_or_le n [] rest h = omega arith
last_or_le n (m ∷ ms) rest h = omega (arith, h.0, last_or_le m.version ms rest h.1)

keep_all : (c n : ℕ) (ms : List Migration) → c ≤ n → InOrder n ms → keep (is_pending c) ms ≡ ms
keep_all c n [] le h = refl
keep_all c n (m ∷ ms) le h =
    rw (ltb-true c m.version (omega (arith, le, h.0)))
      (ap (λ xs. m ∷ xs) (keep_all c m.version ms (omega (arith, le, h.0)) h.1))

pub keep-is_pending :
    (n : ℕ) (ms rest : List Migration)
    → InOrder n (ms ++ rest)
    → keep (is_pending (last_or n (versions_of ms))) (ms ++ rest) ≡ rest
keep-is_pending n [] rest h = keep_all n n rest (omega arith) h
keep-is_pending n (m ∷ ms) rest h =
    rw (ltb-false (last_or m.version (versions_of ms)) m.version (last_or_le m.version ms rest h.1))
      (keep-is_pending m.version ms rest h.1)

none_left :
    (c n : ℕ) (ms : List Migration)
    → c ≤ n
    → InOrder n ms
    → keep (λ v. leb v c) (versions_of ms) ≡ []
none_left c n [] le h = refl
none_left c n (m ∷ ms) le h =
    rw (leb-false m.version c (omega (arith, le, h.0)))
      (none_left c m.version ms (omega (arith, le, h.0)) h.1)

keep_prefix :
    (n : ℕ) (ms rest : List Migration)
    → InOrder n (ms ++ rest)
    → keep (λ v. leb v (last_or n (versions_of ms))) (versions_of (ms ++ rest)) ≡ versions_of ms
keep_prefix n [] rest h = none_left n n rest (omega arith) h
keep_prefix n (m ∷ ms) rest h =
    rw (leb-true m.version (last_or m.version (versions_of ms)) (last_or_le m.version ms rest h.1))
      (ap (λ xs. m.version ∷ xs) (keep_prefix m.version ms rest h.1))

same_versions_refl : (xs : List ℕ) → same_versions xs xs ≡ true
same_versions_refl [] = refl
same_versions_refl (x ∷ xs) = rw (==_refl x) (same_versions_refl xs)

-- The migrations that their own versions find.
abbrev Found : List Migration → Migration → Type 0
Found all m = find_version m.version all ≡ some m

above : (n : ℕ) (ms : List Migration) → InOrder n ms → All (λ (m : Migration). n < m.version) ms
above n [] h = tt
above n (m ∷ ms) h =
    (h.0, All-map (λ (x : Migration) i. omega (arith, i, h.0)) ms (above m.version ms h.1))

found : (n : ℕ) (ms : List Migration) → InOrder n ms → All (Found ms) ms
found n [] h = tt
found n (m ∷ ms) h = (
  rw (==_refl m.version) refl,
  All-both
      (λ (x : Migration) (lt : m.version < x.version) (e : Found ms x).
        if_false (m.version == x.version) (some m) (find_version x.version ms)
          (==-false m.version x.version lt)
        ∙ e)
      ms (above m.version ms h.1) (found m.version ms h.1),
)

All-prefix : (P : Migration → Type 0) (ms rest : List Migration) → All P (ms ++ rest) → All P ms
All-prefix P [] rest h = tt
All-prefix P (m ∷ ms) rest h = (h.0, All-prefix P ms rest h.1)

versions-rows :
    (ms : List Migration) → map (λ (r : Applied). r.version) (map row ms) ≡ versions_of ms
versions-rows [] = refl
versions-rows (m ∷ ms) = ap (λ xs. m.version ∷ xs) (versions-rows ms)

none_unknown :
    (all ms : List Migration)
    → All (Found all) ms
    → keep (λ v. not (is_some (find_version v all))) (map (λ (r : Applied). r.version) (map row ms))
      ≡ []
none_unknown all [] h = refl
none_unknown all (m ∷ ms) h = rw (h.0) (none_unknown all ms h.1)

have_checksums_lem :
    (all ms : List Migration) → All (Found all) ms → have_checksums all (map row ms) ≡ true
have_checksums_lem all [] h = refl
have_checksums_lem all (m ∷ ms) h = rw (h.0, ==_refl m.checksum) (have_checksums_lem all ms h.1)

check_history_lem :
    (ms rest : List Migration)
    → InOrder 0 (ms ++ rest)
    → check_history (ms ++ rest) (map row ms) ≡ returned (last_or 0 (versions_of ms))
check_history_lem ms rest h =
    rw
      (
        versions-rows ms,
        keep_prefix 0 ms rest h,
        same_versions_refl (versions_of ms),
        have_checksums_lem (ms ++ rest) ms
            (All-prefix (Found (ms ++ rest)) ms rest (found 0 (ms ++ rest) h)),
      )
      refl

check_applied_lem :
    (ms rest : List Migration)
    → InOrder 0 (ms ++ rest)
    → check_applied (ms ++ rest) (map row ms) ≡ returned (last_or 0 (versions_of ms))
check_applied_lem [] [] h = refl
check_applied_lem [] (m ∷ rest) h = refl
check_applied_lem (m ∷ ms) rest h =
    ap
      (λ xs.
        check_unknown (m ∷ (ms ++ rest)) xs (check_history (m ∷ (ms ++ rest)) (map row (m ∷ ms))))
      (none_unknown (m ∷ (ms ++ rest)) (m ∷ ms)
        (All-prefix (Found (m ∷ (ms ++ rest))) (m ∷ ms) rest (found 0 (m ∷ (ms ++ rest)) h)))
    ∙ check_history_lem (m ∷ ms) rest h

pub validate_lem :
    (ms rest : List Migration) (db : Database)
    → InOrder 0 (ms ++ rest)
    → db.schema_migrations ≡ map row ms
    → validate_applied_state (ms ++ rest) db ≡ returned (last_or 0 (versions_of ms))
unfolding validate_applied_state
validate_lem ms rest db h e =
    ap (λ rows. check_applied (ms ++ rest) (sort_by (λ (r : Applied). r.version) rows)) e
    ∙ ap (check_applied (ms ++ rest))
        (sort_by-Ascending (λ (r : Applied). r.version) 0 (map row ms) (rows-Ascending 0 ms rest h))
    ∙ check_applied_lem ms rest h

later_eq : (a b : ℕ) → b < a → (a == b) ≡ false
later_eq a b h = ground (arith, h)

no_version :
    (n k : ℕ) (ms : List Migration) → k ≤ n → InOrder n ms → has_version k (versions_of ms) ≡ false
no_version n k [] le h = refl
no_version n k (m ∷ ms) le h =
    rw (later_eq m.version k (omega (arith, le, h.0)))
      (no_version m.version k ms (omega (arith, le, h.0)) h.1)

no_duplicate : (n : ℕ) (ms : List Migration) → InOrder n ms → has_duplicate (versions_of ms) ≡ false
no_duplicate n [] h = refl
no_duplicate n (m ∷ ms) h =
    rw (no_version m.version m.version ms (omega arith) h.1) (no_duplicate m.version ms h.1)

pub load_lem :
    (n : ℕ) (discovered ms : List Migration)
    → sort_by (λ (m : Migration). m.version) discovered ≡ ms
    → InOrder n ms
    → load_migrations discovered ≡ returned ms
unfolding load_migrations
load_lem n discovered ms e h = rw (e, no_duplicate n ms h) refl
