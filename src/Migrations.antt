-- ===== src/Migrations.antt =====
-- persistence/migrations.py, which persistence/rounds_migrations.py hands its directory to. A statement is
-- a number, and a database is its history of migrations with the statements that have taken effect. Each
-- statement that a connection executes, BEGIN and COMMIT included, meets the next of its fates. The
-- files of the directory are given as the migrations that they hold, in any order.
pub mod Ordered
pub mod History
pub mod Progress
use ledgermind_local.Prelude.{
  ℕ, Bool, true, false, not, ◌&&◌, Option, none, some, List, [], ◌∷◌, ◌++◌, map, ltb, leb, ◌==◌,
  if◌then◌else◌,
}

pub record Migration : Type 0 where
  pub version : ℕ
  pub checksum : ℕ
  pub statements : List ℕ
  pub is_foreign_keys_off : Bool  -- its text starts with PRAGMA foreign_keys = OFF

-- A row of schema_migrations.
pub record Applied : Type 0 where
  pub version : ℕ
  pub checksum : ℕ

pub record Database : Type 0 where
  pub schema_migrations : List Applied
  pub executed : List ℕ

pub record Connection : Type 0 where
  pub database : Database
  pub at_begin : Database
  pub in_transaction : Bool
  pub foreign_keys : Bool
  pub fates : List Bool  -- whether the next statement raises

pub data Error : Type 0 where
  migration_error version_error checksum_error unknown_migration sqlite_error : Error

pub data Run (A : Type 0) : Type 0 where
  returned : A → Run A
  raised : Error → Run A

abbrev pub insert_by {ℓ} : {A : Type ℓ} → (A → ℕ) → A → List A → List A
insert_by key a [] = a ∷ []
insert_by key a (x ∷ xs) =
    let rest = insert_by key a xs in if leb (key a) (key x) then a ∷ x ∷ xs else x ∷ rest

-- `sorted(..., key=...)`, and ORDER BY
abbrev pub sort_by {ℓ} : {A : Type ℓ} → (A → ℕ) → List A → List A
sort_by key [] = []
sort_by key (x ∷ xs) = insert_by key x (sort_by key xs)

abbrev pub keep {ℓ} : {A : Type ℓ} → (A → Bool) → List A → List A
keep p [] = []
keep p (x ∷ xs) = let rest = keep p xs in if p x then x ∷ rest else rest

abbrev pub has_version : ℕ → List ℕ → Bool
has_version n [] = false
has_version n (x ∷ xs) = let rest = has_version n xs in if x == n then true else rest

abbrev pub has_duplicate : List ℕ → Bool
has_duplicate [] = false
has_duplicate (x ∷ xs) = let rest = has_duplicate xs in if has_version x xs then true else rest

-- `load_migrations`
unfoldable pub load_migrations : List Migration → Run (List Migration)
load_migrations discovered =
    let loaded = sort_by (λ (m : Migration). m.version) discovered in
    if has_duplicate (map (λ (m : Migration). m.version) loaded)
    then raised migration_error
    else returned loaded

-- `_load_applied_versions`
abbrev pub load_applied_versions : Database → List Applied
load_applied_versions db = sort_by (λ (r : Applied). r.version) db.schema_migrations

-- `available[version]`
abbrev pub find_version : ℕ → List Migration → Option Migration
find_version n [] = none
find_version n (m ∷ ms) = let rest = find_version n ms in if m.version == n then some m else rest

abbrev pub is_some {ℓ} : {A : Type ℓ} → Option A → Bool
is_some none = false
is_some (some a) = true

-- The last of these versions, or the first argument.
abbrev pub last_or : ℕ → List ℕ → ℕ
last_or n [] = n
last_or n (x ∷ xs) = last_or x xs

abbrev pub same_versions : List ℕ → List ℕ → Bool
same_versions [] [] = true
same_versions [] (y ∷ ys) = false
same_versions (x ∷ xs) [] = false
same_versions (x ∷ xs) (y ∷ ys) = let rest = same_versions xs ys in if x == y then rest else false

abbrev pub has_checksum : ℕ → Option Migration → Bool
has_checksum n none = false
has_checksum n (some m) = n == m.checksum

abbrev pub have_checksums : List Migration → List Applied → Bool
have_checksums ms [] = true
have_checksums ms (r ∷ rows) =
    let rest = have_checksums ms rows in
    if has_checksum r.checksum (find_version r.version ms) then rest else false

abbrev pub unknown_error : ℕ → List ℕ → Error
unknown_error latest unknown =
    if ltb latest (last_or 0 unknown) then unknown_migration else version_error

abbrev pub versions_of : List Migration → List ℕ
versions_of ms = map (λ (m : Migration). m.version) ms

abbrev pub check_unknown : List Migration → List ℕ → Run ℕ → Run ℕ
check_unknown ms [] rest = rest
check_unknown ms (v ∷ vs) rest = raised (unknown_error (last_or 0 (versions_of ms)) (v ∷ vs))

abbrev pub check_history : List Migration → List Applied → Run ℕ
check_history ms rows =
    let applied = map (λ (r : Applied). r.version) rows in
    if same_versions applied (keep (λ v. leb v (last_or 0 applied)) (versions_of ms))
    then (if have_checksums ms rows then returned (last_or 0 applied) else raised checksum_error)
    else raised version_error

abbrev pub check_applied : List Migration → List Applied → Run ℕ
check_applied ms [] = returned 0
check_applied [] (r ∷ rows) = raised unknown_migration
check_applied (m ∷ ms) (r ∷ rows) =
    check_unknown (m ∷ ms)
      (keep (λ v. not (is_some (find_version v (m ∷ ms))))
        (map (λ (x : Applied). x.version) (r ∷ rows)))
      (check_history (m ∷ ms) (r ∷ rows))

-- `_validate_applied_state`, on migrations in order
unfoldable pub validate_applied_state : List Migration → Database → Run ℕ
validate_applied_state ms db = check_applied ms (load_applied_versions db)

abbrev pub next_fate : List Bool → Bool
next_fate [] = false
next_fate (b ∷ bs) = b

abbrev pub later_fates : List Bool → List Bool
later_fates [] = []
later_fates (b ∷ bs) = bs

abbrev pub M : Type 0 → Type 0
M A = Connection → Run A × Connection

abbrev pub follow : {A B : Type 0} → Run A × Connection → (A → M B) → Run B × Connection
follow (returned a, c) next = next a c
follow (raised e, c) next = (raised e, c)

-- A statement that may raise, and its effect.
unfoldable pub execute : (Connection → Connection) → M (Unit {0})
execute effect c =
    let after : Connection = record c { fates = later_fates c.fates } in
    if next_fate c.fates then (raised sqlite_error, after) else (returned tt, effect after)

abbrev pub begin_immediate : Connection → Connection
begin_immediate c = record c { at_begin = c.database; in_transaction = true }

abbrev pub run_statement : ℕ → Connection → Connection
run_statement x c = record c { database = record c.database { executed = x ∷ c.database.executed } }

abbrev pub insert_row : Migration → Connection → Connection
insert_row m c = record c {
  database = record c.database {
    schema_migrations =
        c.database.schema_migrations ++ record { version = m.version; checksum = m.checksum } ∷ [];
  };
}

abbrev pub run_statements : List ℕ → M (Unit {0})
run_statements [] c = (returned tt, c)
run_statements (x ∷ xs) c = follow (execute (run_statement x) c) (λ u. run_statements xs)

-- The INSERT, which the key on the version refuses where it is taken.
unfoldable pub insert_applied : Migration → M (Unit {0})
unfolding execute
insert_applied m c =
    if has_version m.version (map (λ (r : Applied). r.version) c.database.schema_migrations)
    then (raised sqlite_error, c)
    else execute (insert_row m) c

abbrev pub commit_if : (owns_transaction : Bool) → M (Unit {0})
commit_if true = execute (λ c. record c { in_transaction = false })
commit_if false = λ c. (returned tt, c)

-- The `try` of `_apply_single_migration` after the foreign keys, without and with a transaction of its own.
unfoldable pub run_migration : Migration → (owns_transaction : Bool) → M (Unit {0})
unfolding execute insert_applied
run_migration m owns c =
    follow (run_statements m.statements c)
      (λ u d. follow (insert_applied m d) (λ v. commit_if owns))

unfoldable pub begin_and_run : Migration → M (Unit {0})
unfolding execute run_migration
begin_and_run m c =
    if c.in_transaction
    then run_migration m false c
    else follow (execute begin_immediate c) (λ u. run_migration m true)

abbrev pub roll_back : Connection → Connection
roll_back c =
    if c.in_transaction then record c { database = c.at_begin; in_transaction = false } else c

abbrev pub restore_foreign_keys : Bool → Connection → Connection
restore_foreign_keys true c = record c { foreign_keys = true }
restore_foreign_keys false c = c

abbrev pub settle : Bool → Run (Unit {0}) × Connection → Run (Unit {0}) × Connection
settle restores (returned u, c) = (returned u, restore_foreign_keys restores c)
settle restores (raised e, c) = (raised e, restore_foreign_keys restores (roll_back c))

-- `_apply_single_migration`
unfoldable pub apply_single_migration : Migration → M (Unit {0})
unfolding begin_and_run
apply_single_migration m c =
    let restores = m.is_foreign_keys_off && c.foreign_keys in
    settle restores (begin_and_run m (if restores then record c { foreign_keys = false } else c))

-- The loop over the pending migrations.
unfoldable pub apply_pending : List Migration → M (Unit {0})
unfolding apply_single_migration
apply_pending [] c = (returned tt, c)
apply_pending (m ∷ ms) c = follow (apply_single_migration m c) (λ u. apply_pending ms)

abbrev pub is_pending : ℕ → Migration → Bool
is_pending current m = ltb current m.version

abbrev pub apply_from : List Migration → Run ℕ → M (List Migration)
apply_from ms (raised e) c = (raised e, c)
apply_from ms (returned current) c =
    follow (apply_pending (keep (is_pending current) ms) c)
      (λ u d. (returned (keep (is_pending current) ms), d))

abbrev pub apply_loaded : Run (List Migration) → M (List Migration)
apply_loaded (raised e) c = (raised e, c)
apply_loaded (returned ms) c = apply_from ms (validate_applied_state ms c.database) c

-- `apply_migrations`
unfoldable pub apply_migrations : List Migration → M (List Migration)
unfolding load_migrations validate_applied_state apply_pending
apply_migrations discovered c = apply_loaded (load_migrations discovered) c
