-- ===== src/Migrations/History.antt =====
-- The history of migrations that persistence/migrations.py keeps, whichever statement fails.
use ledgermind_local.Prelude.{
  ℕ, Bool, true, false, ◌&&◌, List, [], ◌∷◌, ◌++◌, map, ◌≡◌, refl, sym, ◌∙◌, ap, ◌⊎◌, inl, inr,
  if◌then◌else◌,
}
use ledgermind_local.Migrations.{
  Migration, Applied, Database, Connection, sqlite_error, Run, returned, raised, M, follow, execute,
  next_fate, later_fates, begin_immediate, run_statement, insert_row, run_statements,
  insert_applied, commit_if, run_migration, begin_and_run, roll_back, restore_foreign_keys, settle,
  apply_single_migration, has_version,
}
use ledgermind_local.Migrations.Ordered.{row}

abbrev pub Ends :
    {A : Type 0} → (A → Connection → Type 0) → (Connection → Type 0) → Run A × Connection → Type 0
Ends Q E (returned a, c) = Q a c
Ends Q E (raised e, c) = E c

pub Ends-follow :
    {A B : Type 0} (R : A → Connection → Type 0) (Q : B → Connection → Type 0)
    (E : Connection → Type 0) (x : Run A × Connection) (k : A → M B)
    → Ends R E x
    → ((a : A) (d : Connection) → R a d → Ends Q E (k a d))
    → Ends Q E (follow x k)
Ends-follow R Q E (returned a, c) k h f = f a c h
Ends-follow R Q E (raised e, c) k h f = h

if_then :
    (P : Run (Unit {0}) × Connection → Type 0) (b : Bool) (x y : Run (Unit {0}) × Connection)
    → (b ≡ true → P x)
    → (b ≡ false → P y)
    → P (if b then x else y)
if_then P true x y h k = h refl
if_then P false x y h k = k refl

execute-Ends :
    (Q : Unit {0} → Connection → Type 0) (E : Connection → Type 0)
    (effect : Connection → Connection) (c : Connection)
    → let after : Connection = record c { fates = later_fates c.fates } in
      E after → Q tt (effect after) → Ends Q E (execute effect c)
unfolding execute
execute-Ends Q E effect c h k =
    if_then (Ends Q E) (next_fate c.fates)
      (raised sqlite_error, record c { fates = later_fates c.fates })
      (returned tt, effect (record c { fates = later_fates c.fates })) (λ e. h) (λ e. k)

module _ (D : Database) (F : Bool) where
  -- In a transaction that began at this database.
  abbrev Within : Connection → Type 0
  Within c = (c.at_begin ≡ D) × (c.in_transaction ≡ true) × (c.foreign_keys ≡ F)

  abbrev Rows : List Applied → Connection → Type 0
  Rows rows c = Within c × (c.database.schema_migrations ≡ rows)

  run_statements-Ends :
      (rows : List Applied) (xs : List ℕ) (c : Connection)
      → Rows rows c
      → Ends (λ u. Rows rows) Within (run_statements xs c)
  run_statements-Ends rows [] c h = h
  run_statements-Ends rows (x ∷ xs) c h =
      Ends-follow (λ u. Rows rows) (λ u. Rows rows) Within (execute (run_statement x) c)
        (λ u. run_statements xs) (execute-Ends (λ u. Rows rows) Within (run_statement x) c h.0 h)
        (λ u d i. run_statements-Ends rows xs d i)

  insert_applied-Ends :
      (rows : List Applied) (m : Migration) (c : Connection)
      → Rows rows c
      → Ends (λ u. Rows (rows ++ row m ∷ [])) Within (insert_applied m c)
  unfolding insert_applied
  insert_applied-Ends rows m c h =
      if_then (Ends (λ u. Rows (rows ++ row m ∷ [])) Within)
        (has_version m.version (map (λ (r : Applied). r.version) c.database.schema_migrations))
        (raised sqlite_error, c) (execute (insert_row m) c) (λ e. h.0)
        (λ e.
          execute-Ends (λ u. Rows (rows ++ row m ∷ [])) Within (insert_row m) c h.0
            (h.0, ap (λ rs. rs ++ row m ∷ []) h.1))

  -- Committed.
  abbrev Committed : List Applied → Connection → Type 0
  Committed rows c =
      (c.in_transaction ≡ false) × (c.foreign_keys ≡ F) × (c.database.schema_migrations ≡ rows)

  run_migration-Ends :
      (rows : List Applied) (m : Migration) (c : Connection)
      → Rows rows c
      → Ends (λ u. Committed (rows ++ row m ∷ [])) Within (run_migration m true c)
  unfolding run_migration
  run_migration-Ends rows m c h =
      Ends-follow (λ u. Rows rows) (λ u. Committed (rows ++ row m ∷ [])) Within
        (run_statements m.statements c) (λ u d. follow (insert_applied m d) (λ v. commit_if true))
        (run_statements-Ends rows m.statements c h)
        (λ u d i.
          Ends-follow (λ v. Rows (rows ++ row m ∷ [])) (λ v. Committed (rows ++ row m ∷ [])) Within
            (insert_applied m d) (λ v. commit_if true) (insert_applied-Ends rows m d i)
            (λ v x j.
              execute-Ends (λ w. Committed (rows ++ row m ∷ [])) Within
                (λ y. record y { in_transaction = false }) x j.0 (refl, j.0.2, j.1)))

-- Where it raises: the transaction never began, or it is open.
abbrev Failed : Database → Bool → Connection → Type 0
Failed D F c = ((c.in_transaction ≡ false) × (c.database ≡ D) × (c.foreign_keys ≡ F)) ⊎ Within D F c

begin_and_run-Ends :
    (rows : List Applied) (m : Migration) (c : Connection)
    → c.in_transaction ≡ false
    → c.database.schema_migrations ≡ rows
    → Ends
        (λ u. Committed c.database c.foreign_keys (rows ++ row m ∷ []))
        (Failed c.database c.foreign_keys)
        (begin_and_run m c)
unfolding begin_and_run
begin_and_run-Ends rows m c t r =
    let D : Database = c.database in
    let F : Bool = c.foreign_keys in
    if_then (Ends (λ u. Committed D F (rows ++ row m ∷ [])) (Failed D F)) c.in_transaction
      (run_migration m false c) (follow (execute begin_immediate c) (λ u. run_migration m true))
      (λ e. absurd (cc (sym e ∙ t)))
      (λ e.
        Ends-follow (λ u. Rows D F rows) (λ u. Committed D F (rows ++ row m ∷ [])) (Failed D F)
          (execute begin_immediate c) (λ u. run_migration m true)
          (execute-Ends (λ u. Rows D F rows) (Failed D F) begin_immediate c (inl (t, refl, refl))
            ((refl, refl, refl), r))
          (λ u d i.
            weaken D F (Committed D F (rows ++ row m ∷ [])) (run_migration m true d)
              (run_migration-Ends D F rows m d i)))
  where
    weaken :
        (D : Database) (F : Bool) (Q : Connection → Type 0) (x : Run (Unit {0}) × Connection)
        → Ends (λ u. Q) (Within D F) x
        → Ends (λ u. Q) (Failed D F) x
    weaken D F Q (returned u, c) h = h
    weaken D F Q (raised e, c) h = inr h

-- Outside a transaction, with these rows and foreign keys.
abbrev pub Stands : List Applied → Bool → Connection → Type 0
Stands rows F c =
    (c.database.schema_migrations ≡ rows) × (c.in_transaction ≡ false) × (c.foreign_keys ≡ F)

-- What the foreign keys are set to meanwhile, and whether they are restored.
abbrev Restores : (restores orig during : Bool) → Type 0
Restores restores orig during =
    ((restores ≡ true) × (orig ≡ true)) ⊎ ((restores ≡ false) × (during ≡ orig))

keys_restored :
    (restores orig during : Bool) (c : Connection)
    → Restores restores orig during
    → c.foreign_keys ≡ during
    → (restore_foreign_keys restores c).foreign_keys ≡ orig
keys_restored true orig during c (inl h) e = sym h.1
keys_restored true orig during c (inr h) e = absurd (cc (h.0))
keys_restored false orig during c (inl h) e = absurd (cc (h.0))
keys_restored false orig during c (inr h) e = e ∙ h.1

restored_database :
    (restores : Bool) (c : Connection) → (restore_foreign_keys restores c).database ≡ c.database
restored_database true c = refl
restored_database false c = refl

restored_transaction :
    (restores : Bool) (c : Connection)
    → (restore_foreign_keys restores c).in_transaction ≡ c.in_transaction
restored_transaction true c = refl
restored_transaction false c = refl

if_connection :
    (P : Connection → Type 0) (b : Bool) (x y : Connection)
    → (b ≡ true → P x)
    → (b ≡ false → P y)
    → P (if b then x else y)
if_connection P true x y h k = h refl
if_connection P false x y h k = k refl

-- After the rollback.
rolled_back :
    (D : Database) (F : Bool) (c : Connection)
    → Failed D F c
    → ((roll_back c).database ≡ D)
      × ((roll_back c).in_transaction ≡ false)
      × ((roll_back c).foreign_keys ≡ F)
rolled_back D F c (inl h) =
    if_connection (λ d. (d.database ≡ D) × (d.in_transaction ≡ false) × (d.foreign_keys ≡ F))
      c.in_transaction (record c { database = c.at_begin; in_transaction = false }) c
      (λ e. absurd (cc (sym e ∙ h.0))) (λ e. (h.1, h.0, h.2))
rolled_back D F c (inr h) =
    if_connection (λ d. (d.database ≡ D) × (d.in_transaction ≡ false) × (d.foreign_keys ≡ F))
      c.in_transaction (record c { database = c.at_begin; in_transaction = false }) c
      (λ e. (h.0, refl, h.2)) (λ e. absurd (cc (sym e ∙ h.1)))

settle-Ends :
    (restores orig F : Bool) (D : Database) (rows : List Applied) (x : Run (Unit {0}) × Connection)
    → Restores restores orig F
    → Ends (λ u. Committed D F rows) (Failed D F) x
    → Ends (λ u. Stands rows orig) (Stands D.schema_migrations orig) (settle restores x)
settle-Ends restores orig F D rows (returned u, c) k h = (
  ap (λ (d : Database). d.schema_migrations) (restored_database restores c) ∙ h.2,
  restored_transaction restores c ∙ h.0,
  keys_restored restores orig F c k h.1,
)
settle-Ends restores orig F D rows (raised e, c) k h =
    let r : ((roll_back c).database ≡ D)
        × ((roll_back c).in_transaction ≡ false)
        × ((roll_back c).foreign_keys ≡ F) =
      rolled_back D F c h in
    (
      ap (λ (d : Database). d.schema_migrations) (restored_database restores (roll_back c) ∙ r.0),
      restored_transaction restores (roll_back c) ∙ r.1,
      keys_restored restores orig F (roll_back c) k r.2,
    )

both-true : (a b : Bool) → (a && b) ≡ true → b ≡ true
both-true true b h = h
both-true false b h = absurd (cc h)

pub single-Ends :
    (rows : List Applied) (F : Bool) (m : Migration) (c : Connection)
    → Stands rows F c
    → Ends (λ u. Stands (rows ++ row m ∷ []) F) (Stands rows F) (apply_single_migration m c)
unfolding apply_single_migration
single-Ends rows F m c h =
    if_connection
      (λ d.
        Ends (λ u. Stands (rows ++ row m ∷ []) F) (Stands rows F)
          (settle (m.is_foreign_keys_off && c.foreign_keys) (begin_and_run m d)))
      (m.is_foreign_keys_off && c.foreign_keys) (record c { foreign_keys = false }) c
      (λ e.
        part (record c { foreign_keys = false }) h.0 h.1
          (inl (e, sym h.2 ∙ both-true m.is_foreign_keys_off c.foreign_keys e)))
      (λ e. part c h.0 h.1 (inr (e, h.2)))
  where
    part :
        (d : Connection)
        → d.database.schema_migrations ≡ rows
        → d.in_transaction ≡ false
        → Restores (m.is_foreign_keys_off && c.foreign_keys) F d.foreign_keys
        → Ends
            (λ u. Stands (rows ++ row m ∷ []) F)
            (Stands rows F)
            (settle (m.is_foreign_keys_off && c.foreign_keys) (begin_and_run m d))
    part d r t k = same (
        settle-Ends (m.is_foreign_keys_off && c.foreign_keys) F d.foreign_keys d.database
          (rows ++ row m ∷ []) (begin_and_run m d) k (begin_and_run-Ends rows m d t r))
      where
        same :
            Ends
              (λ u. Stands (rows ++ row m ∷ []) F)
              (Stands d.database.schema_migrations F)
              (settle (m.is_foreign_keys_off && c.foreign_keys) (begin_and_run m d))
            → Ends
                (λ u. Stands (rows ++ row m ∷ []) F)
                (Stands rows F)
                (settle (m.is_foreign_keys_off && c.foreign_keys) (begin_and_run m d))
        same i =
            rewrite_rows (settle (m.is_foreign_keys_off && c.foreign_keys) (begin_and_run m d)) i
          where
            rewrite_rows :
                (x : Run (Unit {0}) × Connection)
                → Ends
                    (λ u. Stands (rows ++ row m ∷ []) F)
                    (Stands d.database.schema_migrations F)
                    x
                → Ends (λ u. Stands (rows ++ row m ∷ []) F) (Stands rows F) x
            rewrite_rows (returned u, y) j = j
            rewrite_rows (raised e, y) j = (j.0 ∙ r, j.1, j.2)
