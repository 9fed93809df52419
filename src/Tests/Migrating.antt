-- ===== src/Tests/Migrating.antt =====
-- Runs of persistence/migrations.py on concrete histories.
use ledgermind_local.Prelude.{
  ℕ, ◌+◌, ◌*◌, Bool, true, false, List, [], ◌∷◌, ◌++◌, map, ◌≡◌, refl, arith,
}
use ledgermind_local.Migrations.{
  Migration, Database, Connection, returned, raised, version_error, apply_migrations,
  load_migrations, validate_applied_state, apply_pending, apply_single_migration, begin_and_run,
  run_migration, insert_applied, execute,
}
use ledgermind_local.Migrations.Ordered.{InOrder, row}
use ledgermind_local.Migrations.History.{Ends, Stands}
use ledgermind_local.Migrations.Progress.{Progressed, apply_migrations-Progressed}

abbrev migration : ℕ → Bool → Migration
migration n off = record {
  version = n;
  checksum = 100 + n;
  statements = (10 * n) ∷ (10 * n + 1) ∷ [];
  is_foreign_keys_off = off;
}

abbrev packaged : List Migration
packaged = migration 2 true ∷ migration 1 false ∷ migration 3 false ∷ []

abbrev done : List Migration
done = migration 1 false ∷ []

abbrev pending : List Migration
pending = migration 2 true ∷ migration 3 false ∷ []

abbrev database : Database
database = record { schema_migrations = map row done; executed = [] }

-- The eighth statement fails: the second one of the third migration.
abbrev connection : Connection
connection = record {
  database = database;
  at_begin = database;
  in_transaction = false;
  foreign_keys = true;
  fates = false ∷ false ∷ false ∷ false ∷ false ∷ false ∷ false ∷ true ∷ [];
}

in_order : InOrder 0 (done ++ pending)
in_order = (omega arith, (omega arith, (omega arith, tt)))

half_done : (apply_migrations packaged connection).1.database ≡ record {
  schema_migrations = map row (migration 1 false ∷ migration 2 true ∷ []);
  executed = 21 ∷ 20 ∷ [];
}
unfolding apply_migrations load_migrations validate_applied_state apply_pending
    apply_single_migration begin_and_run run_migration insert_applied execute
half_done = refl

apply_migrations-Progressed_example :
    Ends
      (λ applied d. (applied ≡ pending) × Stands (map row done ++ map row pending) true d)
      (Progressed (map row done) pending true)
      (apply_migrations packaged connection)
apply_migrations-Progressed_example =
    apply_migrations-Progressed packaged done pending connection refl in_order refl refl

abbrev complete : Connection
complete = record connection {
  database = record { schema_migrations = map row (done ++ pending); executed = [] };
}

-- A migration of version 0 is not applied, and then the history is refused.
abbrev from_zero : List Migration
from_zero = migration 0 false ∷ migration 1 false ∷ []

abbrev blank : Connection
blank = record connection {
  database = record { schema_migrations = []; executed = [] };
  fates = [];
}

skipped : (apply_migrations from_zero blank).0 ≡ returned (migration 1 false ∷ [])
unfolding apply_migrations load_migrations validate_applied_state apply_pending
    apply_single_migration begin_and_run run_migration insert_applied execute
skipped = refl

refused : (apply_migrations from_zero (apply_migrations from_zero blank).1).0 ≡ raised version_error
unfolding apply_migrations load_migrations validate_applied_state apply_pending
    apply_single_migration begin_and_run run_migration insert_applied execute
refused = refl
