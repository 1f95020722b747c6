-- ===== src/Tests/Migrations.antt =====
-- Two migrations that are applied, and one of them that is edited afterwards.
use Prim.Native.String.{◌++◌}
use chargeback_iq.Prelude.{
  String, none, some, List, [], ◌∷◌, ◌≡◌, ◌≢◌, refl, dec_text, inl, In, keep,
}
use chargeback_iq.Migrate.{
  done, State, Surroundings, ended, exit_code, run, each, round, apply_file, transaction,
  ensure_migrations_table, sort, insert_name, files_of, is_sql, rows_of, get,
}
use chargeback_iq.Migrate.Order.{IsSorted}
use mathlib.Core.List.{Perm}
use chargeback_iq.Migrate.Runs.{Progress, run-Progress}
use chargeback_iq.Migrate.Again.{run_again, run_edited}

-- A database that remembers the statements that it executed.
abbrev io : Surroundings (List String)
io = record {
  read_directory = done ("002_b.sql" ∷ "notes.txt" ∷ "001_a.sql" ∷ []);
  read_file = λ f. done ("-- " ++ f);
  sha256 = λ s. s;
  execute = λ sql d. done (sql ∷ d);
  duplicate_message = "duplicate key value violates unique constraint";
}

abbrev empty : State (List String)
empty = record { migrations = none; rest = [] }

abbrev migrated : State (List String)
migrated = record {
  migrations = some (
      record { filename = "002_b.sql"; checksum = "-- 002_b.sql" }
      ∷ record { filename = "001_a.sql"; checksum = "-- 001_a.sql" }
      ∷ []);
  rest = "-- 002_b.sql" ∷ "-- 001_a.sql" ∷ [];
}

migrates : run io empty ≡ ended 2 migrated
unfolding run each round apply_file transaction ensure_migrations_table sort insert_name dec_text
migrates = refl

run-Progress_example :
    (files : List String) × IsSorted files
    × Perm files (keep is_sql ("002_b.sql" ∷ "notes.txt" ∷ "001_a.sql" ∷ []))
    × Progress io (rows_of empty) files 0 (ensure_migrations_table empty) (run io empty)
run-Progress_example = run-Progress io empty ("002_b.sql" ∷ "notes.txt" ∷ "001_a.sql" ∷ []) refl

run_again_test : run io migrated ≡ ended 0 migrated
run_again_test = run_again io empty 2 migrated migrates

-- The first file says something else now.
abbrev edited_io : Surroundings (List String)
edited_io = record io { read_file = λ f. done "-- edited" }

is_listed : In "001_a.sql" (files_of edited_io ("002_b.sql" ∷ "notes.txt" ∷ "001_a.sql" ∷ []))
unfolding sort insert_name dec_text
is_listed = inl refl

is_edited : ◌≢◌ {A = String} "-- 001_a.sql" "-- edited"
is_edited = cc

is_known : get "001_a.sql" (rows_of migrated) ≡ some "-- 001_a.sql"
unfolding dec_text
is_known = refl

run_edited_example : exit_code (run edited_io migrated) ≡ 1
run_edited_example =
    run_edited edited_io migrated ("002_b.sql" ∷ "notes.txt" ∷ "001_a.sql" ∷ []) "001_a.sql"
      "-- edited" "-- 001_a.sql" refl is_listed refl is_known is_edited
