-- ===== src/Migrate.antt =====
-- src/db/migrate.js: which files of migrations/ a run applies, and what it leaves in the database.
--
-- Reading the directory and the files, SHA-256 and the execution of a file's SQL are the record
-- Surroundings. The SQL of a file does not name `schema_migrations` and does not end its transaction.
-- The lines printed are left out.
pub mod Order
pub mod Runs
pub mod Again
use Prim.Native.String.{◌++◌, len, slice, compare}
use Prim.Native.Nat.{Ordering}
use chargeback_iq.Prelude.{
  ℕ, suc, ◌-◌, String, Option, none, some, Bool, true, false, ◌&&◌, List, [], ◌∷◌, keep, find, any,
  if◌then◌else◌, ◌==◌, leb,
}

-- What an operation outside the program comes to: a value, or an error with its message.
pub data Attempt (A : Type 0) : Type 0 where
  done : A → Attempt A
  failed : (message : String) → Attempt A

-- A row of `schema_migrations`.
pub record Applied : Type 0 where
  pub filename : String
  pub checksum : String

-- The database: `schema_migrations` once it exists, the newest row first, and everything else.
pub record State (D : Type 0) : Type 0 where
  pub migrations : Option (List Applied)
  pub rest : D

pub record Surroundings (D : Type 0) : Type 0 where
  pub read_directory : Attempt (List String)
  pub read_file : String → Attempt String
  pub sha256 : String → String
  -- The statements of a file, inside a transaction.
  pub execute : (sql : String) → D → Attempt D
  -- The driver's message for a second row with one filename.
  pub duplicate_message : String

-- How a run ends: with the number of files applied, or with the error that is printed. `exit_code`
-- is that of the process.
pub data Ended (D : Type 0) : Type 0 where
  ended : (count : ℕ) → State D → Ended D
  threw : (message : String) → State D → Ended D

abbrev pub exit_code : {D : Type 0} → Ended D → ℕ
exit_code (ended count s) = 0
exit_code (threw message s) = 1

abbrev pub state_of : {D : Type 0} → Ended D → State D
state_of (ended count s) = s
state_of (threw message s) = s

-- `f.endsWith('.sql')`
abbrev pub is_sql : String → Bool
is_sql f = leb 4 (len f) && slice f (len f - 4) (len f) == ".sql"

-- `a` stands no later than `b`: by code points, which are code units for names in the basic plane.
abbrev pub before : Ordering → Bool
before Ordering.lt = true
before Ordering.eq = true
before Ordering.gt = false

unfoldable pub insert_name : String → List String → List String
insert_name f [] = f ∷ []
insert_name f (g ∷ gs) = if before (compare f g) then f ∷ g ∷ gs else g ∷ insert_name f gs

-- `.sort()`
unfoldable pub sort : List String → List String
unfolding insert_name
sort [] = []
sort (f ∷ fs) = insert_name f (sort fs)

abbrev pub rows_of : {D : Type 0} → State D → List Applied
rows_of s = elim s.migrations [ none ↦ [] | some rows ↦ rows ]

-- `CREATE TABLE IF NOT EXISTS schema_migrations`
unfoldable pub ensure_migrations_table : {D : Type 0} → State D → State D
ensure_migrations_table s = record s { migrations = some (rows_of s) }

abbrev pub has_name : String → Applied → Bool
has_name f row = row.filename == f

-- `applied.get(file)`, undefined where `applied.has(file)` is false.
abbrev pub checksum_of : Option Applied → Option String
checksum_of none = none
checksum_of (some row) = some row.checksum

abbrev pub get : String → List Applied → Option String
get f rows = checksum_of (find (has_name f) rows)

-- One round of the loop: whether it applied the file, and the state after it; a transaction that failed
-- is rolled back.
pub data Round (D : Type 0) : Type 0 where
  skipped : Round D
  applied : State D → Round D
  refused : (message : String) → Round D

module _ {D : Type 0} (io : Surroundings D) where
  -- The INSERT, where the filename is the primary key.
  abbrev pub record_file : (file checksum : String) → D → State D → Attempt (State D)
  record_file file checksum rest s =
      if any (has_name file) (rows_of s)
      then failed io.duplicate_message
      else done (record {
        migrations = some (record { filename = file; checksum = checksum } ∷ rows_of s);
        rest = rest;
      })

  -- BEGIN, the file, its row and COMMIT.
  unfoldable pub transaction : (file sql checksum : String) → State D → Attempt (State D)
  transaction file sql checksum s = elim (io.execute sql s.rest) [
    | done rest ↦ record_file file checksum rest s
    | failed message ↦ failed message
  ]

  unfoldable pub apply_file : (file sql : String) → State D → Round D
  unfolding transaction
  apply_file file sql s = elim (transaction file sql (io.sha256 sql) s) [
    | done t ↦ applied t
    | failed message ↦ refused ("Migration " ++ file ++ " failed: " ++ message)
  ]

  -- `checksum` against the one on record.
  abbrev pub check_file : (file sql : String) → Option String → State D → Round D
  check_file file sql none s = apply_file file sql s
  check_file file sql (some checksum) s =
      if checksum == io.sha256 sql
      then skipped
      else refused (
          "Migration " ++ file ++ " was modified after being applied.\n"
          ++ "Create a new migration instead of editing an applied one.")

  -- The body of the loop. `known` is the map that was read before the loop.
  unfoldable pub round : (known : List Applied) → (file : String) → State D → Round D
  unfolding apply_file
  round known file s = elim (io.read_file file) [
    | done sql ↦ check_file file sql (get file known) s
    | failed message ↦ refused message
  ]

  unfoldable pub each : (known : List Applied) → List String → (count : ℕ) → State D → Ended D
  unfolding round
  each known [] count s = ended count s
  each known (file ∷ files) count s =
      let next : (count : ℕ) → State D → Ended D = each known files in
      elim (round known file s) [
        | skipped ↦ next count s
        | applied t ↦ next (suc count) t
        | refused message ↦ threw message s
      ]

  -- The files of a run.
  abbrev pub files_of : List String → List String
  files_of names = sort (keep is_sql names)

  unfoldable pub run : State D → Ended D
  unfolding each ensure_migrations_table sort
  run s = elim io.read_directory [
    | done names ↦
        each (rows_of (ensure_migrations_table s)) (files_of names) 0 (ensure_migrations_table s)
    | failed message ↦ threw message (ensure_migrations_table s)
  ]
