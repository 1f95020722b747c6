-- ===== src/Migrate/Runs.antt =====
-- What a run of the migrations comes to: each new file once and in order, nothing on a second run, and
-- no run over an edited file.
use mathlib.Core.List.{◌++◌ as append, Perm}
use chargeback_iq.Prelude.{
  ℕ, suc, ◌+◌, String, Option, none, some, is_some, false, not, List, [], ◌∷◌, ◌≡◌, refl, ap, subst,
  ◌∙◌, inl, inr, arith, keep, any, length, ==_iff, Bool-cases,
}
use chargeback_iq.Migrate.{
  Attempt, done, failed, Applied, State, Surroundings, Ended, ended, threw, state_of, rows_of,
  has_name, get, Round, skipped, applied, refused, transaction, apply_file, check_file, round, each,
  is_sql, sort, run, ensure_migrations_table,
}
use chargeback_iq.Migrate.Order.{IsSorted, sort-IsSorted, sort-Perm}

module _ {D : Type 0} (io : Surroundings D) where
  -- The state with a file applied and recorded.
  abbrev pub with_file : (file sql : String) → D → State D → State D
  with_file file sql rest s = record {
    migrations = some (record { filename = file; checksum = io.sha256 sql } ∷ rows_of s);
    rest = rest;
  }

  -- The files are applied one after the other, each by its contents and each recorded.
  pub data InOrder : State D → List String → State D → Type 0 where
    nothing : {s : State D} → InOrder s [] s
    file_then :
        {s t : State D} {fs : List String} (file sql : String) (rest : D)
        → io.read_file file ≡ done sql
        → get file (rows_of s) ≡ none
        → io.execute sql s.rest ≡ done rest
        → InOrder (with_file file sql rest s) fs t
        → InOrder s (file ∷ fs) t

  -- What a round has done, by how it ended.
  abbrev pub IsRound : (known : List Applied) (file : String) → State D → Round D → Type 0
  IsRound known file s skipped =
      (sql : String) × (io.read_file file ≡ done sql) × (get file known ≡ some (io.sha256 sql))
  IsRound known file s (applied t) =
      (sql : String) × (rest : D) × (io.read_file file ≡ done sql)
      × (get file known ≡ none)
      × (get file (rows_of s) ≡ none)
      × (io.execute sql s.rest ≡ done rest)
      × (t ≡ with_file file sql rest s)
  IsRound known file s (refused message) = Unit

  no_row :
      (file : String) (rows : List Applied)
      → any (has_name file) rows ≡ false
      → get file rows ≡ none
  no_row file [] h = refl
  no_row file (row ∷ rows) h = ground (arith, no_row file rows)

  checked_round :
      (known : List Applied) (file sql : String) (s : State D) (o : Option String)
      → io.read_file file ≡ done sql
      → get file known ≡ o
      → (r : Round D) → check_file io file sql o s ≡ r
      → IsRound known file s r
  unfolding apply_file transaction
  checked_round known file sql s o read g (refused message) h = tt
  checked_round known file sql s none read g skipped h =
      absurd (ground (arith, any (has_name file) (rows_of s)))
  checked_round known file sql s none read g (applied t) h = of_execute (io.execute sql s.rest) refl
    where
      of_execute : (a : Attempt D) → io.execute sql s.rest ≡ a → IsRound known file s (applied t)
      of_execute (failed message) e = absurd (ground arith)
      of_execute (done rest) e = elim (Bool-cases (any (has_name file) (rows_of s))) [
        | inl known_one ↦ absurd (ground arith)
        | inr new_one ↦ (sql, rest, read, g, no_row file (rows_of s) new_one, e, ground arith)
      ]
  checked_round known file sql s (some c) read g skipped h =
      (sql, read, g ∙ ap some ((==_iff c (io.sha256 sql)).0 (ground arith)))
  checked_round known file sql s (some c) read g (applied t) h = absurd (ground arith)

  pub round-IsRound :
      (known : List Applied) (file : String) (s : State D) (r : Round D)
      → round io known file s ≡ r
      → IsRound known file s r
  unfolding round
  round-IsRound known file s r h = of_read (io.read_file file) refl r h
    where
      of_read :
          (a : Attempt String)
          → io.read_file file ≡ a
          → (r : Round D) → round io known file s ≡ r
          → IsRound known file s r
      of_read (failed message) e (refused m) h = tt
      of_read (failed message) e skipped h = absurd (ground arith)
      of_read (failed message) e (applied t) h = absurd (ground arith)
      of_read (done sql) e r h =
          checked_round known file sql s (get file known) e refl r (ground arith)

  -- The files without a row.
  abbrev pub pending : (known : List Applied) → List String → List String
  pending known files = keep (λ f. not (is_some (get f known))) files

  -- A run that ended has reached every file, and counted those that it applied.
  abbrev pub IsComplete : (n : ℕ) (fs left : List String) → Ended D → Type 0
  IsComplete n fs left (ended count t) = (left ≡ []) × (count ≡ n + length fs)
  IsComplete n fs left (threw message t) = Unit

  IsComplete-step :
      (n : ℕ) (file : String) (fs left : List String) (o : Ended D)
      → IsComplete (suc n) fs left o
      → IsComplete n (file ∷ fs) left o
  IsComplete-step n file fs left (ended count t) (none_left, number) =
      (none_left, omega (arith, number))
  IsComplete-step n file fs left (threw message t) h = tt

  -- The pending files that were applied, in their order, and those that were not reached.
  pub record Progress (known : List Applied) (files : List String) (n : ℕ) (s : State D)
      (o : Ended D) : Type 0 where
    pub made : List String
    pub left : List String
    pub split : pending known files ≡ append made left
    pub order : InOrder s made (state_of o)
    pub complete : IsComplete n made left o

  after_round :
      (known : List Applied) (file : String) (files : List String) (n : ℕ) (s : State D)
      (o : Ended D) (r : Round D)
      → IsRound known file s r
      → elim r [
        | skipped ↦ each io known files n s
        | applied t ↦ each io known files (suc n) t
        | refused message ↦ threw message s
      ]
        ≡ o
      → ((m : ℕ) (t : State D) → each io known files m t ≡ o → Progress known files m t o)
      → Progress known (file ∷ files) n s o
  after_round known file files n s o skipped (sql, read, same) h rest =
      let p = rest n s h in
      record {
        made = p.made;
        left = p.left;
        split = ground (arith, same, p.split);
        order = p.order;
        complete = p.complete;
      }
  after_round known file files n s o (applied t) (sql, after, read, new_one, unrecorded, e, state) h
        rest =
      let p = rest (suc n) t h in
      record {
        made = file ∷ p.made;
        left = p.left;
        split = ground (arith, new_one, p.split);
        order =
            file_then file sql after read unrecorded e
              (subst (λ u. InOrder u p.made (state_of o)) state p.order);
        complete = IsComplete-step n file p.made p.left o p.complete;
      }
  after_round known file files n s o (refused message) i h rest = record {
    made = [];
    left = pending known (file ∷ files);
    split = refl;
    order = subst (λ x. InOrder s [] (state_of x)) h nothing;
    complete = subst (IsComplete n [] (pending known (file ∷ files))) h tt;
  }

  pub each-Progress :
      (known : List Applied) (files : List String) (n : ℕ) (s : State D) (o : Ended D)
      → each io known files n s ≡ o
      → Progress known files n s o
  unfolding each
  each-Progress known [] n s o h = record {
    made = [];
    left = [];
    split = refl;
    order = subst (λ x. InOrder s [] (state_of x)) h nothing;
    complete = subst (IsComplete n [] []) h (refl, omega arith);
  }
  each-Progress known (file ∷ files) n s o h =
      after_round known file files n s o (round io known file s) (round-IsRound known file s _ refl)
        h (λ m t e. each-Progress known files m t o e)

  -- However a run ends, it goes through the names of the directory that end in .sql, each as often as it
  -- is there, with no name after a greater one. The database is the one that the run found with the first
  -- files of those that had no row, each applied by its contents and recorded with its checksum, in that
  -- order; a run that ends well has applied all of them and says how many. A file that fails leaves nothing.
  pub run-Progress :
      (s : State D) (names : List String)
      → io.read_directory ≡ done names
      → (files : List String) × IsSorted files
        × Perm files (keep is_sql names)
        × Progress (rows_of s) files 0 (ensure_migrations_table s) (run io s)
  unfolding run ensure_migrations_table
  run-Progress s names d =
      let first = ensure_migrations_table s in
      let files = sort (keep is_sql names) in
      (
        files,
        sort-IsSorted (keep is_sql names),
        sort-Perm (keep is_sql names),
        subst (Progress (rows_of s) files 0 first) (ground (arith, d))
            (each-Progress (rows_of s) files 0 first _ refl),
      )
