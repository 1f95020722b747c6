-- ===== src/Migrate/Again.antt =====
-- A second run of the migrations, and a run over an edited file.
use chargeback_iq.Prelude.{
  ℕ, suc, String, none, some, List, [], ◌∷◌, ◌≡◌, ◌≢◌, refl, sym, ap, subst, ◌∙◌, inl, inr, arith,
  In, ==_refl, ==_ne,
}
use chargeback_iq.Migrate.{
  Attempt, done, failed, Applied, State, Surroundings, Ended, ended, threw, exit_code, rows_of, get,
  Round, skipped, applied, refused, round, each, files_of, run, ensure_migrations_table,
}
use chargeback_iq.Migrate.Runs.{IsRound, round-IsRound, InOrder, nothing, file_then, each-Progress}

module _ {D : Type 0} (io : Surroundings D) where
  -- The file can be read, and is on record with the checksum of its contents.
  abbrev IsOnRecord : List Applied → String → Type 0
  IsOnRecord rows file =
      (sql : String) × (io.read_file file ≡ done sql) × (get file rows ≡ some (io.sha256 sql))

  -- A file on record stays so.
  stays_on_record :
      {s t : State D} {fs : List String} (f c : String)
      → InOrder io s fs t
      → get f (rows_of s) ≡ some c
      → get f (rows_of t) ≡ some c
  stays_on_record f c nothing h = h
  stays_on_record {s} f c (file_then file sql rest read new_one e r) h = stays_on_record f c r (
      ground (
        arith,
        ==_ne file f (λ same. absurd (cc (subst (λ x. get x (rows_of s) ≡ none) same new_one, h))),
      ))

  -- What a run that ended leaves on record: every file.
  ended_round :
      (known : List Applied) (file : String) (files : List String) (n count : ℕ) (s t : State D)
      (r : Round D)
      → IsRound io known file s r
      → elim r [
        | skipped ↦ each io known files n s
        | applied u ↦ each io known files (suc n) u
        | refused message ↦ threw message s
      ]
        ≡ ended count t
      → ((c : String) → get file known ≡ some c → get file (rows_of s) ≡ some c)
      → (m : ℕ) × (u : State D) × (each io known files m u ≡ ended count t)
        × IsOnRecord (rows_of u) file
        × ((f c : String) → get f (rows_of s) ≡ some c → get f (rows_of u) ≡ some c)
  ended_round known file files n count s t skipped (sql, read, same) h kept =
      (n, s, h, (sql, read, kept (io.sha256 sql) same), λ f c g. g)
  ended_round known file files n count s t (applied u) (sql, rest, read, new_one, no_row, e, state)
        h kept =
      (
        suc n,
        u,
        h,
        (
          sql,
          read,
          ap (λ (x : State D). get file (rows_of x)) state ∙ ground (arith, ==_refl file),
        ),
        λ f c g.
            ap (λ (x : State D). get f (rows_of x)) state
            ∙ stays_on_record f c (file_then {s = s} file sql rest read no_row e nothing) g,
      )
  ended_round known file files n count s t (refused message) i h kept = absurd (cc h)

  each_stays :
      (known : List Applied) (files : List String) (n count : ℕ) (s t : State D) (f c : String)
      → each io known files n s ≡ ended count t
      → get f (rows_of s) ≡ some c
      → get f (rows_of t) ≡ some c
  each_stays known files n count s t f c h g =
      stays_on_record f c (each-Progress io known files n s (ended count t) h).order g

  each_ended :
      (known : List Applied) (files : List String) (n count : ℕ) (s t : State D)
      → each io known files n s ≡ ended count t
      → ((f c : String) → get f known ≡ some c → get f (rows_of s) ≡ some c)
      → (file : String) → In file files
      → IsOnRecord (rows_of t) file
  unfolding each
  each_ended known [] n count s t h kept file i = elim i [ ]
  each_ended known (x ∷ files) n count s t h kept file i =
      let (m, u, e, (sql, read, recorded), more) =
        ended_round known x files n count s t (round io known x s)
          (round-IsRound io known x s _ refl) h (kept x) in
      elim i [
        | inl same ↦
            subst (IsOnRecord (rows_of t)) (sym same)
              (sql, read, each_stays known files m count u t x (io.sha256 sql) e recorded)
        | inr j ↦ each_ended known files m count u t e (λ f c g. more f c (kept f c g)) file j
      ]

  -- A run over files that are all on record applies nothing.
  each_recorded :
      (known : List Applied) (files : List String) (n : ℕ) (s : State D)
      → ((file : String) → In file files → IsOnRecord known file)
      → each io known files n s ≡ ended n s
  unfolding each round
  each_recorded known [] n s all = refl
  each_recorded known (x ∷ files) n s all =
      let (sql, read, recorded) = all x (inl refl) in
      ground (
        arith,
        read,
        recorded,
        ==_refl (io.sha256 sql),
        each_recorded known files n s (λ f i. all f (inr i)),
      )

  abbrev HasTable : State D → Type 0
  HasTable s = ensure_migrations_table s ≡ s

  InOrder-HasTable :
      {s t : State D} {fs : List String} → InOrder io s fs t → HasTable s → HasTable t
  unfolding ensure_migrations_table
  InOrder-HasTable nothing h = h
  InOrder-HasTable (file_then file sql rest read new_one e r) h = InOrder-HasTable r refl

  -- Once a run has ended well, the next one finds every file on record and changes nothing.
  pub run_again :
      (s : State D) (count : ℕ) (t : State D) → run io s ≡ ended count t → run io t ≡ ended 0 t
  unfolding run ensure_migrations_table
  run_again s count t h = of_names io.read_directory refl
    where
      of_names : (names : Attempt (List String)) → io.read_directory ≡ names → run io t ≡ ended 0 t
      of_names (failed message) e = absurd (ground arith)
      of_names (done names) e =
          let first = ensure_migrations_table s in
          let loop : each io (rows_of s) (files_of io names) 0 first ≡ ended count t =
            ground arith in
          let table : HasTable t =
            InOrder-HasTable
              (each-Progress io (rows_of s) (files_of io names) 0 first (ended count t) loop).order
              refl in
          let recorded : (f : String) → In f (files_of io names) → IsOnRecord (rows_of t) f =
            each_ended (rows_of s) (files_of io names) 0 count first t loop (λ f c g. g) in
          let second : each io (rows_of t) (files_of io names) 0 t ≡ ended 0 t =
            each_recorded (rows_of t) (files_of io names) 0 t recorded in
          ground (arith, e, table, second)

  -- A file of the directory that was edited after it was applied stops the run: the process exits
  -- with 1.
  pub run_edited :
      (s : State D) (names : List String) (file sql c : String)
      → io.read_directory ≡ done names
      → In file (files_of io names)
      → io.read_file file ≡ done sql
      → get file (rows_of s) ≡ some c
      → c ≢ io.sha256 sql
      → exit_code (run io s) ≡ 1
  unfolding run ensure_migrations_table
  run_edited s names file sql c d i read known edited =
      of_end (each io (rows_of s) (files_of io names) 0 (ensure_migrations_table s)) refl
    where
      of_end :
          (o : Ended D)
          → each io (rows_of s) (files_of io names) 0 (ensure_migrations_table s) ≡ o
          → exit_code (run io s) ≡ 1
      of_end (threw message t) e = ground (arith, d)
      of_end (ended count t) e =
          let (text, again, recorded) =
            each_ended (rows_of s) (files_of io names) 0 count _ t e (λ f x g. g) file i in
          let kept : get file (rows_of t) ≡ some c =
            each_stays (rows_of s) (files_of io names) 0 count (ensure_migrations_table s) t file c
              e known in
          absurd (edited (cc (recorded, kept, again, read)))
