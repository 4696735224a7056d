-- ===== src/Migrations/Answering.antt =====
-- crates/core/src/migrations.rs: a run over a driver that never fails.
use aws_net_hound.Base.{
  ◌≡◌, refl, ap, ◌∙◌, ◌↔◌, ℕ, Bool, true, false, none, List, [], ◌∷◌, ◌++◌, String, Result, ok, All,
  if◌then◌else◌,
}
use aws_net_hound.Base.Effect.{Effect, resume, wrap_result, lift, ◌>>>◌}
use aws_net_hound.Base.Streams.{Stream, closed, broken, item, failure_of}
use aws_net_hound.Base.Int.{ℤ}
use aws_net_hound.Migrations.Types.{Connection, MigrationError, Query, MigrationSummary}
use aws_net_hound.Migrations.Files.{Migration, ordered_migrations}
use aws_net_hound.Migrations.Files.Names.{
  IsNamed, ordered_migrations-IsOrdered, ordered_migrations_of_named,
}
use aws_net_hound.Migrations.Summary.{run-Ran}
use aws_net_hound.Migrations.{
  as_u32, applied_query, schema_migration_constraint, or_rollback, holds, apply_statements,
  write_version, apply_version, read_versions, read_applied, bootstrap_constraint, migrate_one,
  migrate_all, run,
}

module _ {Store E A : Type 0} where
  -- The call has an answer.
  abbrev pub Succeeds : Store × Result E A → Type 0
  Succeeds answer = (store : Store) × (a : A) × (answer ≡ (store, ok a))

module _ {Store E A B : Type 0} where
  resume-Succeeds :
      (first : Store × Result E A) (next : A → Effect Store E B)
      → Succeeds first
      → ((a : A) (store : Store) → Succeeds (next a store))
      → Succeeds (resume first next)
  resume-Succeeds first next (store, a, e) later =
      let (last, b, f) = later a store in (last, b, ap (λ p. resume p next) e ∙ f)

module _ {Store E A F : Type 0} where
  wrap_result-Succeeds :
      (f : E → F) (answer : Store × Result E A) → Succeeds answer → Succeeds (wrap_result f answer)
  wrap_result-Succeeds f answer (store, a, e) = (store, a, ap (wrap_result f) e)

module _ {Store Txn Row Failure Mismatch : Type 0}
    (graph : Connection Store Txn Row Failure Mismatch) where
  -- Every call of the driver succeeds, every reply is read to its end, and every row has a version.
  pub record Answers : Type 0 where
    pub runs : (query : String) (store : Store) → Succeeds (graph.run query store)
    pub executes :
        (query : String) (store : Store)
        → (later : Store) × (reply : Stream Failure Row) × (graph.execute query store
            ≡ (later, ok reply))
          × (failure_of reply ≡ none)
    pub has_version : (row : Row) → (version : ℤ) × (graph.get_version row ≡ ok version)
    pub starts : (store : Store) → Succeeds (graph.start_txn store)
    pub runs_in :
        (txn : Txn) (query : Query) (store : Store) → Succeeds (graph.run_in txn query store)
    pub commits : (txn : Txn) (store : Store) → Succeeds (graph.commit_txn txn store)

  module _ (answers : Answers) where
    open answers use {runs, executes, has_version, starts, runs_in, commits}

    or_rollback-Succeeds :
        (txn : Txn) (wrap : Failure → MigrationError Failure Mismatch)
        (answer : Store × Result Failure (Unit {0}))
        → Succeeds answer
        → Succeeds (or_rollback graph txn wrap answer)
    or_rollback-Succeeds txn wrap answer (store, a, e) =
        (store, tt, ap (or_rollback graph txn wrap) e)

    apply_statements-Succeeds :
        (txn : Txn) (version index : ℕ) (cyphers : List (List ℕ)) (store : Store)
        → Succeeds (apply_statements graph txn version index cyphers store)
    unfolding apply_statements
    apply_statements-Succeeds txn version index [] store = (store, tt, refl)
    apply_statements-Succeeds txn version index (cypher ∷ cyphers) store =
        resume-Succeeds _ _ (or_rollback-Succeeds txn _ _ (runs_in txn _ store))
          (λ _. apply_statements-Succeeds txn version _ cyphers)

    write_version-Succeeds :
        (version : ℕ) (store : Store) → Succeeds (write_version graph version store)
    unfolding write_version
    write_version-Succeeds version store =
        resume-Succeeds _ _ (wrap_result-Succeeds _ _ (starts store)) (λ txn opened.
          resume-Succeeds _ _ (or_rollback-Succeeds txn _ _ (runs_in txn _ opened))
            (λ _ done. wrap_result-Succeeds _ _ (commits txn done)))

    apply_version-Succeeds :
        (version : ℕ) (cypher_source : String) (store : Store)
        → Succeeds (apply_version graph version cypher_source store)
    unfolding apply_version
    apply_version-Succeeds version cypher_source store =
        resume-Succeeds _ _ (wrap_result-Succeeds _ _ (starts store)) (λ txn opened.
          resume-Succeeds _ _ (apply_statements-Succeeds txn version 0 _ opened) (λ _ done.
            resume-Succeeds _ _ (wrap_result-Succeeds _ _ (commits txn done))
              (λ _. write_version-Succeeds version)))

    read_versions_complete :
        (reply : Stream Failure Row)
        → failure_of reply ≡ none
        → (already : List ℕ) × (read_versions graph reply ≡ ok already)
    unfolding read_versions
    read_versions_complete closed h = ([], refl)
    read_versions_complete (broken failure) h = absurd cc
    read_versions_complete (item row rest) h =
        let (version, got) = has_version row in
        let (already, read) = read_versions_complete rest h in
        (as_u32 version ∷ already, rw (got, read) refl)

    read_applied-Succeeds : (store : Store) → Succeeds (read_applied graph store)
    unfolding read_applied
    read_applied-Succeeds store =
        let (later, reply, executed, complete) = executes applied_query store in
        let (already, read) = read_versions_complete reply complete in
        (later, already, rw (executed, read) refl)

    migrate_one-Succeeds :
        (already : List ℕ) (m : Migration) (summary : MigrationSummary) (store : Store)
        → Succeeds (migrate_one graph already m summary store)
    unfolding migrate_one
    migrate_one-Succeeds already m summary store = go (holds already m.version)
      where
        go :
            (old : Bool)
            → Succeeds (
                (if old
                    then lift (ok (record summary { skipped = summary.skipped ++ m.version ∷ [] }))
                    else (apply_version graph m.version m.content >>> λ _.
                        lift (ok (record summary { applied = summary.applied ++ m.version ∷ [] }))))
                  store)
        go true = (store, _, refl)
        go false =
            resume-Succeeds _ _ (apply_version-Succeeds m.version m.content store)
              (λ _ later. (later, _, refl))

    migrate_all-Succeeds :
        (already : List ℕ) (ms : List Migration) (summary : MigrationSummary) (store : Store)
        → Succeeds (migrate_all graph already ms summary store)
    unfolding migrate_all
    migrate_all-Succeeds already [] summary store = (store, summary, refl)
    migrate_all-Succeeds already (m ∷ ms) summary store =
        resume-Succeeds _ _ (migrate_one-Succeeds already m summary store)
          (migrate_all-Succeeds already ms)

    bootstrap_constraint-Succeeds : (store : Store) → Succeeds (bootstrap_constraint graph store)
    unfolding bootstrap_constraint
    bootstrap_constraint-Succeeds store =
        wrap_result-Succeeds _ _ (runs schema_migration_constraint store)

    run-Succeeds :
        (files : List (String × String)) (store : Store) (ms : List Migration)
        → ordered_migrations {Failure = Failure} {Mismatch = Mismatch} files ≡ ok ms
        → Succeeds (run graph files store)
    unfolding run
    run-Succeeds files store ms ordered =
        resume-Succeeds _ _ (bootstrap_constraint-Succeeds store) (λ _ put.
          resume-Succeeds _ _ (read_applied-Succeeds put) (λ already read.
            resume-Succeeds _ _ (read, ms, ap (λ r. (read, r)) ordered)
              (λ ms. migrate_all-Succeeds already ms (record { applied = []; skipped = [] }))))

    -- Over a driver that never fails, a run of the migrations succeeds exactly when every file has a
    -- name that is a number of 32 bits, or one up to its first underscore.
    pub run-Succeeds_iff :
        (files : List (String × String)) (store : Store)
        → Succeeds (run graph files store) ↔ All IsNamed files
    run-Succeeds_iff files store = (
      (λ (last, out, e).
          let r = run-Ran graph files store last out e in
          (ordered_migrations-IsOrdered {Failure = Failure} {Mismatch = Mismatch} files r.migrations
            r.order).1),
      (λ named.
          let (ms, ordered) =
            ordered_migrations_of_named {Failure = Failure} {Mismatch = Mismatch} files named in
          run-Succeeds files store ms ordered),
    )
