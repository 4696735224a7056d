-- ===== src/Migrations.antt =====
-- crates/core/src/migrations.rs: the runner. Logging is left out. The table of embedded files is an
-- argument of `run`; `Embedded` has that of the repository.
pub mod Types
pub mod Files
pub mod Embedded
pub mod Summary
pub mod Ledger
pub mod Kept
pub mod Recorded
pub mod Adds
pub mod Twice
pub mod Answering
use aws_net_hound.Base.{
  ℕ, suc, ◌==◌, ◌-◌, ◌%◌, Bool, List, [], ◌∷◌, ◌++◌, String, codes, any, Result, ok, err, map_err,
  map_ok, if◌then◌else◌, ◌>>=◌,
}
use aws_net_hound.Base.Effect.{Effect, ◌>>>◌, ◌>>◌, lift, wrap_result, resume}
use aws_net_hound.Base.Streams.{Stream, closed, broken, item}
use aws_net_hound.Base.Int.{ℤ, pos, negsuc}
use aws_net_hound.Migrations.Types.{
  MigrationError, bootstrap, read_applied_versions, read_applied_versions_deserialize,
  start_transaction, statement_failed, record_version, commit, MigrationSummary, Query, statement,
  merge_version, Connection,
}
use aws_net_hound.Migrations.Files.{Migration, ordered_migrations, split_statements}

-- `as u32` on an `i64`.
abbrev pub as_u32 : ℤ → ℕ
as_u32 (pos n) = n % 4294967296
as_u32 (negsuc n) = 4294967295 - n % 4294967296

-- `HashSet::contains`.
abbrev pub holds : List ℕ → ℕ → Bool
holds versions version = any (λ v. v == version) versions

abbrev pub schema_migration_constraint : String
schema_migration_constraint =
    "CREATE CONSTRAINT schema_migration_version_unique IF NOT EXISTS FOR (n:SchemaMigration) REQUIRE n.version IS UNIQUE"

abbrev pub applied_query : String
applied_query = "MATCH (n:SchemaMigration) RETURN n.version AS version"

module _ {Store Txn Row Failure Mismatch : Type 0}
    (graph : Connection Store Txn Row Failure Mismatch) where
  abbrev pub Run : Type 0 → Type 0
  Run A = Effect Store (MigrationError Failure Mismatch) A

  -- A call in a transaction; a failure is answered by a rollback, whose own failure is ignored.
  abbrev pub or_rollback :
      Txn
      → (Failure → MigrationError Failure Mismatch)
      → Store × Result Failure (Unit {0})
      → Store × Result (MigrationError Failure Mismatch) (Unit {0})
  or_rollback txn wrap (store, ok _) = (store, ok tt)
  or_rollback txn wrap (store, err failure) = ((graph.rollback txn store).0, err (wrap failure))

  abbrev pub start : ℕ → Run Txn
  start version store = wrap_result (start_transaction version) (graph.start_txn store)

  abbrev pub commit_all : Txn → ℕ → Run (Unit {0})
  commit_all txn version store = wrap_result (commit version) (graph.commit_txn txn store)

  -- The loop over the statements, from a given index on.
  unfoldable pub apply_statements : Txn → ℕ → ℕ → List (List ℕ) → Run (Unit {0})
  apply_statements txn version index [] store = (store, ok tt)
  apply_statements txn version index (cypher ∷ statements) store =
      resume
        (or_rollback txn (statement_failed version index)
          (graph.run_in txn (statement cypher) store))
        (λ _. apply_statements txn version (suc index) statements)

  -- What `record_version` does in its transaction.
  abbrev pub merge_in : Txn → ℕ → Run (Unit {0})
  merge_in txn version =
      (λ store.
        or_rollback txn (record_version version) (graph.run_in txn (merge_version version) store))
      >> commit_all txn version

  unfoldable pub write_version : ℕ → Run (Unit {0})
  write_version version = start version >>> λ txn. merge_in txn version

  -- What `apply_version` does once its transaction is open.
  abbrev pub apply_in : Txn → ℕ → List (List ℕ) → Run (Unit {0})
  apply_in txn version cyphers =
      apply_statements txn version 0 cyphers >> commit_all txn version >> write_version version

  unfoldable pub apply_version : ℕ → String → Run (Unit {0})
  apply_version version cypher_source =
      start version >>> λ txn. apply_in txn version (split_statements (codes cypher_source))

  unfoldable pub read_versions :
      Stream Failure Row → Result (MigrationError Failure Mismatch) (List ℕ)
  read_versions closed = ok []
  read_versions (broken failure) = err (read_applied_versions failure)
  read_versions (item r rest) =
      map_err read_applied_versions_deserialize (graph.get_version r) >>= λ version.
      map_ok (λ versions. as_u32 version ∷ versions) (read_versions rest)

  unfoldable pub read_applied : Run (List ℕ)
  read_applied =
      (λ store. wrap_result read_applied_versions (graph.execute applied_query store)) >>> λ reply.
      lift (read_versions reply)

  unfoldable pub bootstrap_constraint : Run (Unit {0})
  bootstrap_constraint store = wrap_result bootstrap (graph.run schema_migration_constraint store)

  -- One round of the loop of `run`.
  unfoldable pub migrate_one : List ℕ → Migration → MigrationSummary → Run MigrationSummary
  migrate_one already m summary =
      if holds already m.version
      then lift (ok (record summary { skipped = summary.skipped ++ m.version ∷ [] }))
      else (apply_version m.version m.content >>> λ _.
          lift (ok (record summary { applied = summary.applied ++ m.version ∷ [] })))

  unfoldable pub migrate_all : List ℕ → List Migration → MigrationSummary → Run MigrationSummary
  migrate_all already [] summary store = (store, ok summary)
  migrate_all already (m ∷ ms) summary store =
      resume (migrate_one already m summary store) (migrate_all already ms)

  unfoldable pub run : List (String × String) → Run MigrationSummary
  run files = bootstrap_constraint >>> λ _. read_applied >>> λ already.
      lift (ordered_migrations files) >>> λ migrations.
      migrate_all already migrations (record { applied = []; skipped = [] })
