-- ===== src/Migrations/Types.antt =====
-- crates/core/src/migrations.rs and the migration errors of crates/core/src/error.rs. The connection is
-- a parameter: what each call of the `neo4rs` driver does to the database, and what it answers.
use aws_net_hound.Base.{ℕ, List, String, Result}
use aws_net_hound.Base.Effect.{Effect}
use aws_net_hound.Base.Int.{ℤ}
use aws_net_hound.Base.Streams.{Stream}

-- `Failure` is an error of the driver, `Mismatch` one of reading a column.
pub data MigrationError (Failure Mismatch : Type 0) : Type 0 where
  malformed_filename : (filename : String) → MigrationError Failure Mismatch
  bootstrap : Failure → MigrationError Failure Mismatch
  read_applied_versions : Failure → MigrationError Failure Mismatch
  read_applied_versions_deserialize : Mismatch → MigrationError Failure Mismatch
  start_transaction : (version : ℕ) → Failure → MigrationError Failure Mismatch
  statement_failed : (version statement_index : ℕ) → Failure → MigrationError Failure Mismatch
  record_version : (version : ℕ) → Failure → MigrationError Failure Mismatch
  commit : (version : ℕ) → Failure → MigrationError Failure Mismatch

pub record MigrationSummary : Type 0 where
  pub applied : List ℕ
  pub skipped : List ℕ

-- What is run in a transaction: a statement of a file, or the `MERGE` that records a version.
pub data Query : Type 0 where
  statement : (cypher : List ℕ) → Query
  merge_version : (version : ℕ) → Query

pub record Connection (Store Txn Row Failure Mismatch : Type 0) : Type 0 where
  pub run : String → Effect Store Failure (Unit {0})
  pub execute : String → Effect Store Failure (Stream Failure Row)
  pub get_version : Row → Result Mismatch ℤ
  pub start_txn : Effect Store Failure Txn
  pub run_in : Txn → Query → Effect Store Failure (Unit {0})
  pub commit_txn : Txn → Effect Store Failure (Unit {0})
  pub rollback : Txn → Effect Store Failure (Unit {0})
