-- ===== src/Migrations/Recorded.antt =====
-- crates/core/src/migrations.rs: proofs about the versions that `apply_version` has recorded.
use aws_net_hound.Base.{◌≡◌, ◌⊎◌, ◌∷◌, String, ℕ, ok, codes, Result}
use aws_net_hound.Migrations.Types.{Connection, MigrationError}
use aws_net_hound.Migrations.Files.{split_statements}
use aws_net_hound.Migrations.Ledger.{Ledger}
use aws_net_hound.Migrations.{start, apply_statements}

module _ {Store Txn Row Failure Mismatch : Type 0}
    (graph : Connection Store Txn Row Failure Mismatch) where
  -- A transaction that was opened in `store`, has run every statement of the source and was committed
  -- in `later`.
  pub record Committed (version : ℕ) (cypher_source : String) (store later : Store) : Type 0 where
    pub txn : Txn
    pub opened : Store
    pub done : Store
    pub start : graph.start_txn store ≡ (opened, ok txn)
    pub statements :
        apply_statements graph txn version 0 (split_statements (codes cypher_source)) opened
        ≡ (done, ok tt)
    pub finish : graph.commit_txn txn done ≡ (later, ok tt)

  module _ (ledger : Ledger graph) where
    open ledger use {versions, held, started}

    abbrev Answer : Type 0 → Type 0
    Answer A = Store × Result (MigrationError Failure Mismatch) A

    -- What `apply_version` leaves: as much is recorded as before, or the version too, and then only
    -- after the transaction of its statements was committed.
    abbrev pub Recorded : ℕ → String → Store → Store → Type 0
    Recorded version cypher_source store last =
        (versions last ≡ versions store)
        ⊎ ((versions last ≡ version ∷ versions store)
            × ((later : Store) × Committed version cypher_source store later))
