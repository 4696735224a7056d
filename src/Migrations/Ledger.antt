-- ===== src/Migrations/Ledger.antt =====
-- What crates/core/src/migrations.rs relies on of Neo4j: the versions that stand as `SchemaMigration`
-- nodes, those that the open transaction has merged, and how the calls of the driver change the two.
use aws_net_hound.Base.{◌≡◌, ◌⊎◌, ℕ, List, [], ◌∷◌, ◌++◌, String, true, ok}
use aws_net_hound.Base.Streams.{Stream, closed, broken, item}
use aws_net_hound.Base.Int.{pos}
use aws_net_hound.Migrations.Types.{Connection, statement, merge_version}
use aws_net_hound.Migrations.{applied_query, holds}

module _ {Store Txn Row Failure Mismatch : Type 0}
    (graph : Connection Store Txn Row Failure Mismatch) where
  -- The rows of a reply are these versions, up to an error of the driver.
  abbrev pub Lists : Stream Failure Row → List ℕ → Type 0
  Lists closed [] = Unit
  Lists closed (v ∷ vs) = ⊥
  Lists (broken failure) vs = Unit
  Lists (item r rest) [] = ⊥
  Lists (item r rest) (v ∷ vs) = (graph.get_version r ≡ ok (pos v)) × Lists rest vs

  pub record Ledger : Type 0 where
    pub versions : Store → List ℕ
    pub held : Store → List ℕ
    -- A schema command and a read record nothing, and a read gives what is recorded, in any order.
    pub plain :
        (query : String) (store : Store) → versions (graph.run query store).0 ≡ versions store
    pub reads :
        (query : String) (store : Store) → versions (graph.execute query store).0 ≡ versions store
    pub answers :
        (store later : Store) (reply : Stream Failure Row)
        → graph.execute applied_query store ≡ (later, ok reply)
        → (vs : List ℕ) × Lists reply vs × ((v : ℕ) → holds vs v ≡ holds (versions store) v)
    -- A transaction starts with nothing held back, and statements of files merge no version. A merge
    -- holds its version back, or finds it; one that fails may hold it back as well.
    pub started :
        (store : Store)
        → (versions (graph.start_txn store).0 ≡ versions store)
          × (held (graph.start_txn store).0 ≡ [])
    pub ran :
        (txn : Txn) (cypher : List ℕ) (store : Store)
        → (versions (graph.run_in txn (statement cypher) store).0 ≡ versions store)
          × (held (graph.run_in txn (statement cypher) store).0 ≡ held store)
    pub merged :
        (txn : Txn) (version : ℕ) (store : Store)
        → (versions (graph.run_in txn (merge_version version) store).0 ≡ versions store)
          × ((held (graph.run_in txn (merge_version version) store).0 ≡ held store)
              ⊎ (held (graph.run_in txn (merge_version version) store).0 ≡ version ∷ held store))
    pub merged_there :
        (txn : Txn) (version : ℕ) (store later : Store)
        → graph.run_in txn (merge_version version) store ≡ (later, ok tt)
        → holds (held later ++ versions later) version ≡ true
    -- A commit makes the merged versions stand; one that fails has done all of it or nothing.
    pub committed :
        (txn : Txn) (store later : Store)
        → graph.commit_txn txn store ≡ (later, ok tt)
        → versions later ≡ held store ++ versions store
    pub uncommitted :
        (txn : Txn) (store : Store)
        → (versions (graph.commit_txn txn store).0 ≡ versions store)
          ⊎ (versions (graph.commit_txn txn store).0 ≡ held store ++ versions store)
    pub undone :
        (txn : Txn) (store : Store) → versions (graph.rollback txn store).0 ≡ versions store
