-- ===== src/Graph/Writer/Batches.antt =====
-- crates/core/src/graph/neo4j.rs: proofs about the statements that `run_node_upsert` sends.
use aws_net_hound.Base.{
  ◌≡◌, refl, ◌⊎◌, inl, inr, List, [], ◌∷◌, String, concat, ok, err, Result, arith,
}
use aws_net_hound.Base.Effect.{for_each, wrap_result}
use aws_net_hound.Graph.Chunks.{chunk_rows, chunk_rows_lem, chunk_rows-IsBatched, IsBatched}
use aws_net_hound.Graph.Cypher.{node_upsert_query}
use aws_net_hound.Graph.NodeRows.{NodeRow}
use aws_net_hound.Graph.Writer.{Driver, WriteError, driver_failure, run_node_upsert}

module _ {Store Failure Stream Row : Type 0} (graph : Driver Store Failure Stream Row)
    (label : String) where
  -- The batches are sent one after the other, and the first that is refused ends it.
  abbrev pub Sent :
      List (List NodeRow) → Store → Store × Result (WriteError Failure) (Unit {0}) → Type 0
  Sent [] store answer = answer ≡ (store, ok tt)
  Sent (batch ∷ rest) store answer =
      ((later : Store) × (graph.run (node_upsert_query label) batch store ≡ (later, ok tt))
        × Sent rest later answer)
      ⊎ ((later : Store) × (failure : Failure) × (graph.run (node_upsert_query label) batch store
            ≡ (later, err failure))
          × (answer ≡ (later, err (driver_failure failure))))

  abbrev send : List NodeRow → Store → Store × Result (WriteError Failure) (Unit {0})
  send batch store = wrap_result driver_failure (graph.run (node_upsert_query label) batch store)

  for_each-Sent :
      (batches : List (List NodeRow)) (store : Store)
      → Sent batches store (for_each send batches store)
  for_each-Sent [] store = refl
  for_each-Sent (batch ∷ rest) store =
      go (graph.run (node_upsert_query label) batch store) refl (for_each-Sent rest)
    where
      go :
          (r : Store × Result Failure (Unit {0}))
          → graph.run (node_upsert_query label) batch store ≡ r
          → ((later : Store) → Sent rest later (for_each send rest later))
          → Sent (batch ∷ rest) store (for_each send (batch ∷ rest) store)
      go (later, ok u) e others = inl (later, e, rw e (others later))
      go (later, err failure) e others = inr (later, failure, e, rw e refl)

  -- The rows are sent in their order, each once, in statements of a thousand rows each, of which only
  -- the last may be smaller and none is empty. Each is sent to the store that the one before has left,
  -- and the first that fails is the last one and its failure the answer.
  pub run_node_upsert-Sent :
      (rows : List NodeRow) (store : Store)
      → (batches : List (List NodeRow)) × (concat batches ≡ rows)
        × IsBatched 1000 batches
        × Sent batches store (run_node_upsert graph label rows store)
  unfolding run_node_upsert
  run_node_upsert-Sent rows store = (
    chunk_rows rows 1000,
    (chunk_rows_lem rows 1000 (omega arith)).0,
    chunk_rows-IsBatched rows 1000 (omega arith),
    for_each-Sent (chunk_rows rows 1000) store,
  )
