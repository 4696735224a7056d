-- ===== src/Graph.antt =====
-- crates/core/src/graph: the nodes and edges of the graph, and the rows that they are written from.
pub mod Bolt
pub mod Model
pub mod Rows
pub mod Grouping
pub mod Chunks
pub mod NodeRows
pub mod Cypher
pub mod Writer
