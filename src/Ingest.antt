-- ===== src/Ingest.antt =====
-- crates/core/src/ingest: from the answers of the EC2 API to the nodes and edges of the graph.
pub mod Sdk
pub mod Ports
pub mod Sg
pub mod Nacl
pub mod Nodes
pub mod Edges
pub mod Stubs
pub mod Topology
pub mod Errors
pub mod Collect
pub mod Client
pub mod Pipeline
