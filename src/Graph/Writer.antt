-- ===== src/Graph/Writer.antt =====
-- crates/core/src/graph/neo4j.rs: `Neo4jGraphWriter`. The connection is a parameter: what each call of
-- the `neo4rs` driver does to the database, and what it answers or fails with. Logging is left out, and
-- with it the running total that is only logged. Arithmetic on `usize` wraps, as in a release build.
pub mod Merged
pub mod Batches
pub mod Routes
use aws_net_hound.Base.{
  ℕ, suc, ◌+◌, ◌-◌, ◌%◌, ◌==◌, Bool, true, false, Option, none, some, List, [], ◌∷◌, ◌++◌, String,
  map, flat_map, length, Result, ok, err, ok_or, map_err, ◌>>=◌, if◌then◌else◌,
}
use mathlib.Core.List.{foldl}
use aws_net_hound.Base.Effect.{Effect, ◌>>>◌, ◌>>◌, lift, wrap_result, for_each}
use aws_net_hound.Base.Int.{ℤ, pos, negsuc}
use aws_net_hound.Domain.Rule.{NaclRule}
use aws_net_hound.Graph.Bolt.{Props}
use aws_net_hound.Graph.Chunks.{chunk_rows}
use aws_net_hound.Graph.Cypher.{
  node_upsert_query, has_sg_upsert, in_subnet_upsert, protected_by_upsert, uses_route_table_upsert,
  routes_to_resolved_upsert, routes_to_unresolved_upsert, allows_egress_cidr_upsert,
  allows_egress_sg_ref_resolved_upsert, allows_egress_sg_ref_unresolved_upsert,
  allows_ingress_cidr_upsert, allows_ingress_sg_ref_resolved_upsert,
  allows_ingress_sg_ref_unresolved_upsert, has_rule_upsert,
}
use aws_net_hound.Graph.Grouping.{split_sg_rule_rows}
use aws_net_hound.Graph.Model.{
  RoutesToEdge, SgRuleBatch, NaclRuleBatch, Call, upsert_enis, upsert_security_groups,
  upsert_network_acls, upsert_subnets, upsert_vpcs, upsert_route_tables,
  upsert_regulated_boundaries, upsert_has_sg_edges, upsert_in_subnet_edges,
  upsert_protected_by_edges, upsert_uses_route_table_edges, upsert_routes_to_edges,
  upsert_allows_ingress_rules, upsert_allows_egress_rules, upsert_has_rules,
}
use aws_net_hound.Graph.NodeRows.{
  NodeRow, eni_row, security_group_row, network_acl_row, subnet_row, vpc_row, route_table_row,
  regulated_boundary_row, has_sg_row, in_subnet_row, protected_by_row, uses_route_table_row,
  routes_to_resolved_row, routes_to_unresolved_row,
}
use aws_net_hound.Graph.Rows.{SplitRows, nacl_rule_row}

-- The calls of the driver: `run`, `execute`, `next` on the stream that `execute` opens, which reads it
-- and leaves the database as it is, and `get` of the column `merged`.
pub record Driver (Store Failure Stream Row : Type 0) : Type 0 where
  pub run : String → List NodeRow → Effect Store Failure (Unit {0})
  pub execute : String → List Props → Effect Store Failure Stream
  pub next : Stream → Result Failure (Option Row)
  pub get_merged : Row → Result Failure ℤ

-- `GraphWriteError::Write` by its source: the driver's failure, or one of the writer's own texts with
-- the values that are printed in it.
pub data WriteError (Failure : Type 0) : Type 0 where
  driver_failure : Failure → WriteError Failure
  no_summary_row : String → WriteError Failure
  unresolved_endpoint : String → ℕ → ℕ → WriteError Failure
  inconsistent_route : RoutesToEdge → WriteError Failure

abbrev pub batch_size : ℕ
batch_size = 1000

-- `as usize` on an `i64`, on a 64-bit target.
abbrev pub as_usize : ℤ → ℕ
as_usize (pos n) = n % 18446744073709551616
as_usize (negsuc n) = 18446744073709551615 - n % 18446744073709551616

-- The rows of a resolved and of an unresolved route, and the first edge whose fields disagree.
pub record RouteRows : Type 0 where
  pub resolved_rows : List Props
  pub unresolved_rows : List Props
  pub inconsistency : Option RoutesToEdge

abbrev pub get_or_insert {ℓ} : {A : Type ℓ} → Option A → A → Option A
get_or_insert (some a) b = some a
get_or_insert none b = some b

unfoldable pub split_route : RouteRows → RoutesToEdge → RouteRows
split_route rows edge = elim edge.target_vpc_id [
  | some target_vpc_id ↦
      if edge.resolved
      then record rows {
        resolved_rows = rows.resolved_rows ++ routes_to_resolved_row edge target_vpc_id ∷ [];
      }
      else record rows { inconsistency = get_or_insert rows.inconsistency edge }
  | none ↦
      if edge.resolved
      then record rows { inconsistency = get_or_insert rows.inconsistency edge }
      else record rows {
        unresolved_rows = rows.unresolved_rows ++ routes_to_unresolved_row edge ∷ [];
      }
]

unfoldable pub split_routes : List RoutesToEdge → RouteRows
unfolding split_route
split_routes edges =
    foldl split_route (record { resolved_rows = []; unresolved_rows = []; inconsistency = none })
      edges

module _ {Store Failure Stream Row : Type 0} (graph : Driver Store Failure Stream Row) where
  abbrev pub Write : Type 0
  Write = Effect Store (WriteError Failure) (Unit {0})

  unfoldable pub run_node_upsert : String → List NodeRow → Write
  unfolding chunk_rows node_upsert_query
  run_node_upsert label rows =
      for_each
        (λ chunk store.
          wrap_result driver_failure (graph.run (node_upsert_query label) chunk store))
        (chunk_rows rows batch_size)

  abbrev pub check_merged : String → ℕ → ℤ → Result (WriteError Failure) (Unit {0})
  check_merged edge_type sent merged =
      if as_usize merged == sent
      then ok tt
      else err (
          unresolved_endpoint edge_type
            ((sent + 18446744073709551616 - as_usize merged) % 18446744073709551616) sent)

  -- What is read of the stream of one chunk.
  abbrev pub read_merged : String → Stream → Result (WriteError Failure) ℤ
  read_merged edge_type stream = do
    answer ← map_err driver_failure (graph.next stream)
    row ← ok_or (no_summary_row edge_type) answer
    map_err driver_failure (graph.get_merged row)

  -- The rows of one chunk are sent, and the count is read.
  abbrev pub merge_chunk : String → String → List Props → Effect Store (WriteError Failure) ℤ
  merge_chunk edge_type cypher chunk =
      (λ store. wrap_result driver_failure (graph.execute cypher chunk store)) >>> λ stream.
      lift (read_merged edge_type stream)

  -- The body of the loop of `run_edge_upsert`.
  abbrev pub upsert_chunk : String → String → List Props → Write
  upsert_chunk edge_type cypher chunk = merge_chunk edge_type cypher chunk >>> λ merged.
      lift (check_merged edge_type (length chunk) merged)

  unfoldable pub run_edge_upsert : String → String → List Props → Write
  unfolding chunk_rows
  run_edge_upsert edge_type cypher rows =
      for_each (upsert_chunk edge_type cypher) (chunk_rows rows batch_size)

  abbrev pub upsert_routes_to : List RoutesToEdge → Write
  upsert_routes_to edges =
      let rows = split_routes edges in
      elim rows.inconsistency [
        | some edge ↦ lift (err (inconsistent_route edge))
        | none ↦
            run_edge_upsert "ROUTES_TO" routes_to_resolved_upsert rows.resolved_rows
            >> run_edge_upsert "ROUTES_TO" routes_to_unresolved_upsert rows.unresolved_rows
      ]

  abbrev pub upsert_egress : List SgRuleBatch → Write
  upsert_egress batches =
      let rows = split_sg_rule_rows batches in
      run_edge_upsert "ALLOWS_EGRESS" allows_egress_cidr_upsert rows.cidr_rows
      >> run_edge_upsert "ALLOWS_EGRESS" allows_egress_sg_ref_resolved_upsert
          rows.sg_ref_resolved_rows
      >> run_edge_upsert "ALLOWS_EGRESS" allows_egress_sg_ref_unresolved_upsert
          rows.sg_ref_unresolved_rows

  abbrev pub upsert_ingress : List SgRuleBatch → Write
  upsert_ingress batches =
      let rows = split_sg_rule_rows batches in
      run_edge_upsert "ALLOWS_INGRESS" allows_ingress_cidr_upsert rows.cidr_rows
      >> run_edge_upsert "ALLOWS_INGRESS" allows_ingress_sg_ref_resolved_upsert
          rows.sg_ref_resolved_rows
      >> run_edge_upsert "ALLOWS_INGRESS" allows_ingress_sg_ref_unresolved_upsert
          rows.sg_ref_unresolved_rows

  abbrev pub has_rule_rows : List NaclRuleBatch → List Props
  has_rule_rows batches =
      flat_map (λ (batch : NaclRuleBatch). map (nacl_rule_row batch.network_acl_id) batch.rules)
        batches

  -- The methods of `GraphWriter`.
  unfoldable pub neo4j_writer : Call → Write
  neo4j_writer (upsert_enis enis) = run_node_upsert "ENI" (map eni_row enis)
  neo4j_writer (upsert_security_groups groups) =
      run_node_upsert "SecurityGroup" (map security_group_row groups)
  neo4j_writer (upsert_network_acls acls) = run_node_upsert "NetworkACL" (map network_acl_row acls)
  neo4j_writer (upsert_subnets subnets) = run_node_upsert "Subnet" (map subnet_row subnets)
  neo4j_writer (upsert_vpcs vpcs) = run_node_upsert "VPC" (map vpc_row vpcs)
  neo4j_writer (upsert_route_tables tables) =
      run_node_upsert "RouteTable" (map route_table_row tables)
  neo4j_writer (upsert_regulated_boundaries boundaries) =
      run_node_upsert "RegulatedBoundary" (map regulated_boundary_row boundaries)
  neo4j_writer (upsert_has_sg_edges edges) =
      run_edge_upsert "HAS_SG" has_sg_upsert (map has_sg_row edges)
  neo4j_writer (upsert_in_subnet_edges edges) =
      run_edge_upsert "IN_SUBNET" in_subnet_upsert (map in_subnet_row edges)
  neo4j_writer (upsert_protected_by_edges edges) =
      run_edge_upsert "PROTECTED_BY" protected_by_upsert (map protected_by_row edges)
  neo4j_writer (upsert_uses_route_table_edges edges) =
      run_edge_upsert "USES_ROUTE_TABLE" uses_route_table_upsert (map uses_route_table_row edges)
  neo4j_writer (upsert_routes_to_edges edges) = upsert_routes_to edges
  neo4j_writer (upsert_allows_ingress_rules batches) = upsert_ingress batches
  neo4j_writer (upsert_allows_egress_rules batches) = upsert_egress batches
  neo4j_writer (upsert_has_rules batches) =
      run_edge_upsert "HAS_RULE" has_rule_upsert (has_rule_rows batches)
