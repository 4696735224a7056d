-- ===== src/Examples/Writing.antt =====
-- The theorems about the graph writer and the calls of the pipeline at concrete inputs. The database is
-- the list of the ids of its nodes, and a row binds when the ids that it names are in it.
use aws_net_hound.Base.{
  ◌≡◌, refl, sym, ap, subst, ◌∙◌, ◌↔◌, ◌+◌, ℕ, Bool, true, false, none, some, List, [], ◌∷◌, ◌++◌,
  String, length, filter, map, all, contains, concat, Result, ok, err, if◌then◌else◌,
}
use aws_net_hound.Base.Effect.{for_each, pair_parts, ◌>>◌}
use aws_net_hound.Base.Every.{some_unique}
use aws_net_hound.Base.Traverse.{ok_unique}
use aws_net_hound.Base.Ordered.{or_insert}
use aws_net_hound.Base.Streams.{closed, item}
use aws_net_hound.Base.Int.{ℤ, pos}
use aws_net_hound.Graph.Bolt.{BoltType, string, Props}
use aws_net_hound.Graph.Chunks.{chunk_rows, IsBatched}
use aws_net_hound.Graph.Cypher.{
  has_sg_upsert, routes_to_resolved_upsert, routes_to_unresolved_upsert, node_upsert_query,
}
use aws_net_hound.Graph.Model.{GraphBatch, has_sg, HasSgEdge, RoutesToEdge, upsert_routes_to_edges}
use aws_net_hound.Graph.NodeRows.{NodeRow, has_sg_row, eni_row, vpc_row, subnet_row, in_subnet_row}
use aws_net_hound.Graph.Writer.Batches.{Sent, run_node_upsert-Sent}
use aws_net_hound.Graph.Grouping.{split_sg_rule_rows}
use aws_net_hound.Graph.Writer.{
  Driver, unresolved_endpoint, split_routes, run_node_upsert, run_edge_upsert, neo4j_writer,
}
use aws_net_hound.Graph.Writer.Merged.{AllResolve, run_edge_upsert_iff}
use aws_net_hound.Ingest.Ports.{absent, require_str}
use aws_net_hound.Ingest.Collect.{Client, collect_all, drain_pages, drain_from}
use aws_net_hound.Ingest.Collect.Pages.{everything, IsComplete, collect_all_iff}
use aws_net_hound.Ingest.Nodes.{map_nodes, map_eni_node}
use aws_net_hound.Ingest.Edges.{
  has_sg_edges, in_subnet_edges, protected_by_edges, uses_route_table_edges, routes_to_edges,
  allows_edges, has_rule_edges,
}
use aws_net_hound.Ingest.Stubs.{
  collect_vpc_stubs, collect_subnet_stubs, insert_subnet_stub, insert_vpc_stub, sighted_subnets,
  sighted_vpc_ids, peered_vpc_ids,
}
use aws_net_hound.Ingest.Pipeline.{
  write_batch, group_by, warning_from, count_unresolved, run_full_ingest_with_client, IngestReport,
}
use aws_net_hound.Ingest.Pipeline.Accounts.{
  report_nodes, collected_nodes, run_full_ingest_with_client_report,
}
use aws_net_hound.Ingest.Pipeline.Calls.{calls_of, Failed, write_batch-Failed}
use aws_net_hound.Ingest.Pipeline.Consistent.{routes_of, build_graph_batch_routes_accepted}
use aws_net_hound.Ingest.Topology.{Collected, build_graph_batch, collect_edges}
use aws_net_hound.Examples.Resources.{account, no_batch, broken_interface, network_interface}
use aws_net_hound.Examples.Ingesting.{batch, built}

abbrev id_of : NodeRow → String
id_of row = elim row.id [ string text ↦ text | _ ↦ "" ]

abbrev end_keys : List String
end_keys = "eni_id" ∷ "security_group_id" ∷ []

abbrev is_bound : List String → String → BoltType → Bool
is_bound store key value = elim value [
  | string text ↦ if contains end_keys key then contains store text else true
  | _ ↦ true
]

abbrev binds : String → List String → Props → Bool
binds cypher store row = all (λ ((key, value) : String × BoltType). is_bound store key value) row

abbrev merged_rows : String → List Props → List String → ℕ
merged_rows cypher rows store = length (filter (binds cypher store) rows)

abbrev database : Driver (List String) String ℕ ℕ
database = record {
  run = λ cypher rows store. (map id_of rows ++ store, ok tt);
  execute = λ cypher rows store. (store, ok (merged_rows cypher rows store));
  next = λ n. ok (some n);
  get_merged = λ n. ok (pos n);
}

abbrev three : List ℕ
three = 1 ∷ 2 ∷ 3 ∷ []

abbrev two_vpcs : List NodeRow
two_vpcs =
    vpc_row (record { id = "vpc-1"; account_id = "111"; cidr_block = "" })
    ∷ vpc_row (record { id = "vpc-2"; account_id = "111"; cidr_block = "" })
    ∷ []

run_node_upsert-Sent_example :
    (batches : List (List NodeRow)) × (concat batches ≡ two_vpcs)
    × IsBatched 1000 batches
    × Sent database "Vpc" batches [] (run_node_upsert database "Vpc" two_vpcs [])
run_node_upsert-Sent_example = run_node_upsert-Sent database "Vpc" two_vpcs []

two_chunks : chunk_rows three 2 ≡ (1 ∷ 2 ∷ []) ∷ (3 ∷ []) ∷ []
unfolding chunk_rows
two_chunks = refl

abbrev member : HasSgEdge
member = record { eni_id = "eni-1"; security_group_id = "sg-1" }

counted :
    (cypher : String) (chunk : List Props) (store later : List String) (stream row : ℕ) (merged : ℤ)
    → database.execute cypher chunk store ≡ (later, ok stream)
    → database.next stream ≡ ok (some row)
    → database.get_merged row ≡ ok merged
    → merged ≡ pos (length (filter (binds cypher store) chunk))
counted cypher chunk store later stream row merged h k l =
    let (_, sent) = pair_parts h in
    ok_unique refl (
      sym l
      ∙ ap (λ r. ok (pos r))
          (sym (some_unique refl (ok_unique refl k)) ∙ sym (ok_unique refl sent)))

kept_store :
    (cypher : String) (chunk : List Props) (store later : List String) (answer : Result String ℕ)
    → database.execute cypher chunk store ≡ (later, answer)
    → (row : Props) → binds cypher later row ≡ binds cypher store row
kept_store cypher chunk store later answer h row =
    subst (λ (after : List String). binds cypher after row ≡ binds cypher store row)
      (pair_parts h).0 refl

run_edge_upsert_iff_example :
    ((last : List String) × (run_edge_upsert database "HAS_SG" has_sg_upsert
          (has_sg_row member ∷ [])
          ("eni-1" ∷ "sg-1" ∷ [])
        ≡ (last, ok tt)))
    ↔ AllResolve database binds counted kept_store has_sg_upsert
        ("eni-1" ∷ "sg-1" ∷ [])
        (has_sg_row member ∷ [])
run_edge_upsert_iff_example =
    run_edge_upsert_iff database binds counted kept_store
      (λ cypher chunk store. (
        store,
        merged_rows cypher chunk store,
        merged_rows cypher chunk store,
        pos (merged_rows cypher chunk store),
        refl,
        refl,
        refl,
      ))
      "HAS_SG" has_sg_upsert (has_sg_row member ∷ []) ("eni-1" ∷ "sg-1" ∷ [])

abbrev route : RoutesToEdge
route = record {
  route_table_id = "rtb-1";
  destination_cidr = "10.1.0.0/16";
  target_vpc_id = some "vpc-2";
  resolved = true;
}

abbrev odd_route : RoutesToEdge
odd_route = record route { resolved = false }

build_graph_batch_routes_accepted_example :
    neo4j_writer database (upsert_routes_to_edges (routes_of batch)) []
    ≡ (run_edge_upsert database "ROUTES_TO" routes_to_resolved_upsert
            (split_routes (routes_of batch)).resolved_rows
          >> run_edge_upsert database "ROUTES_TO" routes_to_unresolved_upsert
              (split_routes (routes_of batch)).unresolved_rows)
        []
build_graph_batch_routes_accepted_example =
    build_graph_batch_routes_accepted database "111" account batch [] built

-- An interface in a group that was never written.
abbrev dangling : GraphBatch
dangling = record no_batch {
  enis =
      record {
        id = "eni-1";
        account_id = "111";
        vpc_id = "vpc-1";
        subnet_id = "subnet-1";
        private_ip = "10.0.1.5";
        description = none;
      }
      ∷ [];
  edges = has_sg member ∷ [];
}

refused :
    write_batch (neo4j_writer database) dangling []
    ≡ ("eni-1" ∷ [], err (unresolved_endpoint "HAS_SG" 1 1))
unfolding write_batch neo4j_writer run_node_upsert run_edge_upsert chunk_rows eni_row has_sg_row
    node_upsert_query
refused = refl

write_batch-Failed_example :
    Failed
      (neo4j_writer database)
      (calls_of dangling)
      []
      ("eni-1" ∷ [])
      (unresolved_endpoint "HAS_SG" 1 1)
write_batch-Failed_example =
    write_batch-Failed (neo4j_writer database) dangling [] ("eni-1" ∷ [])
      (unresolved_endpoint "HAS_SG" 1 1) refused

-- Two interfaces on two pages, one of which does not map.
abbrev client : Client String
client = record {
  describe_security_groups = item none closed;
  describe_network_acls = closed;
  describe_route_tables = closed;
  describe_network_interfaces =
      item (some (broken_interface ∷ []))
        (item (some (record network_interface { group_ids = [] } ∷ [])) closed);
  describe_vpc_peering_connections = closed;
}

collect_all_iff_example :
    (collect_all {WriteError = String} 0 client ≡ ok (everything client))
    ↔ (IsComplete client × (everything client ≡ everything client))
collect_all_iff_example = collect_all_iff 0 client (everything client)

abbrev report : IngestReport ℕ
report = record {
  enis = 1;
  security_groups = 0;
  network_acls = 0;
  route_tables = 0;
  vpc_peering_connections = 0;
  unresolved_references = 0;
  duration = 7;
  non_fatal = record { resource_id = "eni-1"; field = "private_ip_address"; reason = absent } ∷ [];
}

abbrev written : List String
written = "vpc-1" ∷ "subnet-1" ∷ "eni-1" ∷ []

reported :
    run_full_ingest_with_client (neo4j_writer database) 7 0 client "111" [] ≡ (written, ok report)
unfolding run_full_ingest_with_client collect_all drain_pages drain_from write_batch neo4j_writer
    run_node_upsert run_edge_upsert chunk_rows build_graph_batch collect_edges map_nodes
    map_eni_node has_sg_edges in_subnet_edges protected_by_edges uses_route_table_edges
    routes_to_edges allows_edges has_rule_edges require_str collect_vpc_stubs collect_subnet_stubs
    insert_subnet_stub insert_vpc_stub sighted_subnets sighted_vpc_ids peered_vpc_ids eni_row
    vpc_row subnet_row node_upsert_query in_subnet_row split_routes split_sg_rule_rows warning_from
    count_unresolved group_by or_insert
reported = refl

run_full_ingest_with_client_report_example :
    (raw : Collected) × (b : GraphBatch) × (raw ≡ everything client)
    × ((build_graph_batch "111" raw []).batch ≡ ok b)
    × (for_each (neo4j_writer database) (calls_of b) [] ≡ (written, ok tt))
    × (report_nodes report + length report.non_fatal ≡ collected_nodes raw)
run_full_ingest_with_client_report_example =
    run_full_ingest_with_client_report (neo4j_writer database) 7 0 client "111" [] written report
      reported
