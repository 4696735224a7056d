-- ===== src/Examples/Auditing.antt =====
-- The theorems about the audit command at concrete inputs: an empty account, and a database that holds a
-- web server outside the boundary and a server inside it.
use aws_net_hound.Base.{
  ◌≡◌, refl, ℕ, false, none, some, List, [], ◌∷◌, ◌++◌, String, map, length, Result, ok,
}
use aws_net_hound.Base.Streams.{Stream, closed, item}
use aws_net_hound.Base.Int.{pos}
use aws_net_hound.Base.Assoc.{lookup}
use aws_net_hound.Base.Ordered.{or_insert}
use aws_net_hound.Base.Sort.{sort_by_key}
use aws_net_hound.Net.{parse_u32, parse_ip_addr, split_once}
use aws_net_hound.Net.Reader.{read_ipv4_addr, read_number, scan_digits}
use aws_net_hound.Domain.Rule.{SgRule}
use aws_net_hound.Graph.Bolt.{string}
use aws_net_hound.Graph.Chunks.{chunk_rows}
use aws_net_hound.Graph.Cypher.{node_upsert_query}
use aws_net_hound.Graph.Grouping.{split_sg_rule_rows}
use aws_net_hound.Graph.NodeRows.{NodeRow, regulated_boundary_row}
use aws_net_hound.Graph.Rows.{sg_rule_cidr_row, sg_rule_sg_ref_row, nacl_rule_row, port_range_props}
use aws_net_hound.Graph.Writer.{
  Driver, split_routes, run_node_upsert, run_edge_upsert, neo4j_writer,
}
use aws_net_hound.Ingest.Collect.{Client, collect_all, drain_pages, drain_from}
use aws_net_hound.Ingest.Nodes.{map_nodes}
use aws_net_hound.Ingest.Edges.{
  has_sg_edges, in_subnet_edges, protected_by_edges, uses_route_table_edges, routes_to_edges,
  allows_edges, has_rule_edges,
}
use aws_net_hound.Ingest.Stubs.{
  collect_vpc_stubs, collect_subnet_stubs, insert_subnet_stub, insert_vpc_stub, sighted_subnets,
  sighted_vpc_ids, peered_vpc_ids,
}
use aws_net_hound.Ingest.Pipeline.{
  write_batch, group_by, count_unresolved, run_full_ingest_with_client,
}
use aws_net_hound.Ingest.Topology.{build_graph_batch, collect_edges}
use aws_net_hound.Evaluate.Candidates.{
  candidates_of, candidate_of, source_endpoint, destination_endpoint, route_exists,
}
use aws_net_hound.Evaluate.Candidates.Rows.{
  EniRow, bolt_string, bolt_i64, bolt_opt_u16, eni_from_row, sg_rules_from_row, nacl_rules_from_row,
  sg_rule_from_props, nacl_rule_from_props,
}
use aws_net_hound.Evaluate.Candidates.RoundTrip.{sg_rule_row}
use aws_net_hound.Evaluate.Candidates.Fetch.{
  RowStream, row, assemble_candidates, fetch_enis, fetch_route_table_targets,
}
use aws_net_hound.Evaluate.Engine.{
  evaluate, evaluate_candidate, finish, finish_with, combine_verdicts, severity_for,
}
use aws_net_hound.Evaluate.Match.{
  rule_protocol_matches, cidr_contains, parse_cidr, network_contains, masked_eq,
}
use aws_net_hound.Evaluate.Nacl as Nacl
use aws_net_hound.Evaluate.Nacl.{evaluate_nacl_egress, evaluate_nacl_ingress, rule_matches}
use aws_net_hound.Evaluate.Sg as Sg
use aws_net_hound.Evaluate.Sg.{evaluate_sg_egress, evaluate_sg_ingress, combine, classify_rule}
use aws_net_hound.Migrations.Types.{Connection, statement, merge_version}
use aws_net_hound.Migrations.Files.{parse_version_prefix, ordered_migrations, split_statements}
use aws_net_hound.Migrations.{
  apply_statements, write_version, apply_version, read_versions, read_applied, bootstrap_constraint,
  migrate_one, migrate_all, run,
}
use aws_net_hound.Audit.Config.{ValidatedConfig}
use aws_net_hound.Audit.Outcome.{Outcome, clean, findings_to_outcome, findings_present}
use aws_net_hound.Audit.World.{Graph, World, Report}
use aws_net_hound.Audit.Run.{
  dispatch, run_command, boundary_record, connect, evaluate_all, stage_connect, stage_migrate,
  stage_boundary, stage_ingest, stage_assembly, stage_evaluate, assess, run_with_ec2_client,
}
use aws_net_hound.Audit.Run.Stages.{Completed, run_with_ec2_client-Completed}
use aws_net_hound.Audit.Run.Ends.{Verdict, dispatch-Verdict}
use aws_net_hound.Audit.Run.Unmatched.{run_with_ec2_client_unmatched}
use aws_net_hound.Examples.Samples.{to_everywhere, from_web, open_nacl}
use aws_net_hound.Audit.Failure.{other_cause}
use aws_net_hound.Examples.Checking.{Site, machine, clock, morning}

abbrev id_of : NodeRow → String
id_of node = elim node.id [ string text ↦ text | _ ↦ "" ]

-- The database merges every row, and every statement goes through.
abbrev driver : Driver Site String ℕ ℕ
driver = record {
  run = λ cypher rows site. (record site { nodes = map id_of rows ++ site.nodes }, ok tt);
  execute = λ cypher rows site. (site, ok (length rows));
  next = λ n. ok (some n);
  get_merged = λ n. ok (pos n);
}

abbrev rows_of : List ℕ → Stream String ℕ
rows_of [] = closed
rows_of (v ∷ vs) = item v (rows_of vs)

abbrev connection : Connection Site (Unit {0}) ℕ String String
connection = record {
  run = λ query site. (site, ok tt);
  execute = λ query site. (site, ok (rows_of site.recorded));
  get_version = λ row. ok (pos row);
  start_txn = λ site. (record site { merging = [] }, ok tt);
  run_in = λ txn query site. elim query [
    | statement _ ↦ (site, ok tt)
    | merge_version version ↦ (record site { merging = version ∷ site.merging }, ok tt)
  ];
  commit_txn =
      λ txn site. (record site { recorded = site.merging ++ site.recorded; merging = [] }, ok tt);
  rollback = λ txn site. (record site { merging = [] }, ok tt);
}

abbrev eni_row : String → String → String → List SgRule → List SgRule → EniRow
eni_row id vpc_id group outbound inbound = record {
  eni_id = some id;
  vpc_id = some vpc_id;
  subnet_id = some "subnet";
  private_ip = some "10.0.1.5";
  route_table_id = none;
  security_group_ids = some (group ∷ []);
  egress_rules = some (map (λ (rule : SgRule). sg_rule_row group rule rule.target) outbound);
  ingress_rules = some (map (λ (rule : SgRule). sg_rule_row group rule rule.target) inbound);
  nacl_rules = some (map (nacl_rule_row "acl") open_nacl);
}

-- A web server outside the boundary that the database inside it lets in.
abbrev graph : Graph Site (Unit {0}) ℕ String ℕ ℕ String
graph = record {
  migrations = connection;
  driver = driver;
  eni_rows = λ site. some (
      row (eni_row "eni-web" "vpc-web" "sg-web" (to_everywhere ∷ []) [])
        (row (eni_row "eni-db" "vpc-db" "sg-db" [] (from_web ∷ [])) RowStream.closed));
  route_rows = λ site. some RowStream.closed;
}

abbrev empty_account : Client String
empty_account = record {
  describe_security_groups = closed;
  describe_network_acls = closed;
  describe_route_tables = closed;
  describe_network_interfaces = closed;
  describe_vpc_peering_connections = closed;
}

abbrev world : World Site (Unit {0}) ℕ String ℕ ℕ String String String ℕ String String
world = record {
  machine = machine;
  environment = record {
    aws_region = none;
    aws_default_region = none;
    profile_region = none;
    aws_profile = none;
    neo4j_password = some "secret";
  };
  build_settings = λ uri user password. ok uri;
  connect_to = λ settings site. (site, ok graph);
  client_of = λ sdk_config. empty_account;
  identity_of = λ sdk_config. ok (some "111");
  causes = λ failure. other_cause ∷ [];
  write_causes = λ failure. other_cause ∷ [];
  earliest = 0;
  elapsed = 0;
  timestamps = λ n. none;
  from_str = λ yaml. ok (record {
    region = "eu-west-1";
    profile = "default";
    boundary = record { vpc_ids = "vpc-db" ∷ []; cidrs = []; tags = [] };
    output_path = yaml;
    neo4j = record { uri = "bolt://127.0.0.1:7687"; user = "neo4j" };
  });
  read_to_string = λ path. ok "report.json";
  is_uppercase = λ c. false;
}

abbrev config : ValidatedConfig
config = record {
  region = "eu-west-1";
  profile = "default";
  boundary = record { vpc_ids = "vpc-db" ∷ []; cidrs = []; tags = [] };
  output_path = "report.json";
  neo4j = record { uri = "bolt://127.0.0.1:7687"; user = "neo4j" };
}

abbrev evening : Site
evening = record morning { nodes = "boundary-111" ∷ []; recorded = 2 ∷ 1 ∷ [] }

abbrev by_cidr : ValidatedConfig
by_cidr = record config { boundary = record { vpc_ids = []; cidrs = "10.0.0.0/8" ∷ []; tags = [] } }

audited :
    (run_with_ec2_client world config empty_account "111" morning
      ≡ (evening, ok (findings_present 1 0)))
    × (run_with_ec2_client world by_cidr empty_account "111" morning ≡ (evening, ok clean))
unfolding run_with_ec2_client stage_connect connect stage_migrate stage_boundary stage_ingest assess
    stage_assembly stage_evaluate evaluate_all evaluate boundary_record findings_to_outcome run
    bootstrap_constraint read_applied read_versions migrate_all migrate_one apply_version
    write_version apply_statements ordered_migrations parse_version_prefix parse_u32
    split_statements sort_by_key run_full_ingest_with_client collect_all drain_pages drain_from
    write_batch neo4j_writer run_node_upsert run_edge_upsert chunk_rows build_graph_batch
    collect_edges map_nodes regulated_boundary_row collect_vpc_stubs collect_subnet_stubs
    insert_subnet_stub insert_vpc_stub sighted_subnets sighted_vpc_ids peered_vpc_ids
    node_upsert_query split_routes split_sg_rule_rows count_unresolved group_by or_insert
    assemble_candidates fetch_enis fetch_route_table_targets eni_from_row sg_rules_from_row
    nacl_rules_from_row sg_rule_from_props nacl_rule_from_props sg_rule_cidr_row sg_rule_sg_ref_row
    nacl_rule_row port_range_props bolt_string bolt_i64 bolt_opt_u16 lookup candidates_of
    candidate_of source_endpoint destination_endpoint route_exists evaluate_candidate finish
    finish_with combine_verdicts severity_for evaluate_sg_egress evaluate_sg_ingress Sg.evaluate
    combine classify_rule evaluate_nacl_egress evaluate_nacl_ingress Nacl.evaluate rule_matches
    rule_protocol_matches cidr_contains parse_cidr network_contains masked_eq parse_ip_addr
    split_once read_ipv4_addr read_number scan_digits has_sg_edges in_subnet_edges
    protected_by_edges uses_route_table_edges routes_to_edges allows_edges has_rule_edges
audited = (refl, refl)

run_with_ec2_client-Completed_example :
    Completed world config empty_account "111" morning evening (findings_present 1 0)
run_with_ec2_client-Completed_example =
    run_with_ec2_client-Completed world config empty_account "111" morning evening _ audited.0

run_with_ec2_client_unmatched_example : ◌≡◌ {A = Outcome} clean clean
run_with_ec2_client_unmatched_example =
    run_with_ec2_client_unmatched world by_cidr empty_account "111" morning evening clean refl
      audited.1

dispatch-Verdict_example :
    (answer : Site × Result (Report String String String String) Outcome) × (dispatch world
        (run_command "audit.yaml")
        morning
      ≡ some answer)
    × Verdict world (run_command "audit.yaml") morning answer
dispatch-Verdict_example = dispatch-Verdict world (run_command "audit.yaml") morning clock
