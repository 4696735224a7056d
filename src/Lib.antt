-- ===== src/Lib.antt =====
-- aws-net-hound reads an AWS account's network configuration, writes it to a graph, and judges for
-- each pair of network interfaces whether traffic can pass from outside a regulated boundary into
-- it. This library models the crates crates/core and crates/audit-local; the paths below are from
-- crates/core/src unless they say otherwise.
--
-- How the parts interact. Ingest maps the answers of the EC2 API to nodes and edges (Ingest), which
-- the graph writer turns into rows and sends to the database (Graph). Candidate assembly reads the
-- rows back and pairs the interfaces (Evaluate.Candidates). The engine judges each pair in four layers: security group
-- egress, network ACL egress, network ACL ingress, security group ingress (Evaluate). The report
-- sorts the findings into three populations (Report). The command of crates/audit-local checks the
-- environment, connects, migrates the schema (Migrations), writes the boundary, ingests, assembles,
-- evaluates and turns the findings into an exit code (Audit).
--
-- The files and the code:
--   Domain            domain/rule.rs, domain/finding.rs: rules, port ranges, findings
--   Evaluate.Types    evaluate/mod.rs: Protocol, Traffic, RuleRef, Verdict
--   Evaluate.Match    evaluate/mod.rs: rule_protocol_matches, port_matches, cidr_contains
--   Evaluate.Nacl     evaluate/nacl.rs: evaluate, rule_matches
--   Evaluate.Sg       evaluate/sg.rs: evaluate, combine, classify_rule
--   Evaluate.Path     evaluate/path.rs: the path and its evidence
--   Evaluate.Engine   evaluate/engine.rs: evaluate_candidate, combine_verdicts, finish
--   Evaluate.Candidates  evaluate/candidates.rs: assemble_candidates, fetch_*, *_from_row, *_from_props
--   Graph.Model       ports.rs, graph/model.rs: the records, the edges and the calls of GraphWriter
--   Graph.Rows, NodeRows, Cypher, Grouping, Chunks  graph/neo4j.rs: rows, statements, groups, chunks
--   Graph.Writer      graph/neo4j.rs: run_node_upsert, run_edge_upsert and the methods of the writer
--   Ingest.Ports      ingest/map/mod.rs: require_str, build_port_range
--   Ingest.Sg         ingest/map/sg.rs: map_security_group_rules, map_permission
--   Ingest.Nacl       ingest/map/nacl.rs: map_network_acl_rules
--   Ingest.Nodes, Edges, Stubs, Topology  ingest/map/topology.rs: build_graph_batch and its parts
--   Ingest.Pipeline   ingest/pipeline.rs: run_full_ingest_with_client, write_batch, group_by
--   Ingest.Collect    ingest/collect.rs: drain_pages, the five collectors, and how they are joined
--   Ingest.Client     ingest/aws_client.rs: resolve_region, build_sdk_config, resolve_account_id
--   Ingest.Errors     error.rs: IngestError
--   Migrations        migrations.rs: run, apply_version, record_version, read_applied_versions
--   Migrations.Files  migrations.rs: parse_version_prefix, ordered_migrations, split_statements
--   Migrations.Embedded  migrations.rs: MIGRATION_FILES, with the texts of migrations/*.cypher
--   Report            report/model.rs: the populations, the scope, the counts and the report
--   Audit.Config      crates/audit-local/src/config.rs: Config, validate
--   Audit.Preflight   crates/audit-local/src/preflight.rs: health_from_compose_ps, wait_for_healthy
--   Audit.Failure     crates/audit-local/src/aws_error.rs: classify
--   Audit.World, Run  crates/audit-local/src/run.rs and lib.rs: run_with_ec2_client, run, dispatch
--   Audit.Outcome     crates/audit-local/src/lib.rs and main.rs: Outcome, the exit code
--   Net               the address and number parsers of Rust's standard library, with tests
--   Base              lists, sorting, maps, bits and results that the parts share
--   Examples          the theorems at concrete inputs
--
-- State is passed explicitly: the errors of a mapping are an argument and a field of the answer, and
-- an awaited call is a function from a store to a store and a result, so what a failing call leaves
-- can be stated. An error is a value of Result. Loops are structural recursion on lists. Two
-- take fuel: chunk_rows, as many steps as there are rows, since every chunk takes one at least; and
-- the wait of the preflight, 180 / 2 + 1 rounds, since every round but the last sleeps two seconds.
-- A u16 is a number below 2 ^ 16 where a theorem needs it, and an i32 an integer; a left
-- shift of a mask is written modulo the width of the word. A BTreeMap is an association list in the
-- order of its keys. Where the code formats a text into an error, the model has a value for each
-- text.
--
-- Outside the program, and parameters of the model: the clock, the environment and the commands of
-- Docker, the Neo4j driver and the rows it gives, the pages that the AWS SDK gives and its
-- credentials, what serde makes of a YAML text, and the time type of a report with its conversion to
-- UTC. The types of the AWS SDK are records of the fields that the code reads, and its errors are
-- told apart only as far as the code does.
--
-- Not modelled: the text of the queries that read, the command line parser, logging and printing,
-- the texts of error messages, and the JSON of a report: its reading begins at AuditReportWire, whose
-- findings and scope have been read.
pub mod Base
pub mod Net
pub mod Domain
pub mod Evaluate
pub mod Graph
pub mod Ingest
pub mod Migrations
pub mod Report
pub mod Audit
pub mod Examples
