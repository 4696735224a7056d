-- ===== src/Ingest/Pipeline/Accounts.antt =====
-- crates/core/src/ingest/pipeline.rs: proofs about the report of an ingest.
use aws_net_hound.Base.{
  ◌≡◌, refl, sym, ap₂, subst, ◌∙◌, ℕ, ◌+◌, [], String, length, ok, map_err, map_err-eq-ok, arith,
}
use aws_net_hound.Base.Effect.{
  Effect, resume-eq-ok, wrap_result, wrap_result-eq-ok, pair_parts, for_each, lift,
}
use aws_net_hound.Base.Every.{length-map}
use aws_net_hound.Base.Traverse.{map_ok-eq-ok, ok_unique}
use aws_net_hound.Graph.Model.{GraphBatch, Call}
use aws_net_hound.Ingest.Nodes.{
  map_nodes, map_eni_node, map_security_group_node, map_network_acl_node, map_route_table_node,
}
use aws_net_hound.Ingest.Nodes.Kept.{map_nodes-length}
use aws_net_hound.Ingest.Collect.{Client, collect_all}
use aws_net_hound.Ingest.Collect.Pages.{everything, collect_all_iff}
use aws_net_hound.Ingest.Errors.{mapping, write}
use aws_net_hound.Ingest.Topology.{Collected, build_graph_batch, collect_edges}
use aws_net_hound.Ingest.Pipeline.{
  IngestReport, warning_from, write_batch, run_full_ingest_with_client,
}
use aws_net_hound.Ingest.Pipeline.Calls.{calls_of, write_batch-calls_of}

-- The items that are collected, of the four kinds that become nodes.
abbrev pub collected_nodes : Collected → ℕ
collected_nodes raw =
    length raw.network_interfaces
    + length raw.security_groups
    + length raw.network_acls
    + length raw.route_tables

abbrev pub batch_nodes : GraphBatch → ℕ
batch_nodes batch =
    length batch.enis
    + length batch.security_groups
    + length batch.network_acls
    + length batch.route_tables

abbrev pub report_nodes : {Duration : Type 0} → IngestReport Duration → ℕ
report_nodes report =
    report.enis + report.security_groups + report.network_acls + report.route_tables

build_graph_batch-nodes :
    (account : String) (raw : Collected) (batch : GraphBatch)
    → (build_graph_batch account raw []).batch ≡ ok batch
    → batch_nodes batch + length (build_graph_batch account raw []).node_mapping_errors
      ≡ collected_nodes raw
unfolding build_graph_batch
build_graph_batch-nodes account raw batch h =
    let enis = map_nodes raw.network_interfaces map_eni_node account [] in
    let groups = map_nodes raw.security_groups map_security_group_node account enis.errors in
    let acls = map_nodes raw.network_acls map_network_acl_node account groups.errors in
    let tables = map_nodes raw.route_tables map_route_table_node account acls.errors in
    let (edges, walk, same) =
      map_ok-eq-ok _ (collect_edges account enis groups acls tables raw.vpc_peering_connections)
        h in
    subst (λ (b : GraphBatch). batch_nodes b + length tables.errors ≡ collected_nodes raw) same
      (omega (
        arith,
        map_nodes-length map_eni_node account raw.network_interfaces [],
        map_nodes-length map_security_group_node account raw.security_groups enis.errors,
        map_nodes-length map_network_acl_node account raw.network_acls groups.errors,
        map_nodes-length map_route_table_node account raw.route_tables acls.errors,
      ))

module _ {Store Failure WriteError Duration : Type 0}
    (writer : Call → Effect Store WriteError (Unit {0})) (elapsed : Duration) where
  -- A run that reports has collected every item of every page, built its batch and made every call of
  -- the batch, none of which failed; and of the collected interfaces, groups, ACLs and route tables
  -- each is counted or warned of.
  pub run_full_ingest_with_client_report :
      (earliest : ℕ) (client : Client Failure) (account : String) (store last : Store)
      (report : IngestReport Duration)
      → run_full_ingest_with_client writer elapsed earliest client account store ≡ (last, ok report)
      → (raw : Collected) × (batch : GraphBatch) × (raw ≡ everything client)
        × ((build_graph_batch account raw []).batch ≡ ok batch)
        × (for_each writer (calls_of batch) store ≡ (last, ok tt))
        × (report_nodes report + length report.non_fatal ≡ collected_nodes raw)
  unfolding run_full_ingest_with_client
  run_full_ingest_with_client_report earliest client account store last report h =
      let (first, raw, taken, rest) = resume-eq-ok (lift (collect_all earliest client) store) _ h in
      let built = build_graph_batch account raw [] in
      let (second, batch, mapped, writes) =
        resume-eq-ok (lift (map_err (λ e. mapping e) built.batch) first) _ rest in
      let (third, _, wrapped, answer) =
        resume-eq-ok (wrap_result (λ e. write e) (write_batch writer batch second)) _ writes in
      let (same_first, got) = pair_parts taken in
      let (same_second, made) = pair_parts mapped in
      let (same_last, told) = pair_parts answer in
      let made_batch = map_err-eq-ok _ built.batch made in
      (
        raw,
        batch,
        ((collect_all_iff earliest client raw).0 got).1,
        made_batch,
        subst (λ (p : Store × Store). for_each writer (calls_of batch) p.0 ≡ (p.1, ok tt))
            (ap₂ (λ a b. (a, b)) (sym (same_first ∙ same_second)) same_last)
            (sym (write_batch-calls_of writer batch second)
              ∙ wrap_result-eq-ok _ (write_batch writer batch second) wrapped),
        subst
            (λ (r : IngestReport Duration).
              report_nodes r + length r.non_fatal ≡ collected_nodes raw)
            (ok_unique refl told)
            (omega (
              arith,
              build_graph_batch-nodes account raw batch made_batch,
              length-map warning_from built.node_mapping_errors,
            )),
      )
