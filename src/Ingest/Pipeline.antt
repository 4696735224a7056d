-- ===== src/Ingest/Pipeline.antt =====
-- crates/core/src/ingest/pipeline.rs: collect, map, write and report. The pages of the SDK, the
-- writer and the time that the run took are parameters: the writer is what each call does to a store,
-- and whether it fails. Logging is left out.
pub mod Groups
pub mod Agreement
pub mod Calls
pub mod Consistent
pub mod Accounts
use mathlib.Core.List.{foldl}
use aws_net_hound.Base.{
  ℕ, Bool, true, false, not, Option, none, some, List, [], ◌∷◌, String, map, present, filter,
  length, Result, ok, map_err,
}
use aws_net_hound.Base.Effect.{Effect, ◌>>>◌, ◌>>◌, lift, wrap_result}
use aws_net_hound.Base.Ordered.{push}
use aws_net_hound.Domain.Rule.{SgRule, NaclRule}
use aws_net_hound.Graph.Model.{
  EniRecord, SecurityGroupRecord, NetworkAclRecord, SubnetRecord, VpcRecord, RouteTableRecord,
  HasSgEdge, InSubnetEdge, ProtectedByEdge, UsesRouteTableEdge, RoutesToEdge, Edge, has_sg,
  in_subnet, protected_by, uses_route_table, routes_to, allows_ingress, allows_egress, has_rule,
  GraphBatch, SgRuleBatch, NaclRuleBatch, Call, upsert_enis, upsert_security_groups,
  upsert_network_acls, upsert_subnets, upsert_vpcs, upsert_route_tables, upsert_has_sg_edges,
  upsert_in_subnet_edges, upsert_protected_by_edges, upsert_uses_route_table_edges,
  upsert_routes_to_edges, upsert_allows_ingress_rules, upsert_allows_egress_rules, upsert_has_rules,
}
use aws_net_hound.Ingest.Ports.{MappingError, Reason, invalid_field}
use aws_net_hound.Ingest.Errors.{IngestError, mapping, write}
use aws_net_hound.Ingest.Collect.{Client, collect_all}
use aws_net_hound.Ingest.Client.{SdkConfig, Environment, build_sdk_config, resolve_account_id}
use aws_net_hound.Ingest.Topology.{Collected, Built, build_graph_batch}

pub record IngestWarning : Type 0 where
  pub resource_id : String
  pub field : String
  pub reason : Reason

unfoldable pub warning_from : MappingError → IngestWarning
warning_from (invalid_field resource_id field reason) = record {
  resource_id = resource_id;
  field = field;
  reason = reason;
}

-- The counts are a map from the five kinds of resource, all of them there.
pub record IngestReport (Duration : Type 0) : Type 0 where
  pub enis : ℕ
  pub security_groups : ℕ
  pub network_acls : ℕ
  pub route_tables : ℕ
  pub vpc_peering_connections : ℕ
  pub unresolved_references : ℕ
  pub duration : Duration
  pub non_fatal : List IngestWarning

abbrev pub is_unresolved : Edge → Bool
is_unresolved (routes_to edge) = not edge.resolved
is_unresolved (allows_ingress id rule) = not rule.resolved
is_unresolved (allows_egress id rule) = not rule.resolved
is_unresolved _ = false

unfoldable pub count_unresolved : GraphBatch → ℕ
count_unresolved batch = length (filter is_unresolved batch.edges)

unfoldable pub group_by : {V : Type 0} → List (String × V) → List (String × List V)
unfolding push
group_by {V} pairs = foldl (λ grouped ((key, value) : String × V). push key value grouped) [] pairs

-- The arms of the `match` in the loop over the edges.
abbrev pub as_has_sg : Edge → Option HasSgEdge
as_has_sg (has_sg edge) = some edge
as_has_sg _ = none

abbrev pub as_in_subnet : Edge → Option InSubnetEdge
as_in_subnet (in_subnet edge) = some edge
as_in_subnet _ = none

abbrev pub as_protected_by : Edge → Option ProtectedByEdge
as_protected_by (protected_by edge) = some edge
as_protected_by _ = none

abbrev pub as_uses_route_table : Edge → Option UsesRouteTableEdge
as_uses_route_table (uses_route_table edge) = some edge
as_uses_route_table _ = none

abbrev pub as_routes_to : Edge → Option RoutesToEdge
as_routes_to (routes_to edge) = some edge
as_routes_to _ = none

abbrev pub as_ingress : Edge → Option (String × SgRule)
as_ingress (allows_ingress id rule) = some (id, rule)
as_ingress _ = none

abbrev pub as_egress : Edge → Option (String × SgRule)
as_egress (allows_egress id rule) = some (id, rule)
as_egress _ = none

abbrev pub as_nacl : Edge → Option (String × NaclRule)
as_nacl (has_rule id rule) = some (id, rule)
as_nacl _ = none

abbrev pub sg_batches : List (String × List SgRule) → List SgRuleBatch
sg_batches grouped =
    map (λ ((id, rules) : String × List SgRule). record { security_group_id = id; rules = rules })
      grouped

abbrev pub nacl_batches : List (String × List NaclRule) → List NaclRuleBatch
nacl_batches grouped =
    map (λ ((id, rules) : String × List NaclRule). record { network_acl_id = id; rules = rules })
      grouped

module _ {Store WriteError : Type 0} (writer : Call → Effect Store WriteError (Unit {0})) where
  unfoldable pub write_batch : GraphBatch → Effect Store WriteError (Unit {0})
  unfolding group_by
  write_batch batch =
      let edges = batch.edges in
      writer (upsert_enis batch.enis)
      >> writer (upsert_security_groups batch.security_groups)
      >> writer (upsert_network_acls batch.network_acls)
      >> writer (upsert_subnets batch.subnets)
      >> writer (upsert_vpcs batch.vpcs)
      >> writer (upsert_route_tables batch.route_tables)
      >> writer (upsert_has_sg_edges (present (map as_has_sg edges)))
      >> writer (upsert_in_subnet_edges (present (map as_in_subnet edges)))
      >> writer (upsert_protected_by_edges (present (map as_protected_by edges)))
      >> writer (upsert_uses_route_table_edges (present (map as_uses_route_table edges)))
      >> writer (upsert_routes_to_edges (present (map as_routes_to edges)))
      >> writer
          (upsert_allows_ingress_rules (sg_batches (group_by (present (map as_ingress edges)))))
      >> writer (upsert_allows_egress_rules (sg_batches (group_by (present (map as_egress edges)))))
      >> writer (upsert_has_rules (nacl_batches (group_by (present (map as_nacl edges)))))

module _ {Store Failure WriteError Duration : Type 0}
    (writer : Call → Effect Store WriteError (Unit {0})) (elapsed : Duration) where
  unfoldable pub run_full_ingest_with_client :
      ℕ
      → Client Failure
      → String
      → Effect Store (IngestError Failure WriteError) (IngestReport Duration)
  unfolding collect_all build_graph_batch write_batch count_unresolved warning_from
  run_full_ingest_with_client earliest client account_id =
      lift (collect_all earliest client) >>> λ raw.
      let built = build_graph_batch account_id raw [] in
      lift (map_err mapping built.batch) >>> λ batch.
      (λ store. wrap_result write (write_batch writer batch store)) >>> λ _. lift (
        ok (record {
          enis = length batch.enis;
          security_groups = length batch.security_groups;
          network_acls = length batch.network_acls;
          route_tables = length batch.route_tables;
          vpc_peering_connections = length raw.vpc_peering_connections;
          unresolved_references = count_unresolved batch;
          duration = elapsed;
          non_fatal = map warning_from built.node_mapping_errors;
        }))

  -- `client_of` builds the clients of a configuration, `identity_of` asks STS for the caller.
  unfoldable pub run_full_ingest :
      (SdkConfig → Client Failure)
      → (SdkConfig → Result Failure (Option String))
      → ℕ
      → Environment
      → Option String
      → Effect Store (IngestError Failure WriteError) (IngestReport Duration)
  unfolding build_sdk_config resolve_account_id run_full_ingest_with_client
  run_full_ingest client_of identity_of earliest environment region =
      lift (build_sdk_config environment region) >>> λ sdk_config.
      lift (resolve_account_id (identity_of sdk_config)) >>> λ account_id.
      run_full_ingest_with_client earliest (client_of sdk_config) account_id
