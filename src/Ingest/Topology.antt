-- ===== src/Ingest/Topology.antt =====
-- crates/core/src/ingest/map/topology.rs: `build_graph_batch`. The errors that it pushes to the
-- caller's list come with the batch, or with the error that stops it.
pub mod Ends
pub mod Sights
pub mod Closed
use aws_net_hound.Base.{List, ◌++◌, String, ok, ◌>>=◌, map_ok}
use aws_net_hound.Base.Ordered.{values}
use aws_net_hound.Graph.Model.{
  GraphBatch, Edge, EniRecord, SecurityGroupRecord, NetworkAclRecord, RouteTableRecord,
}
use aws_net_hound.Ingest.Sdk.{
  NetworkInterface, SecurityGroup, NetworkAcl, RouteTable, VpcPeeringConnection,
}
use aws_net_hound.Ingest.Ports.{MappingError, Mapped}
use aws_net_hound.Ingest.Nodes.{
  MappedNodes, map_nodes, map_eni_node, map_security_group_node, map_network_acl_node,
  map_route_table_node,
}
use aws_net_hound.Ingest.Edges.{
  has_sg_edges, in_subnet_edges, protected_by_edges, uses_route_table_edges, routes_to_edges,
  allows_edges, has_rule_edges,
}
use aws_net_hound.Ingest.Stubs.{collect_vpc_stubs, collect_subnet_stubs}

-- The five collections of an ingest.
pub record Collected : Type 0 where
  pub security_groups : List SecurityGroup
  pub network_acls : List NetworkAcl
  pub route_tables : List RouteTable
  pub network_interfaces : List NetworkInterface
  pub vpc_peering_connections : List VpcPeeringConnection

pub record Built : Type 0 where
  pub batch : Mapped GraphBatch
  pub node_mapping_errors : List MappingError

-- The edges in the order in which they are collected.
unfoldable pub collect_edges :
    String
    → MappedNodes NetworkInterface EniRecord
    → MappedNodes SecurityGroup SecurityGroupRecord
    → MappedNodes NetworkAcl NetworkAclRecord
    → MappedNodes RouteTable RouteTableRecord
    → List VpcPeeringConnection
    → Mapped (List Edge)
collect_edges account_id enis groups acls tables peerings = do
  memberships ← has_sg_edges enis.raw enis.records
  let topology =
      memberships
      ++ in_subnet_edges enis.records
      ++ protected_by_edges acls.raw acls.records
      ++ uses_route_table_edges tables.raw tables.records
      ++ routes_to_edges account_id tables.raw tables.records peerings
  allows ← allows_edges groups.raw groups.records account_id
  rules ← has_rule_edges acls.raw acls.records
  ok (topology ++ allows ++ rules)

unfoldable pub build_graph_batch : String → Collected → List MappingError → Built
unfolding map_nodes map_eni_node map_security_group_node map_network_acl_node map_route_table_node
    collect_edges
build_graph_batch account_id raw node_mapping_errors =
    let enis = map_nodes raw.network_interfaces map_eni_node account_id node_mapping_errors in
    let groups = map_nodes raw.security_groups map_security_group_node account_id enis.errors in
    let acls = map_nodes raw.network_acls map_network_acl_node account_id groups.errors in
    let tables = map_nodes raw.route_tables map_route_table_node account_id acls.errors in
    let peerings = raw.vpc_peering_connections in
    let vpcs =
      values (collect_vpc_stubs account_id groups.raw acls.raw tables.raw enis.raw peerings) in
    let subnets = values (collect_subnet_stubs account_id enis.raw acls.raw tables.raw) in
    let batch =
      map_ok
        (λ edges. record {
          enis = enis.records;
          security_groups = groups.records;
          network_acls = acls.records;
          subnets = subnets;
          vpcs = vpcs;
          route_tables = tables.records;
          edges = edges;
        })
        (collect_edges account_id enis groups acls tables peerings) in
    record { batch = batch; node_mapping_errors = tables.errors }
