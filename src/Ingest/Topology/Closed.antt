-- ===== src/Ingest/Topology/Closed.antt =====
-- crates/core/src/ingest/map/topology.rs: proofs about the edges and nodes of a batch.
use aws_net_hound.Base.{
  ◌≡◌, refl, sym, ap, subst, ◌∙◌, List, String, All, All-map, All-append, map, zip, present, ok,
  length, >>=-eq-ok,
}
use aws_net_hound.Base.Every.{
  All-both, All-zip_left, All-zip_right, All-zip_elim, contains-own, length-map,
}
use aws_net_hound.Base.Traverse.{map_ok-eq-ok, ok_unique}
use aws_net_hound.Graph.Model.{
  GraphBatch, EniRecord, SecurityGroupRecord, NetworkAclRecord, RouteTableRecord, VpcRecord,
  SubnetRecord, Edge,
}
use aws_net_hound.Ingest.Sdk.{NetworkInterface, SecurityGroup, NetworkAcl, RouteTable}
use aws_net_hound.Ingest.Ports.{MappingError}
use aws_net_hound.Ingest.Nodes.{
  MappedNodes, map_nodes, map_eni_node, map_security_group_node, map_network_acl_node,
  map_route_table_node,
}
use aws_net_hound.Ingest.Nodes.Kept.{map_nodes-IsPaired, map_nodes_lem}
use aws_net_hound.Ingest.Nodes.Fields.{
  map_eni_node-fields, map_network_acl_node-fields, map_route_table_node-fields,
}
use aws_net_hound.Ingest.Edges.{
  subnet_ids, has_sg_edges, in_subnet_edges, protected_by_edges, uses_route_table_edges,
  routes_to_edges, allows_edges, has_rule_edges,
}
use aws_net_hound.Ingest.Edges.Routes.{In}
use aws_net_hound.Ingest.Topology.{Collected, build_graph_batch, collect_edges}
use aws_net_hound.Ingest.Topology.Sights.{
  vpcs, subnets, table_vpcs, peerings-IsOwned, sighted_subnets-In, sighted_of_some,
  eni_sighted_of_some, Sighted,
}
use aws_net_hound.Ingest.Topology.Ends.{
  Ends, IsClosed, has_sg_edges-IsClosed, in_subnet_edges-IsClosed, protected_by_edges-IsClosed,
  uses_route_table_edges-IsClosed, routes_to_edges-IsClosed, allows_edges-IsClosed,
  has_rule_edges-IsClosed,
}

-- The ids of the nodes of a batch.
abbrev pub ends_of : GraphBatch → Ends
ends_of batch = record {
  enis = map (λ (node : EniRecord). node.id) batch.enis;
  security_groups = map (λ (node : SecurityGroupRecord). node.id) batch.security_groups;
  network_acls = map (λ (node : NetworkAclRecord). node.id) batch.network_acls;
  subnets = map (λ (node : SubnetRecord). node.id) batch.subnets;
  vpcs = map (λ (node : VpcRecord). node.id) batch.vpcs;
  route_tables = map (λ (node : RouteTableRecord). node.id) batch.route_tables;
}

module _ (account : String) (raw : Collected) (before : List MappingError) where
  abbrev enis : MappedNodes NetworkInterface EniRecord
  enis = map_nodes raw.network_interfaces map_eni_node account before

  abbrev groups : MappedNodes SecurityGroup SecurityGroupRecord
  groups = map_nodes raw.security_groups map_security_group_node account enis.errors

  abbrev acls : MappedNodes NetworkAcl NetworkAclRecord
  acls = map_nodes raw.network_acls map_network_acl_node account groups.errors

  abbrev tables : MappedNodes RouteTable RouteTableRecord
  tables = map_nodes raw.route_tables map_route_table_node account acls.errors

  abbrev ends : Ends
  ends = record {
    enis = map (λ (node : EniRecord). node.id) enis.records;
    security_groups = map (λ (node : SecurityGroupRecord). node.id) groups.records;
    network_acls = map (λ (node : NetworkAclRecord). node.id) acls.records;
    subnets = subnets account groups.raw acls.raw tables.raw enis.raw raw.vpc_peering_connections;
    vpcs = vpcs account groups.raw acls.raw tables.raw enis.raw raw.vpc_peering_connections;
    route_tables = map (λ (node : RouteTableRecord). node.id) tables.records;
  }

  own_enis :
      All (λ (p : NetworkInterface × EniRecord). In ends.enis p.1.id) (zip enis.raw enis.records)
  own_enis =
      All-zip_right (λ (node : EniRecord). In ends.enis node.id) enis.raw enis.records
        (contains-own (λ (node : EniRecord). node.id) enis.records)

  own_groups :
      All
        (λ (p : SecurityGroup × SecurityGroupRecord). In ends.security_groups p.1.id)
        (zip groups.raw groups.records)
  own_groups =
      All-zip_right (λ (node : SecurityGroupRecord). In ends.security_groups node.id) groups.raw
        groups.records (contains-own (λ (node : SecurityGroupRecord). node.id) groups.records)

  own_acls :
      All
        (λ (p : NetworkAcl × NetworkAclRecord). In ends.network_acls p.1.id)
        (zip acls.raw acls.records)
  own_acls =
      All-zip_right (λ (node : NetworkAclRecord). In ends.network_acls node.id) acls.raw
        acls.records (contains-own (λ (node : NetworkAclRecord). node.id) acls.records)

  own_tables :
      All
        (λ (p : RouteTable × RouteTableRecord). In ends.route_tables p.1.id)
        (zip tables.raw tables.records)
  own_tables =
      All-zip_right (λ (node : RouteTableRecord). In ends.route_tables node.id) tables.raw
        tables.records (contains-own (λ (node : RouteTableRecord). node.id) tables.records)

  acl_ends :
      All
        (λ (p : NetworkAcl × NetworkAclRecord).
          In ends.network_acls p.1.id × All (In ends.subnets) (present p.0.association_subnet_ids))
        (zip acls.raw acls.records)
  acl_ends =
      let pairs = zip acls.raw acls.records in
      let paired = map_nodes-IsPaired map_network_acl_node account raw.network_acls groups.errors in
      let seen =
        All-zip_left _ acls.raw acls.records
          (sighted_subnets-In account groups.raw acls.raw tables.raw enis.raw
            raw.vpc_peering_connections).1 in
      All-map _
        (λ (acl, node) (own, (mapped, sights)). (
          own,
          sighted_of_some
              (Sighted account groups.raw acls.raw tables.raw enis.raw raw.vpc_peering_connections)
              node.vpc_id acl.vpc_id (present acl.association_subnet_ids)
              (map_network_acl_node-fields acl account mapped) sights,
        ))
        pairs (All-both _ _ pairs own_acls (All-both _ _ pairs paired seen))

  table_ends :
      All
        (λ (p : RouteTable × RouteTableRecord).
          In ends.route_tables p.1.id × All (In ends.subnets) (subnet_ids p.0))
        (zip tables.raw tables.records)
  table_ends =
      let pairs = zip tables.raw tables.records in
      let paired = map_nodes-IsPaired map_route_table_node account raw.route_tables acls.errors in
      let seen =
        All-zip_left _ tables.raw tables.records
          (sighted_subnets-In account groups.raw acls.raw tables.raw enis.raw
            raw.vpc_peering_connections).2 in
      All-map _
        (λ (table, node) (own, (mapped, sights)). (
          own,
          sighted_of_some
              (Sighted account groups.raw acls.raw tables.raw enis.raw raw.vpc_peering_connections)
              node.vpc_id table.vpc_id (subnet_ids table)
              (map_route_table_node-fields table account mapped) sights,
        ))
        pairs (All-both _ _ pairs own_tables (All-both _ _ pairs paired seen))

  route_ends :
      All
        (λ (p : RouteTable × RouteTableRecord).
          In ends.route_tables p.1.id × In ends.vpcs p.1.vpc_id)
        (zip tables.raw tables.records)
  route_ends =
      let pairs = zip tables.raw tables.records in
      let paired = map_nodes-IsPaired map_route_table_node account raw.route_tables acls.errors in
      let seen =
        All-zip_left _ tables.raw tables.records (
          table_vpcs account groups.raw acls.raw tables.raw enis.raw raw.vpc_peering_connections) in
      All-map _
        (λ (table, node) (own, (mapped, named)).
          (own, named node.vpc_id (map_route_table_node-fields table account mapped)))
        pairs (All-both _ _ pairs own_tables (All-both _ _ pairs paired seen))

  eni_ends :
      All (λ (node : EniRecord). In ends.enis node.id × In ends.subnets node.subnet_id) enis.records
  eni_ends =
      let pairs = zip enis.raw enis.records in
      let paired = map_nodes-IsPaired map_eni_node account raw.network_interfaces before in
      let kept = map_nodes_lem map_eni_node account raw.network_interfaces before in
      let same =
        sym (length-map (λ eni. map_eni_node eni account) enis.raw)
        ∙ sym (ap length kept.records)
        ∙ length-map (λ (node : EniRecord). ok node) enis.records in
      let seen =
        All-zip_left _ enis.raw enis.records
          (sighted_subnets-In account groups.raw acls.raw tables.raw enis.raw
            raw.vpc_peering_connections).0 in
      All-zip_elim _ enis.raw enis.records same (
        All-map _
          (λ (eni, node) (own, (mapped, sights)). (
            own,
            (let (subnet, vpc) = map_eni_node-fields eni account mapped in
                eni_sighted_of_some
                  (Sighted account groups.raw acls.raw tables.raw enis.raw
                    raw.vpc_peering_connections)
                  eni node.subnet_id node.vpc_id subnet vpc sights),
          ))
          pairs (All-both _ _ pairs own_enis (All-both _ _ pairs paired seen)))

  edges-IsClosed :
      {edges : List Edge}
      → collect_edges account enis groups acls tables raw.vpc_peering_connections ≡ ok edges
      → All (IsClosed ends) edges
  unfolding collect_edges
  edges-IsClosed h =
      let (memberships, first, h) = >>=-eq-ok (has_sg_edges enis.raw enis.records) _ h in
      let (allows, second, h) = >>=-eq-ok (allows_edges groups.raw groups.records account) _ h in
      let (rules, third, last) = >>=-eq-ok (has_rule_edges acls.raw acls.records) _ h in
      let P = IsClosed ends in
      subst (All P) (ok_unique refl last) (
        All-append P _ rules
          (All-append P _ allows
            (All-append P _
              (routes_to_edges account tables.raw tables.records raw.vpc_peering_connections)
              (All-append P _ (uses_route_table_edges tables.raw tables.records)
                (All-append P _ (protected_by_edges acls.raw acls.records)
                  (All-append P memberships (in_subnet_edges enis.records)
                    (has_sg_edges-IsClosed ends enis.raw enis.records own_enis first)
                    (in_subnet_edges-IsClosed ends enis.records eni_ends))
                  (protected_by_edges-IsClosed ends acls.raw acls.records acl_ends))
                (uses_route_table_edges-IsClosed ends tables.raw tables.records table_ends))
              (routes_to_edges-IsClosed ends account tables.raw tables.records
                raw.vpc_peering_connections
                (peerings-IsOwned account groups.raw acls.raw tables.raw enis.raw
                  raw.vpc_peering_connections)
                route_ends))
            (allows_edges-IsClosed ends account groups.raw groups.records own_groups second))
          (has_rule_edges-IsClosed ends acls.raw acls.records own_acls third))

  -- Where a batch is built, its edges of interfaces to subnets and of subnets to network ACLs and to
  -- route tables have both their ends among the nodes of the batch. A route has its table there and,
  -- where it is resolved, its target VPC; it has no target where it is not. Of a membership the interface
  -- is a node, and of a rule the security group or network ACL that has it. Nothing is said of the
  -- security group of a membership, nor of the one that a rule names.
  pub build_graph_batch-IsClosed :
      (batch : GraphBatch)
      → (build_graph_batch account raw before).batch ≡ ok batch
      → All (IsClosed (ends_of batch)) batch.edges
  unfolding build_graph_batch
  build_graph_batch-IsClosed batch h =
      let (edges, walk, same) =
        map_ok-eq-ok _ (collect_edges account enis groups acls tables raw.vpc_peering_connections)
          h in
      subst (λ (b : GraphBatch). All (IsClosed (ends_of b)) b.edges) same (edges-IsClosed walk)
