-- ===== src/Ingest/Edges.antt =====
-- crates/core/src/ingest/map/topology.rs: the edges, each from its one source.
pub mod Routes
use aws_net_hound.Base.{
  Bool, true, false, not, Option, none, some, List, [], ◌∷◌, String, str_eq, map, find?, present,
  zip, flat_map, concat, ok, ◌>>=◌, map_ok, traverse, if◌then◌else◌,
}
use aws_net_hound.Domain.Rule.{ingress, egress, SgRule}
use aws_net_hound.Graph.Model.{
  EniRecord, SecurityGroupRecord, NetworkAclRecord, RouteTableRecord, Edge, has_sg, in_subnet,
  protected_by, uses_route_table, routes_to, allows_ingress, allows_egress, has_rule,
}
use aws_net_hound.Ingest.Sdk.{
  NetworkInterface, SecurityGroup, NetworkAcl, RouteTable, RouteTableAssociation, Route, VpcInfo,
  VpcPeeringConnection,
}
use aws_net_hound.Ingest.Ports.{Mapped, require_str}
use aws_net_hound.Ingest.Sg.{map_security_group_rules}
use aws_net_hound.Ingest.Nacl.{map_network_acl_rules}

-- `==` on an optional text and one that is there.
abbrev pub is_text : Option String → String → Bool
is_text none text = false
is_text (some own) text = str_eq own text

abbrev pub or_else : Option String → Option String → Option String
or_else (some block) _ = some block
or_else none other = other

unfoldable pub has_sg_edges : List NetworkInterface → List EniRecord → Mapped (List Edge)
unfolding require_str
has_sg_edges network_interfaces enis = map_ok concat (
    traverse
      (λ ((eni, node) : NetworkInterface × EniRecord).
        traverse
          (λ group_id. require_str node.id "groups[].group_id" group_id >>= λ security_group_id.
            ok (has_sg (record { eni_id = node.id; security_group_id = security_group_id })))
          eni.group_ids)
      (zip network_interfaces enis))

unfoldable pub in_subnet_edges : List EniRecord → List Edge
in_subnet_edges enis =
    map (λ (eni : EniRecord). in_subnet (record { eni_id = eni.id; subnet_id = eni.subnet_id }))
      enis

abbrev pub protected_edge : NetworkAclRecord → String → Edge
protected_edge node subnet_id =
    protected_by (record { subnet_id = subnet_id; network_acl_id = node.id })

unfoldable pub protected_by_edges : List NetworkAcl → List NetworkAclRecord → List Edge
protected_by_edges network_acls network_acl_records =
    flat_map
      (λ ((acl, node) : NetworkAcl × NetworkAclRecord).
        map (protected_edge node) (present acl.association_subnet_ids))
      (zip network_acls network_acl_records)

abbrev pub subnet_ids : RouteTable → List String
subnet_ids route_table =
    present (
      map (λ (association : RouteTableAssociation). association.subnet_id) route_table.associations)

abbrev pub uses_edge : RouteTableRecord → String → Edge
uses_edge node subnet_id =
    uses_route_table (record { subnet_id = subnet_id; route_table_id = node.id })

unfoldable pub uses_route_table_edges : List RouteTable → List RouteTableRecord → List Edge
uses_route_table_edges route_tables route_table_records =
    flat_map
      (λ ((route_table, node) : RouteTable × RouteTableRecord).
        map (uses_edge node) (subnet_ids route_table))
      (zip route_tables route_table_records)

-- The two sides of a peering that are there.
abbrev pub sides : VpcPeeringConnection → List VpcInfo
sides peering = present (peering.requester_vpc_info ∷ peering.accepter_vpc_info ∷ [])

other_side_of : String → Option VpcPeeringConnection → Option VpcInfo
other_side_of rt_vpc_id none = none
other_side_of rt_vpc_id (some peering) =
    find? (λ (info : VpcInfo). not (is_text info.vpc_id rt_vpc_id)) (sides peering)

target_of_side : String → Option VpcInfo → Option String × Bool
target_of_side account_id none = (none, false)
target_of_side account_id (some info) =
    if is_text info.owner_id account_id
    then elim info.vpc_id [ some vpc_id ↦ (some vpc_id, true) | none ↦ (none, false) ]
    else (none, false)

unfoldable pub resolve_route_target :
    String → String → Route → List VpcPeeringConnection → Option String × Bool
unfolding other_side_of target_of_side
resolve_route_target account_id rt_vpc_id route peerings =
    if is_text route.gateway_id "local"
    then (some rt_vpc_id, true)
    else elim route.vpc_peering_connection_id [
      | none ↦ (none, false)
      | some pcx_id ↦ target_of_side account_id (
          other_side_of rt_vpc_id (
            find? (λ (pcx : VpcPeeringConnection). is_text pcx.vpc_peering_connection_id pcx_id)
              peerings))
    ]

-- The edge of a route, by its destination.
abbrev pub edge_to :
    String → RouteTableRecord → List VpcPeeringConnection → Route → Option String → Option Edge
edge_to account_id node peerings route none = none
edge_to account_id node peerings route (some destination_cidr) =
    let target = resolve_route_target account_id node.vpc_id route peerings in
    some (
      routes_to (record {
        route_table_id = node.id;
        destination_cidr = destination_cidr;
        target_vpc_id = target.0;
        resolved = target.1;
      }))

abbrev pub route_edge : String → RouteTableRecord → List VpcPeeringConnection → Route → Option Edge
route_edge account_id node peerings route =
    edge_to account_id node peerings route
      (or_else route.destination_cidr_block route.destination_ipv6_cidr_block)

unfoldable pub routes_to_edges :
    String → List RouteTable → List RouteTableRecord → List VpcPeeringConnection → List Edge
routes_to_edges account_id route_tables route_table_records peerings =
    flat_map
      (λ ((route_table, node) : RouteTable × RouteTableRecord).
        present (map (route_edge account_id node peerings) route_table.routes))
      (zip route_tables route_table_records)

abbrev pub allows_edge : String → SgRule → Edge
allows_edge id rule = elim rule.direction [
  | ingress ↦ allows_ingress id rule
  | egress ↦ allows_egress id rule
]

unfoldable pub allows_edges :
    List SecurityGroup → List SecurityGroupRecord → String → Mapped (List Edge)
unfolding map_security_group_rules
allows_edges security_groups security_group_records account_id = map_ok concat (
    traverse
      (λ ((sg, node) : SecurityGroup × SecurityGroupRecord).
        map_ok (map (allows_edge node.id)) (map_security_group_rules sg account_id))
      (zip security_groups security_group_records))

unfoldable pub has_rule_edges : List NetworkAcl → List NetworkAclRecord → Mapped (List Edge)
unfolding map_network_acl_rules
has_rule_edges network_acls network_acl_records = map_ok concat (
    traverse
      (λ ((acl, node) : NetworkAcl × NetworkAclRecord).
        map_ok (map (has_rule node.id)) (map_network_acl_rules acl))
      (zip network_acls network_acl_records))
