-- ===== src/Graph/NodeRows.antt =====
-- crates/core/src/graph/neo4j.rs: the rows that the nodes and the topology edges are written from.
use aws_net_hound.Base.{Option, none, some, [], ◌∷◌, String}
use aws_net_hound.Graph.Bolt.{BoltType, string, boolean, null, Props}
use aws_net_hound.Graph.Model.{
  EniRecord, SecurityGroupRecord, NetworkAclRecord, SubnetRecord, VpcRecord, RouteTableRecord,
  RegulatedBoundaryRecord, HasSgEdge, InSubnetEdge, ProtectedByEdge, UsesRouteTableEdge,
  RoutesToEdge,
}

abbrev pub opt_string_prop : Option String → BoltType
opt_string_prop (some value) = string value
opt_string_prop none = null

-- The row of a node, with its two keys.
pub record NodeRow : Type 0 where
  pub id : BoltType
  pub props : Props

abbrev pub node_row : String → Props → NodeRow
node_row id props = record { id = string id; props = props }

unfoldable pub eni_row : EniRecord → NodeRow
eni_row r = node_row r.id (
    ("account_id", string r.account_id)
    ∷ ("vpc_id", string r.vpc_id)
    ∷ ("subnet_id", string r.subnet_id)
    ∷ ("private_ip", string r.private_ip)
    ∷ ("description", opt_string_prop r.description)
    ∷ [])

unfoldable pub security_group_row : SecurityGroupRecord → NodeRow
security_group_row r = node_row r.id (
    ("account_id", string r.account_id)
    ∷ ("vpc_id", string r.vpc_id)
    ∷ ("name", string r.name)
    ∷ ("description", opt_string_prop r.description)
    ∷ [])

unfoldable pub network_acl_row : NetworkAclRecord → NodeRow
network_acl_row r = node_row r.id (
    ("account_id", string r.account_id)
    ∷ ("vpc_id", string r.vpc_id)
    ∷ ("is_default", boolean r.is_default)
    ∷ [])

unfoldable pub subnet_row : SubnetRecord → NodeRow
subnet_row r = node_row r.id (
    ("account_id", string r.account_id)
    ∷ ("vpc_id", string r.vpc_id)
    ∷ ("cidr_block", string r.cidr_block)
    ∷ ("availability_zone", string r.availability_zone)
    ∷ [])

unfoldable pub vpc_row : VpcRecord → NodeRow
vpc_row r =
    node_row r.id (("account_id", string r.account_id) ∷ ("cidr_block", string r.cidr_block) ∷ [])

unfoldable pub route_table_row : RouteTableRecord → NodeRow
route_table_row r = node_row r.id (
    ("account_id", string r.account_id)
    ∷ ("vpc_id", string r.vpc_id)
    ∷ ("is_main", boolean r.is_main)
    ∷ [])

unfoldable pub regulated_boundary_row : RegulatedBoundaryRecord → NodeRow
regulated_boundary_row r = node_row r.id (
    ("account_id", string r.account_id)
    ∷ ("name", string r.name)
    ∷ ("regime", string r.regime)
    ∷ ("description", opt_string_prop r.description)
    ∷ [])

unfoldable pub has_sg_row : HasSgEdge → Props
has_sg_row e = ("eni_id", string e.eni_id) ∷ ("security_group_id", string e.security_group_id) ∷ []

unfoldable pub in_subnet_row : InSubnetEdge → Props
in_subnet_row e = ("eni_id", string e.eni_id) ∷ ("subnet_id", string e.subnet_id) ∷ []

unfoldable pub protected_by_row : ProtectedByEdge → Props
protected_by_row e =
    ("subnet_id", string e.subnet_id) ∷ ("network_acl_id", string e.network_acl_id) ∷ []

unfoldable pub uses_route_table_row : UsesRouteTableEdge → Props
uses_route_table_row e =
    ("subnet_id", string e.subnet_id) ∷ ("route_table_id", string e.route_table_id) ∷ []

unfoldable pub routes_to_resolved_row : RoutesToEdge → String → Props
routes_to_resolved_row e target_vpc_id =
    ("route_table_id", string e.route_table_id)
    ∷ ("destination_cidr", string e.destination_cidr)
    ∷ ("target_vpc_id", string target_vpc_id)
    ∷ ("resolved", boolean e.resolved)
    ∷ []

unfoldable pub routes_to_unresolved_row : RoutesToEdge → Props
routes_to_unresolved_row e =
    ("route_table_id", string e.route_table_id)
    ∷ ("destination_cidr", string e.destination_cidr)
    ∷ ("resolved", boolean e.resolved)
    ∷ []
