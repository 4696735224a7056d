-- ===== src/Ingest/Nodes.antt =====
-- crates/core/src/ingest/map/topology.rs: the nodes, and the resources that do not map to one.
pub mod Kept
pub mod Fields
use aws_net_hound.Base.{
  Bool, true, false, Option, some, List, [], ◌∷◌, ◌++◌, String, any, ok, err, ◌>>=◌, ok_or,
}
use aws_net_hound.Graph.Model.{EniRecord, SecurityGroupRecord, NetworkAclRecord, RouteTableRecord}
use aws_net_hound.Ingest.Sdk.{
  NetworkInterface, SecurityGroup, NetworkAcl, RouteTable, RouteTableAssociation,
}
use aws_net_hound.Ingest.Ports.{MappingError, Mapped, invalid_field, absent, require_str}

unfoldable pub map_eni_node : NetworkInterface → String → Mapped EniRecord
unfolding require_str
map_eni_node eni account_id = do
  id ← require_str "<unknown ENI>" "network_interface_id" eni.network_interface_id
  vpc_id ← require_str id "vpc_id" eni.vpc_id
  subnet_id ← require_str id "subnet_id" eni.subnet_id
  private_ip ← require_str id "private_ip_address" eni.private_ip_address
  ok (record {
    id = id;
    account_id = account_id;
    vpc_id = vpc_id;
    subnet_id = subnet_id;
    private_ip = private_ip;
    description = eni.description;
  })

unfoldable pub map_security_group_node : SecurityGroup → String → Mapped SecurityGroupRecord
unfolding require_str
map_security_group_node sg account_id = do
  id ← require_str "<unknown security group>" "group_id" sg.group_id
  vpc_id ← require_str id "vpc_id" sg.vpc_id
  name ← require_str id "group_name" sg.group_name
  ok (record {
    id = id;
    account_id = account_id;
    vpc_id = vpc_id;
    name = name;
    description = sg.description;
  })

unfoldable pub map_network_acl_node : NetworkAcl → String → Mapped NetworkAclRecord
unfolding require_str
map_network_acl_node acl account_id = do
  id ← require_str "<unknown network acl>" "network_acl_id" acl.network_acl_id
  vpc_id ← require_str id "vpc_id" acl.vpc_id
  is_default ← ok_or (invalid_field id "is_default" absent) acl.is_default
  ok (record { id = id; account_id = account_id; vpc_id = vpc_id; is_default = is_default })

abbrev is_some_true : Option Bool → Bool
is_some_true (some true) = true
is_some_true _ = false

unfoldable pub map_route_table_node : RouteTable → String → Mapped RouteTableRecord
unfolding require_str
map_route_table_node route_table account_id = do
  id ← require_str "<unknown route table>" "route_table_id" route_table.route_table_id
  vpc_id ← require_str id "vpc_id" route_table.vpc_id
  let is_main =
      any (λ (association : RouteTableAssociation). is_some_true association.main)
        route_table.associations
  ok (record { id = id; account_id = account_id; vpc_id = vpc_id; is_main = is_main })

-- The raw items that map with their records, in order, and the errors after this walk.
pub record MappedNodes (T R : Type 0) : Type 0 where
  pub raw : List T
  pub records : List R
  pub errors : List MappingError

unfoldable pub map_nodes :
    {T R : Type 0} → List T → (T → String → Mapped R) → String → List MappingError → MappedNodes T R
map_nodes [] map_one account_id errors = record { raw = []; records = []; errors = errors }
map_nodes (item ∷ items) map_one account_id errors = elim (map_one item account_id) [
  | ok mapped ↦
      let rest = map_nodes items map_one account_id errors in
      record { raw = item ∷ rest.raw; records = mapped ∷ rest.records; errors = rest.errors }
  | err error ↦ map_nodes items map_one account_id (errors ++ error ∷ [])
]
