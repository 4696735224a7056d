-- ===== src/Ingest/Stubs.antt =====
-- crates/core/src/ingest/map/topology.rs: the VPC and subnet nodes, made of where their ids are seen.
pub mod Seen
use mathlib.Core.List.{foldl}
use aws_net_hound.Base.{
  Option, none, some, List, [], ◌∷◌, ◌++◌, String, map, present, flat_map, if◌then◌else◌,
}
use aws_net_hound.Base.Ordered.{or_insert}
use aws_net_hound.Graph.Model.{VpcRecord, SubnetRecord}
use aws_net_hound.Ingest.Sdk.{
  NetworkInterface, SecurityGroup, NetworkAcl, RouteTable, VpcInfo, VpcPeeringConnection,
}
use aws_net_hound.Ingest.Edges.{is_text, sides, subnet_ids}

abbrev pub VpcStubs : Type 0
VpcStubs = List (String × VpcRecord)

abbrev pub SubnetStubs : Type 0
SubnetStubs = List (String × SubnetRecord)

unfoldable pub insert_vpc_stub : String → VpcStubs → String → VpcStubs
insert_vpc_stub account_id vpcs vpc_id =
    or_insert vpc_id (record { id = vpc_id; account_id = account_id; cidr_block = "" }) vpcs

-- The ids of the resources' own VPCs, in the order of the chained iterators.
unfoldable pub sighted_vpc_ids :
    List SecurityGroup → List NetworkAcl → List RouteTable → List NetworkInterface → List String
sighted_vpc_ids security_groups network_acls route_tables network_interfaces = present (
    map (λ (sg : SecurityGroup). sg.vpc_id) security_groups
    ++ map (λ (acl : NetworkAcl). acl.vpc_id) network_acls
    ++ map (λ (route_table : RouteTable). route_table.vpc_id) route_tables
    ++ map (λ (eni : NetworkInterface). eni.vpc_id) network_interfaces)

-- The VPC of a side of a peering, where the account owns it.
abbrev pub own_vpc_id : String → VpcInfo → Option String
own_vpc_id account_id info = if is_text info.owner_id account_id then info.vpc_id else none

unfoldable pub peered_vpc_ids : String → List VpcPeeringConnection → List String
peered_vpc_ids account_id peerings =
    present (flat_map (λ peering. map (own_vpc_id account_id) (sides peering)) peerings)

unfoldable pub collect_vpc_stubs :
    String
    → List SecurityGroup
    → List NetworkAcl
    → List RouteTable
    → List NetworkInterface
    → List VpcPeeringConnection
    → VpcStubs
unfolding insert_vpc_stub sighted_vpc_ids peered_vpc_ids
collect_vpc_stubs account_id security_groups network_acls route_tables network_interfaces peerings =
    let sighted =
      foldl (insert_vpc_stub account_id) []
        (sighted_vpc_ids security_groups network_acls route_tables network_interfaces) in
    foldl (insert_vpc_stub account_id) sighted (peered_vpc_ids account_id peerings)

unfoldable pub insert_subnet_stub : String → SubnetStubs → String × String → SubnetStubs
insert_subnet_stub account_id subnets (subnet_id, vpc_id) =
    or_insert subnet_id
      (record {
        id = subnet_id;
        account_id = account_id;
        vpc_id = vpc_id;
        cidr_block = "";
        availability_zone = "";
      })
      subnets

-- A subnet id with the VPC id of the resource that names it.
abbrev pub eni_sighting : NetworkInterface → List (String × String)
eni_sighting eni = elim eni.subnet_id [
  | none ↦ []
  | some subnet_id ↦ elim eni.vpc_id [ none ↦ [] | some vpc_id ↦ (subnet_id, vpc_id) ∷ [] ]
]

abbrev pub sightings : Option String → List String → List (String × String)
sightings none subnets = []
sightings (some vpc_id) subnets = map (λ subnet_id. (subnet_id, vpc_id)) subnets

unfoldable pub sighted_subnets :
    List NetworkInterface → List NetworkAcl → List RouteTable → List (String × String)
sighted_subnets network_interfaces network_acls route_tables =
    flat_map eni_sighting network_interfaces
    ++ flat_map (λ (acl : NetworkAcl). sightings acl.vpc_id (present acl.association_subnet_ids))
        network_acls
    ++ flat_map
        (λ (route_table : RouteTable). sightings route_table.vpc_id (subnet_ids route_table))
        route_tables

unfoldable pub collect_subnet_stubs :
    String → List NetworkInterface → List NetworkAcl → List RouteTable → SubnetStubs
unfolding insert_subnet_stub sighted_subnets
collect_subnet_stubs account_id network_interfaces network_acls route_tables =
    foldl (insert_subnet_stub account_id) []
      (sighted_subnets network_interfaces network_acls route_tables)
