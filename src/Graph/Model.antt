-- ===== src/Graph/Model.antt =====
-- crates/core/src/ports.rs and crates/core/src/graph/model.rs: the node and edge records.
use aws_net_hound.Base.{Bool, Option, List, String}
use aws_net_hound.Domain.Rule.{SgRule, NaclRule}

pub record EniRecord : Type 0 where
  pub id : String
  pub account_id : String
  pub vpc_id : String
  pub subnet_id : String
  pub private_ip : String
  pub description : Option String

pub record SecurityGroupRecord : Type 0 where
  pub id : String
  pub account_id : String
  pub vpc_id : String
  pub name : String
  pub description : Option String

pub record NetworkAclRecord : Type 0 where
  pub id : String
  pub account_id : String
  pub vpc_id : String
  pub is_default : Bool

pub record SubnetRecord : Type 0 where
  pub id : String
  pub account_id : String
  pub vpc_id : String
  pub cidr_block : String
  pub availability_zone : String

pub record VpcRecord : Type 0 where
  pub id : String
  pub account_id : String
  pub cidr_block : String

pub record RouteTableRecord : Type 0 where
  pub id : String
  pub account_id : String
  pub vpc_id : String
  pub is_main : Bool

pub record RegulatedBoundaryRecord : Type 0 where
  pub id : String
  pub account_id : String
  pub name : String
  pub regime : String
  pub description : Option String

pub record HasSgEdge : Type 0 where
  pub eni_id : String
  pub security_group_id : String

pub record InSubnetEdge : Type 0 where
  pub eni_id : String
  pub subnet_id : String

pub record ProtectedByEdge : Type 0 where
  pub subnet_id : String
  pub network_acl_id : String

pub record UsesRouteTableEdge : Type 0 where
  pub subnet_id : String
  pub route_table_id : String

pub record RoutesToEdge : Type 0 where
  pub route_table_id : String
  pub destination_cidr : String
  pub target_vpc_id : Option String
  pub resolved : Bool

pub data Edge : Type 0 where
  has_sg : HasSgEdge → Edge
  in_subnet : InSubnetEdge → Edge
  protected_by : ProtectedByEdge → Edge
  uses_route_table : UsesRouteTableEdge → Edge
  routes_to : RoutesToEdge → Edge
  allows_ingress : (security_group_id : String) (rule : SgRule) → Edge
  allows_egress : (security_group_id : String) (rule : SgRule) → Edge
  has_rule : (network_acl_id : String) (rule : NaclRule) → Edge

pub record GraphBatch : Type 0 where
  pub enis : List EniRecord
  pub security_groups : List SecurityGroupRecord
  pub network_acls : List NetworkAclRecord
  pub subnets : List SubnetRecord
  pub vpcs : List VpcRecord
  pub route_tables : List RouteTableRecord
  pub edges : List Edge

pub record SgRuleBatch : Type 0 where
  pub security_group_id : String
  pub rules : List SgRule

pub record NaclRuleBatch : Type 0 where
  pub network_acl_id : String
  pub rules : List NaclRule

-- One call of a method of `GraphWriter`.
pub data Call : Type 0 where
  upsert_enis : List EniRecord → Call
  upsert_security_groups : List SecurityGroupRecord → Call
  upsert_network_acls : List NetworkAclRecord → Call
  upsert_subnets : List SubnetRecord → Call
  upsert_vpcs : List VpcRecord → Call
  upsert_route_tables : List RouteTableRecord → Call
  upsert_regulated_boundaries : List RegulatedBoundaryRecord → Call
  upsert_has_sg_edges : List HasSgEdge → Call
  upsert_in_subnet_edges : List InSubnetEdge → Call
  upsert_protected_by_edges : List ProtectedByEdge → Call
  upsert_uses_route_table_edges : List UsesRouteTableEdge → Call
  upsert_routes_to_edges : List RoutesToEdge → Call
  upsert_allows_ingress_rules : List SgRuleBatch → Call
  upsert_allows_egress_rules : List SgRuleBatch → Call
  upsert_has_rules : List NaclRuleBatch → Call
