-- ===== src/Ingest/Sdk.antt =====
-- The fields that the program reads of the types of `aws_sdk_ec2`, all optional there. A list that is
-- absent reads as an empty one, as the accessors of those types give it.
use aws_net_hound.Base.{Option, Bool, List, String}
use aws_net_hound.Base.Int.{ℤ}

pub record UserIdGroupPair : Type 0 where
  pub group_id : Option String
  pub user_id : Option String

-- `cidr_ip` of each of `ip_ranges`, `cidr_ipv6` of each of `ipv6_ranges`.
pub record IpPermission : Type 0 where
  pub ip_protocol : Option String
  pub from_port : Option ℤ
  pub to_port : Option ℤ
  pub ip_ranges : List (Option String)
  pub ipv6_ranges : List (Option String)
  pub user_id_group_pairs : List UserIdGroupPair

pub record SecurityGroup : Type 0 where
  pub group_id : Option String
  pub vpc_id : Option String
  pub group_name : Option String
  pub description : Option String
  pub ip_permissions : List IpPermission
  pub ip_permissions_egress : List IpPermission

-- `RuleAction`, which is non-exhaustive.
pub data RuleAction : Type 0 where
  allow deny unknown : RuleAction

pub record SdkPortRange : Type 0 where
  pub from : Option ℤ
  pub to : Option ℤ

pub record NetworkAclEntry : Type 0 where
  pub rule_number : Option ℤ
  pub protocol : Option String
  pub port_range : Option SdkPortRange
  pub cidr_block : Option String
  pub ipv6_cidr_block : Option String
  pub egress : Option Bool
  pub rule_action : Option RuleAction

-- An association, as far as it is read: its subnet.
pub record NetworkAcl : Type 0 where
  pub network_acl_id : Option String
  pub vpc_id : Option String
  pub is_default : Option Bool
  pub entries : List NetworkAclEntry
  pub association_subnet_ids : List (Option String)

pub record NetworkInterface : Type 0 where
  pub network_interface_id : Option String
  pub vpc_id : Option String
  pub subnet_id : Option String
  pub private_ip_address : Option String
  pub description : Option String
  pub group_ids : List (Option String)

pub record RouteTableAssociation : Type 0 where
  pub main : Option Bool
  pub subnet_id : Option String

pub record Route : Type 0 where
  pub destination_cidr_block : Option String
  pub destination_ipv6_cidr_block : Option String
  pub gateway_id : Option String
  pub vpc_peering_connection_id : Option String

pub record RouteTable : Type 0 where
  pub route_table_id : Option String
  pub vpc_id : Option String
  pub associations : List RouteTableAssociation
  pub routes : List Route

pub record VpcInfo : Type 0 where
  pub vpc_id : Option String
  pub owner_id : Option String

pub record VpcPeeringConnection : Type 0 where
  pub vpc_peering_connection_id : Option String
  pub requester_vpc_info : Option VpcInfo
  pub accepter_vpc_info : Option VpcInfo
