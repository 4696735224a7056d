-- ===== src/Examples/Resources.antt =====
-- A small account: one interface, its group, a network ACL and a route table.
use aws_net_hound.Base.{ℕ, Option, none, some, true, false, List, [], ◌∷◌, Result, ok, err}
use aws_net_hound.Base.Int.{ℤ, pos}
use aws_net_hound.Domain.Rule.{ingress, cidr, security_group_ref, SgRule, NaclRule, Action}
use aws_net_hound.Graph.Model.{GraphBatch}
use aws_net_hound.Ingest.Sdk.{
  IpPermission, SecurityGroup, RuleAction, NetworkAclEntry, NetworkAcl, NetworkInterface,
  RouteTable,
}
use aws_net_hound.Ingest.Topology.{Collected}

-- HTTPS from anywhere and from a group of another account.
abbrev pub permission : IpPermission
permission = record {
  ip_protocol = some "tcp";
  from_port = some (pos 443);
  to_port = some (pos 443);
  ip_ranges = some "0.0.0.0/0" ∷ [];
  ipv6_ranges = [];
  user_id_group_pairs = record { group_id = some "sg-far"; user_id = some "222" } ∷ [];
}

abbrev pub security_group : SecurityGroup
security_group = record {
  group_id = some "sg-1";
  vpc_id = some "vpc-1";
  group_name = some "web";
  description = none;
  ip_permissions = permission ∷ [];
  ip_permissions_egress = [];
}

abbrev pub https_rule : SgRule
https_rule = record {
  direction = ingress;
  protocol = "tcp";
  port_range = some (record { from_port = 443; to_port = 443 });
  target = cidr "0.0.0.0/0";
  resolved = true;
}

abbrev pub group_rules : List SgRule
group_rules =
    https_rule ∷ record https_rule { target = security_group_ref "sg-far"; resolved = false } ∷ []

abbrev pub entry : ℤ → Option RuleAction → NetworkAclEntry
entry number action = record {
  rule_number = some number;
  protocol = some "-1";
  port_range = none;
  cidr_block = some "0.0.0.0/0";
  ipv6_cidr_block = none;
  egress = some false;
  rule_action = action;
}

abbrev pub network_acl : NetworkAcl
network_acl = record {
  network_acl_id = some "acl-1";
  vpc_id = some "vpc-1";
  is_default = some true;
  entries = entry (pos 200) (some RuleAction.deny) ∷ entry (pos 100) (some RuleAction.allow) ∷ [];
  association_subnet_ids = some "subnet-1" ∷ [];
}

abbrev pub acl_rule : ℕ → Action → NaclRule
acl_rule number action = record {
  rule_number = number;
  direction = ingress;
  protocol = "-1";
  port_range = none;
  cidr_block = "0.0.0.0/0";
  action = action;
}

abbrev pub acl_rules : List NaclRule
acl_rules = acl_rule 100 Action.allow ∷ acl_rule 200 Action.deny ∷ []

abbrev pub network_interface : NetworkInterface
network_interface = record {
  network_interface_id = some "eni-1";
  vpc_id = some "vpc-1";
  subnet_id = some "subnet-1";
  private_ip_address = some "10.0.1.5";
  description = none;
  group_ids = some "sg-1" ∷ [];
}

-- An interface without an address, which does not map.
abbrev pub broken_interface : NetworkInterface
broken_interface = record network_interface { private_ip_address = none }

abbrev pub route_table : RouteTable
route_table = record {
  route_table_id = some "rtb-1";
  vpc_id = some "vpc-1";
  associations = record { main = some true; subnet_id = some "subnet-1" } ∷ [];
  routes =
      record {
        destination_cidr_block = some "10.0.0.0/16";
        destination_ipv6_cidr_block = none;
        gateway_id = some "local";
        vpc_peering_connection_id = none;
      }
      ∷ [];
}

abbrev pub account : Collected
account = record {
  security_groups = security_group ∷ [];
  network_acls = network_acl ∷ [];
  route_tables = route_table ∷ [];
  network_interfaces = broken_interface ∷ network_interface ∷ [];
  vpc_peering_connections = [];
}

abbrev pub no_batch : GraphBatch
no_batch = record {
  enis = [];
  security_groups = [];
  network_acls = [];
  subnets = [];
  vpcs = [];
  route_tables = [];
  edges = [];
}

abbrev pub batch_of : {E : Type 0} → Result E GraphBatch → GraphBatch
batch_of (ok batch) = batch
batch_of (err _) = no_batch
