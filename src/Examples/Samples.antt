-- ===== src/Examples/Samples.antt =====
-- Two interfaces in two subnets, with their rules, for the examples.
use aws_net_hound.Base.{Bool, none, true, false, List, [], ◌∷◌, String}
use aws_net_hound.Net.{v4}
use aws_net_hound.Domain.Rule.{
  ingress, egress, cidr, security_group_ref, SgRule, NaclRule, allow, deny, RuleTarget, Direction,
  Action,
}
use aws_net_hound.Evaluate.Types.{Traffic, Protocol}
use aws_net_hound.Evaluate.Sg.{PeerIdentity}
use aws_net_hound.Evaluate.Path.{EndpointCandidate, PathCandidate}

-- 10.0.1.5.
abbrev pub traffic : Traffic
traffic = record { protocol = Protocol.all; port = none; peer_address = v4 167772421 }

abbrev pub sg_rule : Direction → RuleTarget → Bool → SgRule
sg_rule direction target resolved = record {
  direction = direction;
  protocol = "-1";
  port_range = none;
  target = target;
  resolved = resolved;
}

abbrev pub nacl_rule : Direction → Action → String → NaclRule
nacl_rule direction action block = record {
  rule_number = 100;
  direction = direction;
  protocol = "-1";
  port_range = none;
  cidr_block = block;
  action = action;
}

abbrev pub endpoint : String → String → List SgRule → List NaclRule → EndpointCandidate
endpoint eni_id group sg_rules nacl_rules = record {
  eni_id = eni_id;
  peer_security_group_ids = group ∷ [];
  security_group_rules = sg_rules;
  subnet_id = "subnet";
  nacl_rules = nacl_rules;
}

abbrev pub open_nacl : List NaclRule
open_nacl = nacl_rule ingress allow "10.0.0.0/8" ∷ nacl_rule egress allow "10.0.0.0/8" ∷ []

abbrev pub path_of : EndpointCandidate → EndpointCandidate → PathCandidate
path_of source destination = record {
  source = source;
  destination = destination;
  route_exists = true;
  traffic = traffic;
  destination_boundary = "boundary";
}

abbrev pub to_everywhere : SgRule
to_everywhere = sg_rule egress (cidr "0.0.0.0/0") true

abbrev pub from_web : SgRule
from_web = sg_rule ingress (security_group_ref "sg-web") true

abbrev pub to_elsewhere : SgRule
to_elsewhere = sg_rule egress (security_group_ref "sg-elsewhere") false

abbrev pub database : EndpointCandidate
database = endpoint "eni-db" "sg-db" (from_web ∷ []) open_nacl

-- Reachable: every layer lets the traffic through.
abbrev pub open_path : PathCandidate
open_path = path_of (endpoint "eni-web" "sg-web" (to_everywhere ∷ []) open_nacl) database

-- The source's group refers to an unknown group, and its network ACL denies everything.
abbrev pub masked_path : PathCandidate
masked_path =
    path_of
      (endpoint "eni-web" "sg-web" (to_elsewhere ∷ []) (nacl_rule egress deny "0.0.0.0/0" ∷ []))
      database

abbrev pub swapped_nacl : List NaclRule
swapped_nacl = nacl_rule egress allow "10.0.0.0/8" ∷ nacl_rule ingress allow "10.0.0.0/8" ∷ []

abbrev pub two_rules : List SgRule
two_rules = to_elsewhere ∷ to_everywhere ∷ []

abbrev pub no_groups : PeerIdentity
no_groups = record { security_group_ids = [] }
