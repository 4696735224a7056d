-- ===== src/Ingest/Nacl.antt =====
-- crates/core/src/ingest/map/nacl.rs: the rules of a network ACL.
pub mod Rules
use aws_net_hound.Base.{
  Bool, true, false, Option, none, some, List, String, ok, err, ◌>>=◌, ok_or, traverse,
}
use aws_net_hound.Base.Int.{ℤ, to_u16}
use aws_net_hound.Base.Sort.{sort_by_key}
use aws_net_hound.Domain.Rule.{Direction, ingress, egress, NaclRule, Action}
use aws_net_hound.Ingest.Sdk.{NetworkAcl, NetworkAclEntry, SdkPortRange, RuleAction}
use aws_net_hound.Ingest.Ports.{
  Mapped, invalid_field, absent, rule_number_exceeds_u16, not_allow_or_deny, require_str,
  build_port_range,
}
use aws_net_hound.Ingest.Sg.{protocol_or_all}

-- `port_range.as_ref().and_then(|range| range.from)`, and the same for `to`.
abbrev from_of : Option SdkPortRange → Option ℤ
from_of none = none
from_of (some range) = range.from

abbrev to_of : Option SdkPortRange → Option ℤ
to_of none = none
to_of (some range) = range.to

abbrev or_else : Option String → Option String → Option String
or_else (some block) _ = some block
or_else none other = other

abbrev direction_of : String → Option Bool → Mapped Direction
direction_of network_acl_id (some true) = ok egress
direction_of network_acl_id (some false) = ok ingress
direction_of network_acl_id none = err (invalid_field network_acl_id "egress" absent)

abbrev action_of : String → Option RuleAction → Mapped Action
action_of network_acl_id (some RuleAction.allow) = ok Action.allow
action_of network_acl_id (some RuleAction.deny) = ok Action.deny
action_of network_acl_id _ = err (invalid_field network_acl_id "rule_action" not_allow_or_deny)

-- The body of the loop over the entries.
unfoldable pub map_entry : String → NetworkAclEntry → Mapped NaclRule
unfolding build_port_range
map_entry network_acl_id entry = do
  number ← ok_or (invalid_field network_acl_id "rule_number" absent) entry.rule_number
  rule_number ←
      ok_or (invalid_field network_acl_id "rule_number" (rule_number_exceeds_u16 number))
        (to_u16 number)
  let protocol = protocol_or_all entry.protocol
  port_range ←
      build_port_range network_acl_id "port_range" protocol (from_of entry.port_range)
        (to_of entry.port_range)
  block ←
      ok_or (invalid_field network_acl_id "cidr_block" absent)
        (or_else entry.cidr_block entry.ipv6_cidr_block)
  direction ← direction_of network_acl_id entry.egress
  action ← action_of network_acl_id entry.rule_action
  ok (record {
    rule_number = rule_number;
    direction = direction;
    protocol = protocol;
    port_range = port_range;
    cidr_block = block;
    action = action;
  })

unfoldable pub map_network_acl_rules : NetworkAcl → Mapped (List NaclRule)
unfolding require_str map_entry
map_network_acl_rules acl = do
  network_acl_id ← require_str "<unknown network acl>" "network_acl_id" acl.network_acl_id
  rules ← traverse (map_entry network_acl_id) acl.entries
  ok (sort_by_key (λ (rule : NaclRule). rule.rule_number) rules)
