-- ===== src/Ingest/Sg.antt =====
-- crates/core/src/ingest/map/sg.rs: the rules of a security group.
pub mod Rules
use aws_net_hound.Base.{
  Bool, true, Option, none, some, List, [], ◌∷◌, ◌++◌, String, str_eq, ok, ◌>>=◌, traverse,
}
use aws_net_hound.Domain.Rule.{
  Direction, ingress, egress, PortRange, RuleTarget, cidr, security_group_ref, SgRule,
}
use aws_net_hound.Ingest.Sdk.{UserIdGroupPair, IpPermission, SecurityGroup}
use aws_net_hound.Ingest.Ports.{Mapped, require_str, build_port_range}

-- `unwrap_or_else(|| "-1")`.
abbrev pub protocol_or_all : Option String → String
protocol_or_all none = "-1"
protocol_or_all (some protocol) = protocol

-- An absent owner is the current account.
abbrev pub is_resolved : Option String → String → Bool
is_resolved none current_account_id = true
is_resolved (some owner_id) current_account_id = str_eq owner_id current_account_id

abbrev pub rule_of : Direction → String → Option PortRange → RuleTarget → Bool → SgRule
rule_of direction protocol port_range target resolved = record {
  direction = direction;
  protocol = protocol;
  port_range = port_range;
  target = target;
  resolved = resolved;
}

unfoldable pub cidr_rules :
    String
    → String
    → Direction
    → String
    → Option PortRange
    → List (Option String)
    → Mapped (List SgRule)
unfolding require_str
cidr_rules group_id field direction protocol port_range ranges =
    traverse
      (λ range. require_str group_id field range >>= λ block.
        ok (rule_of direction protocol port_range (cidr block) true))
      ranges

unfoldable pub pair_rules :
    String
    → Direction
    → String
    → Option PortRange
    → String
    → List UserIdGroupPair
    → Mapped (List SgRule)
unfolding require_str
pair_rules group_id direction protocol port_range current_account_id pairs =
    traverse
      (λ (pair : UserIdGroupPair).
        require_str group_id "user_id_group_pairs[].group_id" pair.group_id >>= λ id. ok (
          rule_of direction protocol port_range (security_group_ref id)
            (is_resolved pair.user_id current_account_id)))
      pairs

unfoldable pub map_permission : String → IpPermission → Direction → String → Mapped (List SgRule)
unfolding cidr_rules pair_rules build_port_range
map_permission group_id permission direction current_account_id = do
  let protocol = protocol_or_all permission.ip_protocol
  port_range ←
      build_port_range group_id "port_range" protocol permission.from_port permission.to_port
  v4 ← cidr_rules group_id "ip_ranges[].cidr_ip" direction protocol port_range permission.ip_ranges
  v6 ←
      cidr_rules group_id "ipv6_ranges[].cidr_ipv6" direction protocol port_range
        permission.ipv6_ranges
  refs ←
      pair_rules group_id direction protocol port_range current_account_id
        permission.user_id_group_pairs
  ok (v4 ++ v6 ++ refs)

-- One of the two loops over permissions: the first error ends it.
unfoldable pub map_permissions :
    String → Direction → String → List IpPermission → Mapped (List SgRule)
unfolding map_permission
map_permissions group_id direction current_account_id [] = ok []
map_permissions group_id direction current_account_id (permission ∷ permissions) = do
  rules ← map_permission group_id permission direction current_account_id
  rest ← map_permissions group_id direction current_account_id permissions
  ok (rules ++ rest)

unfoldable pub map_security_group_rules : SecurityGroup → String → Mapped (List SgRule)
unfolding require_str map_permissions
map_security_group_rules sg current_account_id = do
  group_id ← require_str "<unknown security group>" "group_id" sg.group_id
  ingress_rules ← map_permissions group_id ingress current_account_id sg.ip_permissions
  egress_rules ← map_permissions group_id egress current_account_id sg.ip_permissions_egress
  ok (ingress_rules ++ egress_rules)
