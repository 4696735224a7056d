-- ===== src/Evaluate/Candidates/Rows.antt =====
-- crates/core/src/evaluate/candidates.rs: the rule edges and interfaces, read from the rows of a
-- query. A field of a row is what the driver's `Row::get` gives, nothing where that is an error.
use aws_net_hound.Base.{
  ℕ, Bool, true, false, not, Option, none, some, List, String, str_eq, filter, if◌then◌else◌,
  Result, ok, err, ok_or, map_ok, ◌>>=◌, traverse, is_empty,
}
use aws_net_hound.Base.Int.{ℤ, to_u16}
use aws_net_hound.Base.Assoc.{lookup}
use aws_net_hound.Base.Sort.{sort_by_key}
use aws_net_hound.Domain.Rule.{
  Direction, ingress, egress, PortRange, new_port_range, RuleTarget, cidr, security_group_ref,
  SgRule, NaclRule, Action, allow, deny,
}
use aws_net_hound.Graph.Bolt.{BoltType, string, integer, boolean, Props}
use aws_net_hound.Evaluate.Candidates.{EniNode}

pub data CandidateAssemblyError : Type 0 where
  query : CandidateAssemblyError
  deserialize : CandidateAssemblyError
  malformed_row : (field : String) → CandidateAssemblyError

abbrev pub Read : Type 0 → Type 0
Read A = Result CandidateAssemblyError A

abbrev pub as_string : Option BoltType → Option String
as_string (some (string value)) = some value
as_string _ = none

abbrev pub as_integer : Option BoltType → Option ℤ
as_integer (some (integer value)) = some value
as_integer _ = none

abbrev pub is_true : Option BoltType → Bool
is_true (some (boolean true)) = true
is_true _ = false

unfoldable pub bolt_string : Props → String → Read String
unfolding lookup
bolt_string props field = ok_or (malformed_row field) (as_string (lookup field props))

unfoldable pub bolt_i64 : Props → String → Read ℤ
unfolding lookup
bolt_i64 props field = ok_or (malformed_row field) (as_integer (lookup field props))

abbrev pub u16_of : Option ℤ → Option ℕ
u16_of none = none
u16_of (some value) = to_u16 value

unfoldable pub bolt_opt_u16 : Props → String → Option ℕ
unfolding lookup
bolt_opt_u16 props field = u16_of (as_integer (lookup field props))

-- Both ports, in order, or no range.
abbrev pub port_range_of : Option ℕ → Option ℕ → Read (Option PortRange)
port_range_of (some from) (some to) = elim (new_port_range from to) [
  | ok range ↦ ok (some range)
  | err _ ↦ err (malformed_row "port_range")
]
port_range_of _ _ = ok none

abbrev pub target_of : Props → String → Read RuleTarget
target_of props kind =
    if str_eq kind "cidr"
    then map_ok cidr (bolt_string props "cidr")
    else if str_eq kind "security_group_ref"
    then map_ok security_group_ref (bolt_string props "target_security_group_id")
    else err (malformed_row "target_kind")

unfoldable pub sg_rule_from_props : Props → Direction → Read SgRule
unfolding bolt_string bolt_opt_u16 new_port_range
sg_rule_from_props props direction = do
  protocol ← bolt_string props "protocol"
  port_range ← port_range_of (bolt_opt_u16 props "from_port") (bolt_opt_u16 props "to_port")
  target_kind ← bolt_string props "target_kind"
  target ← target_of props target_kind
  ok (record {
    direction = direction;
    protocol = protocol;
    port_range = port_range;
    target = target;
    resolved = is_true (lookup "resolved" props);
  })

abbrev pub direction_of : String → Read Direction
direction_of text =
    if str_eq text "ingress"
    then ok ingress
    else if str_eq text "egress"
    then ok egress
    else err (malformed_row "direction")

abbrev pub action_of : String → Read Action
action_of text =
    if str_eq text "allow"
    then ok allow
    else if str_eq text "deny"
    then ok deny
    else err (malformed_row "action")

unfoldable pub nacl_rule_from_props : Props → Read NaclRule
unfolding bolt_string bolt_i64 bolt_opt_u16 new_port_range
nacl_rule_from_props props = do
  number ← bolt_i64 props "rule_number"
  rule_number ← ok_or (malformed_row "rule_number") (to_u16 number)
  direction_text ← bolt_string props "direction"
  direction ← direction_of direction_text
  protocol ← bolt_string props "protocol"
  port_range ← port_range_of (bolt_opt_u16 props "from_port") (bolt_opt_u16 props "to_port")
  block ← bolt_string props "cidr"
  action_text ← bolt_string props "action"
  action ← action_of action_text
  ok (record {
    rule_number = rule_number;
    direction = direction;
    protocol = protocol;
    port_range = port_range;
    cidr_block = block;
    action = action;
  })

unfoldable pub sg_rules_from_row : Option (List Props) → Direction → Read (List SgRule)
sg_rules_from_row field direction = do
  raw ← ok_or deserialize field
  traverse (λ props. sg_rule_from_props props direction)
      (filter (λ props. not (is_empty props)) raw)

unfoldable pub nacl_rules_from_row : Option (List Props) → Read (List NaclRule)
nacl_rules_from_row field = do
  raw ← ok_or deserialize field
  traverse nacl_rule_from_props (filter (λ props. not (is_empty props)) raw)

-- A row of the interface query.
pub record EniRow : Type 0 where
  pub eni_id : Option String
  pub vpc_id : Option String
  pub subnet_id : Option String
  pub private_ip : Option String
  pub route_table_id : Option String
  pub security_group_ids : Option (List String)
  pub egress_rules : Option (List Props)
  pub ingress_rules : Option (List Props)
  pub nacl_rules : Option (List Props)

unfoldable pub eni_from_row : EniRow → Read EniNode
eni_from_row row = do
  security_group_ids ← ok_or deserialize row.security_group_ids
  egress_rules ← sg_rules_from_row row.egress_rules egress
  ingress_rules ← sg_rules_from_row row.ingress_rules ingress
  nacl_rules ← nacl_rules_from_row row.nacl_rules
  id ← ok_or deserialize row.eni_id
  vpc_id ← ok_or deserialize row.vpc_id
  subnet_id ← ok_or deserialize row.subnet_id
  private_ip ← ok_or deserialize row.private_ip
  ok (record {
    id = id;
    vpc_id = vpc_id;
    subnet_id = subnet_id;
    private_ip = private_ip;
    security_group_ids = security_group_ids;
    egress_rules = egress_rules;
    ingress_rules = ingress_rules;
    nacl_rules = sort_by_key (λ (rule : NaclRule). rule.rule_number) nacl_rules;
    route_table_id = row.route_table_id;
  })
