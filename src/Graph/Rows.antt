-- ===== src/Graph/Rows.antt =====
-- crates/core/src/graph/neo4j.rs: the rows that the rule edges are written from.
use aws_net_hound.Base.{Option, none, some, List, [], ◌∷◌, String}
use aws_net_hound.Base.Int.{pos}
use aws_net_hound.Domain.Rule.{
  Direction, ingress, egress, PortRange, SgRule, NaclRule, Action, allow, deny,
}
use aws_net_hound.Graph.Bolt.{BoltType, string, integer, boolean, null, Props}

unfoldable pub port_range_props : Option PortRange → BoltType × BoltType
port_range_props (some range) = (integer (pos range.from_port), integer (pos range.to_port))
port_range_props none = (null, null)

unfoldable pub sg_rule_cidr_row : String → SgRule → String → Props
unfolding port_range_props
sg_rule_cidr_row security_group_id rule block =
    let (from_port, to_port) = port_range_props rule.port_range in
    ("security_group_id", string security_group_id)
    ∷ ("protocol", string rule.protocol)
    ∷ ("from_port", from_port)
    ∷ ("to_port", to_port)
    ∷ ("target_kind", string "cidr")
    ∷ ("cidr", string block)
    ∷ ("resolved", boolean rule.resolved)
    ∷ []

unfoldable pub sg_rule_sg_ref_row : String → SgRule → String → Props
unfolding port_range_props
sg_rule_sg_ref_row security_group_id rule target_security_group_id =
    let (from_port, to_port) = port_range_props rule.port_range in
    ("security_group_id", string security_group_id)
    ∷ ("protocol", string rule.protocol)
    ∷ ("from_port", from_port)
    ∷ ("to_port", to_port)
    ∷ ("target_kind", string "security_group_ref")
    ∷ ("target_security_group_id", string target_security_group_id)
    ∷ ("resolved", boolean rule.resolved)
    ∷ []

-- The three kinds of rows: CIDR targets, resolved references and unresolved references.
pub record SplitRows : Type 0 where
  pub cidr_rows : List Props
  pub sg_ref_resolved_rows : List Props
  pub sg_ref_unresolved_rows : List Props

abbrev pub nacl_direction : Direction → String
nacl_direction ingress = "ingress"
nacl_direction egress = "egress"

abbrev pub nacl_action : Action → String
nacl_action allow = "allow"
nacl_action deny = "deny"

unfoldable pub nacl_rule_row : String → NaclRule → Props
unfolding port_range_props
nacl_rule_row network_acl_id rule =
    let (from_port, to_port) = port_range_props rule.port_range in
    ("network_acl_id", string network_acl_id)
    ∷ ("rule_number", integer (pos rule.rule_number))
    ∷ ("direction", string (nacl_direction rule.direction))
    ∷ ("protocol", string rule.protocol)
    ∷ ("from_port", from_port)
    ∷ ("to_port", to_port)
    ∷ ("cidr", string rule.cidr_block)
    ∷ ("action", string (nacl_action rule.action))
    ∷ []
