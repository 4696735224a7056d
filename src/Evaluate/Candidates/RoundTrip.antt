-- ===== src/Evaluate/Candidates/RoundTrip.antt =====
-- crates/core/src/graph/neo4j.rs against crates/core/src/evaluate/candidates.rs: the row of a rule,
-- read back.
use aws_net_hound.Base.{ℕ, ◌<◌, ◌≡◌, refl, Option, none, some, String, arith, ok, Bool, true, false}
use aws_net_hound.Base.Int.{pos, to_u16}
use aws_net_hound.Base.Assoc.{lookup}
use aws_net_hound.Domain.Rule.{
  Direction, ingress, egress, PortRange, new_port_range, RuleTarget, cidr, security_group_ref,
  SgRule, NaclRule, Action, allow, deny,
}
use aws_net_hound.Domain.Valid.{IsPortRange, IsNaclRule}
use aws_net_hound.Graph.Bolt.{boolean, Props}
use aws_net_hound.Graph.Rows.{
  port_range_props, sg_rule_cidr_row, sg_rule_sg_ref_row, nacl_rule_row, nacl_direction,
  nacl_action,
}
use aws_net_hound.Evaluate.Candidates.Rows.{
  port_range_of, u16_of, as_integer, is_true, sg_rule_from_props, nacl_rule_from_props, bolt_string,
  bolt_opt_u16, bolt_i64, direction_of, action_of,
}

ports_back :
    (range : Option PortRange)
    → IsPortRange range
    → port_range_of
        (u16_of (as_integer (some (port_range_props range).0)))
        (u16_of (as_integer (some (port_range_props range).1)))
      ≡ ok range
unfolding port_range_props new_port_range
ports_back none h = refl
ports_back (some range) h = ground arith

-- The row that `split_sg_rule_rows` makes of a rule.
abbrev pub sg_rule_row : String → SgRule → RuleTarget → Props
sg_rule_row group rule (cidr block) = sg_rule_cidr_row group rule block
sg_rule_row group rule (security_group_ref id) = sg_rule_sg_ref_row group rule id

is_true-boolean : (b : Bool) → is_true (some (boolean b)) ≡ b
is_true-boolean true = refl
is_true-boolean false = refl

sg_back :
    (group : String) (rule : SgRule) (target : RuleTarget)
    → IsPortRange rule.port_range
    → sg_rule_from_props (sg_rule_row group rule target) rule.direction
      ≡ ok (record rule { target = target })
unfolding sg_rule_from_props sg_rule_cidr_row sg_rule_sg_ref_row bolt_string bolt_opt_u16 lookup
sg_back group rule (cidr block) h =
    rw (ports_back rule.port_range h, is_true-boolean rule.resolved) refl
sg_back group rule (security_group_ref id) h =
    rw (ports_back rule.port_range h, is_true-boolean rule.resolved) refl

-- Read back with the direction it was written for, the row of a security group rule whose ports are
-- in order and of sixteen bits is that rule.
pub sg_rule_from_props-sg_rule_row :
    (group : String) (rule : SgRule)
    → IsPortRange rule.port_range
    → sg_rule_from_props (sg_rule_row group rule rule.target) rule.direction ≡ ok rule
sg_rule_from_props-sg_rule_row group rule h = sg_back group rule rule.target h

direction_back : (d : Direction) → direction_of (nacl_direction d) ≡ ok d
direction_back ingress = refl
direction_back egress = refl

action_back : (a : Action) → action_of (nacl_action a) ≡ ok a
action_back allow = refl
action_back deny = refl

number_back : (n : ℕ) → n < 65536 → to_u16 (pos n) ≡ some n
number_back n h = ground arith

-- The row of a network ACL rule whose number and ports are of sixteen bits, the ports in order, is
-- read back as that rule.
pub nacl_rule_from_props-nacl_rule_row :
    (network_acl_id : String) (rule : NaclRule)
    → IsNaclRule rule
    → nacl_rule_from_props (nacl_rule_row network_acl_id rule) ≡ ok rule
unfolding nacl_rule_from_props nacl_rule_row bolt_string bolt_i64 bolt_opt_u16 lookup
nacl_rule_from_props-nacl_rule_row network_acl_id rule (small, h) =
    rw
      (
        number_back rule.rule_number small,
        direction_back rule.direction,
        action_back rule.action,
        ports_back rule.port_range h,
      )
      refl
