-- ===== src/Domain/Rule.antt =====
-- crates/core/src/domain/rule.rs. A `u16` is a number below 2 ^ 16; a port range is built by
-- `new_port_range` alone, since its fields are private there and deserialization goes through it.
use aws_net_hound.Base.{ℕ, Bool, true, false, Option, String, ltb, if◌then◌else◌, Result, ok, err}

pub data RuleError : Type 0 where
  inverted_port_range : (from_port to_port : ℕ) → RuleError

pub data Direction : Type 0 where
  ingress egress : Direction

-- `==` on directions.
abbrev pub same_direction : Direction → Direction → Bool
same_direction ingress ingress = true
same_direction egress egress = true
same_direction _ _ = false

pub record PortRange : Type 0 where
  pub from_port : ℕ
  pub to_port : ℕ

unfoldable pub new_port_range : ℕ → ℕ → Result RuleError PortRange
new_port_range from_port to_port =
    if ltb to_port from_port
    then err (inverted_port_range from_port to_port)
    else ok (record { from_port = from_port; to_port = to_port })

-- `TryFrom<PortRangeData>`, the one way in for deserialized data.
pub record PortRangeData : Type 0 where
  pub from_port : ℕ
  pub to_port : ℕ

unfoldable pub port_range_try_from : PortRangeData → Result RuleError PortRange
unfolding new_port_range
port_range_try_from d = new_port_range d.from_port d.to_port

pub data RuleTarget : Type 0 where
  cidr : (block : String) → RuleTarget
  security_group_ref : (security_group_id : String) → RuleTarget

pub record SgRule : Type 0 where
  pub direction : Direction
  pub protocol : String
  pub port_range : Option PortRange
  pub target : RuleTarget
  pub resolved : Bool

pub data Action : Type 0 where
  allow deny : Action

pub record NaclRule : Type 0 where
  pub rule_number : ℕ
  pub direction : Direction
  pub protocol : String
  pub port_range : Option PortRange
  pub cidr_block : String
  pub action : Action
