-- ===== src/Domain/Valid.antt =====
-- crates/core/src/domain/rule.rs: well-formedness predicates of its types.
use aws_net_hound.Base.{◌≤◌, ◌<◌, Option, none, some}
use aws_net_hound.Domain.Rule.{PortRange, NaclRule}

-- Ports as `PortRange` holds them: in order, and of sixteen bits.
abbrev pub IsPortRange : Option PortRange → Type 0
IsPortRange none = Unit
IsPortRange (some range) = (range.from_port ≤ range.to_port) × (range.to_port < 65536)

-- A network ACL rule, whose number is of sixteen bits too.
abbrev pub IsNaclRule : NaclRule → Type 0
IsNaclRule rule = (rule.rule_number < 65536) × IsPortRange rule.port_range
