-- ===== src/Ingest/Ports.antt =====
-- crates/core/src/ingest/map/mod.rs: required fields, and the ports of a rule.
pub mod Scope
use aws_net_hound.Base.{
  Option, none, some, String, str_eq, Result, ok, err, ◌>>=◌, ok_or, if◌then◌else◌,
}
use aws_net_hound.Base.Int.{ℤ, is_negative, to_u16}
use aws_net_hound.Domain.Rule.{PortRange, RuleError, new_port_range}

-- The text of a `reason`, by what it says.
pub data Reason : Type 0 where
  absent : Reason
  port_exceeds_u16 : (value : ℤ) → Reason
  rule_number_exceeds_u16 : (value : ℤ) → Reason
  rule_error : (source : RuleError) → Reason
  not_allow_or_deny : Reason

pub data MappingError : Type 0 where
  invalid_field : (resource_id field : String) (reason : Reason) → MappingError

abbrev pub Mapped : Type 0 → Type 0
Mapped A = Result MappingError A

unfoldable pub require_str : String → String → Option String → Mapped String
require_str resource_id field value = ok_or (invalid_field resource_id field absent) value

-- The two ports with the `-1` sentinel taken out, or nothing where both have it.
unfoldable pub normalised : ℤ → ℤ → Option (ℤ × ℤ)
normalised from to =
    if is_negative from
    then (if is_negative to then none else some (to, to))
    else if is_negative to
    then some (from, from)
    else some (from, to)

abbrev pub ports_of : String → String → Option (ℤ × ℤ) → Mapped (Option PortRange)
ports_of resource_id field none = ok none
ports_of resource_id field (some (from, to)) = do
  from_port ← ok_or (invalid_field resource_id field (port_exceeds_u16 from)) (to_u16 from)
  to_port ← ok_or (invalid_field resource_id field (port_exceeds_u16 to)) (to_u16 to)
  elim (new_port_range from_port to_port) [
    | ok range ↦ ok (some range)
    | err source ↦ err (invalid_field resource_id field (rule_error source))
  ]

abbrev pub both : Option ℤ → Option ℤ → Option (ℤ × ℤ)
both (some from) (some to) = some (from, to)
both _ _ = none

abbrev pub normalise : Option (ℤ × ℤ) → Option (ℤ × ℤ)
normalise none = none
normalise (some (from, to)) = normalised from to

unfoldable pub build_port_range :
    String → String → String → Option ℤ → Option ℤ → Mapped (Option PortRange)
unfolding normalised new_port_range
build_port_range resource_id field protocol from_port to_port =
    if str_eq protocol "-1"
    then ok none
    else ports_of resource_id field (normalise (both from_port to_port))
