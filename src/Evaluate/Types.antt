-- ===== src/Evaluate/Types.antt =====
-- crates/core/src/evaluate/mod.rs: what the security group and network ACL evaluators take and
-- give.
use aws_net_hound.Base.{ℕ, Bool, true, false, Option, String, Result, ok, err, ◌==◌, if◌then◌else◌}
use aws_net_hound.Base.Int.{ℤ, pos, negsuc}
use aws_net_hound.Net.{IpAddr}

pub data Protocol : Type 0 where
  tcp : Protocol
  udp : Protocol
  icmp : (icmp_type code : ℕ) → Protocol
  all : Protocol

pub data EvaluationError : Type 0 where
  empty_path : EvaluationError
  invalid_hop : (index : ℕ) (reason : String) → EvaluationError
  unsupported_protocol : (value : ℤ) → EvaluationError

-- `TryFrom<i32> for Protocol`.
unfoldable pub protocol_try_from : ℤ → Result EvaluationError Protocol
protocol_try_from (negsuc n) = if n == 0 then ok all else err (unsupported_protocol (negsuc n))
protocol_try_from (pos n) =
    if n == 6 then ok tcp else if n == 17 then ok udp else err (unsupported_protocol (pos n))

pub record Traffic : Type 0 where
  pub protocol : Protocol
  pub port : Option ℕ
  pub peer_address : IpAddr

pub data RuleRef : Type 0 where
  security_group : (security_group_id : String) (rule_index : ℕ) → RuleRef
  network_acl : (network_acl_id : String) (rule_number : ℕ) → RuleRef

pub data DenyReason : Type 0 where
  no_matching_rule : DenyReason
  explicit_deny : (matched_by : RuleRef) → DenyReason

pub data IndeterminateReason : Type 0 where
  unresolved_reference : (security_group_id : String) → IndeterminateReason

pub data Verdict : Type 0 where
  allowed : (matched_by : RuleRef) → Verdict
  denied : (reason : DenyReason) → Verdict
  indeterminate : (reason : IndeterminateReason) → Verdict

-- `matches!(verdict, Verdict::Allowed { .. })`.
abbrev pub is_allowed : Verdict → Bool
is_allowed (allowed _) = true
is_allowed _ = false
