-- ===== src/Evaluate/Nacl.antt =====
-- crates/core/src/evaluate/nacl.rs: the rules of one network ACL against one traffic flow.
pub mod FirstMatch
pub mod Reorder
use aws_net_hound.Base.{
  Bool, ◌&&◌, not, Option, none, some, List, String, str_eq, filter, find?, if◌then◌else◌, false,
}
use aws_net_hound.Base.Sort.{sort_by_key}
use aws_net_hound.Domain.Rule.{
  Direction, ingress, egress, same_direction, NaclRule, Action, allow, deny,
}
use aws_net_hound.Evaluate.Types.{
  Traffic, RuleRef, network_acl, Verdict, allowed, denied, explicit_deny, no_matching_rule,
}
use aws_net_hound.Evaluate.Match.{rule_protocol_matches, port_matches, cidr_contains, is_some_true}

unfoldable pub rule_matches : NaclRule → Traffic → Bool
rule_matches rule traffic =
    if not (rule_protocol_matches rule.protocol traffic.protocol)
    then false
    else if not (str_eq rule.protocol "-1") && not (port_matches rule.port_range traffic.port)
    then false
    else is_some_true (cidr_contains rule.cidr_block traffic.peer_address)

-- What a matching rule decides.
abbrev pub verdict_of : String → NaclRule → Verdict
verdict_of network_acl_id rule =
    let matched_by : RuleRef = network_acl network_acl_id rule.rule_number in
    elim rule.action [ allow ↦ allowed matched_by | deny ↦ denied (explicit_deny matched_by) ]

-- The outcome of the search; without a match it is the implicit `*` entry.
abbrev pub verdict_of_match : String → Option NaclRule → Verdict
verdict_of_match network_acl_id (some rule) = verdict_of network_acl_id rule
verdict_of_match network_acl_id none = denied no_matching_rule

unfoldable pub evaluate : String → List NaclRule → Direction → Traffic → Verdict
evaluate network_acl_id rules direction traffic =
    let candidates = filter (λ rule. same_direction rule.direction direction) rules in
    verdict_of_match network_acl_id (
      find? (λ rule. rule_matches rule traffic) (sort_by_key (λ rule. rule.rule_number) candidates))

unfoldable pub evaluate_nacl_egress : String → List NaclRule → Traffic → Verdict
evaluate_nacl_egress network_acl_id rules traffic = evaluate network_acl_id rules egress traffic

unfoldable pub evaluate_nacl_ingress : String → List NaclRule → Traffic → Verdict
evaluate_nacl_ingress network_acl_id rules traffic = evaluate network_acl_id rules ingress traffic
