-- ===== src/Evaluate/Sg.antt =====
-- crates/core/src/evaluate/sg.rs: the rules of one security group against one traffic flow.
pub mod Union
pub mod Strength
use mathlib.Core.List.{foldl}
use aws_net_hound.Base.{
  ℕ, Bool, true, false, ◌&&◌, not, Option, none, some, List, map, String, str_eq, filter, any,
  enumerate_from, if◌then◌else◌,
}
use aws_net_hound.Domain.Rule.{
  Direction, ingress, egress, same_direction, SgRule, RuleTarget, cidr, security_group_ref,
}
use aws_net_hound.Evaluate.Types.{
  Traffic, RuleRef, security_group, Verdict, no_matching_rule, unresolved_reference,
}
use aws_net_hound.Evaluate.Match.{rule_protocol_matches, port_matches, cidr_contains}

pub record PeerIdentity : Type 0 where
  pub security_group_ids : List String

pub data Outcome : Type 0 where
  allowed : (matched_by : RuleRef) → Outcome
  indeterminate : (security_group_id : String) → Outcome
  denied : Outcome

unfoldable pub combine : Outcome → Outcome → Outcome
combine (allowed matched_by) _ = allowed matched_by
combine (indeterminate group) (allowed matched_by) = allowed matched_by
combine denied (allowed matched_by) = allowed matched_by
combine (indeterminate group) _ = indeterminate group
combine denied (indeterminate group) = indeterminate group
combine denied denied = denied

-- The `match` on the target, for a rule whose protocol and ports fit.
classify_target : RuleTarget → Bool → RuleRef → Traffic → PeerIdentity → Outcome
classify_target (cidr block) resolved this traffic peer =
    elim (cidr_contains block traffic.peer_address) [ some true ↦ allowed this | _ ↦ denied ]
classify_target (security_group_ref ref_id) resolved this traffic peer =
    if not resolved
    then indeterminate ref_id
    else if any (λ id. str_eq id ref_id) peer.security_group_ids
    then allowed this
    else denied

unfoldable pub classify_rule : SgRule → ℕ → String → Traffic → PeerIdentity → Outcome
unfolding classify_target
classify_rule rule rule_index security_group_id traffic peer =
    if not (rule_protocol_matches rule.protocol traffic.protocol)
    then denied
    else if not (str_eq rule.protocol "-1") && not (port_matches rule.port_range traffic.port)
    then denied
    else classify_target rule.target rule.resolved (security_group security_group_id rule_index)
        traffic peer

abbrev pub verdict_of_outcome : Outcome → Verdict
verdict_of_outcome (allowed matched_by) = Verdict.allowed matched_by
verdict_of_outcome (indeterminate group) = Verdict.indeterminate (unresolved_reference group)
verdict_of_outcome denied = Verdict.denied no_matching_rule

unfoldable pub evaluate : String → List SgRule → Direction → Traffic → PeerIdentity → Verdict
evaluate security_group_id rules direction traffic peer =
    let ours =
      filter (λ (_, rule). same_direction rule.direction direction) (enumerate_from 0 rules) in
    let outcomes =
      map (λ (index, rule). classify_rule rule index security_group_id traffic peer) ours in
    verdict_of_outcome (foldl combine denied outcomes)

unfoldable pub evaluate_sg_egress : String → List SgRule → Traffic → PeerIdentity → Verdict
evaluate_sg_egress security_group_id rules traffic peer =
    evaluate security_group_id rules egress traffic peer

unfoldable pub evaluate_sg_ingress : String → List SgRule → Traffic → PeerIdentity → Verdict
evaluate_sg_ingress security_group_id rules traffic peer =
    evaluate security_group_id rules ingress traffic peer
