-- ===== src/Examples/Evaluation.antt =====
-- The evaluation theorems at concrete inputs.
use mathlib.Core.List.{Mem, mem-cons, not-mem-nil}
use mathlib.Core.List.Perm
use mathlib.Core.Logic.Or
use text.Mathlib.TextEquality.{IsScalar-prop}
use native.Mathlib.Decide.{ℕ_discrete}
use aws_net_hound.Base.{
  ◌≡◌, refl, sym, subst, ◌↔◌, ◌⊎◌, true, false, none, some, [], ◌∷◌, All, any, if◌then◌else◌,
  is_empty, ℕ, length, arith,
}
use aws_net_hound.Base.First.{IsFirstAt}
use aws_net_hound.Base.Sort.{sort_by_key}
use aws_net_hound.Net.{v4, split_once, parse_ip_addr, parse_u32}
use aws_net_hound.Domain.Rule.{ingress, egress, NaclRule, SgRule, allow}
use aws_net_hound.Domain.Finding.{reachable, not_reachable, indeterminate}
use aws_net_hound.Evaluate.Types.{
  Verdict, unresolved_reference, no_matching_rule, security_group, denied,
}
use aws_net_hound.Evaluate.Match.{
  rule_protocol_matches, cidr_contains, parse_cidr, network_contains, masked_eq,
}
use aws_net_hound.Evaluate.Match.Cidr.{cidr_contains_iff, Contains}
use aws_net_hound.Evaluate.Nacl
use aws_net_hound.Evaluate.Nacl.FirstMatch.{NoneApplies, Decides, evaluate-first_match}
use aws_net_hound.Evaluate.Nacl.Reorder.{DistinctNumbers, evaluate-perm}
use aws_net_hound.Evaluate.Sg
use aws_net_hound.Evaluate.Sg.Union.{permits, undecided, referenced, evaluate-cases}
use aws_net_hound.Evaluate.Path.{EvaluationStep, sg_egress}
use aws_net_hound.Evaluate.Engine.{evaluate_candidate, combine_verdicts, finish, finish_with}
use aws_net_hound.Evaluate.Engine.Evidence.{
  all_layers, up_to_first_refusal, outcome_of_first_refusal, reachability_first_refusal,
  evidence-up_to_first_refusal,
}
use aws_net_hound.Evaluate.Engine.Combine.{is_denied, undecided_layers, combine_verdicts_lem}
use aws_net_hound.Evaluate.Engine.Masking.{indeterminate_masks_deny, indeterminate_one_layer}
use aws_net_hound.Evaluate.Engine.Reachable.{reachable_iff, IsReachable}
use aws_net_hound.Examples.Samples.{
  nacl_rule, traffic, open_path, masked_path, open_nacl, to_elsewhere, swapped_nacl, two_rules,
  no_groups,
}

open_path-reachable : (evaluate_candidate none open_path).reachability ≡ reachable
unfolding evaluate_candidate combine_verdicts finish finish_with Sg.evaluate_sg_egress
    Sg.evaluate_sg_ingress Sg.evaluate Sg.combine Sg.classify_rule Nacl.evaluate_nacl_egress
    Nacl.evaluate_nacl_ingress Nacl.evaluate Nacl.rule_matches sort_by_key rule_protocol_matches
    cidr_contains parse_cidr network_contains masked_eq split_once parse_ip_addr parse_u32
open_path-reachable = refl

reachable_iff_example :
    ((evaluate_candidate none open_path).reachability ≡ reachable) ↔ IsReachable open_path
reachable_iff_example = reachable_iff none open_path

reachability_first_refusal_example :
    (evaluate_candidate none open_path).reachability
    ≡ outcome_of_first_refusal (all_layers open_path)
reachability_first_refusal_example = reachability_first_refusal none open_path

evidence-up_to_first_refusal_example :
    (evaluate_candidate none open_path).path_evidence.steps
    ≡ up_to_first_refusal (all_layers open_path)
evidence-up_to_first_refusal_example = evidence-up_to_first_refusal none open_path

evaluate-first_match_example :
    (NoneApplies ingress traffic open_nacl
      × (Nacl.evaluate "acl" open_nacl ingress traffic ≡ denied no_matching_rule))
    ⊎ ((rule : NaclRule) × Decides ingress traffic open_nacl rule
        × (Nacl.evaluate "acl" open_nacl ingress traffic ≡ Nacl.verdict_of "acl" rule))
evaluate-first_match_example = evaluate-first_match "acl" ingress traffic open_nacl

-- 10.0.1.5 lies in 10.0.0.0/8.
parsed : parse_cidr "10.0.0.0/8" ≡ some (v4 167772160, 8)
unfolding parse_cidr split_once parse_ip_addr parse_u32
parsed = refl

cidr_contains_iff_example :
    (cidr_contains "10.0.0.0/8" (v4 167772421) ≡ some true)
    ↔ Contains (v4 167772160) 8 (v4 167772421)
cidr_contains_iff_example =
    cidr_contains_iff "10.0.0.0/8" (v4 167772160) 8 (v4 167772421) parsed (omega arith)
      (omega arith)

evaluate-cases_example :
    ((i : ℕ) × (rule : SgRule) × IsFirstAt (permits egress traffic no_groups) two_rules i rule
      × (Sg.evaluate "sg" two_rules egress traffic no_groups
          ≡ Verdict.allowed (security_group "sg" i)))
    ⊎ (All (λ rule. permits egress traffic no_groups rule ≡ false) two_rules
        × (i : ℕ) × (rule : SgRule) × IsFirstAt (undecided egress traffic) two_rules i rule
        × (Sg.evaluate "sg" two_rules egress traffic no_groups
            ≡ Verdict.indeterminate (unresolved_reference (referenced rule.target))))
    ⊎ (All (λ rule. permits egress traffic no_groups rule ≡ false) two_rules
        × All (λ rule. undecided egress traffic rule ≡ false) two_rules
        × (Sg.evaluate "sg" two_rules egress traffic no_groups ≡ Verdict.denied no_matching_rule))
evaluate-cases_example = evaluate-cases "sg" egress traffic no_groups two_rules

NaclRule-IsSet : IsSet NaclRule
NaclRule-IsSet = hlevel (IsScalar-prop, ℕ_discrete)

-- A rule of the two is the one of its direction.
open_nacl-cases :
    (P : NaclRule → Type 0)
    → ((r : NaclRule) → IsProp (P r))
    → P (nacl_rule ingress allow "10.0.0.0/8")
    → P (nacl_rule egress allow "10.0.0.0/8")
    → (r : NaclRule) → Mem r open_nacl
    → P r
open_nacl-cases P prop h k r m =
    Or.elim (prop r) (mem-cons.0 m) (λ e. subst P (sym e) h)
      (λ m. Or.elim (prop r) (mem-cons.0 m) (λ e. subst P (sym e) k) (λ m. absurd (not-mem-nil m)))

open_nacl-DistinctNumbers : DistinctNumbers open_nacl
open_nacl-DistinctNumbers r s hr hs same_direction same_number =
    open_nacl-cases (λ r. r.direction ≡ s.direction → r ≡ s) (λ r. hlevel (NaclRule-IsSet))
      (open_nacl-cases (λ s. ingress ≡ s.direction → nacl_rule ingress allow "10.0.0.0/8" ≡ s)
        (λ s. hlevel (NaclRule-IsSet)) (λ e. refl) (λ e. cc) s hs)
      (open_nacl-cases (λ s. egress ≡ s.direction → nacl_rule egress allow "10.0.0.0/8" ≡ s)
        (λ s. hlevel (NaclRule-IsSet)) (λ e. cc) (λ e. refl) s hs)
      r hr same_direction

evaluate-perm_example :
    Nacl.evaluate "acl" open_nacl ingress traffic ≡ Nacl.evaluate "acl" swapped_nacl ingress traffic
evaluate-perm_example =
    evaluate-perm ingress traffic "acl" open_nacl swapped_nacl (Perm.swap _ _ [])
      open_nacl-DistinctNumbers

combine_verdicts_lem_example : combine_verdicts (all_layers masked_path) ≡ (
    if any (λ (step : EvaluationStep). is_denied step.verdict) (all_layers masked_path)
    then not_reachable
    else if is_empty (undecided_layers (all_layers masked_path))
    then reachable
    else indeterminate (undecided_layers (all_layers masked_path)))
combine_verdicts_lem_example = combine_verdicts_lem (all_layers masked_path)

masked_path-unknown :
    Sg.evaluate_sg_egress "eni-web"
      (to_elsewhere ∷ [])
      traffic
      (record { security_group_ids = "sg-db" ∷ [] })
    ≡ Verdict.indeterminate (unresolved_reference "sg-elsewhere")
unfolding Sg.evaluate_sg_egress Sg.evaluate Sg.combine Sg.classify_rule rule_protocol_matches
masked_path-unknown = refl

masked_path-denied :
    any (λ (step : EvaluationStep). is_denied step.verdict) (all_layers masked_path) ≡ true
unfolding Sg.evaluate_sg_egress Sg.evaluate Sg.combine Sg.classify_rule Nacl.evaluate_nacl_egress
    Nacl.evaluate Nacl.rule_matches sort_by_key rule_protocol_matches cidr_contains parse_cidr
    network_contains masked_eq split_once parse_ip_addr parse_u32
masked_path-denied = refl

indeterminate_masks_deny_example :
    ((evaluate_candidate none masked_path).reachability ≡ indeterminate (sg_egress ∷ []))
    × (combine_verdicts (all_layers masked_path) ≡ not_reachable)
indeterminate_masks_deny_example =
    indeterminate_masks_deny none masked_path refl masked_path-unknown masked_path-denied

indeterminate_one_layer_example : length (sg_egress ∷ []) ≡ 1
indeterminate_one_layer_example =
    indeterminate_one_layer none masked_path (sg_egress ∷ [])
      (indeterminate_masks_deny none masked_path refl masked_path-unknown masked_path-denied).0
