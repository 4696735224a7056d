-- ===== src/Evaluate/Engine/Masking.antt =====
-- crates/core/src/evaluate/engine.rs: proofs about the layers that are not judged.
use aws_net_hound.Base.{◌≡◌, ◌∙◌, true, Option, String, List, [], ◌∷◌, any, length, arith}
use aws_net_hound.Domain.Finding.{not_reachable, indeterminate}
use aws_net_hound.Evaluate.Types.{Verdict, IndeterminateReason}
use aws_net_hound.Evaluate.Sg.{evaluate_sg_egress}
use aws_net_hound.Evaluate.Path.{PathCandidate, EvaluationLayer, EvaluationStep, sg_egress}
use aws_net_hound.Evaluate.Engine.{combine_verdicts, evaluate_candidate}
use aws_net_hound.Evaluate.Engine.Evidence.{
  all_layers, outcome_of_first_refusal, reachability_first_refusal,
}
use aws_net_hound.Evaluate.Engine.Combine.{is_denied, combine_verdicts_lem}

-- Where a route exists, the source's security group gives no verdict and some layer denies the
-- traffic, the finding is indeterminate in the first layer, though the verdicts of all four layers
-- combine to not reachable.
pub indeterminate_masks_deny :
    (clock : Option String) (c : PathCandidate) {reason : IndeterminateReason}
    → c.route_exists ≡ true
    → evaluate_sg_egress c.source.eni_id c.source.security_group_rules c.traffic
        (record { security_group_ids = c.destination.peer_security_group_ids })
      ≡ Verdict.indeterminate reason
    → any (λ step. is_denied step.verdict) (all_layers c) ≡ true
    → ((evaluate_candidate clock c).reachability ≡ indeterminate (sg_egress ∷ []))
      × (combine_verdicts (all_layers c) ≡ not_reachable)
indeterminate_masks_deny clock c route unknown some_deny = (
  reachability_first_refusal clock c ∙ rw (route, unknown),
  combine_verdicts_lem (all_layers c) ∙ rw some_deny,
)

one_layer :
    (steps : List EvaluationStep) (layers : List EvaluationLayer)
    → outcome_of_first_refusal steps ≡ indeterminate layers
    → length layers ≡ 1
one_layer [] layers h = cc
one_layer (step ∷ steps) layers h = ground (arith, one_layer steps layers)

-- An indeterminate finding names exactly one layer.
pub indeterminate_one_layer :
    (clock : Option String) (c : PathCandidate) (layers : List EvaluationLayer)
    → (evaluate_candidate clock c).reachability ≡ indeterminate layers
    → length layers ≡ 1
indeterminate_one_layer clock c layers h =
    ground (arith, reachability_first_refusal clock c, one_layer (all_layers c) layers)
