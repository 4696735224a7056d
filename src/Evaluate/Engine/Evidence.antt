-- ===== src/Evaluate/Engine/Evidence.antt =====
-- crates/core/src/evaluate/engine.rs: proofs about the evidence of `evaluate_candidate`.
use aws_net_hound.Base.{◌≡◌, refl, ap, ◌∙◌, Option, List, [], ◌∷◌, String, if◌then◌else◌, arith}
use aws_net_hound.Domain.Finding.{Reachability, reachable, not_reachable, indeterminate}
use aws_net_hound.Evaluate.Types.{Verdict, allowed, denied, is_allowed}
use aws_net_hound.Evaluate.Nacl.{evaluate_nacl_egress, evaluate_nacl_ingress}
use aws_net_hound.Evaluate.Sg.{evaluate_sg_egress, evaluate_sg_ingress}
use aws_net_hound.Evaluate.Path.{
  PathCandidate, EvaluationLayer, sg_egress, nacl_egress, nacl_ingress, sg_ingress, EvaluationStep,
}
use aws_net_hound.Evaluate.Engine.{finish_with, finish, combine_verdicts, evaluate_candidate}

-- All four layers of a path, judged without regard to one another.
abbrev pub all_layers : PathCandidate → List EvaluationStep
all_layers c =
    record {
      layer = sg_egress;
      resource_id = c.source.eni_id;
      verdict =
          evaluate_sg_egress c.source.eni_id c.source.security_group_rules c.traffic
            (record { security_group_ids = c.destination.peer_security_group_ids });
    }
    ∷ record {
      layer = nacl_egress;
      resource_id = c.source.subnet_id;
      verdict = evaluate_nacl_egress c.source.subnet_id c.source.nacl_rules c.traffic;
    }
    ∷ record {
      layer = nacl_ingress;
      resource_id = c.destination.subnet_id;
      verdict = evaluate_nacl_ingress c.destination.subnet_id c.destination.nacl_rules c.traffic;
    }
    ∷ record {
      layer = sg_ingress;
      resource_id = c.destination.eni_id;
      verdict =
          evaluate_sg_ingress c.destination.eni_id c.destination.security_group_rules c.traffic
            (record { security_group_ids = c.source.peer_security_group_ids });
    }
    ∷ []

-- Up to the first step that is not allowed, that one included.
abbrev pub up_to_first_refusal : List EvaluationStep → List EvaluationStep
up_to_first_refusal [] = []
up_to_first_refusal (step ∷ steps) =
    step ∷ (if is_allowed step.verdict then up_to_first_refusal steps else [])

-- The outcome that the first step which is not allowed stands for.
abbrev outcome_of_verdict : EvaluationLayer → Verdict → Reachability → Reachability
outcome_of_verdict layer (allowed _) rest = rest
outcome_of_verdict layer (denied _) rest = not_reachable
outcome_of_verdict layer (Verdict.indeterminate _) rest = indeterminate (layer ∷ [])

abbrev pub outcome_of_first_refusal : List EvaluationStep → Reachability
outcome_of_first_refusal [] = reachable
outcome_of_first_refusal (step ∷ steps) =
    outcome_of_verdict step.layer step.verdict (outcome_of_first_refusal steps)

-- The evidence is the layers up to the first refusal, or nothing where there is no route.
pub evidence-up_to_first_refusal :
    (clock : Option String) (c : PathCandidate)
    → (evaluate_candidate clock c).path_evidence.steps
      ≡ (if c.route_exists then up_to_first_refusal (all_layers c) else [])
unfolding evaluate_candidate finish finish_with
evidence-up_to_first_refusal clock c = ground arith

combine_verdicts-up_to :
    (steps : List EvaluationStep)
    → combine_verdicts (up_to_first_refusal steps) ≡ outcome_of_first_refusal steps
unfolding combine_verdicts
combine_verdicts-up_to [] = refl
combine_verdicts-up_to (step ∷ steps) = ground (arith, combine_verdicts-up_to steps)

reachability_of_evidence :
    (clock : Option String) (c : PathCandidate)
    → (evaluate_candidate clock c).reachability ≡ (
        if c.route_exists
        then combine_verdicts (up_to_first_refusal (all_layers c))
        else not_reachable)
unfolding evaluate_candidate finish finish_with
reachability_of_evidence clock c = ground arith

-- The first layer that is not allowed settles the outcome; without a route the path is not
-- reachable, and with all layers allowed it is.
pub reachability_first_refusal :
    (clock : Option String) (c : PathCandidate)
    → (evaluate_candidate clock c).reachability
      ≡ (if c.route_exists then outcome_of_first_refusal (all_layers c) else not_reachable)
reachability_first_refusal clock c =
    reachability_of_evidence clock c
    ∙ ap (λ r. if c.route_exists then r else not_reachable) (combine_verdicts-up_to (all_layers c))
