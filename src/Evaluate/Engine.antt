-- ===== src/Evaluate/Engine.antt =====
-- crates/core/src/evaluate/engine.rs: the four layers of a path, one after the other. The clock is
-- outside the program: `clock` is what formatting the current time gives, nothing if that fails.
-- Logging has no effect on the result and is left out.
pub mod Evidence
pub mod Combine
pub mod Masking
pub mod Reachable
use aws_net_hound.Base.{
  Bool, true, false, not, Option, none, some, List, [], ◌∷◌, ◌++◌, String, is_empty, if◌then◌else◌,
  Result, ok,
}
use aws_net_hound.Domain.Finding.{
  Severity, low, medium, high, Reachability, reachable, not_reachable, indeterminate,
  ReachabilityFinding,
}
use aws_net_hound.Evaluate.Types.{Verdict, allowed, denied, is_allowed, EvaluationError}
use aws_net_hound.Evaluate.Nacl.{evaluate_nacl_egress, evaluate_nacl_ingress}
use aws_net_hound.Evaluate.Sg.{PeerIdentity, evaluate_sg_egress, evaluate_sg_ingress}
use aws_net_hound.Evaluate.Path.{
  PathCandidate, EvaluationLayer, sg_egress, nacl_egress, nacl_ingress, sg_ingress, EvaluationStep,
  PathEvidence,
}

unfoldable pub severity_for : Reachability → Severity
severity_for reachable = high
severity_for (indeterminate layers) = medium
severity_for not_reachable = low

unfoldable pub now_rfc3339_utc : Option String → String
now_rfc3339_utc (some formatted) = formatted
now_rfc3339_utc none = "1970-01-01T00:00:00Z"

unfoldable pub finish_with :
    Option String → PathCandidate → PathEvidence → Reachability → ReachabilityFinding
unfolding severity_for now_rfc3339_utc
finish_with clock candidate path_evidence reachability = record {
  computed_at = now_rfc3339_utc clock;
  source = candidate.source.eni_id;
  destination_boundary = candidate.destination_boundary;
  path_evidence = path_evidence;
  reachability = reachability;
  severity = severity_for reachability;
}

-- The loop of `combine_verdicts`, with the layers that it has collected. A deny returns at once.
combine_from : List EvaluationLayer → List EvaluationStep → Reachability
combine_from layers [] = if is_empty layers then reachable else indeterminate layers
combine_from layers (step ∷ steps) = elim step.verdict [
  | denied _ ↦ not_reachable
  | Verdict.indeterminate _ ↦ combine_from (layers ++ step.layer ∷ []) steps
  | allowed _ ↦ combine_from layers steps
]

unfoldable pub combine_verdicts : List EvaluationStep → Reachability
unfolding combine_from
combine_verdicts steps = combine_from [] steps

unfoldable pub finish : Option String → PathCandidate → List EvaluationStep → ReachabilityFinding
finish clock candidate steps =
    finish_with clock candidate (record { steps = steps }) (combine_verdicts steps)

abbrev step : EvaluationLayer → String → Verdict → EvaluationStep
step layer resource_id verdict = record {
  layer = layer;
  resource_id = resource_id;
  verdict = verdict;
}

unfoldable pub evaluate_candidate : Option String → PathCandidate → ReachabilityFinding
evaluate_candidate clock candidate =
    if not candidate.route_exists
    then finish_with clock candidate (record { steps = [] }) not_reachable
    else let destination_peer : PeerIdentity = record {
      security_group_ids = candidate.destination.peer_security_group_ids;
    } in
      let sg_egress_verdict =
        evaluate_sg_egress candidate.source.eni_id candidate.source.security_group_rules
          candidate.traffic destination_peer in
      let steps = step sg_egress candidate.source.eni_id sg_egress_verdict ∷ [] in
      if not (is_allowed sg_egress_verdict)
      then finish clock candidate steps
      else let nacl_egress_verdict =
          evaluate_nacl_egress candidate.source.subnet_id candidate.source.nacl_rules
            candidate.traffic in
        let steps = steps ++ step nacl_egress candidate.source.subnet_id nacl_egress_verdict ∷ [] in
        if not (is_allowed nacl_egress_verdict)
        then finish clock candidate steps
        else let nacl_ingress_verdict =
            evaluate_nacl_ingress candidate.destination.subnet_id candidate.destination.nacl_rules
              candidate.traffic in
          let steps =
            steps ++ step nacl_ingress candidate.destination.subnet_id nacl_ingress_verdict ∷ [] in
          if not (is_allowed nacl_ingress_verdict)
          then finish clock candidate steps
          else let source_peer : PeerIdentity = record {
            security_group_ids = candidate.source.peer_security_group_ids;
          } in
            let sg_ingress_verdict =
              evaluate_sg_ingress candidate.destination.eni_id
                candidate.destination.security_group_rules candidate.traffic source_peer in
            finish clock candidate
              (steps ++ step sg_ingress candidate.destination.eni_id sg_ingress_verdict ∷ [])

-- `Evaluator::evaluate`: the future is ready at once and never fails.
unfoldable pub evaluate : Option String → PathCandidate → Result EvaluationError ReachabilityFinding
evaluate clock candidate = ok (evaluate_candidate clock candidate)
