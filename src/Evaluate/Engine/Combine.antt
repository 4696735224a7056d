-- ===== src/Evaluate/Engine/Combine.antt =====
-- crates/core/src/evaluate/engine.rs: proofs about `combine_verdicts`.
use aws_net_hound.Base.{
  ◌≡◌, Bool, true, false, List, [], ◌∷◌, ◌++◌, map, filter, any, is_empty, if◌then◌else◌, arith,
  sym, ap,
}
use mathlib.Core.List.{append-nil, append_assoc}
use aws_net_hound.Domain.Finding.{Reachability, reachable, not_reachable, indeterminate}
use aws_net_hound.Evaluate.Types.{Verdict, denied}
use aws_net_hound.Evaluate.Path.{EvaluationLayer, EvaluationStep}
use aws_net_hound.Evaluate.Engine.{combine_from, combine_verdicts}

abbrev pub is_denied : Verdict → Bool
is_denied (denied _) = true
is_denied _ = false

abbrev pub is_indeterminate : Verdict → Bool
is_indeterminate (Verdict.indeterminate _) = true
is_indeterminate _ = false

-- The layers without a verdict, in the order of the steps.
abbrev pub undecided_layers : List EvaluationStep → List EvaluationLayer
undecided_layers steps =
    map (λ step. step.layer) (filter (λ step. is_indeterminate step.verdict) steps)

abbrev verdict_on : List EvaluationLayer → Reachability
verdict_on layers = if is_empty layers then reachable else indeterminate layers

combine_from_lem :
    (layers : List EvaluationLayer) (steps : List EvaluationStep)
    → combine_from layers steps ≡ (
        if any (λ step. is_denied step.verdict) steps
        then not_reachable
        else verdict_on (layers ++ undecided_layers steps))
unfolding combine_from
combine_from_lem layers [] = ap verdict_on (sym (append-nil layers))
combine_from_lem layers (step ∷ steps) = ground (
  arith,
  combine_from_lem layers steps,
  combine_from_lem (layers ++ step.layer ∷ []) steps,
  append_assoc layers (step.layer ∷ []) (undecided_layers steps),
)

-- A deny on any step makes the path not reachable; failing that, the steps without a verdict are
-- reported in their order, and a path of allowed steps alone is reachable.
pub combine_verdicts_lem :
    (steps : List EvaluationStep)
    → combine_verdicts steps ≡ (
        if any (λ step. is_denied step.verdict) steps
        then not_reachable
        else if is_empty (undecided_layers steps)
        then reachable
        else indeterminate (undecided_layers steps))
unfolding combine_verdicts
combine_verdicts_lem steps = combine_from_lem [] steps
