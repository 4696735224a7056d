-- ===== src/Report/Causes/Exact.antt =====
-- crates/core/src/report/model.rs: proofs about `IndeterminateFinding::new`.
use aws_net_hound.Base.{
  ℕ, ◌≡◌, ◌↔◌, refl, sym, ap, ◌∙◌, Bool, true, false, List, map, arith, ok, err, inl, inr, ◌⊎◌,
  if◌then◌else◌,
}
use aws_net_hound.Base.Every.{length-map}
use aws_net_hound.Base.Sort.{sort_by_key}
use aws_net_hound.Domain.Finding.{
  Reachability, reachable, not_reachable, indeterminate, ReachabilityFinding,
}
use aws_net_hound.Evaluate.Path.{EvaluationLayer, layer_rank}
use aws_net_hound.Report.Findings.{mismatch, cause_layer_mismatch}
use aws_net_hound.Report.Causes.{
  to_set, LayerCause, cause_rank, covers, IndeterminateFinding, new_indeterminate,
}
use aws_net_hound.Report.Causes.Sets.{
  has, IsDistinct, has-to_set, to_set-IsAscending, same_set_of_has, has_of_same_set,
  length-to_set_iff,
}

abbrev is_undecided : Reachability → Bool
is_undecided (indeterminate _) = true
is_undecided _ = false

-- No layer has two causes, and the layers that have one are the given ones.
pub record IsExact (layers : List EvaluationLayer) (causes : List LayerCause) : Type 0 where
  pub once : IsDistinct (map cause_rank causes)
  pub same : (rank : ℕ) → has rank (map cause_rank causes) ≡ has rank (map layer_rank layers)

pub covers_iff :
    (layers : List EvaluationLayer) (causes : List LayerCause)
    → (covers layers causes ≡ true) ↔ IsExact layers causes
unfolding covers
covers_iff layers causes =
    let given = map layer_rank layers in
    let ranks = map cause_rank causes in
    let long = length-map cause_rank causes in
    (
      (λ h. record {
        once = (length-to_set_iff ranks).0 (ground (arith, long));
        same = λ rank.
            sym (has-to_set rank ranks)
            ∙ has_of_same_set rank (to_set ranks) (to_set given) (ground arith)
            ∙ has-to_set rank given;
      }),
      (λ e.
          let sets =
            same_set_of_has (to_set ranks) (to_set given) (to_set-IsAscending ranks)
              (to_set-IsAscending given)
              (λ rank. has-to_set rank ranks ∙ e.same rank ∙ sym (has-to_set rank given)) in
          ground (arith, sets, long, (length-to_set_iff ranks).1 e.once)),
    )

abbrev pub settled : ReachabilityFinding → List LayerCause → IndeterminateFinding
settled finding causes = record { finding = finding; causes = sort_by_key cause_rank causes }

refused_or_layers :
    (r : Reachability)
    → ((layers : List EvaluationLayer) × (r ≡ indeterminate layers)) ⊎ (is_undecided r ≡ false)
refused_or_layers reachable = inr refl
refused_or_layers not_reachable = inr refl
refused_or_layers (indeterminate layers) = inl (layers, refl)

new_indeterminate_of_other :
    (finding : ReachabilityFinding) (causes : List LayerCause)
    → is_undecided finding.reachability ≡ false
    → new_indeterminate finding causes ≡ err (mismatch "indeterminate" finding)
unfolding new_indeterminate
new_indeterminate_of_other finding causes h = ground arith

new_indeterminate_of_layers :
    (finding : ReachabilityFinding) (causes : List LayerCause) (layers : List EvaluationLayer)
    → finding.reachability ≡ indeterminate layers
    → new_indeterminate finding causes ≡ (
        if covers layers causes
        then ok (settled finding causes)
        else err (cause_layer_mismatch finding.source))
unfolding new_indeterminate
new_indeterminate_of_layers finding causes layers e = rw e refl

-- The finding is accepted exactly when it has no verdict and the causes are one for each of its
-- layers; it then has them in evaluation order.
pub new_indeterminate_iff :
    (finding : ReachabilityFinding) (causes : List LayerCause) (result : IndeterminateFinding)
    → (new_indeterminate finding causes ≡ ok result) ↔ (
        (layers : List EvaluationLayer) × (finding.reachability ≡ indeterminate layers)
        × IsExact layers causes
        × (settled finding causes ≡ result))
new_indeterminate_iff finding causes result = (
  (λ h. elim (refused_or_layers finding.reachability) [
    | inr other ↦ absurd (ground (arith, new_indeterminate_of_other finding causes other))
    | inl (layers, e) ↦
        let run = sym (new_indeterminate_of_layers finding causes layers e) ∙ h in
        (layers, e, (covers_iff layers causes).0 (ground arith), ground arith)
  ]),
  (λ (layers, e, exact, same).
      new_indeterminate_of_layers finding causes layers e
      ∙ rw ((covers_iff layers causes).1 exact) (ap ok same)),
)
