-- ===== src/Report/Findings.antt =====
-- crates/core/src/report/model.rs and crates/core/src/error.rs: the findings that are reachable or
-- not, each in its own type, built only by `new`.
use aws_net_hound.Base.{ℕ, String, Result, ok, err}
use aws_net_hound.Domain.Finding.{
  Reachability, reachable, not_reachable, indeterminate, ReachabilityFinding,
}

pub data ReportModelError : Type 0 where
  reachability_mismatch : (population actual finding_source : String) → ReportModelError
  cause_layer_mismatch : (finding_source : String) → ReportModelError
  counts_mismatch : (population : String) (declared actual : ℕ) → ReportModelError
  empty_scope : (field : String) → ReportModelError

unfoldable pub reachability_label : Reachability → String
reachability_label reachable = "reachable"
reachability_label not_reachable = "not_reachable"
reachability_label (indeterminate layers) = "indeterminate"

unfoldable pub mismatch : String → ReachabilityFinding → ReportModelError
unfolding reachability_label
mismatch population finding =
    reachability_mismatch population (reachability_label finding.reachability) finding.source

-- `FindingWire`, the shape that is deserialized.
pub record FindingWire : Type 0 where
  pub finding : ReachabilityFinding

pub record ReachableFinding : Type 0 where
  pub finding : ReachabilityFinding

pub record NotReachableFinding : Type 0 where
  pub finding : ReachabilityFinding

unfoldable pub new_reachable : ReachabilityFinding → Result ReportModelError ReachableFinding
unfolding mismatch
new_reachable finding = elim finding.reachability [
  | reachable ↦ ok (record { finding = finding })
  | _ ↦ err (mismatch "reachable" finding)
]

unfoldable pub new_not_reachable : ReachabilityFinding → Result ReportModelError NotReachableFinding
unfolding mismatch
new_not_reachable finding = elim finding.reachability [
  | not_reachable ↦ ok (record { finding = finding })
  | _ ↦ err (mismatch "not_reachable" finding)
]

unfoldable pub reachable_try_from : FindingWire → Result ReportModelError ReachableFinding
unfolding new_reachable
reachable_try_from wire = new_reachable wire.finding

unfoldable pub not_reachable_try_from : FindingWire → Result ReportModelError NotReachableFinding
unfolding new_not_reachable
not_reachable_try_from wire = new_not_reachable wire.finding
