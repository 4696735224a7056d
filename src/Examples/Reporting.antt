-- ===== src/Examples/Reporting.antt =====
-- The theorems on reports at concrete inputs. Times are numbers that are in UTC already.
use aws_net_hound.Base.{ℕ, ◌≡◌, ◌↔◌, refl, List, [], ◌∷◌, ok, err}
use aws_net_hound.Domain.Finding.{medium, indeterminate, ReachabilityFinding}
use aws_net_hound.Evaluate.Path.{EvaluationLayer, sg_egress, sg_ingress}
use aws_net_hound.Report.Findings.{cause_layer_mismatch}
use aws_net_hound.Report.Causes.{
  LayerCause, unresolved_security_group_reference, new_indeterminate, covers,
}
use aws_net_hound.Report.Causes.Exact.{IsExact, settled, new_indeterminate_iff}
use aws_net_hound.Report.Audit.{
  ReportScope, AuditReport, new_report, from_populations, report_try_from,
}
use aws_net_hound.Report.Audit.Consistent.{wire_of, in_utc, report_try_from_iff}

abbrev finding : ReachabilityFinding
finding = record {
  computed_at = "1970-01-01T00:00:00Z";
  source = "eni-web";
  destination_boundary = "pci";
  path_evidence = record { steps = [] };
  reachability = indeterminate (sg_egress ∷ sg_ingress ∷ []);
  severity = medium;
}

abbrev cause : EvaluationLayer → LayerCause
cause layer = record { layer = layer; cause = unresolved_security_group_reference "sg-far" }

abbrev causes : List LayerCause
causes = cause sg_ingress ∷ cause sg_egress ∷ []

missing_cause :
    new_indeterminate finding (cause sg_ingress ∷ []) ≡ err (cause_layer_mismatch "eni-web")
unfolding new_indeterminate covers
missing_cause = refl

new_indeterminate_iff_example : (new_indeterminate finding causes ≡ ok (settled finding causes)) ↔ (
    (layers : List EvaluationLayer) × (finding.reachability ≡ indeterminate layers)
    × IsExact layers causes
    × (settled finding causes ≡ settled finding causes))
new_indeterminate_iff_example = new_indeterminate_iff finding causes (settled finding causes)

abbrev scope : ReportScope
scope = record { accounts = "111" ∷ []; regions = "eu-west-1" ∷ []; unresolved_reference_count = 1 }

abbrev to_utc : ℕ → ℕ
to_utc time = time

abbrev report : AuditReport ℕ
report = new_report to_utc scope "0.1.0" 7 [] [] (settled finding causes ∷ [])

report_try_from_iff_example : (report_try_from to_utc (wire_of report) ≡ ok report) ↔ (
    ◌≡◌ {A = ℕ} 0 0 × ◌≡◌ {A = ℕ} 0 0 × ◌≡◌ {A = ℕ} 1 1 × (in_utc to_utc (wire_of report) ≡ report))
unfolding new_report from_populations
report_try_from_iff_example = report_try_from_iff to_utc (wire_of report) report
