-- ===== src/Report/Audit/Consistent.antt =====
-- crates/core/src/report/model.rs: proofs about the counts of a report.
use aws_net_hound.Base.{ℕ, ◌≡◌, refl, List, String, length, ok, arith, ◌↔◌}
use aws_net_hound.Report.Findings.{ReachableFinding, NotReachableFinding}
use aws_net_hound.Report.Causes.{IndeterminateFinding}
use aws_net_hound.Report.Audit.{
  ReportScope, from_populations, AuditReport, AuditReportWire, new_report, report_try_from,
  check_count,
}

module _ {Time : Type 0} where
  -- The counts are those of the populations.
  abbrev pub IsConsistent : AuditReport Time → Type 0
  IsConsistent report =
      (report.summary.counts.reachable ≡ length report.reachable)
      × (report.summary.counts.not_reachable ≡ length report.not_reachable)
      × (report.summary.counts.indeterminate ≡ length report.indeterminate)

  -- What the derived serialization gives.
  abbrev pub wire_of : AuditReport Time → AuditReportWire Time
  wire_of report = record {
    summary = report.summary;
    reachable = report.reachable;
    not_reachable = report.not_reachable;
    indeterminate = report.indeterminate;
  }

module _ {Time : Type 0} (to_utc : Time → Time) where
  -- The report that a wire report stands for.
  abbrev pub in_utc : AuditReportWire Time → AuditReport Time
  in_utc wire = record {
    summary = record {
      generated_at = to_utc wire.summary.generated_at;
      scope = wire.summary.scope;
      counts = wire.summary.counts;
      tool_version = wire.summary.tool_version;
    };
    reachable = wire.reachable;
    not_reachable = wire.not_reachable;
    indeterminate = wire.indeterminate;
  }

  new_report-IsConsistent :
      (scope : ReportScope) (version : String) (at : Time) (rs : List ReachableFinding)
      (ns : List NotReachableFinding) (is : List IndeterminateFinding)
      → IsConsistent (new_report to_utc scope version at rs ns is)
  unfolding new_report from_populations
  new_report-IsConsistent scope version at rs ns is = (refl, refl, refl)

  check_count-eq-ok :
      (population : String) (declared actual : ℕ) {u : Unit {0}}
      → check_count population declared actual ≡ ok u
      → declared ≡ actual
  unfolding check_count
  check_count-eq-ok population declared actual h = ground arith

  -- A wire report is accepted exactly when the three declared counts are the numbers of findings in the
  -- three populations, and the report is then the wire report with its time in UTC.
  pub report_try_from_iff :
      (wire : AuditReportWire Time) (report : AuditReport Time)
      → (report_try_from to_utc wire ≡ ok report) ↔ (
          (wire.summary.counts.reachable ≡ length wire.reachable)
          × (wire.summary.counts.not_reachable ≡ length wire.not_reachable)
          × (wire.summary.counts.indeterminate ≡ length wire.indeterminate)
          × (in_utc wire ≡ report))
  unfolding report_try_from from_populations check_count
  report_try_from_iff wire report = ((λ h. ground arith), (λ (r, n, i, same). ground arith))

  -- A report that is built and given back as a wire report is accepted and is itself again, where the conversion to UTC leaves a
  -- time in UTC as it is.
  pub report_try_from-new_report :
      ((at : Time) → to_utc (to_utc at) ≡ to_utc at)
      → (scope : ReportScope) (version : String) (at : Time) (rs : List ReachableFinding)
        (ns : List NotReachableFinding) (is : List IndeterminateFinding)
      → let report = new_report to_utc scope version at rs ns is in
        report_try_from to_utc (wire_of report) ≡ ok report
  unfolding report_try_from new_report from_populations check_count
  report_try_from-new_report idem scope version at rs ns is = rw (idem at) (ground arith)
