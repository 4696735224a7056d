-- ===== src/Report/Audit.antt =====
-- crates/core/src/report/model.rs: scope, counts and the report. The time of a report is
-- `time::OffsetDateTime` with its conversion to UTC, both parameters.
pub mod Consistent
use aws_net_hound.Base.{
  ℕ, Bool, true, false, not, List, [], ◌∷◌, String, length, is_empty, ◌==◌, str_eq, Result, ok, err,
  ◌>>=◌, ◌>>◌, if◌then◌else◌,
}
use aws_net_hound.Base.Ordered.{str_less}
use aws_net_hound.Report.Findings.{
  ReportModelError, empty_scope, counts_mismatch, ReachableFinding, NotReachableFinding,
}
use aws_net_hound.Report.Causes.{IndeterminateFinding}

-- `BTreeSet<String>`, ascending and without repetition.
abbrev pub text_insert : String → List String → List String
text_insert k [] = k ∷ []
text_insert k (j ∷ s) =
    let rest = text_insert k s in
    if str_eq k j then j ∷ s else if str_less k j then k ∷ j ∷ s else j ∷ rest

abbrev pub to_text_set : List String → List String
to_text_set [] = []
to_text_set (k ∷ ks) = text_insert k (to_text_set ks)

pub record ReportScope : Type 0 where
  pub accounts : List String
  pub regions : List String
  pub unresolved_reference_count : ℕ

unfoldable pub new_scope : List String → List String → ℕ → Result ReportModelError ReportScope
new_scope accounts regions unresolved_reference_count =
    if is_empty (to_text_set accounts)
    then err (empty_scope "accounts")
    else if is_empty (to_text_set regions)
    then err (empty_scope "regions")
    else ok (record {
      accounts = to_text_set accounts;
      regions = to_text_set regions;
      unresolved_reference_count = unresolved_reference_count;
    })

pub record ReportCounts : Type 0 where
  pub reachable : ℕ
  pub not_reachable : ℕ
  pub indeterminate : ℕ

unfoldable pub from_populations :
    List ReachableFinding → List NotReachableFinding → List IndeterminateFinding → ReportCounts
from_populations reachable not_reachable indeterminate = record {
  reachable = length reachable;
  not_reachable = length not_reachable;
  indeterminate = length indeterminate;
}

-- One turn of the loop over the populations.
unfoldable pub check_count : String → ℕ → ℕ → Result ReportModelError (Unit {0})
check_count population declared actual =
    if not (declared == actual) then err (counts_mismatch population declared actual) else ok tt

pub record ReportSummary (Time : Type 0) : Type 0 where
  pub generated_at : Time
  pub scope : ReportScope
  pub counts : ReportCounts
  pub tool_version : String

pub record AuditReport (Time : Type 0) : Type 0 where
  pub summary : ReportSummary Time
  pub reachable : List ReachableFinding
  pub not_reachable : List NotReachableFinding
  pub indeterminate : List IndeterminateFinding

pub record AuditReportWire (Time : Type 0) : Type 0 where
  pub summary : ReportSummary Time
  pub reachable : List ReachableFinding
  pub not_reachable : List NotReachableFinding
  pub indeterminate : List IndeterminateFinding

module _ {Time : Type 0} (to_utc : Time → Time) where
  unfoldable pub new_report :
      ReportScope
      → String
      → Time
      → List ReachableFinding
      → List NotReachableFinding
      → List IndeterminateFinding
      → AuditReport Time
  unfolding from_populations
  new_report scope tool_version generated_at reachable not_reachable indeterminate = record {
    summary = record {
      generated_at = to_utc generated_at;
      scope = scope;
      counts = from_populations reachable not_reachable indeterminate;
      tool_version = tool_version;
    };
    reachable = reachable;
    not_reachable = not_reachable;
    indeterminate = indeterminate;
  }

  unfoldable pub report_try_from : AuditReportWire Time → Result ReportModelError (AuditReport Time)
  unfolding from_populations check_count
  report_try_from wire =
      let actual = from_populations wire.reachable wire.not_reachable wire.indeterminate in
      let declared = wire.summary.counts in
      check_count "reachable" declared.reachable actual.reachable
      >> check_count "not_reachable" declared.not_reachable actual.not_reachable
      >> check_count "indeterminate" declared.indeterminate actual.indeterminate
      >> ok (record {
        summary = record {
          generated_at = to_utc wire.summary.generated_at;
          scope = wire.summary.scope;
          counts = wire.summary.counts;
          tool_version = wire.summary.tool_version;
        };
        reachable = wire.reachable;
        not_reachable = wire.not_reachable;
        indeterminate = wire.indeterminate;
      })
