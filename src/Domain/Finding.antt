-- ===== src/Domain/Finding.antt =====
-- crates/core/src/domain/finding.rs: what an evaluation finds.
use aws_net_hound.Base.{ℕ, List, String}
use aws_net_hound.Evaluate.Path.{EvaluationLayer, PathEvidence}

pub data Severity : Type 0 where
  low medium high critical : Severity

-- The derived `Ord`: the place in the declaration.
abbrev pub severity_rank : Severity → ℕ
severity_rank low = 0
severity_rank medium = 1
severity_rank high = 2
severity_rank critical = 3

pub data Reachability : Type 0 where
  reachable : Reachability
  not_reachable : Reachability
  indeterminate : (layers : List EvaluationLayer) → Reachability

pub record ReachabilityFinding : Type 0 where
  pub computed_at : String
  pub source : String
  pub destination_boundary : String
  pub path_evidence : PathEvidence
  pub reachability : Reachability
  pub severity : Severity
