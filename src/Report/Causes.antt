-- ===== src/Report/Causes.antt =====
-- crates/core/src/report/model.rs: the findings without a verdict, with the cause of each layer. A
-- `BTreeSet` of layers is the list of their ranks, ascending and without repetition.
pub mod Sets
pub mod Exact
use aws_net_hound.Base.{
  ℕ, Bool, true, false, ◌&&◌, ◌||◌, not, List, [], ◌∷◌, String, map, length, ltb, ◌==◌, Result, ok,
  err, if◌then◌else◌,
}
use aws_net_hound.Base.Sort.{sort_by_key}
use aws_net_hound.Domain.Finding.{Reachability, indeterminate, ReachabilityFinding}
use aws_net_hound.Evaluate.Path.{EvaluationLayer, layer_rank}
use aws_net_hound.Report.Findings.{ReportModelError, cause_layer_mismatch, mismatch}

pub data IndeterminateCause : Type 0 where
  unresolved_cross_account_reference : (account_id : String) → IndeterminateCause
  unresolved_security_group_reference : (group_id : String) → IndeterminateCause
  missing_route_table : (subnet_id : String) → IndeterminateCause
  other : (detail : String) → IndeterminateCause

pub record LayerCause : Type 0 where
  pub layer : EvaluationLayer
  pub cause : IndeterminateCause

pub record IndeterminateFinding : Type 0 where
  pub finding : ReachabilityFinding
  pub causes : List LayerCause

pub record IndeterminateWire : Type 0 where
  pub finding : ReachabilityFinding
  pub causes : List LayerCause

-- `BTreeSet::insert` and `collect`.
abbrev pub set_insert : ℕ → List ℕ → List ℕ
set_insert k [] = k ∷ []
set_insert k (j ∷ s) =
    let rest = set_insert k s in if k == j then j ∷ s else if ltb k j then k ∷ j ∷ s else j ∷ rest

abbrev pub to_set : List ℕ → List ℕ
to_set [] = []
to_set (k ∷ ks) = set_insert k (to_set ks)

abbrev pub same_set : List ℕ → List ℕ → Bool
same_set [] [] = true
same_set (j ∷ s) (k ∷ t) = (j == k) && same_set s t
same_set _ _ = false

abbrev pub cause_rank : LayerCause → ℕ
cause_rank cause = layer_rank cause.layer

-- `covered != expected || covered.len() != causes.len()`, denied.
unfoldable pub covers : List EvaluationLayer → List LayerCause → Bool
covers layers causes =
    let expected = to_set (map layer_rank layers) in
    let covered = to_set (map cause_rank causes) in
    not (not (same_set covered expected) || not (length covered == length causes))

unfoldable pub new_indeterminate :
    ReachabilityFinding → List LayerCause → Result ReportModelError IndeterminateFinding
unfolding covers mismatch
new_indeterminate finding causes = elim finding.reachability [
  | indeterminate layers ↦
      if covers layers causes
      then ok (record { finding = finding; causes = sort_by_key cause_rank causes })
      else err (cause_layer_mismatch finding.source)
  | _ ↦ err (mismatch "indeterminate" finding)
]

unfoldable pub indeterminate_try_from :
    IndeterminateWire → Result ReportModelError IndeterminateFinding
unfolding new_indeterminate
indeterminate_try_from wire = new_indeterminate wire.finding wire.causes
