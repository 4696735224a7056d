-- ===== src/Audit/Run/Unmatched.antt =====
-- crates/audit-local/src/run.rs: an audit whose boundary names no VPC.
use aws_net_hound.Base.{
  ◌≡◌, refl, sym, subst, ◌∙◌, ap, not, List, [], ◌∷◌, String, filter, contains, All, ok, >>=-eq-ok,
  arith,
}
use aws_net_hound.Base.Traverse.{ok_unique}
use aws_net_hound.Evaluate.Path.{PathCandidate}
use aws_net_hound.Evaluate.Candidates.{
  EniNode, RouteTargets, BoundarySelectors, candidates_of, pair_all,
}
use aws_net_hound.Evaluate.Candidates.Rows.{EniRow}
use aws_net_hound.Evaluate.Candidates.Fetch.{
  Executed, RouteRow, fetch_enis, fetch_route_table_targets, assemble_candidates,
}
use aws_net_hound.Ingest.Collect.{Client}
use aws_net_hound.Audit.Config.{ValidatedConfig}
use aws_net_hound.Audit.Outcome.{Outcome, clean, findings_present, exit_code}
use aws_net_hound.Audit.World.{World}
use aws_net_hound.Audit.Run.{run_with_ec2_client, boundary_record, selectors_of}
use aws_net_hound.Audit.Run.Stages.{run_with_ec2_client-Completed, IsBlocked}

nothing_inside :
    (enis : List EniNode) → filter (λ (eni : EniNode). contains [] eni.vpc_id) enis ≡ []
nothing_inside [] = refl
nothing_inside (eni ∷ enis) = nothing_inside enis

candidates_of_nothing :
    (enis : List EniNode) (targets : RouteTargets) (boundary_id : String) (cidrs tags : List String)
    → candidates_of enis targets boundary_id (record { vpc_ids = []; cidrs = cidrs; tags = tags })
      ≡ []
unfolding candidates_of pair_all
candidates_of_nothing enis targets boundary_id cidrs tags =
    ap
      (λ destinations.
        pair_all boundary_id targets destinations
          (filter (λ (eni : EniNode). not (contains [] eni.vpc_id)) enis))
      (nothing_inside enis)

assemble_candidates_nothing :
    (eni_rows : Executed EniRow) (route_rows : Executed RouteRow) (boundary_id : String)
    (selectors : BoundarySelectors) {candidates : List PathCandidate}
    → selectors.vpc_ids ≡ []
    → assemble_candidates eni_rows route_rows boundary_id selectors ≡ ok candidates
    → candidates ≡ []
unfolding assemble_candidates
assemble_candidates_nothing eni_rows route_rows boundary_id selectors none e =
    let (enis, _, rest) = >>=-eq-ok (fetch_enis eni_rows) _ e in
    let (targets, _, made) = >>=-eq-ok (fetch_route_table_targets route_rows) _ rest in
    sym (ok_unique refl made)
    ∙ ap
        (λ vpc_ids.
          candidates_of enis targets boundary_id
            (record { vpc_ids = vpc_ids; cidrs = selectors.cidrs; tags = selectors.tags }))
        none
    ∙ candidates_of_nothing enis targets boundary_id selectors.cidrs selectors.tags

clean_of_zero : (outcome : Outcome) → exit_code outcome ≡ 0 → outcome ≡ clean
unfolding exit_code
clean_of_zero clean h = refl
clean_of_zero (findings_present r i) h = absurd (omega arith)

-- An audit whose boundary selects by CIDR blocks and tags alone, which the configuration allows, ends
-- clean whenever it ends, whatever the graph holds.
pub run_with_ec2_client_unmatched :
    {Store Txn Row Mismatch Stream Merged Failure SdkFailure Settings Duration Unread Yaml : Type 0}
    (world : World Store Txn Row Mismatch Stream Merged Failure SdkFailure Settings Duration Unread
      Yaml)
    (config : ValidatedConfig) (client : Client SdkFailure) (account_id : String)
    (first last : Store) (outcome : Outcome)
    → config.boundary.vpc_ids ≡ []
    → run_with_ec2_client world config client account_id first ≡ (last, ok outcome)
    → outcome ≡ clean
run_with_ec2_client_unmatched world config client account_id first last outcome none e =
    let completed =
      run_with_ec2_client-Completed world config client account_id first last outcome e in
    let empty =
      assemble_candidates_nothing (completed.graph.eni_rows last) (completed.graph.route_rows last)
        (boundary_record account_id).id (selectors_of world config) none completed.assembles in
    clean_of_zero outcome (completed.verdict.1 (subst (All IsBlocked) (sym empty) tt))
