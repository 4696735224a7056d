-- ===== src/Audit/Run/Stages.antt =====
-- crates/audit-local/src/run.rs: what an audit that ends has done.
use aws_net_hound.Base.{
  ℕ, suc, ◌≡◌, refl, sym, ◌∙◌, ◌↔◌, Option, none, List, [], ◌∷◌, All, subst, Result, ok, String,
}
use aws_net_hound.Base.Traverse.{ok_unique, map_ok-eq-ok}
use aws_net_hound.Base.Effect.{resume-eq-ok, wrap_result-eq-ok, pair_parts, wrap_result}
use aws_net_hound.Domain.Finding.{not_reachable, ReachabilityFinding}
use aws_net_hound.Evaluate.Path.{PathCandidate}
use aws_net_hound.Evaluate.Engine.{evaluate, evaluate_candidate}
use aws_net_hound.Evaluate.Engine.Evidence.{reachability_first_refusal}
use aws_net_hound.Evaluate.Candidates.Fetch.{assemble_candidates}
use aws_net_hound.Graph.Model.{upsert_regulated_boundaries}
use aws_net_hound.Graph.Writer.{neo4j_writer}
use aws_net_hound.Ingest.Collect.{Client}
use aws_net_hound.Ingest.Pipeline.{IngestReport, run_full_ingest_with_client}
use aws_net_hound.Migrations.{run as migrations_run}
use aws_net_hound.Migrations.Embedded.{migration_files}
use aws_net_hound.Migrations.Types.{MigrationSummary}
use aws_net_hound.Audit.Config.{ValidatedConfig}
use aws_net_hound.Audit.Outcome.{Outcome, exit_code, IsClosed, exit_code-findings_to_outcome}
use aws_net_hound.Audit.World.{Graph, World}
use aws_net_hound.Audit.Run.{
  stage_connect, stage_migrate, stage_boundary, stage_ingest, stage_assembly, stage_evaluate,
  assess, boundary_record, connect, evaluate_all, selectors_of, run_with_ec2_client,
}

-- The engine finds the candidate not reachable. The time at which it does so does not matter.
abbrev pub IsBlocked : PathCandidate → Type 0
IsBlocked candidate = (evaluate_candidate none candidate).reachability ≡ not_reachable

same_reachability :
    (clock : Option String) (candidate : PathCandidate)
    → (evaluate_candidate clock candidate).reachability
      ≡ (evaluate_candidate none candidate).reachability
same_reachability clock candidate =
    reachability_first_refusal clock candidate ∙ sym (reachability_first_refusal none candidate)

-- An error of a part, with a context, of a call that leaves the store.
pub wrapped-eq-ok :
    {Store E F A : Type 0} (f : E → F) (store : Store) (r : Result E A) {last : Store} {a : A}
    → wrap_result f (store, r) ≡ (last, ok a)
    → (store ≡ last) × (r ≡ ok a)
wrapped-eq-ok f store r e = pair_parts (wrap_result-eq-ok f (store, r) e)

iff_trans : {P Q R : Type 0} → (P ↔ Q) → (Q ↔ R) → (P ↔ R)
iff_trans (a, b) (c, d) = (λ p. c (a p), λ r. b (d r))

module _
    {Store Txn Row Mismatch Stream Merged Failure SdkFailure Settings Duration Unread Yaml : Type 0}
    (world : World Store Txn Row Mismatch Stream Merged Failure SdkFailure Settings Duration Unread
      Yaml) where
  evaluate_all-IsClosed_iff :
      (n : ℕ) (candidates : List PathCandidate) {findings : List ReachabilityFinding}
      → evaluate_all world n candidates ≡ ok findings
      → All IsClosed findings ↔ All IsBlocked candidates
  unfolding evaluate_all evaluate
  evaluate_all-IsClosed_iff n [] e =
      subst (λ findings. All IsClosed findings ↔ Unit {0}) (ok_unique refl e) (λ h. h, λ h. h)
  evaluate_all-IsClosed_iff n (candidate ∷ candidates) e =
      let (findings, others, made) = map_ok-eq-ok _ (evaluate_all world (suc n) candidates) e in
      let (to, from) = evaluate_all-IsClosed_iff (suc n) candidates others in
      let same = same_reachability (world.timestamps n) candidate in
      subst (λ findings. All IsClosed findings ↔ All IsBlocked (candidate ∷ candidates)) made
        (
          (λ (first, rest). (sym same ∙ first, to rest)),
          (λ (first, rest). (same ∙ first, from rest)),
        )

  assess-eq-ok :
      (graph : Graph Store Txn Row Mismatch Stream Merged Failure) (config : ValidatedConfig)
      (account_id : String) (store : Store) {last : Store} {outcome : Outcome}
      → assess world graph config account_id store ≡ (last, ok outcome)
      → (store ≡ last)
        × (candidates : List PathCandidate) × (assemble_candidates
              (graph.eni_rows store)
              (graph.route_rows store)
              (boundary_record account_id).id
              (selectors_of world config)
            ≡ ok candidates)
        × ((exit_code outcome ≡ 0) ↔ All IsBlocked candidates)
  unfolding assess stage_assembly stage_evaluate
  assess-eq-ok graph config account_id store e =
      let (s5, candidates, e5, r5) =
        resume-eq-ok (stage_assembly world graph config account_id store) _ e in
      let (s6, findings, e6, r6) = resume-eq-ok (stage_evaluate world candidates s5) _ r5 in
      let (same_5, assembled) = wrapped-eq-ok _ store (assemble_candidates _ _ _ _) e5 in
      let (same_6, evaluated) = wrapped-eq-ok _ s5 (evaluate_all world 0 candidates) e6 in
      let (same, answered) = pair_parts r6 in
      (
        same_5 ∙ same_6 ∙ same,
        candidates,
        assembled,
        subst (λ outcome. (exit_code outcome ≡ 0) ↔ All IsBlocked candidates)
            (ok_unique refl answered)
            (iff_trans (exit_code-findings_to_outcome findings)
              (evaluate_all-IsClosed_iff 0 candidates evaluated)),
      )

  -- The stores between the stages, and what each stage gave.
  pub record Completed (config : ValidatedConfig) (client : Client SdkFailure) (account_id : String)
      (first last : Store) (outcome : Outcome) : Type 0 where
    pub graph : Graph Store Txn Row Mismatch Stream Merged Failure
    pub connected : Store
    pub migrated : Store
    pub bounded : Store
    pub summary : MigrationSummary
    pub report : IngestReport Duration
    pub candidates : List PathCandidate
    pub connects : connect world config first ≡ (connected, ok graph)
    pub migrates :
        migrations_run graph.migrations migration_files connected ≡ (migrated, ok summary)
    pub writes :
        neo4j_writer graph.driver
          (upsert_regulated_boundaries (boundary_record account_id ∷ []))
          migrated
        ≡ (bounded, ok tt)
    pub ingests :
        run_full_ingest_with_client
          (neo4j_writer graph.driver)
          world.elapsed
          world.earliest
          client
          account_id
          bounded
        ≡ (last, ok report)
    pub assembles :
        assemble_candidates
          (graph.eni_rows last)
          (graph.route_rows last)
          (boundary_record account_id).id
          (selectors_of world config)
        ≡ ok candidates
    pub verdict : (exit_code outcome ≡ 0) ↔ All IsBlocked candidates

  -- An audit that ends has connected, migrated, written its boundary, ingested, and assembled its
  -- candidates from what the ingest left, in that order and each without a failure. Its exit code is 0
  -- exactly when the engine finds every candidate not reachable.
  pub run_with_ec2_client-Completed :
      (config : ValidatedConfig) (client : Client SdkFailure) (account_id : String)
      (first last : Store) (outcome : Outcome)
      → run_with_ec2_client world config client account_id first ≡ (last, ok outcome)
      → Completed config client account_id first last outcome
  unfolding run_with_ec2_client stage_connect stage_boundary stage_migrate stage_ingest
  run_with_ec2_client-Completed config client account_id first last outcome e =
      let (s1, graph, e1, r1) = resume-eq-ok (stage_connect world config first) _ e in
      let (s2, summary, e2, r2) = resume-eq-ok (stage_migrate world graph s1) _ r1 in
      let (s3, _, e3, r3) = resume-eq-ok (stage_boundary world graph account_id s2) _ r2 in
      let (s4, report, e4, r4) =
        resume-eq-ok (stage_ingest world graph client account_id s3) _ r3 in
      let (same, candidates, assembled, verdict) = assess-eq-ok graph config account_id s4 r4 in
      subst (λ last. Completed config client account_id first last outcome) same
        (record {
          graph = graph;
          connected = s1;
          migrated = s2;
          bounded = s3;
          summary = summary;
          report = report;
          candidates = candidates;
          connects = wrap_result-eq-ok _ _ e1;
          migrates = wrap_result-eq-ok _ _ e2;
          writes = wrap_result-eq-ok _ _ e3;
          ingests = wrap_result-eq-ok _ _ e4;
          assembles = assembled;
          verdict = verdict;
        })
