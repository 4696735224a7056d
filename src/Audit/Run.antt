-- ===== src/Audit/Run.antt =====
-- crates/audit-local/src/run.rs, and `dispatch` of crates/audit-local/src/lib.rs: the stages of an
-- audit, one after the other. The services that it talks to are parameters. Logging, the warnings and
-- the times that are only logged are left out.
pub mod Stages
pub mod Unmatched
pub mod Ends
use Prim.Native.String.{◌++◌ as append}
use mathlib.Core.Option.{map as map_some}
use aws_net_hound.Base.{
  ℕ, Bool, zero, suc, Option, none, some, List, [], ◌∷◌, String, Result, ok, err, ok_or, map_err,
  map_ok, ◌>>=◌,
}
use aws_net_hound.Base.Effect.{Effect, ◌>>>◌, lift, wrap_result, resume}
use aws_net_hound.Domain.Finding.{ReachabilityFinding}
use aws_net_hound.Evaluate.Types.{EvaluationError}
use aws_net_hound.Evaluate.Path.{PathCandidate}
use aws_net_hound.Evaluate.Engine.{evaluate}
use aws_net_hound.Evaluate.Candidates.{BoundarySelectors}
use aws_net_hound.Evaluate.Candidates.Rows.{CandidateAssemblyError, EniRow}
use aws_net_hound.Evaluate.Candidates.Fetch.{Executed, RouteRow, assemble_candidates}
use aws_net_hound.Graph.Model.{RegulatedBoundaryRecord, upsert_regulated_boundaries}
use aws_net_hound.Graph.Writer.{Driver, WriteError, neo4j_writer}
use aws_net_hound.Ingest.Client.{SdkConfig, Environment, build_sdk_config, resolve_account_id}
use aws_net_hound.Ingest.Collect.{Client}
use aws_net_hound.Ingest.Errors.{
  IngestError, region_not_resolved, describe, mapping, account_id_resolution, account_id_missing,
  write,
}
use aws_net_hound.Ingest.Pipeline.{IngestReport, run_full_ingest_with_client}
use aws_net_hound.Migrations.{run as migrations_run}
use aws_net_hound.Migrations.Embedded.{migration_files}
use aws_net_hound.Migrations.Types.{MigrationError, MigrationSummary, Connection}
use aws_net_hound.Audit.Config.{Config, ValidatedConfig, ConfigError, from_path, validate}
use aws_net_hound.Audit.Failure.{AwsFailure, Cause, other_cause, classify}
use aws_net_hound.Audit.Outcome.{Outcome, clean, findings_to_outcome}
use aws_net_hound.Audit.Preflight.{Machine, PreflightError, run as preflight_run}
use aws_net_hound.Audit.World.{
  Graph, Report, context, not_set, driver_error, config_error, preflight_error, migration_error,
  write_error, aws_failure, assembly_error, evaluation_error, World,
}

-- The chain of an ingestion error: itself, then its sources.
abbrev pub chain_of :
    {SdkFailure WriteFailure : Type 0}
    → (SdkFailure → List Cause)
    → (WriteFailure → List Cause)
    → IngestError SdkFailure WriteFailure
    → List Cause
chain_of causes write_causes region_not_resolved = other_cause ∷ []
chain_of causes write_causes (describe _ source) = other_cause ∷ causes source
chain_of causes write_causes (mapping _) = other_cause ∷ other_cause ∷ []
chain_of causes write_causes (account_id_resolution source) = other_cause ∷ causes source
chain_of causes write_causes account_id_missing = other_cause ∷ []
chain_of causes write_causes (write source) = other_cause ∷ write_causes source

-- The operation that `classify` is told of.
abbrev pub operation_of :
    {SdkFailure WriteFailure : Type 0} → IngestError SdkFailure WriteFailure → String
operation_of (describe operation _) = operation
operation_of _ = "ingest"

unfoldable pub boundary_record : String → RegulatedBoundaryRecord
boundary_record account_id =
    let boundary_id = append "boundary-" account_id in
    record {
      id = boundary_id;
      account_id = account_id;
      name = boundary_id;
      regime = "unspecified";
      description = none;
    }

pub data Command : Type 0 where
  run_command : (config : String) → Command
  preflight_command : Command

module _
    {Store Txn Row Mismatch Stream Merged Failure SdkFailure Settings Duration Unread Yaml : Type 0}
    (world : World Store Txn Row Mismatch Stream Merged Failure SdkFailure Settings Duration Unread
      Yaml) where
  abbrev pub Audited : Type 0 → Type 0
  Audited A = Effect Store (Report Failure Mismatch Unread Yaml) A

  -- `context` on a result that holds an error of one of the parts.
  abbrev pub in_context :
      {E A : Type 0}
      → String
      → (E → Report Failure Mismatch Unread Yaml)
      → Store × Result E A
      → Store × Result (Report Failure Mismatch Unread Yaml) A
  in_context text report answer = wrap_result (λ e. context text (report e)) answer

  unfoldable pub connect :
      ValidatedConfig → Audited (Graph Store Txn Row Mismatch Stream Merged Failure)
  connect config =
      lift (ok_or (context "NEO4J_PASSWORD is not set" not_set) world.environment.neo4j_password)
      >>> λ password store.
          resume
            (in_context "failed to build the neo4j connection config" driver_error
              (store, world.build_settings config.neo4j.uri config.neo4j.user password))
            (λ settings store.
              in_context "failed to connect to neo4j" driver_error
                (world.connect_to settings store))

  -- The loop over the candidates.
  unfoldable pub evaluate_all :
      ℕ → List PathCandidate → Result EvaluationError (List ReachabilityFinding)
  evaluate_all n [] = ok []
  evaluate_all n (candidate ∷ candidates) = evaluate (world.timestamps n) candidate >>= λ finding.
      map_ok (λ findings. finding ∷ findings) (evaluate_all (suc n) candidates)

  abbrev pub aws_error :
      String → IngestError SdkFailure (WriteError Failure) → Report Failure Mismatch Unread Yaml
  aws_error operation e = aws_failure (
      classify world.environment.aws_profile operation (chain_of world.causes world.write_causes e))

  abbrev pub selectors_of : ValidatedConfig → BoundarySelectors
  selectors_of config = record {
    vpc_ids = config.boundary.vpc_ids;
    cidrs = config.boundary.cidrs;
    tags = config.boundary.tags;
  }

  -- The stages, each with its name around its error.
  unfoldable pub stage_connect :
      ValidatedConfig → Audited (Graph Store Txn Row Mismatch Stream Merged Failure)
  unfolding connect
  stage_connect config store = in_context "stage: connect" (λ e. e) (connect config store)

  unfoldable pub stage_migrate :
      Graph Store Txn Row Mismatch Stream Merged Failure → Audited MigrationSummary
  stage_migrate graph store =
      in_context "stage: migrate" migration_error
        (migrations_run graph.migrations migration_files store)

  unfoldable pub stage_boundary :
      Graph Store Txn Row Mismatch Stream Merged Failure → String → Audited (Unit {0})
  unfolding boundary_record
  stage_boundary graph account_id store = in_context "stage: boundary" write_error (
      neo4j_writer graph.driver (upsert_regulated_boundaries (boundary_record account_id ∷ []))
        store)

  unfoldable pub stage_ingest :
      Graph Store Txn Row Mismatch Stream Merged Failure
      → Client SdkFailure
      → String
      → Audited (IngestReport Duration)
  stage_ingest graph client account_id store =
      in_context "stage: ingest" (λ e. aws_error (operation_of e) e)
        (run_full_ingest_with_client (neo4j_writer graph.driver) world.elapsed world.earliest client
          account_id store)

  unfoldable pub stage_assembly :
      Graph Store Txn Row Mismatch Stream Merged Failure
      → ValidatedConfig
      → String
      → Audited (List PathCandidate)
  unfolding boundary_record
  stage_assembly graph config account_id store =
      in_context "stage: evaluate (candidate assembly)" assembly_error (
        store,
        assemble_candidates (graph.eni_rows store) (graph.route_rows store)
            (boundary_record account_id).id (selectors_of config),
      )

  unfoldable pub stage_evaluate : List PathCandidate → Audited (List ReachabilityFinding)
  unfolding evaluate_all
  stage_evaluate candidates store =
      in_context "stage: evaluate" evaluation_error (store, evaluate_all zero candidates)

  -- The last stages, on the graph that the others left.
  unfoldable pub assess :
      Graph Store Txn Row Mismatch Stream Merged Failure
      → ValidatedConfig
      → String
      → Audited Outcome
  unfolding findings_to_outcome
  assess graph config account_id = stage_assembly graph config account_id >>> λ candidates.
      stage_evaluate candidates >>> λ findings. lift (ok (findings_to_outcome findings))

  unfoldable pub run_with_ec2_client :
      ValidatedConfig → Client SdkFailure → String → Audited Outcome
  unfolding assess
  run_with_ec2_client config client account_id = stage_connect config >>> λ graph.
      stage_migrate graph >>> λ _. stage_boundary graph account_id >>> λ _.
      stage_ingest graph client account_id >>> λ _. assess graph config account_id

  -- What `run` does once the preflight check is through.
  unfoldable pub run_on_aws : ValidatedConfig → Audited Outcome
  unfolding run_with_ec2_client
  run_on_aws config =
      (λ store.
        in_context "stage: ingest" (aws_error "BuildSdkConfig")
          (store, build_sdk_config world.environment (some config.region)))
      >>> λ sdk_config.
          (λ store.
            in_context "stage: ingest" (aws_error "GetCallerIdentity")
              (store, resolve_account_id (world.identity_of sdk_config)))
          >>> λ account_id. run_with_ec2_client config (world.client_of sdk_config) account_id

  -- Nothing where the wait for the service does not end.
  unfoldable pub run :
      ValidatedConfig
      → Store
      → Option (Store × Result (Report Failure Mismatch Unread Yaml) Outcome)
  unfolding run_on_aws
  run config store =
      map_some
        (λ checked.
          resume (in_context "stage: preflight" preflight_error checked) (λ _. run_on_aws config))
        (preflight_run world.machine store)

  abbrev pub read_config : String → Result (Report Failure Mismatch Unread Yaml) ValidatedConfig
  read_config path =
      map_err (λ e. context "failed to read config file" (config_error e))
        (from_path world.from_str world.read_to_string path)
      >>= λ raw.
          map_err (λ e. context "failed to validate config" (config_error e))
            (validate world.is_uppercase raw)

  unfoldable pub run_read :
      Result (Report Failure Mismatch Unread Yaml) ValidatedConfig
      → Store
      → Option (Store × Result (Report Failure Mismatch Unread Yaml) Outcome)
  unfolding run
  run_read (ok config) store = run config store
  run_read (err e) store = some (store, err e)

  unfoldable pub dispatch :
      Command → Store → Option (Store × Result (Report Failure Mismatch Unread Yaml) Outcome)
  dispatch (run_command path) store = run_read (read_config path) store
  dispatch preflight_command store =
      map_some (λ checked. resume (wrap_result preflight_error checked) (λ _. lift (ok clean)))
        (preflight_run world.machine store)
