-- ===== src/Audit/World.antt =====
-- crates/audit-local/src/run.rs: what the audit talks to, and the errors that it reports.
use aws_net_hound.Base.{ℕ, Bool, Option, List, String, Result}
use aws_net_hound.Base.Effect.{Effect}
use aws_net_hound.Evaluate.Types.{EvaluationError}
use aws_net_hound.Evaluate.Candidates.Rows.{CandidateAssemblyError, EniRow}
use aws_net_hound.Evaluate.Candidates.Fetch.{Executed, RouteRow}
use aws_net_hound.Graph.Writer.{Driver, WriteError}
use aws_net_hound.Ingest.Client.{SdkConfig, Environment}
use aws_net_hound.Ingest.Collect.{Client}
use aws_net_hound.Migrations.Types.{MigrationError, Connection}
use aws_net_hound.Audit.Config.{Config, ConfigError}
use aws_net_hound.Audit.Failure.{AwsFailure, Cause}
use aws_net_hound.Audit.Preflight.{Machine, PreflightError}

-- A connection to the database, as the three clients of it see it. The two queries of the assembly only
-- read.
pub record Graph (Store Txn Row Mismatch Stream Merged Failure : Type 0) : Type 0 where
  pub migrations : Connection Store Txn Row Failure Mismatch
  pub driver : Driver Store Failure Stream Merged
  pub eni_rows : Store → Executed EniRow
  pub route_rows : Store → Executed RouteRow

-- `anyhow::Error`: an error of one of the parts, or a text, with the contexts put around it.
pub data Report (Failure Mismatch Unread Yaml : Type 0) : Type 0 where
  context :
      (text : String) (source : Report Failure Mismatch Unread Yaml)
      → Report Failure Mismatch Unread Yaml
  not_set : Report Failure Mismatch Unread Yaml
  driver_error : Failure → Report Failure Mismatch Unread Yaml
  config_error : ConfigError Unread Yaml → Report Failure Mismatch Unread Yaml
  preflight_error : PreflightError → Report Failure Mismatch Unread Yaml
  migration_error : MigrationError Failure Mismatch → Report Failure Mismatch Unread Yaml
  write_error : WriteError Failure → Report Failure Mismatch Unread Yaml
  aws_failure : AwsFailure → Report Failure Mismatch Unread Yaml
  assembly_error : CandidateAssemblyError → Report Failure Mismatch Unread Yaml
  evaluation_error : EvaluationError → Report Failure Mismatch Unread Yaml

-- What the audit finds outside: the machine, the environment, the driver and the SDK. `causes` is the
-- chain of sources of an error of the SDK, `write_causes` that of an error of the writer, `timestamps`
-- the time that each evaluation formats; `from_str` is what serde makes of the YAML.
pub record World
    (Store Txn Row Mismatch Stream Merged Failure SdkFailure Settings Duration Unread Yaml : Type 0)
    : Type 0 where
  pub machine : Machine Store
  pub environment : Environment
  pub build_settings : (uri user password : String) → Result Failure Settings
  pub connect_to :
      Settings → Effect Store Failure (Graph Store Txn Row Mismatch Stream Merged Failure)
  pub client_of : SdkConfig → Client SdkFailure
  pub identity_of : SdkConfig → Result SdkFailure (Option String)
  pub causes : SdkFailure → List Cause
  pub write_causes : WriteError Failure → List Cause
  pub earliest : ℕ
  pub elapsed : Duration
  pub timestamps : ℕ → Option String
  pub from_str : String → Result Yaml Config
  pub read_to_string : String → Result Unread String
  pub is_uppercase : ℕ → Bool
